-- ===== src/Storage/Export.antt =====
-- internal/storage/export_repo.go: the collections of a user with their colors, by one joined query
-- and a loop over its rows.
use wavelen.Prelude.{
  ℕ, Bool, true, false, Option, none, some, List, [], ◌∷◌, ◌++◌, map, filter, last?, ◌==◌, nat_eq,
  if◌then◌else◌, ◌≡◌, refl, ap, arith, append_assoc, append-nil, ==_refl, sym, ◌∙◌, count, ◌≤◌, ok,
  inl, inr, ◌⊎◌, Bool-cases,
}
use wavelen.Errors.{storage_error}
use wavelen.Storage.Schema.{
  Collection, Color, Tables, CollectionRow, in_collection, has_id, owned_by,
}
use wavelen.Storage.Actions.{World, M, statement, rescue, gets}
use wavelen.Storage.Order.{ascending, sort}
use wavelen.Storage.Order.Laws.{count-sort}
use wavelen.Storage.Collections.{collection_key, collections_of}

-- `CltWithColors`
pub record CltWithColors : Type 0 where
  pub clt : Collection
  pub colors : List Color

-- A row of the LEFT JOIN: no color is a null one.
pub record JoinRow : Type 0 where
  pub clt : Collection
  pub color : Option Color

-- ORDER BY cc.created_at, cc.hex
abbrev pub color_time_key : Color → List ℕ
color_time_key c = c.created_at ∷ c.hex

unfoldable pub colors_by_time : ℕ → Tables → List Color
colors_by_time cid t =
    sort ascending color_time_key (map (λ r. r.color) (filter (in_collection cid) t.colors))

rows_of : Collection → List Color → List JoinRow
rows_of c [] = record { clt = c; color = none } ∷ []
rows_of c (x ∷ xs) = map (λ y. record { clt = c; color = some y }) (x ∷ xs)

joined_rows : (Collection → List Color) → List Collection → List JoinRow
joined_rows colors [] = []
joined_rows colors (c ∷ cs) = rows_of c (colors c) ++ joined_rows colors cs

-- The rows of the query. The order by creation and id keeps the rows of a collection together.
export_rows : ℕ → Tables → List JoinRow
export_rows uid t = joined_rows (λ c. colors_by_time c.id t) (collections_of uid t)

ends_with : ℕ → Option CltWithColors → Bool
ends_with id none = false
ends_with id (some e) = e.clt.id == id

-- `current.Colors = append(current.Colors, …)` for the last entry.
push_color : Option Color → List CltWithColors → List CltWithColors
push_color none out = out
push_color (some x) [] = []
push_color (some x) (e ∷ []) = record e { colors = e.colors ++ x ∷ [] } ∷ []
push_color (some x) (e ∷ f ∷ out) = e ∷ push_color (some x) (f ∷ out)

-- A row of another collection than the last entry's opens an entry.
open_entry : Collection → List CltWithColors → List CltWithColors
unfolding ends_with
open_entry c out =
    if ends_with c.id (last? out) then out else out ++ record { clt = c; colors = [] } ∷ []

-- The loop over the rows, with `out`.
scan : List CltWithColors → List JoinRow → List CltWithColors
scan out [] = out
scan out (r ∷ rows) = scan (push_color r.color (open_entry r.clt out)) rows

-- `ExportCollections`
unfoldable pub export_collections : ℕ → M (List CltWithColors)
unfolding scan push_color open_entry export_rows joined_rows rows_of statement
export_collections uid =
    rescue storage_error (statement (gets λ w. scan [] (export_rows uid w.tables)))

-- What the export promises: every collection, in order, with its colors by time.
abbrev pub export_promise : ℕ → Tables → List CltWithColors
export_promise uid t =
    map (λ c. record { clt = c; colors = colors_by_time c.id t }) (collections_of uid t)

push_color-concat :
    (out : List CltWithColors) (e : CltWithColors) (x : Color)
    → push_color (some x) (out ++ e ∷ []) ≡ out ++ record e { colors = e.colors ++ x ∷ [] } ∷ []
unfolding push_color
push_color-concat [] e x = refl
push_color-concat (f ∷ []) e x = refl
push_color-concat (f ∷ g ∷ out) e x =
    ap (λ (l : List CltWithColors). f ∷ l) (push_color-concat (g ∷ out) e x)

last?-concat : (out : List CltWithColors) (e : CltWithColors) → last? (out ++ e ∷ []) ≡ some e
last?-concat [] e = refl
last?-concat (f ∷ []) e = refl
last?-concat (f ∷ g ∷ out) e = last?-concat (g ∷ out) e

open_entry_same :
    (out : List CltWithColors) (c : Collection) (xs : List Color)
    → open_entry c (out ++ record { clt = c; colors = xs } ∷ [])
      ≡ out ++ record { clt = c; colors = xs } ∷ []
unfolding open_entry
open_entry_same out c xs = rw (last?-concat out (record { clt = c; colors = xs }), ==_refl c.id)

-- The rows of a collection that is open already.
scan_same :
    (out : List CltWithColors) (c : Collection) (xs ys : List Color) (rows : List JoinRow)
    → scan
        (out ++ record { clt = c; colors = xs } ∷ [])
        (map (λ y. record { clt = c; color = some y }) ys ++ rows)
      ≡ scan (out ++ record { clt = c; colors = xs ++ ys } ∷ []) rows
unfolding scan
scan_same out c xs [] rows = rw append-nil
scan_same out c xs (y ∷ ys) rows =
    let rest : List JoinRow = map (λ z. record { clt = c; color = some z }) ys ++ rows in
    ap (λ (o : List CltWithColors). scan (push_color (some y) o) rest) (open_entry_same out c xs)
    ∙ ap (λ (o : List CltWithColors). scan o rest)
        (push_color-concat out (record { clt = c; colors = xs }) y)
    ∙ scan_same out c (xs ++ y ∷ []) ys rows
    ∙ ap (λ (zs : List Color). scan (out ++ record { clt = c; colors = zs } ∷ []) rows)
        (append_assoc xs (y ∷ []) ys)

open_entry_new :
    (out : List CltWithColors) (c : Collection)
    → ends_with c.id (last? out) ≡ false
    → open_entry c out ≡ out ++ record { clt = c; colors = [] } ∷ []
unfolding open_entry
open_entry_new out c h = rw h

-- All the rows of a collection that is not open yet.
scan_collection :
    (out : List CltWithColors) (c : Collection) (xs : List Color) (rows : List JoinRow)
    → ends_with c.id (last? out) ≡ false
    → scan out (rows_of c xs ++ rows) ≡ scan (out ++ record { clt = c; colors = xs } ∷ []) rows
unfolding scan rows_of push_color
scan_collection out c [] rows h =
    ap (λ (o : List CltWithColors). scan o rows) (open_entry_new out c h)
scan_collection out c (x ∷ xs) rows h =
    let rest : List JoinRow = map (λ z. record { clt = c; color = some z }) xs ++ rows in
    ap (λ (o : List CltWithColors). scan (push_color (some x) o) rest) (open_entry_new out c h)
    ∙ ap (λ (o : List CltWithColors). scan o rest)
        (push_color-concat out (record { clt = c; colors = [] }) x)
    ∙ scan_same out c (x ∷ []) xs rows

-- Neighbours have different ids, the first one also from the last entry.
abbrev Apart : Option CltWithColors → List Collection → Type 0
Apart o [] = Unit
Apart o (c ∷ cs) = (ends_with c.id o ≡ false) × Apart (some (record { clt = c; colors = [] })) cs

Apart-next :
    (c : Collection) (xs : List Color) (cs : List Collection)
    → Apart (some (record { clt = c; colors = [] })) cs
    → Apart (some (record { clt = c; colors = xs })) cs
unfolding ends_with
Apart-next c xs [] h = tt
Apart-next c xs (d ∷ cs) h = h

scan-joined_rows :
    (colors : Collection → List Color) (out : List CltWithColors) (cs : List Collection)
    → Apart (last? out) cs
    → scan out (joined_rows colors cs) ≡ out ++ map (λ c. record { clt = c; colors = colors c }) cs
unfolding joined_rows
scan-joined_rows colors out [] h = unfold scan in sym (append-nil out)
scan-joined_rows colors out (c ∷ cs) (h, k) =
    let e : CltWithColors = record { clt = c; colors = colors c } in
    scan_collection out c (colors c) (joined_rows colors cs) h
    ∙ scan-joined_rows colors (out ++ e ∷ []) cs
        (rw (last?-concat out e) (Apart-next c (colors c) cs k))
    ∙ append_assoc out (e ∷ []) _

abbrev clt_id : ℕ → Collection → Bool
clt_id cid c = c.id == cid

Apart-of_unique :
    (o : Option CltWithColors) (cs : List Collection)
    → ((cid : ℕ) → ends_with cid o ≡ true → count (clt_id cid) cs ≡ 0)
    → ((cid : ℕ) → count (clt_id cid) cs ≤ 1)
    → Apart o cs
Apart-of_unique o [] n u = tt
Apart-of_unique o (c ∷ cs) n u = (
  first (Bool-cases (ends_with c.id o)),
  Apart-of_unique (some (record { clt = c; colors = [] })) cs
      (λ cid e. unfold ends_with count in ground (arith, u cid))
      (λ cid. unfold count in ground (arith, u cid)),
)
  where
    first : (ends_with c.id o ≡ true) ⊎ (ends_with c.id o ≡ false) → ends_with c.id o ≡ false
    first (inr e) = e
    first (inl e) = unfold count in ground (arith, n c.id e, ==_refl c.id)

count-clt :
    (uid cid : ℕ) (rows : List CollectionRow)
    → count (clt_id cid) (map (λ r. r.clt) (filter (owned_by uid) rows)) ≤ count (has_id cid) rows
unfolding count filter
count-clt uid cid [] = omega arith
count-clt uid cid (r ∷ rows) = ground (arith, count-clt uid cid rows)

collections_of-Apart :
    (uid : ℕ) (t : Tables)
    → ((cid : ℕ) → count (has_id cid) t.collections ≤ 1)
    → Apart none (collections_of uid t)
unfolding collections_of ends_with
collections_of-Apart uid t u =
    Apart-of_unique none (collections_of uid t) (λ cid e. cc)
      (λ cid. omega (
        arith,
        u cid,
        count-clt uid cid t.collections,
        count-sort ascending collection_key (clt_id cid)
            (map (λ r. r.clt) (filter (owned_by uid) t.collections)),
      ))

-- Where ids of collections are unique and the database answers: the export of a user is every
-- collection of the user, oldest first, each with all its colors by time; a collection without
-- colors is there with none.
pub export_collections_lem :
    (uid : ℕ) (w : World)
    → w.faults ≡ []
    → ((cid : ℕ) → count (has_id cid) w.tables.collections ≤ 1)
    → export_collections uid w ≡ (ok (export_promise uid w.tables), w)
unfolding export_collections export_rows statement
export_collections_lem uid w f u =
    let e : scan [] (export_rows uid w.tables) ≡ export_promise uid w.tables =
      scan-joined_rows (λ c. colors_by_time c.id w.tables) [] (collections_of uid w.tables)
        (collections_of-Apart uid w.tables u) in
    rw (f, export_collections)
      (ap (λ (xs : List CltWithColors). (ok xs, record w { faults = [] })) e)
