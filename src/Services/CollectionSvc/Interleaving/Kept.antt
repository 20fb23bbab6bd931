-- ===== src/Services/CollectionSvc/Interleaving/Kept.antt =====
-- The quota and the default collection under the interleavings of `CollectionSvc`
-- (internal/collectionsvc/collectionsvc.go).
use wavelen.Prelude.{
  ℕ, ◌≤◌, true, false, not, List, [], ◌∷◌, ◌++◌, ◌&&◌, any, all, count, count-append, filter,
  length, length-append, leb, ◌==◌, nat_eq, if◌then◌else◌, ◌≡◌, refl, ap, ◌∙◌, arith,
}
use wavelen.Prelude.Moves.{
  all_replaced, all_here, count_replaced, one_replaced, length-filter-le, all-append, all-filter,
  all-find, all_weaker, all-map, count-map_same, length-map,
}
use wavelen.Storage.Schema.{CreateParams, UpdateParams, CollectionRow, owned_with_id}
use wavelen.Storage.Collections.{update_rows, updated}
use wavelen.Services.CollectionSvc.Interleaving.{
  Place, before_lock, locked, counted, inserted, before_lookup, found, ended, holds_lock, Shared,
  placed, created_row, has_id, Step, arrive, lock, count_rows, refuse, insert, commit, fail,
  arrive_delete, look_up, keep, delete, update, Runs, start, then_,
}
use wavelen.Services.CollectionSvc.Interleaving.Sound.{
  marked, sound, is_default_row, IsKept, fresh_other, default_spared, roomier, free_sound,
  default_there,
}

module _ (first uid quota : ℕ) where
  -- A request that moves without writing.
  moved-IsKept :
      (stored : List CollectionRow) (pre : List Place) (p q : Place) (post : List Place)
      → count holds_lock (pre ++ q ∷ post) ≤ 1
      → sound first quota (length stored) q ≡ true
      → IsKept first quota (placed stored pre p post)
      → IsKept first quota (placed stored pre q post)
  unfolding placed
  moved-IsKept stored pre p q post one safe (h, len, def, rows, all_sound) = (
    one,
    len,
    def,
    rows,
    all_replaced (sound first quota (length stored)) pre p q post all_sound safe,
  )

  -- A request that ends without writing.
  ended-IsKept :
      (stored : List CollectionRow) (pre : List Place) (p : Place) (post : List Place)
      → IsKept first quota (placed stored pre p post)
      → IsKept first quota (placed stored pre ended post)
  unfolding placed count holds_lock sound
  ended-IsKept stored pre p post k =
      moved-IsKept stored pre p ended post
        (one_replaced holds_lock pre p ended post (omega arith) k.0) refl k

  -- After the COMMIT of the only holder.
  written-IsKept :
      (row : CollectionRow) (stored : List CollectionRow) (pre post : List Place)
      → IsKept first quota (placed stored pre (inserted row) post)
      → IsKept first quota (placed (stored ++ row ∷ []) pre ended post)
  unfolding placed count holds_lock sound
  written-IsKept row stored pre post (h, len, def, rows, all_sound) =
      let room = all_here (sound first quota (length stored)) pre (inserted row) post all_sound in
      let nobody : count holds_lock (pre ++ ended ∷ post) ≡ 0 =
        omega (arith, h, count_replaced holds_lock pre (inserted row) ended post) in
      (
        omega (arith, nobody),
        ground (arith, room, length-append stored (row ∷ [])),
        ground (arith, room, def, count-append is_default_row stored (row ∷ [])),
        all-append (marked first) stored (row ∷ []) rows (ground (arith, room)),
        free_sound first quota (length stored) (length (stored ++ row ∷ [])) (pre ++ ended ∷ post)
            nobody
            (all_replaced (sound first quota (length stored)) pre (inserted row) ended post
              all_sound refl),
      )

  -- A deletion of another row than the default one.
  deleted-IsKept :
      (row : CollectionRow) (stored : List CollectionRow) (pre post : List Place)
      → row.is_default ≡ false
      → IsKept first quota (placed stored pre (found row) post)
      → IsKept first quota
          (placed (filter (λ r. not (owned_with_id uid row.id r)) stored) pre ended post)
  unfolding placed sound
  deleted-IsKept row stored pre post d k =
      let gone = λ (r : CollectionRow). not (owned_with_id uid row.id r) in
      let (h, len, def, rows, all_sound) = ended-IsKept stored pre (found row) post k in
      let mark = all_here (sound first quota (length stored)) pre (found row) post k.4 in
      (
        h,
        omega (arith, len, length-filter-le gone stored),
        default_spared first uid row mark d stored rows ∙ def,
        all-filter (marked first) gone stored rows,
        all_weaker (sound first quota (length stored))
            (sound first quota (length (filter gone stored)))
            (roomier first quota (length stored) (length (filter gone stored))
              (length-filter-le gone stored))
            (pre ++ ended ∷ post) all_sound,
      )

  -- An update leaves the id and the mark of the default one.
  updated-marked :
      (id : ℕ) (p : UpdateParams) (r : CollectionRow)
      → marked first (if owned_with_id uid id r then updated p r else r) ≡ marked first r
  unfolding marked updated
  updated-marked id p r = ground arith

  updated-is_default :
      (id : ℕ) (p : UpdateParams) (r : CollectionRow)
      → is_default_row (if owned_with_id uid id r then updated p r else r) ≡ is_default_row r
  unfolding updated
  updated-is_default id p r = ground arith

  updated-IsKept :
      (id : ℕ) (p : UpdateParams) (stored : List CollectionRow) (rs : List Place)
      → IsKept first quota (record { stored = stored; requests = rs })
      → IsKept first quota (record { stored = update_rows uid id p stored; requests = rs })
  unfolding update_rows
  updated-IsKept id p stored rs (h, len, def, rows, all_sound) =
      let change = λ (r : CollectionRow). if owned_with_id uid id r then updated p r else r in
      let same = length-map change stored in
      (
        h,
        omega (arith, len, same),
        count-map_same is_default_row change (updated-is_default id p) stored ∙ def,
        all-map (marked first) change (updated-marked id p) stored ∙ rows,
        ap (λ n. all (sound first quota n) rs) same ∙ all_sound,
      )

  created-marked :
      (id now : ℕ) (p : CreateParams)
      → (id == first) ≡ false
      → marked first (created_row uid id now p) ≡ true
  unfolding marked created_row
  created-marked id now p e = ground arith

  -- The insert of a row with a fresh id, below the quota.
  inserted-IsKept :
      (n id now : ℕ) (p : CreateParams) (stored : List CollectionRow) (pre post : List Place)
      → leb quota n ≡ false
      → any (has_id id) stored ≡ false
      → IsKept first quota (placed stored pre (counted n p) post)
      → IsKept first quota (placed stored pre (inserted (created_row uid id now p)) post)
  unfolding placed count holds_lock sound created_row
  inserted-IsKept n id now p stored pre post room fresh k =
      let row = created_row uid id now p in
      let counts = all_here (sound first quota (length stored)) pre (counted n p) post k.4 in
      let mark = created-marked id now p (fresh_other first id stored k.3 k.2 fresh) in
      moved-IsKept stored pre (counted n p) (inserted row) post
        (one_replaced holds_lock pre (counted n p) (inserted row) post (omega arith) k.0)
        (ground (arith, room, counts, mark)) k

  Step-IsKept : (s t : Shared) → Step uid quota s t → IsKept first quota s → IsKept first quota t
  unfolding placed count holds_lock sound
  Step-IsKept _ _ (arrive p stored rs) (h, len, def, rows, all_sound) =
      (omega (arith, h), len, def, rows, all_sound)
  Step-IsKept _ _ (lock p stored pre post nobody) k =
      moved-IsKept stored pre (before_lock p) (locked p) post
        (omega (arith, nobody, count_replaced holds_lock pre (before_lock p) (locked p) post)) refl
        k
  Step-IsKept _ _ (count_rows p stored pre post) k =
      moved-IsKept stored pre (locked p) (counted (length stored) p) post
        (one_replaced holds_lock pre (locked p) (counted (length stored) p) post (omega arith) k.0)
        (ground arith) k
  Step-IsKept _ _ (refuse n p stored pre post full) k = ended-IsKept stored pre (counted n p) post k
  Step-IsKept _ _ (insert n id now p stored pre post room fresh) k =
      inserted-IsKept n id now p stored pre post room fresh k
  Step-IsKept _ _ (commit row stored pre post) k = written-IsKept row stored pre post k
  Step-IsKept _ _ (fail p stored pre post) k = ended-IsKept stored pre p post k
  Step-IsKept _ _ (arrive_delete id stored rs) (h, len, def, rows, all_sound) =
      (omega (arith, h), len, def, rows, all_sound)
  Step-IsKept _ _ (look_up id row stored pre post e) k =
      moved-IsKept stored pre (before_lookup id) (found row) post
        (one_replaced holds_lock pre (before_lookup id) (found row) post (omega arith) k.0)
        (all-find (marked first) (owned_with_id uid id) stored row k.3 e) k
  Step-IsKept _ _ (keep row stored pre post d) k = ended-IsKept stored pre (found row) post k
  Step-IsKept _ _ (delete row stored pre post d) k = deleted-IsKept row stored pre post d k
  Step-IsKept _ _ (update id p stored rs) k = updated-IsKept id p stored rs k

  Runs-IsKept :
      (default : CollectionRow)
      → default.id ≡ first
      → default.is_default ≡ true
      → 1 ≤ quota
      → (s : Shared) → Runs uid quota default s
      → IsKept first quota s
  unfolding count marked
  Runs-IsKept default e d q _ start =
      (omega arith, omega (arith, q), ground (arith, d), ground (arith, e, d), refl)
  Runs-IsKept default e d q _ (then_ s t r step) =
      Step-IsKept s t step (Runs-IsKept default e d q s r)

-- For an account with its default collection and a positive quota: however creations, updates,
-- deletions and failures interleave, the user never has more collections than the quota, one
-- request at most is past its lock and before its end, and the default collection is there and is
-- the only default one, although a deletion looks its collection up outside of any transaction.
pub Runs-default :
    (uid quota : ℕ) (default : CollectionRow) (s : Shared)
    → default.is_default ≡ true
    → 1 ≤ quota
    → Runs uid quota default s
    → (length s.stored ≤ quota)
      × (count holds_lock s.requests ≤ 1)
      × (count (λ r. r.is_default) s.stored ≡ 1)
      × (any (λ r. r.is_default && (r.id == default.id)) s.stored ≡ true)
Runs-default uid quota default s d q r =
    let (h, len, def, rows, all_sound) = Runs-IsKept default.id uid quota default refl d q s r in
    (len, h, def, default_there default.id s.stored rows (omega (arith, def)))
