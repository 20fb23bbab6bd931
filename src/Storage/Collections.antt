-- ===== src/Storage/Collections.antt =====
-- internal/storage/collection_repo.go, over `collections` (migrations/000002).
use wavelen.Prelude.{
  ℕ, suc, Bool, true, false, Option, none, some, List, [], ◌∷◌, ◌++◌, ◌&&◌, map, filter, any, find,
  count, ◌==◌, nat_eq, bytes_eq, if◌then◌else◌, ok, err, ◌||◌,
}
use wavelen.Errors.{
  PgError, unique_violation, foreign_key_violation, no_rows, Error, user_not_found, not_found,
  storage_error,
}
use wavelen.Storage.Schema.{
  Collection, CreateParams, UpdateParams, CollectionRow, Tables, has_user_id, owned_by,
  owned_with_id, delete_collections,
}
use wavelen.Storage.Actions.{
  World, M, Statement, statement, rescue, select_one, change, pure, raise, gets, ◌>>=◌,
}
use wavelen.Storage.Order.{ascending, sort}

-- `collections_one_default_per_user`
abbrev pub default_of : ℕ → CollectionRow → Bool
default_of uid r = (r.user_id == uid) && r.is_default

-- The constraints that the new row meets first: the primary key and the unique index.
unfoldable pub clashes : CollectionRow → CollectionRow → Bool
clashes new r = (r.id == new.id) || (new.is_default && default_of new.user_id r)

unfoldable pub new_row : World → ℕ → CreateParams → CollectionRow
new_row w uid p = record {
  user_id = uid;
  clt = record {
    id = w.env.uuid w.uuid_seq;
    name = p.name;
    icon_slug = p.icon;
    icon_accent = p.accent;
    is_default = p.is_default;
    created_at = w.now;
  };
}

-- INSERT INTO collections … RETURNING …
unfoldable pub insert_collection : ℕ → CreateParams → Statement Collection
unfolding clashes new_row
insert_collection uid p w =
    let row = new_row w uid p in
    let w' = record w { uuid_seq = suc w.uuid_seq } in
    if any (clashes row) w.tables.collections
    then (err unique_violation, w')
    else if any (has_user_id uid) w.tables.users
    then (
      ok row.clt,
      record w' { tables = record w.tables { collections = w.tables.collections ++ row ∷ [] } },
    )
    else (err foreign_key_violation, w')

unfoldable pub create_collection_error : PgError → Error
create_collection_error foreign_key_violation = user_not_found
create_collection_error e = storage_error e

-- `CreateCollection`
unfoldable pub create_collection : ℕ → CreateParams → M Collection
unfolding insert_collection create_collection_error statement
create_collection uid p = rescue create_collection_error (statement (insert_collection uid p))

-- ORDER BY created_at, id
abbrev pub collection_key : Collection → List ℕ
collection_key c = c.created_at ∷ c.id ∷ []

unfoldable pub collections_of : ℕ → Tables → List Collection
collections_of uid t =
    sort ascending collection_key (map (λ r. r.clt) (filter (owned_by uid) t.collections))

-- `ListCollections`, oldest first.
unfoldable pub list_collections : ℕ → M (List Collection)
unfolding statement
list_collections uid = rescue storage_error (statement (gets λ w. collections_of uid w.tables))

-- `CountCollections`
unfoldable pub count_collections : ℕ → M ℕ
unfolding statement
count_collections uid =
    rescue storage_error (statement (gets λ w. count (owned_by uid) w.tables.collections))

unfoldable pub collection_error : PgError → Error
collection_error no_rows = not_found
collection_error e = storage_error e

-- `CollectionByID`, of this user only.
unfoldable pub collection_by_id : ℕ → ℕ → M Collection
unfolding select_one collection_error
collection_by_id uid id = do
  row ← rescue collection_error (select_one λ w. find (owned_with_id uid id) w.tables.collections)
  pure row.clt

-- COALESCE($n, column)
abbrev coalesce : {A : Type 0} → Option A → A → A
coalesce none old = old
coalesce (some new) old = new

unfoldable pub updated : UpdateParams → CollectionRow → CollectionRow
updated p r = record r {
  clt = record r.clt {
    name = coalesce p.name r.name;
    icon_slug = coalesce p.icon r.icon_slug;
    icon_accent = coalesce p.accent r.icon_accent;
  };
}

-- UPDATE collections … WHERE …
unfoldable pub update_rows : ℕ → ℕ → UpdateParams → List CollectionRow → List CollectionRow
unfolding updated
update_rows uid id p rows = map (λ r. if owned_with_id uid id r then updated p r else r) rows

-- UPDATE … RETURNING: no row matched is `pgx.ErrNoRows`.
unfoldable pub update_statement : ℕ → ℕ → UpdateParams → Statement Collection
unfolding update_rows updated
update_statement uid id p w = elim (find (owned_with_id uid id) w.tables.collections) [
  | none ↦ (err no_rows, w)
  | some r ↦ (
    ok (updated p r).clt,
    record w {
      tables = record w.tables { collections = update_rows uid id p w.tables.collections };
    },
  )
]

-- `UpdateCollection`
unfoldable pub update_collection : ℕ → ℕ → UpdateParams → M Collection
unfolding update_statement collection_error statement
update_collection uid id p = rescue collection_error (statement (update_statement uid id p))

-- `DeleteCollection`, which cascades to the collection's colors.
unfoldable pub delete_collection : ℕ → ℕ → M (Unit {0})
unfolding change delete_collections
delete_collection uid id = do
  n ← rescue storage_error (
      change λ w. (
        count (owned_with_id uid id) w.tables.collections,
        delete_collections (owned_with_id uid id) w.tables,
      ))
  if n == 0 then raise not_found else pure tt

-- `resolveCollection`. With `lock` the row is locked, which has no effect on the tables.
unfoldable pub resolve_collection_row : ℕ → ℕ → Bool → M ℕ
unfolding select_one collection_error
resolve_collection_row uid id lock = do
  row ← rescue collection_error (select_one λ w. find (owned_with_id uid id) w.tables.collections)
  pure row.id

-- `ResolveCollection`
unfoldable pub resolve_collection : ℕ → ℕ → M ℕ
unfolding resolve_collection_row
resolve_collection uid id = resolve_collection_row uid id false

-- `LockCollection`
unfoldable pub lock_collection : ℕ → ℕ → M ℕ
unfolding resolve_collection_row
lock_collection uid id = resolve_collection_row uid id true
