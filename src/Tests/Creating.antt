-- ===== src/Tests/Creating.antt =====
-- A user who creates a collection and deletes it, under a quota of two collections.
use wavelen.Prelude.{
  ◌≤◌, codes, true, false, [], ◌∷◌, ◌&&◌, any, count, filter, find, length, ◌==◌, nat_eq, ◌≡◌, refl,
  arith, bytes_eq,
}
use wavelen.Storage.Schema.{CreateParams, CollectionRow}
use wavelen.Services.CollectionSvc.Interleaving.{
  before_lock, locked, counted, inserted, before_lookup, found, ended, holds_lock, Shared, placed,
  created_row, arrive, lock, count_rows, insert, commit, arrive_delete, look_up, delete, Runs,
  start, then_,
}
use wavelen.Services.CollectionSvc.Interleaving.Kept.{Runs-default}

abbrev default : CollectionRow
default = record {
  user_id = 7;
  clt = record {
    id = 1;
    name = codes "default";
    icon_slug = codes "square";
    icon_accent = codes "#dbd7d0";
    is_default = true;
    created_at = 3;
  };
}

abbrev blues : CreateParams
blues = record {
  name = codes "blues";
  icon = codes "drop";
  accent = codes "#0000ff";
  is_default = false;
}

abbrev blues_row : CollectionRow
blues_row = record {
  user_id = 7;
  clt = record {
    id = 2;
    name = codes "blues";
    icon_slug = codes "drop";
    icon_accent = codes "#0000ff";
    is_default = false;
    created_at = 5;
  };
}

abbrev created : Shared
created = record { stored = default ∷ blues_row ∷ []; requests = ended ∷ [] }

abbrev deleted : Shared
deleted = record { stored = default ∷ []; requests = ended ∷ ended ∷ [] }

blues-created : Runs 7 2 default created
unfolding placed holds_lock count any created_row
blues-created =
    let rows = default ∷ [] in
    then_ (placed rows [] (inserted blues_row) []) created
      (then_ (placed rows [] (counted 1 blues) []) (placed rows [] (inserted blues_row) [])
        (then_ (placed rows [] (locked blues) []) (placed rows [] (counted 1 blues) [])
          (then_ (placed rows [] (before_lock blues) []) (placed rows [] (locked blues) [])
            (then_ (record { stored = rows; requests = [] }) (placed rows [] (before_lock blues) [])
              start (arrive blues rows []))
            (lock blues rows [] [] refl))
          (count_rows blues rows [] []))
        (insert 1 2 5 blues rows [] [] refl refl))
      (commit blues_row rows [] [])

blues-deleted : Runs 7 2 default deleted
unfolding placed filter find
blues-deleted =
    let rows = default ∷ blues_row ∷ [] in
    let done = ended ∷ [] in
    then_ (placed rows [] (found blues_row) done) deleted
      (then_ (placed rows [] (before_lookup 2) done) (placed rows [] (found blues_row) done)
        (then_ created (placed rows [] (before_lookup 2) done) blues-created
          (arrive_delete 2 rows done))
        (look_up 2 blues_row rows [] done refl))
      (delete blues_row rows [] done refl)

Runs-default_example :
    (length deleted.stored ≤ 2)
    × (count holds_lock deleted.requests ≤ 1)
    × (count (λ r. r.is_default) deleted.stored ≡ 1)
    × (any (λ r. r.is_default && (r.id == default.id)) deleted.stored ≡ true)
Runs-default_example = Runs-default 7 2 default deleted refl (omega arith) blues-deleted
