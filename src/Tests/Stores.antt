-- ===== src/Tests/Stores.antt =====
-- The store on a database that is a list of puts, the newest first.
use epx_c.Base.{ℕ, ◌≡◌, refl, ◌⊎◌, Option, none, some, List, [], ◌∷◌, ◌++◌, if◌then◌else◌, ok}
use epx_c.Extern.Rocks.{Rocks, RocksLaws, same_bytes, last_put}
use epx_c.Storage.{Kv, Store, store_put, store_batch_put}
use epx_c.Storage.Puts.{
  put_all, HasError, PutIsRead, ReadsSame, store_get-store_put, store_batch_put-put_all,
}

abbrev value_in : List (List ℕ × List ℕ) → List ℕ → Option (List ℕ)
value_in [] j = none
value_in (u ∷ us) j = if same_bytes u.0 j then some u.1 else value_in us j

abbrev apply : List (List ℕ × List ℕ) → List (List ℕ × List ℕ) → List (List ℕ × List ℕ)
apply [] db = db
apply (u ∷ us) db = apply us (u ∷ db)

abbrev list_rocks : Rocks
list_rocks = record {
  Options = Unit;
  Db = List (List ℕ × List ℕ);
  Batch = List (List ℕ × List ℕ);
  options_create = tt;
  increase_parallelism = λ o n. o;
  optimize_level_style_compaction = λ o n. o;
  set_create_if_missing = λ o b. o;
  open_db = λ o path. (none, []);
  db_get = λ db k. (none, value_in db k);
  db_put = λ db k d. (none, (k, d) ∷ db);
  batch_create = [];
  batch_clear = λ b. [];
  batch_put = λ b k d. b ++ ((k, d) ∷ []);
  db_write = λ db b. (none, apply b db);
}

value_in-apply :
    (us db : List (List ℕ × List ℕ)) (j : List ℕ)
    → value_in (apply us db) j ≡ last_put us j (value_in db j)
value_in-apply [] db j = refl
value_in-apply (u ∷ us) db j = value_in-apply us (u ∷ db) j

abbrev list_laws : RocksLaws list_rocks
list_laws = record {
  value = value_in;
  updates = λ b. b;
  get_value = λ db k e. refl;
  put_value = λ db k d j e. refl;
  clear_updates = λ b. refl;
  put_updates = λ b k d. refl;
  write_value = λ db b j e. value_in-apply b db j;
}

abbrev opened : Store list_rocks
opened = record { db = some []; options = some tt; w_batch = some []; error = none }

abbrev one : Kv
one = record { key = 1 ∷ 2 ∷ 0 ∷ []; value = 7 ∷ 0 ∷ [] }

abbrev two : Kv
two = record { key = 1 ∷ 3 ∷ 0 ∷ []; value = 8 ∷ 9 ∷ 0 ∷ [] }

store_get-store_put_example :
    (s' : Store list_rocks) × (store_put opened one ≡ ok s')
    × (HasError s' ⊎ ((j : Kv) → PutIsRead opened s' one j))
store_get-store_put_example = store_get-store_put list_rocks list_laws opened [] one refl refl

store_batch_put-put_all_example :
    (s1 : Store list_rocks) × (s2 : Store list_rocks) × (store_batch_put opened
        (one ∷ two ∷ one ∷ [])
      ≡ ok s1)
    × (put_all list_laws opened (one ∷ two ∷ one ∷ []) ≡ ok s2)
    × (HasError s1 ⊎ (HasError s2 ⊎ ((j : Kv) → ReadsSame s1 s2 j)))
store_batch_put-put_all_example =
    store_batch_put-put_all list_rocks list_laws opened [] [] (one ∷ two ∷ one ∷ []) refl refl
      (refl, (refl, (refl, tt)))
