-- ===== src/Extern/Rocks.antt =====
-- RocksDB as src/storage.cpp calls it: a parameter, and what its documentation says of it.
use epx_c.Base.{
  ℕ, ◌≡◌, Bool, true, false, ◌&&◌, Option, none, some, List, [], ◌∷◌, ◌++◌, ◌==◌, if◌then◌else◌,
}

-- Bytes are lists of numbers. A call that may fail gives its error, if it has one.
pub record Rocks : Type 1 where
  pub Options : Type 0
  pub Db : Type 0
  pub Batch : Type 0
  pub options_create : Options
  pub increase_parallelism : Options → ℕ → Options
  pub optimize_level_style_compaction : Options → ℕ → Options
  pub set_create_if_missing : Options → Bool → Options
  pub open_db : Options → List ℕ → Option (List ℕ) × Db
  pub db_get : Db → List ℕ → Option (List ℕ) × Option (List ℕ)
  pub db_put : Db → List ℕ → List ℕ → Option (List ℕ) × Db
  pub batch_create : Batch
  pub batch_clear : Batch → Batch
  pub batch_put : Batch → List ℕ → List ℕ → Batch
  pub db_write : Db → Batch → Option (List ℕ) × Db

abbrev pub same_bytes : List ℕ → List ℕ → Bool
same_bytes [] [] = true
same_bytes [] (b ∷ bs) = false
same_bytes (a ∷ rest) [] = false
same_bytes (a ∷ rest) (b ∷ bs) = (a == b) && same_bytes rest bs

-- what a key holds after puts, the first of them first
abbrev pub last_put : List (List ℕ × List ℕ) → List ℕ → Option (List ℕ) → Option (List ℕ)
last_put [] j old = old
last_put (u ∷ us) j old = last_put us j (if same_bytes u.0 j then some u.1 else old)

-- A database holds for a key the value of its last put; a batch holds its puts in order, and a
-- write applies them. A read, a put or a write that fails gives an
-- error, and is then not described. `value` and `updates` are what they hold.
pub record RocksLaws (rocks : Rocks) : Type 0 where
  pub value : rocks.Db → List ℕ → Option (List ℕ)
  pub updates : rocks.Batch → List (List ℕ × List ℕ)
  pub get_value :
      (db : rocks.Db) (k : List ℕ)
      → (rocks.db_get db k).0 ≡ none
      → (rocks.db_get db k).1 ≡ value db k
  pub put_value :
      (db : rocks.Db) (k d j : List ℕ)
      → (rocks.db_put db k d).0 ≡ none
      → value (rocks.db_put db k d).1 j ≡ (if same_bytes k j then some d else value db j)
  pub clear_updates : (b : rocks.Batch) → updates (rocks.batch_clear b) ≡ []
  pub put_updates :
      (b : rocks.Batch) (k d : List ℕ)
      → updates (rocks.batch_put b k d) ≡ updates b ++ ((k, d) ∷ [])
  pub write_value :
      (db : rocks.Db) (b : rocks.Batch) (j : List ℕ)
      → (rocks.db_write db b).0 ≡ none
      → value (rocks.db_write db b).1 j ≡ last_put (updates b) j (value db j)
