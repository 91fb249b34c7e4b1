-- ===== src/Storage.antt =====
-- src/storage.h and src/storage.cpp: the store of keys and values, on RocksDB.
pub mod Puts
use epx_c.Base.{
  ℕ, ◌-◌, Bool, true, false, Option, none, some, List, [], ◌∷◌, take, ◌==◌, if◌then◌else◌, Outcome,
  ok, fault, out_of_bounds, null_deref, ◌>>=◌,
}
use epx_c.Epx.{key_size}
use epx_c.Extern.Rocks.{Rocks}

-- `value` is the memory that the pointer points to.
pub record Kv : Type 0 where
  pub key : List ℕ
  pub value : List ℕ

-- The read and the write options, which nothing sets, are left out.
pub record Store (rocks : Rocks) : Type 0 where
  pub db : Option rocks.Db
  pub options : Option rocks.Options
  pub w_batch : Option rocks.Batch
  pub error : Option (List ℕ)

-- The `strlen(value) + 1` bytes of a string; what has no end is read past its array.
unfoldable pub c_string : List ℕ → Outcome (List ℕ)
c_string [] = fault out_of_bounds
c_string (c ∷ cs) =
    let rest = c_string cs in if c == 0 then ok (c ∷ []) else rest >>= λ r. ok (c ∷ r)

-- the bytes of the key that are stored
abbrev pub key_bytes : Kv → List ℕ
key_bytes kv = take (key_size - 1) kv.key

-- An error is set where a call fails, and stays where it does not.
abbrev pub or_error : Option (List ℕ) → Option (List ℕ) → Option (List ℕ)
or_error (some e) old = some e
or_error none old = old

-- a pointer that may be null
abbrev pub deref : {A : Type 0} → Option A → Outcome A
deref none = fault null_deref
deref (some a) = ok a

-- the loop over the keys and values
unfoldable pub batch_puts : (rocks : Rocks) → rocks.Batch → List Kv → Outcome rocks.Batch
batch_puts rocks b [] = ok b
batch_puts rocks b (kv ∷ kvs) =
    c_string kv.value >>= λ d. batch_puts rocks (rocks.batch_put b (key_bytes kv) d) kvs

module _ {rocks : Rocks} where
  -- The result is `false` for -1. `cpus` are the processors that are online.
  unfoldable pub open_store : ℕ → List ℕ → Store rocks → Bool × Store rocks
  open_store cpus path s =
      let options =
        rocks.set_create_if_missing
          (rocks.optimize_level_style_compaction
            (rocks.increase_parallelism rocks.options_create cpus) 0)
          true in
      let (err, db) = rocks.open_db options path in
      let opened = record s {
        options = some options;
        db = elim err [ none ↦ some db | some e ↦ none ];
        error = or_error err s.error;
      } in
      elim opened.error [
        | some e ↦ (false, opened)
        | none ↦ (true, record opened { w_batch = some rocks.batch_create })
      ]

  unfoldable pub store_get : Store rocks → Kv → Outcome (Option (List ℕ) × Store rocks)
  store_get s kv = deref s.db >>= λ db.
      let (err, got) = rocks.db_get db (key_bytes kv) in
      ok (got, record s { error = or_error err s.error })

  unfoldable pub store_put : Store rocks → Kv → Outcome (Store rocks)
  store_put s kv = deref s.db >>= λ db. c_string kv.value >>= λ d.
      let (err, db') = rocks.db_put db (key_bytes kv) d in
      ok (record s { db = some db'; error = or_error err s.error })

  unfoldable pub store_batch_put : Store rocks → List Kv → Outcome (Store rocks)
  store_batch_put s kvs = elim s.w_batch [
    | none ↦ ok s
    | some b ↦ batch_puts rocks (rocks.batch_clear b) kvs >>= λ b'. deref s.db >>= λ db.
        let (err, db') = rocks.db_write db b' in
        ok (record s { db = some db'; w_batch = some b'; error = or_error err s.error })
  ]
