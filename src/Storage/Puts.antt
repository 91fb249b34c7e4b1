-- ===== src/Storage/Puts.antt =====
-- What `store_get` of src/storage.cpp gives after `store_put` and `store_batch_put`.
use epx_c.Base.{
  ℕ, ◌≡◌, refl, ◌⊎◌, inl, inr, Bool, true, false, Option, none, some, List, [], ◌∷◌, ◌++◌, All, map,
  Bool-cases, Option-cases, arith, sym, ◌∙◌, ap, ◌==◌, if◌then◌else◌, Outcome, ok, fault, ◌>>=◌,
  append_assoc, append-nil,
}
use epx_c.Extern.Rocks.{Rocks, RocksLaws, same_bytes, last_put}
use epx_c.Storage.{
  Kv, Store, c_string, key_bytes, or_error, store_get, store_put, batch_puts, store_batch_put,
}

-- the bytes of a string, its end included
abbrev pub until_zero : List ℕ → List ℕ
until_zero [] = []
until_zero (c ∷ cs) = if c == 0 then c ∷ [] else c ∷ until_zero cs

abbrev pub has_zero : List ℕ → Bool
has_zero [] = false
has_zero (c ∷ cs) = if c == 0 then true else has_zero cs

-- a string in memory has an end
abbrev pub IsTerminated : Kv → Type 0
IsTerminated kv = has_zero kv.value ≡ true

abbrev pub entry : Kv → List ℕ × List ℕ
entry kv = (key_bytes kv, until_zero kv.value)

-- It returns, and this holds of the result.
abbrev pub Returns : {A : Type 0} → (A → Type 0) → Outcome A → Type 0
Returns P (ok a) = P a
Returns P (fault f) = ⊥

c_string-terminated : (cs : List ℕ) → has_zero cs ≡ true → c_string cs ≡ ok (until_zero cs)
unfolding c_string
c_string-terminated [] h = absurd (ground arith)
c_string-terminated (c ∷ cs) h = elim (Bool-cases (c == 0)) [
  | inl q ↦ rw q refl
  | inr q ↦ let rest = c_string-terminated cs (ground arith) in rw (q, rest) refl
]

last_put-append :
    (us ws : List (List ℕ × List ℕ)) (j : List ℕ) (old : Option (List ℕ))
    → last_put (us ++ ws) j old ≡ last_put ws j (last_put us j old)
last_put-append [] ws j old = refl
last_put-append (u ∷ us) ws j old = last_put-append us ws j _

module _ {rocks : Rocks} (laws : RocksLaws rocks) where
  batch_puts-updates :
      (b : rocks.Batch) (kvs : List Kv)
      → All IsTerminated kvs
      → (b' : rocks.Batch) × (batch_puts rocks b kvs ≡ ok b')
        × (laws.updates b' ≡ laws.updates b ++ map entry kvs)
  unfolding batch_puts
  batch_puts-updates b [] h = (b, refl, sym (append-nil (laws.updates b)))
  batch_puts-updates b (kv ∷ kvs) h =
      let (b', puts, updates) =
        batch_puts-updates (rocks.batch_put b (key_bytes kv) (until_zero kv.value)) kvs h.1 in
      (
        b',
        ap (λ o. o >>= λ d. batch_puts rocks (rocks.batch_put b (key_bytes kv) d) kvs)
              (c_string-terminated kv.value h.0)
            ∙ puts,
        updates
            ∙ ap (λ us. us ++ map entry kvs)
                (laws.put_updates b (key_bytes kv) (until_zero kv.value))
            ∙ append_assoc (laws.updates b) (entry kv ∷ []) (map entry kvs),
      )

  -- no error is set, so none was, and the call did not fail
  no_error : (e old : Option (List ℕ)) → or_error e old ≡ none → (e ≡ none) × (old ≡ none)
  no_error none old h = (refl, h)
  no_error (some e) old h = absurd (ground arith)

  -- `store_get` of an open store returns, and gives what the database holds unless an error is set.
  store_get-value :
      (s : Store rocks) (db : rocks.Db) (kv : Kv)
      → s.db ≡ some db
      → (r : Option (List ℕ) × Store rocks) × (store_get s kv ≡ ok r)
        × (r.1.error ≡ none → r.0 ≡ laws.value db (key_bytes kv))
  unfolding store_get
  store_get-value s db kv h = (
    (
      (rocks.db_get db (key_bytes kv)).1,
      record s { error = or_error (rocks.db_get db (key_bytes kv)).0 s.error },
    ),
    rw h refl,
    λ q. laws.get_value db (key_bytes kv) (no_error (rocks.db_get db (key_bytes kv)).0 s.error q).0,
  )

  store_put-value :
      (s : Store rocks) (db : rocks.Db) (kv : Kv)
      → s.db ≡ some db
      → IsTerminated kv
      → (s' : Store rocks) × (db' : rocks.Db) × (store_put s kv ≡ ok s')
        × (s'.db ≡ some db')
        × (s'.error ≡ none
            → (s.error ≡ none)
              × ((k : List ℕ)
                  → laws.value db' k ≡ (
                      if same_bytes (key_bytes kv) k
                      then some (until_zero kv.value)
                      else laws.value db k)))
  unfolding store_put
  store_put-value s db kv h t =
      let put = rocks.db_put db (key_bytes kv) (until_zero kv.value) in
      (
        record s { db = some put.1; error = or_error put.0 s.error },
        put.1,
        rw (h, c_string-terminated kv.value t) refl,
        refl,
        λ q.
            let (e, old) = no_error put.0 s.error q in
            (old, λ k. laws.put_value db (key_bytes kv) (until_zero kv.value) k e),
      )

  -- one `store_put` after another
  abbrev pub put_all : Store rocks → List Kv → Outcome (Store rocks)
  put_all s [] = ok s
  put_all s (kv ∷ kvs) = store_put s kv >>= λ s'. put_all s' kvs

  put_all-value :
      (s : Store rocks) (db : rocks.Db) (kvs : List Kv)
      → s.db ≡ some db
      → All IsTerminated kvs
      → (s' : Store rocks) × (db' : rocks.Db) × (put_all s kvs ≡ ok s')
        × (s'.db ≡ some db')
        × (s'.error ≡ none
            → (s.error ≡ none)
              × ((k : List ℕ) → laws.value db' k ≡ last_put (map entry kvs) k (laws.value db k)))
  put_all-value s db [] h t = (s, db, refl, h, λ q. (q, λ k. refl))
  put_all-value s db (kv ∷ kvs) h t =
      let (s1, db1, put, h1, gets) = store_put-value s db kv h t.0 in
      let (s2, db2, puts, h2, more) = put_all-value s1 db1 kvs h1 t.1 in
      (
        s2,
        db2,
        ap (λ o. o >>= λ s'. put_all s' kvs) put ∙ puts,
        h2,
        λ q.
            let (none1, got2) = more q in
            let (none0, got1) = gets none1 in
            (none0, λ k. got2 k ∙ ap (λ old. last_put (map entry kvs) k old) (got1 k)),
      )

  store_batch_put-value :
      (s : Store rocks) (db : rocks.Db) (b : rocks.Batch) (kvs : List Kv)
      → s.db ≡ some db
      → s.w_batch ≡ some b
      → All IsTerminated kvs
      → (s' : Store rocks) × (db' : rocks.Db) × (store_batch_put s kvs ≡ ok s')
        × (s'.db ≡ some db')
        × (s'.error ≡ none
            → (k : List ℕ) → laws.value db' k ≡ last_put (map entry kvs) k (laws.value db k))
  unfolding store_batch_put
  store_batch_put-value s db b kvs h g t =
      let (b', puts, updates) = batch_puts-updates (rocks.batch_clear b) kvs t in
      let written = rocks.db_write db b' in
      (
        record s { db = some written.1; w_batch = some b'; error = or_error written.0 s.error },
        written.1,
        rw (g, puts, h) refl,
        refl,
        λ q k.
            laws.write_value db b' k (no_error written.0 s.error q).0
            ∙ ap (λ us. last_put us k (laws.value db k))
                (updates ∙ ap (λ us. us ++ map entry kvs) (laws.clear_updates b)),
      )

-- An error is set.
abbrev pub HasError : {rocks : Rocks} → Store rocks → Type 0
HasError s = (e : List ℕ) × (s.error ≡ some e)

-- It has an error, or this holds where it has none.
or_HasError : {rocks : Rocks} (s : Store rocks) {P : Type 0} → (s.error ≡ none → P) → HasError s ⊎ P
or_HasError s h = elim (Option-cases s.error) [ inl q ↦ inr (h q) | inr q ↦ inl q ]

-- What `store_get` gives for `j` before and after a `store_put` of `kv`.
abbrev pub PutIsRead : {rocks : Rocks} → Store rocks → Store rocks → Kv → Kv → Type 0
PutIsRead {rocks} s s' kv j =
    (r : Option (List ℕ) × Store rocks) × (r' : Option (List ℕ) × Store rocks) × (store_get s j
      ≡ ok r)
    × (store_get s' j ≡ ok r')
    × (HasError r'.1
        ⊎ (((same_bytes (key_bytes kv) (key_bytes j) ≡ true) × (r'.0 ≡ some (until_zero kv.value)))
            ⊎ ((same_bytes (key_bytes kv) (key_bytes j) ≡ false) × (HasError r.1 ⊎ (r'.0 ≡ r.0)))))

-- What `store_get` gives for `j` in two stores: one of the reads fails, or they give the same.
abbrev pub ReadsSame : {rocks : Rocks} → Store rocks → Store rocks → Kv → Type 0
ReadsSame {rocks} s1 s2 j =
    (r1 : Option (List ℕ) × Store rocks) × (r2 : Option (List ℕ) × Store rocks) × (store_get s1 j
      ≡ ok r1)
    × (store_get s2 j ≡ ok r2)
    × (HasError r1.1 ⊎ (HasError r2.1 ⊎ (r1.0 ≡ r2.0)))

-- In an open store, `store_put` of a string returns; an error is then set, or for every key
-- `store_get` before and after it returns: the read after it sets an error; or the key agrees with
-- that of the put in the first `KEY_SIZE - 1` bytes, and it gives the string; or the key does not,
-- and it gives what the read before gave, unless that one set an error.
pub store_get-store_put :
    (rocks : Rocks) (laws : RocksLaws rocks) (s : Store rocks) (db : rocks.Db) (kv : Kv)
    → s.db ≡ some db
    → IsTerminated kv
    → (s' : Store rocks) × (store_put s kv ≡ ok s')
      × (HasError s' ⊎ ((j : Kv) → PutIsRead s s' kv j))
store_get-store_put rocks laws s db kv h t =
    let (s', db', put, h', gets) = store_put-value laws s db kv h t in
    (s', put, or_HasError s' (λ q. read s' db' h' (gets q).1))
  where
    read :
        (s' : Store rocks) (db' : rocks.Db)
        → s'.db ≡ some db'
        → ((k : List ℕ)
            → laws.value db' k ≡ (
                if same_bytes (key_bytes kv) k
                then some (until_zero kv.value)
                else laws.value db k))
        → (j : Kv) → PutIsRead s s' kv j
    read s' db' h' now j =
        let (r, get, was) = store_get-value laws s db j h in
        let (r', get', is) = store_get-value laws s' db' j h' in
        (
          r,
          r',
          get,
          get',
          or_HasError r'.1 (λ q. elim (Bool-cases (same_bytes (key_bytes kv) (key_bytes j))) [
            | inl e ↦ inl (e, is q ∙ now (key_bytes j) ∙ rw e refl)
            | inr e ↦
                inr (e, or_HasError r.1 (λ p. is q ∙ now (key_bytes j) ∙ rw e refl ∙ sym (was p)))
          ]),
        )

-- In an open store with a batch, `store_batch_put` of strings returns, and so does `store_put` of
-- one after another; one of them has then set an error, or for every key `store_get` after the one
-- and after the other returns, and one of these reads sets an error, or they give the same.
pub store_batch_put-put_all :
    (rocks : Rocks) (laws : RocksLaws rocks) (s : Store rocks) (db : rocks.Db) (b : rocks.Batch)
    (kvs : List Kv)
    → s.db ≡ some db
    → s.w_batch ≡ some b
    → All IsTerminated kvs
    → (s1 : Store rocks) × (s2 : Store rocks) × (store_batch_put s kvs ≡ ok s1)
      × (put_all laws s kvs ≡ ok s2)
      × (HasError s1 ⊎ (HasError s2 ⊎ ((j : Kv) → ReadsSame s1 s2 j)))
store_batch_put-put_all rocks laws s db b kvs h g t =
    let (s1, db1, batch, h1, gets1) = store_batch_put-value laws s db b kvs h g t in
    let (s2, db2, puts, h2, gets2) = put_all-value laws s db kvs h t in
    (
      s1,
      s2,
      batch,
      puts,
      or_HasError s1 (λ q. or_HasError s2 (λ p j.
          let (r1, get1, is1) = store_get-value laws s1 db1 j h1 in
          let (r2, get2, is2) = store_get-value laws s2 db2 j h2 in
          (
            r1,
            r2,
            get1,
            get2,
            or_HasError r1.1 (λ e1. or_HasError r2.1 (λ e2.
                is1 e1 ∙ gets1 q (key_bytes j) ∙ sym ((gets2 p).1 (key_bytes j)) ∙ sym (is2 e2))),
          ))),
    )
