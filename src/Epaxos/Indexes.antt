-- ===== src/Epaxos/Indexes.antt =====
-- The indexes of a replica of src/replica.c, under a write to an instance, a new instance and
-- `clear`.
pub mod Entries
pub mod Finds
use epx_c.Base.{
  ℕ, zero, suc, ◌+◌, ◌<◌, ◌≡◌, ◌≢◌, refl, sym, ap, subst, ◌∙◌, ◌⊎◌, inl, inr, Bool, true, false,
  Option, none, some, List, [], ◌∷◌, All, length, get_or, set, length-set, ltb, ◌==◌, if◌then◌else◌,
  Outcome, ok, fault, ◌>>=◌, Ensures, Ensures-bind, Option-cases, Bool-cases, arith,
}
use epx_c.Epx.{n_replicas}
use epx_c.InstanceId.{InstanceId}
use epx_c.Instance.{Instance, LeaderTracker}
use epx_c.Instance.Deps.Sorted.{IsValid}
use epx_c.Extern.{Externals}
use epx_c.Extern.Laws.{LlrbLaws, num, IsAscending, find_in, insert_in, write_in, insert_result}
use epx_c.Index.{clear_index}
use epx_c.Index.Clear.{before, cleared, clear_index_lem}
use epx_c.Replica.{
  Replica, tree, index_of, set_index, store, find_instance, register_instance, clear_all, clear,
}
use epx_c.Epaxos.Valid.{TrackerIsValid}
use Entries.{
  EntryIsValid, EntriesAreValid, write-EntriesAreValid, insert-EntriesAreValid,
  cleared-EntriesAreValid, found-EntryIsValid,
}

module _ (x : Externals) (l : LlrbLaws x.llrb) where
  abbrev pub TreesAreValid : ℕ → List x.Tree → Type 0
  TreesAreValid rc [] = Unit
  TreesAreValid rc (t ∷ ts) = EntriesAreValid rc (l.to_list t) × TreesAreValid (suc rc) ts

  -- The indexes of a replica: one of each replica, with its instances.
  pub record IndexesAreValid (ts : List x.Tree) : Type 0 where
    pub count : length ts ≡ n_replicas
    pub trees : TreesAreValid 0 ts

  one_tree :
      (k rc : ℕ) (ts : List x.Tree)
      → rc < length ts
      → TreesAreValid k ts
      → EntriesAreValid (k + rc) (l.to_list (get_or ts rc x.empty))
  one_tree k rc [] h v = absurd (omega arith)
  one_tree k zero (t ∷ ts) h v =
      subst (λ n. EntriesAreValid n (l.to_list t)) {x = k} (omega arith) v.0
  one_tree k (suc rc) (t ∷ ts) h v =
      subst (λ n. EntriesAreValid n (l.to_list (get_or ts rc x.empty))) {x = suc k + rc}
        (omega arith) (one_tree (suc k) rc ts (omega arith) v.1)

  set_tree :
      (k rc : ℕ) (ts : List x.Tree) (t : x.Tree)
      → EntriesAreValid (k + rc) (l.to_list t)
      → TreesAreValid k ts
      → TreesAreValid k (set ts rc t)
  set_tree k rc [] t e v = tt
  set_tree k zero (s ∷ ts) t e v =
      (subst (λ n. EntriesAreValid n (l.to_list t)) {y = k} (omega arith) e, v.1)
  set_tree k (suc rc) (s ∷ ts) t e v = (
    v.0,
    set_tree (suc k) rc ts t
        (subst (λ n. EntriesAreValid n (l.to_list t)) {y = suc k + rc} (omega arith) e) v.1,
  )

  -- the replica `r`'s
  pub index-EntriesAreValid :
      (r : Replica x) (rc : ℕ)
      → rc < n_replicas
      → IndexesAreValid r.index
      → EntriesAreValid rc (l.to_list (tree r rc))
  index-EntriesAreValid r rc h v =
      subst (λ n. EntriesAreValid n (l.to_list (tree r rc))) {x = 0 + rc} (omega arith)
        (one_tree 0 rc r.index (omega (arith, v.count)) v.trees)

  pub set_index-IndexesAreValid :
      (r : Replica x) (rc : ℕ) (t : x.Tree)
      → EntriesAreValid rc (l.to_list t)
      → IndexesAreValid r.index
      → IndexesAreValid (set_index r rc t).index
  set_index-IndexesAreValid r rc t e v = record {
    count = length-set r.index rc t ∙ v.count;
    trees =
        set_tree 0 rc r.index t
          (subst (λ n. EntriesAreValid n (l.to_list t)) {y = 0 + rc} (omega arith) e) v.trees;
  }

  -- the instance `i` may be written to its place
  abbrev pub PlaceIsValid : Instance → Type 0
  PlaceIsValid i = (i.key.replica_id < n_replicas) × IsValid i.deps × TrackerIsValid i.lt

  pub store-IndexesAreValid :
      (r : Replica x) (i : Instance)
      → PlaceIsValid i
      → IndexesAreValid r.index
      → IndexesAreValid (store r i).index
  unfolding store
  store-IndexesAreValid r i p v =
      set_index-IndexesAreValid r i.key.replica_id (x.write (tree r i.key.replica_id) i)
        (subst (EntriesAreValid i.key.replica_id)
          (sym (l.to_list-write (tree r i.key.replica_id) i))
          (write-EntriesAreValid i.key.replica_id (l.to_list (tree r i.key.replica_id)) i
            (refl, p.1, p.2) (index-EntriesAreValid r i.key.replica_id p.0 v)))
        v

  clear_all-IndexesAreValid :
      (n rc : ℕ) (r : Replica x)
      → n + rc < 4
      → IndexesAreValid r.index
      → Ensures (λ r'. IndexesAreValid r'.index) (clear_all n rc r)
  unfolding clear_all
  clear_all-IndexesAreValid zero rc r h v = v
  clear_all-IndexesAreValid (suc n) rc r h v =
      let a = index-EntriesAreValid r rc (omega arith) v in
      let (t, e, f) = clear_index_lem x l (tree r rc) a.0 in
      rw e (
        clear_all-IndexesAreValid n (suc rc) (set_index r rc t) (omega arith) (
          set_index-IndexesAreValid r rc t
            (subst (EntriesAreValid rc) (sym f)
              (cleared-EntriesAreValid rc none (l.to_list (tree r rc)) a))
            v))

  pub clear-IndexesAreValid :
      (r : Replica x) → IndexesAreValid r.index → Ensures (λ r'. IndexesAreValid r'.index) (clear r)
  unfolding clear
  clear-IndexesAreValid r v = clear_all-IndexesAreValid n_replicas 0 r (omega arith) v

  -- an instance that `find_instance` gives
  pub find_instance-PlaceIsValid :
      (r : Replica x) (id : InstanceId) {i : Instance}
      → IndexesAreValid r.index
      → find_instance r id ≡ ok (some i)
      → PlaceIsValid i
  unfolding find_instance
  find_instance-PlaceIsValid r id {i} v e = elim (Bool-cases (ltb id.replica_id n_replicas)) [
    | inr h ↦ absurd (ground arith)
    | inl h ↦
        let small : id.replica_id < n_replicas = ground arith in
        let a = index-EntriesAreValid r id.replica_id small v in
        let (f, _) =
          found-EntryIsValid id.replica_id (l.to_list (tree r id.replica_id)) id.instance_id {i = i}
            (sym (l.find_lem (tree r id.replica_id) id.instance_id a.0) ∙ ground arith) a.1 in
        (omega (arith, f.0, small), f.1, f.2)
  ]

  pub register_instance-IndexesAreValid :
      (r : Replica x) (i : Instance)
      → PlaceIsValid i
      → IndexesAreValid r.index
      → Ensures (λ w. IndexesAreValid (w.1).index) (register_instance r i)
  unfolding register_instance
  register_instance-IndexesAreValid r i p v =
      let rc = i.key.replica_id in
      let t = tree r rc in
      let a = index-EntriesAreValid r rc p.0 v in
      let inserted : EntriesAreValid rc (l.to_list (x.insert t i).1) =
        subst (EntriesAreValid rc) (sym (l.to_list-insert t i a.0)) (
          insert-EntriesAreValid rc (find_in (l.to_list t) (num i)) (l.to_list t) i refl
            (refl, p.1, p.2) a) in
      let kept = set_index-IndexesAreValid r rc (x.insert t i).1 inserted v in
      elim (Option-cases (x.insert t i).0) [ inl e ↦ ground arith | inr (o, e) ↦ ground arith ]
