-- ===== src/NodeIo/Quorum.antt =====
-- `update_quorum` of src/io.c on the quorum that a new node has.
use epx_c.Base.{
  ℕ, zero, suc, ◌+◌, ◌<◌, ◌≡◌, refl, ◌⊎◌, inl, inr, List, [], ◌∷◌, ◌==◌, if◌then◌else◌, Outcome, ok,
  fault, out_of_bounds, ◌>>=◌, arith,
}
use epx_c.Epx.{n_replicas}
use epx_c.Channel.{CkRing}
use epx_c.NodeIo.{ConnectionStatus, status_value, Connection, conn_at}
use epx_c.NodeIo.Broadcast.{
  quorum_at, above_previous, update_place, update_places, update_from, update_quorum,
}

-- a quorum of zeroed memory
abbrev pub first_only : List ℕ
first_only = 0 ∷ 0 ∷ 0 ∷ []

-- nothing but a run out of bounds changes it
abbrev pub IsKept : Outcome (List ℕ) → Type 0
IsKept o = (o ≡ ok first_only) ⊎ (o ≡ fault out_of_bounds)

IsKept-bind :
    (o : Outcome (List ℕ)) (f : List ℕ → Outcome (List ℕ))
    → IsKept o
    → IsKept (f first_only)
    → IsKept (o >>= f)
IsKept-bind o f (inl e) k = rw e k
IsKept-bind o f (inr e) k = inr (rw e refl)

module _ {x : CkRing} where
  conn_at-cases :
      (i : ℕ) (cs : List (Connection x))
      → ((c : Connection x) × (conn_at i cs ≡ ok c)) ⊎ (conn_at i cs ≡ fault out_of_bounds)
  unfolding conn_at
  conn_at-cases i [] = inr refl
  conn_at-cases zero (c ∷ cs) = inl (c, refl)
  conn_at-cases (suc i) (c ∷ cs) = conn_at-cases i cs

  -- The connection before a place is the one at the place, so that the two tests exclude each other.
  place_found-IsKept :
      (ns : List (Connection x)) (c there : Connection x) (qi : ℕ)
      → qi < 3
      → conn_at 0 ns ≡ ok there
      → IsKept (update_place first_only ns c qi)
  unfolding update_place above_previous quorum_at
  place_found-IsKept ns c there zero h e = ground arith
  place_found-IsKept ns c there (suc zero) h e = ground arith
  place_found-IsKept ns c there (suc (suc zero)) h e = ground arith
  place_found-IsKept ns c there (suc (suc (suc qi))) h e = absurd (omega arith)

  no_place :
      (ns : List (Connection x)) (c : Connection x) (qi : ℕ)
      → qi < 3
      → conn_at 0 ns ≡ fault out_of_bounds
      → update_place first_only ns c qi ≡ fault out_of_bounds
  unfolding update_place quorum_at
  no_place ns c zero h e = rw e refl
  no_place ns c (suc zero) h e = rw e refl
  no_place ns c (suc (suc zero)) h e = rw e refl
  no_place ns c (suc (suc (suc qi))) h e = absurd (omega arith)

  update_place-IsKept :
      (ns : List (Connection x)) (c : Connection x) (qi : ℕ)
      → qi < 3
      → IsKept (update_place first_only ns c qi)
  update_place-IsKept ns c qi h = elim (conn_at-cases 0 ns) [
    | inl (there, e) ↦ place_found-IsKept ns c there qi h e
    | inr e ↦ inr (no_place ns c qi h e)
  ]

  update_places-IsKept :
      (n qi : ℕ) (ns : List (Connection x)) (c : Connection x)
      → n + qi < 4
      → IsKept (update_places n qi first_only ns c)
  unfolding update_places
  update_places-IsKept zero qi ns c h = inl refl
  update_places-IsKept (suc n) qi ns c h =
      IsKept-bind (update_place first_only ns c qi) (λ q. update_places n (suc qi) q ns c)
        (update_place-IsKept ns c qi (omega arith))
        (update_places-IsKept n (suc qi) ns c (omega arith))

  round-IsKept :
      (ns : List (Connection x)) (c : Connection x)
      → IsKept (
          if status_value c.status == status_value ConnectionStatus.alive
          then update_places n_replicas 0 first_only ns c
          else ok first_only)
  round-IsKept ns c = ground (arith, update_places-IsKept n_replicas 0 ns c (omega arith))

  update_from-IsKept :
      (n ci : ℕ) (ns : List (Connection x)) → IsKept (update_from n ci first_only ns)
  unfolding update_from
  update_from-IsKept zero ci ns = inl refl
  update_from-IsKept (suc n) ci ns = elim (conn_at-cases ci ns) [
    | inr e ↦ inr (rw e refl)
    | inl (c, e) ↦ rw e (
        IsKept-bind _ (λ q. update_from n (suc ci) q ns) (round-IsKept ns c)
          (update_from-IsKept n (suc ci) ns))
  ]

  -- Whatever the connections are, `update_quorum` leaves the quorum of zeroed memory, which names
  -- the first node alone, as it is, or it reads before the array.
  pub update_quorum-first_only : (ns : List (Connection x)) → IsKept (update_quorum first_only ns)
  unfolding update_quorum
  update_quorum-first_only ns = update_from-IsKept n_replicas 0 ns
