-- ===== src/Epaxos/Valid/Acceptor.antt =====
-- The handlers that answer a leader keep dependency arrays valid.
use epx_c.Base.{ℕ, Option, Ensures, Ensures-bind, Outcome-cases, Option-cases, inl, inr, arith}
use epx_c.Command.{Command}
use epx_c.Instance.{SeqDepsProbe}
use epx_c.Extern.{Externals}
use epx_c.Replica.{store, find_conflict}
use epx_c.Replica.Valid.{FoundIsValid, sd_for_command-IsValid}
use epx_c.Epaxos.{World}
use epx_c.Epaxos.Acceptor.{
  clear_if_null, pre_accepted_by, accepted_by, pre_accept_found, pre_accept_value, pre_accept,
  accept_value, accept, prepare, try_pre_accept_value, try_pre_accept, commit,
}
use epx_c.Epaxos.Valid.{WorldIsValid}

module _ {x : Externals} where
  pub commit-IsValid : (w : World x) → WorldIsValid w → WorldIsValid (commit w)
  unfolding commit
  commit-IsValid w v = ground arith

  pub prepare-IsValid : (w : World x) → WorldIsValid w → WorldIsValid (prepare w)
  unfolding prepare
  prepare-IsValid w v = ground arith

  accept_value-IsValid : (w : World x) → WorldIsValid w → Ensures WorldIsValid (accept_value w)
  unfolding accept_value
  accept_value-IsValid w v = elim (Outcome-cases (clear_if_null w.m.command w.r (accepted_by w))) [
    | inl (r, e) ↦ ground arith
    | inr (f, e) ↦ ground arith
  ]

  pub accept-IsValid : (w : World x) → WorldIsValid w → Ensures WorldIsValid (accept w)
  unfolding accept
  accept-IsValid w v = ground (arith, accept_value-IsValid w v)

  try_pre_accept_value-IsValid :
      (w : World x) → WorldIsValid w → Ensures WorldIsValid (try_pre_accept_value w)
  unfolding try_pre_accept_value
  try_pre_accept_value-IsValid w v =
      elim (Outcome-cases (find_conflict (store w.r w.i) w.i w.m.command w.m.seq w.m.deps)) [
        | inr (f, e) ↦ ground arith
        | inl ((conflict, command), e) ↦ elim (Option-cases conflict) [
          | inl n ↦ ground arith
          | inr (t, n) ↦ ground arith
        ]
      ]

  pub try_pre_accept-IsValid :
      (w : World x) → WorldIsValid w → Ensures WorldIsValid (try_pre_accept w)
  unfolding try_pre_accept
  try_pre_accept-IsValid w v = ground (arith, try_pre_accept_value-IsValid w v)

  pre_accept_found-IsValid :
      (w : World x) (found : ℕ × Option Command × SeqDepsProbe)
      → WorldIsValid w
      → FoundIsValid found
      → Ensures WorldIsValid (pre_accept_found w found)
  unfolding pre_accept_found
  pre_accept_found-IsValid w found v u =
      elim (Outcome-cases (clear_if_null found.1 w.r (pre_accepted_by w found))) [
        | inl (r, e) ↦ ground arith
        | inr (f, e) ↦ ground arith
      ]

  pre_accept_value-IsValid :
      (w : World x) → WorldIsValid w → Ensures WorldIsValid (pre_accept_value w)
  unfolding pre_accept_value
  pre_accept_value-IsValid w v =
      Ensures-bind FoundIsValid WorldIsValid _ _ (λ found u. pre_accept_found-IsValid w found v u)
        (sd_for_command-IsValid _ _ _ _ v.own)

  pub pre_accept-IsValid : (w : World x) → WorldIsValid w → Ensures WorldIsValid (pre_accept w)
  unfolding pre_accept
  pre_accept-IsValid w v = ground (arith, pre_accept_value-IsValid w v)
