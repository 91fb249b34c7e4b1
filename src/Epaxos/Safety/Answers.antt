-- ===== src/Epaxos/Safety/Answers.antt =====
-- When a replica agrees to a leader's proposal as it stands.
use epx_c.Base.{
  ℕ, ◌≡◌, ◌≢◌, ◌⊎◌, true, false, inl, inr, Option, ok, Ensures, Ensures-ok, Ensures-then,
  Outcome-cases, arith,
}
use epx_c.Command.{Command}
use epx_c.Message.{State, MessageType}
use epx_c.Instance.{SeqDepsProbe}
use epx_c.Instance.Ballot.{is_initial_ballot}
use epx_c.Instance.Deps.{has_uncommitted_deps}
use epx_c.Extern.{Externals}
use epx_c.Epaxos.{World}
use epx_c.Epaxos.Acceptor.{
  clear_if_null, pre_accepted_by, pre_accept_found, pre_accept_value, pre_accept,
}
use epx_c.Epaxos.Progress.{dispatch, progress_at, progress}

-- The replica has taken the proposal, and has nothing to add to it.
abbrev pub Agrees : {x : Externals} → World x → World x → Type 0
Agrees w w' =
    (w'.i.status ≡ State.pre_accepted_eq)
    × (w'.i.seq ≡ w.m.seq)
    × (w'.i.ballot ≡ w.m.ballot)
    × (is_initial_ballot w.m.ballot ≡ true)
    × (has_uncommitted_deps w'.i.deps ≡ false)

module _ {x : Externals} where
  abbrev Justified : World x → World x → Type 0
  Justified w w' = (w'.m.type ≢ MessageType.pre_accept_ok) ⊎ Agrees w w'

  pre_accept_found-Agrees :
      (w : World x) (found : ℕ × Option Command × SeqDepsProbe)
      → Ensures (Justified w) (pre_accept_found w found)
  unfolding pre_accept_found
  pre_accept_found-Agrees w found =
      elim (Outcome-cases (clear_if_null found.1 w.r (pre_accepted_by w found))) [
        | inl (r, e) ↦ ground arith
        | inr (f, e) ↦ ground arith
      ]

  pre_accept_value-Agrees : (w : World x) → Ensures (Justified w) (pre_accept_value w)
  unfolding pre_accept_value
  pre_accept_value-Agrees w =
      Ensures-then (Justified w) _ (pre_accept_found w) (λ found. pre_accept_found-Agrees w found)

  pre_accept-Agrees :
      (w : World x) → w.m.type ≡ MessageType.pre_accept → Ensures (Justified w) (pre_accept w)
  unfolding pre_accept
  pre_accept-Agrees w t = ground (arith, pre_accept_value-Agrees w)

-- If `progress` answers a `PRE_ACCEPT` with `PRE_ACCEPT_OK`, then the instance is marked as equal
-- to the proposal, with its sequence number and its ballot, which is initial, and no dependency of
-- the instance is uncommitted.
pub progress-Agrees :
    (x : Externals) (w w' : World x)
    → w.m.type ≡ MessageType.pre_accept
    → progress w ≡ ok w'
    → w'.m.type ≡ MessageType.pre_accept_ok
    → Agrees w w'
unfolding progress progress_at dispatch
progress-Agrees x w w' t e a =
    elim (Ensures-ok (Justified w) (pre_accept w) {a = w'} (ground arith) (pre_accept-Agrees w t)) [
      | inl n ↦ absurd (n a)
      | inr agrees ↦ agrees
    ]
