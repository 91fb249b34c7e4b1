-- ===== src/Epaxos/Safety/Commits.antt =====
-- When a leader's handlers commit an instance, and who is told.
use epx_c.Base.{◌≡◌, ◌≢◌, ◌≤◌, ◌<◌, ◌+◌, ◌⊎◌, true, false, Option, some, List, [], ◌∷◌}
use epx_c.Message.{State, MessageType, bits}
use epx_c.Instance.{LeaderTracker, is_state}
use epx_c.Instance.Ballot.{u8, is_initial_ballot}
use epx_c.Instance.Deps.{has_uncommitted_deps}
use epx_c.Extern.{Externals}
use epx_c.Replica.{Effect, to_exec}
use epx_c.Epaxos.{World, half}
use epx_c.Epaxos.Leader.{pre_accept_ok, pre_accept_reply, accept_reply}

abbrev pub Has : Effect → List Effect → Type 0
Has e [] = ⊥
Has e (f ∷ fs) = (e ≡ f) ⊎ Has e fs

-- The message is an answer that counts: of the instance's ballot and without nack.
abbrev pub Agrees : {x : Externals} → World x → Type 0
Agrees w = (w.i.ballot ≡ w.m.ballot) × (w.m.nack ≡ 0)

-- The answer to `PRE_ACCEPT` that completes the fast path: the ballot is initial, the answer, of
-- this ballot and without nack, makes them half of the replicas, they are equal, and no dependency
-- is left uncommitted. A `PRE_ACCEPT_OK` has no ballot that is compared.
abbrev pub CompletesFast :
    {x : Externals} → World x → World x → LeaderTracker → LeaderTracker → Type 0
CompletesFast w w' lt lt' =
    (is_state (bits w.i.status) (bits State.pre_accepted) ≡ true)
    × ((w.m.type ≡ MessageType.pre_accept_ok)
        ⊎ ((w.m.type ≡ MessageType.pre_accept_reply) × Agrees w))
    × (is_initial_ballot w.i.ballot ≡ true)
    × (lt'.pre_accept_oks ≡ u8 (lt.pre_accept_oks + 1))
    × (half ≤ lt'.pre_accept_oks)
    × (lt'.equal ≢ 0)
    × (has_uncommitted_deps w'.i.deps ≡ false)

-- The answer to `ACCEPT`, of the instance's ballot and without nack, that makes them, this replica
-- counted, more than half of the replicas.
abbrev pub CompletesAccept : {x : Externals} → World x → LeaderTracker → LeaderTracker → Type 0
CompletesAccept w lt lt' =
    (is_state (bits w.i.status) (bits State.accepted) ≡ true)
    × (w.m.type ≡ MessageType.accept_reply)
    × Agrees w
    × (lt'.accept_oks ≡ u8 (lt.accept_oks + 1))
    × (half < lt'.accept_oks + 1)

-- The instance has a tracker before and after, and this holds of the two.
abbrev pub Tracked :
    (LeaderTracker → LeaderTracker → Type 0) → Option LeaderTracker → Option LeaderTracker → Type 0
Tracked P (some lt) (some lt') = P lt lt'
Tracked P _ _ = ⊥

-- What stands behind a commit: an answer that completes a path to it, and the executor told.
abbrev pub Justified : {x : Externals} → World x → World x → Type 0
Justified w w' =
    Tracked (λ lt lt'. CompletesFast w w' lt lt' ⊎ CompletesAccept w lt lt') w.i.lt w'.i.lt
    × Has (to_exec w.i.key) w'.r.trace

abbrev pub IsReply : MessageType → Type 0
IsReply t =
    (t ≡ MessageType.pre_accept_ok)
    ⊎ (t ≡ MessageType.pre_accept_reply)
    ⊎ (t ≡ MessageType.accept_reply)

abbrev CommitJustified : {x : Externals} → World x → World x → Type 0
CommitJustified w w' = (w'.i.status ≢ State.committed) ⊎ Justified w w'
