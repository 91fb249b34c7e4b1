-- ===== src/Instance/Ballot/Laws.antt =====
-- What a ballot determines, and that a larger ballot is larger until the four bits of the round
-- run out.
use epx_c.Base.{ℕ, ◌+◌, ◌*◌, ◌/◌, ◌<◌, ◌≡◌, true, false, arith, bit_or-shift, bit_and_fifteen}
use epx_c.Instance.Ballot.{u8, unique_ballot, larger_ballot, is_initial_ballot, replica_from_ballot}

pub unique_ballot-sum : (b r : ℕ) → r < 16 → unique_ballot b r ≡ u8 (b * 16 + r)
unfolding unique_ballot
unique_ballot-sum b r h = rw (bit_or-shift 4 b r h)

-- For a replica below 16, a ballot made by `unique_ballot` names its replica.
pub replica_from_ballot-unique_ballot :
    (b r : ℕ) → r < 16 → replica_from_ballot (unique_ballot b r) ≡ r
unfolding replica_from_ballot
replica_from_ballot-unique_ballot b r h =
    omega (arith, bit_and_fifteen (unique_ballot b r), unique_ballot-sum b r h)

larger_ballot-sum : (b r : ℕ) → r < 16 → larger_ballot b r ≡ u8 ((b / 16 + 1) * 16 + r)
unfolding larger_ballot
larger_ballot-sum b r h = unique_ballot-sum (b / 16 + 1) r h

-- For a replica below 16 and a byte ballot below round 15, `larger_ballot` gives a larger byte,
-- which is not initial and names the replica.
pub larger_ballot-lt :
    (b r : ℕ)
    → r < 16
    → b / 16 < 15
    → (b < larger_ballot b r)
      × (larger_ballot b r < 256)
      × (is_initial_ballot (larger_ballot b r) ≡ false)
      × (replica_from_ballot (larger_ballot b r) ≡ r)
unfolding is_initial_ballot replica_from_ballot
larger_ballot-lt b r h low =
    ground (arith, larger_ballot-sum b r h, bit_and_fifteen (larger_ballot b r))

-- For a replica below 16 and a byte ballot of round 15, `larger_ballot` wraps to the initial
-- ballot of the replica, which is smaller.
pub larger_ballot_wraps :
    (b r : ℕ)
    → r < 16
    → b / 16 ≡ 15
    → (larger_ballot b r ≡ r)
      × (larger_ballot b r < b)
      × (is_initial_ballot (larger_ballot b r) ≡ true)
unfolding is_initial_ballot
larger_ballot_wraps b r h top = ground (arith, larger_ballot-sum b r h)
