-- ===== src/Instance/Ballot.antt =====
-- The ballots of src/instance.c: a round in the high four bits of a byte, a replica in the low four.
pub mod Laws
use epx_c.Base.{ℕ, ◌+◌, ◌*◌, ◌/◌, ◌%◌, ◌^◌, bit_or, bit_and, Bool, ◌==◌}

-- conversion to `uint8_t`
abbrev pub u8 : ℕ → ℕ
u8 n = n % 256

-- `(ballot << 4) | replica_id`, returned as a byte
unfoldable pub unique_ballot : ℕ → ℕ → ℕ
unique_ballot ballot replica_id = u8 (bit_or (ballot * 2 ^ 4) replica_id)

unfoldable pub larger_ballot : ℕ → ℕ → ℕ
larger_ballot ballot replica_id = unique_ballot (ballot / 2 ^ 4 + 1) replica_id

unfoldable pub is_initial_ballot : ℕ → Bool
is_initial_ballot ballot = ballot / 2 ^ 4 == 0

unfoldable pub replica_from_ballot : ℕ → ℕ
replica_from_ballot ballot = bit_and ballot 15
