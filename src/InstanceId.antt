-- ===== src/InstanceId.antt =====
-- src/instance_id.h and src/instance_id.c, and the hash key `dh_key` of src/replica.c.
pub mod Laws
use epx_c.Base.{ℕ, ◌*◌, ◌%◌, ◌^◌, bit_or, Bool, ◌&&◌, ltb, ◌==◌, if◌then◌else◌}

-- `size_t` and `uint64_t`
pub record InstanceId : Type 0 where
  pub replica_id : ℕ
  pub instance_id : ℕ

-- `committed` is a `uint8_t`.
pub record Dependency : Type 0 where
  pub id : InstanceId
  pub committed : ℕ

unfoldable pub eq_instance_id : InstanceId → InstanceId → Bool
eq_instance_id a b = a.instance_id == b.instance_id && a.replica_id == b.replica_id

unfoldable pub max_seq : ℕ → ℕ → ℕ
max_seq a b = if ltb b a then a else b

-- `uint64_t` arithmetic wraps
abbrev pub u64 : ℕ → ℕ
u64 n = n % 2 ^ 64

-- `(id->instance_id << 16) | id->replica_id`
unfoldable pub dh_key : InstanceId → ℕ
dh_key id = bit_or (u64 (id.instance_id * 2 ^ 16)) id.replica_id
