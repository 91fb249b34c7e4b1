-- ===== src/InstanceId/Laws.antt =====
-- src/instance_id.c and `dh_key`: identity, the larger number, and when hash keys are unique.
use epx_c.Base.{ℕ, ◌≡◌, ◌≤◌, ◌<◌, ◌↔◌, ◌^◌, ◌*◌, ◌+◌, true, arith, bit_or-shift}
use epx_c.InstanceId.{InstanceId, eq_instance_id, max_seq, dh_key, u64}

pub eq_instance_id_iff : (a b : InstanceId) → (eq_instance_id a b ≡ true) ↔ (a ≡ b)
unfolding eq_instance_id
eq_instance_id_iff a b = ground arith

pub max_seq_bounds : (a b : ℕ) → (a ≤ max_seq a b) × (b ≤ max_seq a b)
unfolding max_seq
max_seq_bounds a b = ground arith

dh_key-sum :
    (a : InstanceId)
    → a.instance_id < 2 ^ 48
    → a.replica_id < 2 ^ 16
    → dh_key a ≡ a.instance_id * 2 ^ 16 + a.replica_id
unfolding dh_key
dh_key-sum a h k = rw fits (bit_or-shift 16 a.instance_id a.replica_id k)
  where
    fits : u64 (a.instance_id * 2 ^ 16) ≡ a.instance_id * 2 ^ 16
    fits = omega arith

-- Two instances whose numbers are below 2^48, of replicas whose numbers are below 2^16, have
-- different hash keys unless they are the same instance.
pub dh_key_injective :
    (a b : InstanceId)
    → a.instance_id < 2 ^ 48
    → a.replica_id < 2 ^ 16
    → b.instance_id < 2 ^ 48
    → b.replica_id < 2 ^ 16
    → dh_key a ≡ dh_key b
    → a ≡ b
dh_key_injective a b ha ka hb kb e =
    λ i. record { replica_id = same_replica i; instance_id = same_number i }
  where
    same_replica : a.replica_id ≡ b.replica_id
    same_replica = omega (arith, dh_key-sum a ha ka, dh_key-sum b hb kb)

    same_number : a.instance_id ≡ b.instance_id
    same_number = omega (arith, dh_key-sum a ha ka, dh_key-sum b hb kb)
