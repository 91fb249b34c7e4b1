-- ===== src/Message/Fields.antt =====
-- The fields and the dependencies of a message of src/message.c in its table.
use epx_c.Base.{
  ℕ, zero, suc, ◌≤◌, ◌<◌, ◌%◌, ◌^◌, ◌≡◌, refl, sym, ap, ◌∙◌, some, List, [], ◌∷◌, ◌++◌, All, length,
  drop, set-middle, length-snoc, if◌then◌else◌, ◌==◌, ok, ◌>>=◌, arith,
}
use mathlib.Core.List.{append_assoc}
use epx_c.InstanceId.{InstanceId, Dependency}
use epx_c.Message.{State, bits, MessageType, Message}
use epx_c.Schema.{MessageTable}
use epx_c.Message.Codec.{
  type_value, type_of, state_of, Decoded, read_deps, get_present, read_data, read_fields,
  message_from_table, write_deps, present_if, write_data, table_of,
}

state_of-bits : (s : State) → state_of (bits s) ≡ some s
state_of-bits State.zeroed = refl
state_of-bits State.none = refl
state_of-bits State.pre_accepted = refl
state_of-bits State.pre_accepted_eq = refl
state_of-bits State.accepted = refl
state_of-bits State.preparing = refl
state_of-bits State.try_pre_accepting = refl
state_of-bits State.committed = refl
state_of-bits State.executed = refl

type_of-type_value : (t : MessageType) → type_of (type_value t) ≡ some t
type_of-type_value MessageType.phase1 = refl
type_of-type_value MessageType.pre_accept = refl
type_of-type_value MessageType.pre_accept_ok = refl
type_of-type_value MessageType.pre_accept_reply = refl
type_of-type_value MessageType.accept = refl
type_of-type_value MessageType.accept_reply = refl
type_of-type_value MessageType.commit = refl
type_of-type_value MessageType.prepare = refl
type_of-type_value MessageType.prepare_reply = refl
type_of-type_value MessageType.try_pre_accept = refl
type_of-type_value MessageType.try_pre_accept_reply = refl
type_of-type_value MessageType.execute = refl

-- a dependency of a replica that is not the first
abbrev pub IsSent : Dependency → Type 0
IsSent d = (0 < d.id.replica_id) × (d.id.replica_id < 2 ^ 16)

abbrev pub IsUnsent : Dependency → Type 0
IsUnsent d = d.id.replica_id ≡ 0

pub write_deps-sent :
    (xs zs : List Dependency) → All IsSent xs → All IsUnsent zs → write_deps (xs ++ zs) ≡ xs
unfolding write_deps
write_deps-sent [] [] a b = refl
write_deps-sent [] (z ∷ zs) a b = ground (arith, write_deps-sent [] zs)
write_deps-sent (x ∷ xs) zs a b = ground (arith, write_deps-sent xs zs)

pub read_deps-middle :
    (n : ℕ) (pre xs ys : List Dependency)
    → length xs ≤ n
    → length xs ≤ length ys
    → read_deps n (length pre) xs (pre ++ ys) ≡ pre ++ (xs ++ drop (length xs) ys)
unfolding read_deps
read_deps-middle zero pre [] ys h l = refl
read_deps-middle zero pre (x ∷ xs) ys h l = absurd (omega arith)
read_deps-middle (suc n) pre [] ys h l = refl
read_deps-middle (suc n) pre (x ∷ xs) [] h l = absurd (omega arith)
read_deps-middle (suc n) pre (x ∷ xs) (y ∷ ys) h l =
    ap (read_deps n (suc (length pre)) xs)
      (set-middle pre ys y x ∙ sym (append_assoc pre (x ∷ []) ys))
    ∙ ap (λ k. read_deps n k xs ((pre ++ (x ∷ [])) ++ ys)) (sym (length-snoc pre x))
    ∙ read_deps-middle n (pre ++ (x ∷ [])) xs ys (omega arith) (omega arith)
    ∙ append_assoc pre (x ∷ []) (xs ++ drop (length xs) ys)

-- the replicas' numbers fit the schema's two bytes
abbrev pub IsWire : Message → Type 0
IsWire m = (m.to < 2 ^ 16) × (m.from < 2 ^ 16) × (m.id.replica_id < 2 ^ 16)

-- `m0` with all of `m` but what its type's data carries; a `start` or a `stop` of 0 is not sent
abbrev pub header : Message → Message → Message
header m0 m = record m0 {
  to = m.to;
  from = m.from;
  nack = m.nack;
  ballot = m.ballot;
  instance_status = m.instance_status;
  id = m.id;
  type = m.type;
  stop = if m.stop == 0 then m0.stop else m.stop;
  start = if m.start == 0 then m0.start else m.start;
}

table_steps :
    (m0 : Message) (bm : MessageTable) (i_id : InstanceId) (n : ℕ) (type : MessageType)
    (status : State)
    → state_of bm.instance_status ≡ some status
    → bm.instance_id ≡ some i_id
    → bm.type ≡ some n
    → type_of n ≡ some type
    → message_from_table m0 bm ≡ read_fields m0 bm i_id type status
unfolding message_from_table
table_steps m0 bm i_id n type status e f g h = ground arith

get_present-present_if : (n k : ℕ) → get_present (present_if n) k ≡ (if n == 0 then k else n)
get_present-present_if n k = ground arith

same_id :
    (id : InstanceId)
    → id.replica_id < 2 ^ 16
    → ◌≡◌ {A = InstanceId} (record id { replica_id = id.replica_id % 2 ^ 16 }) id
same_id id h = λ i. record { replica_id = small i; instance_id = id.instance_id }
  where
    small : id.replica_id % 2 ^ 16 ≡ id.replica_id
    small = omega arith

read_fields-table_of :
    (m m0 : Message) (i_id : InstanceId)
    → IsWire m
    → i_id ≡ m.id
    → read_fields m0 (table_of m) i_id m.type m.instance_status
      ≡ (read_data m.type (header m0 m) (write_data m.type m) >>= λ m'. ok (Decoded.decoded m'))
unfolding read_fields table_of
read_fields-table_of m m0 i_id w e =
    ap (λ (h : Message). read_data m.type h (write_data m.type m) >>= λ m'. ok (Decoded.decoded m'))
      (λ i. record m0 {
        to = same_to i;
        from = same_from i;
        nack = m.nack;
        ballot = m.ballot;
        instance_status = m.instance_status;
        id = e i;
        type = m.type;
        stop = get_present-present_if m.stop m0.stop i;
        start = get_present-present_if m.start m0.start i;
      })
  where
    same_to : m.to % 2 ^ 16 ≡ m.to
    same_to = omega arith

    same_from : m.from % 2 ^ 16 ≡ m.from
    same_from = omega arith

pub table_of_steps :
    (m m0 : Message)
    → IsWire m
    → message_from_table m0 (table_of m)
      ≡ (read_data m.type (header m0 m) (write_data m.type m) >>= λ m'. ok (Decoded.decoded m'))
table_of_steps m m0 w =
    table_steps m0 (table_of m) (record (m.id) { replica_id = m.id.replica_id % 2 ^ 16 })
      (type_value m.type) m.type m.instance_status
      (unfold table_of in state_of-bits m.instance_status) (unfold table_of in refl)
      (unfold table_of in refl) (type_of-type_value m.type)
    ∙ read_fields-table_of m m0 _ w (same_id m.id w.2)
