-- ===== src/Socket.antt =====
-- src/fbs_sock.h and src/fbs_sock.c: messages over a byte stream, each behind its length.
pub mod Header
pub mod Stream
use Prim.Native.Nat.{Ordering}
use epx_c.Base.{
  ℕ, zero, suc, ◌+◌, ◌-◌, ◌*◌, ◌/◌, ◌%◌, ◌^◌, bit_or, Bool, true, false, Option, none, some, List,
  ◌++◌, [], ◌∷◌, length, get_or, set, if◌then◌else◌,
}
use epx_c.InstanceId.{u64}

-- libdill's bytestream sockets: all of the bytes are sent, or received, or there is an error.
pub record Bsock : Type 1 where
  pub Wire : Type 0
  pub bsendl : Wire → List ℕ → Option Wire
  pub brecv : Wire → ℕ → Option (List ℕ × Wire)

-- The encoder finalises a buffer; the decoder returns the sign of its result, and the message that
-- it has read into.
pub record Codec (M : Type 0) : Type 0 where
  pub encode : M → List ℕ
  pub decode : M → List ℕ → Ordering × M

-- The flags are errors and ends of the two directions.
pub record FbsSock : Type 0 where
  pub hdrlen : ℕ
  pub bigendian : Bool
  pub senderr : Bool
  pub recverr : Bool
  pub senddone : Bool
  pub recvdone : Bool
  pub replica_id : ℕ
  pub xreplica_id : ℕ

-- the index of byte `i`, the lowest first
unfoldable pub place : FbsSock → ℕ → ℕ
place self i = if self.bigendian then self.hdrlen - i - 1 else i

-- the loop that writes the length, with `n` rounds left from `i`
unfoldable pub write_header : FbsSock → ℕ → ℕ → ℕ → List ℕ → List ℕ
write_header self zero i sz buf = buf
write_header self (suc n) i sz buf =
    write_header self n (suc i) (sz / 2 ^ 8) (set buf (place self i) (sz % 256))

-- the loop that reads it: `n` rounds are left, the highest byte first
unfoldable pub read_header : FbsSock → ℕ → ℕ → List ℕ → ℕ
read_header self zero sz buf = sz
read_header self (suc n) sz buf =
    read_header self n (bit_or (u64 (sz * 2 ^ 8)) (get_or buf (place self n) 0)) buf

-- what a call returns
pub data Sent : Type 0 where
  sent reset_error pipe_error send_error : Sent

pub data Received (M : Type 0) : Type 0 where
  received : ℕ → M → Received M
  reset_error pipe_error receive_error : Received M
  decode_error : M → Received M

module _ (x : Bsock) {M : Type 0} (c : Codec M) where
  -- `garbage` is what the header's array holds before it is written.
  unfoldable pub fbs_sock_msendl : FbsSock → List ℕ → M → x.Wire → Sent × FbsSock × x.Wire
  fbs_sock_msendl self garbage msg u =
      let body = c.encode msg in
      let szbuf = write_header self self.hdrlen 0 (length body) garbage in
      if self.senderr
      then (Sent.reset_error, self, u)
      else if self.senddone
      then (Sent.pipe_error, self, u)
      else elim (x.bsendl u (szbuf ++ body)) [
        | none ↦ (Sent.send_error, record self { senderr = true }, u)
        | some u' ↦ (Sent.sent, self, u')
      ]

  -- the part after the header
  unfoldable pub receive_body : FbsSock → ℕ → M → x.Wire → Received M × FbsSock × x.Wire
  receive_body self sz decoded u = elim (x.brecv u sz) [
    | none ↦ (Received.receive_error, record self { recverr = true }, u)
    | some (body, u') ↦
        let (rc, m) = c.decode decoded body in
        elim rc [
          | Ordering.lt ↦ (Received.decode_error m, self, u')
          | Ordering.eq ↦ (Received.received sz m, self, u')
          | Ordering.gt ↦ (Received.received sz m, self, u')
        ]
  ]

  unfoldable pub fbs_sock_mrecvl : FbsSock → M → x.Wire → Received M × FbsSock × x.Wire
  fbs_sock_mrecvl self decoded u =
      if self.recverr
      then (Received.reset_error, self, u)
      else if self.recvdone
      then (Received.pipe_error, self, u)
      else elim (x.brecv u self.hdrlen) [
        | none ↦ (Received.receive_error, record self { recverr = true }, u)
        | some (szbuf, u') ↦ receive_body self (read_header self self.hdrlen 0 szbuf) decoded u'
      ]

module _ (x : Bsock) where
  -- `fbs_sock_attach`: the ends exchange the lowest byte of their numbers. `made` is the outcome
  -- of `hmake`; the result is none where the function returns an error.
  unfoldable pub fbs_sock_attach :
      FbsSock → x.Wire → x.Wire → Bool → Option (FbsSock × x.Wire × x.Wire)
  fbs_sock_attach s to from made = elim (x.bsendl to (s.replica_id % 256 ∷ [])) [
    | none ↦ none
    | some to' ↦ elim (x.brecv from 1) [
      | none ↦ none
      | some (b, from') ↦
          (if made
            then some (
              record s {
                bigendian = true;
                senderr = false;
                recverr = false;
                senddone = false;
                recvdone = false;
                xreplica_id = s.xreplica_id / 256 * 256 + get_or b 0 0;
              },
              to',
              from',
            )
            else none)
    ]
  ]
