-- ===== src/Socket/Stream.antt =====
-- `fbs_sock_msendl` and `fbs_sock_mrecvl` of src/fbs_sock.c at the two ends of a connection.
use Prim.Native.Nat.{Ordering}
use epx_c.Base.{
  ℕ, zero, suc, ◌^◌, ◌<◌, ◌≡◌, refl, sym, ap, ◌∙◌, [], false, some, List, ◌++◌, length, inl, inr,
  Option-cases, arith,
}
use mathlib.Core.List.{append-nil}
use epx_c.Socket.{
  place, Bsock, Codec, FbsSock, Sent, Received, write_header, read_header, fbs_sock_msendl,
  receive_body, fbs_sock_mrecvl,
}
use epx_c.Socket.Header.{length-write_header, read_header-write_header}

-- The documented behaviour of a stream that is open and in time: bytes come out as they went in.
pub record BsockLaws (x : Bsock) : Type 0 where
  pub pending : x.Wire → List ℕ
  pub pending-bsendl :
      (u u' : x.Wire) (bytes : List ℕ)
      → x.bsendl u bytes ≡ some u'
      → pending u' ≡ pending u ++ bytes
  pub brecv_lem :
      (u : x.Wire) (bytes rest : List ℕ)
      → pending u ≡ bytes ++ rest
      → (u' : x.Wire) × (x.brecv u (length bytes) ≡ some (bytes, u')) × (pending u' ≡ rest)

-- Two ends of one connection.
pub record IsPair (s r : FbsSock) : Type 0 where
  pub same_length : s.hdrlen ≡ r.hdrlen
  pub same_order : s.bigendian ≡ r.bigendian
  pub can_receive : (r.recverr ≡ false) × (r.recvdone ≡ false)

place_same :
    (s r : FbsSock) (i : ℕ)
    → s.hdrlen ≡ r.hdrlen
    → s.bigendian ≡ r.bigendian
    → place r i ≡ place s i
unfolding place
place_same s r i h b = ground arith

read_header_same :
    (s r : FbsSock) (n sz : ℕ) (buf : List ℕ)
    → s.hdrlen ≡ r.hdrlen
    → s.bigendian ≡ r.bigendian
    → read_header r n sz buf ≡ read_header s n sz buf
unfolding read_header
read_header_same s r zero sz buf h b = refl
read_header_same s r (suc n) sz buf h b =
    rw (place_same s r n h b) (read_header_same s r n _ buf h b)

module _ (x : Bsock) (laws : BsockLaws x) {M : Type 0} (c : Codec M) where
  -- what a successful send puts on the wire
  pending-msendl :
      (s s' : FbsSock) (garbage : List ℕ) (msg : M) (u u' : x.Wire)
      → fbs_sock_msendl x c s garbage msg u ≡ (Sent.sent, s', u')
      → laws.pending u'
        ≡ laws.pending u
          ++ (write_header s s.hdrlen 0 (length (c.encode msg)) garbage ++ c.encode msg)
  unfolding fbs_sock_msendl
  pending-msendl s s' garbage msg u u' h =
      elim (Option-cases
        (x.bsendl u (write_header s s.hdrlen 0 (length (c.encode msg)) garbage ++ c.encode msg))) [
          | inl n ↦ absurd (ground arith)
          | inr (w, e) ↦ laws.pending-bsendl u u' _ (ground arith)
        ]

  receive_body-received :
      (r : FbsSock) (decoded m : M) (body rest : List ℕ) (u : x.Wire)
      → laws.pending u ≡ body ++ rest
      → c.decode decoded body ≡ (Ordering.eq, m)
      → (u' : x.Wire) × (receive_body x c r (length body) decoded u
          ≡ (Received.received (length body) m, r, u'))
        × (laws.pending u' ≡ rest)
  unfolding receive_body
  receive_body-received r decoded m body rest u p d =
      let (u', e, q) = laws.brecv_lem u body rest p in (u', ground (arith, e, d), q)

  mrecvl_steps :
      (r : FbsSock) (decoded : M) (u : x.Wire) (n : ℕ) (header : List ℕ) (u' : x.Wire)
      {res : Received M × FbsSock × x.Wire}
      → (r.recverr ≡ false) × (r.recvdone ≡ false)
      → x.brecv u r.hdrlen ≡ some (header, u')
      → read_header r r.hdrlen 0 header ≡ n
      → receive_body x c r n decoded u' ≡ res
      → fbs_sock_mrecvl x c r decoded u ≡ res
  unfolding fbs_sock_mrecvl
  mrecvl_steps r decoded u n header u' open_end e size h = ground arith

  fbs_sock_mrecvl-received :
      (s r : FbsSock) (garbage : List ℕ) (decoded msg m : M) (u : x.Wire)
      → IsPair s r
      → length garbage ≡ s.hdrlen
      → length (c.encode msg) < 256 ^ s.hdrlen
      → length (c.encode msg) < 2 ^ 64
      → laws.pending u ≡ write_header s s.hdrlen 0 (length (c.encode msg)) garbage ++ c.encode msg
      → c.decode decoded (c.encode msg) ≡ (Ordering.eq, m)
      → (u' : x.Wire) × (fbs_sock_mrecvl x c r decoded u
          ≡ (Received.received (length (c.encode msg)) m, r, u'))
        × (laws.pending u' ≡ [])
  fbs_sock_mrecvl-received s r garbage decoded msg m u pair l fits small p d =
      let header = write_header s s.hdrlen 0 (length (c.encode msg)) garbage in
      let (u1, e1, q1) = laws.brecv_lem u header (c.encode msg) p in
      let (u2, e2, q2) =
        receive_body-received r decoded m (c.encode msg) [] u1
          (q1 ∙ sym (append-nil (c.encode msg))) d in
      (
        u2,
        mrecvl_steps r decoded u (length (c.encode msg)) header u1 pair.can_receive (taken e1) size
            e2,
        q2,
      )
    where
      long : length (write_header s s.hdrlen 0 (length (c.encode msg)) garbage) ≡ r.hdrlen
      long = length-write_header s s.hdrlen 0 (length (c.encode msg)) garbage ∙ l ∙ pair.same_length

      taken :
          {v : x.Wire}
          → x.brecv u (length (write_header s s.hdrlen 0 (length (c.encode msg)) garbage))
            ≡ some (write_header s s.hdrlen 0 (length (c.encode msg)) garbage, v)
          → x.brecv u r.hdrlen ≡ some (write_header s s.hdrlen 0 (length (c.encode msg)) garbage, v)
      taken e = rw (← long) e

      size :
          read_header r r.hdrlen 0 (write_header s s.hdrlen 0 (length (c.encode msg)) garbage)
          ≡ length (c.encode msg)
      size =
          ap (λ k. read_header r k 0 (write_header s s.hdrlen 0 (length (c.encode msg)) garbage))
            (sym pair.same_length)
          ∙ read_header_same s r s.hdrlen 0
              (write_header s s.hdrlen 0 (length (c.encode msg)) garbage) pair.same_length
              pair.same_order
          ∙ read_header-write_header s (length (c.encode msg)) garbage l fits small

-- Over a stream that is empty, in time and in order: if one end of a connection sends a message whose
-- encoding is a 64-bit length that fits the header, and the decoder reads this encoding, then the
-- other end receives what the decoder gives, with that length, and the stream is empty again.
pub receive-send :
    (x : Bsock) (laws : BsockLaws x) (M : Type 0) (c : Codec M) (s s' r : FbsSock)
    (garbage : List ℕ) (decoded msg m : M) (u u' : x.Wire)
    → IsPair s r
    → length garbage ≡ s.hdrlen
    → length (c.encode msg) < 256 ^ s.hdrlen
    → length (c.encode msg) < 2 ^ 64
    → laws.pending u ≡ []
    → fbs_sock_msendl x c s garbage msg u ≡ (Sent.sent, s', u')
    → c.decode decoded (c.encode msg) ≡ (Ordering.eq, m)
    → (u'' : x.Wire) × (fbs_sock_mrecvl x c r decoded u'
        ≡ (Received.received (length (c.encode msg)) m, r, u''))
      × (laws.pending u'' ≡ [])
receive-send x laws M c s s' r garbage decoded msg m u u' pair l fits small empty e d =
    fbs_sock_mrecvl-received x laws c s r garbage decoded msg m u' pair l fits small
      (pending-msendl x laws c s s' garbage msg u u' e
        ∙ ap (λ w. w ++ (write_header s s.hdrlen 0 (length (c.encode msg)) garbage ++ c.encode msg))
            empty)
      d
