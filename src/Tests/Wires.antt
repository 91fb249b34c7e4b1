-- ===== src/Tests/Wires.antt =====
-- Streams, rings and channels on lists, and what is sent over them.
use epx_c.Base.{
  ℕ, zero, suc, ◌+◌, ◌<◌, ◌≤◌, ◌≡◌, refl, ap, ◌∙◌, Bool, true, false, Option, none, some, List, [],
  ◌∷◌, ◌++◌, map, replicate, length, length-replicate, if◌then◌else◌, ltb, arith,
}
use Prim.Native.Nat.{Ordering}
use epx_c.Socket.{Bsock, Codec, FbsSock, Received, write_header, fbs_sock_msendl, fbs_sock_mrecvl}
use epx_c.Socket.Stream.{BsockLaws, receive-send}
use epx_c.SimpleChannel.{
  SimpleChan, capacity_of_ring, simple_chan_init, send_wait, send_store, simple_chan_size,
}
use epx_c.SimpleChannel.Steps.{Action, System, send_waits, send_stores, Reach, start, later}
use epx_c.SimpleChannel.Queue.{IsQueue}
use epx_c.SimpleChannel.Refine.{simple_chan-fifo}
use epx_c.SimpleChannel.Settle.{Settled, simple_chan-settles}
use epx_c.Channel.{CkRing, CkRingLaws, Chan, chan_init_sem, sem_chan_send_mpsc}
use epx_c.Channel.Full.{send_many, recv_many, sem_chan_send_mpsc-full}

abbrev split : ℕ → List ℕ → Option (List ℕ × List ℕ)
split zero u = some ([], u)
split (suc n) [] = none
split (suc n) (b ∷ u) = elim (split n u) [ none ↦ none | some (bs, rest) ↦ some (b ∷ bs, rest) ]

abbrev pub list_stream : Bsock
list_stream = record {
  Wire = List ℕ;
  bsendl = λ u bytes. some (u ++ bytes);
  brecv = λ u n. split n u;
}

pub split-append : (bytes rest : List ℕ) → split (length bytes) (bytes ++ rest) ≡ some (bytes, rest)
split-append [] rest = refl
split-append (b ∷ bytes) rest = rw (split-append bytes rest) refl

pub one_wire : {u v : List ℕ} → ◌≡◌ {A = Option (List ℕ)} (some u) (some v) → v ≡ u
one_wire e = ground arith

abbrev pub list_stream_laws : BsockLaws list_stream
list_stream_laws = record {
  pending = λ u. u;
  pending-bsendl = λ u u' bytes e. one_wire e;
  brecv_lem = λ u bytes rest e. (rest, ap (split (length bytes)) e ∙ split-append bytes rest, refl);
}

-- a socket as it is after `fbs_sock_attach`
abbrev pub end_of : FbsSock
end_of = record {
  hdrlen = 16;
  bigendian = true;
  senderr = false;
  recverr = false;
  senddone = false;
  recvdone = false;
  replica_id = 0;
  xreplica_id = 1;
}

abbrev pub garbage_header : List ℕ
garbage_header = replicate 16 255

abbrev byte_codec : Codec (List ℕ)
byte_codec = record { encode = λ m. m; decode = λ m bytes. (Ordering.eq, bytes) }

abbrev body : List ℕ
body = 1 ∷ 2 ∷ 3 ∷ []

abbrev on_wire : List ℕ
on_wire = write_header end_of 16 0 3 garbage_header ++ body

receive-send_example :
    (u : List ℕ) × (fbs_sock_mrecvl list_stream byte_codec end_of [] on_wire
      ≡ (Received.received 3 body, end_of, u))
    × (u ≡ [])
unfolding fbs_sock_msendl
receive-send_example =
    receive-send list_stream list_stream_laws (List ℕ) byte_codec end_of end_of end_of
      garbage_header [] body body [] on_wire
      (record { same_length = refl; same_order = refl; can_receive = (refl, refl) }) refl
      (omega arith) (omega arith) refl refl refl

-- a channel in zeroed memory, and a thread that has put the value 5 in the buffer
abbrev zeroed_chan : SimpleChan
zeroed_chan = record {
  read = 0;
  write = 0;
  buffer = replicate 2048 0;
  capacity = 0;
  c_sem = 0;
  s_sem = 0;
}

abbrev let_in : SimpleChan
let_in = record zeroed_chan { capacity = 2048; s_sem = 2047 }

abbrev at_buffer : System
at_buffer = record { chan = let_in; entering = 1; posting = 0; taking = 0; returning = 0 }

abbrev at_post : System
at_post = record at_buffer { chan = send_store 5 let_in; entering = 0; posting = 1 }

sent_one : Reach zeroed_chan (Action.sends 5 ∷ Action.quiet ∷ []) at_post
unfolding send_wait simple_chan_init
sent_one = later (later start (send_waits {c = let_in} refl)) (send_stores 5 refl)

simple_chan-fifo_example :
    (q : List ℕ) × (5 ∷ [] ≡ [] ++ q)
    × (length q ≤ capacity_of_ring)
    × (simple_chan_size at_post.chan ≡ length q)
    × IsQueue at_post q
simple_chan-fifo_example = simple_chan-fifo zeroed_chan (length-replicate {A = ℕ} 2048 0) sent_one

simple_chan-settles_example : Settled at_post
simple_chan-settles_example =
    simple_chan-settles zeroed_chan at_post (length-replicate {A = ℕ} 2048 0) sent_one

-- a ring: how many places it has, and its entries
abbrev put_entry : ℕ × List ℕ → ℕ → Bool × (ℕ × List ℕ)
put_entry (n, q) p = if ltb (length q + 1) n then (true, (n, q ++ (p ∷ []))) else (false, (n, q))

abbrev take_entry : ℕ × List ℕ → Option ℕ × (ℕ × List ℕ)
take_entry (n, []) = (none, (n, []))
take_entry (n, p ∷ q) = (some p, (n, q))

abbrev pub list_ring : CkRing
list_ring = record {
  Ring = ℕ × List ℕ;
  ring_init = λ n. (n, []);
  enqueue = λ k r p. put_entry r p;
  dequeue = λ k r. take_entry r;
}

pub room_for :
    (r : ℕ × List ℕ) (p : ℕ) → length r.1 + 1 < r.0 → put_entry r p ≡ (true, (r.0, r.1 ++ (p ∷ [])))
room_for (n, q) p h = ground arith

pub no_room : (r : ℕ × List ℕ) (p : ℕ) → r.0 ≤ length r.1 + 1 → put_entry r p ≡ (false, r)
no_room (n, q) p h = ground arith

pub one_less :
    (r : ℕ × List ℕ) (p : ℕ) (ps : List ℕ) → r.1 ≡ p ∷ ps → take_entry r ≡ (some p, (r.0, ps))
one_less (n, q) p ps e = ap (λ t. take_entry (n, t)) e

pub nothing_in : (r : ℕ × List ℕ) → r.1 ≡ [] → take_entry r ≡ (none, r)
nothing_in (n, []) e = refl
nothing_in (n, p ∷ q) e = ground arith

abbrev pub list_ring_laws : CkRingLaws list_ring
list_ring_laws = record {
  entries = λ r. r.1;
  places = λ r. r.0;
  entries-init = λ n. refl;
  places-init = λ n. refl;
  enqueue_room = λ k r p h. ((r.0, r.1 ++ (p ∷ [])), room_for r p h, refl, refl);
  enqueue_full = λ k r p h. no_room r p h;
  dequeue_some = λ k r p ps e. ((r.0, ps), one_less r p ps e, refl, refl);
  dequeue_none = λ k r e. nothing_in r e;
}

abbrev sevens : List ℕ
sevens = replicate 2047 7

abbrev no_chan : Chan list_ring
no_chan = record { ring = (0, []); c_sem = 0; s_sem = 0 }

sem_chan_send_mpsc-full_example :
    (c1 : Chan list_ring) × (c2 : Chan list_ring) × (send_many sevens (chan_init_sem no_chan)
      ≡ some (map (λ q. true) sevens, c1))
    × (sem_chan_send_mpsc c1 9 ≡ some (false, c2))
    × (recv_many (suc (length sevens)) c2 ≡ some (map some sevens ++ (none ∷ [])))
sem_chan_send_mpsc-full_example =
    sem_chan_send_mpsc-full list_ring_laws no_chan sevens 9
      (omega (arith, length-replicate {A = ℕ} 2047 7))
