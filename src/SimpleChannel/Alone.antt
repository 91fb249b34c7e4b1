-- ===== src/SimpleChannel/Alone.antt =====
-- Calls of `simple_chan_send` and `simple_chan_recv` that no other thread's call overlaps.
use epx_c.Base.{
  ◌<◌, ℕ, zero, suc, ◌+◌, ◌≡◌, refl, ◌∙◌, none, some, List, [], ◌∷◌, ◌++◌, length, arith,
}
use epx_c.SimpleChannel.{
  SimpleChan, capacity_of_ring, send_wait, send_store, send_post, simple_chan_send, recv_wait,
  recv_take, recv_post, simple_chan_recv,
}
use epx_c.SimpleChannel.Steps.{System}
use epx_c.SimpleChannel.Queue.{IsQueue}
use epx_c.SimpleChannel.Refine.{after_store, same_ring, after_take, taken_at}

-- the channel `b` with no thread inside
abbrev pub idle : SimpleChan → System
idle b = record { chan = b; entering = 0; posting = 0; taking = 0; returning = 0 }

sent_alone :
    (b : SimpleChan) (q : List ℕ) (v n : ℕ)
    → IsQueue (idle b) q
    → b.s_sem ≡ suc n
    → (c : SimpleChan) × (simple_chan_send b v ≡ some c) × IsQueue (idle c) (q ++ (v ∷ []))
unfolding simple_chan_send send_wait send_store send_post
sent_alone b q v n i e = (send_post (send_store v b1), ground arith, i3)
  where
    b1 : SimpleChan
    b1 = record b { s_sem = n }

    i1 : IsQueue (record (idle b1) { entering = 1 }) q
    i1 = same_ring (idle b) q b.c_sem n 1 0 0 0 i refl (omega arith)

    i2 : IsQueue (record (idle (send_store v b1)) { posting = 1 }) (q ++ (v ∷ []))
    i2 = after_store (record (idle b1) { entering = 1 }) q i1 v 0 refl

    i3 : IsQueue (idle (send_post (send_store v b1))) (q ++ (v ∷ []))
    i3 =
        same_ring (record (idle (send_store v b1)) { posting = 1 }) (q ++ (v ∷ [])) (b.c_sem + 1) n
          0 0 0 0 i2 (omega arith) refl

received_alone :
    (b : SimpleChan) (x : ℕ) (q : List ℕ) (n : ℕ)
    → IsQueue (idle b) (x ∷ q)
    → b.c_sem ≡ suc n
    → (c : SimpleChan) × (simple_chan_recv b ≡ some (x, c)) × IsQueue (idle c) q
unfolding simple_chan_recv recv_wait recv_take recv_post
received_alone b x q n i e = (recv_post (recv_take b1).1, received, i3)
  where
    b1 : SimpleChan
    b1 = record b { c_sem = n }

    result : (recv_take b1).0 ≡ x
    result = taken_at b1 i.popped i.read i.capacity ∙ i.holds.0

    received : simple_chan_recv b ≡ some (x, recv_post (recv_take b1).1)
    received = ground (arith, result)

    i1 : IsQueue (record (idle b1) { taking = 1 }) (x ∷ q)
    i1 = same_ring (idle b) (x ∷ q) n b.s_sem 0 0 1 0 i (omega arith) refl

    i2 : IsQueue (record (idle (recv_take b1).1) { returning = 1 }) q
    i2 = after_take (record (idle b1) { taking = 1 }) x q 0 i1 refl

    i3 : IsQueue (idle (recv_post (recv_take b1).1)) q
    i3 =
        same_ring (record (idle (recv_take b1).1) { returning = 1 }) q n (b.s_sem + 1) 0 0 0 0 i2
          refl (omega arith)

blocked_send : (b : SimpleChan) (v : ℕ) → b.s_sem ≡ 0 → simple_chan_send b v ≡ none
unfolding simple_chan_send send_wait
blocked_send b v e = ground arith

blocked_recv : (b : SimpleChan) → b.c_sem ≡ 0 → simple_chan_recv b ≡ none
unfolding simple_chan_recv recv_wait
blocked_recv b e = ground arith

-- What becomes of a call of `simple_chan_send` on the queue `q`.
pub data Sends (b : SimpleChan) (q : List ℕ) (v : ℕ) : Type 0 where
  send_blocks : length q ≡ capacity_of_ring → simple_chan_send b v ≡ none → Sends b q v
  send_returns :
      (c : SimpleChan)
      → length q < capacity_of_ring
      → simple_chan_send b v ≡ some c
      → IsQueue (idle c) (q ++ (v ∷ []))
      → Sends b q v

pub data Receives (b : SimpleChan) : List ℕ → Type 0 where
  recv_blocks : simple_chan_recv b ≡ none → Receives b []
  recv_returns :
      {x : ℕ} {q : List ℕ} (c : SimpleChan)
      → simple_chan_recv b ≡ some (x, c)
      → IsQueue (idle c) q
      → Receives b (x ∷ q)

sends : (b : SimpleChan) (q : List ℕ) (v n : ℕ) → b.s_sem ≡ n → IsQueue (idle b) q → Sends b q v
sends b q v zero e i = send_blocks (omega (arith, i.free)) (blocked_send b v e)
sends b q v (suc n) e i =
    let (c, f, j) = sent_alone b q v n i e in send_returns c (omega (arith, i.free)) f j

receives : (b : SimpleChan) (q : List ℕ) (n : ℕ) → b.c_sem ≡ n → IsQueue (idle b) q → Receives b q
receives b [] n e i = recv_blocks (blocked_recv b (omega (arith, i.full)))
receives b (x ∷ q) zero e i = absurd (omega (arith, i.full))
receives b (x ∷ q) (suc n) e i = let (c, f, j) = received_alone b x q n i e in recv_returns c f j

-- A call that no other overlaps: `simple_chan_send` blocks if the queue is as long as the channel's
-- capacity, and appends its value otherwise; `simple_chan_recv` blocks if the queue is empty, and
-- returns and removes its first value otherwise.
pub simple_chan-alone :
    (b : SimpleChan) (q : List ℕ) (v : ℕ) → IsQueue (idle b) q → Sends b q v × Receives b q
simple_chan-alone b q v i = (sends b q v b.s_sem refl i, receives b q b.c_sem refl i)
