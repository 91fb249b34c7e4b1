-- ===== src/SimpleChannel/Refine.antt =====
-- The threads of src/simple_channel.c against the contract of a channel.
use epx_c.Base.{
  ℕ, zero, suc, ◌+◌, ◌%◌, ◌<◌, ◌≤◌, ◌≡◌, refl, sym, ap, subst, ◌∙◌, bit_and, Option, none, some,
  List, [], ◌∷◌, ◌++◌, length, length-set, length-snoc, get_or, set, arith,
}
use mathlib.Core.List.{append_assoc}
use epx_c.SimpleChannel.{
  SimpleChan, capacity_of_ring, u32, simple_chan_size, sem_wait, simple_chan_init, send_wait,
  send_store, send_post, recv_wait, recv_take, recv_post,
}
use epx_c.SimpleChannel.Steps.{
  Action, System, Step, send_waits, send_stores, send_posts, recv_waits, recv_takes, recv_posts,
  initial, Reach, start, later, sent, received,
}
use epx_c.SimpleChannel.Queue.{QueueStep, waits, pushes, pops, Holds, IsQueue, masked, Holds-store}

module _ (b : SimpleChan) (v : ℕ) where
  stored_at :
      (n : ℕ)
      → b.write ≡ u32 n
      → b.capacity ≡ capacity_of_ring
      → (send_store v b).buffer ≡ set b.buffer (n % 2048) v
  unfolding send_store
  stored_at n w c =
      ap (λ k. set b.buffer (bit_and b.write k) v) {y = 2047} (omega arith)
      ∙ ap (λ k. set b.buffer (bit_and k 2047) v) w
      ∙ ap (λ k. set b.buffer k v) (masked n)

pub taken_at :
    (b : SimpleChan) (n : ℕ)
    → b.read ≡ u32 n
    → b.capacity ≡ capacity_of_ring
    → (recv_take b).0 ≡ get_or b.buffer (n % 2048) 0
unfolding recv_take
taken_at b n r c =
    ap (λ k. get_or b.buffer (bit_and b.read k) 0) {y = 2047} (omega arith)
    ∙ ap (λ k. get_or b.buffer (bit_and k 2047) 0) r
    ∙ ap (λ k. get_or b.buffer k 0) (masked n)

pub initial-IsQueue : (b : SimpleChan) → length b.buffer ≡ capacity_of_ring → IsQueue (initial b) []
unfolding simple_chan_init
initial-IsQueue b h = record {
  popped = 0;
  read = refl;
  write = refl;
  capacity = refl;
  buffer = h;
  holds = tt;
  full = refl;
  free = refl;
}

-- what a wait that does not block finds
waited :
    (f : ℕ → SimpleChan) (n : ℕ) {c : SimpleChan}
    → ◌≡◌ {A = Option SimpleChan} (elim (sem_wait n) [ none ↦ none | some k ↦ some (f k) ]) (some c)
    → (k : ℕ) × (n ≡ suc k) × (c ≡ f k)
waited f zero e = ground arith
waited f (suc n) e = (n, refl, ground arith)

send_wait-cases :
    (b : SimpleChan) {c : SimpleChan}
    → send_wait b ≡ some c
    → (n : ℕ) × (b.s_sem ≡ suc n) × (c ≡ (record b { s_sem = n }))
unfolding send_wait
send_wait-cases b e = waited (λ k. record b { s_sem = k }) b.s_sem e

recv_wait-cases :
    (b : SimpleChan) {c : SimpleChan}
    → recv_wait b ≡ some c
    → (n : ℕ) × (b.c_sem ≡ suc n) × (c ≡ (record b { c_sem = n }))
unfolding recv_wait
recv_wait-cases b e = waited (λ k. record b { c_sem = k }) b.c_sem e

module _ (s : System) (q : List ℕ) (i : IsQueue s q) where
  pub after_store :
      (v n : ℕ)
      → s.entering ≡ suc n
      → IsQueue
          (record s { chan = send_store v s.chan; entering = n; posting = suc s.posting })
          (q ++ (v ∷ []))
  unfolding send_store
  after_store v n e = record {
    popped = i.popped;
    read = i.read;
    write = omega (arith, i.write, length-snoc q v);
    capacity = i.capacity;
    buffer = length-set s.chan.buffer _ v ∙ i.buffer;
    holds =
        subst (λ t. Holds t i.popped (q ++ (v ∷ [])))
          (sym (stored_at s.chan v (i.popped + length q) i.write i.capacity))
          (Holds-store s.chan.buffer i.popped v q i.buffer room i.holds);
    full = omega (arith, i.full, length-snoc q v);
    free = omega (arith, i.free, length-snoc q v);
  }
    where
      room : length q < 2048
      room = omega (arith, i.free)

  not_empty : (n : ℕ) → s.taking ≡ suc n → 0 < length q
  not_empty n e = omega (arith, i.full)

pub after_take :
    (s : System) (x : ℕ) (q : List ℕ) (n : ℕ)
    → IsQueue s (x ∷ q)
    → s.taking ≡ suc n
    → IsQueue (record s { chan = (recv_take s.chan).1; taking = n; returning = suc s.returning }) q
unfolding recv_take
after_take s x q n i e = record {
  popped = suc i.popped;
  read = omega (arith, i.read);
  write = omega (arith, i.write);
  capacity = i.capacity;
  buffer = i.buffer;
  holds = i.holds.1;
  full = omega (arith, i.full);
  free = omega (arith, i.free);
}

-- the semaphores and the threads change, but neither sum
pub same_ring :
    (s : System) (q : List ℕ) (c f e p t r : ℕ)
    → IsQueue s q
    → c + p + t ≡ s.chan.c_sem + s.posting + s.taking
    → f + e + r ≡ s.chan.s_sem + s.entering + s.returning
    → IsQueue
        (record {
          chan = record (s.chan) { c_sem = c; s_sem = f };
          entering = e;
          posting = p;
          taking = t;
          returning = r;
        })
        q
same_ring s q c f e p t r i h k = record {
  popped = i.popped;
  read = i.read;
  write = i.write;
  capacity = i.capacity;
  buffer = i.buffer;
  holds = i.holds;
  full = omega (arith, i.full);
  free = omega (arith, i.free);
}

-- Every step of the threads is a step of the queue.
pub Step-QueueStep :
    {s t : System} {a : Action} {q : List ℕ}
    → IsQueue s q
    → Step s a t
    → (q' : List ℕ) × (QueueStep q a q') × IsQueue t q'
unfolding send_post recv_post
Step-QueueStep {s} {q} i (send_waits {c} e) =
    let (n, h, f) = send_wait-cases s.chan e in
    (
      q,
      waits,
      subst (λ d. IsQueue (record s { chan = d; entering = suc s.entering }) q) (sym f)
          (same_ring s q s.chan.c_sem n (suc s.entering) s.posting s.taking s.returning i refl
            (omega arith)),
    )
Step-QueueStep {s} {q} i (send_stores v {n} e) =
    (q ++ (v ∷ []), pushes v (omega (arith, i.free)), after_store s q i v n e)
Step-QueueStep {s} {q} i (send_posts {n} e) = (
  q,
  waits,
  same_ring s q (s.chan.c_sem + 1) s.chan.s_sem s.entering n s.taking s.returning i (omega arith)
      refl,
)
Step-QueueStep {s} {q} i (recv_waits {c} e) =
    let (n, h, f) = recv_wait-cases s.chan e in
    (
      q,
      waits,
      subst (λ d. IsQueue (record s { chan = d; taking = suc s.taking }) q) (sym f)
          (same_ring s q n s.chan.s_sem s.entering s.posting (suc s.taking) s.returning i
            (omega arith) refl),
    )
Step-QueueStep {s} {q = []} i (recv_takes {n} e) = absurd (omega (arith, i.full))
Step-QueueStep {s} {q = x ∷ q} i (recv_takes {n} e) = (
  q,
  subst (λ v. QueueStep (x ∷ q) (Action.receives v) q)
      (sym (taken_at s.chan i.popped i.read i.capacity ∙ i.holds.0)) (pops x),
  after_take s x q n i e,
)
Step-QueueStep {s} {q} i (recv_posts {n} e) = (
  q,
  waits,
  same_ring s q s.chan.c_sem (s.chan.s_sem + 1) s.entering s.posting s.taking n i refl
      (omega arith),
)

size : (s : System) (q : List ℕ) → IsQueue s q → simple_chan_size s.chan ≡ length q
unfolding simple_chan_size
size s q i = omega (arith, i.write, i.read, i.free)

-- Whatever the threads do, in any order, the values that were received are those that were sent
-- first, in the order in which they were sent, and those in between are a queue of at most the
-- channel's capacity, which the ring buffer holds and whose length `simple_chan_size` gives.
pub simple_chan-fifo :
    (b : SimpleChan) {trace : List Action} {s : System}
    → length b.buffer ≡ capacity_of_ring
    → Reach b trace s
    → (q : List ℕ) × (sent trace ≡ received trace ++ q)
      × (length q ≤ capacity_of_ring)
      × (simple_chan_size s.chan ≡ length q)
      × IsQueue s q
simple_chan-fifo b h start =
    ([], refl, omega arith, size (initial b) [] (initial-IsQueue b h), initial-IsQueue b h)
simple_chan-fifo b h (later {trace} r step) =
    let (q, e, _, _, i) = simple_chan-fifo b h r in
    let (q', m, i') = Step-QueueStep i step in
    (q', traced trace e m, omega (arith, i'.free), size _ q' i', i')
  where
    traced :
        (trace : List Action) {q q' : List ℕ} {a : Action}
        → sent trace ≡ received trace ++ q
        → QueueStep q a q'
        → sent (a ∷ trace) ≡ received (a ∷ trace) ++ q'
    traced trace e waits = e
    traced trace {q} e (pushes v l) =
        ap (λ t. t ++ (v ∷ [])) e ∙ append_assoc (received trace) q (v ∷ [])
    traced trace e (pops {q} v) = e ∙ sym (append_assoc (received trace) (v ∷ []) q)
