-- ===== src/Channel.antt =====
-- src/channel.c: channels of pointers, which are numbers, over the rings of the library ck. Where
-- the code is for Apple's systems it is left out.
pub mod Full
use epx_c.Base.{
  ℕ, ◌+◌, ◌<◌, ◌≤◌, ◌≡◌, Bool, true, false, Option, none, some, List, [], ◌∷◌, ◌++◌, length,
}
use epx_c.SimpleChannel.{sem_wait}

-- `CAPACITY`
abbrev pub capacity_of_chan : ℕ
capacity_of_chan = 2048

-- which of the rings' functions: for one or many producers and consumers
pub data Kind : Type 0 where
  spmc mpsc spsc mpmc : Kind

-- The rings of ck: `enqueue` tells if there was room, `dequeue` gives none if the ring is empty.
pub record CkRing : Type 1 where
  pub Ring : Type 0
  pub ring_init : ℕ → Ring
  pub enqueue : Kind → Ring → ℕ → Bool × Ring
  pub dequeue : Kind → Ring → Option ℕ × Ring

-- A ring of `size` places holds up to `size - 1` entries, the first first.
pub record CkRingLaws (x : CkRing) : Type 0 where
  pub entries : x.Ring → List ℕ
  pub places : x.Ring → ℕ
  pub entries-init : (n : ℕ) → entries (x.ring_init n) ≡ []
  pub places-init : (n : ℕ) → places (x.ring_init n) ≡ n
  pub enqueue_room :
      (k : Kind) (r : x.Ring) (p : ℕ)
      → length (entries r) + 1 < places r
      → (r' : x.Ring) × (x.enqueue k r p ≡ (true, r'))
        × (entries r' ≡ entries r ++ (p ∷ []))
        × (places r' ≡ places r)
  pub enqueue_full :
      (k : Kind) (r : x.Ring) (p : ℕ)
      → places r ≤ length (entries r) + 1
      → x.enqueue k r p ≡ (false, r)
  pub dequeue_some :
      (k : Kind) (r : x.Ring) (p : ℕ) (ps : List ℕ)
      → entries r ≡ p ∷ ps
      → (r' : x.Ring) × (x.dequeue k r ≡ (some p, r')) × (entries r' ≡ ps) × (places r' ≡ places r)
  pub dequeue_none : (k : Kind) (r : x.Ring) → entries r ≡ [] → x.dequeue k r ≡ (none, r)

module _ (x : CkRing) where
  -- the semaphores are used by the functions on `sem_chan` only
  pub record Chan : Type 0 where
    pub ring : x.Ring
    pub c_sem : ℕ
    pub s_sem : ℕ

module _ {x : CkRing} where
  unfoldable pub chan_init_sem : Chan x → Chan x
  chan_init_sem c = record {
    ring = x.ring_init capacity_of_chan;
    c_sem = 0;
    s_sem = capacity_of_chan;
  }

  unfoldable pub chan_init : Chan x → Chan x
  chan_init c = record c { ring = x.ring_init capacity_of_chan }

  abbrev pub send_ring : Kind → Chan x → ℕ → Bool × Chan x
  send_ring k c p = let (done, r) = x.enqueue k c.ring p in (done, record c { ring = r })

  abbrev pub recv_ring : Kind → Chan x → Option ℕ × Chan x
  recv_ring k c = let (found, r) = x.dequeue k c.ring in (found, record c { ring = r })

  unfoldable pub chan_send_spmc : Chan x → ℕ → Bool × Chan x
  chan_send_spmc c p = send_ring Kind.spmc c p

  unfoldable pub chan_recv_spmc : Chan x → Option ℕ × Chan x
  chan_recv_spmc c = recv_ring Kind.spmc c

  unfoldable pub chan_send_mpsc : Chan x → ℕ → Bool × Chan x
  chan_send_mpsc c p = send_ring Kind.mpsc c p

  unfoldable pub chan_recv_mpsc : Chan x → Option ℕ × Chan x
  chan_recv_mpsc c = recv_ring Kind.mpsc c

  -- None where the call blocks; the semaphores return no error.
  unfoldable pub sem_chan_send_mpsc : Chan x → ℕ → Option (Bool × Chan x)
  sem_chan_send_mpsc c p = elim (sem_wait c.s_sem) [
    | none ↦ none
    | some n ↦
        let (rc, c') = send_ring Kind.mpsc (record c { s_sem = n }) p in
        some (rc, record c' { c_sem = c'.c_sem + 1 })
  ]

  unfoldable pub sem_chan_recv_mpsc : Chan x → Option (Option ℕ × Chan x)
  sem_chan_recv_mpsc c = elim (sem_wait c.c_sem) [
    | none ↦ none
    | some n ↦
        let (rc, c') = recv_ring Kind.mpsc (record c { c_sem = n }) in
        some (rc, record c' { s_sem = c'.s_sem + 1 })
  ]

  unfoldable pub chan_send_spsc : Chan x → ℕ → Bool × Chan x
  chan_send_spsc c p = send_ring Kind.spsc c p

  unfoldable pub chan_recv_spsc : Chan x → Option ℕ × Chan x
  chan_recv_spsc c = recv_ring Kind.spsc c

  unfoldable pub chan_send_mpmc : Chan x → ℕ → Bool × Chan x
  chan_send_mpmc c p = send_ring Kind.mpmc c p

  unfoldable pub chan_recv_mpmc : Chan x → Option ℕ × Chan x
  chan_recv_mpmc c = recv_ring Kind.mpmc c
