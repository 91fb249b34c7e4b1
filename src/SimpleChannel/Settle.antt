-- ===== src/SimpleChannel/Settle.antt =====
-- How the threads inside a channel of src/simple_channel.c leave it.
use epx_c.Base.{ℕ, zero, suc, ◌+◌, ◌*◌, ◌≤◌, ◌<◌, ◌≡◌, refl, ◌⊎◌, inl, inr, List, length, arith}
use epx_c.SimpleChannel.{SimpleChan, capacity_of_ring}
use epx_c.SimpleChannel.Steps.{
  Action, System, Step, send_stores, send_posts, recv_takes, recv_posts, Reach, later,
}
use epx_c.SimpleChannel.Refine.{simple_chan-fifo}

-- the steps that the threads inside have left
abbrev pub steps_left : System → ℕ
steps_left s = 2 * s.entering + s.posting + 2 * s.taking + s.returning

-- the states that follow a state by steps of the threads inside: a wait would leave more steps
pub data Follows : System → System → Type 0 where
  none_taken : {s : System} → Follows s s
  taken :
      {s t u : System} {a : Action}
      → Step s a t
      → steps_left t < steps_left s
      → Follows t u
      → Follows s u

-- A state that follows `s`, with no thread inside; its semaphores have the whole capacity, so that
-- one of them lets a thread in.
pub record Settled (s : System) : Type 0 where
  pub state : System
  pub follows : Follows s state
  pub left : steps_left state ≡ 0
  pub open_to : state.chan.s_sem + state.chan.c_sem ≡ capacity_of_ring

count-cases : (n : ℕ) → (n ≡ 0) ⊎ ((k : ℕ) × (n ≡ suc k))
count-cases zero = inl refl
count-cases (suc n) = inr (n, refl)

-- while a thread is inside, some thread inside takes a step
one_less :
    (s : System)
    → 0 < steps_left s
    → (a : Action) × (t : System) × (Step s a t) × (steps_left t < steps_left s)
one_less s h = elim (count-cases s.entering) [
  | inr (n, e) ↦ (Action.sends 0, _, send_stores 0 e, omega arith)
  | inl e0 ↦ elim (count-cases s.posting) [
    | inr (n, e) ↦ (Action.quiet, _, send_posts e, omega arith)
    | inl e1 ↦ elim (count-cases s.taking) [
      | inr (n, e) ↦ (Action.receives _, _, recv_takes e, omega arith)
      | inl e2 ↦ elim (count-cases s.returning) [
        | inr (n, e) ↦ (Action.quiet, _, recv_posts e, omega arith)
        | inl e3 ↦ absurd (omega arith)
      ]
    ]
  ]
]

settled :
    (b : SimpleChan) {trace : List Action} (s : System)
    → length b.buffer ≡ capacity_of_ring
    → Reach b trace s
    → steps_left s ≡ 0
    → Settled s
settled b s h r e =
    let (q, _, _, _, i) = simple_chan-fifo b h r in
    record { state = s; follows = none_taken; left = e; open_to = omega (arith, i.free, i.full) }

settle_within :
    (b : SimpleChan)
    → length b.buffer ≡ capacity_of_ring
    → (n : ℕ) {trace : List Action} (s : System) → steps_left s ≤ n
    → Reach b trace s
    → Settled s
settle_within b h zero s l r = settled b s h r (omega arith)
settle_within b h (suc n) s l r = elim (count-cases (steps_left s)) [
  | inl e ↦ settled b s h r e
  | inr (k, e) ↦
      let (a, t, step, less) = one_less s (omega arith) in
      let rest = settle_within b h n t (omega arith) (later r step) in
      record {
        state = rest.state;
        follows = taken step less rest.follows;
        left = rest.left;
        open_to = rest.open_to;
      }
]

-- From every state that is reached, the threads that are inside the channel can all leave it by
-- steps that wait for nothing, and then a thread that sends or one that receives is let in.
pub simple_chan-settles :
    (b : SimpleChan) {trace : List Action} (s : System)
    → length b.buffer ≡ capacity_of_ring
    → Reach b trace s
    → Settled s
simple_chan-settles b s h r = settle_within b h (steps_left s) s (omega arith) r
