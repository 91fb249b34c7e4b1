-- ===== src/SimpleChannel/Steps.antt =====
-- Threads that send and receive over one channel of src/simple_channel.c, interleaved in any order.
use epx_c.Base.{ℕ, suc, ◌≡◌, some, List, [], ◌∷◌, ◌++◌}
use epx_c.SimpleChannel.{
  SimpleChan, simple_chan_init, send_wait, send_store, send_post, recv_wait, recv_take, recv_post,
}

-- How many threads have passed `sem_wait` but not reached the buffer, or have been at the buffer
-- but not called `sem_post`, in `simple_chan_send` and in `simple_chan_recv`.
pub record System : Type 0 where
  pub chan : SimpleChan
  pub entering : ℕ
  pub posting : ℕ
  pub taking : ℕ
  pub returning : ℕ

-- What a step does to the sequence of the values: nothing, or it sends or receives one.
pub data Action : Type 0 where
  quiet : Action
  sends : ℕ → Action
  receives : ℕ → Action

pub data Step (s : System) : Action → System → Type 0 where
  send_waits :
      {c : SimpleChan}
      → send_wait s.chan ≡ some c
      → Step s Action.quiet (record s { chan = c; entering = suc s.entering })
  send_stores :
      (v : ℕ) {n : ℕ}
      → s.entering ≡ suc n
      → Step s
          (Action.sends v)
          (record s { chan = send_store v s.chan; entering = n; posting = suc s.posting })
  send_posts :
      {n : ℕ}
      → s.posting ≡ suc n
      → Step s Action.quiet (record s { chan = send_post s.chan; posting = n })
  recv_waits :
      {c : SimpleChan}
      → recv_wait s.chan ≡ some c
      → Step s Action.quiet (record s { chan = c; taking = suc s.taking })
  recv_takes :
      {n : ℕ}
      → s.taking ≡ suc n
      → Step s
          (Action.receives (recv_take s.chan).0)
          (record s { chan = (recv_take s.chan).1; taking = n; returning = suc s.returning })
  recv_posts :
      {n : ℕ}
      → s.returning ≡ suc n
      → Step s Action.quiet (record s { chan = recv_post s.chan; returning = n })

-- a channel that was initialised in any memory of its size, with no thread in it
abbrev pub initial : SimpleChan → System
initial b = record {
  chan = simple_chan_init b;
  entering = 0;
  posting = 0;
  taking = 0;
  returning = 0;
}

-- the states that are reached, with the actions so far, the last first
pub data Reach (b : SimpleChan) : List Action → System → Type 0 where
  start : Reach b [] (initial b)
  later :
      {trace : List Action} {s t : System} {a : Action}
      → Reach b trace s
      → Step s a t
      → Reach b (a ∷ trace) t

-- the values that were sent, and those that were received, the first first
abbrev pub sent : List Action → List ℕ
sent [] = []
sent (Action.quiet ∷ trace) = sent trace
sent (Action.sends v ∷ trace) = sent trace ++ (v ∷ [])
sent (Action.receives v ∷ trace) = sent trace

abbrev pub received : List Action → List ℕ
received [] = []
received (Action.quiet ∷ trace) = received trace
received (Action.sends v ∷ trace) = received trace
received (Action.receives v ∷ trace) = received trace ++ (v ∷ [])
