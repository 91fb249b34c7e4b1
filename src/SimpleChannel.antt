-- ===== src/SimpleChannel.antt =====
-- src/simple_channel.c: a bounded ring buffer between threads. A `void*` is a number; a semaphore
-- is its value, and to wait on 0 is to block.
pub mod Steps
pub mod Queue
pub mod Refine
pub mod Settle
pub mod Alone
use epx_c.Base.{ℕ, zero, suc, ◌+◌, ◌-◌, ◌%◌, ◌^◌, bit_and, Option, none, some, List, get_or, set}

-- `CAPACITY`
abbrev pub capacity_of_ring : ℕ
capacity_of_ring = 2048

-- `read` and `write` are `uint32_t`.
pub record SimpleChan : Type 0 where
  pub read : ℕ
  pub write : ℕ
  pub buffer : List ℕ
  pub capacity : ℕ
  pub c_sem : ℕ
  pub s_sem : ℕ

abbrev pub u32 : ℕ → ℕ
u32 n = n % 2 ^ 32

abbrev pub sem_wait : ℕ → Option ℕ
sem_wait zero = none
sem_wait (suc n) = some n

unfoldable pub simple_chan_init : SimpleChan → SimpleChan
simple_chan_init b = record b {
  read = 0;
  write = 0;
  capacity = capacity_of_ring;
  c_sem = 0;
  s_sem = capacity_of_ring;
}

-- `simple_chan_send` has three steps: what stands under the lock is one of them.
unfoldable pub send_wait : SimpleChan → Option SimpleChan
send_wait b = elim (sem_wait b.s_sem) [ none ↦ none | some n ↦ some (record b { s_sem = n }) ]

unfoldable pub send_store : ℕ → SimpleChan → SimpleChan
send_store data_of b = record b {
  buffer = set b.buffer (bit_and b.write (b.capacity - 1)) data_of;
  write = u32 (b.write + 1);
}

unfoldable pub send_post : SimpleChan → SimpleChan
send_post b = record b { c_sem = b.c_sem + 1 }

-- None where the call blocks.
unfoldable pub simple_chan_send : SimpleChan → ℕ → Option SimpleChan
simple_chan_send b data_of = elim (send_wait b) [
  | none ↦ none
  | some b' ↦ some (send_post (send_store data_of b'))
]

unfoldable pub recv_wait : SimpleChan → Option SimpleChan
recv_wait b = elim (sem_wait b.c_sem) [ none ↦ none | some n ↦ some (record b { c_sem = n }) ]

-- A read past the buffer would give 0.
unfoldable pub recv_take : SimpleChan → ℕ × SimpleChan
recv_take b =
    (get_or b.buffer (bit_and b.read (b.capacity - 1)) 0, record b { read = u32 (b.read + 1) })

unfoldable pub recv_post : SimpleChan → SimpleChan
recv_post b = record b { s_sem = b.s_sem + 1 }

unfoldable pub simple_chan_recv : SimpleChan → Option (ℕ × SimpleChan)
simple_chan_recv b = elim (recv_wait b) [
  | none ↦ none
  | some b' ↦ let (result, b2) = recv_take b' in some (result, recv_post b2)
]

-- the difference of two `uint32_t`
unfoldable pub simple_chan_size : SimpleChan → ℕ
simple_chan_size b = (b.write + 2 ^ 32 - b.read) % 2 ^ 32
