-- ===== src/SimpleChannel/Queue.antt =====
-- The contract of a channel: a queue of at most `capacity_of_ring` values, and what it is in the
-- ring buffer.
use epx_c.Base.{
  ℕ, suc, ◌+◌, ◌%◌, ◌<◌, ◌≤◌, ◌≡◌, ◌≢◌, ap, ◌∙◌, bit_and, List, [], ◌∷◌, ◌++◌, length, get_or, set,
  get_or-set_self, get_or-set_ne, bit_and_mask11, arith,
}
use epx_c.SimpleChannel.{capacity_of_ring, u32}
use epx_c.SimpleChannel.Steps.{Action, System}

pub data QueueStep : List ℕ → Action → List ℕ → Type 0 where
  waits : {q : List ℕ} → QueueStep q Action.quiet q
  pushes :
      {q : List ℕ} (v : ℕ)
      → length q < capacity_of_ring
      → QueueStep q (Action.sends v) (q ++ (v ∷ []))
  pops : {q : List ℕ} (v : ℕ) → QueueStep (v ∷ q) (Action.receives v) q

-- The buffer holds the values `q` from the place of the count `n` on.
abbrev pub Holds : List ℕ → ℕ → List ℕ → Type 0
Holds buffer n [] = Unit
Holds buffer n (v ∷ q) = (get_or buffer (n % 2048) 0 ≡ v) × Holds buffer (suc n) q

-- The channel of `s` is the queue `q` when `popped` values were received.
pub record IsQueue (s : System) (q : List ℕ) : Type 0 where
  pub popped : ℕ
  pub read : s.chan.read ≡ u32 popped
  pub write : s.chan.write ≡ u32 (popped + length q)
  pub capacity : s.chan.capacity ≡ capacity_of_ring
  pub buffer : length s.chan.buffer ≡ capacity_of_ring
  pub holds : Holds s.chan.buffer popped q
  pub full : length q ≡ s.chan.c_sem + s.posting + s.taking
  pub free : s.chan.s_sem + s.entering + s.returning + length q ≡ capacity_of_ring

pub masked : (n : ℕ) → bit_and (u32 n) 2047 ≡ n % 2048
masked n = omega (arith, bit_and_mask11 (u32 n))

Holds-set :
    (buffer : List ℕ) (n k v : ℕ) (q : List ℕ)
    → n + length q ≤ k
    → k < n + 2048
    → Holds buffer n q
    → Holds (set buffer (k % 2048) v) n q
Holds-set buffer n k v [] h l p = tt
Holds-set buffer n k v (x ∷ q) h l p = (
  get_or-set_ne buffer v 0 other ∙ p.0,
  Holds-set buffer (suc n) k v q (omega arith) (omega arith) p.1,
)
  where
    other : k % 2048 ≢ n % 2048
    other = λ e. omega arith

Holds-snoc :
    (buffer : List ℕ) (n v : ℕ) (q : List ℕ)
    → get_or buffer ((n + length q) % 2048) 0 ≡ v
    → Holds buffer n q
    → Holds buffer n (q ++ (v ∷ []))
Holds-snoc buffer n v [] e p = (ap (λ k. get_or buffer (k % 2048) 0) {x = n} (omega arith) ∙ e, tt)
Holds-snoc buffer n v (x ∷ q) e p = (
  p.0,
  Holds-snoc buffer (suc n) v q
      (ap (λ k. get_or buffer (k % 2048) 0) {y = n + suc (length q)} (omega arith) ∙ e) p.1,
)

-- A value that is stored behind the queue is the queue's last.
pub Holds-store :
    (buffer : List ℕ) (n v : ℕ) (q : List ℕ)
    → length buffer ≡ 2048
    → length q < 2048
    → Holds buffer n q
    → Holds (set buffer ((n + length q) % 2048) v) n (q ++ (v ∷ []))
Holds-store buffer n v q b h p =
    Holds-snoc (set buffer ((n + length q) % 2048) v) n v q
      (get_or-set_self buffer ((n + length q) % 2048) v 0 (omega arith))
      (Holds-set buffer n (n + length q) v q (omega arith) (omega arith) p)
