-- ===== src/Socket/Header.antt =====
-- The loops of src/fbs_sock.c that write and read the length of a message.
use native.Mathlib.Nat.{pow-suc}
use epx_c.Base.{
  ℕ, zero, suc, ◌+◌, ◌*◌, ◌/◌, ◌%◌, ◌^◌, ◌≤◌, ◌<◌, ◌≡◌, ◌≢◌, refl, ap, ◌∙◌, bit_or, bit_or-shift,
  List, length, length-set, get_or, set, get_or-set_self, get_or-set_ne, arith,
}
use native.Mathlib.Decide.{dec_lt}
use epx_c.InstanceId.{u64}
use epx_c.Socket.{FbsSock, place, write_header, read_header}

pow_step : (n : ℕ) → 256 ^ suc n ≡ 256 ^ n * 256
pow_step n = rw (pow-suc) refl

pow_pos : (n : ℕ) → 1 ≤ 256 ^ n
pow_pos zero = omega arith
pow_pos (suc n) = omega (arith, pow_step n, pow_pos n)

grow : (c n : ℕ) → c * 256 ^ suc n ≡ c * 256 ^ n * 256
grow c n = rw (pow_step n) (grind arith)

spread : (a b p : ℕ) → (a * 256 + b) * p ≡ a * p * 256 + b * p
spread a b p = grind arith

module _ (self : FbsSock) where
  abbrev byte : List ℕ → ℕ → ℕ
  byte buf i = get_or buf (place self i) 0

  -- the number in bytes `i, …, i + n - 1`
  abbrev pub value : ℕ → ℕ → List ℕ → ℕ
  value zero i buf = 0
  value (suc n) i buf = byte buf i + 256 * value n (suc i) buf

  place-lt : (i : ℕ) → i < self.hdrlen → place self i < self.hdrlen
  unfolding place
  place-lt i h = ground arith

  place-ne : (i j : ℕ) → i < self.hdrlen → j < self.hdrlen → i ≢ j → place self i ≢ place self j
  unfolding place
  place-ne i j h k n = ground arith

  pub length-write_header :
      (n i sz : ℕ) (buf : List ℕ) → length (write_header self n i sz buf) ≡ length buf
  unfolding write_header
  length-write_header zero i sz buf = refl
  length-write_header (suc n) i sz buf =
      length-write_header n (suc i) (sz / 256) (set buf (place self i) (sz % 256))
      ∙ length-set buf (place self i) (sz % 256)

  -- the bytes before `i` are left alone
  byte-write_header :
      (n i sz j : ℕ) (buf : List ℕ)
      → i + n ≤ self.hdrlen
      → j < i
      → byte (write_header self n i sz buf) j ≡ byte buf j
  unfolding write_header
  byte-write_header zero i sz j buf h k = refl
  byte-write_header (suc n) i sz j buf h k =
      byte-write_header n (suc i) (sz / 256) j _ (omega arith) (omega arith)
      ∙ get_or-set_ne buf (sz % 256) 0
          (place-ne i j (omega arith) (omega arith) (λ e. absurd (omega arith)))

  value-write_header :
      (n i sz : ℕ) (buf : List ℕ)
      → i + n ≤ self.hdrlen
      → length buf ≡ self.hdrlen
      → sz < 256 ^ n
      → value n i (write_header self n i sz buf) ≡ sz
  unfolding write_header
  value-write_header zero i sz buf h l k = omega arith
  value-write_header (suc n) i sz buf h l k = omega (
    arith,
    byte-write_header n (suc i) (sz / 256) i (set buf (place self i) (sz % 256)) (omega arith)
        (omega arith),
    get_or-set_self buf (place self i) (sz % 256) 0 (omega (arith, place-lt i (omega arith))),
    value-write_header n (suc i) (sz / 256) (set buf (place self i) (sz % 256)) (omega arith)
        (length-set buf (place self i) (sz % 256) ∙ l) (omega (arith, pow_step n)),
  )

  value-suc :
      (n i : ℕ) (buf : List ℕ) → value (suc n) i buf ≡ value n i buf + byte buf (i + n) * 256 ^ n
  value-suc zero i buf = let e : i ≡ i + 0 = omega arith in omega (arith, ap (byte buf) e)
  value-suc (suc n) i buf =
      let k : suc i + n ≡ i + suc n = omega arith in
      let e : byte buf (suc i + n) ≡ byte buf (i + suc n) = ap (byte buf) k in
      omega (arith, value-suc n (suc i) buf, grow (byte buf (i + suc n)) n, ap (λ c. c * 256 ^ n) e)

  -- one round
  shift_in : (sz c : ℕ) → sz * 256 < 2 ^ 64 → c < 256 → bit_or (u64 (sz * 2 ^ 8)) c ≡ sz * 256 + c
  shift_in sz c h k =
      let e : u64 (sz * 2 ^ 8) ≡ sz * 2 ^ 8 = omega arith in rw e (bit_or-shift 8 sz c k)

  room : (sz p v : ℕ) → 1 ≤ p → sz * p * 256 + v < 2 ^ 64 → sz * 256 < 2 ^ 64
  room sz p v h k = grind arith

  read_header-value :
      (n sz : ℕ) (buf : List ℕ)
      → ((j : ℕ) → j < n → byte buf j < 256)
      → sz * 256 ^ n + value n 0 buf < 2 ^ 64
      → read_header self n sz buf ≡ sz * 256 ^ n + value n 0 buf
  unfolding read_header
  read_header-value zero sz buf b h = omega arith
  read_header-value (suc n) sz buf b h = rw (shift_in sz (byte buf n) fits (b n (omega arith))) (
      read_header-value n (sz * 256 + byte buf n) buf (λ j k. b j (omega arith))
        (omega (arith, h, sum))
      ∙ sum)
    where
      digit : value (suc n) 0 buf ≡ value n 0 buf + byte buf n * 256 ^ n
      digit =
          let e : 0 + n ≡ n = omega arith in
          value-suc n 0 buf ∙ ap (λ k. value n 0 buf + byte buf k * 256 ^ n) e

      sum :
          (sz * 256 + byte buf n) * 256 ^ n + value n 0 buf ≡ sz * 256 ^ suc n + value (suc n) 0 buf
      sum = omega (arith, digit, grow sz n, spread sz (byte buf n) (256 ^ n))

      fits : sz * 256 < 2 ^ 64
      fits = room sz (256 ^ n) (value (suc n) 0 buf) (pow_pos n) (omega (arith, h, grow sz n))

  written-lt :
      (n i sz j : ℕ) (buf : List ℕ)
      → i + n ≤ self.hdrlen
      → length buf ≡ self.hdrlen
      → i ≤ j
      → j < i + n
      → byte (write_header self n i sz buf) j < 256
  unfolding write_header
  written-lt zero i sz j buf h l p q = absurd (omega arith)
  written-lt (suc n) i sz j buf h l p q = elim (dec_lt i j) [
    | yes m ↦
        written-lt n (suc i) (sz / 256) j (set buf (place self i) (sz % 256)) (omega arith)
          (length-set buf (place self i) (sz % 256) ∙ l) m (omega arith)
    | no m ↦
        (let e : j ≡ i = omega arith in
          rw e (
            omega (
              arith,
              byte-write_header n (suc i) (sz / 256) i (set buf (place self i) (sz % 256))
                  (omega arith) (omega arith),
              get_or-set_self buf (place self i) (sz % 256) 0
                  (omega (arith, place-lt i (omega arith))),
            )))
  ]

-- For either order of the bytes: a 64-bit length that fits the header is read back as it was
-- written, whatever the array held before.
pub read_header-write_header :
    (self : FbsSock) (sz : ℕ) (garbage : List ℕ)
    → length garbage ≡ self.hdrlen
    → sz < 256 ^ self.hdrlen
    → sz < 2 ^ 64
    → read_header self self.hdrlen 0 (write_header self self.hdrlen 0 sz garbage) ≡ sz
read_header-write_header self sz garbage l fits small =
    read_header-value self self.hdrlen 0 (write_header self self.hdrlen 0 sz garbage)
      (λ j k.
        written-lt self self.hdrlen 0 sz j garbage (omega arith) l (omega arith) (omega arith))
      (omega (arith, all))
    ∙ omega (arith, all)
  where
    all : value self self.hdrlen 0 (write_header self self.hdrlen 0 sz garbage) ≡ sz
    all = value-write_header self self.hdrlen 0 sz garbage (omega arith) l fits
