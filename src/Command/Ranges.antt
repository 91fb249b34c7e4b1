-- ===== src/Command/Ranges.antt =====
-- When ranges of src/command.c overlap, and when commands interfere.
use epx_c.Base.{
  ℕ, zero, suc, ◌+◌, ◌≤◌, ◌<◌, ◌≡◌, refl, sym, ◌∙◌, ◌↔◌, inl, inr, true, ◌&&◌, ◌||◌, List, [], ◌∷◌,
  ◌++◌, get_or, Bool-cases, arith,
}
use native.Mathlib.Decide.{dec_lt}
use epx_c.Command.{
  Key, Span, Command, zero_span, strcmp, le_zero, ge_zero, overlaps, overlap_row, overlap_rows,
  overlap_sparse, is_cons, is_write, interferes,
}
use epx_c.Command.Order.{IsLe, IsLe-refl, IsLe-trans, IsLe-total, ge_zero-le_zero}

abbrev pub IsIn : Key → Span → Type 0
IsIn k s = IsLe s.start_key k × IsLe k s.end_key

-- Two ranges that do not end before they start overlap exactly when a key is in both.
pub overlaps_iff :
    (s t : Span)
    → IsLe s.start_key s.end_key
    → IsLe t.start_key t.end_key
    → (overlaps s t ≡ true) ↔ ((k : Key) × IsIn k s × IsIn k t)
unfolding overlaps
overlaps_iff s t hs ht = (common, overlapping)
  where
    common :
        (le_zero (strcmp s.start_key t.end_key) && ge_zero (strcmp s.end_key t.start_key)) ≡ true
        → (k : Key) × IsIn k s × IsIn k t
    common h = elim (Bool-cases (le_zero (strcmp s.start_key t.start_key))) [
      | inl p ↦ (
        t.start_key,
        (p, ground (arith, ge_zero-le_zero s.end_key t.start_key)),
        (IsLe-refl t.start_key, ht),
      )
      | inr p ↦ (
        s.start_key,
        (IsLe-refl s.start_key, hs),
        (IsLe-total s.start_key t.start_key p, ground arith),
      )
    ]

    overlapping :
        ((k : Key) × IsIn k s × IsIn k t)
        → (le_zero (strcmp s.start_key t.end_key) && ge_zero (strcmp s.end_key t.start_key)) ≡ true
    overlapping (k, (a, b), (c, d)) = ground (
      arith,
      IsLe-trans s.start_key k t.end_key a d,
      IsLe-trans t.start_key k s.end_key c b,
      ge_zero-le_zero s.end_key t.start_key,
    )

-- A range of `c2` among `j, …, j + n - 1` overlaps `s`.
abbrev Meets : ℕ → ℕ → Span → Command → Type 0
Meets n j s c2 = (k : ℕ) × (j ≤ k) × (k < j + n) × (overlaps s (get_or c2.spans k zero_span) ≡ true)

overlap_row-Meets :
    (n j : ℕ) (s : Span) (c2 : Command) → is_cons (overlap_row n j s c2) ≡ true → Meets n j s c2
unfolding overlap_row
overlap_row-Meets zero j s c2 h = absurd (ground arith)
overlap_row-Meets (suc n) j s c2 h = elim (Bool-cases (overlaps s (get_or c2.spans j zero_span))) [
  | inl p ↦ (j, omega arith, omega arith, p)
  | inr p ↦
      let (k, l, u, q) = overlap_row-Meets n (j + 1) s c2 (ground arith) in
      (k, omega arith, omega arith, q)
]

overlap_row-cons :
    (n j k : ℕ) (s : Span) (c2 : Command)
    → j ≤ k
    → k < j + n
    → overlaps s (get_or c2.spans k zero_span) ≡ true
    → is_cons (overlap_row n j s c2) ≡ true
unfolding overlap_row
overlap_row-cons zero j k s c2 l u p = absurd (omega arith)
overlap_row-cons (suc n) j k s c2 l u p = elim (dec_lt j k) [
  | yes m ↦ ground (arith, overlap_row-cons n (j + 1) k s c2 (omega arith))
  | no m ↦
      (let same : k ≡ j = omega arith in
        let hit : overlaps s (get_or c2.spans j zero_span) ≡ true = rw (sym same) p in
        ground (arith, hit))
]

is_cons-append : (xs ys : List Span) → is_cons (xs ++ ys) ≡ (is_cons xs || is_cons ys)
is_cons-append [] ys = refl
is_cons-append (x ∷ xs) ys = refl

-- A range of `c1` among `i, …, i + n - 1` overlaps one of `c2`.
abbrev MeetsAny : ℕ → ℕ → Command → Command → Type 0
MeetsAny n i c1 c2 =
    (k : ℕ) × (i ≤ k)
    × (k < i + n)
    × (is_cons (overlap_row c2.tx_size 0 (get_or c1.spans k zero_span) c2) ≡ true)

overlap_rows-MeetsAny :
    (n i : ℕ) (c1 c2 : Command) → is_cons (overlap_rows n i c1 c2) ≡ true → MeetsAny n i c1 c2
unfolding overlap_rows
overlap_rows-MeetsAny zero i c1 c2 h = absurd (ground arith)
overlap_rows-MeetsAny (suc n) i c1 c2 h =
    elim (Bool-cases (is_cons (overlap_row c2.tx_size 0 (get_or c1.spans i zero_span) c2))) [
      | inl p ↦ (i, omega arith, omega arith, p)
      | inr p ↦
          let (k, l, u, q) = overlap_rows-MeetsAny n (i + 1) c1 c2 (
            ground (
              arith,
              is_cons-append (overlap_row c2.tx_size 0 (get_or c1.spans i zero_span) c2)
                  (overlap_rows n (i + 1) c1 c2),
            )) in
          (k, omega arith, omega arith, q)
    ]

overlap_rows-cons :
    (n i k : ℕ) (c1 c2 : Command)
    → i ≤ k
    → k < i + n
    → is_cons (overlap_row c2.tx_size 0 (get_or c1.spans k zero_span) c2) ≡ true
    → is_cons (overlap_rows n i c1 c2) ≡ true
unfolding overlap_rows
overlap_rows-cons zero i k c1 c2 l u p = absurd (omega arith)
overlap_rows-cons (suc n) i k c1 c2 l u p =
    is_cons-append (overlap_row c2.tx_size 0 (get_or c1.spans i zero_span) c2)
      (overlap_rows n (i + 1) c1 c2)
    ∙ elim (dec_lt i k) [
      | yes m ↦ ground (arith, overlap_rows-cons n (i + 1) k c1 c2 (omega arith))
      | no m ↦
          (let same : k ≡ i = omega arith in
            let hit : is_cons (overlap_row c2.tx_size 0 (get_or c1.spans i zero_span) c2) ≡ true =
              rw (sym same) p in
            ground (arith, hit))
    ]

-- One of the first `tx_size` ranges of the first command overlaps one of those of the second.
abbrev pub HaveOverlap : Command → Command → Type 0
HaveOverlap c1 c2 =
    (i : ℕ) × (j : ℕ) × (i < c1.tx_size)
    × (j < c2.tx_size)
    × (overlaps (get_or c1.spans i zero_span) (get_or c2.spans j zero_span) ≡ true)

interferes-HaveOverlap :
    (c1 c2 : Command)
    → (interferes c1 c2).0 ≡ true
    → ((is_write c1.writing || is_write c2.writing) ≡ true) × HaveOverlap c1 c2
unfolding interferes overlap_sparse
interferes-HaveOverlap c1 c2 h = elim (Bool-cases (is_write c1.writing || is_write c2.writing)) [
  | inr w ↦ absurd (ground arith)
  | inl w ↦
      let (i, _, iu, p) = overlap_rows-MeetsAny c1.tx_size 0 c1 c2 (ground arith) in
      let (j, _, ju, q) = overlap_row-Meets c2.tx_size 0 (get_or c1.spans i zero_span) c2 p in
      (w, (i, j, omega arith, omega arith, q))
]

HaveOverlap-interferes :
    (c1 c2 : Command)
    → (is_write c1.writing || is_write c2.writing) ≡ true
    → HaveOverlap c1 c2
    → (interferes c1 c2).0 ≡ true
unfolding interferes overlap_sparse
HaveOverlap-interferes c1 c2 w (i, j, iu, ju, q) = ground (
  arith,
  overlap_rows-cons c1.tx_size 0 i c1 c2 (omega arith) (omega arith) (
      overlap_row-cons c2.tx_size 0 j (get_or c1.spans i zero_span) c2 (omega arith) (omega arith)
        q),
)

-- Two commands interfere exactly when one of them writes and one of the first `tx_size` ranges of
-- the first overlaps one of the first `tx_size` ranges of the second.
pub interferes_iff :
    (c1 c2 : Command)
    → ((interferes c1 c2).0 ≡ true)
      ↔ (((is_write c1.writing || is_write c2.writing) ≡ true) × HaveOverlap c1 c2)
interferes_iff c1 c2 = (interferes-HaveOverlap c1 c2, λ (w, o). HaveOverlap-interferes c1 c2 w o)
