-- ===== src/Clock/Median.antt =====
-- About the offset of a calibrator (`offset_us` of `ConnectionClockCalibrator`,
-- server/timing/normalization.py).
use balchug_racing.Base.{
  ℕ, zero, suc, ◌+◌, ◌-◌, ◌/◌, ◌%◌, ◌<◌, ◌≤◌, ◌≡◌, refl, ap, ◌∙◌, inl, inr, Bool, false, not,
  if◌then◌else◌, some, List, [], ◌∷◌, ◌==◌, length, count, arith, Bool-cases, All,
}
use balchug_racing.Base.Int.{ℤ, pos, negsuc, pos_part, neg_part, ◌+ℤ◌, +ℤ_parts, ltb_ℤ}
use balchug_racing.Clock.Calibrator.{
  Calibrator, insert_offset, sorted, nth, half, middle, offset_us,
}

-- The integer at place `n`, from 0 on, among these when they are put in order: at most `n` of them are
-- smaller, and more than `n` are not larger.
abbrev pub HasRank : ℕ → List ℤ → ℤ → Type 0
HasRank n offsets a =
    (count (λ b. ltb_ℤ b a) offsets ≤ n) × (n < count (λ b. not (ltb_ℤ a b)) offsets)

-- half of the sum, rounded down
abbrev pub IsHalf : ℤ → ℤ → ℤ → Type 0
IsHalf low high a =
    (pos_part a + pos_part a + neg_part low + neg_part high
      ≤ neg_part a + neg_part a + pos_part low + pos_part high)
    × (neg_part a + neg_part a + pos_part low + pos_part high
        ≤ pos_part a + pos_part a + neg_part low + neg_part high + 1)

-- The median: half of the sum of the two in the middle, which are the same place for an odd number.
abbrev pub IsMedian : List ℤ → ℤ → Type 0
IsMedian offsets a =
    (low : ℤ) × (high : ℤ) × HasRank ((length offsets - 1) / 2) offsets low
    × HasRank (length offsets / 2) offsets high
    × IsHalf low high a

-- no integer is larger than a later one
abbrev IsAscending : List ℤ → Type 0
IsAscending [] = Unit
IsAscending (a ∷ bs) = All (λ b. ltb_ℤ b a ≡ false) bs × IsAscending bs

insert_offset-All :
    (P : ℤ → Type 0) (a : ℤ) (bs : List ℤ) → P a → All P bs → All P (insert_offset a bs)
insert_offset-All P a [] h hs = (h, tt)
insert_offset-All P a (b ∷ bs) h hs = elim (Bool-cases (ltb_ℤ b a)) [
  | inl less ↦ rw less (hs.0, insert_offset-All P a bs h hs.1)
  | inr more ↦ rw more (h, hs)
]

-- what is not below `b` is not below a smaller integer
All-above :
    (a b : ℤ) (bs : List ℤ)
    → ltb_ℤ b a ≡ false
    → All (λ x. ltb_ℤ x b ≡ false) bs
    → All (λ x. ltb_ℤ x a ≡ false) bs
All-above a b [] h hs = tt
All-above a b (x ∷ xs) h hs =
    let first : ltb_ℤ x b ≡ false = hs.0 in (ground (arith, h, first), All-above a b xs h hs.1)

insert_offset-IsAscending :
    (a : ℤ) (bs : List ℤ) → IsAscending bs → IsAscending (insert_offset a bs)
insert_offset-IsAscending a [] h = (tt, tt)
insert_offset-IsAscending a (b ∷ bs) h = elim (Bool-cases (ltb_ℤ b a)) [
  | inl less ↦
      let order : ltb_ℤ a b ≡ false = ground (arith, less) in
      rw less (
        insert_offset-All (λ x. ltb_ℤ x b ≡ false) a bs order h.0,
        insert_offset-IsAscending a bs h.1,
      )
  | inr more ↦ rw more ((more, All-above a b bs more h.0), h)
]

sorted-IsAscending : (bs : List ℤ) → IsAscending (sorted bs)
unfolding sorted
sorted-IsAscending [] = tt
sorted-IsAscending (b ∷ bs) = insert_offset-IsAscending b (sorted bs) (sorted-IsAscending bs)

count-insert_offset :
    (p : ℤ → Bool) (a : ℤ) (bs : List ℤ)
    → count p (insert_offset a bs) ≡ (if p a then 1 else 0) + count p bs
count-insert_offset p a [] = refl
count-insert_offset p a (b ∷ bs) = elim (Bool-cases (ltb_ℤ b a)) [
  | inl less ↦ rw less (omega (arith, count-insert_offset p a bs))
  | inr more ↦ rw more refl
]

count-sorted : (p : ℤ → Bool) (bs : List ℤ) → count p (sorted bs) ≡ count p bs
unfolding sorted
count-sorted p [] = refl
count-sorted p (b ∷ bs) = omega (arith, count-insert_offset p b (sorted bs), count-sorted p bs)

length-insert_offset : (a : ℤ) (bs : List ℤ) → length (insert_offset a bs) ≡ suc (length bs)
length-insert_offset a [] = refl
length-insert_offset a (b ∷ bs) = elim (Bool-cases (ltb_ℤ b a)) [
  | inl less ↦ rw less (ap suc (length-insert_offset a bs))
  | inr more ↦ rw more refl
]

length-sorted : (bs : List ℤ) → length (sorted bs) ≡ length bs
unfolding sorted
length-sorted [] = refl
length-sorted (b ∷ bs) = length-insert_offset b (sorted bs) ∙ ap suc (length-sorted bs)

nth-All : (P : ℤ → Type 0) (n : ℕ) (bs : List ℤ) → n < length bs → All P bs → P (nth n bs)
nth-All P n [] h hs = absurd (omega arith)
nth-All P zero (b ∷ bs) h hs = hs.0
nth-All P (suc n) (b ∷ bs) h hs = nth-All P n bs (omega arith) hs.1

count-above :
    (a : ℤ) (bs : List ℤ) → All (λ b. ltb_ℤ b a ≡ false) bs → count (λ b. ltb_ℤ b a) bs ≡ 0
count-above a [] h = refl
count-above a (b ∷ bs) h = rw h.0 (omega (arith, count-above a bs h.1))

nth-HasRank : (n : ℕ) (bs : List ℤ) → n < length bs → IsAscending bs → HasRank n bs (nth n bs)
nth-HasRank n [] h order = absurd (omega arith)
nth-HasRank zero (b ∷ bs) h order =
    let self : ltb_ℤ b b ≡ false = ground arith in
    rw self (omega (arith, count-above b bs order.0), omega arith)
nth-HasRank (suc n) (b ∷ bs) h order =
    let room : n < length bs = omega arith in
    let (below, reached) = nth-HasRank n bs room order.1 in
    let above = nth-All (λ x. ltb_ℤ x b ≡ false) n bs room order.0 in
    (ground (arith, below), rw above (omega (arith, reached)))

sorted-HasRank : (n : ℕ) (bs : List ℤ) → n < length bs → HasRank n bs (nth n (sorted bs))
sorted-HasRank n bs h =
    let a = nth n (sorted bs) in
    let (below, reached) =
      nth-HasRank n (sorted bs) (omega (arith, length-sorted bs)) (sorted-IsAscending bs) in
    (
      omega (arith, below, count-sorted (λ b. ltb_ℤ b a) bs),
      omega (arith, reached, count-sorted (λ b. not (ltb_ℤ a b)) bs),
    )

-- half of an integer, by its parts
half-IsHalf : (a b : ℤ) → IsHalf a b (half (a +ℤ b))
half-IsHalf a b = by_sum (a +ℤ b) (+ℤ_parts a b)
  where
    by_sum :
        (s : ℤ)
        → pos_part s + neg_part a + neg_part b ≡ neg_part s + pos_part a + pos_part b
        → IsHalf a b (half s)
    by_sum (pos n) e = (omega (arith, e), omega (arith, e))
    by_sum (negsuc n) e = (omega (arith, e), omega (arith, e))

middle-IsMedian : (bs : List ℤ) → 0 < length bs → IsMedian bs (middle (sorted bs))
unfolding middle
middle-IsMedian bs h = elim (Bool-cases (length (sorted bs) % 2 == 1)) [
  | inl odd ↦
      let one_place : (length bs - 1) / 2 ≡ length bs / 2 = ground (arith, odd, length-sorted bs) in
      let a = nth (length bs / 2) (sorted bs) in
      let ranked = sorted-HasRank (length bs / 2) bs (omega arith) in
      rw (odd, length-sorted bs, one_place) (a, a, ranked, ranked, (omega arith, omega arith))
  | inr even ↦
      let place : (length bs - 1) / 2 ≡ length bs / 2 - 1 =
        ground (arith, even, length-sorted bs) in
      let low = nth (length bs / 2 - 1) (sorted bs) in
      let high = nth (length bs / 2) (sorted bs) in
      rw (even, length-sorted bs, place)
        (
          low,
          high,
          sorted-HasRank (length bs / 2 - 1) bs (omega arith),
          sorted-HasRank (length bs / 2) bs (omega arith),
          half-IsHalf low high,
        )
]

-- A calibrator that holds an offset answers the median of its offsets: the one in the middle when they are
-- put in order, or half of the sum of the two in the middle, rounded down, when their number is even.
pub offset_us-IsMedian :
    (c : Calibrator)
    → 0 < length c.offsets_us
    → (offset : ℤ) × (offset_us c ≡ some offset) × IsMedian c.offsets_us offset
unfolding offset_us
offset_us-IsMedian c h = by_offsets c.offsets_us h refl
  where
    by_offsets :
        (offsets : List ℤ)
        → 0 < length offsets
        → c.offsets_us ≡ offsets
        → (offset : ℤ) × (offset_us c ≡ some offset) × IsMedian c.offsets_us offset
    by_offsets [] h e = absurd (omega arith)
    by_offsets (a ∷ bs) h e = rw e (middle (sorted (a ∷ bs)), refl, middle-IsMedian (a ∷ bs) h)
