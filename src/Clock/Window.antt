-- ===== src/Clock/Window.antt =====
-- About the window of offsets of a calibrator (`observe`, `snapshot` and `from_snapshot` of
-- `ConnectionClockCalibrator`, server/timing/normalization.py).
use mathlib.Core.List.{append_assoc, append-nil}
use balchug_racing.Base.{
  ℕ, zero, suc, ◌+◌, ◌-◌, ◌≤◌, ◌≡◌, refl, sym, ap, ◌∙◌, inl, inr, false, Option, none, some, List,
  [], ◌∷◌, ◌++◌, ltb, length, length-append, arith, Bool-cases, ltb,
}
use balchug_racing.Base.Int.{ℤ, pos, ◌-ℤ◌}
use balchug_racing.Wire.Json.{to_list}
use balchug_racing.Canonical.Duration.{Value}
use balchug_racing.Clock.Calibrator.{
  Calibrator, time_service_to_unix_us, drop_offsets, add_offset, observe_times, observe, integers,
  all_integers, new_calibrator, snapshot, from_snapshot,
}

-- the last `m` offsets
abbrev pub last_offsets : ℕ → List ℤ → List ℤ
last_offsets m offsets = drop_offsets (length offsets - m) offsets

-- observations one after the other
unfoldable pub observe_all : List (Value × Option ℤ) → Calibrator → Calibrator
unfolding observe
observe_all [] c = c
observe_all ((value, received) ∷ rest) c = observe_all rest (observe value received c).1

abbrev answered : Option ℤ → List ℤ → List ℤ
answered none offsets = offsets
answered (some offset) offsets = offset ∷ offsets

-- the receive time less the time of the provider, if both are known
unfoldable pub offset_of : Option ℕ → Option ℤ → Option ℤ
unfolding ◌-ℤ◌
offset_of (some provider) (some received) = some (received -ℤ pos provider)
offset_of _ _ = none

abbrev with_offset : Option ℤ → List ℤ → List ℤ
with_offset none offsets = offsets
with_offset (some offset) offsets = offset ∷ offsets

unfoldable pub offsets_of : List (Value × Option ℤ) → List ℤ
unfolding offset_of
offsets_of [] = []
offsets_of ((value, received) ∷ rest) =
    with_offset (offset_of (time_service_to_unix_us value) received) (offsets_of rest)

length-drop_offsets : (n : ℕ) (bs : List ℤ) → length (drop_offsets n bs) ≡ length bs - n
length-drop_offsets zero bs = omega arith
length-drop_offsets (suc n) [] = omega arith
length-drop_offsets (suc n) (b ∷ bs) = omega (arith, length-drop_offsets n bs)

drop_offsets-append :
    (j k : ℕ) (xs ys : List ℤ)
    → k ≤ length xs
    → drop_offsets j (drop_offsets k xs ++ ys) ≡ drop_offsets (j + k) (xs ++ ys)
drop_offsets-append j zero xs ys h =
    let e : j + 0 ≡ j = omega arith in ap (λ n. drop_offsets n (xs ++ ys)) (sym e)
drop_offsets-append j (suc k) [] ys h = absurd (omega arith)
drop_offsets-append j (suc k) (x ∷ xs) ys h =
    let e : j + suc k ≡ suc (j + k) = omega arith in
    drop_offsets-append j k xs ys (omega arith) ∙ ap (λ n. drop_offsets n ((x ∷ xs) ++ ys)) (sym e)

-- what is dropped early would be dropped late
last_offsets-append :
    (m : ℕ) (xs ys : List ℤ) → last_offsets m (last_offsets m xs ++ ys) ≡ last_offsets m (xs ++ ys)
last_offsets-append m xs ys =
    let k : ℕ = length xs - m in
    let kept : List ℤ = drop_offsets k xs in
    let j : ℕ = length (kept ++ ys) - m in
    let size = length-append kept ys in
    let whole = length-append xs ys in
    let short = length-drop_offsets k xs in
    drop_offsets-append j k xs ys (omega arith)
    ∙ ap (λ n. drop_offsets n (xs ++ ys)) (omega (arith, size, whole, short))

add_offset-last :
    (offset : ℤ) (c : Calibrator)
    → (add_offset offset c).offsets_us ≡ last_offsets c.max_samples (c.offsets_us ++ offset ∷ [])
add_offset-last offset c =
    let offsets = c.offsets_us ++ offset ∷ [] in
    elim (Bool-cases (ltb c.max_samples (length offsets))) [
      | inl full ↦ rw full refl
      | inr room ↦ let e : length offsets - c.max_samples ≡ 0 = ground arith in rw (room, e) refl
    ]

length-last_offsets : (m : ℕ) (offsets : List ℤ) → length (last_offsets m offsets) ≤ m
length-last_offsets m offsets = omega (arith, length-drop_offsets (length offsets - m) offsets)

last_offsets-short :
    (m : ℕ) (offsets : List ℤ) → length offsets ≤ m → last_offsets m offsets ≡ offsets
last_offsets-short m offsets h = let e : length offsets - m ≡ 0 = omega arith in rw e refl

-- one observation: a window, and what it answers
observe-window :
    (value : Value) (received : Option ℤ) (c : Calibrator) (more : List ℤ)
    → length c.offsets_us ≤ c.max_samples
    → ((observe value received c).1.max_samples ≡ c.max_samples)
      × (length (observe value received c).1.offsets_us ≤ c.max_samples)
      × (last_offsets c.max_samples ((observe value received c).1.offsets_us ++ more)
          ≡ last_offsets c.max_samples (
              c.offsets_us
              ++ with_offset (offset_of (time_service_to_unix_us value) received) more))
unfolding observe observe_times offset_of
observe-window value received c more h = by_time (time_service_to_unix_us value) received
  where
    by_time :
        (time : Option ℕ) (received : Option ℤ)
        → ((observe_times time received c).1.max_samples ≡ c.max_samples)
          × (length (observe_times time received c).1.offsets_us ≤ c.max_samples)
          × (last_offsets c.max_samples ((observe_times time received c).1.offsets_us ++ more)
              ≡ last_offsets c.max_samples
                  (c.offsets_us ++ with_offset (offset_of time received) more))
    by_time none received = (refl, h, refl)
    by_time (some provider) none = (refl, h, refl)
    by_time (some provider) (some received) =
        let offset : ℤ = received -ℤ pos provider in
        let offsets : List ℤ = c.offsets_us ++ offset ∷ [] in
        (
          refl,
          rw (add_offset-last offset c) (length-last_offsets c.max_samples offsets),
          rw
              (
                add_offset-last offset c,
                last_offsets-append c.max_samples offsets more,
                append_assoc c.offsets_us (offset ∷ []) more,
              )
              refl,
        )

-- After any observations a calibrator that held no more than `max_samples` offsets holds the last
-- `max_samples` of those that it held and of those that were observed, in their order: the receive time
-- less the time of the provider, of each observation in which both are known.
pub observe_all-window :
    (observations : List (Value × Option ℤ)) (c : Calibrator)
    → length c.offsets_us ≤ c.max_samples
    → ((observe_all observations c).offsets_us
        ≡ last_offsets c.max_samples (c.offsets_us ++ offsets_of observations))
      × (length (observe_all observations c).offsets_us ≤ c.max_samples)
unfolding observe_all offsets_of
observe_all-window [] c h = (
  sym (
      ap (last_offsets c.max_samples) (append-nil c.offsets_us)
      ∙ last_offsets-short c.max_samples c.offsets_us h),
  h,
)
observe_all-window ((value, received) ∷ rest) c h =
    let next : Calibrator = (observe value received c).1 in
    let (same, room, kept) = observe-window value received c (offsets_of rest) h in
    let (window, bound) = observe_all-window rest next (omega (arith, same, room)) in
    (
      window ∙ ap (λ m. last_offsets m (next.offsets_us ++ offsets_of rest)) same ∙ kept,
      omega (arith, bound, same),
    )

all_integers-integers :
    (offsets : List ℤ) → all_integers (to_list (integers offsets)) ≡ some offsets
all_integers-integers [] = refl
all_integers-integers (a ∷ bs) = rw (all_integers-integers bs) refl

length-integers : (offsets : List ℤ) → length (to_list (integers offsets)) ≡ length offsets
length-integers [] = refl
length-integers (a ∷ bs) = ap suc (length-integers bs)

-- A calibrator of at least one sample that holds no more offsets than it may is restored from its
-- checkpoint as it was.
pub from_snapshot-snapshot :
    (m : ℕ) (offsets : List ℤ)
    → length offsets ≤ suc m
    → from_snapshot (snapshot (record { max_samples = suc m; offsets_us = offsets }))
      ≡ some (record { max_samples = suc m; offsets_us = offsets })
unfolding from_snapshot snapshot new_calibrator
from_snapshot-snapshot m offsets h =
    let room : ltb (suc m) (length offsets) ≡ false = ground arith in
    rw (length-integers offsets, room, all_integers-integers offsets) refl
