-- ===== src/Lifecycle/Arguments.antt =====
-- About the checks of arguments in server/timing/lifecycle.py.
use balchug_racing.Base.{
  ℕ, ◌≤◌, ◌≡◌, refl, sym, ◌⊎◌, ◌↔◌, inl, inr, String, true, false, Option, none, some, List, [],
  ◌∷◌, arith, Bool-cases, any, length, All, str_eq, str_eq_iff,
}
use balchug_racing.Lifecycle.Transaction.{ok}
use balchug_racing.Lifecycle.Validation.{
  validate_key_codes, is_space, is_stripped, last_is_space, is_hidden, one_of, modes, SessionSpec,
  validate_session_spec, is_number_of, race_durations_s, race_required_pits,
}

abbrev pub IsVisible : ℕ → Type 0
IsVisible c = (33 ≤ c) × (c ≤ 126)

is_space-IsVisible : (c : ℕ) → IsVisible c → is_space c ≡ false
is_space-IsVisible c h = ground arith

last_is_space-IsVisible : (cs : List ℕ) → All IsVisible cs → last_is_space cs ≡ false
last_is_space-IsVisible [] h = refl
last_is_space-IsVisible (c ∷ []) h = is_space-IsVisible c h.0
last_is_space-IsVisible (c ∷ d ∷ cs) h = last_is_space-IsVisible (d ∷ cs) h.1

is_stripped-IsVisible : (cs : List ℕ) → All IsVisible cs → is_stripped cs ≡ true
is_stripped-IsVisible [] h = refl
is_stripped-IsVisible (c ∷ cs) h = rw (is_space-IsVisible c h.0, last_is_space-IsVisible (c ∷ cs) h)

any-IsVisible : (cs : List ℕ) → (any is_hidden cs ≡ false) ↔ All IsVisible cs
any-IsVisible [] = (λ _. tt, λ _. refl)
any-IsVisible (c ∷ cs) = (
  λ h. (ground arith, (any-IsVisible cs).0 (ground arith)),
  λ h. ground (arith, (any-IsVisible cs).1 h.1),
)

-- An idempotency key is accepted exactly when it has 1 to 255 characters and all are visible ASCII
-- characters: the test for surrounding spaces refuses no further key.
pub validate_key_codes-eq_ok_iff :
    (cs : List ℕ)
    → (validate_key_codes cs ≡ ok tt) ↔ ((1 ≤ length cs) × (length cs ≤ 255) × All IsVisible cs)
unfolding validate_key_codes
validate_key_codes-eq_ok_iff cs = (
  λ h. (ground arith, ground arith, (any-IsVisible cs).0 (ground arith)),
  λ h. ground (arith, is_stripped-IsVisible cs h.2, (any-IsVisible cs).1 h.2),
)

-- the `CHECK`s of the table `analysis_sessions` (server/timing/migrations/0001_initial.sql, lines 19 to
-- 30) on the columns of a specification
abbrev pub IsDuration : ℕ → Type 0
IsDuration d = (d ≡ 14400) ⊎ (d ≡ 21600) ⊎ (d ≡ 43200) ⊎ (d ≡ 86400)

abbrev pub IsAllowed : SessionSpec → Type 0
IsAllowed s =
    ((s.mode ≡ "race")
      × ((d : ℕ) × (s.race_duration_s ≡ some d) × IsDuration d)
      × ((n : ℕ) × (s.required_pits ≡ some n) × (2 ≤ n) × (n ≤ 8)))
    ⊎ (((s.mode ≡ "practice") ⊎ (s.mode ≡ "qualifying"))
        × (s.race_duration_s ≡ none)
        × (s.required_pits ≡ none))

race_durations_s-IsDuration :
    (o : Option ℕ) → is_number_of race_durations_s o ≡ true → (d : ℕ) × (o ≡ some d) × IsDuration d
race_durations_s-IsDuration none h = absurd (ground arith)
race_durations_s-IsDuration (some d) h = (d, refl, ground (arith, h))

race_required_pits-between :
    (o : Option ℕ)
    → is_number_of race_required_pits o ≡ true
    → (n : ℕ) × (o ≡ some n) × (2 ≤ n) × (n ≤ 8)
race_required_pits-between none h = absurd (ground arith)
race_required_pits-between (some n) h = (n, refl, ground (arith, h), ground (arith, h))

other_mode :
    (mode : String)
    → one_of modes mode ≡ true
    → str_eq mode "race" ≡ false
    → (mode ≡ "practice") ⊎ (mode ≡ "qualifying")
other_mode mode known other = elim (Bool-cases (str_eq mode "practice")) [
  | inl practice ↦ inl ((str_eq_iff mode "practice").0 practice)
  | inr neither ↦ inr ((str_eq_iff mode "qualifying").0 (ground (arith, known, other, neither)))
]

-- an accepted specification holds what was asked for, and is allowed
accepted-IsAllowed :
    (mode : String) (duration pits : Option ℕ) (s : SessionSpec)
    → validate_session_spec mode duration pits ≡ ok s
    → IsAllowed s × (s.mode ≡ mode) × (s.race_duration_s ≡ duration) × (s.required_pits ≡ pits)
unfolding validate_session_spec
accepted-IsAllowed mode duration pits s h = elim (Bool-cases (one_of modes mode)) [
  | inl known ↦ elim (Bool-cases (str_eq mode "race")) [
    | inl race ↦
        let facts : (is_number_of race_durations_s duration ≡ true)
            × (is_number_of race_required_pits pits ≡ true)
            × (record { mode = mode; race_duration_s = duration; required_pits = pits } ≡ s) =
          ground (arith, known, race) in
        rw (← facts.2) (
          inl (
            (str_eq_iff mode "race").0 race,
            race_durations_s-IsDuration duration facts.0,
            race_required_pits-between pits facts.1,
          ),
          refl,
          refl,
          refl,
        )
    | inr other ↦
        let facts : (s ≡ record { mode = mode; race_duration_s = none; required_pits = none })
            × (duration ≡ none)
            × (pits ≡ none) =
          ground (arith, known, other) in
        rw facts.0 (inr (other_mode mode known other, refl, refl), refl, sym facts.1, sym facts.2)
  ]
  | inr unknown ↦ absurd (ground (arith, unknown))
]

IsDuration-race_durations_s : (d : ℕ) → IsDuration d → is_number_of race_durations_s (some d) ≡ true
IsDuration-race_durations_s d (inl e) = rw e refl
IsDuration-race_durations_s d (inr (inl e)) = rw e refl
IsDuration-race_durations_s d (inr (inr (inl e))) = rw e refl
IsDuration-race_durations_s d (inr (inr (inr e))) = rw e refl

between-race_required_pits :
    (n : ℕ) → 2 ≤ n → n ≤ 8 → is_number_of race_required_pits (some n) ≡ true
between-race_required_pits n low high = ground (arith, low, high)

IsAllowed-accepted :
    (s : SessionSpec)
    → IsAllowed s
    → validate_session_spec s.mode s.race_duration_s s.required_pits ≡ ok s
unfolding validate_session_spec
IsAllowed-accepted s (inl (race, (d, long, allowed), (n, pits, low, high))) =
    rw
      (
        race,
        long,
        pits,
        IsDuration-race_durations_s d allowed,
        between-race_required_pits n low high,
      )
      refl
IsAllowed-accepted s (inr (inl practice, long, pits)) = rw (practice, long, pits) refl
IsAllowed-accepted s (inr (inr qualifying, long, pits)) = rw (qualifying, long, pits) refl

-- A specification is accepted exactly when it meets the `CHECK`s of the table, and holds the mode, the
-- duration and the number of pits that were asked for.
pub validate_session_spec-eq_ok_iff :
    (mode : String) (duration pits : Option ℕ) (s : SessionSpec)
    → (validate_session_spec mode duration pits ≡ ok s)
      ↔ (IsAllowed s × (s.mode ≡ mode) × (s.race_duration_s ≡ duration) × (s.required_pits ≡ pits))
validate_session_spec-eq_ok_iff mode duration pits s = (
  λ h. accepted-IsAllowed mode duration pits s h,
  λ h. rw (← h.1, ← h.2, ← h.3) (IsAllowed-accepted s h.0),
)
