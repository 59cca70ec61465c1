-- ===== src/Metrics/Coverage.antt =====
-- About the run of samples behind `calculate_gap_trend` of server/timing/metrics.py.
use mathlib.Core.List.{◌++◌}
use balchug_racing.Base.{
  ℕ, ◌+◌, ◌-◌, ◌*◌, ◌<◌, ◌≤◌, ◌≡◌, refl, ap, inl, inr, String, Bool, true, false, not, ◌||◌, Option,
  none, some, List, [], ◌∷◌, arith, leb, ◌==◌, if◌then◌else◌, Bool-cases, find, str_eq, All,
}
use balchug_racing.Base.Int.{pos, sub_ℕ}
use balchug_racing.Metrics.Gap.{
  by_sign, number, GapSample, is_eligible_gap_sample, Direction, closing, losing_ground,
  pulling_away, being_caught, stable, gap_direction, ordered_gap_samples,
}
use balchug_racing.Metrics.Trend.{
  trend_row, GapTrend, newest_first, continues, suffix_before, is_relation, trend_between, is_cut,
  trend_from, calculate_gap_trend,
}

-- An unbroken run from the sample `latest` back through the earlier ones, newest first, to `first`:
-- all of its samples are eligible and of one target.
pub record IsRun (earlier : List GapSample) (latest first : GapSample) : Type 0 where
  pub between : List GapSample
  pub rest : List GapSample
  pub splits : earlier ≡ between ++ (first ∷ rest)
  pub newest : is_eligible_gap_sample latest ≡ true
  pub unbroken : All (λ s. continues latest s ≡ true) between
  pub oldest : continues latest first ≡ true

pub suffix_before-IsRun :
    (latest first : GapSample) (q : GapSample → Bool) (ss : List GapSample)
    → is_eligible_gap_sample latest ≡ true
    → find q (suffix_before latest ss) ≡ some first
    → IsRun ss latest first × (q first ≡ true)
unfolding suffix_before
suffix_before-IsRun latest first q [] h e = absurd (ground arith)
suffix_before-IsRun latest first q (s ∷ ss) h e = elim (Bool-cases (continues latest s)) [
  | inr broken ↦ absurd (ground (arith, rw broken at e))
  | inl more ↦ elim (Bool-cases (q s)) [
    | inl hit ↦
        let same : s ≡ first = ground (arith, rw (more, hit) at e) in
        rw (← same) (
          record {
            between = [];
            rest = ss;
            splits = refl;
            newest = h;
            unbroken = tt;
            oldest = more;
          },
          hit,
        )
    | inr miss ↦
        let (run, passed) = suffix_before-IsRun latest first q ss h (rw (more, miss) at e) in
        (
          record {
            between = s ∷ run.between;
            rest = run.rest;
            splits = ap (λ r. s ∷ r) run.splits;
            newest = h;
            unbroken = (more, run.unbroken);
            oldest = run.oldest;
          },
          passed,
        )
  ]
]

-- What a direction says of the first and the last gap, for a target ahead and for one behind.
abbrev pub DirectionOf : Bool → ℕ → ℕ → Direction → Type 0
DirectionOf ahead first last stable = first ≡ last
DirectionOf true first last closing = last < first
DirectionOf true first last losing_ground = first < last
DirectionOf false first last pulling_away = first < last
DirectionOf false first last being_caught = last < first
DirectionOf _ first last _ = ⊥

by_sign-DirectionOf :
    (ahead : Bool) (first last : ℕ)
    → DirectionOf ahead first last (
        if ahead
        then by_sign (sub_ℕ last first) losing_ground closing
        else by_sign (sub_ℕ last first) pulling_away being_caught)
by_sign-DirectionOf ahead first last = elim (Bool-cases (leb first last)) [
  | inr shrinks ↦ elim ahead [
    | true ↦ rw shrinks (ground (arith, shrinks))
    | false ↦ rw shrinks (ground (arith, shrinks))
  ]
  | inl grows ↦ elim (Bool-cases ((last - first) == 0)) [
    | inl level ↦ elim ahead [
      | true ↦ rw (grows, level) (ground (arith, grows, level))
      | false ↦ rw (grows, level) (ground (arith, grows, level))
    ]
    | inr apart ↦ elim ahead [
      | true ↦ rw (grows, apart) (ground (arith, grows, apart))
      | false ↦ rw (grows, apart) (ground (arith, grows, apart))
    ]
  ]
]

pub gap_direction-DirectionOf :
    (relation : String) (first last : ℕ)
    → DirectionOf (str_eq relation "AHEAD") first last (gap_direction relation (sub_ℕ last first))
unfolding gap_direction
gap_direction-DirectionOf relation first last =
    by_sign-DirectionOf (str_eq relation "AHEAD") first last

-- What a trend over a time window promises.
pub record Covers (samples : List GapSample) (relation : String) (window : ℕ) (trend : GapTrend)
    : Type 0 where
  pub latest : GapSample
  pub earlier : List GapSample
  pub first : GapSample
  pub ordered : newest_first (ordered_gap_samples samples) [] ≡ latest ∷ earlier
  pub run : IsRun earlier latest first
  pub started_at : trend.started_at_us ≡ number first.observed_at_us
  pub ended_at : trend.ended_at_us ≡ number latest.observed_at_us
  pub started_gap : trend.started_gap_ms ≡ number first.gap_ms
  pub ended_gap : trend.ended_gap_ms ≡ number latest.gap_ms
  pub window_covered : trend.started_at_us + window * 1000000 ≤ trend.ended_at_us
  pub covered : trend.started_at_us + trend.covered_us ≡ trend.ended_at_us
  pub directed :
      DirectionOf (str_eq relation "AHEAD") trend.started_gap_ms trend.ended_gap_ms trend.direction

trend_between-some :
    (relation : String) (window : ℕ) (latest : GapSample) (found : Option GapSample)
    (trend : GapTrend)
    → trend_between relation window latest found ≡ some trend
    → (first : GapSample) × (found ≡ some first)
      × (number first.observed_at_us < number latest.observed_at_us)
      × (trend ≡ trend_row relation window latest first)
unfolding trend_between
trend_between-some relation window latest none trend e = absurd (ground arith)
trend_between-some relation window latest (some first) trend e =
    elim (Bool-cases (leb (number latest.observed_at_us) (number first.observed_at_us))) [
      | inl late ↦ absurd (ground (arith, rw late at e))
      | inr fine ↦ (first, refl, ground (arith, fine), ground (arith, rw fine at e))
    ]

-- the trend row of an unbroken run that covers the window
trend_row-Covers :
    (samples : List GapSample) (relation : String) (window : ℕ) (latest first : GapSample)
    (earlier : List GapSample)
    → newest_first (ordered_gap_samples samples) [] ≡ latest ∷ earlier
    → IsRun earlier latest first
    → number first.observed_at_us < number latest.observed_at_us
    → is_cut window latest first ≡ true
    → Covers samples relation window (trend_row relation window latest first)
unfolding trend_row
trend_row-Covers samples relation window latest first earlier e run later cut = record {
  latest = latest;
  earlier = earlier;
  first = first;
  ordered = e;
  run = run;
  started_at = refl;
  ended_at = refl;
  started_gap = refl;
  ended_gap = refl;
  window_covered = ground (arith, cut);
  covered = omega (arith, later);
  directed = gap_direction-DirectionOf relation (number first.gap_ms) (number latest.gap_ms);
}

trend_from-Covers :
    (samples : List GapSample) (relation : String) (window : ℕ) (rows : List GapSample)
    (trend : GapTrend)
    → newest_first (ordered_gap_samples samples) [] ≡ rows
    → trend_from relation window rows ≡ some trend
    → Covers samples relation window trend
unfolding trend_from
trend_from-Covers samples relation window [] trend o e = absurd (ground arith)
trend_from-Covers samples relation window (latest ∷ []) trend o e = absurd (ground arith)
trend_from-Covers samples relation window (latest ∷ s ∷ ss) trend o e =
    elim (Bool-cases (is_eligible_gap_sample latest)) [
      | inr refused ↦ absurd (ground (arith, rw refused at e))
      | inl eligible ↦
          let (first, found, later, same) =
            trend_between-some relation window latest
              (find (is_cut window latest) (suffix_before latest (s ∷ ss))) trend
              (rw eligible at e) in
          let (run, cut) =
            suffix_before-IsRun latest first (is_cut window latest) (s ∷ ss) eligible found in
          rw same (trend_row-Covers samples relation window latest first (s ∷ ss) o run later cut)
    ]

-- A trend over a time window comes from one unbroken run of eligible samples of one target, the
-- newest sample included, which covers the whole window; its direction tells whether the gap grew
-- or shrank along that run.
pub calculate_gap_trend-Covers :
    (samples : List GapSample) (relation : String) (window : ℕ) (trend : GapTrend)
    → calculate_gap_trend samples relation (pos window) ≡ some trend
    → Covers samples relation window trend
unfolding calculate_gap_trend
calculate_gap_trend-Covers samples relation window trend e =
    elim (Bool-cases (not (is_relation relation) || window == 0)) [
      | inl refused ↦ absurd (ground (arith, rw refused at e))
      | inr fine ↦ trend_from-Covers samples relation window _ trend refl (rw fine at e)
    ]
