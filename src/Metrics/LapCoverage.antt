-- ===== src/Metrics/LapCoverage.antt =====
-- About the run of samples behind `calculate_gap_lap_trend` of server/timing/metrics.py.
use balchug_racing.Base.{
  ℕ, ◌+◌, ◌-◌, ◌<◌, ◌≤◌, ◌≡◌, refl, ap, ◌∙◌, inl, inr, String, true, not, ◌||◌, Option, none, some,
  List, [], ◌∷◌, arith, leb, ◌==◌, ==_iff, Bool-cases, is_value, find, str_eq,
}
use balchug_racing.Base.Int.{pos, sub_ℕ}
use balchug_racing.Metrics.Gap.{
  natural, number, GapSample, is_eligible_gap_sample, ordered_gap_samples,
}
use balchug_racing.Metrics.Trend.{
  GapLapTrend, newest_first, suffix_before, is_relation, lap_trend_row, lap_trend_between,
  is_lap_before, lap_trend_at, lap_trend_from, calculate_gap_lap_trend,
}
use balchug_racing.Metrics.Coverage.{
  IsRun, suffix_before-IsRun, DirectionOf, gap_direction-DirectionOf,
}

-- What a trend over a number of laps promises.
pub record CoversLaps (samples : List GapSample) (relation : String) (window : ℕ)
    (trend : GapLapTrend) : Type 0 where
  pub latest : GapSample
  pub earlier : List GapSample
  pub first : GapSample
  pub lap : ℕ
  pub ordered : newest_first (ordered_gap_samples samples) [] ≡ latest ∷ earlier
  pub run : IsRun earlier latest first
  pub started_lap : natural first.our_lap_number ≡ some lap
  pub ended_lap : natural latest.our_lap_number ≡ some (lap + window)
  pub started_at : trend.started_at_us ≡ number first.observed_at_us
  pub ended_at : trend.ended_at_us ≡ number latest.observed_at_us
  pub started_gap : trend.started_gap_ms ≡ number first.gap_ms
  pub ended_gap : trend.ended_gap_ms ≡ number latest.gap_ms
  pub changed : trend.gap_change_ms ≡ sub_ℕ (number latest.gap_ms) (number first.gap_ms)
  pub later : trend.started_at_us < trend.ended_at_us
  pub directed :
      DirectionOf (str_eq relation "AHEAD") trend.started_gap_ms trend.ended_gap_ms trend.direction

lap_trend_between-some :
    (relation : String) (window : ℕ) (latest : GapSample) (found : Option GapSample)
    (trend : GapLapTrend)
    → lap_trend_between relation window latest found ≡ some trend
    → (first : GapSample) × (found ≡ some first)
      × (number first.observed_at_us < number latest.observed_at_us)
      × (trend ≡ lap_trend_row relation window latest first)
unfolding lap_trend_between
lap_trend_between-some relation window latest none trend e = absurd (ground arith)
lap_trend_between-some relation window latest (some first) trend e =
    elim (Bool-cases (leb (number latest.observed_at_us) (number first.observed_at_us))) [
      | inl late ↦ absurd (ground (arith, rw late at e))
      | inr fine ↦ (first, refl, ground (arith, fine), ground (arith, rw fine at e))
    ]

is_value-some : (o : Option ℕ) (n : ℕ) → is_value o n ≡ true → o ≡ some n
is_value-some none n h = absurd (ground arith)
is_value-some (some m) n h = ap some ((==_iff m n).0 h)

lap_trend_row-CoversLaps :
    (samples : List GapSample) (relation : String) (window lap : ℕ) (latest first : GapSample)
    (earlier : List GapSample)
    → newest_first (ordered_gap_samples samples) [] ≡ latest ∷ earlier
    → IsRun earlier latest first
    → number first.observed_at_us < number latest.observed_at_us
    → natural latest.our_lap_number ≡ some lap
    → window ≤ lap
    → is_lap_before window lap first ≡ true
    → CoversLaps samples relation window (lap_trend_row relation window latest first)
unfolding lap_trend_row
lap_trend_row-CoversLaps samples relation window lap latest first earlier e run later at_lap enough
      back =
    record {
      latest = latest;
      earlier = earlier;
      first = first;
      lap = lap - window;
      ordered = e;
      run = run;
      started_lap = is_value-some (natural first.our_lap_number) (lap - window) back;
      ended_lap = at_lap ∙ ap some (omega (arith, enough));
      started_at = refl;
      ended_at = refl;
      started_gap = refl;
      ended_gap = refl;
      changed = refl;
      later = later;
      directed = gap_direction-DirectionOf relation (number first.gap_ms) (number latest.gap_ms);
    }

lap_trend_at-CoversLaps :
    (samples : List GapSample) (relation : String) (window : ℕ) (latest : GapSample)
    (at_lap : Option ℕ) (earlier : List GapSample) (trend : GapLapTrend)
    → newest_first (ordered_gap_samples samples) [] ≡ latest ∷ earlier
    → is_eligible_gap_sample latest ≡ true
    → natural latest.our_lap_number ≡ at_lap
    → lap_trend_at relation window latest at_lap earlier ≡ some trend
    → CoversLaps samples relation window trend
unfolding lap_trend_at
lap_trend_at-CoversLaps samples relation window latest none earlier trend o eligible l e =
    absurd (ground arith)
lap_trend_at-CoversLaps samples relation window latest (some lap) earlier trend o eligible l e =
    elim (Bool-cases (leb window lap)) [
      | inr few ↦ absurd (ground (arith, rw few at e))
      | inl enough ↦
          let (first, found, later, same) =
            lap_trend_between-some relation window latest
              (find (is_lap_before window lap) (suffix_before latest earlier)) trend
              (rw enough at e) in
          let (run, back) =
            suffix_before-IsRun latest first (is_lap_before window lap) earlier eligible found in
          rw same (
            lap_trend_row-CoversLaps samples relation window lap latest first earlier o run later l
              (ground (arith, enough)) back)
    ]

lap_trend_from-CoversLaps :
    (samples : List GapSample) (relation : String) (window : ℕ) (rows : List GapSample)
    (trend : GapLapTrend)
    → newest_first (ordered_gap_samples samples) [] ≡ rows
    → lap_trend_from relation window rows ≡ some trend
    → CoversLaps samples relation window trend
unfolding lap_trend_from
lap_trend_from-CoversLaps samples relation window [] trend o e = absurd (ground arith)
lap_trend_from-CoversLaps samples relation window (latest ∷ []) trend o e = absurd (ground arith)
lap_trend_from-CoversLaps samples relation window (latest ∷ s ∷ ss) trend o e =
    elim (Bool-cases (is_eligible_gap_sample latest)) [
      | inr refused ↦ absurd (ground (arith, rw refused at e))
      | inl eligible ↦
          lap_trend_at-CoversLaps samples relation window latest (natural latest.our_lap_number)
            (s ∷ ss) trend o eligible refl (rw eligible at e)
    ]

-- A trend over a number of laps comes from one unbroken run of eligible samples of one target, the
-- newest sample included, whose ends are exactly that many laps of ours apart; its direction tells
-- whether the gap grew or shrank between them, and its gaps and times are those of the two ends.
pub calculate_gap_lap_trend-CoversLaps :
    (samples : List GapSample) (relation : String) (window : ℕ) (trend : GapLapTrend)
    → calculate_gap_lap_trend samples relation (pos window) ≡ some trend
    → CoversLaps samples relation window trend
unfolding calculate_gap_lap_trend
calculate_gap_lap_trend-CoversLaps samples relation window trend e =
    elim (Bool-cases (not (is_relation relation) || window == 0)) [
      | inl refused ↦ absurd (ground (arith, rw refused at e))
      | inr fine ↦ lap_trend_from-CoversLaps samples relation window _ trend refl (rw fine at e)
    ]
