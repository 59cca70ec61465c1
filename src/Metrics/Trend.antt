-- ===== src/Metrics/Trend.antt =====
-- Gap trends: `GapTrend`, `GapLapTrend`, `calculate_gap_trend` and `calculate_gap_lap_trend` of
-- server/timing/metrics.py. A list that the source reads from its end is kept newest first.
use balchug_racing.Base.{
  ℕ, ◌+◌, ◌-◌, ◌*◌, String, Bool, true, false, not, ◌&&◌, ◌||◌, Option, none, some, List, [], ◌∷◌,
  ltb, leb, ◌==◌, if◌then◌else◌, is_value, find, str_eq,
}
use balchug_racing.Base.Int.{ℤ, pos, negsuc, sub_ℕ}
use balchug_racing.Metrics.Gap.{
  natural, number, GapSample, is_eligible_gap_sample, Direction, gap_direction, ordered_gap_samples,
}

-- `covered_us` is a million times `covered_s`; a closure is a numerator and a denominator.
pub record GapTrend : Type 0 where
  pub relation : String
  pub window_s : ℕ
  pub covered_us : ℕ
  pub started_at_us : ℕ
  pub ended_at_us : ℕ
  pub started_gap_ms : ℕ
  pub ended_gap_ms : ℕ
  pub gap_change_ms : ℤ
  pub closure_ms : ℤ
  pub lap_delta : Option ℕ
  pub direction : Direction

pub record GapLapTrend : Type 0 where
  pub relation : String
  pub window_laps : ℕ
  pub started_at_us : ℕ
  pub ended_at_us : ℕ
  pub started_gap_ms : ℕ
  pub ended_gap_ms : ℕ
  pub gap_change_ms : ℤ
  pub closure_ms : ℤ
  pub direction : Direction

abbrev pub newest_first : List GapSample → List GapSample → List GapSample
newest_first [] done = done
newest_first (s ∷ ss) done = newest_first ss (s ∷ done)

abbrev pub same_target : Option String → Option String → Bool
same_target none none = true
same_target none (some b) = false
same_target (some a) none = false
same_target (some a) (some b) = str_eq a b

-- the test of the loop that walks back from the latest sample
abbrev pub continues : GapSample → GapSample → Bool
continues latest s =
    is_eligible_gap_sample s && same_target s.target_participant_id latest.target_participant_id

-- `suffix[:-1]`, newest first
unfoldable pub suffix_before : GapSample → List GapSample → List GapSample
suffix_before latest [] = []
suffix_before latest (s ∷ ss) = if continues latest s then s ∷ suffix_before latest ss else []

abbrev pub is_relation : String → Bool
is_relation r = str_eq r "AHEAD" || str_eq r "BEHIND"

abbrev pub closure_of : String → ℕ → ℕ → ℤ
closure_of relation first latest =
    if str_eq relation "AHEAD" then sub_ℕ first latest else sub_ℕ latest first

-- `lap_delta`, if it is positive
abbrev pub positive_delta : Option ℕ → Option ℕ → Option ℕ
positive_delta none b = none
positive_delta (some a) none = none
positive_delta (some a) (some b) = if ltb b a then some (a - b) else none

-- the trend from the sample `first` to the sample `latest`
unfoldable pub trend_row : String → ℕ → GapSample → GapSample → GapTrend
unfolding gap_direction
trend_row relation window latest first = record {
  relation = relation;
  window_s = window;
  covered_us = number latest.observed_at_us - number first.observed_at_us;
  started_at_us = number first.observed_at_us;
  ended_at_us = number latest.observed_at_us;
  started_gap_ms = number first.gap_ms;
  ended_gap_ms = number latest.gap_ms;
  gap_change_ms = sub_ℕ (number latest.gap_ms) (number first.gap_ms);
  closure_ms = closure_of relation (number first.gap_ms) (number latest.gap_ms);
  lap_delta = positive_delta (natural latest.our_lap_number) (natural first.our_lap_number);
  direction = gap_direction relation (sub_ℕ (number latest.gap_ms) (number first.gap_ms));
}

unfoldable pub trend_between : String → ℕ → GapSample → Option GapSample → Option GapTrend
unfolding trend_row
trend_between relation window latest none = none
trend_between relation window latest (some first) =
    if leb (number latest.observed_at_us) (number first.observed_at_us)
    then none
    else some (trend_row relation window latest first)

-- `observed_at_us <= cutoff_us`
abbrev pub is_cut : ℕ → GapSample → GapSample → Bool
is_cut window latest s =
    leb (number s.observed_at_us + window * 1000000) (number latest.observed_at_us)

unfoldable pub trend_from : String → ℕ → List GapSample → Option GapTrend
unfolding suffix_before trend_between is_eligible_gap_sample
trend_from relation window [] = none
trend_from relation window (latest ∷ []) = none
trend_from relation window (latest ∷ s ∷ ss) =
    if is_eligible_gap_sample latest
    then trend_between relation window latest
        (find (is_cut window latest) (suffix_before latest (s ∷ ss)))
    else none

unfoldable pub calculate_gap_trend : List GapSample → String → ℤ → Option GapTrend
unfolding trend_from ordered_gap_samples
calculate_gap_trend samples relation (pos window) =
    if not (is_relation relation) || window == 0
    then none
    else trend_from relation window (newest_first (ordered_gap_samples samples) [])
calculate_gap_trend samples relation (negsuc window) = none

unfoldable pub lap_trend_row : String → ℕ → GapSample → GapSample → GapLapTrend
unfolding gap_direction
lap_trend_row relation window latest first = record {
  relation = relation;
  window_laps = window;
  started_at_us = number first.observed_at_us;
  ended_at_us = number latest.observed_at_us;
  started_gap_ms = number first.gap_ms;
  ended_gap_ms = number latest.gap_ms;
  gap_change_ms = sub_ℕ (number latest.gap_ms) (number first.gap_ms);
  closure_ms = closure_of relation (number first.gap_ms) (number latest.gap_ms);
  direction = gap_direction relation (sub_ℕ (number latest.gap_ms) (number first.gap_ms));
}

unfoldable pub lap_trend_between : String → ℕ → GapSample → Option GapSample → Option GapLapTrend
unfolding lap_trend_row
lap_trend_between relation window latest none = none
lap_trend_between relation window latest (some first) =
    if leb (number latest.observed_at_us) (number first.observed_at_us)
    then none
    else some (lap_trend_row relation window latest first)

-- the lap `window` laps before the lap of the latest sample
abbrev pub is_lap_before : ℕ → ℕ → GapSample → Bool
is_lap_before window lap s = is_value (natural s.our_lap_number) (lap - window)

unfoldable pub lap_trend_at :
    String → ℕ → GapSample → Option ℕ → List GapSample → Option GapLapTrend
unfolding suffix_before lap_trend_between
lap_trend_at relation window latest none earlier = none
lap_trend_at relation window latest (some lap) earlier =
    if leb window lap
    then lap_trend_between relation window latest
        (find (is_lap_before window lap) (suffix_before latest earlier))
    else none

unfoldable pub lap_trend_from : String → ℕ → List GapSample → Option GapLapTrend
unfolding lap_trend_at is_eligible_gap_sample
lap_trend_from relation window [] = none
lap_trend_from relation window (latest ∷ []) = none
lap_trend_from relation window (latest ∷ s ∷ ss) =
    if is_eligible_gap_sample latest
    then lap_trend_at relation window latest (natural latest.our_lap_number) (s ∷ ss)
    else none

unfoldable pub calculate_gap_lap_trend : List GapSample → String → ℤ → Option GapLapTrend
unfolding lap_trend_from ordered_gap_samples
calculate_gap_lap_trend samples relation (pos window) =
    if not (is_relation relation) || window == 0
    then none
    else lap_trend_from relation window (newest_first (ordered_gap_samples samples) [])
calculate_gap_lap_trend samples relation (negsuc window) = none
