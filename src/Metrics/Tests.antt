-- ===== src/Metrics/Tests.antt =====
-- Gaps and pit stops of one race (server/timing/metrics.py).
use mathlib.Core.Path.{refl, ◌≡◌}
use balchug_racing.Base.{ℕ, true, false, none, some, List, [], ◌∷◌, arith}
use balchug_racing.Base.Int.{pos, negsuc}
use balchug_racing.Metrics.Gap.{GapSample, ordered_gap_samples, is_eligible_gap_sample}
use balchug_racing.Metrics.Trend.{
  GapTrend, GapLapTrend, trend_row, lap_trend_row, calculate_gap_trend, calculate_gap_lap_trend,
}
use balchug_racing.Metrics.Coverage.{IsRun, Covers, calculate_gap_trend-Covers}
use balchug_racing.Metrics.Given.{calculate_gap_trend-given}
use balchug_racing.Metrics.LapCoverage.{CoversLaps, calculate_gap_lap_trend-CoversLaps}
use balchug_racing.Metrics.Pits.{PitStop, completed_entries, completed_pit_stops}
use balchug_racing.Metrics.Stops.{Ascending}
use balchug_racing.Metrics.Completed.{same_stop, stands_for, report, completed_entries-once}
use balchug_racing.Base.{count, any}
use balchug_racing.Base.{All}
use balchug_racing.Metrics.Reported.{IsReported, completed_entries-IsReported}

-- a sample behind a rival on the same lap
abbrev sample_at : ℕ → ℕ → ℕ → GapSample
sample_at us gap lap = record {
  target_participant_id = some "rival";
  observed_at_us = some (pos us);
  gap_ms = some (pos gap);
  our_lap_number = some (pos lap);
  target_lap_number = some (pos lap);
  flag_kind = some "GREEN";
  our_state_kind = some "ON_TRACK";
  target_state_kind = some "ON_TRACK";
  has_feed_gap = some false;
  source_time_interval = none;
}

abbrev newest_sample : GapSample
newest_sample = sample_at 200000000 4000 9

abbrev middle_sample : GapSample
middle_sample = sample_at 190000000 4500 8

abbrev oldest_sample : GapSample
oldest_sample = sample_at 100000000 6000 6

-- the samples arrive out of order
abbrev three_samples : List GapSample
three_samples = newest_sample ∷ oldest_sample ∷ middle_sample ∷ []

abbrev the_trend : GapTrend
the_trend = trend_row "AHEAD" 60 newest_sample oldest_sample

trend_found : calculate_gap_trend three_samples "AHEAD" (pos 60) ≡ some the_trend
unfolding calculate_gap_trend
trend_found = refl

-- the gap shrinks by two seconds
two_seconds : the_trend.gap_change_ms ≡ negsuc 1999
unfolding trend_row
two_seconds = refl

calculate_gap_trend-Covers_example : Covers three_samples "AHEAD" 60 the_trend
calculate_gap_trend-Covers_example =
    calculate_gap_trend-Covers three_samples "AHEAD" 60 the_trend trend_found

three-IsRun : IsRun (middle_sample ∷ oldest_sample ∷ []) newest_sample oldest_sample
unfolding is_eligible_gap_sample
three-IsRun = record {
  between = middle_sample ∷ [];
  rest = [];
  splits = refl;
  newest = refl;
  unbroken = (refl, tt);
  oldest = refl;
}

calculate_gap_trend-given_example :
    (trend : GapTrend) × (calculate_gap_trend three_samples "AHEAD" (pos 60) ≡ some trend)
unfolding ordered_gap_samples
calculate_gap_trend-given_example =
    calculate_gap_trend-given three_samples "AHEAD" 60 newest_sample oldest_sample
      (middle_sample ∷ oldest_sample ∷ []) refl (omega arith) refl three-IsRun (omega arith)

abbrev the_lap_trend : GapLapTrend
the_lap_trend = lap_trend_row "AHEAD" 3 newest_sample oldest_sample

lap_trend_found : calculate_gap_lap_trend three_samples "AHEAD" (pos 3) ≡ some the_lap_trend
unfolding calculate_gap_lap_trend
lap_trend_found = refl

calculate_gap_lap_trend-CoversLaps_example : CoversLaps three_samples "AHEAD" 3 the_lap_trend
calculate_gap_lap_trend-CoversLaps_example =
    calculate_gap_lap_trend-CoversLaps three_samples "AHEAD" 3 the_lap_trend lap_trend_found

abbrev stop_at : ℕ → ℕ → ℕ → PitStop
stop_at number entered exited = record {
  stop_number = some (pos number);
  entered_at_us = some (pos entered);
  exited_at_us = some (pos exited);
  entered_lap = none;
  exited_lap = none;
  pit_lane_ms = none;
  completed = some true;
  pit_lane_duration_source_kind = none;
}

-- the first stop is reported twice
abbrev three_stops : List PitStop
three_stops = stop_at 2 900 950 ∷ stop_at 1 400 440 ∷ stop_at 1 400 450 ∷ []

two_stops : completed_pit_stops three_stops ≡ stop_at 1 400 450 ∷ stop_at 2 900 950 ∷ []
unfolding completed_pit_stops
two_stops = refl

completed_entries-once_example :
    (count (λ x. same_stop x (report 400 440 1 (stop_at 1 400 440))) (completed_entries three_stops)
      ≡ 1)
    × (any (stands_for (report 400 440 1 (stop_at 1 400 440))) (completed_entries three_stops)
        ≡ true)
    × Ascending (completed_entries three_stops)
completed_entries-once_example =
    completed_entries-once (stop_at 2 900 950 ∷ []) (stop_at 1 400 450 ∷ []) (stop_at 1 400 440) 400
      440 refl refl refl (omega arith)

completed_entries-IsReported_example : All (IsReported three_stops) (completed_entries three_stops)
completed_entries-IsReported_example = completed_entries-IsReported three_stops
