-- ===== src/Canonical/Tests.antt =====
-- The laps of one car over two passings of the line (server/timing/canonical_laps.py).
use mathlib.Core.Path.{refl, ◌≡◌}
use balchug_racing.Base.{ℕ, ◌+◌, false, Option, none, some, [], ◌∷◌, filter}
use balchug_racing.Canonical.State.{
  Observation, Boundary, main_finish, Tables, Outcome, returns, raises, CanonicalLapMatch,
}
use balchug_racing.Canonical.Duration.{text}
use balchug_racing.Canonical.Boundary.{latest, passing_row, of_car}
use balchug_racing.Canonical.Record.{record_tracker_passing}
use balchug_racing.Canonical.Chronology.{Chronology, sum_durations, first_us, lap_of}
use balchug_racing.Canonical.Once.{
  record_tracker_passing-sum_durations, record_tracker_passing-Chronology,
  record_tracker_passing-again,
}
use balchug_racing.Canonical.LastCell.{match_last_cell, attach_last_cell, SectorCell}
use balchug_racing.Canonical.CellRows.{IsKeyed}
use balchug_racing.Canonical.Linked.{IsLinked, attach_last_cell-IsLinked}

-- a passing of the line at `us`, up to the distance `stop`
abbrev passing_at : ℕ → ℕ → ℕ → Observation
passing_at id us stop = record {
  id = id;
  source_heat_id = 1;
  participant_id = some "car";
  handle = "t_p";
  provider_passed_at_raw = "";
  provider_us = some us;
  passed_at_us = some us;
  observed_at_us = us;
  start_distance_mm = some 0;
  stop_distance_mm = some stop;
  sector_id = none;
  is_in_pit = some false;
  source_message_id = some id;
  source_key = "tracker";
}

abbrev two_passings : Tables
two_passings = record {
  observations = passing_at 2 91000000 300 ∷ passing_at 1 1000000 1000 ∷ [];
  greens = [];
  boundaries = [];
  laps = [];
  passings = [];
  sectors = [];
}

abbrev left : {A : Type 0} → Outcome A → Tables
left (returns a t) = t
left (raises e t) = t

abbrev answer : {A : Type 0} → Outcome (Option A) → Option A
answer (returns a t) = a
answer (raises e t) = none

abbrev at_start : Tables
unfolding record_tracker_passing
at_start = left (record_tracker_passing 1 1 two_passings)

abbrev after_lap : Tables
unfolding record_tracker_passing
after_lap = left (record_tracker_passing 1 2 at_start)

start_returns : record_tracker_passing 1 1 two_passings ≡ returns none at_start
unfolding record_tracker_passing at_start
start_returns = refl

abbrev the_lap : Option CanonicalLapMatch
unfolding record_tracker_passing
the_lap = answer (record_tracker_passing 1 2 at_start)

lap_returns : record_tracker_passing 1 2 at_start ≡ returns the_lap after_lap
unfolding record_tracker_passing at_start after_lap the_lap
lap_returns = refl

-- the lap lasts 90 seconds
one_lap : (sum_durations (filter (lap_of 1 "car") after_lap.laps)) ≡ 90000000
unfolding sum_durations after_lap
one_lap = refl

empty-Chronology : Chronology two_passings
empty-Chronology = record { tiles = λ heat participant. tt; named = tt }

start-Chronology : Chronology at_start
start-Chronology =
    record_tracker_passing-Chronology 1 1 two_passings at_start none empty-Chronology start_returns

record_tracker_passing-Chronology_example : Chronology after_lap
record_tracker_passing-Chronology_example =
    record_tracker_passing-Chronology 1 2 at_start after_lap the_lap start-Chronology lap_returns

record_tracker_passing-again_example : record_tracker_passing 1 2 after_lap ≡ returns none after_lap
record_tracker_passing-again_example =
    record_tracker_passing-again 1 2 at_start after_lap the_lap start-Chronology lap_returns

abbrev second_boundary : Boundary
unfolding passing_row
second_boundary = passing_row 1 main_finish "car" 91000000 (passing_at 2 91000000 300)

latest_found : latest (filter (of_car 1 "car") after_lap.boundaries) ≡ some second_boundary
unfolding latest after_lap second_boundary
latest_found = refl

record_tracker_passing-sum_durations_example :
    sum_durations (filter (lap_of 1 "car") after_lap.laps)
      + first_us (filter (of_car 1 "car") after_lap.boundaries)
    ≡ second_boundary.provider_us
record_tracker_passing-sum_durations_example =
    record_tracker_passing-sum_durations 1 2 at_start after_lap the_lap 1 "car" second_boundary
      start-Chronology lap_returns latest_found

abbrev no_sectors : ℕ → SectorCell
no_sectors n = none

abbrev the_match : CanonicalLapMatch
the_match = record {
  id = record { heat = 1; participant = "car"; observation = 2 };
  participant_id = "car";
  lap_ordinal = 1;
  lap_number = none;
  tracker_duration_us = 90000000;
}

after_lap-IsKeyed : IsKeyed after_lap.laps
unfolding after_lap
after_lap-IsKeyed = (refl, tt)

cell_matches : match_last_cell 1 "car" (text " 90000000") 91500000 after_lap ≡ some the_match
unfolding match_last_cell after_lap
cell_matches = refl

abbrev after_cell : Tables
unfolding attach_last_cell
after_cell = left (attach_last_cell the_match 7 (text " 90000000") no_sectors after_lap)

cell_returns :
    attach_last_cell the_match 7 (text " 90000000") no_sectors after_lap ≡ returns tt after_cell
unfolding attach_last_cell after_lap after_cell
cell_returns = refl

attach_last_cell-IsLinked_example : IsLinked 1 7 the_match after_cell
attach_last_cell-IsLinked_example =
    attach_last_cell-IsLinked 1 "car" (text " 90000000") 91500000 7 no_sectors the_match after_lap
      after_cell after_lap-IsKeyed cell_matches cell_returns
