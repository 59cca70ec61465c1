-- ===== src/Canonical/Record.antt =====
-- `record_tracker_passing` of server/timing/canonical_laps.py: a passing of the line ends a lap.
use balchug_racing.Base.{
  ℕ, ◌+◌, ◌-◌, ◌/◌, String, Bool, true, false, not, ◌&&◌, ◌||◌, Option, none, some, List, ◌∷◌, leb,
  ◌==◌, if◌then◌else◌, is_value, any, find, str_eq,
}
use balchug_racing.Canonical.State.{
  BoundaryKind, heat_start, main_finish, pit_finish, pending, type_error, integrity_error, LapId,
  Observation, Boundary, Lap, Tables, CanonicalLapMatch, Action, returns, raises, ◌>>=◌, ◌>>◌, pure,
  gets,
}
use balchug_racing.Canonical.Boundary.{
  is_flag, track_length_mm, same_boundary_id, of_car, same_observation, conflicts, passing_row,
  initial_boundary,
}
use balchug_racing.Canonical.Passing.{lap_passings, same_lap, insert_passings, write_sector_rows}

-- `_tracker_observation`
unfoldable pub tracker_observation : ℕ → ℕ → Tables → Option Observation
tracker_observation heat id t = find (λ o. o.id == id && o.source_heat_id == heat) t.observations

-- a boundary that ends a lap, inserted under the constraints of its table
unfoldable pub insert_finish : Boundary → Action (Unit {0})
insert_finish new t =
    if any (conflicts new) t.boundaries
    then raises integrity_error t
    else returns tt (record t { boundaries = new ∷ t.boundaries })

abbrev pub same_number : Option ℕ → Option ℕ → Bool
same_number (some a) (some b) = a == b
same_number _ _ = false

-- the keys of `canonical_laps`
abbrev pub lap_conflicts : Lap → Lap → Bool
lap_conflicts new l =
    same_lap l.id new.id
    || same_boundary_id l.finish_boundary_id new.finish_boundary_id
    || (l.source_heat_id == new.source_heat_id
        && str_eq l.participant_id new.participant_id
        && (l.lap_ordinal == new.lap_ordinal || same_number l.lap_number new.lap_number))

-- `INSERT INTO canonical_laps`; the `CHECK`s refuse a duration of less than 1 ms
unfoldable pub insert_lap : Lap → Action (Unit {0})
insert_lap new t =
    if any (lap_conflicts new) t.laps
      || new.tracker_duration_us == 0
      || new.tracker_duration_ms == 0
    then raises integrity_error t
    else returns tt (record t { laps = new ∷ t.laps })

abbrev pub is_heat_start : BoundaryKind → Bool
is_heat_start heat_start = true
is_heat_start _ = false

-- `coverage_complete`: the chronology of the car begins at the green flag
unfoldable pub coverage_complete : Boundary → Action Bool
coverage_complete previous t =
    if is_heat_start previous.kind
    then returns true t
    else elim (find
        (λ b. of_car previous.source_heat_id previous.participant_id b && b.ordinal == 0)
        t.boundaries) [ none ↦ raises type_error t | some b ↦ returns (is_heat_start b.kind) t ]

unfoldable pub lap_row : Boundary → Boundary → Observation → Bool → Bool → Lap
lap_row previous end o complete in_pit = record {
  id = record { heat = end.source_heat_id; participant = end.participant_id; observation = o.id };
  source_heat_id = end.source_heat_id;
  participant_id = end.participant_id;
  lap_ordinal = end.ordinal;
  lap_number = if complete then some end.ordinal else none;
  coverage_complete = complete;
  start_boundary_id = previous.id;
  finish_boundary_id = end.id;
  started_at_provider_us = previous.provider_us;
  finished_at_provider_us = end.provider_us;
  started_at_us = previous.passed_at_us;
  finished_at_us = o.passed_at_us;
  start_observed_at_us = previous.observed_at_us;
  finish_observed_at_us = o.observed_at_us;
  tracker_duration_us = end.provider_us - previous.provider_us;
  tracker_duration_ms = (end.provider_us - previous.provider_us) / 1000;
  source_last_cell_observation_id = none;
  source_duration_raw = none;
  source_duration_us = none;
  source_duration_ms = none;
  duration_reconciliation = pending;
  is_pit_lap = in_pit;
  source_message_id = o.source_message_id;
  source_key = o.source_key;
}

abbrev pub finish_kind : Observation → BoundaryKind
finish_kind o = if is_flag true o.is_in_pit then pit_finish else main_finish

-- `INSERT OR IGNORE` of the passings of a lap
unfoldable pub note_passings : LapId → Observation → List Observation → Action (Unit {0})
unfolding track_length_mm insert_passings
note_passings lap o passings t = returns tt (record t {
  passings = insert_passings lap o.id (track_length_mm o.source_heat_id t) 1 passings t.passings;
})

-- what `record_tracker_passing` answers
abbrev pub match_of : Lap → CanonicalLapMatch
match_of lap = record {
  id = lap.id;
  participant_id = lap.participant_id;
  lap_ordinal = lap.lap_ordinal;
  lap_number = lap.lap_number;
  tracker_duration_us = lap.tracker_duration_us;
}

-- The rows of a lap, in the order of the inserts.
unfoldable pub store_lap :
    Lap → Boundary → Boundary → Observation → List Observation → Action (Option CanonicalLapMatch)
unfolding insert_lap note_passings write_sector_rows
store_lap lap previous end o passings = do
  insert_lap lap
  note_passings lap.id o passings
  write_sector_rows lap.id previous end passings
  pure (some (match_of lap))

abbrev pub crosses_pit : Observation → List Observation → Bool
crosses_pit o passings = is_flag true o.is_in_pit || any (λ p. is_flag true p.is_in_pit) passings

-- the lap from the boundary `previous` to the boundary `end` at the observation `o`, once it is
-- known whether the chronology is complete
unfoldable pub write_covered :
    Boundary → Boundary → Observation → Bool → Action (Option CanonicalLapMatch)
unfolding lap_passings lap_row store_lap
write_covered previous end o complete t =
    let passings =
      lap_passings end.source_heat_id end.participant_id previous.provider_us end.provider_us t in
    store_lap (lap_row previous end o complete (crosses_pit o passings)) previous end o passings t

unfoldable pub write_lap : Boundary → Boundary → Observation → Action (Option CanonicalLapMatch)
unfolding coverage_complete write_covered
write_lap previous end o = do
  complete ← coverage_complete previous
  write_covered previous end o complete

-- the part of `record_tracker_passing` behind its first checks: a passing `o` of the line by the
-- car `participant` at the time `us`, after the boundary `previous`
unfoldable pub end_lap : String → ℕ → Observation → Boundary → Action (Option CanonicalLapMatch)
unfolding passing_row insert_finish write_lap
end_lap participant us o previous t =
    if leb us previous.provider_us
    then returns none t
    else if any (λ b. same_observation b.passing_observation_id (some o.id)) t.boundaries
    then returns none t
    else (let end = passing_row (previous.ordinal + 1) (finish_kind o) participant us o in
        (do insert_finish end; write_lap previous end o) t)

-- a passing of the start line outside the pit lane: it starts the chronology at most
abbrev pub is_start_line : Option ℕ → Observation → Bool
is_start_line none o = false
is_start_line (some length) o = is_value o.stop_distance_mm length && is_flag false o.is_in_pit

unfoldable pub record_line : String → ℕ → Observation → Action (Option CanonicalLapMatch)
unfolding track_length_mm initial_boundary end_lap
record_line participant us o = do
  length ← gets (track_length_mm o.source_heat_id)
  previous ← initial_boundary participant us o
  if is_start_line length o then pure none else end_lap participant us o previous

-- The checks of `record_tracker_passing`: of the time and the car of a passing, of its place, and
-- of its presence.
unfoldable pub record_of_car :
    Option String → Option ℕ → Observation → Action (Option CanonicalLapMatch)
unfolding record_line
record_of_car none us o t = returns none t
record_of_car (some participant) none o t = returns none t
record_of_car (some participant) (some us) o t =
    if us == 0 then returns none t else record_line participant us o t

unfoldable pub record_found : Option Observation → Action (Option CanonicalLapMatch)
unfolding record_of_car
record_found none t = returns none t
record_found (some o) t =
    if not (str_eq o.handle "t_p") || not (is_value o.start_distance_mm 0)
    then returns none t
    else record_of_car o.participant_id o.provider_us o t

-- `record_tracker_passing`
unfoldable pub record_tracker_passing : ℕ → ℕ → Action (Option CanonicalLapMatch)
unfolding tracker_observation record_found
record_tracker_passing heat observation_id t =
    record_found (tracker_observation heat observation_id t) t
