-- ===== src/Canonical/Boundary.antt =====
-- The boundaries between laps: `_track_length_mm` to `_initial_boundary` of
-- server/timing/canonical_laps.py.
use Prim.Native.Nat.{max}
use balchug_racing.Base.{
  ℕ, ◌-◌, String, Bool, true, false, not, ◌&&◌, ◌||◌, Option, none, some, List, [], ◌∷◌, ltb, leb,
  ◌==◌, if◌then◌else◌, is_value, any, find, filter, str_eq,
}
use balchug_racing.Canonical.State.{
  BoundaryKind, heat_start, coverage_start, main_finish, pit_finish, heat_green, tracker_passing,
  runtime_error, BoundaryId, Observation, Green, Boundary, Tables, Action, returns, raises,
}

abbrev pub start_signal_window_us : ℕ
start_signal_window_us = 5000000

-- `participant_id = ?`; NULL equals nothing
abbrev pub is_participant : String → Option String → Bool
is_participant p none = false
is_participant p (some q) = str_eq q p

-- `is_in_pit = 0` and `is_in_pit = 1`
abbrev pub is_flag : Bool → Option Bool → Bool
is_flag b none = false
is_flag true (some c) = c
is_flag false (some c) = not c

-- `ABS(a - b)`
abbrev pub abs_diff : ℕ → ℕ → ℕ
abs_diff a b = if leb b a then a - b else b - a

abbrev pub max_stop : ℕ → List Observation → Option ℕ
max_stop heat [] = none
max_stop heat (o ∷ os) =
    let rest = max_stop heat os in
    if o.source_heat_id == heat
    then elim o.stop_distance_mm [
      | none ↦ rest
      | some d ↦ if ltb 0 d then elim rest [ none ↦ some d | some m ↦ some (max d m) ] else rest
    ]
    else rest

-- `_track_length_mm`
unfoldable pub track_length_mm : ℕ → Tables → Option ℕ
track_length_mm heat t = max_stop heat t.observations

-- `_green_flag`
unfoldable pub green_flag : ℕ → Tables → Option Green
green_flag heat t = find (λ g. g.source_heat_id == heat) t.greens

-- the `WHERE` of `_start_signal`
abbrev pub is_start_signal : ℕ → String → ℕ → ℕ → Observation → Bool
is_start_signal heat participant green_us length o =
    o.source_heat_id == heat
    && is_participant participant o.participant_id
    && str_eq o.handle "t_p"
    && is_near o.provider_us
    && is_value o.start_distance_mm 0
    && is_value o.stop_distance_mm length
    && is_flag false o.is_in_pit
  where
    is_near : Option ℕ → Bool
    is_near none = false
    is_near (some us) = ltb 0 us && leb (abs_diff us green_us) start_signal_window_us

abbrev pub distance_from : ℕ → Observation → ℕ
distance_from green_us o = elim o.provider_us [ none ↦ 0 | some us ↦ abs_diff us green_us ]

-- `ORDER BY distance, id LIMIT 1`
unfoldable pub nearest : ℕ → List Observation → Option Observation
nearest green_us [] = none
nearest green_us (o ∷ os) = elim (nearest green_us os) [
  | none ↦ some o
  | some p ↦
      if ltb (distance_from green_us p) (distance_from green_us o)
        || (distance_from green_us p == distance_from green_us o && ltb p.id o.id)
      then some p
      else some o
]

-- `_start_signal`
unfoldable pub start_signal : ℕ → String → ℕ → Tables → Option Observation
unfolding track_length_mm nearest
start_signal heat participant green_us t = elim (track_length_mm heat t) [
  | none ↦ none
  | some length ↦
      nearest green_us (filter (is_start_signal heat participant green_us length) t.observations)
]

abbrev pub same_kind : BoundaryKind → BoundaryKind → Bool
same_kind heat_start heat_start = true
same_kind coverage_start coverage_start = true
same_kind main_finish main_finish = true
same_kind pit_finish pit_finish = true
same_kind _ _ = false

abbrev pub same_boundary_id : BoundaryId → BoundaryId → Bool
same_boundary_id a b =
    a.heat == b.heat
    && str_eq a.participant b.participant
    && same_kind a.kind b.kind
    && a.part == b.part

-- a boundary of one car in one heat
abbrev pub of_car : ℕ → String → Boundary → Bool
of_car heat participant b = b.source_heat_id == heat && str_eq b.participant_id participant

abbrev pub same_observation : Option ℕ → Option ℕ → Bool
same_observation (some a) (some b) = a == b
same_observation _ _ = false

-- the `PRIMARY KEY` and the `UNIQUE` constraints of `canonical_lap_boundaries`
abbrev pub conflicts : Boundary → Boundary → Bool
conflicts new b =
    same_boundary_id b.id new.id
    || same_observation b.passing_observation_id new.passing_observation_id
    || (of_car new.source_heat_id new.participant_id b
        && (b.ordinal == new.ordinal
            || (b.provider_us == new.provider_us && same_kind b.kind new.kind)))

-- `INSERT OR IGNORE`, then the row is read back by its id
unfoldable pub insert_or_ignore : Boundary → Action Boundary
insert_or_ignore new t =
    if any (conflicts new) t.boundaries
    then elim (find (λ b. same_boundary_id b.id new.id) t.boundaries) [
      | none ↦ raises runtime_error t
      | some b ↦ returns b t
    ]
    else returns new (record t { boundaries = new ∷ t.boundaries })

unfoldable pub heat_start_row : ℕ → String → Green → Observation → Boundary
heat_start_row heat participant green signal = record {
  id = record {
    heat = heat;
    participant = participant;
    kind = heat_start;
    part = green.provider_us;
  };
  source_heat_id = heat;
  participant_id = participant;
  ordinal = 0;
  kind = heat_start;
  source = heat_green;
  passing_observation_id = none;
  corroborating_id = some signal.id;
  provider_passed_at_raw = green.provider_ts_raw;
  provider_us = green.provider_us;
  passed_at_us = green.green_flag_at_us;
  observed_at_us = green.observed_at_us;
  start_distance_mm = none;
  stop_distance_mm = none;
  sector_id = none;
  is_in_pit = none;
  source_message_id = green.source_message_id;
  source_key = green.source_key;
}

-- `_insert_heat_start`
unfoldable pub insert_heat_start : ℕ → String → Green → Observation → Action Boundary
unfolding heat_start_row insert_or_ignore
insert_heat_start heat participant green signal =
    insert_or_ignore (heat_start_row heat participant green signal)

-- a boundary at an observation of a known car and time
unfoldable pub passing_row : ℕ → BoundaryKind → String → ℕ → Observation → Boundary
passing_row ordinal kind participant us o = record {
  id = record { heat = o.source_heat_id; participant = participant; kind = kind; part = o.id };
  source_heat_id = o.source_heat_id;
  participant_id = participant;
  ordinal = ordinal;
  kind = kind;
  source = tracker_passing;
  passing_observation_id = some o.id;
  corroborating_id = none;
  provider_passed_at_raw = o.provider_passed_at_raw;
  provider_us = us;
  passed_at_us = o.passed_at_us;
  observed_at_us = o.observed_at_us;
  start_distance_mm = o.start_distance_mm;
  stop_distance_mm = o.stop_distance_mm;
  sector_id = o.sector_id;
  is_in_pit = o.is_in_pit;
  source_message_id = o.source_message_id;
  source_key = o.source_key;
}

-- `_insert_coverage_start`
unfoldable pub insert_coverage_start : String → ℕ → Observation → Action Boundary
unfolding passing_row insert_or_ignore
insert_coverage_start participant us o =
    insert_or_ignore (passing_row 0 coverage_start participant us o)

-- `ORDER BY boundary_ordinal DESC LIMIT 1`
unfoldable pub latest : List Boundary → Option Boundary
latest [] = none
latest (b ∷ bs) = elim (latest bs) [
  | none ↦ some b
  | some c ↦ if ltb b.ordinal c.ordinal then some c else some b
]

-- The branches of `_initial_boundary`, for the observation `o` of the car at the time `us`: by the
-- start signal, by the green flag, and by the latest boundary.
unfoldable pub begin_at_signal :
    String → ℕ → Observation → Green → Option Observation → Action Boundary
unfolding insert_heat_start insert_coverage_start
begin_at_signal participant us o green none = insert_coverage_start participant us o
begin_at_signal participant us o green (some signal) =
    insert_heat_start o.source_heat_id participant green signal

unfoldable pub begin_at_green : String → ℕ → Observation → Option Green → Action Boundary
unfolding start_signal insert_coverage_start begin_at_signal
begin_at_green participant us o none t = insert_coverage_start participant us o t
begin_at_green participant us o (some green) t =
    begin_at_signal participant us o green
      (start_signal o.source_heat_id participant green.provider_us t) t

unfoldable pub begin_unless : String → ℕ → Observation → Option Boundary → Action Boundary
unfolding green_flag begin_at_green
begin_unless participant us o (some current) t = returns current t
begin_unless participant us o none t =
    begin_at_green participant us o (green_flag o.source_heat_id t) t

-- `_initial_boundary`
unfoldable pub initial_boundary : String → ℕ → Observation → Action Boundary
unfolding latest begin_unless
initial_boundary participant us o t =
    begin_unless participant us o
      (latest (filter (of_car o.source_heat_id participant) t.boundaries)) t
