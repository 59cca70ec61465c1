-- ===== src/Canonical/State.antt =====
-- The rows that server/timing/canonical_laps.py reads and writes. A table lists its rows newest
-- first. An id made by `_id` is kept as the name that the UUID is derived from. Times and distances
-- are counts; the duration text of a lap is kept as the value that it is the `str` of. The columns `created_at_us` and `updated_at_us` are left out.
use balchug_racing.Base.{ℕ, String, Bool, Option, List}
use balchug_racing.Base.Int.{ℤ}
use balchug_racing.Canonical.Duration.{Value}

pub data BoundaryKind : Type 0 where
  heat_start coverage_start main_finish pit_finish : BoundaryKind

pub data SourceKind : Type 0 where
  heat_green tracker_passing : SourceKind

pub data Role : Type 0 where
  finish sector_1_end sector_2_end start_corroboration pit_path other : Role

pub data Reconciliation : Type 0 where
  pending exact mismatch missing_source missing_tracker : Reconciliation

-- `value_error` and `runtime_error` are raised by the module, `integrity_error` by a table, and
-- `type_error` where a row that has to be there is missing.
pub data Failure : Type 0 where
  value_error runtime_error type_error integrity_error : Failure

-- the name behind the UUID of a boundary: heat, participant, kind, and an observation or a time
pub record BoundaryId : Type 0 where
  pub heat : ℕ
  pub participant : String
  pub kind : BoundaryKind
  pub part : ℕ

-- the name behind the UUID of a lap: heat, participant, finishing observation
pub record LapId : Type 0 where
  pub heat : ℕ
  pub participant : String
  pub observation : ℕ

-- a row of `tracker_passing_observations`, with the handle of its message
pub record Observation : Type 0 where
  pub id : ℕ
  pub source_heat_id : ℕ
  pub participant_id : Option String
  pub handle : String
  pub provider_passed_at_raw : String
  pub provider_us : Option ℕ
  pub passed_at_us : Option ℕ
  pub observed_at_us : ℕ
  pub start_distance_mm : Option ℕ
  pub stop_distance_mm : Option ℕ
  pub sector_id : Option ℤ
  pub is_in_pit : Option Bool
  pub source_message_id : Option ℕ
  pub source_key : String

-- a row of `heat_statistics_current` whose green flag is known
pub record Green : Type 0 where
  pub source_heat_id : ℕ
  pub provider_ts_raw : String
  pub provider_us : ℕ
  pub green_flag_at_us : Option ℕ
  pub observed_at_us : ℕ
  pub source_message_id : Option ℕ
  pub source_key : String

-- a row of `canonical_lap_boundaries`
pub record Boundary : Type 0 where
  pub id : BoundaryId
  pub source_heat_id : ℕ
  pub participant_id : String
  pub ordinal : ℕ
  pub kind : BoundaryKind
  pub source : SourceKind
  pub passing_observation_id : Option ℕ
  pub corroborating_id : Option ℕ
  pub provider_passed_at_raw : String
  pub provider_us : ℕ
  pub passed_at_us : Option ℕ
  pub observed_at_us : ℕ
  pub start_distance_mm : Option ℕ
  pub stop_distance_mm : Option ℕ
  pub sector_id : Option ℤ
  pub is_in_pit : Option Bool
  pub source_message_id : Option ℕ
  pub source_key : String

-- a row of `canonical_laps`
pub record Lap : Type 0 where
  pub id : LapId
  pub source_heat_id : ℕ
  pub participant_id : String
  pub lap_ordinal : ℕ
  pub lap_number : Option ℕ
  pub coverage_complete : Bool
  pub start_boundary_id : BoundaryId
  pub finish_boundary_id : BoundaryId
  pub started_at_provider_us : ℕ
  pub finished_at_provider_us : ℕ
  pub started_at_us : Option ℕ
  pub finished_at_us : Option ℕ
  pub start_observed_at_us : ℕ
  pub finish_observed_at_us : ℕ
  pub tracker_duration_us : ℕ
  pub tracker_duration_ms : ℕ
  pub source_last_cell_observation_id : Option ℕ
  pub source_duration_raw : Option Value
  pub source_duration_us : Option ℕ
  pub source_duration_ms : Option ℕ
  pub duration_reconciliation : Reconciliation
  pub is_pit_lap : Bool
  pub source_message_id : Option ℕ
  pub source_key : String

-- a row of `canonical_lap_tracker_passings`
pub record LapPassing : Type 0 where
  pub lap_id : LapId
  pub observation_id : ℕ
  pub ordinal : ℕ
  pub role : Role

-- a row of `canonical_lap_sectors`
pub record Sector : Type 0 where
  pub lap_id : LapId
  pub sector_number : ℕ
  pub start_observation_id : Option ℕ
  pub finish_observation_id : Option ℕ
  pub started_at_provider_us : Option ℕ
  pub finished_at_provider_us : Option ℕ
  pub tracker_duration_us : Option ℕ
  pub tracker_duration_ms : Option ℕ
  pub source_cell_observation_id : Option ℕ
  pub source_duration_raw : Option String
  pub source_duration_us : Option ℕ
  pub source_duration_ms : Option ℕ
  pub duration_reconciliation : Reconciliation

pub record Tables : Type 0 where
  pub observations : List Observation
  pub greens : List Green
  pub boundaries : List Boundary
  pub laps : List Lap
  pub passings : List LapPassing
  pub sectors : List Sector

pub record CanonicalLapMatch : Type 0 where
  pub id : LapId
  pub participant_id : String
  pub lap_ordinal : ℕ
  pub lap_number : Option ℕ
  pub tracker_duration_us : ℕ

-- How a call ends, and the tables that it leaves.
pub data Outcome (A : Type 0) : Type 0 where
  returns : A → Tables → Outcome A
  raises : Failure → Tables → Outcome A

abbrev pub Action : Type 0 → Type 0
Action A = Tables → Outcome A

abbrev pub resume : {A B : Type 0} → (A → Action B) → Outcome A → Outcome B
resume f (returns a t) = f a t
resume f (raises e t) = raises e t

infixl 5 ◌>>=◌ ◌>>◌
abbrev pub ◌>>=◌ : {A B : Type 0} → Action A → (A → Action B) → Action B
◌>>=◌ m f t = resume f (m t)

abbrev pub ◌>>◌ : {A B : Type 0} → Action A → Action B → Action B
m >> k = m >>= λ _. k

abbrev pub pure : {A : Type 0} → A → Action A
pure a t = returns a t

abbrev pub gets : {A : Type 0} → (Tables → A) → Action A
gets f t = returns (f t) t
