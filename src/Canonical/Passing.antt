-- ===== src/Canonical/Passing.antt =====
-- The passings and sectors of one lap: `_passing_role`, `_lap_passings` and `_write_sector_rows` of
-- server/timing/canonical_laps.py.
use balchug_racing.Base.{
  ℕ, ◌+◌, ◌-◌, ◌/◌, String, Bool, true, false, ◌&&◌, ◌||◌, Option, none, some, List, [], ◌∷◌, ltb,
  leb, ◌==◌, if◌then◌else◌, is_value, any, find, filter, str_eq, ◌≡◌, ◌∙◌, refl, arith,
}
use balchug_racing.Base.Int.{ℤ, pos, negsuc}
use balchug_racing.Canonical.State.{
  Role, finish, sector_1_end, sector_2_end, start_corroboration, pit_path, other, pending,
  integrity_error, LapId, Observation, Boundary, LapPassing, Sector, Tables, Outcome, Action,
  returns, raises, ◌>>◌, resume, pure,
}
use balchug_racing.Canonical.Boundary.{is_participant, is_flag}

-- `sector_id == n`
abbrev pub is_sector : ℕ → Observation → Bool
is_sector n o = elim o.sector_id [ none ↦ false | some (pos m) ↦ m == n | some (negsuc _) ↦ false ]

abbrev pub is_negative : Option ℤ → Bool
is_negative none = false
is_negative (some (pos _)) = false
is_negative (some (negsuc _)) = true

-- `_passing_role`
unfoldable pub passing_role : ℕ → Option ℕ → Observation → Role
passing_role finish_observation_id track_length o =
    if o.id == finish_observation_id
    then finish
    else if is_sector 1 o
    then sector_1_end
    else if is_sector 2 o
    then sector_2_end
    else if is_value o.start_distance_mm 0
        && elim track_length [ none ↦ false | some l ↦ is_value o.stop_distance_mm l ]
    then start_corroboration
    else if is_flag true o.is_in_pit || is_negative o.sector_id
    then pit_path
    else other

-- the `WHERE` of `_lap_passings`: after the start, and not after the finish
abbrev pub is_within : ℕ → ℕ → Option ℕ → Bool
is_within started finished none = false
is_within started finished (some us) = ltb started us && leb us finished

abbrev pub in_lap : ℕ → String → ℕ → ℕ → Observation → Bool
in_lap heat participant started finished o =
    o.source_heat_id == heat
    && is_participant participant o.participant_id
    && str_eq o.handle "t_p"
    && is_within started finished o.provider_us

-- `ORDER BY provider_passed_at_provider_us, id`
abbrev pub time_of : Observation → ℕ
time_of o = elim o.provider_us [ none ↦ 0 | some us ↦ us ]

abbrev pub is_before : Observation → Observation → Bool
is_before a b = ltb (time_of a) (time_of b) || (time_of a == time_of b && leb a.id b.id)

unfoldable pub insert_by_time : Observation → List Observation → List Observation
insert_by_time o [] = o ∷ []
insert_by_time o (p ∷ ps) = if is_before o p then o ∷ p ∷ ps else p ∷ insert_by_time o ps

unfoldable pub sort_by_time : List Observation → List Observation
unfolding insert_by_time
sort_by_time [] = []
sort_by_time (o ∷ os) = insert_by_time o (sort_by_time os)

-- `_lap_passings`
unfoldable pub lap_passings : ℕ → String → ℕ → ℕ → Tables → List Observation
unfolding sort_by_time
lap_passings heat participant started finished t =
    sort_by_time (filter (in_lap heat participant started finished) t.observations)

abbrev pub same_lap : LapId → LapId → Bool
same_lap a b =
    a.heat == b.heat && str_eq a.participant b.participant && a.observation == b.observation

-- `INSERT OR IGNORE INTO canonical_lap_tracker_passings`
unfoldable pub insert_passing : LapPassing → List LapPassing → List LapPassing
insert_passing new rows =
    if any
      (λ r.
        r.observation_id == new.observation_id
        || (same_lap r.lap_id new.lap_id && r.ordinal == new.ordinal))
      rows
    then rows
    else new ∷ rows

-- `for ordinal, passing in enumerate(passings, start=1)`
unfoldable pub insert_passings :
    LapId → ℕ → Option ℕ → ℕ → List Observation → List LapPassing → List LapPassing
unfolding passing_role insert_passing
insert_passings lap finish_id length n [] rows = rows
insert_passings lap finish_id length n (o ∷ os) rows =
    insert_passings lap finish_id length (n + 1) os (
      insert_passing
        (record {
          lap_id = lap;
          observation_id = o.id;
          ordinal = n;
          role = passing_role finish_id length o;
        })
        rows)

abbrev pub id_of : Option Observation → Option ℕ
id_of none = none
id_of (some o) = some o.id

abbrev pub us_of : Option Observation → Option ℕ
us_of none = none
us_of (some o) = o.provider_us

-- `finished_us - started_us` where both are known and the second is later
unfoldable pub sector_duration : Option ℕ → Option ℕ → Option ℕ
sector_duration (some started) (some finished) =
    if ltb started finished then some (finished - started) else none
sector_duration _ _ = none

abbrev pub milliseconds : Option ℕ → Option ℕ
milliseconds none = none
milliseconds (some us) = some (us / 1000)

-- one row of the loop of `_write_sector_rows`
unfoldable pub sector_row :
    LapId → Boundary → ℕ → Option Observation → Option Observation → Option ℕ → Option ℕ → Sector
unfolding sector_duration
sector_row lap start_boundary n start end started finished = record {
  lap_id = lap;
  sector_number = n;
  start_observation_id = elim start [
    | none ↦ start_boundary.passing_observation_id
    | some o ↦ some o.id
  ];
  finish_observation_id = id_of end;
  started_at_provider_us = started;
  finished_at_provider_us = finished;
  tracker_duration_us = sector_duration started finished;
  tracker_duration_ms = milliseconds (sector_duration started finished);
  source_cell_observation_id = none;
  source_duration_raw = none;
  source_duration_us = none;
  source_duration_ms = none;
  duration_reconciliation = pending;
}

-- the `PRIMARY KEY` and the `CHECK` of `canonical_lap_sectors` on a duration of less than 1 ms
unfoldable pub insert_sector : Sector → Action (Unit {0})
insert_sector new t =
    if any (λ s. same_lap s.lap_id new.lap_id && s.sector_number == new.sector_number) t.sectors
      || is_value new.tracker_duration_ms 0
    then raises integrity_error t
    else returns tt (record t { sectors = new ∷ t.sectors })

insert_sectors : List Sector → Action (Unit {0})
unfolding insert_sector
insert_sectors [] = pure tt
insert_sectors (s ∷ ss) = do insert_sector s; insert_sectors ss

-- `points`, as the rows that the loop of `_write_sector_rows` inserts
unfoldable pub sector_rows : LapId → Boundary → Boundary → List Observation → List Sector
unfolding sector_row
sector_rows lap start_boundary finish_boundary passings =
    let sector_1 = find (is_sector 1) passings in
    let sector_2 = find (is_sector 2) passings in
    let end = find (λ o. is_value finish_boundary.passing_observation_id o.id) passings in
    sector_row lap start_boundary 1 none sector_1 (some start_boundary.provider_us) (us_of sector_1)
    ∷ sector_row lap start_boundary 2 sector_1 sector_2 (us_of sector_1) (us_of sector_2)
    ∷ sector_row lap start_boundary 3 sector_2 end (us_of sector_2)
        (some finish_boundary.provider_us)
    ∷ []

-- `_write_sector_rows`
unfoldable pub write_sector_rows :
    LapId → Boundary → Boundary → List Observation → Action (Unit {0})
unfolding sector_rows insert_sectors
write_sector_rows lap start_boundary finish_boundary passings =
    insert_sectors (sector_rows lap start_boundary finish_boundary passings)

-- A return leaves the observations, the boundaries and the laps as they were.
pub record Kept (t t' : Tables) : Type 0 where
  pub boundaries : t'.boundaries ≡ t.boundaries
  pub laps : t'.laps ≡ t.laps
  pub observations : t'.observations ≡ t.observations

pub >>-eq-returns :
    {B : Type 0} (m : Action (Unit {0})) (k : Action B) {b : B} {t t' : Tables}
    → resume (λ _. k) (m t) ≡ returns b t'
    → (t1 : Tables) × (m t ≡ returns tt t1) × (k t1 ≡ returns b t')
>>-eq-returns m k {b} {t} {t'} h = by_outcome (m t) refl h
  where
    by_outcome :
        (r : Outcome (Unit {0}))
        → m t ≡ r
        → resume (λ _. k) r ≡ returns b t'
        → (t1 : Tables) × (m t ≡ returns tt t1) × (k t1 ≡ returns b t')
    by_outcome (returns tt t1) e h' = (t1, e, h')
    by_outcome (raises e t1) p h' = absurd (ground arith)

pub Kept-trans : {t u v : Tables} → Kept t u → Kept u v → Kept t v
Kept-trans h k = record {
  boundaries = k.boundaries ∙ h.boundaries;
  laps = k.laps ∙ h.laps;
  observations = k.observations ∙ h.observations;
}

insert_sector-Kept :
    (s : Sector) (t : Tables) {u : Unit {0}} {t' : Tables}
    → insert_sector s t ≡ returns u t'
    → Kept t t'
unfolding insert_sector
insert_sector-Kept s t e = ground arith

insert_sectors-Kept :
    (ss : List Sector) (t : Tables) {t' : Tables} → insert_sectors ss t ≡ returns tt t' → Kept t t'
unfolding insert_sectors
insert_sectors-Kept [] t e = ground arith
insert_sectors-Kept (s ∷ ss) t {t'} e =
    let (t1, one, rest) = >>-eq-returns (insert_sector s) (insert_sectors ss) e in
    Kept-trans (insert_sector-Kept s t one) (insert_sectors-Kept ss t1 rest)

pub write_sector_rows-Kept :
    (lap : LapId) (a b : Boundary) (os : List Observation) (t : Tables) {t' : Tables}
    → write_sector_rows lap a b os t ≡ returns tt t'
    → Kept t t'
unfolding write_sector_rows
write_sector_rows-Kept lap a b os t e = insert_sectors-Kept (sector_rows lap a b os) t e
