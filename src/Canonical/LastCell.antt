-- ===== src/Canonical/LastCell.antt =====
-- The cells of the result grid that belong to a lap: `match_last_cell`, `linked_lap_for_last_cell`
-- and `attach_last_cell` of server/timing/canonical_laps.py.
use balchug_racing.Base.{
  ℕ, ◌/◌, String, Bool, false, not, ◌&&◌, Option, none, some, List, [], ◌∷◌, leb, ◌==◌,
  if◌then◌else◌, is_value, is_some, any, find, filter, update, str_eq,
}
use balchug_racing.Canonical.State.{
  Reconciliation, exact, mismatch, missing_source, missing_tracker, value_error, runtime_error,
  integrity_error, LapId, Lap, Sector, Tables, CanonicalLapMatch, Action, returns, raises, ◌>>◌,
}
use balchug_racing.Canonical.Duration.{Value, text, duration_us}
use balchug_racing.Canonical.Boundary.{abs_diff}
use balchug_racing.Canonical.Passing.{same_lap}
use balchug_racing.Canonical.Record.{match_of}

abbrev pub last_match_window_us : ℕ
last_match_window_us = 5000000

-- the `WHERE` of `match_last_cell`
abbrev pub is_pending : ℕ → String → ℕ → ℕ → Lap → Bool
is_pending heat participant us observed l =
    l.source_heat_id == heat
    && str_eq l.participant_id participant
    && not (is_some l.source_last_cell_observation_id)
    && l.tracker_duration_us == us
    && leb (abs_diff l.finish_observed_at_us observed) last_match_window_us

-- `LIMIT 2`, then `len(rows) != 1`; the order of the rows does not matter for one row
unfoldable pub only_row : List Lap → Option CanonicalLapMatch
only_row [] = none
only_row (l ∷ []) = some (match_of l)
only_row (_ ∷ _ ∷ _) = none

unfoldable pub match_duration : ℕ → String → Option ℕ → ℕ → Tables → Option CanonicalLapMatch
unfolding only_row
match_duration heat participant none observed t = none
match_duration heat participant (some us) observed t =
    only_row (filter (is_pending heat participant us observed) t.laps)

-- `match_last_cell`
unfoldable pub match_last_cell : ℕ → String → Value → ℕ → Tables → Option CanonicalLapMatch
unfolding match_duration duration_us
match_last_cell heat participant raw observed t =
    match_duration heat participant (duration_us raw) observed t

-- a lap that the cell `cell` is attached to
abbrev pub has_cell : ℕ → Lap → Bool
has_cell cell l = is_value l.source_last_cell_observation_id cell

-- `linked_lap_for_last_cell`
unfoldable pub linked_lap_for_last_cell : ℕ → ℕ → Tables → Option CanonicalLapMatch
unfolding only_row
linked_lap_for_last_cell heat cell t =
    only_row (filter (λ l. l.source_heat_id == heat && has_cell cell l) t.laps)

-- the row of a lap that has no cell yet
abbrev pub is_open : LapId → Lap → Bool
is_open id l = same_lap l.id id && not (is_some l.source_last_cell_observation_id)

unfoldable pub with_last_cell : ℕ → Value → ℕ → ℕ → Lap → Lap
with_last_cell cell raw us tracker_us l = record l {
  source_last_cell_observation_id = some cell;
  source_duration_raw = some raw;
  source_duration_us = some us;
  source_duration_ms = some (us / 1000);
  duration_reconciliation = if us == tracker_us then exact else mismatch;
}

abbrev pub check_existing : ℕ → Option Lap → Action (Unit {0})
check_existing cell none t = raises runtime_error t
check_existing cell (some l) t = if has_cell cell l then returns tt t else raises runtime_error t

-- the `UPDATE` of the lap, whose cell is unique, and the check when it changed no row
unfoldable pub attach_lap : CanonicalLapMatch → ℕ → Value → ℕ → Action (Unit {0})
unfolding with_last_cell
attach_lap m cell raw us t =
    if any (is_open m.id) t.laps
    then if any (has_cell cell) t.laps
      then raises integrity_error t
      else returns tt (record t {
        laps = update (is_open m.id) (with_last_cell cell raw us m.tracker_duration_us) t.laps;
      })
    else check_existing cell (find (λ l. same_lap l.id m.id) t.laps) t

unfoldable pub reconcile : Option ℕ → Option ℕ → Reconciliation
reconcile none tracker = missing_source
reconcile (some us) none = missing_tracker
reconcile (some us) (some tracker) = if us == tracker then exact else mismatch

-- the text and the id of the cell of a sector, if there is one
abbrev pub SectorCell : Type 0
SectorCell = Option (Option String × ℕ)

abbrev pub cell_id : SectorCell → Option ℕ
cell_id none = none
cell_id (some c) = some c.1

abbrev pub cell_text : SectorCell → Option String
cell_text none = none
cell_text (some c) = c.0

abbrev pub text_us : Option String → Option ℕ
text_us none = none
text_us (some s) = duration_us (text s)

abbrev pub sector_of : LapId → ℕ → Sector → Bool
sector_of lap n s = same_lap s.lap_id lap && s.sector_number == n

abbrev pub tracker_us_of : Option Sector → Option ℕ
tracker_us_of none = none
tracker_us_of (some s) = s.tracker_duration_us

unfoldable pub with_sector_cell : SectorCell → Option ℕ → Sector → Sector
unfolding reconcile duration_us
with_sector_cell c tracker s = record s {
  source_cell_observation_id = cell_id c;
  source_duration_raw = cell_text c;
  source_duration_us = text_us (cell_text c);
  source_duration_ms = elim (text_us (cell_text c)) [ none ↦ none | some us ↦ some (us / 1000) ];
  duration_reconciliation = reconcile (text_us (cell_text c)) tracker;
}

-- another row of a sector has the cell already
abbrev pub cell_taken : LapId → ℕ → Option ℕ → Sector → Bool
cell_taken lap n none s = false
cell_taken lap n (some c) s = not (sector_of lap n s) && is_value s.source_cell_observation_id c

-- the body of the loop over the sectors
unfoldable pub attach_sector : LapId → (ℕ → SectorCell) → ℕ → Action (Unit {0})
unfolding with_sector_cell
attach_sector lap sources n t =
    if any (sector_of lap n) t.sectors && any (cell_taken lap n (cell_id (sources n))) t.sectors
    then raises integrity_error t
    else returns tt (record t {
      sectors =
          update (sector_of lap n)
            (with_sector_cell (sources n) (tracker_us_of (find (sector_of lap n) t.sectors)))
            t.sectors;
    })

unfoldable pub attach_sectors : LapId → (ℕ → SectorCell) → Action (Unit {0})
unfolding attach_sector
attach_sectors lap sources = do
  attach_sector lap sources 1
  attach_sector lap sources 2
  attach_sector lap sources 3

unfoldable pub attach_duration :
    CanonicalLapMatch → ℕ → Value → Option ℕ → (ℕ → SectorCell) → Action (Unit {0})
unfolding attach_lap attach_sectors
attach_duration m cell raw none sources t = raises value_error t
attach_duration m cell raw (some us) sources t =
    (do attach_lap m cell raw us; attach_sectors m.id sources) t

-- `attach_last_cell`; `sources` maps the number of a sector to its cell
unfoldable pub attach_last_cell :
    CanonicalLapMatch → ℕ → Value → (ℕ → SectorCell) → Action (Unit {0})
unfolding attach_duration duration_us
attach_last_cell m cell raw sources = attach_duration m cell raw (duration_us raw) sources
