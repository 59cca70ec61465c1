-- ===== src/Metrics/Stints.antt =====
-- Tyre stints: `TireStint` to `derive_tire_ledger` of server/timing/metrics.py.
use Prim.Native.Nat.{max}
use balchug_racing.Base.{
  ℕ, zero, suc, ◌+◌, ◌-◌, Bool, true, false, ◌&&◌, Option, none, some, List, [], ◌∷◌, ltb, leb,
  ◌==◌, if◌then◌else◌, length, any,
}
use balchug_racing.Base.Int.{ℤ, pos, pos_part, neg_part}
use balchug_racing.Metrics.Gap.{natural}
use balchug_racing.Metrics.Pits.{LapSample, PitStop, Entry, completed_entries}

pub record TireStint : Type 0 where
  pub stint_number : ℕ
  pub started_at_us : Option ℕ
  pub ended_at_us : Option ℕ
  pub started_lap : Option ℤ
  pub ended_lap : Option ℤ
  pub completed_laps : ℕ
  pub is_partial : Bool
  pub is_current : Bool

pub record TireLedger : Type 0 where
  pub stints : List TireStint
  pub completed_pit_count : ℕ

unfoldable pub max_lap_number : List LapSample → Option ℕ
max_lap_number [] = none
max_lap_number (lap ∷ laps) = larger (natural lap.lap_number) (max_lap_number laps)
  where
    larger : Option ℕ → Option ℕ → Option ℕ
    larger none b = b
    larger (some a) none = some a
    larger (some a) (some b) = some (max a b)

-- the members of `seen`
pub data Seen : Type 0 where
  lap_seen : ℕ → Seen
  time_seen : ℕ → ℕ → Seen

abbrev pub same_seen : Seen → Seen → Bool
same_seen (lap_seen m) (lap_seen n) = m == n
same_seen (time_seen a b) (time_seen c d) = a == c && b == d
same_seen (lap_seen m) (time_seen c d) = false
same_seen (time_seen a b) (lap_seen n) = false

abbrev pub add_seen : Seen → List Seen → List Seen
add_seen s seen = if any (same_seen s) seen then seen else s ∷ seen

abbrev pub seen_of : Option ℕ → ℕ → ℕ → Seen
seen_of none completed_at index = time_seen completed_at index
seen_of (some n) completed_at index = lap_seen n

abbrev pub starts_by : Option ℕ → ℕ → Bool
starts_by none at = true
starts_by (some start) at = leb start at

abbrev pub ends_after : Option ℕ → ℕ → Bool
ends_after none at = true
ends_after (some end) at = ltb at end

unfoldable pub see_lap : Option ℕ → Option ℕ → ℕ → LapSample → Option ℕ → List Seen → List Seen
see_lap start end index lap none seen = seen
see_lap start end index lap (some at) seen =
    if starts_by start at && ends_after end at
    then add_seen (seen_of (natural lap.lap_number) at index) seen
    else seen

unfoldable pub seen_laps : Option ℕ → Option ℕ → ℕ → List LapSample → List Seen → List Seen
unfolding see_lap
seen_laps start end index [] seen = seen
seen_laps start end index (lap ∷ laps) seen =
    seen_laps start end (suc index) laps
      (see_lap start end index lap (natural lap.completed_at_us) seen)

unfoldable pub observed_laps_in_interval : List LapSample → Option ℕ → Option ℕ → ℕ
unfolding seen_laps
observed_laps_in_interval laps start end = length (seen_laps start end 0 laps [])

-- `max(0, upper - started)`
abbrev pub lap_difference : ℤ → ℤ → ℕ
lap_difference upper started =
    (pos_part upper + neg_part started) - (pos_part started + neg_part upper)

abbrev pub upper_lap : Option ℤ → Option ℕ → Option ℤ
upper_lap none none = none
upper_lap none (some n) = some (pos n)
upper_lap (some ended) max_lap = some ended

unfoldable pub stint_laps : List LapSample → Option ℕ → Option ℕ → Option ℤ → Option ℤ → ℕ
unfolding observed_laps_in_interval max_lap_number
stint_laps laps start end none ended_lap = observed_laps_in_interval laps start end
stint_laps laps start end (some started) ended_lap =
    elim (upper_lap ended_lap (max_lap_number laps)) [
      | none ↦ 0
      | some upper ↦ lap_difference upper started
    ]

abbrev pub entered_of : Option Entry → Option ℕ
entered_of none = none
entered_of (some e) = some e.entered

abbrev pub exited_of : Option Entry → Option ℕ → Option ℕ
exited_of none activation = activation
exited_of (some e) activation = some e.exited

abbrev pub entered_lap_of : Option Entry → Option ℤ
entered_lap_of none = none
entered_lap_of (some e) = e.stop.entered_lap

abbrev pub exited_lap_of : Option Entry → Option ℤ
exited_lap_of none = none
exited_lap_of (some e) = e.stop.exited_lap

abbrev pub is_none : Option Entry → Bool
is_none none = true
is_none (some e) = false

-- one stint, between two stops
unfoldable pub stint_row : List LapSample → Option ℕ → ℕ → Option Entry → Option Entry → TireStint
unfolding stint_laps
stint_row laps activation index previous following = record {
  stint_number = index + 1;
  started_at_us = exited_of previous activation;
  ended_at_us = entered_of following;
  started_lap = exited_lap_of previous;
  ended_lap = entered_lap_of following;
  completed_laps =
      stint_laps laps (exited_of previous activation) (entered_of following)
        (exited_lap_of previous) (entered_lap_of following);
  is_partial = index == 0;
  is_current = is_none following;
}

-- `completed[i]`
unfoldable pub nth_entry : ℕ → List Entry → Option Entry
nth_entry i [] = none
nth_entry zero (e ∷ es) = some e
nth_entry (suc i) (e ∷ es) = nth_entry i es

-- `completed[i - 1] if i > 0 else None` and `completed[i] if i < len(completed) else None`
unfoldable pub previous_of : List Entry → ℕ → Option Entry
unfolding nth_entry
previous_of completed i = if ltb 0 i then nth_entry (i - 1) completed else none

unfoldable pub following_of : List Entry → ℕ → Option Entry
unfolding nth_entry
following_of completed i = if ltb i (length completed) then nth_entry i completed else none

-- the loop over `n` indexes, from `index` on
unfoldable pub stints_from : List LapSample → Option ℕ → List Entry → ℕ → ℕ → List TireStint
unfolding stint_row previous_of following_of
stints_from laps activation completed index zero = []
stints_from laps activation completed index (suc n) =
    stint_row laps activation index (previous_of completed index) (following_of completed index)
    ∷ stints_from laps activation completed (suc index) n

unfoldable pub derive_tire_ledger : List LapSample → List PitStop → Option ℤ → TireLedger
unfolding completed_entries stints_from
derive_tire_ledger laps stops activation =
    let completed = completed_entries stops in
    record {
      stints = stints_from laps (natural activation) completed 0 (length completed + 1);
      completed_pit_count = length completed;
    }
