-- ===== src/Metrics/Pits.antt =====
-- Clean laps and pit stops: `LapSample`, `is_clean_lap` and `PitStop` to `completed_pit_stops` of
-- server/timing/metrics.py. A value typed `int | None` is an optional integer.
use balchug_racing.Base.{
  ℕ, suc, String, Bool, true, false, not, ◌&&◌, ◌||◌, Option, none, some, List, [], ◌∷◌, ltb, leb,
  ◌==◌, if◌then◌else◌, all, filter, map, str_eq,
}
use balchug_racing.Base.Int.{ℤ, pos, negsuc, ltb_ℤ}
use balchug_racing.Metrics.Gap.{natural, is_bool}

pub record LapSample : Type 0 where
  pub participant_id : Option String
  pub lap_number : Option ℤ
  pub capture_sequence : Option ℤ
  pub completed_at_us : Option ℤ
  pub duration_ms : Option ℤ
  pub flag_kinds : List String
  pub is_in_lap : Option Bool
  pub is_out_lap : Option Bool
  pub crosses_pit : Option Bool
  pub has_feed_gap : Option Bool

-- `_is_int(value, minimum=1)`, with the number; for integers, `_positive_number` too
abbrev pub positive : Option ℤ → Option ℕ
positive none = none
positive (some (pos n)) = if n == 0 then none else some n
positive (some (negsuc n)) = none

abbrev pub is_present : Option ℕ → Bool
is_present none = false
is_present (some n) = true

abbrev pub is_empty : List String → Bool
is_empty [] = true
is_empty (s ∷ ss) = false

unfoldable pub is_clean_lap : LapSample → Bool
is_clean_lap lap =
    is_present (positive lap.duration_ms)
    && not (is_empty lap.flag_kinds)
    && all (λ f. str_eq f "GREEN") lap.flag_kinds
    && is_bool false lap.is_in_lap
    && is_bool false lap.is_out_lap
    && is_bool false lap.crosses_pit
    && is_bool false lap.has_feed_gap

unfoldable pub select_clean_laps : List LapSample → List LapSample
unfolding is_clean_lap
select_clean_laps laps = filter is_clean_lap laps

pub record PitStop : Type 0 where
  pub stop_number : Option ℤ
  pub entered_at_us : Option ℤ
  pub exited_at_us : Option ℤ
  pub entered_lap : Option ℤ
  pub exited_lap : Option ℤ
  pub pit_lane_ms : Option ℤ
  pub completed : Option Bool
  pub pit_lane_duration_source_kind : Option String

-- a completed stop, with its times, its index and itself
pub record Entry : Type 0 where
  pub entered : ℕ
  pub exited : ℕ
  pub index : ℕ
  pub stop : PitStop

-- `is_completed_pit_stop`, with the times that it makes sure of
unfoldable pub entry_of : ℕ → PitStop → Option ℕ → Option ℕ → Option Entry
entry_of index stop none exited = none
entry_of index stop (some entered) none = none
entry_of index stop (some entered) (some exited) =
    if is_bool true stop.completed && leb entered exited
    then some (record { entered = entered; exited = exited; index = index; stop = stop })
    else none

-- the key of a stop, by its number or by its times
pub data Key : Type 0 where
  by_number : ℕ → Key
  by_times : ℕ → ℕ → Key

abbrev pub numbered : Option ℕ → ℕ → ℕ → Key
numbered none entered exited = by_times entered exited
numbered (some n) entered exited = by_number n

abbrev pub key_of : Entry → Key
key_of e = numbered (positive e.stop.stop_number) e.entered e.exited

abbrev pub same_key : Key → Key → Bool
same_key (by_number m) (by_number n) = m == n
same_key (by_times a b) (by_times c d) = a == c && b == d
same_key (by_number m) (by_times c d) = false
same_key (by_times a b) (by_number n) = false

-- `(a.exited, a.index) >= (b.exited, b.index)`
abbrev pub is_newer : Entry → Entry → Bool
is_newer a b = ltb b.exited a.exited || (b.exited == a.exited && leb b.index a.index)

-- the assignment to `selected[key]`
unfoldable pub select : Entry → List Entry → List Entry
select e [] = e ∷ []
select e (x ∷ xs) =
    if same_key (key_of x) (key_of e)
    then (if is_newer e x then e ∷ xs else x ∷ xs)
    else x ∷ select e xs

abbrev pub select_if : Option Entry → List Entry → List Entry
select_if none selected = selected
select_if (some e) selected = select e selected

-- the loop over the stops
unfoldable pub selected_entries : ℕ → List PitStop → List Entry → List Entry
unfolding entry_of select
selected_entries index [] selected = selected
selected_entries index (stop ∷ stops) selected = selected_entries (suc index) stops (
    select_if (entry_of index stop (natural stop.entered_at_us) (natural stop.exited_at_us))
      selected)

-- `stop_number or 0`
abbrev pub number_or_zero : Option ℤ → ℤ
number_or_zero none = pos 0
number_or_zero (some n) = n

-- the order of the sort keys
abbrev pub sorts_before : Entry → Entry → Bool
sorts_before a b =
    ltb a.exited b.exited
    || (a.exited == b.exited
        && (ltb a.entered b.entered
            || (a.entered == b.entered
                && (ltb_ℤ (number_or_zero a.stop.stop_number) (number_or_zero b.stop.stop_number)
                    || (not (
                          ltb_ℤ (number_or_zero b.stop.stop_number)
                            (number_or_zero a.stop.stop_number))
                        && leb a.index b.index)))))

unfoldable pub insert_entry : Entry → List Entry → List Entry
insert_entry e [] = e ∷ []
insert_entry e (x ∷ xs) = if sorts_before e x then e ∷ x ∷ xs else x ∷ insert_entry e xs

unfoldable pub sort_entries : List Entry → List Entry
unfolding insert_entry
sort_entries [] = []
sort_entries (e ∷ es) = insert_entry e (sort_entries es)

-- `completed_pit_stops`, with the times of the stops
unfoldable pub completed_entries : List PitStop → List Entry
unfolding selected_entries sort_entries
completed_entries stops = sort_entries (selected_entries 0 stops [])

unfoldable pub completed_pit_stops : List PitStop → List PitStop
unfolding completed_entries
completed_pit_stops stops = map (λ e. e.stop) (completed_entries stops)
