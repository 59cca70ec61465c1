-- ===== src/Clock/Calibrator.antt =====
-- `ConnectionClockCalibrator` of server/timing/normalization.py, with the helpers that read a server
-- time. The receive time is what `received_at_to_unix_us` returned. A `ValueError` is `none`.
use balchug_racing.Base.{
  ℕ, zero, suc, ◌+◌, ◌-◌, ◌/◌, ◌%◌, String, ◌||◌, Option, none, some, List, [], ◌∷◌, ◌++◌, ltb,
  ◌==◌, if◌then◌else◌, str_eq, length,
}
use balchug_racing.Base.Int.{ℤ, pos, negsuc, ◌+ℤ◌, ◌-ℤ◌, ltb_ℤ}
use balchug_racing.Wire.Json.{
  Json, integer, string, array, object, Items, end, item, Fields, nil, field, to_list, get,
}
use balchug_racing.Canonical.Duration.{
  Value, whole, text, unknown, parse_ts_time, open_ended_ts_time,
}
use balchug_racing.RaceControl.Messages.{message_payload}

abbrev pub time_service_epoch_unix_us : ℕ
time_service_epoch_unix_us = 946684800000000

-- a JSON value as the parser of server times reads it
abbrev pub value_of : Json → Value
value_of (integer n) = whole n
value_of (string s) = text s
value_of _ = unknown

abbrev pub unix_us : Option ℕ → Option ℕ
unix_us none = none
unix_us (some n) = if n == open_ended_ts_time then none else some (time_service_epoch_unix_us + n)

unfoldable pub time_service_to_unix_us : Value → Option ℕ
unfolding parse_ts_time
time_service_to_unix_us value = unix_us (parse_ts_time value)

abbrev pub or_time : Option ℕ → Option ℕ → Option ℕ
or_time none other = other
or_time (some n) other = some n

unfoldable pub time_of : Option Json → Option ℕ
unfolding parse_ts_time
time_of none = none
time_of (some j) = parse_ts_time (value_of j)

abbrev pub clock_names : List String
clock_names = "t" ∷ "time" ∷ "serverTime" ∷ "server_time" ∷ "timestamp" ∷ []

-- the first of these names that holds a time
unfoldable pub first_time : List String → Fields → Option ℕ
unfolding time_of
first_time [] fs = none
first_time (name ∷ names) fs = or_time (time_of (get name fs)) (first_time names fs)

-- `_server_time_from_payload`: a list or a dict is no time itself
unfoldable pub server_time_from_payload : Json → Option ℕ
unfolding first_time time_of
server_time_from_payload (array (item j end)) = time_of (some j)
server_time_from_payload (array _) = none
server_time_from_payload (object fs) = first_time clock_names fs
server_time_from_payload j = time_of (some j)

pub record Calibrator : Type 0 where
  pub max_samples : ℕ
  pub offsets_us : List ℤ

-- `ConnectionClockCalibrator(max_samples=n)`
unfoldable pub new_calibrator : ℤ → Option Calibrator
new_calibrator (pos (suc n)) = some (record { max_samples = suc n; offsets_us = [] })
new_calibrator _ = none

-- `sorted(offsets)`
abbrev pub insert_offset : ℤ → List ℤ → List ℤ
insert_offset a [] = a ∷ []
insert_offset a (b ∷ bs) =
    let rest = insert_offset a bs in if ltb_ℤ b a then b ∷ rest else a ∷ b ∷ bs

unfoldable pub sorted : List ℤ → List ℤ
sorted [] = []
sorted (a ∷ bs) = insert_offset a (sorted bs)

abbrev pub nth : ℕ → List ℤ → ℤ
nth n [] = pos 0
nth zero (a ∷ bs) = a
nth (suc n) (a ∷ bs) = nth n bs

-- `a // 2`, rounded down
abbrev pub half : ℤ → ℤ
half (pos n) = pos (n / 2)
half (negsuc n) = negsuc (n / 2)

-- the middle of the ordered offsets
unfoldable pub middle : List ℤ → ℤ
unfolding ◌+ℤ◌
middle ordered =
    if length ordered % 2 == 1
    then nth (length ordered / 2) ordered
    else half (nth (length ordered / 2 - 1) ordered +ℤ nth (length ordered / 2) ordered)

-- `offset_us`
unfoldable pub offset_us : Calibrator → Option ℤ
unfolding sorted middle
offset_us c = median c.offsets_us
  where
    median : List ℤ → Option ℤ
    median [] = none
    median (a ∷ bs) = some (middle (sorted (a ∷ bs)))

abbrev pub drop_offsets : ℕ → List ℤ → List ℤ
drop_offsets zero bs = bs
drop_offsets (suc n) [] = []
drop_offsets (suc n) (b ∷ bs) = drop_offsets n bs

-- the new offset, and the oldest ones are dropped
abbrev pub add_offset : ℤ → Calibrator → Calibrator
add_offset offset c =
    let offsets = c.offsets_us ++ offset ∷ [] in
    record c {
      offsets_us =
          if ltb c.max_samples (length offsets)
          then drop_offsets (length offsets - c.max_samples) offsets
          else offsets;
    }

unfoldable pub observe_times : Option ℕ → Option ℤ → Calibrator → Option ℤ × Calibrator
unfolding ◌-ℤ◌
observe_times none received c = (none, c)
observe_times (some provider) none c = (none, c)
observe_times (some provider) (some received) c =
    (some (received -ℤ pos provider), add_offset (received -ℤ pos provider) c)

unfoldable pub observe : Value → Option ℤ → Calibrator → Option ℤ × Calibrator
unfolding time_service_to_unix_us observe_times
observe value received c = observe_times (time_service_to_unix_us value) received c

-- a server time of a payload, which may be missing
abbrev pub value_of_time : Option ℕ → Value
value_of_time none = unknown
value_of_time (some n) = whole (pos n)

unfoldable pub observe_server_time :
    String → List Json → Option ℤ → Calibrator → Option ℤ × Calibrator
unfolding server_time_from_payload observe
observe_server_time handle args received c =
    if str_eq handle "s_i" || str_eq handle "s_t"
    then observe (value_of_time (server_time_from_payload (message_payload args))) received c
    else (none, c)

unfoldable pub shifted : Option ℕ → Option ℤ → Option ℤ
unfolding ◌+ℤ◌
shifted (some provider) (some offset) = some (pos provider +ℤ offset)
shifted _ _ = none

unfoldable pub to_utc_us : Calibrator → Value → Option ℤ
unfolding time_service_to_unix_us offset_us shifted
to_utc_us c value = shifted (time_service_to_unix_us value) (offset_us c)

abbrev pub integers : List ℤ → Items
integers [] = end
integers (a ∷ bs) = item (integer a) (integers bs)

unfoldable pub snapshot : Calibrator → Json
snapshot c = object (
    field "max_samples" (integer (pos c.max_samples))
      (field "offsets_us" (array (integers c.offsets_us)) nil))

abbrev pub add_integer : ℤ → Option (List ℤ) → Option (List ℤ)
add_integer a none = none
add_integer a (some bs) = some (a ∷ bs)

-- the offsets, if each of them is an `int`
abbrev pub all_integers : List Json → Option (List ℤ)
all_integers [] = some []
all_integers (integer a ∷ js) = add_integer a (all_integers js)
all_integers (_ ∷ js) = none

abbrev pub with_offsets : Option (List ℤ) → Calibrator → Option Calibrator
with_offsets none c = none
with_offsets (some offsets) c = some (record c { offsets_us = offsets })

abbrev pub from_offsets : Option Calibrator → Option Json → Option Calibrator
from_offsets (some c) (some (array items)) =
    if ltb c.max_samples (length (to_list items))
    then none
    else with_offsets (all_integers (to_list items)) c
from_offsets _ _ = none

unfoldable pub from_samples : Option Json → Option Calibrator
unfolding new_calibrator
from_samples (some (integer n)) = new_calibrator n
from_samples _ = none

unfoldable pub from_snapshot : Json → Option Calibrator
unfolding from_samples
from_snapshot (object fs) = from_offsets (from_samples (get "max_samples" fs)) (get "offsets_us" fs)
from_snapshot _ = none
