-- ===== src/Clock/Tests.antt =====
-- A clock with three offsets and room for two (server/timing/normalization.py).
use balchug_racing.Base.{◌≡◌, ◌≤◌, refl, Option, some, List, [], ◌∷◌, ◌++◌, length, arith}
use balchug_racing.Base.Int.{ℤ, pos, negsuc}
use balchug_racing.Wire.Json.{integer, object, nil, field}
use balchug_racing.Canonical.Duration.{Value, whole, text, parse_ts_time}
use balchug_racing.Clock.Calibrator.{
  Calibrator, observe_server_time, offset_us, to_utc_us, snapshot, from_snapshot,
}
use balchug_racing.Clock.Window.{
  observe_all, offsets_of, last_offsets, observe_all-window, from_snapshot-snapshot,
}
use balchug_racing.Clock.Median.{IsMedian, offset_us-IsMedian}

abbrev clock : Calibrator
clock = record { max_samples = 2; offsets_us = [] }

abbrev observations : List (Value × Option ℤ)
observations =
    (whole (pos 5), some (pos 946684800000012))
    ∷ (text "10", some (pos 946684800000007))
    ∷ (text "soon", some (pos 946684800000020))
    ∷ (whole (pos 20), some (pos 946684800000016))
    ∷ []

abbrev calibrated : Calibrator
calibrated = record { max_samples = 2; offsets_us = negsuc 2 ∷ negsuc 3 ∷ [] }

observed : observe_all observations clock ≡ calibrated
unfolding observe_all parse_ts_time
observed = refl

-- the mean of -3 and -4, rounded down
between : offset_us calibrated ≡ some (negsuc 3)
unfolding offset_us
between = refl

converted : to_utc_us calibrated (whole (pos 100)) ≡ some (pos 946684800000096)
unfolding to_utc_us parse_ts_time
converted = refl

server_time :
    (observe_server_time "s_t"
      (object (field "t" (integer (pos 7)) nil) ∷ [])
      (some (pos 946684800000010))
      clock).0
    ≡ some (pos 3)
unfolding observe_server_time parse_ts_time
server_time = refl

observe_all-window_example :
    ((observe_all observations clock).offsets_us ≡ last_offsets 2 ([] ++ offsets_of observations))
    × (length (observe_all observations clock).offsets_us ≤ 2)
observe_all-window_example = observe_all-window observations clock (omega arith)

from_snapshot-snapshot_example : from_snapshot (snapshot calibrated) ≡ some calibrated
from_snapshot-snapshot_example = from_snapshot-snapshot 1 (negsuc 2 ∷ negsuc 3 ∷ []) (omega arith)

offset_us-IsMedian_example :
    (offset : ℤ) × (offset_us calibrated ≡ some offset) × IsMedian calibrated.offsets_us offset
offset_us-IsMedian_example = offset_us-IsMedian calibrated (omega arith)
