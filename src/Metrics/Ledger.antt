-- ===== src/Metrics/Ledger.antt =====
-- About the tyre stints of `derive_tire_ledger` of server/timing/metrics.py and the stops.
use balchug_racing.Base.{ℕ, ◌+◌, ◌-◌, ◌≡◌, Option, none, some, List, [], ◌∷◌, ◌==◌}
use balchug_racing.Base.Int.{ℤ, pos}
use balchug_racing.Metrics.Pits.{Entry}
use balchug_racing.Metrics.Stints.{
  TireStint, exited_of, exited_lap_of, entered_of, entered_lap_of, is_none,
}

-- the laps of a stint, where the laps of both its stops are known
abbrev pub HasLaps : Option ℤ → Option ℤ → ℕ → Type 0
HasLaps (some (pos a)) (some (pos b)) laps = laps ≡ b - a
HasLaps _ _ laps = Unit

-- a stint between two stops, which are missing at the ends
abbrev pub IsBetween : Option ℕ → ℕ → Option Entry → Option Entry → TireStint → Type 0
IsBetween activation number previous following s =
    (s.stint_number ≡ number)
    × (s.is_partial ≡ (number == 1))
    × (s.is_current ≡ is_none following)
    × (s.started_at_us ≡ exited_of previous activation)
    × (s.ended_at_us ≡ entered_of following)
    × HasLaps (exited_lap_of previous) (entered_lap_of following) s.completed_laps

-- The stints that the stops `es` divide the time into, from the stop `previous` on, the first of
-- them with this number.
abbrev pub Divides : Option ℕ → ℕ → Option Entry → List Entry → List TireStint → Type 0
Divides activation number previous es [] = ⊥
Divides activation number previous [] (s ∷ []) = IsBetween activation number previous none s
Divides activation number previous [] (s ∷ r ∷ ss) = ⊥
Divides activation number previous (e ∷ es) (s ∷ ss) =
    IsBetween activation number previous (some e) s × Divides activation (number + 1) (some e) es ss
