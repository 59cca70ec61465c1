-- ===== src/Canonical/Chronology.antt =====
-- The invariant of the tables of server/timing/canonical_laps.py: the boundaries of a car follow
-- one another in time, and its laps fill the time between them.
use balchug_racing.Base.{
  ℕ, ◌+◌, ◌<◌, ◌≡◌, ◌≢◌, refl, String, Bool, true, ◌&&◌, some, List, [], ◌∷◌, arith, ◌==◌, ==_iff,
  filter, All, str_eq, str_eq_iff,
}
use balchug_racing.Canonical.State.{Boundary, Lap, Tables}
use balchug_racing.Canonical.Boundary.{of_car, latest}

-- a lap of one car in one heat
abbrev pub lap_of : ℕ → String → Lap → Bool
lap_of heat participant l = l.source_heat_id == heat && str_eq l.participant_id participant

-- the lap `l` runs from `a` to `b`, which is the next boundary
pub record Spans (a b : Boundary) (l : Lap) : Type 0 where
  pub next : b.ordinal ≡ a.ordinal + 1
  pub later : a.provider_us < b.provider_us
  pub starts_at : l.start_boundary_id ≡ a.id
  pub ends_at : l.finish_boundary_id ≡ b.id
  pub ordinal : l.lap_ordinal ≡ b.ordinal
  pub started : l.started_at_provider_us ≡ a.provider_us
  pub finished : l.finished_at_provider_us ≡ b.provider_us
  pub duration : l.tracker_duration_us + a.provider_us ≡ b.provider_us

-- The boundaries of a car and its laps, newest first: the first boundary has the ordinal 0, and
-- each other one ends one lap.
abbrev pub Tiles : List Boundary → List Lap → Type 0
Tiles [] [] = Unit
Tiles [] (l ∷ ls) = ⊥
Tiles (b ∷ []) [] = b.ordinal ≡ 0
Tiles (b ∷ []) (l ∷ ls) = ⊥
Tiles (b ∷ a ∷ bs) [] = ⊥
Tiles (b ∷ a ∷ bs) (l ∷ ls) = Spans a b l × Tiles (a ∷ bs) ls

-- the id of a boundary names its car
abbrev pub IsNamed : Boundary → Type 0
IsNamed b = (b.id.heat ≡ b.source_heat_id) × (b.id.participant ≡ b.participant_id)

pub record Chronology (t : Tables) : Type 0 where
  pub tiles :
      (heat : ℕ) (participant : String)
      → Tiles
          (filter (of_car heat participant) t.boundaries)
          (filter (lap_of heat participant) t.laps)
  pub named : All IsNamed t.boundaries

-- The latest boundary of a chronology is its newest.
pub latest-Tiles :
    (b : Boundary) (bs : List Boundary) (ls : List Lap)
    → Tiles (b ∷ bs) ls
    → latest (b ∷ bs) ≡ some b
unfolding latest
latest-Tiles b [] ls h = refl
latest-Tiles b (a ∷ bs) [] h = elim h [ ]
latest-Tiles b (a ∷ bs) (l ∷ ls) h = ground (arith, latest-Tiles a bs ls h.1, h.0.next)

unfoldable pub sum_durations : List Lap → ℕ
sum_durations [] = 0
sum_durations (l ∷ ls) = l.tracker_duration_us + sum_durations ls

-- the time of the last row of a list, the oldest boundary
pub first_us : List Boundary → ℕ
first_us [] = 0
first_us (b ∷ []) = b.provider_us
first_us (b ∷ a ∷ bs) = first_us (a ∷ bs)

sum_durations-Tiles :
    (b : Boundary) (bs : List Boundary) (ls : List Lap)
    → Tiles (b ∷ bs) ls
    → sum_durations ls + first_us (b ∷ bs) ≡ b.provider_us
unfolding sum_durations first_us
sum_durations-Tiles b [] [] h = omega arith
sum_durations-Tiles b [] (l ∷ ls) h = elim h [ ]
sum_durations-Tiles b (a ∷ bs) [] h = elim h [ ]
sum_durations-Tiles b (a ∷ bs) (l ∷ ls) h =
    omega (arith, sum_durations-Tiles a bs ls h.1, h.0.duration)

latest-nil : (b : Boundary) → latest [] ≢ some b
unfolding latest
latest-nil b e = cc e

-- In a chronology the durations of the laps of a car add up to the time from its first boundary to
-- its latest one: no time is counted twice or lost.
pub Chronology-sum_durations :
    (t : Tables) (heat : ℕ) (participant : String) (b : Boundary)
    → Chronology t
    → latest (filter (of_car heat participant) t.boundaries) ≡ some b
    → sum_durations (filter (lap_of heat participant) t.laps)
        + first_us (filter (of_car heat participant) t.boundaries)
      ≡ b.provider_us
Chronology-sum_durations t heat participant b h e =
    by_rows (filter (of_car heat participant) t.boundaries) (h.tiles heat participant) e
  where
    by_rows :
        (rows : List Boundary)
        → Tiles rows (filter (lap_of heat participant) t.laps)
        → latest rows ≡ some b
        → sum_durations (filter (lap_of heat participant) t.laps) + first_us rows ≡ b.provider_us
    by_rows [] k p = absurd (latest-nil b p)
    by_rows (a ∷ rows) k p =
        let s = latest-Tiles a rows _ k in
        let same : a ≡ b = ground (arith, s, p) in rw (← same) (sum_durations-Tiles a rows _ k)

-- The lists of one car after a row is added: a row of the car comes first, any other changes nothing.
pub filter-of_car :
    (heat : ℕ) (participant : String) (b : Boundary)
    → of_car heat participant b ≡ true
    → (b.source_heat_id ≡ heat) × (b.participant_id ≡ participant)
filter-of_car heat participant b h = (
  (==_iff b.source_heat_id heat).0 (ground arith),
  (str_eq_iff b.participant_id participant).0 (ground arith),
)

pub filter-lap_of :
    (heat : ℕ) (participant : String) (l : Lap)
    → lap_of heat participant l ≡ true
    → (l.source_heat_id ≡ heat) × (l.participant_id ≡ participant)
filter-lap_of heat participant l h = (
  (==_iff l.source_heat_id heat).0 (ground arith),
  (str_eq_iff l.participant_id participant).0 (ground arith),
)

pub of_car_self :
    (heat : ℕ) (participant : String) (b : Boundary)
    → b.source_heat_id ≡ heat
    → b.participant_id ≡ participant
    → of_car heat participant b ≡ true
of_car_self heat participant b h p =
    ground
      (arith, (str_eq_iff b.participant_id participant).1 p, (==_iff b.source_heat_id heat).1 h)
