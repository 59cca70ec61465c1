-- ===== src/Canonical/Once.antt =====
-- About `record_tracker_passing` of server/timing/canonical_laps.py and the chronology: the whole call
-- and its repetition.
use mathlib.Core.Path.{subst}
use balchug_racing.Base.{
  ℕ, ◌+◌, ◌≡◌, ◌⊎◌, refl, sym, ap, ◌∙◌, inl, inr, String, true, not, ◌||◌, Option, none, some,
  arith, ◌==◌, if◌then◌else◌, Bool-cases, filter, is_value, str_eq,
}
use balchug_racing.Canonical.State.{
  Boundary, Observation, Tables, CanonicalLapMatch, Action, returns, resume, pure,
}
use balchug_racing.Canonical.Boundary.{
  of_car, latest, initial_boundary, begin_unless, track_length_mm,
}
use balchug_racing.Canonical.Record.{
  end_lap, record_line, record_of_car, record_found, record_tracker_passing, is_start_line,
  tracker_observation,
}
use balchug_racing.Canonical.Chronology.{
  Chronology, Chronology-sum_durations, sum_durations, first_us, latest-Tiles, lap_of,
}
use balchug_racing.Canonical.Keeping.{Recorded, record_line-Recorded}

-- What a call leaves: a chronology with the same observations, where the call again does nothing.
pub record Settled (call : Action (Option CanonicalLapMatch)) (t t' : Tables) : Type 0 where
  pub good : Chronology t'
  pub seen : t'.observations ≡ t.observations
  pub again : call t' ≡ returns none t'

idle-Settled :
    (call : Action (Option CanonicalLapMatch)) (t t' : Tables) (r : Option CanonicalLapMatch)
    → Chronology t
    → call t ≡ returns none t
    → call t ≡ returns r t'
    → Settled call t t'
idle-Settled call t t' r good idle e =
    let left : t ≡ t' = ground (arith, idle, e) in
    subst (Settled call t) left (record { good = good; seen = refl; again = idle })

-- the boundary that a car has already is found again
initial_boundary-Recorded :
    (participant : String) (us : ℕ) (o : Observation) (t t' : Tables)
    (h : Recorded participant us o t t')
    → initial_boundary participant us o t' ≡ returns h.current t'
unfolding initial_boundary begin_unless
initial_boundary-Recorded participant us o t t' h =
    let top =
      latest-Tiles h.current h.older _
        (rw h.newest at (h.good.tiles o.source_heat_id participant)) in
    rw (h.newest, top) refl

same_length :
    (heat : ℕ) (t t' : Tables)
    → t'.observations ≡ t.observations
    → track_length_mm heat t' ≡ track_length_mm heat t
unfolding track_length_mm
same_length heat t t' seen = rw seen refl

-- a passing of the line that is settled
after_boundary-again :
    (participant : String) (us : ℕ) (o : Observation) (b : Boundary) (length : Option ℕ)
    (t' : Tables)
    → (is_start_line length o ≡ true) ⊎ (end_lap participant us o b t' ≡ returns none t')
    → (if is_start_line length o then pure none else end_lap participant us o b) t'
      ≡ returns none t'
after_boundary-again participant us o b length t' (inl start) = rw start refl
after_boundary-again participant us o b length t' (inr idle) =
    elim (Bool-cases (is_start_line length o)) [
      | inl start ↦ rw start refl
      | inr elsewhere ↦ rw elsewhere idle
    ]

record_line-again :
    (participant : String) (us : ℕ) (o : Observation) (t t' : Tables)
    → Recorded participant us o t t'
    → record_line participant us o t' ≡ returns none t'
unfolding record_line
record_line-again participant us o t t' h =
    ap
      (resume (λ previous.
        if is_start_line (track_length_mm o.source_heat_id t') o
        then pure none
        else end_lap participant us o previous))
      (initial_boundary-Recorded participant us o t t' h)
    ∙ after_boundary-again participant us o h.current (track_length_mm o.source_heat_id t') t'
        (rw (same_length o.source_heat_id t t' h.seen) h.settled)

record_of_car-Settled :
    (participant : Option String) (us : Option ℕ) (o : Observation) (t t' : Tables)
    (r : Option CanonicalLapMatch)
    → Chronology t
    → record_of_car participant us o t ≡ returns r t'
    → Settled (record_of_car participant us o) t t'
unfolding record_of_car
record_of_car-Settled none us o t t' r good e =
    idle-Settled (record_of_car none us o) t t' r good refl e
record_of_car-Settled (some participant) none o t t' r good e =
    idle-Settled (record_of_car (some participant) none o) t t' r good refl e
record_of_car-Settled (some participant) (some us) o t t' r good e = elim (Bool-cases (us == 0)) [
  | inl absent ↦
      idle-Settled (record_of_car (some participant) (some us) o) t t' r good (rw absent refl) e
  | inr present ↦
      let h = record_line-Recorded participant us o t t' r good (rw present at e) in
      record {
        good = h.good;
        seen = h.seen;
        again = rw present (record_line-again participant us o t t' h);
      }
]

record_found-Settled :
    (found : Option Observation) (t t' : Tables) (r : Option CanonicalLapMatch)
    → Chronology t
    → record_found found t ≡ returns r t'
    → Settled (record_found found) t t'
unfolding record_found
record_found-Settled none t t' r good e = idle-Settled (record_found none) t t' r good refl e
record_found-Settled (some o) t t' r good e =
    elim (Bool-cases (not (str_eq o.handle "t_p") || not (is_value o.start_distance_mm 0))) [
      | inl elsewhere ↦ idle-Settled (record_found (some o)) t t' r good (rw elsewhere refl) e
      | inr line ↦
          let h =
            record_of_car-Settled o.participant_id o.provider_us o t t' r good (rw line at e) in
          record { good = h.good; seen = h.seen; again = rw line h.again }
    ]

same_observation_row :
    (heat id : ℕ) (t t' : Tables)
    → t'.observations ≡ t.observations
    → tracker_observation heat id t' ≡ tracker_observation heat id t
unfolding tracker_observation
same_observation_row heat id t t' seen = rw seen refl

-- A passing of the tracker that is recorded without an error keeps the chronology of every car: its
-- boundaries are numbered from 0 and go forward in time, and each lap runs from one boundary to the
-- next and lasts as long as the time between the two.
pub record_tracker_passing-Chronology :
    (heat id : ℕ) (t t' : Tables) (r : Option CanonicalLapMatch)
    → Chronology t
    → record_tracker_passing heat id t ≡ returns r t'
    → Chronology t'
unfolding record_tracker_passing
record_tracker_passing-Chronology heat id t t' r good e =
    (record_found-Settled (tracker_observation heat id t) t t' r good e).good

-- In tables with a chronology a passing is recorded once: after `record_tracker_passing` has
-- returned, calling it again for the same observation returns none and leaves the tables as they are.
pub record_tracker_passing-again :
    (heat id : ℕ) (t t' : Tables) (r : Option CanonicalLapMatch)
    → Chronology t
    → record_tracker_passing heat id t ≡ returns r t'
    → record_tracker_passing heat id t' ≡ returns none t'
unfolding record_tracker_passing
record_tracker_passing-again heat id t t' r good e =
    let h = record_found-Settled (tracker_observation heat id t) t t' r good e in
    subst (λ f. record_found f t' ≡ returns none t')
      (sym (same_observation_row heat id t t' h.seen)) h.again

-- After a passing is recorded in tables with a chronology, the durations of the laps of a car add up
-- to the time from its first boundary to its latest one: no time is counted twice or lost.
pub record_tracker_passing-sum_durations :
    (heat id : ℕ) (t t' : Tables) (r : Option CanonicalLapMatch) (k : ℕ) (participant : String)
    (b : Boundary)
    → Chronology t
    → record_tracker_passing heat id t ≡ returns r t'
    → latest (filter (of_car k participant) t'.boundaries) ≡ some b
    → sum_durations (filter (lap_of k participant) t'.laps)
        + first_us (filter (of_car k participant) t'.boundaries)
      ≡ b.provider_us
record_tracker_passing-sum_durations heat id t t' r k participant b good e =
    Chronology-sum_durations t' k participant b
      (record_tracker_passing-Chronology heat id t t' r good e)
