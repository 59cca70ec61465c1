-- ===== src/Canonical/Laps.antt =====
-- About the lap that `record_tracker_passing` of server/timing/canonical_laps.py stores.
use mathlib.Core.Path.{subst}
use balchug_racing.Base.{
  ℕ, ◌+◌, ◌<◌, ◌≡◌, ◌⊎◌, refl, inl, inr, String, Bool, Option, none, some, List, ◌∷◌, arith, leb,
  Bool-cases, any,
}
use balchug_racing.Canonical.State.{
  Boundary, Lap, LapId, Observation, Tables, CanonicalLapMatch, Outcome, Action, returns, raises,
  resume, ◌>>=◌, ◌>>◌, pure,
}
use balchug_racing.Canonical.Boundary.{passing_row, same_observation}
use balchug_racing.Canonical.Passing.{
  write_sector_rows, lap_passings, >>-eq-returns, write_sector_rows-Kept,
}
use balchug_racing.Canonical.Record.{
  coverage_complete, insert_lap, insert_finish, note_passings, store_lap, match_of, crosses_pit,
  write_covered, lap_row, write_lap, end_lap, finish_kind,
}
use balchug_racing.Canonical.Chronology.{Spans}

-- a statement that returned, and what came after it
pub >>=-eq-returns :
    {A B : Type 0} (m : Action A) (f : A → Action B) {b : B} {t t' : Tables}
    → (m >>= f) t ≡ returns b t'
    → (a : A) × (t1 : Tables) × (m t ≡ returns a t1) × (f a t1 ≡ returns b t')
>>=-eq-returns {A} m f {b} {t} {t'} h = by_outcome (m t) refl h
  where
    by_outcome :
        (r : Outcome A)
        → m t ≡ r
        → resume f r ≡ returns b t'
        → (a : A) × (t1 : Tables) × (m t ≡ returns a t1) × (f a t1 ≡ returns b t')
    by_outcome (returns a t1) e h' = (a, t1, e, h')
    by_outcome (raises e t1) p h' = absurd (ground arith)

insert_lap_lem :
    (lap : Lap) (t : Tables) {t' : Tables}
    → insert_lap lap t ≡ returns tt t'
    → t' ≡ record t { laps = lap ∷ t.laps }
unfolding insert_lap
insert_lap_lem lap t e = ground arith

note_passings_lem :
    (lap : LapId) (o : Observation) (os : List Observation) (t : Tables) {t' : Tables}
    → note_passings lap o os t ≡ returns tt t'
    → (t'.boundaries ≡ t.boundaries) × (t'.laps ≡ t.laps) × (t'.observations ≡ t.observations)
unfolding note_passings
note_passings_lem lap o os t e = ground arith

-- a lap that was stored
store_lap_lem :
    (lap : Lap) (a b : Boundary) (o : Observation) (os : List Observation) (t t' : Tables)
    (r : Option CanonicalLapMatch)
    → store_lap lap a b o os t ≡ returns r t'
    → (t'.laps ≡ lap ∷ t.laps)
      × (t'.boundaries ≡ t.boundaries)
      × (t'.observations ≡ t.observations)
      × (r ≡ some (match_of lap))
unfolding store_lap
store_lap_lem lap a b o os t t' r e =
    let (t1, e1, r1) =
      >>-eq-returns (insert_lap lap)
        (note_passings lap.id o os
          >> (write_sector_rows lap.id a b os >> pure (some (match_of lap))))
        e in
    let (t2, e2, r2) =
      >>-eq-returns (note_passings lap.id o os)
        (write_sector_rows lap.id a b os >> pure (some (match_of lap))) r1 in
    let (t3, e3, r3) =
      >>-eq-returns (write_sector_rows lap.id a b os) (pure (some (match_of lap))) r2 in
    let kept = write_sector_rows-Kept lap.id a b os t2 e3 in
    let inserted = insert_lap_lem lap t e1 in
    let noted = note_passings_lem lap.id o os t1 e2 in
    ground (arith, r3, kept.boundaries, kept.laps, kept.observations, inserted, noted)

coverage_complete_lem :
    (a : Boundary) (t : Tables) {c : Bool} {t' : Tables}
    → coverage_complete a t ≡ returns c t'
    → t' ≡ t
unfolding coverage_complete
coverage_complete_lem a t e = ground arith

-- What ending a lap does, if it returns: nothing, or one more boundary and the lap up to it.
pub record Ended (o : Observation) (previous end : Boundary) (t : Tables)
    (r : Option CanonicalLapMatch) (t' : Tables) : Type 0 where
  pub lap : Lap
  pub spans :
      (end.ordinal ≡ previous.ordinal + 1)
      → (previous.provider_us < end.provider_us)
      → Spans previous end lap
  pub heat : lap.source_heat_id ≡ end.source_heat_id
  pub participant : lap.participant_id ≡ end.participant_id
  pub boundaries : t'.boundaries ≡ end ∷ t.boundaries
  pub laps : t'.laps ≡ lap ∷ t.laps
  pub observations : t'.observations ≡ t.observations
  pub answer : r ≡ some (match_of lap)

write_covered-Ended :
    (o : Observation) (previous end : Boundary) (complete : Bool) (t t' : Tables)
    (r : Option CanonicalLapMatch)
    → write_covered previous end o complete (record t { boundaries = end ∷ t.boundaries })
      ≡ returns r t'
    → Ended o previous end t r t'
unfolding write_covered lap_row
write_covered-Ended o previous end complete t t' r e =
    let t1 : Tables = record t { boundaries = end ∷ t.boundaries } in
    let passings =
      lap_passings end.source_heat_id end.participant_id previous.provider_us end.provider_us t1 in
    let lap = lap_row previous end o complete (crosses_pit o passings) in
    let (laps, boundaries, observations, answer) =
      store_lap_lem lap previous end o passings t1 t' r e in
    record {
      lap = lap;
      spans = λ next later. record {
        next = next;
        later = later;
        starts_at = refl;
        ends_at = refl;
        ordinal = refl;
        started = refl;
        finished = refl;
        duration = omega arith;
      };
      heat = refl;
      participant = refl;
      boundaries = boundaries;
      laps = laps;
      observations = observations;
      answer = answer;
    }

write_lap-Ended :
    (o : Observation) (previous end : Boundary) (t t' : Tables) (r : Option CanonicalLapMatch)
    → write_lap previous end o (record t { boundaries = end ∷ t.boundaries }) ≡ returns r t'
    → Ended o previous end t r t'
unfolding write_lap
write_lap-Ended o previous end t t' r e =
    let t1 : Tables = record t { boundaries = end ∷ t.boundaries } in
    let (complete, t2, e2, r2) =
      >>=-eq-returns (coverage_complete previous) (write_covered previous end o) e in
    write_covered-Ended o previous end complete t t' r
      (rw (coverage_complete_lem previous t1 e2) at r2)

insert_finish_lem :
    (b : Boundary) (t : Tables) {t' : Tables}
    → insert_finish b t ≡ returns tt t'
    → t' ≡ record t { boundaries = b ∷ t.boundaries }
unfolding insert_finish
insert_finish_lem b t e = ground arith

after_finish-Ended :
    (o : Observation) (previous end : Boundary) (t t1 t' : Tables) (r : Option CanonicalLapMatch)
    → t1 ≡ record t { boundaries = end ∷ t.boundaries }
    → write_lap previous end o t1 ≡ returns r t'
    → Ended o previous end t r t'
after_finish-Ended o previous end t t1 t' r left e =
    write_lap-Ended o previous end t t' r
      (subst (λ x. write_lap previous end o x ≡ returns r t') left e)

finish_then_lap-Ended :
    (o : Observation) (previous end : Boundary) (t t' : Tables) (r : Option CanonicalLapMatch)
    → (insert_finish end >> write_lap previous end o) t ≡ returns r t'
    → Ended o previous end t r t'
finish_then_lap-Ended o previous end t t' r e =
    let (t1, e1, r1) = >>-eq-returns (insert_finish end) (write_lap previous end o) e in
    after_finish-Ended o previous end t t1 t' r (insert_finish_lem end t e1) r1

-- A passing behind the latest boundary ends a lap; an earlier one, or one that is a boundary, does
-- nothing.
pub end_lap-cases :
    (participant : String) (us : ℕ) (o : Observation) (previous : Boundary) (t t' : Tables)
    (r : Option CanonicalLapMatch)
    → end_lap participant us o previous t ≡ returns r t'
    → ((t' ≡ t) × (r ≡ none))
      ⊎ ((previous.provider_us < us)
          × Ended o previous
              (passing_row (previous.ordinal + 1) (finish_kind o) participant us o)
              t
              r
              t')
unfolding end_lap
end_lap-cases participant us o previous t t' r e = elim (Bool-cases (leb us previous.provider_us)) [
  | inl early ↦ inl (ground (arith, early))
  | inr later ↦
      elim (Bool-cases
        (any (λ b. same_observation b.passing_observation_id (some o.id)) t.boundaries)) [
          | inl old ↦ inl (ground (arith, later, old))
          | inr new ↦
              let end = passing_row (previous.ordinal + 1) (finish_kind o) participant us o in
              inr (
                ground (arith, later),
                finish_then_lap-Ended o previous end t t' r (rw (later, new) at e),
              )
        ]
]
