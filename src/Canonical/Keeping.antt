-- ===== src/Canonical/Keeping.antt =====
-- About a passing of the line (`record_tracker_passing` of
-- server/timing/canonical_laps.py) and the chronology of the cars.
use mathlib.Core.Path.{subst, subst₂}
use balchug_racing.Base.{
  ℕ, ◌+◌, ◌≡◌, ◌⊎◌, refl, sym, ap, ◌∙◌, inl, inr, String, Bool, true, false, Option, none, List,
  ◌∷◌, arith, ==_iff, if◌then◌else◌, Bool-cases, filter, str_eq_iff, All,
}
use balchug_racing.Canonical.State.{
  Boundary, Lap, Observation, Tables, CanonicalLapMatch, returns, pure,
}
use balchug_racing.Canonical.Boundary.{of_car, passing_row, initial_boundary, track_length_mm}
use balchug_racing.Canonical.Record.{end_lap, record_line, finish_kind, is_start_line}
use balchug_racing.Canonical.Chronology.{
  lap_of, Spans, Tiles, IsNamed, Chronology, filter-of_car, of_car_self,
}
use balchug_racing.Canonical.Keeps.{Begun, initial_boundary-Begun}
use balchug_racing.Canonical.Laps.{end_lap-cases, >>=-eq-returns}

lap_of_self :
    (heat : ℕ) (participant : String) (l : Lap)
    → l.source_heat_id ≡ heat
    → l.participant_id ≡ participant
    → lap_of heat participant l ≡ true
lap_of_self heat participant l h p =
    ground
      (arith, (str_eq_iff l.participant_id participant).1 p, (==_iff l.source_heat_id heat).1 h)

module _ (heat : ℕ) (participant : String) (b end : Boundary) (older : List Boundary) (lap : Lap)
    (t t' : Tables) (good : Chronology t)
    (newest : filter (of_car heat participant) t.boundaries ≡ b ∷ older) (spans : Spans b end lap)
    (named : IsNamed end) (at : end.source_heat_id ≡ heat) (by : end.participant_id ≡ participant)
    (lap_at : lap.source_heat_id ≡ heat) (lap_by : lap.participant_id ≡ participant) where
  own-Tiles :
      Tiles
        (filter (of_car heat participant) (end ∷ t.boundaries))
        (filter (lap_of heat participant) (lap ∷ t.laps))
  own-Tiles =
      rw
        (
          of_car_self heat participant end at by,
          lap_of_self heat participant lap lap_at lap_by,
          newest,
        )
        (spans, rw newest at (good.tiles heat participant))

  other-Tiles :
      (k : ℕ) (p : String)
      → of_car k p end ≡ false
      → Tiles (filter (of_car k p) (end ∷ t.boundaries)) (filter (lap_of k p) (lap ∷ t.laps))
  other-Tiles k p e =
      let same : lap_of k p lap ≡ of_car k p end = rw (lap_at, lap_by, at, by) refl in
      rw (e, same ∙ e) (good.tiles k p)

  any-Tiles :
      (k : ℕ) (p : String) (mine : Bool)
      → of_car k p end ≡ mine
      → Tiles (filter (of_car k p) (end ∷ t.boundaries)) (filter (lap_of k p) (lap ∷ t.laps))
  any-Tiles k p false e = other-Tiles k p e
  any-Tiles k p true e =
      let (hk, hp) = filter-of_car k p end e in
      subst₂
        (λ k' p'.
          Tiles (filter (of_car k' p') (end ∷ t.boundaries)) (filter (lap_of k' p') (lap ∷ t.laps)))
        (sym at ∙ hk) (sym by ∙ hp) own-Tiles

  next_lap-Chronology : t'.boundaries ≡ end ∷ t.boundaries → t'.laps ≡ lap ∷ t.laps → Chronology t'
  next_lap-Chronology eb el = record {
    tiles = λ k p.
        subst₂ (λ bs ls. Tiles (filter (of_car k p) bs) (filter (lap_of k p) ls)) (sym eb) (sym el)
          (any-Tiles k p (of_car k p end) refl);
    named = subst (All IsNamed) (sym eb) (named, good.named);
  }

-- What a passing of the line by a car leaves: a chronology, in which the car has a latest boundary,
-- and the same passing again would do nothing.
pub record Recorded (participant : String) (us : ℕ) (o : Observation) (t t' : Tables) : Type 0 where
  pub good : Chronology t'
  pub seen : t'.observations ≡ t.observations
  pub current : Boundary
  pub older : List Boundary
  pub newest : filter (of_car o.source_heat_id participant) t'.boundaries ≡ current ∷ older
  pub settled :
      (is_start_line (track_length_mm o.source_heat_id t) o ≡ true)
      ⊎ (end_lap participant us o current t' ≡ returns none t')

at_latest :
    (us : ℕ) (participant : String) (o : Observation) (b : Boundary) (t : Tables)
    → b.provider_us ≡ us
    → end_lap participant us o b t ≡ returns none t
unfolding end_lap
at_latest us participant o b t h = ground (arith, h)

grown_of_car :
    (heat : ℕ) (participant : String) (end b : Boundary) (older rows : List Boundary)
    → end.source_heat_id ≡ heat
    → end.participant_id ≡ participant
    → filter (of_car heat participant) rows ≡ b ∷ older
    → filter (of_car heat participant) (end ∷ rows) ≡ end ∷ b ∷ older
grown_of_car heat participant end b older rows at by newest =
    rw (of_car_self heat participant end at by, newest) refl

end_lap-Recorded :
    (participant : String) (us : ℕ) (o : Observation) (b : Boundary) (t0 t t' : Tables)
    (r : Option CanonicalLapMatch)
    → Begun o.source_heat_id participant t0 b t
    → end_lap participant us o b t ≡ returns r t'
    → Recorded participant us o t0 t'
unfolding passing_row
end_lap-Recorded participant us o b t0 t t' r begun e =
    elim (end_lap-cases participant us o b t t' r e) [
      | inl (same, nothing) ↦ record {
        good = subst Chronology (sym same) begun.good;
        seen = ap (λ x. x.observations) same ∙ begun.seen;
        current = b;
        older = begun.older;
        newest =
            ap (λ x. filter (of_car o.source_heat_id participant) x.boundaries) same ∙ begun.newest;
        settled = inr (
            subst₂ (λ q x. end_lap participant us o b x ≡ returns q x) nothing (sym same)
              (subst (λ x. end_lap participant us o b t ≡ returns r x) same e));
      }
      | inr (later, ended) ↦ record {
        good =
            next_lap-Chronology o.source_heat_id participant b _ begun.older ended.lap t t'
              begun.good begun.newest (ended.spans refl later) (refl, refl) refl refl ended.heat
              ended.participant ended.boundaries ended.laps;
        seen = ended.observations ∙ begun.seen;
        current = passing_row (b.ordinal + 1) (finish_kind o) participant us o;
        older = b ∷ begun.older;
        newest =
            ap (filter (of_car o.source_heat_id participant)) ended.boundaries
            ∙ grown_of_car o.source_heat_id participant _ b begun.older t.boundaries refl refl
                begun.newest;
        settled = inr (at_latest us participant o _ t' refl);
      }
    ]

pub record_line-Recorded :
    (participant : String) (us : ℕ) (o : Observation) (t t' : Tables) (r : Option CanonicalLapMatch)
    → Chronology t
    → record_line participant us o t ≡ returns r t'
    → Recorded participant us o t t'
unfolding record_line
record_line-Recorded participant us o t t' r good e =
    let (b, t1, e1, r1) =
      >>=-eq-returns (initial_boundary participant us o)
        (λ previous.
          if is_start_line (track_length_mm o.source_heat_id t) o
          then pure none
          else end_lap participant us o previous)
        e in
    let begun = initial_boundary-Begun participant us o t b t1 good e1 in
    elim (Bool-cases (is_start_line (track_length_mm o.source_heat_id t) o)) [
      | inl start ↦
          let left : t1 ≡ t' = ground (arith, rw start at r1) in
          subst (Recorded participant us o t) left (record {
            good = begun.good;
            seen = begun.seen;
            current = b;
            older = begun.older;
            newest = begun.newest;
            settled = inl start;
          })
      | inr elsewhere ↦ end_lap-Recorded participant us o b t t1 t' r begun (rw elsewhere at r1)
    ]
