-- ===== src/Canonical/Keeps.antt =====
-- About `_initial_boundary` of server/timing/canonical_laps.py and the chronology of a car.
use balchug_racing.Base.{
  ℕ, ◌≡◌, ◌≢◌, refl, sym, ◌∙◌, inl, inr, String, Bool, true, false, Option, none, some, List, [],
  ◌∷◌, arith, ==_iff, Bool-cases, any, find, filter, All, str_eq_iff,
}
use mathlib.Core.Path.{subst₂}
use balchug_racing.Canonical.State.{Boundary, BoundaryId, Lap, Observation, Green, Tables, returns}
use balchug_racing.Canonical.Boundary.{
  of_car, latest, same_boundary_id, conflicts, insert_or_ignore, heat_start_row, insert_heat_start,
  passing_row, insert_coverage_start, initial_boundary, begin_at_signal, begin_at_green,
  begin_unless,
}
use balchug_racing.Canonical.Chronology.{
  lap_of, Tiles, IsNamed, Chronology, latest-Tiles, filter-of_car, of_car_self,
}

-- What looking for the boundary before a passing leaves: a chronology with the same observations in
-- which the car has boundaries, and the answer is the latest of them.
pub record Begun (heat : ℕ) (participant : String) (t : Tables) (b : Boundary) (t' : Tables)
    : Type 0 where
  pub good : Chronology t'
  pub seen : t'.observations ≡ t.observations
  pub older : List Boundary
  pub newest : filter (of_car heat participant) t'.boundaries ≡ b ∷ older

-- a first boundary of a car
first-Chronology :
    (heat : ℕ) (participant : String) (b : Boundary) (t : Tables)
    → Chronology t
    → filter (of_car heat participant) t.boundaries ≡ []
    → IsNamed b
    → b.source_heat_id ≡ heat
    → b.participant_id ≡ participant
    → b.ordinal ≡ 0
    → Chronology (record t { boundaries = b ∷ t.boundaries })
first-Chronology heat participant b t h empty named at by zeroth = record {
  tiles = λ k p. by_car k p (of_car k p b) refl;
  named = (named, h.named);
}
  where
    alone : (ls : List Lap) → Tiles [] ls → Tiles (b ∷ []) ls
    alone [] u = zeroth
    alone (l ∷ ls) u = elim u [ ]

    own :
        Tiles
          (filter (of_car heat participant) (b ∷ t.boundaries))
          (filter (lap_of heat participant) t.laps)
    own = rw (of_car_self heat participant b at by) (
        rw empty (
          alone (filter (lap_of heat participant) t.laps) (rw empty at (h.tiles heat participant))))

    by_car :
        (k : ℕ) (p : String) (mine : Bool)
        → of_car k p b ≡ mine
        → Tiles (filter (of_car k p) (b ∷ t.boundaries)) (filter (lap_of k p) t.laps)
    by_car k p false e = rw e (h.tiles k p)
    by_car k p true e =
        let (hk, hp) = filter-of_car k p b e in
        subst₂
          (λ k' p'. Tiles (filter (of_car k' p') (b ∷ t.boundaries)) (filter (lap_of k' p') t.laps))
          (sym at ∙ hk) (sym by ∙ hp) own

same_boundary_id→eq :
    (a b : BoundaryId)
    → same_boundary_id a b ≡ true
    → (a.heat ≡ b.heat) × (a.participant ≡ b.participant)
same_boundary_id→eq a b h = (
  (==_iff a.heat b.heat).0 (ground arith),
  (str_eq_iff a.participant b.participant).0 (ground arith),
)

-- the row read back by its id is the one that was inserted
named_elsewhere :
    (heat : ℕ) (participant : String) (new b : Boundary) (rows : List Boundary)
    → All IsNamed rows
    → filter (of_car heat participant) rows ≡ []
    → IsNamed new
    → new.source_heat_id ≡ heat
    → new.participant_id ≡ participant
    → find (λ r. same_boundary_id r.id new.id) rows ≢ some b
named_elsewhere heat participant new b [] h empty named at by e = ground arith
named_elsewhere heat participant new b (r ∷ rows) h empty named at by e =
    elim (Bool-cases (of_car heat participant r)) [
      | inl mine ↦ ground (arith, mine, empty)
      | inr other ↦ elim (Bool-cases (same_boundary_id r.id new.id)) [
        | inl same ↦
            let (eh, ep) = same_boundary_id→eq r.id new.id same in
            let mine =
              of_car_self heat participant r (sym h.0.0 ∙ eh ∙ named.0 ∙ at)
                (sym h.0.1 ∙ ep ∙ named.1 ∙ by) in
            ground (arith, mine, other)
        | inr apart ↦
            named_elsewhere heat participant new b rows h.1 (rw other at empty) named at by
              (rw apart at e)
      ]
    ]

insert_or_ignore-Begun :
    (heat : ℕ) (participant : String) (new : Boundary) (t : Tables) (b : Boundary) (t' : Tables)
    → Chronology t
    → filter (of_car heat participant) t.boundaries ≡ []
    → IsNamed new
    → new.source_heat_id ≡ heat
    → new.participant_id ≡ participant
    → new.ordinal ≡ 0
    → insert_or_ignore new t ≡ returns b t'
    → Begun heat participant t b t'
unfolding insert_or_ignore
insert_or_ignore-Begun heat participant new t b t' h empty named at by zeroth e =
    elim (Bool-cases (any (conflicts new) t.boundaries)) [
      | inl clash ↦
          let found : find (λ r. same_boundary_id r.id new.id) t.boundaries ≡ some b =
            ground (arith, clash) in
          absurd
            (named_elsewhere heat participant new b t.boundaries h.named empty named at by found)
      | inr free ↦
          let same : b ≡ new = ground (arith, free) in
          let left : t' ≡ record t { boundaries = new ∷ t.boundaries } = ground (arith, free) in
          rw (same, left)
            (record {
              good = first-Chronology heat participant new t h empty named at by zeroth;
              seen = refl;
              older = [];
              newest = rw (of_car_self heat participant new at by) (rw empty refl);
            })
    ]

module _ (participant : String) (us : ℕ) (o : Observation) (t : Tables) (b : Boundary) (t' : Tables)
    (h : Chronology t) where
  coverage-Begun :
      filter (of_car o.source_heat_id participant) t.boundaries ≡ []
      → insert_coverage_start participant us o t ≡ returns b t'
      → Begun o.source_heat_id participant t b t'
  unfolding insert_coverage_start passing_row
  coverage-Begun empty e =
      insert_or_ignore-Begun o.source_heat_id participant _ t b t' h empty (refl, refl) refl refl
        refl e

  signal-Begun :
      (green : Green) (signal : Option Observation)
      → filter (of_car o.source_heat_id participant) t.boundaries ≡ []
      → begin_at_signal participant us o green signal t ≡ returns b t'
      → Begun o.source_heat_id participant t b t'
  unfolding begin_at_signal insert_heat_start heat_start_row
  signal-Begun green none empty e = coverage-Begun empty e
  signal-Begun green (some signal) empty e =
      insert_or_ignore-Begun o.source_heat_id participant _ t b t' h empty (refl, refl) refl refl
        refl e

  green-Begun :
      (green : Option Green)
      → filter (of_car o.source_heat_id participant) t.boundaries ≡ []
      → begin_at_green participant us o green t ≡ returns b t'
      → Begun o.source_heat_id participant t b t'
  unfolding begin_at_green
  green-Begun none empty e = coverage-Begun empty e
  green-Begun (some green) empty e = signal-Begun green _ empty e

  unless-Begun :
      (rows : List Boundary) (current : Option Boundary)
      → filter (of_car o.source_heat_id participant) t.boundaries ≡ rows
      → latest rows ≡ current
      → begin_unless participant us o current t ≡ returns b t'
      → Begun o.source_heat_id participant t b t'
  unfolding begin_unless latest
  unless-Begun [] none er el e = green-Begun _ er e
  unless-Begun [] (some a) er el e = absurd (ground arith)
  unless-Begun (a ∷ rows) current er el e =
      let top = latest-Tiles a rows _ (rw er at (h.tiles o.source_heat_id participant)) in
      let cur : current ≡ some a = sym el ∙ top in
      let found : (a ≡ b) × (t ≡ t') = ground (arith, rw cur at e) in
      rw (← found.0, ← found.1) (record { good = h; seen = refl; older = rows; newest = er })

  -- Looking for the boundary before a passing keeps the chronology, and finds the latest.
  pub initial_boundary-Begun :
      initial_boundary participant us o t ≡ returns b t' → Begun o.source_heat_id participant t b t'
  unfolding initial_boundary
  initial_boundary-Begun e = unless-Begun _ _ refl refl e
