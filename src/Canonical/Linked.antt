-- ===== src/Canonical/Linked.antt =====
-- About a cell that is matched, attached and looked up (`match_last_cell`, `attach_last_cell` and
-- `linked_lap_for_last_cell` of server/timing/canonical_laps.py).
use mathlib.Core.Path.{subst}
use balchug_racing.Base.{
  ℕ, ◌≡◌, refl, sym, ap, ◌∙◌, inl, inr, String, true, false, ◌&&◌, Option, none, some, List, [],
  ◌∷◌, arith, ◌==◌, ==_iff, Bool-cases, any, filter, update, All,
}
use balchug_racing.Canonical.State.{Lap, Tables, CanonicalLapMatch, returns, exact}
use balchug_racing.Canonical.Duration.{Value, duration_us}
use balchug_racing.Canonical.Passing.{>>-eq-returns}
use balchug_racing.Canonical.Record.{match_of}
use balchug_racing.Canonical.LastCell.{
  is_pending, only_row, match_duration, match_last_cell, has_cell, linked_lap_for_last_cell,
  is_open, with_last_cell, attach_lap, SectorCell, attach_sectors, attach_duration,
  attach_last_cell,
}
use balchug_racing.Canonical.CellRows.{
  IsKeyed, attach_sectors-laps, any-filter, holds-filter, pending-open, linked_laps,
}

only_row-cases :
    (laps : List Lap) (m : CanonicalLapMatch)
    → only_row laps ≡ some m
    → (l : Lap) × (laps ≡ l ∷ []) × (m ≡ match_of l)
unfolding only_row
only_row-cases [] m h = absurd (ground arith)
only_row-cases (l ∷ []) m h = (l, refl, ground arith)
only_row-cases (l ∷ k ∷ ls) m h = absurd (ground arith)

-- the update of the lap, if it has no cell yet
attach_lap-open :
    (m : CanonicalLapMatch) (cell us : ℕ) (raw : Value) (t t' : Tables)
    → any (is_open m.id) t.laps ≡ true
    → attach_lap m cell raw us t ≡ returns tt t'
    → (any (has_cell cell) t.laps ≡ false)
      × (t'.laps ≡ update (is_open m.id) (with_last_cell cell raw us m.tracker_duration_us) t.laps)
unfolding attach_lap
attach_lap-open m cell us raw t t' opened e = elim (Bool-cases (any (has_cell cell) t.laps)) [
  | inl taken ↦ absurd (ground (arith, rw (opened, taken) at e))
  | inr free ↦ (free, ground (arith, rw (opened, free) at e))
]

with_last_cell-exact :
    (heat : ℕ) (participant : String) (us observed cell : ℕ) (raw : Value) (l : Lap)
    → is_pending heat participant us observed l ≡ true
    → (match_of (with_last_cell cell raw us l.tracker_duration_us l) ≡ match_of l)
      × ((with_last_cell cell raw us l.tracker_duration_us l).duration_reconciliation ≡ exact)
unfolding with_last_cell
with_last_cell-exact heat participant us observed cell raw l h =
    (refl, ground (arith, sym ((==_iff l.tracker_duration_us us).0 (ground (arith, h)))))

-- What a lap is linked to, and that its durations agree.
abbrev pub IsLinked : ℕ → ℕ → CanonicalLapMatch → Tables → Type 0
IsLinked heat cell m t =
    (linked_lap_for_last_cell heat cell t ≡ some m)
    × All (λ l. l.duration_reconciliation ≡ exact)
        (filter (λ l. l.source_heat_id == heat && has_cell cell l) t.laps)

only-IsLinked :
    (heat cell : ℕ) (l : Lap) (t : Tables)
    → filter (λ x. x.source_heat_id == heat && has_cell cell x) t.laps ≡ l ∷ []
    → l.duration_reconciliation ≡ exact
    → IsLinked heat cell (match_of l) t
unfolding linked_lap_for_last_cell only_row
only-IsLinked heat cell l t e h = (rw e refl, rw e (h, tt))

attach_duration-IsLinked :
    (heat : ℕ) (participant : String) (observed cell : ℕ) (raw : Value) (found : Option ℕ)
    (sources : ℕ → SectorCell) (m : CanonicalLapMatch) (t t' : Tables)
    → IsKeyed t.laps
    → match_duration heat participant found observed t ≡ some m
    → attach_duration m cell raw found sources t ≡ returns tt t'
    → IsLinked heat cell m t'
unfolding match_duration attach_duration
attach_duration-IsLinked heat participant observed cell raw none sources m t t' keyed h e =
    absurd (ground arith)
attach_duration-IsLinked heat participant observed cell raw (some us) sources m t t' keyed h e =
    let (l, one, is_l) =
      only_row-cases (filter (is_pending heat participant us observed) t.laps) m h in
    let (t1, e1, r1) = >>-eq-returns (attach_lap m cell raw us) (attach_sectors m.id sources) e in
    let pending = holds-filter (is_pending heat participant us observed) l [] t.laps one in
    let opened : any (is_open m.id) t.laps ≡ true = rw is_l (
      any-filter (is_pending heat participant us observed) (is_open l.id) l [] t.laps one
        (pending-open heat participant us observed l pending)) in
    let (free, updated) = attach_lap-open m cell us raw t t1 opened e1 in
    let (same, agrees) = with_last_cell-exact heat participant us observed cell raw l pending in
    let laps = attach_sectors-laps m.id sources t1 t' r1 ∙ updated in
    let only =
      linked_laps heat participant us observed cell l.tracker_duration_us raw l t.laps one keyed
        free in
    subst (λ k. IsLinked heat cell k t') (same ∙ sym is_l)
      (only-IsLinked heat cell (with_last_cell cell raw us l.tracker_duration_us l) t'
        (ap (filter (λ x. x.source_heat_id == heat && has_cell cell x)) (
            subst
              (λ k.
                t'.laps
                ≡ update (is_open k.id) (with_last_cell cell raw us k.tracker_duration_us) t.laps)
              is_l laps)
          ∙ only)
        agrees)

-- When `match_last_cell` finds a lap for a cell and `attach_last_cell` attaches the cell to it
-- without an error, `linked_lap_for_last_cell` finds that lap by the cell, and the durations of the
-- cell and of the tracker are recorded as equal. The ids of the laps are distinct.
pub attach_last_cell-IsLinked :
    (heat : ℕ) (participant : String) (raw : Value) (observed cell : ℕ) (sources : ℕ → SectorCell)
    (m : CanonicalLapMatch) (t t' : Tables)
    → IsKeyed t.laps
    → match_last_cell heat participant raw observed t ≡ some m
    → attach_last_cell m cell raw sources t ≡ returns tt t'
    → IsLinked heat cell m t'
unfolding match_last_cell attach_last_cell
attach_last_cell-IsLinked heat participant raw observed cell sources m t t' keyed h e =
    attach_duration-IsLinked heat participant observed cell raw (duration_us raw) sources m t t'
      keyed h e
