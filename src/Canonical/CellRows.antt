-- ===== src/Canonical/CellRows.antt =====
-- The rows of the laps while a cell is attached (`attach_last_cell` of
-- server/timing/canonical_laps.py).
use balchug_racing.Base.{
  ℕ, ◌≡◌, refl, sym, ap, ◌∙◌, inl, inr, String, Bool, true, false, ◌&&◌, List, [], ◌∷◌, arith, ◌==◌,
  ==_iff, Bool-cases, any, filter, update, str_eq_iff,
}
use balchug_racing.Canonical.State.{LapId, Lap, Tables, returns, ◌>>◌}
use balchug_racing.Canonical.Duration.{Value}
use balchug_racing.Canonical.Passing.{same_lap, >>-eq-returns}
use balchug_racing.Canonical.LastCell.{
  is_pending, has_cell, is_open, with_last_cell, SectorCell, attach_sector, attach_sectors,
}

-- no two laps have the same id, the `PRIMARY KEY` of `canonical_laps`
abbrev pub IsKeyed : List Lap → Type 0
IsKeyed [] = Unit
IsKeyed (l ∷ ls) = (any (λ m. same_lap m.id l.id) ls ≡ false) × IsKeyed ls

attach_sector-laps :
    (lap : LapId) (sources : ℕ → SectorCell) (n : ℕ) (t t' : Tables)
    → attach_sector lap sources n t ≡ returns tt t'
    → t'.laps ≡ t.laps
unfolding attach_sector
attach_sector-laps lap sources n t t' e = ground arith

pub attach_sectors-laps :
    (lap : LapId) (sources : ℕ → SectorCell) (t t' : Tables)
    → attach_sectors lap sources t ≡ returns tt t'
    → t'.laps ≡ t.laps
unfolding attach_sectors
attach_sectors-laps lap sources t t' e =
    let (t1, e1, r1) =
      >>-eq-returns (attach_sector lap sources 1)
        (attach_sector lap sources 2 >> attach_sector lap sources 3) e in
    let (t2, e2, r2) =
      >>-eq-returns (attach_sector lap sources 2) (attach_sector lap sources 3) r1 in
    attach_sector-laps lap sources 3 t2 t' r2
    ∙ attach_sector-laps lap sources 2 t1 t2 e2
    ∙ attach_sector-laps lap sources 1 t t1 e1

-- a single row that a filter keeps passes its test, and what it is tested for beside
pub any-filter :
    (p q : Lap → Bool) (l : Lap) (rest laps : List Lap)
    → filter p laps ≡ l ∷ rest
    → q l ≡ true
    → any q laps ≡ true
any-filter p q l rest [] e h = absurd (ground arith)
any-filter p q l rest (x ∷ xs) e h = elim (Bool-cases (p x)) [
  | inl hit ↦ let same : x ≡ l = ground (arith, hit, e) in rw same (ground (arith, h))
  | inr miss ↦ ground (arith, any-filter p q l rest xs (rw miss at e) h)
]

pub holds-filter :
    (p : Lap → Bool) (l : Lap) (rest laps : List Lap) → filter p laps ≡ l ∷ rest → p l ≡ true
holds-filter p l rest [] e = absurd (ground arith)
holds-filter p l rest (x ∷ xs) e = elim (Bool-cases (p x)) [
  | inl hit ↦ let same : x ≡ l = ground (arith, hit, e) in rw (← same) hit
  | inr miss ↦ holds-filter p l rest xs (rw miss at e)
]

same_lap-eq : (a b : LapId) → same_lap a b ≡ true → same_lap b a ≡ true
same_lap-eq a b h =
    let ha = (==_iff a.heat b.heat).0 (ground arith) in
    let hp = (str_eq_iff a.participant b.participant).0 (ground arith) in
    let ho = (==_iff a.observation b.observation).0 (ground arith) in
    ground (
      arith,
      (==_iff b.heat a.heat).1 (sym ha),
      (str_eq_iff b.participant a.participant).1 (sym hp),
      (==_iff b.observation a.observation).1 (sym ho),
    )

same_lap_self : (a : LapId) → same_lap a a ≡ true
same_lap_self a = ground (
  arith,
  (==_iff a.heat a.heat).1 refl,
  (str_eq_iff a.participant a.participant).1 refl,
  (==_iff a.observation a.observation).1 refl,
)

update-open_none :
    (id : LapId) (f : Lap → Lap) (laps : List Lap)
    → any (λ m. same_lap m.id id) laps ≡ false
    → update (is_open id) f laps ≡ laps
update-open_none id f [] h = refl
update-open_none id f (x ∷ xs) h = ground (arith, update-open_none id f xs)

filter_none : (p : Lap → Bool) (laps : List Lap) → any p laps ≡ false → filter p laps ≡ []
filter_none p [] h = refl
filter_none p (x ∷ xs) h = ground (arith, filter_none p xs)

-- the row that is attached is linked
attached-linked :
    (heat : ℕ) (participant : String) (us observed cell tracker_us : ℕ) (raw : Value) (l : Lap)
    → is_pending heat participant us observed l ≡ true
    → ((with_last_cell cell raw us tracker_us l).source_heat_id == heat
        && has_cell cell (with_last_cell cell raw us tracker_us l))
      ≡ true
unfolding with_last_cell
attached-linked heat participant us observed cell tracker_us raw l h =
    ground (arith, (==_iff cell cell).1 refl)

pub pending-open :
    (heat : ℕ) (participant : String) (us observed : ℕ) (l : Lap)
    → is_pending heat participant us observed l ≡ true
    → is_open l.id l ≡ true
pending-open heat participant us observed l h = ground (arith, same_lap_self l.id)

-- a filter of rows the first of which is kept, or not
filter_keeps :
    {A : Type 0} (p : A → Bool) (x : A) (xs : List A)
    → p x ≡ true
    → filter p (x ∷ xs) ≡ x ∷ filter p xs
filter_keeps p x xs h = rw h refl

filter_drops :
    {A : Type 0} (p : A → Bool) (x : A) (xs : List A)
    → p x ≡ false
    → filter p (x ∷ xs) ≡ filter p xs
filter_drops p x xs h = rw h refl

update_changes :
    {A : Type 0} (p : A → Bool) (f : A → A) (x : A) (xs : List A)
    → p x ≡ true
    → update p f (x ∷ xs) ≡ f x ∷ update p f xs
update_changes p f x xs h = rw h refl

update_skips :
    {A : Type 0} (p : A → Bool) (f : A → A) (x : A) (xs : List A)
    → p x ≡ false
    → update p f (x ∷ xs) ≡ x ∷ update p f xs
update_skips p f x xs h = rw h refl

linked_none :
    (heat cell : ℕ) (laps : List Lap)
    → any (has_cell cell) laps ≡ false
    → filter (λ x. x.source_heat_id == heat && has_cell cell x) laps ≡ []
linked_none heat cell [] h = refl
linked_none heat cell (x ∷ xs) h = ground (arith, linked_none heat cell xs)

-- the laps with the cell, after the one pending lap got it
pub linked_laps :
    (heat : ℕ) (participant : String) (us observed cell tracker_us : ℕ) (raw : Value) (l : Lap)
    (laps : List Lap)
    → filter (is_pending heat participant us observed) laps ≡ l ∷ []
    → IsKeyed laps
    → any (has_cell cell) laps ≡ false
    → filter
        (λ x. x.source_heat_id == heat && has_cell cell x)
        (update (is_open l.id) (with_last_cell cell raw us tracker_us) laps)
      ≡ with_last_cell cell raw us tracker_us l ∷ []
linked_laps heat participant us observed cell tracker_us raw l [] e keyed free =
    absurd (ground arith)
linked_laps heat participant us observed cell tracker_us raw l (x ∷ xs) e keyed free =
    elim (Bool-cases (is_pending heat participant us observed x)) [
      | inl hit ↦
          let same : x ≡ l = ground (arith, hit, e) in
          let open_x : is_open l.id x ≡ true =
            rw same (pending-open heat participant us observed l (rw same at hit)) in
          let rest_same : update (is_open l.id) f xs ≡ xs =
            update-open_none l.id f xs (rw same at keyed.0) in
          let rest_free : any (has_cell cell) xs ≡ false = ground (arith, free) in
          ap (filter linked) (update_changes (is_open l.id) f x xs open_x)
          ∙ filter_keeps linked (f x) (update (is_open l.id) f xs)
              (attached-linked heat participant us observed cell tracker_us raw x hit)
          ∙ rw (rest_same, same) (ap (λ r. f l ∷ r) (linked_none heat cell xs rest_free))
      | inr miss ↦
          let rest : filter (is_pending heat participant us observed) xs ≡ l ∷ [] = rw miss at e in
          let free_x : has_cell cell x ≡ false = ground (arith, free) in
          let rest_free : any (has_cell cell) xs ≡ false = ground (arith, free) in
          let closed : is_open l.id x ≡ false = elim (Bool-cases (same_lap x.id l.id)) [
            | inl twin ↦ absurd (
                ground (
                  arith,
                  keyed.0,
                  any-filter (is_pending heat participant us observed) (λ m. same_lap m.id x.id) l
                      [] xs rest (same_lap-eq x.id l.id twin),
                ))
            | inr apart ↦ ground (arith, apart)
          ] in
          ap (filter linked) (update_skips (is_open l.id) f x xs closed)
          ∙ filter_drops linked x (update (is_open l.id) f xs) (ground (arith, free_x))
          ∙ linked_laps heat participant us observed cell tracker_us raw l xs rest keyed.1 rest_free
    ]
  where
    f : Lap → Lap
    f = with_last_cell cell raw us tracker_us

    linked : Lap → Bool
    linked y = y.source_heat_id == heat && has_cell cell y
