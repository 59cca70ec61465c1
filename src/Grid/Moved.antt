-- ===== src/Grid/Moved.antt =====
-- About cells under a layout that changes (`apply_layout_update` of server/timing/result_grid.py).
use balchug_racing.Base.{
  ℕ, ◌≡◌, refl, sym, ap, ◌∙◌, inl, inr, String, true, false, Option, none, some, List, [], ◌∷◌,
  ◌==◌, ==_iff, if◌then◌else◌, arith, Bool-cases,
}
use balchug_racing.Base.Dict.{Dict, lookup, nat_eq, string_eq, is_dict, lookup-insert, beq_refl}
use balchug_racing.Wire.Json.{Json}
use balchug_racing.Grid.Text.{Texts}
use balchug_racing.Grid.Columns.{ResultColumn, result_columns}
use balchug_racing.Grid.Identity.{
  Identity, canonical, identity_eq, same_identity, same_identity_iff, column_identity,
}
use balchug_racing.Grid.Reducer.{
  ResultCell, Cells, ResultGrid, indexes_by_identity, place, move_cell, remap_cells, keep_row,
  remap_rows, or_no_cells, schema_ready, schema_conflicts_of, is_empty, apply_layout_update,
}
use balchug_racing.Grid.Rows.{lookup-all_dicts}
use balchug_racing.Grid.Wellformed.{IsGrid}
use balchug_racing.Grid.Positions.{
  positions, join, lookup-indexes_by_identity, positions-single, lookup-positions, has_identity,
  any-positions, result_columns-is_dict,
}

abbrev prefer : Option ResultCell → Option ResultCell → Option ResultCell
prefer none old = old
prefer (some new) old = some new

-- A layout `next` in which `i` has the one column `m`, after a layout `previous`.
module _ (i : Identity) (m : ℕ) (next previous : Dict ℕ ResultColumn)
    (one : positions i next ≡ m ∷ []) (next_dict : is_dict next ≡ true) where
  indexes : Dict Identity (List ℕ)
  indexes = indexes_by_identity next []

  -- a cell is placed in `m` just if its column is `i`
  lookup-place :
      (j : Identity) (new : ResultCell) (cells : Cells)
      → lookup m (place (lookup j indexes) new cells)
        ≡ (if same_identity i j then some new else lookup m cells)
  unfolding indexes
  lookup-place j new cells =
      rw (lookup-indexes_by_identity j next []) (elim (Bool-cases (same_identity i j)) [
        | inl here ↦
            let p : i ≡ j = (same_identity_iff i j).0 here in
            rw (here, ← p, one, lookup-insert m m new cells, beq_refl m) refl
        | inr other ↦ rw other (by_positions other (positions j next) refl)
      ])
    where
      by_positions :
          same_identity i j ≡ false
          → (ns : List ℕ) → positions j next ≡ ns
          → lookup m (place (join none ns) new cells) ≡ lookup m cells
      by_positions other [] e = refl
      by_positions other (n ∷ k ∷ ns) e = refl
      by_positions other (n ∷ []) e = elim (Bool-cases (m == n)) [
        | inr away ↦ rw (lookup-insert m n new cells, away) refl
        | inl both ↦
            let p : m ≡ n = (==_iff m n).0 both in
            let (c, found, q) = lookup-positions i m [] next next_dict one in
            let (d, also, r) = lookup-positions j n [] next next_dict e in
            let s : some c ≡ some d = sym found ∙ ap (λ k. lookup k next) p ∙ also in
            let u : c ≡ d = cc in
            let v : i ≡ j = q ∙ ap (λ a. column_identity a) u ∙ sym r in
            absurd (ground (arith, (same_identity_iff i j).1 v))
      ]

  lookup-move_cell :
      (o : Option ResultColumn) (new : ResultCell) (cells : Cells)
      → lookup m (move_cell indexes o new cells)
        ≡ (if has_identity i o then some new else lookup m cells)
  lookup-move_cell none new cells = refl
  lookup-move_cell (some c) new cells = lookup-place (column_identity c) new cells

  -- `i` has the one column `n` before: its cell is moved
  lookup-remap_cells :
      (n : ℕ) (old cells : Cells)
      → ((k : ℕ) → has_identity i (lookup k previous) ≡ (k == n))
      → is_dict old ≡ true
      → lookup m (remap_cells indexes previous old cells) ≡ prefer (lookup n old) (lookup m cells)
  unfolding remap_cells
  lookup-remap_cells n [] cells h u = refl
  lookup-remap_cells n ((k, new) ∷ old) cells h u =
      lookup-remap_cells n old (move_cell indexes (lookup k previous) new cells) h (ground arith)
      ∙ rw (lookup-move_cell (lookup k previous) new cells, h k)
          (elim (Bool-cases (k == n)) [
            | inl here ↦
                let p : k ≡ n = (==_iff k n).0 here in
                let fresh : lookup n old ≡ none = rw (← p) (ground arith) in
                rw (here, fresh, p, beq_refl n) refl
            | inr other ↦ let away : (n == k) ≡ false = ground arith in rw (other, away) refl
          ])

  -- `i` has no column before: nothing is moved to `m`
  lookup-remap_cells-none :
      (old cells : Cells)
      → ((k : ℕ) → has_identity i (lookup k previous) ≡ false)
      → lookup m (remap_cells indexes previous old cells) ≡ lookup m cells
  unfolding remap_cells
  lookup-remap_cells-none [] cells h = refl
  lookup-remap_cells-none ((k, new) ∷ old) cells h =
      lookup-remap_cells-none old (move_cell indexes (lookup k previous) new cells) h
      ∙ rw (lookup-move_cell (lookup k previous) new cells, h k) refl

module _ (next : Dict Identity (List ℕ)) (previous : Dict ℕ ResultColumn) where
  lookup-keep_row :
      (r j : ℕ) (cells : Cells) (rows : Dict ℕ Cells)
      → (r == j) ≡ false
      → lookup r (keep_row j cells rows) ≡ lookup r rows
  lookup-keep_row r j [] rows h = refl
  lookup-keep_row r j (c ∷ cells) rows h = rw (lookup-insert r j (c ∷ cells) rows, h) refl

  lookup-keep_row_here :
      (r : ℕ) (cells : Cells) (rows : Dict ℕ Cells)
      → lookup r rows ≡ none
      → or_no_cells (lookup r (keep_row r cells rows)) ≡ cells
  lookup-keep_row_here r [] rows h = rw h refl
  lookup-keep_row_here r (c ∷ cells) rows h =
      rw (lookup-insert r r (c ∷ cells) rows, beq_refl r) refl

  lookup-remap_rows-none :
      (r : ℕ) (old rows : Dict ℕ Cells)
      → lookup r old ≡ none
      → lookup r (remap_rows next previous old rows) ≡ lookup r rows
  unfolding remap_rows
  lookup-remap_rows-none r [] rows h = refl
  lookup-remap_rows-none r ((j, cells) ∷ old) rows h = elim (Bool-cases (r == j)) [
    | inl hit ↦ absurd (ground (arith, rw hit at h))
    | inr miss ↦
        lookup-remap_rows-none r old (keep_row j (remap_cells next previous cells []) rows)
          (rw miss at h)
        ∙ lookup-keep_row r j (remap_cells next previous cells []) rows miss
  ]

  -- each row is remapped by itself
  lookup-remap_rows :
      (r : ℕ) (old rows : Dict ℕ Cells)
      → is_dict old ≡ true
      → lookup r rows ≡ none
      → or_no_cells (lookup r (remap_rows next previous old rows))
        ≡ remap_cells next previous (or_no_cells (lookup r old)) []
  unfolding remap_rows remap_cells
  lookup-remap_rows r [] rows u h = rw h refl
  lookup-remap_rows r ((j, cells) ∷ old) rows u h =
      let moved : Cells = remap_cells next previous cells [] in
      elim (Bool-cases (r == j)) [
        | inr miss ↦ rw miss (
            lookup-remap_rows r old (keep_row j moved rows) (ground arith)
              (lookup-keep_row r j moved rows miss ∙ h))
        | inl hit ↦
            let p : r ≡ j = (==_iff r j).0 hit in
            let gone : lookup r old ≡ none = rw p (ground arith) in
            rw (hit, lookup-remap_rows-none r old (keep_row j moved rows) gone, ← p)
              (lookup-keep_row_here r moved rows h)
      ]

has_identity-one :
    (i : Identity) (n : ℕ) (cs : Dict ℕ ResultColumn)
    → is_dict cs ≡ true
    → positions i cs ≡ n ∷ []
    → (k : ℕ) → has_identity i (lookup k cs) ≡ (k == n)
has_identity-one i n cs u e k = elim (Bool-cases (k == n)) [
  | inl here ↦
      let p : k ≡ n = (==_iff k n).0 here in
      let (c, found, q) = lookup-positions i n [] cs u e in
      rw (here, p, found) ((same_identity_iff i (column_identity c)).1 q)
  | inr away ↦ elim (Bool-cases (has_identity i (lookup k cs))) [
    | inr other ↦ rw away other
    | inl has ↦ let among = any-positions i k cs has in absurd (ground (arith, rw e at among))
  ]
]

has_identity-none :
    (i : Identity) (cs : Dict ℕ ResultColumn)
    → positions i cs ≡ []
    → (k : ℕ) → has_identity i (lookup k cs) ≡ false
has_identity-none i cs e k = elim (Bool-cases (has_identity i (lookup k cs))) [
  | inr other ↦ other
  | inl has ↦ let among = any-positions i k cs has in absurd (ground (arith, rw e at among))
]

abbrev pub first_cell : List ℕ → Cells → Option ResultCell
first_cell [] cells = none
first_cell (n ∷ ns) cells = lookup n cells

-- the cell of a row under the first column of a key
abbrev pub key_cell : String → ℕ → ResultGrid → Option ResultCell
key_cell k r g = first_cell (positions (canonical k) g.columns) (or_no_cells (lookup r g.rows))

first_cell-remap_cells :
    (k : String) (next previous : Dict ℕ ResultColumn) (cells : Cells)
    → is_empty (schema_conflicts_of next) ≡ true
    → is_empty (schema_conflicts_of previous) ≡ true
    → is_dict next ≡ true
    → is_dict previous ≡ true
    → is_dict cells ≡ true
    → first_cell
        (positions (canonical k) next)
        (remap_cells (indexes_by_identity next []) previous cells [])
      ≡ (if is_empty (positions (canonical k) next)
          then none
          else first_cell (positions (canonical k) previous) cells)
unfolding indexes
first_cell-remap_cells k next previous cells cn cp un up uc =
    by_next (positions (canonical k) next) refl
  where
    i : Identity
    i = canonical k

    moved : Cells
    moved = remap_cells (indexes_by_identity next []) previous cells []

    by_previous :
        (m : ℕ)
        → positions i next ≡ m ∷ []
        → (ns : List ℕ) → positions i previous ≡ ns
        → lookup m moved ≡ first_cell ns cells
    by_previous m e [] f =
        lookup-remap_cells-none i m next previous e un cells [] (has_identity-none i previous f)
    by_previous m e (n ∷ []) f =
        lookup-remap_cells i m next previous e un n cells [] (has_identity-one i n previous up f) uc
        ∙ by_held (lookup n cells)
      where
        by_held : (o : Option ResultCell) → prefer o none ≡ o
        by_held none = refl
        by_held (some new) = refl
    by_previous m e (n ∷ k' ∷ ns) f =
        let single = positions-single k previous cp in absurd (ground (arith, rw f at single))

    by_next :
        (ns : List ℕ)
        → positions i next ≡ ns
        → first_cell ns moved
          ≡ (if is_empty ns then none else first_cell (positions i previous) cells)
    by_next [] e = refl
    by_next (m ∷ []) e = by_previous m e (positions i previous) refl
    by_next (m ∷ k' ∷ ns) e =
        let single = positions-single k next cn in absurd (ground (arith, rw e at single))

-- Under a new layout without conflicts, a grid that was ready reads in each row under each key the cell
-- that it read under that key before, wherever the column has moved, and no cell under a key that the
-- new layout does not have.
pub apply_layout_update-moved :
    (t : Texts) (layout : Json) (g : ResultGrid)
    → IsGrid t g
    → schema_ready g ≡ true
    → is_empty (schema_conflicts_of (result_columns t layout)) ≡ true
    → (k : String) (r : ℕ)
    → key_cell k r (apply_layout_update t layout g) ≡ (
        if is_empty (positions (canonical k) (result_columns t layout))
        then none
        else key_cell k r g)
unfolding apply_layout_update
apply_layout_update-moved t layout g h ready clear k r =
    let next : Dict ℕ ResultColumn = result_columns t layout in
    let before : is_dict g.columns ≡ true =
      ap is_dict h.shaped.columns ∙ result_columns-is_dict t g.layout in
    let agreed : is_empty (schema_conflicts_of g.columns) ≡ true =
      ap (λ d. is_empty d) (sym h.shaped.conflicts) ∙ ground arith in
    rw
      (
        clear,
        ready,
        lookup-remap_rows (indexes_by_identity next []) g.columns r g.rows []
            (ground (arith, h.shaped.rows)) refl,
      )
      (first_cell-remap_cells k next g.columns (or_no_cells (lookup r g.rows)) clear agreed
        (result_columns-is_dict t layout) before
        (lookup-all_dicts r g.rows (ground (arith, h.shaped.rows))))
