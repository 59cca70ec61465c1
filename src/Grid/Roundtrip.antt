-- ===== src/Grid/Roundtrip.antt =====
-- About a checkpoint and the grid that is restored from it (`snapshot` and `restore_snapshot` of
-- server/timing/result_grid.py).
use balchug_racing.Base.{
  ℕ, suc, ◌≡◌, refl, sym, ap, ◌∙◌, inl, inr, true, false, not, ◌&&◌, Option, some, List, [], ◌∷◌,
  ◌++◌, ltb, leb, ◌==◌, length, is_some, arith, Bool-cases,
}
use mathlib.Core.List.{append_assoc, append-nil}
use balchug_racing.Base.Dict.{Dict, lookup, nat_eq, string_eq, is_dict}
use balchug_racing.Base.Ordered.{
  put_in_order, sorted_items, all_items-sorted_items, lookup-sorted_items, sorted_items-is_dict,
  lookup-before, insert-end,
}
use balchug_racing.Wire.Json.{Json, to_list, to_items}
use balchug_racing.Grid.Text.{Texts}
use balchug_racing.Grid.Columns.{result_columns}
use balchug_racing.Grid.Reducer.{
  ResultCell, Cells, ResultGrid, schema_conflicts_of, or_no_cells, is_none, is_empty,
}
use balchug_racing.Grid.Checkpoint.{
  checkpoint_natural, cells_from, checkpoint_rows, all_lists, lists, cell_fields, row_fields,
  snapshot, restore_fields, restore_snapshot,
}
use balchug_racing.Grid.Numbers.{parse_digits-str_nat}
use balchug_racing.Grid.Agreement.{checkpoint_conflicts-sorted_items, same_conflicts-sorted_items}
use balchug_racing.Grid.Rows.{all_dicts, are_dicts}
use balchug_racing.Grid.Wellformed.{IsGrid}

to_list-to_items : (js : List Json) → to_list (to_items js) ≡ js
to_list-to_items [] = refl
to_list-to_items (j ∷ js) = ap (λ ks. j ∷ ks) (to_list-to_items js)

all_lists-lists : (changes : List (List Json)) → all_lists (to_list (lists changes)) ≡ some changes
unfolding all_lists
all_lists-lists [] = refl
all_lists-lists (js ∷ changes) = rw (to_list-to_items js, all_lists-lists changes) refl

length-lists : (changes : List (List Json)) → length (to_list (lists changes)) ≡ length changes
length-lists [] = refl
length-lists (js ∷ changes) = ap suc (length-lists changes)

cells_from-cell_fields :
    (cells done : Cells)
    → is_dict (done ++ cells) ≡ true
    → cells_from (cell_fields cells) done ≡ some (done ++ cells)
unfolding cells_from cell_fields checkpoint_natural
cells_from-cell_fields [] done h = ap some (sym (append-nil done))
cells_from-cell_fields ((c, cell) ∷ cells) done h =
    let middle : (done ++ (c, cell) ∷ []) ++ cells ≡ done ++ (c, cell) ∷ cells =
      append_assoc done ((c, cell) ∷ []) cells in
    rw
      (
        parse_digits-str_nat c,
        to_list-to_items cell.presentation,
        insert-end c cell done (lookup-before c cell done cells h),
      )
      (cells_from-cell_fields cells (done ++ (c, cell) ∷ []) (ap is_dict middle ∙ h)
        ∙ ap some middle)

-- each row with its cells in order
abbrev pub sorted_cells : Dict ℕ Cells → Dict ℕ Cells
sorted_cells [] = []
sorted_cells ((r, cells) ∷ rows) = (r, sorted_items ltb cells) ∷ sorted_cells rows

checkpoint_rows-row_fields :
    (rows done : Dict ℕ Cells)
    → all_dicts rows ≡ true
    → is_dict (done ++ sorted_cells rows) ≡ true
    → checkpoint_rows (row_fields rows) done ≡ some (done ++ sorted_cells rows)
unfolding checkpoint_rows row_fields checkpoint_natural
checkpoint_rows-row_fields [] done a h = ap some (sym (append-nil done))
checkpoint_rows-row_fields ((r, cells) ∷ rows) done a h =
    let ordered : Cells = sorted_items ltb cells in
    let middle : (done ++ (r, ordered) ∷ []) ++ sorted_cells rows
        ≡ done ++ (r, ordered) ∷ sorted_cells rows =
      append_assoc done ((r, ordered) ∷ []) (sorted_cells rows) in
    let read = cells_from-cell_fields ordered [] (sorted_items-is_dict ltb cells (ground arith)) in
    rw
      (
        parse_digits-str_nat r,
        read,
        insert-end r ordered done (lookup-before r ordered done (sorted_cells rows) h),
      )
      (checkpoint_rows-row_fields rows (done ++ (r, ordered) ∷ []) (ground arith)
          (ap is_dict middle ∙ h)
        ∙ ap some middle)

lookup-sorted_cells :
    (r c : ℕ) (rows : Dict ℕ Cells)
    → all_dicts rows ≡ true
    → lookup c (or_no_cells (lookup r (sorted_cells rows))) ≡ lookup c (or_no_cells (lookup r rows))
lookup-sorted_cells r c [] a = refl
lookup-sorted_cells r c ((j, cells) ∷ rows) a = elim (Bool-cases (r == j)) [
  | inl hit ↦ rw hit (lookup-sorted_items ltb c cells (ground arith))
  | inr miss ↦ rw miss (lookup-sorted_cells r c rows (ground arith))
]

some-sorted_cells :
    (r : ℕ) (rows : Dict ℕ Cells) → is_some (lookup r (sorted_cells rows)) ≡ is_some (lookup r rows)
some-sorted_cells r [] = refl
some-sorted_cells r ((j, cells) ∷ rows) = ground (arith, some-sorted_cells r rows)

sorted_cells-is_dict :
    (rows : Dict ℕ Cells) → is_dict rows ≡ true → is_dict (sorted_cells rows) ≡ true
sorted_cells-is_dict [] h = refl
sorted_cells-is_dict ((r, cells) ∷ rows) h =
    rw (some-sorted_cells r rows) (ground (arith, sorted_cells-is_dict rows))

put_in_order-is_empty :
    (r : ℕ) (cells : Cells) (rows : Dict ℕ Cells)
    → is_empty (sorted_cells (put_in_order ltb r cells rows)) ≡ false
put_in_order-is_empty r cells [] = refl
put_in_order-is_empty r cells ((j, old) ∷ rows) = elim (Bool-cases (ltb r j)) [
  | inl first ↦ rw first refl
  | inr later ↦ rw later refl
]

sorted_cells-is_empty :
    (rows : Dict ℕ Cells) → is_empty (sorted_cells (sorted_items ltb rows)) ≡ is_empty rows
unfolding sorted_items
sorted_cells-is_empty [] = refl
sorted_cells-is_empty ((r, cells) ∷ rows) = put_in_order-is_empty r cells (sorted_items ltb rows)

-- the same grid, with its rows and cells in the order of their indexes
abbrev pub in_order : ResultGrid → ResultGrid
in_order g = record g { rows = sorted_cells (sorted_items ltb g.rows) }

abbrev pub cell : ℕ → ℕ → ResultGrid → Option ResultCell
cell r c g = lookup c (or_no_cells (lookup r g.rows))

cell-in_order :
    (g : ResultGrid) (r c : ℕ) → are_dicts g.rows ≡ true → cell r c (in_order g) ≡ cell r c g
cell-in_order g r c h =
    let ordered = sorted_items ltb g.rows in
    lookup-sorted_cells r c ordered (all_items-sorted_items ltb _ g.rows (ground arith))
    ∙ ap (λ o. lookup c (or_no_cells o)) (lookup-sorted_items ltb r g.rows (ground arith))

checkpoint_rows-in_order :
    (rows : Dict ℕ Cells)
    → are_dicts rows ≡ true
    → checkpoint_rows (row_fields (sorted_items ltb rows)) []
      ≡ some (sorted_cells (sorted_items ltb rows))
checkpoint_rows-in_order rows h =
    checkpoint_rows-row_fields (sorted_items ltb rows) []
      (all_items-sorted_items ltb _ rows (ground arith))
      (sorted_cells-is_dict (sorted_items ltb rows) (sorted_items-is_dict ltb rows (ground arith)))

restore_snapshot-in_order :
    (t : Texts) (g : ResultGrid) → IsGrid t g → restore_snapshot t (snapshot g) ≡ some (in_order g)
unfolding restore_snapshot restore_fields snapshot checkpoint_natural
restore_snapshot-in_order t g h =
    let kept : g.schema_conflicts ≡ schema_conflicts_of (result_columns t g.layout) =
      h.shaped.conflicts ∙ ap schema_conflicts_of h.shaped.columns in
    let few : leb (length (to_list (lists g.metadata_changes))) 200 ≡ true =
      rw (length-lists g.metadata_changes) (ground (arith, h.bounded)) in
    let laid : not (is_none g.layout && not (is_empty g.rows)) ≡ true =
      ground (arith, h.shaped.is_settled) in
    let live : not (g.schema_pending && not (is_empty g.rows)) ≡ true =
      ground (arith, h.shaped.is_settled) in
    rw
      (
        kept,
        checkpoint_conflicts-sorted_items t g.layout,
        same_conflicts-sorted_items t g.layout,
        few,
        all_lists-lists g.metadata_changes,
        checkpoint_rows-in_order g.rows h.shaped.rows,
        sorted_cells-is_empty g.rows,
        laid,
        live,
      )
      (ap
        (λ cs. some (record (in_order g) {
          columns = cs;
          schema_conflicts = schema_conflicts_of (result_columns t g.layout);
        }))
        (sym h.shaped.columns))

-- The checkpoint of a grid that the reducer keeps is accepted, and restores the layout, the columns, the
-- conflicts, the metadata, the generation and the pending state of the grid, and each of its cells.
pub restore_snapshot-snapshot :
    (t : Texts) (g : ResultGrid)
    → IsGrid t g
    → (restore_snapshot t (snapshot g) ≡ some (in_order g))
      × ((r c : ℕ) → cell r c (in_order g) ≡ cell r c g)
restore_snapshot-snapshot t g h =
    (restore_snapshot-in_order t g h, λ r c. cell-in_order g r c h.shaped.rows)
