-- ===== src/Grid/Tests.antt =====
-- A grid with a layout of three columns and two rows (server/timing/result_grid.py).
use balchug_racing.Base.{
  none, ℕ, ◌≡◌, refl, String, false, Option, some, [], ◌∷◌, ◌++◌, ◌-◌, if◌then◌else◌, length,
}
use balchug_racing.Base.Int.{pos, negsuc}
use balchug_racing.Wire.Json.{Json, boolean, integer, string, array, object, nil, field, to_items}
use balchug_racing.Grid.Text.{Texts}
use balchug_racing.Grid.Reducer.{
  is_empty, ResultGrid, new_grid, apply_snapshot, apply_changes, apply_layout_update, row_values,
  change_rows, schema_ready, drop,
}
use balchug_racing.Grid.Identity.{canonical, column_identity}
use balchug_racing.Grid.Checkpoint.{snapshot, restore_snapshot, all_rows}
use balchug_racing.Grid.Wellformed.{IsGrid}
use balchug_racing.Grid.Restored.{Step, Reachable, start, next, Reachable-IsGrid}
use balchug_racing.Grid.Roundtrip.{in_order, cell, restore_snapshot-snapshot}
use balchug_racing.Grid.Columns.{result_columns}
use balchug_racing.Grid.Positions.{positions}
use balchug_racing.Grid.Moved.{key_cell, apply_layout_update-moved}
use balchug_racing.Grid.Merging.{last_said, metadata_of, apply_changes-merged}

abbrev texts : Texts
texts = record { casefold = λ s. s; represent = λ _. "?" }

abbrev header : String → Json
header s = object (field "n" (string s) nil)

abbrev layout : Json
layout =
    object (field "h" (array (to_items (header "nr" ∷ header "laps" ∷ header "note" ∷ []))) nil)

abbrev change : ℕ → ℕ → Json → Json
change r c value = array (to_items (integer (pos r) ∷ integer (pos c) ∷ value ∷ []))

abbrev first_rows : Json
first_rows = array (
    to_items (
      change 4 0 (string "77")
      ∷ change 4 1 (integer (pos 12))
      ∷ change 2 1 (integer (pos 11))
      ∷ []))

abbrev payload : Json
payload = object (field "l" layout (field "r" first_rows nil))

abbrev filled : ResultGrid
filled = apply_snapshot texts payload new_grid

abbrev later : Option Json
later = some (
    array
      (to_items (change 4 1 (integer (pos 13)) ∷ array (to_items (integer (negsuc 0) ∷ [])) ∷ [])))

abbrev moved_layout : Json
moved_layout =
    object (field "h" (array (to_items (header "new" ∷ header "laps" ∷ header "nr" ∷ []))) nil)

-- the reads of a grid, in the order of its rows
rows_of_filled :
    all_rows filled
    ≡ (2, ("laps", integer (pos 11)) ∷ [])
      ∷ (4, ("start_number", string "77") ∷ ("laps", integer (pos 12)) ∷ [])
      ∷ []
unfolding all_rows apply_snapshot
rows_of_filled = refl

-- a new layout moves the cells of the columns that it keeps
moved :
    row_values (apply_layout_update texts moved_layout filled) 4
    ≡ ("start_number", string "77") ∷ ("laps", integer (pos 12)) ∷ []
unfolding row_values apply_layout_update apply_snapshot column_identity
moved = refl

-- two columns of one name become one, and the later cell is kept
abbrev two_notes : Json
two_notes = object (
    field "l"
      (object (field "h" (array (to_items (header "nr" ∷ header "note" ∷ header "note" ∷ []))) nil))
      (field "r"
        (array (to_items (change 4 1 (string "first") ∷ change 4 2 (string "second") ∷ []))) nil))

abbrev one_note : Json
one_note = object (field "h" (array (to_items (header "nr" ∷ header "note" ∷ []))) nil)

merged_notes :
    row_values (apply_layout_update texts one_note (apply_snapshot texts two_notes new_grid)) 4
    ≡ ("unknown:note:", string "second") ∷ []
unfolding row_values apply_layout_update apply_snapshot column_identity
merged_notes = refl

-- a negative cell is metadata
negative_cell : (apply_changes later filled).metadata_changes ≡ (integer (negsuc 0) ∷ []) ∷ []
unfolding apply_changes apply_snapshot
negative_cell = refl

filled-Reachable : Reachable texts filled
filled-Reachable = next new_grid filled start (Step.snapshot payload new_grid)

Reachable-IsGrid_example : IsGrid texts filled
Reachable-IsGrid_example = Reachable-IsGrid texts filled filled-Reachable

restore_snapshot-snapshot_example :
    (restore_snapshot texts (snapshot filled) ≡ some (in_order filled))
    × ((r c : ℕ) → cell r c (in_order filled) ≡ cell r c filled)
restore_snapshot-snapshot_example =
    restore_snapshot-snapshot texts filled (Reachable-IsGrid texts filled filled-Reachable)

abbrev saved_state : Json
saved_state = object (
    field "layout" layout (
      field "rows"
        (object (field "4" (object (field "0" (array (to_items (string "77" ∷ []))) nil)) nil))
        (field "metadata_changes" (array (to_items [])) (
          field "layout_generation" (integer (pos 1))
            (field "schema_pending" (boolean false) (field "schema_conflicts" (object nil) nil))))))

abbrev restored : ResultGrid
restored = record filled {
  rows = (4, (0, record { value = string "77"; presentation = [] }) ∷ []) ∷ [];
  layout_generation = 1;
}

saved_state-restored : restore_snapshot texts saved_state ≡ some restored
unfolding restore_snapshot apply_snapshot
saved_state-restored = refl

apply_changes-merged_example :
    let known = filled.metadata_changes ++ metadata_of (change_rows later) in
    ((r c : ℕ)
      → cell r c (apply_changes later filled) ≡ (
          if schema_ready filled
          then last_said r c (change_rows later) (cell r c filled)
          else cell r c filled))
    × ((apply_changes later filled).metadata_changes ≡ drop (length known - 200) known)
apply_changes-merged_example = apply_changes-merged later filled

apply_layout_update-moved_example :
    key_cell "laps" 4 (apply_layout_update texts moved_layout filled) ≡ (
      if is_empty (positions (canonical "laps") (result_columns texts moved_layout))
      then none
      else key_cell "laps" 4 filled)
unfolding result_columns apply_snapshot
apply_layout_update-moved_example =
    apply_layout_update-moved texts moved_layout filled
      (Reachable-IsGrid texts filled filled-Reachable) refl refl "laps" 4
