-- ===== src/Grid/Restored.antt =====
-- About what `restore_snapshot` of server/timing/result_grid.py accepts.
use mathlib.Core.Path.{subst}
use balchug_racing.Base.{
  ℕ, ◌≡◌, refl, Bool, true, false, not, ◌&&◌, Option, none, some, List, [], ◌∷◌, leb, length, arith,
}
use balchug_racing.Base.Dict.{Dict, insert, nat_eq, string_eq, is_dict, insert-is_dict}
use balchug_racing.Wire.Json.{
  Json, null, boolean, integer, float, string, array, object, Fields, nil, field, get,
}
use balchug_racing.Grid.Text.{Texts}
use balchug_racing.Grid.Columns.{result_columns}
use balchug_racing.Grid.Reducer.{
  Cells, ResultGrid, schema_conflicts_of, is_none, is_empty, set_layout, apply_snapshot,
  apply_changes, apply_layout_update, remove_rows, new_grid,
}
use balchug_racing.Grid.Checkpoint.{
  ◌>>=◌, ◌>>◌, require, checkpoint_natural, items_of, fields_of, boolean_of, checkpoint_conflicts,
  same_conflicts, all_lists, cell_of, cells_from, checkpoint_rows, layout_or_null, restore_fields,
  restore_snapshot,
}
use balchug_racing.Grid.Rows.{are_dicts, insert-are_dicts}
use balchug_racing.Grid.Wellformed.{
  IsGrid, apply_snapshot-IsGrid, apply_changes-IsGrid, apply_layout_update-IsGrid,
  set_layout-IsGrid, remove_rows-IsGrid,
}

pub bind-some :
    {A B : Type 0} (m : Option A) (f : A → Option B) (b : B)
    → (m >>= f) ≡ some b
    → (a : A) × (m ≡ some a) × (f a ≡ some b)
bind-some none f b h = absurd (ground arith)
bind-some (some a) f b h = (a, refl, h)

pub some-inj : {A : Type 0} (a b : A) → some a ≡ some b → a ≡ b
some-inj a b h = cc

pub require-some :
    {A : Type 0} (b : Bool) (m : Option A) (a : A)
    → (require b >> m) ≡ some a
    → (b ≡ true) × (m ≡ some a)
require-some true m a h = (refl, h)
require-some false m a h = absurd (ground arith)

cells_from-is_dict :
    (fs : Fields) (old cells : Cells)
    → is_dict old ≡ true
    → cells_from fs old ≡ some cells
    → is_dict cells ≡ true
unfolding cells_from
cells_from-is_dict nil old cells h e = ground arith
cells_from-is_dict (field k j fs) old cells h e =
    let (c, _, e1) = bind-some (checkpoint_natural (some (string k))) _ cells e in
    let (items, _, e2) = bind-some (items_of (some j)) _ cells e1 in
    let (cell, _, e3) = bind-some (cell_of items) _ cells e2 in
    cells_from-is_dict fs (insert c cell old) cells (insert-is_dict c cell old h) e3

checkpoint_rows-are_dicts :
    (fs : Fields) (old rows : Dict ℕ Cells)
    → are_dicts old ≡ true
    → checkpoint_rows fs old ≡ some rows
    → are_dicts rows ≡ true
unfolding checkpoint_rows
checkpoint_rows-are_dicts nil old rows h e = ground arith
checkpoint_rows-are_dicts (field k j fs) old rows h e =
    let (r, _, e1) = bind-some (checkpoint_natural (some (string k))) _ rows e in
    let (raw, _, e2) = bind-some (fields_of (some j)) _ rows e1 in
    let (cells, d, e3) = bind-some (cells_from raw []) _ rows e2 in
    checkpoint_rows-are_dicts fs (insert r cells old) rows
      (insert-are_dicts r cells old (cells_from-is_dict raw [] cells refl d) h) e3

length-all_lists :
    (js : List Json) (changes : List (List Json))
    → all_lists js ≡ some changes
    → length changes ≡ length js
unfolding all_lists
length-all_lists [] changes e = ground arith
length-all_lists (j ∷ js) changes e =
    let (items, _, e1) = bind-some (items_of (some j)) _ changes e in
    let (rest, d, e2) = bind-some (all_lists js) _ changes e1 in
    ground (arith, length-all_lists js rest d)

restore_fields-IsGrid :
    (t : Texts) (layout : Json) (fs : Fields) (g : ResultGrid)
    → restore_fields t layout fs ≡ some g
    → IsGrid t g
unfolding restore_fields
restore_fields-IsGrid t layout fs g e =
    let (generation, _, e1) = bind-some (checkpoint_natural (get "layout_generation" fs)) _ g e in
    let (pending, _, e2) = bind-some (boolean_of (get "schema_pending" fs)) _ g e1 in
    let (expected, _, e3) = bind-some (checkpoint_conflicts (get "schema_conflicts" fs)) _ g e2 in
    let (_, e4) =
      require-some (same_conflicts (schema_conflicts_of (result_columns t layout)) expected) _ g
        e3 in
    let (changes, _, e5) = bind-some (items_of (get "metadata_changes" fs)) _ g e4 in
    let (few, e6) = require-some (leb (length changes) 200) _ g e5 in
    let (restored, d, e7) = bind-some (all_lists changes) _ g e6 in
    let (raw, _, e8) = bind-some (fields_of (get "rows" fs)) _ g e7 in
    let (rows, dr, e9) = bind-some (checkpoint_rows raw []) _ g e8 in
    let (laid, e10) = require-some (not (is_none layout && not (is_empty rows))) _ g e9 in
    let (live, e11) = require-some (not (pending && not (is_empty rows))) _ g e10 in
    subst (IsGrid t) (some-inj _ g e11) (record {
      shaped = record {
        columns = refl;
        conflicts = refl;
        rows = checkpoint_rows-are_dicts raw [] rows refl dr;
        is_settled = ground arith;
      };
      bounded = ground (arith, length-all_lists changes restored d);
    })

-- an accepted checkpoint
restore_snapshot-IsGrid :
    (t : Texts) (state : Json) (g : ResultGrid) → restore_snapshot t state ≡ some g → IsGrid t g
unfolding restore_snapshot
restore_snapshot-IsGrid t (object fs) g e =
    restore_fields-IsGrid t (layout_or_null (get "layout" fs)) fs g e
restore_snapshot-IsGrid t null g e = absurd (ground arith)
restore_snapshot-IsGrid t (boolean b) g e = absurd (ground arith)
restore_snapshot-IsGrid t (integer n) g e = absurd (ground arith)
restore_snapshot-IsGrid t (float s) g e = absurd (ground arith)
restore_snapshot-IsGrid t (string s) g e = absurd (ground arith)
restore_snapshot-IsGrid t (array items) g e = absurd (ground arith)

-- a message of the feed, or a checkpoint
pub data Step (t : Texts) : ResultGrid → ResultGrid → Type 0 where
  snapshot : (payload : Json) (g : ResultGrid) → Step t g (apply_snapshot t payload g)
  changes : (payload : Option Json) (g : ResultGrid) → Step t g (apply_changes payload g)
  removals : (payload : Option Json) (g : ResultGrid) → Step t g (remove_rows payload g)
  layout_update : (layout : Json) (g : ResultGrid) → Step t g (apply_layout_update t layout g)
  new_layout : (layout : Json) (g : ResultGrid) → Step t g (set_layout t layout g)
  checkpoint : (state : Json) (g h : ResultGrid) → restore_snapshot t state ≡ some h → Step t g h

pub data Reachable (t : Texts) : ResultGrid → Type 0 where
  start : Reachable t new_grid
  next : (g h : ResultGrid) → Reachable t g → Step t g h → Reachable t h

new_grid-IsGrid : (t : Texts) → IsGrid t new_grid
unfolding result_columns schema_conflicts_of
new_grid-IsGrid t = record {
  shaped = record { columns = refl; conflicts = refl; rows = refl; is_settled = refl };
  bounded = omega arith;
}

step-IsGrid : (t : Texts) (g h : ResultGrid) → IsGrid t g → Step t g h → IsGrid t h
step-IsGrid t _ _ k (snapshot payload g) = apply_snapshot-IsGrid t payload g k
step-IsGrid t _ _ k (changes payload g) = apply_changes-IsGrid t payload g k.shaped
step-IsGrid t _ _ k (removals payload g) = remove_rows-IsGrid t payload g k
step-IsGrid t _ _ k (layout_update layout g) = apply_layout_update-IsGrid t layout g k
step-IsGrid t _ _ k (new_layout layout g) = set_layout-IsGrid t layout g k
step-IsGrid t _ _ k (checkpoint state g h e) = restore_snapshot-IsGrid t state h e

-- Whatever messages and checkpoints a grid has taken, in whatever order, from its start: its columns and
-- conflicts are those of its layout, its rows and cells have each index once, it has no row without a
-- layout or before the snapshot of a new one, and it keeps at most 200 changes of metadata.
pub Reachable-IsGrid : (t : Texts) (g : ResultGrid) → Reachable t g → IsGrid t g
Reachable-IsGrid t _ start = new_grid-IsGrid t
Reachable-IsGrid t _ (next g h r s) = step-IsGrid t g h (Reachable-IsGrid t g r) s
