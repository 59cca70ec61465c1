-- ===== src/Grid/Reducer.antt =====
-- The reducer of server/timing/result_grid.py. `None` as a layout is `null`; a tuple is a list; the
-- values are immutable here, so the copies that the code takes are left out.
use balchug_racing.Base.{
  ℕ, suc, ◌-◌, String, Bool, true, false, not, ◌&&◌, Option, none, some, List, [], ◌∷◌, ◌++◌, ltb,
  if◌then◌else◌, str_eq, length,
}
use balchug_racing.Base.Dict.{Eq, Dict, lookup, insert, erase, nat_eq, string_eq}
use balchug_racing.Base.Int.{pos}
use balchug_racing.Wire.Json.{Json, null, integer, array, object, to_list, get}
use balchug_racing.Grid.Text.{Texts, append, str_nat}
use balchug_racing.Grid.Columns.{ResultColumn, result_columns}
use balchug_racing.Grid.Identity.{Identity, identity_eq, column_identity}

pub record ResultCell : Type 0 where
  pub value : Json
  pub presentation : List Json

abbrev pub Cells : Type 0
Cells = Dict ℕ ResultCell

pub record ResultGrid : Type 0 where
  pub layout : Json
  pub columns : Dict ℕ ResultColumn
  pub rows : Dict ℕ Cells
  pub metadata_changes : List (List Json)
  pub layout_generation : ℕ
  pub schema_pending : Bool
  pub schema_conflicts : Dict String (List ℕ)

abbrev pub new_grid : ResultGrid
new_grid = record {
  layout = null;
  columns = [];
  rows = [];
  metadata_changes = [];
  layout_generation = 0;
  schema_pending = true;
  schema_conflicts = [];
}

-- `d.setdefault(k, []).append(n)`
abbrev pub or_none : Option (List ℕ) → List ℕ
or_none none = []
or_none (some ns) = ns

abbrev pub add_index : {K : Type 0} ⦃e : Eq K⦄ → K → ℕ → Dict K (List ℕ) → Dict K (List ℕ)
add_index k n d = insert k (or_none (lookup k d) ++ n ∷ []) d

abbrev pub add_key : Option String → ℕ → Dict String (List ℕ) → Dict String (List ℕ)
add_key none n d = d
add_key (some k) n d = add_index k n d

-- the indexes of each key, after those of `d`
unfoldable pub indexes_by_key : Dict ℕ ResultColumn → Dict String (List ℕ) → Dict String (List ℕ)
indexes_by_key [] d = d
indexes_by_key ((n, c) ∷ cs) d = indexes_by_key cs (add_key c.key n d)

abbrev pub duplicates : Dict String (List ℕ) → Dict String (List ℕ)
duplicates [] = []
duplicates ((k, ns) ∷ d) =
    let rest = duplicates d in if ltb 1 (length ns) then (k, ns) ∷ rest else rest

-- `_schema_conflicts`
unfoldable pub schema_conflicts_of : Dict ℕ ResultColumn → Dict String (List ℕ)
unfolding indexes_by_key
schema_conflicts_of cs = duplicates (indexes_by_key cs [])

abbrev pub is_none : Json → Bool
is_none null = true
is_none _ = false

abbrev pub is_empty {ℓ} : {A : Type ℓ} → List A → Bool
is_empty [] = true
is_empty (x ∷ xs) = false

abbrev pub schema_ready : ResultGrid → Bool
schema_ready g = not (is_none g.layout) && not g.schema_pending && is_empty g.schema_conflicts

unfoldable pub set_layout : Texts → Json → ResultGrid → ResultGrid
unfolding schema_conflicts_of result_columns
set_layout t layout g = record g {
  layout = layout;
  columns = result_columns t layout;
  rows = [];
  layout_generation = suc g.layout_generation;
  schema_pending = true;
  schema_conflicts = schema_conflicts_of (result_columns t layout);
}

-- `next_indexes`
unfoldable pub indexes_by_identity :
    Dict ℕ ResultColumn → Dict Identity (List ℕ) → Dict Identity (List ℕ)
indexes_by_identity [] d = d
indexes_by_identity ((n, c) ∷ cs) d = indexes_by_identity cs (add_index (column_identity c) n d)

-- a cell at the only candidate, if there is one
abbrev pub place : Option (List ℕ) → ResultCell → Cells → Cells
place (some (n ∷ [])) cell cells = insert n cell cells
place _ cell cells = cells

abbrev pub move_cell : Dict Identity (List ℕ) → Option ResultColumn → ResultCell → Cells → Cells
move_cell next none cell cells = cells
move_cell next (some c) cell cells = place (lookup (column_identity c) next) cell cells

unfoldable pub remap_cells : Dict Identity (List ℕ) → Dict ℕ ResultColumn → Cells → Cells → Cells
remap_cells next previous [] cells = cells
remap_cells next previous ((n, cell) ∷ old) cells =
    remap_cells next previous old (move_cell next (lookup n previous) cell cells)

abbrev pub keep_row : ℕ → Cells → Dict ℕ Cells → Dict ℕ Cells
keep_row r [] rows = rows
keep_row r (c ∷ cells) rows = insert r (c ∷ cells) rows

unfoldable pub remap_rows :
    Dict Identity (List ℕ) → Dict ℕ ResultColumn → Dict ℕ Cells → Dict ℕ Cells → Dict ℕ Cells
unfolding remap_cells
remap_rows next previous [] rows = rows
remap_rows next previous ((r, cells) ∷ old) rows =
    remap_rows next previous old (keep_row r (remap_cells next previous cells []) rows)

abbrev pub remapped : Bool → Dict ℕ Cells → Dict ℕ Cells
remapped true rows = rows
remapped false rows = []

unfoldable pub apply_layout_update : Texts → Json → ResultGrid → ResultGrid
unfolding schema_conflicts_of result_columns indexes_by_identity remap_rows
apply_layout_update t layout g =
    let columns = result_columns t layout in
    record g {
      layout = layout;
      columns = columns;
      rows = remapped (is_empty (schema_conflicts_of columns)) (
          remap_rows (indexes_by_identity columns []) g.columns (remapped (schema_ready g) g.rows)
            []);
      layout_generation = suc g.layout_generation;
      schema_pending = false;
      schema_conflicts = schema_conflicts_of columns;
    }

-- `_change_rows`
abbrev pub sequences : List Json → List (List Json)
sequences [] = []
sequences (array items ∷ js) = to_list items ∷ sequences js
sequences (_ ∷ js) = sequences js

abbrev pub change_rows : Option Json → List (List Json)
change_rows (some (array items)) = sequences (to_list items)
change_rows _ = []

-- what a change is: a cell, or something else that is kept as it is
pub data Change : Type 0 where
  metadata : Change
  at : ℕ → ℕ → ResultCell → Change

unfoldable pub change_of : List Json → Change
change_of (integer (pos r) ∷ integer (pos c) ∷ value ∷ presentation) =
    at r c (record { value = value; presentation = presentation })
change_of _ = metadata

abbrev pub or_no_cells : Option Cells → Cells
or_no_cells none = []
or_no_cells (some cells) = cells

-- `self.rows.setdefault(r, {})[c] = cell`
abbrev pub set_cell : ℕ → ℕ → ResultCell → Dict ℕ Cells → Dict ℕ Cells
set_cell r c cell rows = insert r (insert c cell (or_no_cells (lookup r rows))) rows

unfoldable pub apply_change : List Json → Change → ResultGrid → ResultGrid
apply_change js metadata g = record g { metadata_changes = g.metadata_changes ++ js ∷ [] }
apply_change js (at r c cell) g =
    if schema_ready g then record g { rows = set_cell r c cell g.rows } else g

unfoldable pub apply_all : List (List Json) → ResultGrid → ResultGrid
unfolding apply_change change_of
apply_all [] g = g
apply_all (js ∷ changes) g = apply_all changes (apply_change js (change_of js) g)

abbrev pub drop {ℓ} : {A : Type ℓ} → ℕ → List A → List A
drop ℕ.zero xs = xs
drop (suc n) [] = []
drop (suc n) (x ∷ xs) = drop n xs

-- `self.metadata_changes[-200:]`
unfoldable pub keep_last : ResultGrid → ResultGrid
keep_last g = record g {
  metadata_changes = drop (length g.metadata_changes - 200) g.metadata_changes;
}

unfoldable pub apply_changes : Option Json → ResultGrid → ResultGrid
unfolding apply_all keep_last
apply_changes payload g = keep_last (apply_all (change_rows payload) g)

abbrev pub with_layout : Texts → Option Json → ResultGrid → ResultGrid
with_layout t none g = g
with_layout t (some null) g = g
with_layout t (some j) g = set_layout t j g

-- after the layout of the snapshot is set
unfoldable pub fill : Option Json → ResultGrid → ResultGrid
unfolding apply_changes
fill changes g =
    let empty = record g { rows = []; metadata_changes = [] } in
    if is_none g.layout
    then record empty { schema_pending = true }
    else apply_changes changes (record empty { schema_pending = false })

unfoldable pub apply_snapshot : Texts → Json → ResultGrid → ResultGrid
unfolding set_layout fill
apply_snapshot t (object fs) g = fill (get "r" fs) (with_layout t (get "l" fs) g)
apply_snapshot t _ g = g

unfoldable pub remove_row : List Json → Dict ℕ Cells → Dict ℕ Cells
remove_row (integer (pos r) ∷ js) rows = erase r rows
remove_row _ rows = rows

unfoldable pub remove_each : List (List Json) → Dict ℕ Cells → Dict ℕ Cells
unfolding remove_row
remove_each [] rows = rows
remove_each (js ∷ changes) rows = remove_each changes (remove_row js rows)

unfoldable pub remove_rows : Option Json → ResultGrid → ResultGrid
unfolding remove_each
remove_rows payload g = record g { rows = remove_each (change_rows payload) g.rows }

-- the name that a cell is read under
abbrev pub or_blank : Option String → String
or_blank none = ""
or_blank (some s) = s

abbrev pub raw_name : ResultColumn → String
raw_name c = append "unknown:" (append c.source_name (append ":" (or_blank c.source_parameter)))

abbrev pub key_or_raw : Option String → ResultColumn → String
key_or_raw none c = raw_name c
key_or_raw (some k) c = if str_eq k "" then raw_name c else k

unfoldable pub cell_name : ℕ → Option ResultColumn → String
unfolding str_nat
cell_name n none = append "column_" (str_nat n)
cell_name n (some c) = key_or_raw c.key c

unfoldable pub values_from : Dict ℕ ResultColumn → Cells → Dict String Json → Dict String Json
unfolding cell_name
values_from columns [] result = result
values_from columns ((n, cell) ∷ cells) result =
    values_from columns cells (insert (cell_name n (lookup n columns)) cell.value result)

unfoldable pub row_values : ResultGrid → ℕ → Dict String Json
unfolding values_from
row_values g r =
    if schema_ready g then values_from g.columns (or_no_cells (lookup r g.rows)) [] else []
