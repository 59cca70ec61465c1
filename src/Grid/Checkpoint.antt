-- ===== src/Grid/Checkpoint.antt =====
-- The checkpoint of a result grid: `all_rows`, `snapshot` and `restore_snapshot` of
-- server/timing/result_grid.py. A `ResultGridStateError` is `none`.
use Prim.Native.String.{compare}
use Prim.Native.Nat.{Ordering}
use balchug_racing.Base.{
  ℕ, String, Bool, true, false, not, ◌&&◌, Option, none, some, List, [], ◌∷◌, ltb, leb, ◌==◌,
  if◌then◌else◌, str_eq, length,
}
use balchug_racing.Base.Dict.{Dict, lookup, insert, nat_eq, string_eq}
use balchug_racing.Base.Ordered.{sorted_items}
use balchug_racing.Base.Int.{pos}
use balchug_racing.Wire.Json.{
  Json, null, boolean, integer, string, array, object, Items, Fields, nil, field, to_list, to_items,
  get,
}
use balchug_racing.Canonical.Duration.{codes, parse_digits}
use balchug_racing.Grid.Text.{Texts, str_nat}
use balchug_racing.Grid.Columns.{result_columns}
use balchug_racing.Grid.Reducer.{
  ResultCell, Cells, ResultGrid, schema_conflicts_of, schema_ready, is_none, is_empty, row_values,
}

abbrev pub text_before : String → String → Bool
text_before s t = elim (compare s t) [ Ordering.lt ↦ true | _ ↦ false ]

unfoldable pub rows_from : ResultGrid → Dict ℕ Cells → Dict ℕ (Dict String Json)
unfolding row_values
rows_from g [] = []
rows_from g ((r, cells) ∷ rows) = (r, row_values g r) ∷ rows_from g rows

-- `all_rows`
unfoldable pub all_rows : ResultGrid → Dict ℕ (Dict String Json)
unfolding rows_from sorted_items
all_rows g = if schema_ready g then rows_from g (sorted_items ltb g.rows) else []

unfoldable pub cell_fields : Cells → Fields
unfolding str_nat
cell_fields [] = nil
cell_fields ((c, cell) ∷ cells) =
    field (str_nat c) (array (to_items (cell.value ∷ cell.presentation))) (cell_fields cells)

unfoldable pub row_fields : Dict ℕ Cells → Fields
unfolding cell_fields sorted_items
row_fields [] = nil
row_fields ((r, cells) ∷ rows) =
    field (str_nat r) (object (cell_fields (sorted_items ltb cells))) (row_fields rows)

abbrev pub naturals : List ℕ → Items
naturals [] = Items.end
naturals (n ∷ ns) = Items.item (integer (pos n)) (naturals ns)

abbrev pub conflict_fields : Dict String (List ℕ) → Fields
conflict_fields [] = nil
conflict_fields ((k, ns) ∷ d) = field k (array (naturals ns)) (conflict_fields d)

abbrev pub lists : List (List Json) → Items
lists [] = Items.end
lists (js ∷ changes) = Items.item (array (to_items js)) (lists changes)

-- `snapshot`
unfoldable pub snapshot : ResultGrid → Json
unfolding row_fields sorted_items
snapshot g = object (
    field "layout" g.layout (
      field "rows" (object (row_fields (sorted_items ltb g.rows))) (
        field "metadata_changes" (array (lists g.metadata_changes)) (
          field "layout_generation" (integer (pos g.layout_generation)) (
            field "schema_pending" (boolean g.schema_pending) (
              field "schema_conflicts"
                (object (conflict_fields (sorted_items text_before g.schema_conflicts))) nil))))))

infixl 5 ◌>>=◌ ◌>>◌
abbrev pub ◌>>=◌ : {A B : Type 0} → Option A → (A → Option B) → Option B
none >>= f = none
(some a) >>= f = f a

abbrev pub ◌>>◌ : {A B : Type 0} → Option A → Option B → Option B
m >> k = m >>= λ _. k

-- `if not b: raise`
abbrev pub require : Bool → Option (Unit {0})
require true = some tt
require false = none

-- `_checkpoint_non_negative_integer`
unfoldable pub checkpoint_natural : Option Json → Option ℕ
unfolding parse_digits
checkpoint_natural (some (integer (pos n))) = some n
checkpoint_natural (some (string s)) = parse_digits (codes s)
checkpoint_natural _ = none

unfoldable pub checkpoint_naturals : List Json → Option (List ℕ)
unfolding checkpoint_natural
checkpoint_naturals [] = some []
checkpoint_naturals (j ∷ js) = do
  n ← checkpoint_natural (some j)
  ns ← checkpoint_naturals js
  some (n ∷ ns)

abbrev pub items_of : Option Json → Option (List Json)
items_of (some (array items)) = some (to_list items)
items_of _ = none

abbrev pub fields_of : Option Json → Option Fields
fields_of (some (object fs)) = some fs
fields_of _ = none

abbrev pub boolean_of : Option Json → Option Bool
boolean_of (some (boolean b)) = some b
boolean_of _ = none

-- the loop of `_checkpoint_conflicts`
unfoldable pub conflicts_from : Fields → Dict String (List ℕ) → Option (Dict String (List ℕ))
unfolding checkpoint_naturals
conflicts_from nil d = some d
conflicts_from (field k j fs) d = do
  require (not (str_eq k ""))
  items ← items_of (some j)
  parsed ← checkpoint_naturals items
  require (ltb 1 (length parsed))
  conflicts_from fs (insert k parsed d)

unfoldable pub checkpoint_conflicts : Option Json → Option (Dict String (List ℕ))
unfolding conflicts_from
checkpoint_conflicts j = do fs ← fields_of j; conflicts_from fs []

abbrev pub same_list : List ℕ → List ℕ → Bool
same_list [] [] = true
same_list (m ∷ ms) (n ∷ ns) = m == n && same_list ms ns
same_list _ _ = false

abbrev pub is_list : List ℕ → Option (List ℕ) → Bool
is_list ms none = false
is_list ms (some ns) = same_list ms ns

abbrev pub all_in : Dict String (List ℕ) → Dict String (List ℕ) → Bool
all_in [] other = true
all_in ((k, ns) ∷ d) other = is_list ns (lookup k other) && all_in d other

-- dicts are equal if they have as many keys, each with the same value
abbrev pub same_conflicts : Dict String (List ℕ) → Dict String (List ℕ) → Bool
same_conflicts d other = length d == length other && all_in d other

unfoldable pub all_lists : List Json → Option (List (List Json))
all_lists [] = some []
all_lists (j ∷ js) = do items ← items_of (some j); rest ← all_lists js; some (items ∷ rest)

abbrev pub cell_of : List Json → Option ResultCell
cell_of [] = none
cell_of (j ∷ js) = some (record { value = j; presentation = js })

-- the loop over the cells of a row
unfoldable pub cells_from : Fields → Cells → Option Cells
unfolding checkpoint_natural
cells_from nil cells = some cells
cells_from (field k j fs) cells = do
  c ← checkpoint_natural (some (string k))
  items ← items_of (some j)
  cell ← cell_of items
  cells_from fs (insert c cell cells)

-- the loop over the rows
unfoldable pub checkpoint_rows : Fields → Dict ℕ Cells → Option (Dict ℕ Cells)
unfolding checkpoint_natural cells_from
checkpoint_rows nil rows = some rows
checkpoint_rows (field k j fs) rows = do
  r ← checkpoint_natural (some (string k))
  raw ← fields_of (some j)
  cells ← cells_from raw []
  checkpoint_rows fs (insert r cells rows)

abbrev pub layout_or_null : Option Json → Json
layout_or_null none = null
layout_or_null (some j) = j

-- `restore_snapshot`
unfoldable pub restore_fields : Texts → Json → Fields → Option ResultGrid
unfolding checkpoint_natural checkpoint_conflicts schema_conflicts_of result_columns all_lists
    checkpoint_rows
restore_fields t layout fs = do
  generation ← checkpoint_natural (get "layout_generation" fs)
  pending ← boolean_of (get "schema_pending" fs)
  let columns = result_columns t layout
  let conflicts = schema_conflicts_of columns
  expected ← checkpoint_conflicts (get "schema_conflicts" fs)
  require (same_conflicts conflicts expected)
  changes ← items_of (get "metadata_changes" fs)
  require (leb (length changes) 200)
  restored ← all_lists changes
  raw ← fields_of (get "rows" fs)
  rows ← checkpoint_rows raw []
  require (not (is_none layout && not (is_empty rows)))
  require (not (pending && not (is_empty rows)))
  some (record {
    layout = layout;
    columns = columns;
    rows = rows;
    metadata_changes = restored;
    layout_generation = generation;
    schema_pending = pending;
    schema_conflicts = conflicts;
  })

unfoldable pub restore_snapshot : Texts → Json → Option ResultGrid
unfolding restore_fields
restore_snapshot t (object fs) = restore_fields t (layout_or_null (get "layout" fs)) fs
restore_snapshot t _ = none
