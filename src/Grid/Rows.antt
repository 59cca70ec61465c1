-- ===== src/Grid/Rows.antt =====
-- About the rows of a result grid (server/timing/result_grid.py) as dicts.
use balchug_racing.Base.{
  ℕ, ◌≡◌, refl, inl, inr, Bool, true, ◌&&◌, Option, none, some, List, [], ◌∷◌, ◌==◌, arith,
  Bool-cases,
}
use balchug_racing.Base.Dict.{
  Dict, lookup, insert, erase, nat_eq, string_eq, is_dict, insert-is_dict, erase-is_dict,
}
use balchug_racing.Base.Ordered.{all_items}
use balchug_racing.Base.Int.{pos, negsuc}
use balchug_racing.Wire.Json.{Json, null, boolean, integer, float, string, array, object}
use balchug_racing.Grid.Columns.{ResultColumn}
use balchug_racing.Grid.Identity.{Identity, identity_eq, column_identity}
use balchug_racing.Grid.Reducer.{
  ResultCell, Cells, place, move_cell, remap_cells, keep_row, remap_rows, or_no_cells, set_cell,
  remove_row, remove_each,
}

-- every row is a dict
abbrev pub all_dicts : Dict ℕ Cells → Bool
all_dicts = all_items (λ r cells. is_dict cells)

abbrev pub are_dicts : Dict ℕ Cells → Bool
are_dicts rows = is_dict rows && all_dicts rows

pub lookup-all_dicts :
    (r : ℕ) (rows : Dict ℕ Cells)
    → all_dicts rows ≡ true
    → is_dict (or_no_cells (lookup r rows)) ≡ true
lookup-all_dicts r [] h = refl
lookup-all_dicts r ((j, cells) ∷ rows) h = elim (Bool-cases (r == j)) [
  | inl hit ↦ rw hit (ground arith)
  | inr miss ↦ rw miss (lookup-all_dicts r rows (ground arith))
]

insert-all_dicts :
    (r : ℕ) (cells : Cells) (rows : Dict ℕ Cells)
    → is_dict cells ≡ true
    → all_dicts rows ≡ true
    → all_dicts (insert r cells rows) ≡ true
insert-all_dicts r cells [] hc h = rw hc refl
insert-all_dicts r cells ((j, old) ∷ rows) hc h = elim (Bool-cases (r == j)) [
  | inl hit ↦ rw (hit, hc) (ground arith)
  | inr miss ↦ rw miss (ground (arith, insert-all_dicts r cells rows hc))
]

erase-all_dicts :
    (r : ℕ) (rows : Dict ℕ Cells) → all_dicts rows ≡ true → all_dicts (erase r rows) ≡ true
erase-all_dicts r [] h = refl
erase-all_dicts r ((j, old) ∷ rows) h = elim (Bool-cases (r == j)) [
  | inl hit ↦ rw hit (ground arith)
  | inr miss ↦ rw miss (ground (arith, erase-all_dicts r rows))
]

pub insert-are_dicts :
    (r : ℕ) (cells : Cells) (rows : Dict ℕ Cells)
    → is_dict cells ≡ true
    → are_dicts rows ≡ true
    → are_dicts (insert r cells rows) ≡ true
insert-are_dicts r cells rows hc h =
    ground (arith, insert-is_dict r cells rows, insert-all_dicts r cells rows hc)

pub set_cell-are_dicts :
    (r c : ℕ) (cell : ResultCell) (rows : Dict ℕ Cells)
    → are_dicts rows ≡ true
    → are_dicts (set_cell r c cell rows) ≡ true
set_cell-are_dicts r c cell rows h =
    let old : Cells = or_no_cells (lookup r rows) in
    insert-are_dicts r (insert c cell old) rows
      (insert-is_dict c cell old (lookup-all_dicts r rows (ground arith))) h

pub remove_each-are_dicts :
    (changes : List (List Json)) (rows : Dict ℕ Cells)
    → are_dicts rows ≡ true
    → are_dicts (remove_each changes rows) ≡ true
unfolding remove_each
remove_each-are_dicts [] rows h = h
remove_each-are_dicts (js ∷ changes) rows h =
    remove_each-are_dicts changes (remove_row js rows) (removed js)
  where
    erased : (r : ℕ) → are_dicts (erase r rows) ≡ true
    erased r = ground (arith, erase-is_dict r rows, erase-all_dicts r rows)

    removed : (js : List Json) → are_dicts (remove_row js rows) ≡ true
    removed [] = h
    removed (null ∷ js) = h
    removed (boolean b ∷ js) = h
    removed (integer (pos n) ∷ js) = erased n
    removed (integer (negsuc n) ∷ js) = h
    removed (float s ∷ js) = h
    removed (string s ∷ js) = h
    removed (array items ∷ js) = h
    removed (object fs ∷ js) = h

remove_row-nil : (js : List Json) → remove_row js [] ≡ []
unfolding remove_row
remove_row-nil [] = refl
remove_row-nil (null ∷ js) = refl
remove_row-nil (boolean b ∷ js) = refl
remove_row-nil (integer (pos n) ∷ js) = refl
remove_row-nil (integer (negsuc n) ∷ js) = refl
remove_row-nil (float s ∷ js) = refl
remove_row-nil (string s ∷ js) = refl
remove_row-nil (array items ∷ js) = refl
remove_row-nil (object fs ∷ js) = refl

pub remove_each-nil : (changes : List (List Json)) → remove_each changes [] ≡ []
unfolding remove_each
remove_each-nil [] = refl
remove_each-nil (js ∷ changes) = rw (remove_row-nil js) (remove_each-nil changes)

module _ (next : Dict Identity (List ℕ)) (previous : Dict ℕ ResultColumn) where
  place-is_dict :
      (candidates : Option (List ℕ)) (cell : ResultCell) (cells : Cells)
      → is_dict cells ≡ true
      → is_dict (place candidates cell cells) ≡ true
  place-is_dict none cell cells h = h
  place-is_dict (some []) cell cells h = h
  place-is_dict (some (n ∷ [])) cell cells h = insert-is_dict n cell cells h
  place-is_dict (some (n ∷ m ∷ ns)) cell cells h = h

  move_cell-is_dict :
      (c : Option ResultColumn) (cell : ResultCell) (cells : Cells)
      → is_dict cells ≡ true
      → is_dict (move_cell next c cell cells) ≡ true
  move_cell-is_dict none cell cells h = h
  move_cell-is_dict (some c) cell cells h =
      place-is_dict (lookup (column_identity c) next) cell cells h

  remap_cells-is_dict :
      (old cells : Cells)
      → is_dict cells ≡ true
      → is_dict (remap_cells next previous old cells) ≡ true
  unfolding remap_cells
  remap_cells-is_dict [] cells h = h
  remap_cells-is_dict ((n, cell) ∷ old) cells h =
      remap_cells-is_dict old _ (move_cell-is_dict (lookup n previous) cell cells h)

  keep_row-are_dicts :
      (r : ℕ) (cells : Cells) (rows : Dict ℕ Cells)
      → is_dict cells ≡ true
      → are_dicts rows ≡ true
      → are_dicts (keep_row r cells rows) ≡ true
  keep_row-are_dicts r [] rows hc h = h
  keep_row-are_dicts r (c ∷ cells) rows hc h = insert-are_dicts r (c ∷ cells) rows hc h

  pub remap_rows-are_dicts :
      (old rows : Dict ℕ Cells)
      → are_dicts rows ≡ true
      → are_dicts (remap_rows next previous old rows) ≡ true
  unfolding remap_rows
  remap_rows-are_dicts [] rows h = h
  remap_rows-are_dicts ((r, cells) ∷ old) rows h = remap_rows-are_dicts old _ (
      keep_row-are_dicts r (remap_cells next previous cells []) rows
        (remap_cells-is_dict cells [] refl) h)

-- without a next column no cell is kept
module _ (previous : Dict ℕ ResultColumn) where
  move_cell-nil : (c : Option ResultColumn) (cell : ResultCell) → move_cell [] c cell [] ≡ []
  move_cell-nil none cell = refl
  move_cell-nil (some c) cell = refl

  remap_cells-nil : (old : Cells) → remap_cells [] previous old [] ≡ []
  unfolding remap_cells
  remap_cells-nil [] = refl
  remap_cells-nil ((n, cell) ∷ old) =
      rw (move_cell-nil (lookup n previous) cell) (remap_cells-nil old)

  pub remap_rows-nil : (old : Dict ℕ Cells) → remap_rows [] previous old [] ≡ []
  unfolding remap_rows
  remap_rows-nil [] = refl
  remap_rows-nil ((r, cells) ∷ old) = rw (remap_cells-nil cells) (remap_rows-nil old)
