-- ===== src/Grid/Wellformed.antt =====
-- About the state of a result grid between messages (server/timing/result_grid.py).
use balchug_racing.Base.{
  ℕ, suc, ◌-◌, ◌≤◌, ◌≡◌, refl, inl, inr, Bool, true, false, not, ◌||◌, Option, none, some, List, [],
  ◌∷◌, length, arith, Bool-cases,
}
use balchug_racing.Base.Dict.{Dict, nat_eq, string_eq}
use balchug_racing.Wire.Json.{Json, null, boolean, integer, float, string, array, object, get}
use balchug_racing.Grid.Text.{Texts}
use balchug_racing.Grid.Columns.{result_columns}
use balchug_racing.Grid.Reducer.{
  Cells, ResultGrid, schema_conflicts_of, schema_ready, is_none, is_empty, Change, metadata, at,
  apply_change, apply_all, change_of, drop, keep_last, apply_changes, change_rows, set_layout,
  with_layout, fill, apply_snapshot, apply_layout_update, remapped, indexes_by_identity,
  remove_rows, remove_each,
}
use balchug_racing.Grid.Rows.{
  are_dicts, set_cell-are_dicts, remove_each-are_dicts, remove_each-nil, remap_rows-are_dicts,
  remap_rows-nil,
}

-- without a layout, or before the snapshot of a new one, there is no row
abbrev pub settled : ResultGrid → Bool
settled g = not (is_none g.layout || g.schema_pending) || is_empty g.rows

-- what the messages keep while they are applied
pub record IsShaped (t : Texts) (g : ResultGrid) : Type 0 where
  pub columns : g.columns ≡ result_columns t g.layout
  pub conflicts : g.schema_conflicts ≡ schema_conflicts_of g.columns
  pub rows : are_dicts g.rows ≡ true
  pub is_settled : settled g ≡ true

pub record IsGrid (t : Texts) (g : ResultGrid) : Type 0 where
  pub shaped : IsShaped t g
  pub bounded : length g.metadata_changes ≤ 200

length-drop : {A : Type 0} (n : ℕ) (xs : List A) → length (drop n xs) ≡ length xs - n
length-drop ℕ.zero xs = omega arith
length-drop (suc n) [] = omega arith
length-drop (suc n) (x ∷ xs) = omega (arith, length-drop n xs)

module _ (t : Texts) where
  apply_change-IsShaped :
      (js : List Json) (c : Change) (g : ResultGrid)
      → IsShaped t g
      → IsShaped t (apply_change js c g)
  unfolding apply_change
  apply_change-IsShaped js metadata g h = record {
    columns = h.columns;
    conflicts = h.conflicts;
    rows = h.rows;
    is_settled = h.is_settled;
  }
  apply_change-IsShaped js (at r c cell) g h = elim (Bool-cases (schema_ready g)) [
    | inr closed ↦ rw closed h
    | inl ready ↦ rw ready (record {
      columns = h.columns;
      conflicts = h.conflicts;
      rows = set_cell-are_dicts r c cell g.rows h.rows;
      is_settled = ground arith;
    })
  ]

  apply_all-IsShaped :
      (changes : List (List Json)) (g : ResultGrid)
      → IsShaped t g
      → IsShaped t (apply_all changes g)
  unfolding apply_all
  apply_all-IsShaped [] g h = h
  apply_all-IsShaped (js ∷ changes) g h =
      apply_all-IsShaped changes _ (apply_change-IsShaped js (change_of js) g h)

  keep_last-IsGrid : (g : ResultGrid) → IsShaped t g → IsGrid t (keep_last g)
  unfolding keep_last
  keep_last-IsGrid g h = record {
    shaped = record {
      columns = h.columns;
      conflicts = h.conflicts;
      rows = h.rows;
      is_settled = h.is_settled;
    };
    bounded = omega (arith, length-drop (length g.metadata_changes - 200) g.metadata_changes);
  }

  pub apply_changes-IsGrid :
      (payload : Option Json) (g : ResultGrid) → IsShaped t g → IsGrid t (apply_changes payload g)
  unfolding apply_changes
  apply_changes-IsGrid payload g h =
      keep_last-IsGrid _ (apply_all-IsShaped (change_rows payload) g h)

  pub set_layout-IsGrid :
      (layout : Json) (g : ResultGrid) → IsGrid t g → IsGrid t (set_layout t layout g)
  unfolding set_layout
  set_layout-IsGrid layout g h = record {
    shaped = record { columns = refl; conflicts = refl; rows = refl; is_settled = ground arith };
    bounded = h.bounded;
  }

  with_layout-IsGrid :
      (l : Option Json) (g : ResultGrid) → IsGrid t g → IsGrid t (with_layout t l g)
  with_layout-IsGrid none g h = h
  with_layout-IsGrid (some null) g h = h
  with_layout-IsGrid (some (boolean b)) g h = set_layout-IsGrid (boolean b) g h
  with_layout-IsGrid (some (integer n)) g h = set_layout-IsGrid (integer n) g h
  with_layout-IsGrid (some (float s)) g h = set_layout-IsGrid (float s) g h
  with_layout-IsGrid (some (string s)) g h = set_layout-IsGrid (string s) g h
  with_layout-IsGrid (some (array items)) g h = set_layout-IsGrid (array items) g h
  with_layout-IsGrid (some (object fs)) g h = set_layout-IsGrid (object fs) g h

  fill-IsGrid : (changes : Option Json) (g : ResultGrid) → IsGrid t g → IsGrid t (fill changes g)
  unfolding fill
  fill-IsGrid changes g h = elim (Bool-cases (is_none g.layout)) [
    | inl missing ↦ rw missing (record {
      shaped = record {
        columns = h.shaped.columns;
        conflicts = h.shaped.conflicts;
        rows = refl;
        is_settled = ground arith;
      };
      bounded = omega arith;
    })
    | inr there ↦ rw there (
        apply_changes-IsGrid changes _ (record {
          columns = h.shaped.columns;
          conflicts = h.shaped.conflicts;
          rows = refl;
          is_settled = ground arith;
        }))
  ]

  pub apply_snapshot-IsGrid :
      (payload : Json) (g : ResultGrid) → IsGrid t g → IsGrid t (apply_snapshot t payload g)
  unfolding apply_snapshot
  apply_snapshot-IsGrid (object fs) g h =
      fill-IsGrid (get "r" fs) _ (with_layout-IsGrid (get "l" fs) g h)
  apply_snapshot-IsGrid null g h = h
  apply_snapshot-IsGrid (boolean b) g h = h
  apply_snapshot-IsGrid (integer n) g h = h
  apply_snapshot-IsGrid (float s) g h = h
  apply_snapshot-IsGrid (string s) g h = h
  apply_snapshot-IsGrid (array items) g h = h

  remapped-are_dicts :
      (b : Bool) (rows : Dict ℕ Cells) → are_dicts rows ≡ true → are_dicts (remapped b rows) ≡ true
  remapped-are_dicts true rows h = h
  remapped-are_dicts false rows h = refl

  remapped-nil : (b : Bool) (rows : Dict ℕ Cells) → rows ≡ [] → remapped b rows ≡ []
  remapped-nil true rows h = h
  remapped-nil false rows h = refl

  -- a layout that is missing has no column, so that nothing is kept
  update-settled :
      (layout : Json) (g : ResultGrid) → settled (apply_layout_update t layout g) ≡ true
  unfolding apply_layout_update result_columns indexes_by_identity
  update-settled null g =
      rw (remapped-nil _ _ (remap_rows-nil g.columns (remapped (schema_ready g) g.rows))) refl
  update-settled (boolean b) g = refl
  update-settled (integer n) g = refl
  update-settled (float s) g = refl
  update-settled (string s) g = refl
  update-settled (array items) g = refl
  update-settled (object fs) g = refl

  pub apply_layout_update-IsGrid :
      (layout : Json) (g : ResultGrid) → IsGrid t g → IsGrid t (apply_layout_update t layout g)
  unfolding apply_layout_update
  apply_layout_update-IsGrid layout g h = record {
    shaped = record {
      columns = refl;
      conflicts = refl;
      rows = remapped-are_dicts (is_empty (schema_conflicts_of (result_columns t layout))) _ (
          remap_rows-are_dicts (indexes_by_identity (result_columns t layout) []) g.columns
            (remapped (schema_ready g) g.rows) [] refl);
      is_settled = update-settled layout g;
    };
    bounded = h.bounded;
  }

  empty_rows : (rows : Dict ℕ Cells) → is_empty rows ≡ true → rows ≡ []
  empty_rows [] h = refl
  empty_rows (r ∷ rows) h = absurd (ground arith)

  pub remove_rows-IsGrid :
      (payload : Option Json) (g : ResultGrid) → IsGrid t g → IsGrid t (remove_rows payload g)
  unfolding remove_rows
  remove_rows-IsGrid payload g h = record {
    shaped = record {
      columns = h.shaped.columns;
      conflicts = h.shaped.conflicts;
      rows = remove_each-are_dicts (change_rows payload) g.rows h.shaped.rows;
      is_settled = elim (Bool-cases (is_none g.layout || g.schema_pending)) [
        | inr live ↦ ground arith
        | inl closed ↦
            let none_left : remove_each (change_rows payload) g.rows ≡ [] =
              rw (empty_rows g.rows (ground (arith, h.shaped.is_settled)))
                (remove_each-nil (change_rows payload)) in
            rw none_left (ground arith)
      ];
    };
    bounded = h.bounded;
  }
