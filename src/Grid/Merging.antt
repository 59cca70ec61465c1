-- ===== src/Grid/Merging.antt =====
-- About sparse changes of a result grid (`apply_changes` of server/timing/result_grid.py).
use balchug_racing.Base.{
  ℕ, ◌-◌, ◌≡◌, refl, sym, ap, inl, inr, ◌&&◌, Option, none, some, List, [], ◌∷◌, ◌++◌, ◌==◌, ==_iff,
  if◌then◌else◌, length, Bool-cases,
}
use mathlib.Core.List.{append_assoc, append-nil}
use balchug_racing.Base.Dict.{Dict, lookup, insert, nat_eq, lookup-insert}
use balchug_racing.Wire.Json.{Json}
use balchug_racing.Grid.Reducer.{
  ResultCell, Cells, ResultGrid, or_no_cells, set_cell, schema_ready, Change, metadata, at,
  change_of, apply_change, apply_all, change_rows, keep_last, drop, apply_changes,
}
use balchug_racing.Grid.Roundtrip.{cell}

-- what a change says of a cell
abbrev said : ℕ → ℕ → Change → Option ResultCell
said r c metadata = none
said r c (at i j new) = if r == i && c == j then some new else none

abbrev prefer : Option ResultCell → Option ResultCell → Option ResultCell
prefer none old = old
prefer (some new) old = some new

-- what the last change of a cell says, or what it was
abbrev pub last_said : ℕ → ℕ → List (List Json) → Option ResultCell → Option ResultCell
last_said r c [] old = old
last_said r c (js ∷ changes) old = last_said r c changes (prefer (said r c (change_of js)) old)

-- the changes that are not of a cell
abbrev keep_metadata : List Json → Change → List (List Json) → List (List Json)
keep_metadata js metadata changes = js ∷ changes
keep_metadata js (at i j new) changes = changes

abbrev pub metadata_of : List (List Json) → List (List Json)
metadata_of [] = []
metadata_of (js ∷ changes) = keep_metadata js (change_of js) (metadata_of changes)

cell-set_cell :
    (r c i j : ℕ) (new : ResultCell) (rows : Dict ℕ Cells)
    → lookup c (or_no_cells (lookup r (set_cell i j new rows)))
      ≡ prefer (said r c (at i j new)) (lookup c (or_no_cells (lookup r rows)))
cell-set_cell r c i j new rows =
    let old : Cells = or_no_cells (lookup i rows) in
    elim (Bool-cases (r == i)) [
      | inr away ↦ rw (lookup-insert r i (insert j new old) rows, away) refl
      | inl here ↦
          let p : r ≡ i = (==_iff r i).0 here in
          rw (lookup-insert r i (insert j new old) rows, here)
            (elim (Bool-cases (c == j)) [
              | inl both ↦ rw (lookup-insert c j new old, both) refl
              | inr other ↦ rw (lookup-insert c j new old, other, p) refl
            ])
    ]

schema_ready-apply_change :
    (js : List Json) (ch : Change) (g : ResultGrid)
    → schema_ready (apply_change js ch g) ≡ schema_ready g
unfolding apply_change
schema_ready-apply_change js metadata g = refl
schema_ready-apply_change js (at i j new) g = elim (Bool-cases (schema_ready g)) [
  | inl ready ↦ rw ready ready
  | inr closed ↦ rw closed closed
]

cell-apply_change :
    (r c : ℕ) (js : List Json) (ch : Change) (g : ResultGrid)
    → cell r c (apply_change js ch g)
      ≡ (if schema_ready g then prefer (said r c ch) (cell r c g) else cell r c g)
unfolding apply_change
cell-apply_change r c js metadata g = elim (Bool-cases (schema_ready g)) [
  | inl ready ↦ rw ready refl
  | inr closed ↦ rw closed refl
]
cell-apply_change r c js (at i j new) g = elim (Bool-cases (schema_ready g)) [
  | inl ready ↦ rw ready (cell-set_cell r c i j new g.rows)
  | inr closed ↦ rw closed refl
]

cell-apply_all :
    (r c : ℕ) (changes : List (List Json)) (g : ResultGrid)
    → cell r c (apply_all changes g)
      ≡ (if schema_ready g then last_said r c changes (cell r c g) else cell r c g)
unfolding apply_all
cell-apply_all r c [] g = elim (Bool-cases (schema_ready g)) [
  | inl ready ↦ rw ready refl
  | inr closed ↦ rw closed refl
]
cell-apply_all r c (js ∷ changes) g =
    rw
      (
        cell-apply_all r c changes (apply_change js (change_of js) g),
        schema_ready-apply_change js (change_of js) g,
        cell-apply_change r c js (change_of js) g,
      )
      (elim (Bool-cases (schema_ready g)) [
        | inl ready ↦ rw ready refl
        | inr closed ↦ rw closed refl
      ])

metadata-apply_change :
    (js : List Json) (ch : Change) (g : ResultGrid)
    → (apply_change js ch g).metadata_changes ≡ g.metadata_changes ++ keep_metadata js ch []
unfolding apply_change
metadata-apply_change js metadata g = refl
metadata-apply_change js (at i j new) g = elim (Bool-cases (schema_ready g)) [
  | inl ready ↦ rw (ready, append-nil g.metadata_changes) refl
  | inr closed ↦ rw (closed, append-nil g.metadata_changes) refl
]

keep_metadata-append :
    (js : List Json) (ch : Change) (changes : List (List Json))
    → keep_metadata js ch [] ++ changes ≡ keep_metadata js ch changes
keep_metadata-append js metadata changes = refl
keep_metadata-append js (at i j new) changes = refl

metadata-apply_all :
    (changes : List (List Json)) (g : ResultGrid)
    → (apply_all changes g).metadata_changes ≡ g.metadata_changes ++ metadata_of changes
unfolding apply_all
metadata-apply_all [] g = sym (append-nil g.metadata_changes)
metadata-apply_all (js ∷ changes) g =
    rw
      (
        metadata-apply_all changes (apply_change js (change_of js) g),
        metadata-apply_change js (change_of js) g,
        append_assoc g.metadata_changes (keep_metadata js (change_of js) []) (metadata_of changes),
        keep_metadata-append js (change_of js) (metadata_of changes),
      )
      refl

-- After sparse changes a cell of a grid that is ready holds what the last change of it says, or what it
-- held if none does; a grid that is not ready keeps its cells. The metadata are the last 200 of those
-- that were there and of the changes that are not of a cell.
pub apply_changes-merged :
    (payload : Option Json) (g : ResultGrid)
    → let changes = change_rows payload in
      let known = g.metadata_changes ++ metadata_of changes in
      ((r c : ℕ)
        → cell r c (apply_changes payload g)
          ≡ (if schema_ready g then last_said r c changes (cell r c g) else cell r c g))
      × ((apply_changes payload g).metadata_changes ≡ drop (length known - 200) known)
unfolding apply_changes keep_last
apply_changes-merged payload g =
    let changes = change_rows payload in
    (
      λ r c. cell-apply_all r c changes g,
      ap (λ m. drop (length m - 200) m) (metadata-apply_all changes g),
    )
