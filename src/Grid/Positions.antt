-- ===== src/Grid/Positions.antt =====
-- About the columns of one identity in a layout (`_schema_conflicts` and `apply_layout_update` of
-- server/timing/result_grid.py).
use mathlib.Core.List.{append_assoc}
use balchug_racing.Base.{
  ℕ, suc, ◌<◌, ◌≡◌, refl, ap, ◌∙◌, inl, inr, String, Bool, true, false, Option, none, some, List,
  [], ◌∷◌, ◌++◌, ltb, ◌==◌, ==_iff, if◌then◌else◌, length, any, arith, Bool-cases,
}
use balchug_racing.Base.Dict.{Dict, lookup, nat_eq, string_eq, is_dict, lookup-insert, beq_refl}
use balchug_racing.Wire.Json.{Json, null, boolean, integer, float, string, array, object, get}
use balchug_racing.Grid.Text.{Texts}
use balchug_racing.Grid.Columns.{ResultColumn, result_columns, columns_from, headers_of, candidate}
use balchug_racing.Grid.Identity.{
  Identity, canonical, identity_eq, same_identity, same_identity_iff, column_identity, by_key,
}
use balchug_racing.Grid.Reducer.{
  add_index, add_key, or_none, indexes_by_key, indexes_by_identity, duplicates, schema_conflicts_of,
  is_empty,
}

-- the indexes of the columns of an identity
unfoldable pub positions : Identity → Dict ℕ ResultColumn → List ℕ
unfolding column_identity
positions i [] = []
positions i ((n, c) ∷ cs) =
    let rest = positions i cs in if same_identity i (column_identity c) then n ∷ rest else rest

abbrev pub join : Option (List ℕ) → List ℕ → Option (List ℕ)
join o [] = o
join o (n ∷ ns) = some (or_none o ++ n ∷ ns)

join-snoc :
    (xs : List ℕ) (n : ℕ) (ns : List ℕ) → join (some (xs ++ n ∷ [])) ns ≡ some (xs ++ n ∷ ns)
join-snoc xs n [] = refl
join-snoc xs n (m ∷ ms) = ap some (append_assoc xs (n ∷ []) (m ∷ ms))

pub lookup-indexes_by_identity :
    (i : Identity) (cs : Dict ℕ ResultColumn) (d : Dict Identity (List ℕ))
    → lookup i (indexes_by_identity cs d) ≡ join (lookup i d) (positions i cs)
unfolding indexes_by_identity positions
lookup-indexes_by_identity i [] d = refl
lookup-indexes_by_identity i ((n, c) ∷ cs) d =
    let j : Identity = column_identity c in
    let more = lookup-insert i j (or_none (lookup j d) ++ n ∷ []) d in
    lookup-indexes_by_identity i cs (add_index j n d) ∙ elim (Bool-cases (same_identity i j)) [
      | inr other ↦ rw (more, other) refl
      | inl here ↦
          let p : i ≡ j = (same_identity_iff i j).0 here in
          rw (more, here, ← p) (join-snoc (or_none (lookup i d)) n (positions i cs))
    ]

pub lookup-indexes_by_key :
    (k : String) (cs : Dict ℕ ResultColumn) (d : Dict String (List ℕ))
    → lookup k (indexes_by_key cs d) ≡ join (lookup k d) (positions (canonical k) cs)
unfolding indexes_by_key positions column_identity
lookup-indexes_by_key k [] d = refl
lookup-indexes_by_key k ((n, c) ∷ cs) d =
    lookup-indexes_by_key k cs (add_key c.key n d) ∙ by_key_of c.key
  where
    by_key_of :
        (key : Option String)
        → join (lookup k (add_key key n d)) (positions (canonical k) cs)
          ≡ join (lookup k d) (
              if same_identity (canonical k) (by_key key c)
              then n ∷ positions (canonical k) cs
              else positions (canonical k) cs)
    by_key_of none = refl
    by_key_of (some j) =
        let more = lookup-insert k j (or_none (lookup j d) ++ n ∷ []) d in
        elim (Bool-cases (string_eq.beq k j)) [
          | inr other ↦ rw (more, other) refl
          | inl here ↦
              let p : k ≡ j = (string_eq.beq_iff k j).0 here in
              rw (more, here, ← p) (join-snoc (or_none (lookup k d)) n (positions (canonical k) cs))
        ]

duplicates-single :
    (k : String) (d : Dict String (List ℕ)) (ns : List ℕ)
    → is_empty (duplicates d) ≡ true
    → lookup k d ≡ some ns
    → ltb 1 (length ns) ≡ false
duplicates-single k [] ns h e = absurd (ground arith)
duplicates-single k ((j, ms) ∷ d) ns h e = elim (Bool-cases (ltb 1 (length ms))) [
  | inl many ↦ absurd (ground (arith, rw many at h))
  | inr few ↦ elim (Bool-cases (string_eq.beq k j)) [
    | inl hit ↦ let p : ms ≡ ns = ground (arith, rw hit at e) in rw (← p) few
    | inr miss ↦ duplicates-single k d ns (rw few at h) (rw miss at e)
  ]
]

-- without conflicts a key has one column at most
pub positions-single :
    (k : String) (cs : Dict ℕ ResultColumn)
    → is_empty (schema_conflicts_of cs) ≡ true
    → ltb 1 (length (positions (canonical k) cs)) ≡ false
unfolding schema_conflicts_of
positions-single k cs h = by_positions (positions (canonical k) cs) (lookup-indexes_by_key k cs [])
  where
    by_positions :
        (ns : List ℕ) → lookup k (indexes_by_key cs []) ≡ join none ns → ltb 1 (length ns) ≡ false
    by_positions [] e = refl
    by_positions (n ∷ ns) e = duplicates-single k (indexes_by_key cs []) (n ∷ ns) h e

-- the first column of an identity has it
pub lookup-positions :
    (i : Identity) (m : ℕ) (ms : List ℕ) (cs : Dict ℕ ResultColumn)
    → is_dict cs ≡ true
    → positions i cs ≡ m ∷ ms
    → (c : ResultColumn) × (lookup m cs ≡ some c) × (i ≡ column_identity c)
unfolding positions
lookup-positions i m ms [] h e = absurd (cc)
lookup-positions i m ms ((n, c) ∷ cs) h e =
    elim (Bool-cases (same_identity i (column_identity c))) [
      | inl here ↦
          let p : n ≡ m = ground (arith, rw here at e) in
          (c, rw (← p, beq_refl n) refl, (same_identity_iff i (column_identity c)).0 here)
      | inr other ↦
          let (d, found, q) = lookup-positions i m ms cs (ground arith) (rw other at e) in
          elim (Bool-cases (m == n)) [
            | inr away ↦ (d, rw away found, q)
            | inl both ↦
                let p : m ≡ n = (==_iff m n).0 both in absurd (ground (arith, rw p at found))
          ]
    ]

abbrev pub has_identity : Identity → Option ResultColumn → Bool
has_identity i none = false
has_identity i (some c) = same_identity i (column_identity c)

-- a column of an identity is among its columns
pub any-positions :
    (i : Identity) (n : ℕ) (cs : Dict ℕ ResultColumn)
    → has_identity i (lookup n cs) ≡ true
    → any (◌==◌ n) (positions i cs) ≡ true
unfolding positions
any-positions i n [] h = absurd (ground arith)
any-positions i n ((j, c) ∷ cs) h = elim (Bool-cases (n == j)) [
  | inl here ↦
      let same : same_identity i (column_identity c) ≡ true = rw here at h in rw (same, here) refl
  | inr away ↦
      let rest = any-positions i n cs (rw away at h) in
      elim (Bool-cases (same_identity i (column_identity c))) [
        | inl same ↦ rw (same, away) rest
        | inr other ↦ rw other rest
      ]
]

lookup-columns_from :
    (t : Texts) (n index : ℕ) (js : List Json)
    → n < index
    → lookup n (columns_from t index js) ≡ none
unfolding columns_from
lookup-columns_from t n index [] h = refl
lookup-columns_from t n index (j ∷ js) h =
    let away : (n == index) ≡ false = ground arith in
    rw away (lookup-columns_from t n (suc index) js (omega arith))

columns_from-is_dict :
    (t : Texts) (index : ℕ) (js : List Json) → is_dict (columns_from t index js) ≡ true
unfolding columns_from
columns_from-is_dict t index [] = refl
columns_from-is_dict t index (j ∷ js) =
    rw (lookup-columns_from t index (suc index) js (omega arith))
      (columns_from-is_dict t (suc index) js)

pub result_columns-is_dict : (t : Texts) (layout : Json) → is_dict (result_columns t layout) ≡ true
unfolding result_columns
result_columns-is_dict t (object fs) =
    columns_from-is_dict t 0 (headers_of (candidate (get "h" fs) fs))
result_columns-is_dict t null = refl
result_columns-is_dict t (boolean b) = refl
result_columns-is_dict t (integer n) = refl
result_columns-is_dict t (float s) = refl
result_columns-is_dict t (string s) = refl
result_columns-is_dict t (array items) = refl
