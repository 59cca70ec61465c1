-- ===== src/Grid/Conflicts.antt =====
-- About the conflicts of a layout (`_schema_conflicts` of server/timing/result_grid.py) and their place in
-- a checkpoint.
use balchug_racing.Base.{
  ℕ, suc, ◌≡◌, refl, inl, inr, String, Bool, true, not, ◌&&◌, Option, none, some, List, [], ◌∷◌,
  arith, Bool-cases, str_eq, str_eq_iff, any,
}
use balchug_racing.Base.Dict.{Dict, lookup, nat_eq, string_eq}
use balchug_racing.Base.Ordered.{all_items}
use balchug_racing.Wire.Json.{Json, null, boolean, integer, float, string, array, object, get}
use balchug_racing.Canonical.Duration.{codes}
use balchug_racing.Grid.Text.{Texts, append, after_prefix, is_ordinal, strip}
use balchug_racing.Grid.Columns.{
  ResultColumn, result_columns, columns_from, header_column, column, caption_key, result_field_key,
  token_key, result_field_aliases, sector_of, sector_parameter, sector_names, if_ordinal, or_else,
  parameter_of, name_of, header_token, source_name_of, headers_of, candidate,
}

abbrev pub is_text : String → Bool
is_text s = not (str_eq s "")

-- a key that is there is not the empty text
abbrev pub is_key : Option String → Bool
is_key none = true
is_key (some k) = is_text k

cons-is_text : (c : Prim.Native.Char.Char) (s : String) → is_text (String.◌∷◌ c s) ≡ true
cons-is_text c s = elim (Bool-cases (str_eq (String.◌∷◌ c s) "")) [
  | inr different ↦ rw different refl
  | inl same ↦ let p : String.◌∷◌ c s ≡ "" = (str_eq_iff (String.◌∷◌ c s) "").0 same in absurd (cc)
]

all_values : Dict String String → Bool
all_values [] = true
all_values ((k, v) ∷ d) = is_text v && all_values d

lookup-is_key :
    (k : String) (d : Dict String String) → all_values d ≡ true → is_key (lookup k d) ≡ true
unfolding all_values
lookup-is_key k [] h = refl
lookup-is_key k ((j, v) ∷ d) h = ground (arith, lookup-is_key k d)

or_else-is_key :
    (p q : Option String) → is_key p ≡ true → is_key q ≡ true → is_key (or_else p q) ≡ true
or_else-is_key none q hp hq = hq
or_else-is_key (some k) q hp hq = hp

if_ordinal-is_key : (p q : Option String) → is_key q ≡ true → is_key (if_ordinal p q) ≡ true
if_ordinal-is_key none q h = h
if_ordinal-is_key (some n) q h = elim (Bool-cases (is_ordinal (codes n))) [
  | inl fits ↦ rw fits (cons-is_text "s" (append "ector_" n))
  | inr misses ↦ rw misses h
]

sector_of-is_key : (names : List String) (token : String) → is_key (sector_of names token) ≡ true
unfolding sector_of
sector_of-is_key [] token = refl
sector_of-is_key (name ∷ names) token =
    if_ordinal-is_key (after_prefix name token) (sector_of names token)
      (sector_of-is_key names token)

sector_parameter-is_key :
    (p : Option String) (token : String) → is_key (sector_parameter p token) ≡ true
unfolding sector_parameter
sector_parameter-is_key none token = refl
sector_parameter-is_key (some p) token = elim (Bool-cases (any (str_eq token) sector_names)) [
  | inl sector ↦ rw sector (if_ordinal-is_key (some (strip p)) none refl)
  | inr other ↦ rw other refl
]

result_field_key-is_key :
    (t : Texts) (name : String) (p : Option String) → is_key (result_field_key t name p) ≡ true
unfolding result_field_key token_key all_values
result_field_key-is_key t name p =
    let token = header_token t name in
    or_else-is_key (lookup token result_field_aliases)
      (or_else (sector_of sector_names token) (sector_parameter p token))
      (lookup-is_key token result_field_aliases refl)
      (or_else-is_key (sector_of sector_names token) (sector_parameter p token)
        (sector_of-is_key sector_names token) (sector_parameter-is_key p token))

caption_key-is_key :
    (t : Texts) (key p caption : Option String)
    → is_key key ≡ true
    → is_key (caption_key t key p caption) ≡ true
caption_key-is_key t (some k) p caption h = h
caption_key-is_key t none p none h = refl
caption_key-is_key t none p (some c) h = result_field_key-is_key t (strip c) p

column-is_key :
    (t : Texts) (index : ℕ) (name : Json) (p caption : Option Json)
    → is_key (column t index name p caption).key ≡ true
unfolding column
column-is_key t index name p caption =
    let key = result_field_key t (source_name_of t index name) (parameter_of t p) in
    caption_key-is_key t key (parameter_of t p) (parameter_of t caption)
      (result_field_key-is_key t (source_name_of t index name) (parameter_of t p))

header_column-is_key :
    (t : Texts) (index : ℕ) (j : Json) → is_key (header_column t index j).key ≡ true
unfolding header_column
header_column-is_key t index (object fs) =
    column-is_key t index (name_of index (get "n" fs)) (get "p" fs) (get "c" fs)
header_column-is_key t index null = column-is_key t index null none none
header_column-is_key t index (boolean b) = column-is_key t index (boolean b) none none
header_column-is_key t index (integer n) = column-is_key t index (integer n) none none
header_column-is_key t index (float s) = column-is_key t index (float s) none none
header_column-is_key t index (string s) = column-is_key t index (string s) none none
header_column-is_key t index (array items) = column-is_key t index (array items) none none

abbrev pub have_keys : Dict ℕ ResultColumn → Bool
have_keys = all_items (λ n c. is_key c.key)

columns_from-have_keys :
    (t : Texts) (index : ℕ) (js : List Json) → have_keys (columns_from t index js) ≡ true
unfolding columns_from
columns_from-have_keys t index [] = refl
columns_from-have_keys t index (j ∷ js) =
    rw (header_column-is_key t index j) (columns_from-have_keys t (suc index) js)

pub result_columns-have_keys :
    (t : Texts) (layout : Json) → have_keys (result_columns t layout) ≡ true
unfolding result_columns
result_columns-have_keys t (object fs) =
    columns_from-have_keys t 0 (headers_of (candidate (get "h" fs) fs))
result_columns-have_keys t null = refl
result_columns-have_keys t (boolean b) = refl
result_columns-have_keys t (integer n) = refl
result_columns-have_keys t (float s) = refl
result_columns-have_keys t (string s) = refl
result_columns-have_keys t (array items) = refl
