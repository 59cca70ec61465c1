-- ===== src/Canonical/Duration.antt =====
-- `parse_ts_time` of server/timing/normalization.py and `_duration_us` of
-- server/timing/canonical_laps.py.
use Prim.Native.Char.{code}
use balchug_racing.Base.{
  ℕ, ◌+◌, ◌-◌, ◌*◌, String, Bool, not, ◌&&◌, ◌||◌, Option, none, some, List, [], ◌∷◌, ltb, leb,
  ◌==◌, if◌then◌else◌, all, any,
}
use balchug_racing.Base.Int.{ℤ, pos, negsuc}

-- A JSON value of a cell: a whole number, a text, or anything else (`None` and floats too).
pub data Value : Type 0 where
  whole : ℤ → Value
  text : String → Value
  unknown : Value

abbrev pub codes : String → List ℕ
codes String.[] = []
codes (String.◌∷◌ c s) = code c ∷ codes s

-- what `str.strip` removes
abbrev pub is_space : ℕ → Bool
is_space c =
    (leb 9 c && leb c 13)
    || (leb 28 c && leb c 32)
    || any (◌==◌ c) (133 ∷ 160 ∷ 5760 ∷ 8232 ∷ 8233 ∷ 8239 ∷ 8287 ∷ 12288 ∷ [])
    || (leb 8192 c && leb c 8202)

unfoldable pub lstrip : List ℕ → List ℕ
lstrip [] = []
lstrip (c ∷ cs) = if is_space c then lstrip cs else c ∷ cs

-- the text without the spaces at its end
unfoldable pub rstrip : List ℕ → List ℕ
rstrip [] = []
rstrip (c ∷ cs) = keep c (rstrip cs)
  where
    keep : ℕ → List ℕ → List ℕ
    keep d [] = if is_space d then [] else d ∷ []
    keep d (e ∷ es) = d ∷ e ∷ es

-- `candidate.isascii() and candidate.isdigit()`, for a text that is not empty
abbrev pub is_digit : ℕ → Bool
is_digit c = leb 48 c && leb c 57

-- `int(candidate)`
unfoldable pub to_int : ℕ → List ℕ → ℕ
to_int acc [] = acc
to_int acc (c ∷ cs) = to_int (acc * 10 + (c - 48)) cs

unfoldable pub parse_digits : List ℕ → Option ℕ
unfolding to_int
parse_digits [] = none
parse_digits (c ∷ cs) = if all is_digit (c ∷ cs) then some (to_int 0 (c ∷ cs)) else none

unfoldable pub parse_ts_time : Value → Option ℕ
unfolding lstrip rstrip parse_digits
parse_ts_time (whole (pos n)) = some n
parse_ts_time (whole (negsuc n)) = none
parse_ts_time (text s) = parse_digits (rstrip (lstrip (codes s)))
parse_ts_time unknown = none

abbrev pub open_ended_ts_time : ℕ
open_ended_ts_time = 9223372036854775807

unfoldable pub duration_us : Value → Option ℕ
unfolding parse_ts_time
duration_us value = elim (parse_ts_time value) [
  | none ↦ none
  | some parsed ↦
      if not (leb 1000000 parsed && ltb parsed open_ended_ts_time) then none else some parsed
]
