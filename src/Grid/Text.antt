-- ===== src/Grid/Text.antt =====
-- The operations of Python on texts and numbers that server/timing/normalization.py and
-- server/timing/result_grid.py use. `str.casefold` and the text of a float, a list or a dict are
-- parameters.
use Prim.Native.Char.{Char, code}
use balchug_racing.Base.{
  ℕ, suc, zero, ◌/◌, ◌%◌, String, Bool, true, false, ◌&&◌, ◌||◌, Option, none, some, List, [], ◌∷◌,
  ltb, leb, ◌==◌, if◌then◌else◌, all,
}
use balchug_racing.Base.Int.{pos, negsuc}
use balchug_racing.Wire.Json.{Json, null, boolean, integer, string}
use balchug_racing.Canonical.Duration.{is_space, is_digit}

pub record Texts : Type 0 where
  pub casefold : String → String
  pub represent : Json → String

-- `s + t`
abbrev pub append : String → String → String
append String.[] t = t
append (String.◌∷◌ c s) t = String.◌∷◌ c (append s t)

-- the characters that `p` keeps
abbrev pub keep : (ℕ → Bool) → String → String
keep p String.[] = String.[]
keep p (String.◌∷◌ c s) = let rest = keep p s in if p (code c) then String.◌∷◌ c rest else rest

-- `[a-z0-9]`
abbrev pub is_token : ℕ → Bool
is_token c = is_digit c || (leb 97 c && leb c 122)

abbrev pub lstrip_text : String → String
lstrip_text String.[] = String.[]
lstrip_text (String.◌∷◌ c s) =
    let rest = lstrip_text s in if is_space (code c) then rest else String.◌∷◌ c s

abbrev pub unless_blank : Char → String → String
unless_blank c String.[] = if is_space (code c) then String.[] else String.◌∷◌ c String.[]
unless_blank c (String.◌∷◌ d s) = String.◌∷◌ c (String.◌∷◌ d s)

abbrev pub rstrip_text : String → String
rstrip_text String.[] = String.[]
rstrip_text (String.◌∷◌ c s) = unless_blank c (rstrip_text s)

-- `s.strip()`
abbrev pub strip : String → String
strip s = rstrip_text (lstrip_text s)

-- the text after a prefix
abbrev pub after_prefix : String → String → Option String
after_prefix String.[] s = some s
after_prefix (String.◌∷◌ c p) String.[] = none
after_prefix (String.◌∷◌ c p) (String.◌∷◌ d s) =
    let rest = after_prefix p s in if code c == code d then rest else none

-- `[1-9][0-9]*`
abbrev pub is_ordinal : List ℕ → Bool
is_ordinal [] = false
is_ordinal (c ∷ cs) = leb 49 c && leb c 57 && all is_digit cs

abbrev pub digit_char : ℕ → Char
digit_char zero = "0"
digit_char (suc zero) = "1"
digit_char (suc (suc zero)) = "2"
digit_char (suc (suc (suc zero))) = "3"
digit_char (suc (suc (suc (suc zero)))) = "4"
digit_char (suc (suc (suc (suc (suc zero))))) = "5"
digit_char (suc (suc (suc (suc (suc (suc zero)))))) = "6"
digit_char (suc (suc (suc (suc (suc (suc (suc zero))))))) = "7"
digit_char (suc (suc (suc (suc (suc (suc (suc (suc zero)))))))) = "8"
digit_char (suc (suc (suc (suc (suc (suc (suc (suc (suc d))))))))) = "9"

-- the digits of a number before a text; the fuel bounds their number
unfoldable pub print : ℕ → ℕ → String → String
print zero n out = out
print (suc fuel) n out =
    let last = String.◌∷◌ (digit_char (n % 10)) out in
    let rest = print fuel (n / 10) last in if ltb n 10 then last else rest

-- `str(n)`
unfoldable pub str_nat : ℕ → String
unfolding print
str_nat n = print (suc n) n ""

-- `str(value)`
unfoldable pub str_json : Texts → Json → String
unfolding str_nat
str_json t null = "None"
str_json t (boolean true) = "True"
str_json t (boolean false) = "False"
str_json t (integer (pos n)) = str_nat n
str_json t (integer (negsuc n)) = append "-" (str_nat (suc n))
str_json t (string s) = s
str_json t j = t.represent j
