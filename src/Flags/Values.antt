-- ===== src/Flags/Values.antt =====
-- `parse_result_state` and `canonical_flag` of server/timing/normalization.py, with the tables that they
-- read. `str.casefold` is a parameter.
use Prim.Native.Char.{Char, code}
use balchug_racing.Base.{
  ℕ, suc, ◌+◌, String, Bool, false, ◌||◌, Option, none, some, List, [], ◌∷◌, ◌==◌, if◌then◌else◌,
  str_eq, all,
}
use balchug_racing.Base.Dict.{Dict, lookup, string_eq}
use balchug_racing.Base.Int.{ℤ, pos, negsuc}
use balchug_racing.Wire.Json.{Json, integer, string}
use balchug_racing.Canonical.Duration.{
  text, codes, is_digit, to_int, parse_ts_time, open_ended_ts_time,
}
use balchug_racing.Grid.Text.{Texts, strip}
use balchug_racing.Grid.Columns.{header_token}

pub data StateKind : Type 0 where
  on_track in_pit out_lap finished unknown : StateKind

pub record ResultState : Type 0 where
  pub raw : Json
  pub kind : StateKind
  pub literal : Option String
  pub timer_target_raw : Option String
  pub timer_target_ts_time : Option ℕ

abbrev pub state_literals : Dict String StateKind
state_literals =
    ("inpit", in_pit) ∷ ("outlap", out_lap) ∷ ("finshd", finished) ∷ ("finished", finished) ∷ []

abbrev pub text_or_none : String → Option String
text_or_none s = if str_eq s "" then none else some s

abbrev pub bare_state : Json → Option String → ResultState
bare_state raw timer = record {
  raw = raw;
  kind = unknown;
  literal = none;
  timer_target_raw = timer;
  timer_target_ts_time = none;
}

-- a time that a timer can run to
abbrev pub closed_time : Option ℕ → Option ℕ
closed_time none = none
closed_time (some n) = if n == open_ended_ts_time then none else some n

abbrev pub timed_state : Json → String → Option ℕ → ResultState
timed_state raw timer none = bare_state raw (text_or_none timer)
timed_state raw timer (some n) = record {
  raw = raw;
  kind = on_track;
  literal = none;
  timer_target_raw = some timer;
  timer_target_ts_time = some n;
}

abbrev pub kind_of_literal : Option StateKind → StateKind
kind_of_literal none = unknown
kind_of_literal (some k) = k

unfoldable pub literal_state : Texts → Json → String → ResultState
unfolding header_token
literal_state t raw literal = record {
  raw = raw;
  kind = kind_of_literal (lookup (header_token t literal) state_literals);
  literal = some literal;
  timer_target_raw = none;
  timer_target_ts_time = none;
}

-- a letter of ASCII, whatever its case; `upper` makes a long s (383) an S too
abbrev pub is_letter : ℕ → Char → Bool
is_letter n c = code c == n || code c == n + 32

-- of the text without the spaces around it: `E` and a time, `S` and a literal, or a literal
unfoldable pub state_of : Texts → Json → String → ResultState
unfolding literal_state parse_ts_time
state_of t raw String.[] = bare_state raw none
state_of t raw (String.◌∷◌ c s) =
    if is_letter 69 c
    then timed_state raw (strip s) (closed_time (parse_ts_time (text (strip s))))
    else if is_letter 83 c || code c == 383
    then literal_state t raw (strip s)
    else literal_state t raw (String.◌∷◌ c s)

unfoldable pub parse_result_state : Texts → Json → ResultState
unfolding state_of
parse_result_state t (string s) = state_of t (string s) (strip s)
parse_result_state t j = bare_state j none

pub data FlagKind : Type 0 where
  not_started ready red safety_car code_60 finish green full_course_yellow unknown_flag : FlagKind

pub record FlagState : Type 0 where
  pub raw : Json
  pub kind : FlagKind
  pub provider_code : Option ℤ
  pub provider_label : Option String

-- `_FLAG_BY_CODE`
abbrev pub flag_of_number : ℕ → Option (FlagKind × String)
flag_of_number n =
    if n == 0
    then some (not_started, "Not started")
    else if n == 1
    then some (ready, "Ready")
    else if n == 2
    then some (red, "Red flag")
    else if n == 3
    then some (safety_car, "Safety car")
    else if n == 4
    then some (code_60, "Code 60")
    else if n == 5
    then some (finish, "Finish flag")
    else if n == 6
    then some (green, "Green flag")
    else if n == 7
    then some (full_course_yellow, "Full course yellow")
    else none

abbrev pub flag_by_code : ℤ → Option (FlagKind × String)
flag_by_code (pos n) = flag_of_number n
flag_by_code (negsuc n) = if n == 0 then some (not_started, "Not started") else none

abbrev pub flag_code_by_label : Dict String ℤ
flag_code_by_label =
    ("notstarted", pos 0)
    ∷ ("ready", pos 1)
    ∷ ("warmupflag", pos 1)
    ∷ ("redflag", pos 2)
    ∷ ("yellowflag", pos 3)
    ∷ ("safetycar", pos 3)
    ∷ ("purpleflag", pos 4)
    ∷ ("code60", pos 4)
    ∷ ("finishflag", pos 5)
    ∷ ("greenflag", pos 6)
    ∷ ("fullcourseyellow", pos 7)
    ∷ ("fcy", pos 7)
    ∷ []

-- `[0-9]+`
abbrev pub is_number : List ℕ → Bool
is_number [] = false
is_number (c ∷ cs) = all is_digit (c ∷ cs)

abbrev pub minus : ℕ → ℤ
minus ℕ.zero = pos 0
minus (suc n) = negsuc n

-- `-?[0-9]+`, and its value
unfoldable pub signed : List ℕ → Option ℤ
unfolding to_int
signed [] = none
signed (c ∷ cs) =
    if c == 45
    then if is_number cs then some (minus (to_int 0 cs)) else none
    else if is_number (c ∷ cs)
    then some (pos (to_int 0 (c ∷ cs)))
    else none

-- `_flag_code`
unfoldable pub flag_code : Json → Option ℤ
unfolding signed
flag_code (integer n) = some n
flag_code (string s) = signed (codes (strip s))
flag_code _ = none

abbrev pub coded_flag : Json → ℤ → Option (FlagKind × String) → FlagState
coded_flag raw c none = record {
  raw = raw;
  kind = unknown_flag;
  provider_code = some c;
  provider_label = none;
}
coded_flag raw c (some (kind, label)) = record {
  raw = raw;
  kind = kind;
  provider_code = some c;
  provider_label = some label;
}

-- `_FLAG_BY_CODE[label_code][0]`, which is `none` for the `KeyError` of a code that is missing
abbrev pub labelled_flag : Json → String → ℤ → Option (FlagKind × String) → Option FlagState
labelled_flag raw label c none = none
labelled_flag raw label c (some (kind, _)) =
    some (record { raw = raw; kind = kind; provider_code = some c; provider_label = some label })

abbrev pub unknown_state : Json → Option String → FlagState
unknown_state raw label = record {
  raw = raw;
  kind = unknown_flag;
  provider_code = none;
  provider_label = label;
}

abbrev pub label_flag : Json → String → Option ℤ → Option FlagState
label_flag raw label none = some (unknown_state raw (text_or_none label))
label_flag raw label (some c) = labelled_flag raw label c (flag_by_code c)

unfoldable pub flag_of : Texts → Json → Option ℤ → Option FlagState
unfolding header_token
flag_of t raw (some c) = some (coded_flag raw c (flag_by_code c))
flag_of t (string s) none =
    label_flag (string s) (strip s) (lookup (header_token t (strip s)) flag_code_by_label)
flag_of t raw none = some (unknown_state raw none)

unfoldable pub canonical_flag : Texts → Json → Option FlagState
unfolding flag_of flag_code
canonical_flag t raw = flag_of t raw (flag_code raw)
