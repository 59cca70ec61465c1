-- ===== src/Lifecycle/Validation.antt =====
-- The checks on the arguments in server/timing/lifecycle.py. The arguments have the types of the
-- annotations, so the `isinstance` tests pass; a number is not negative.
use Prim.Native.Char.{code}
use balchug_racing.Base.{
  ℕ, String, Bool, true, false, not, ◌&&◌, ◌||◌, Option, none, some, List, [], ◌∷◌, ltb, leb, ◌==◌,
  if◌then◌else◌, is_some, any, find, length, str_eq,
}
use balchug_racing.Lifecycle.State.{TimingSource, validation_error, unknown_source}
use balchug_racing.Lifecycle.Transaction.{Result, ok, err}

abbrev pub codes : String → List ℕ
codes String.[] = []
codes (String.◌∷◌ c s) = code c ∷ codes s

-- membership in a set of texts or of numbers
abbrev pub one_of : List String → String → Bool
one_of names s = any (str_eq s) names

abbrev pub one_of_numbers : List ℕ → ℕ → Bool
one_of_numbers ns n = any (◌==◌ n) ns

abbrev pub race_durations_s : List ℕ
race_durations_s = 14400 ∷ 21600 ∷ 43200 ∷ 86400 ∷ []

-- `range(2, 9)`
abbrev pub race_required_pits : List ℕ
race_required_pits = 2 ∷ 3 ∷ 4 ∷ 5 ∷ 6 ∷ 7 ∷ 8 ∷ []

abbrev pub modes : List String
modes = "practice" ∷ "qualifying" ∷ "race" ∷ []

abbrev pub actor_kinds : List String
actor_kinds = "engineer_token" ∷ "engineer_session" ∷ "system" ∷ []

abbrev pub default_actor_kind : String
default_actor_kind = "engineer_token"

abbrev pub timing_source_catalog : List TimingSource
timing_source_catalog =
    record {
      slug = "igora";
      display_name = "Igora Drive";
      source_url = "https://livetiming.getraceresults.com/igora";
      timezone_name = "Europe/Moscow";
      adapter_version = "timeservice-signalr-v1";
    }
    ∷ record {
      slug = "moscow";
      display_name = "Moscow Raceway";
      source_url = "https://livetiming.getraceresults.com/moscowraceway";
      timezone_name = "Europe/Moscow";
      adapter_version = "timeservice-signalr-v1";
    }
    ∷ []

-- `_as_source`
unfoldable pub as_source : String → Result TimingSource
as_source source_slug = elim (find (λ s. str_eq s.slug source_slug) timing_source_catalog) [
  | none ↦ err unknown_source
  | some source ↦ ok source
]

-- `_validate_actor_kind`
unfoldable pub validate_actor_kind : Option String → Result String
validate_actor_kind none =
    if one_of actor_kinds default_actor_kind then ok default_actor_kind else err validation_error
validate_actor_kind (some value) =
    if one_of actor_kinds value then ok value else err validation_error

-- what Python's `str.strip` removes
abbrev pub is_space : ℕ → Bool
is_space c =
    (leb 9 c && leb c 13)
    || (leb 28 c && leb c 32)
    || one_of_numbers (133 ∷ 160 ∷ 5760 ∷ 8232 ∷ 8233 ∷ 8239 ∷ 8287 ∷ 12288 ∷ []) c
    || (leb 8192 c && leb c 8202)

-- `s == s.strip()`: there is no space at either end
abbrev pub last_is_space : List ℕ → Bool
last_is_space [] = false
last_is_space (c ∷ []) = is_space c
last_is_space (c ∷ d ∷ cs) = last_is_space (d ∷ cs)

abbrev pub is_stripped : List ℕ → Bool
is_stripped [] = true
is_stripped (c ∷ cs) = not (is_space c) && not (last_is_space (c ∷ cs))

-- `ord(character) < 33 or ord(character) > 126`
abbrev pub is_hidden : ℕ → Bool
is_hidden c = ltb c 33 || ltb 126 c

unfoldable pub validate_key_codes : List ℕ → Result (Unit {0})
validate_key_codes cs =
    if length cs == 0 || ltb 255 (length cs)
    then err validation_error
    else if not (is_stripped cs) || any is_hidden cs
    then err validation_error
    else ok tt

-- `_validate_idempotency_key`
unfoldable pub validate_idempotency_key : Option String → Result (Option String)
unfolding validate_key_codes
validate_idempotency_key none = ok none
validate_idempotency_key (some key) = elim (validate_key_codes (codes key)) [
  | ok _ ↦ ok (some key)
  | err e ↦ err e
]

pub record SessionSpec : Type 0 where
  pub mode : String
  pub race_duration_s : Option ℕ
  pub required_pits : Option ℕ

abbrev pub is_number_of : List ℕ → Option ℕ → Bool
is_number_of ns none = false
is_number_of ns (some n) = one_of_numbers ns n

-- `_validate_session_spec`
unfoldable pub validate_session_spec : String → Option ℕ → Option ℕ → Result SessionSpec
validate_session_spec mode race_duration_s required_pits =
    if not (one_of modes mode)
    then err validation_error
    else if not (str_eq mode "race")
    then (if is_some race_duration_s || is_some required_pits
        then err validation_error
        else ok (record { mode = mode; race_duration_s = none; required_pits = none }))
    else if not (is_number_of race_durations_s race_duration_s)
    then err validation_error
    else if not (is_number_of race_required_pits required_pits)
    then err validation_error
    else ok
        (record { mode = mode; race_duration_s = race_duration_s; required_pits = required_pits })
