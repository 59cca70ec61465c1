-- ===== src/Grid/Columns.antt =====
-- The headers of the result grid: `_header_token` to `result_columns` of
-- server/timing/normalization.py.
use balchug_racing.Base.{
  ℕ, suc, String, Option, none, some, List, [], ◌∷◌, if◌then◌else◌, str_eq, any,
}
use balchug_racing.Base.Dict.{Dict, lookup, string_eq}
use balchug_racing.Base.Int.{pos}
use balchug_racing.Wire.Json.{Json, null, integer, string, array, object, Fields, to_list, get}
use balchug_racing.Canonical.Duration.{codes}
use balchug_racing.Grid.Text.{
  Texts, append, keep, is_token, strip, after_prefix, is_ordinal, str_nat, str_json,
}

pub record ResultColumn : Type 0 where
  pub index : ℕ
  pub source_name : String
  pub source_parameter : Option String
  pub key : Option String

unfoldable pub header_token : Texts → String → String
header_token t s = keep is_token (t.casefold s)

abbrev pub result_field_aliases : Dict String String
result_field_aliases =
    ("position", "position_overall")
    ∷ ("pos", "position_overall")
    ∷ ("marker", "marker")
    ∷ ("startnumber", "start_number")
    ∷ ("startno", "start_number")
    ∷ ("nr", "start_number")
    ∷ ("number", "start_number")
    ∷ ("nbr", "start_number")
    ∷ ("state", "state")
    ∷ ("team", "team_name")
    ∷ ("teamname", "team_name")
    ∷ ("driver", "current_driver")
    ∷ ("currentdriver", "current_driver")
    ∷ ("driverincar", "current_driver")
    ∷ ("class", "class_name")
    ∷ ("cls", "class_name")
    ∷ ("positioninclass", "position_class")
    ∷ ("pic", "position_class")
    ∷ ("hole", "gap")
    ∷ ("gap", "gap")
    ∷ ("diff", "diff")
    ∷ ("fastestroundtime", "best_lap")
    ∷ ("best", "best_lap")
    ∷ ("lastroundtime", "last_lap")
    ∷ ("last", "last_lap")
    ∷ ("laps", "laps")
    ∷ ("lap", "laps")
    ∷ ("currentdriverstinttime", "driver_stint")
    ∷ ("stint", "driver_stint")
    ∷ ("pittime", "pit_time")
    ∷ ("lpit", "pit_time")
    ∷ ("pitstops", "pit_stops")
    ∷ ("pit", "pit_stops")
    ∷ ("sectionmarker", "section_marker")
    ∷ ("section", "section_marker")
    ∷ ("s", "section_marker")
    ∷ ("car", "car_name")
    ∷ ("vehicle", "car_name")
    ∷ ("speed", "speed")
    ∷ []

abbrev pub sector_names : List String
sector_names = "sectortimes" ∷ "sectortime" ∷ "sector" ∷ "sect" ∷ []

abbrev pub if_ordinal : Option String → Option String → Option String
if_ordinal none other = other
if_ordinal (some n) other = if is_ordinal (codes n) then some (append "sector_" n) else other

-- the name of a sector and its ordinal; an ordinal begins with a digit, so one name at most is
-- followed by one
unfoldable pub sector_of : List String → String → Option String
sector_of [] token = none
sector_of (name ∷ names) token = if_ordinal (after_prefix name token) (sector_of names token)

-- the ordinal as a parameter of the header
unfoldable pub sector_parameter : Option String → String → Option String
sector_parameter none token = none
sector_parameter (some p) token =
    if any (str_eq token) sector_names then if_ordinal (some (strip p)) none else none

abbrev pub or_else : Option String → Option String → Option String
or_else none other = other
or_else (some k) other = some k

-- `_result_field_key`, of the token
unfoldable pub token_key : Option String → String → Option String
unfolding sector_of sector_parameter
token_key parameter token =
    or_else (lookup token result_field_aliases)
      (or_else (sector_of sector_names token) (sector_parameter parameter token))

unfoldable pub result_field_key : Texts → String → Option String → Option String
unfolding header_token token_key
result_field_key t name parameter = token_key parameter (header_token t name)

-- what a header says: its name, its parameter, and the caption that is shown
abbrev pub name_of : ℕ → Option Json → Json
name_of index none = integer (pos index)
name_of index (some j) = j

abbrev pub parameter_of : Texts → Option Json → Option String
parameter_of t none = none
parameter_of t (some null) = none
parameter_of t (some (string s)) = if str_eq s "" then none else some s
parameter_of t (some j) = some (str_json t j)

abbrev pub source_name_of : Texts → ℕ → Json → String
source_name_of t index null = str_nat index
source_name_of t index j = strip (str_json t j)

-- the key by the name, or else by the caption
abbrev pub caption_key : Texts → Option String → Option String → Option String → Option String
caption_key t (some k) parameter caption = some k
caption_key t none parameter none = none
caption_key t none parameter (some c) = result_field_key t (strip c) parameter

unfoldable pub column : Texts → ℕ → Json → Option Json → Option Json → ResultColumn
unfolding result_field_key str_json
column t index name parameter caption =
    let source_name = source_name_of t index name in
    let source_parameter = parameter_of t parameter in
    record {
      index = index;
      source_name = source_name;
      source_parameter = source_parameter;
      key =
          caption_key t (result_field_key t source_name source_parameter) source_parameter
            (parameter_of t caption);
    }

unfoldable pub header_column : Texts → ℕ → Json → ResultColumn
unfolding column
header_column t index (object fs) =
    column t index (name_of index (get "n" fs)) (get "p" fs) (get "c" fs)
header_column t index j = column t index j none none

-- the loop over the headers
unfoldable pub columns_from : Texts → ℕ → List Json → Dict ℕ ResultColumn
unfolding header_column
columns_from t index [] = []
columns_from t index (j ∷ js) = (index, header_column t index j) ∷ columns_from t (suc index) js

abbrev pub headers_of : Option Json → List Json
headers_of (some (array items)) = to_list items
headers_of _ = []

-- `layout["l"].get("h")`
abbrev pub inner_headers : Option Json → Option Json
inner_headers (some (object fs)) = get "h" fs
inner_headers _ = none

abbrev pub candidate : Option Json → Fields → Option Json
candidate none fs = inner_headers (get "l" fs)
candidate (some null) fs = inner_headers (get "l" fs)
candidate (some j) fs = some j

unfoldable pub result_columns : Texts → Json → Dict ℕ ResultColumn
unfolding columns_from
result_columns t (object fs) = columns_from t 0 (headers_of (candidate (get "h" fs) fs))
result_columns t _ = []
