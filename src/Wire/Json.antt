-- ===== src/Wire/Json.antt =====
-- JSON values, as Python's `json` reads them: an integer is an `int`, any other number a `float`,
-- which is kept as its text. A dict lists its keys in the order of insertion, each of them once.
use balchug_racing.Base.{String, Bool, Option, none, some, List, [], ◌∷◌, str_eq, if◌then◌else◌}
use balchug_racing.Base.Int.{ℤ}

mutual
  pub data Json : Type 0 where
    null : Json
    boolean : Bool → Json
    integer : ℤ → Json
    float : String → Json
    string : String → Json
    array : Items → Json
    object : Fields → Json

  pub data Items : Type 0 where
    end : Items
    item : Json → Items → Items

  pub data Fields : Type 0 where
    nil : Fields
    field : String → Json → Fields → Fields

-- `list(items)`
abbrev pub to_list : Items → List Json
to_list end = []
to_list (item j js) = j ∷ to_list js

abbrev pub to_items : List Json → Items
to_items [] = end
to_items (j ∷ js) = item j (to_items js)

-- `payload.get(name)`, with `none` for a missing key
abbrev pub get : String → Fields → Option Json
get name nil = none
get name (field key j fs) = if str_eq key name then some j else get name fs
