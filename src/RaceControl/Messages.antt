-- ===== src/RaceControl/Messages.antt =====
-- The parser of screen messages, server/timing/screen_messages.py. `json.dumps` is the parameter
-- `dumps`, which has no result when it raises. The arguments of a message are a list.
use balchug_racing.Base.{
  ℕ, suc, String, Bool, true, false, Option, none, some, List, [], ◌∷◌, ◌++◌, if◌then◌else◌, length,
  all, str_eq, map,
}
use balchug_racing.Base.Int.{ℤ}
use balchug_racing.Wire.Json.{
  Json, null, integer, string, array, object, Fields, to_list, to_items, get,
}
use balchug_racing.Canonical.Duration.{codes, is_space}

pub data Field : Type 0 where
  text line modality background_color font_color : Field

-- an error, or one of an item of a snapshot
pub data ParseError : Type 0 where
  plain : String → ParseError
  snapshot_item : ℕ → String → ParseError

pub data Operation : Type 0 where
  snapshot reset upsert delete unknown invalid : Operation

-- the five columns that a message has
pub record Content : Type 0 where
  pub text : Option String
  pub line : Option ℤ
  pub modality : Option ℤ
  pub background_color : Option String
  pub font_color : Option String

pub record ScreenMessagePatch : Type 0 where
  pub provider_message_id : String
  pub source_ordinal : ℕ
  pub application_ordinal : ℕ
  pub content : Content
  pub changed_fields : List Field
  pub raw_payload_json : String

pub record ScreenMessageUpdate : Type 0 where
  pub handle : String
  pub operation : Operation
  pub patches : List ScreenMessagePatch
  pub provider_message_id : Option String
  pub snapshot_complete : Bool
  pub errors : List ParseError

-- what reading a field gives: its value, and what it adds to `changed_fields` and to `errors`
pub record Reading (A : Type 0) : Type 0 where
  pub value : Option A
  pub changed : List Field
  pub errors : List String

-- `_string_field`, of the value of the field
unfoldable pub string_field : Field → String → Option Json → Reading String
string_field f error none = record { value = none; changed = []; errors = [] }
string_field f error (some null) = record { value = none; changed = []; errors = [] }
string_field f error (some (string s)) = record { value = some s; changed = f ∷ []; errors = [] }
string_field f error (some _) = record { value = none; changed = []; errors = error ∷ [] }

-- `_integer_field`, of the value of the field
unfoldable pub integer_field : Field → String → Option Json → Reading ℤ
integer_field f error none = record { value = none; changed = []; errors = [] }
integer_field f error (some null) = record { value = none; changed = []; errors = [] }
integer_field f error (some (integer n)) = record { value = some n; changed = f ∷ []; errors = [] }
integer_field f error (some _) = record { value = none; changed = []; errors = error ∷ [] }

-- `_provider_message_id`
unfoldable pub provider_message_id : Option Json → Option String
provider_message_id (some (string s)) = if all is_space (codes s) then none else some s
provider_message_id _ = none

-- `json.dumps`, or `{}` and an error
abbrev pub json_or_empty : Option String → String
json_or_empty none = "{}"
json_or_empty (some s) = s

abbrev pub json_errors : Option String → List String
json_errors none = "raw_payload_not_json" ∷ []
json_errors (some s) = []

-- The patch of an object with an id.
unfoldable pub patch_of :
    (Json → Option String) → Fields → String → ℕ → ℕ → ScreenMessagePatch × List String
unfolding string_field integer_field
patch_of dumps fs id source_ordinal application_ordinal =
    let t = string_field text "invalid_text" (get "t" fs) in
    let l = integer_field line "invalid_line" (get "l" fs) in
    let m = integer_field modality "invalid_modality" (get "m" fs) in
    let b = string_field background_color "invalid_background_color" (get "bc" fs) in
    let f = string_field font_color "invalid_font_color" (get "fc" fs) in
    (
      record {
        provider_message_id = id;
        source_ordinal = source_ordinal;
        application_ordinal = application_ordinal;
        content = record {
          text = t.value;
          line = l.value;
          modality = m.value;
          background_color = b.value;
          font_color = f.value;
        };
        changed_fields = t.changed ++ (l.changed ++ (m.changed ++ (b.changed ++ f.changed)));
        raw_payload_json = json_or_empty (dumps (object fs));
      },
      t.errors
          ++ (l.errors
              ++ (m.errors ++ (b.errors ++ (f.errors ++ json_errors (dumps (object fs)))))),
    )

abbrev pub some_patch : ScreenMessagePatch × List String → Option ScreenMessagePatch × List String
some_patch (p, errors) = (some p, errors)

unfoldable pub patch_with_id :
    (Json → Option String)
    → Fields
    → Option String
    → ℕ
    → ℕ
    → Option ScreenMessagePatch × List String
unfolding patch_of
patch_with_id dumps fs none source_ordinal application_ordinal =
    (none, "invalid_provider_message_id" ∷ [])
patch_with_id dumps fs (some id) source_ordinal application_ordinal =
    some_patch (patch_of dumps fs id source_ordinal application_ordinal)

-- `_parse_patch`
unfoldable pub parse_patch :
    (Json → Option String) → Json → ℕ → ℕ → Option ScreenMessagePatch × List String
unfolding patch_with_id provider_message_id
parse_patch dumps (object fs) source_ordinal application_ordinal =
    patch_with_id dumps fs (provider_message_id (get "Id" fs)) source_ordinal application_ordinal
parse_patch dumps _ source_ordinal application_ordinal = (none, "expected_message_object" ∷ [])

abbrev pub reverse_onto : List Json → List Json → List Json
reverse_onto [] done = done
reverse_onto (j ∷ js) done = reverse_onto js (j ∷ done)

abbrev pub add_patch : Option ScreenMessagePatch → List ScreenMessagePatch → List ScreenMessagePatch
add_patch none ps = ps
add_patch (some p) ps = p ∷ ps

-- The loop of `_parse_snapshot` over the items, last one first: the item before the others that
-- are left has their number as its index.
unfoldable pub parse_items :
    (Json → Option String) → ℕ → List Json → List ScreenMessagePatch × List ParseError
unfolding parse_patch
parse_items dumps application_ordinal [] = ([], [])
parse_items dumps application_ordinal (j ∷ js) =
    let (p, errors) = parse_patch dumps j (length js) application_ordinal in
    let (ps, more) = parse_items dumps (suc application_ordinal) js in
    (add_patch p ps, map (snapshot_item (length js)) errors ++ more)

abbrev pub is_empty : List ParseError → Bool
is_empty [] = true
is_empty (e ∷ es) = false

abbrev pub update_of : String → Operation → ScreenMessageUpdate
update_of handle operation = record {
  handle = handle;
  operation = operation;
  patches = [];
  provider_message_id = none;
  snapshot_complete = false;
  errors = [];
}

-- `_parse_snapshot`
unfoldable pub parse_snapshot : (Json → Option String) → String → Json → ScreenMessageUpdate
unfolding parse_items
parse_snapshot dumps handle null = record (update_of handle snapshot) { snapshot_complete = true }
parse_snapshot dumps handle (array items) =
    let (patches, errors) = parse_items dumps 0 (reverse_onto (to_list items) []) in
    record (update_of handle snapshot) {
      patches = patches;
      snapshot_complete = is_empty errors;
      errors = errors;
    }
parse_snapshot dumps handle _ = record (update_of handle invalid) {
  errors = plain "expected_snapshot_list" ∷ [];
}

abbrev pub upsert_of : String → Option ScreenMessagePatch × List String → ScreenMessageUpdate
upsert_of handle (none, errors) = record (update_of handle invalid) { errors = map plain errors }
upsert_of handle (some p, errors) = record (update_of handle upsert) {
  patches = p ∷ [];
  errors = map plain errors;
}

abbrev pub delete_of : String → Option String → ScreenMessageUpdate
delete_of handle none = record (update_of handle invalid) {
  errors = plain "invalid_provider_message_id" ∷ [];
}
delete_of handle (some id) = record (update_of handle delete) { provider_message_id = some id }

-- `parse_screen_message_payload`
unfoldable pub parse_screen_message_payload :
    (Json → Option String) → String → Json → ScreenMessageUpdate
unfolding parse_snapshot parse_patch provider_message_id
parse_screen_message_payload dumps handle payload =
    if str_eq handle "m_i"
    then parse_snapshot dumps handle payload
    else if str_eq handle "m_a"
    then update_of handle reset
    else if str_eq handle "m_c"
    then upsert_of handle (parse_patch dumps payload 0 0)
    else if str_eq handle "m_d"
    then delete_of handle (provider_message_id (some payload))
    else update_of handle unknown

-- `_message_payload` and, in the store, `_unwrap_signalr_args`
abbrev pub message_payload : List Json → Json
message_payload (j ∷ []) = j
message_payload args = array (to_items args)

-- `parse_screen_message_update`
unfoldable pub parse_screen_message_update :
    (Json → Option String) → String → List Json → ScreenMessageUpdate
unfolding parse_screen_message_payload
parse_screen_message_update dumps handle args =
    parse_screen_message_payload dumps handle (message_payload args)
