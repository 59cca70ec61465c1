-- ===== src/RaceControl/Board.antt =====
-- The rows of the race-control board and the statements that change them: `_insert_observation`,
-- `_upsert_current`, `_mark_removed` and `_reconcile_snapshot_absences` of
-- server/timing/race_control_store.py. A table lists its rows newest first; the times of writing are
-- left out, and so are columns that are always NULL.
use Prim.Native.Nat.{max}
use balchug_racing.Base.{
  ℕ, suc, String, Bool, true, false, not, ◌&&◌, Option, none, some, List, [], ◌∷◌, ◌==◌,
  if◌then◌else◌, any, find, update, count, str_eq,
}
use balchug_racing.Base.Int.{ℤ, pos, negsuc}
use balchug_racing.RaceControl.Messages.{
  Field, text, line, modality, background_color, font_color, Content, ScreenMessagePatch,
}

-- `action`, and what the board records about a row
pub data Action : Type 0 where
  initial_snapshot upsert delete clear unknown snapshot_reconciliation : Action

pub record RaceControlSource : Type 0 where
  pub source_heat_id : ℤ
  pub source_frame_id : ℤ
  pub source_message_id : ℤ
  pub source_message_ordinal : ℤ
  pub source_key : String
  pub observed_at_us : ℤ

-- a row of `race_control_message_observations`
pub record Observation : Type 0 where
  pub id : ℕ
  pub source : RaceControlSource
  pub source_handle : String
  pub operation : Action
  pub message_id_raw : Option String
  pub content : Content
  pub raw_record_json : Option String
  pub raw_payload_json : String
  pub source_change_ordinal : ℕ

-- where and when a row was first seen, last changed, or removed
pub record Mark : Type 0 where
  pub observed_at_us : ℤ
  pub source_frame_id : ℤ
  pub source_message_id : ℤ
  pub source_key : String
  pub source_change_ordinal : ℕ
  pub observation_id : Option ℕ

-- the columns on the removal of a message
pub record Removal : Type 0 where
  pub removed_at_us : Option ℤ
  pub removal_action : Option Action
  pub removed_source_frame_id : Option ℤ
  pub removed_source_message_id : Option ℤ
  pub removed_source_key : Option String
  pub removed_source_change_ordinal : Option ℕ
  pub removed_observation_id : Option ℕ

-- a row of `race_control_messages_current`
pub record Message : Type 0 where
  pub source_heat_id : ℤ
  pub message_id_raw : String
  pub content : Content
  pub raw_record_json : String
  pub is_active : Bool
  pub first_observation_kind : Action
  pub first : Mark
  pub last_action : Action
  pub last : Mark
  pub removal : Removal

pub record Board : Type 0 where
  pub observations : List Observation
  pub messages : List Message

abbrev pub same_int : ℤ → ℤ → Bool
same_int (pos m) (pos n) = m == n
same_int (negsuc m) (negsuc n) = m == n
same_int (pos m) (negsuc n) = false
same_int (negsuc m) (pos n) = false

-- the unique key of the observations
abbrev pub is_observation : ℤ → String → ℕ → Observation → Bool
is_observation heat key ordinal o =
    same_int o.source.source_heat_id heat
    && str_eq o.source.source_key key
    && o.source_change_ordinal == ordinal

-- the primary key of the current messages
abbrev pub is_message : ℤ → String → Message → Bool
is_message heat id m = same_int m.source_heat_id heat && str_eq m.message_id_raw id

-- the id that SQLite gives: one more than the largest
abbrev pub largest_id : List Observation → ℕ
largest_id [] = 0
largest_id (o ∷ os) = max o.id (largest_id os)

abbrev pub same_field : Field → Field → Bool
same_field text text = true
same_field line line = true
same_field modality modality = true
same_field background_color background_color = true
same_field font_color font_color = true
same_field _ _ = false

-- `"text" in patch.changed_fields`
abbrev pub changes : ScreenMessagePatch → Field → Bool
changes p f = any (same_field f) p.changed_fields

abbrev pub no_content : Content
no_content = record {
  text = none;
  line = none;
  modality = none;
  background_color = none;
  font_color = none;
}

-- the fields that the provider changed, over `old`
unfoldable pub merge : ScreenMessagePatch → Content → Content
merge p old = record {
  text = if changes p text then p.content.text else old.text;
  line = if changes p line then p.content.line else old.line;
  modality = if changes p modality then p.content.modality else old.modality;
  background_color =
      if changes p background_color then p.content.background_color else old.background_color;
  font_color = if changes p font_color then p.content.font_color else old.font_color;
}

-- what an observation takes from a patch, or from a removed id
abbrev pub observed_content : Option ScreenMessagePatch → Content
observed_content none = no_content
observed_content (some p) = merge p no_content

abbrev pub observed_id : Option ScreenMessagePatch → Option String → Option String
observed_id none id = id
observed_id (some p) id = some p.provider_message_id

abbrev pub observed_json : Option ScreenMessagePatch → Option String
observed_json none = none
observed_json (some p) = some p.raw_payload_json

-- What `_insert_observation` answers: the id of the row, and whether it was inserted now.
pub record Inserted : Type 0 where
  pub id : ℕ
  pub inserted : Bool
  pub board : Board

abbrev pub insert_unless :
    Option Observation
    → RaceControlSource
    → String
    → Action
    → ℕ
    → String
    → Option ScreenMessagePatch
    → Option String
    → Board
    → Inserted
insert_unless (some o) source handle action ordinal payload patch id b = record {
  id = o.id;
  inserted = false;
  board = b;
}
insert_unless none source handle action ordinal payload patch id b = record {
  id = suc (largest_id b.observations);
  inserted = true;
  board = record b {
    observations =
        record {
          id = suc (largest_id b.observations);
          source = source;
          source_handle = handle;
          operation = action;
          message_id_raw = observed_id patch id;
          content = observed_content patch;
          raw_record_json = observed_json patch;
          raw_payload_json = payload;
          source_change_ordinal = ordinal;
        }
        ∷ b.observations;
  };
}

-- `_insert_observation`: `INSERT OR IGNORE`, then the row is read back by its key, which finds it
unfoldable pub insert_observation :
    RaceControlSource
    → String
    → Action
    → ℕ
    → String
    → Option ScreenMessagePatch
    → Option String
    → Board
    → Inserted
unfolding merge
insert_observation source handle action ordinal payload patch id b =
    insert_unless
      (find (is_observation source.source_heat_id source.source_key ordinal) b.observations) source
      handle action ordinal payload patch id b

abbrev pub mark_of : RaceControlSource → ℕ → Option ℕ → Mark
mark_of source ordinal observation_id = record {
  observed_at_us = source.observed_at_us;
  source_frame_id = source.source_frame_id;
  source_message_id = source.source_message_id;
  source_key = source.source_key;
  source_change_ordinal = ordinal;
  observation_id = observation_id;
}

abbrev pub no_removal : Removal
no_removal = record {
  removed_at_us = none;
  removal_action = none;
  removed_source_frame_id = none;
  removed_source_message_id = none;
  removed_source_key = none;
  removed_source_change_ordinal = none;
  removed_observation_id = none;
}

unfoldable pub new_message : RaceControlSource → Action → ScreenMessagePatch → ℕ → Message
unfolding merge
new_message source action p observation_id = record {
  source_heat_id = source.source_heat_id;
  message_id_raw = p.provider_message_id;
  content = merge p no_content;
  raw_record_json = p.raw_payload_json;
  is_active = true;
  first_observation_kind = action;
  first = mark_of source p.source_ordinal (some observation_id);
  last_action = action;
  last = mark_of source p.source_ordinal (some observation_id);
  removal = no_removal;
}

unfoldable pub changed_message :
    RaceControlSource → Action → ScreenMessagePatch → ℕ → Message → Message
unfolding merge
changed_message source action p observation_id m = record m {
  content = merge p m.content;
  raw_record_json = p.raw_payload_json;
  is_active = true;
  last_action = action;
  last = mark_of source p.source_ordinal (some observation_id);
  removal = no_removal;
}

abbrev pub upsert_unless :
    Option Message → RaceControlSource → Action → ScreenMessagePatch → ℕ → Board → Board
upsert_unless none source action p observation_id b = record b {
  messages = new_message source action p observation_id ∷ b.messages;
}
upsert_unless (some m) source action p observation_id b = record b {
  messages =
      update (is_message source.source_heat_id p.provider_message_id)
        (changed_message source action p observation_id) b.messages;
}

-- `_upsert_current`, which always affects one row
unfoldable pub upsert_current : RaceControlSource → Action → ScreenMessagePatch → ℕ → Board → Board
unfolding new_message changed_message
upsert_current source action p observation_id b =
    upsert_unless (find (is_message source.source_heat_id p.provider_message_id) b.messages) source
      action p observation_id b

unfoldable pub removed_message : RaceControlSource → Action → Option ℕ → Message → Message
removed_message source action observation_id m = record m {
  is_active = false;
  last_action = action;
  last = mark_of source 0 observation_id;
  removal = record {
    removed_at_us = some source.observed_at_us;
    removal_action = some action;
    removed_source_frame_id = some source.source_frame_id;
    removed_source_message_id = some source.source_message_id;
    removed_source_key = some source.source_key;
    removed_source_change_ordinal = some 0;
    removed_observation_id = observation_id;
  };
}

-- a row of the heat that is shown, and that `chosen` chooses by its id
abbrev pub is_shown : ℤ → (String → Bool) → Message → Bool
is_shown heat chosen m = same_int m.source_heat_id heat && m.is_active && chosen m.message_id_raw

-- The `UPDATE` of `_mark_removed` and of `_reconcile_snapshot_absences`, and its `rowcount`.
unfoldable pub remove_shown :
    RaceControlSource → Action → Option ℕ → (String → Bool) → Board → ℕ × Board
unfolding removed_message
remove_shown source action observation_id chosen b = (
  count (is_shown source.source_heat_id chosen) b.messages,
  record b {
    messages =
        update (is_shown source.source_heat_id chosen)
          (removed_message source action observation_id) b.messages;
  },
)

-- `_mark_removed`: of one message, of none, or of all, for which the code writes `None`
pub data Which : Type 0 where
  all_messages : Which
  one_message : String → Which
  no_message : Which

unfoldable pub mark_removed : RaceControlSource → Which → Action → Option ℕ → Board → ℕ × Board
unfolding remove_shown
mark_removed source all_messages action observation_id b =
    remove_shown source action observation_id (λ _. true) b
mark_removed source (one_message id) action observation_id b =
    remove_shown source action observation_id (λ k. str_eq k id) b
mark_removed source no_message action observation_id b = (0, b)

-- `_reconcile_snapshot_absences`
unfoldable pub reconcile_snapshot_absences : RaceControlSource → List String → Board → ℕ × Board
unfolding mark_removed remove_shown
reconcile_snapshot_absences source [] b =
    mark_removed source all_messages snapshot_reconciliation none b
reconcile_snapshot_absences source (id ∷ ids) b =
    remove_shown source snapshot_reconciliation none (λ k. not (any (str_eq k) (id ∷ ids))) b
