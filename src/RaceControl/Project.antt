-- ===== src/RaceControl/Project.antt =====
-- `project_screen_message` of server/timing/race_control_store.py. `json.dumps` is the parameter
-- `dumps`, which has no result when it raises.
use balchug_racing.Base.{
  ℕ, ◌+◌, String, Bool, true, false, not, ◌&&◌, Option, none, some, List, [], ◌∷◌, ltb,
  if◌then◌else◌, all,
}
use balchug_racing.Base.Int.{ℤ, pos, negsuc}
use balchug_racing.Wire.Json.{Json}
use balchug_racing.Canonical.Duration.{codes, is_space}
use balchug_racing.RaceControl.Messages.{
  ScreenMessagePatch, ScreenMessageUpdate, Operation, snapshot, reset, invalid, message_payload,
  parse_screen_message_update,
}
use balchug_racing.RaceControl.Fits.{fits_patch, fits_source, fitting}
use balchug_racing.RaceControl.Board.{
  Action, initial_snapshot, clear, RaceControlSource, Board, Inserted, insert_observation,
  upsert_current, mark_removed, reconcile_snapshot_absences, Which, all_messages, one_message,
  no_message,
}

pub record RaceControlProjectionResult : Type 0 where
  pub action : Action
  pub observations_written : ℕ
  pub current_messages_affected : ℕ

-- How a call ends: with its answer, or with a `RaceControlStoreError` or an `OverflowError`, and what its
-- caller's transaction then holds.
pub data Projected : Type 0 where
  returns : RaceControlProjectionResult → Board → Projected
  raises : Board → Projected

abbrev pub is_positive : ℤ → Bool
is_positive (pos n) = ltb 0 n
is_positive (negsuc n) = false

abbrev pub is_natural : ℤ → Bool
is_natural (pos n) = true
is_natural (negsuc n) = false

-- `_validate_source`
unfoldable pub is_valid_source : RaceControlSource → Bool
is_valid_source s =
    is_positive s.source_heat_id
    && is_positive s.source_frame_id
    && is_positive s.source_message_id
    && is_natural s.source_message_ordinal
    && not (all is_space (codes s.source_key))
    && is_natural s.observed_at_us

-- `_canonical_json`
abbrev pub or_null : Option String → String
or_null none = "null"
or_null (some s) = s

abbrev pub one_if : Bool → ℕ
one_if true = 1
one_if false = 0

-- what the loop over the patches of a snapshot carries
pub record Progress : Type 0 where
  pub written : ℕ
  pub affected : ℕ
  pub board : Board

-- a patch whose observation is new is applied
unfoldable pub apply_inserted : RaceControlSource → Action → ScreenMessagePatch → Inserted → Board
unfolding upsert_current
apply_inserted source action p i =
    if i.inserted then upsert_current source action p i.id i.board else i.board

-- the body of the loop
unfoldable pub project_patch :
    RaceControlSource → String → String → ScreenMessagePatch → Progress → Progress
unfolding insert_observation apply_inserted
project_patch source handle payload p g =
    let i =
      insert_observation source handle initial_snapshot p.source_ordinal payload (some p) none
        g.board in
    record {
      written = g.written + one_if i.inserted;
      affected = g.affected + one_if i.inserted;
      board = apply_inserted source initial_snapshot p i;
    }

unfoldable pub project_patches :
    RaceControlSource → String → String → List ScreenMessagePatch → Progress → Progress
unfolding project_patch
project_patches source handle payload [] g = g
project_patches source handle payload (p ∷ ps) g =
    project_patches source handle payload ps (project_patch source handle payload p g)

abbrev pub ids_of : List ScreenMessagePatch → List String
ids_of [] = []
ids_of (p ∷ ps) = p.provider_message_id ∷ ids_of ps

abbrev pub snapshot_action : Bool → Action
snapshot_action true = initial_snapshot
snapshot_action false = Action.unknown

-- before the loop over the patches: a snapshot without any is observed itself
unfoldable pub begin_snapshot :
    RaceControlSource → String → String → Bool → List ScreenMessagePatch → Board → Progress
unfolding insert_observation
begin_snapshot source handle payload complete [] b =
    let i = insert_observation source handle (snapshot_action complete) 0 payload none none b in
    record { written = one_if i.inserted; affected = 0; board = i.board }
begin_snapshot source handle payload complete (p ∷ ps) b = record {
  written = 0;
  affected = 0;
  board = b;
}

-- after the loop: absent messages are removed, if the snapshot is complete and new
unfoldable pub end_snapshot : RaceControlSource → ScreenMessageUpdate → Progress → Projected
unfolding reconcile_snapshot_absences
end_snapshot source u g =
    if u.snapshot_complete && ltb 0 g.written
    then (let (n, b) = reconcile_snapshot_absences source (ids_of u.patches) g.board in
        returns
          (record {
            action = snapshot_action u.snapshot_complete;
            observations_written = g.written;
            current_messages_affected = g.affected + n;
          })
          b)
    else returns
        (record {
          action = snapshot_action u.snapshot_complete;
          observations_written = g.written;
          current_messages_affected = g.affected;
        })
        g.board

-- a patch that is refused ends the call, with the patches before it projected
unfoldable pub project_snapshot :
    RaceControlSource → String → String → ScreenMessageUpdate → Board → Projected
unfolding begin_snapshot project_patches end_snapshot fitting
project_snapshot source handle payload u b =
    let g =
      project_patches source handle payload (fitting u.patches)
        (begin_snapshot source handle payload u.snapshot_complete u.patches b) in
    if all fits_patch u.patches then end_snapshot source u g else raises g.board

-- the only patch of an upsert
unfoldable pub project_upsert :
    RaceControlSource → String → String → ScreenMessagePatch → Board → Projected
unfolding insert_observation apply_inserted
project_upsert source handle payload p b =
    let i = insert_observation source handle Action.upsert 0 payload (some p) none b in
    returns
      (record {
        action = Action.upsert;
        observations_written = one_if i.inserted;
        current_messages_affected = one_if i.inserted;
      })
      (apply_inserted source Action.upsert p i)

-- a removal, of one message or of all
unfoldable pub project_removal :
    RaceControlSource → String → String → Action → Option String → Which → Board → Projected
unfolding insert_observation mark_removed
project_removal source handle payload action id which b =
    let i = insert_observation source handle action 0 payload none id b in
    if i.inserted
    then (let (n, after) = mark_removed source which action (some i.id) i.board in
        returns
          (record { action = action; observations_written = 1; current_messages_affected = n })
          after)
    else returns
        (record { action = action; observations_written = 0; current_messages_affected = 0 })
        i.board

-- an update that changes no message
unfoldable pub project_unknown : RaceControlSource → String → String → Board → Projected
unfolding insert_observation
project_unknown source handle payload b =
    let i = insert_observation source handle Action.unknown 0 payload none none b in
    returns
      (record {
        action = Action.unknown;
        observations_written = one_if i.inserted;
        current_messages_affected = 0;
      })
      i.board

abbrev pub which_of : Option String → Which
which_of none = no_message
which_of (some id) = one_message id

unfoldable pub upsert_first :
    RaceControlSource → String → String → List ScreenMessagePatch → Board → Projected
unfolding project_upsert fits_patch
upsert_first source handle payload [] b = raises b
upsert_first source handle payload (p ∷ ps) b =
    if fits_patch p then project_upsert source handle payload p b else raises b

unfoldable pub project_operation :
    Operation → RaceControlSource → String → String → ScreenMessageUpdate → Board → Projected
unfolding project_snapshot upsert_first project_removal project_unknown
project_operation snapshot source handle payload u b = project_snapshot source handle payload u b
project_operation Operation.upsert source handle payload u b =
    upsert_first source handle payload u.patches b
project_operation Operation.delete source handle payload u b =
    project_removal source handle payload Action.delete u.provider_message_id
      (which_of u.provider_message_id) b
project_operation reset source handle payload u b =
    project_removal source handle payload clear none all_messages b
project_operation Operation.unknown source handle payload u b =
    project_unknown source handle payload b
project_operation invalid source handle payload u b = project_unknown source handle payload b

unfoldable pub project_update :
    RaceControlSource → String → String → ScreenMessageUpdate → Board → Projected
unfolding project_operation
project_update source handle payload u b = project_operation u.operation source handle payload u b

-- `project_screen_message`
unfoldable pub project_screen_message :
    (Json → Option String) → RaceControlSource → String → List Json → Board → Projected
unfolding is_valid_source fits_source parse_screen_message_update project_update
project_screen_message dumps source handle args b =
    if is_valid_source source
    then (if fits_source source
        then project_update source handle (or_null (dumps (message_payload args)))
            (parse_screen_message_update dumps handle args) b
        else raises b)
    else raises b
