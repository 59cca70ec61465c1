-- ===== src/RaceControl/Wellformed.antt =====
-- About the rows of the board (server/timing/race_control_store.py) and the constraints of their
-- table.
use balchug_racing.Base.{
  ℕ, ◌≡◌, refl, ◌∙◌, ◌⊎◌, inl, inr, String, Bool, true, false, not, ◌&&◌, Option, none, some, List,
  [], ◌∷◌, arith, ltb, Bool-cases, any, all, find, str_eq, All, update, is_some,
}
use balchug_racing.Wire.Json.{Json}
use balchug_racing.RaceControl.Messages.{
  ScreenMessagePatch, ScreenMessageUpdate, Operation, snapshot, reset, invalid, message_payload,
  parse_screen_message_update,
}
use balchug_racing.RaceControl.Board.{
  Action, initial_snapshot, clear, snapshot_reconciliation, RaceControlSource, Observation, Board,
  Inserted, is_observation, insert_observation, insert_unless, upsert_current, upsert_unless,
  mark_removed, remove_shown, reconcile_snapshot_absences, Which, all_messages, one_message,
  no_message, is_message,
}
use balchug_racing.RaceControl.Fits.{fits_patch, fits_source, fitting}
use balchug_racing.RaceControl.Project.{
  Projected, returns, raises, is_valid_source, or_null, Progress, apply_inserted, project_patch,
  project_patches, ids_of, snapshot_action, begin_snapshot, end_snapshot, project_snapshot,
  project_upsert, project_removal, project_unknown, which_of, upsert_first, project_operation,
  project_update, project_screen_message,
}
use balchug_racing.RaceControl.Board.{
  Message, new_message, changed_message, removed_message, is_shown,
}

-- the `CHECK` of `race_control_messages_current`: a message is shown, or its removal is known
abbrev pub IsMarked : Message → Type 0
IsMarked m =
    ((m.is_active ≡ true)
      × (m.removal.removed_at_us ≡ none)
      × (m.removal.removal_action ≡ none)
      × (m.removal.removed_source_frame_id ≡ none)
      × (m.removal.removed_source_message_id ≡ none)
      × (m.removal.removed_source_key ≡ none)
      × (m.removal.removed_source_change_ordinal ≡ none)
      × (m.removal.removed_observation_id ≡ none))
    ⊎ ((m.is_active ≡ false)
        × (is_some m.removal.removed_at_us ≡ true)
        × (is_some m.removal.removal_action ≡ true)
        × (is_some m.removal.removed_source_key ≡ true))

-- no two rows have the same primary key
abbrev pub IsKeyed : List Message → Type 0
IsKeyed [] = Unit
IsKeyed (m ∷ ms) = (any (is_message m.source_heat_id m.message_id_raw) ms ≡ false) × IsKeyed ms

pub record IsWellFormed (b : Board) : Type 0 where
  pub marked : All IsMarked b.messages
  pub keyed : IsKeyed b.messages

any-update :
    (p q : Message → Bool) (f : Message → Message) (ms : List Message)
    → ((m : Message) → p (f m) ≡ p m)
    → any p (update q f ms) ≡ any p ms
any-update p q f [] h = refl
any-update p q f (m ∷ ms) h = ground (arith, h m, any-update p q f ms h)

-- an update that keeps the keys and marks the rows it changes
module _ (q : Message → Bool) (f : Message → Message)
    (same_heat : (m : Message) → (f m).source_heat_id ≡ m.source_heat_id)
    (same_id : (m : Message) → (f m).message_id_raw ≡ m.message_id_raw)
    (marks : (m : Message) → IsMarked (f m)) where
  update-IsMarked : (ms : List Message) → All IsMarked ms → All IsMarked (update q f ms)
  update-IsMarked [] h = tt
  update-IsMarked (m ∷ ms) h = elim (Bool-cases (q m)) [
    | inl hit ↦ rw hit (marks m, update-IsMarked ms h.1)
    | inr miss ↦ rw miss (h.0, update-IsMarked ms h.1)
  ]

  update-IsKeyed : (ms : List Message) → IsKeyed ms → IsKeyed (update q f ms)
  update-IsKeyed [] h = tt
  update-IsKeyed (m ∷ ms) h =
      let rest =
        any-update (is_message m.source_heat_id m.message_id_raw) q f ms
          (λ x. rw (same_heat x, same_id x) refl)
        ∙ h.0 in
      elim (Bool-cases (q m)) [
        | inl hit ↦ rw (hit, same_heat m, same_id m) (rest, update-IsKeyed ms h.1)
        | inr miss ↦ rw miss (rest, update-IsKeyed ms h.1)
      ]

find-none-any : (p : Message → Bool) (ms : List Message) → find p ms ≡ none → any p ms ≡ false
find-none-any p [] h = refl
find-none-any p (m ∷ ms) h = ground (arith, find-none-any p ms)

module _ (source : RaceControlSource) where
  upsert_current-IsWellFormed :
      (action : Action) (p : ScreenMessagePatch) (id : ℕ) (b : Board)
      → IsWellFormed b
      → IsWellFormed (upsert_current source action p id b)
  unfolding upsert_current new_message changed_message
  upsert_current-IsWellFormed action p id b h =
      by_existing (find (is_message source.source_heat_id p.provider_message_id) b.messages) refl
    where
      by_existing :
          (existing : Option Message)
          → find (is_message source.source_heat_id p.provider_message_id) b.messages ≡ existing
          → IsWellFormed (upsert_unless existing source action p id b)
      by_existing none missing = record {
        marked = (inl (refl, refl, refl, refl, refl, refl, refl, refl), h.marked);
        keyed = (
          find-none-any (is_message source.source_heat_id p.provider_message_id) b.messages missing,
          h.keyed,
        );
      }
      by_existing (some old) there = record {
        marked =
            update-IsMarked (is_message source.source_heat_id p.provider_message_id)
              (changed_message source action p id) (λ m. refl) (λ m. refl)
              (λ m. inl (refl, refl, refl, refl, refl, refl, refl, refl)) b.messages h.marked;
        keyed =
            update-IsKeyed (is_message source.source_heat_id p.provider_message_id)
              (changed_message source action p id) (λ m. refl) (λ m. refl)
              (λ m. inl (refl, refl, refl, refl, refl, refl, refl, refl)) b.messages h.keyed;
      }

  remove_shown-IsWellFormed :
      (action : Action) (id : Option ℕ) (chosen : String → Bool) (b : Board)
      → IsWellFormed b
      → IsWellFormed (remove_shown source action id chosen b).1
  unfolding remove_shown removed_message
  remove_shown-IsWellFormed action id chosen b h = record {
    marked =
        update-IsMarked (is_shown source.source_heat_id chosen) (removed_message source action id)
          (λ m. refl) (λ m. refl) (λ m. inr (refl, refl, refl, refl)) b.messages h.marked;
    keyed =
        update-IsKeyed (is_shown source.source_heat_id chosen) (removed_message source action id)
          (λ m. refl) (λ m. refl) (λ m. inr (refl, refl, refl, refl)) b.messages h.keyed;
  }

  mark_removed-IsWellFormed :
      (which : Which) (action : Action) (id : Option ℕ) (b : Board)
      → IsWellFormed b
      → IsWellFormed (mark_removed source which action id b).1
  unfolding mark_removed
  mark_removed-IsWellFormed all_messages action id b h =
      remove_shown-IsWellFormed action id (λ _. true) b h
  mark_removed-IsWellFormed (one_message k) action id b h =
      remove_shown-IsWellFormed action id (λ j. str_eq j k) b h
  mark_removed-IsWellFormed no_message action id b h = h

  reconcile-IsWellFormed :
      (ids : List String) (b : Board)
      → IsWellFormed b
      → IsWellFormed (reconcile_snapshot_absences source ids b).1
  unfolding reconcile_snapshot_absences
  reconcile-IsWellFormed [] b h =
      mark_removed-IsWellFormed all_messages snapshot_reconciliation none b h
  reconcile-IsWellFormed (k ∷ ks) b h =
      remove_shown-IsWellFormed snapshot_reconciliation none (λ j. not (any (str_eq j) (k ∷ ks))) b
        h

  insert_observation-IsWellFormed :
      (handle : String) (action : Action) (n : ℕ) (payload : String)
      (patch : Option ScreenMessagePatch) (id : Option String) (b : Board)
      → IsWellFormed b
      → IsWellFormed (insert_observation source handle action n payload patch id b).board
  unfolding insert_observation
  insert_observation-IsWellFormed handle action n payload patch id b h =
      by_found (find (is_observation source.source_heat_id source.source_key n) b.observations)
    where
      by_found :
          (found : Option Observation)
          → IsWellFormed (insert_unless found source handle action n payload patch id b).board
      by_found none = record { marked = h.marked; keyed = h.keyed }
      by_found (some o) = h

  apply_inserted-IsWellFormed :
      (action : Action) (p : ScreenMessagePatch) (i : Inserted)
      → IsWellFormed i.board
      → IsWellFormed (apply_inserted source action p i)
  unfolding apply_inserted
  apply_inserted-IsWellFormed action p i h = elim (Bool-cases i.inserted) [
    | inl now ↦ rw now (upsert_current-IsWellFormed action p i.id i.board h)
    | inr before ↦ rw before h
  ]

-- the board that a call leaves
abbrev pub board_of : Projected → Board
board_of (returns r b) = b
board_of (raises b) = b

module _ (source : RaceControlSource) (handle payload : String) where
  project_patches-IsWellFormed :
      (ps : List ScreenMessagePatch) (g : Progress)
      → IsWellFormed g.board
      → IsWellFormed (project_patches source handle payload ps g).board
  unfolding project_patches project_patch
  project_patches-IsWellFormed [] g h = h
  project_patches-IsWellFormed (p ∷ ps) g h =
      project_patches-IsWellFormed ps (project_patch source handle payload p g) (
        apply_inserted-IsWellFormed source initial_snapshot p
          (insert_observation source handle initial_snapshot p.source_ordinal payload (some p) none
            g.board)
          (insert_observation-IsWellFormed source handle initial_snapshot p.source_ordinal payload
            (some p) none g.board h))

  begin_snapshot-IsWellFormed :
      (complete : Bool) (ps : List ScreenMessagePatch) (b : Board)
      → IsWellFormed b
      → IsWellFormed (begin_snapshot source handle payload complete ps b).board
  unfolding begin_snapshot
  begin_snapshot-IsWellFormed complete [] b h =
      insert_observation-IsWellFormed source handle (snapshot_action complete) 0 payload none none b
        h
  begin_snapshot-IsWellFormed complete (p ∷ ps) b h = h

  end_snapshot-IsWellFormed :
      (u : ScreenMessageUpdate) (g : Progress)
      → IsWellFormed g.board
      → IsWellFormed (board_of (end_snapshot source u g))
  unfolding end_snapshot
  end_snapshot-IsWellFormed u g h = elim (Bool-cases (u.snapshot_complete && ltb 0 g.written)) [
    | inl now ↦ rw now (reconcile-IsWellFormed source (ids_of u.patches) g.board h)
    | inr not_now ↦ rw not_now h
  ]

  project_upsert-IsWellFormed :
      (p : ScreenMessagePatch) (b : Board)
      → IsWellFormed b
      → IsWellFormed (board_of (project_upsert source handle payload p b))
  unfolding project_upsert
  project_upsert-IsWellFormed p b h =
      apply_inserted-IsWellFormed source Action.upsert p
        (insert_observation source handle Action.upsert 0 payload (some p) none b)
        (insert_observation-IsWellFormed source handle Action.upsert 0 payload (some p) none b h)

  upsert_first-IsWellFormed :
      (ps : List ScreenMessagePatch) (b : Board)
      → IsWellFormed b
      → IsWellFormed (board_of (upsert_first source handle payload ps b))
  unfolding upsert_first
  upsert_first-IsWellFormed [] b h = h
  upsert_first-IsWellFormed (p ∷ ps) b h = elim (Bool-cases (fits_patch p)) [
    | inl fits ↦ rw fits (project_upsert-IsWellFormed p b h)
    | inr refused ↦ rw refused h
  ]

  project_snapshot-IsWellFormed :
      (u : ScreenMessageUpdate) (b : Board)
      → IsWellFormed b
      → IsWellFormed (board_of (project_snapshot source handle payload u b))
  unfolding project_snapshot
  project_snapshot-IsWellFormed u b h =
      let looped =
        project_patches-IsWellFormed (fitting u.patches)
          (begin_snapshot source handle payload u.snapshot_complete u.patches b)
          (begin_snapshot-IsWellFormed u.snapshot_complete u.patches b h) in
      elim (Bool-cases (all fits_patch u.patches)) [
        | inl fits ↦ rw fits (end_snapshot-IsWellFormed u _ looped)
        | inr refused ↦ rw refused looped
      ]

  project_removal-IsWellFormed :
      (action : Action) (id : Option String) (which : Which) (b : Board)
      → IsWellFormed b
      → IsWellFormed (board_of (project_removal source handle payload action id which b))
  unfolding project_removal
  project_removal-IsWellFormed action id which b h =
      let i = insert_observation source handle action 0 payload none id b in
      let kept = insert_observation-IsWellFormed source handle action 0 payload none id b h in
      elim (Bool-cases i.inserted) [
        | inl now ↦ rw now (mark_removed-IsWellFormed source which action (some i.id) i.board kept)
        | inr before ↦ rw before kept
      ]

  project_unknown-IsWellFormed :
      (b : Board)
      → IsWellFormed b
      → IsWellFormed (board_of (project_unknown source handle payload b))
  unfolding project_unknown
  project_unknown-IsWellFormed b h =
      insert_observation-IsWellFormed source handle Action.unknown 0 payload none none b h

  project_operation-IsWellFormed :
      (op : Operation) (u : ScreenMessageUpdate) (b : Board)
      → IsWellFormed b
      → IsWellFormed (board_of (project_operation op source handle payload u b))
  unfolding project_operation
  project_operation-IsWellFormed snapshot u b h = project_snapshot-IsWellFormed u b h
  project_operation-IsWellFormed Operation.upsert u b h = upsert_first-IsWellFormed u.patches b h
  project_operation-IsWellFormed Operation.delete u b h =
      project_removal-IsWellFormed Action.delete u.provider_message_id
        (which_of u.provider_message_id) b h
  project_operation-IsWellFormed reset u b h =
      project_removal-IsWellFormed clear none all_messages b h
  project_operation-IsWellFormed Operation.unknown u b h = project_unknown-IsWellFormed b h
  project_operation-IsWellFormed invalid u b h = project_unknown-IsWellFormed b h

-- Whatever the message and however the call ends, it keeps the board well formed: a heat has at most
-- one row for each message, and a message is shown exactly when no removal is recorded for it: none of the
-- columns on its removal is filled while it is shown, and time, action and source key are when it is not.
pub project_screen_message-IsWellFormed :
    (dumps : Json → Option String) (source : RaceControlSource) (handle : String) (args : List Json)
    (b : Board)
    → IsWellFormed b
    → IsWellFormed (board_of (project_screen_message dumps source handle args b))
unfolding project_screen_message project_update
project_screen_message-IsWellFormed dumps source handle args b h =
    elim (Bool-cases (is_valid_source source)) [
      | inr refused ↦ rw refused h
      | inl valid ↦ elim (Bool-cases (fits_source source)) [
        | inr long ↦ rw (valid, long) h
        | inl fits ↦
            let u = parse_screen_message_update dumps handle args in
            rw (valid, fits)
              (project_operation-IsWellFormed source handle (or_null (dumps (message_payload args)))
                u.operation u b h)
      ]
    ]
