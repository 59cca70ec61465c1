-- ===== src/RaceControl/Replay.antt =====
-- About invocations of race control that are projected again (`project_screen_message` of
-- server/timing/race_control_store.py).
use balchug_racing.Base.{
  ◌≡◌, refl, sym, ap, ◌∙◌, inl, inr, String, Bool, true, ◌&&◌, Option, none, List, [], ◌∷◌, arith,
  ltb, Bool-cases, any, all, All,
}
use balchug_racing.Wire.Json.{Json}
use balchug_racing.RaceControl.Messages.{
  ScreenMessagePatch, ScreenMessageUpdate, Operation, snapshot, reset, invalid, message_payload,
  parse_screen_message_update,
}
use balchug_racing.RaceControl.Board.{
  Action, clear, RaceControlSource, Board, is_observation, insert_observation,
  reconcile_snapshot_absences, Which, all_messages,
}
use balchug_racing.RaceControl.Fits.{fits_patch, fits_source, fitting-all}
use balchug_racing.RaceControl.Project.{
  RaceControlProjectionResult, Projected, returns, is_valid_source, or_null, Progress,
  project_patches, ids_of, snapshot_action, begin_snapshot, end_snapshot, project_snapshot,
  project_upsert, project_removal, project_unknown, which_of, upsert_first, project_operation,
  project_update, project_screen_message,
}
use mathlib.Core.Path.{subst}
use balchug_racing.RaceControl.Ledger.{
  insert_observation-old, insert_observation-present, reconcile_snapshot_absences-observations,
}
use balchug_racing.RaceControl.Patches.{same_presence, project_patches-present, project_patches-old}
use balchug_racing.RaceControl.Single.{
  project_upsert-again, project_unknown-again, project_removal-left, project_removal-again,
}

module _ (source : RaceControlSource) where
  module _ (handle payload : String) where
    end_snapshot-left :
        (u : ScreenMessageUpdate) (g : Progress) (b' : Board) (r : RaceControlProjectionResult)
        → end_snapshot source u g ≡ returns r b'
        → (r.action ≡ snapshot_action u.snapshot_complete)
          × (b'.observations ≡ g.board.observations)
    unfolding end_snapshot
    end_snapshot-left u g b' r e = elim (Bool-cases (u.snapshot_complete && ltb 0 g.written)) [
      | inl now ↦
          let e' = rw now at e in
          let after : (reconcile_snapshot_absences source (ids_of u.patches) g.board).1 ≡ b' =
            ground (arith, e') in
          (
            ground (arith, e'),
            sym (ap (λ x. x.observations) after)
                ∙ reconcile_snapshot_absences-observations source (ids_of u.patches) g.board,
          )
      | inr not_now ↦
          let e' = rw not_now at e in
          let left : g.board ≡ b' = ground (arith, e') in
          (ground (arith, e'), sym (ap (λ x. x.observations) left))
    ]

    end_snapshot-idle :
        (u : ScreenMessageUpdate) (b : Board)
        → end_snapshot source u (record { written = 0; affected = 0; board = b })
          ≡ returns
              (record {
                action = snapshot_action u.snapshot_complete;
                observations_written = 0;
                current_messages_affected = 0;
              })
              b
    unfolding end_snapshot
    end_snapshot-idle u b = elim (Bool-cases u.snapshot_complete) [
      | inl complete ↦ rw complete refl
      | inr partial ↦ rw partial refl
    ]

    -- once the loop has run, it runs idle on every board with those observations
    snapshot_loop-idle :
        (complete : Bool) (ps : List ScreenMessagePatch) (b b' : Board)
        → b'.observations
          ≡ (project_patches source handle payload ps
              (begin_snapshot source handle payload complete ps b)).board.observations
        → project_patches source handle payload ps
            (begin_snapshot source handle payload complete ps b')
          ≡ record { written = 0; affected = 0; board = b' }
    unfolding begin_snapshot project_patches
    snapshot_loop-idle complete [] b b' e =
        let i = insert_observation source handle (snapshot_action complete) 0 payload none none b in
        let there = same_presence source i.board b' 0 e (
          insert_observation-present source handle (snapshot_action complete) 0 payload none none
            b) in
        let (old, same) =
          insert_observation-old source handle (snapshot_action complete) 0 payload none none b'
            there in
        rw (old, same) refl
    snapshot_loop-idle complete (p ∷ ps) b b' e =
        project_patches-old source handle payload (p ∷ ps)
          (record { written = 0; affected = 0; board = b' })
          (subst
            (λ os.
              All
                (λ q.
                  any (is_observation source.source_heat_id source.source_key q.source_ordinal) os
                  ≡ true)
                (p ∷ ps))
            (sym e)
            (project_patches-present source handle payload (p ∷ ps)
              (record { written = 0; affected = 0; board = b })))

    project_snapshot-again :
        (u : ScreenMessageUpdate) (b b' : Board) (r : RaceControlProjectionResult)
        → project_snapshot source handle payload u b ≡ returns r b'
        → project_snapshot source handle payload u b'
          ≡ returns
              (record {
                action = r.action;
                observations_written = 0;
                current_messages_affected = 0;
              })
              b'
    unfolding project_snapshot
    project_snapshot-again u b b' r e = elim (Bool-cases (all fits_patch u.patches)) [
      | inr refused ↦ absurd (ground (arith, rw refused at e))
      | inl fits ↦
          let whole = fitting-all u.patches fits in
          let (named, kept) =
            end_snapshot-left u
              (project_patches source handle payload u.patches
                (begin_snapshot source handle payload u.snapshot_complete u.patches b))
              b' r (rw (fits, whole) at e) in
          rw (fits, whole)
            (ap (end_snapshot source u) (snapshot_loop-idle u.snapshot_complete u.patches b b' kept)
              ∙ end_snapshot-idle u b'
              ∙ ap
                  (λ a.
                    returns
                      (record {
                        action = a;
                        observations_written = 0;
                        current_messages_affected = 0;
                      })
                      b')
                  (sym named))
    ]

    project_upsert-action :
        (p : ScreenMessagePatch) (b b' : Board) (r : RaceControlProjectionResult)
        → project_upsert source handle payload p b ≡ returns r b'
        → r.action ≡ Action.upsert
    unfolding project_upsert
    project_upsert-action p b b' r e = ground (arith, e)

    project_unknown-action :
        (b b' : Board) (r : RaceControlProjectionResult)
        → project_unknown source handle payload b ≡ returns r b'
        → r.action ≡ Action.unknown
    unfolding project_unknown
    project_unknown-action b b' r e = ground (arith, e)

    answered_as :
        (a : Action) (r : RaceControlProjectionResult) (b : Board) (o : Projected)
        → r.action ≡ a
        → o
          ≡ returns
              (record { action = a; observations_written = 0; current_messages_affected = 0 })
              b
        → o
          ≡ returns
              (record {
                action = r.action;
                observations_written = 0;
                current_messages_affected = 0;
              })
              b
    answered_as a r b o h e =
        e
        ∙ ap
            (λ x.
              returns
                (record { action = x; observations_written = 0; current_messages_affected = 0 }) b)
            (sym h)

    removal_again :
        (action : Action) (id : Option String) (which : Which) (b b' : Board)
        (r : RaceControlProjectionResult)
        → project_removal source handle payload action id which b ≡ returns r b'
        → project_removal source handle payload action id which b'
          ≡ returns
              (record {
                action = r.action;
                observations_written = 0;
                current_messages_affected = 0;
              })
              b'
    removal_again action id which b b' r e =
        let (named, _) = project_removal-left source handle payload action id which b b' r e in
        answered_as action r b' _ named
          (project_removal-again source handle payload action id which b b' r e)

    unknown_again :
        (b b' : Board) (r : RaceControlProjectionResult)
        → project_unknown source handle payload b ≡ returns r b'
        → project_unknown source handle payload b'
          ≡ returns
              (record {
                action = r.action;
                observations_written = 0;
                current_messages_affected = 0;
              })
              b'
    unknown_again b b' r e =
        answered_as Action.unknown r b' _ (project_unknown-action b b' r e)
          (project_unknown-again source handle payload b b' r e)

    upsert_again :
        (ps : List ScreenMessagePatch) (b b' : Board) (r : RaceControlProjectionResult)
        → upsert_first source handle payload ps b ≡ returns r b'
        → upsert_first source handle payload ps b'
          ≡ returns
              (record {
                action = r.action;
                observations_written = 0;
                current_messages_affected = 0;
              })
              b'
    unfolding upsert_first
    upsert_again [] b b' r e = absurd (ground (arith, e))
    upsert_again (p ∷ ps) b b' r e = elim (Bool-cases (fits_patch p)) [
      | inr refused ↦ absurd (ground (arith, rw refused at e))
      | inl fits ↦
          let e' = rw fits at e in
          rw fits (
            answered_as Action.upsert r b' _ (project_upsert-action p b b' r e')
              (project_upsert-again source handle payload p b b' r e'))
    ]

    project_operation-again :
        (op : Operation) (u : ScreenMessageUpdate) (b b' : Board) (r : RaceControlProjectionResult)
        → project_operation op source handle payload u b ≡ returns r b'
        → project_operation op source handle payload u b'
          ≡ returns
              (record {
                action = r.action;
                observations_written = 0;
                current_messages_affected = 0;
              })
              b'
    unfolding project_operation
    project_operation-again snapshot u b b' r e = project_snapshot-again u b b' r e
    project_operation-again Operation.upsert u b b' r e = upsert_again u.patches b b' r e
    project_operation-again Operation.delete u b b' r e =
        removal_again Action.delete u.provider_message_id (which_of u.provider_message_id) b b' r e
    project_operation-again reset u b b' r e = removal_again clear none all_messages b b' r e
    project_operation-again Operation.unknown u b b' r e = unknown_again b b' r e
    project_operation-again invalid u b b' r e = unknown_again b b' r e

-- Projecting a message again, on the board that it left, is answered with the same action, writes no
-- observation, affects no message and leaves the board as it is.
pub project_screen_message-again :
    (dumps : Json → Option String) (source : RaceControlSource) (handle : String) (args : List Json)
    (b b' : Board) (r : RaceControlProjectionResult)
    → project_screen_message dumps source handle args b ≡ returns r b'
    → project_screen_message dumps source handle args b'
      ≡ returns
          (record { action = r.action; observations_written = 0; current_messages_affected = 0 })
          b'
unfolding project_screen_message project_update
project_screen_message-again dumps source handle args b b' r e =
    elim (Bool-cases (is_valid_source source)) [
      | inr refused ↦ absurd (ground (arith, rw refused at e))
      | inl valid ↦ elim (Bool-cases (fits_source source)) [
        | inr long ↦ absurd (ground (arith, rw (valid, long) at e))
        | inl fits ↦
            let u = parse_screen_message_update dumps handle args in
            rw (valid, fits)
              (project_operation-again source handle (or_null (dumps (message_payload args)))
                u.operation u b b' r (rw (valid, fits) at e))
      ]
    ]
