-- ===== src/RaceControl/Single.antt =====
-- About upserts and removals that are projected again (`project_screen_message` of
-- server/timing/race_control_store.py).
use balchug_racing.Base.{
  ◌≡◌, refl, sym, ap, ◌∙◌, inl, inr, String, true, false, Option, none, some, arith, Bool-cases,
}
use balchug_racing.RaceControl.Messages.{ScreenMessagePatch}
use balchug_racing.RaceControl.Board.{
  Action, RaceControlSource, Board, insert_observation, mark_removed, Which,
}
use balchug_racing.RaceControl.Project.{
  RaceControlProjectionResult, returns, apply_inserted, project_upsert, project_removal,
  project_unknown,
}
use balchug_racing.RaceControl.Ledger.{
  is_present, insert_observation-old, insert_observation-present, mark_removed-observations,
  apply_inserted-observations,
}
use balchug_racing.RaceControl.Patches.{same_presence}

module _ (source : RaceControlSource) where
  module _ (handle payload : String) where
    pub project_upsert-again :
        (p : ScreenMessagePatch) (b b' : Board) (r : RaceControlProjectionResult)
        → project_upsert source handle payload p b ≡ returns r b'
        → project_upsert source handle payload p b'
          ≡ returns
              (record {
                action = Action.upsert;
                observations_written = 0;
                current_messages_affected = 0;
              })
              b'
    unfolding project_upsert apply_inserted
    project_upsert-again p b b' r e =
        let i = insert_observation source handle Action.upsert 0 payload (some p) none b in
        let left : apply_inserted source Action.upsert p i ≡ b' = ground (arith, e) in
        let there : is_present source b' 0 ≡ true =
          same_presence source i.board b' 0
            (sym (ap (λ x. x.observations) left)
              ∙ apply_inserted-observations source Action.upsert p i)
            (insert_observation-present source handle Action.upsert 0 payload (some p) none b) in
        let (old, same) =
          insert_observation-old source handle Action.upsert 0 payload (some p) none b' there in
        rw (old, same) refl

    pub project_unknown-again :
        (b b' : Board) (r : RaceControlProjectionResult)
        → project_unknown source handle payload b ≡ returns r b'
        → project_unknown source handle payload b'
          ≡ returns
              (record {
                action = Action.unknown;
                observations_written = 0;
                current_messages_affected = 0;
              })
              b'
    unfolding project_unknown
    project_unknown-again b b' r e =
        let i = insert_observation source handle Action.unknown 0 payload none none b in
        let left : i.board ≡ b' = ground (arith, e) in
        let there : is_present source b' 0 ≡ true =
          same_presence source i.board b' 0 (sym (ap (λ x. x.observations) left))
            (insert_observation-present source handle Action.unknown 0 payload none none b) in
        let (old, same) =
          insert_observation-old source handle Action.unknown 0 payload none none b' there in
        rw (old, same) refl

    -- what a removal leaves, and its answer
    pub project_removal-left :
        (action : Action) (id : Option String) (which : Which) (b b' : Board)
        (r : RaceControlProjectionResult)
        → project_removal source handle payload action id which b ≡ returns r b'
        → (r.action ≡ action) × (is_present source b' 0 ≡ true)
    unfolding project_removal
    project_removal-left action id which b b' r e =
        let i = insert_observation source handle action 0 payload none id b in
        let present = insert_observation-present source handle action 0 payload none id b in
        elim (Bool-cases i.inserted) [
          | inl now ↦
              let e' = rw now at e in
              let after : (mark_removed source which action (some i.id) i.board).1 ≡ b' =
                ground (arith, e') in
              (
                ground (arith, e'),
                same_presence source i.board b' 0
                    (sym (ap (λ x. x.observations) after)
                      ∙ mark_removed-observations source which action (some i.id) i.board)
                    present,
              )
          | inr before ↦
              let e' = rw before at e in
              let left : i.board ≡ b' = ground (arith, e') in
              (
                ground (arith, e'),
                same_presence source i.board b' 0 (sym (ap (λ x. x.observations) left)) present,
              )
        ]

    pub removal_old :
        (action : Action) (id : Option String) (which : Which) (b : Board)
        → (insert_observation source handle action 0 payload none id b).inserted ≡ false
        → (insert_observation source handle action 0 payload none id b).board ≡ b
        → project_removal source handle payload action id which b
          ≡ returns
              (record { action = action; observations_written = 0; current_messages_affected = 0 })
              b
    unfolding project_removal
    removal_old action id which b old same = rw (old, same) refl

    pub project_removal-again :
        (action : Action) (id : Option String) (which : Which) (b b' : Board)
        (r : RaceControlProjectionResult)
        → project_removal source handle payload action id which b ≡ returns r b'
        → project_removal source handle payload action id which b'
          ≡ returns
              (record { action = action; observations_written = 0; current_messages_affected = 0 })
              b'
    project_removal-again action id which b b' r e =
        let (_, there) = project_removal-left action id which b b' r e in
        let (old, same) = insert_observation-old source handle action 0 payload none id b' there in
        removal_old action id which b' old same
