-- ===== src/Lifecycle/Outcomes.antt =====
-- About the answers of the transitions of server/timing/lifecycle.py, from every state.
use balchug_racing.Base.{
  ℕ, ◌≡◌, refl, ap, ◌∙◌, String, Bool, true, false, none, some, [], ◌∷◌, ◌++◌, arith, any, find,
  find-update, find-holds, str_eq_iff,
}
use balchug_racing.Lifecycle.State.{
  Lifecycle, draft, active, stopped, aborted, Operation, EventType, SessionRow, SourceRow, AuditRow,
  MutationResult, Db, transition_error, active_session_conflict, lifecycle_error, empty,
}
use balchug_racing.Lifecycle.Transaction.{Result, ok, err, Outcome, returns, raises}
use balchug_racing.Lifecycle.Store.{
  is_active_of, has_id, source_of, get_session_row, write_audit, store_idempotency, row_to_session,
}
use balchug_racing.Lifecycle.Operations.{apply_operation, answer, conclude, transition_fresh}
use balchug_racing.Lifecycle.Consistency.{IsConsistent}
use balchug_racing.Lifecycle.Updates.{updated}
use balchug_racing.Lifecycle.Verbs.{target, Applied, start-Applied, stop-Applied, abort-Applied}

-- The answer that the state of a session and of its source call for.
abbrev pub expected : Operation → Lifecycle → Bool → Result (Lifecycle × EventType)
expected Operation.start draft false = ok (active, EventType.started)
expected Operation.start draft true = err active_session_conflict
expected Operation.start _ _ = err transition_error
expected Operation.stop active _ = ok (stopped, EventType.stopped)
expected Operation.stop _ _ = err transition_error
expected Operation.abort draft _ = ok (aborted, EventType.aborted)
expected Operation.abort active _ = ok (aborted, EventType.aborted)
expected Operation.abort _ _ = err transition_error
expected _ _ _ = err lifecycle_error

-- the event that a transition leaves
abbrev pub audited : String → String → ℕ → EventType → AuditRow
audited id actor t e = record {
  analysis_session_id = id;
  event_type = e;
  actor_kind = actor;
  parameters = empty;
  created_at_us = t;
}

-- A call meets that answer: it raises the error and writes nothing, or it returns the session in
-- its new state, which the tables hold, and one more audit event.
abbrev pub Meets :
    String → String → ℕ → Db → Result (Lifecycle × EventType) → Outcome Db MutationResult → Type 0
Meets id actor t db (err e) o = o ≡ raises e db
Meets id actor t db (ok (l, e)) o =
    (result : MutationResult) × (db' : Db) × (row : SessionRow) × (o ≡ returns result db')
    × (result.replayed ≡ false)
    × (result.session.lifecycle ≡ l)
    × (find (has_id id) db'.sessions ≡ some row)
    × (row.lifecycle ≡ l)
    × (db'.audits ≡ db.audits ++ (audited id actor t e ∷ []))

module _ (id actor : String) (t : ℕ) (hash : String) (row : SessionRow) (source : SourceRow)
    (db : Db) (h : IsConsistent db) (found : find (has_id id) db.sessions ≡ some row)
    (known : source_of db row ≡ some source) where
  read_row :
      (s : SessionRow) (tables : Db)
      → find (has_id id) tables.sessions ≡ some s
      → source_of tables s ≡ some source
      → get_session_row id tables ≡ returns (s, source.source) tables
  unfolding get_session_row
  read_row s tables f k = rw (f, k, get_session_row)

  answer_lem :
      (op : Operation) (e : EventType) (s : SessionRow) (tables : Db)
      → get_session_row id tables ≡ returns (s, source.source) tables
      → s.id ≡ id
      → answer id op e actor empty none hash t tables
        ≡ returns
            (record { session = row_to_session s source.source; replayed = false })
            (record tables { audits = tables.audits ++ (audited id actor t e ∷ []) })
  unfolding answer conclude write_audit store_idempotency row_to_session
  answer_lem op e s tables reads named = rw reads (
      ap
        (λ i.
          returns (record { session = row_to_session s source.source; replayed = false })
            (record tables { audits = tables.audits ++ (audited i actor t e ∷ []) }))
        named)

  -- an applied verb is answered
  Applied-Meets :
      (op : Operation) (l : Lifecycle) (e : EventType)
      → (a : Applied op id t row db) → target op row.lifecycle ≡ some (l, e)
      → Meets id actor t db (ok (l, e)) (transition_fresh op id none actor t hash db)
  unfolding transition_fresh
  Applied-Meets op l e a leads =
      let moved : (a.change row).lifecycle ≡ l = ground (arith, a.moves, leads) in
      let event : a.event ≡ e = ground (arith, a.moves, leads) in
      let next = updated id a.change db in
      let now : find (has_id id) next.sessions ≡ some (a.change row) =
        find-update (has_id id) a.change db.sessions (λ s p. rw (a.keeps_id s) p) found in
      let named : (a.change row).id ≡ id =
        a.keeps_id row ∙ (str_eq_iff row.id id).0 (find-holds (has_id id) db.sessions found) in
      let read_again : get_session_row id next ≡ returns (a.change row, source.source) next =
        read_row (a.change row) next now (rw a.keeps_source known) in
      let result : MutationResult = record {
        session = row_to_session (a.change row) source.source;
        replayed = false;
      } in
      (
        result,
        record next { audits = db.audits ++ (audited id actor t e ∷ []) },
        a.change row,
        rw (read_row row db found known, a.runs, event)
            (answer_lem op e (a.change row) next read_again named),
        refl,
        moved,
        now,
        moved,
        refl,
      )

  -- From every state, and whether its source has an active session or not, a transition without a
  -- key of a session that the tables hold answers as expected: it is refused and nothing is
  -- written, or the session moves to the state that the verb leads to and one event is audited.
  pub transition_fresh-Meets :
      (op : Operation)
      → Meets id actor t db
          (expected op row.lifecycle (any (is_active_of row.source_id) db.sessions))
          (transition_fresh op id none actor t hash db)
  unfolding transition_fresh apply_operation
  transition_fresh-Meets op =
      by_state op row.lifecycle (any (is_active_of row.source_id) db.sessions) refl refl
    where
      by_state :
          (o : Operation) (l : Lifecycle) (busy : Bool)
          → row.lifecycle ≡ l
          → any (is_active_of row.source_id) db.sessions ≡ busy
          → Meets id actor t db (expected o l busy) (transition_fresh o id none actor t hash db)
      by_state Operation.start draft true l b = rw (read_row row db found known, l, b)
      by_state Operation.start draft false l b =
          Applied-Meets Operation.start active EventType.started
            (start-Applied id t row db h found l b) (rw l)
      by_state Operation.start _ b l p = rw (read_row row db found known, l)
      by_state Operation.stop active b l p =
          Applied-Meets Operation.stop stopped EventType.stopped
            (stop-Applied id t row db h found l) (rw l)
      by_state Operation.stop _ b l p = rw (read_row row db found known, l)
      by_state Operation.abort draft b l p =
          Applied-Meets Operation.abort aborted EventType.aborted
            (abort-Applied id t row db h found draft l refl) (rw l)
      by_state Operation.abort active b l p =
          Applied-Meets Operation.abort aborted EventType.aborted
            (abort-Applied id t row db h found active l refl) (rw l)
      by_state Operation.abort _ b l p = rw (read_row row db found known, l)
      by_state _ _ b l p = rw (read_row row db found known)
