-- ===== src/Lifecycle/Verbs.antt =====
-- The state machine of a session: what `start`, `stop` and `abort` of
-- server/timing/lifecycle.py do from each state.
use balchug_racing.Base.{
  ℕ, ◌≡◌, refl, ◌⊎◌, inl, inr, String, false, Option, none, some, arith, Bool-cases, Option-cases,
  any, find,
}
use balchug_racing.Lifecycle.State.{
  Lifecycle, draft, active, stopped, aborted, Operation, EventType, Error, SessionRow, TimingSource,
  Db, session_not_found, transition_error, active_session_conflict, lifecycle_error,
}
use balchug_racing.Lifecycle.Transaction.{returns, raises}
use balchug_racing.Lifecycle.Store.{is_active_of, has_id, get_session_row, source_of}
use balchug_racing.Lifecycle.Operations.{start_row, stop_row, abort_row, apply_operation}
use balchug_racing.Lifecycle.Consistency.{IsConsistent}
use balchug_racing.Lifecycle.Updates.{
  updated, update_session_lem, start-IsConsistent, stop-IsConsistent, abort-IsConsistent,
}

-- The state that a verb leads to, and the event that it leaves, if it is allowed.
abbrev pub target : Operation → Lifecycle → Option (Lifecycle × EventType)
target Operation.start draft = some (active, EventType.started)
target Operation.stop active = some (stopped, EventType.stopped)
target Operation.abort draft = some (aborted, EventType.aborted)
target Operation.abort active = some (aborted, EventType.aborted)
target _ _ = none

-- What an allowed verb does: it updates the one row, to the state of the table above.
pub record Applied (op : Operation) (id : String) (t : ℕ) (row : SessionRow) (db : Db)
    : Type 0 where
  pub change : SessionRow → SessionRow
  pub event : EventType
  pub runs : apply_operation op id t row db ≡ returns event (updated id change db)
  pub moves : target op row.lifecycle ≡ some ((change row).lifecycle, event)
  pub keeps_id : (s : SessionRow) → (change s).id ≡ s.id
  pub keeps_source : (change row).source_id ≡ row.source_id
  pub consistent : IsConsistent (updated id change db)

module _ (id : String) (t : ℕ) (row : SessionRow) (db : Db) (h : IsConsistent db)
    (found : find (has_id id) db.sessions ≡ some row) where
  pub start-Applied :
      row.lifecycle ≡ draft
      → any (is_active_of row.source_id) db.sessions ≡ false
      → Applied Operation.start id t row db
  unfolding apply_operation
  start-Applied l idle =
      let good = start-IsConsistent id t row db h found l idle in
      record {
        change = start_row t;
        event = EventType.started;
        runs = rw (l, idle, update_session_lem id (start_row t) db good);
        moves = rw l;
        keeps_id = λ s. refl;
        keeps_source = refl;
        consistent = good;
      }

  pub stop-Applied : row.lifecycle ≡ active → Applied Operation.stop id t row db
  unfolding apply_operation
  stop-Applied l =
      let good = stop-IsConsistent id t row db h found l in
      record {
        change = stop_row t;
        event = EventType.stopped;
        runs = rw (l, update_session_lem id (stop_row t) db good);
        moves = rw l;
        keeps_id = λ s. refl;
        keeps_source = refl;
        consistent = good;
      }

  pub abort-Applied :
      (l : Lifecycle)
      → row.lifecycle ≡ l
      → target Operation.abort l ≡ some (aborted, EventType.aborted)
      → Applied Operation.abort id t row db
  unfolding apply_operation
  abort-Applied draft l m =
      let good = abort-IsConsistent id t row db h found in
      record {
        change = abort_row t;
        event = EventType.aborted;
        runs = rw (l, update_session_lem id (abort_row t) db good);
        moves = rw l;
        keeps_id = λ s. refl;
        keeps_source = refl;
        consistent = good;
      }
  abort-Applied active l m =
      let good = abort-IsConsistent id t row db h found in
      record {
        change = abort_row t;
        event = EventType.aborted;
        runs = rw (l, update_session_lem id (abort_row t) db good);
        moves = rw l;
        keeps_id = λ s. refl;
        keeps_source = refl;
        consistent = good;
      }
  abort-Applied _ l m = absurd (ground arith)

  -- A verb is applied, or it raises and writes nothing.
  pub apply_operation-cases :
      (op : Operation)
      → Applied op id t row db ⊎ ((e : Error) × (apply_operation op id t row db ≡ raises e db))
  unfolding apply_operation
  apply_operation-cases op = by_state op row.lifecycle refl
    where
      by_state :
          (o : Operation) (l : Lifecycle)
          → row.lifecycle ≡ l
          → Applied o id t row db ⊎ ((e : Error) × (apply_operation o id t row db ≡ raises e db))
      by_state Operation.start draft l =
          elim (Bool-cases (any (is_active_of row.source_id) db.sessions)) [
            | inl busy ↦ inr (active_session_conflict, rw (l, busy))
            | inr idle ↦ inl (start-Applied l idle)
          ]
      by_state Operation.start _ l = inr (transition_error, rw l)
      by_state Operation.stop active l = inl (stop-Applied l)
      by_state Operation.stop _ l = inr (transition_error, rw l)
      by_state Operation.abort draft l = inl (abort-Applied draft l refl)
      by_state Operation.abort active l = inl (abort-Applied active l refl)
      by_state Operation.abort _ l = inr (transition_error, rw l)
      by_state _ _ l = inr (lifecycle_error, refl)

-- A row is read with its source, or the session is not found.
pub get_session_row-cases :
    (id : String) (db : Db)
    → (get_session_row id db ≡ raises session_not_found db)
      ⊎ ((row : SessionRow) × (ts : TimingSource) × (get_session_row id db ≡ returns (row, ts) db)
          × (find (has_id id) db.sessions ≡ some row))
unfolding get_session_row
get_session_row-cases id db = elim (Option-cases (find (has_id id) db.sessions)) [
  | inl missing ↦ inl (rw (missing, get_session_row))
  | inr (s, e) ↦ elim (Option-cases (source_of db s)) [
    | inl lost ↦ inl (rw (e, lost, get_session_row))
    | inr (r, e') ↦ inr (s, r.source, rw (e, e', get_session_row), e)
  ]
]
