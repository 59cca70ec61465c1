-- ===== src/Lifecycle/Operations.antt =====
-- `create_session` and the transitions of server/timing/lifecycle.py. `request_hash` is
-- `_request_hash`, the digest of a request; the clock's reading and the new session's UUID are
-- arguments.
use balchug_racing.Base.{
  ℕ, String, false, Option, none, some, if◌then◌else◌, find, any, str_eq, [], ◌∷◌, ◌++◌,
}
use balchug_racing.Lifecycle.State.{
  draft, active, stopped, aborted, Operation, EventType, lifecycle_error, session_not_found,
  transition_error, active_session_conflict, source_index, integrity_error, SessionRow,
  MutationResult, Parameters, SourceRow, spec, empty, Request, create_request, transition_request,
}
use balchug_racing.Lifecycle.Transaction.{
  Result, ok, err, Outcome, returns, raises, Call, Action, pure, raise, ◌>>=◌, ◌>>◌, Connection,
  write_transaction,
}
use balchug_racing.Lifecycle.Validation.{
  as_source, validate_actor_kind, validate_idempotency_key, validate_session_spec, SessionSpec,
}
use balchug_racing.Lifecycle.Store.{
  is_active_of, has_slug, has_id, seed_catalog, row_to_session, get_session_row, idempotency_replay,
  store_idempotency, write_audit, update_session,
}

-- a check of the arguments, before the transaction
infixr 5 ◌before◌
abbrev pub ◌before◌ :
    {A B : Type 0}
    → Result A
    → (A → Connection → Outcome Connection B)
    → Connection
    → Outcome Connection B
◌before◌ (ok a) k c = k a c
◌before◌ (err e) k c = (raises e c)

-- the `UPDATE` of each transition
unfoldable pub start_row : ℕ → SessionRow → SessionRow
start_row t s = record s {
  lifecycle = active;
  started_at_us = some t;
  updated_at_us = t;
  stop_intent = none;
}

unfoldable pub stop_row : ℕ → SessionRow → SessionRow
stop_row t s = record s {
  lifecycle = stopped;
  stopped_at_us = some t;
  stop_intent = some "operator_stop";
  updated_at_us = t;
}

unfoldable pub abort_row : ℕ → SessionRow → SessionRow
abort_row t s = record s {
  lifecycle = aborted;
  stopped_at_us = some t;
  stop_intent = some "operator_abort";
  updated_at_us = t;
}

-- the row that `create_session` inserts
unfoldable pub draft_row : String → ℕ → String → SessionSpec → ℕ → SessionRow
draft_row session_id source_id timezone_name chosen t = record {
  id = session_id;
  source_id = source_id;
  timezone_name = timezone_name;
  mode = chosen.mode;
  lifecycle = draft;
  race_duration_s = chosen.race_duration_s;
  required_pits = chosen.required_pits;
  our_participant_id = none;
  our_class = none;
  identity_state = "pending";
  started_at_us = none;
  stopped_at_us = none;
  stop_intent = none;
  created_at_us = t;
  updated_at_us = t;
}

-- `INSERT INTO analysis_sessions`
unfoldable pub insert_session : SessionRow → Action (Unit {0})
insert_session row db =
    if any (has_id row.id) db.sessions
    then raise integrity_error db
    else returns tt (record db { sessions = db.sessions ++ (row ∷ []) })

-- The branch of each verb: its guards, its `UPDATE`, and the event to audit.
unfoldable pub apply_operation : Operation → String → ℕ → SessionRow → Action EventType
unfolding start_row stop_row abort_row update_session
apply_operation Operation.start session_id t row db = elim row.lifecycle [
  | draft ↦
      if any (is_active_of row.source_id) db.sessions
      then raise active_session_conflict db
      else (do update_session session_id (start_row t); pure EventType.started) db
  | _ ↦ raise transition_error db
]
apply_operation Operation.stop session_id t row db = elim row.lifecycle [
  | active ↦ (do update_session session_id (stop_row t); pure EventType.stopped) db
  | _ ↦ raise transition_error db
]
apply_operation Operation.abort session_id t row db = elim row.lifecycle [
  | draft ↦ (do update_session session_id (abort_row t); pure EventType.aborted) db
  | active ↦ (do update_session session_id (abort_row t); pure EventType.aborted) db
  | _ ↦ raise transition_error db
]
apply_operation _ session_id t row db = raise lifecycle_error db

-- the handler `except sqlite3.IntegrityError` of `_transition_session`
abbrev pub on_integrity_error : {S A : Type 0} → Outcome S A → Outcome S A
on_integrity_error (returns a s) = returns a s
on_integrity_error (raises source_index s) = raises active_session_conflict s
on_integrity_error (raises e s) = raises e s

abbrev pub answered : Option MutationResult → Action MutationResult → Action MutationResult
answered (some result) fresh = pure result
answered none fresh = fresh

-- How both transactions begin: a request that is remembered is answered again, any other runs.
unfoldable pub or_replay :
    Option String → Operation → String → Action MutationResult → Action MutationResult
unfolding idempotency_replay
or_replay key operation hash fresh = do
  replay ← idempotency_replay key operation hash
  answered replay fresh

-- How both transactions end: the session is read back, audited, and the answer is remembered.
unfoldable pub conclude :
    MutationResult
    → Operation
    → EventType
    → String
    → Parameters
    → Option String
    → String
    → ℕ
    → Action MutationResult
unfolding write_audit store_idempotency
conclude result operation event actor parameters key hash t = do
  write_audit result.session.id event actor parameters t
  store_idempotency key operation hash result t
  pure result

unfoldable pub answer :
    String
    → Operation
    → EventType
    → String
    → Parameters
    → Option String
    → String
    → ℕ
    → Action MutationResult
unfolding get_session_row row_to_session conclude
answer session_id operation event actor parameters key hash t = do
  (s, ts) ← get_session_row session_id
  conclude (record { session = row_to_session s ts; replayed = false }) operation event actor
      parameters key hash t

-- the `SELECT` of the source of a new session
unfoldable pub source_row : String → Action SourceRow
source_row slug db = elim (find (has_slug slug) db.sources) [
  | none ↦ raise lifecycle_error db
  | some r ↦ pure r db
]

-- The body of the transaction of `create_session`, behind the lookup of the key; `hash` is the
-- digest of the request.
unfoldable pub create_fresh :
    String → SessionSpec → Option String → String → ℕ → String → String → Action MutationResult
unfolding source_row draft_row insert_session answer
create_fresh slug chosen key actor t session_id hash = do
  r ← source_row slug
  insert_session (draft_row session_id r.id r.source.timezone_name chosen t)
  answer session_id Operation.create EventType.created actor
      (spec chosen.mode chosen.race_duration_s chosen.required_pits) key hash t

unfoldable pub create_body :
    String → SessionSpec → Option String → String → ℕ → String → String → Action MutationResult
unfolding seed_catalog or_replay create_fresh
create_body slug chosen key actor t session_id hash = do
  seed_catalog t
  or_replay key Operation.create hash (create_fresh slug chosen key actor t session_id hash)

-- The body of the transaction of `_transition_session`, behind the lookup of the key.
unfoldable pub transition_fresh :
    Operation → String → Option String → String → ℕ → String → Action MutationResult
unfolding get_session_row apply_operation answer
transition_fresh operation session_id key actor t hash = do
  (row, _) ← get_session_row session_id
  event ← apply_operation operation session_id t row
  answer session_id operation event actor empty key hash t

unfoldable pub transition_body :
    Operation → String → Option String → String → ℕ → String → Action MutationResult
unfolding or_replay transition_fresh
transition_body operation session_id key actor t hash =
    or_replay key operation hash (transition_fresh operation session_id key actor t hash)

module _ (request_hash : Request → String) where
  -- `create_session`
  unfoldable pub create_session :
      String
      → String
      → Option ℕ
      → Option ℕ
      → Option String
      → Option String
      → ℕ
      → String
      → Call MutationResult
  unfolding as_source validate_session_spec validate_idempotency_key validate_actor_kind create_body
      write_transaction
  create_session source_slug mode race_duration_s required_pits idempotency_key actor_kind t
        session_id =
      as_source source_slug before λ source.
      validate_session_spec mode race_duration_s required_pits before λ chosen.
      validate_idempotency_key idempotency_key before λ key.
      validate_actor_kind actor_kind before λ actor. write_transaction (
        create_body source.slug chosen key actor t session_id (
          request_hash
            (create_request source.slug chosen.mode chosen.race_duration_s chosen.required_pits)))

  -- `_transition_session`
  unfoldable pub transition_session :
      Operation → String → Option String → Option String → ℕ → Call MutationResult
  unfolding validate_idempotency_key validate_actor_kind transition_body write_transaction
  transition_session operation session_id idempotency_key actor_kind t =
      (if str_eq session_id "" then err session_not_found else ok tt) before λ _.
      validate_idempotency_key idempotency_key before λ key.
      validate_actor_kind actor_kind before λ actor c. on_integrity_error (
        write_transaction
          (transition_body operation session_id key actor t
            (request_hash (transition_request operation session_id)))
          c)

  -- `start_session`, `stop_session` and `abort_session`
  module _ (session_id : String) (idempotency_key actor_kind : Option String) (t : ℕ) where
    unfoldable pub start_session : Call MutationResult
    unfolding transition_session
    start_session = transition_session Operation.start session_id idempotency_key actor_kind t

    unfoldable pub stop_session : Call MutationResult
    unfolding transition_session
    stop_session = transition_session Operation.stop session_id idempotency_key actor_kind t

    unfoldable pub abort_session : Call MutationResult
    unfolding transition_session
    abort_session = transition_session Operation.abort session_id idempotency_key actor_kind t
