-- ===== src/Lifecycle/Store.antt =====
-- The statements of server/timing/lifecycle.py on the tables, in the rows' order of insertion.
use Prim.Native.Nat.{max}
use balchug_racing.Base.{
  ℕ, ◌+◌, String, Bool, true, false, not, ◌&&◌, ◌||◌, Option, none, some, List, [], ◌∷◌, ◌++◌, ◌==◌,
  ltb, if◌then◌else◌, any, find, filter, update, count, str_eq,
}
use balchug_racing.Lifecycle.State.{
  Lifecycle, active, Operation, EventType, lifecycle_error, session_not_found, idempotency_conflict,
  source_index, integrity_error, TimingSource, SourceRow, SessionRow, AnalysisSession,
  MutationResult, session_json, other_json, KeyRow, Parameters, Db,
}
use balchug_racing.Lifecycle.Transaction.{returns, Action, pure, raise, gets, lift, modify, ◌>>=◌}
use balchug_racing.Lifecycle.Validation.{timing_source_catalog, as_source}

abbrev pub is_active : Lifecycle → Bool
is_active active = true
is_active _ = false

abbrev pub same_operation : Operation → Operation → Bool
same_operation Operation.create Operation.create = true
same_operation Operation.start Operation.start = true
same_operation Operation.stop Operation.stop = true
same_operation Operation.abort Operation.abort = true
same_operation Operation.other Operation.other = true
same_operation _ _ = false

abbrev pub max_id : List SourceRow → ℕ
max_id [] = 0
max_id (r ∷ rs) = max r.id (max_id rs)

abbrev pub has_slug : String → SourceRow → Bool
has_slug slug r = str_eq r.source.slug slug

-- `INSERT ... ON CONFLICT(slug) DO UPDATE`; an integer primary key is one more than the largest
unfoldable pub upsert_source : ℕ → TimingSource → List SourceRow → List SourceRow
upsert_source timestamp_us source rows =
    if any (has_slug source.slug) rows
    then update (has_slug source.slug) (λ r. record r { source = source }) rows
    else rows
      ++ (record { id = max_id rows + 1; source = source; created_at_us = timestamp_us } ∷ [])

upsert_all : ℕ → List TimingSource → List SourceRow → List SourceRow
upsert_all timestamp_us [] rows = rows
upsert_all timestamp_us (s ∷ ss) rows =
    upsert_all timestamp_us ss (upsert_source timestamp_us s rows)

-- `_seed_catalog`
unfoldable pub seed_catalog : ℕ → Action (Unit {0})
unfolding upsert_all upsert_source
seed_catalog timestamp_us =
    modify (λ db. record db { sources = upsert_all timestamp_us timing_source_catalog db.sources })

-- `_row_to_session`, on a row of `_SESSION_SELECT`: a session joined with its source
unfoldable pub row_to_session : SessionRow → TimingSource → AnalysisSession
row_to_session s ts = record {
  id = s.id;
  source_slug = ts.slug;
  source_url = ts.source_url;
  source_name = ts.display_name;
  timezone_name = s.timezone_name;
  mode = s.mode;
  lifecycle = s.lifecycle;
  race_duration_s = s.race_duration_s;
  required_pits = s.required_pits;
  our_participant_id = s.our_participant_id;
  our_class = s.our_class;
  identity_state = s.identity_state;
  started_at_us = s.started_at_us;
  stopped_at_us = s.stopped_at_us;
  stop_intent = s.stop_intent;
  created_at_us = s.created_at_us;
  updated_at_us = s.updated_at_us;
}

abbrev pub has_id : String → SessionRow → Bool
has_id session_id s = str_eq s.id session_id

abbrev pub source_of : Db → SessionRow → Option SourceRow
source_of db s = find (λ ts. ts.id == s.source_id) db.sources

-- the inner join of `_SESSION_SELECT` for one session
unfoldable pub joined : Db → SessionRow → Option (SessionRow × TimingSource)
joined db s = elim (source_of db s) [ none ↦ none | some ts ↦ some (s, ts.source) ]

-- `_get_session_row`
unfoldable pub get_session_row : String → Action (SessionRow × TimingSource)
unfolding joined
get_session_row session_id db = elim (find (has_id session_id) db.sessions) [
  | none ↦ raise session_not_found db
  | some s ↦ elim (joined db s) [ none ↦ raise session_not_found db | some row ↦ pure row db ]
]

-- `get_session`
unfoldable pub get_session : String → Action AnalysisSession
unfolding get_session_row row_to_session
get_session session_id =
    if str_eq session_id ""
    then raise session_not_found
    else do (s, ts) ← get_session_row session_id; pure (row_to_session s ts)

unfoldable pub all_joined : Db → List SessionRow → List (SessionRow × TimingSource)
all_joined db [] = []
all_joined db (s ∷ ss) =
    let rest = all_joined db ss in elim (joined db s) [ none ↦ rest | some row ↦ row ∷ rest ]

-- `get_active_session`; an unknown slug raises
unfoldable pub get_active_session : String → Action (Option AnalysisSession)
unfolding all_joined joined row_to_session as_source
get_active_session source_slug = do
  source ← lift (as_source source_slug)
  db ← gets (λ db. db)
  pure
      (elim (find (λ row. str_eq row.1.slug source.slug && is_active row.0.lifecycle)
        (all_joined db db.sessions)) [ none ↦ none | some row ↦ some (row_to_session row.0 row.1) ])

abbrev pub has_key : String → KeyRow → Bool
has_key key k = str_eq k.idempotency_key key

-- `_idempotency_replay`
unfoldable pub idempotency_replay :
    Option String → Operation → String → Action (Option MutationResult)
idempotency_replay none operation request_hash db = pure none db
idempotency_replay (some key) operation request_hash db = elim (find (has_key key) db.keys) [
  | none ↦ pure none db
  | some k ↦
      if not (same_operation k.operation operation) || not (str_eq k.request_hash request_hash)
      then raise idempotency_conflict db
      else elim k.result_json [
        | session_json s ↦ pure (some (record { session = s; replayed = true })) db
        | other_json ↦ raise lifecycle_error db
      ]
]

-- `_store_idempotency`; a second row with the key violates the primary key
unfoldable pub store_idempotency :
    Option String → Operation → String → MutationResult → ℕ → Action (Unit {0})
store_idempotency none operation request_hash result timestamp_us db = pure tt db
store_idempotency (some key) operation request_hash result timestamp_us db =
    if any (has_key key) db.keys
    then raise integrity_error db
    else modify
        (λ d. record d {
          keys =
              d.keys
              ++ (record {
                idempotency_key = key;
                operation = operation;
                request_hash = request_hash;
                analysis_session_id = result.session.id;
                result_json = session_json result.session;
                created_at_us = timestamp_us;
              }
                  ∷ []);
        })
        db

-- `_write_audit`
unfoldable pub write_audit : String → EventType → String → Parameters → ℕ → Action (Unit {0})
write_audit session_id event_type actor_kind parameters timestamp_us = modify (λ d. record d {
  audits =
      d.audits
      ++ (record {
        analysis_session_id = session_id;
        event_type = event_type;
        actor_kind = actor_kind;
        parameters = parameters;
        created_at_us = timestamp_us;
      }
          ∷ []);
})

-- an active session of the source
abbrev pub is_active_of : ℕ → SessionRow → Bool
is_active_of source_id s = is_active s.lifecycle && s.source_id == source_id

-- the partial unique index `one_active_session_per_source`
unfoldable pub violates_index : List SessionRow → Bool
violates_index rows =
    any (λ s. ltb 1 (count (is_active_of s.source_id) rows))
      (filter (λ s. is_active s.lifecycle) rows)

-- an `UPDATE` of `analysis_sessions` by the id of a session
unfoldable pub update_session : String → (SessionRow → SessionRow) → Action (Unit {0})
unfolding violates_index
update_session session_id change db =
    let rows = update (has_id session_id) change db.sessions in
    if violates_index rows
    then raise source_index db
    else returns tt (record db { sessions = rows })
