-- ===== src/Lifecycle/State.antt =====
-- The rows, results and errors of server/timing/lifecycle.py. A time is a count of microseconds.
-- The column `result_json` holds either the text of a session, which the JSON codec restores as
-- it was, or some other text.
use balchug_racing.Base.{ℕ, String, Bool, Option, List}

-- the `CHECK` of the column `lifecycle`
pub data Lifecycle : Type 0 where
  draft active stopped aborted : Lifecycle

-- the verbs of the operations; `other` is any text but those four
pub data Operation : Type 0 where
  create start stop abort other : Operation

pub data EventType : Type 0 where
  created started stopped aborted : EventType

-- The exceptions. `source_index` is the `IntegrityError` of the index on the active sessions of a
-- source, `integrity_error` any other.
pub data Error : Type 0 where
  lifecycle_error validation_error unknown_source session_not_found transition_error : Error
  active_session_conflict idempotency_conflict source_index integrity_error : Error

pub record TimingSource : Type 0 where
  pub slug : String
  pub display_name : String
  pub source_url : String
  pub timezone_name : String
  pub adapter_version : String

-- a row of `timing_sources`
pub record SourceRow : Type 0 where
  pub id : ℕ
  pub source : TimingSource
  pub created_at_us : ℕ

-- a row of `analysis_sessions`
pub record SessionRow : Type 0 where
  pub id : String
  pub source_id : ℕ
  pub timezone_name : String
  pub mode : String
  pub lifecycle : Lifecycle
  pub race_duration_s : Option ℕ
  pub required_pits : Option ℕ
  pub our_participant_id : Option String
  pub our_class : Option String
  pub identity_state : String
  pub started_at_us : Option ℕ
  pub stopped_at_us : Option ℕ
  pub stop_intent : Option String
  pub created_at_us : ℕ
  pub updated_at_us : ℕ

pub record AnalysisSession : Type 0 where
  pub id : String
  pub source_slug : String
  pub source_url : String
  pub source_name : String
  pub timezone_name : String
  pub mode : String
  pub lifecycle : Lifecycle
  pub race_duration_s : Option ℕ
  pub required_pits : Option ℕ
  pub our_participant_id : Option String
  pub our_class : Option String
  pub identity_state : String
  pub started_at_us : Option ℕ
  pub stopped_at_us : Option ℕ
  pub stop_intent : Option String
  pub created_at_us : ℕ
  pub updated_at_us : ℕ

pub record MutationResult : Type 0 where
  pub session : AnalysisSession
  pub replayed : Bool

-- the text in `result_json`
pub data StoredJson : Type 0 where
  session_json : AnalysisSession → StoredJson
  other_json : StoredJson

-- a row of `session_idempotency_keys`
pub record KeyRow : Type 0 where
  pub idempotency_key : String
  pub operation : Operation
  pub request_hash : String
  pub analysis_session_id : String
  pub result_json : StoredJson
  pub created_at_us : ℕ

-- the parameters of an audit event: those of `create_session`, or `{}`
pub data Parameters : Type 0 where
  spec : String → Option ℕ → Option ℕ → Parameters
  empty : Parameters

-- a row of `session_audit_events`, in the order of the row ids
pub record AuditRow : Type 0 where
  pub analysis_session_id : String
  pub event_type : EventType
  pub actor_kind : String
  pub parameters : Parameters
  pub created_at_us : ℕ

pub record Db : Type 0 where
  pub sources : List SourceRow
  pub sessions : List SessionRow
  pub audits : List AuditRow
  pub keys : List KeyRow

-- what `_request_hash` is taken of
pub data Request : Type 0 where
  create_request : String → String → Option ℕ → Option ℕ → Request
  transition_request : Operation → String → Request
