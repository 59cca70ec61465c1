-- ===== src/Events/Append.antt =====
-- `append_stream_events` of server/timing/stream_events.py. `json.dumps` is the parameter `dumps`,
-- which has no result when it raises.
use balchug_racing.Base.{
  ℕ, suc, ◌+◌, String, Bool, true, false, not, ◌&&◌, Option, none, some, List, [], ◌∷◌, ltb, leb,
  if◌then◌else◌, length, any, all, str_eq,
}
use balchug_racing.Base.Int.{ℤ, pos, negsuc}
use balchug_racing.Canonical.Duration.{codes, is_space}

-- an event of `events`
pub record Candidate (P : Type 0) : Type 0 where
  pub event_type : String
  pub event_key : String
  pub payload : P

-- the arguments that all events of a call share
pub record Origin : Type 0 where
  pub analysis_session_id : String
  pub source_heat_id : ℤ
  pub source_frame_id : ℤ
  pub source_message_id : Option ℤ
  pub source_key : String
  pub observed_at_us : ℤ

-- a row of `stream_events`
pub record EventRow : Type 0 where
  pub id : ℕ
  pub origin : Origin
  pub event_type : String
  pub event_key : String
  pub payload_json : String

-- the rows, newest first, and the largest id that was ever given
pub record Stream : Type 0 where
  pub rows : List EventRow
  pub last_id : ℕ

-- How a call ends: with a number of rows written, or with a `StreamEventError`.
pub data Appended : Type 0 where
  returns : ℕ → Stream → Appended
  raises : Stream → Appended

abbrev pub stream_event_types : List String
stream_event_types = "state" ∷ "flag" ∷ "lap" ∷ "pit" ∷ "metric" ∷ "alert" ∷ "quality" ∷ []

abbrev pub is_positive : ℤ → Bool
is_positive (pos n) = ltb 0 n
is_positive (negsuc n) = false

abbrev pub is_natural : ℤ → Bool
is_natural (pos n) = true
is_natural (negsuc n) = false

abbrev pub positive_or_none : Option ℤ → Bool
positive_or_none none = true
positive_or_none (some n) = is_positive n

-- the checks of the arguments
unfoldable pub is_valid_origin : Origin → Bool
is_valid_origin o =
    not (str_eq o.analysis_session_id "")
    && is_positive o.source_heat_id
    && is_positive o.source_frame_id
    && positive_or_none o.source_message_id
    && not (all is_space (codes o.source_key))
    && is_natural o.observed_at_us

-- the checks of one event
unfoldable pub is_admitted : {P : Type 0} → List String → Candidate P → Bool
is_admitted seen e =
    any (str_eq e.event_type) stream_event_types
    && not (str_eq e.event_key "")
    && leb (length (codes e.event_key)) 500
    && not (any (str_eq e.event_key) seen)

-- the JSON text of an event that passes its checks
unfoldable pub text_of :
    {P : Type 0} → (P → Option String) → List String → Candidate P → Option String
unfolding is_admitted
text_of dumps seen e = if is_admitted seen e then dumps e.payload else none

-- the unique index on session and key
abbrev pub has_event : String → String → EventRow → Bool
has_event session key r = str_eq r.origin.analysis_session_id session && str_eq r.event_key key

abbrev pub is_stored : Origin → String → Stream → Bool
is_stored o key s = any (has_event o.analysis_session_id key) s.rows

-- `INSERT OR IGNORE`
unfoldable pub insert_event : {P : Type 0} → Origin → Candidate P → String → Stream → Stream
insert_event o e json s = if is_stored o e.event_key s then s else record {
  rows =
      record {
        id = suc s.last_id;
        origin = o;
        event_type = e.event_type;
        event_key = e.event_key;
        payload_json = json;
      }
      ∷ s.rows;
  last_id = suc s.last_id;
}

-- `cursor.rowcount` of that insert
abbrev pub added : Origin → String → Stream → ℕ
added o key s = if is_stored o key s then 0 else 1

-- the loop over the events
unfoldable pub append_from :
    {P : Type 0}
    → (P → Option String)
    → Origin
    → List String
    → ℕ
    → List (Candidate P)
    → Stream
    → Appended
unfolding text_of insert_event
append_from dumps o seen written [] s = returns written s
append_from dumps o seen written (e ∷ es) s = elim (text_of dumps seen e) [
  | none ↦ raises s
  | some json ↦
      append_from dumps o (e.event_key ∷ seen) (written + added o e.event_key s) es
        (insert_event o e json s)
]

-- `append_stream_events`
unfoldable pub append_stream_events :
    {P : Type 0} → (P → Option String) → Origin → List (Candidate P) → Stream → Appended
unfolding is_valid_origin append_from
append_stream_events dumps o events s =
    if is_valid_origin o then append_from dumps o [] 0 events s else raises s
