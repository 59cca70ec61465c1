-- ===== src/Lifecycle/Tests.antt =====
-- Runs of server/timing/lifecycle.py on small tables.
use balchug_racing.Base.{
  ℕ, ◌≤◌, ◌≡◌, refl, ◌↔◌, String, true, false, none, some, [], ◌∷◌, arith, length, All, any,
}
use balchug_racing.Lifecycle.State.{
  Lifecycle, Operation, active, SessionRow, SourceRow, MutationResult, Db, Request,
  transition_error, active_session_conflict, idempotency_conflict,
}
use balchug_racing.Lifecycle.Transaction.{ok, returns, raises, after, Connection}
use balchug_racing.Lifecycle.Validation.{
  SessionSpec, validate_key_codes, validate_session_spec, validate_actor_kind,
}
use balchug_racing.Lifecycle.Store.{is_active_of}
use balchug_racing.Lifecycle.Operations.{
  create_session, transition_session, transition_fresh, start_session, stop_session,
}
use balchug_racing.Lifecycle.Consistency.{IsConsistent}
use balchug_racing.Lifecycle.Preservation.{
  create_session-IsConsistent, transition_session-IsConsistent,
}
use balchug_racing.Lifecycle.Atomicity.{
  IsAtomic, create_session-IsAtomic, transition_session-IsAtomic,
}
use balchug_racing.Lifecycle.Replay.{transition_session-replayed}
use balchug_racing.Lifecycle.Outcomes.{Meets, expected, transition_fresh-Meets}
use balchug_racing.Lifecycle.Arguments.{
  IsVisible, IsAllowed, validate_key_codes-eq_ok_iff, validate_session_spec-eq_ok_iff,
}

-- a digest for tests
abbrev digest : Request → String
digest r = "digest"

abbrev igora : SourceRow
igora = record {
  id = 1;
  source = record {
    slug = "igora";
    display_name = "Igora Drive";
    source_url = "https://livetiming.getraceresults.com/igora";
    timezone_name = "Europe/Moscow";
    adapter_version = "timeservice-signalr-v1";
  };
  created_at_us = 1;
}

abbrev practice : SessionSpec
practice = record { mode = "practice"; race_duration_s = none; required_pits = none }

abbrev row : SessionRow
row = record {
  id = "s1";
  source_id = 1;
  timezone_name = "Europe/Moscow";
  mode = "practice";
  lifecycle = Lifecycle.draft;
  race_duration_s = none;
  required_pits = none;
  our_participant_id = none;
  our_class = none;
  identity_state = "pending";
  started_at_us = none;
  stopped_at_us = none;
  stop_intent = none;
  created_at_us = 2;
  updated_at_us = 2;
}

abbrev db : Db
db = record { sources = igora ∷ []; sessions = row ∷ []; audits = []; keys = [] }

abbrev c : Connection
c = record { db = db; in_transaction = false }

db-IsConsistent : IsConsistent db
db-IsConsistent = record {
  ids = λ id. ground arith;
  one_active = λ source. ground arith;
  times = ((refl, refl), tt);
  unique_keys = λ key. ground arith;
}

abbrev started : MutationResult
started = record {
  session = record {
    id = "s1";
    source_slug = "igora";
    source_url = "https://livetiming.getraceresults.com/igora";
    source_name = "Igora Drive";
    timezone_name = "Europe/Moscow";
    mode = "practice";
    lifecycle = active;
    race_duration_s = none;
    required_pits = none;
    our_participant_id = none;
    our_class = none;
    identity_state = "pending";
    started_at_us = some 5;
    stopped_at_us = none;
    stop_intent = none;
    created_at_us = 2;
    updated_at_us = 5;
  };
  replayed = false;
}

abbrev c1 : Connection
c1 = after (transition_session digest Operation.start "s1" (some "key-1") none 5 c)

start-c :
    transition_session digest Operation.start "s1" (some "key-1") none 5 c ≡ returns started c1
unfolding transition_session
start-c = refl

start_again : start_session digest "s1" none none 6 c1 ≡ raises transition_error c1
unfolding start_session
start_again = refl

-- the key of the start cannot be used to stop
key_reused : stop_session digest "s1" (some "key-1") none 6 c1 ≡ raises idempotency_conflict c1
unfolding stop_session
key_reused = refl

-- a second session of the source waits for the first to end
second_session :
    transition_session digest Operation.start "s2" none none 9
      (after (create_session digest "igora" "practice" none none none none 8 "s2" c1))
    ≡ raises active_session_conflict
        (after (create_session digest "igora" "practice" none none none none 8 "s2" c1))
unfolding transition_session create_session
second_session = refl

create_session-IsConsistent_example :
    IsConsistent
      (after (create_session digest "moscow" "race" (some 14400) (some 3) none none 8 "s2" c)).db
create_session-IsConsistent_example =
    create_session-IsConsistent digest c db-IsConsistent "moscow" "race" (some 14400) (some 3) none
      none 8 "s2"

transition_session-IsConsistent_example :
    IsConsistent (after (transition_session digest Operation.start "s1" none none 8 c)).db
transition_session-IsConsistent_example =
    transition_session-IsConsistent digest c db-IsConsistent Operation.start "s1" none none 8

create_session-IsAtomic_example :
    IsAtomic c (create_session digest "igora" "practice" none none none none 8 "s1" c)
create_session-IsAtomic_example =
    create_session-IsAtomic digest c "igora" "practice" none none none none 8 "s1"

transition_session-IsAtomic_example :
    IsAtomic c (transition_session digest Operation.stop "s1" none none 8 c)
transition_session-IsAtomic_example =
    transition_session-IsAtomic digest c Operation.stop "s1" none none 8

transition_session-replayed_example :
    transition_session digest Operation.start "s1" (some "key-1") (some "system") 9 c1
    ≡ returns (record started { replayed = true }) c1
unfolding validate_actor_kind
transition_session-replayed_example =
    transition_session-replayed digest Operation.start "s1" "key-1" none (some "system") 5 9 c c1
      started start-c refl

transition_fresh-Meets_example :
    Meets "s1" "system" 8 db
      (expected Operation.start row.lifecycle (any (is_active_of row.source_id) db.sessions))
      (transition_fresh Operation.start "s1" none "system" 8 "digest" db)
transition_fresh-Meets_example =
    transition_fresh-Meets "s1" "system" 8 "digest" row igora db db-IsConsistent refl refl
      Operation.start

validate_key_codes-eq_ok_iff_example : (validate_key_codes (65 ∷ 66 ∷ []) ≡ ok tt) ↔ (
    (1 ≤ length {A = ℕ} (65 ∷ 66 ∷ []))
    × (length {A = ℕ} (65 ∷ 66 ∷ []) ≤ 255)
    × All IsVisible (65 ∷ 66 ∷ []))
validate_key_codes-eq_ok_iff_example = validate_key_codes-eq_ok_iff (65 ∷ 66 ∷ [])

validate_session_spec-eq_ok_iff_example :
    (validate_session_spec "practice" none none ≡ ok practice) ↔ (
      IsAllowed practice
      × (practice.mode ≡ "practice")
      × (practice.race_duration_s ≡ none)
      × (practice.required_pits ≡ none))
validate_session_spec-eq_ok_iff_example =
    validate_session_spec-eq_ok_iff "practice" none none practice
