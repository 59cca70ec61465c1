-- ===== src/Lifecycle/Preservation.antt =====
-- About the operations of server/timing/lifecycle.py and the invariant of its tables.
use balchug_racing.Base.{
  ℕ, ◌≡◌, refl, inl, inr, String, Bool, true, false, Option, none, some, arith, Bool-cases, any,
  All-append, count-append, if◌then◌else◌, str_eq,
}
use balchug_racing.Lifecycle.State.{
  Operation, EventType, MutationResult, Parameters, Db, Request, lifecycle_error, source_index,
  session_not_found, create_request, transition_request,
}
use balchug_racing.Lifecycle.Transaction.{
  Result, ok, err, Outcome, returns, raises, after, Call, ◌>>◌, pure, Action, Connection, close,
  write_transaction,
}
use balchug_racing.Lifecycle.Validation.{
  SessionSpec, as_source, validate_session_spec, validate_idempotency_key, validate_actor_kind,
}
use balchug_racing.Lifecycle.Store.{
  is_active_of, has_id, get_session_row, seed_catalog, idempotency_replay, write_audit,
  store_idempotency,
}
use balchug_racing.Lifecycle.Operations.{
  draft_row, insert_session, source_row, answered, or_replay, conclude, answer, create_fresh,
  create_body, transition_fresh, transition_body, create_session, transition_session, ◌before◌,
  on_integrity_error,
}
use balchug_racing.Lifecycle.Consistency.{
  HasTimes, IsConsistent, Keeps, bind-Keeps, seed_catalog-Keeps, write_audit-Keeps,
  store_idempotency-Keeps, get_session_row-same, idempotency_replay-same, unique-append,
}
use balchug_racing.Lifecycle.Verbs.{apply_operation-cases, get_session_row-cases}

get_session_row-Keeps : (id : String) → Keeps (get_session_row id)
get_session_row-Keeps id db h = rw (get_session_row-same id db) h

idempotency_replay-Keeps :
    (key : Option String) (op : Operation) (hash : String) → Keeps (idempotency_replay key op hash)
idempotency_replay-Keeps key op hash db h = rw (idempotency_replay-same key op hash db) h

or_replay-Keeps :
    (key : Option String) (op : Operation) (hash : String) (fresh : Action MutationResult)
    → Keeps fresh
    → Keeps (or_replay key op hash fresh)
unfolding or_replay
or_replay-Keeps key op hash fresh k =
    bind-Keeps (idempotency_replay key op hash) (λ replay. answered replay fresh)
      (idempotency_replay-Keeps key op hash) by_replay
  where
    by_replay : (replay : Option MutationResult) → Keeps (answered replay fresh)
    by_replay (some result) db h = h
    by_replay none db h = k db h

source_row-Keeps : (slug : String) → Keeps (source_row slug)
unfolding source_row
source_row-Keeps slug db h = let same : after (source_row slug db) ≡ db = ground arith in rw same h

-- A draft can be added under a new id.
insert_session-Keeps :
    (id : String) (source : ℕ) (zone : String) (chosen : SessionSpec) (t : ℕ)
    → Keeps (insert_session (draft_row id source zone chosen t))
unfolding insert_session draft_row
insert_session-Keeps id source zone chosen t db h =
    elim (Bool-cases (any (has_id id) db.sessions)) [
      | inl used ↦ rw (used, insert_session) h
      | inr new ↦
          rw (new, insert_session)
            (record {
              ids = λ k. unique-append (λ s. s.id) db.sessions _ k new (h.ids k);
              one_active = λ k.
                  rw (count-append (is_active_of k) db.sessions) (omega (arith, h.one_active k));
              times = All-append HasTimes db.sessions _ h.times ((refl, refl), tt);
              unique_keys = h.unique_keys;
            })
    ]

conclude-Keeps :
    (result : MutationResult) (op : Operation) (e : EventType) (actor : String) (ps : Parameters)
    (key : Option String) (hash : String) (t : ℕ)
    → Keeps (conclude result op e actor ps key hash t)
unfolding conclude
conclude-Keeps result op e actor ps key hash t =
    bind-Keeps (write_audit result.session.id e actor ps t)
      (λ _. store_idempotency key op hash result t >> pure result)
      (write_audit-Keeps result.session.id e actor ps t)
      λ _.
        bind-Keeps (store_idempotency key op hash result t) (λ _. pure result)
          (store_idempotency-Keeps key op hash result t) λ _ db h. h

answer-Keeps :
    (id : String) (op : Operation) (e : EventType) (actor : String) (ps : Parameters)
    (key : Option String) (hash : String) (t : ℕ)
    → Keeps (answer id op e actor ps key hash t)
unfolding answer
answer-Keeps id op e actor ps key hash t =
    bind-Keeps {B = MutationResult} (get_session_row id) _ (get_session_row-Keeps id)
      λ row. conclude-Keeps _ op e actor ps key hash t

create_fresh-Keeps :
    (slug : String) (chosen : SessionSpec) (key : Option String) (actor : String) (t : ℕ)
    (id hash : String)
    → Keeps (create_fresh slug chosen key actor t id hash)
unfolding create_fresh
create_fresh-Keeps slug chosen key actor t id hash =
    bind-Keeps {B = MutationResult} (source_row slug) _ (source_row-Keeps slug) λ r.
      bind-Keeps {B = MutationResult}
        (insert_session (draft_row id r.id r.source.timezone_name chosen t)) _
        (insert_session-Keeps id r.id r.source.timezone_name chosen t)
        λ _. answer-Keeps id Operation.create EventType.created actor _ key hash t

pub create_body-Keeps :
    (slug : String) (chosen : SessionSpec) (key : Option String) (actor : String) (t : ℕ)
    (id hash : String)
    → Keeps (create_body slug chosen key actor t id hash)
unfolding create_body
create_body-Keeps slug chosen key actor t id hash =
    let fresh = create_fresh slug chosen key actor t id hash in
    bind-Keeps (seed_catalog t) (λ _. or_replay key Operation.create hash fresh)
      (seed_catalog-Keeps t)
      λ _.
        or_replay-Keeps key Operation.create hash fresh
          (create_fresh-Keeps slug chosen key actor t id hash)

transition_fresh-Keeps :
    (op : Operation) (id : String) (key : Option String) (actor : String) (t : ℕ) (hash : String)
    → Keeps (transition_fresh op id key actor t hash)
unfolding transition_fresh
transition_fresh-Keeps op id key actor t hash db h = elim (get_session_row-cases id db) [
  | inl missing ↦ rw missing h
  | inr (row, ts, read, found) ↦ elim (apply_operation-cases id t row db h found op) [
    | inl a ↦ rw (read, a.runs) (answer-Keeps id op a.event actor _ key hash t _ a.consistent)
    | inr (e, refused) ↦ rw (read, refused) h
  ]
]

pub transition_body-Keeps :
    (op : Operation) (id : String) (key : Option String) (actor : String) (t : ℕ) (hash : String)
    → Keeps (transition_body op id key actor t hash)
unfolding transition_body
transition_body-Keeps op id key actor t hash =
    or_replay-Keeps key op hash (transition_fresh op id key actor t hash)
      (transition_fresh-Keeps op id key actor t hash)

-- A transaction ends on consistent tables, committed or rolled back.
write_transaction-IsConsistent :
    {A : Type 0} (body : Action A) (c : Connection)
    → Keeps body
    → IsConsistent c.db
    → IsConsistent (after (write_transaction body c)).db
unfolding write_transaction
write_transaction-IsConsistent {A} body c k h = by_state c.in_transaction (body c.db) (k c.db h)
  where
    by_state :
        (busy : Bool) (r : Outcome Db A)
        → IsConsistent (after r)
        → IsConsistent (after (if busy then raises lifecycle_error c else close c r)).db
    by_state true r h' = h
    by_state false (returns a db) h' = h'
    by_state false (raises e db) h' = h

before-IsConsistent :
    {A B : Type 0} (r : Result A) (k : A → Call B) (c : Connection)
    → ((a : A) → IsConsistent (after (k a c)).db)
    → IsConsistent c.db
    → IsConsistent (after ((r before k) c)).db
before-IsConsistent (ok a) k c each h = each a
before-IsConsistent (err e) k c each h = h

on_integrity_error-IsConsistent :
    {A : Type 0} (r : Outcome Connection A)
    → IsConsistent (after r).db
    → IsConsistent (after (on_integrity_error r)).db
on_integrity_error-IsConsistent (returns a c) h = h
on_integrity_error-IsConsistent (raises source_index c) h = h
on_integrity_error-IsConsistent (raises _ c) h = h

module _ (request_hash : Request → String) (c : Connection) (h : IsConsistent c.db) where
  -- Creating a session keeps ids and keys unique, one active session at most for each source, and
  -- the times of each session in step with its lifecycle, whatever the arguments.
  pub create_session-IsConsistent :
      (slug mode : String) (duration pits : Option ℕ) (key actor : Option String) (t : ℕ)
      (id : String)
      → IsConsistent
          (after (create_session request_hash slug mode duration pits key actor t id c)).db
  unfolding create_session
  create_session-IsConsistent slug mode duration pits key actor t id =
      before-IsConsistent (as_source slug) _ c
        (λ source.
          before-IsConsistent (validate_session_spec mode duration pits) _ c
            (λ chosen.
              before-IsConsistent (validate_idempotency_key key) _ c
                (λ k.
                  before-IsConsistent (validate_actor_kind actor) _ c
                    (λ a.
                      let hash = request_hash (
                        create_request source.slug chosen.mode chosen.race_duration_s
                          chosen.required_pits) in
                      write_transaction-IsConsistent (create_body source.slug chosen k a t id hash)
                        c (create_body-Keeps source.slug chosen k a t id hash) h)
                    h)
                h)
            h)
        h

  -- Every transition keeps ids and keys unique, one active session at most for each source, and the
  -- times of each session in step with its lifecycle, whatever its verb and the other arguments.
  pub transition_session-IsConsistent :
      (op : Operation) (id : String) (key actor : Option String) (t : ℕ)
      → IsConsistent (after (transition_session request_hash op id key actor t c)).db
  unfolding transition_session
  transition_session-IsConsistent op id key actor t =
      before-IsConsistent (if str_eq id "" then err session_not_found else ok tt) _ c
        (λ _.
          before-IsConsistent (validate_idempotency_key key) _ c
            (λ k.
              before-IsConsistent (validate_actor_kind actor) _ c
                (λ a.
                  let body =
                    transition_body op id k a t (request_hash (transition_request op id)) in
                  on_integrity_error-IsConsistent (write_transaction body c) (
                    write_transaction-IsConsistent body c
                      (transition_body-Keeps op id k a t (request_hash (transition_request op id)))
                      h))
                h)
            h)
        h
