-- ===== src/Lifecycle/Atomicity.antt =====
-- About the calls of server/timing/lifecycle.py that raise.
use balchug_racing.Base.{ℕ, ◌≡◌, refl, String, Bool, true, false, Option, if◌then◌else◌, str_eq}
use balchug_racing.Lifecycle.State.{
  Operation, lifecycle_error, source_index, session_not_found, Request, create_request,
  transition_request, Db,
}
use balchug_racing.Lifecycle.Transaction.{
  Result, ok, err, Outcome, returns, raises, Action, Call, Connection, close, write_transaction,
}
use balchug_racing.Lifecycle.Validation.{
  as_source, validate_session_spec, validate_idempotency_key, validate_actor_kind,
}
use balchug_racing.Lifecycle.Operations.{
  ◌before◌, on_integrity_error, create_body, transition_body, create_session, transition_session,
}

-- what a call leaves that began on `c`: if it raised, `c` as it was
abbrev pub IsAtomic : {A : Type 0} → Connection → Outcome Connection A → Type 0
IsAtomic c (returns _ _) = Unit
IsAtomic c (raises _ c') = c' ≡ c

write_transaction-IsAtomic :
    {A : Type 0} (body : Action A) (c : Connection) → IsAtomic c (write_transaction body c)
unfolding write_transaction
write_transaction-IsAtomic {A} body c = by_state c.in_transaction (body c.db)
  where
    by_state :
        (busy : Bool) (r : Outcome Db A)
        → IsAtomic c (if busy then raises lifecycle_error c else close c r)
    by_state true r = refl
    by_state false (returns a db) = tt
    by_state false (raises e db) = refl

before-IsAtomic :
    {A B : Type 0} (r : Result A) (k : A → Call B) (c : Connection)
    → ((a : A) → IsAtomic c (k a c))
    → IsAtomic c ((r before k) c)
before-IsAtomic (ok a) k c each = each a
before-IsAtomic (err e) k c each = refl

on_integrity_error-IsAtomic :
    {A : Type 0} (c : Connection) (r : Outcome Connection A)
    → IsAtomic c r
    → IsAtomic c (on_integrity_error r)
on_integrity_error-IsAtomic c (returns a c') h = tt
on_integrity_error-IsAtomic c (raises source_index c') h = h
on_integrity_error-IsAtomic c (raises _ c') h = h

module _ (request_hash : Request → String) (c : Connection) where
  -- If creating a session raises, the connection and its tables are as they were.
  pub create_session-IsAtomic :
      (slug mode : String) (duration pits : Option ℕ) (key actor : Option String) (t : ℕ)
      (id : String)
      → IsAtomic c (create_session request_hash slug mode duration pits key actor t id c)
  unfolding create_session
  create_session-IsAtomic slug mode duration pits key actor t id =
      before-IsAtomic (as_source slug) _ c λ source.
        before-IsAtomic (validate_session_spec mode duration pits) _ c λ chosen.
          before-IsAtomic (validate_idempotency_key key) _ c λ k.
            before-IsAtomic (validate_actor_kind actor) _ c λ a.
              let hash = request_hash (
                create_request source.slug chosen.mode chosen.race_duration_s
                  chosen.required_pits) in
              write_transaction-IsAtomic (create_body source.slug chosen k a t id hash) c

  -- If a transition raises, the connection and its tables are as they were.
  pub transition_session-IsAtomic :
      (op : Operation) (id : String) (key actor : Option String) (t : ℕ)
      → IsAtomic c (transition_session request_hash op id key actor t c)
  unfolding transition_session
  transition_session-IsAtomic op id key actor t =
      before-IsAtomic (if str_eq id "" then err session_not_found else ok tt) _ c λ _.
        before-IsAtomic (validate_idempotency_key key) _ c λ k.
          before-IsAtomic (validate_actor_kind actor) _ c λ a.
            let body = transition_body op id k a t (request_hash (transition_request op id)) in
            on_integrity_error-IsAtomic c (write_transaction body c)
              (write_transaction-IsAtomic body c)
