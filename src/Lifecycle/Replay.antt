-- ===== src/Lifecycle/Replay.antt =====
-- About the idempotency keys of server/timing/lifecycle.py and requests that are sent again.
use balchug_racing.Base.{
  ℕ, ◌≡◌, refl, inl, inr, String, true, false, Option, none, some, [], ◌∷◌, arith, Bool-cases,
  Option-cases, any, find, find-any, find-append_none, if◌then◌else◌, str_eq, str_eq_iff,
}
use balchug_racing.Lifecycle.State.{
  Operation, EventType, source_index, AnalysisSession, MutationResult, session_json, KeyRow,
  Parameters, Db, Request, session_not_found, transition_request, empty,
}
use balchug_racing.Lifecycle.Transaction.{
  Result, ok, err, Outcome, returns, raises, Action, pure, Connection, resume, ◌>>=◌,
  write_transaction,
}
use balchug_racing.Lifecycle.Validation.{validate_idempotency_key, validate_actor_kind}
use balchug_racing.Lifecycle.Store.{
  has_key, same_operation, get_session_row, idempotency_replay, store_idempotency, write_audit,
}
use balchug_racing.Lifecycle.Operations.{
  ◌before◌, on_integrity_error, answered, or_replay, conclude, answer, apply_operation,
  transition_fresh, transition_body, transition_session,
}

-- The answer to a request stands behind its key.
pub record Remembered (key : String) (op : Operation) (hash : String) (s : AnalysisSession)
    (db : Db) : Type 0 where
  pub row : KeyRow
  pub found : find (has_key key) db.keys ≡ some row
  pub operation : row.operation ≡ op
  pub request_hash : row.request_hash ≡ hash
  pub answer : row.result_json ≡ session_json s

-- a statement that returned, and what came after it
pub >>=-eq-returns :
    {A B : Type 0} (m : Action A) (f : A → Action B) {b : B} {db db' : Db}
    → (m >>= f) db ≡ returns b db'
    → (a : A) × (db1 : Db) × (m db ≡ returns a db1) × (f a db1 ≡ returns b db')
>>=-eq-returns m f {b} {db} {db'} h = by_outcome (m db) refl h
  where
    by_outcome :
        (r : Outcome Db _)
        → m db ≡ r
        → resume f r ≡ returns b db'
        → (a : _) × (db1 : Db) × (m db ≡ returns a db1) × (f a db1 ≡ returns b db')
    by_outcome (returns a db1) e h' = (a, db1, e, h')
    by_outcome (raises e db1) p h' = absurd (ground arith)

same_operation_refl : (op : Operation) → same_operation op op ≡ true
same_operation_refl Operation.create = refl
same_operation_refl Operation.start = refl
same_operation_refl Operation.stop = refl
same_operation_refl Operation.abort = refl
same_operation_refl Operation.other = refl

-- A remembered request is answered from the table, and the tables stay.
idempotency_replay-Remembered :
    (key : String) (op : Operation) (hash : String) (s : AnalysisSession) (db : Db)
    → Remembered key op hash s db
    → idempotency_replay (some key) op hash db
      ≡ returns (some (record { session = s; replayed = true })) db
unfolding idempotency_replay
idempotency_replay-Remembered key op hash s db m = ground (
  arith,
  m.found,
  m.operation,
  m.request_hash,
  m.answer,
  same_operation_refl op,
  (str_eq_iff hash hash).1 refl,
)

pub or_replay-Remembered :
    (key : String) (op : Operation) (hash : String) (s : AnalysisSession)
    (fresh : Action MutationResult) (db : Db)
    → Remembered key op hash s db
    → or_replay (some key) op hash fresh db ≡ returns (record { session = s; replayed = true }) db
unfolding or_replay
or_replay-Remembered key op hash s fresh db m =
    rw (idempotency_replay-Remembered key op hash s db m)

same_operation→eq : (a b : Operation) → same_operation a b ≡ true → a ≡ b
same_operation→eq Operation.create b h = ground arith
same_operation→eq _ b h = ground arith

-- What is answered from the table was remembered; the tables stay.
replayed-Remembered :
    (key : String) (op : Operation) (hash : String) (db : Db) (result : MutationResult) (db1 : Db)
    → idempotency_replay (some key) op hash db ≡ returns (some result) db1
    → Remembered key op hash result.session db1
unfolding idempotency_replay
replayed-Remembered key op hash db result db1 h = elim (Option-cases (find (has_key key) db.keys)) [
  | inl new ↦ absurd (ground (arith, new))
  | inr (r, e) ↦ record {
    row = r;
    found = ground arith;
    operation = same_operation→eq r.operation op (ground arith);
    request_hash = (str_eq_iff r.request_hash hash).0 (ground arith);
    answer = ground arith;
  }
]

store_idempotency-Remembered :
    (key : String) (op : Operation) (hash : String) (result : MutationResult) (t : ℕ) (db db1 : Db)
    → store_idempotency (some key) op hash result t db ≡ returns tt db1
    → Remembered key op hash result.session db1
unfolding store_idempotency
store_idempotency-Remembered key op hash result t db db1 h =
    elim (Bool-cases (any (has_key key) db.keys)) [
      | inl used ↦ absurd (ground arith)
      | inr new ↦ record {
        row = stored;
        found = ground (
          arith,
          find-append_none (has_key key) db.keys (stored ∷ []) (find-any _ db.keys new),
          (str_eq_iff key key).1 refl,
        );
        operation = refl;
        request_hash = refl;
        answer = refl;
      }
    ]
  where
    stored : KeyRow
    stored = record {
      idempotency_key = key;
      operation = op;
      request_hash = hash;
      analysis_session_id = result.session.id;
      result_json = session_json result.session;
      created_at_us = t;
    }

then-pure :
    {B : Type 0} (o : Outcome Db (Unit {0})) (r b : B) (db' : Db)
    → resume (λ _. pure r) o ≡ returns b db'
    → (o ≡ returns tt db') × (r ≡ b)
then-pure (returns u db) r b db' h = ground arith
then-pure (raises e db) r b db' h = absurd (ground arith)

conclude-Remembered :
    (made : MutationResult) (op : Operation) (e : EventType) (actor : String) (ps : Parameters)
    (key hash : String) (t : ℕ) (db : Db) (result : MutationResult) (db' : Db)
    → conclude made op e actor ps (some key) hash t db ≡ returns result db'
    → Remembered key op hash result.session db'
unfolding conclude write_audit
conclude-Remembered made op e actor ps key hash t db result db' h =
    let (stored, same) = then-pure _ made result db' h in
    rw (← same) (store_idempotency-Remembered key op hash made t _ db' stored)

-- The fresh answer of either transaction is remembered.
pub answer-Remembered :
    (id : String) (op : Operation) (e : EventType) (actor : String) (ps : Parameters)
    (key hash : String) (t : ℕ) (db : Db) (result : MutationResult) (db' : Db)
    → answer id op e actor ps (some key) hash t db ≡ returns result db'
    → Remembered key op hash result.session db'
unfolding answer
answer-Remembered id op e actor ps key hash t db result db' h =
    let (row, db1, read, h1) = >>=-eq-returns (get_session_row id) _ h in
    conclude-Remembered _ op e actor ps key hash t db1 result db' h1

transition_fresh-Remembered :
    (op : Operation) (id key actor : String) (t : ℕ) (hash : String) (db : Db)
    (result : MutationResult) (db' : Db)
    → transition_fresh op id (some key) actor t hash db ≡ returns result db'
    → Remembered key op hash result.session db'
unfolding transition_fresh
transition_fresh-Remembered op id key actor t hash db result db' h =
    let (row, db1, read, h1) = >>=-eq-returns (get_session_row id) _ h in
    let (event, db2, applied, h2) = >>=-eq-returns (apply_operation op id t row.0) _ h1 in
    answer-Remembered id op event actor empty key hash t db2 result db' h2

-- So a transition that returned is remembered, whether it was fresh or a replay.
transition_body-Remembered :
    (op : Operation) (id key actor : String) (t : ℕ) (hash : String) (db : Db)
    (result : MutationResult) (db' : Db)
    → transition_body op id (some key) actor t hash db ≡ returns result db'
    → Remembered key op hash result.session db'
unfolding transition_body or_replay
transition_body-Remembered op id key actor t hash db result db' h =
    let (replay, db1, looked, h1) = >>=-eq-returns (idempotency_replay (some key) op hash) _ h in
    by_replay replay db1 looked h1
  where
    by_replay :
        (replay : Option MutationResult) (db1 : Db)
        → idempotency_replay (some key) op hash db ≡ returns replay db1
        → answered replay (transition_fresh op id (some key) actor t hash) db1 ≡ returns result db'
        → Remembered key op hash result.session db'
    by_replay (some r) db1 looked h1 =
        let e : r ≡ result = ground arith in
        let d : db1 ≡ db' = ground arith in
        rw (← e, ← d) (replayed-Remembered key op hash db r db1 looked)
    by_replay none db1 looked h1 =
        transition_fresh-Remembered op id key actor t hash db1 result db' h1

-- a transaction that returned
write_transaction-eq-returns :
    {A : Type 0} (body : Action A) (c c' : Connection) (a : A)
    → write_transaction body c ≡ returns a c'
    → (body c.db ≡ returns a c'.db) × (c'.in_transaction ≡ false)
unfolding write_transaction
write_transaction-eq-returns body c c' a h = ground arith

on_integrity_error-eq-returns :
    {A : Type 0} (r : Outcome Connection A) (a : A) (c : Connection)
    → on_integrity_error r ≡ returns a c
    → r ≡ returns a c
on_integrity_error-eq-returns (returns b c') a c h = h
on_integrity_error-eq-returns (raises source_index c') a c h = absurd (ground arith)
on_integrity_error-eq-returns (raises _ c') a c h = absurd (ground arith)

before-eq-returns :
    {A B : Type 0} (r : Result A) (k : A → Connection → Outcome Connection B) (c c' : Connection)
    (b : B)
    → (r before k) c ≡ returns b c'
    → (a : A) × (r ≡ ok a) × (k a c ≡ returns b c')
before-eq-returns (ok a) k c c' b h = (a, refl, h)
before-eq-returns (err e) k c c' b h = absurd (ground arith)

write_transaction_same :
    {A : Type 0} (body : Action A) (c : Connection) (a : A)
    → body c.db ≡ returns a c.db
    → c.in_transaction ≡ false
    → write_transaction body c ≡ returns a c
unfolding write_transaction
write_transaction_same body c a ran idle = ground arith

transition_body-replayed :
    (op : Operation) (id key actor : String) (t : ℕ) (hash : String) (result : MutationResult)
    (db : Db)
    → Remembered key op hash result.session db
    → transition_body op id (some key) actor t hash db
      ≡ returns (record result { replayed = true }) db
unfolding transition_body
transition_body-replayed op id key actor t hash result db m =
    or_replay-Remembered key op hash result.session _ db m

validate_idempotency_key-same :
    (key : String) (k : Option String) → validate_idempotency_key (some key) ≡ ok k → k ≡ some key
unfolding validate_idempotency_key
validate_idempotency_key-same key k h = ground arith

-- A transition that returned with a key is answered the same way when it is sent again, by any
-- valid actor and at any time, with the mark `replayed`; the connection stays as it is.
pub transition_session-replayed :
    (request_hash : Request → String) (op : Operation) (id key : String)
    (actor actor' : Option String) (t t' : ℕ) (c c' : Connection) (result : MutationResult)
    {a' : String}
    → transition_session request_hash op id (some key) actor t c ≡ returns result c'
    → validate_actor_kind actor' ≡ ok a'
    → transition_session request_hash op id (some key) actor' t' c'
      ≡ returns (record result { replayed = true }) c'
unfolding transition_session
transition_session-replayed request_hash op id key actor actor' t t' c c' result {a'} h valid =
    let (u, named, h1) =
      before-eq-returns (if str_eq id "" then err session_not_found else ok tt) _ c c' result h in
    let (k, kept, h2) = before-eq-returns (validate_idempotency_key (some key)) _ c c' result h1 in
    let (a, known, h3) = before-eq-returns (validate_actor_kind actor) _ c c' result h2 in
    let body = transition_body op id k a t (request_hash (transition_request op id)) in
    let (ran, idle) =
      write_transaction-eq-returns body c c' result
        (on_integrity_error-eq-returns _ result c' h3) in
    let same = validate_idempotency_key-same key k kept in
    let stored = transition_body-Remembered op id key a t _ c.db result c'.db (rw same at ran) in
    let again = transition_body-replayed op id key a' t' _ result c'.db stored in
    rw (named, rw same at kept, valid, write_transaction_same _ c' _ again idle)
