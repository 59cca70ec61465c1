-- ===== src/Lifecycle/Consistency.antt =====
-- The invariant of the session tables of server/timing/lifecycle.py, and the statements that change
-- them.
use balchug_racing.Base.{
  ℕ, ◌≤◌, ◌≡◌, refl, inl, inr, String, true, false, Option, none, some, List, [], ◌∷◌, ◌++◌, arith,
  is_some, Bool-cases, any, count, All, str_eq, str_eq_iff, count-append, count-any, ltb,
}
use balchug_racing.Lifecycle.State.{
  Lifecycle, draft, active, stopped, aborted, Operation, EventType, SessionRow, MutationResult, Db,
  Parameters,
}
use balchug_racing.Lifecycle.Transaction.{Outcome, returns, raises, after, Action, resume, ◌>>=◌}
use balchug_racing.Lifecycle.Store.{
  is_active_of, has_id, has_key, seed_catalog, get_session_row, idempotency_replay,
  store_idempotency, write_audit, violates_index,
}

-- The times of a session tell its lifecycle: started once it is active, stopped once it has ended.
abbrev pub TimesOf : Lifecycle → Option ℕ → Option ℕ → Type 0
TimesOf draft since until = (since ≡ none) × (until ≡ none)
TimesOf active since until = (is_some since ≡ true) × (until ≡ none)
TimesOf stopped since until = (is_some since ≡ true) × (is_some until ≡ true)
TimesOf aborted since until = is_some until ≡ true

abbrev pub HasTimes : SessionRow → Type 0
HasTimes s = TimesOf s.lifecycle s.started_at_us s.stopped_at_us

-- Ids and keys are unique, no source has two active sessions, and times tell the lifecycle.
pub record IsConsistent (db : Db) : Type 0 where
  pub ids : (id : String) → count (has_id id) db.sessions ≤ 1
  pub one_active : (source : ℕ) → count (is_active_of source) db.sessions ≤ 1
  pub times : All HasTimes db.sessions
  pub unique_keys : (key : String) → count (has_key key) db.keys ≤ 1

-- A statement keeps the invariant, whether it returns or raises.
abbrev pub Keeps : {A : Type 0} → Action A → Type 0
Keeps m = (db : Db) → IsConsistent db → IsConsistent (after (m db))

pub resume-IsConsistent :
    {A B : Type 0} (f : A → Action B)
    → ((a : A) → Keeps (f a))
    → (r : Outcome Db A) → IsConsistent (after r)
    → IsConsistent (after (resume f r))
resume-IsConsistent f k (returns a db) h = k a db h
resume-IsConsistent f k (raises e db) h = h

pub bind-Keeps :
    {A B : Type 0} (m : Action A) (f : A → Action B)
    → Keeps m
    → ((a : A) → Keeps (f a))
    → Keeps (m >>= f)
bind-Keeps m f km kf db h = resume-IsConsistent f kf (m db) (km db h)

-- Tables with the same sessions and keys are as consistent.
pub same-IsConsistent :
    (db db' : Db)
    → db'.sessions ≡ db.sessions
    → db'.keys ≡ db.keys
    → IsConsistent db
    → IsConsistent db'
same-IsConsistent db db' s k h = record {
  ids = λ id. rw s (h.ids id);
  one_active = λ source. rw s (h.one_active source);
  times = rw s h.times;
  unique_keys = λ key. rw k (h.unique_keys key);
}

pub seed_catalog-Keeps : (t : ℕ) → Keeps (seed_catalog t)
unfolding seed_catalog
seed_catalog-Keeps t db h = same-IsConsistent db _ refl refl h

pub write_audit-Keeps :
    (id : String) (e : EventType) (actor : String) (ps : Parameters) (t : ℕ)
    → Keeps (write_audit id e actor ps t)
unfolding write_audit
write_audit-Keeps id e actor ps t db h = same-IsConsistent db _ refl refl h

pub get_session_row-same : (id : String) (db : Db) → after (get_session_row id db) ≡ db
unfolding get_session_row
get_session_row-same id db = ground arith

pub idempotency_replay-same :
    (key : Option String) (op : Operation) (hash : String) (db : Db)
    → after (idempotency_replay key op hash db) ≡ db
unfolding idempotency_replay
idempotency_replay-same none op hash db = refl
idempotency_replay-same (some key) op hash db = ground arith

-- A row whose key is new can be added.
pub unique-append :
    {A : Type 0} (key : A → String) (rows : List A) (x : A) (k : String)
    → any (λ r. str_eq (key r) (key x)) rows ≡ false
    → count (λ r. str_eq (key r) k) rows ≤ 1
    → count (λ r. str_eq (key r) k) (rows ++ (x ∷ [])) ≤ 1
unique-append key rows x k new one = elim (Bool-cases (str_eq (key x) k)) [
  | inl hit ↦
      let e : key x ≡ k = (str_eq_iff (key x) k).0 hit in
      let none_yet = count-any _ rows new in
      rw (count-append (λ r. str_eq (key r) k) rows (x ∷ []), ← e)
        (ground (arith, none_yet, (str_eq_iff (key x) (key x)).1 refl))
  | inr miss ↦ rw (count-append (λ r. str_eq (key r) k) rows (x ∷ []), miss) (omega arith)
]

pub store_idempotency-Keeps :
    (key : Option String) (op : Operation) (hash : String) (result : MutationResult) (t : ℕ)
    → Keeps (store_idempotency key op hash result t)
unfolding store_idempotency
store_idempotency-Keeps none op hash result t db h = h
store_idempotency-Keeps (some key) op hash result t db h =
    elim (Bool-cases (any (has_key key) db.keys)) [
      | inl used ↦ rw (used, store_idempotency) h
      | inr new ↦
          rw (new, store_idempotency)
            (record {
              ids = h.ids;
              one_active = h.one_active;
              times = h.times;
              unique_keys =
                  λ k. unique-append (λ r. r.idempotency_key) db.keys _ k new (h.unique_keys k);
            })
    ]

-- No row of an index with one active session for each source violates it.
pub any-violation :
    (rows xs : List SessionRow)
    → ((source : ℕ) → count (is_active_of source) rows ≤ 1)
    → any (λ s. ltb 1 (count (is_active_of s.source_id) rows)) xs ≡ false
any-violation rows [] one = refl
any-violation rows (s ∷ xs) one = ground (arith, one s.source_id, any-violation rows xs one)

pub violates_index-false :
    (rows : List SessionRow)
    → ((source : ℕ) → count (is_active_of source) rows ≤ 1)
    → violates_index rows ≡ false
unfolding violates_index
violates_index-false rows one = any-violation rows _ one
