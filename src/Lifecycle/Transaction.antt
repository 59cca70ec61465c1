-- ===== src/Lifecycle/Transaction.antt =====
-- Statements on the database with exceptions, and `_write_transaction` of
-- server/timing/lifecycle.py. Inside a transaction what was written stays written after a raise:
-- only the rollback takes it back.
use balchug_racing.Base.{Bool, false, if◌then◌else◌}
use balchug_racing.Lifecycle.State.{Db, Error, lifecycle_error}

pub data Result (A : Type 0) : Type 0 where
  ok : A → Result A
  err : Error → Result A

-- How a call ends: it returns or raises, and leaves a state behind either way.
pub data Outcome (S A : Type 0) : Type 0 where
  returns : A → S → Outcome S A
  raises : Error → S → Outcome S A

module _ {S A : Type 0} where
  -- the state that a call leaves
  abbrev pub after : Outcome S A → S
  after (returns _ s) = s
  after (raises _ s) = s

abbrev pub Action : Type 0 → Type 0
Action A = Db → Outcome Db A

module _ {A : Type 0} where
  abbrev pub pure : A → Action A
  pure a db = returns a db

  abbrev pub raise : Error → Action A
  raise e db = raises e db

  -- a computation that touches no table
  abbrev pub lift : Result A → Action A
  lift (ok a) db = returns a db
  lift (err e) db = raises e db

  abbrev pub gets : (Db → A) → Action A
  gets f db = returns (f db) db

-- what follows a statement, on its answer and the tables that it left
abbrev pub resume : {A B : Type 0} → (A → Action B) → Outcome Db A → Outcome Db B
resume f (returns a db) = f a db
resume f (raises e db) = raises e db

infixl 5 ◌>>=◌ ◌>>◌
abbrev pub ◌>>=◌ : {A B : Type 0} → Action A → (A → Action B) → Action B
◌>>=◌ m f db = resume f (m db)

abbrev pub ◌>>◌ : {A B : Type 0} → Action A → Action B → Action B
m >> k = m >>= λ _. k

abbrev pub modify : (Db → Db) → Action (Unit {0})
modify f db = returns tt (f db)

-- A connection: the rows that are committed, and whether a transaction is open.
pub record Connection : Type 0 where
  pub db : Db
  pub in_transaction : Bool

abbrev pub Call : Type 0 → Type 0
Call A = Connection → Outcome Connection A

-- the end of a transaction that began on `c`
abbrev pub close : {A : Type 0} → Connection → Outcome Db A → Outcome Connection A
close c (returns a db) = returns a (record { db = db; in_transaction = false })
close c (raises e db) = raises e c

-- `BEGIN IMMEDIATE`, then the body; a raise rolls back, a return commits.
unfoldable pub write_transaction : {A : Type 0} → Action A → Call A
write_transaction body c =
    if c.in_transaction then raises lifecycle_error c else close c (body c.db)
