-- ===== src/Lifecycle/Listing.antt =====
-- `list_active_sessions` and `ensure_source_catalog` of server/timing/lifecycle.py.
use Prim.Native.String.{compare}
use Prim.Native.Nat.{Ordering}
use balchug_racing.Base.{
  ℕ, suc, String, Bool, true, false, ◌&&◌, ◌||◌, Option, none, some, List, [], ◌∷◌, ltb, ◌==◌,
  if◌then◌else◌,
}
use balchug_racing.Lifecycle.State.{TimingSource, SessionRow, AnalysisSession, Db}
use balchug_racing.Lifecycle.Transaction.{Call, write_transaction, ◌>>◌, pure}
use balchug_racing.Lifecycle.Validation.{timing_source_catalog}
use balchug_racing.Lifecycle.Store.{is_active, row_to_session, all_joined, seed_catalog}

-- a missing time comes first
abbrev pub start_rank : AnalysisSession → ℕ
start_rank s = rank s.started_at_us
  where
    rank : Option ℕ → ℕ
    rank none = 0
    rank (some n) = suc n

abbrev id_before : String → String → Bool
id_before s t = elim (compare s t) [ Ordering.lt ↦ true | _ ↦ false ]

-- `ORDER BY s.started_at_us, s.id`
abbrev is_before : AnalysisSession → AnalysisSession → Bool
is_before a b =
    ltb (start_rank a) (start_rank b) || start_rank a == start_rank b && id_before a.id b.id

-- what `ORDER BY` does with one more row
unfoldable insert_session_in_order : AnalysisSession → List AnalysisSession → List AnalysisSession
insert_session_in_order a [] = a ∷ []
insert_session_in_order a (b ∷ bs) =
    let rest = insert_session_in_order a bs in if is_before b a then b ∷ rest else a ∷ b ∷ bs

-- the rows of active sessions, in order
unfoldable pub active_in_order : List (SessionRow × TimingSource) → List AnalysisSession
unfolding insert_session_in_order row_to_session
active_in_order [] = []
active_in_order ((s, ts) ∷ rows) =
    let rest = active_in_order rows in
    if is_active s.lifecycle then insert_session_in_order (row_to_session s ts) rest else rest

-- `list_active_sessions`
unfoldable pub list_active_sessions : Db → List AnalysisSession
unfolding active_in_order all_joined
list_active_sessions db = active_in_order (all_joined db db.sessions)

-- `ensure_source_catalog`
unfoldable pub ensure_source_catalog : ℕ → Call (List TimingSource)
unfolding write_transaction seed_catalog
ensure_source_catalog timestamp_us =
    write_transaction (do seed_catalog timestamp_us; pure timing_source_catalog)
