-- ===== src/Lifecycle/Updates.antt =====
-- What the statements on the session rows do to consistent tables: the index
-- `one_active_session_per_source` never refuses an update of server/timing/lifecycle.py.
use balchug_racing.Base.{
  ℕ, ◌+◌, ◌≤◌, ◌≡◌, refl, inl, inr, String, false, some, arith, ◌==◌, ==_iff, if◌then◌else◌,
  Bool-cases, any, find, update, count, count-any, count-update, All-update, All-find,
}
use balchug_racing.Lifecycle.State.{draft, active, SessionRow, Db}
use balchug_racing.Lifecycle.Transaction.{returns}
use balchug_racing.Lifecycle.Store.{is_active_of, has_id, update_session}
use balchug_racing.Lifecycle.Operations.{start_row, stop_row, abort_row}
use balchug_racing.Lifecycle.Consistency.{HasTimes, IsConsistent, violates_index-false}

-- the tables after an update of one session
abbrev pub updated : String → (SessionRow → SessionRow) → Db → Db
updated id f db = record db { sessions = update (has_id id) f db.sessions }

pub updated-IsConsistent :
    (id : String) (f : SessionRow → SessionRow) (row : SessionRow) (db : Db)
    → IsConsistent db
    → find (has_id id) db.sessions ≡ some row
    → (f row).id ≡ row.id
    → ((source : ℕ)
        → count (is_active_of source) db.sessions + (if is_active_of source (f row) then 1 else 0)
          ≤ 1 + (if is_active_of source row then 1 else 0))
    → HasTimes (f row)
    → IsConsistent (updated id f db)
updated-IsConsistent id f row db h found same active_after times = record {
  ids = λ k. ids_after k;
  one_active = λ source. omega (
    arith,
    count-update (is_active_of source) (has_id id) f db.sessions found (h.ids id),
    active_after source,
  );
  times = All-update HasTimes (has_id id) f db.sessions h.times found (h.ids id) times;
  unique_keys = h.unique_keys;
}
  where
    ids_after : (k : String) → count (has_id k) (update (has_id id) f db.sessions) ≤ 1
    ids_after k =
        let moved = count-update (has_id k) (has_id id) f db.sessions found (h.ids id) in
        omega (arith, rw same at moved, h.ids k)

pub update_session_lem :
    (id : String) (f : SessionRow → SessionRow) (db : Db)
    → IsConsistent (updated id f db)
    → update_session id f db ≡ returns tt (updated id f db)
unfolding update_session
update_session_lem id f db h = rw (violates_index-false _ h.one_active)

-- The update of each verb keeps the tables consistent, where its guards hold.
module _ (id : String) (t : ℕ) (row : SessionRow) (db : Db) (h : IsConsistent db)
    (found : find (has_id id) db.sessions ≡ some row) where
  pub start-IsConsistent :
      row.lifecycle ≡ draft
      → any (is_active_of row.source_id) db.sessions ≡ false
      → IsConsistent (updated id (start_row t) db)
  unfolding start_row
  start-IsConsistent l idle =
      updated-IsConsistent id (start_row t) row db h found refl one
        (refl, (rw l at (All-find HasTimes (has_id id) db.sessions h.times found)).1)
    where
      one :
          (source : ℕ)
          → count (is_active_of source) db.sessions + (if row.source_id == source then 1 else 0)
            ≤ 1 + (if is_active_of source row then 1 else 0)
      one source = elim (Bool-cases (row.source_id == source)) [
        | inl hit ↦
            let e : row.source_id ≡ source = (==_iff row.source_id source).0 hit in
            let none_yet : count (is_active_of source) db.sessions ≡ 0 =
              rw (← e) (count-any _ db.sessions idle) in
            rw hit (omega (arith, none_yet))
        | inr miss ↦ rw miss (omega (arith, h.one_active source))
      ]

  pub stop-IsConsistent : row.lifecycle ≡ active → IsConsistent (updated id (stop_row t) db)
  unfolding stop_row
  stop-IsConsistent l =
      updated-IsConsistent id (stop_row t) row db h found refl
        (λ source. ground (arith, h.one_active source))
        ((rw l at (All-find HasTimes (has_id id) db.sessions h.times found)).0, refl)

  pub abort-IsConsistent : IsConsistent (updated id (abort_row t) db)
  unfolding abort_row
  abort-IsConsistent =
      updated-IsConsistent id (abort_row t) row db h found refl
        (λ source. ground (arith, h.one_active source)) refl
