-- ===== src/Metrics/Completed.antt =====
-- About the stops that `completed_pit_stops` of server/timing/metrics.py keeps: one for each stop that was
-- reported, however often it was.
use balchug_racing.Base.{
  ℕ, zero, suc, ◌≤◌, ◌≡◌, refl, inl, inr, Bool, true, false, ◌&&◌, Option, none, some, List, [],
  ◌∷◌, ◌++◌, leb, ◌==◌, arith, Bool-cases, any, count, length,
}
use balchug_racing.Base.Int.{ℤ, pos, negsuc}
use balchug_racing.Metrics.Gap.{natural}
use balchug_racing.Metrics.Pits.{
  PitStop, Entry, positive, numbered, key_of, same_key, entry_of, completed_entries,
}
use balchug_racing.Metrics.Stops.{
  Ascending, IsDistinct, same_key-eq, completed_entries-Ascending, completed_entries-IsDistinct,
}
use balchug_racing.Metrics.Stored.{replaces, completed_entries-stored}

-- Two reports are of one stop if they give it the same positive number, or if neither gives it one and both
-- of their times are the same.
abbrev pub same_numbers : Option ℤ → Option ℤ → Bool → Bool
same_numbers (some (pos (suc m))) (some (pos (suc n))) same_times = m == n
same_numbers (some (pos (suc m))) _ same_times = false
same_numbers _ (some (pos (suc n))) same_times = false
same_numbers _ _ same_times = same_times

abbrev pub same_stop : Entry → Entry → Bool
same_stop a b =
    same_numbers a.stop.stop_number b.stop.stop_number
      (a.entered == b.entered && a.exited == b.exited)

-- a report of the same stop, whose exit is not earlier
abbrev pub stands_for : Entry → Entry → Bool
stands_for e x = same_stop x e && leb e.exited x.exited

-- what a stop reports, as the code keeps it
abbrev pub report : ℕ → ℕ → ℕ → PitStop → Entry
report entered exited index stop = record {
  entered = entered;
  exited = exited;
  index = index;
  stop = stop;
}

same_key-numbered :
    (o p : Option ℤ) (a b c d : ℕ)
    → same_key (numbered (positive o) a b) (numbered (positive p) c d)
      ≡ same_numbers o p (a == c && b == d)
same_key-numbered none none a b c d = refl
same_key-numbered none (some (pos zero)) a b c d = refl
same_key-numbered none (some (pos (suc n))) a b c d = ground arith
same_key-numbered none (some (negsuc n)) a b c d = refl
same_key-numbered (some (pos zero)) none a b c d = refl
same_key-numbered (some (pos zero)) (some (pos zero)) a b c d = refl
same_key-numbered (some (pos zero)) (some (pos (suc n))) a b c d = ground arith
same_key-numbered (some (pos zero)) (some (negsuc n)) a b c d = refl
same_key-numbered (some (pos (suc m))) none a b c d = ground arith
same_key-numbered (some (pos (suc m))) (some (pos zero)) a b c d = ground arith
same_key-numbered (some (pos (suc m))) (some (pos (suc n))) a b c d = ground arith
same_key-numbered (some (pos (suc m))) (some (negsuc n)) a b c d = ground arith
same_key-numbered (some (negsuc m)) none a b c d = refl
same_key-numbered (some (negsuc m)) (some (pos zero)) a b c d = refl
same_key-numbered (some (negsuc m)) (some (pos (suc n))) a b c d = ground arith
same_key-numbered (some (negsuc m)) (some (negsuc n)) a b c d = refl

same_key-key_of : (a b : Entry) → same_key (key_of a) (key_of b) ≡ same_stop a b
same_key-key_of a b =
    same_key-numbered a.stop.stop_number b.stop.stop_number a.entered a.exited b.entered b.exited

any-stands_for :
    (e : Entry) (es : List Entry) → any (replaces e) es ≡ true → any (stands_for e) es ≡ true
any-stands_for e [] h = absurd (ground arith)
any-stands_for e (x ∷ xs) h = ground (arith, same_key-key_of x e, any-stands_for e xs)

-- none of these stops has the key of `e`
count-none :
    (e : Entry) (es : List Entry)
    → any (λ x. same_key (key_of x) (key_of e)) es ≡ false
    → count (λ x. same_stop x e) es ≡ 0
count-none e [] h = refl
count-none e (x ∷ xs) h =
    let apart : same_stop x e ≡ false = ground (arith, same_key-key_of x e, h) in
    rw apart (omega (arith, count-none e xs (ground (arith, h))))

-- one key is the key of one stop at most
count-one :
    (e : Entry) (es : List Entry)
    → IsDistinct es
    → any (replaces e) es ≡ true
    → count (λ x. same_stop x e) es ≡ 1
count-one e [] distinct h = absurd (ground arith)
count-one e (x ∷ xs) distinct h = elim (Bool-cases (same_key (key_of x) (key_of e))) [
  | inl same ↦
      let key = same_key-eq (key_of x) (key_of e) same in
      let here : same_stop x e ≡ true = ground (arith, same_key-key_of x e, same) in
      rw here (omega (arith, count-none e xs (rw key at distinct.0)))
  | inr apart ↦
      let other : same_stop x e ≡ false = ground (arith, same_key-key_of x e, apart) in
      rw other (omega (arith, count-one e xs distinct.1 (ground (arith, h, apart))))
]

-- However often stops are reported and in whatever order, each stop that is reported as completed, with an
-- exit that is not before its entry, is kept exactly once: by its positive number, or by its two times when
-- it has none. The report that is kept has an exit that is not earlier, and the kept stops stand in the
-- order of their exits.
pub completed_entries-once :
    (before after : List PitStop) (stop : PitStop) (entered exited : ℕ)
    → stop.completed ≡ some true
    → stop.entered_at_us ≡ some (pos entered)
    → stop.exited_at_us ≡ some (pos exited)
    → entered ≤ exited
    → (count
          (λ x. same_stop x (report entered exited (length before) stop))
          (completed_entries (before ++ (stop ∷ after)))
        ≡ 1)
      × (any
            (stands_for (report entered exited (length before) stop))
            (completed_entries (before ++ (stop ∷ after)))
          ≡ true)
      × Ascending (completed_entries (before ++ (stop ∷ after)))
unfolding entry_of
completed_entries-once before after stop entered exited over in_at out_at order =
    let e = report entered exited (length before) stop in
    let es = completed_entries (before ++ (stop ∷ after)) in
    let reported : entry_of (length before) stop (natural stop.entered_at_us)
          (natural stop.exited_at_us)
        ≡ some e =
      rw (in_at, out_at, over) (ground arith) in
    let kept = completed_entries-stored before after stop e reported in
    (
      count-one e es (completed_entries-IsDistinct (before ++ (stop ∷ after))) kept,
      any-stands_for e es kept,
      completed_entries-Ascending (before ++ (stop ∷ after)),
    )
