-- ===== src/Metrics/Stored.antt =====
-- About the input of `completed_pit_stops` of server/timing/metrics.py and what stands for it.
use mathlib.Core.Path.{subst}
use balchug_racing.Base.{
  ℕ, suc, ◌+◌, ◌≡◌, refl, ◌∙◌, inl, inr, Bool, true, ◌&&◌, Option, none, some, List, [], ◌∷◌, arith,
  leb, ==_iff, Bool-cases, any, length, ◌++◌,
}
use balchug_racing.Metrics.Gap.{natural}
use balchug_racing.Metrics.Pits.{
  PitStop, Entry, Key, by_number, by_times, key_of, same_key, is_newer, select, select_if, entry_of,
  selected_entries, completed_entries,
}
use balchug_racing.Metrics.Stops.{any-sort_entries, same_key-eq}

-- a stop of the same key, with an exit that is not earlier
abbrev pub replaces : Entry → Entry → Bool
replaces e x = same_key (key_of x) (key_of e) && leb e.exited x.exited

same_key_self : (k : Key) → same_key k k ≡ true
same_key_self (by_number n) = (==_iff n n).1 refl
same_key_self (by_times a b) = ground (arith, (==_iff a a).1 refl, (==_iff b b).1 refl)

-- the newer of two stops of one key stands for both
replaces-newer :
    (e new old : Entry)
    → same_key (key_of old) (key_of new) ≡ true
    → is_newer new old ≡ true
    → replaces e old ≡ true
    → replaces e new ≡ true
replaces-newer e new old same newer h =
    let k = same_key-eq (key_of old) (key_of new) same in
    let late : leb e.exited new.exited ≡ true = ground (arith, newer, h) in
    let first : same_key (key_of old) (key_of e) ≡ true = ground (arith, h) in
    let key : same_key (key_of new) (key_of e) ≡ true =
      subst (λ q. same_key q (key_of e) ≡ true) k first in
    rw (key, late) refl

-- selecting keeps what stands for a stop
select-keeps :
    (e new : Entry) (es : List Entry)
    → any (replaces e) es ≡ true
    → any (replaces e) (select new es) ≡ true
unfolding select
select-keeps e new [] h = absurd (ground arith)
select-keeps e new (x ∷ xs) h = elim (Bool-cases (same_key (key_of x) (key_of new))) [
  | inr apart ↦ elim (Bool-cases (replaces e x)) [
    | inl here ↦ rw (apart, here) refl
    | inr there ↦ rw (apart, there) (select-keeps e new xs (rw there at h))
  ]
  | inl same ↦ elim (Bool-cases (is_newer new x)) [
    | inr older ↦ rw (same, older) h
    | inl newer ↦ elim (Bool-cases (replaces e x)) [
      | inl here ↦ rw (same, newer, replaces-newer e new x same newer here) refl
      | inr there ↦ rw (same, newer) (ground (arith, rw there at h))
    ]
  ]
]

-- a selected stop is stood for
select-stores : (e : Entry) (es : List Entry) → any (replaces e) (select e es) ≡ true
unfolding select
select-stores e [] = ground (arith, same_key_self (key_of e))
select-stores e (x ∷ xs) = elim (Bool-cases (same_key (key_of x) (key_of e))) [
  | inr apart ↦ rw apart (ground (arith, select-stores e xs))
  | inl same ↦ elim (Bool-cases (is_newer e x)) [
    | inl newer ↦ rw (same, newer) (ground (arith, same_key_self (key_of e)))
    | inr older ↦ rw (same, older) (ground (arith, same, older))
  ]
]

select_if-keeps :
    (e : Entry) (found : Option Entry) (es : List Entry)
    → any (replaces e) es ≡ true
    → any (replaces e) (select_if found es) ≡ true
select_if-keeps e none es h = h
select_if-keeps e (some new) es h = select-keeps e new es h

selected_entries-keeps :
    (e : Entry) (index : ℕ) (stops : List PitStop) (selected : List Entry)
    → any (replaces e) selected ≡ true
    → any (replaces e) (selected_entries index stops selected) ≡ true
unfolding selected_entries
selected_entries-keeps e index [] selected h = h
selected_entries-keeps e index (stop ∷ stops) selected h =
    selected_entries-keeps e (suc index) stops _ (
      select_if-keeps e
        (entry_of index stop (natural stop.entered_at_us) (natural stop.exited_at_us)) selected h)

selected_entries-stores :
    (index : ℕ) (before after : List PitStop) (stop : PitStop) (selected : List Entry) (e : Entry)
    → entry_of (index + length before) stop (natural stop.entered_at_us) (natural stop.exited_at_us)
      ≡ some e
    → any (replaces e) (selected_entries index (before ++ (stop ∷ after)) selected) ≡ true
unfolding selected_entries
selected_entries-stores index [] after stop selected e h =
    let here : entry_of index stop (natural stop.entered_at_us) (natural stop.exited_at_us)
        ≡ some e =
      subst (λ i. entry_of i stop (natural stop.entered_at_us) (natural stop.exited_at_us) ≡ some e)
        (omega arith) h in
    selected_entries-keeps e (suc index) after _ (rw here (select-stores e selected))
selected_entries-stores index (b ∷ before) after stop selected e h =
    selected_entries-stores (suc index) before after stop _ e (
      subst (λ i. entry_of i stop (natural stop.entered_at_us) (natural stop.exited_at_us) ≡ some e)
        (omega arith) h)

-- a stop of the input is stood for by a stop of its key
pub completed_entries-stored :
    (before after : List PitStop) (stop : PitStop) (e : Entry)
    → entry_of (length before) stop (natural stop.entered_at_us) (natural stop.exited_at_us)
      ≡ some e
    → any (replaces e) (completed_entries (before ++ (stop ∷ after))) ≡ true
unfolding completed_entries
completed_entries-stored before after stop e h =
    any-sort_entries (replaces e) (selected_entries 0 (before ++ (stop ∷ after)) [])
    ∙ selected_entries-stores 0 before after stop [] e (
        subst
          (λ i. entry_of i stop (natural stop.entered_at_us) (natural stop.exited_at_us) ≡ some e)
          (omega arith) h)
