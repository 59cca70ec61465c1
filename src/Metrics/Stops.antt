-- ===== src/Metrics/Stops.antt =====
-- About the keys and the order of `completed_pit_stops` of server/timing/metrics.py.
use mathlib.Core.Path.{subst}
use balchug_racing.Base.{
  ℕ, suc, ◌≤◌, ◌≡◌, refl, ap, ◌∙◌, inl, inr, Bool, true, false, ◌||◌, Option, none, some, List, [],
  ◌∷◌, arith, ==_iff, if◌then◌else◌, Bool-cases, any,
}
use balchug_racing.Metrics.Gap.{natural}
use balchug_racing.Metrics.Pits.{
  PitStop, Entry, Key, by_number, by_times, key_of, same_key, is_newer, select, select_if, entry_of,
  selected_entries, sorts_before, insert_entry, sort_entries, completed_entries,
}

-- in the order of the exits
abbrev pub Ascending : List Entry → Type 0
Ascending [] = Unit
Ascending (a ∷ []) = Unit
Ascending (a ∷ b ∷ es) = (a.exited ≤ b.exited) × Ascending (b ∷ es)

-- no two stops have the same key of the code
abbrev pub IsDistinct : List Entry → Type 0
IsDistinct [] = Unit
IsDistinct (e ∷ es) = (any (λ x. same_key (key_of x) (key_of e)) es ≡ false) × IsDistinct es

pub same_key-eq : (a b : Key) → same_key a b ≡ true → a ≡ b
same_key-eq (by_number m) (by_number n) h = ap by_number ((==_iff m n).0 h)
same_key-eq (by_number m) (by_times c d) h = absurd (ground arith)
same_key-eq (by_times a b) (by_number n) h = absurd (ground arith)
same_key-eq (by_times a b) (by_times c d) h =
    let l : a ≡ c = (==_iff a c).0 (ground arith) in
    let r : b ≡ d = (==_iff b d).0 (ground arith) in rw (l, r) refl

sorts_before-exited : (a b : Entry) → sorts_before a b ≡ true → a.exited ≤ b.exited
sorts_before-exited a b h = ground arith

not_before-exited : (a b : Entry) → sorts_before a b ≡ false → b.exited ≤ a.exited
not_before-exited a b h = ground arith

-- a stop goes in behind another one
behind :
    (a e b : Entry) (es : List Entry) (first : Bool)
    → a.exited ≤ e.exited
    → a.exited ≤ b.exited
    → Ascending (if first then e ∷ b ∷ es else b ∷ insert_entry e es)
    → Ascending (a ∷ (if first then e ∷ b ∷ es else b ∷ insert_entry e es))
behind a e b es true ae ab h = (ae, h)
behind a e b es false ae ab h = (ab, h)

insert_entry-Ascending :
    (e : Entry) (es : List Entry) → Ascending es → Ascending (insert_entry e es)
unfolding insert_entry
insert_entry-Ascending e [] h = tt
insert_entry-Ascending e (a ∷ []) h = elim (Bool-cases (sorts_before e a)) [
  | inl first ↦ rw first (sorts_before-exited e a first, tt)
  | inr later ↦ rw later (not_before-exited e a later, tt)
]
insert_entry-Ascending e (a ∷ b ∷ es) h = elim (Bool-cases (sorts_before e a)) [
  | inl first ↦ rw first (sorts_before-exited e a first, h)
  | inr later ↦ rw later (
      behind a e b es (sorts_before e b) (not_before-exited e a later) h.0
        (insert_entry-Ascending e (b ∷ es) h.1))
]

sort_entries-Ascending : (es : List Entry) → Ascending (sort_entries es)
unfolding sort_entries
sort_entries-Ascending [] = tt
sort_entries-Ascending (e ∷ es) =
    insert_entry-Ascending e (sort_entries es) (sort_entries-Ascending es)

any-insert_entry :
    (p : Entry → Bool) (e : Entry) (es : List Entry) → any p (insert_entry e es) ≡ (p e || any p es)
unfolding insert_entry
any-insert_entry p e [] = refl
any-insert_entry p e (x ∷ xs) = ground (arith, any-insert_entry p e xs)

key_sym : (a b : Key) → same_key a b ≡ false → same_key b a ≡ false
key_sym a b h = elim (Bool-cases (same_key b a)) [
  | inr apart ↦ apart
  | inl same ↦ let e = same_key-eq b a same in absurd (ground (arith, h, rw e at same))
]

insert_entry-IsDistinct :
    (e : Entry) (es : List Entry)
    → any (λ x. same_key (key_of x) (key_of e)) es ≡ false
    → IsDistinct es
    → IsDistinct (insert_entry e es)
unfolding insert_entry
insert_entry-IsDistinct e [] free h = (refl, tt)
insert_entry-IsDistinct e (x ∷ xs) free h = elim (Bool-cases (sorts_before e x)) [
  | inl first ↦ rw first (free, h)
  | inr later ↦
      let apart : same_key (key_of x) (key_of e) ≡ false = ground (arith, free) in
      let rest : any (λ y. same_key (key_of y) (key_of e)) xs ≡ false = ground (arith, free) in
      let moved : any (λ y. same_key (key_of y) (key_of x)) (insert_entry e xs) ≡ false =
        any-insert_entry (λ y. same_key (key_of y) (key_of x)) e xs
        ∙ ground (arith, key_sym (key_of x) (key_of e) apart, h.0) in
      rw later (moved, insert_entry-IsDistinct e xs rest h.1)
]

pub any-sort_entries : (p : Entry → Bool) (es : List Entry) → any p (sort_entries es) ≡ any p es
unfolding sort_entries
any-sort_entries p [] = refl
any-sort_entries p (e ∷ es) =
    ground (arith, any-insert_entry p e (sort_entries es), any-sort_entries p es)

sort_entries-IsDistinct : (es : List Entry) → IsDistinct es → IsDistinct (sort_entries es)
unfolding sort_entries
sort_entries-IsDistinct [] h = tt
sort_entries-IsDistinct (e ∷ es) h =
    insert_entry-IsDistinct e (sort_entries es)
      (any-sort_entries (λ x. same_key (key_of x) (key_of e)) es ∙ h.0)
      (sort_entries-IsDistinct es h.1)

-- a stop with another key than `k` leaves the test for `k`
any-select :
    (k : Key) (e : Entry) (es : List Entry)
    → same_key (key_of e) k ≡ false
    → any (λ x. same_key (key_of x) k) es ≡ false
    → any (λ x. same_key (key_of x) k) (select e es) ≡ false
unfolding select
any-select k e [] apart h = ground (arith, apart)
any-select k e (x ∷ xs) apart h = ground (arith, apart, any-select k e xs apart)

select-IsDistinct : (e : Entry) (es : List Entry) → IsDistinct es → IsDistinct (select e es)
unfolding select
select-IsDistinct e [] h = (refl, tt)
select-IsDistinct e (x ∷ xs) h = elim (Bool-cases (same_key (key_of x) (key_of e))) [
  | inr apart ↦ rw apart (
    any-select (key_of x) e xs (key_sym (key_of x) (key_of e) apart) h.0,
    select-IsDistinct e xs h.1,
  )
  | inl same ↦
      let k = same_key-eq (key_of x) (key_of e) same in
      elim (Bool-cases (is_newer e x)) [
        | inl newer ↦
            rw (same, newer) (subst (λ q. any (λ y. same_key (key_of y) q) xs ≡ false) k h.0, h.1)
        | inr older ↦ rw (same, older) h
      ]
]

select_if-IsDistinct :
    (found : Option Entry) (es : List Entry) → IsDistinct es → IsDistinct (select_if found es)
select_if-IsDistinct none es h = h
select_if-IsDistinct (some e) es h = select-IsDistinct e es h

selected_entries-IsDistinct :
    (index : ℕ) (stops : List PitStop) (selected : List Entry)
    → IsDistinct selected
    → IsDistinct (selected_entries index stops selected)
unfolding selected_entries
selected_entries-IsDistinct index [] selected h = h
selected_entries-IsDistinct index (stop ∷ stops) selected h =
    selected_entries-IsDistinct (suc index) stops _ (
      select_if-IsDistinct
        (entry_of index stop (natural stop.entered_at_us) (natural stop.exited_at_us)) selected h)

pub completed_entries-Ascending : (stops : List PitStop) → Ascending (completed_entries stops)
unfolding completed_entries
completed_entries-Ascending stops = sort_entries-Ascending (selected_entries 0 stops [])

pub completed_entries-IsDistinct : (stops : List PitStop) → IsDistinct (completed_entries stops)
unfolding completed_entries
completed_entries-IsDistinct stops =
    sort_entries-IsDistinct (selected_entries 0 stops [])
      (selected_entries-IsDistinct 0 stops [] tt)
