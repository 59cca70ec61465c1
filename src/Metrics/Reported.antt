-- ===== src/Metrics/Reported.antt =====
-- About the stops that `completed_pit_stops` of server/timing/metrics.py keeps: each of them was reported.
use mathlib.Core.List.{append_assoc}
use balchug_racing.Base.{
  ℕ, zero, suc, ◌≤◌, ◌≡◌, refl, sym, ◌∙◌, inl, inr, Bool, true, false, ◌&&◌, Option, none, some,
  List, [], ◌∷◌, ◌++◌, leb, arith, Bool-cases, All, length, length-append,
}
use balchug_racing.Base.Int.{ℤ, pos, negsuc}
use balchug_racing.Metrics.Gap.{natural, is_bool}
use balchug_racing.Metrics.Pits.{
  PitStop, Entry, key_of, same_key, is_newer, select, select_if, entry_of, selected_entries,
  sorts_before, insert_entry, sort_entries, completed_entries,
}

-- the report with this number
abbrev pub report_at : ℕ → List PitStop → Option PitStop
report_at i [] = none
report_at zero (stop ∷ stops) = some stop
report_at (suc i) (stop ∷ stops) = report_at i stops

-- a report of a completed stop, with its two times, of which the exit is not before the entry
abbrev pub IsReported : List PitStop → Entry → Type 0
IsReported stops e =
    (report_at e.index stops ≡ some e.stop)
    × (e.stop.completed ≡ some true)
    × (e.stop.entered_at_us ≡ some (pos e.entered))
    × (e.stop.exited_at_us ≡ some (pos e.exited))
    × (e.entered ≤ e.exited)

natural-pos : (o : Option ℤ) (n : ℕ) → natural o ≡ some n → o ≡ some (pos n)
natural-pos none n h = absurd (ground arith)
natural-pos (some (pos m)) n h = ground (arith, h)
natural-pos (some (negsuc m)) n h = absurd (ground arith)

is_bool-true : (o : Option Bool) → is_bool true o ≡ true → o ≡ some true
is_bool-true none h = absurd (ground arith)
is_bool-true (some true) h = refl
is_bool-true (some false) h = absurd (ground arith)

report_at-length :
    (before after : List PitStop) (stop : PitStop)
    → report_at (length before) (before ++ (stop ∷ after)) ≡ some stop
report_at-length [] after stop = refl
report_at-length (b ∷ before) after stop = report_at-length before after stop

-- what an entry of a stop holds
entry_of-some :
    (index : ℕ) (stop : PitStop) (a b : Option ℕ) (e : Entry)
    → natural stop.entered_at_us ≡ a
    → natural stop.exited_at_us ≡ b
    → entry_of index stop a b ≡ some e
    → (e.index ≡ index)
      × (e.stop ≡ stop)
      × (stop.completed ≡ some true)
      × (stop.entered_at_us ≡ some (pos e.entered))
      × (stop.exited_at_us ≡ some (pos e.exited))
      × (e.entered ≤ e.exited)
unfolding entry_of
entry_of-some index stop none b e ha hb h = absurd (ground arith)
entry_of-some index stop (some n) none e ha hb h = absurd (ground arith)
entry_of-some index stop (some n) (some m) e ha hb h =
    elim (Bool-cases (is_bool true stop.completed && leb n m)) [
      | inr refused ↦ absurd (ground (arith, rw refused at h))
      | inl fine ↦
          let same : record { entered = n; exited = m; index = index; stop = stop } ≡ e =
            ground (arith, rw fine at h) in
          rw (← same) (
            refl,
            refl,
            is_bool-true stop.completed (ground (arith, fine)),
            natural-pos stop.entered_at_us n ha,
            natural-pos stop.exited_at_us m hb,
            ground (arith, fine),
          )
    ]

module _ (P : Entry → Type 0) where
  select-All : (e : Entry) (es : List Entry) → P e → All P es → All P (select e es)
  unfolding select
  select-All e [] h hs = (h, tt)
  select-All e (x ∷ xs) h hs = elim (Bool-cases (same_key (key_of x) (key_of e))) [
    | inr apart ↦ rw apart (hs.0, select-All e xs h hs.1)
    | inl same ↦ elim (Bool-cases (is_newer e x)) [
      | inl newer ↦ rw (same, newer) (h, hs.1)
      | inr older ↦ rw (same, older) hs
    ]
  ]

  insert_entry-All : (e : Entry) (es : List Entry) → P e → All P es → All P (insert_entry e es)
  unfolding insert_entry
  insert_entry-All e [] h hs = (h, tt)
  insert_entry-All e (x ∷ xs) h hs = elim (Bool-cases (sorts_before e x)) [
    | inl first ↦ rw first (h, hs)
    | inr later ↦ rw later (hs.0, insert_entry-All e xs h hs.1)
  ]

  sort_entries-All : (es : List Entry) → All P es → All P (sort_entries es)
  unfolding sort_entries
  sort_entries-All [] h = tt
  sort_entries-All (e ∷ es) h = insert_entry-All e (sort_entries es) h.0 (sort_entries-All es h.1)

select_if-All :
    (P : Entry → Type 0) (found : Option Entry) (es : List Entry)
    → ((e : Entry) → found ≡ some e → P e)
    → All P es
    → All P (select_if found es)
select_if-All P none es h hs = hs
select_if-All P (some e) es h hs = select-All P e es (h e refl) hs

selected_entries-IsReported :
    (stops before after : List PitStop) (index : ℕ) (selected : List Entry)
    → stops ≡ before ++ after
    → index ≡ length before
    → All (IsReported stops) selected
    → All (IsReported stops) (selected_entries index after selected)
unfolding selected_entries
selected_entries-IsReported stops before [] index selected e l h = h
selected_entries-IsReported stops before (stop ∷ after) index selected e l h =
    let found = entry_of index stop (natural stop.entered_at_us) (natural stop.exited_at_us) in
    let place : report_at index stops ≡ some stop =
      rw (e, l) (report_at-length before after stop) in
    let each : (x : Entry) → found ≡ some x → IsReported stops x = λ x hx.
      let (at, kept, over, entered, exited, order) =
        entry_of-some index stop (natural stop.entered_at_us) (natural stop.exited_at_us) x refl
          refl hx in
      rw (at, kept) (place, over, entered, exited, order) in
    selected_entries-IsReported stops (before ++ (stop ∷ [])) after (suc index)
      (select_if found selected) (e ∙ sym (append_assoc before (stop ∷ []) after))
      (omega (arith, length-append before (stop ∷ []), l))
      (select_if-All (IsReported stops) found selected each h)

-- Every stop that is kept is one of the stops that were reported, under the number that is kept with it: it
-- was reported as completed, with the two times that are kept with it, and its exit is not before its entry.
pub completed_entries-IsReported :
    (stops : List PitStop) → All (IsReported stops) (completed_entries stops)
unfolding completed_entries
completed_entries-IsReported stops =
    sort_entries-All (IsReported stops) (selected_entries 0 stops [])
      (selected_entries-IsReported stops [] stops 0 [] refl refl tt)
