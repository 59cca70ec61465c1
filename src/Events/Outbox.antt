-- ===== src/Events/Outbox.antt =====
-- About the rows of the outbox of server/timing/stream_events.py, and calls that are replayed.
use mathlib.Core.Path.{subst₂}
use balchug_racing.Base.{
  ℕ, ◌+◌, ◌≡◌, refl, sym, inl, inr, String, true, Option, List, [], ◌∷◌, arith, Bool-cases,
  Option-cases, str_eq_iff,
}
use balchug_racing.Events.Append.{
  Candidate, Origin, Stream, Appended, returns, raises, is_valid_origin, text_of, is_stored,
  insert_event, added, append_from, append_stream_events,
}

module _ {P : Type 0} (dumps : P → Option String) (o : Origin) where
  -- an event that is stored already is ignored
  insert_event-stored :
      (e : Candidate P) (json : String) (s : Stream)
      → is_stored o e.event_key s ≡ true
      → insert_event o e json s ≡ s
  unfolding insert_event
  insert_event-stored e json s h = rw h refl

  -- an inserted event is stored, and what was stored stays
  insert_event-stores :
      (e : Candidate P) (json : String) (s : Stream)
      → is_stored o e.event_key (insert_event o e json s) ≡ true
  unfolding insert_event
  insert_event-stores e json s = elim (Bool-cases (is_stored o e.event_key s)) [
    | inl old ↦ rw old old
    | inr new ↦ rw new (
        ground (
          arith,
          (str_eq_iff o.analysis_session_id o.analysis_session_id).1 refl,
          (str_eq_iff e.event_key e.event_key).1 refl,
        ))
  ]

  insert_event-keeps :
      (e : Candidate P) (json key : String) (s : Stream)
      → is_stored o key s ≡ true
      → is_stored o key (insert_event o e json s) ≡ true
  unfolding insert_event
  insert_event-keeps e json key s h = elim (Bool-cases (is_stored o e.event_key s)) [
    | inl old ↦ rw old h
    | inr new ↦ rw new (ground (arith, h))
  ]

  append_from-keeps :
      (key : String) (seen : List String) (written : ℕ) (es : List (Candidate P)) (s s' : Stream)
      (n : ℕ)
      → append_from dumps o seen written es s ≡ returns n s'
      → is_stored o key s ≡ true
      → is_stored o key s' ≡ true
  unfolding append_from
  append_from-keeps key seen written [] s s' n e h =
      let same : s ≡ s' = ground (arith, e) in rw (← same) h
  append_from-keeps key seen written (c ∷ es) s s' n e h =
      elim (Option-cases (text_of dumps seen c)) [
        | inl refused ↦ absurd (ground (arith, rw (refused, append_from) at e))
        | inr (json, fine) ↦
            append_from-keeps key (c.event_key ∷ seen) (written + added o c.event_key s) es
              (insert_event o c json s) s' n (rw (fine, append_from) at e)
              (insert_event-keeps c json key s h)
      ]

  -- A call that returned, made again on the stream it left.
  append_from-again :
      (seen : List String) (written again : ℕ) (es : List (Candidate P)) (s s' : Stream) (n : ℕ)
      → append_from dumps o seen written es s ≡ returns n s'
      → append_from dumps o seen again es s' ≡ returns again s'
  unfolding append_from
  append_from-again seen written again [] s s' n e = refl
  append_from-again seen written again (c ∷ es) s s' n e =
      elim (Option-cases (text_of dumps seen c)) [
        | inl refused ↦ absurd (ground (arith, rw (refused, append_from) at e))
        | inr (json, fine) ↦
            let rest = rw (fine, append_from) at e in
            let stored =
              append_from-keeps c.event_key (c.event_key ∷ seen) (written + added o c.event_key s)
                es (insert_event o c json s) s' n rest (insert_event-stores c json s) in
            rw (fine, append_from)
              (subst₂ (λ k x. append_from dumps o (c.event_key ∷ seen) k es x ≡ returns again s')
                (ground (arith, stored)) (sym (insert_event-stored c json s' stored))
                (append_from-again (c.event_key ∷ seen) (written + added o c.event_key s) again es
                  (insert_event o c json s) s' n rest))
      ]

-- the stream that a call leaves
abbrev pub left : Appended → Stream
left (returns n s) = s
left (raises s) = s

-- A call that succeeded can be replayed: made again on the stream that it left, whatever it wrote,
-- it succeeds, writes no row and leaves the stream as it is.
pub append_stream_events-again :
    {P : Type 0} (dumps : P → Option String) (o : Origin) (events : List (Candidate P))
    (s s' : Stream) (n : ℕ)
    → append_stream_events dumps o events s ≡ returns n s'
    → append_stream_events dumps o events s' ≡ returns 0 s'
unfolding append_stream_events
append_stream_events-again dumps o events s s' n e = elim (Bool-cases (is_valid_origin o)) [
  | inl valid ↦ rw valid (append_from-again dumps o [] 0 0 events s s' n (rw valid at e))
  | inr refused ↦ absurd (ground (arith, rw refused at e))
]
