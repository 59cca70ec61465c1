-- ===== src/RaceControl/Ledger.antt =====
-- About the observations of race control (server/timing/race_control_store.py): which statement adds
-- one, and which of them are there.
use balchug_racing.Base.{
  ℕ, ◌≡◌, refl, ap, ◌∙◌, inl, inr, String, Bool, true, false, ◌||◌, Option, none, some, List, [],
  ◌∷◌, arith, ◌==◌, ==_iff, Bool-cases, any, find, find-any,
}
use balchug_racing.RaceControl.Messages.{ScreenMessagePatch}
use balchug_racing.RaceControl.Board.{
  Action, RaceControlSource, Observation, Board, Inserted, is_observation, Message,
  insert_observation, upsert_current, upsert_unless, mark_removed, remove_shown,
  reconcile_snapshot_absences, Which, all_messages, one_message, no_message, is_message,
}
use balchug_racing.RaceControl.Project.{apply_inserted}
use balchug_racing.RaceControl.Rows.{str_eq_self, same_int_self}

-- an observation of this invocation with the number `n` is stored
abbrev pub is_present : RaceControlSource → Board → ℕ → Bool
is_present source b n =
    any (is_observation source.source_heat_id source.source_key n) b.observations

any-find :
    (source : RaceControlSource) (n : ℕ) (os : List Observation)
    → any (is_observation source.source_heat_id source.source_key n) os ≡ true
    → (o : Observation) × (find (is_observation source.source_heat_id source.source_key n) os
        ≡ some o)
any-find source n [] h = absurd (ground arith)
any-find source n (o ∷ os) h =
    elim (Bool-cases (is_observation source.source_heat_id source.source_key n o)) [
      | inl hit ↦ (o, rw hit refl)
      | inr miss ↦ let (p, e) = any-find source n os (rw miss at h) in (p, rw miss e)
    ]

find-none-any :
    (source : RaceControlSource) (n : ℕ) (os : List Observation)
    → find (is_observation source.source_heat_id source.source_key n) os ≡ none
    → any (is_observation source.source_heat_id source.source_key n) os ≡ false
find-none-any source n [] h = refl
find-none-any source n (o ∷ os) h = ground (arith, find-none-any source n os)

module _ (source : RaceControlSource) (handle : String) (action : Action) (n : ℕ) (payload : String)
    (patch : Option ScreenMessagePatch) (id : Option String) (b : Board) where
  abbrev insertion : Inserted
  insertion = insert_observation source handle action n payload patch id b

  -- an observation that is stored already is not inserted
  pub insert_observation-old :
      is_present source b n ≡ true
      → ((insert_observation source handle action n payload patch id b).inserted ≡ false)
        × ((insert_observation source handle action n payload patch id b).board ≡ b)
  unfolding insert_observation
  insert_observation-old h =
      let (o, found) = any-find source n b.observations h in (rw found refl, rw found refl)

  -- a new one is inserted, and changes no message
  pub insert_observation-new :
      is_present source b n ≡ false
      → ((insert_observation source handle action n payload patch id b).inserted ≡ true)
        × ((insert_observation source handle action n payload patch id b).board.messages
            ≡ b.messages)
        × ((i : ℕ)
            → is_present source
                (insert_observation source handle action n payload patch id b).board
                i
              ≡ (n == i || is_present source b i))
  unfolding insert_observation
  insert_observation-new h =
      let missing =
        find-any (is_observation source.source_heat_id source.source_key n) b.observations h in
      (
        rw missing refl,
        rw missing refl,
        λ i. rw (missing, same_int_self source.source_heat_id, str_eq_self source.source_key) refl,
      )

  pub insert_observation-present :
      is_present source (insert_observation source handle action n payload patch id b).board n
      ≡ true
  insert_observation-present = elim (Bool-cases (is_present source b n)) [
    | inl old ↦ ap (λ x. is_present source x n) (insert_observation-old old).1 ∙ old
    | inr new ↦
        let (_, _, grown) = insert_observation-new new in
        grown n ∙ ap (λ t. t || is_present source b n) ((==_iff n n).1 refl)
  ]

  pub insert_observation-grows :
      (i : ℕ)
      → is_present source b i ≡ true
      → is_present source (insert_observation source handle action n payload patch id b).board i
        ≡ true
  insert_observation-grows i there = elim (Bool-cases (is_present source b n)) [
    | inl old ↦ ap (λ x. is_present source x i) (insert_observation-old old).1 ∙ there
    | inr new ↦
        let (_, _, grown) = insert_observation-new new in grown i ∙ rw there (or_true (n == i))
  ]
    where
      or_true : (t : Bool) → (t || true) ≡ true
      or_true true = refl
      or_true false = refl

pub upsert_current-observations :
    (source : RaceControlSource) (action : Action) (p : ScreenMessagePatch) (id : ℕ) (b : Board)
    → (upsert_current source action p id b).observations ≡ b.observations
unfolding upsert_current
upsert_current-observations source action p id b =
    by_existing (find (is_message source.source_heat_id p.provider_message_id) b.messages)
  where
    by_existing :
        (e : Option Message) → (upsert_unless e source action p id b).observations ≡ b.observations
    by_existing none = refl
    by_existing (some m) = refl

pub remove_shown-observations :
    (source : RaceControlSource) (action : Action) (id : Option ℕ) (chosen : String → Bool)
    (b : Board)
    → (remove_shown source action id chosen b).1.observations ≡ b.observations
unfolding remove_shown
remove_shown-observations source action id chosen b = refl

pub mark_removed-observations :
    (source : RaceControlSource) (which : Which) (action : Action) (id : Option ℕ) (b : Board)
    → (mark_removed source which action id b).1.observations ≡ b.observations
unfolding mark_removed remove_shown
mark_removed-observations source all_messages action id b = refl
mark_removed-observations source (one_message k) action id b = refl
mark_removed-observations source no_message action id b = refl

pub reconcile_snapshot_absences-observations :
    (source : RaceControlSource) (ids : List String) (b : Board)
    → (reconcile_snapshot_absences source ids b).1.observations ≡ b.observations
unfolding reconcile_snapshot_absences mark_removed remove_shown
reconcile_snapshot_absences-observations source [] b = refl
reconcile_snapshot_absences-observations source (id ∷ ids) b = refl

pub apply_inserted-observations :
    (source : RaceControlSource) (action : Action) (p : ScreenMessagePatch) (i : Inserted)
    → (apply_inserted source action p i).observations ≡ i.board.observations
unfolding apply_inserted
apply_inserted-observations source action p i = elim (Bool-cases i.inserted) [
  | inl now ↦ rw now (upsert_current-observations source action p i.id i.board)
  | inr before ↦ rw before refl
]
