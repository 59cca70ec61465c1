-- ===== src/RaceControl/Rows.antt =====
-- About the rows of the race-control board (server/timing/race_control_store.py): what a message holds
-- after each statement.
use balchug_racing.Base.{
  ℕ, ◌≡◌, refl, sym, ap, ◌∙◌, inl, inr, String, Bool, true, false, Option, none, some, List, [],
  ◌∷◌, arith, ==_iff, if◌then◌else◌, Bool-cases, find, update, str_eq, str_eq_iff, find-holds,
}
use balchug_racing.Base.Int.{ℤ, pos, negsuc}
use balchug_racing.RaceControl.Messages.{Content, ScreenMessagePatch}
use balchug_racing.RaceControl.Board.{
  Action, RaceControlSource, Message, Board, same_int, is_message, no_content, merge, new_message,
  changed_message, upsert_current, upsert_unless, removed_message, is_shown, remove_shown,
}

-- What the board remembers of its messages: whether each is shown, and its content.
abbrev pub Memory : Type 0
Memory = String → Option (Bool × Content)

abbrev pub view_of : Option Message → Option (Bool × Content)
view_of none = none
view_of (some m) = some (m.is_active, m.content)

-- what the board holds of a message of a heat
abbrev pub stored : ℤ → Board → Memory
stored heat b k = view_of (find (is_message heat k) b.messages)

abbrev pub content_or_none : Option (Bool × Content) → Content
content_or_none none = no_content
content_or_none (some (shown, c)) = c

-- a message is created or changed, and shown
abbrev pub upsert_at : ScreenMessagePatch → Memory → Memory
upsert_at p mem k =
    if str_eq p.provider_message_id k then some (true, merge p (content_or_none (mem k))) else mem k

abbrev pub hide : Option (Bool × Content) → Option (Bool × Content)
hide none = none
hide (some (shown, c)) = some (false, c)

-- the chosen messages are no longer shown
abbrev pub hide_all : (String → Bool) → Memory → Memory
hide_all chosen mem k = if chosen k then hide (mem k) else mem k

pub str_eq_sym : (a b : String) → str_eq a b ≡ str_eq b a
str_eq_sym a b = elim (Bool-cases (str_eq a b)) [
  | inl same ↦ let e = (str_eq_iff a b).0 same in rw e refl
  | inr apart ↦ elim (Bool-cases (str_eq b a)) [
    | inl same ↦ let e = (str_eq_iff b a).0 same in rw e refl
    | inr other ↦ apart ∙ sym other
  ]
]

pub str_eq_self : (a : String) → str_eq a a ≡ true
str_eq_self a = (str_eq_iff a a).1 refl

pub same_int_self : (n : ℤ) → same_int n n ≡ true
same_int_self (pos n) = (==_iff n n).1 refl
same_int_self (negsuc n) = (==_iff n n).1 refl

abbrev map_found : (Message → Message) → Option Message → Option Message
map_found f none = none
map_found f (some m) = some (f m)

-- an update that keeps the tested property
find-update_map :
    (p q : Message → Bool) (f : Message → Message) (ms : List Message)
    → ((m : Message) → p (f m) ≡ p m)
    → find p (update q f ms) ≡ map_found (λ m. if q m then f m else m) (find p ms)
find-update_map p q f [] h = refl
find-update_map p q f (m ∷ ms) h = elim (Bool-cases (q m)) [
  | inl hit ↦ rw hit (ground (arith, h m, hit, find-update_map p q f ms h))
  | inr miss ↦ rw miss (ground (arith, miss, find-update_map p q f ms h))
]

is_message-id :
    (heat : ℤ) (k : String) (m : Message)
    → is_message heat k m ≡ true
    → (same_int m.source_heat_id heat ≡ true) × (m.message_id_raw ≡ k)
is_message-id heat k m h = (ground arith, (str_eq_iff m.message_id_raw k).0 (ground arith))

module _ (source : RaceControlSource) (action : Action) where
  shown_view :
      (chosen : String → Bool) (observation_id : Option ℕ) (k : String) (m : Message)
      → is_message source.source_heat_id k m ≡ true
      → view_of (
          some (
            if is_shown source.source_heat_id chosen m
            then removed_message source action observation_id m
            else m))
        ≡ (if chosen k then hide (view_of (some m)) else view_of (some m))
  unfolding removed_message
  shown_view chosen observation_id k m h =
      let (here, named) = is_message-id source.source_heat_id k m h in
      elim (Bool-cases (chosen k)) [
        | inr kept ↦
            let spared : chosen m.message_id_raw ≡ false = rw named kept in
            rw (kept, here, spared) (ground (arith, here, spared))
        | inl picked ↦
            let taken : chosen m.message_id_raw ≡ true = rw named picked in
            elim (Bool-cases m.is_active) [
              | inl active ↦ ground (arith, picked, taken, here, active)
              | inr gone ↦ ground (arith, picked, taken, here, gone)
            ]
      ]

  -- The statement that removes messages hides the chosen ones, and leaves the others.
  pub stored-remove_shown :
      (observation_id : Option ℕ) (chosen : String → Bool) (b : Board) (k : String)
      → stored source.source_heat_id (remove_shown source action observation_id chosen b).1 k
        ≡ hide_all chosen (stored source.source_heat_id b) k
  unfolding remove_shown removed_message
  stored-remove_shown observation_id chosen b k =
      ap view_of (
        find-update_map (is_message source.source_heat_id k) (is_shown source.source_heat_id chosen)
          (removed_message source action observation_id) b.messages (λ m. same_key m))
      ∙ by_found (find (is_message source.source_heat_id k) b.messages) refl
    where
      same_key :
          (m : Message)
          → is_message source.source_heat_id k (removed_message source action observation_id m)
            ≡ is_message source.source_heat_id k m
      same_key m = refl

      by_found :
          (found : Option Message)
          → find (is_message source.source_heat_id k) b.messages ≡ found
          → view_of (
              map_found
                (λ m.
                  if is_shown source.source_heat_id chosen m
                  then removed_message source action observation_id m
                  else m)
                found)
            ≡ (if chosen k then hide (view_of found) else view_of found)
      by_found none e = ground arith
      by_found (some m) e =
          shown_view chosen observation_id k m
            (find-holds (is_message source.source_heat_id k) b.messages e)

  changed_view :
      (p : ScreenMessagePatch) (observation_id : ℕ) (k : String) (m : Message)
      → is_message source.source_heat_id k m ≡ true
      → view_of (
          some (
            if is_message source.source_heat_id p.provider_message_id m
            then changed_message source action p observation_id m
            else m))
        ≡ (if str_eq p.provider_message_id k
            then some (true, merge p m.content)
            else view_of (some m))
  unfolding changed_message
  changed_view p observation_id k m h =
      let (here, named) = is_message-id source.source_heat_id k m h in
      let same : str_eq m.message_id_raw p.provider_message_id ≡ str_eq p.provider_message_id k =
        rw named (str_eq_sym k p.provider_message_id) in
      rw (here, same) (by_test (str_eq p.provider_message_id k))
    where
      by_test :
          (t : Bool)
          → view_of (some (if t then changed_message source action p observation_id m else m))
            ≡ (if t then some (true, merge p m.content) else view_of (some m))
      by_test true = refl
      by_test false = refl

  -- The statement that creates or changes a message does so, and leaves the others.
  pub stored-upsert_current :
      (p : ScreenMessagePatch) (observation_id : ℕ) (b : Board) (k : String)
      → stored source.source_heat_id (upsert_current source action p observation_id b) k
        ≡ upsert_at p (stored source.source_heat_id b) k
  unfolding upsert_current new_message changed_message
  stored-upsert_current p observation_id b k =
      by_existing (find (is_message source.source_heat_id p.provider_message_id) b.messages) refl
    where
      same_key :
          (m : Message)
          → is_message source.source_heat_id k (changed_message source action p observation_id m)
            ≡ is_message source.source_heat_id k m
      same_key m = refl

      by_found :
          (found : Option Message) (old : Message)
          → find (is_message source.source_heat_id k) b.messages ≡ found
          → find (is_message source.source_heat_id p.provider_message_id) b.messages ≡ some old
          → view_of (
              map_found
                (λ m.
                  if is_message source.source_heat_id p.provider_message_id m
                  then changed_message source action p observation_id m
                  else m)
                found)
            ≡ (if str_eq p.provider_message_id k
                then some (true, merge p (content_or_none (view_of found)))
                else view_of found)
      by_found none old e there = elim (Bool-cases (str_eq p.provider_message_id k)) [
        | inr apart ↦ rw apart refl
        | inl same ↦
            let named = (str_eq_iff p.provider_message_id k).0 same in
            absurd (ground (arith, rw named at there, e))
      ]
      by_found (some m) old e there =
          changed_view p observation_id k m
            (find-holds (is_message source.source_heat_id k) b.messages e)

      new_view :
          find (is_message source.source_heat_id p.provider_message_id) b.messages ≡ none
          → view_of (
              find
                (is_message source.source_heat_id k)
                (new_message source action p observation_id ∷ b.messages))
            ≡ upsert_at p (stored source.source_heat_id b) k
      new_view missing = elim (Bool-cases (str_eq p.provider_message_id k)) [
        | inr apart ↦ ground (arith, apart)
        | inl same ↦
            let named = (str_eq_iff p.provider_message_id k).0 same in
            let gone : find (is_message source.source_heat_id k) b.messages ≡ none =
              rw named at missing in
            rw (same_int_self source.source_heat_id, same, gone) refl
      ]

      by_existing :
          (existing : Option Message)
          → find (is_message source.source_heat_id p.provider_message_id) b.messages ≡ existing
          → stored source.source_heat_id (upsert_unless existing source action p observation_id b) k
            ≡ upsert_at p (stored source.source_heat_id b) k
      by_existing none missing = new_view missing
      by_existing (some old) there =
          ap view_of (
            find-update_map (is_message source.source_heat_id k)
              (is_message source.source_heat_id p.provider_message_id)
              (changed_message source action p observation_id) b.messages (λ m. same_key m))
          ∙ by_found (find (is_message source.source_heat_id k) b.messages) old refl there
