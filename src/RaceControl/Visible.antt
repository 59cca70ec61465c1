-- ===== src/RaceControl/Visible.antt =====
-- About the messages that are shown (server/timing/screen_messages.py): which ids are in the collection of
-- the provider.
use balchug_racing.Base.{
  ◌≡◌, refl, ◌∙◌, inl, inr, String, Bool, true, false, not, ◌&&◌, ◌||◌, Option, none, some, List,
  [], ◌∷◌, arith, Bool-cases, any, str_eq,
}
use balchug_racing.RaceControl.Messages.{
  ScreenMessagePatch, ScreenMessageUpdate, Operation, snapshot, reset, invalid, Content,
}
use balchug_racing.RaceControl.Project.{ids_of}
use balchug_racing.RaceControl.Rows.{Memory, upsert_at, hide, hide_all, str_eq_sym}
use balchug_racing.RaceControl.Collection.{upsert_all, hide_one, hide_absent, step_of, step}

-- the messages that are shown
abbrev pub is_visible : Memory → String → Bool
is_visible mem k = shown (mem k)
  where
    shown : Option (Bool × Content) → Bool
    shown none = false
    shown (some (now, c)) = now

-- The collection of the provider, by the ids that it has: a complete snapshot replaces it by what it lists,
-- an incomplete one and a change add to it, `m_d` takes one message out, and `m_a` clears it.
abbrev pub listed : List ScreenMessagePatch → String → Bool
listed ps k = any (str_eq k) (ids_of ps)

abbrev pub after_snapshot : Bool → List ScreenMessagePatch → (String → Bool) → String → Bool
after_snapshot true ps ids k = listed ps k
after_snapshot false ps ids k = listed ps k || ids k

abbrev pub without : Option String → (String → Bool) → String → Bool
without none ids k = ids k
without (some id) ids k = not (str_eq k id) && ids k

abbrev pub collection_after : Operation → ScreenMessageUpdate → (String → Bool) → String → Bool
collection_after snapshot u ids k = after_snapshot u.snapshot_complete u.patches ids k
collection_after Operation.upsert u ids k = listed u.patches k || ids k
collection_after Operation.delete u ids k = without u.provider_message_id ids k
collection_after reset u ids k = false
collection_after Operation.unknown u ids k = ids k
collection_after invalid u ids k = ids k

upsert_at-is_visible :
    (p : ScreenMessagePatch) (mem : Memory) (k : String)
    → is_visible (upsert_at p mem) k ≡ (str_eq k p.provider_message_id || is_visible mem k)
upsert_at-is_visible p mem k = elim (Bool-cases (str_eq p.provider_message_id k)) [
  | inl same ↦ rw (same, str_eq_sym k p.provider_message_id, same) refl
  | inr apart ↦ rw (apart, str_eq_sym k p.provider_message_id, apart) refl
]

upsert_all-is_visible :
    (ps : List ScreenMessagePatch) (mem : Memory) (k : String)
    → is_visible (upsert_all ps mem) k ≡ (listed ps k || is_visible mem k)
upsert_all-is_visible [] mem k = refl
upsert_all-is_visible (p ∷ ps) mem k =
    ground (arith, upsert_all-is_visible ps (upsert_at p mem) k, upsert_at-is_visible p mem k)

hide-is_visible :
    (chosen : String → Bool) (mem : Memory) (k : String)
    → is_visible (hide_all chosen mem) k ≡ (not (chosen k) && is_visible mem k)
hide-is_visible chosen mem k = elim (Bool-cases (chosen k)) [
  | inr kept ↦ rw kept refl
  | inl gone ↦ rw gone (by_stored (mem k))
]
  where
    by_stored : (o : Option (Bool × Content)) → is_visible (λ _. hide o) k ≡ false
    by_stored none = refl
    by_stored (some (now, c)) = refl

snapshot-is_visible :
    (complete : Bool) (ps : List ScreenMessagePatch) (mem : Memory) (k : String)
    → is_visible (hide_absent complete ps (upsert_all ps mem)) k
      ≡ after_snapshot complete ps (is_visible mem) k
snapshot-is_visible false ps mem k = upsert_all-is_visible ps mem k
snapshot-is_visible true ps mem k =
    hide-is_visible (λ j. not (listed ps j)) (upsert_all ps mem) k
    ∙ ground (arith, upsert_all-is_visible ps mem k)

delete-is_visible :
    (id : Option String) (mem : Memory) (k : String)
    → is_visible (hide_one id mem) k ≡ without id (is_visible mem) k
delete-is_visible none mem k = refl
delete-is_visible (some id) mem k = hide-is_visible (λ j. str_eq j id) mem k

step_of-is_visible :
    (op : Operation) (u : ScreenMessageUpdate) (mem : Memory) (k : String)
    → is_visible (step_of op u mem) k ≡ collection_after op u (is_visible mem) k
step_of-is_visible snapshot u mem k = snapshot-is_visible u.snapshot_complete u.patches mem k
step_of-is_visible Operation.upsert u mem k = upsert_all-is_visible u.patches mem k
step_of-is_visible Operation.delete u mem k = delete-is_visible u.provider_message_id mem k
step_of-is_visible reset u mem k = hide-is_visible (λ _. true) mem k
step_of-is_visible Operation.unknown u mem k = refl
step_of-is_visible invalid u mem k = refl

pub step-is_visible :
    (u : ScreenMessageUpdate) (mem : Memory) (k : String)
    → is_visible (step u mem) k ≡ collection_after u.operation u (is_visible mem) k
step-is_visible u mem k = step_of-is_visible u.operation u mem k
