-- ===== src/RaceControl/Shape.antt =====
-- About the updates that server/timing/screen_messages.py makes: the order of their patches.
use balchug_racing.Base.{
  ℕ, suc, ◌<◌, ◌≡◌, refl, sym, ap, inl, inr, String, Option, none, some, List, [], ◌∷◌, arith,
  Bool-cases, length, str_eq,
}
use balchug_racing.Wire.Json.{
  Json, null, boolean, float, get, integer, string, array, object, to_list,
}
use balchug_racing.RaceControl.Messages.{
  ScreenMessagePatch, Operation, snapshot, reset, invalid, message_payload,
  parse_screen_message_update, parse_screen_message_payload, parse_items, parse_patch,
  patch_with_id, patch_of, add_patch, parse_snapshot, reverse_onto, upsert_of, delete_of,
  provider_message_id,
}
use mathlib.Core.Path.{subst}
use balchug_racing.RaceControl.Collection.{Falls}

Falls-add_patch :
    (n m : ℕ) (p : Option ScreenMessagePatch) (ps : List ScreenMessagePatch)
    → n < m
    → ((q : ScreenMessagePatch) → p ≡ some q → q.source_ordinal ≡ n)
    → Falls n ps
    → Falls m (add_patch p ps)
Falls-add_patch n m none [] less at falls = tt
Falls-add_patch n m none (p ∷ ps) less at falls = (omega (arith, less, falls.0), falls.1)
Falls-add_patch n m (some p) ps less at falls =
    let here = at p refl in (omega (arith, here, less), subst (λ k. Falls k ps) (sym here) falls)

patch_of-ordinal :
    (dumps : Json → Option String) (j : Json) (n a : ℕ) (q : ScreenMessagePatch)
    → (parse_patch dumps j n a).0 ≡ some q
    → q.source_ordinal ≡ n
unfolding parse_patch patch_with_id patch_of
patch_of-ordinal dumps (object fs) n a q e = by_id (provider_message_id (get "Id" fs)) e
  where
    by_id : (id : Option String) → (patch_with_id dumps fs id n a).0 ≡ some q → q.source_ordinal ≡ n
    by_id none h = absurd (ground arith)
    by_id (some k) h =
        let same : (patch_of dumps fs k n a).0 ≡ q = ground (arith, h) in
        sym (ap (λ x. x.source_ordinal) same)
patch_of-ordinal dumps null n a q e = absurd (ground arith)
patch_of-ordinal dumps (boolean b) n a q e = absurd (ground arith)
patch_of-ordinal dumps (integer b) n a q e = absurd (ground arith)
patch_of-ordinal dumps (float b) n a q e = absurd (ground arith)
patch_of-ordinal dumps (string b) n a q e = absurd (ground arith)
patch_of-ordinal dumps (array b) n a q e = absurd (ground arith)

parse_items-Falls :
    (dumps : Json → Option String) (a : ℕ) (js : List Json)
    → Falls (length js) (parse_items dumps a js).0
unfolding parse_items
parse_items-Falls dumps a [] = tt
parse_items-Falls dumps a (j ∷ js) =
    Falls-add_patch (length js) (length (j ∷ js)) (parse_patch dumps j (length js) a).0
      (parse_items dumps (suc a) js).0 (omega arith)
      (λ q e. patch_of-ordinal dumps j (length js) a q e) (parse_items-Falls dumps (suc a) js)

-- what the parser makes sure of
abbrev pub Parsed : Operation → List ScreenMessagePatch → Type 0
Parsed snapshot ps = (n : ℕ) × Falls n ps
Parsed Operation.upsert ps = (p : ScreenMessagePatch) × (ps ≡ p ∷ [])
Parsed Operation.delete ps = Unit
Parsed reset ps = Unit
Parsed Operation.unknown ps = Unit
Parsed invalid ps = Unit

parse_snapshot-Parsed :
    (dumps : Json → Option String) (handle : String) (j : Json)
    → Parsed (parse_snapshot dumps handle j).operation (parse_snapshot dumps handle j).patches
unfolding parse_snapshot
parse_snapshot-Parsed dumps handle null = (0, tt)
parse_snapshot-Parsed dumps handle (array items) = (
  length (reverse_onto (to_list items) []),
  parse_items-Falls dumps 0 (reverse_onto (to_list items) []),
)
parse_snapshot-Parsed dumps handle (boolean b) = tt
parse_snapshot-Parsed dumps handle (integer b) = tt
parse_snapshot-Parsed dumps handle (float b) = tt
parse_snapshot-Parsed dumps handle (string b) = tt
parse_snapshot-Parsed dumps handle (object b) = tt

upsert_of-Parsed :
    (handle : String) (r : Option ScreenMessagePatch × List String)
    → Parsed (upsert_of handle r).operation (upsert_of handle r).patches
upsert_of-Parsed handle (none, errors) = tt
upsert_of-Parsed handle (some p, errors) = (p, refl)

delete_of-Parsed :
    (handle : String) (id : Option String)
    → Parsed (delete_of handle id).operation (delete_of handle id).patches
delete_of-Parsed handle none = tt
delete_of-Parsed handle (some id) = tt

pub parse-Parsed :
    (dumps : Json → Option String) (handle : String) (args : List Json)
    → Parsed
        (parse_screen_message_update dumps handle args).operation
        (parse_screen_message_update dumps handle args).patches
unfolding parse_screen_message_update parse_screen_message_payload
parse-Parsed dumps handle args = elim (Bool-cases (str_eq handle "m_i")) [
  | inl i ↦ rw i (parse_snapshot-Parsed dumps handle (message_payload args))
  | inr not_i ↦ elim (Bool-cases (str_eq handle "m_a")) [
    | inl a ↦ rw (not_i, a) tt
    | inr not_a ↦ elim (Bool-cases (str_eq handle "m_c")) [
      | inl c ↦
          rw (not_i, not_a, c)
            (upsert_of-Parsed handle (parse_patch dumps (message_payload args) 0 0))
      | inr not_c ↦ elim (Bool-cases (str_eq handle "m_d")) [
        | inl d ↦
            rw (not_i, not_a, not_c, d)
              (delete_of-Parsed handle (provider_message_id (some (message_payload args))))
        | inr not_d ↦ rw (not_i, not_a, not_c, not_d) tt
      ]
    ]
  ]
]
