-- ===== src/Base/Ordered.antt =====
-- The items of a dict in an order of the keys, and dicts that are built one key at a time.
use Prim.Native.Nat.{suc}
use mathlib.Core.Path.{◌≡◌, refl, ap, ◌∙◌}
use mathlib.Core.Bool.{Bool, true, false, ◌&&◌}
use mathlib.Core.List.{[], ◌∷◌, ◌++◌}
use mathlib.Core.Option.{none, some}
use mathlib.Core.Logic.{inl, inr}
use native.Mathlib.Omega.{arith}
use balchug_racing.Base.Tests.{if◌then◌else◌, Bool-cases, is_some}
use balchug_racing.Base.Lists.{length}
use balchug_racing.Base.Dict.{Eq, Dict, lookup, insert, is_dict, beq-false, beq_refl}

module _ {K V : Type 0} where
  -- a test of every item
  abbrev pub all_items : (K → V → Bool) → Dict K V → Bool
  all_items p [] = true
  all_items p ((k, v) ∷ d) = p k v && all_items p d

-- `sorted(d.items())`: the keys of a dict differ, so the values are not compared
module _ {K V : Type 0} (before : K → K → Bool) where
  abbrev pub put_in_order : K → V → Dict K V → Dict K V
  put_in_order k v [] = (k, v) ∷ []
  put_in_order k v ((j, w) ∷ d) =
      let rest = put_in_order k v d in if before k j then (k, v) ∷ (j, w) ∷ d else (j, w) ∷ rest

  unfoldable pub sorted_items : Dict K V → Dict K V
  sorted_items [] = []
  sorted_items ((k, v) ∷ d) = put_in_order k v (sorted_items d)

  module _ ⦃e : Eq K⦄ where
    lookup-put_in_order :
        (i k : K) (v : V) (d : Dict K V)
        → lookup k d ≡ none
        → lookup i (put_in_order k v d) ≡ (if e.beq i k then some v else lookup i d)
    lookup-put_in_order i k v [] h = refl
    lookup-put_in_order i k v ((j, w) ∷ d) h = elim (Bool-cases (before k j)) [
      | inl first ↦ rw first refl
      | inr later ↦ rw later (elim (Bool-cases (e.beq k j)) [
        | inl hit ↦ absurd (ground arith)
        | inr miss ↦ elim (Bool-cases (e.beq i j)) [
          | inr away ↦ rw (away, lookup-put_in_order i k v d (rw miss at h)) refl
          | inl here ↦
              let p : i ≡ j = (e.beq_iff i j).0 here in
              let apart : e.beq i k ≡ false = rw p (beq-false k j miss) in rw (here, apart) refl
        ]
      ])
    ]

    put_in_order-is_dict :
        (k : K) (v : V) (d : Dict K V)
        → lookup k d ≡ none
        → is_dict d ≡ true
        → is_dict (put_in_order k v d) ≡ true
    put_in_order-is_dict k v [] h u = refl
    put_in_order-is_dict k v ((j, w) ∷ d) h u = elim (Bool-cases (before k j)) [
      | inl first ↦ rw (first, h) u
      | inr later ↦ rw later (elim (Bool-cases (e.beq k j)) [
        | inl hit ↦ absurd (ground arith)
        | inr miss ↦
            let fresh : lookup k d ≡ none = rw miss at h in
            let kept = lookup-put_in_order j k v d fresh in
            rw (kept, beq-false k j miss) (ground (arith, put_in_order-is_dict k v d fresh))
      ])
    ]

    pub lookup-sorted_items :
        (i : K) (d : Dict K V) → is_dict d ≡ true → lookup i (sorted_items d) ≡ lookup i d
    unfolding sorted_items
    lookup-sorted_items i [] h = refl
    lookup-sorted_items i ((k, v) ∷ d) h =
        let fresh : lookup k (sorted_items d) ≡ none =
          rw (lookup-sorted_items k d (ground arith)) (ground arith) in
        rw
          (lookup-put_in_order i k v (sorted_items d) fresh, lookup-sorted_items i d (ground arith))
          refl

    pub sorted_items-is_dict : (d : Dict K V) → is_dict d ≡ true → is_dict (sorted_items d) ≡ true
    unfolding sorted_items
    sorted_items-is_dict [] h = refl
    sorted_items-is_dict ((k, v) ∷ d) h =
        put_in_order-is_dict k v (sorted_items d)
          (rw (lookup-sorted_items k d (ground arith)) (ground arith))
          (sorted_items-is_dict d (ground arith))

  length-put_in_order :
      (k : K) (v : V) (d : Dict K V) → length (put_in_order k v d) ≡ suc (length d)
  length-put_in_order k v [] = refl
  length-put_in_order k v ((j, w) ∷ d) = ground (arith, length-put_in_order k v d)

  pub length-sorted_items : (d : Dict K V) → length (sorted_items d) ≡ length d
  unfolding sorted_items
  length-sorted_items [] = refl
  length-sorted_items ((k, v) ∷ d) =
      length-put_in_order k v (sorted_items d) ∙ ap suc (length-sorted_items d)

  all_items-put_in_order :
      (p : K → V → Bool) (k : K) (v : V) (d : Dict K V)
      → p k v ≡ true
      → all_items p d ≡ true
      → all_items p (put_in_order k v d) ≡ true
  all_items-put_in_order p k v [] h a = rw h refl
  all_items-put_in_order p k v ((j, w) ∷ d) h a = ground (arith, all_items-put_in_order p k v d h)

  pub all_items-sorted_items :
      (p : K → V → Bool) (d : Dict K V) → all_items p d ≡ true → all_items p (sorted_items d) ≡ true
  unfolding sorted_items
  all_items-sorted_items p [] a = refl
  all_items-sorted_items p ((k, v) ∷ d) a =
      all_items-put_in_order p k v (sorted_items d) (ground arith)
        (all_items-sorted_items p d (ground arith))

module _ {K V : Type 0} ⦃e : Eq K⦄ where
  lookup-middle :
      (k : K) (v : V) (d rest : Dict K V) → is_some (lookup k (d ++ (k, v) ∷ rest)) ≡ true
  lookup-middle k v [] rest = rw (beq_refl k) refl
  lookup-middle k v ((j, w) ∷ d) rest = ground (arith, lookup-middle k v d rest)

  -- the keys before a key of a dict are others
  pub lookup-before :
      (k : K) (v : V) (d rest : Dict K V) → is_dict (d ++ (k, v) ∷ rest) ≡ true → lookup k d ≡ none
  lookup-before k v [] rest h = refl
  lookup-before k v ((j, w) ∷ d) rest h = elim (Bool-cases (e.beq k j)) [
    | inr miss ↦ rw miss (lookup-before k v d rest (ground arith))
    | inl hit ↦
        let p : k ≡ j = (e.beq_iff k j).0 hit in
        let q : is_some (lookup j (d ++ (k, v) ∷ rest)) ≡ true =
          rw (← p) (lookup-middle k v d rest) in
        absurd (ground arith)
  ]

  pub insert-end :
      (k : K) (v : V) (d : Dict K V) → lookup k d ≡ none → insert k v d ≡ d ++ (k, v) ∷ []
  insert-end k v [] h = refl
  insert-end k v ((j, w) ∷ d) h = elim (Bool-cases (e.beq k j)) [
    | inl hit ↦ absurd (ground arith)
    | inr miss ↦ rw (miss, insert-end k v d (rw miss at h)) refl
  ]
