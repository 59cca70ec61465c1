-- ===== src/Base/Dict.antt =====
-- Dicts in insertion order, with keys of a type that has an equality test, and their laws.
use Prim.Native.Nat.{ℕ}
use Prim.Native.String.{String}
use mathlib.Core.Path.{◌≡◌, refl}
use mathlib.Core.Bool.{Bool, true, false, not, ◌&&◌}
use mathlib.Core.Logic.{◌↔◌, inl, inr}
use mathlib.Core.List.{List, [], ◌∷◌}
use mathlib.Core.Option.{Option, none, some}
use native.Mathlib.Omega.{arith}
use text.Mathlib.Text.{◌==◌ as str_eq}
use text.Mathlib.TextEquality.{eq_iff as str_eq_iff}
use balchug_racing.Base.Tests.{◌==◌, ==_iff, if◌then◌else◌, Bool-cases, is_some}

pub record Eq {ℓ} (A : Type ℓ) : Type ℓ where
  pub beq : A → A → Bool
  pub beq_iff : (a b : A) → (beq a b ≡ true) ↔ (a ≡ b)

instance abbrev pub nat_eq : Eq ℕ
nat_eq = record { beq = ◌==◌; beq_iff = ==_iff }

instance abbrev pub string_eq : Eq String
string_eq = record { beq = str_eq; beq_iff = str_eq_iff }

pub beq_refl {ℓ} : {A : Type ℓ} ⦃e : Eq A⦄ (k : A) → e.beq k k ≡ true
beq_refl ⦃e⦄ k = (e.beq_iff k k).1 refl

pub beq-false {ℓ} : {A : Type ℓ} ⦃e : Eq A⦄ (j k : A) → e.beq j k ≡ false → e.beq k j ≡ false
beq-false ⦃e⦄ j k h = elim (Bool-cases (e.beq k j)) [
  | inr away ↦ away
  | inl both ↦
      let p : k ≡ j = (e.beq_iff k j).0 both in absurd (ground (arith, beq_refl j, rw p at h))
]

abbrev pub Dict {ℓ κ} : Type ℓ → Type κ → Type (ℓ ⊔ κ)
Dict K V = List (K × V)

module _ {ℓ κ} {K : Type ℓ} {V : Type κ} ⦃e : Eq K⦄ where
  -- `d.get(k)`
  abbrev pub lookup : K → Dict K V → Option V
  lookup k [] = none
  lookup k ((j, v) ∷ d) = if e.beq k j then some v else lookup k d

  -- `d[k] = v`
  abbrev pub insert : K → V → Dict K V → Dict K V
  insert k v [] = (k, v) ∷ []
  insert k v ((j, w) ∷ d) =
      let rest = insert k v d in if e.beq k j then (j, v) ∷ d else (j, w) ∷ rest

  -- `d.pop(k, None)`
  abbrev pub erase : K → Dict K V → Dict K V
  erase k [] = []
  erase k ((j, w) ∷ d) = let rest = erase k d in if e.beq k j then d else (j, w) ∷ rest

  -- every key once
  abbrev pub is_dict : Dict K V → Bool
  is_dict [] = true
  is_dict ((k, v) ∷ d) = not (is_some (lookup k d)) && is_dict d

  pub lookup-insert :
      (j k : K) (v : V) (d : Dict K V)
      → lookup j (insert k v d) ≡ (if e.beq j k then some v else lookup j d)
  lookup-insert j k v [] = refl
  lookup-insert j k v ((i, w) ∷ d) = elim (Bool-cases (e.beq k i)) [
    | inl hit ↦ let p : k ≡ i = (e.beq_iff k i).0 hit in rw (hit, ← p) (ground arith)
    | inr miss ↦ rw miss (elim (Bool-cases (e.beq j i)) [
      | inr other ↦ rw other (lookup-insert j k v d)
      | inl here ↦ rw here (elim (Bool-cases (e.beq j k)) [
        | inr away ↦ rw away refl
        | inl both ↦ let p : j ≡ k = (e.beq_iff j k).0 both in absurd (ground (arith, rw p at here))
      ])
    ])
  ]

  pub insert-is_dict :
      (k : K) (v : V) (d : Dict K V) → is_dict d ≡ true → is_dict (insert k v d) ≡ true
  insert-is_dict k v [] h = refl
  insert-is_dict k v ((i, w) ∷ d) h = elim (Bool-cases (e.beq k i)) [
    | inl hit ↦ rw hit h
    | inr miss ↦ rw miss (elim (Bool-cases (e.beq i k)) [
      | inl both ↦
          let p : i ≡ k = (e.beq_iff i k).0 both in
          absurd (ground (arith, beq_refl k, rw p at miss))
      | inr away ↦
          let same_i : lookup i (insert k v d) ≡ lookup i d = rw away at (lookup-insert i k v d) in
          rw same_i (ground (arith, insert-is_dict k v d))
    ])
  ]

  pub lookup-erase_other :
      (j k : K) (d : Dict K V) → e.beq j k ≡ false → lookup j (erase k d) ≡ lookup j d
  lookup-erase_other j k [] h = refl
  lookup-erase_other j k ((i, w) ∷ d) h = elim (Bool-cases (e.beq k i)) [
    | inl hit ↦ let p : k ≡ i = (e.beq_iff k i).0 hit in rw (hit, ← p, h) refl
    | inr miss ↦ rw (miss, lookup-erase_other j k d h) refl
  ]

  pub erase-is_dict : (k : K) (d : Dict K V) → is_dict d ≡ true → is_dict (erase k d) ≡ true
  erase-is_dict k [] h = refl
  erase-is_dict k ((i, w) ∷ d) h = elim (Bool-cases (e.beq k i)) [
    | inl hit ↦ rw hit (ground arith)
    | inr miss ↦
        rw (miss, lookup-erase_other i k d (beq-false k i miss)) (ground (arith, erase-is_dict k d))
  ]
