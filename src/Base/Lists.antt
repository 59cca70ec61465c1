-- ===== src/Base/Lists.antt =====
-- Lists as tables: the first row that passes a test, an update of the rows that pass it, counts.
use Prim.Native.Nat.{ℕ, suc, ◌+◌, ◌≤◌}
use mathlib.Core.Path.{◌≡◌, refl}
use mathlib.Core.Bool.{Bool, true, false, ◌&&◌, ◌||◌}
use mathlib.Core.Logic.{inl, inr}
use mathlib.Core.List.{List, [], ◌∷◌, ◌++◌}
use mathlib.Core.Option.{Option, none, some}
use native.Mathlib.Omega.{arith}
use balchug_racing.Base.Tests.{if◌then◌else◌, Bool-cases}

module _ {ℓ} {A : Type ℓ} where
  abbrev pub length : List A → ℕ
  length [] = 0
  length (x ∷ xs) = suc (length xs)

  abbrev pub any : (A → Bool) → List A → Bool
  any p [] = false
  any p (x ∷ xs) = p x || any p xs

  abbrev pub all : (A → Bool) → List A → Bool
  all p [] = true
  all p (x ∷ xs) = p x && all p xs

  -- `SELECT ... WHERE p LIMIT 1`, in the order of the rows
  abbrev pub find : (A → Bool) → List A → Option A
  find p [] = none
  find p (x ∷ xs) = if p x then some x else find p xs

  abbrev pub filter : (A → Bool) → List A → List A
  filter p [] = []
  filter p (x ∷ xs) = if p x then x ∷ filter p xs else filter p xs

  -- `UPDATE ... SET f WHERE p`
  abbrev pub update : (A → Bool) → (A → A) → List A → List A
  update p f [] = []
  update p f (x ∷ xs) = (if p x then f x else x) ∷ update p f xs

  -- `SELECT COUNT(*) ... WHERE p`
  abbrev pub count : (A → Bool) → List A → ℕ
  count p [] = 0
  count p (x ∷ xs) = (if p x then 1 else 0) + count p xs

  -- a predicate on every row
  abbrev pub All {κ} : (A → Type κ) → List A → Type κ
  All P [] = Unit
  All P (x ∷ xs) = P x × All P xs

  pub length-append : (xs ys : List A) → length (xs ++ ys) ≡ length xs + length ys
  length-append [] ys = omega arith
  length-append (x ∷ xs) ys = omega (arith, length-append xs ys)

  pub count-append : (p : A → Bool) (xs ys : List A) → count p (xs ++ ys) ≡ count p xs + count p ys
  count-append p [] ys = omega arith
  count-append p (x ∷ xs) ys = omega (arith, count-append p xs ys)

  pub find-none : (p : A → Bool) (xs : List A) → find p xs ≡ none → count p xs ≡ 0
  find-none p [] h = refl
  find-none p (x ∷ xs) h = ground (arith, find-none p xs)

  pub none-find : (p : A → Bool) (xs : List A) → count p xs ≡ 0 → find p xs ≡ none
  none-find p [] h = refl
  none-find p (x ∷ xs) h = ground (arith, none-find p xs)

  pub find-holds : (p : A → Bool) (xs : List A) {x : A} → find p xs ≡ some x → p x ≡ true
  find-holds p [] h = ground arith
  find-holds p (y ∷ xs) {x} h = ground (arith, find-holds p xs {x = x})

  pub find-append :
      (p : A → Bool) (xs ys : List A) {x : A} → find p xs ≡ some x → find p (xs ++ ys) ≡ some x
  find-append p [] ys h = ground arith
  find-append p (y ∷ xs) ys {x} h = ground (arith, find-append p xs ys {x = x})

  pub find-append_none :
      (p : A → Bool) (xs ys : List A) → find p xs ≡ none → find p (xs ++ ys) ≡ find p ys
  find-append_none p [] ys h = refl
  find-append_none p (y ∷ xs) ys h = ground (arith, find-append_none p xs ys)

  -- an update that keeps the tested property keeps what is found, changed
  pub find-update :
      (p : A → Bool) (f : A → A) (xs : List A) {x : A}
      → ((y : A) → p y ≡ true → p (f y) ≡ true)
      → find p xs ≡ some x
      → find p (update p f xs) ≡ some (f x)
  find-update p f [] k h = ground arith
  find-update p f (y ∷ xs) {x} k h = ground (arith, k y, find-update p f xs {x = x} k)

  pub All-append {κ} : (P : A → Type κ) (xs ys : List A) → All P xs → All P ys → All P (xs ++ ys)
  All-append P [] ys hx hy = hy
  All-append P (x ∷ xs) ys hx hy = (hx.0, All-append P xs ys hx.1 hy)

  pub All-find {κ} :
      (P : A → Type κ) (p : A → Bool) (xs : List A) {x : A} → All P xs → find p xs ≡ some x → P x
  All-find P p [] h e = absurd (ground arith)
  All-find P p (y ∷ xs) {x} h e = elim (Bool-cases (p y)) [
    | inl hit ↦ let q : y ≡ x = ground arith in rw (← q) h.0
    | inr miss ↦ All-find P p xs h.1 (ground arith)
  ]

  pub count-any : (p : A → Bool) (xs : List A) → any p xs ≡ false → count p xs ≡ 0
  count-any p [] h = refl
  count-any p (x ∷ xs) h = ground (arith, count-any p xs)

  pub find-any : (p : A → Bool) (xs : List A) → any p xs ≡ false → find p xs ≡ none
  find-any p [] h = refl
  find-any p (x ∷ xs) h = ground (arith, find-any p xs)

  pub update_none : (p : A → Bool) (f : A → A) (xs : List A) → count p xs ≡ 0 → update p f xs ≡ xs
  update_none p f [] h = refl
  update_none p f (x ∷ xs) h = ground (arith, update_none p f xs)

  -- an update of the one row that passes `q` moves a count by that row alone
  pub count-update :
      (p q : A → Bool) (f : A → A) (xs : List A) {x : A}
      → find q xs ≡ some x
      → count q xs ≤ 1
      → count p (update q f xs) + (if p x then 1 else 0) ≡ count p xs + (if p (f x) then 1 else 0)
  count-update p q f [] h one = absurd (ground arith)
  count-update p q f (y ∷ xs) {x} h one = elim (Bool-cases (q y)) [
    | inl hit ↦
        let same : y ≡ x = ground arith in
        let rest : update q f xs ≡ xs = update_none q f xs (ground arith) in
        rw (hit, rest, same) (omega arith)
    | inr miss ↦
        let rest = count-update p q f xs (rw miss at h) (ground arith) in
        rw miss (omega (arith, rest))
  ]

  pub All-update {κ} :
      (P : A → Type κ) (q : A → Bool) (f : A → A) (xs : List A) {x : A}
      → All P xs
      → find q xs ≡ some x
      → count q xs ≤ 1
      → P (f x)
      → All P (update q f xs)
  All-update P q f [] all h one new = tt
  All-update P q f (y ∷ xs) {x} all h one new = elim (Bool-cases (q y)) [
    | inl hit ↦
        let same : y ≡ x = ground arith in
        let rest : update q f xs ≡ xs = update_none q f xs (ground arith) in
        rw (hit, rest, same) (new, all.1)
    | inr miss ↦ rw miss (all.0, All-update P q f xs all.1 (rw miss at h) (ground arith) new)
  ]
