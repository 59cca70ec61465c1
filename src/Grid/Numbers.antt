-- ===== src/Grid/Numbers.antt =====
-- About numbers as keys of a checkpoint: `str` and `int` as server/timing/result_grid.py uses them.
use Prim.Native.Char.{code}
use mathlib.Core.Path.{subst}
use balchug_racing.Base.{
  ℕ, suc, zero, ◌+◌, ◌-◌, ◌*◌, ◌/◌, ◌%◌, ◌<◌, ◌≡◌, refl, inl, inr, String, true, some, List, ◌∷◌,
  ltb, arith, Bool-cases, all,
}
use balchug_racing.Canonical.Duration.{codes, is_digit, to_int, parse_digits}
use balchug_racing.Grid.Text.{digit_char, print, str_nat}

code-digit_char : (d : ℕ) → d < 10 → code (digit_char d) ≡ 48 + d
code-digit_char zero h = refl
code-digit_char (suc zero) h = refl
code-digit_char (suc (suc zero)) h = refl
code-digit_char (suc (suc (suc zero))) h = refl
code-digit_char (suc (suc (suc (suc zero)))) h = refl
code-digit_char (suc (suc (suc (suc (suc zero))))) h = refl
code-digit_char (suc (suc (suc (suc (suc (suc zero)))))) h = refl
code-digit_char (suc (suc (suc (suc (suc (suc (suc zero))))))) h = refl
code-digit_char (suc (suc (suc (suc (suc (suc (suc (suc zero)))))))) h = refl
code-digit_char (suc (suc (suc (suc (suc (suc (suc (suc (suc d))))))))) h = omega arith

to_int-digit :
    (acc d : ℕ) (out : String)
    → d < 10
    → to_int acc (codes (String.◌∷◌ (digit_char d) out)) ≡ to_int (acc * 10 + d) (codes out)
unfolding to_int
to_int-digit acc d out h =
    let plus : acc * 10 + (48 + d - 48) ≡ acc * 10 + d = omega arith in
    rw (code-digit_char d h, plus) refl

to_int-print :
    (fuel n : ℕ) (out : String)
    → n < fuel
    → to_int 0 (codes (print fuel n out)) ≡ to_int n (codes out)
unfolding print
to_int-print zero n out h = absurd (omega arith)
to_int-print (suc fuel) n out h = elim (Bool-cases (ltb n 10)) [
  | inl small ↦
      let whole : 0 * 10 + n % 10 ≡ n = ground arith in
      rw small (rw (to_int-digit 0 (n % 10) out (omega arith), whole) refl)
  | inr more ↦
      let whole : n / 10 * 10 + n % 10 ≡ n = omega arith in
      let last : String = String.◌∷◌ (digit_char (n % 10)) out in
      rw more (
        rw
          (
            to_int-print fuel (n / 10) last (ground arith),
            to_int-digit (n / 10) (n % 10) out (omega arith),
            whole,
          )
          refl)
]

all-is_digit-print :
    (fuel n : ℕ) (out : String)
    → all is_digit (codes out) ≡ true
    → all is_digit (codes (print fuel n out)) ≡ true
unfolding print
all-is_digit-print zero n out h = h
all-is_digit-print (suc fuel) n out h =
    let last : String = String.◌∷◌ (digit_char (n % 10)) out in
    let digits : all is_digit (codes last) ≡ true =
      rw (code-digit_char (n % 10) (omega arith)) (ground arith) in
    elim (Bool-cases (ltb n 10)) [
      | inl small ↦ rw small digits
      | inr more ↦ rw more (all-is_digit-print fuel (n / 10) last digits)
    ]

-- the first code of a printed number, and the others
print-cons :
    (fuel n : ℕ) (out : String) (c : ℕ) (cs : List ℕ)
    → codes out ≡ c ∷ cs
    → (d : ℕ) × (ds : List ℕ) × (codes (print fuel n out) ≡ d ∷ ds)
unfolding print
print-cons zero n out c cs h = (c, cs, h)
print-cons (suc fuel) n out c cs h =
    let last : String = String.◌∷◌ (digit_char (n % 10)) out in
    elim (Bool-cases (ltb n 10)) [
      | inl small ↦ rw small (_, _, refl)
      | inr more ↦ rw more (print-cons fuel (n / 10) last _ _ refl)
    ]

str_nat-cons : (n : ℕ) → (d : ℕ) × (ds : List ℕ) × (codes (str_nat n) ≡ d ∷ ds)
unfolding str_nat print
str_nat-cons n = elim (Bool-cases (ltb n 10)) [
  | inl small ↦ rw small (_, _, refl)
  | inr more ↦ rw more (print-cons n (n / 10) (String.◌∷◌ (digit_char (n % 10)) "") _ _ refl)
]

parse_digits-cons :
    (d : ℕ) (ds : List ℕ)
    → all is_digit (d ∷ ds) ≡ true
    → parse_digits (d ∷ ds) ≡ some (to_int 0 (d ∷ ds))
unfolding parse_digits
parse_digits-cons d ds h = rw h refl

-- a number is read back from its text
pub parse_digits-str_nat : (n : ℕ) → parse_digits (codes (str_nat n)) ≡ some n
unfolding str_nat to_int
parse_digits-str_nat n =
    let (d, ds, e) = str_nat-cons n in
    let digits : all is_digit (d ∷ ds) ≡ true =
      subst (λ cs. all is_digit cs ≡ true) e (all-is_digit-print (suc n) n "" refl) in
    let value : to_int 0 (d ∷ ds) ≡ n =
      subst (λ cs. to_int 0 cs ≡ n) e (to_int-print (suc n) n "" (omega arith)) in
    rw (e, parse_digits-cons d ds digits, value) refl
