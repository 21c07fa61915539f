-- ===== src/Prelude/Decimal.antt =====
-- Decimal text, as in Python's f-strings.
use Prim.Native.Nat.{ℕ, zero, suc, ◌+◌, ◌-◌, ◌*◌, ◌/◌, ◌%◌, ◌≤◌, ◌<◌}
use mathlib.Core.Path.{◌≡◌, refl, ap, ◌∙◌}
use mathlib.Core.Bool.{Bool, true, false, ◌&&◌}
use mathlib.Core.List.{[], ◌∷◌, ◌++◌}
use mathlib.Core.Logic.{inl, inr}
use native.Mathlib.Omega.{arith}
use mr_hide.Prelude.Tests.{ltb, leb, if◌then◌else◌, Bool-cases}
use mr_hide.Prelude.Lists.{length, All}
use mr_hide.Prelude.Texts.{Text}

unfoldable pub is_digit : ℕ → Bool
is_digit c = leb b'0' c && leb c b'9'

-- The digits of `n`, most significant first, before `acc`. Fuel above `n` is enough.
decimal_onto : ℕ → ℕ → Text → Text
decimal_onto zero n acc = acc
decimal_onto (suc fuel) n acc =
    let shorter = decimal_onto fuel (n / 10) ((48 + n % 10) ∷ acc) in
    if ltb n 10 then (48 + n) ∷ acc else shorter

-- `str(n)`
unfoldable pub decimal : ℕ → Text
unfolding decimal_onto
decimal n = decimal_onto (suc n) n []

zeros : ℕ → Text
zeros zero = []
zeros (suc n) = b'0' ∷ zeros n

-- `f"{n:04d}"` and the like
unfoldable pub padded : ℕ → ℕ → Text
unfolding zeros
padded width n = let s = decimal n in zeros (width - length s) ++ s

-- the number that a text of digits stands for
unfoldable pub number : ℕ → Text → ℕ
number acc [] = acc
number acc (c ∷ s) = number (acc * 10 + (c - 48)) s

abbrev pow10 : ℕ → ℕ
pow10 zero = 1
pow10 (suc k) = 10 * pow10 k

decimal_onto-number :
    (fuel n : ℕ) (acc : Text) → n < fuel → number 0 (decimal_onto fuel n acc) ≡ number n acc
unfolding decimal_onto number
decimal_onto-number zero n acc h = absurd (omega arith)
decimal_onto-number (suc fuel) n acc h = elim (Bool-cases (ltb n 10)) [
  | inl e ↦
      let same : 0 * 10 + (48 + n - 48) ≡ n = omega arith in rw e (ap (λ k. number k acc) same)
  | inr e ↦
      let big : 10 ≤ n = ground arith in
      let same : n / 10 * 10 + (48 + n % 10 - 48) ≡ n = omega arith in
      rw e (
        decimal_onto-number fuel (n / 10) ((48 + n % 10) ∷ acc) (omega arith)
        ∙ ap (λ k. number k acc) same)
]

-- The decimal text of a number reads back as the number: the fuel is enough.
pub number-decimal : (n : ℕ) → number 0 (decimal n) ≡ n
unfolding decimal number
number-decimal n = decimal_onto-number (suc n) n [] (omega arith)

is_digit_digit : (n : ℕ) → n < 10 → is_digit (48 + n) ≡ true
unfolding is_digit
is_digit_digit n h = ground arith

decimal_onto-digits :
    (fuel n : ℕ) (acc : Text)
    → All (λ c. is_digit c ≡ true) acc
    → All (λ c. is_digit c ≡ true) (decimal_onto fuel n acc)
unfolding decimal_onto
decimal_onto-digits zero n acc h = h
decimal_onto-digits (suc fuel) n acc h =
    (elim (ltb n 10)
        as (λ b.
          ltb n 10 ≡ b
          → All (λ c. is_digit c ≡ true)
              (if b then (48 + n) ∷ acc else decimal_onto fuel (n / 10) ((48 + n % 10) ∷ acc))) [
                | true ↦ λ e. (is_digit_digit n (ground arith), h)
                | false ↦ λ e.
                    decimal_onto-digits fuel (n / 10) ((48 + n % 10) ∷ acc)
                      (is_digit_digit (n % 10) (omega arith), h)
              ])
      refl

pub decimal-digits : (n : ℕ) → All (λ c. is_digit c ≡ true) (decimal n)
unfolding decimal
decimal-digits n = decimal_onto-digits (suc n) n [] tt

decimal_onto-ne-nil :
    (fuel n a : ℕ) (acc : Text) → (c : ℕ) × (s : Text) × (decimal_onto fuel n (a ∷ acc) ≡ c ∷ s)
unfolding decimal_onto
decimal_onto-ne-nil zero n a acc = (a, acc, refl)
decimal_onto-ne-nil (suc fuel) n a acc = elim (Bool-cases (ltb n 10)) [
  | inl e ↦ (48 + n, a ∷ acc, rw e)
  | inr e ↦
      let (c, s, h) = decimal_onto-ne-nil fuel (n / 10) (48 + n % 10) (a ∷ acc) in (c, s, rw e h)
]

pub decimal-ne-nil : (n : ℕ) → (c : ℕ) × (s : Text) × (decimal n ≡ c ∷ s)
unfolding decimal
decimal-ne-nil n = elim (Bool-cases (ltb n 10)) [
  | inl e ↦ (48 + n, [], rw e)
  | inr e ↦ let (c, s, h) = decimal_onto-ne-nil n (n / 10) (48 + n % 10) [] in (c, s, rw e h)
]
