-- ===== src/Base/Numbers.antt =====
-- Numbers as text: decimal digits, and the range of safe integers.
use Prim.Native.Nat.{ℕ, zero, suc, ◌+◌, ◌-◌, ◌*◌, ◌/◌, ◌%◌, ◌^◌, ◌<◌}
use mathlib.Core.Path.{◌≡◌, refl, ap, ◌∙◌}
use mathlib.Core.Logic.{inl, inr}
use mathlib.Core.Bool.{Bool, true, ◌&&◌}
use mathlib.Core.List.{List, [], ◌∷◌, ◌++◌}
use native.Mathlib.Omega.{arith}
use prime_server.Base.Tests.{ltb, leb, if◌then◌else◌, Bool-cases}

-- `Number.isSafeInteger(n)`, for an integer that is not negative.
abbrev pub is_safe : ℕ → Bool
is_safe n = leb n (2 ^ 53 - 1)

abbrev pub is_digit : ℕ → Bool
is_digit c = leb b'0' c && leb c b'9'

-- The value of a run of digits, after those read before it.
unfoldable pub digits_value : ℕ → List ℕ → ℕ
digits_value acc [] = acc
digits_value acc (c ∷ s) = digits_value (acc * 10 + (c - b'0')) s

-- `String(n)`: the digits of `n` before `rest`. The fuel `suc n` is enough, as `n / 10 < n`.
unfoldable pub decimal_onto : ℕ → ℕ → List ℕ → List ℕ
decimal_onto zero n rest = rest
decimal_onto (suc fuel) n rest =
    let more = decimal_onto fuel (n / 10) ((n % 10 + b'0') ∷ rest) in
    if ltb n 10 then (n + b'0') ∷ rest else more

unfoldable pub decimal : ℕ → List ℕ
unfolding decimal_onto
decimal n = decimal_onto (suc n) n []

-- Printing a number and reading it back.
digits_value-decimal_onto :
    (fuel n : ℕ) (rest : List ℕ)
    → n < fuel
    → digits_value 0 (decimal_onto fuel n rest) ≡ digits_value n rest
unfolding decimal_onto digits_value
digits_value-decimal_onto zero n rest h = elim h [ ]
digits_value-decimal_onto (suc fuel) n rest h = elim (Bool-cases (ltb n 10)) [
  | inl small ↦ rw small (ap (λ (k : ℕ). digits_value k rest) (omega arith))
  | inr large ↦ rw large (
      digits_value-decimal_onto fuel (n / 10) ((n % 10 + b'0') ∷ rest) (ground arith)
      ∙ ap (λ (k : ℕ). digits_value k rest) (omega arith))
]

pub digits_value-decimal : (n : ℕ) → digits_value 0 (decimal n) ≡ n
unfolding decimal digits_value
digits_value-decimal n = digits_value-decimal_onto (suc n) n [] (omega arith)

abbrev pub AllDigits : List ℕ → Type 0
AllDigits [] = Unit
AllDigits (c ∷ s) = (is_digit c ≡ true) × AllDigits s

decimal_onto-AllDigits :
    (fuel n : ℕ) (rest : List ℕ) → n < fuel → AllDigits rest → AllDigits (decimal_onto fuel n rest)
unfolding decimal_onto
decimal_onto-AllDigits zero n rest h d = elim h [ ]
decimal_onto-AllDigits (suc fuel) n rest h d = elim (Bool-cases (ltb n 10)) [
  | inl small ↦ rw small (ground arith, d)
  | inr large ↦ rw large (
      decimal_onto-AllDigits fuel (n / 10) ((n % 10 + b'0') ∷ rest) (ground arith)
        (ground arith, d))
]

pub decimal-AllDigits : (n : ℕ) → AllDigits (decimal n)
unfolding decimal
decimal-AllDigits n = decimal_onto-AllDigits (suc n) n [] (omega arith) tt

-- A printed number is not the empty text.
decimal_onto-cons :
    (fuel n : ℕ) (c : ℕ) (rest : List ℕ)
    → (d : ℕ) × (s : List ℕ) × (decimal_onto fuel n (c ∷ rest) ≡ d ∷ s)
unfolding decimal_onto
decimal_onto-cons zero n c rest = (c, rest, refl)
decimal_onto-cons (suc fuel) n c rest = elim (Bool-cases (ltb n 10)) [
  | inl small ↦ rw small (n + b'0', c ∷ rest, refl)
  | inr large ↦ rw large (decimal_onto-cons fuel (n / 10) (n % 10 + b'0') (c ∷ rest))
]

pub decimal-cons : (n : ℕ) → (d : ℕ) × (s : List ℕ) × (decimal n ≡ d ∷ s)
unfolding decimal decimal_onto
decimal-cons n = elim (Bool-cases (ltb n 10)) [
  | inl small ↦ rw small (n + b'0', [], refl)
  | inr large ↦ rw large (decimal_onto-cons n (n / 10) (n % 10 + b'0') [])
]

-- The longest run of digits at the front, `\d*`, and what is left.
unfoldable pub span_digits : List ℕ → List ℕ × List ℕ
span_digits [] = ([], [])
span_digits (c ∷ s) =
    let (d, rest) = span_digits s in if is_digit c then (c ∷ d, rest) else ([], c ∷ s)

pub span_digits-append :
    (s t : List ℕ) → AllDigits s → span_digits t ≡ ([], t) → span_digits (s ++ t) ≡ (s, t)
unfolding span_digits
span_digits-append [] t h stop = stop
span_digits-append (c ∷ s) t (d, h) stop = let ih = span_digits-append s t h stop in ground arith
