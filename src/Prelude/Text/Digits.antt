-- ===== src/Prelude/Text/Digits.antt =====
-- Decimal numbers that are printed and read back.
use Prim.Native.Nat.{ℕ, zero, suc, ◌+◌, ◌/◌, ◌%◌, ◌≤◌, ◌<◌}
use mathlib.Core.Path.{◌≡◌, refl, ap, ◌∙◌}
use mathlib.Core.Logic.{inl, inr}
use mathlib.Core.Option.{some}
use mathlib.Core.List.{[], ◌∷◌, ◌++◌}
use mathlib.Core.Bool.{false}
use native.Mathlib.Numerals.{add-one}
use native.Mathlib.Omega.{arith}
use wfey.Prelude.Tests.{ltb, Bool-cases, ◌==◌}
use wfey.Prelude.Lists.{length}
use wfey.Prelude.Int.{pos}
use wfey.Prelude.Text.{
  Bytes, is_digit, skip_space, digits_from, scan_signed, decimal_fuel, decimal, first_line,
}

-- Text of digits.
abbrev pub AllDigits : Bytes → Type 0
AllDigits [] = Unit
AllDigits (c ∷ text) = (48 ≤ c) × (c ≤ 57) × AllDigits text

-- Reading the last digit of `n` after the digits before it gives `n`.
digits_from-decimal_fuel :
    (f n : ℕ) (out : Bytes) → n < f → digits_from 0 (decimal_fuel f n out) ≡ digits_from n out
unfolding decimal_fuel digits_from
digits_from-decimal_fuel zero n out h = absurd (omega arith)
digits_from-decimal_fuel (suc f) n out h =
    ground (arith, digits_from-decimal_fuel f (n / 10) ((48 + n % 10) ∷ out))

decimal_fuel-AllDigits : (f n : ℕ) (out : Bytes) → AllDigits out → AllDigits (decimal_fuel f n out)
unfolding decimal_fuel
decimal_fuel-AllDigits zero n out h = h
decimal_fuel-AllDigits (suc f) n out h =
    ground (arith, decimal_fuel-AllDigits f (n / 10) ((48 + n % 10) ∷ out))

decimal_fuel-append :
    (f n : ℕ) (out rest : Bytes) → decimal_fuel f n out ++ rest ≡ decimal_fuel f n (out ++ rest)
unfolding decimal_fuel
decimal_fuel-append zero n out rest = refl
decimal_fuel-append (suc f) n out rest =
    ground (arith, decimal_fuel-append f (n / 10) ((48 + n % 10) ∷ out) rest)

-- A number of `k + 1` digits at most.
abbrev pub HasDigits : ℕ → ℕ → Type 0
HasDigits zero n = n < 10
HasDigits (suc k) n = HasDigits k (n / 10)

length-decimal_fuel :
    (k f n : ℕ) (out : Bytes) → HasDigits k n → length (decimal_fuel f n out) ≤ suc k + length out
unfolding decimal_fuel
length-decimal_fuel k zero n out h = omega arith
length-decimal_fuel zero (suc f) n out h = ground arith
length-decimal_fuel (suc k) (suc f) n out h =
    ground (arith, length-decimal_fuel k f (n / 10) ((48 + n % 10) ∷ out) h)

-- Text that cannot go on with a number that stands before it.
abbrev pub EndsNumber : Bytes → Type 0
EndsNumber [] = Unit
EndsNumber (c ∷ text) = is_digit c ≡ false

digits_from-EndsNumber : (n : ℕ) (rest : Bytes) → EndsNumber rest → digits_from n rest ≡ n
unfolding digits_from
digits_from-EndsNumber n [] e = refl
digits_from-EndsNumber n (c ∷ text) e = rw e refl

-- A number is read back from its digits.
pub digits_from-decimal :
    (n : ℕ) (rest : Bytes) → EndsNumber rest → digits_from 0 (decimal n ++ rest) ≡ n
unfolding decimal
digits_from-decimal n rest e =
    rw (decimal_fuel-append (n + 1) n [] rest)
      (digits_from-decimal_fuel (n + 1) n rest (omega arith) ∙ digits_from-EndsNumber n rest e)

pub decimal-AllDigits : (n : ℕ) → AllDigits (decimal n)
unfolding decimal
decimal-AllDigits n = decimal_fuel-AllDigits (n + 1) n [] tt

pub length-decimal : (k n : ℕ) → HasDigits k n → length (decimal n) ≤ suc k
unfolding decimal
length-decimal k n h = omega (arith, length-decimal_fuel k (n + 1) n [] h)

abbrev pub IsCons : Bytes → Type 0
IsCons [] = ⊥
IsCons (c ∷ text) = Unit

decimal_fuel-IsCons : (f n c : ℕ) (out : Bytes) → IsCons (decimal_fuel f n (c ∷ out))
unfolding decimal_fuel
decimal_fuel-IsCons zero n c out = tt
decimal_fuel-IsCons (suc f) n c out = elim (Bool-cases (ltb n 10)) [
  | inl last ↦ rw last tt
  | inr more ↦ rw more (decimal_fuel-IsCons f (n / 10) (48 + n % 10) (c ∷ out))
]

pub decimal-IsCons : (n : ℕ) → IsCons (decimal n)
unfolding decimal decimal_fuel
decimal-IsCons n = rw (add-one n) (elim (Bool-cases (ltb n 10)) [
  | inl last ↦ rw last tt
  | inr more ↦ rw more (decimal_fuel-IsCons n (n / 10) (48 + n % 10) [])
])

-- A text of digits that is not empty, and what stands behind it.
pub scan_signed-digits :
    (text rest : Bytes)
    → IsCons text
    → AllDigits text
    → scan_signed (text ++ rest) ≡ some (pos (digits_from 0 (text ++ rest)))
unfolding scan_signed
scan_signed-digits [] rest c d = absurd c
scan_signed-digits (a ∷ text) rest c d = ground arith

-- `%d` reads back what it has printed.
pub scan_signed-decimal :
    (n : ℕ) (rest : Bytes) → EndsNumber rest → scan_signed (decimal n ++ rest) ≡ some (pos n)
scan_signed-decimal n rest e =
    scan_signed-digits (decimal n) rest (decimal-IsCons n) (decimal-AllDigits n)
    ∙ ap (λ k. some (pos k)) (digits_from-decimal n rest e)

-- Digits are no white space.
pub skip_space-digits :
    (text rest : Bytes) → IsCons text → AllDigits text → skip_space (text ++ rest) ≡ text ++ rest
unfolding skip_space
skip_space-digits [] rest c d = absurd c
skip_space-digits (a ∷ text) rest c d = ground arith

abbrev pub NoNewline : Bytes → Type 0
NoNewline [] = Unit
NoNewline (c ∷ text) = ((c == 10) ≡ false) × NoNewline text

pub AllDigits-NoNewline : (text : Bytes) → AllDigits text → NoNewline text
AllDigits-NoNewline [] h = tt
AllDigits-NoNewline (c ∷ text) (l, u, h) = (ground arith, AllDigits-NoNewline text h)

-- A line that fits is read whole.
pub first_line-append :
    (n : ℕ) (text : Bytes)
    → NoNewline text
    → length text < n
    → first_line n (text ++ 10 ∷ []) ≡ text ++ 10 ∷ []
unfolding first_line
first_line-append zero text h l = absurd (omega arith)
first_line-append (suc n) [] h l = refl
first_line-append (suc n) (c ∷ text) h l = rw (h.0, first_line-append n text h.1 (omega arith)) refl
