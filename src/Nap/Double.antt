-- ===== src/Nap/Double.antt =====
-- What sourceThread of wfey.c does with a `double`, and what it needs of it: the operations of IEEE 754 that round to the nearest
-- number, for numbers that are finite and not negative.
use wfey.Prelude.{ℕ, ◌+◌, ◌*◌, ◌/◌, ◌%◌, ◌^◌, ◌≤◌, ◌<◌, ◌-◌, ◌≡◌, Bool, leb}

pub record Doubles : Type 1 where
  pub Double : Type 0
  pub of_int : ℕ → Double
  pub plus : Double → Double → Double
  pub minus : Double → Double → Double
  pub times : Double → Double → Double
  pub over : Double → Double → Double
  pub ge : Double → Double → Bool
  pub to_int : Double → ℕ  -- the cast to `time_t` or `long`
  -- A finite number that is not negative, and its value, a multiple of the smallest one, of which `unit` are 1.
  pub IsNumber : Double → Type 0
  pub value : Double → ℕ
  pub unit : ℕ
  pub unit_pos : 0 < unit
  pub of_int_exact : (n : ℕ) → n ≤ 2 ^ 53 → IsNumber (of_int n) × (value (of_int n) ≡ n * unit)
  -- A result is not above a number that the exact one is not above.
  pub plus_le :
      (a b c : Double)
      → IsNumber a
      → IsNumber b
      → IsNumber c
      → value a + value b ≤ value c
      → IsNumber (plus a b) × (value (plus a b) ≤ value c)
  pub minus_le :
      (a b c : Double)
      → IsNumber a
      → IsNumber b
      → IsNumber c
      → value b ≤ value a
      → value a ≤ value b + value c
      → IsNumber (minus a b) × (value (minus a b) ≤ value c)
  pub times_le :
      (a b c : Double)
      → IsNumber a
      → IsNumber b
      → IsNumber c
      → value a * value b ≤ value c * unit
      → IsNumber (times a b) × (value (times a b) ≤ value c)
  pub over_le :
      (a b c : Double)
      → IsNumber a
      → IsNumber b
      → IsNumber c
      → 0 < value b
      → value a * unit ≤ value c * value b
      → IsNumber (over a b) × (value (over a b) ≤ value c)
  -- An exact result that is a number is the result.
  pub minus_exact :
      (a b c : Double)
      → IsNumber a
      → IsNumber b
      → IsNumber c
      → value a ≡ value b + value c
      → IsNumber (minus a b) × (value (minus a b) ≡ value c)
  -- A result is below a number if the exact one is nearer to a smaller number.
  pub times_nearest :
      (a b c d : Double)
      → IsNumber a
      → IsNumber b
      → IsNumber c
      → IsNumber d
      → value c < value d
      → 2 * (value a * value b) < (value c + value d) * unit
      → value (times a b) < value d
  pub ge_eq : (a b : Double) → IsNumber a → IsNumber b → ge a b ≡ leb (value b) (value a)
  pub to_int_eq : (a : Double) → IsNumber a → value a < 2 ^ 63 * unit → to_int a ≡ value a / unit
  -- Of the numbers with 53 bits: the fraction of a number; the greatest below 1; the next below 10^9.
  pub fraction : (a : Double) → IsNumber a → (c : Double) × IsNumber c × (value c ≡ value a % unit)
  pub below_one :
      (a : Double) → IsNumber a → value a < unit → 2 ^ 53 * value a ≤ (2 ^ 53 - 1) * unit
  pub below_giga : (c : Double) × IsNumber c × (2 ^ 23 * value c ≡ (10 ^ 9 * 2 ^ 23 - 1) * unit)
