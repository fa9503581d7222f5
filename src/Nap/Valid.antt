-- ===== src/Nap/Valid.antt =====
-- The delay of a source as an argument of `nanosleep`.
use native.Mathlib.Nat.{mul-le-mul_left, mul-le-mul_right, div-eq_of_lt}
use wfey.Prelude.{
  ℕ, ◌+◌, ◌-◌, ◌*◌, ◌/◌, ◌%◌, ◌^◌, ◌≤◌, ◌<◌, ◌≡◌, sym, ap, ◌==◌, arith, Bool-cases, inl, inr,
}
use wfey.Clock.{nsec_in_second}
use wfey.Nap.{IsTime}
use wfey.Nap.Double.{Doubles}
use wfey.Nap.Delay.{vary, split_delay, source_delay}

percent : (r u : ℕ) → r < 11 → r * u * u ≤ 1 * u * (100 * u)
percent r u h = let bound : r ≤ 100 = omega arith in omega (arith, mul-le-mul_right (u * u) bound)

square_pos : (u : ℕ) → 0 < u → 0 < u * u
square_pos u h = grind arith

-- The greatest number below 1, times 10^9, is nearer to the number below 10^9 than to 10^9.
giga_nearest :
    (x u c : ℕ)
    → 0 < u
    → 2 ^ 53 * x ≤ (2 ^ 53 - 1) * u
    → 2 ^ 23 * c ≡ (10 ^ 9 * 2 ^ 23 - 1) * u
    → 2 * (x * (10 ^ 9 * u)) < (c + 10 ^ 9 * u) * u
giga_nearest x u c pos small next =
    omega (arith, mul-le-mul_right u small, ap (λ t. t * u) next, square_pos u pos)

le_of_lt : {a b : ℕ} → a < b → a ≤ b
le_of_lt h = omega arith

div_mod : (a u : ℕ) → 0 < u → a ≡ a / u * u + a % u
div_mod a u h = grind arith

mod_lt : (a u : ℕ) → 0 < u → a % u < u
mod_lt a u h = grind arith

div_le : (a u k : ℕ) → 0 < u → a ≤ k * u → a / u ≤ k
div_le a u k pos h = grind arith

div_lt : (a u k : ℕ) → a < k * u → a / u < k
div_lt a u k h = grind arith

module _ (d : Doubles) where
  open d use {
    Double, of_int, plus, minus, times, over, ge, to_int, IsNumber, value, unit, unit_pos,
    of_int_exact, plus_le, minus_le, times_le, over_le, minus_exact, times_nearest, ge_eq,
    to_int_eq, fraction, below_one, below_giga,
  }

  -- A number that is not above a bound.
  UpTo : ℕ → Double → Type 0
  UpTo bound a = IsNumber a × (value a ≤ bound)

  mod_perc-UpTo : (r : ℕ) → r < 11 → UpTo unit (over (of_int r) (of_int 100))
  unfolding UpTo
  mod_perc-UpTo r h =
      let (a, va) = of_int_exact r (omega arith) in
      let (b, vb) = of_int_exact 100 (omega arith) in
      let (c, vc) = of_int_exact 1 (omega arith) in
      let (e, le) =
        over_le (of_int r) (of_int 100) (of_int 1) a b c (rw vb (omega (arith, unit_pos)))
          (rw (va, vb, vc) (percent r unit h)) in
      (e, omega (arith, vc))

  modifier-UpTo : (a m : Double) → IsNumber a → UpTo unit m → UpTo (value a) (times a m)
  unfolding UpTo
  modifier-UpTo a m h (hm, le) = times_le a m a h hm h (mul-le-mul_left (value a) le)

  vary-UpTo :
      (rand rand' : ℕ) (sleep : Double)
      → IsNumber sleep
      → value sleep ≤ 2 ^ 52 * unit
      → UpTo (2 ^ 53 * unit) (vary d rand rand' sleep)
  unfolding vary UpTo
  vary-UpTo rand rand' sleep h le =
      let part = mod_perc-UpTo (rand % 11) (omega arith) in
      let (m, lm) = modifier-UpTo sleep (over (of_int (rand % 11)) (of_int 100)) h part in
      let (top, vtop) = of_int_exact (2 ^ 53) (omega arith) in
      elim (Bool-cases (rand' % 2 == 0)) [
        | inl more ↦
            let (e, le') = plus_le sleep _ (of_int (2 ^ 53)) h m top (omega arith) in
            rw more (e, omega arith)
        | inr less ↦
            let (e, le') = minus_le sleep _ sleep h m h lm (omega arith) in rw less (e, omega arith)
      ]

  -- The nanoseconds of a fraction.
  nanos-lt :
      (x : Double)
      → IsNumber x
      → value x < unit
      → to_int (times x (of_int nsec_in_second)) < nsec_in_second
  nanos-lt x h lt =
      let (g, vg) = of_int_exact nsec_in_second (omega arith) in
      let (c, hc, vc) = below_giga in
      let small = below_one x h lt in
      let near =
        times_nearest x (of_int nsec_in_second) c (of_int nsec_in_second) h g hc g
          (rw vg (omega (arith, unit_pos, vc)))
          (rw vg (giga_nearest (value x) unit (value c) unit_pos small vc)) in
      let (r, _) =
        times_le x (of_int nsec_in_second) (of_int nsec_in_second) h g g
          (omega (arith, mul-le-mul_left (value (of_int nsec_in_second)) (le_of_lt lt))) in
      rw (to_int_eq (times x (of_int nsec_in_second)) r (omega (arith, vg, unit_pos)))
        (div_lt _ unit _ (omega (arith, vg)))

  -- The fraction, after the seconds are taken away.
  fraction-lt :
      (a : Double)
      → IsNumber a
      → value a ≤ 2 ^ 53 * unit
      → IsNumber (minus a (of_int (to_int a))) × (value (minus a (of_int (to_int a))) < unit)
  fraction-lt a h le =
      let whole = to_int_eq a h (omega (arith, unit_pos)) in
      let (q, vq) = of_int_exact (value a / unit) (div_le (value a) unit (2 ^ 53) unit_pos le) in
      let (c, hc, vc) = fraction a h in
      let parts : value a ≡ value (of_int (value a / unit)) + value c =
        rw (vq, vc) (div_mod (value a) unit unit_pos) in
      let (x, vx) = minus_exact a (of_int (value a / unit)) c h q hc parts in
      rw whole (x, rw (vx, vc) (mod_lt (value a) unit unit_pos))

  split_delay_lem :
      (a : Double)
      → IsNumber a
      → value a ≤ 2 ^ 53 * unit
      → IsTime (split_delay d a) × ((split_delay d a).tv_sec ≡ value a / unit)
  unfolding split_delay
  split_delay_lem a h le =
      let (one, v1) = of_int_exact 1 (omega arith) in
      let whole = to_int_eq a h (omega (arith, unit_pos)) in
      let seconds : value a / unit ≤ 2 ^ 53 = div_le (value a) unit (2 ^ 53) unit_pos le in
      let at = ge_eq a (of_int 1) h one in
      elim (Bool-cases (ge a (of_int 1))) [
        | inl long ↦
            let (x, lt) = fraction-lt a h le in
            rw long (
              record { fraction = nanos-lt _ x lt; positive = omega (arith, whole, seconds) },
              whole,
            )
        | inr short ↦
            let below : value a < unit = ground (arith, v1, at, short) in
            rw short (
              record { fraction = nanos-lt a h below; positive = omega arith },
              sym (div-eq_of_lt below),
            )
      ]

  -- Whatever `rand()` returns, a source with at most 2^52 seconds between two events gets a delay that `nanosleep` takes: less than
  -- a second of nanoseconds, and as its seconds the whole seconds of the varied time, which is at most 2^53 seconds.
  pub source_delay-IsTime :
      (rand rand' : ℕ) (sleep : Double)
      → IsNumber sleep
      → value sleep ≤ 2 ^ 52 * unit
      → IsTime (source_delay d rand rand' sleep)
        × ((source_delay d rand rand' sleep).tv_sec ≡ value (vary d rand rand' sleep) / unit)
        × (value (vary d rand rand' sleep) ≤ 2 ^ 53 * unit)
  unfolding source_delay UpTo
  source_delay-IsTime rand rand' sleep h le =
      let (a, top) = vary-UpTo rand rand' sleep h le in
      let (valid, seconds) = split_delay_lem (vary d rand rand' sleep) a top in
      (valid, seconds, top)
