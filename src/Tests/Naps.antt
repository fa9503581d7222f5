-- ===== src/Tests/Naps.antt =====
-- Naps of a source, and its delay with numbers of a fixed point.
use wfey.Prelude.{
  ℕ, ◌+◌, ◌-◌, ◌*◌, ◌/◌, ◌%◌, ◌^◌, ◌≤◌, ◌<◌, ◌≡◌, refl, true, false, leb, if◌then◌else◌, List, [],
  ◌∷◌, length, arith,
}
use wfey.Clock.{Ts, nsec_in_second, to_ns}
use wfey.Nap.{
  Answer, slept, interrupted, refused, Wakeup, ran, signal, IsTime, Sleeper, nap, no_time,
}
use wfey.Nap.Double.{Doubles}
use wfey.Nap.Delay.{vary, source_delay}
use wfey.Nap.Time.{through, time_asleep, nap-time, nap-refused}
use wfey.Nap.Valid.{source_delay-IsTime}

-- A kernel that does as POSIX says.
abbrev from_ns : ℕ → Ts
from_ns n = record { tv_sec = n / nsec_in_second; tv_nsec = n % nsec_in_second }

abbrev sleep_for : Ts → Wakeup → Answer
sleep_for t ran = slept
sleep_for t (signal elapsed) = interrupted (from_ns (to_ns t - elapsed))

abbrev posix_nanosleep : Ts → Wakeup → Answer
posix_nanosleep t w = if leb nsec_in_second t.tv_nsec then refused else sleep_for t w

posix_whole : (t : Ts) → IsTime t → posix_nanosleep t ran ≡ slept
posix_whole t v = ground arith

posix_partial :
    (t : Ts) (elapsed : ℕ)
    → IsTime t
    → elapsed < to_ns t
    → (rem : Ts) × (posix_nanosleep t (signal elapsed) ≡ interrupted rem)
      × IsTime rem
      × (to_ns rem + elapsed ≡ to_ns t)
posix_partial t elapsed v lt = (
  from_ns (to_ns t - elapsed),
  ground arith,
  record { fraction = omega arith; positive = omega (arith, v.fraction, v.positive) },
  omega arith,
)

posix_refuses : (t : Ts) (w : Wakeup) → nsec_in_second ≤ t.tv_nsec → posix_nanosleep t w ≡ refused
posix_refuses t w h = ground arith

abbrev posix : Sleeper
posix = record {
  nanosleep = posix_nanosleep;
  whole = posix_whole;
  partial = posix_partial;
  refuses = posix_refuses;
}

abbrev two_seconds : Ts
two_seconds = record { tv_sec = 2; tv_nsec = 5 }

abbrev signals : List ℕ
signals = 700_000_000 ∷ 900_000_000 ∷ []

two_seconds-IsTime : IsTime two_seconds
two_seconds-IsTime = record { fraction = omega arith; positive = omega arith }

nap-time_example :
    let n = nap posix (through signals false) two_seconds no_time in
    (n.over ≡ true)
    × (time_asleep n.asked (through signals false) ≡ 2_000_000_005)
    × (length n.asked ≡ 3)
nap-time_example = nap-time posix signals false two_seconds no_time two_seconds-IsTime (omega arith)

abbrev no_delay : Ts
no_delay = record { tv_sec = 3; tv_nsec = 2 ^ 63 - 1 }

nap-refused_example :
    nap posix ((ran, false) ∷ (ran, true) ∷ []) no_delay no_time
    ≡ record { asked = no_delay ∷ no_time ∷ []; over = true; nrem = no_time }
nap-refused_example = nap-refused posix no_delay ran true [] (omega arith)

-- Numbers of a fixed point, 2^-53, which are cut off.
abbrev one : ℕ
one = 2 ^ 53

pub fixed_plus : (a b c : ℕ) → Unit {0} → Unit {0} → Unit {0} → a + b ≤ c → Unit {0} × (a + b ≤ c)
fixed_plus a b c _ _ _ h = (tt, h)

pub fixed_times :
    (a b c : ℕ) → Unit {0} → Unit {0} → Unit {0} → a * b ≤ c * one → Unit {0} × (a * b / one ≤ c)
fixed_times a b c _ _ _ h = (tt, omega arith)

pub fixed_over :
    (a b c : ℕ)
    → Unit {0}
    → Unit {0}
    → Unit {0}
    → 0 < b
    → a * one ≤ c * b
    → Unit {0} × (a * one / b ≤ c)
fixed_over a b c _ _ _ pos h = (tt, grind arith)

pub fixed_nearest :
    (a b c d : ℕ)
    → Unit {0}
    → Unit {0}
    → Unit {0}
    → Unit {0}
    → c < d
    → 2 * (a * b) < (c + d) * one
    → a * b / one < d
fixed_nearest a b c d _ _ _ _ lt h = omega arith

abbrev pub fixed : Doubles
fixed = record {
  Double = ℕ;
  of_int = λ n. n * one;
  plus = λ a b. a + b;
  minus = λ a b. a - b;
  times = λ a b. a * b / one;
  over = λ a b. a * one / b;
  ge = λ a b. leb b a;
  to_int = λ a. a / one;
  IsNumber = λ a. Unit;
  value = λ a. a;
  unit = one;
  unit_pos = omega arith;
  of_int_exact = λ n h. (tt, refl);
  plus_le = fixed_plus;
  minus_le = λ a b c _ _ _ le h. (tt, omega arith);
  times_le = fixed_times;
  over_le = fixed_over;
  minus_exact = λ a b c _ _ _ h. (tt, omega arith);
  times_nearest = fixed_nearest;
  ge_eq = λ a b _ _. refl;
  to_int_eq = λ a _ h. refl;
  fraction = λ a _. (a % one, tt, refl);
  below_one = λ a _ h. omega arith;
  below_giga = ((10 ^ 9 * 2 ^ 23 - 1) * 2 ^ 30, tt, omega arith);
}

-- 2.5 seconds, and 7 percent more.
source_delay_run :
    source_delay fixed 18 4 (5 * 2 ^ 52) ≡ record { tv_sec = 2; tv_nsec = 674_999_999 }
unfolding source_delay
source_delay_run = refl

source_delay-IsTime_example :
    IsTime (source_delay fixed 18 4 (5 * 2 ^ 52))
    × ((source_delay fixed 18 4 (5 * 2 ^ 52)).tv_sec ≡ vary fixed 18 4 (5 * 2 ^ 52) / one)
    × (vary fixed 18 4 (5 * 2 ^ 52) ≤ 2 ^ 53 * one)
source_delay-IsTime_example = source_delay-IsTime fixed 18 4 (5 * 2 ^ 52) tt (omega arith)
