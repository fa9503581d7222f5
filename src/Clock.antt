-- ===== src/Clock.antt =====
-- include/common.h: `ts_t`, `ts_now`, `ts_diff` and `NSEC_IN_SECOND`.
-- A `time_t` or a `long` is its 64-bit pattern, a number below 2 ^ 64.
use wfey.Prelude.{
  ℕ, ◌+◌, ◌-◌, ◌*◌, ◌%◌, ◌^◌, ◌<◌, ◌≡◌, Option, none, some, arith, ltb, if◌then◌else◌,
}

abbrev pub word : ℕ
word = 2 ^ 64

abbrev pub nsec_in_second : ℕ
nsec_in_second = 1_000_000_000

-- `struct timespec`
pub record Ts : Type 0 where
  pub tv_sec : ℕ
  pub tv_nsec : ℕ

-- The clock's answer is an argument: `none` where `clock_gettime` fails, and then nothing is written.
unfoldable pub ts_now : Option Ts → Ts → Ts
ts_now none ts = ts
ts_now (some now) ts = now

-- `a - b` on 64 bits
abbrev pub sub_64 : ℕ → ℕ → ℕ
sub_64 a b = (a + word - b % word) % word

unfoldable pub ts_diff : Ts → Ts → ℕ
ts_diff start end =
    (sub_64 end.tv_sec start.tv_sec * nsec_in_second + sub_64 end.tv_nsec start.tv_nsec) % word

-- The instant that a timespec stands for, in nanoseconds.
abbrev pub to_ns : Ts → ℕ
to_ns t = t.tv_sec * nsec_in_second + t.tv_nsec

-- A value that `clock_gettime` gives: the nanoseconds are a fraction of a second, and the instant fits an
-- `int64_t` of nanoseconds.
pub record IsClock (t : Ts) : Type 0 where
  pub fraction : t.tv_nsec < nsec_in_second
  pub fits : to_ns t < 2 ^ 63

-- For two instants of the clock, `ts_diff` is the nanoseconds from the first to the second if that is
-- not before it, and otherwise 2 ^ 64 less the nanoseconds back, the negative number's pattern.
pub ts_diff-eq :
    (start end : Ts)
    → IsClock start
    → IsClock end
    → ts_diff start end + to_ns start
      ≡ (if ltb (to_ns end) (to_ns start) then word + to_ns end else to_ns end)
unfolding ts_diff
ts_diff-eq start end hs he = ground arith
