-- ===== src/Nap/Delay.antt =====
-- How sourceThread of wfey.c makes its delay of the time between two events that `main` has set: a random part more or less, and
-- the seconds apart.
use wfey.Prelude.{ℕ, ◌+◌, ◌%◌, ◌==◌, if◌then◌else◌}
use wfey.Clock.{Ts, nsec_in_second}
use wfey.Nap.Double.{Doubles}

-- DELAYADD
abbrev pub delay_add : ℕ
delay_add = 10

module _ (d : Doubles) where
  open d use {Double, of_int, plus, minus, times, over, ge, to_int}

  -- `srcsleep` of `main`; the rate is a `double`, and the number of sources is positive.
  unfoldable pub source_sleep : Double → ℕ → Double
  source_sleep event_rate num_sources = over (of_int 1) (over event_rate (of_int num_sources))

  -- The random part, for two answers of `rand()`.
  unfoldable pub vary : ℕ → ℕ → Double → Double
  vary rand rand' delay =
      let mod_perc = over (of_int (rand % (delay_add + 1))) (of_int 100) in
      let delay_modifier = times delay mod_perc in
      if rand' % 2 == 0 then plus delay delay_modifier else minus delay delay_modifier

  -- `thedelay`.
  unfoldable pub split_delay : Double → Ts
  split_delay delay =
      if ge delay (of_int 1)
      then record {
        tv_sec = to_int delay;
        tv_nsec = to_int (times (minus delay (of_int (to_int delay))) (of_int nsec_in_second));
      }
      else record { tv_sec = 0; tv_nsec = to_int (times delay (of_int nsec_in_second)) }

  unfoldable pub source_delay : ℕ → ℕ → Double → Ts
  unfolding vary split_delay
  source_delay rand rand' sleep = split_delay (vary rand rand' sleep)
