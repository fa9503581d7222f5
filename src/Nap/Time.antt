-- ===== src/Nap/Time.antt =====
-- How long a nap lasts.
use wfey.Prelude.{ℕ, ◌+◌, ◌≤◌, ◌<◌, ◌≡◌, refl, Bool, true, false, List, [], ◌∷◌, length, arith}
use wfey.Clock.{Ts, nsec_in_second, to_ns}
use wfey.Nap.{Wakeup, ran, signal, IsTime, Sleeper, nap, no_time}

-- Signals after some nanoseconds each, while the end flag is not set; then the sleep runs to its end.
abbrev pub through : List ℕ → Bool → List (Wakeup × Bool)
through [] end_flag = (ran, end_flag) ∷ []
through (elapsed ∷ signals) end_flag = (signal elapsed, false) ∷ through signals end_flag

abbrev pub sum : List ℕ → ℕ
sum [] = 0
sum (x ∷ xs) = x + sum xs

-- The time that a thread is asleep, by the times that it asks for and the ways in which its sleeps end.
abbrev pub time_asleep : List Ts → List (Wakeup × Bool) → ℕ
time_asleep (t ∷ ts) ((ran, _) ∷ ws) = to_ns t
time_asleep (t ∷ ts) ((signal elapsed, _) ∷ ws) = elapsed + time_asleep ts ws
time_asleep _ _ = 0

module _ (k : Sleeper) where
  -- Signals do not change how long a source sleeps: while its end flag is not set, whatever number of them ends its sleep early, it
  -- asks for the rest again, and the sleeps add up to the delay. Then the loop is left.
  pub nap-time :
      (signals : List ℕ) (end_flag : Bool) (delay nrem : Ts)
      → IsTime delay
      → sum signals < to_ns delay
      → ((nap k (through signals end_flag) delay nrem).over ≡ true)
        × (time_asleep
              (nap k (through signals end_flag) delay nrem).asked
              (through signals end_flag)
            ≡ to_ns delay)
        × (length (nap k (through signals end_flag) delay nrem).asked ≡ length signals + 1)
  unfolding nap
  nap-time [] end_flag delay nrem t h = rw (k.whole delay t) (refl, refl, refl)
  nap-time (elapsed ∷ signals) end_flag delay nrem t h =
      let (rem, answer, valid, left) = k.partial delay elapsed t (omega arith) in
      let (over, asleep, asked) = nap-time signals end_flag rem rem valid (omega arith) in
      rw answer (over, omega arith, omega arith)

  -- A delay with a second's nanoseconds or more is no time for `nanosleep`. Where `nrem` holds zeros, as at first, and the end flag
  -- is not set behind the refusal, a nap asks once for such a delay and then for the zeros, and when no signal ends that sleep it is
  -- over, with `nrem` as it was.
  pub nap-refused :
      (delay : Ts) (w : Wakeup) (end_flag : Bool) (rest : List (Wakeup × Bool))
      → nsec_in_second ≤ delay.tv_nsec
      → nap k ((w, false) ∷ (ran, end_flag) ∷ rest) delay no_time
        ≡ record { asked = delay ∷ no_time ∷ []; over = true; nrem = no_time }
  unfolding nap
  nap-refused delay w end_flag rest h =
      rw
        (
          k.refuses delay w h,
          k.whole no_time record { fraction = omega arith; positive = omega arith },
        )
        refl
