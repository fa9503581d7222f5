-- ===== src/Nap.antt =====
-- The sleep of a source: the loop over `nanosleep` in sourceThread of wfey.c, and the delay that it is given (Nap/Delay).
-- `nanosleep` is an argument, the end flag is read anew in each round.
pub mod Double
pub mod Delay
pub mod Time
pub mod Valid
use wfey.Prelude.{
  ℕ, ◌+◌, ◌-◌, ◌≤◌, ◌<◌, ◌^◌, ◌≡◌, Bool, true, false, ◌||◌, List, [], ◌∷◌, ◌++◌, if◌then◌else◌,
}
use wfey.Clock.{Ts, nsec_in_second, to_ns}

-- What `nanosleep` answers: 0; or -1, with the time that was left where a signal has ended the sleep, and nothing written
-- where the time asked for is none.
pub data Answer : Type 0 where
  slept : Answer
  interrupted : Ts → Answer
  refused : Answer

-- How a sleep ends: by itself, or by a signal after some nanoseconds.
pub data Wakeup : Type 0 where
  ran : Wakeup
  signal : ℕ → Wakeup

-- The times that `nanosleep` takes: what POSIX asks for.
pub record IsTime (t : Ts) : Type 0 where
  pub fraction : t.tv_nsec < nsec_in_second
  pub positive : t.tv_sec < 2 ^ 63

-- `nanosleep`, as POSIX describes it.
pub record Sleeper : Type 0 where
  pub nanosleep : Ts → Wakeup → Answer
  pub whole : (t : Ts) → IsTime t → nanosleep t ran ≡ slept
  pub partial :
      (t : Ts) (elapsed : ℕ)
      → IsTime t
      → elapsed < to_ns t
      → (rem : Ts) × (nanosleep t (signal elapsed) ≡ interrupted rem)
        × IsTime rem
        × (to_ns rem + elapsed ≡ to_ns t)
  pub refuses : (t : Ts) (w : Wakeup) → nsec_in_second ≤ t.tv_nsec → nanosleep t w ≡ refused

-- A nap: the times that were asked for, whether the loop is left, and what `nrem` holds then.
pub record Nap : Type 0 where
  pub asked : List Ts
  pub over : Bool
  pub nrem : Ts

module _ (k : Sleeper) where
  abbrev pub rest_of : Answer → Ts → Ts
  rest_of (interrupted rem) nrem = rem
  rest_of _ nrem = nrem

  abbrev pub is_slept : Answer → Bool
  is_slept slept = true
  is_slept _ = false

  abbrev pub ask : Ts → Nap → Nap
  ask t nap = record nap { asked = t ∷ nap.asked }

  -- `while (nanosleep(&ndelay,&nrem)<0) { if (this->end_flag) break; ndelay = nrem; }`, over how each sleep ends and what the end
  -- flag is behind it; where the list ends, the thread is still asleep.
  unfoldable pub nap : List (Wakeup × Bool) → Ts → Ts → Nap
  nap [] ndelay nrem = record { asked = ndelay ∷ []; over = false; nrem = nrem }
  nap ((w, end_flag) ∷ rest) ndelay nrem =
      let answer = k.nanosleep ndelay w in
      let left = rest_of answer nrem in
      let more = nap rest left left in
      if is_slept answer || end_flag
      then record { asked = ndelay ∷ []; over = true; nrem = left }
      else ask ndelay more

-- `nrem` at first.
abbrev pub no_time : Ts
no_time = record { tv_sec = 0; tv_nsec = 0 }
