-- ===== src/Tests/Sources.antt =====
-- The clock and a source's latencies at concrete inputs.
use wfey.Prelude.{◌+◌, ◌≡◌, refl, false, some, List, [], ◌∷◌, arith}
use wfey.Prelude.Int.{pos}
use wfey.Clock.{Ts, ts_diff, word}
use wfey.Source.{Source, reset, active, source_event_reset}
use wfey.Source.Stats.{Accounts, source_event_reset-Accounts}
use wfey.Main.Report.{latencies}

abbrev early : Ts
early = record { tv_sec = 3; tv_nsec = 999_999_990 }

abbrev late : Ts
late = record { tv_sec = 4; tv_nsec = 15 }

abbrev later : Ts
later = record { tv_sec = 4; tv_nsec = 20 }

-- The nanoseconds borrow from the seconds.
ts_diff_runs : (ts_diff early late ≡ 25) × (ts_diff late early + 25 ≡ word)
unfolding ts_diff
ts_diff_runs = (refl, refl)

abbrev running : Source
running = record {
  ep = 0;
  id = 1;
  work_type = pos 2;
  end_flag = false;
  start_ts = early;
  end_ts = early;
  totalns = 100;
  minns = 40;
  maxns = 60;
  count = 2;
  state = active;
}

source_event_reset-Accounts_example :
    ((source_event_reset (some late) running).state ≡ reset)
    × Accounts (source_event_reset (some late) running) (25 ∷ 40 ∷ 60 ∷ [])
source_event_reset-Accounts_example =
    source_event_reset-Accounts running (40 ∷ 60 ∷ []) late
      (record { counted = refl; summed = refl; shortest = refl; longest = refl }) (omega arith)
      (omega arith)

-- Two events of 25 and 5 ns, and one that the clock put backwards.
abbrev events : List (Ts × Ts)
events = (early, late) ∷ (late, later) ∷ (late, early) ∷ []

latencies_run : latencies events [] ≡ 5 ∷ 25 ∷ []
unfolding latencies
latencies_run = refl
