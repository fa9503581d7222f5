-- ===== src/Tests/Perfs.antt =====
-- A run of the processor up to its line, and a report of the counters.
use wfey.Prelude.{
  true, false, ℕ, ◌≡◌, refl, some, ℕ_discrete, List, [], ◌∷◌, get_elem?, ◌>>=?◌, none, ◌==◌,
  if◌then◌else◌, arith,
}
use wfey.Clock.{Ts}
use wfey.Config.{wfe_db_nomon}
use wfey.System.{System, Action, ep, wake, stop_ep, run, launch}
use wfey.Perf.Session.{
  Kernel, Run, exit, go, Call, perf_event_open, get_id, reset, enable, count_events,
}
use wfey.Perf.Protocol.{fresh, stopped, Follows}
use wfey.Perf.Protocol.Kept.{count_events-Follows}
use wfey.Prelude.Int.{pos, negsuc}
use wfey.Perf.{Names, Attr, configure_perf_event, Reported, read_counters}
use wfey.Perf.Counters.{value_of, all_calls, count_events-placed}
use wfey.Tests.Runs.{raw}

abbrev nanos : ℕ → Ts
nanos n = record { tv_sec = 0; tv_nsec = n }

-- A wait from 2 to 20, a wakeup for nothing, and the end at 30.
abbrev to_the_end : List Action
to_the_end =
    ep (some (nanos 2))
    ∷ wake
    ∷ stop_ep
    ∷ ep (some (nanos 20))
    ∷ ep (some (nanos 20))
    ∷ ep (some (nanos 30))
    ∷ []

abbrev ended : System
ended = run wfe_db_nomon 2 to_the_end (launch wfe_db_nomon (some (nanos 1)) raw)

-- A report in the other order than that of the counters.
abbrev other_way_round : List Reported
other_way_round = record { value = 900; id = 8 } ∷ record { value = 500; id = 7 } ∷ []

swapped :
    ◌>>=?◌ {B = ℕ × ℕ}
      (read_counters (7 ∷ 8 ∷ []) other_way_round)
      (λ pe_val. some (pe_val 0, pe_val 1))
    ≡ some (900, 500)
unfolding read_counters ℕ_discrete
swapped = refl

abbrev names : Names
names = record {
  perf_type_hardware = 0;
  perf_count_hw_cpu_cycles = 0;
  perf_count_hw_instructions = 1;
  attr_size = 136;
  group_format = 31;
}

abbrev cycles : Attr
cycles = configure_perf_event names 10 0x11

abbrev instructions : Attr
instructions = configure_perf_event names 10 0x8

-- The descriptors 5 and 6 with the ids 7 and 8.
abbrev kernel : Kernel
kernel = record {
  descriptor = get_elem? (5 ∷ 6 ∷ []);
  id = λ fd. if fd == 5 then some 7 else if fd == 6 then some 8 else none;
  reset_ok = true;
  enable_ok = true;
  disable_ok = true;
  results = some other_way_round;
  raw_id = λ i. 0;
  raw_results = [];
}

abbrev calls_of : {A : Type 0} → Run A → List Call
calls_of (exit calls) = calls
calls_of (go calls a) = calls

-- The kernel does not enable the group.
not_enabled :
    calls_of (count_events (record kernel { enable_ok = false }) cycles (instructions ∷ []))
    ≡ perf_event_open cycles (negsuc 0) (some 5)
      ∷ get_id 5
      ∷ perf_event_open instructions (pos 5) (some 6)
      ∷ get_id 6
      ∷ reset 5
      ∷ enable 5
      ∷ []
unfolding count_events
not_enabled = refl

count_events-Follows_example :
    Follows
      record { fds = []; phase = fresh }
      (count_events kernel cycles (instructions ∷ []))
      (λ _. record { fds = []; phase = stopped })
count_events-Follows_example = count_events-Follows kernel cycles (instructions ∷ [])

count_events-placed_example :
    (pe_val : ℕ → ℕ) × (count_events kernel cycles (instructions ∷ [])
      ≡ go (all_calls cycles instructions 5 6) (some pe_val))
    × ((j : ℕ) → pe_val j ≡ value_of (7 ∷ 8 ∷ []) (get_elem? other_way_round j))
count_events-placed_example =
    count_events-placed kernel cycles instructions refl refl refl refl refl refl refl refl
      (omega arith)
