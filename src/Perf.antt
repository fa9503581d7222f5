-- ===== src/Perf.antt =====
-- The performance counters of include/perf.h, as epThread of wfey.c sets them up and reads them (WITHPERF is 2), and the line that it
-- prints. The kernel's constants and answers are arguments. What it does with a
-- `double` is an argument.
pub mod Counters
pub mod Report
pub mod Session
pub mod Protocol
use wfey.Prelude.{
  ℕ, zero, suc, ◌+◌, ◌%◌, ◌^◌, Bool, true, false, Option, none, some, List, [], ◌∷◌, ◌++◌, ltb,
  ◌==◌, if◌then◌else◌, update, ◌>>=?◌, length,
}
use wfey.Prelude.Int.{ℤ, pos, negsuc, sub_ℕ}
use wfey.Clock.{word, sub_64}
use wfey.System.{Ep}
use wfey.Nap.Double.{Doubles}

-- The names of linux/perf_event.h that the code uses, and the size of `struct perf_event_attr`.
pub record Names : Type 0 where
  pub perf_type_hardware : ℕ
  pub perf_count_hw_cpu_cycles : ℕ
  pub perf_count_hw_instructions : ℕ
  pub attr_size : ℕ
  pub group_format : ℕ  -- the five flags of `read_format`, joined

-- The fields of `struct perf_event_attr` that are set; the others are 0.
pub record Attr : Type 0 where
  pub type : ℕ
  pub size : ℕ
  pub config : ℕ
  pub read_format : ℕ
  pub disabled : Bool
  pub exclude_kernel : Bool

abbrev pub total_perf_events : ℕ
total_perf_events = 2

unfoldable pub configure_perf_event : Names → ℕ → ℕ → Attr
configure_perf_event names type config = record {
  type = type;
  size = names.attr_size;
  config = config;
  read_format = names.group_format;
  disabled = true;
  exclude_kernel = true;
}

-- The two events; `beast` is the macro BEAST.
unfoldable pub events : Names → Bool → List Attr
unfolding configure_perf_event
events names true =
    configure_perf_event names names.perf_type_hardware names.perf_count_hw_cpu_cycles
    ∷ configure_perf_event names names.perf_type_hardware names.perf_count_hw_instructions
    ∷ []
events names false = configure_perf_event names 10 0x11 ∷ configure_perf_event names 10 0x8 ∷ []

-- An entry of `values` in `struct read_format`.
pub record Reported : Type 0 where
  pub value : ℕ
  pub id : ℕ

-- The loop over `j`: the value is stored at `i` for each id that it has.
unfoldable pub match_ids : List ℕ → ℕ → Reported → (ℕ → ℕ) → ℕ → ℕ
match_ids [] i r pe_val = pe_val
match_ids (id ∷ pe_id) i r pe_val =
    match_ids pe_id i r (if r.id == id then update pe_val i r.value else pe_val)

-- The loop over `i`, over what the kernel reports. `none`: an access behind the end of `values`.
unfoldable pub match_counters : List ℕ → ℕ → List Reported → (ℕ → ℕ) → Option (ℕ → ℕ)
unfolding match_ids
match_counters pe_id i [] pe_val = some pe_val
match_counters pe_id i (r ∷ results) pe_val =
    let rest = match_counters pe_id (i + 1) results (match_ids pe_id i r pe_val) in
    if ltb i total_perf_events then rest else none

-- `pe_val` behind the loops, from the zeros of `memset`.
unfoldable pub read_counters : List ℕ → List Reported → Option (ℕ → ℕ)
unfolding match_counters
read_counters pe_id results = match_counters pe_id 0 results (λ i. 0)

abbrev pub usec_in_second : ℕ
usec_in_second = 1_000_000

-- The line that `epThread` prints.
pub record EpRow (Double : Type 0) : Type 0 where
  pub id : ℕ
  pub core : ℕ
  pub start_energy : Double
  pub end_energy : Double
  pub energy_diff : Double
  pub total_wakeups : ℕ
  pub spurious_wakeups : ℕ
  pub events : ℕ
  pub active_cycles : ℕ
  pub inactive_cycles : ℕ
  pub cycle_diff : ℕ
  pub cpu_cycles : ℕ
  pub instructions_retired : ℕ

module _ (d : Doubles) where
  abbrev pub in_seconds : d.Double → d.Double
  in_seconds energy = d.over energy (d.of_int usec_in_second)

  unfoldable pub ep_report : ℕ → ℕ → d.Double → d.Double → (ℕ → ℕ) → Ep → EpRow d.Double
  ep_report id core start_energy end_energy pe_val e = record {
    id = id;
    core = core;
    start_energy = in_seconds start_energy;
    end_energy = in_seconds end_energy;
    energy_diff = d.minus (in_seconds end_energy) (in_seconds start_energy);
    total_wakeups = e.wakeups;
    spurious_wakeups = e.spurious;
    events = e.events;
    active_cycles = e.active_total;
    inactive_cycles = e.inactive_total;
    cycle_diff = sub_64 e.active_total e.inactive_total;
    cpu_cycles = pe_val 0;
    instructions_retired = pe_val 1;
  }
