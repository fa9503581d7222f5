-- ===== src/Source.antt =====
-- An event source: `struct Source` of include/wfey.h, and `source_event_activate`,
-- `source_event_isActive` and `source_event_reset` of wfey.c. The thread id, the sleep time and the
-- pointer to the work function (a function of `work_type`, in `Work`) are not kept here.
pub mod Stats
use wfey.Prelude.{
  ℕ, ◌+◌, ◌-◌, ◌%◌, ◌^◌, Bool, true, false, ◌||◌, Option, ltb, leb, ◌==◌, if◌then◌else◌,
}
use wfey.Prelude.Int.{ℤ}
use wfey.Clock.{word, Ts, ts_now, ts_diff}

-- `enum SourceEventState`, the values that `event.state` is given
pub data EventState : Type 0 where
  reset active : EventState

pub record Source : Type 0 where
  pub ep : ℕ
  pub id : ℕ
  pub work_type : ℤ
  pub end_flag : Bool
  pub start_ts : Ts
  pub end_ts : Ts
  pub totalns : ℕ
  pub minns : ℕ
  pub maxns : ℕ
  pub count : ℕ
  pub state : EventState

abbrev pub is_active : EventState → Bool
is_active reset = false
is_active active = true

-- The shared accesses of the two functions, one by one.
unfoldable pub stamp_start : Option Ts → Source → Source
stamp_start now s = record s { start_ts = ts_now now s.start_ts }

unfoldable pub stamp_end : Option Ts → Source → Source
stamp_end now s = record s { end_ts = ts_now now s.end_ts }

unfoldable pub store_state : EventState → Source → Source
store_state st s = record s { state = st }

unfoldable pub source_event_activate : Option Ts → Source → Source
unfolding stamp_start store_state
source_event_activate now s = store_state active (stamp_start now s)

unfoldable pub source_event_is_active : Source → Bool
source_event_is_active s = is_active s.state

-- The test `(int64_t)ns <= 0`, on the pattern of `ns`.
abbrev pub not_positive : ℕ → Bool
not_positive ns = ns == 0 || leb (2 ^ 63) ns

-- What `source_event_reset` does after its store.
unfoldable pub account : Source → Source
account s =
    let ns = ts_diff s.start_ts s.end_ts in
    if not_positive ns then s else record s {
      totalns = (s.totalns + ns) % word;
      count = (s.count + 1) % word;
      minns = if ltb ns s.minns then ns else s.minns;
      maxns = if ltb s.maxns ns then ns else s.maxns;
    }

unfoldable pub source_event_reset : Option Ts → Source → Source
unfolding stamp_end store_state account
source_event_reset now s = account (store_state reset (stamp_end now s))

-- The body of the first source loop of `main`: the memory that `malloc` gave is `raw`.
unfoldable pub init_source : ℕ → Option Ts → Source → Source
unfolding source_event_reset
init_source id now raw =
    let s = source_event_reset now (record raw { id = id }) in
    record s { totalns = 0; minns = word - 1; maxns = 0; count = 0 }
