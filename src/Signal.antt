-- ===== src/Signal.antt =====
-- The signals of include/wfey.h between the cores: the doorbell, `SEV`, `WFE` and `armMonitor`.
-- The event register and the exclusive monitor are those of the event processor's core, as the Arm
-- architecture describes them: `SEV` sets the register; `WFE` ends at once if it is set, and clears it, and
-- else waits; a store by another core to the monitored address opens the monitor and sets the register.
-- The processor's own accesses leave its monitor alone.
use wfey.Prelude.{ℕ, Bool, true, false, Option, none, some, if◌then◌else◌}

-- What an address of the program points to: the doorbell of the processor's `eventSignal`, or a slot of
-- the processor thread's own stack.
pub data Loc : Type 0 where
  doorbell : Loc
  stack : Loc

pub record Hardware : Type 0 where
  pub db : ℕ
  pub event_register : Bool
  pub monitor : Option Loc

abbrev pub doorbell_pressed : ℕ
doorbell_pressed = 1

abbrev pub watches_doorbell : Option Loc → Bool
watches_doorbell (some doorbell) = true
watches_doorbell (some stack) = false
watches_doorbell none = false

-- The exchange returns the old value.
unfoldable pub doorbell_is_pressed_and_reset : Hardware → ℕ × Hardware
doorbell_is_pressed_and_reset hw = (hw.db, record hw { db = 0 })

unfoldable pub doorbell_reset : Hardware → Hardware
doorbell_reset hw = record hw { db = 0 }

-- The store comes from a source's core.
unfoldable pub doorbell_press : Hardware → Hardware
doorbell_press hw =
    if watches_doorbell hw.monitor
    then record { db = doorbell_pressed; event_register = true; monitor = none }
    else record hw { db = doorbell_pressed }

unfoldable pub sev : Hardware → Hardware
sev hw = record hw { event_register = true }

-- `none` while the core waits.
unfoldable pub wfe : Hardware → Option Hardware
wfe hw = if hw.event_register then some (record hw { event_register = false }) else none

-- The load is from `[%1]` with `"r" (&addr)`: from the slot that holds the parameter `addr`, not from
-- the address that the parameter is.
unfoldable pub arm_monitor : Loc → Hardware → Hardware
arm_monitor addr hw = record hw { monitor = some stack }
