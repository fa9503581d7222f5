-- ===== src/Config.antt =====
-- The macros that choose a build of wfey.c: BUSY_POLL, USE_DOORBELL and USE_MONITOR, as the five
-- targets of the Makefile set them.
use wfey.Prelude.{Bool, true, false}

pub record Config : Type 0 where
  pub busy_poll : Bool
  pub use_doorbell : Bool
  pub use_monitor : Bool

abbrev pub busypoll_nodb : Config
busypoll_nodb = record { busy_poll = true; use_doorbell = false; use_monitor = false }

abbrev pub busypoll_db : Config
busypoll_db = record { busy_poll = true; use_doorbell = true; use_monitor = false }

abbrev pub wfe_nodb : Config
wfe_nodb = record { busy_poll = false; use_doorbell = false; use_monitor = false }

abbrev pub wfe_db_nomon : Config
wfe_db_nomon = record { busy_poll = false; use_doorbell = true; use_monitor = false }

abbrev pub wfe_db_mon : Config
wfe_db_mon = record { busy_poll = false; use_doorbell = true; use_monitor = true }
