-- ===== src/Perf/Report.antt =====
-- The times in the line of epThread.
use wfey.Config.{Config}
use wfey.System.{System}
