-- ===== src/Main/Report/Runs.antt =====
-- The report of main, over a run of the processor and the sources in any order of their steps.
use wfey.Config.{Config}
use wfey.System.{System}
