-- ===== src/Tests/Reports.antt =====
-- A line of the report at the end of a run.
use wfey.Prelude.{true, List, [], ◌∷◌}
use wfey.Config.{busypoll_db}
use wfey.System.{System, Action, ep, src, run}
use wfey.Tests.Runs.{at_ns, begin}

-- Source 0 makes its event active at 10 and rings; the processor stamps its end at 35; while it adds up, the source starts anew.
abbrev measured_once : List Action
measured_once =
    src 0 (at_ns 8) true
    ∷ src 0 (at_ns 9) true
    ∷ src 0 (at_ns 10) true
    ∷ src 0 (at_ns 11) true
    ∷ src 0 (at_ns 12) true
    ∷ ep (at_ns 13)
    ∷ ep (at_ns 14)
    ∷ ep (at_ns 15)
    ∷ ep (at_ns 16)
    ∷ ep (at_ns 35)
    ∷ ep (at_ns 36)
    ∷ src 0 (at_ns 37) true
    ∷ ep (at_ns 38)
    ∷ []

abbrev at_the_end : System
at_the_end = run busypoll_db 2 measured_once (begin busypoll_db)
