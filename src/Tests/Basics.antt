-- ===== src/Tests/Basics.antt =====
-- Rounds of basic_tests.
use wfey.Prelude.{◌≡◌, refl, false, none, some, [], ◌∷◌}
use wfey.BasicTests.{Bench, send, wait, outside, rounds, busy}

abbrev bench : Bench
bench = record {
  hw = record { db = 0; event_register = false; monitor = none };
  sevs = 0;
  wfes = 0;
}

-- Three `sev`s in a row end one `wfe`.
sends_in_a_row :
    let b = rounds (wait ∷ send ∷ send ∷ send ∷ wait ∷ wait ∷ outside ∷ wait ∷ []) bench in
    (b.sevs ≡ 3) × (b.wfes ≡ 2)
unfolding rounds
sends_in_a_row = (refl, refl)

busy_run : (busy (0 ∷ 0 ∷ []) ≡ none) × (busy (0 ∷ 5 ∷ []) ≡ some 1)
unfolding busy
busy_run = (refl, refl)
