-- ===== src/BasicTests.antt =====
-- The loops of basic_tests: busy.c, sev.c and wfe.c. The last two run on cores of their own.
use wfey.Prelude.{
  ℕ, ◌+◌, ◌≤◌, Bool, true, false, Option, none, some, List, [], ◌∷◌, ◌==◌, if◌then◌else◌, arith,
}
use wfey.Signal.{Hardware, sev, wfe}

-- `while (!val)` over what the reads of `val` give, and what `main` returns; none while it is in its loop.
unfoldable pub busy : List ℕ → Option ℕ
busy [] = none
busy (val ∷ reads) = if val == 0 then busy reads else some 1

-- The core that waits, and how often the bodies of the two endless loops were run.
pub record Bench : Type 0 where
  pub hw : Hardware
  pub sevs : ℕ
  pub wfes : ℕ

-- A round of sev.c; a try of wfe.c to end its `wfe`; an event from outside the tests.
pub data Round : Type 0 where
  send : Round
  wait : Round
  outside : Round

unfoldable pub round : Round → Bench → Bench
unfolding sev wfe
round send b = record b { hw = sev b.hw; sevs = b.sevs + 1 }
round wait b = elim (wfe b.hw) [ none ↦ b | some hw ↦ record b { hw = hw; wfes = b.wfes + 1 } ]
round outside b = record b { hw = sev b.hw }

unfoldable pub rounds : List Round → Bench → Bench
unfolding round
rounds [] b = b
rounds (r ∷ rs) b = rounds rs (round r b)

abbrev pub outsides : List Round → ℕ
outsides [] = 0
outsides (outside ∷ rs) = outsides rs + 1
outsides (_ ∷ rs) = outsides rs

abbrev pub bit : Bool → ℕ
bit true = 1
bit false = 0

rounds-balance :
    (rs : List Round) (b : Bench)
    → (rounds rs b).wfes + bit (rounds rs b).hw.event_register + b.sevs
      ≤ b.wfes + bit b.hw.event_register + (rounds rs b).sevs + outsides rs
unfolding rounds
rounds-balance [] b = omega arith
rounds-balance (send ∷ rs) b = ground (arith, rounds-balance rs (round send b))
rounds-balance (wait ∷ rs) b = ground (arith, rounds-balance rs (round wait b))
rounds-balance (outside ∷ rs) b = ground (arith, rounds-balance rs (round outside b))
