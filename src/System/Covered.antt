-- ===== src/System/Covered.antt =====
-- The events of the builds with a doorbell on their way to the processor: `doorbell_press` comes after
-- `source_event_activate`, and `doorbell_isPressedAndReset` before the scan.
use wfey.Prelude.{ℕ, ◌+◌, ◌≤◌, ◌<◌, ◌≡◌, ◌≢◌, ◌⊎◌, refl, true, Bool, Option, arith}
use wfey.Clock.{Ts}
use wfey.Config.{Config}
use wfey.Source.Stats.{init_source-Accounts}
use wfey.Source.{Source, active, account}
use wfey.System.{
  EpPc, test, scan, work, stamp, store, tally, SrcPc, check, press, System, Action, ep, src, wake,
  stop_ep, stop_src, ep_step, src_step, step, launch, Reach, launched, next,
}

-- The processor has still to look at source `i`, or to reset it, before it is back at its test.
abbrev pub Ahead : EpPc → ℕ → Type 0
Ahead (scan j) i = j ≤ i
Ahead (work j) i = j ≤ i
Ahead (stamp j) i = j ≤ i
Ahead (store j) i = j ≤ i
Ahead (tally j) i = j < i
Ahead _ i = ⊥

-- An active event is about to be signalled, or its signal stands, or it will be looked at.
abbrev pub IsCovered : System → ℕ → Type 0
IsCovered s i =
    (s.sources i).state ≡ active → (s.src_pc i ≡ press) ⊎ (s.hw.db ≢ 0) ⊎ Ahead s.ep.pc i

pub state-account : (s : Source) → (account s).state ≡ s.state
unfolding account
state-account s = ground arith

module _ (c : Config) (n : ℕ) (bell : c.use_doorbell ≡ true) where
  ep_step-IsCovered :
      (p : EpPc) (now : Option Ts) (s : System) (i : ℕ)
      → s.ep.pc ≡ p
      → i < n
      → IsCovered s i
      → IsCovered (ep_step c n p now s) i
  unfolding ep_step
  ep_step-IsCovered test now s i e h cov = ground (arith)
  ep_step-IsCovered (tally j) now s i e h cov = ground (arith, state-account (s.sources j))
  ep_step-IsCovered p now s i e h cov = ground arith

  src_step-IsCovered :
      (p : SrcPc) (j : ℕ) (now : Option Ts) (slept : Bool) (s : System) (i : ℕ)
      → s.src_pc j ≡ p
      → IsCovered s i
      → IsCovered (src_step c n p j now slept s) i
  unfolding src_step
  src_step-IsCovered check j now slept s i e cov = ground arith
  src_step-IsCovered p j now slept s i e cov = ground arith

  step-IsCovered :
      (a : Action) (s : System) (i : ℕ) → i < n → IsCovered s i → IsCovered (step c n a s) i
  unfolding step
  step-IsCovered (ep now) s i h cov = ep_step-IsCovered s.ep.pc now s i refl h cov
  step-IsCovered (src j now slept) s i h cov =
      ground (arith, src_step-IsCovered (s.src_pc j) j now slept s i refl cov)
  step-IsCovered wake s i h cov = ground arith
  step-IsCovered stop_ep s i h cov = ground arith
  step-IsCovered (stop_src j) s i h cov = ground arith

launch-IsCovered :
    (c : Config) (now : Option Ts) (raw : System) (i : ℕ) → IsCovered (launch c now raw) i
unfolding launch
launch-IsCovered c now raw i e =
    ground (arith, (init_source-Accounts (i + 1) now (raw.sources i)).1)

-- In a build with a doorbell, in every state that can be reached, an event that is active is not
-- forgotten: its source is about to press the doorbell, or the doorbell is pressed, or the processor's scan
-- has still to reach it.
pub Reach-IsCovered :
    {c : Config} {n : ℕ} {s : System}
    → c.use_doorbell ≡ true
    → Reach c n s
    → (i : ℕ) → i < n
    → IsCovered s i
Reach-IsCovered {c} bell (launched now raw) i h = launch-IsCovered c now raw i
Reach-IsCovered {c} {n} bell (next {s} r a) i h =
    step-IsCovered c n bell a s i h (Reach-IsCovered bell r i h)
