-- ===== src/System/Mailbox.antt =====
-- The events of the sources as an abstract mailbox: a source raises its event, and the processor takes an event that is raised.
-- `ep_step` and `src_step` keep to it, in every build.
use wfey.Prelude.{
  ℕ, ◌+◌, ◌≤◌, ◌<◌, ◌≡◌, refl, Bool, true, false, ◌&&◌, Option, List, [], ◌∷◌, ltb, ◌==◌,
  if◌then◌else◌, update, arith, Bool-cases, inl, inr,
}
pub mod Counts
pub mod Delivery
pub mod Prompt
pub mod Settled
use mathlib.Core.Path.{fun_ext}
use wfey.Clock.{Ts}
use wfey.Config.{Config}
use wfey.Source.Stats.{init_source-Accounts}
use wfey.Source.{Source, reset, active, is_active, account}
use wfey.System.Covered.{state-account}
use wfey.System.Inactive.{ep-src_step}
use wfey.System.{
  EpPc, test, nap, scan, work, stamp, store, tally, SrcPc, check, activate, press, System, Action,
  ep, src, wake, stop_ep, stop_src, ep_step, src_step, step, run, launch, Reach, launched, next,
}

abbrev pub Mailbox : Type 0
Mailbox = ℕ → Bool

pub data Move : Type 0 where
  quiet : Move
  raise : ℕ → Move
  receive : ℕ → Move

abbrev pub perform : Move → Mailbox → Mailbox
perform quiet m = m
perform (raise i) m = update m i true
perform (receive i) m = update m i false

-- An event is received only where it was raised.
abbrev pub IsAllowed : Move → Mailbox → Type 0
IsAllowed (receive i) m = m i ≡ true
IsAllowed _ m = Unit

abbrev pub mailbox : System → Mailbox
mailbox s i = is_active (s.sources i).state

abbrev pub ep_effect : EpPc → Move
ep_effect (store i) = receive i
ep_effect _ = quiet

abbrev pub src_effect : SrcPc → ℕ → Move
src_effect activate i = raise i
src_effect _ i = quiet

-- What an action comes to.
abbrev pub move_of : ℕ → System → Action → Move
move_of n s (ep now) = ep_effect s.ep.pc
move_of n s (src i now slept) = if ltb i n then src_effect (s.src_pc i) i else quiet
move_of n s _ = quiet

-- Up to its reset an event that the processor handles stays active.
abbrev pub Handles : EpPc → System → Type 0
Handles (work i) s = (s.sources i).state ≡ active
Handles (stamp i) s = (s.sources i).state ≡ active
Handles (store i) s = (s.sources i).state ≡ active
Handles _ s = Unit

unfoldable pub Held : System → Type 0
Held s = Handles s.ep.pc s

Handles-mono :
    (p : EpPc) (s t : System)
    → ((i : ℕ) → (s.sources i).state ≡ active → (t.sources i).state ≡ active)
    → Handles p s
    → Handles p t
Handles-mono (work i) s t keep h = keep i h
Handles-mono (stamp i) s t keep h = keep i h
Handles-mono (store i) s t keep h = keep i h
Handles-mono p s t keep h = tt

module _ (c : Config) (n : ℕ) where
  ep_step-Held :
      (p : EpPc) (now : Option Ts) (s : System)
      → s.ep.pc ≡ p
      → Handles p s
      → Held (ep_step c n p now s)
  unfolding ep_step Held
  ep_step-Held test now s e h = ground arith
  ep_step-Held (stamp i) now s e h = ground arith
  ep_step-Held p now s e h = ground arith

  pub src_step-active :
      (p : SrcPc) (j : ℕ) (now : Option Ts) (slept : Bool) (s : System) (i : ℕ)
      → (s.sources i).state ≡ active
      → ((src_step c n p j now slept s).sources i).state ≡ active
  unfolding src_step
  src_step-active check j now slept s i h = h
  src_step-active p j now slept s i h = ground arith

  pub step-Held : (a : Action) (s : System) → Held s → Held (step c n a s)
  unfolding step Held
  step-Held (ep now) s h = unfold Held in ep_step-Held s.ep.pc now s refl h
  step-Held (src j now slept) s h = elim (Bool-cases (ltb j n)) [
    | inl within ↦
        rw (within, ep-src_step c n (s.src_pc j) j now slept s)
          (Handles-mono s.ep.pc s (src_step c n (s.src_pc j) j now slept s)
            (src_step-active (s.src_pc j) j now slept s) h)
    | inr beyond ↦ rw beyond h
  ]
  step-Held wake s h = Handles-mono s.ep.pc s (step c n wake s) (λ i e. e) h
  step-Held stop_ep s h = Handles-mono s.ep.pc s (step c n stop_ep s) (λ i e. e) h
  step-Held (stop_src j) s h =
      Handles-mono s.ep.pc s (step c n (stop_src j) s) (λ i e. ground arith) h

  ep_step-perform :
      (p : EpPc) (now : Option Ts) (s : System) (i : ℕ)
      → mailbox (ep_step c n p now s) i ≡ perform (ep_effect p) (mailbox s) i
  unfolding ep_step
  ep_step-perform test now s i = ground arith
  ep_step-perform (tally j) now s i = ground (arith, state-account (s.sources j))
  ep_step-perform p now s i = ground arith

  src_step-perform :
      (p : SrcPc) (j : ℕ) (now : Option Ts) (slept : Bool) (s : System) (i : ℕ)
      → mailbox (src_step c n p j now slept s) i ≡ perform (src_effect p j) (mailbox s) i
  unfolding src_step
  src_step-perform check j now slept s i = ground arith
  src_step-perform p j now slept s i = ground arith

  pub step-perform :
      (a : Action) (s : System) (i : ℕ)
      → mailbox (step c n a s) i ≡ perform (move_of n s a) (mailbox s) i
  unfolding step
  step-perform (ep now) s i = ep_step-perform s.ep.pc now s i
  step-perform (src j now slept) s i = elim (Bool-cases (ltb j n)) [
    | inl within ↦ rw within (src_step-perform (s.src_pc j) j now slept s i)
    | inr beyond ↦ rw beyond refl
  ]
  step-perform wake s i = refl
  step-perform stop_ep s i = refl
  step-perform (stop_src j) s i = ground arith

  Reach-Held : {s : System} → Reach c n s → Held s
  Reach-Held (launched now raw) = unfold Held launch in tt
  Reach-Held (next {s} r a) = step-Held a s (Reach-Held r)

  src_effect-IsAllowed : (p : SrcPc) (i : ℕ) (m : Mailbox) → IsAllowed (src_effect p i) m
  src_effect-IsAllowed activate i m = tt
  src_effect-IsAllowed p i m = tt

  ep_effect-IsAllowed : (p : EpPc) (s : System) → Handles p s → IsAllowed (ep_effect p) (mailbox s)
  ep_effect-IsAllowed (store i) s h = rw h refl
  ep_effect-IsAllowed p s h = tt

  pub move_of-IsAllowed : (a : Action) (s : System) → Held s → IsAllowed (move_of n s a) (mailbox s)
  unfolding Held
  move_of-IsAllowed (ep now) s h = ep_effect-IsAllowed s.ep.pc s h
  move_of-IsAllowed (src j now slept) s h = elim (Bool-cases (ltb j n)) [
    | inl within ↦ rw within (src_effect-IsAllowed (s.src_pc j) j (mailbox s))
    | inr beyond ↦ rw beyond tt
  ]
  move_of-IsAllowed a s h = tt

-- In every build and every state that can be reached, each action is a move of the mailbox: a source raises its event, or the
-- processor receives an event, which was raised then; all other actions leave the events as they are.
pub step-IsAllowed :
    {c : Config} {n : ℕ} {s : System}
    → Reach c n s
    → (a : Action)
    → IsAllowed (move_of n s a) (mailbox s)
      × (mailbox (step c n a s) ≡ perform (move_of n s a) (mailbox s))
step-IsAllowed {c} {n} {s} r a =
    (move_of-IsAllowed c n a s (Reach-Held c n r), fun_ext (step-perform c n a s))
