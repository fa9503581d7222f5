-- ===== src/System/Mailbox/Prompt.antt =====
-- How soon the processor comes to an event, in the states that a run reaches.
use wfey.Prelude.{
  ℕ, ◌+◌, ◌*◌, ◌≤◌, ◌<◌, ◌≡◌, ◌≢◌, ◌⊎◌, refl, Bool, true, false, Option, List, ltb, arith,
  Bool-cases, inl, inr,
}
use wfey.Clock.{Ts}
use wfey.Config.{Config}
use wfey.Source.{active}
use wfey.System.{
  EpPc, test, done, press, System, Action, ep, src, stop_ep, ep_step, step, launch, Reach, launched,
  next,
}
use wfey.System.Covered.{Ahead, Reach-IsCovered}
use wfey.System.Inactive.{ep-src_step}
use wfey.System.Mailbox.Counts.{moves, is_receive, count_moves}
use wfey.System.Mailbox.Delivery.{NoStop, free_steps, Heads, IsDue, due_within}

-- The processor leaves its loop by its end flag only.
abbrev Ended : EpPc → Bool → Type 0
Ended done end_flag = end_flag ≡ true
Ended _ end_flag = Unit

module _ (c : Config) (n : ℕ) where
  ep_step-Ended :
      (p : EpPc) (now : Option Ts) (s : System)
      → s.ep.pc ≡ p
      → Ended p s.ep.end_flag
      → Ended (ep_step c n p now s).ep.pc (ep_step c n p now s).ep.end_flag
  unfolding ep_step
  ep_step-Ended test now s e h = ground arith
  ep_step-Ended done now s e h = rw e h
  ep_step-Ended p now s e h = ground arith

  stop_ep-Ended : (p : EpPc) → Ended p true
  stop_ep-Ended done = refl
  stop_ep-Ended p = tt

  step-Ended :
      (a : Action) (s : System)
      → Ended s.ep.pc s.ep.end_flag
      → Ended (step c n a s).ep.pc (step c n a s).ep.end_flag
  unfolding step
  step-Ended (ep now) s h = ep_step-Ended s.ep.pc now s refl h
  step-Ended (src j now slept) s h = elim (Bool-cases (ltb j n)) [
    | inl within ↦ rw (within, ep-src_step c n (s.src_pc j) j now slept s) h
    | inr beyond ↦ rw beyond h
  ]
  step-Ended stop_ep s h = stop_ep-Ended s.ep.pc
  step-Ended a s h = h

  Reach-Ended : {s : System} → Reach c n s → Ended s.ep.pc s.ep.end_flag
  Reach-Ended (launched now raw) = unfold launch in tt
  Reach-Ended (next {s} r a) = step-Ended a s (Reach-Ended r)

  Heads-covered :
      (p : EpPc) (i db : ℕ)
      → Ended p false
      → (c.use_doorbell ≡ true → (db ≢ 0) ⊎ Ahead p i)
      → Heads c i p db
  Heads-covered done i db ended cov = ground arith
  Heads-covered p i db ended cov = ground arith

  pub Reach-IsDue :
      {s : System}
      → Reach c n s
      → (i : ℕ) → i < n
      → (s.sources i).state ≡ active
      → s.src_pc i ≢ press
      → s.ep.end_flag ≡ false
      → IsDue c i s.ep.pc s
  Reach-IsDue {s} r i h raised past on = (
    raised,
    on,
    Heads-covered s.ep.pc i s.hw.db (let ended = Reach-Ended {s = s} r in rw on at ended) (λ bell.
        elim (Reach-IsCovered bell r i h raised) [
          | inl pressing ↦ absurd (past pressing)
          | inr covered ↦ covered
        ]),
  )

-- In every build and every state that can be reached: an event that is active, and whose source is not just about to press the
-- doorbell, is received by the processor within 5 n + 8 of the processor's own steps, where `n` is the number of sources, whatever
-- the other threads do and in whatever order. The processor's end flag is not set, and `main` does not set it; a step behind a
-- `WFE` that sleeps on is not counted.
pub receive_within :
    {c : Config} {n : ℕ} {s : System}
    → Reach c n s
    → (i : ℕ) → i < n
    → (s.sources i).state ≡ active
    → s.src_pc i ≢ press
    → s.ep.end_flag ≡ false
    → (acts : List Action) → NoStop acts
    → 5 * n + 8 ≤ free_steps c n acts s
    → 0 < count_moves (is_receive i) (moves c n acts s)
receive_within {c} {n} {s} r i h raised past on acts ns many =
    due_within c n i acts s h (Reach-IsDue c n r i h raised past on) ns many
