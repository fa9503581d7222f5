-- ===== src/System/Overwrite.antt =====
-- The order of `EP_handle_event` in wfey.c: it runs the work function, and only then resets the event.
use wfey.Prelude.{
  ℕ, suc, ◌<◌, ◌≡◌, refl, Bool, true, false, Option, List, [], ◌∷◌, ◌++◌, ltb, arith, lt→ltb, ◌∙◌,
  ap, Bool-cases, inl, inr,
}
use wfey.Clock.{Ts}
use wfey.Config.{Config}
use wfey.Source.{active}
use wfey.System.{
  EpPc, SrcPc, scan, work, stamp, store, tally, inc, System, Action, ep, src, wake, stop_ep,
  stop_src, ep_step, src_step, step, run,
}
use wfey.System.Inactive.{ep-src_step}
use wfey.System.Mailbox.{mailbox, move_of}
use wfey.System.Mailbox.Counts.{moves, bit, is_receive, count_moves}

-- The steps of the processor in a run.
abbrev pub turns : List Action → ℕ
turns [] = 0
turns (ep now ∷ acts) = suc (turns acts)
turns (_ ∷ acts) = turns acts

abbrev is_turn : Action → Bool
is_turn (ep now) = true
is_turn _ = false

-- The processor is `k` steps before the store that resets the event of source `i`.
abbrev Before : ℕ → EpPc → ℕ → System → Type 0
Before i (scan j) k s = (j ≡ i) × (k ≡ 3) × ((s.sources i).state ≡ active)
Before i (work j) k s = (j ≡ i) × (k ≡ 2)
Before i (stamp j) k s = (j ≡ i) × (k ≡ 1)
Before i (store j) k s = (j ≡ i) × (k ≡ 0)
Before i _ k s = ⊥

-- The count of events that is to come.
abbrev counting : EpPc → ℕ → ℕ
counting (scan j) e = inc e
counting _ e = e

module _ (c : Config) (n i : ℕ) (h : i < n) where
  src_step-active :
      (p : SrcPc) (j : ℕ) (now : Option Ts) (slept : Bool) (s : System)
      → (s.sources i).state ≡ active
      → ((src_step c n p j now slept s).sources i).state ≡ active
  unfolding src_step
  src_step-active p j now slept s e = ground arith

  src-Before :
      (p : EpPc) (k j : ℕ) (now : Option Ts) (slept : Bool) (s : System)
      → Before i p k s
      → Before i p k (src_step c n (s.src_pc j) j now slept s)
  src-Before (scan l) k j now slept s (same, left, on) =
      (same, left, src_step-active (s.src_pc j) j now slept s on)
  src-Before p k j now slept s b = ground arith

  other-Before :
      (a : Action) (p : EpPc) (k : ℕ) (s : System)
      → is_turn a ≡ false
      → s.ep.pc ≡ p
      → Before i p k s
      → Before i p k (step c n a s)
        × ((step c n a s).ep.pc ≡ p)
        × ((step c n a s).ep.events ≡ s.ep.events)
        × (is_receive i (move_of n s a) ≡ false)
  unfolding step
  other-Before (src j now slept) p k s t e b = elim (Bool-cases (ltb j n)) [
    | inl within ↦
        let same = ep-src_step c n (s.src_pc j) j now slept s in
        rw (within, same) (src-Before p k j now slept s b, e, refl, ground arith)
    | inr beyond ↦ rw beyond (b, e, refl, refl)
  ]
  other-Before a p k s t e b = ground arith

  ep-Before :
      (p : EpPc) (k : ℕ) (now : Option Ts) (s : System)
      → s.ep.pc ≡ p
      → Before i p (suc k) s
      → Before i (ep_step c n p now s).ep.pc k (ep_step c n p now s)
        × (counting (ep_step c n p now s).ep.pc (ep_step c n p now s).ep.events
            ≡ counting p s.ep.events)
        × (is_receive i (move_of n s (ep now)) ≡ false)
  unfolding ep_step
  ep-Before (scan j) k now s e (same, left, on) =
      let more : ltb j n ≡ true = rw same (lt→ltb i n h) in
      let raised : (s.sources j).state ≡ active = rw same on in
      rw (e, more, raised) ((same, omega arith), refl, refl)
  ep-Before (work j) k now s e b = rw e (ground arith)
  ep-Before (stamp j) k now s e b = rw e (ground arith)
  ep-Before (store j) k now s e b = absurd (ground arith)
  ep-Before p k now s e b = absurd b

  store-handled :
      (p : EpPc) (now : Option Ts) (s : System)
      → s.ep.pc ≡ p
      → Before i p 0 s
      → (mailbox (ep_step c n p now s) i ≡ false)
        × ((ep_step c n p now s).ep.pc ≡ tally i)
        × ((ep_step c n p now s).ep.events ≡ counting p s.ep.events)
        × (bit (is_receive i (move_of n s (ep now))) ≡ 1)
  unfolding ep_step
  store-handled (store j) now s e b = rw e (ground arith)
  store-handled (scan j) now s e (same, zero_left, on) = absurd (omega (arith, zero_left))
  store-handled p now s e b = absurd (ground arith)

  -- The rest of a run up to the store, and the store.
  abbrev Handled : List Action → Option Ts → System → Type 0
  Handled acts now s =
      (mailbox (run c n (acts ++ ep now ∷ []) s) i ≡ false)
      × ((run c n (acts ++ ep now ∷ []) s).ep.pc ≡ tally i)
      × ((run c n (acts ++ ep now ∷ []) s).ep.events ≡ counting s.ep.pc s.ep.events)
      × (count_moves (is_receive i) (moves c n (acts ++ ep now ∷ []) s) ≡ 1)

  other-Handled :
      (a : Action) (acts : List Action) (now : Option Ts) (s : System)
      → is_turn a ≡ false
      → Before i s.ep.pc (turns acts) s
      → (Before i (step c n a s).ep.pc (turns acts) (step c n a s)
          → Handled acts now (step c n a s))
      → Handled (a ∷ acts) now s
  unfolding run
  other-Handled a acts now s other b next =
      let (before, at, same, quiet) = other-Before a s.ep.pc (turns acts) s other refl b in
      let (clear, past, counted, once) = next (rw at before) in
      (clear, past, rw (same, at) at counted, rw quiet (omega (arith, once)))

  handled :
      (acts : List Action) (now : Option Ts) (s : System)
      → Before i s.ep.pc (turns acts) s
      → Handled acts now s
  unfolding run
  handled [] now s b =
      let (clear, past, counted, once) = store-handled s.ep.pc now s refl b in
      (clear, past, counted, rw once refl)
  handled (ep t ∷ acts) now s b =
      let (before, same, quiet) = ep-Before s.ep.pc (turns acts) t s refl b in
      let (clear, past, counted, once) = handled acts now (step c n (ep t) s) before in
      (clear, past, counted ∙ same, rw quiet (omega (arith, once)))
  handled (src j t slept ∷ acts) now s b =
      other-Handled (src j t slept) acts now s refl b
        (handled acts now (step c n (src j t slept) s))
  handled (wake ∷ acts) now s b =
      other-Handled wake acts now s refl b (handled acts now (step c n wake s))
  handled (stop_ep ∷ acts) now s b =
      other-Handled stop_ep acts now s refl b (handled acts now (step c n stop_ep s))
  handled (stop_src j ∷ acts) now s b =
      other-Handled (stop_src j) acts now s refl b (handled acts now (step c n (stop_src j) s))

-- In any build, in any state in which the processor looks at an event that is active: whatever other steps are taken between, once the
-- processor has taken its next four, which are the look, the work, the stamp of the end and the store, the event is reset, and was
-- received once and counted once, however often its source has made it active anew before the store.
pub activation_overwritten :
    (c : Config) (n i : ℕ) (acts : List Action) (now : Option Ts) (s : System)
    → i < n
    → s.ep.pc ≡ scan i
    → (s.sources i).state ≡ active
    → turns acts ≡ 3
    → ((run c n (acts ++ ep now ∷ []) s).ep.pc ≡ tally i)
      × (mailbox (run c n (acts ++ ep now ∷ []) s) i ≡ false)
      × (count_moves (is_receive i) (moves c n (acts ++ ep now ∷ []) s) ≡ 1)
      × ((run c n (acts ++ ep now ∷ []) s).ep.events ≡ inc s.ep.events)
activation_overwritten c n i acts now s h at on three =
    let before : Before i s.ep.pc (turns acts) s = rw at (refl, three, on) in
    let (clear, past, counted, once) = handled c n i h acts now s before in
    (past, clear, once, counted ∙ ap (λ p. counting p s.ep.events) at)
