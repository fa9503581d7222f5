-- ===== src/System/Inactive.antt =====
-- The times that `epThread` adds up: the time in `WFE` against the time in its loop.
use mathlib.Core.Path.{subst}
use wfey.Prelude.{
  ℕ, Bool-cases, inl, inr, sym, ◌+◌, ◌≤◌, ◌<◌, ◌≡◌, refl, Bool, true, Option, none, some, List, [],
  ◌∷◌, ltb, arith,
}
use wfey.Clock.{word, Ts, to_ns, IsClock, ts_now, ts_diff-eq}
use wfey.Config.{Config}
use wfey.System.{
  EpPc, SrcPc, check, nap, test, wait, done, Ep, System, Action, ep, src, wake, stop_ep, stop_src,
  ep_step, src_step, step, run, launch,
}

-- The clock's answers to the processor, from the time `from` on: it never fails and does not go back.
abbrev pub IsTimed : ℕ → List Action → Type 0
IsTimed from [] = Unit
IsTimed from (ep (some t) ∷ acts) = IsClock t × (from ≤ to_ns t) × IsTimed (to_ns t) acts
IsTimed from (ep none ∷ acts) = ⊥
IsTimed from (_ ∷ acts) = IsTimed from acts

-- Where the processor stands at the time `now`: in `WFE`, the time before it is accounted; behind the loop, the times are
-- final; elsewhere, the time accounted lies in the time since the loop was begun.
abbrev pub InTime : EpPc → ℕ → Ep → Type 0
InTime wait now e =
    IsClock e.inactive_start
    × (e.inactive_total + to_ns e.active_start ≤ to_ns e.inactive_start)
    × (to_ns e.inactive_start ≤ now)
InTime done now e = (e.inactive_total ≤ e.active_total) × (e.active_total < word)
InTime _ now e = e.inactive_total + to_ns e.active_start ≤ now

record IsKept (now : ℕ) (s : System) : Type 0 where
  begun : IsClock s.ep.active_start
  times : InTime s.ep.pc now s.ep

module _ (c : Config) (n : ℕ) where
  ep_step-IsKept :
      (p : EpPc) (now : ℕ) (t : Ts) (s : System)
      → s.ep.pc ≡ p
      → IsClock t
      → now ≤ to_ns t
      → IsKept now s
      → IsKept (to_ns t) (ep_step c n p (some t) s)
  unfolding ep_step ts_now
  ep_step-IsKept test now t s e k le v = ground (arith, ts_diff-eq s.ep.active_start t)
  ep_step-IsKept wait now t s e k le v = ground (arith, ts_diff-eq s.ep.inactive_start t)
  ep_step-IsKept done now t s e k le v = ground arith
  ep_step-IsKept p now t s e k le v = ground arith

  pub ep-src_step :
      (p : SrcPc) (i : ℕ) (now : Option Ts) (slept : Bool) (s : System)
      → (src_step c n p i now slept s).ep ≡ s.ep
  unfolding src_step
  ep-src_step check i now slept s = refl
  ep-src_step nap i now slept s = refl
  ep-src_step p i now slept s = refl

  -- A step of another thread leaves the processor's times alone.
  other-IsKept : (now : ℕ) (s s' : System) → s'.ep ≡ s.ep → IsKept now s → IsKept now s'
  other-IsKept now s s' e v = record {
    begun = rw e v.begun;
    times = subst (λ x. InTime x.pc now x) (sym e) v.times;
  }

  ep-src :
      (i : ℕ) (now : Option Ts) (slept : Bool) (s : System)
      → (step c n (src i now slept) s).ep ≡ s.ep
  unfolding step
  ep-src i now slept s = elim (Bool-cases (ltb i n)) [
    | inl h ↦ rw h (ep-src_step (s.src_pc i) i now slept s)
    | inr h ↦ rw h refl
  ]

  stop_ep-IsKept : (now : ℕ) (s : System) → IsKept now s → IsKept now (step c n stop_ep s)
  unfolding step
  stop_ep-IsKept now s v = record { begun = v.begun; times = flagged s.ep.pc v.times }
    where
      flagged : (p : EpPc) → InTime p now s.ep → InTime p now (record (s.ep) { end_flag = true })
      flagged test h = h
      flagged wait h = h
      flagged done h = h
      flagged p h = h

  run-IsKept :
      (now : ℕ) (acts : List Action) (s : System)
      → IsTimed now acts
      → IsKept now s
      → (later : ℕ) × IsKept later (run c n acts s)
  unfolding run
  run-IsKept now [] s h v = (now, v)
  run-IsKept now (ep (some t) ∷ acts) s (k, le, h) v =
      run-IsKept (to_ns t) acts (step c n (ep (some t)) s) h
        (unfold step in ep_step-IsKept s.ep.pc now t s refl k le v)
  run-IsKept now (ep none ∷ acts) s h v = absurd h
  run-IsKept now (src i t slept ∷ acts) s h v =
      run-IsKept now acts (step c n (src i t slept) s) h
        (other-IsKept now s _ (ep-src i t slept s) v)
  run-IsKept now (wake ∷ acts) s h v =
      run-IsKept now acts (step c n wake s) h (other-IsKept now s _ (unfold step in refl) v)
  run-IsKept now (stop_ep ∷ acts) s h v =
      run-IsKept now acts (step c n stop_ep s) h (stop_ep-IsKept now s v)
  run-IsKept now (stop_src i ∷ acts) s h v =
      run-IsKept now acts (step c n (stop_src i) s) h (other-IsKept now s _ (unfold step in refl) v)

launched :
    (c : Config) (start : Ts) (raw : System)
    → IsClock start
    → IsKept (to_ns start) (launch c (some start) raw)
unfolding launch ts_now
launched c start raw k = record { begun = k; times = omega arith }

-- Once the processor is behind its loop, the time of its waits is at most the time of the loop, which fits 64 bits.
pub inactive-le-active :
    (c : Config) (n : ℕ) (start : Ts) (raw : System) (acts : List Action)
    → IsClock start
    → IsTimed (to_ns start) acts
    → (run c n acts (launch c (some start) raw)).ep.pc ≡ done
    → InTime done 0 (run c n acts (launch c (some start) raw)).ep
inactive-le-active c n start raw acts k h at_end =
    let (later, v) =
      run-IsKept c n (to_ns start) acts (launch c (some start) raw) h (launched c start raw k) in
    subst (λ p. InTime p later (run c n acts (launch c (some start) raw)).ep) at_end v.times
