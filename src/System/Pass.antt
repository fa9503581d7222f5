-- ===== src/System/Pass.antt =====
-- One pass of the processor over the sources (`for (int i=0; i<Num_Sources; i++)` of `epThread`, with
-- `EP_handle_event`).
use wfey.Prelude.{
  ℕ, zero, suc, ◌+◌, ◌%◌, ◌≤◌, ◌<◌, ◌≡◌, refl, true, false, inl, inr, Bool-cases, Option, List, [],
  ◌∷◌, arith, ltb, leb, ◌&&◌, if◌then◌else◌, update, ap, ◌∙◌, lt→ltb,
}
use native.Mathlib.Nat.{zero-add, le_refl}
use Prim.Native.Nat.add
use wfey.Clock.{Ts, word}
use wfey.Config.{Config}
use wfey.Source.{Source, source_event_reset, source_event_is_active}
use wfey.System.{EpPc, test, scan, System, Action, ep, ep_step, step, run, goto, inc}

-- `EP_handle_event`: the work function leaves the source alone.
unfoldable pub ep_handle_event : Option Ts → Source → Source
unfolding source_event_reset
ep_handle_event now src = source_event_reset now src

-- What a pass does to a source at which it looks.
unfoldable pub look : Option Ts → Source → Source
unfolding ep_handle_event source_event_is_active
look now src = if source_event_is_active src then ep_handle_event now src else src

-- The processor alone, for `k` steps, at the time `now`.
abbrev pub alone : Option Ts → ℕ → List Action
alone now zero = []
alone now (suc k) = ep now ∷ alone now k

goto_self : (s : System) (p : EpPc) → s.ep.pc ≡ p → goto s p ≡ s
goto_self s p e = rw (← e)

-- The steps of one look.
look_steps : Source → ℕ
look_steps src = if source_event_is_active src then 5 else 1

-- The number of sources with an active event among the `m` from `j` on.
pub actives : (ℕ → Source) → ℕ → ℕ → ℕ
actives f j zero = 0
actives f j (suc m) = (if source_event_is_active (f j) then 1 else 0) + actives f (j + 1) m

-- The processor's steps from the scan at `j`, with `m` sources to go, to its test.
pub pass_steps : (ℕ → Source) → ℕ → ℕ → ℕ
unfolding look_steps
pass_steps f j zero = 1
pass_steps f j (suc m) = look_steps (f j) + pass_steps f (j + 1) m

actives-eq :
    (f g : ℕ → Source) (j m : ℕ)
    → ((i : ℕ) → j ≤ i → f i ≡ g i)
    → (actives f j m ≡ actives g j m) × (pass_steps f j m ≡ pass_steps g j m)
unfolding actives pass_steps
actives-eq f g j zero h = (refl, refl)
actives-eq f g j (suc m) h =
    ground (arith, h j (le_refl j), actives-eq f g (j + 1) m (λ i le. h i (omega arith)))

-- What a pass over the `m` sources from `j` on leaves: the processor at its test, each active event among
-- them handled and counted, the other sources, the doorbell and the places of the sources as they were.
pub record Passed (now : Option Ts) (s : System) (j m : ℕ) (s' : System) : Type 0 where
  pub back : s'.ep.pc ≡ test
  pub handled : s'.ep.events ≡ (s.ep.events + actives s.sources j m) % word
  pub sources :
      (i : ℕ)
      → s'.sources i ≡ (if leb j i && ltb i (j + m) then look now (s.sources i) else s.sources i)
  pub same_hw : s'.hw ≡ s.hw
  pub same_src_pc : (i : ℕ) → s'.src_pc i ≡ s.src_pc i

module _ (c : Config) (n : ℕ) (now : Option Ts) where
  record Looked (s : System) (j : ℕ) (s' : System) : Type 0 where
    at : s'.ep.pc ≡ scan (j + 1)
    events :
        s'.ep.events
        ≡ (if source_event_is_active (s.sources j) then inc s.ep.events else s.ep.events)
    sources : (i : ℕ) → s'.sources i ≡ update s.sources j (look now (s.sources j)) i
    hw : s'.hw ≡ s.hw
    src_pc : (i : ℕ) → s'.src_pc i ≡ s.src_pc i

  look_active :
      (s : System) (j : ℕ)
      → j < n
      → source_event_is_active (s.sources j) ≡ true
      → Looked s j (run c n (alone now 5) (goto s (scan j)))
  unfolding run ep_step look
  look_active s j h e = record {
    at = ground arith;
    events = ground arith;
    sources = λ i. rw (lt→ltb j n h, e) (ground arith);
    hw = ground arith;
    src_pc = λ i. ground arith;
  }

  look_quiet :
      (s : System) (j : ℕ)
      → j < n
      → source_event_is_active (s.sources j) ≡ false
      → Looked s j (run c n (alone now 1) (goto s (scan j)))
  unfolding run ep_step look
  look_quiet s j h e = record {
    at = rw (lt→ltb j n h, e) refl;
    events = rw (lt→ltb j n h, e) refl;
    sources = λ i. rw (lt→ltb j n h, e) (ground arith);
    hw = rw (lt→ltb j n h, e) refl;
    src_pc = λ i. rw (lt→ltb j n h, e) refl;
  }

  looked :
      (s : System) (j : ℕ)
      → j < n
      → s.ep.pc ≡ scan j
      → Looked s j (run c n (alone now (look_steps (s.sources j))) s)
  unfolding look_steps
  looked s j h at = elim (Bool-cases (source_event_is_active (s.sources j))) [
    | inl e ↦ rw e (rw (goto_self s (scan j) at) at (look_active s j h e))
    | inr e ↦ rw e (rw (goto_self s (scan j) at) at (look_quiet s j h e))
  ]

  run-alone-add :
      (a b : ℕ) (s : System)
      → run c n (alone now (a + b)) s ≡ run c n (alone now b) (run c n (alone now a) s)
  unfolding run
  run-alone-add zero b s = rw zero-add refl
  run-alone-add (suc a) b s = rw add.suc (run-alone-add a b (step c n (ep now) s))

  pass_last :
      (s : System)
      → s.ep.pc ≡ scan n
      → s.ep.events < word
      → Passed now s n 0 (run c n (alone now 1) s)
  unfolding run ep_step actives
  pass_last s at small = record {
    back = ground arith;
    handled = ground arith;
    sources = λ i. ground arith;
    same_hw = ground arith;
    same_src_pc = λ i. ground arith;
  }

  Looked-counts :
      (m j : ℕ) (s s1 : System)
      → Looked s j s1
      → (actives s1.sources (j + 1) m ≡ actives s.sources (j + 1) m)
        × (pass_steps s1.sources (j + 1) m ≡ pass_steps s.sources (j + 1) m)
  Looked-counts m j s s1 l =
      actives-eq s1.sources s.sources (j + 1) m (λ i le. ground (arith, l.sources i))

  Looked-Passed :
      (m j : ℕ) (s s1 s2 : System)
      → s.ep.events < word
      → Looked s j s1
      → Passed now s1 (j + 1) m s2
      → Passed now s j (suc m) s2
  unfolding actives
  Looked-Passed m j s s1 s2 small l p = record {
    back = p.back;
    handled = ground (arith, counts.0);
    sources = λ i. ground (arith, l.sources i, p.sources i);
    same_hw = p.same_hw ∙ l.hw;
    same_src_pc = λ i. p.same_src_pc i ∙ l.src_pc i;
  }
    where
      counts :
          (actives s1.sources (j + 1) m ≡ actives s.sources (j + 1) m)
          × (pass_steps s1.sources (j + 1) m ≡ pass_steps s.sources (j + 1) m)
      counts = Looked-counts m j s s1 l

  pass :
      (m j : ℕ) (s : System)
      → j + m ≡ n
      → s.ep.pc ≡ scan j
      → s.ep.events < word
      → Passed now s j m (run c n (alone now (pass_steps s.sources j m)) s)
  unfolding pass_steps
  pass zero j s e at small =
      let same : j ≡ n = omega arith in rw same (pass_last s (at ∙ ap scan same) small)
  pass (suc m) j s e at small =
      rw
        (
          run-alone-add (look_steps (s.sources j)) (pass_steps s.sources (j + 1) m) s,
          ← (Looked-counts m j s s1 l).1,
        )
        (Looked-Passed m j s s1 _ small l
          (pass m (j + 1) s1 (omega arith) l.at (ground (arith, l.events))))
    where
      s1 : System
      s1 = run c n (alone now (look_steps (s.sources j))) s

      l : Looked s j s1
      l = looked s j (omega arith) at

-- From any state in which the processor begins to scan, with its count of events in range: if it runs alone, at
-- the time `now`, then after `pass_steps` of its steps it is back at its test; every source with an active event has
-- gone through `EP_handle_event`, and each of them is counted; every other source is unchanged.
pub pass_handles_all :
    (c : Config) (n : ℕ) (now : Option Ts) (s : System)
    → s.ep.pc ≡ scan 0
    → s.ep.events < word
    → Passed now s 0 n (run c n (alone now (pass_steps s.sources 0 n)) s)
pass_handles_all c n now s at small = pass c n now n 0 s (omega arith) at small
