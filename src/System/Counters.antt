-- ===== src/System/Counters.antt =====
-- The numbers of events and wake-ups that `epThread` counts, against the latencies that the sources count.
use native.Mathlib.Nat.{mul-sub}
use wfey.Prelude.{
  ℕ, zero, suc, ◌+◌, ◌*◌, ◌-◌, ◌≤◌, ◌<◌, ◌≡◌, refl, Bool, true, Option, List, [], ◌∷◌, ltb, ◌==◌,
  update, arith, length, Bool-cases, inl, inr,
}
use wfey.Clock.{word, Ts}
use wfey.Config.{Config}
use wfey.Source.{Source, account, stamp_end, store_state}
use wfey.Source
use wfey.System.{
  EpPc, SrcPc, test, wait, take, scan, work, stamp, store, tally, inc, Ep, System, Action, ep, src,
  stop_src, ep_step, src_step, step, run, launch,
}
use wfey.System.Inactive.{ep-src_step}
use wfey.System.Mailbox.Counts.{bit, account-count, src_step-count}

-- The latencies that the first `n` sources count.
abbrev pub total : ℕ → (ℕ → Source) → ℕ
total zero sources = 0
total (suc n) sources = total n sources + (sources n).count

total-le :
    (n : ℕ) (f g : ℕ → Source) → ((i : ℕ) → (f i).count ≤ (g i).count) → total n f ≤ total n g
total-le zero f g h = omega arith
total-le (suc n) f g h = omega (arith, total-le n f g h, h n)

-- One more latency, at one place.
total-more :
    (n j : ℕ) (f g : ℕ → Source)
    → ((i : ℕ) → (g i).count ≤ (f i).count + bit (i == j))
    → total n g ≤ total n f + bit (ltb j n)
total-more zero j f g h = omega arith
total-more (suc n) j f g h = ground (arith, total-more n j f g h, h n)

-- The sources that a pass has come to; a pass that is over has come to all.
abbrev pub place : ℕ → EpPc → ℕ
place n (scan i) = i
place n (work i) = i + 1
place n (stamp i) = i + 1
place n (store i) = i + 1
place n (tally i) = i + 1
place n _ = n

-- An event that is counted, and its latency is not yet.
abbrev pub pending : EpPc → ℕ
pending (work i) = 1
pending (stamp i) = 1
pending (store i) = 1
pending (tally i) = 1
pending _ = 0

-- The counters of the processor at a place, with at most `k` wake-ups and events, and `t` latencies: each pass counts an event of a
-- source once at most.
abbrev pub Counts : ℕ → ℕ → EpPc → Ep → ℕ → Type 0
Counts n k p e t =
    (e.spurious ≤ e.wakeups)
    × (e.wakeups ≤ k)
    × (e.events ≤ k)
    × (place n p ≤ n)
    × (e.events + n * e.spurious + n ≤ n * e.wakeups + place n p)
    × (t + pending p ≤ e.events)

abbrev pub Counted : ℕ → ℕ → System → Type 0
Counted n k s = Counts n k s.ep.pc s.ep (total n s.sources)

module _ (c : Config) (n : ℕ) where
  tally-total :
      (i : ℕ) (s : System)
      → total n (update s.sources i (account (s.sources i))) ≤ total n s.sources + 1
  tally-total i s =
      let more =
        total-more n i s.sources (update s.sources i (account (s.sources i)))
          (λ j. ground (arith, account-count (s.sources i))) in
      ground arith

  -- A source whose latencies stay as they are.
  update-total :
      (i : ℕ) (s : System) (x : Source)
      → x.count ≤ (s.sources i).count
      → total n (update s.sources i x) ≤ total n s.sources
  update-total i s x h = total-le n (update s.sources i x) s.sources (λ j. ground arith)

  ep_step-Counted :
      (p : EpPc) (now : Option Ts) (s : System) (k : ℕ)
      → s.ep.pc ≡ p
      → k + 1 < word
      → Counts n k p s.ep (total n s.sources)
      → Counted n (k + 1) (ep_step c n p now s)
  unfolding ep_step
  ep_step-Counted test now s k e w h = ground arith
  ep_step-Counted wait now s k e w h = ground arith
  ep_step-Counted (scan i) now s k e w h = ground arith
  ep_step-Counted take now s k e w h =
      let (spurious, wakeups, _, _, _, _) = h in
      let woken : inc s.ep.wakeups ≡ s.ep.wakeups + 1 = omega arith in
      let in_vain : inc s.ep.spurious ≡ s.ep.spurious + 1 = omega arith in
      elim (Bool-cases c.use_doorbell) [
        | inl bell ↦ elim (Bool-cases (s.hw.db == 0)) [
          | inl clear ↦ rw (bell, clear, woken, in_vain) (ground arith)
          | inr pressed ↦ rw (bell, pressed, woken) (ground arith)
        ]
        | inr no_bell ↦ rw (no_bell, woken) (ground arith)
      ]
  ep_step-Counted (stamp i) now s k e w h =
      ground (arith, update-total i s (stamp_end now (s.sources i)))
  ep_step-Counted (store i) now s k e w h =
      ground (arith, update-total i s (store_state Source.reset (s.sources i)))
  ep_step-Counted (tally i) now s k e w h = ground (arith, tally-total i s)
  ep_step-Counted p now s k e w h = ground arith

  src_step-Counted :
      (p : SrcPc) (i : ℕ) (now : Option Ts) (slept : Bool) (s : System) (k : ℕ)
      → Counted n k s
      → Counted n (k + 1) (src_step c n p i now slept s)
  src_step-Counted p i now slept s k h =
      let same = ep-src_step c n p i now slept s in
      let le =
        total-le n (src_step c n p i now slept s).sources s.sources
          (λ j. omega (arith, (src_step-count c n p i now slept s j).0)) in
      rw same (ground arith)

  step-Counted :
      (a : Action) (s : System) (k : ℕ)
      → k + 1 < word
      → Counted n k s
      → Counted n (k + 1) (step c n a s)
  unfolding step
  step-Counted (ep now) s k w h = ep_step-Counted s.ep.pc now s k refl w h
  step-Counted (src i now slept) s k w h = elim (Bool-cases (ltb i n)) [
    | inl within ↦ rw within (src_step-Counted (s.src_pc i) i now slept s k h)
    | inr beyond ↦ rw beyond (ground arith)
  ]
  step-Counted (stop_src i) s k w h =
      ground (arith, update-total i s (record (s.sources i) { end_flag = true }))
  step-Counted a s k w h = ground arith

  run-Counted :
      (acts : List Action) (s : System) (k m : ℕ)
      → k + length acts ≤ m
      → m < word
      → Counted n k s
      → Counted n m (run c n acts s)
  unfolding run
  run-Counted [] s k m le w h = ground arith
  run-Counted (a ∷ acts) s k m le w h =
      run-Counted acts (step c n a s) (k + 1) m (omega arith) w (step-Counted a s k (omega arith) h)

total-none : (n : ℕ) (f : ℕ → Source) → ((i : ℕ) → (f i).count ≡ 0) → total n f ≡ 0
total-none zero f h = refl
total-none (suc n) f h = omega (arith, total-none n f h, h n)

launch-Counted :
    (c : Config) (n : ℕ) (now : Option Ts) (raw : System) → Counted n 0 (launch c now raw)
unfolding launch
launch-Counted c n now raw =
    let none = total-none n (launch c now raw).sources (λ i. refl) in ground arith

-- `n` events for each pass.
passes_bound : (n e w s : ℕ) → s ≤ w → e + n * s ≤ n * w → e ≤ n * (w - s)
passes_bound n e w s le h = rw mul-sub (omega arith)

-- In every build and every run of fewer than 2^64 steps, the counters agree: the sources count no more latencies
-- together than the processor counts events; no more wake-ups are spurious than there are; and the events are at most the number
-- of sources for each wake-up that is not spurious.
pub run-counters :
    (c : Config) (n : ℕ) (now : Option Ts) (raw : System) (acts : List Action)
    → length acts < word
    → let s = run c n acts (launch c now raw) in
      (total n s.sources ≤ s.ep.events)
      × (s.ep.spurious ≤ s.ep.wakeups)
      × (s.ep.events ≤ n * (s.ep.wakeups - s.ep.spurious))
run-counters c n now raw acts h =
    let (spurious, _, _, at, passes, counted) =
      run-Counted c n acts (launch c now raw) 0 (length acts) (omega arith) h
        (launch-Counted c n now raw) in
    (omega arith, spurious, passes_bound n _ _ _ spurious (omega arith))
