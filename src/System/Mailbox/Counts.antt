-- ===== src/System/Mailbox/Counts.antt =====
-- How often the events of a source are raised and received, and what the source counts.
use wfey.Prelude.{
  ℕ, ◌+◌, ◌≤◌, ◌≡◌, refl, ap, Bool, true, false, Option, List, [], ◌∷◌, ltb, ◌==◌, arith,
  Bool-cases, inl, inr,
}
use wfey.Clock.{Ts}
use wfey.Config.{Config}
use wfey.Source.{Source, is_active, account}
use wfey.Source.Stats.{init_source-Accounts}
use wfey.System.{
  EpPc, test, tally, SrcPc, check, nap, System, Action, ep, src, wake, stop_ep, stop_src, ep_step,
  src_step, step, run, launch,
}
use wfey.System.Mailbox.{
  Mailbox, Move, quiet, raise, receive, perform, IsAllowed, mailbox, move_of, ep_effect, Held,
  step-Held, move_of-IsAllowed, step-perform,
}

-- The moves that a run comes to.
abbrev pub moves : Config → ℕ → List Action → System → List Move
moves c n [] s = []
moves c n (a ∷ acts) s = move_of n s a ∷ moves c n acts (step c n a s)

abbrev pub is_raise : ℕ → Move → Bool
is_raise i (raise j) = i == j
is_raise i _ = false

abbrev pub is_receive : ℕ → Move → Bool
is_receive i (receive j) = i == j
is_receive i _ = false

abbrev pub bit : Bool → ℕ
bit true = 1
bit false = 0

abbrev pub count_moves : (Move → Bool) → List Move → ℕ
count_moves p [] = 0
count_moves p (m ∷ ms) = bit (p m) + count_moves p ms

-- A move that is allowed keeps the balance of an event.
perform_balance :
    (mv : Move) (m : Mailbox) (i : ℕ)
    → IsAllowed mv m
    → bit (is_receive i mv) + bit (perform mv m i) ≤ bit (is_raise i mv) + bit (m i)
perform_balance quiet m i h = omega arith
perform_balance (raise j) m i h = ground arith
perform_balance (receive j) m i h = ground arith

-- `source_event_reset` between its store and its sums.
abbrev midway : EpPc → ℕ → ℕ
midway (tally j) i = bit (i == j)
midway _ i = 0

pub account-count : (s : Source) → (account s).count ≤ s.count + 1
unfolding account
account-count s = ground arith

module _ (c : Config) (n : ℕ) where
  ep_step-count :
      (p : EpPc) (now : Option Ts) (s : System) (i : ℕ)
      → s.ep.pc ≡ p
      → ((ep_step c n p now s).sources i).count + midway (ep_step c n p now s).ep.pc i
        ≤ (s.sources i).count + midway p i + bit (is_receive i (ep_effect p))
  unfolding ep_step
  ep_step-count test now s i e = ground arith
  ep_step-count (tally j) now s i e = ground (arith, account-count (s.sources j))
  ep_step-count p now s i e = ground arith

  pub src_step-count :
      (p : SrcPc) (j : ℕ) (now : Option Ts) (slept : Bool) (s : System) (i : ℕ)
      → (((src_step c n p j now slept s).sources i).count ≡ (s.sources i).count)
        × ((src_step c n p j now slept s).ep.pc ≡ s.ep.pc)
  unfolding src_step
  src_step-count check j now slept s i = (ground arith, refl)
  src_step-count nap j now slept s i = (ground arith, refl)
  src_step-count p j now slept s i = (ground arith, refl)

  step-count :
      (a : Action) (s : System) (i : ℕ)
      → ((step c n a s).sources i).count + midway (step c n a s).ep.pc i
        ≤ (s.sources i).count + midway s.ep.pc i + bit (is_receive i (move_of n s a))
  unfolding step
  step-count (ep now) s i = ep_step-count s.ep.pc now s i refl
  step-count (src j now slept) s i = elim (Bool-cases (ltb j n)) [
    | inl within ↦
        let (same, at) = src_step-count (s.src_pc j) j now slept s i in
        rw (within, same, at) (omega arith)
    | inr beyond ↦ rw beyond (omega arith)
  ]
  step-count wake s i = omega arith
  step-count stop_ep s i = omega arith
  step-count (stop_src j) s i = ground arith

  run_received :
      (acts : List Action) (s : System) (i : ℕ)
      → ((run c n acts s).sources i).count
        ≤ (s.sources i).count + midway s.ep.pc i + count_moves (is_receive i) (moves c n acts s)
  unfolding run
  run_received [] s i = omega arith
  run_received (a ∷ acts) s i = omega (arith, step-count a s i, run_received acts (step c n a s) i)

  moves_balance :
      (acts : List Action) (s : System) (i : ℕ)
      → Held s
      → count_moves (is_receive i) (moves c n acts s) + bit (mailbox (run c n acts s) i)
        ≤ count_moves (is_raise i) (moves c n acts s) + bit (mailbox s i)
  unfolding run
  moves_balance [] s i h = omega arith
  moves_balance (a ∷ acts) s i h =
      let one = perform_balance (move_of n s a) (mailbox s) i (move_of-IsAllowed c n a s h) in
      let next = step-perform c n a s i in
      let rest = moves_balance acts (step c n a s) i (step-Held c n a s h) in
      omega (arith, ap bit next)

launch_counts :
    (c : Config) (n : ℕ) (now : Option Ts) (raw : System) (i : ℕ)
    → (((launch c now raw).sources i).count + midway (launch c now raw).ep.pc i ≡ 0)
      × (mailbox (launch c now raw) i ≡ false)
unfolding launch
launch_counts c n now raw i =
    (refl, ap is_active (init_source-Accounts (i + 1) now (raw.sources i)).1)

launch-Held : (c : Config) (now : Option Ts) (raw : System) → Held (launch c now raw)
unfolding launch Held
launch-Held c now raw = tt

-- In every build and every run, a source counts at most as many latencies as its event was received by the processor, and the event
-- was received at most as often as the source raised it; when it stands raised at the end, less often.
count-le-receives :
    (c : Config) (n : ℕ) (now : Option Ts) (raw : System) (acts : List Action) (i : ℕ)
    → (((run c n acts (launch c now raw)).sources i).count
        ≤ count_moves (is_receive i) (moves c n acts (launch c now raw)))
      × (count_moves (is_receive i) (moves c n acts (launch c now raw))
            + bit (mailbox (run c n acts (launch c now raw)) i)
          ≤ count_moves (is_raise i) (moves c n acts (launch c now raw)))
count-le-receives c n now raw acts i =
    let (none, clear) = launch_counts c n now raw i in
    (
      omega (arith, run_received c n acts (launch c now raw) i),
      omega (
        arith,
        moves_balance c n acts (launch c now raw) i (launch-Held c now raw),
        ap bit clear,
      ),
    )
