-- ===== src/Main/Life/Access.antt =====
-- The memory of the sources while threads use it, and the threads that `main` sends a signal to.
use wfey.Prelude.{ℕ, ◌+◌, ◌<◌, ◌^◌, ◌≡◌, refl, Bool, true, List}
use wfey.Config.{Config}
use wfey.Main.Life.{
  failed, MainPc, create_ep, at_epbarrier, make_sources, set_up_source, asleep, stop_ep, signal_ep,
  at_epbarrier_again, stop_source, signal_source, at_endbarrier, report_sources, exited, Phase,
  looping, scanning, Memory, set_up, Life, Event, live, beginning,
}
use wfey.Main.Life.Order.{
  in_loop, in_loop-Fits, Fits, Holds, Unpressed, ep_stage, src_stage, before_sources,
}
use wfey.Main.Life.Runs.{live-IsOrdered}

-- Who uses a source: the processor in a pass over them, a source thread in its loop, and `main` where it tells them to end and
-- where it reports.
pub data Uses (n : ℕ) (s : Life) : Type 0 where
  by_ep : s.ep ≡ scanning → Uses n s
  by_src : (i : ℕ) → i < n → in_loop (s.src i) ≡ true → Uses n s
  by_stop : (i : ℕ) → s.main_pc ≡ stop_source i → Uses n s
  by_signal : (i : ℕ) → s.main_pc ≡ signal_source i → Uses n s
  by_report : s.main_pc ≡ report_sources → Uses n s

held_for_ep :
    (n : ℕ) (p : MainPc) (flag bell : Bool) (m : Memory)
    → Fits (ep_stage p) scanning flag
    → (before_sources p ≡ true → Unpressed scanning bell)
    → Holds n p m
    → m ≡ set_up n
held_for_ep n asleep flag bell m f q h = h
held_for_ep n stop_ep flag bell m f q h = h
held_for_ep n signal_ep flag bell m f q h = h
held_for_ep n at_epbarrier_again flag bell m f q h = h
held_for_ep n (stop_source i) flag bell m f q h = absurd f
held_for_ep n (signal_source i) flag bell m f q h = absurd f
held_for_ep n at_endbarrier flag bell m f q h = absurd f
held_for_ep n report_sources flag bell m f q h = absurd f
held_for_ep n exited flag bell m f q h = absurd f
held_for_ep n p flag bell m f q h = absurd (q refl)

held_for_src :
    (n : ℕ) (p : MainPc) (i : ℕ) (flag : Bool) (m : Memory)
    → Fits (src_stage p i) looping flag
    → Holds n p m
    → m ≡ set_up n
held_for_src n create_ep i flag m f h = absurd f
held_for_src n at_epbarrier i flag m f h = absurd f
held_for_src n make_sources i flag m f h = absurd f
held_for_src n (set_up_source k) i flag m f h = absurd f
held_for_src n exited i flag m f h = absurd f
held_for_src n failed i flag m f h = absurd h
held_for_src n p i flag m f h = h

-- The threads that `main` signals at its next step, with their end flags.
pub data Signals (n : ℕ) (s : Life) : Phase → Bool → Type 0 where
  to_ep : s.main_pc ≡ signal_ep → Signals n s s.ep s.ep_end_flag
  to_src : (i : ℕ) → s.main_pc ≡ signal_source i → i < n → Signals n s (s.src i) (s.src_end_flag i)

module _ (c : Config) (n total : ℕ) (hn : n < 2 ^ 31) (room : n + 2 < total) (ht : total < 2 ^ 31)
    (events : List Event) (raw : Life) where
  -- In a build with a doorbell, with an idle core, and in any order of the threads' steps: whenever the processor goes through the
  -- sources, a source thread is in its loop, or `main` ends the sources or reports, all sources are set up and not freed yet.
  pub sources-held :
      c.use_doorbell ≡ true
      → Uses n (live c n total events (beginning raw))
      → (live c n total events (beginning raw)).sources ≡ set_up n
  sources-held bell used =
      let s = live c n total events (beginning raw) in
      let v = live-IsOrdered c n total hn room ht events raw in
      elim used [
        | by_ep e ↦
            held_for_ep n s.main_pc s.ep_end_flag s.pressed s.sources (rw e at v.of_ep)
              (λ h. rw e at (v.of_doorbell h bell)) v.of_memory
        | by_src i lt e ↦
            held_for_src n s.main_pc i (s.src_end_flag i) s.sources
              (in_loop-Fits (src_stage s.main_pc i) (s.src i) looping (s.src_end_flag i) e refl
                (v.of_src i lt))
              v.of_memory
        | by_stop i e ↦ rw e at v.of_memory
        | by_signal i e ↦ rw e at v.of_memory
        | by_report e ↦ rw e at v.of_memory
      ]
