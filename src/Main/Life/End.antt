-- ===== src/Main/Life/End.antt =====
-- The way of `main` to its end, from wherever the threads are.
use wfey.Prelude.{
  ℕ, ◌+◌, ◌<◌, ◌^◌, ◌≡◌, refl, ◌∙◌, ap, true, Option, none, some, List, [], ◌∷◌, ◌++◌, ltb, ◌==◌,
  arith, lt→ltb,
}
use wfey.Prelude.Int.{pos}
use wfey.Config.{Config}
use wfey.Main.Life.{
  MainPc, create_ep, at_epbarrier, make_sources, set_up_source, create_source, count_cores,
  at_srcbarrier, asleep, stop_ep, signal_ep, signal_source, at_epbarrier_again, stop_source,
  at_endbarrier, report_sources, exited, failed, Life, Event, main, src, idle, meet_src, meet_end,
  is_ready, is_stopping, tally, life_step, live, beginning, at_src, at_end, is_full,
}
use wfey.Main.Life.Order.{IsOrdered}
use wfey.Main.Life.Runs.{live_from-IsOrdered, live-IsOrdered}
use wfey.Main.Cores.{Plan, plan_cores, plan_cores-exits}
use wfey.Main.Life.Sweeps.{
  ComesTo, live-one, sweep, src_ready, src_stopping, idle_stopping, idle_stopping_idles,
  live-append,
}
use wfey.Main.Life.Alone.{
  CanEnd, EndsFrom, after, then_from, from_report, from_again, from_epbarrier, from_stop_source,
  from_create_source, from_set_up_source, from_stop_ep, from_signal_ep, from_signal_source,
  from_asleep, from_make, from_create_ep,
}

module _ (c : Config) (n total : ℕ) (hn : n < 2 ^ 31) (room : n + 2 < total)
    (ht : total < 2 ^ 31) where
  finds_cores :
      (s : Life) (found : Option Plan)
      → plan_cores (pos 1) (pos n) total ≡ found
      → s.main_pc ≡ count_cores
      → (life_step c n total main s).main_pc ≡ at_srcbarrier
  unfolding life_step
  finds_cores s none planned e =
      let (little, _) = plan_cores-exits n total hn (omega arith) ht in
      absurd (omega (arith, little planned))
  finds_cores s (some plan) planned e = rw (e, planned) refl

  from_count :
      EndsFrom c n total hn room ht at_srcbarrier → EndsFrom c n total hn room ht count_cores
  unfolding EndsFrom
  from_count next s v e =
      then_from c n total hn room ht at_srcbarrier (main ∷ []) s next v
        (ap (λ t. t.main_pc) (live-one c n total main s) ∙ finds_cores s _ refl e)

  Nothing : Life → Type 0
  Nothing s = Unit

  src_comes :
      (k : ℕ) (s : Life)
      → k < n
      → IsOrdered c n s
      → s.main_pc ≡ at_srcbarrier
      → Nothing s
      → ComesTo c n total is_ready (λ s. s.src) k s (live c n total (src k ∷ []) s) × Nothing s
  unfolding live Nothing
  src_comes k s lt v e u =
      (rw (lt→ltb k n lt) (src_ready c n total (s.src k) k s refl (rw e at (v.of_src k lt))), tt)

  src_meet :
      (s : Life)
      → s.main_pc ≡ at_srcbarrier
      → tally is_ready s.src n ≡ n
      → (life_step c n total meet_src s).main_pc ≡ asleep
  unfolding life_step
  src_meet s e all =
      let full : (at_src c n total s.main_pc s == n + 1) ≡ true = rw (e, all) (ground arith) in
      rw full refl

  from_srcbarrier :
      EndsFrom c n total hn room ht asleep → EndsFrom c n total hn room ht at_srcbarrier
  unfolding EndsFrom Nothing
  from_srcbarrier next s v e =
      let (events, g) =
        sweep c n total hn room ht is_ready (λ s. s.src) at_srcbarrier Nothing (λ k. src k ∷ []) n
          src_comes n s (omega arith) v e tt in
      let t = live c n total events s in
      after c n total hn room ht events s (
        then_from c n total hn room ht asleep (meet_src ∷ []) t next
          (live_from-IsOrdered c n total hn room ht events s v)
          (ap (λ t. t.main_pc) (live-one c n total meet_src t) ∙ src_meet t g.pc g.all))

  -- At the last barrier, with `m` idle threads: first these come, then the sources.
  Idles : ℕ → Life → Type 0
  Idles m s = s.idles ≡ m

  idle_comes :
      (m k : ℕ) (s : Life)
      → k < m
      → IsOrdered c n s
      → s.main_pc ≡ at_endbarrier
      → Idles m s
      → ComesTo c n total is_stopping (λ s. s.idle) k s (live c n total (idle k ∷ []) s)
        × Idles m (live c n total (idle k ∷ []) s)
  unfolding live Idles
  idle_comes m k s lt v e same =
      let within : ltb k s.idles ≡ true = lt→ltb k s.idles (rw same lt) in
      (
        rw within
            (idle_stopping c n total (s.idle k) k s refl (rw e at v.of_idle refl k (rw same lt))),
        rw within (idle_stopping_idles c n total (s.idle k) k s ∙ same),
      )

  AllIdle : ℕ → Life → Type 0
  AllIdle m s = (s.idles ≡ m) × (tally is_stopping s.idle m ≡ m)

  src_stops :
      (m k : ℕ) (s : Life)
      → k < n
      → IsOrdered c n s
      → s.main_pc ≡ at_endbarrier
      → AllIdle m s
      → ComesTo c n total is_stopping (λ s. s.src) k s (live c n total (src k ∷ src k ∷ []) s)
        × AllIdle m (live c n total (src k ∷ src k ∷ []) s)
  unfolding AllIdle
  src_stops m k s lt v e (same, all) =
      let t = src_stopping c n total k s lt (v.of_plain k lt) (rw e at (v.of_src k lt)) in
      (
        record { pc = t.pc; here = rw t.here refl; below = t.below },
        (t.idles ∙ same, rw t.idle all),
      )

  end_meet :
      (m : ℕ) (s : Life)
      → IsOrdered c n s
      → s.main_pc ≡ at_endbarrier
      → tally is_stopping s.src n ≡ n
      → AllIdle m s
      → (life_step c n total meet_end s).main_pc ≡ report_sources
  unfolding life_step AllIdle
  end_meet m s v e all (same, idles) =
      let barrier : s.endbarrier ≡ some (n + s.idles + 1) = rw e at v.of_barrier in
      let full : is_full c n total s.endbarrier (at_end c n total s.main_pc s) ≡ true =
        rw (barrier, e, same, all, idles) (ground arith) in
      rw full refl

  from_endbarrier : EndsFrom c n total hn room ht at_endbarrier
  unfolding EndsFrom Idles AllIdle
  from_endbarrier s v e =
      let m = s.idles in
      let (events, g) =
        sweep c n total hn room ht is_stopping (λ s. s.idle) at_endbarrier (Idles m)
          (λ k. idle k ∷ []) m (idle_comes m) m s (omega arith) v e refl in
      let t = live c n total events s in
      let vt = live_from-IsOrdered c n total hn room ht events s v in
      let (more, h) =
        sweep c n total hn room ht is_stopping (λ s. s.src) at_endbarrier (AllIdle m)
          (λ k. src k ∷ src k ∷ []) n (src_stops m) n t (omega arith) vt g.pc (g.kept, g.all) in
      let u = live c n total more t in
      let vu = live_from-IsOrdered c n total hn room ht more t vt in
      after c n total hn room ht events s (
        after c n total hn room ht more t (
          then_from c n total hn room ht report_sources (meet_end ∷ []) u
            (from_report c n total hn room ht) vu
            (ap (λ t. t.main_pc) (live-one c n total meet_end u)
              ∙ end_meet m u vu h.pc h.all h.kept)))

  from_again_on : EndsFrom c n total hn room ht at_epbarrier_again
  from_again_on =
      from_again c n total hn room ht
        (from_stop_source c n total hn room ht n 0 (omega arith) from_endbarrier)

  from_srcbarrier_on : EndsFrom c n total hn room ht at_srcbarrier
  from_srcbarrier_on =
      from_srcbarrier
        (from_asleep c n total hn room ht (from_stop_ep c n total hn room ht from_again_on))

  from_create_source_on : (i : ℕ) → EndsFrom c n total hn room ht (create_source i)
  from_create_source_on i =
      from_create_source c n total hn room ht n i (omega arith) (from_count from_srcbarrier_on)

  from_set_up_source_on : (i : ℕ) → EndsFrom c n total hn room ht (set_up_source i)
  from_set_up_source_on i =
      from_set_up_source c n total hn room ht n i (omega arith) (from_create_source_on 0)

  from_exited : EndsFrom c n total hn room ht exited
  unfolding EndsFrom CanEnd live
  from_exited s v e = ([], e)

  from_failed : EndsFrom c n total hn room ht failed
  unfolding EndsFrom
  from_failed s v e = absurd (rw e at v.of_memory)

  from_any : (p : MainPc) → EndsFrom c n total hn room ht p
  from_any create_ep = from_create_ep c n total hn room ht (
      from_epbarrier c n total hn room ht
        (from_make c n total hn room ht (from_set_up_source_on 0)))
  from_any at_epbarrier =
      from_epbarrier c n total hn room ht (from_make c n total hn room ht (from_set_up_source_on 0))
  from_any make_sources = from_make c n total hn room ht (from_set_up_source_on 0)
  from_any (set_up_source i) = from_set_up_source_on i
  from_any (create_source i) = from_create_source_on i
  from_any count_cores = from_count from_srcbarrier_on
  from_any at_srcbarrier = from_srcbarrier_on
  from_any asleep =
      from_asleep c n total hn room ht (from_stop_ep c n total hn room ht from_again_on)
  from_any stop_ep = from_stop_ep c n total hn room ht from_again_on
  from_any signal_ep = from_signal_ep c n total hn room ht from_again_on
  from_any at_epbarrier_again = from_again_on
  from_any (stop_source i) = from_stop_source c n total hn room ht n i (omega arith) from_endbarrier
  from_any (signal_source i) =
      from_signal_source c n total hn room ht i
        (from_stop_source c n total hn room ht n (i + 1) (omega arith) from_endbarrier)
  from_any at_endbarrier = from_endbarrier
  from_any report_sources = from_report c n total hn room ht
  from_any exited = from_exited
  from_any failed = from_failed

  ended_from :
      (s : Life)
      → EndsFrom c n total hn room ht s.main_pc
      → IsOrdered c n s
      → (more : List Event) × ((live c n total more s).main_pc ≡ exited)
  unfolding EndsFrom CanEnd
  ended_from s from v = from s v refl

  -- In every build, with an idle core, and where a wait in the loop of a thread can always end: whatever steps were done, in any
  -- order, there are further steps with which `main` comes to its exit. So no thread is left at a barrier for good for want of
  -- another.
  pub live-can_end :
      (events : List Event) (raw : Life)
      → (more : List Event) × ((live c n total (events ++ more) (beginning raw)).main_pc ≡ exited)
  live-can_end events raw =
      let s = live c n total events (beginning raw) in
      let (more, e) =
        ended_from s (from_any s.main_pc) (live-IsOrdered c n total hn room ht events raw) in
      (more, ap (λ t. t.main_pc) (live-append c n total events more (beginning raw)) ∙ e)
