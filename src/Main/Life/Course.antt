-- ===== src/Main/Life/Course.antt =====
-- The steps of `main` and the releases at a barrier against the order of Main/Life/Order.
use wfey.Prelude.{
  ℕ, ◌+◌, ◌<◌, ◌^◌, ◌≡◌, refl, Bool, true, false, Option, none, some, ltb, update, arith,
}
use wfey.Prelude.Int.{pos}
use wfey.Config.{Config}
use wfey.Main.Cores.{Plan, plan_cores, endbarrier-idle, plan_cores-exits}
use wfey.Main.Life.{
  MainPc, create_ep, make_sources, set_up_source, create_source, count_cores, asleep, stop_ep,
  signal_ep, signal_source, stop_source, at_endbarrier, report_sources, Phase, preparing, looping,
  waiting, scanning, set_up, Life, adopt, main_step,
}
use wfey.Main.Life.Order.{runs, ends, Fits, IsOrdered}
use wfey.Main.Life.Steps.{if-IsOrdered}

pub impossible : {A : Type 0} → false ≡ true → A
impossible h = absurd (ground arith)

-- A thread that is told to end.
told-Fits : (p : Phase) (flag : Bool) → Fits runs p flag → Fits ends p true
told-Fits looping flag h = refl
told-Fits waiting flag h = refl
told-Fits scanning flag h = refl
told-Fits p flag h = absurd h

module _ (c : Config) (n total : ℕ) (hn : n < 2 ^ 31) (room : n + 2 < total)
    (ht : total < 2 ^ 31) where
  adopt-IsOrdered :
      (s : Life) (found : Option Plan)
      → plan_cores (pos 1) (pos n) total ≡ found
      → s.main_pc ≡ count_cores
      → IsOrdered c n s
      → IsOrdered c n (adopt c n total s found)
  adopt-IsOrdered s none planned e v =
      let (little, _) = plan_cores-exits n total hn (omega arith) ht in
      absurd (omega (arith, little planned))
  adopt-IsOrdered s (some plan) planned e v = record {
    of_ep = rw e at v.of_ep;
    of_src = rw e at v.of_src;
    of_memory = rw e at v.of_memory;
    of_doorbell = rw e at v.of_doorbell;
    of_barrier = endbarrier-idle n total hn (omega arith) ht plan room planned;
    of_idle = λ h i lt. ground arith;
    of_plain = v.of_plain;
  }

  pub main_step-IsOrdered :
      (p : MainPc) (s : Life)
      → s.main_pc ≡ p
      → IsOrdered c n s
      → IsOrdered c n (main_step c n total p s)
  unfolding main_step
  main_step-IsOrdered create_ep s e v = record {
    of_ep = refl;
    of_src = rw e at v.of_src;
    of_memory = rw e at v.of_memory;
    of_doorbell = λ h u. tt;
    of_barrier = rw e at v.of_barrier;
    of_idle = rw e at v.of_idle;
    of_plain = v.of_plain;
  }
  main_step-IsOrdered make_sources s e v = record {
    of_ep = rw e at v.of_ep;
    of_src = rw e at v.of_src;
    of_memory = (omega arith, refl);
    of_doorbell = rw e at v.of_doorbell;
    of_barrier = rw e at v.of_barrier;
    of_idle = rw e at v.of_idle;
    of_plain = v.of_plain;
  }
  main_step-IsOrdered (set_up_source i) s e v =
      let (le, at_i) = rw e at v.of_memory in
      let fits = rw e at v.of_src in
      if-IsOrdered c n total {b = ltb i n}
        {s = record s { main_pc = set_up_source (i + 1); sources = set_up (i + 1) }}
        {t = record s { main_pc = create_source 0 }}
        (λ more. record {
          of_ep = rw e at v.of_ep;
          of_src = rw e at v.of_src;
          of_memory = (ground arith, refl);
          of_doorbell = rw e at v.of_doorbell;
          of_barrier = rw e at v.of_barrier;
          of_idle = rw e at v.of_idle;
          of_plain = v.of_plain;
        })
        (λ last. record {
          of_ep = rw e at v.of_ep;
          of_src = λ j lt. ground (arith, fits j lt);
          of_memory = ground arith;
          of_doorbell = rw e at v.of_doorbell;
          of_barrier = rw e at v.of_barrier;
          of_idle = rw e at v.of_idle;
          of_plain = v.of_plain;
        })
  main_step-IsOrdered (create_source i) s e v =
      let fits = rw e at v.of_src in
      if-IsOrdered c n total {b = ltb i n}
        {s = record s {
          main_pc = create_source (i + 1);
          src = update s.src i preparing;
          src_end_flag = update s.src_end_flag i false;
        }}
        {t = record s { main_pc = count_cores }}
        (λ more. record {
          of_ep = rw e at v.of_ep;
          of_src = λ j lt. ground (arith, fits j lt);
          of_memory = rw e at v.of_memory;
          of_doorbell = rw e at v.of_doorbell;
          of_barrier = rw e at v.of_barrier;
          of_idle = rw e at v.of_idle;
          of_plain = λ j lt. ground (arith, v.of_plain j lt);
        })
        (λ last. record {
          of_ep = rw e at v.of_ep;
          of_src = λ j lt. ground (arith, fits j lt);
          of_memory = rw e at v.of_memory;
          of_doorbell = rw e at v.of_doorbell;
          of_barrier = rw e at v.of_barrier;
          of_idle = rw e at v.of_idle;
          of_plain = v.of_plain;
        })
  main_step-IsOrdered count_cores s e v =
      adopt-IsOrdered s (plan_cores (pos 1) (pos n) total) refl e v
  main_step-IsOrdered asleep s e v = record {
    of_ep = rw e at v.of_ep;
    of_src = rw e at v.of_src;
    of_memory = rw e at v.of_memory;
    of_doorbell = rw e at v.of_doorbell;
    of_barrier = rw e at v.of_barrier;
    of_idle = rw e at v.of_idle;
    of_plain = v.of_plain;
  }
  main_step-IsOrdered stop_ep s e v = record {
    of_ep = told-Fits s.ep s.ep_end_flag (rw e at v.of_ep);
    of_src = rw e at v.of_src;
    of_memory = rw e at v.of_memory;
    of_doorbell = impossible;
    of_barrier = rw e at v.of_barrier;
    of_idle = rw e at v.of_idle;
    of_plain = v.of_plain;
  }
  main_step-IsOrdered (stop_source i) s e v =
      let fits = rw e at v.of_src in
      if-IsOrdered c n total {b = ltb i n}
        {s = record s { main_pc = signal_source i; src_end_flag = update s.src_end_flag i true }}
        {t = record s { main_pc = at_endbarrier }}
        (λ more. record {
          of_ep = rw e at v.of_ep;
          of_src = λ j lt. ground (arith, fits j lt, told-Fits (s.src j) (s.src_end_flag j));
          of_memory = rw e at v.of_memory;
          of_doorbell = impossible;
          of_barrier = rw e at v.of_barrier;
          of_idle = rw e at v.of_idle;
          of_plain = v.of_plain;
        })
        (λ last. record {
          of_ep = rw e at v.of_ep;
          of_src = λ j lt. ground (arith, fits j lt);
          of_memory = rw e at v.of_memory;
          of_doorbell = impossible;
          of_barrier = rw e at v.of_barrier;
          of_idle = rw e at v.of_idle;
          of_plain = v.of_plain;
        })
  main_step-IsOrdered signal_ep s e v = record {
    of_ep = rw e at v.of_ep;
    of_src = rw e at v.of_src;
    of_memory = rw e at v.of_memory;
    of_doorbell = impossible;
    of_barrier = rw e at v.of_barrier;
    of_idle = rw e at v.of_idle;
    of_plain = v.of_plain;
  }
  main_step-IsOrdered (signal_source i) s e v = record {
    of_ep = rw e at v.of_ep;
    of_src = rw e at v.of_src;
    of_memory = rw e at v.of_memory;
    of_doorbell = impossible;
    of_barrier = rw e at v.of_barrier;
    of_idle = rw e at v.of_idle;
    of_plain = v.of_plain;
  }
  main_step-IsOrdered report_sources s e v = record {
    of_ep = rw e at v.of_ep;
    of_src = rw e at v.of_src;
    of_memory = refl;
    of_doorbell = impossible;
    of_barrier = rw e at v.of_barrier;
    of_idle = rw e at v.of_idle;
    of_plain = v.of_plain;
  }
  main_step-IsOrdered p s e v = v
