-- ===== src/Main/Life.antt =====
-- The lives of the threads that `main` of wfey.c creates: epThread, sourceThread and idleThread, the three barriers at which they
-- meet `main`, the memory of `Sources`, and the flags and signals that end them. One event processor, as `main` demands.
pub mod Order
pub mod Steps
pub mod Course
pub mod Runs
pub mod Sweeps
pub mod Alone
pub mod End
pub mod Access
pub mod Race
use wfey.Prelude.{
  ℕ, zero, suc, ◌+◌, Bool, true, false, Option, none, some, List, [], ◌∷◌, length, ltb, ◌==◌, ◌&&◌,
  if◌then◌else◌, update,
}
use wfey.Prelude.Int.{pos}
use wfey.Config.{Config}
use wfey.Main.Cores.{Plan, plan_cores}

-- Where `main` stands.
pub data MainPc : Type 0 where
  create_ep : MainPc
  at_epbarrier : MainPc
  make_sources : MainPc
  set_up_source : ℕ → MainPc
  create_source : ℕ → MainPc
  count_cores : MainPc
  at_srcbarrier : MainPc
  asleep : MainPc
  stop_ep : MainPc
  signal_ep : MainPc  -- behind the store of the end flag, before `pthread_kill`
  at_epbarrier_again : MainPc
  stop_source : ℕ → MainPc
  signal_source : ℕ → MainPc
  at_endbarrier : MainPc
  report_sources : MainPc
  exited : MainPc
  failed : MainPc  -- the exit for too many threads

-- Where a thread stands: not created, before its first barrier, at it, at the head of its loop, where it waits in the loop (in WFE, or
-- asleep), in a pass over the sources, at its last barrier, and behind that.
pub data Phase : Type 0 where
  absent : Phase
  preparing : Phase
  ready : Phase
  looping : Phase
  waiting : Phase
  scanning : Phase
  stopping : Phase
  gone : Phase

-- `Sources`: the null pointer, an array whose first members are set up, or freed.
pub data Memory : Type 0 where
  null : Memory
  set_up : ℕ → Memory
  released : Memory

pub record Life : Type 0 where
  pub main_pc : MainPc
  pub ep : Phase
  pub ep_end_flag : Bool
  pub pressed : Bool  -- the doorbell
  pub src : ℕ → Phase
  pub src_end_flag : ℕ → Bool
  pub idle : ℕ → Phase
  pub idles : ℕ
  pub endbarrier : Option ℕ  -- its count
  pub sources : Memory

-- A step of `main` by itself, of the processor, of a source or an idle thread, and the release of those that wait at a barrier.
pub data Event : Type 0 where
  main : Event
  ep : Event
  src : ℕ → Event
  idle : ℕ → Event
  meet_ep : Event
  meet_src : Event
  meet_ep_again : Event
  meet_end : Event

abbrev pub is_ready : Phase → Bool
is_ready ready = true
is_ready _ = false

abbrev pub is_stopping : Phase → Bool
is_stopping stopping = true
is_stopping _ = false

-- How many of the first `n` threads pass a test.
abbrev pub tally : (Phase → Bool) → (ℕ → Phase) → ℕ → ℕ
tally p f zero = 0
tally p f (suc n) = (if p (f n) then 1 else 0) + tally p f n

-- What a barrier does to the thread that waits at it.
abbrev pub pass_gate : Phase → Phase
pass_gate ready = looping
pass_gate stopping = gone
pass_gate p = p

module _ (c : Config) (n total_cpu : ℕ) where
  abbrev pub adopt : Life → Option Plan → Life
  adopt s none = record s { main_pc = failed }
  adopt s (some plan) = record s {
    main_pc = at_srcbarrier;
    endbarrier = plan.endbarrier;
    idles = length plan.idle_cpus;
    idle = λ i. if ltb i (length plan.idle_cpus) then preparing else absent;
  }

  unfoldable pub main_step : MainPc → Life → Life
  main_step create_ep s = record s { main_pc = at_epbarrier; ep = preparing; ep_end_flag = false }
  main_step make_sources s = record s { main_pc = set_up_source 0; sources = set_up 0 }
  main_step (set_up_source i) s =
      if ltb i n
      then record s { main_pc = set_up_source (i + 1); sources = set_up (i + 1) }
      else record s { main_pc = create_source 0 }
  main_step (create_source i) s =
      if ltb i n
      then record s {
        main_pc = create_source (i + 1);
        src = update s.src i preparing;
        src_end_flag = update s.src_end_flag i false;
      }
      else record s { main_pc = count_cores }
  main_step count_cores s = adopt s (plan_cores (pos 1) (pos n) total_cpu)
  main_step asleep s = record s { main_pc = stop_ep }
  main_step stop_ep s = record s { main_pc = signal_ep; ep_end_flag = true }
  main_step signal_ep s = record s { main_pc = at_epbarrier_again }
  main_step (stop_source i) s =
      if ltb i n
      then record s { main_pc = signal_source i; src_end_flag = update s.src_end_flag i true }
      else record s { main_pc = at_endbarrier }
  main_step (signal_source i) s = record s { main_pc = stop_source (i + 1) }
  main_step report_sources s = record s { main_pc = exited; sources = released }
  main_step _ s = s

  -- A wait can end at any time, as WFE may without a wake-up. A doorbell that is not pressed then sends the processor back to
  -- the head of its loop; without a doorbell it goes on to the sources.
  unfoldable pub ep_move : Phase → Life → Life
  ep_move preparing s = record s {
    ep = ready;
    pressed = if c.use_doorbell then false else s.pressed;
  }
  ep_move looping s = record s { ep = if s.ep_end_flag then stopping else waiting }
  ep_move waiting s =
      if c.use_doorbell
      then record s { ep = if s.pressed then scanning else looping; pressed = false }
      else record s { ep = scanning }
  ep_move scanning s = record s { ep = looping }
  ep_move _ s = s

  unfoldable pub src_move : Phase → ℕ → Life → Life
  src_move preparing i s = record s { src = update s.src i ready }
  src_move looping i s = record s {
    src = update s.src i (if s.src_end_flag i then stopping else waiting);
  }
  src_move waiting i s = record s {
    src = update s.src i looping;
    pressed = if c.use_doorbell then true else s.pressed;
  }
  src_move _ i s = s

  unfoldable pub idle_move : Phase → ℕ → Life → Life
  idle_move preparing i s = record s { idle = update s.idle i stopping }
  idle_move _ i s = s

  abbrev pub starts_ep : MainPc → Phase → Bool
  starts_ep at_epbarrier ready = true
  starts_ep _ _ = false

  abbrev pub ends_ep : MainPc → Phase → Bool
  ends_ep at_epbarrier_again stopping = true
  ends_ep _ _ = false

  -- How many wait at `srcbarrier`, of `main` and the sources; and at `endbarrier`, of these and the idle threads.
  abbrev pub at_src : MainPc → Life → ℕ
  at_src at_srcbarrier s = 1 + tally is_ready s.src n
  at_src _ s = tally is_ready s.src n

  abbrev pub at_end : MainPc → Life → ℕ
  at_end at_endbarrier s = 1 + (tally is_stopping s.src n + tally is_stopping s.idle s.idles)
  at_end _ s = tally is_stopping s.src n + tally is_stopping s.idle s.idles

  -- Without initialisation of `endbarrier` its threads wait on: nothing is known of this case.
  abbrev pub is_full : Option ℕ → ℕ → Bool
  is_full none arrived = false
  is_full (some count) arrived = arrived == count

  unfoldable pub life_step : Event → Life → Life
  unfolding main_step ep_move src_move idle_move
  life_step main s = main_step s.main_pc s
  life_step ep s = ep_move s.ep s
  life_step (src i) s = if ltb i n then src_move (s.src i) i s else s
  life_step (idle i) s = if ltb i s.idles then idle_move (s.idle i) i s else s
  life_step meet_ep s =
      if starts_ep s.main_pc s.ep then record s { main_pc = make_sources; ep = looping } else s
  life_step meet_src s =
      if at_src s.main_pc s == n + 1
      then record s { main_pc = asleep; src = λ i. pass_gate (s.src i) }
      else s
  life_step meet_ep_again s =
      if ends_ep s.main_pc s.ep then record s { main_pc = stop_source 0; ep = gone } else s
  life_step meet_end s =
      if is_full s.endbarrier (at_end s.main_pc s)
      then record s {
        main_pc = report_sources;
        src = λ i. pass_gate (s.src i);
        idle = λ i. pass_gate (s.idle i);
      }
      else s

  unfoldable pub live : List Event → Life → Life
  unfolding life_step
  live [] s = s
  live (e ∷ rest) s = live rest (life_step e s)

-- `main` before its first thread; the other memory holds anything.
abbrev pub beginning : Life → Life
beginning raw = record raw {
  main_pc = create_ep;
  ep = absent;
  src = λ i. absent;
  idle = λ i. absent;
  endbarrier = none;
  sources = null;
}
