-- ===== src/Main/Life/Order.antt =====
-- What is true of the threads at each place of `main`, in any order of their steps.
use wfey.Prelude.{
  ℕ, zero, suc, ◌+◌, ◌≤◌, ◌<◌, ◌≡◌, refl, Bool, true, false, none, some, ltb, ◌==◌, if◌then◌else◌,
  arith, Bool-cases, inl, inr,
}
use wfey.Config.{Config}
use wfey.Main.Life.{
  MainPc, create_ep, at_epbarrier, make_sources, set_up_source, create_source, count_cores,
  at_srcbarrier, asleep, stop_ep, signal_ep, at_epbarrier_again, stop_source, signal_source,
  at_endbarrier, report_sources, exited, failed, Phase, absent, preparing, ready, looping, waiting,
  scanning, stopping, gone, Memory, null, set_up, released, Life, tally,
}

-- What `main` has done with a thread.
pub data Stage : Type 0 where
  unborn : Stage
  starts : Stage
  runs : Stage
  ends : Stage
  over : Stage

-- Where a thread can stand, with its end flag.
abbrev pub Fits : Stage → Phase → Bool → Type 0
Fits unborn absent flag = Unit
Fits starts preparing flag = flag ≡ false
Fits starts ready flag = flag ≡ false
Fits runs looping flag = flag ≡ false
Fits runs waiting flag = flag ≡ false
Fits runs scanning flag = flag ≡ false
Fits ends looping flag = flag ≡ true
Fits ends waiting flag = flag ≡ true
Fits ends scanning flag = flag ≡ true
Fits ends stopping flag = flag ≡ true
Fits over gone flag = Unit
Fits _ _ flag = ⊥

abbrev pub ep_stage : MainPc → Stage
ep_stage create_ep = unborn
ep_stage at_epbarrier = starts
ep_stage signal_ep = ends
ep_stage at_epbarrier_again = ends
ep_stage (stop_source i) = over
ep_stage (signal_source i) = over
ep_stage at_endbarrier = over
ep_stage report_sources = over
ep_stage exited = over
ep_stage _ = runs

abbrev pub src_stage : MainPc → ℕ → Stage
src_stage (create_source k) i = if ltb i k then starts else unborn
src_stage count_cores i = starts
src_stage at_srcbarrier i = starts
src_stage failed i = starts
src_stage asleep i = runs
src_stage stop_ep i = runs
src_stage signal_ep i = runs
src_stage at_epbarrier_again i = runs
src_stage (stop_source k) i = if ltb i k then ends else runs
src_stage (signal_source k) i = if ltb i (k + 1) then ends else runs
src_stage at_endbarrier i = ends
src_stage report_sources i = over
src_stage exited i = over
src_stage _ i = unborn

-- `Sources`, for `n` of them.
abbrev pub Holds : ℕ → MainPc → Memory → Type 0
Holds n create_ep sources = sources ≡ null
Holds n at_epbarrier sources = sources ≡ null
Holds n make_sources sources = sources ≡ null
Holds n (set_up_source i) sources = (i ≤ n) × (sources ≡ set_up i)
Holds n exited sources = sources ≡ released
Holds n failed sources = ⊥
Holds n _ sources = sources ≡ set_up n

-- Before `main` lets the sources go, nobody presses the doorbell.
abbrev pub Unpressed : Phase → Bool → Type 0
Unpressed absent pressed = Unit
Unpressed preparing pressed = Unit
Unpressed ready pressed = pressed ≡ false
Unpressed looping pressed = pressed ≡ false
Unpressed waiting pressed = pressed ≡ false
Unpressed _ pressed = ⊥

abbrev pub before_sources : MainPc → Bool
before_sources asleep = false
before_sources stop_ep = false
before_sources signal_ep = false
before_sources at_epbarrier_again = false
before_sources (stop_source i) = false
before_sources (signal_source i) = false
before_sources at_endbarrier = false
before_sources report_sources = false
before_sources exited = false
before_sources _ = true

abbrev pub after_cores : MainPc → Bool
after_cores at_srcbarrier = true
after_cores p = if before_sources p then false else true

abbrev pub while_idle : MainPc → Bool
while_idle report_sources = false
while_idle exited = false
while_idle p = after_cores p

-- An idle thread on its way to the barrier.
abbrev pub Comes : Phase → Type 0
Comes preparing = Unit
Comes stopping = Unit
Comes _ = ⊥

-- A source thread never goes through the sources.
abbrev pub IsPlain : Phase → Type 0
IsPlain scanning = ⊥
IsPlain _ = Unit

-- All that is kept.
pub record IsOrdered (c : Config) (n : ℕ) (s : Life) : Type 0 where
  pub of_ep : Fits (ep_stage s.main_pc) s.ep s.ep_end_flag
  pub of_src : (i : ℕ) → i < n → Fits (src_stage s.main_pc i) (s.src i) (s.src_end_flag i)
  pub of_memory : Holds n s.main_pc s.sources
  pub of_doorbell :
      before_sources s.main_pc ≡ true → c.use_doorbell ≡ true → Unpressed s.ep s.pressed
  pub of_barrier : s.endbarrier ≡ (if after_cores s.main_pc then some (n + s.idles + 1) else none)
  pub of_idle : while_idle s.main_pc ≡ true → (i : ℕ) → i < s.idles → Comes (s.idle i)
  pub of_plain : (i : ℕ) → i < n → IsPlain (s.src i)

pub tally-le : (p : Phase → Bool) (f : ℕ → Phase) (n : ℕ) → tally p f n ≤ n
tally-le p f zero = omega arith
tally-le p f (suc n) = ground (arith, tally-le p f n)

-- Where all pass the test, each does.
pub tally-all :
    (p : Phase → Bool) (f : ℕ → Phase) (n : ℕ) → tally p f n ≡ n → (i : ℕ) → i < n → p (f i) ≡ true
tally-all p f zero h i lt = absurd (omega arith)
tally-all p f (suc n) h i lt = elim (Bool-cases (p (f n))) [
  | inl here ↦ elim (Bool-cases (i == n)) [
    | inl last ↦ ground arith
    | inr before ↦ tally-all p f n (ground arith) i (ground arith)
  ]
  | inr missing ↦ absurd (ground (arith, tally-le p f n))
]

abbrev pub in_loop : Phase → Bool
in_loop looping = true
in_loop waiting = true
in_loop scanning = true
in_loop _ = false

-- The moves of a thread, by its stage.
pub ready-Fits : (st : Stage) (flag : Bool) → Fits st preparing flag → Fits st ready flag
ready-Fits starts flag h = h
ready-Fits st flag h = absurd h

-- From one place of the loop to another.
pub in_loop-Fits :
    (st : Stage) (p q : Phase) (flag : Bool)
    → in_loop p ≡ true
    → in_loop q ≡ true
    → Fits st p flag
    → Fits st q flag
in_loop-Fits st p q flag hp hq h = ground arith

pub look-Fits :
    (st : Stage) (flag pressed : Bool)
    → Fits st waiting flag
    → Fits st (if pressed then scanning else looping) flag
look-Fits st flag true h = in_loop-Fits st waiting scanning flag refl refl h
look-Fits st flag false h = in_loop-Fits st waiting looping flag refl refl h

-- The head of the loop.
pub turn-Fits :
    (st : Stage) (flag : Bool)
    → Fits st looping flag
    → Fits st (if flag then stopping else waiting) flag
turn-Fits runs flag h = ground arith
turn-Fits ends flag h = ground arith
turn-Fits st flag h = absurd h

-- Before the sources run, the processor is not told to end.
pub untold :
    (p : MainPc) (flag : Bool)
    → before_sources p ≡ true
    → Fits (ep_stage p) looping flag
    → flag ≡ false
untold create_ep flag b h = absurd h
untold at_epbarrier flag b h = absurd h
untold p flag b h = ground arith

-- Before that, no source is in its loop either.
pub unstarted :
    (p : MainPc) (i : ℕ) (flag : Bool)
    → before_sources p ≡ true
    → Fits (src_stage p i) looping flag
    → ⊥
unstarted (create_source k) i flag b h = ground arith
unstarted count_cores i flag b h = h
unstarted at_srcbarrier i flag b h = h
unstarted failed i flag b h = h
unstarted p i flag b h = ground arith
