-- ===== src/System/Latencies.antt =====
-- The latencies that the processor accounts to a source in a run, whatever the source does meanwhile.
use wfey.Prelude.{
  ℕ, ◌+◌, ◌≡◌, refl, Bool, true, false, ◌||◌, Option, none, some, List, [], ◌∷◌, ltb, ◌==◌,
  if◌then◌else◌, arith, Bool-cases, inl, inr,
}
use wfey.Clock.{Ts, IsClock, ts_now}
use wfey.Config.{Config}
use wfey.Source.{Source, is_active, account}
use wfey.Source.Stats.{Accounts, lasted, account-Accounts, init_source-Accounts}
use wfey.System.{
  EpPc, SrcPc, test, wait, scan, work, stamp, store, tally, activate, System, Action, ep, src, wake,
  stop_ep, stop_src, ep_step, src_step, step, run, launch,
}

-- The clock answers, whether a step asks it or not.
abbrev pub IsAnswered : Option Ts → Type 0
IsAnswered none = ⊥
IsAnswered (some t) = IsClock t

abbrev pub Answered : Action → Type 0
Answered (ep now) = IsAnswered now
Answered (src i now slept) = IsAnswered now
Answered _ = Unit

abbrev pub AllAnswered : List Action → Type 0
AllAnswered [] = Unit
AllAnswered (a ∷ acts) = Answered a × AllAnswered acts

-- The latencies of source `i` behind a step of the processor: one more where it stands before the sums of the source, if the event ends
-- later than it begins.
abbrev pub measured : ℕ → EpPc → System → List ℕ → List ℕ
measured i (tally j) s ls =
    if i == j then lasted (s.sources i).start_ts (s.sources i).end_ts ls else ls
measured i _ s ls = ls

abbrev pub logged : ℕ → Action → System → List ℕ → List ℕ
logged i (ep now) s ls = measured i s.ep.pc s ls
logged i _ s ls = ls

module _ (c : Config) (n : ℕ) where
  unfoldable pub log : ℕ → List Action → System → List ℕ → List ℕ
  log i [] s ls = ls
  log i (a ∷ acts) s ls = log i acts (step c n a s) (logged i a s ls)

-- The processor has seen the event of source `i` and not yet gone on; and it has stamped its end.
abbrev is_at_event : EpPc → ℕ → Bool
is_at_event (work j) i = i == j
is_at_event (stamp j) i = i == j
is_at_event (store j) i = i == j
is_at_event (tally j) i = i == j
is_at_event _ i = false

abbrev is_stamped : EpPc → ℕ → Bool
is_stamped (store j) i = i == j
is_stamped (tally j) i = i == j
is_stamped _ i = false

abbrev is_at_activate : SrcPc → Bool
is_at_activate activate = true
is_at_activate _ = false

-- Wherever a stamp is used, the clock has given it; the memory that main allocates need not hold times.
abbrev Stamps : ℕ → EpPc → SrcPc → Source → Type 0
Stamps i p sp x =
    ((is_active x.state || is_at_activate sp || is_at_event p i) ≡ true → IsClock x.start_ts)
    × (is_stamped p i ≡ true → IsClock x.end_ts)

abbrev Logs : ℕ → System → List ℕ → Type 0
Logs i s ls =
    Stamps i s.ep.pc (s.src_pc i) (s.sources i)
    × Accounts (s.sources i) ls
    × ((s.sources i).id ≡ i + 1)

-- The sums of a source leave its event.
account-same :
    (x : Source)
    → ((account x).start_ts ≡ x.start_ts)
      × ((account x).end_ts ≡ x.end_ts)
      × ((account x).state ≡ x.state)
      × ((account x).id ≡ x.id)
unfolding account
account-same x = ground arith

module _ (c : Config) (n i : ℕ) where
  ep_step-Stamps :
      (p : EpPc) (t : Ts) (s : System)
      → s.ep.pc ≡ p
      → IsClock t
      → Stamps i p (s.src_pc i) (s.sources i)
      → Stamps i
          (ep_step c n p (some t) s).ep.pc
          ((ep_step c n p (some t) s).src_pc i)
          ((ep_step c n p (some t) s).sources i)
  unfolding ep_step ts_now
  ep_step-Stamps test t s e v h = ground arith
  ep_step-Stamps wait t s e v h = ground arith
  ep_step-Stamps (scan j) t s e v h = ground arith
  ep_step-Stamps (tally j) t s e v h = ground (arith, account-same (s.sources j))
  ep_step-Stamps p t s e v h = ground arith

  src_step-Stamps :
      (p : SrcPc) (j : ℕ) (t : Ts) (slept : Bool) (s : System)
      → s.src_pc j ≡ p
      → IsClock t
      → Stamps i s.ep.pc (s.src_pc i) (s.sources i)
      → Stamps i
          (src_step c n p j (some t) slept s).ep.pc
          ((src_step c n p j (some t) slept s).src_pc i)
          ((src_step c n p j (some t) slept s).sources i)
  unfolding src_step ts_now
  src_step-Stamps p j t slept s e v h = ground arith

  ep_step-Accounts :
      (p : EpPc) (t : Ts) (s : System) (ls : List ℕ)
      → Stamps i p (s.src_pc i) (s.sources i)
      → Accounts (s.sources i) ls
      → Accounts ((ep_step c n p (some t) s).sources i) (measured i p s ls)
  unfolding ep_step
  ep_step-Accounts (tally j) t s ls (begun, ended) a = elim (Bool-cases (i == j)) [
    | inl same ↦ ground (arith, account-Accounts (s.sources i) ls a)
    | inr other ↦ ground arith
  ]
  ep_step-Accounts (stamp j) t s ls h a = ground arith
  ep_step-Accounts (store j) t s ls h a = ground arith
  ep_step-Accounts p t s ls h a = ground arith

  src_step-Accounts :
      (p : SrcPc) (j : ℕ) (t : Ts) (slept : Bool) (s : System) (ls : List ℕ)
      → Accounts (s.sources i) ls
      → Accounts ((src_step c n p j (some t) slept s).sources i) ls
  unfolding src_step
  src_step-Accounts p j t slept s ls a = ground arith

  ep_step-id :
      (p : EpPc) (t : Ts) (s : System)
      → ((ep_step c n p (some t) s).sources i).id ≡ (s.sources i).id
  unfolding ep_step
  ep_step-id (tally j) t s = ground (arith, account-same (s.sources j))
  ep_step-id p t s = ground arith

  src_step-id :
      (p : SrcPc) (j : ℕ) (t : Ts) (slept : Bool) (s : System)
      → ((src_step c n p j (some t) slept s).sources i).id ≡ (s.sources i).id
  unfolding src_step
  src_step-id p j t slept s = ground arith

  step-Logs :
      (a : Action) (s : System) (ls : List ℕ)
      → Answered a
      → Logs i s ls
      → Logs i (step c n a s) (logged i a s ls)
  unfolding step
  step-Logs (ep (some t)) s ls v (stamps, accounts, id) = (
    ep_step-Stamps s.ep.pc t s refl v stamps,
    ep_step-Accounts s.ep.pc t s ls stamps accounts,
    rw (ep_step-id s.ep.pc t s) id,
  )
  step-Logs (src j (some t) slept) s ls v (stamps, accounts, id) = elim (Bool-cases (ltb j n)) [
    | inl within ↦ rw within (
      src_step-Stamps (s.src_pc j) j t slept s refl v stamps,
      src_step-Accounts (s.src_pc j) j t slept s ls accounts,
      rw (src_step-id (s.src_pc j) j t slept s) id,
    )
    | inr beyond ↦ rw beyond (stamps, accounts, id)
  ]
  step-Logs (ep none) s ls v h = absurd v
  step-Logs (src j none slept) s ls v h = absurd v
  step-Logs wake s ls v h = h
  step-Logs stop_ep s ls v h = h
  step-Logs (stop_src j) s ls v h = ground arith

  pub run-Logs :
      (acts : List Action) (s : System) (ls : List ℕ)
      → AllAnswered acts
      → Logs i s ls
      → Logs i (run c n acts s) (log c n i acts s ls)
  unfolding run log
  run-Logs [] s ls v h = h
  run-Logs (a ∷ acts) s ls (one, rest) h =
      run-Logs acts (step c n a s) (logged i a s ls) rest (step-Logs a s ls one h)

pub launch-Logs :
    (c : Config) (now : Option Ts) (raw : System) (i : ℕ) → Logs i (launch c now raw) []
unfolding launch
launch-Logs c now raw i =
    let (accounts, state, id) = init_source-Accounts (i + 1) now (raw.sources i) in
    ground (arith, accounts, state, id)
