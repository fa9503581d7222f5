-- ===== src/System/Mailbox/Delivery.antt =====
-- How soon the processor comes to an event.
use wfey.Prelude.{
  ℕ, ◌+◌, ◌*◌, ◌-◌, ◌≤◌, ◌<◌, ◌≡◌, ◌⊎◌, refl, Bool, true, false, ◌||◌, not, is_some, Option, List,
  [], ◌∷◌, ltb, leb, ◌==◌, if◌then◌else◌, arith, Bool-cases, inl, inr,
}
use wfey.Clock.{Ts}
use wfey.Config.{Config}
use wfey.Signal.{
  wfe, arm_monitor, doorbell_is_pressed_and_reset, doorbell_press, sev, doorbell_pressed,
}
use wfey.Source.{active}
use wfey.System.{
  EpPc, SrcPc, test, wait, rearm, take, scan, work, stamp, store, tally, done, check, press, System,
  Action, ep, src, wake, stop_ep, stop_src, ep_step, src_step, step,
}
use wfey.System.Inactive.{ep-src_step}
use wfey.System.Mailbox.{ep_effect, move_of, src_step-active}
use wfey.System.Mailbox.Counts.{moves, bit, is_receive, count_moves}

-- The steps that the processor can take: all but the one behind a `WFE` that goes on sleeping.
abbrev pub is_awake : EpPc → System → Bool
is_awake wait s = is_some (wfe s.hw)
is_awake _ s = true

abbrev pub is_free : System → Action → Bool
is_free s (ep now) = is_awake s.ep.pc s
is_free s _ = false

abbrev pub free_steps : Config → ℕ → List Action → System → ℕ
free_steps c n [] s = 0
free_steps c n (a ∷ acts) s = bit (is_free s a) + free_steps c n acts (step c n a s)

abbrev pub NoStop : List Action → Type 0
NoStop [] = Unit
NoStop (stop_ep ∷ acts) = ⊥
NoStop (_ ∷ acts) = NoStop acts

-- In the pass that is going on, the processor is still to come to the event.
abbrev is_before : ℕ → EpPc → Bool
is_before i (scan j) = leb j i
is_before i (work j) = leb j i
is_before i (stamp j) = leb j i
is_before i (store j) = leb j i
is_before i (tally j) = ltb j i
is_before i _ = false

-- The steps up to the reset of the event, at most.
abbrev pass_over : ℕ → ℕ → ℕ
pass_over n i = 5 * n + 5 * i + 9

abbrev distance : ℕ → ℕ → EpPc → ℕ
distance n i test = 5 * i + 8
distance n i wait = 5 * i + 7
distance n i rearm = 5 * i + 6
distance n i take = 5 * i + 5
distance n i (scan j) = if leb j i then 5 * (i - j) + 4 else pass_over (n - j) i
distance n i (work j) = if leb j i then 5 * (i - j) + 3 else pass_over (n - (j + 1)) i + 4
distance n i (stamp j) = if leb j i then 5 * (i - j) + 2 else pass_over (n - (j + 1)) i + 3
distance n i (store j) = if leb j i then 5 * (i - j) + 1 else pass_over (n - (j + 1)) i + 2
distance n i (tally j) = if ltb j i then 5 * (i - j) else pass_over (n - (j + 1)) i + 1
distance n i done = 1

distance_pos : (n i : ℕ) (p : EpPc) → 0 < distance n i p
distance_pos n i done = omega arith
distance_pos n i p = ground arith

distance_le : (n i : ℕ) (p : EpPc) → i < n → distance n i p ≤ 5 * n + 8
distance_le n i done h = omega arith
distance_le n i p h = ground arith

-- The processor is on its way to the event: it is before it, or will begin a pass.
abbrev pub Heads : Config → ℕ → EpPc → ℕ → Type 0
Heads c i done db = ⊥
Heads c i p db = (is_before i p || not c.use_doorbell || not (db == 0)) ≡ true

abbrev pub IsDue : Config → ℕ → EpPc → System → Type 0
IsDue c i p s = ((s.sources i).state ≡ active) × (s.ep.end_flag ≡ false) × Heads c i p s.hw.db

module _ (c : Config) (n i : ℕ) (h : i < n) where
  -- Either the event is received, or the processor comes nearer.
  ep_step-IsDue :
      (p : EpPc) (now : Option Ts) (s : System)
      → s.ep.pc ≡ p
      → is_receive i (ep_effect p) ≡ false
      → IsDue c i p s
      → IsDue c i (ep_step c n p now s).ep.pc (ep_step c n p now s)
        × (distance n i (ep_step c n p now s).ep.pc + bit (is_awake p s) ≤ distance n i p)
  unfolding ep_step wfe arm_monitor doorbell_is_pressed_and_reset
  ep_step-IsDue test now s e r d = ground arith
  ep_step-IsDue wait now s e r d = ground arith
  ep_step-IsDue rearm now s e r d = ground arith
  ep_step-IsDue take now s e r d = ground arith
  ep_step-IsDue (scan j) now s e r d = ground arith
  ep_step-IsDue (work j) now s e r d = ground arith
  ep_step-IsDue (stamp j) now s e r d = ground arith
  ep_step-IsDue (store j) now s e r d = ground arith
  ep_step-IsDue (tally j) now s e r d = ground arith
  ep_step-IsDue done now s e r d = absurd d.2

  Heads-pressed :
      (p : EpPc) (db db' : ℕ)
      → (db' ≡ db) ⊎ (db' ≡ doorbell_pressed)
      → Heads c i p db
      → Heads c i p db'
  Heads-pressed done db db' e d = d
  Heads-pressed p db db' e d = ground arith

  db-src_step :
      (p : SrcPc) (j : ℕ) (now : Option Ts) (slept : Bool) (s : System)
      → ((src_step c n p j now slept s).hw.db ≡ s.hw.db)
        ⊎ ((src_step c n p j now slept s).hw.db ≡ doorbell_pressed)
  unfolding src_step doorbell_press sev
  db-src_step check j now slept s = inl refl
  db-src_step press j now slept s = inr (ground arith)
  db-src_step p j now slept s = inl refl

  pub step-IsDue :
      (a : Action) (s : System)
      → NoStop (a ∷ [])
      → is_receive i (move_of n s a) ≡ false
      → IsDue c i s.ep.pc s
      → IsDue c i (step c n a s).ep.pc (step c n a s)
        × (distance n i (step c n a s).ep.pc + bit (is_free s a) ≤ distance n i s.ep.pc)
  unfolding step
  step-IsDue (ep now) s ns r d = ep_step-IsDue s.ep.pc now s refl r d
  step-IsDue (src j now slept) s ns r d = elim (Bool-cases (ltb j n)) [
    | inl within ↦
        rw (within, ep-src_step c n (s.src_pc j) j now slept s)
          (
            (
              src_step-active c n (s.src_pc j) j now slept s i d.0,
              d.1,
              Heads-pressed s.ep.pc s.hw.db _ (db-src_step (s.src_pc j) j now slept s) d.2,
            ),
            omega arith,
          )
    | inr beyond ↦ rw beyond (d, omega arith)
  ]
  step-IsDue wake s ns r d = (d, omega arith)
  step-IsDue stop_ep s ns r d = absurd ns
  step-IsDue (stop_src j) s ns r d = ((ground arith, d.1, d.2), omega arith)

  pub NoStop-cons :
      (a : Action) (acts : List Action) → NoStop (a ∷ acts) → NoStop (a ∷ []) × NoStop acts
  NoStop-cons stop_ep acts ns = absurd ns
  NoStop-cons a acts ns = (tt, ns)

-- From a state in which the event is due.
pub due_within :
    (c : Config) (n i : ℕ) (acts : List Action) (s : System)
    → i < n
    → IsDue c i s.ep.pc s
    → NoStop acts
    → 5 * n + 8 ≤ free_steps c n acts s
    → 0 < count_moves (is_receive i) (moves c n acts s)
due_within c n i acts s h d ns many = within acts s d ns (omega (arith, distance_le n i s.ep.pc h))
  where
    within :
        (acts : List Action) (s : System)
        → IsDue c i s.ep.pc s
        → NoStop acts
        → distance n i s.ep.pc ≤ free_steps c n acts s
        → 0 < count_moves (is_receive i) (moves c n acts s)
    within [] s d ns many = absurd (omega (arith, distance_pos n i s.ep.pc))
    within (a ∷ acts) s d ns many = elim (Bool-cases (is_receive i (move_of n s a))) [
      | inl now ↦ rw now (omega arith)
      | inr later ↦
          let (one, others) = NoStop-cons c n i h a acts ns in
          let (due, nearer) = step-IsDue c n i h a s one later d in
          let rest = within acts (step c n a s) due others (omega arith) in omega arith
    ]
