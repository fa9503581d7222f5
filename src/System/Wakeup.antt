-- ===== src/System/Wakeup.antt =====
-- The wake-ups of WFE in the build wfe_db_nomon, where `doorbell_press` comes before `SEV`, and `WFE` before the look at the
-- doorbell.
use wfey.Prelude.{
  ℕ, ◌<◌, ◌≡◌, ◌≢◌, ◌⊎◌, inl, inr, refl, true, false, Bool-cases, update, ltb→lt, Bool, Option,
  arith, ltb,
}
use wfey.Clock.{Ts}
use wfey.Config.{wfe_db_nomon}
use wfey.Source.{active}
use wfey.System.{
  EpPc, test, wait, take, SrcPc, press, signal, ended, System, Action, ep, src, wake, stop_ep,
  stop_src, ep_step, src_step, step, launch, Reach, launched, next,
}
use wfey.System.Covered.{Reach-IsCovered}

-- Some source stands at `p`.
abbrev pub SomeAt : ℕ → (ℕ → SrcPc) → SrcPc → Type 0
SomeAt n pcs p = (k : ℕ) × (k < n) × (pcs k ≡ p)

-- A pressed doorbell has an event for the processor's core, or will get one, or the processor has woken.
abbrev pub IsAnnounced : ℕ → System → Type 0
IsAnnounced n s =
    s.hw.db ≢ 0 → (s.hw.event_register ≡ true) ⊎ (s.ep.pc ≡ take) ⊎ SomeAt n s.src_pc signal

-- A step of a source that does not stand at `q` leaves the sources at `q` where they are.
pub SomeAt-update :
    {n : ℕ} (j : ℕ) {pcs : ℕ → SrcPc} {p q : SrcPc} (p' : SrcPc)
    → pcs j ≡ p
    → p ≢ q
    → SomeAt n pcs q
    → SomeAt n (update pcs j p') q
SomeAt-update j p' e ne (k, lt, at) = (k, lt, ground arith)

announced_move {ℓ} :
    {A B : Type ℓ} {n : ℕ} (j : ℕ) {pcs : ℕ → SrcPc} {p q : SrcPc} (p' : SrcPc)
    → pcs j ≡ p
    → p ≢ q
    → A ⊎ B ⊎ SomeAt n pcs q
    → A ⊎ B ⊎ SomeAt n (update pcs j p') q
announced_move j p' e ne (inl a) = inl a
announced_move j p' e ne (inr (inl b)) = inr (inl b)
announced_move j p' e ne (inr (inr c)) = inr (inr (SomeAt-update j p' e ne c))

module _ (n : ℕ) where
  ep_step-IsAnnounced :
      (p : EpPc) (now : Option Ts) (s : System)
      → s.ep.pc ≡ p
      → IsAnnounced n s
      → IsAnnounced n (ep_step wfe_db_nomon n p now s)
  unfolding ep_step
  ep_step-IsAnnounced test now s e ann = ground arith
  ep_step-IsAnnounced p now s e ann = ground arith

  src_step-IsAnnounced :
      (p : SrcPc) (j : ℕ) (now : Option Ts) (slept : Bool) (s : System)
      → s.src_pc j ≡ p
      → j < n
      → IsAnnounced n s
      → IsAnnounced n (src_step wfe_db_nomon n p j now slept s)
  unfolding src_step
  src_step-IsAnnounced press j now slept s e h ann ne = inr (inr (j, h, ground arith))
  src_step-IsAnnounced signal j now slept s e h ann ne = inl refl
  src_step-IsAnnounced ended j now slept s e h ann ne = ann ne
  src_step-IsAnnounced p j now slept s e h ann ne = announced_move j _ e (λ q. cc) (ann ne)

  step-IsAnnounced :
      (a : Action) (s : System) → IsAnnounced n s → IsAnnounced n (step wfe_db_nomon n a s)
  unfolding step
  step-IsAnnounced (ep now) s ann = ep_step-IsAnnounced s.ep.pc now s refl ann
  step-IsAnnounced (src j now slept) s ann = elim (Bool-cases (ltb j n)) [
    | inl h ↦ rw h (src_step-IsAnnounced (s.src_pc j) j now slept s refl (ltb→lt j n h) ann)
    | inr h ↦ rw h ann
  ]
  step-IsAnnounced wake s ann = λ ne. inl refl
  step-IsAnnounced stop_ep s ann = ann
  step-IsAnnounced (stop_src j) s ann = ann

  launch-IsAnnounced :
      (now : Option Ts) (raw : System) → IsAnnounced n (launch wfe_db_nomon now raw)
  unfolding launch
  launch-IsAnnounced now raw ne = absurd (ne refl)

  pub Reach-IsAnnounced : {s : System} → Reach wfe_db_nomon n s → IsAnnounced n s
  Reach-IsAnnounced (launched now raw) = launch-IsAnnounced now raw
  Reach-IsAnnounced (next {s} r a) = step-IsAnnounced a s (Reach-IsAnnounced r)

-- In the build wfe_db_nomon, in every state that can be reached: if the processor waits in `WFE` with no
-- event for its core while the event of a source is active, then that source has still to press the
-- doorbell, or some source that has pressed it has still to execute its `SEV`.
pub no_lost_wakeup :
    {n : ℕ} {s : System}
    → Reach wfe_db_nomon n s
    → s.ep.pc ≡ wait
    → s.hw.event_register ≡ false
    → (i : ℕ) → i < n
    → (s.sources i).state ≡ active
    → (s.src_pc i ≡ press) ⊎ SomeAt n s.src_pc signal
no_lost_wakeup {n} r at quiet i h e =
    ground (arith, Reach-IsCovered refl r i h e, Reach-IsAnnounced n r)
