-- ===== src/System/Mailbox/Settled.antt =====
-- How soon the processor of the build wfe_db_nomon comes to an event when it may sleep in `WFE`.
use wfey.Prelude.{
  ℕ, zero, suc, ◌+◌, ◌*◌, ◌≤◌, ◌<◌, ◌≡◌, ◌≢◌, ◌⊎◌, refl, sym, ◌∙◌, Bool, true, false, not, ◌||◌,
  List, [], ◌∷◌, arith, Bool-cases, inl, inr,
}
use wfey.Config.{wfe_db_nomon}
use wfey.Signal.{wfe}
use wfey.Source.{active}
use wfey.System.{EpPc, SrcPc, wait, take, press, signal, System, Action, ep, step, Reach, next}
use wfey.System.Wakeup.{IsAnnounced, Reach-IsAnnounced}
use wfey.System.Mailbox.{move_of}
use wfey.System.Mailbox.Counts.{bit, moves, is_receive, count_moves}
use wfey.System.Mailbox.Delivery.{
  is_awake, is_free, free_steps, NoStop, NoStop-cons, Heads, IsDue, step-IsDue,
}
use wfey.System.Mailbox.Prompt.{Reach-IsDue, receive_within}

abbrev pub is_signal : SrcPc → Bool
is_signal signal = true
is_signal _ = false

-- One of the first `n` sources has pressed the doorbell, and has still to execute its `SEV`.
abbrev pub is_ringing : ℕ → (ℕ → SrcPc) → Bool
is_ringing zero pcs = false
is_ringing (suc n) pcs = is_signal (pcs n) || is_ringing n pcs

-- The processor's steps, with its tries to end a `WFE`, while no source is there.
abbrev pub is_settled : ℕ → System → Action → Bool
is_settled n s (ep now) = not (is_ringing n s.src_pc)
is_settled n s _ = false

abbrev pub settled_steps : ℕ → List Action → System → ℕ
settled_steps n [] s = 0
settled_steps n (a ∷ acts) s =
    bit (is_settled n s a) + settled_steps n acts (step wfe_db_nomon n a s)

SomeAt-is_ringing :
    (n : ℕ) (pcs : ℕ → SrcPc) (k : ℕ) → k < n → pcs k ≡ signal → is_ringing n pcs ≡ true
SomeAt-is_ringing zero pcs k h e = absurd (omega arith)
SomeAt-is_ringing (suc n) pcs k h e = ground (arith, SomeAt-is_ringing n pcs k)

wait-ne-take : wait ≢ take
wait-ne-take h = cc

true-ne-false : true ≢ false
true-ne-false h = cc

module _ (n i : ℕ) (h : i < n) where
  IsDue-is_awake :
      (p : EpPc) (s : System)
      → s.ep.pc ≡ p
      → IsAnnounced n s
      → Heads wfe_db_nomon i p s.hw.db
      → is_ringing n s.src_pc ≡ false
      → is_awake p s ≡ true
  unfolding wfe
  IsDue-is_awake wait s e ann due quiet =
      let pressed : s.hw.db ≢ 0 = ground arith in
      elim (ann pressed) [
        | inl announced ↦ rw announced refl
        | inr (inl at) ↦ absurd (wait-ne-take (sym e ∙ at))
        | inr (inr (k, lt, at)) ↦
            absurd (true-ne-false (sym (SomeAt-is_ringing n s.src_pc k lt at) ∙ quiet))
      ]
  IsDue-is_awake p s e ann due quiet = ground arith

  is_settled-is_free :
      (a : Action) (s : System)
      → Reach wfe_db_nomon n s
      → IsDue wfe_db_nomon i s.ep.pc s
      → bit (is_settled n s a) ≤ bit (is_free s a)
  is_settled-is_free (ep now) s r d = elim (Bool-cases (is_ringing n s.src_pc)) [
    | inl ringing ↦ rw ringing (omega arith)
    | inr quiet ↦
        rw (quiet, IsDue-is_awake s.ep.pc s refl (Reach-IsAnnounced n r) d.2 quiet) (omega arith)
  ]
  is_settled-is_free a s r d = omega arith

  -- Up to the reset of the event.
  settled-le-free :
      (acts : List Action) (s : System)
      → Reach wfe_db_nomon n s
      → IsDue wfe_db_nomon i s.ep.pc s
      → NoStop acts
      → (0 < count_moves (is_receive i) (moves wfe_db_nomon n acts s))
        ⊎ (settled_steps n acts s ≤ free_steps wfe_db_nomon n acts s)
  settled-le-free [] s r d ns = inr (omega arith)
  settled-le-free (a ∷ acts) s r d ns = elim (Bool-cases (is_receive i (move_of n s a))) [
    | inl now ↦ inl (rw now (omega arith))
    | inr later ↦
        let (one, others) = NoStop-cons wfe_db_nomon n i h a acts ns in
        let (due, _) = step-IsDue wfe_db_nomon n i h a s one later d in
        let free = is_settled-is_free a s r d in
        elim (settled-le-free acts (step wfe_db_nomon n a s) (next r a) due others) [
          | inl received ↦ inl (omega arith)
          | inr rest ↦ inr (omega arith)
        ]
  ]

-- In the build wfe_db_nomon and every state that can be reached: an event that is active, and whose source is not just about to press
-- the doorbell, is received by the processor within 5 n + 8 of its steps, where `n` is the number of sources and its tries to end a
-- `WFE` count too, if these are taken while no source is between its press and its `SEV`; whatever the other threads do and in
-- whatever order. The processor's end flag is not set, and `main` does not set it.
pub receive_settled :
    {n : ℕ} {s : System}
    → Reach wfe_db_nomon n s
    → (i : ℕ) → i < n
    → (s.sources i).state ≡ active
    → s.src_pc i ≢ press
    → s.ep.end_flag ≡ false
    → (acts : List Action) → NoStop acts
    → 5 * n + 8 ≤ settled_steps n acts s
    → 0 < count_moves (is_receive i) (moves wfe_db_nomon n acts s)
receive_settled {n} {s} r i h raised past on acts ns many =
    let due = Reach-IsDue wfe_db_nomon n r i h raised past on in
    elim (settled-le-free n i h acts s r due ns) [
      | inl received ↦ received
      | inr free ↦ receive_within r i h raised past on acts ns (omega arith)
    ]
