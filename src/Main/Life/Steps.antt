-- ===== src/Main/Life/Steps.antt =====
-- The steps of the threads against the order of Main/Life/Order.
use wfey.Prelude.{ℕ, ◌<◌, ◌≡◌, refl, Bool, true, false, if◌then◌else◌, update, arith}
use wfey.Config.{Config}
use wfey.Main.Life.{
  Phase, preparing, ready, looping, waiting, scanning, stopping, Life, ep_move, src_move, idle_move,
}
use wfey.Main.Life.Order.{
  Fits, IsPlain, ep_stage, src_stage, Unpressed, before_sources, IsOrdered, ready-Fits, look-Fits,
  turn-Fits, in_loop-Fits, untold, unstarted,
}

turn-IsPlain : (flag : Bool) → IsPlain (if flag then stopping else waiting)
turn-IsPlain true = tt
turn-IsPlain false = tt

module _ (c : Config) (n total : ℕ) where
  pub if-IsOrdered :
      {b : Bool} {s t : Life}
      → (b ≡ true → IsOrdered c n s)
      → (b ≡ false → IsOrdered c n t)
      → IsOrdered c n (if b then s else t)
  if-IsOrdered {b = true} yea nay = yea refl
  if-IsOrdered {b = false} yea nay = nay refl

  ep_moved :
      (p : Phase) (bell : Bool) (s : Life)
      → IsOrdered c n s
      → Fits (ep_stage s.main_pc) p s.ep_end_flag
      → (before_sources s.main_pc ≡ true → c.use_doorbell ≡ true → Unpressed p bell)
      → IsOrdered c n (record s { ep = p; pressed = bell })
  ep_moved p bell s v fits quiet = record {
    of_ep = fits;
    of_src = v.of_src;
    of_memory = v.of_memory;
    of_doorbell = quiet;
    of_barrier = v.of_barrier;
    of_idle = v.of_idle;
    of_plain = v.of_plain;
  }

  pub ep_move-IsOrdered :
      (p : Phase) (s : Life) → s.ep ≡ p → IsOrdered c n s → IsOrdered c n (ep_move c n total p s)
  unfolding ep_move
  ep_move-IsOrdered preparing s e v =
      ep_moved ready _ s v (ready-Fits (ep_stage s.main_pc) s.ep_end_flag (rw e at v.of_ep))
        (λ h u. rw u refl)
  ep_move-IsOrdered looping s e v =
      let fits = rw e at v.of_ep in
      ep_moved (if s.ep_end_flag then stopping else waiting) s.pressed s v
        (turn-Fits (ep_stage s.main_pc) s.ep_end_flag fits)
        (λ h u. rw (untold s.main_pc s.ep_end_flag h fits) (rw e at v.of_doorbell h u))
  ep_move-IsOrdered waiting s e v =
      let fits = rw e at v.of_ep in
      if-IsOrdered
        (λ bell.
          ep_moved (if s.pressed then scanning else looping) false s v
            (look-Fits (ep_stage s.main_pc) s.ep_end_flag s.pressed fits)
            (λ h u. rw (rw e at v.of_doorbell h u) refl))
        (λ free.
          ep_moved scanning s.pressed s v
            (in_loop-Fits (ep_stage s.main_pc) waiting scanning s.ep_end_flag refl refl fits)
            (λ h u. absurd (ground arith)))
  ep_move-IsOrdered scanning s e v =
      ep_moved looping s.pressed s v
        (in_loop-Fits (ep_stage s.main_pc) scanning looping s.ep_end_flag refl refl
          (rw e at v.of_ep))
        (λ h u. absurd (rw e at v.of_doorbell h u))
  ep_move-IsOrdered p s e v = v

  src_moved :
      (i : ℕ) (p : Phase) (bell : Bool) (s : Life)
      → IsOrdered c n s
      → Fits (src_stage s.main_pc i) p (s.src_end_flag i)
      → IsPlain p
      → (before_sources s.main_pc ≡ true → c.use_doorbell ≡ true → Unpressed s.ep bell)
      → IsOrdered c n (record s { src = update s.src i p; pressed = bell })
  src_moved i p bell s v fits plain quiet = record {
    of_ep = v.of_ep;
    of_src = λ j lt. ground (arith, v.of_src j lt);
    of_memory = v.of_memory;
    of_doorbell = quiet;
    of_barrier = v.of_barrier;
    of_idle = v.of_idle;
    of_plain = λ j lt. ground (arith, v.of_plain j lt);
  }

  pub src_move-IsOrdered :
      (p : Phase) (i : ℕ) (s : Life)
      → i < n
      → s.src i ≡ p
      → IsOrdered c n s
      → IsOrdered c n (src_move c n total p i s)
  unfolding src_move
  src_move-IsOrdered preparing i s lt e v =
      src_moved i ready s.pressed s v
        (ready-Fits (src_stage s.main_pc i) (s.src_end_flag i) (rw e at (v.of_src i lt))) tt
        v.of_doorbell
  src_move-IsOrdered looping i s lt e v =
      src_moved i (if s.src_end_flag i then stopping else waiting) s.pressed s v
        (turn-Fits (src_stage s.main_pc i) (s.src_end_flag i) (rw e at (v.of_src i lt)))
        (turn-IsPlain (s.src_end_flag i)) v.of_doorbell
  src_move-IsOrdered waiting i s lt e v =
      let fits =
        in_loop-Fits (src_stage s.main_pc i) waiting looping (s.src_end_flag i) refl refl
          (rw e at (v.of_src i lt)) in
      src_moved i looping (if c.use_doorbell then true else s.pressed) s v fits tt
        (λ h u. absurd (unstarted s.main_pc i (s.src_end_flag i) h fits))
  src_move-IsOrdered p i s lt e v = v

  pub idle_move-IsOrdered :
      (p : Phase) (i : ℕ) (s : Life) → IsOrdered c n s → IsOrdered c n (idle_move c n total p i s)
  unfolding idle_move
  idle_move-IsOrdered preparing i s v = record {
    of_ep = v.of_ep;
    of_src = v.of_src;
    of_memory = v.of_memory;
    of_doorbell = v.of_doorbell;
    of_barrier = v.of_barrier;
    of_idle = λ h j lt. ground (arith, v.of_idle h j lt);
    of_plain = v.of_plain;
  }
  idle_move-IsOrdered p i s v = v
