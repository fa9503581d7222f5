-- ===== src/Main/Life/Runs.antt =====
-- Runs of all threads against the order of Main/Life/Order.
use wfey.Prelude.{
  ℕ, ◌+◌, ◌<◌, ◌^◌, ◌≡◌, refl, Bool, true, false, Option, none, some, List, [], ◌∷◌, ltb→lt, ◌==◌,
  if◌then◌else◌, arith,
}
use wfey.Config.{Config}
use wfey.Main.Life.{
  scanning, MainPc, at_epbarrier, at_srcbarrier, at_epbarrier_again, at_endbarrier, Phase, ready,
  stopping, Life, Event, main, ep, src, idle, meet_ep, meet_src, meet_ep_again, meet_end, is_ready,
  is_stopping, tally, pass_gate, life_step, live, beginning, at_src, at_end, starts_ep, ends_ep,
  is_full,
}
use wfey.Main.Life.Order.{
  starts, runs, ends, over, Fits, after_cores, IsOrdered, IsPlain, tally-all, tally-le,
}
use wfey.Main.Life.Steps.{if-IsOrdered, ep_move-IsOrdered, src_move-IsOrdered, idle_move-IsOrdered}
use wfey.Main.Life.Course.{impossible, main_step-IsOrdered}

-- Threads that a barrier lets go.
go-Fits :
    (p : Phase) (flag : Bool)
    → is_ready p ≡ true
    → Fits starts p flag
    → Fits runs (pass_gate p) flag
go-Fits ready flag r h = h
go-Fits p flag r h = impossible r

leave-Fits :
    (p : Phase) (flag : Bool)
    → is_stopping p ≡ true
    → Fits ends p flag
    → Fits over (pass_gate p) flag
leave-Fits stopping flag r h = tt
leave-Fits p flag r h = impossible r

pass_gate-IsPlain : (p : Phase) → IsPlain p → IsPlain (pass_gate p)
pass_gate-IsPlain scanning h = h
pass_gate-IsPlain p h = tt

module _ (c : Config) (n total : ℕ) where
  starts_ep-eq :
      (p : MainPc) (q : Phase) → starts_ep c n total p q ≡ true → (p ≡ at_epbarrier) × (q ≡ ready)
  starts_ep-eq at_epbarrier ready h = (refl, refl)
  starts_ep-eq p q h = impossible h

  ends_ep-eq :
      (p : MainPc) (q : Phase)
      → ends_ep c n total p q ≡ true
      → (p ≡ at_epbarrier_again) × (q ≡ stopping)
  ends_ep-eq at_epbarrier_again stopping h = (refl, refl)
  ends_ep-eq p q h = impossible h

  -- The barrier of the sources lets go when all of them and `main` are there.
  at_src-full :
      (p : MainPc) (s : Life)
      → at_src c n total p s ≡ n + 1
      → (p ≡ at_srcbarrier) × (tally is_ready s.src n ≡ n)
  at_src-full at_srcbarrier s h = (refl, omega arith)
  at_src-full p s h = absurd (omega (arith, tally-le is_ready s.src n))

  at_end-full :
      (p : MainPc) (s : Life)
      → at_end c n total p s ≡ n + s.idles + 1
      → (p ≡ at_endbarrier) × (tally is_stopping s.src n ≡ n)
  at_end-full at_endbarrier s h =
      (refl, omega (arith, tally-le is_stopping s.src n, tally-le is_stopping s.idle s.idles))
  at_end-full p s h =
      absurd (omega (arith, tally-le is_stopping s.src n, tally-le is_stopping s.idle s.idles))

  is_full-eq :
      (set : Bool) (barrier : Option ℕ) (arrived count : ℕ)
      → is_full c n total barrier arrived ≡ true
      → barrier ≡ (if set then some count else none)
      → arrived ≡ count
  is_full-eq set none arrived count h e = impossible h
  is_full-eq true (some given) arrived count h e = ground arith
  is_full-eq false (some given) arrived count h e = ground arith

  meet_ep-IsOrdered : (s : Life) → IsOrdered c n s → IsOrdered c n (life_step c n total meet_ep s)
  unfolding life_step
  meet_ep-IsOrdered s v =
      if-IsOrdered c n total
        (λ h.
          let (p, q) = starts_ep-eq s.main_pc s.ep h in
          record {
            of_ep = rw (p, q) at v.of_ep;
            of_src = rw p at v.of_src;
            of_memory = rw p at v.of_memory;
            of_doorbell = λ b u. rw q at (v.of_doorbell (rw p refl) u);
            of_barrier = rw p at v.of_barrier;
            of_idle = rw p at v.of_idle;
            of_plain = v.of_plain;
          })
        (λ h. v)

  meet_src-IsOrdered : (s : Life) → IsOrdered c n s → IsOrdered c n (life_step c n total meet_src s)
  unfolding life_step
  meet_src-IsOrdered s v =
      if-IsOrdered c n total
        (λ (h : (at_src c n total s.main_pc s == n + 1) ≡ true).
          let (p, all) = at_src-full s.main_pc s (ground arith) in
          record {
            of_ep = rw p at v.of_ep;
            of_src = λ i lt.
                go-Fits (s.src i) (s.src_end_flag i) (tally-all is_ready s.src n all i lt)
                  (rw p at (v.of_src i lt));
            of_memory = rw p at v.of_memory;
            of_doorbell = impossible;
            of_barrier = rw p at v.of_barrier;
            of_idle = rw p at v.of_idle;
            of_plain = λ i lt. pass_gate-IsPlain (s.src i) (v.of_plain i lt);
          })
        (λ h. v)

  meet_ep_again-IsOrdered :
      (s : Life) → IsOrdered c n s → IsOrdered c n (life_step c n total meet_ep_again s)
  unfolding life_step
  meet_ep_again-IsOrdered s v =
      if-IsOrdered c n total
        (λ h.
          let (p, q) = ends_ep-eq s.main_pc s.ep h in
          let fits = rw p at v.of_src in
          record {
            of_ep = tt;
            of_src = λ i lt. ground (arith, fits i lt);
            of_memory = rw p at v.of_memory;
            of_doorbell = impossible;
            of_barrier = rw p at v.of_barrier;
            of_idle = rw p at v.of_idle;
            of_plain = v.of_plain;
          })
        (λ h. v)

  meet_end-IsOrdered : (s : Life) → IsOrdered c n s → IsOrdered c n (life_step c n total meet_end s)
  unfolding life_step
  meet_end-IsOrdered s v =
      if-IsOrdered c n total
        (λ h.
          let (p, all) =
            at_end-full s.main_pc s
              (is_full-eq (after_cores s.main_pc) s.endbarrier _ _ h v.of_barrier) in
          record {
            of_ep = rw p at v.of_ep;
            of_src = λ i lt.
                leave-Fits (s.src i) (s.src_end_flag i) (tally-all is_stopping s.src n all i lt)
                  (rw p at (v.of_src i lt));
            of_memory = rw p at v.of_memory;
            of_doorbell = impossible;
            of_barrier = rw p at v.of_barrier;
            of_idle = impossible;
            of_plain = λ i lt. pass_gate-IsPlain (s.src i) (v.of_plain i lt);
          })
        (λ h. v)

module _ (c : Config) (n total : ℕ) (hn : n < 2 ^ 31) (room : n + 2 < total)
    (ht : total < 2 ^ 31) where
  pub life_step-IsOrdered :
      (e : Event) (s : Life) → IsOrdered c n s → IsOrdered c n (life_step c n total e s)
  life_step-IsOrdered main s v =
      unfold life_step in main_step-IsOrdered c n total hn room ht s.main_pc s refl v
  life_step-IsOrdered ep s v = unfold life_step in ep_move-IsOrdered c n total s.ep s refl v
  life_step-IsOrdered (src i) s v =
      unfold life_step in
      if-IsOrdered c n total
        (λ lt. src_move-IsOrdered c n total (s.src i) i s (ltb→lt i n lt) refl v) (λ ge. v)
  life_step-IsOrdered (idle i) s v =
      unfold life_step in
      if-IsOrdered c n total (λ lt. idle_move-IsOrdered c n total (s.idle i) i s v) (λ ge. v)
  life_step-IsOrdered meet_ep s v = meet_ep-IsOrdered c n total s v
  life_step-IsOrdered meet_src s v = meet_src-IsOrdered c n total s v
  life_step-IsOrdered meet_ep_again s v = meet_ep_again-IsOrdered c n total s v
  life_step-IsOrdered meet_end s v = meet_end-IsOrdered c n total s v

  pub live_from-IsOrdered :
      (events : List Event) (s : Life) → IsOrdered c n s → IsOrdered c n (live c n total events s)
  unfolding live
  live_from-IsOrdered [] s v = v
  live_from-IsOrdered (e ∷ events) s v =
      live_from-IsOrdered events (life_step c n total e s) (life_step-IsOrdered e s v)

  pub live-IsOrdered :
      (events : List Event) (raw : Life) → IsOrdered c n (live c n total events (beginning raw))
  live-IsOrdered events raw = live_from-IsOrdered events (beginning raw) record {
    of_ep = tt;
    of_src = λ i lt. tt;
    of_memory = refl;
    of_doorbell = λ h u. tt;
    of_barrier = refl;
    of_idle = impossible;
    of_plain = λ i lt. tt;
  }
