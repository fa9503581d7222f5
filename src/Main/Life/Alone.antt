-- ===== src/Main/Life/Alone.antt =====
-- The steps of `main` towards its end that wait for the processor at most.
use wfey.Prelude.{
  ℕ, zero, suc, ◌+◌, ◌≤◌, ◌<◌, ◌^◌, ◌≡◌, refl, ◌∙◌, ap, false, List, [], ◌∷◌, ◌++◌, ltb, arith,
  Bool-cases, inl, inr,
}
use wfey.Config.{Config}
use wfey.Main.Life.{
  MainPc, create_ep, at_epbarrier, make_sources, set_up_source, create_source, count_cores, asleep,
  stop_ep, signal_ep, signal_source, at_epbarrier_again, stop_source, at_endbarrier, report_sources,
  exited, Phase, preparing, ready, looping, waiting, scanning, stopping, Life, Event, main, ep,
  meet_ep, meet_ep_again, live,
}
use wfey.Main.Life.Order.{starts, ends, Fits, IsOrdered}
use wfey.Main.Life.Runs.{live_from-IsOrdered}
use wfey.Main.Life.Sweeps.{live-append}

module _ (c : Config) (n total : ℕ) (hn : n < 2 ^ 31) (room : n + 2 < total)
    (ht : total < 2 ^ 31) where
  -- `main` can come to its exit.
  unfoldable pub CanEnd : Life → Type 0
  CanEnd s = (events : List Event) × ((live c n total events s).main_pc ≡ exited)

  -- A place of `main` from which it can.
  unfoldable pub EndsFrom : MainPc → Type 0
  EndsFrom p = (s : Life) → IsOrdered c n s → s.main_pc ≡ p → CanEnd s

  pub after : (events : List Event) (s : Life) → CanEnd (live c n total events s) → CanEnd s
  unfolding CanEnd
  after events s (more, e) =
      (events ++ more, ap (λ t. t.main_pc) (live-append c n total events more s) ∙ e)

  -- After some steps, `main` is at a place from which it can.
  pub then_from :
      (p : MainPc) (events : List Event) (s : Life)
      → EndsFrom p
      → IsOrdered c n s
      → (live c n total events s).main_pc ≡ p
      → CanEnd s
  unfolding EndsFrom
  then_from p events s ends_there v e =
      after events s (
        ends_there (live c n total events s) (live_from-IsOrdered c n total hn room ht events s v)
          e)

  pub from_report : EndsFrom report_sources
  unfolding EndsFrom CanEnd live
  from_report s v e = (main ∷ [], rw e refl)

  ep_ends :
      (p : Phase) (s : Life)
      → EndsFrom (stop_source 0)
      → IsOrdered c n s
      → s.main_pc ≡ at_epbarrier_again
      → s.ep ≡ p
      → Fits ends p s.ep_end_flag
      → CanEnd s
  unfolding EndsFrom live
  ep_ends looping s next v e at_p told =
      then_from (stop_source 0) (ep ∷ meet_ep_again ∷ []) s next v (rw (e, at_p, told) refl)
  ep_ends waiting s next v e at_p told =
      then_from (stop_source 0) (ep ∷ ep ∷ ep ∷ meet_ep_again ∷ []) s next v
        (elim (Bool-cases c.use_doorbell) [
          | inr free ↦ rw (e, at_p, told, free) refl
          | inl bell ↦ elim (Bool-cases s.pressed) [
            | inl rung ↦ rw (e, at_p, told, bell, rung) refl
            | inr silent ↦ rw (e, at_p, told, bell, silent) refl
          ]
        ])
  ep_ends scanning s next v e at_p told =
      then_from (stop_source 0) (ep ∷ ep ∷ meet_ep_again ∷ []) s next v (rw (e, at_p, told) refl)
  ep_ends stopping s next v e at_p told =
      then_from (stop_source 0) (meet_ep_again ∷ []) s next v (rw (e, at_p) refl)
  ep_ends p s next v e at_p h = absurd h

  pub from_again : EndsFrom (stop_source 0) → EndsFrom at_epbarrier_again
  unfolding EndsFrom
  from_again next s v e = ep_ends s.ep s next v e refl (rw e at v.of_ep)

  ep_starts :
      (p : Phase) (s : Life)
      → EndsFrom make_sources
      → IsOrdered c n s
      → s.main_pc ≡ at_epbarrier
      → s.ep ≡ p
      → Fits starts p s.ep_end_flag
      → CanEnd s
  unfolding EndsFrom live
  ep_starts preparing s next v e at_p h =
      then_from make_sources (ep ∷ meet_ep ∷ []) s next v (rw (e, at_p) refl)
  ep_starts ready s next v e at_p h =
      then_from make_sources (meet_ep ∷ []) s next v (rw (e, at_p) refl)
  ep_starts p s next v e at_p h = absurd h

  pub from_epbarrier : EndsFrom make_sources → EndsFrom at_epbarrier
  unfolding EndsFrom
  from_epbarrier next s v e = ep_starts s.ep s next v e refl (rw e at v.of_ep)

  -- The loops of `main`, by the rounds that are left.
  pub from_stop_source : (d i : ℕ) → n ≤ i + d → EndsFrom at_endbarrier → EndsFrom (stop_source i)
  unfolding EndsFrom live
  from_stop_source zero i h next s v e =
      let last : ltb i n ≡ false = ground arith in
      then_from at_endbarrier (main ∷ []) s next v (rw (e, last) refl)
  from_stop_source (suc d) i h next s v e = elim (Bool-cases (ltb i n)) [
    | inr last ↦ then_from at_endbarrier (main ∷ []) s next v (rw (e, last) refl)
    | inl more ↦
        then_from (stop_source (i + 1)) (main ∷ main ∷ []) s
          (from_stop_source d (i + 1) (omega arith) next) v (rw (e, more) refl)
  ]

  pub from_create_source : (d i : ℕ) → n ≤ i + d → EndsFrom count_cores → EndsFrom (create_source i)
  unfolding EndsFrom live
  from_create_source zero i h next s v e =
      let last : ltb i n ≡ false = ground arith in
      then_from count_cores (main ∷ []) s next v (rw (e, last) refl)
  from_create_source (suc d) i h next s v e = elim (Bool-cases (ltb i n)) [
    | inr last ↦ then_from count_cores (main ∷ []) s next v (rw (e, last) refl)
    | inl more ↦
        then_from (create_source (i + 1)) (main ∷ []) s
          (from_create_source d (i + 1) (omega arith) next) v (rw (e, more) refl)
  ]

  pub from_set_up_source :
      (d i : ℕ) → n ≤ i + d → EndsFrom (create_source 0) → EndsFrom (set_up_source i)
  unfolding EndsFrom live
  from_set_up_source zero i h next s v e =
      let last : ltb i n ≡ false = ground arith in
      then_from (create_source 0) (main ∷ []) s next v (rw (e, last) refl)
  from_set_up_source (suc d) i h next s v e = elim (Bool-cases (ltb i n)) [
    | inr last ↦ then_from (create_source 0) (main ∷ []) s next v (rw (e, last) refl)
    | inl more ↦
        then_from (set_up_source (i + 1)) (main ∷ []) s
          (from_set_up_source d (i + 1) (omega arith) next) v (rw (e, more) refl)
  ]

  pub from_stop_ep : EndsFrom at_epbarrier_again → EndsFrom stop_ep
  unfolding EndsFrom live
  from_stop_ep next s v e = then_from at_epbarrier_again (main ∷ main ∷ []) s next v (rw e refl)

  pub from_signal_ep : EndsFrom at_epbarrier_again → EndsFrom signal_ep
  unfolding EndsFrom live
  from_signal_ep next s v e = then_from at_epbarrier_again (main ∷ []) s next v (rw e refl)

  pub from_signal_source : (i : ℕ) → EndsFrom (stop_source (i + 1)) → EndsFrom (signal_source i)
  unfolding EndsFrom live
  from_signal_source i next s v e = then_from (stop_source (i + 1)) (main ∷ []) s next v (rw e refl)

  pub from_asleep : EndsFrom stop_ep → EndsFrom asleep
  unfolding EndsFrom live
  from_asleep next s v e = then_from stop_ep (main ∷ []) s next v (rw e refl)

  pub from_make : EndsFrom (set_up_source 0) → EndsFrom make_sources
  unfolding EndsFrom live
  from_make next s v e = then_from (set_up_source 0) (main ∷ []) s next v (rw e refl)

  pub from_create_ep : EndsFrom at_epbarrier → EndsFrom create_ep
  unfolding EndsFrom live
  from_create_ep next s v e = then_from at_epbarrier (main ∷ []) s next v (rw e refl)
