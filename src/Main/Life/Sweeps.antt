-- ===== src/Main/Life/Sweeps.antt =====
-- The way of the sources and the idle threads to their barriers, one after the other.
use mathlib.Core.Path.{subst}
use wfey.Prelude.{
  ap, lt→ltb, ℕ, zero, suc, ◌+◌, ◌≤◌, ◌<◌, ◌^◌, ◌≡◌, refl, sym, ◌∙◌, Bool, true, List, [], ◌∷◌,
  ◌++◌, arith,
}
use wfey.Config.{Config}
use wfey.Main.Life.{
  MainPc, Phase, preparing, ready, looping, waiting, scanning, stopping, Life, Event, is_ready,
  is_stopping, src, tally, src_move, idle_move, life_step, live,
}
use wfey.Main.Life.Order.{starts, ends, Fits, IsPlain, Comes, IsOrdered}
use wfey.Main.Life.Runs.{live_from-IsOrdered}

tally-agree :
    (p : Phase → Bool) (f g : ℕ → Phase) (n : ℕ)
    → ((i : ℕ) → i < n → f i ≡ g i)
    → tally p f n ≡ tally p g n
tally-agree p f g zero same = refl
tally-agree p f g (suc n) same =
    let here : f n ≡ g n = same n (omega arith) in
    let below : tally p f n ≡ tally p g n = tally-agree p f g n (λ i lt. same i (omega arith)) in
    rw (here, below) refl

module _ (c : Config) (n total : ℕ) where
  -- What a step leaves alone that takes thread `k` of `f` to its barrier.
  pub record ComesTo (p : Phase → Bool) (f : Life → ℕ → Phase) (k : ℕ) (s t : Life) : Type 0 where
    pub pc : t.main_pc ≡ s.main_pc
    pub here : p (f t k) ≡ true
    pub below : (j : ℕ) → j < k → f t j ≡ f s j

  pub src_ready :
      (p : Phase) (k : ℕ) (s : Life)
      → s.src k ≡ p
      → Fits starts p (s.src_end_flag k)
      → ComesTo is_ready (λ s. s.src) k s (src_move c n total p k s)
  unfolding src_move
  src_ready preparing k s e h = record {
    pc = refl;
    here = ground arith;
    below = λ j lt. ground arith;
  }
  src_ready ready k s e h = record { pc = refl; here = rw e refl; below = λ j lt. refl }
  src_ready p k s e h = absurd h

  -- What a step of source `k` does that brings it to `p`.
  pub record Turned (k : ℕ) (p : Phase) (s t : Life) : Type 0 where
    pub pc : t.main_pc ≡ s.main_pc
    pub here : t.src k ≡ p
    pub flags : t.src_end_flag ≡ s.src_end_flag
    pub below : (j : ℕ) → j < k → t.src j ≡ s.src j
    pub idle : t.idle ≡ s.idle
    pub idles : t.idles ≡ s.idles

  Turned-looping :
      (k : ℕ) (s : Life)
      → s.src_end_flag k ≡ true
      → Turned k stopping s (src_move c n total looping k s)
  unfolding src_move
  Turned-looping k s told = record {
    pc = refl;
    here = ground arith;
    flags = refl;
    below = λ j lt. ground arith;
    idle = refl;
    idles = refl;
  }

  Turned-waiting : (k : ℕ) (s : Life) → Turned k looping s (src_move c n total waiting k s)
  unfolding src_move
  Turned-waiting k s = record {
    pc = refl;
    here = ground arith;
    flags = refl;
    below = λ j lt. ground arith;
    idle = refl;
    idles = refl;
  }

  Turned-stopping :
      (k : ℕ) (s : Life)
      → s.src k ≡ stopping
      → Turned k stopping s (src_move c n total stopping k s)
  unfolding src_move
  Turned-stopping k s e = record {
    pc = refl;
    here = e;
    flags = refl;
    below = λ j lt. refl;
    idle = refl;
    idles = refl;
  }

  -- Two steps.
  Turned-Turned :
      (k : ℕ) (p q : Phase) (s t : Life)
      → Turned k p s t
      → Turned k q t (src_move c n total p k t)
      → Turned k q s (src_move c n total (t.src k) k t)
  Turned-Turned k p q s t a b = rw a.here record {
    pc = b.pc ∙ a.pc;
    here = b.here;
    flags = b.flags ∙ a.flags;
    below = λ j lt. b.below j lt ∙ a.below j lt;
    idle = b.idle ∙ a.idle;
    idles = b.idles ∙ a.idles;
  }

  Turned-twice :
      (p : Phase) (k : ℕ) (s : Life)
      → s.src k ≡ p
      → IsPlain p
      → Fits ends p (s.src_end_flag k)
      → Turned k stopping s
          (src_move c n total ((src_move c n total p k s).src k) k (src_move c n total p k s))
  Turned-twice looping k s e plain told =
      let a = Turned-looping k s told in
      Turned-Turned k stopping stopping s _ a (Turned-stopping k _ a.here)
  Turned-twice waiting k s e plain told =
      let a = Turned-waiting k s in
      Turned-Turned k looping stopping s _ a (Turned-looping k _ (ap (λ f. f k) a.flags ∙ told))
  Turned-twice stopping k s e plain told =
      let a = Turned-stopping k s e in
      Turned-Turned k stopping stopping s _ a (Turned-stopping k _ a.here)
  Turned-twice scanning k s e plain h = absurd plain
  Turned-twice p k s e plain h = absurd h

  pub src_stopping :
      (k : ℕ) (s : Life)
      → k < n
      → IsPlain (s.src k)
      → Fits ends (s.src k) (s.src_end_flag k)
      → Turned k stopping s (live c n total (src k ∷ src k ∷ []) s)
  unfolding live
  src_stopping k s lt plain told = rw (lt→ltb k n lt) (Turned-twice (s.src k) k s refl plain told)

  pub idle_stopping :
      (p : Phase) (k : ℕ) (s : Life)
      → s.idle k ≡ p
      → Comes p
      → ComesTo is_stopping (λ s. s.idle) k s (idle_move c n total p k s)
  unfolding idle_move
  idle_stopping preparing k s e h = record {
    pc = refl;
    here = ground arith;
    below = λ j lt. ground arith;
  }
  idle_stopping stopping k s e h = record { pc = refl; here = rw e refl; below = λ j lt. refl }
  idle_stopping p k s e h = absurd h

  pub idle_stopping_idles :
      (p : Phase) (k : ℕ) (s : Life) → (idle_move c n total p k s).idles ≡ s.idles
  unfolding idle_move
  idle_stopping_idles preparing k s = refl
  idle_stopping_idles p k s = refl

  pub live-append :
      (events more : List Event) (s : Life)
      → live c n total (events ++ more) s ≡ live c n total more (live c n total events s)
  unfolding live
  live-append [] more s = refl
  live-append (e ∷ events) more s = live-append events more (life_step c n total e s)

  pub live-one : (e : Event) (s : Life) → live c n total (e ∷ []) s ≡ life_step c n total e s
  unfolding live
  live-one e s = refl

  -- The first `k` threads of `f` are at their barrier.
  pub record Gathered (p : Phase → Bool) (f : Life → ℕ → Phase) (q : MainPc) (Keep : Life → Type 0)
      (k : ℕ) (s : Life) : Type 0 where
    pub pc : s.main_pc ≡ q
    pub all : tally p (f s) k ≡ k
    pub kept : Keep s

  tally-suc :
      (p : Phase → Bool) (f g : ℕ → Phase) (k : ℕ)
      → tally p f k ≡ k
      → ((j : ℕ) → j < k → g j ≡ f j)
      → p (g k) ≡ true
      → tally p g (suc k) ≡ suc k
  tally-suc p f g k all same here = rw (here, tally-agree p g f k same ∙ all) (omega arith)

  module _ (hn : n < 2 ^ 31) (room : n + 2 < total) (ht : total < 2 ^ 31) where
    -- When each thread of `f` below `limit` can come to its barrier in one step, all of them can, one after the other.
    pub sweep :
        (p : Phase → Bool) (f : Life → ℕ → Phase) (q : MainPc) (Keep : Life → Type 0)
        (who : ℕ → List Event) (limit : ℕ)
        → ((k : ℕ) (s : Life)
            → k < limit
            → IsOrdered c n s
            → s.main_pc ≡ q
            → Keep s
            → ComesTo p f k s (live c n total (who k) s) × Keep (live c n total (who k) s))
        → (k : ℕ) (s : Life) → k ≤ limit
        → IsOrdered c n s
        → s.main_pc ≡ q
        → Keep s
        → (events : List Event) × Gathered p f q Keep k (live c n total events s)
    sweep p f q Keep who limit comes zero s le v at_q kept =
        ([], unfold live in record { pc = at_q; all = refl; kept = kept })
    sweep p f q Keep who limit comes (suc k) s le v at_q kept =
        let (events, g) = sweep p f q Keep who limit comes k s (omega arith) v at_q kept in
        let t = live c n total events s in
        let (come, keep) =
          comes k t (omega arith) (live_from-IsOrdered c n total hn room ht events s v) g.pc
            g.kept in
        let u = live c n total (who k) t in
        let next : live c n total (events ++ who k) s ≡ u = live-append events (who k) s in
        (
          events ++ who k,
          subst (Gathered p f q Keep (suc k)) (sym next) record {
            pc = come.pc ∙ g.pc;
            all = tally-suc p (f t) (f u) k g.all come.below come.here;
            kept = keep;
          },
        )
