-- ===== src/Work/Comp.antt =====
-- `compwork` of wfey.c. Its numbers of floating point are an argument, and so is what `rand()` answers, call by call.
use wfey.Prelude.{
  none-ne-some, some_eq, sym, ◌∙◌, ℕ, zero, suc, ◌+◌, ◌*◌, ◌^◌, ◌≤◌, ◌<◌, ◌≡◌, ◌⊎◌, ◌↔◌, ◌>>=?◌,
  refl, Bool, ◌&&◌, Option, none, some, ltb, if◌then◌else◌, arith, Bool-cases, inl, inr,
}
use native.Mathlib.Nat.{add-zero}
use wfey.Prelude.Int.{ℤ, pos, eqb_ℤ, sub_ℕ}
use wfey.Work.Io.{work_count}

-- A `double`, with `sin` and `cos` of an `int`; `same` is `==`.
pub record Trig : Type 1 where
  pub Double : Type 0
  pub sin : ℤ → Double
  pub cos : ℤ → Double
  pub half : Double
  pub minus : Double → Double → Double
  pub times : Double → Double → Double
  pub same : Double → Double → Bool

module _ (t : Trig) where
  open t use {Double, sin, cos, half, minus, times, same}

  abbrev pub output_1 : ℕ → ℕ → Double
  output_1 x y = times half (minus (sin (pos (x + y))) (sin (sub_ℕ x y)))

  abbrev pub output_2 : ℕ → ℕ → Double
  output_2 y z = times (cos (pos z)) (sin (pos y))

  -- A round, of three calls of `rand()`. `none`: the sum of `x` and `y` is no int, and C does not say what follows.
  unfoldable pub comp_round : ℕ → ℕ → ℕ → ℤ → Option ℤ
  comp_round x y z retval =
      if ltb (x + y) (2 ^ 31)
      then some
          (if same (output_1 x y) (output_2 y z) && eqb_ℤ retval (pos 0) then pos 1 else retval)
      else none

  -- `rand next` is the next answer.
  unfoldable pub comp_rounds : ℕ → ℕ → (ℕ → ℕ) → ℤ → Option ℤ
  unfolding comp_round
  comp_rounds zero next rand retval = some retval
  comp_rounds (suc k) next rand retval =
      comp_round (rand next) (rand (next + 1)) (rand (next + 2)) retval >>=? λ r.
      comp_rounds k (next + 3) rand r

  -- `retval` has no initial value: it is what the memory held.
  unfoldable pub compwork : (ℕ → ℕ) → ℤ → Option ℤ
  unfolding comp_rounds
  compwork rand retval = comp_rounds work_count 0 rand retval

  -- What can become of `retval`.
  abbrev pub IsKept : ℤ → ℤ → Type 0
  IsKept retval r = (r ≡ retval) ⊎ ((retval ≡ pos 0) × (r ≡ pos 1))

  IsKept-trans : (a b r : ℤ) → IsKept a b → IsKept b r → IsKept a r
  IsKept-trans a b r h k = grind arith

  comp_round-cases :
      (x y z : ℕ) (retval : ℤ)
      → ((x + y < 2 ^ 31) × (r : ℤ) × (comp_round x y z retval ≡ some r) × IsKept retval r)
        ⊎ ((2 ^ 31 ≤ x + y) × (comp_round x y z retval ≡ none))
  unfolding comp_round
  comp_round-cases x y z retval = elim (Bool-cases (ltb (x + y) (2 ^ 31))) [
    | inl fits ↦ elim (Bool-cases (same (output_1 x y) (output_2 y z) && eqb_ℤ retval (pos 0))) [
      | inl hit ↦ inl (ground arith, pos 1, rw (fits, hit) refl, inr (ground arith))
      | inr miss ↦ inl (ground arith, retval, rw (fits, miss) refl, inl refl)
    ]
    | inr over ↦ inr (ground arith, rw over refl)
  ]

  -- The sums of the calls from `next` on are ints.
  abbrev pub AllFit : ℕ → ℕ → (ℕ → ℕ) → Type 0
  AllFit k next rand = (i : ℕ) → i < k → rand (next + 3 * i) + rand (next + 3 * i + 1) < 2 ^ 31

  AllFit-head :
      (k next : ℕ) (rand : ℕ → ℕ) → AllFit (suc k) next rand → rand next + rand (next + 1) < 2 ^ 31
  AllFit-head k next rand h =
      let fits : rand (next + 0) + rand (next + 0 + 1) < 2 ^ 31 = h 0 (omega arith) in
      rw add-zero at fits

  AllFit-next : (k next : ℕ) (rand : ℕ → ℕ) → AllFit (suc k) next rand → AllFit k (next + 3) rand
  AllFit-next k next rand h i lt =
      let shift : next + 3 * (i + 1) ≡ next + 3 + 3 * i = omega arith in
      let fits : rand (next + 3 * (i + 1)) + rand (next + 3 * (i + 1) + 1) < 2 ^ 31 =
        h (i + 1) (omega arith) in
      rw shift at fits

  AllFit-first :
      (k next : ℕ) (rand : ℕ → ℕ)
      → rand next + rand (next + 1) < 2 ^ 31
      → AllFit k (next + 3) rand
      → AllFit (suc k) next rand
  AllFit-first k next rand fits rest zero lt = rw add-zero fits
  AllFit-first k next rand fits rest (suc i) lt =
      let shift : next + 3 * suc i ≡ next + 3 + 3 * i = omega arith in
      rw shift (rest i (omega arith))

  comp_rounds-defined :
      (k next : ℕ) (rand : ℕ → ℕ) (retval : ℤ)
      → AllFit k next rand
      → (r : ℤ) × (comp_rounds k next rand retval ≡ some r) × IsKept retval r
  unfolding comp_rounds
  comp_rounds-defined zero next rand retval h = (retval, refl, inl refl)
  comp_rounds-defined (suc k) next rand retval h =
      elim (comp_round-cases (rand next) (rand (next + 1)) (rand (next + 2)) retval) [
        | inl (_, mid, at_mid, kept) ↦
            let (r, at_end, kept') =
              comp_rounds-defined k (next + 3) rand mid (AllFit-next k next rand h) in
            (r, rw at_mid at_end, IsKept-trans retval mid r kept kept')
        | inr (over, _) ↦ absurd (omega (arith, AllFit-head k next rand h))
      ]

  comp_rounds-fit :
      (k next : ℕ) (rand : ℕ → ℕ) (retval r : ℤ)
      → comp_rounds k next rand retval ≡ some r
      → AllFit k next rand
  unfolding comp_rounds
  comp_rounds-fit zero next rand retval r e i lt = absurd (omega arith)
  comp_rounds-fit (suc k) next rand retval r e i lt =
      elim (comp_round-cases (rand next) (rand (next + 1)) (rand (next + 2)) retval) [
        | inl (fits, mid, at_mid, _) ↦
            let rest = comp_rounds-fit k (next + 3) rand mid r (rw at_mid at e) in
            AllFit-first k next rand fits rest i lt
        | inr (_, undefined) ↦ absurd (none-ne-some (rw undefined at e))
      ]

  -- With what the memory of `retval` holds taken for its first value: `compwork` has a result that C defines exactly if in each of
  -- its rounds the sum of the first two answers of `rand()` is an int. The result is this value then, or 1 if the value is 0.
  pub compwork-defined :
      (rand : ℕ → ℕ) (retval : ℤ)
      → (((r : ℤ) × (compwork rand retval ≡ some r)) ↔ AllFit work_count 0 rand)
        × ((r : ℤ) → compwork rand retval ≡ some r → IsKept retval r)
  unfolding compwork
  compwork-defined rand retval = (
    (
      λ (r, e). comp_rounds-fit work_count 0 rand retval r e,
      λ fits. let (r, e, _) = comp_rounds-defined work_count 0 rand retval fits in (r, e),
    ),
    λ r e.
        let (r', e', kept) =
          comp_rounds-defined work_count 0 rand retval
            (comp_rounds-fit work_count 0 rand retval r e) in
        rw (some_eq (sym e' ∙ e)) at kept,
  )
