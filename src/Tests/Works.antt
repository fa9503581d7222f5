-- ===== src/Tests/Works.antt =====
-- The work functions at concrete inputs.
use wfey.Prelude.{
  ◌^◌, ◌-◌, ◌==◌, ◌↔◌, ap, ◌≤◌, ℕ, zero, suc, ◌*◌, ◌%◌, ◌≡◌, refl, none, some, List, [], ◌∷◌, arith,
  length,
}
use wfey.Prelude.Int.{ℤ, pos, negsuc}
use wfey.Clock.{word}
use wfey.Work.{print_work_type, work_translate, WorkFunc}
use wfey.Work.Calls.{read, World, ok}
use wfey.Work.Comp.{Trig, comp_rounds, compwork, AllFit, IsKept, compwork-defined}
use wfey.Work.Io.{work_count, io_rounds, io_rounds-Ends, Ends, reads}
use wfey.Work.Mem.{elems, arrsize, memwork, every, memwork-sum}

translated :
    (work_translate (negsuc 0) ≡ some WorkFunc.nullwork)
    × (work_translate (pos 7) ≡ none)
    × (print_work_type (pos 3) ≡ "io work")
unfolding work_translate print_work_type
translated = (refl, refl, refl)

-- A round in which the kernel would deliver other bytes, and whose last call fails.
abbrev second_round : World
second_round = record {
  answers = some 3 ∷ some 4 ∷ some 50 ∷ some 0 ∷ none ∷ [];
  calls = read 50 ∷ [];
}

io_rounds-Ends_example : Ends {A = ℕ} (λ d. 50 ≤ d) 1 (io_rounds 1 50 second_round)
unfolding reads
io_rounds-Ends_example = io_rounds-Ends 1 50 second_round (omega arith)

-- An array of ones.
ones : ℕ → List ℕ
ones zero = []
ones (suc n) = 1 ∷ ones n

length-ones : (n : ℕ) → length (ones n) ≡ n
unfolding ones
length-ones zero = refl
length-ones (suc n) = ap suc (length-ones n)

memwork-sum_example :
    (w : World) × (memwork 10000
        (ones elems)
        (record { answers = some 3 ∷ some 4096 ∷ some arrsize ∷ some 0 ∷ some 0 ∷ []; calls = [] })
      ≡ ok (some ((10000 * every (ones elems) 0 23828) % word)) w)
memwork-sum_example =
    memwork-sum 10000 (ones elems) 3 4096 (arrsize ∷ []) (some 0) (some 0) (length-ones elems)
      (omega arith) (omega arith)

-- Numbers of floating point that are all the same, so that each round finds its outputs equal.
abbrev flat : Trig
flat = record {
  Double = ℕ;
  sin = λ n. 0;
  cos = λ n. 0;
  half = 1;
  minus = λ a b. a - b;
  times = λ a b. a * b;
  same = λ a b. a == b;
}

-- Two rounds, from a `retval` of 0 and of 7; and a first sum that is no int.
flat_rounds :
    (comp_rounds flat 2 0 (λ i. i) (pos 0) ≡ some (pos 1))
    × (comp_rounds flat 2 0 (λ i. i) (pos 7) ≡ some (pos 7))
    × (comp_rounds flat 2 0 (λ i. 2 ^ 30) (pos 7) ≡ none)
unfolding comp_rounds
flat_rounds = (refl, refl, refl)

compwork-defined_example :
    (((r : ℤ) × (compwork flat (λ i. i) (pos 0) ≡ some r)) ↔ AllFit flat work_count 0 (λ i. i))
    × ((r : ℤ) → compwork flat (λ i. i) (pos 0) ≡ some r → IsKept flat (pos 0) r)
compwork-defined_example = compwork-defined flat (λ i. i) (pos 0)
