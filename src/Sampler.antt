-- ===== src/Sampler.antt =====
-- scripts/energyBM/catmon.c: the samples of an energy file. The number of samples is taken where the product with SAMPLES fits
-- an int; beyond that C leaves the conversion open. The pauses between the samples have no effect here.
pub mod Samples
use wfey.Prelude.{
  ℕ, zero, suc, ◌+◌, ◌-◌, ◌≤◌, ◌<◌, ◌≡◌, ◌≢◌, refl, Bool, true, false, Option, none, some, List, [],
  ◌∷◌, ◌++◌, map, ltb, leb, ◌==◌, if◌then◌else◌, update, arith, Bool-cases, inl, inr, ltb→lt,
  lt→ltb, length,
}
use wfey.Prelude.Int.{ℤ, pos, negsuc, pos_part, ltb_ℤ, ◌+ℤ◌}

abbrev pub max_samples : ℕ
max_samples = 10000

-- What the kernel answers in a round: `fseek` fails, or `fread` reads an item or none.
pub data Answer : Type 0 where
  seek_fails : Answer
  reads : Option ℕ → Answer

-- `n`, `out` and `readbuf`, in which `none` is a word that was never written.
pub record Sampling : Type 0 where
  pub n : ℕ
  pub out : ℕ
  pub readbuf : ℕ → Option ℕ

-- How the program ends: with a status, and what it has written to the standard output; or it is still waiting for an answer;
-- or it has written behind the end of `readbuf`.
pub data Ending : Type 0 where
  exited : ℤ → List (Option ℕ) → Ending
  pending : Ending
  overrun : Ending

abbrev pub store : (ℕ → Option ℕ) → ℕ → Option ℕ → ℕ → Option ℕ
store buf n none = buf
store buf n (some v) = update buf n (some v)

abbrev pub count : Option ℕ → ℕ
count none = 0
count (some v) = 1

-- `fread` into `readbuf [n++]`
abbrev pub sampled : Sampling → Option ℕ → Sampling
sampled s item = record {
  n = s.n + 1;
  out = s.out + count item;
  readbuf = store s.readbuf s.n item;
}

-- The words from an index on.
unfoldable pub written : (ℕ → Option ℕ) → ℕ → ℕ → List (Option ℕ)
written buf i zero = []
written buf i (suc k) = buf i ∷ written buf (i + 1) k

-- `while (n < totalread)` and what follows it.
unfoldable pub sample_loop : ℕ → List Answer → Sampling → Ending
unfolding written
sample_loop total [] s = if ltb s.n total then pending else exited (pos 0) (written s.readbuf 0 s.n)
sample_loop total (seek_fails ∷ answers) s =
    if ltb s.n total then exited (pos 1) [] else exited (pos 0) (written s.readbuf 0 s.n)
sample_loop total (reads item ∷ answers) s =
    let rest = sample_loop total answers (sampled s item) in
    if ltb s.n total
    then if leb max_samples s.n
      then overrun
      else if (sampled s item).out == 0
      then exited (pos 1) []
      else rest
    else exited (pos 0) (written s.readbuf 0 s.n)

abbrev pub total_read : ℤ → ℤ
total_read testtime = testtime +ℤ testtime

-- Before the loop.
abbrev pub started : Sampling
started = record { n = 0; out = 0; readbuf = λ i. none }

-- `main`, with `argc`, the second argument as a number, and whether the file can be opened. A loop up to an int has as many
-- rounds as its positive part.
unfoldable pub catmon : ℕ → ℤ → Bool → List Answer → Ending
unfolding sample_loop
catmon argc testtime opens answers =
    let samples = sample_loop (pos_part (total_read testtime)) answers started in
    if ltb argc 3
    then exited (negsuc 0) []
    else if ltb_ℤ (pos max_samples) (total_read testtime)
    then exited (pos 1) []
    else if opens
    then samples
    else exited (pos 1) []
