-- ===== src/Sampler/Samples.antt =====
-- What scripts/energyBM/catmon.c prints, and the bounds of its buffer.
use wfey.Prelude.{
  ℕ, ◌+◌, ◌*◌, ◌≤◌, ◌<◌, ◌≡◌, ◌≢◌, refl, Bool, true, false, Option, none, some, List, [], ◌∷◌, ◌++◌,
  map, ltb, leb, ◌==◌, sym, if◌then◌else◌, arith, length, ap, ◌∙◌,
}
use wfey.Prelude.Int.{ℤ, pos, negsuc, pos_part, ltb_ℤ}
use wfey.Sampler.{
  max_samples, Answer, seek_fails, reads, Sampling, Ending, exited, overrun, store, count, sampled,
  written, sample_loop, total_read, started, catmon,
}

sample_loop-within :
    (total : ℕ) (answers : List Answer) (s : Sampling)
    → total ≤ max_samples
    → sample_loop total answers s ≢ overrun
unfolding sample_loop
sample_loop-within total [] s h = ground arith
sample_loop-within total (seek_fails ∷ answers) s h = ground arith
sample_loop-within total (reads item ∷ answers) s h =
    let later = sample_loop-within total answers (sampled s item) h in ground arith

abbrev pub is_exited : Ending → Bool
is_exited (exited status output) = true
is_exited _ = false

sample_loop-exits :
    (total : ℕ) (answers : List Answer) (s : Sampling)
    → total ≤ max_samples
    → total ≤ s.n + length answers
    → is_exited (sample_loop total answers s) ≡ true
unfolding sample_loop
sample_loop-exits total [] s h enough = ground arith
sample_loop-exits total (seek_fails ∷ answers) s h enough = ground arith
sample_loop-exits total (reads item ∷ answers) s h enough =
    let later = sample_loop-exits total answers (sampled s item) h (omega arith) in ground arith

ltb-same : (n : ℕ) → ltb n n ≡ false
ltb-same n = ground arith

if-cases {ℓ κ} :
    {A : Type ℓ} (Q : A → Type κ) (test : Bool) {x y : A}
    → (test ≡ true → Q x)
    → (test ≡ false → Q y)
    → Q (if test then x else y)
if-cases Q true f g = f refl
if-cases Q false f g = g refl

total_read-bound :
    (testtime : ℤ)
    → ltb_ℤ (pos max_samples) (total_read testtime) ≡ false
    → pos_part (total_read testtime) ≤ max_samples
total_read-bound (pos n) h = ground arith
total_read-bound (negsuc n) h = ground arith

-- The program ends at once, with nothing printed, or takes the samples, for which the buffer is large enough.
catmon-cases {κ} :
    (Q : Ending → Type κ) (argc : ℕ) (testtime : ℤ) (opens : Bool) (answers : List Answer)
    → ((status : ℤ) → Q (exited status []))
    → (pos_part (total_read testtime) ≤ max_samples
        → Q (sample_loop (pos_part (total_read testtime)) answers started))
    → Q (catmon argc testtime opens answers)
unfolding catmon
catmon-cases Q argc testtime opens answers at_once samples =
    if-cases Q (ltb argc 3) (λ few. at_once (negsuc 0))
      λ many.
        if-cases Q (ltb_ℤ (pos max_samples) (total_read testtime)) (λ long. at_once (pos 1))
          λ short.
            if-cases Q opens (λ opened. samples (total_read-bound testtime short))
              (λ closed. at_once (pos 1))

-- Whatever the arguments are and whatever the kernel answers, no sample is written behind the end of the buffer.
pub catmon-within :
    (argc : ℕ) (testtime : ℤ) (opens : Bool) (answers : List Answer)
    → catmon argc testtime opens answers ≢ overrun
unfolding catmon
catmon-within argc testtime opens answers =
    catmon-cases (λ e. e ≢ overrun) argc testtime opens answers (λ status h. cc)
      (sample_loop-within (pos_part (total_read testtime)) answers started)

-- The program ends, with some status, when the kernel answers as many rounds as there are samples to take.
catmon-exits :
    (argc : ℕ) (testtime : ℤ) (opens : Bool) (answers : List Answer)
    → pos_part (total_read testtime) ≤ length answers
    → is_exited (catmon argc testtime opens answers) ≡ true
catmon-exits argc testtime opens answers enough =
    catmon-cases (λ e. is_exited e ≡ true) argc testtime opens answers (λ status. refl)
      (λ h.
        sample_loop-exits (pos_part (total_read testtime)) answers started h
          (omega (arith, enough)))

-- The buffer behind the items that are read from an index on.
fill : (ℕ → Option ℕ) → ℕ → List (Option ℕ) → ℕ → Option ℕ
fill buf n [] = buf
fill buf n (item ∷ items) = fill (store buf n item) (n + 1) items

fill-before :
    (buf : ℕ → Option ℕ) (n : ℕ) (items : List (Option ℕ)) (i : ℕ)
    → i < n
    → fill buf n items i ≡ buf i
unfolding fill
fill-before buf n [] i h = refl
fill-before buf n (none ∷ items) i h = fill-before buf (n + 1) items i (omega arith)
fill-before buf n (some v ∷ items) i h =
    fill-before (store buf n (some v)) (n + 1) items i (omega arith) ∙ grind arith

store-here :
    (buf : ℕ → Option ℕ) (n : ℕ) (item : Option ℕ) → buf n ≡ none → store buf n item n ≡ item
store-here buf n none h = h
store-here buf n (some v) h = grind arith

store-above :
    (buf : ℕ → Option ℕ) (n : ℕ) (item : Option ℕ) (i : ℕ) → n < i → store buf n item i ≡ buf i
store-above buf n none i h = refl
store-above buf n (some v) i h = grind arith

written-fill :
    (buf : ℕ → Option ℕ) (n : ℕ) (items : List (Option ℕ))
    → ((i : ℕ) → n ≤ i → buf i ≡ none)
    → written (fill buf n items) n (length items) ≡ items
unfolding written fill
written-fill buf n [] h = refl
written-fill buf n (item ∷ items) h =
    let here =
      fill-before (store buf n item) (n + 1) items n (omega arith)
      ∙ store-here buf n item (h n (omega arith)) in
    let later =
      written-fill (store buf n item) (n + 1) items
        (λ i b. store-above buf n item i (omega (arith, b)) ∙ h i (omega (arith, b))) in
    cc

sample_loop-end :
    (total : ℕ) (answers : List Answer) (s : Sampling)
    → s.n ≡ total
    → sample_loop total answers s ≡ exited (pos 0) (written s.readbuf 0 total)
unfolding sample_loop
sample_loop-end total [] s e = rw (sym e) (rw (ltb-same s.n) refl)
sample_loop-end total (seek_fails ∷ answers) s e = rw (sym e) (rw (ltb-same s.n) refl)
sample_loop-end total (reads item ∷ answers) s e = rw (sym e) (rw (ltb-same s.n) refl)

-- From the first sample on, the loop reads the other items into the buffer, missing ones too.
sample_loop-fill :
    (total : ℕ) (items : List (Option ℕ)) (answers : List Answer) (s : Sampling)
    → 0 < s.out
    → s.n + length items ≡ total
    → total ≤ max_samples
    → sample_loop total (map reads items ++ answers) s
      ≡ exited (pos 0) (written (fill s.readbuf s.n items) 0 total)
unfolding sample_loop fill
sample_loop-fill total [] answers s h e b = sample_loop-end total answers s (omega arith)
sample_loop-fill total (item ∷ items) answers s h e b =
    let later =
      sample_loop-fill total items answers (sampled s item) (omega arith) (omega arith) b in
    let more : ltb s.n total ≡ true = ground arith in
    let room : leb max_samples s.n ≡ false = ground arith in
    let seen : ((s.out + count item) == 0) ≡ false = ground arith in rw (more, room, seen) later

total_read-pos : (n : ℕ) → total_read (pos n) ≡ pos (n + n)
total_read-pos n = ground arith

catmon-loop :
    (argc testtime : ℕ) (answers : List Answer)
    → 3 ≤ argc
    → testtime + testtime ≤ max_samples
    → catmon argc (pos testtime) true answers ≡ sample_loop (testtime + testtime) answers started
unfolding catmon
catmon-loop argc testtime answers h b =
    let many : ltb argc 3 ≡ false = ground arith in
    let fits : ltb (max_samples + 0) (testtime + testtime + 0) ≡ false = ground arith in
    rw many (rw (total_read-pos testtime) (rw fits refl))

-- With enough arguments, a file that opens and a positive number of samples for which the buffer has room: if the first `fread` reads
-- its sample and no `fseek` fails, the program takes all samples, ends with status 0 and prints them in order; and a later `fread` that
-- reads nothing does not end it: in the place of this sample it prints a word of its buffer that was never written.
pub catmon-prints :
    (argc testtime v : ℕ) (items : List (Option ℕ)) (answers : List Answer)
    → 3 ≤ argc
    → testtime * 2 ≡ 1 + length items
    → testtime * 2 ≤ max_samples
    → catmon argc (pos testtime) true (reads (some v) ∷ (map reads items ++ answers))
      ≡ exited (pos 0) (some v ∷ items)
unfolding sample_loop fill
catmon-prints argc testtime v items answers h e b =
    let total : testtime + testtime ≡ length (some v ∷ items) = omega arith in
    let samples =
      sample_loop-fill (testtime + testtime) items answers (sampled started (some v)) (omega arith)
        (omega arith) (omega arith) in
    let all = written-fill started.readbuf 0 (some v ∷ items) (λ i b. refl) in
    let more : ltb 0 (testtime + testtime) ≡ true = ground arith in
    let printed : written (fill started.readbuf 0 (some v ∷ items)) 0 (testtime + testtime)
        ≡ some v ∷ items =
      rw total all in
    catmon-loop argc testtime _ h (omega arith) ∙ rw more (samples ∙ ap (exited (pos 0)) printed)
