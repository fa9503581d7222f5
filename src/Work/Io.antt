-- ===== src/Work/Io.antt =====
-- `iowork` of wfey.c: rounds that write 50 bytes to a temporary file. The buffer is filled by a loop that begins at
-- `datalen`, which the round before has left at the size of the buffer.
use wfey.Prelude.{
  ℕ, zero, suc, ◌+◌, ◌≤◌, ◌≡◌, refl, Option, none, some, List, [], ◌∷◌, ◌++◌, arith, ltb, inl, inr,
  Bool-cases, ◌-◌,
}
use wfey.Work.Transfer.{transfer_over-full}
use wfey.Work.Calls.{
  Call, open_tmp, open_random, read, write, close_random, close_tmp, World, answer, Outcome, ok,
  failed, pending, Io, ◌>>=◌, ◌>>◌, pure, sys, transfer, transfer_over,
}

abbrev pub buffer_size : ℕ
buffer_size = 50

-- A round, from the value of `datalen` before it to that behind it.
unfoldable pub io_round : ℕ → Io ℕ
unfolding sys transfer
io_round datalen = do
  sys open_tmp
  sys open_random
  transfer read buffer_size datalen
  written ← transfer write buffer_size 0
  sys close_random
  sys close_tmp
  pure written

pub io_rounds : ℕ → ℕ → Io ℕ
io_rounds zero datalen = pure datalen
io_rounds (suc rounds) datalen = io_round datalen >>= io_rounds rounds

-- `WORK_COUNT` rounds; `datalen` starts at 0.
pub work_count : ℕ
work_count = 10000

unfoldable pub iowork : Io ℕ
iowork = io_rounds work_count 0

-- The calls of `read` in a record of calls.
unfoldable pub reads : List Call → ℕ
reads [] = 0
reads (read k ∷ calls) = 1 + reads calls
reads (_ ∷ calls) = reads calls

-- How a part of `iowork` has ended: `n` calls of `read` have been made so far, and `P` holds of what it
-- returned.
abbrev pub Ends {ℓ} : {A : Type ℓ} → (A → Type 0) → ℕ → Outcome A → Type 0
Ends P n (ok a w) = P a × (reads w.calls ≡ n)
Ends P n (failed w) = reads w.calls ≡ n
Ends P n (pending w) = reads w.calls ≡ n

abbrev Anything {ℓ} : {A : Type ℓ} → A → Type 0
Anything _ = Unit

-- The rule for a bind.
Ends-bind {ℓ κ} :
    {A : Type ℓ} {B : Type κ} (P : A → Type 0) (Q : B → Type 0) (n : ℕ) (m : Io A) (f : A → Io B)
    (w : World)
    → Ends P n (m w)
    → ((a : A) (w' : World) → P a → reads w'.calls ≡ n → Ends Q n (f a w'))
    → Ends Q n ((m >>= f) w)
Ends-bind {A = A} {B} P Q n m f w q k = go (m w) q
  where
    go :
        (o : Outcome A)
        → Ends P n o
        → Ends {A = B} Q n
            (elim o [ ok a w' ↦ f a w' | failed w' ↦ failed w' | pending w' ↦ pending w' ])
    go (ok a w') h = k a w' h.0 h.1
    go (failed w') h = h
    go (pending w') h = h

reads-cons : (c : Call) (calls : List Call) → reads (c ∷ []) ≡ 0 → reads (c ∷ calls) ≡ reads calls
unfolding reads
reads-cons (read k) calls h = absurd (omega arith)
reads-cons _ calls h = refl

answer-Ends :
    (c : Call) (answers : List (Option ℕ)) (calls : List Call)
    → reads (c ∷ []) ≡ 0
    → Ends Anything (reads calls) (answer c answers calls)
answer-Ends c [] calls h = reads-cons c calls h
answer-Ends c (none ∷ rest) calls h = reads-cons c calls h
answer-Ends c (some r ∷ rest) calls h = (tt, reads-cons c calls h)

sys-Ends :
    (c : Call) (n : ℕ) (w : World)
    → reads (c ∷ []) ≡ 0
    → reads w.calls ≡ n
    → Ends Anything n (sys c w)
unfolding sys
sys-Ends c n w h e = rw e at (answer-Ends c w.answers w.calls h)

transfer_over-Ends :
    (size done : ℕ) (answers : List (Option ℕ)) (calls : List Call)
    → Ends (λ d. size ≤ d) (reads calls) (transfer_over write size done answers calls)
unfolding transfer_over reads
transfer_over-Ends size done [] calls = ground arith
transfer_over-Ends size done (none ∷ rest) calls = ground arith
transfer_over-Ends size done (some r ∷ rest) calls = elim (Bool-cases (ltb done size)) [
  | inl more ↦ rw more (transfer_over-Ends size (done + r) rest (write (size - done) ∷ calls))
  | inr full ↦ rw full (ground arith)
]

transfer-Ends :
    (size n : ℕ) (w : World) → reads w.calls ≡ n → Ends (λ d. size ≤ d) n (transfer write size 0 w)
unfolding transfer
transfer-Ends size n w e = rw e at (transfer_over-Ends size 0 w.answers w.calls)

io_round-Ends :
    (datalen n : ℕ) (w : World)
    → buffer_size ≤ datalen
    → reads w.calls ≡ n
    → Ends (λ d. buffer_size ≤ d) n (io_round datalen w)
unfolding io_round reads
io_round-Ends datalen n w full e =
    Ends-bind Anything AtEnd n (sys open_tmp) _ w (sys-Ends open_tmp n w refl e) λ _ w1 _ e1.
      Ends-bind Anything AtEnd n (sys open_random) _ w1 (sys-Ends open_random n w1 refl e1)
        λ _ w2 _ e2.
          Ends-bind AtEnd AtEnd n (transfer read buffer_size datalen) _ w2
            (rw (transfer_over-full read buffer_size datalen w2.answers w2.calls full) (full, e2))
            λ _ w3 _ e3.
              Ends-bind AtEnd AtEnd n (transfer write buffer_size 0) _ w3
                (transfer-Ends buffer_size n w3 e3)
                λ d w4 long e4.
                  Ends-bind Anything AtEnd n (sys close_random) _ w4
                    (sys-Ends close_random n w4 refl e4)
                    λ _ w5 _ e5.
                      Ends-bind Anything AtEnd n (sys close_tmp) _ w5
                        (sys-Ends close_tmp n w5 refl e5) λ _ w6 _ e6. (long, e6)
  where
    AtEnd : ℕ → Type 0
    AtEnd d = buffer_size ≤ d

rounds-Ends :
    (rounds datalen n : ℕ) (w : World)
    → buffer_size ≤ datalen
    → reads w.calls ≡ n
    → Ends (λ d. buffer_size ≤ d) n (io_rounds rounds datalen w)
unfolding io_rounds
rounds-Ends zero datalen n w full e = (full, e)
rounds-Ends (suc k) datalen n w full e =
    Ends-bind (λ d. buffer_size ≤ d) (λ d. buffer_size ≤ d) n (io_round datalen) (io_rounds k) w
      (io_round-Ends datalen n w full e) (λ d w'. rounds-Ends k d n w')

-- Once a round has left `datalen` at the size of the buffer or above, no later round makes a call of `read`: whatever the
-- kernel answers, and however the rounds end, the calls made in them are none of `read`, and `datalen` stays there.
pub io_rounds-Ends :
    (rounds datalen : ℕ) (w : World)
    → buffer_size ≤ datalen
    → Ends (λ d. buffer_size ≤ d) (reads w.calls) (io_rounds rounds datalen w)
io_rounds-Ends rounds datalen w full = rounds-Ends rounds datalen (reads w.calls) w full refl

-- A kernel that answers every call in full: the first round, and the others.
abbrev pub first_round : List (Option ℕ)
first_round = some 3 ∷ some 4 ∷ some 50 ∷ some 50 ∷ some 0 ∷ some 0 ∷ []

abbrev pub prompt_rounds : ℕ → List (Option ℕ)
prompt_rounds zero = []
prompt_rounds (suc k) = some 3 ∷ some 4 ∷ some 50 ∷ some 0 ∷ some 0 ∷ prompt_rounds k

later_rounds :
    (k : ℕ) (calls : List Call)
    → (w : World) × (io_rounds k buffer_size (record { answers = prompt_rounds k; calls = calls })
        ≡ ok buffer_size w)
      × (reads w.calls ≡ reads calls)
unfolding io_rounds io_round transfer_over reads
later_rounds zero calls = (record { answers = []; calls = calls }, refl, refl)
later_rounds (suc k) calls =
    later_rounds k (close_tmp ∷ close_random ∷ write 50 ∷ open_random ∷ open_tmp ∷ calls)

-- With a kernel that answers each call in full, any positive number of rounds returns, and exactly one call of `read` has been
-- made in all of them together.
io_rounds-prompt :
    (k : ℕ)
    → (w : World) × (io_rounds
          (suc k)
          0
          (record { answers = first_round ++ prompt_rounds k; calls = [] })
        ≡ ok buffer_size w)
      × (reads w.calls ≡ 1)
unfolding io_rounds io_round transfer_over reads
io_rounds-prompt k =
    later_rounds k (close_tmp ∷ close_random ∷ write 50 ∷ read 50 ∷ open_random ∷ open_tmp ∷ [])
