-- ===== src/Work/Calls.antt =====
-- The system calls that the work functions of wfey.c make. What the kernel answers is an argument, a list of
-- results in the order of the calls, `none` for -1; the calls made are kept.
use wfey.Prelude.{ℕ, ◌+◌, ◌-◌, ◌≡◌, refl, Option, none, some, List, [], ◌∷◌, ltb, if◌then◌else◌}

pub data Call : Type 0 where
  open_tmp : Call  -- `open("foo", O_TMPFILE | O_RDWR, ...)`
  open_random : Call  -- `open("/dev/urandom", O_RDONLY)`
  map_memory : Call  -- `mmap`
  unmap_memory : Call  -- `munmap`
  read : ℕ → Call  -- with the number of bytes that are asked for
  write : ℕ → Call
  close_random : Call
  close_tmp : Call

pub record World : Type 0 where
  pub answers : List (Option ℕ)
  pub calls : List Call  -- the last one first

-- A call that fails ends the program by `handle_error`; with no answer left the call has not returned.
pub data Outcome {ℓ} (A : Type ℓ) : Type ℓ where
  ok : A → World → Outcome A
  failed : World → Outcome A
  pending : World → Outcome A

abbrev pub Io {ℓ} : Type ℓ → Type ℓ
Io A = World → Outcome A

infixl 5 ◌>>=◌ ◌>>◌
abbrev pub ◌>>=◌ {ℓ κ} : {A : Type ℓ} {B : Type κ} → Io A → (A → Io B) → Io B
◌>>=◌ m f w = elim (m w) [ ok a w' ↦ f a w' | failed w' ↦ failed w' | pending w' ↦ pending w' ]

abbrev pub ◌>>◌ {ℓ κ} : {A : Type ℓ} {B : Type κ} → Io A → Io B → Io B
m >> k = m >>= λ _. k

-- A part that has returned is gone from the front of a chain.
pub ok-bind {ℓ κ} :
    {A : Type ℓ} {B : Type κ} (m : Io A) (f : A → Io B) {w w' : World} {a : A}
    → m w ≡ ok a w'
    → (m >>= f) w ≡ f a w'
ok-bind m f e = rw (e, ◌>>=◌) refl

abbrev pub pure {ℓ} : {A : Type ℓ} → A → Io A
pure a w = ok a w

abbrev pub answer : Call → List (Option ℕ) → List Call → Outcome ℕ
answer c [] calls = pending (record { answers = []; calls = c ∷ calls })
answer c (none ∷ rest) calls = failed (record { answers = rest; calls = c ∷ calls })
answer c (some r ∷ rest) calls = ok r (record { answers = rest; calls = c ∷ calls })

unfoldable pub sys : Call → Io ℕ
sys c w = answer c w.answers w.calls

abbrev outcome : Call → List (Option ℕ) → List Call → Outcome (Option ℕ)
outcome c [] calls = pending (record { answers = []; calls = c ∷ calls })
outcome c (r ∷ rest) calls = ok r (record { answers = rest; calls = c ∷ calls })

-- A call whose result nothing looks at.
unfoldable pub sys_unchecked : Call → Io (Option ℕ)
sys_unchecked c w = outcome c w.answers w.calls

-- `while (done < size) done += call(..., size - done)`, over the answers.
unfoldable pub transfer_over : (ℕ → Call) → ℕ → ℕ → List (Option ℕ) → List Call → Outcome ℕ
transfer_over c size done [] calls =
    if ltb done size
    then pending (record { answers = []; calls = c (size - done) ∷ calls })
    else ok done (record { answers = []; calls = calls })
transfer_over c size done (none ∷ rest) calls =
    if ltb done size
    then failed (record { answers = rest; calls = c (size - done) ∷ calls })
    else ok done (record { answers = none ∷ rest; calls = calls })
transfer_over c size done (some r ∷ rest) calls =
    let more = transfer_over c size (done + r) rest (c (size - done) ∷ calls) in
    if ltb done size then more else ok done (record { answers = some r ∷ rest; calls = calls })

unfoldable pub transfer : (ℕ → Call) → ℕ → ℕ → Io ℕ
unfolding transfer_over
transfer c size done w = transfer_over c size done w.answers w.calls
