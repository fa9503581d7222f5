-- ===== src/Work/Transfer.antt =====
-- The ends of the loops over `read` and `write` in `memwork` and `iowork` of wfey.c.
use wfey.Prelude.{
  ℕ, ◌+◌, ◌-◌, ◌≤◌, ◌<◌, ◌≡◌, Option, none, some, List, [], ◌∷◌, ◌++◌, map, arith, sum, lt→ltb,
}
use wfey.Work.Calls.{Call, ok, transfer_over, transfer}

-- A loop that begins at its end makes no call.
pub transfer_over-full :
    (c : ℕ → Call) (size done : ℕ) (answers : List (Option ℕ)) (calls : List Call)
    → size ≤ done
    → transfer_over c size done answers calls
      ≡ ok done (record { answers = answers; calls = calls })
unfolding transfer_over
transfer_over-full c size done [] calls h = ground arith
transfer_over-full c size done (none ∷ rest) calls h = ground arith
transfer_over-full c size done (some r ∷ rest) calls h = ground arith

-- What the kernel may deliver: `size` bytes in calls of at least one byte each.
abbrev pub AllPositive : List ℕ → Type 0
AllPositive [] = Unit
AllPositive (r ∷ rest) = (0 < r) × AllPositive rest

transfer_over_chunks :
    (c : ℕ → Call) (chunks : List ℕ) (size done : ℕ) (more : List (Option ℕ)) (calls : List Call)
    → done + sum chunks ≡ size
    → AllPositive chunks
    → (calls' : List Call) × (transfer_over c size done (map some chunks ++ more) calls
        ≡ ok size (record { answers = more; calls = calls' }))
unfolding transfer_over
transfer_over_chunks c [] size done more calls e p =
    let full : done ≡ size = omega arith in
    (calls, rw (← full) (transfer_over-full c done done more calls (omega arith)))
transfer_over_chunks c (r ∷ rest) size done more calls e p =
    let (calls', f) =
      transfer_over_chunks c rest size (done + r) more (c (size - done) ∷ calls) (omega arith)
        p.1 in
    (calls', rw (lt→ltb done size (omega arith)) f)

-- However the kernel divides `size` bytes into calls, the loop ends without a failure when it has transferred just
-- these, and the answers behind them are left for the calls that follow.
pub transfer_total :
    (c : ℕ → Call) (chunks : List ℕ) (size : ℕ) (more : List (Option ℕ)) (calls : List Call)
    → sum chunks ≡ size
    → AllPositive chunks
    → (calls' : List Call) × (transfer c size 0
          (record { answers = map some chunks ++ more; calls = calls })
        ≡ ok size (record { answers = more; calls = calls' }))
unfolding transfer
transfer_total c chunks size more calls e p =
    transfer_over_chunks c chunks size 0 more calls (omega arith) p
