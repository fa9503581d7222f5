-- ===== src/Tests/Samplers.antt =====
-- Runs of the energy sampler.
use wfey.Prelude.{◌≡◌, ◌≢◌, refl, true, none, some, [], ◌∷◌, ◌++◌, map, arith}
use wfey.Prelude.Int.{pos, negsuc}
use wfey.Sampler.{seek_fails, reads, exited, overrun, sample_loop, written, catmon}
use wfey.Sampler.Samples.{catmon-within, catmon-prints}

catmon-within_example : catmon 3 (pos 2) true (reads (some 7) ∷ seek_fails ∷ []) ≢ overrun
catmon-within_example = catmon-within 3 (pos 2) true (reads (some 7) ∷ seek_fails ∷ [])

-- Two seconds, of whose four samples the second and the third are missing.
catmon-prints_example :
    catmon 3
      (pos 2)
      true
      (reads (some 7) ∷ (map reads (none ∷ none ∷ some 9 ∷ []) ++ (seek_fails ∷ [])))
    ≡ exited (pos 0) (some 7 ∷ none ∷ none ∷ some 9 ∷ [])
catmon-prints_example =
    catmon-prints 3 2 7 (none ∷ none ∷ some 9 ∷ []) (seek_fails ∷ []) (omega arith) (omega arith)
      (omega arith)

ended :
    (catmon 2 (pos 2) true [] ≡ exited (negsuc 0) [])
    × (catmon 3 (pos 5001) true [] ≡ exited (pos 1) [])
    × (catmon 3 (pos 2) true (reads none ∷ []) ≡ exited (pos 1) [])
    × (catmon 3 (pos 2) true (reads (some 7) ∷ seek_fails ∷ []) ≡ exited (pos 1) [])
    × (catmon 3 (negsuc 4) true [] ≡ exited (pos 0) [])
unfolding catmon sample_loop written
ended = (refl, refl, refl, refl, refl)
