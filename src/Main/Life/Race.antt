-- ===== src/Main/Life/Race.antt =====
-- What the processor does before `main` has made the sources, in the builds without a doorbell.
use wfey.Prelude.{ℕ, ◌≡◌, refl, false, List, [], ◌∷◌}
use wfey.Config.{Config}
use wfey.Main.Life.{scanning, null, Life, Event, main, ep, meet_ep, live, beginning}

-- `main` creates the processor and meets it at the barrier; then the processor is faster than `main`.
abbrev pub ahead : List Event
ahead = main ∷ ep ∷ meet_ep ∷ ep ∷ ep ∷ []

-- In a build without a doorbell the processor can go through the sources while `Sources` is the null pointer: `main` lets it into its
-- loop before it makes them.
pub scans_null :
    (c : Config) (n total : ℕ) (raw : Life)
    → c.use_doorbell ≡ false
    → ((live c n total ahead (beginning raw)).ep ≡ scanning)
      × ((live c n total ahead (beginning raw)).sources ≡ null)
unfolding live
scans_null c n total raw h = rw h (refl, refl)
