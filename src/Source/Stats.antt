-- ===== src/Source/Stats.antt =====
-- What the latency fields of a source stand for: a list of latencies, forgotten but for its length, sum, least and
-- greatest member. (`source_event_reset` and the report loop of `main` in wfey.c.)
use wfey.Prelude.{
  ℕ, ◌+◌, ◌-◌, ◌*◌, ◌%◌, ◌^◌, ◌≤◌, ◌<◌, ◌≡◌, refl, Option, some, List, [], ◌∷◌, arith, ltb, inl,
  inr, Bool-cases, length, sum, least, greatest, if◌then◌else◌, true,
}
use wfey.Clock.{word, Ts, ts_now, ts_diff, to_ns, IsClock, ts_diff-eq}
use wfey.Source.{
  Source, reset, account, source_event_activate, source_event_reset, init_source, not_positive,
}

-- The fields of `s` are those of the latencies `ls`, on 64 bits.
pub record Accounts (s : Source) (ls : List ℕ) : Type 0 where
  pub counted : s.count ≡ length ls % word
  pub summed : s.totalns ≡ sum ls % word
  pub shortest : s.minns ≡ least (word - 1) ls
  pub longest : s.maxns ≡ greatest ls

-- `main` starts every source, whatever its memory held, reset and with no latency.
pub init_source-Accounts :
    (id : ℕ) (now : Option Ts) (raw : Source)
    → let s = init_source id now raw in Accounts s [] × (s.state ≡ reset) × (s.id ≡ id)
unfolding init_source
init_source-Accounts id now raw = ground arith

least-mul-length : (top : ℕ) (ls : List ℕ) → least top ls * length ls ≤ sum ls
least-mul-length top [] = omega arith
least-mul-length top (x ∷ xs) = grind (arith, least-mul-length top xs)

sum-le-greatest : (ls : List ℕ) → sum ls ≤ greatest ls * length ls
sum-le-greatest [] = omega arith
sum-le-greatest (x ∷ xs) = grind (arith, sum-le-greatest xs)

-- A difference that reads as a positive number is accounted, any other is dropped.
account-taken :
    (s : Source) (ls : List ℕ) (d : ℕ)
    → ts_diff s.start_ts s.end_ts ≡ d
    → 0 < d
    → d < 2 ^ 63
    → Accounts s ls
    → Accounts (account s) (d ∷ ls)
unfolding account
account-taken s ls d e lo hi a = rw e (ground arith)

account-dropped :
    (s : Source) (d : ℕ) → ts_diff s.start_ts s.end_ts ≡ d → not_positive d ≡ true → account s ≡ s
unfolding account
account-dropped s d e h = rw (e, h)

state-account : (s : Source) → (account s).state ≡ s.state
unfolding account
state-account s = ground arith

-- The latencies behind an event that lasted from `start` to `end`: one more, if it ended later than it
-- began.
abbrev pub lasted : Ts → Ts → List ℕ → List ℕ
lasted start end ls = if ltb (to_ns start) (to_ns end) then (to_ns end - to_ns start) ∷ ls else ls

pub account-Accounts :
    (s : Source) (ls : List ℕ)
    → Accounts s ls
    → IsClock s.start_ts
    → IsClock s.end_ts
    → Accounts (account s) (lasted s.start_ts s.end_ts ls)
account-Accounts s ls a hs he = elim (Bool-cases (ltb (to_ns s.start_ts) (to_ns s.end_ts))) [
  | inl later ↦ rw later (
      account-taken s ls (to_ns s.end_ts - to_ns s.start_ts) (ground (arith, diff)) (ground arith)
        (omega arith) a)
  | inr sooner ↦
      rw (sooner, account-dropped s (ts_diff s.start_ts s.end_ts) refl (ground (arith, diff))) a
]
  where
    diff : ts_diff s.start_ts s.end_ts + to_ns s.start_ts ≡ (
        if ltb (to_ns s.end_ts) (to_ns s.start_ts) then word + to_ns s.end_ts else to_ns s.end_ts)
    diff = ts_diff-eq s.start_ts s.end_ts hs he

-- `source_event_reset` at a time `now` that the clock gave leaves the event reset, and the latency fields
-- as those of the latencies behind an event from `start_ts` to `now`.
pub source_event_reset-Accounts :
    (s : Source) (ls : List ℕ) (now : Ts)
    → Accounts s ls
    → IsClock s.start_ts
    → IsClock now
    → ((source_event_reset (some now) s).state ≡ reset)
      × Accounts (source_event_reset (some now) s) (lasted s.start_ts now ls)
unfolding source_event_reset ts_now
source_event_reset-Accounts s ls now a hs hn =
    (state-account s', account-Accounts s' ls ended hs hn)
  where
    s' : Source
    s' = record s { end_ts = now; state = reset }

    ended : Accounts s' ls
    ended = record {
      counted = a.counted;
      summed = a.summed;
      shortest = a.shortest;
      longest = a.longest;
    }

-- An activation leaves the latencies, and has the source's event begin at the time that the clock gave.
pub source_event_activate-Accounts :
    (s : Source) (ls : List ℕ) (now : Ts)
    → Accounts s ls
    → Accounts (source_event_activate (some now) s) ls
      × ((source_event_activate (some now) s).start_ts ≡ now)
unfolding source_event_activate ts_now
source_event_activate-Accounts s ls now a = (
  record { counted = a.counted; summed = a.summed; shortest = a.shortest; longest = a.longest },
  refl,
)

-- While the sum of the latencies fits 64 bits, a source with a latency has a least one that is not
-- above the greatest, and the total lies between the count times either: so does the mean.
pub Accounts-bounds :
    (s : Source) (l : ℕ) (ls : List ℕ)
    → Accounts s (l ∷ ls)
    → sum (l ∷ ls) < word
    → length (l ∷ ls) < word
    → (s.minns ≤ s.maxns)
      × (s.minns * s.count ≤ s.totalns)
      × (s.totalns ≤ s.maxns * s.count)
      × (0 < s.count)
Accounts-bounds s l ls a fits few = (
  omega arith,
  rw (a.shortest, count, total) (least-mul-length (word - 1) (l ∷ ls)),
  rw (a.longest, count, total) (sum-le-greatest (l ∷ ls)),
  omega arith,
)
  where
    count : s.count ≡ length (l ∷ ls)
    count = omega arith

    total : s.totalns ≡ sum (l ∷ ls)
    total = omega arith
