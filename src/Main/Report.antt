-- ===== src/Main/Report.antt =====
-- The report loop of `main` in wfey.c (SRC_ID, WorkType, Latency_Min, Latency_Max, Latency_Mean), over sources that `main` has set up and that
-- were activated and reset any number of times.
pub mod Runs
use Prim.Native.String.{String}
use mathlib.Core.Path.{subst}
use wfey.Prelude.{
  ℕ, ◌*◌, ◌≤◌, ◌<◌, ◌≡◌, Option, none, some, List, [], ◌∷◌, arith, ◌==◌, if◌then◌else◌, length, sum,
  least, greatest, ◌+◌, ◌-◌, refl, true, false, ◌∙◌,
}
use wfey.Clock.{word, Ts, IsClock}
use wfey.Source.{Source, source_event_activate, source_event_reset, init_source}
use wfey.Source.Stats.{
  Accounts, Accounts-bounds, lasted, init_source-Accounts, source_event_reset-Accounts,
  source_event_activate-Accounts,
}
use wfey.Work.{print_work_type}

-- A line of the report; the mean is the quotient of its two parts, and `none` stands for -1.
pub record Row : Type 0 where
  pub id : ℕ
  pub work : String
  pub latency_min : ℕ
  pub latency_max : ℕ
  pub latency_mean : Option (ℕ × ℕ)

unfoldable pub report : Source → Row
report src =
    if src.count == 0
    then record {
      id = src.id;
      work = print_work_type src.work_type;
      latency_min = 0;
      latency_max = 0;
      latency_mean = none;
    }
    else record {
      id = src.id;
      work = print_work_type src.work_type;
      latency_min = src.minns;
      latency_max = src.maxns;
      latency_mean = some (src.totalns, src.count);
    }

pub report-id : (src : Source) → (report src).id ≡ src.id
unfolding report
report-id src = ground arith

-- The events of a source: when it was activated, and when it was reset.
play : List (Ts × Ts) → Source → Source
play [] s = s
play ((start, end) ∷ rest) s =
    play rest (source_event_reset (some end) (source_event_activate (some start) s))

-- The latencies of these events, the last one first.
unfoldable pub latencies : List (Ts × Ts) → List ℕ → List ℕ
latencies [] ls = ls
latencies ((start, end) ∷ rest) ls = latencies rest (lasted start end ls)

abbrev AllClock : List (Ts × Ts) → Type 0
AllClock [] = Unit
AllClock ((start, end) ∷ rest) = IsClock start × IsClock end × AllClock rest

play-Accounts :
    (evs : List (Ts × Ts)) (s : Source) (ls : List ℕ)
    → AllClock evs
    → Accounts s ls
    → Accounts (play evs s) (latencies evs ls)
unfolding play latencies
play-Accounts [] s ls c a = a
play-Accounts ((start, end) ∷ rest) s ls (cs, ce, c) a =
    let (kept, began) = source_event_activate-Accounts s ls start a in
    let (_, reset) =
      source_event_reset-Accounts (source_event_activate (some start) s) ls end kept (rw began cs)
        ce in
    play-Accounts rest (source_event_reset (some end) (source_event_activate (some start) s))
      (lasted start end ls) c
      (subst
        (λ t.
          Accounts (source_event_reset (some end) (source_event_activate (some start) s))
            (lasted t end ls))
        began reset)

-- What a line says of the latencies of its source.
abbrev pub IsReport : List ℕ → Row → Type 0
IsReport [] row = (row.latency_min ≡ 0) × (row.latency_max ≡ 0) × (row.latency_mean ≡ none)
IsReport (l ∷ ls) row =
    (row.latency_min ≡ least l ls)
    × (row.latency_max ≡ greatest (l ∷ ls))
    × (row.latency_min * length (l ∷ ls) ≤ sum (l ∷ ls))
    × (sum (l ∷ ls) ≤ row.latency_max * length (l ∷ ls))
    × (row.latency_mean ≡ some (sum (l ∷ ls), length (l ∷ ls)))

-- The value that `minns` begins with is above every latency.
least-first : (top l : ℕ) (ls : List ℕ) → l ≤ top → least top (l ∷ ls) ≡ least l ls
least-first top l [] h = ground arith
least-first top l (x ∷ ls) h = ground (arith, least-first top l ls h)

pub report-IsReport :
    (s : Source) (ls : List ℕ)
    → Accounts s ls
    → sum ls < word
    → length ls < word
    → IsReport ls (report s)
unfolding report
report-IsReport s [] a fits few =
    let none_taken : (s.count == 0) ≡ true = ground (arith, a.counted) in
    rw none_taken (refl, refl, refl)
report-IsReport s (l ∷ ls) a fits few =
    let (_, low, high, some_count) = Accounts-bounds s l ls a fits few in
    let first = least-first (word - 1) l ls (omega arith) in
    let count : s.count ≡ length (l ∷ ls) = omega (arith, a.counted) in
    let total : s.totalns ≡ sum (l ∷ ls) = omega (arith, a.summed) in
    let taken : (s.count == 0) ≡ false = ground arith in
    rw taken (
      a.shortest ∙ first,
      a.longest,
      rw (total, count) at low,
      rw (total, count) at high,
      rw (total, count) refl,
    )

-- A source that `main` has set up, and that was then activated and reset at times that the clock gave: while the sum and the number of its
-- latencies fit 64 bits, its line has the sum and the number of the latencies for the mean, and a least and
-- a greatest latency between which the mean lies; with no latency it has 0, 0 and -1.
report-play :
    (id : ℕ) (now : Option Ts) (raw : Source) (evs : List (Ts × Ts))
    → AllClock evs
    → sum (latencies evs []) < word
    → length (latencies evs []) < word
    → IsReport (latencies evs []) (report (play evs (init_source id now raw)))
report-play id now raw evs c fits few =
    report-IsReport (play evs (init_source id now raw)) (latencies evs [])
      (play-Accounts evs (init_source id now raw) [] c (init_source-Accounts id now raw).0) fits few
