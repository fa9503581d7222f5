-- ===== src/Perf/Session.antt =====
-- What epThread of wfey.c asks of the kernel for its counters, from their opening to their closing. The kernel's answers are an
-- argument. A run is the list of the calls that it has made, and ends by an exit of the program or with a value.
use wfey.Prelude.{ℕ, ◌+◌, Bool, true, false, Option, none, some, List, [], ◌∷◌, ◌++◌, map}
use wfey.Prelude.Int.{ℤ, pos, negsuc}
use wfey.Perf.{Attr, Reported, read_counters}

pub data Call : Type 0 where
  perf_event_open : Attr → ℤ → Option ℕ → Call  -- the event, the group, -1 for none, and the descriptor, none for -1
  get_id : ℕ → Call
  reset : ℕ → Call
  enable : ℕ → Call
  disable : ℕ → Call
  read : ℕ → Call
  close : ℕ → Call

pub data Run (A : Type 0) : Type 0 where
  exit : List Call → Run A
  go : List Call → A → Run A

infixl 5 ◌>>=◌ ◌>>◌
abbrev pub ◌>>=◌ : {A B : Type 0} → Run A → (A → Run B) → Run B
exit calls >>= f = exit calls
go calls a >>= f = elim (f a) [
  | exit more ↦ exit (calls ++ more)
  | go more b ↦ go (calls ++ more) b
]

abbrev pub ◌>>◌ : {B : Type 0} → Run (Unit {0}) → Run B → Run B
m >> k = m >>= λ _. k

abbrev pub done : {A : Type 0} → A → Run A
done a = go [] a

-- A call whose answer is not looked at, and one that ends the program where it fails.
abbrev pub call : Call → Run (Unit {0})
call c = go (c ∷ []) tt

abbrev pub checked : Call → Bool → Run (Unit {0})
checked c true = go (c ∷ []) tt
checked c false = exit (c ∷ [])

-- The answers: the descriptors by the number of the event; the id of a descriptor, none where the call fails; whether the group is reset,
-- enabled and disabled; and what `read` reports, none where it fails. `raw_id` and `raw_results` is what the memory of `pe_id`
-- and `counter_results` held.
pub record Kernel : Type 0 where
  pub descriptor : ℕ → Option ℕ
  pub id : ℕ → Option ℕ
  pub reset_ok : Bool
  pub enable_ok : Bool
  pub disable_ok : Bool
  pub results : Option (List Reported)
  pub raw_id : ℕ → ℕ
  pub raw_results : List Reported

-- A counter in `pe_fd` and `pe_id`.
abbrev pub Counter : Type 0
Counter = record { fd : ℕ; id : ℕ }

module _ (k : Kernel) where
  abbrev pub id_of : ℕ → ℕ → ℕ
  id_of i fd = elim (k.id fd) [ none ↦ k.raw_id i | some id ↦ id ]

  abbrev pub perf_open : ℕ → Attr → ℤ → Run ℕ
  perf_open i attr group = elim (k.descriptor i) [
    | none ↦ exit (perf_event_open attr group none ∷ [])
    | some fd ↦ go (perf_event_open attr group (some fd) ∷ []) fd
  ]

  unfoldable pub open_event : ℕ → Attr → ℤ → Run Counter
  open_event i attr group = do
    fd ← perf_open i attr group
    call (get_id fd)
    done record { fd = fd; id = id_of i fd }

  -- The loop over the other events, which join the group of the leader.
  unfoldable pub open_members : ℕ → ℕ → List Attr → Run (List Counter)
  unfolding open_event
  open_members i leader [] = done []
  open_members i leader (attr ∷ attrs) = do
    one ← open_event i attr (pos leader)
    others ← open_members (i + 1) leader attrs
    done (one ∷ others)

  -- Up to the loop over the events of the sources.
  unfoldable pub start_counting : Attr → List Attr → Run (Counter × List Counter)
  unfolding open_event open_members
  start_counting attr attrs = do
    leader ← open_event 0 attr (negsuc 0)
    members ← open_members 1 leader.fd attrs
    checked (reset leader.fd) k.reset_ok
    checked (enable leader.fd) k.enable_ok
    done (leader, members)

  unfoldable pub close_all : List Counter → Run (Unit {0})
  close_all [] = done tt
  close_all (c ∷ counters) = do call (close c.fd); close_all counters

  abbrev pub reported : List Reported
  reported = elim k.results [ none ↦ k.raw_results | some results ↦ results ]

  -- `pe_val`, none where the match of the ids leaves the report.
  unfoldable pub counted : List Counter → Option (ℕ → ℕ)
  counted counters = read_counters (map (λ (c : Counter). c.id) counters) reported

  -- Behind the loop.
  unfoldable pub stop_counting : Counter → List Counter → Run (Option (ℕ → ℕ))
  unfolding close_all
  stop_counting leader members = do
    checked (disable leader.fd) k.disable_ok
    call (read leader.fd)
    let pe_val = counted (leader ∷ members)
    close_all (leader ∷ members)
    done pe_val

  unfoldable pub count_events : Attr → List Attr → Run (Option (ℕ → ℕ))
  unfolding start_counting stop_counting
  count_events attr attrs = do
    (leader, members) ← start_counting attr attrs
    stop_counting leader members
