-- ===== src/Perf/Counters.antt =====
-- What epThread reads of its counters, and how it matches the values to their ids.
use wfey.Prelude.{
  ℕ, zero, suc, ◌≤◌, ◌≡◌, refl, ◌∙◌, Bool, true, false, ◌||◌, Option, none, some, List, [], ◌∷◌,
  ◌==◌, if◌then◌else◌, update, length, get_elem?, arith, Bool-cases, inl, inr,
}
use wfey.Perf.Session.{
  perf_open, Counter, ◌>>=◌, id_of, Kernel, go, Call, checked, reported, perf_event_open, get_id,
  reset, enable, disable, read, close, open_event, open_members, start_counting, stop_counting,
  close_all, counted, count_events,
}
use wfey.Prelude.Int.{ℤ, pos, negsuc}
use wfey.Perf.{Attr, total_perf_events, Reported, match_ids, match_counters, read_counters}

abbrev pub known : List ℕ → ℕ → Bool
known [] id = false
known (p ∷ pe_id) id = id == p || known pe_id id

abbrev pub value_of : List ℕ → Option Reported → ℕ
value_of pe_id none = 0
value_of pe_id (some r) = if known pe_id r.id then r.value else 0

match_ids-eq :
    (pe_id : List ℕ) (i : ℕ) (r : Reported) (pe_val : ℕ → ℕ) (j : ℕ)
    → match_ids pe_id i r pe_val j
      ≡ (if known pe_id r.id then update pe_val i r.value j else pe_val j)
unfolding match_ids
match_ids-eq [] i r pe_val j = refl
match_ids-eq (id ∷ pe_id) i r pe_val j = elim (Bool-cases (r.id == id)) [
  | inl h ↦ rw h (match_ids-eq pe_id i r (update pe_val i r.value) j ∙ ground arith)
  | inr h ↦ rw h (match_ids-eq pe_id i r pe_val j)
]

value_of-one :
    (pe_id : List ℕ) (a : Reported) (j : ℕ)
    → match_ids pe_id 0 a (λ i. 0) j ≡ value_of pe_id (get_elem? (a ∷ []) j)
value_of-one pe_id a zero = match_ids-eq pe_id 0 a (λ i. 0) zero ∙ ground arith
value_of-one pe_id a (suc j) = match_ids-eq pe_id 0 a (λ i. 0) (suc j) ∙ ground arith

value_of-two :
    (pe_id : List ℕ) (a b : Reported) (j : ℕ)
    → match_ids pe_id 1 b (match_ids pe_id 0 a (λ i. 0)) j
      ≡ value_of pe_id (get_elem? (a ∷ b ∷ []) j)
value_of-two pe_id a b zero =
    match_ids-eq pe_id 1 b _ zero ∙ ground (arith, value_of-one pe_id a zero)
value_of-two pe_id a b (suc zero) =
    match_ids-eq pe_id 1 b _ 1 ∙ ground (arith, value_of-one pe_id a 1)
value_of-two pe_id a b (suc (suc j)) =
    match_ids-eq pe_id 1 b _ (suc (suc j)) ∙ ground (arith, value_of-one pe_id a (suc (suc j)))

-- For a report of at most two counters, `pe_val` holds in each place the value that is reported in just this place, if its id is
-- one of those that were asked for, and otherwise 0: an id decides whether a value is kept, and never which counter it is for.
read_counters-placed :
    (pe_id : List ℕ) (results : List Reported)
    → length results ≤ total_perf_events
    → (pe_val : ℕ → ℕ) × (read_counters pe_id results ≡ some pe_val)
      × ((j : ℕ) → pe_val j ≡ value_of pe_id (get_elem? results j))
unfolding read_counters match_counters
read_counters-placed pe_id [] h = (_, refl, λ j. refl)
read_counters-placed pe_id (a ∷ []) h = (_, refl, value_of-one pe_id a)
read_counters-placed pe_id (a ∷ b ∷ []) h = (_, refl, value_of-two pe_id a b)
read_counters-placed pe_id (a ∷ b ∷ r ∷ results) h = absurd (omega arith)

open_event-eq :
    (k : Kernel) (i fd id : ℕ) (attr : Attr) (group : ℤ)
    → k.descriptor i ≡ some fd
    → k.id fd ≡ some id
    → open_event k i attr group
      ≡ go (perf_event_open attr group (some fd) ∷ get_id fd ∷ []) record { fd = fd; id = id }
unfolding open_event
open_event-eq k i fd id attr group opened has = rw (opened, perf_open, ◌>>=◌, has, id_of) refl

open_members-eq :
    (k : Kernel) (leader fd id : ℕ) (attr : Attr)
    → k.descriptor 1 ≡ some fd
    → k.id fd ≡ some id
    → open_members k 1 leader (attr ∷ [])
      ≡ go
          (perf_event_open attr (pos leader) (some fd) ∷ get_id fd ∷ [])
          (record { fd = fd; id = id } ∷ [])
unfolding open_members
open_members-eq k leader fd id attr opened has =
    rw (open_event-eq k 1 fd id attr (pos leader) opened has, ◌>>=◌) refl

start_counting-eq :
    (k : Kernel) (attr attr' : Attr) (leader member : Counter)
    → open_event k 0 attr (negsuc 0)
      ≡ go (perf_event_open attr (negsuc 0) (some leader.fd) ∷ get_id leader.fd ∷ []) leader
    → open_members k 1 leader.fd (attr' ∷ [])
      ≡ go
          (perf_event_open attr' (pos leader.fd) (some member.fd) ∷ get_id member.fd ∷ [])
          (member ∷ [])
    → k.reset_ok ≡ true
    → k.enable_ok ≡ true
    → start_counting k attr (attr' ∷ [])
      ≡ go
          (perf_event_open attr (negsuc 0) (some leader.fd)
            ∷ get_id leader.fd
            ∷ perf_event_open attr' (pos leader.fd) (some member.fd)
            ∷ get_id member.fd
            ∷ reset leader.fd
            ∷ enable leader.fd
            ∷ [])
          (leader, member ∷ [])
unfolding start_counting
start_counting-eq k attr attr' leader member first second resets enables =
    rw (first, ◌>>=◌, second, ◌>>=◌, resets, ◌>>=◌, checked, enables, ◌>>=◌, checked) refl

stop_counting-eq :
    (k : Kernel) (leader member : Counter)
    → k.disable_ok ≡ true
    → stop_counting k leader (member ∷ [])
      ≡ go
          (disable leader.fd ∷ read leader.fd ∷ close leader.fd ∷ close member.fd ∷ [])
          (counted k (leader ∷ member ∷ []))
unfolding stop_counting close_all
stop_counting-eq k leader member disables = rw (disables, ◌>>=◌, checked) refl

-- The calls for two counters, if none fails.
abbrev pub all_calls : Attr → Attr → ℕ → ℕ → List Call
all_calls attr attr' fd fd' =
    perf_event_open attr (negsuc 0) (some fd)
    ∷ get_id fd
    ∷ perf_event_open attr' (pos fd) (some fd')
    ∷ get_id fd'
    ∷ reset fd
    ∷ enable fd
    ∷ disable fd
    ∷ read fd
    ∷ close fd
    ∷ close fd'
    ∷ []

-- Where no call of the kernel fails and it reports at most two counters, epThread makes all calls for its two counters, the last of which
-- close them, and has in each place of `pe_val` the value that is reported in just this place, if its id is that of the first or the
-- second counter, and otherwise 0: an id decides whether a value is kept, and never which counter it is for.
pub count_events-placed :
    (k : Kernel) (attr attr' : Attr)
    → {fd fd' id id' : ℕ} {results : List Reported} → k.descriptor 0 ≡ some fd
    → k.descriptor 1 ≡ some fd'
    → k.id fd ≡ some id
    → k.id fd' ≡ some id'
    → k.reset_ok ≡ true
    → k.enable_ok ≡ true
    → k.disable_ok ≡ true
    → k.results ≡ some results
    → length results ≤ total_perf_events
    → (pe_val : ℕ → ℕ) × (count_events k attr (attr' ∷ [])
        ≡ go (all_calls attr attr' fd fd') (some pe_val))
      × ((j : ℕ) → pe_val j ≡ value_of (id ∷ id' ∷ []) (get_elem? results j))
unfolding count_events counted
count_events-placed k attr attr' {fd} {fd'} {id} {id'} {results} opened opened' has has' resets
      enables disables reads few =
    let (pe_val, found, placed) = read_counters-placed (id ∷ id' ∷ []) results few in
    let leader : Counter = record { fd = fd; id = id } in
    let member : Counter = record { fd = fd'; id = id' } in
    let started =
      start_counting-eq k attr attr' leader member
        (open_event-eq k 0 fd id attr (negsuc 0) opened has)
        (open_members-eq k fd fd' id' attr' opened' has') resets enables in
    let stopped = stop_counting-eq k leader member disables in
    (pe_val, rw (started, ◌>>=◌, stopped, ◌>>=◌, reads, reported, found) refl, placed)
