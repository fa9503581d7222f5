-- ===== src/Perf/Protocol.antt =====
-- The order in which the kernel's counters may be used.
pub mod Kept
use mathlib.Core.List.{append-nil, append_assoc}
use wfey.Prelude.{
  ℕ, zero, suc, ◌+◌, ◌≡◌, refl, sym, ap, ◌∙◌, Bool, true, false, ◌&&◌, ◌||◌, Option, none, some,
  is_some, Option-cases, inl, inr, List, [], ◌∷◌, ◌++◌, map, ◌==◌, if◌then◌else◌, arith, ◌>>=?◌,
}
use wfey.Prelude.Int.{ℤ, pos, negsuc, eqb_ℤ}
use wfey.Perf.{Attr}
use wfey.Perf.Session.{
  Call, perf_event_open, get_id, reset, enable, disable, read, close, Run, exit, go, Kernel,
  Counter, id_of, perf_open, open_event, open_members, checked, call, done, counted, start_counting,
  close_all, stop_counting, count_events, ◌>>=◌, ◌>>◌,
}

pub data Phase : Type 0 where
  fresh : Phase
  ready : Phase
  running : Phase
  stopped : Phase

-- The descriptors that are open, the leader of the group first.
pub record Files : Type 0 where
  pub fds : List ℕ
  pub phase : Phase

abbrev pub is_leader : ℕ → List ℕ → Bool
is_leader fd [] = false
is_leader fd (leader ∷ fds) = fd == leader

abbrev pub is_open : ℕ → List ℕ → Bool
is_open fd [] = false
is_open fd (f ∷ fds) = fd == f || is_open fd fds

abbrev pub erase : ℕ → List ℕ → List ℕ
erase fd [] = []
erase fd (f ∷ fds) = if fd == f then fds else f ∷ erase fd fds

-- A first event has no group, and each other one that of the leader.
abbrev pub joins : ℤ → List ℕ → Bool
joins group [] = eqb_ℤ group (negsuc 0)
joins group (leader ∷ fds) = eqb_ℤ group (pos leader)

-- What a call does in each phase; none where it may not be made.
abbrev pub when : {A : Type 0} → Bool → A → Option A
when test a = if test then some a else none

unfoldable pub allow : Phase → Call → List ℕ → Option Files
allow p (perf_event_open attr group none) fds = some record { fds = fds; phase = p }
allow fresh (perf_event_open attr group (some fd)) fds =
    when (joins group fds) record { fds = fds ++ fd ∷ []; phase = fresh }
allow fresh (get_id fd) fds = when (is_open fd fds) record { fds = fds; phase = fresh }
allow fresh (reset fd) fds = when (is_leader fd fds) record { fds = fds; phase = ready }
allow ready (enable fd) fds = when (is_leader fd fds) record { fds = fds; phase = running }
allow running (disable fd) fds = when (is_leader fd fds) record { fds = fds; phase = stopped }
allow stopped (read fd) fds = when (is_leader fd fds) record { fds = fds; phase = stopped }
allow stopped (close fd) fds = when (is_open fd fds) record { fds = erase fd fds; phase = stopped }
allow _ _ fds = none

unfoldable pub accept : List Call → Files → Option Files
unfolding allow
accept [] s = some s
accept (c ∷ calls) s = allow s.phase c s.fds >>=? accept calls

accept-append : (cs ds : List Call) (s : Files) → accept (cs ++ ds) s ≡ (accept cs s >>=? accept ds)
unfolding accept
accept-append [] ds s = refl
accept-append (c ∷ cs) ds s = elim (Option-cases (allow s.phase c s.fds)) [
  | inl refused ↦ rw refused refl
  | inr (t, allowed) ↦ rw allowed (accept-append cs ds t)
]

pub accept-nil : (s : Files) → accept [] s ≡ some s
unfolding accept
accept-nil s = refl

-- All calls are allowed; and where the run ends with a value, it leaves the files that `left` says.
abbrev pub Follows : {A : Type 0} → Files → Run A → (A → Files) → Type 0
Follows s (exit calls) left = is_some (accept calls s) ≡ true
Follows s (go calls a) left = accept calls s ≡ some (left a)

pub Follows-after :
    {B : Type 0} (calls : List Call) (n : Run B) (s t : Files) (left : B → Files)
    → accept calls s ≡ some t
    → Follows t n left
    → Follows s (go calls tt >> n) left
Follows-after calls (exit more) s t left e h = rw (accept-append calls more s, e) h
Follows-after calls (go more b) s t left e h = rw (accept-append calls more s, e) h

-- The rule for two runs in a row.
pub Follows-bind :
    {A B : Type 0} (m : Run A) (f : A → Run B) (s : Files) (mid : A → Files) (left : B → Files)
    → Follows s m mid
    → ((a : A) → Follows (mid a) (f a) left)
    → Follows s (m >>= f) left
Follows-bind (exit calls) f s mid left h next = h
Follows-bind (go calls a) f s mid left e next = Follows-after calls (f a) s (mid a) left e (next a)

abbrev pub with_fds : List ℕ → Phase → Files
with_fds fds phase = record { fds = fds; phase = phase }

abbrev pub fds_of : List Counter → List ℕ
fds_of counters = map (λ (c : Counter). c.fd) counters
