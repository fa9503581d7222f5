-- ===== src/Perf/Protocol/Kept.antt =====
-- The calls of epThread for its counters, against the order in which they may be made.
use mathlib.Core.List.{append-nil, append_assoc}
use wfey.Prelude.{
  ℕ, ◌+◌, ◌≡◌, refl, Bool, true, false, Option, some, Option-cases, inl, inr, List, [], ◌∷◌, ◌++◌,
  ◌==◌, arith,
}
use wfey.Prelude.Int.{ℤ, pos, negsuc}
use wfey.Perf.{Attr}
use wfey.Perf.Session.{
  Call, get_id, reset, enable, disable, read, close, go, Kernel, Counter, id_of, perf_open,
  open_event, open_members, checked, call, done, counted, start_counting, close_all, stop_counting,
  count_events, ◌>>◌,
}
use wfey.Perf.Protocol.{
  fresh, ready, running, stopped, Files, is_open, joins, allow, accept, accept-nil, Follows,
  Follows-after, Follows-bind, with_fds, fds_of,
}

same : (fd : ℕ) → (fd == fd) ≡ true
same fd = ground arith

is_open-append : (fd : ℕ) (fds : List ℕ) → is_open fd (fds ++ fd ∷ []) ≡ true
is_open-append fd [] = ground arith
is_open-append fd (f ∷ fds) = ground (arith, is_open-append fd fds)

module _ (k : Kernel) where
  perf_open-Follows :
      (i : ℕ) (attr : Attr) (group : ℤ) (fds : List ℕ)
      → joins group fds ≡ true
      → Follows
          (with_fds fds fresh)
          (perf_open k i attr group)
          (λ fd. with_fds (fds ++ fd ∷ []) fresh)
  unfolding accept allow
  perf_open-Follows i attr group fds h = elim (Option-cases (k.descriptor i)) [
    | inl refused ↦ rw (refused, Follows) refl
    | inr (fd, opened) ↦ rw (opened, h, Follows) refl
  ]

  get_id-Follows :
      (fd : ℕ) (fds : List ℕ)
      → is_open fd fds ≡ true
      → accept (get_id fd ∷ []) (with_fds fds fresh) ≡ some (with_fds fds fresh)
  unfolding accept allow
  get_id-Follows fd fds h = rw h refl

  open_event-Follows :
      (i : ℕ) (attr : Attr) (group : ℤ) (fds : List ℕ)
      → joins group fds ≡ true
      → Follows
          (with_fds fds fresh)
          (open_event k i attr group)
          (λ c. with_fds (fds ++ c.fd ∷ []) fresh)
  unfolding open_event
  open_event-Follows i attr group fds h =
      Follows-bind (perf_open k i attr group)
        (λ fd. go (get_id fd ∷ []) record { fd = fd; id = id_of k i fd }) (with_fds fds fresh)
        (λ fd. with_fds (fds ++ fd ∷ []) fresh) (λ (c : Counter). with_fds (fds ++ c.fd ∷ []) fresh)
        (perf_open-Follows i attr group fds h)
        (λ fd. get_id-Follows fd (fds ++ fd ∷ []) (is_open-append fd fds))

  open_members-Follows :
      (i leader : ℕ) (attrs : List Attr) (fds : List ℕ)
      → Follows
          (with_fds (leader ∷ fds) fresh)
          (open_members k i leader attrs)
          (λ cs. with_fds (leader ∷ fds ++ fds_of cs) fresh)
  unfolding open_members
  open_members-Follows i leader [] fds = rw append-nil (accept-nil (with_fds (leader ∷ fds) fresh))
  open_members-Follows i leader (attr ∷ attrs) fds =
      Follows-bind (open_event k i attr (pos leader)) _ (with_fds (leader ∷ fds) fresh)
        (λ (c : Counter). with_fds (leader ∷ fds ++ c.fd ∷ []) fresh)
        (λ cs. with_fds (leader ∷ fds ++ fds_of cs) fresh)
        (open_event-Follows i attr (pos leader) (leader ∷ fds) (ground arith))
        (λ one.
          Follows-bind (open_members k (i + 1) leader attrs) _
            (with_fds (leader ∷ fds ++ one.fd ∷ []) fresh)
            (λ cs. with_fds (leader ∷ (fds ++ one.fd ∷ []) ++ fds_of cs) fresh)
            (λ cs. with_fds (leader ∷ fds ++ fds_of cs) fresh)
            (open_members-Follows (i + 1) leader attrs (fds ++ one.fd ∷ []))
            (λ others.
              rw append_assoc
                (accept-nil (with_fds (leader ∷ (fds ++ one.fd ∷ fds_of others)) fresh))))

  close_all-Follows :
      (counters : List Counter)
      → Follows
          (with_fds (fds_of counters) stopped)
          (close_all k counters)
          (λ _. with_fds [] stopped)
  unfolding close_all
  close_all-Follows [] = accept-nil (with_fds [] stopped)
  close_all-Follows (c ∷ counters) =
      Follows-after (close c.fd ∷ []) (close_all k counters)
        (with_fds (fds_of (c ∷ counters)) stopped) (with_fds (fds_of counters) stopped)
        (λ _. with_fds [] stopped) (unfold accept allow in rw (same c.fd) refl)
        (close_all-Follows counters)

  checked-Follows :
      (c : Call) (ok : Bool) (s t : Files)
      → accept (c ∷ []) s ≡ some t
      → Follows s (checked c ok) (λ _. t)
  checked-Follows c true s t e = e
  checked-Follows c false s t e = rw e refl

  leads :
      (leader : ℕ) (fds : List ℕ)
      → (accept (reset leader ∷ []) (with_fds (leader ∷ fds) fresh)
          ≡ some (with_fds (leader ∷ fds) ready))
        × (accept (enable leader ∷ []) (with_fds (leader ∷ fds) ready)
            ≡ some (with_fds (leader ∷ fds) running))
        × (accept (disable leader ∷ []) (with_fds (leader ∷ fds) running)
            ≡ some (with_fds (leader ∷ fds) stopped))
        × (accept (read leader ∷ []) (with_fds (leader ∷ fds) stopped)
            ≡ some (with_fds (leader ∷ fds) stopped))
  unfolding accept allow
  leads leader fds = rw (same leader) (refl, refl, refl, refl)

  -- The steps that a leader takes before and behind the loop.
  armed-Follows :
      (leader : Counter) (members : List Counter)
      → Follows {A = Counter × List Counter}
          (with_fds (fds_of (leader ∷ members)) fresh)
          (checked (reset leader.fd) k.reset_ok
            >> (checked (enable leader.fd) k.enable_ok >> done (leader, members)))
          (λ r. with_fds (fds_of (r.0 ∷ r.1)) running)
  armed-Follows leader members =
      let fds = fds_of members in
      let (resets, enables, _, _) = leads leader.fd fds in
      Follows-bind (checked (reset leader.fd) k.reset_ok) _ (with_fds (leader.fd ∷ fds) fresh)
        (λ _. with_fds (leader.fd ∷ fds) ready) _ (checked-Follows _ k.reset_ok _ _ resets)
        (λ _.
          Follows-bind (checked (enable leader.fd) k.enable_ok) _ (with_fds (leader.fd ∷ fds) ready)
            (λ _. with_fds (leader.fd ∷ fds) running) _ (checked-Follows _ k.enable_ok _ _ enables)
            (λ _. accept-nil _))

  start_counting-Follows :
      (attr : Attr) (attrs : List Attr)
      → Follows
          (with_fds [] fresh)
          (start_counting k attr attrs)
          (λ r. with_fds (fds_of (r.0 ∷ r.1)) running)
  unfolding start_counting
  start_counting-Follows attr attrs =
      Follows-bind (open_event k 0 attr (negsuc 0)) _ (with_fds [] fresh)
        (λ (c : Counter). with_fds (c.fd ∷ []) fresh) _
        (open_event-Follows 0 attr (negsuc 0) [] refl)
        (λ leader.
          Follows-bind (open_members k 1 leader.fd attrs) _ (with_fds (leader.fd ∷ []) fresh)
            (λ cs. with_fds (leader.fd ∷ fds_of cs) fresh) _
            (open_members-Follows 1 leader.fd attrs []) (armed-Follows leader))

  closed-Follows :
      (counters : List Counter) (pe_val : Option (ℕ → ℕ))
      → Follows
          (with_fds (fds_of counters) stopped)
          (close_all k counters >> done pe_val)
          (λ _. with_fds [] stopped)
  closed-Follows counters pe_val =
      Follows-bind (close_all k counters) (λ _. done pe_val) (with_fds (fds_of counters) stopped)
        (λ _. with_fds [] stopped) (λ _. with_fds [] stopped) (close_all-Follows counters)
        (λ _. accept-nil (with_fds [] stopped))

  stop_counting-Follows :
      (leader : Counter) (members : List Counter)
      → Follows
          (with_fds (fds_of (leader ∷ members)) running)
          (stop_counting k leader members)
          (λ _. with_fds [] stopped)
  unfolding stop_counting
  stop_counting-Follows leader members =
      let fds = fds_of members in
      let (_, _, disables, reads) = leads leader.fd fds in
      Follows-bind (checked (disable leader.fd) k.disable_ok) _ (with_fds (leader.fd ∷ fds) running)
        (λ _. with_fds (leader.fd ∷ fds) stopped) (λ _. with_fds [] stopped)
        (checked-Follows _ k.disable_ok _ _ disables)
        (λ _.
          Follows-bind (call (read leader.fd)) _ (with_fds (leader.fd ∷ fds) stopped)
            (λ _. with_fds (leader.fd ∷ fds) stopped) (λ _. with_fds [] stopped) reads
            (λ _. closed-Follows (leader ∷ members) (counted k (leader ∷ members))))

  -- Whatever the kernel answers and wherever the program exits, epThread uses its counters in the order that is allowed: each is opened in
  -- the group of the first, the group is reset before it is enabled, enabled before it is disabled, and read behind that; and where the
  -- program does not exit, the group is disabled at the end and each descriptor is closed.
  pub count_events-Follows :
      (attr : Attr) (attrs : List Attr)
      → Follows
          record { fds = []; phase = fresh }
          (count_events k attr attrs)
          (λ _. record { fds = []; phase = stopped })
  unfolding count_events
  count_events-Follows attr attrs =
      Follows-bind (start_counting k attr attrs) _ (with_fds [] fresh) _ (λ _. with_fds [] stopped)
        (start_counting-Follows attr attrs) (λ r. stop_counting-Follows r.0 r.1)
