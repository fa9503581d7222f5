-- ===== src/Hwmon/Reads.antt =====
-- Reads through the cache of wfey_hwmon.c: what the cache holds after any of them, and what they return.
use wfey.Prelude.{
  ℕ, ◌<◌, ◌≡◌, refl, Option, none, some, List, [], ◌∷◌, lt→ltb, ◌>>=?◌, inl, inr, ◌∙◌, map, update,
  arith,
}
use wfey.Prelude.Text.{Bytes}
use wfey.Hwmon.{
  Machine, Paths, no_path, find_path, fresh_paths, read_file, wfey_hwmon_joules_cache_path,
  ensure_table, read_through, wfey_hwmon_joules_read,
}
use wfey.Hwmon.Cache.{IsPathOf, find_path-IsPathOf, Caches, cache_path-Caches}

-- A list of reads, each of a core on the machine as it is at the time; the table that is left.
unfoldable pub read_all : List (ℕ × Machine) → Option Paths → Option (Option Paths)
unfolding wfey_hwmon_joules_read
read_all [] table = some table
read_all ((core, m) ∷ reads) table =
    wfey_hwmon_joules_read core m table >>=? λ r. read_all reads (some r.1)

read_through-Caches :
    (m : Machine) (core : ℕ) (paths : Paths) (cached : Option Bytes)
    → core < paths.size
    → (paths' : Paths) × (read_through core m paths cached ≡ some (read_file m cached, paths'))
      × Caches m core paths paths'
unfolding read_through
read_through-Caches m core paths (some p) h = (paths, refl, (refl, λ i q e. e, λ i q e. inl e))
read_through-Caches m core paths none h =
    let (paths', e, c) = cache_path-Caches m core paths h in (paths', rw e refl, c)

read-Caches :
    (m : Machine) (core : ℕ) (paths : Paths)
    → core < paths.size
    → (paths' : Paths) × (wfey_hwmon_joules_read core m (some paths)
        ≡ some (read_file m (paths.path core), paths'))
      × Caches m core paths paths'
unfolding wfey_hwmon_joules_read ensure_table
read-Caches m core paths h =
    rw (lt→ltb core paths.size h) (read_through-Caches m core paths (paths.path core) h)

pub read-cached :
    (core : ℕ) (path : Bytes) (paths : Paths)
    → core < paths.size
    → paths.path core ≡ some path
    → (m : Machine)
    → wfey_hwmon_joules_read core m (some paths) ≡ some (read_file m (some path), paths)
unfolding wfey_hwmon_joules_read ensure_table read_through
read-cached core path paths h c m = rw (lt→ltb core paths.size h) (rw c refl)

-- A search puts the path in the table that it finds.
cache_path-found :
    (m : Machine) (core : ℕ) (path : Bytes) (paths : Paths)
    → core < paths.size
    → paths.path core ≡ none
    → find_path m core ≡ some path
    → (paths' : Paths) × (wfey_hwmon_joules_cache_path core m (some paths) ≡ some paths')
      × (paths'.size ≡ paths.size)
      × (paths'.path core ≡ some path)
unfolding wfey_hwmon_joules_cache_path
cache_path-found m core path paths h c f = (
  record paths { path = update paths.path core (some path) },
  rw (lt→ltb core paths.size h) (rw c (rw f refl)),
  refl,
  grind arith,
)

-- The first read fills a new table, and goes on with it.
read-none :
    (m : Machine) (core : ℕ)
    → wfey_hwmon_joules_read core m none ≡ (
        wfey_hwmon_joules_cache_path core m (some (fresh_paths m)) >>=? λ paths.
        wfey_hwmon_joules_read core m (some paths))
unfolding wfey_hwmon_joules_read ensure_table wfey_hwmon_joules_cache_path
read-none m core = refl

-- A table that has an entry for each processor, and no path but that of the core.
abbrev pub IsRight : Machine → Paths → Type 0
IsRight m paths =
    (paths.size ≡ m.processors)
    × ((core : ℕ) (path : Bytes) → paths.path core ≡ some path → IsPathOf m core path)

abbrev pub AllBelow : ℕ → List ℕ → Type 0
AllBelow n [] = Unit
AllBelow n (core ∷ cores) = (core < n) × AllBelow n cores

Caches-IsRight :
    (m : Machine) (core : ℕ) (paths paths' : Paths)
    → Caches m core paths paths'
    → IsRight m paths
    → IsRight m paths'
Caches-IsRight m core paths paths' (size, kept, from) (sized, right) = (
  size ∙ sized,
  λ i p e. elim (from i p e) [
    | inl old ↦ right i p old
    | inr (same, found) ↦ rw same (find_path-IsPathOf m core p found)
  ],
)

more_reads :
    (m : Machine) (cores : List ℕ) (paths : Paths)
    → AllBelow m.processors cores
    → IsRight m paths
    → (paths' : Paths) × (read_all (map (λ core. (core, m)) cores) (some paths)
        ≡ some (some paths'))
      × IsRight m paths'
unfolding read_all
more_reads m [] paths h r = (paths, refl, r)
more_reads m (core ∷ cores) paths (below, h) r =
    let (paths', e, c) = read-Caches m core paths (rw r.0 below) in
    rw e (more_reads m cores paths' h (Caches-IsRight m core paths paths' c r))

fresh-IsRight : (m : Machine) → IsRight m (fresh_paths m)
unfolding fresh_paths
fresh-IsRight m = (refl, λ core path e. cc)

-- With no table at first, reads of any cores that the machine has, in any order, stay within the table; and it then holds, for
-- each core, no path but that of an energy file whose driver is the expected one and whose label names this core.
pub read_all-IsRight :
    (m : Machine) (core : ℕ) (cores : List ℕ)
    → AllBelow m.processors (core ∷ cores)
    → (paths : Paths) × (read_all (map (λ c. (c, m)) (core ∷ cores)) none ≡ some (some paths))
      × IsRight m paths
unfolding read_all
read_all-IsRight m core cores (below, h) =
    let (filled, e, c) = cache_path-Caches m core (fresh_paths m) below in
    let right = Caches-IsRight m core (fresh_paths m) filled c (fresh-IsRight m) in
    rw (read-none m core) (rw e (more_reads m (core ∷ cores) filled (below, h) right))

abbrev pub AllWithin : ℕ → List (ℕ × Machine) → Type 0
AllWithin n [] = Unit
AllWithin n (r ∷ reads) = (r.0 < n) × AllWithin n reads

-- A path that is in the table stays: after any reads, of any cores of the table and whatever the files are at the time, a read
-- of the core opens this path.
read_all-cached :
    (core : ℕ) (path : Bytes) (reads : List (ℕ × Machine)) (paths : Paths)
    → core < paths.size
    → paths.path core ≡ some path
    → AllWithin paths.size reads
    → (paths' : Paths) × (read_all reads (some paths) ≡ some (some paths'))
      × ((m : Machine)
          → wfey_hwmon_joules_read core m (some paths') ≡ some (read_file m (some path), paths'))
unfolding read_all
read_all-cached core path [] paths h c w = (paths, refl, read-cached core path paths h c)
read_all-cached core path ((i, m) ∷ reads) paths h c (below, w) =
    let (next, e, (size, kept, from)) = read-Caches m i paths below in
    rw e (read_all-cached core path reads next (rw size h) (kept core path c) (rw size w))

-- The first read of all, of a core whose path is found, opens this path and leaves it in the table.
pub read-first :
    (m : Machine) (core : ℕ) (path : Bytes)
    → core < m.processors
    → find_path m core ≡ some path
    → (paths : Paths) × (wfey_hwmon_joules_read core m none ≡ some (read_file m (some path), paths))
      × (paths.size ≡ m.processors)
      × (paths.path core ≡ some path)
unfolding fresh_paths
read-first m core path h f =
    let (paths, e, size, c) = cache_path-found m core path (fresh_paths m) h refl f in
    (paths, rw (read-none m core) (rw e (read-cached core path paths (rw size h) c m)), size, c)

-- With a table that has no path for a core, a read of the core opens no file, even where the path is found: the path is put in
-- the table, but the pointer that is opened is the null pointer from before. Only the next read of the core, whatever the
-- files are then, opens the path.
pub read-uncached :
    (m : Machine) (core : ℕ) (path : Bytes) (paths : Paths)
    → core < paths.size
    → paths.path core ≡ none
    → find_path m core ≡ some path
    → (paths' : Paths) × (wfey_hwmon_joules_read core m (some paths) ≡ some (no_path, paths'))
      × ((m' : Machine)
          → wfey_hwmon_joules_read core m' (some paths') ≡ some (read_file m' (some path), paths'))
unfolding wfey_hwmon_joules_read ensure_table read_through read_file
read-uncached m core path paths h c f =
    let (paths', e, size, c') = cache_path-found m core path paths h c f in
    (
      paths',
      rw (lt→ltb core paths.size h) (rw c (rw e refl)),
      read-cached core path paths' (rw size h) c',
    )
