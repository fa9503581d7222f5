-- ===== src/Hwmon/Cache.antt =====
-- The cache of wfey_hwmon.c over many reads: what it holds, and what a read returns.
use mathlib.Core.List.{Mem, mem-cons_of_mem, mem-cons_self}
use wfey.Prelude.{
  ℕ, ◌+◌, ◌<◌, ◌≡◌, ◌≢◌, ◌⊎◌, refl, Bool, true, false, ◌||◌, Option, none, some, List, [], ◌∷◌,
  arith, if◌then◌else◌, update, >>=?-eq-some, some_eq, lt→ltb, inl, ◌∙◌, sym, ap,
}
use wfey.Prelude.Int.{ℤ, pos, negsuc, eqb_ℤ}
use wfey.Prelude.Text.{Bytes, codes, has_prefix}
use wfey.Hwmon.{
  Machine, Paths, Look, skip, stop, take, name_path, label_path, input_path, scan_label, look_label,
  look_entry, search_entries, find_path, wfey_hwmon_joules_cache_path,
}

-- `path` is the energy file of a core: that of an entry of the root directory whose name file has the driver's name in front,
-- and whose label for the core names that core.
abbrev pub IsPathOf : Machine → ℕ → Bytes → Type 0
IsPathOf m core path =
    (entry : Bytes) × ((entries : List Bytes) × (m.root ≡ some entries) × Mem entry entries)
    × ((name : Bytes) × (m.file (name_path entry) ≡ some name)
        × (has_prefix (codes "altra_hwmon") name ≡ true))
    × ((label : Bytes) × (m.file (label_path entry (core + 1)) ≡ some label)
        × (scan_label label ≡ some (pos core)))
    × (path ≡ input_path entry (core + 1))

eqb_ℤ-pos : (a : ℤ) (n : ℕ) → eqb_ℤ a (pos n) ≡ true → a ≡ pos n
eqb_ℤ-pos (pos k) n h = ap pos (grind arith)
eqb_ℤ-pos (negsuc k) n h = grind arith

-- A path that is taken behind a value that may be missing.
behind_some {ℓ} :
    {A : Type ℓ} (missing : Look) (o : Option A) (f : A → Look) {path : Bytes}
    → missing ≢ take path
    → (elim o [ none ↦ missing | some a ↦ f a ]) ≡ take path
    → (a : A) × (o ≡ some a) × (f a ≡ take path)
behind_some missing none f n h = absurd (n h)
behind_some missing (some a) f n h = (a, refl, h)

behind_test :
    (test : Bool) {yes missing : Look} {path : Bytes}
    → missing ≢ take path
    → (if test then yes else missing) ≡ take path
    → (test ≡ true) × (yes ≡ take path)
behind_test false n h = absurd (n h)
behind_test true n h = (refl, h)

stop_ne : {path : Bytes} → stop ≢ take path
stop_ne h = cc

skip_ne : {path : Bytes} → skip ≢ take path
skip_ne h = cc

behind_skip :
    (test : Bool) {other : Look} {path : Bytes}
    → (if test then skip else other) ≡ take path
    → other ≡ take path
behind_skip false h = h
behind_skip true h = absurd (skip_ne h)

take_eq : {p q : Bytes} → take p ≡ take q → p ≡ q
take_eq h = cc

look_entry-IsPathOf :
    (m : Machine) (core : ℕ) (entry path : Bytes)
    → look_entry m core entry ≡ take path
    → ((name : Bytes) × (m.file (name_path entry) ≡ some name)
        × (has_prefix (codes "altra_hwmon") name ≡ true))
      × ((label : Bytes) × (m.file (label_path entry (core + 1)) ≡ some label)
          × (scan_label label ≡ some (pos core)))
      × (path ≡ input_path entry (core + 1))
unfolding look_label look_entry
look_entry-IsPathOf m core entry path h =
    let seen = behind_skip (has_prefix (codes ".") entry || has_prefix (codes "..") entry) h in
    let name = behind_some skip (m.file (name_path entry)) _ skip_ne seen in
    let driver = behind_test (has_prefix (codes "altra_hwmon") name.0) skip_ne name.2 in
    let label = behind_some stop (m.file (label_path entry (core + 1))) _ stop_ne driver.1 in
    let number = behind_some stop (scan_label label.0) _ stop_ne label.2 in
    let same = behind_test (eqb_ℤ number.0 (pos core)) stop_ne number.2 in
    (
      (name.0, name.1, driver.0),
      (label.0, label.1, number.1 ∙ ap some (eqb_ℤ-pos number.0 core same.0)),
      sym (take_eq same.1),
    )

search_entries-Mem :
    (m : Machine) (core : ℕ) (entries : List Bytes) (path : Bytes)
    → search_entries m core entries ≡ some path
    → (entry : Bytes) × Mem entry entries × (look_entry m core entry ≡ take path)
unfolding search_entries
search_entries-Mem m core [] path h = cc
search_entries-Mem m core (entry ∷ rest) path h =
    go (look_entry m core entry) refl (search_entries-Mem m core rest path) h
  where
    go :
        (l : Look)
        → look_entry m core entry ≡ l
        → (search_entries m core rest ≡ some path
            → (e : Bytes) × Mem e rest × (look_entry m core e ≡ take path))
        → (elim l [ skip ↦ search_entries m core rest | stop ↦ none | take p ↦ some p ]) ≡ some path
        → (e : Bytes) × Mem e (entry ∷ rest) × (look_entry m core e ≡ take path)
    go skip e later t = let (found, i, l) = later t in (found, mem-cons_of_mem entry i, l)
    go stop e later t = cc
    go (take p) e later t = (entry, mem-cons_self, e ∙ ap take (some_eq t))

pub find_path-IsPathOf :
    (m : Machine) (core : ℕ) (path : Bytes) → find_path m core ≡ some path → IsPathOf m core path
unfolding find_path
find_path-IsPathOf m core path h =
    let (entries, root, s) = >>=?-eq-some m.root (search_entries m core) h in
    let (entry, i, l) = search_entries-Mem m core entries path s in
    let (name, label, e) = look_entry-IsPathOf m core entry path l in
    (entry, (entries, root, i), name, label, e)

-- What a call of `wfey_hwmon_joules_cache_path` does to the table.
abbrev pub Caches : Machine → ℕ → Paths → Paths → Type 0
Caches m core paths paths' =
    (paths'.size ≡ paths.size)
    × ((i : ℕ) (p : Bytes) → paths.path i ≡ some p → paths'.path i ≡ some p)
    × ((i : ℕ) (p : Bytes)
        → paths'.path i ≡ some p
        → (paths.path i ≡ some p) ⊎ ((i ≡ core) × (find_path m core ≡ some p)))

pub cache_path-Caches :
    (m : Machine) (core : ℕ) (paths : Paths)
    → core < paths.size
    → (paths' : Paths) × (wfey_hwmon_joules_cache_path core m (some paths) ≡ some paths')
      × Caches m core paths paths'
unfolding wfey_hwmon_joules_cache_path
cache_path-Caches m core paths h =
    rw (lt→ltb core paths.size h) (go (paths.path core) refl (find_path m core) refl)
  where
    go :
        (cached : Option Bytes)
        → paths.path core ≡ cached
        → (found : Option Bytes) → find_path m core ≡ found
        → (paths' : Paths) × ((elim cached [
          | some p ↦ some paths
          | none ↦ elim found [
            | none ↦ some paths
            | some p ↦ some (record paths { path = update paths.path core (some p) })
          ]
        ])
            ≡ some paths')
          × Caches m core paths paths'
    go (some p) c found f = (paths, refl, (refl, λ i q e. e, λ i q e. inl e))
    go none c none f = (paths, refl, (refl, λ i q e. e, λ i q e. inl e))
    go none c (some p) f = (
      record paths { path = update paths.path core (some p) },
      refl,
      (refl, λ i q e. grind arith, λ i q e. grind arith),
    )
