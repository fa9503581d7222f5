-- ===== src/Hwmon.antt =====
-- wfey_hwmon.c and include/wfey_hwmon.h: the cache of the paths of the cores' energy files. The files are an argument.
-- A core is not negative: `main` numbers them from 1. The buffers for paths are longer than any path under the root with a
-- directory entry of at most 255 bytes, so nothing is cut off.
pub mod Cache
pub mod Reads
pub mod Standalone
use wfey.Prelude.{
  ℕ, ◌+◌, ◌^◌, Bool, true, false, ◌||◌, Option, none, some, List, [], ◌∷◌, ◌++◌, ltb, if◌then◌else◌,
  update, ◌>>=?◌,
}
use wfey.Prelude.Int.{ℤ, pos, eqb_ℤ, to_u64, pos_part, neg_part}
use wfey.Prelude.Text.{
  Bytes, codes, has_prefix, strip_prefix, skip_space, scan_signed, decimal, first_line,
}

-- What the program sees of the machine: the number of processors, the entries of HWMON_ROOT_PATH, if it can be
-- opened, and the content of each file that can be.
pub record Machine : Type 0 where
  pub processors : ℕ
  pub root : Option (List Bytes)
  pub file : Bytes → Option Bytes

abbrev pub root_path : Bytes
root_path = codes "/sys/class/hwmon"

unfoldable pub name_path : Bytes → Bytes
name_path entry = root_path ++ (codes "/" ++ (entry ++ codes "/name"))

unfoldable pub label_path : Bytes → ℕ → Bytes
label_path entry n =
    root_path ++ (codes "/" ++ (entry ++ (codes "/energy" ++ (decimal n ++ codes "_label"))))

unfoldable pub input_path : Bytes → ℕ → Bytes
input_path entry n =
    root_path ++ (codes "/" ++ (entry ++ (codes "/energy" ++ (decimal n ++ codes "_input"))))

-- `fgets(label, 160, f)` and `sscanf(label, "Core Energy %d", &ln)`, for a number that an int holds.
unfoldable pub scan_label : Bytes → Option ℤ
unfolding first_line strip_prefix skip_space scan_signed
scan_label label = strip_prefix (codes "Core") (first_line 159 label) >>=? λ behind_core.
    strip_prefix (codes "Energy") (skip_space behind_core) >>=? λ behind_energy.
    scan_signed (skip_space behind_energy)

-- What the search does at a directory entry.
pub data Look : Type 0 where
  skip : Look  -- `continue`, or the end of the loop's body
  stop : Look  -- `goto done`, with a message
  take : Bytes → Look  -- the path is kept

unfoldable pub look_label : Machine → ℕ → Bytes → Look
unfolding scan_label
look_label m core entry = elim (m.file (label_path entry (core + 1))) [
  | none ↦ stop
  | some label ↦ elim (scan_label label) [
    | none ↦ stop
    | some ln ↦ if eqb_ℤ ln (pos core) then take (input_path entry (core + 1)) else stop
  ]
]

unfoldable pub look_entry : Machine → ℕ → Bytes → Look
unfolding look_label has_prefix
look_entry m core entry =
    if has_prefix (codes ".") entry || has_prefix (codes "..") entry
    then skip
    else elim (m.file (name_path entry)) [
      | none ↦ skip
      | some name ↦ if has_prefix (codes "altra_hwmon") name then look_label m core entry else skip
    ]

-- `while ((de = readdir(dr)) != NULL)`
unfoldable pub search_entries : Machine → ℕ → List Bytes → Option Bytes
unfolding look_entry
search_entries m core [] = none
search_entries m core (entry ∷ rest) = elim (look_entry m core entry) [
  | skip ↦ search_entries m core rest
  | stop ↦ none
  | take path ↦ some path
]

-- `opendir` and the loop.
unfoldable pub find_path : Machine → ℕ → Option Bytes
unfolding search_entries
find_path m core = m.root >>=? search_entries m core

-- `wfey_hwmon_joules_paths`, with the number of its entries.
pub record Paths : Type 0 where
  pub size : ℕ
  pub path : ℕ → Option Bytes

unfoldable pub fresh_paths : Machine → Paths
fresh_paths m = record { size = m.processors; path = λ i. none }

abbrev pub allocated : Machine → Option Paths → Paths
allocated m none = fresh_paths m
allocated m (some paths) = paths

-- `none`: an access outside the table.
unfoldable pub wfey_hwmon_joules_cache_path : ℕ → Machine → Option Paths → Option Paths
unfolding fresh_paths find_path
wfey_hwmon_joules_cache_path core m table =
    let paths = allocated m table in
    if ltb core paths.size
    then elim (paths.path core) [
      | some p ↦ some paths
      | none ↦ elim (find_path m core) [
        | none ↦ some paths
        | some p ↦ some (record paths { path = update paths.path core (some p) })
      ]
    ]
    else none

-- What a read returns: the number in the file; a variable without a value, if there is none in it that 64 bits hold; -1, if the
-- file cannot be opened; and `no_path` stands for a call of `fopen` with a null pointer.
pub data Reading : Type 0 where
  joules : ℕ → Reading
  indeterminate : Reading
  failed : Reading
  no_path : Reading

unfoldable pub read_file : Machine → Option Bytes → Reading
unfolding skip_space scan_signed
read_file m none = no_path
read_file m (some path) = elim (m.file path) [
  | none ↦ failed
  | some text ↦ elim (scan_signed (skip_space text)) [
    | none ↦ indeterminate
    | some n ↦ if ltb (pos_part n + neg_part n) (2 ^ 64) then joules (to_u64 n) else indeterminate
  ]
]

-- The table that the first `if` leaves.
unfoldable pub ensure_table : ℕ → Machine → Option Paths → Option Paths
unfolding wfey_hwmon_joules_cache_path
ensure_table core m none = wfey_hwmon_joules_cache_path core m none
ensure_table core m (some paths) = some paths

-- The second `if` and what follows, with the pointer that was read before it.
unfoldable pub read_through : ℕ → Machine → Paths → Option Bytes → Option (Reading × Paths)
unfolding wfey_hwmon_joules_cache_path read_file
read_through core m paths (some p) = some (read_file m (some p), paths)
read_through core m paths none =
    wfey_hwmon_joules_cache_path core m (some paths) >>=? λ paths'. some (read_file m none, paths')

unfoldable pub wfey_hwmon_joules_read : ℕ → Machine → Option Paths → Option (Reading × Paths)
unfolding ensure_table read_through
wfey_hwmon_joules_read core m table = ensure_table core m table >>=? λ paths.
    if ltb core paths.size then read_through core m paths (paths.path core) else none
