-- ===== src/Energy.antt =====
-- The energy of a core on its way from the registers of module/altra-hwmon.c to wfey_hwmon_joules_read. Between them stand the
-- files that the kernel makes of a driver's channels, which are a hypothesis.
pub mod Spent
use wfey.Prelude.{
  ℕ, ◌+◌, ◌^◌, ◌%◌, ◌<◌, ◌≡◌, ◌⊎◌, inl, inr, refl, ◌∙◌, ap, true, false, ◌||◌, none, some, List, [],
  ◌∷◌, ◌++◌, ltb, Bool-cases, arith,
}
use wfey.Prelude.Int.{pos, eqb_ℤ}
use wfey.Prelude.Text.{Bytes, codes, has_prefix, decimal, scan_signed}
use wfey.Prelude.Text.Digits.{
  decimal-AllDigits, decimal-IsCons, skip_space-digits, scan_signed-decimal,
}
use wfey.Driver.{Types, Context, Registers, value, altra_hwmon_read, altra_hwmon_read_labels}
use wfey.Driver.Labels.{core_label, scan_label-core_label}
use wfey.Hwmon.{
  Machine, Paths, joules, skip, take, name_path, label_path, input_path, look_label, look_entry,
  search_entries, find_path, read_file, wfey_hwmon_joules_read,
}
use wfey.Hwmon.Reads.{read-first}

-- The files of the kernel for a core's energy channel, in an entry of the root: the name of the driver, the label, and the value
-- as a decimal number, each with a newline.
pub record Shows (t : Types) (ctx : Context) (r : Registers) (m : Machine) (entry : Bytes)
    (core : ℕ) : Type 0 where
  pub name : m.file (name_path entry) ≡ some (codes "altra_hwmon" ++ 10 ∷ [])
  pub label :
      (l : Bytes)
      → altra_hwmon_read_labels t ctx t.hwmon_energy (pos core) ≡ some l
      → m.file (label_path entry (core + 1)) ≡ some (l ++ 10 ∷ [])
  pub input :
      (v : ℕ)
      → altra_hwmon_read t ctx r t.hwmon_energy (pos core) ≡ value v
      → v < 2 ^ 63
      → m.file (input_path entry (core + 1)) ≡ some (decimal v ++ 10 ∷ [])

-- An entry that the search passes over: hidden, without a name, or of another driver.
abbrev pub IsOther : Machine → Bytes → Type 0
IsOther m entry =
    (has_prefix (codes ".") entry ≡ true)
    ⊎ ((m.file (name_path entry) ≡ none)
        ⊎ ((name : Bytes) × (m.file (name_path entry) ≡ some name)
            × (has_prefix (codes "altra_hwmon") name ≡ false)))

abbrev pub AllOther : Machine → List Bytes → Type 0
AllOther m [] = Unit
AllOther m (entry ∷ entries) = IsOther m entry × AllOther m entries

hidden_lem :
    (entry : Bytes)
    → (has_prefix (codes ".") entry || has_prefix (codes "..") entry) ≡ has_prefix (codes ".") entry
unfolding has_prefix
hidden_lem [] = refl
hidden_lem (c ∷ []) = ground arith
hidden_lem (c ∷ d ∷ entry) = ground arith

look_entry-other :
    (m : Machine) (core : ℕ) (entry : Bytes) → IsOther m entry → look_entry m core entry ≡ skip
unfolding look_entry
look_entry-other m core entry (inl dot) = rw (hidden_lem entry, dot) refl
look_entry-other m core entry (inr o) =
    rw (hidden_lem entry) (elim (Bool-cases (has_prefix (codes ".") entry)) [
      | inl dot ↦ rw dot refl
      | inr plain ↦ elim o [
        | inl nameless ↦ rw (plain, nameless) refl
        | inr (name, named, other) ↦ rw (plain, named, other) refl
      ]
    ])

eqb_ℤ-refl : (n : ℕ) → eqb_ℤ (pos n) (pos n) ≡ true
eqb_ℤ-refl n = ground arith

search-other :
    (m : Machine) (core : ℕ) (before after : List Bytes)
    → AllOther m before
    → search_entries m core (before ++ after) ≡ search_entries m core after
unfolding search_entries
search-other m core [] after o = refl
search-other m core (entry ∷ before) after (o, os) =
    rw (look_entry-other m core entry o, search_entries) (search-other m core before after os)

module _ (t : Types) (ctx : Context) (r : Registers) (m : Machine) (entry : Bytes) (core : ℕ)
    (small : core < 10 ^ 7) (shown : Shows t ctx r m entry core)
    (visible : has_prefix (codes ".") entry ≡ false)
    (labelled : altra_hwmon_read_labels t ctx t.hwmon_energy (pos core)
      ≡ some (core_label core)) where
  look_label-shown : look_label m core entry ≡ take (input_path entry (core + 1))
  unfolding look_label
  look_label-shown =
      rw
        (
          shown.label (core_label core) labelled,
          scan_label-core_label core small,
          eqb_ℤ-refl core,
          look_label,
        )
        refl

  look_entry-shown : look_entry m core entry ≡ take (input_path entry (core + 1))
  unfolding look_entry has_prefix
  look_entry-shown = rw (hidden_lem entry) (rw (visible, shown.name) look_label-shown)

  pub find_path-shown :
      (before after : List Bytes)
      → AllOther m before
      → m.root ≡ some (before ++ entry ∷ after)
      → find_path m core ≡ some (input_path entry (core + 1))
  unfolding find_path search_entries
  find_path-shown before after o root =
      rw root
        (search-other m core before (entry ∷ after) o ∙ rw (look_entry-shown, search_entries) refl)

  pub read_file-shown :
      (v : ℕ)
      → altra_hwmon_read t ctx r t.hwmon_energy (pos core) ≡ value v
      → v < 2 ^ 63
      → read_file m (some (input_path entry (core + 1))) ≡ joules v
  unfolding read_file
  read_file-shown v e lt =
      let scanned =
        ap scan_signed
          (skip_space-digits (decimal v) (10 ∷ []) (decimal-IsCons v) (decimal-AllDigits v))
        ∙ scan_signed-decimal v (10 ∷ []) refl in
      let fits : ltb (v + 0) (2 ^ 64) ≡ true = ground arith in
      let whole : v % 2 ^ 64 ≡ v = omega arith in
      rw (shown.input v e lt, scanned, fits, whole, read_file) refl

  -- The first read of a core's energy gives the value that the driver reads for the core's channel. The kernel shows the channel in
  -- an entry of the root, behind entries that are hidden or of other drivers; the channel has the label of this core, the core is
  -- one of the machine, its number has at most seven digits, and the value fits into 63 bits.
  wfey_hwmon_joules_read-driver :
      (before after : List Bytes) (v : ℕ)
      → AllOther m before
      → m.root ≡ some (before ++ entry ∷ after)
      → core < m.processors
      → altra_hwmon_read t ctx r t.hwmon_energy (pos core) ≡ value v
      → v < 2 ^ 63
      → (paths : Paths) × (wfey_hwmon_joules_read core m none ≡ some (joules v, paths))
  wfey_hwmon_joules_read-driver before after v o root within e lt =
      let (paths, first, size, kept) =
        read-first m core (input_path entry (core + 1)) within
          (find_path-shown before after o root) in
      (paths, first ∙ ap (λ j. some (j, paths)) (read_file-shown v e lt))
