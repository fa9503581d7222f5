-- ===== src/Energy/Spent.antt =====
-- The energy that `epThread` of wfey.c measures in a build for the machine with the driver (BEAST): the two reads around its loop,
-- behind one by `main`, and the line that it prints of them.
use wfey.Prelude.{
  ℕ, ◌+◌, ◌-◌, ◌^◌, ◌<◌, ◌≡◌, refl, Bool, true, false, Option, none, some, List, ◌∷◌, ◌++◌, ◌>>=?◌,
}
use wfey.Prelude.Int.{pos}
use wfey.Prelude.Text.{Bytes, codes, has_prefix}
use wfey.Driver.{Types, Context, Registers, value, altra_hwmon_read, altra_hwmon_read_labels}
use wfey.Driver.Labels.{core_label}
use wfey.Hwmon.{
  Machine, Paths, Reading, joules, failed, input_path, read_file, wfey_hwmon_joules_read,
}
use wfey.Hwmon.Reads.{read-first, read-cached}
use wfey.Perf.{EpRow, ep_report, usec_in_second}
use wfey.System.{Ep}
use wfey.Nap.Double.{Doubles}
use wfey.Energy.{Shows, AllOther, find_path-shown, read_file-shown}

-- The table after the read of `main`, for a processor that it is about to create: it is the first of all.
unfoldable pub cached_by_main : ℕ → Machine → Option (Option Paths)
unfolding wfey_hwmon_joules_read
cached_by_main core m = wfey_hwmon_joules_read core m none >>=? λ r. some (some r.1)

-- `start_energy` and `end_energy` of the processor.
unfoldable pub energies : ℕ → Option Paths → Machine → Machine → Option (Reading × Reading)
unfolding wfey_hwmon_joules_read
energies core table before after = wfey_hwmon_joules_read core before table >>=? λ first.
    wfey_hwmon_joules_read core after (some first.1) >>=? λ second. some (first.0, second.0)

-- A reading as the `uint64_t` that is returned, -1 where the file cannot be opened.
abbrev pub amount : Reading → Option ℕ
amount (joules v) = some v
amount failed = some (2 ^ 64 - 1)
amount _ = none

module _ (d : Doubles) where
  -- The line of the processor on the core, with its two readings in a build with BEAST, and otherwise with the energies that they
  -- begin with.
  unfoldable pub measured_report :
      Bool → ℕ → ℕ → (ℕ → ℕ) → Ep → Machine → Machine → Machine → Option (EpRow d.Double)
  unfolding cached_by_main energies
  measured_report true id core pe_val e creating before after =
      cached_by_main core creating >>=? λ table. energies core table before after >>=? λ readings.
      amount readings.0 >>=? λ start_energy. amount readings.1 >>=? λ end_energy.
      some (ep_report d id core (d.of_int start_energy) (d.of_int end_energy) pe_val e)
  measured_report false id core pe_val e creating before after =
      some (ep_report d id core (d.of_int 0) (d.of_int 0) pe_val e)

energies-cached :
    (core : ℕ) (path : Bytes) (before after : Machine) (paths : Paths)
    → ((m : Machine)
        → wfey_hwmon_joules_read core m (some paths) ≡ some (read_file m (some path), paths))
    → energies core (some paths) before after
      ≡ some (read_file before (some path), read_file after (some path))
unfolding energies
energies-cached core path before after paths h = rw (h before, energies) (rw (h after) refl)

module _ (t : Types) (ctx : Context) (entry : Bytes) (core : ℕ) (small : core < 10 ^ 7)
    (visible : has_prefix (codes ".") entry ≡ false)
    (labelled : altra_hwmon_read_labels t ctx t.hwmon_energy (pos core) ≡ some (core_label core))
    (r0 r r' : Registers) (m0 m m' : Machine) (shown0 : Shows t ctx r0 m0 entry core)
    (shown : Shows t ctx r m entry core) (shown' : Shows t ctx r' m' entry core) where
  -- `main` caches the path, and both readings are what the driver reads for the core's channel at their time.
  energies-driver :
      (before after : List Bytes) (v v' : ℕ)
      → AllOther m0 before
      → m0.root ≡ some (before ++ entry ∷ after)
      → core < m0.processors
      → altra_hwmon_read t ctx r t.hwmon_energy (pos core) ≡ value v
      → v < 2 ^ 63
      → altra_hwmon_read t ctx r' t.hwmon_energy (pos core) ≡ value v'
      → v' < 2 ^ 63
      → (table : Option Paths) × (cached_by_main core m0 ≡ some table)
        × (energies core table m m' ≡ some (joules v, joules v'))
  unfolding cached_by_main
  energies-driver before after v v' o root within e lt e' lt' =
      let path = input_path entry (core + 1) in
      let (paths, first, size, kept) = read-first m0 core path within (
        find_path-shown t ctx r0 m0 entry core small shown0 visible labelled before after o root) in
      (
        some paths,
        rw first refl,
        rw
            (
              energies-cached core path m m' paths
                  (read-cached core path paths (rw size within) kept),
              read_file-shown t ctx r m entry core small shown visible labelled v e lt,
              read_file-shown t ctx r' m' entry core small shown' visible labelled v' e' lt',
            )
            refl,
      )

  -- From the registers to the line, in a build with BEAST, which no target of the Makefile defines: the energies that the processor
  -- prints are what the driver reads for its core before its loop and behind it, each converted to a `double` and divided by a million,
  -- and their difference, all as the `double` computes them. The kernel shows the core's channel in the same entry of the root when
  -- `main` caches the path and at both readings, the first time behind entries that are hidden or of other drivers; the channel has the
  -- label of this core, the core is one of the machine, its number has at most seven digits, and the values fit into 63 bits.
  pub measured_report-driver :
      (d : Doubles) (before after : List Bytes) (v v' id : ℕ) (pe_val : ℕ → ℕ) (e : Ep)
      → AllOther m0 before
      → m0.root ≡ some (before ++ entry ∷ after)
      → core < m0.processors
      → altra_hwmon_read t ctx r t.hwmon_energy (pos core) ≡ value v
      → v < 2 ^ 63
      → altra_hwmon_read t ctx r' t.hwmon_energy (pos core) ≡ value v'
      → v' < 2 ^ 63
      → (row : EpRow d.Double) × (measured_report d true id core pe_val e m0 m m' ≡ some row)
        × (row.start_energy ≡ d.over (d.of_int v) (d.of_int usec_in_second))
        × (row.end_energy ≡ d.over (d.of_int v') (d.of_int usec_in_second))
        × (row.energy_diff ≡ d.minus row.end_energy row.start_energy)
        × (row.core ≡ core)
  unfolding measured_report ep_report
  measured_report-driver d before after v v' id pe_val e o root within h lt h' lt' =
      let (table, cached, both) = energies-driver before after v v' o root within h lt h' lt' in
      (
        ep_report d id core (d.of_int v) (d.of_int v') pe_val e,
        rw (cached, both, measured_report) refl,
        refl,
        refl,
        refl,
        refl,
      )
