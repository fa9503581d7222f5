-- ===== src/Hwmon/Standalone.antt =====
-- `main` of wfey_hwmon.c, which the target hwmon_test of the Makefile has.
use wfey.Prelude.{ℕ, ◌<◌, ◌≡◌, refl, Option, none, some, ◌>>=?◌}
use wfey.Prelude.Text.{Bytes}
use wfey.Hwmon.{Machine, Reading, find_path, read_file, wfey_hwmon_joules_read}
use wfey.Hwmon.Reads.{read-first, read-cached}

-- The core, from the argument of the program as a number.
abbrev pub core_of : Option ℕ → ℕ
core_of none = 0
core_of (some core) = core

-- `j1` and `j2`, ten seconds later.
unfoldable pub hwmon_test : Option ℕ → Machine → Machine → Option (Reading × Reading)
hwmon_test arg m later = wfey_hwmon_joules_read (core_of arg) m none >>=? λ first.
    wfey_hwmon_joules_read (core_of arg) later (some first.1) >>=? λ second.
    some (first.0, second.0)

-- Both numbers are read from the file that is found at first, whatever has become of the directory after that.
pub hwmon_test-same_file :
    (arg : Option ℕ) (path : Bytes) (m later : Machine)
    → core_of arg < m.processors
    → find_path m (core_of arg) ≡ some path
    → hwmon_test arg m later ≡ some (read_file m (some path), read_file later (some path))
unfolding hwmon_test
hwmon_test-same_file arg path m later h found =
    let (paths, first, size, cached) = read-first m (core_of arg) path h found in
    rw (first, hwmon_test) (rw (read-cached (core_of arg) path paths (rw size h) cached later) refl)
