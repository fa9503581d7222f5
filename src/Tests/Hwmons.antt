-- ===== src/Tests/Hwmons.antt =====
-- The energy files of two machines, and reads of them.
use wfey.Prelude.{
  ◌≡◌, refl, Bool, ◌&&◌, Option, none, some, List, [], ◌∷◌, map, if◌then◌else◌, arith,
}
use wfey.Prelude.Text.{
  Bytes, codes, has_prefix, strip_prefix, skip_space, scan_digits, scan_signed, digits_from,
  first_line, decimal,
}
use wfey.Hwmon.{
  Machine, Paths, no_path, find_path, search_entries, look_entry, look_label, scan_label, name_path,
  label_path, input_path, read_file, fresh_paths, wfey_hwmon_joules_read,
}
use wfey.Hwmon.{joules, failed}
use wfey.Hwmon.Standalone.{hwmon_test, hwmon_test-same_file}
use wfey.Hwmon.Reads.{read_all, IsRight, read_all-IsRight, read-uncached}

same : Bytes → Bytes → Bool
unfolding has_prefix
same a b = has_prefix a b && has_prefix b a

-- The content of a path in a list of files.
unfoldable pub look_up : List (Bytes × Bytes) → Bytes → Option Bytes
unfolding same
look_up [] path = none
look_up ((name, content) ∷ files) path =
    let rest = look_up files path in if same name path then some content else rest

-- Two processors; the driver's directory comes behind one of another driver.
abbrev two_cores : Machine
two_cores = record {
  processors = 2;
  root = some (codes "." ∷ codes ".." ∷ codes "hwmon0" ∷ codes "hwmon5" ∷ []);
  file = look_up (
      (codes "/sys/class/hwmon/hwmon0/name", codes "nvme")
      ∷ (codes "/sys/class/hwmon/hwmon5/name", codes "altra_hwmon")
      ∷ (codes "/sys/class/hwmon/hwmon5/energy1_label", codes "Core Energy 000")
      ∷ (codes "/sys/class/hwmon/hwmon5/energy2_label", codes "Core Energy 001")
      ∷ (codes "/sys/class/hwmon/hwmon5/energy1_input", codes "1200")
      ∷ (codes "/sys/class/hwmon/hwmon5/energy2_input", codes "3400")
      ∷ []);
}

abbrev energy2 : Bytes
energy2 = codes "/sys/class/hwmon/hwmon5/energy2_input"

found : find_path two_cores 1 ≡ some energy2
unfolding look_up find_path search_entries look_entry look_label scan_label name_path label_path
    input_path strip_prefix skip_space scan_digits scan_signed digits_from first_line decimal
found = refl

read-uncached_example :
    (paths : Paths) × (wfey_hwmon_joules_read 1 two_cores (some (fresh_paths two_cores))
      ≡ some (no_path, paths))
    × ((m : Machine)
        → wfey_hwmon_joules_read 1 m (some paths) ≡ some (read_file m (some energy2), paths))
unfolding fresh_paths
read-uncached_example =
    read-uncached two_cores 1 energy2 (fresh_paths two_cores) (omega arith) refl found

read_all-IsRight_example :
    (paths : Paths) × (read_all (map (λ c. (c, two_cores)) (1 ∷ 0 ∷ 1 ∷ [])) none
      ≡ some (some paths))
    × IsRight two_cores paths
read_all-IsRight_example =
    read_all-IsRight two_cores 1 (0 ∷ 1 ∷ []) (omega arith, (omega arith, (omega arith, tt)))

-- The same machine with its files gone.
abbrev unplugged : Machine
unplugged = record { processors = 2; root = none; file = λ path. none }

abbrev filled : Paths
filled = record { size = 2; path = λ i. some energy2 }

-- The second reading is made when the files are gone.
hwmon_test_run : hwmon_test (some 1) two_cores unplugged ≡ some (joules 3400, failed)
unfolding read_file look_up skip_space scan_digits scan_signed
hwmon_test_run = hwmon_test-same_file (some 1) energy2 two_cores unplugged (omega arith) found
