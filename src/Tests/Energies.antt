-- ===== src/Tests/Energies.antt =====
-- The energy of core 1, from the registers to the program.
use wfey.Prelude.{
  true, ℕ, ◌≡◌, refl, sym, ◌∙◌, ◌+◌, ◌*◌, none, inl, inr, some, [], ◌∷◌, ◌++◌, ◌==◌, if◌then◌else◌,
  arith, some_eq,
}
use wfey.Prelude.Int.{pos}
use wfey.Prelude.Text.{codes, decimal, has_prefix}
use wfey.Driver.{
  Context, Registers, value, altra_hwmon_read, altra_hwmon_read_labels, sensor_label, first_bytes,
  padded,
}
use wfey.Driver.Labels.{core_label, scan_label-core_label}
use wfey.Hwmon.{Machine, name_path, label_path, input_path, scan_label}
use wfey.Energy.{Shows}
use wfey.Energy.Spent.{measured_report, measured_report-driver}
use wfey.Perf.{EpRow, usec_in_second}
use wfey.Tests.Runs.{raw}
use wfey.Tests.Naps.{fixed}
use wfey.Tests.Drivers.{types}
use wfey.Tests.Hwmons.{look_up}

scan_label-core_label_example : scan_label (core_label 127 ++ 10 ∷ []) ≡ some (pos 127)
scan_label-core_label_example = scan_label-core_label 127 (omega arith)

abbrev cores : Context
cores = record {
  room = λ type. some 2;
  sensor_list_cnt = λ type. if type == 5 then 2 else 0;
  sensor_list = λ type i. record {
    label = core_label i;
    scale_factor = 1000;
    data_size = 8;
    hw_reg = 32 + i * 8;
  };
}

abbrev counters : Registers
counters = record { read32 = λ reg. 0; read64 = λ reg. if reg == 40 then 34 else 12 }

abbrev machine : Machine
machine = record {
  processors = 2;
  root = some (codes "." ∷ codes "hwmon0" ∷ codes "hwmon5" ∷ []);
  file = look_up (
      (codes "/sys/class/hwmon/hwmon0/name", codes "nvme" ++ 10 ∷ [])
      ∷ (codes "/sys/class/hwmon/hwmon5/name", codes "altra_hwmon" ++ 10 ∷ [])
      ∷ (codes "/sys/class/hwmon/hwmon5/energy2_label", codes "Core Energy 001" ++ 10 ∷ [])
      ∷ (codes "/sys/class/hwmon/hwmon5/energy2_input", codes "34000" ++ 10 ∷ [])
      ∷ []);
}

labelled : altra_hwmon_read_labels types cores 5 (pos 1) ≡ some (core_label 1)
unfolding altra_hwmon_read_labels
labelled = refl

measured : altra_hwmon_read types cores counters 5 (pos 1) ≡ value 34000
unfolding altra_hwmon_read
measured = refl

value_eq : {v w : ℕ} → value v ≡ value w → v ≡ w
value_eq h = cc

shown : Shows types cores counters machine (codes "hwmon5") 1
unfolding look_up name_path label_path input_path sensor_label first_bytes padded decimal
shown = record {
  name = refl;
  label = λ l e. rw (← some_eq (sym labelled ∙ e)) refl;
  input = λ v e lt. rw (← value_eq (sym measured ∙ e)) refl;
}

-- Later, with five units more.
abbrev later_counters : Registers
later_counters = record { read32 = λ reg. 0; read64 = λ reg. if reg == 40 then 39 else 12 }

abbrev later_machine : Machine
later_machine = record {
  processors = 2;
  root = none;
  file = look_up (
      (codes "/sys/class/hwmon/hwmon5/name", codes "altra_hwmon" ++ 10 ∷ [])
      ∷ (codes "/sys/class/hwmon/hwmon5/energy2_label", codes "Core Energy 001" ++ 10 ∷ [])
      ∷ (codes "/sys/class/hwmon/hwmon5/energy2_input", codes "39000" ++ 10 ∷ [])
      ∷ []);
}

later_measured : altra_hwmon_read types cores later_counters 5 (pos 1) ≡ value 39000
unfolding altra_hwmon_read
later_measured = refl

later_shown : Shows types cores later_counters later_machine (codes "hwmon5") 1
unfolding look_up name_path label_path input_path sensor_label first_bytes padded decimal
later_shown = record {
  name = refl;
  label = λ l e. rw (← some_eq (sym labelled ∙ e)) refl;
  input = λ v e lt. rw (← value_eq (sym later_measured ∙ e)) refl;
}

measured_report-driver_example :
    (row : EpRow ℕ) × (measured_report fixed true 0 1 (λ i. 0) raw.ep machine machine later_machine
      ≡ some row)
    × (row.start_energy ≡ fixed.over (fixed.of_int 34000) (fixed.of_int usec_in_second))
    × (row.end_energy ≡ fixed.over (fixed.of_int 39000) (fixed.of_int usec_in_second))
    × (row.energy_diff ≡ fixed.minus row.end_energy row.start_energy)
    × (row.core ≡ 1)
unfolding look_up has_prefix name_path
measured_report-driver_example =
    measured_report-driver types cores (codes "hwmon5") 1 (omega arith) refl labelled counters
      counters later_counters machine machine later_machine shown shown later_shown fixed
      (codes "." ∷ codes "hwmon0" ∷ []) [] 34000 39000 0 (λ i. 0) raw.ep
      (inl refl, (inr (inr (codes "nvme" ++ 10 ∷ [], refl, refl)), tt)) refl (omega arith) measured
      (omega arith) later_measured (omega arith)
