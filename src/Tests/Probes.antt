-- ===== src/Tests/Probes.antt =====
-- The probe of a device with one metric.
use wfey.Prelude.{
  ℕ, ℕ_discrete, ◌+◌, leb, zero, suc, inr, ◌<◌, ◌≤◌, length, true, List, ◌≡◌, refl, some, [], ◌==◌,
  if◌then◌else◌, arith,
}
use wfey.Prelude.Int.{pos}
use wfey.Prelude.Text.{codes, decimal}
use wfey.Driver.{
  Registers, Context, altra_hwmon_scale_factor, value, altra_hwmon_read_labels, altra_hwmon_read,
  altra_sensor_is_valid, count_valid, c_string, metric_label, first_bytes, padded, sensor_label,
  altra_hwmon_unit2type,
}
use wfey.Driver.Create.{fill_list, altra_create_sensor}
use wfey.Driver.Create.Sound.{IsSound}
use wfey.Driver.Walk.{Session, Channel, ready, visit, walk, altra_hwmon_create_sensors}
use wfey.Driver.Walk.Bounds.{metric_start, IsOrderly, altra_hwmon_create_sensors-IsSound}
use wfey.Driver.Walk.Ready.{IsSteady, altra_hwmon_create_sensors-ready}
use wfey.Driver.Walk.Reads.{AgreeWithin}
use wfey.Driver.Probe.{
  Device, Probed, use_mapping, finish_probe, valid, zeroed, zeroed-IsSound, registered,
  altra_hwmon_probe, altra_hwmon_probe-read,
}
use wfey.Tests.Drivers.{types, header, busy, moment}

-- A table with this metric alone, in registers of 64 bytes that hold still.
abbrev table : Registers
table = record {
  read32 = λ reg. if reg == 0 then 0x304D5748 else if reg == 4 then 65537 else header reg;
  read64 = busy.read64;
}

abbrev session : Session
session = record {
  table = table;
  channels_ok = true;
  info_ok = true;
  seen = λ i. table;
  moment = λ i. moment table table;
}

only_zero : (P : ℕ → Type 0) → P 0 → (i : ℕ) → i < 1 → P i
only_zero P p zero lt = p
only_zero P p (suc i) lt = absurd (omega arith)

altra_hwmon_create_sensors-ready_example :
    (ctx : Context) × (info : List Channel) × (altra_hwmon_create_sensors types 64 session zeroed
      ≡ ready ctx info)
    × (length info ≤ 1)
unfolding metric_start
altra_hwmon_create_sensors-ready_example =
    altra_hwmon_create_sensors-ready types 64 session zeroed (omega arith) refl refl refl refl
      (only_zero (λ i. IsOrderly session i × IsSteady (session.moment i))
        ((refl, inr (omega arith)), (refl, refl, refl)))
      (zeroed-IsSound 64)

abbrev device : Device
device = record {
  context_ok = true;
  resource = some 64;
  acpi_id = some 2;
  ioremap = valid;
  memremap = valid;
  registration = valid;
}

orderly : (i : ℕ) → i < 1 → IsOrderly session i
unfolding metric_start
orderly = only_zero (IsOrderly session) (refl, inr (omega arith))

-- What the probe leaves.
found_ctx : Probed → Context
found_ctx (registered ctx info) = ctx
found_ctx _ = zeroed

found_info : Probed → List Channel
found_info (registered ctx info) = info
found_info _ = []

probed : Probed
probed = altra_hwmon_probe types device session

ctx_2 : Context
ctx_2 = found_ctx probed

probe_lem : altra_hwmon_probe types device session ≡ registered ctx_2 (found_info probed)
unfolding probed ctx_2 found_ctx found_info altra_hwmon_probe use_mapping finish_probe
    altra_hwmon_create_sensors walk visit altra_create_sensor fill_list count_valid
    altra_sensor_is_valid altra_hwmon_unit2type metric_label c_string first_bytes ℕ_discrete
probe_lem = refl

-- Other values outside of the registers.
abbrev elsewhere : Registers
elsewhere = record {
  read32 = λ reg. if leb (reg + 4) 64 then table.read32 reg else 7;
  read64 = λ reg. if leb (reg + 8) 64 then table.read64 reg else 7;
}

elsewhere-AgreeWithin : AgreeWithin 64 table elsewhere
elsewhere-AgreeWithin = (λ reg h. ground arith, λ reg h. ground arith)

altra_hwmon_probe-read_example :
    altra_hwmon_read types ctx_2 table 5 (pos 2) ≡ altra_hwmon_read types ctx_2 elsewhere 5 (pos 2)
altra_hwmon_probe-read_example =
    altra_hwmon_probe-read types device session 64 (refl, omega arith, orderly) table elsewhere 5
      (pos 2) probe_lem elsewhere-AgreeWithin

third_sensor :
    (altra_hwmon_read types ctx_2 table 5 (pos 2) ≡ value 7000)
    × (altra_hwmon_read_labels types ctx_2 5 (pos 2) ≡ some (codes "Core 002"))
unfolding altra_hwmon_read altra_hwmon_read_labels altra_hwmon_scale_factor sensor_label padded
    decimal probed ctx_2 found_ctx found_info altra_hwmon_probe use_mapping finish_probe
    altra_hwmon_create_sensors walk visit altra_create_sensor fill_list count_valid
    altra_sensor_is_valid altra_hwmon_unit2type metric_label c_string first_bytes ℕ_discrete
third_sensor = (refl, refl)

altra_hwmon_create_sensors-IsSound_example : IsSound 64 ctx_2
unfolding probed ctx_2 found_ctx found_info altra_hwmon_probe use_mapping finish_probe
    altra_hwmon_create_sensors walk visit altra_create_sensor fill_list count_valid
    altra_sensor_is_valid altra_hwmon_unit2type metric_label c_string first_bytes ℕ_discrete
altra_hwmon_create_sensors-IsSound_example =
    altra_hwmon_create_sensors-IsSound types 64 session zeroed ctx_2 (found_info probed)
      (omega arith) orderly (zeroed-IsSound 64) refl
