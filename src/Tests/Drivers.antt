-- ===== src/Tests/Drivers.antt =====
-- A metric of the hardware monitor: "Core", in milli joules, with three data of 8 bytes.
use wfey.Prelude.{ℕ, true, ◌≡◌, refl, none, some, [], ◌++◌, ◌==◌, if◌then◌else◌, arith}
use wfey.Prelude.Int.{pos}
use wfey.Prelude.Text.{codes, decimal}
use wfey.Driver.{
  Types, Registers, Context, SensorItem, value, altra_hwmon_read_labels, altra_hwmon_read,
  altra_sensor_is_valid, count_valid, c_string, metric_label, first_bytes, padded, sensor_label,
  altra_hwmon_unit2type,
}
use wfey.Driver.Create.{Moment, created, overflow, altra_create_sensor}
use wfey.Driver.Create.{metric_at}
use wfey.Driver.Create.Listed.{sensors_of, added, items_found}
use wfey.Driver.Create.Sensors.{altra_create_sensor-fits, altra_create_sensor-overflow}

abbrev pub types : Types
types = record {
  hwmon_temp = 1;
  hwmon_energy = 5;
  hwmon_max = 12;
  energy_flags = 6;
  temp_flags = 10;
}

abbrev pub header : ℕ → ℕ
header reg = if reg == 8 then 1701998403 else if reg == 24 then 198673 else 0

-- The second datum is 0 at first.
abbrev idle : Registers
idle = record {
  read32 = header;
  read64 = λ reg. if reg == 32 then 5 else if reg == 48 then 7 else 0;
}

abbrev pub busy : Registers
busy = record {
  read32 = header;
  read64 = λ reg. if reg == 32 then 6 else if reg == 40 then 1 else if reg == 48 then 7 else 0;
}

abbrev nothing : SensorItem
nothing = record { label = []; scale_factor = 0; data_size = 0; hw_reg = 0 }

abbrev empty : Context
empty = record { room = λ type. none; sensor_list_cnt = λ type. 0; sensor_list = λ type i. nothing }

-- Memory, and no bytes of the stack.
abbrev pub moment : Registers → Registers → Moment
moment before after = record {
  before = before;
  after = after;
  list_ok = true;
  config_ok = true;
  stack = [];
}

altra_create_sensor-fits_example :
    (ctx : Context) × (config : ℕ → ℕ) × (altra_create_sensor types (moment busy idle) 8 empty
      ≡ created ctx config)
    × (ctx.sensor_list_cnt 5 ≡ 2)
    × ((type : ℕ)
        → sensors_of ctx type
          ≡ sensors_of empty type
            ++ added 5 type (items_found idle (metric_at types (moment busy idle) 8) 0 3 0))
unfolding count_valid altra_sensor_is_valid altra_hwmon_unit2type metric_label c_string first_bytes
altra_create_sensor-fits_example =
    altra_create_sensor-fits types (moment busy idle) 8 empty (λ type e. refl) (refl, refl) refl
      refl (omega arith)

altra_create_sensor-overflow_example :
    altra_create_sensor types (moment idle busy) 8 empty ≡ overflow
unfolding count_valid altra_sensor_is_valid altra_hwmon_unit2type metric_label c_string first_bytes
altra_create_sensor-overflow_example =
    altra_create_sensor-overflow types (moment idle busy) 8 empty (λ type e. refl) (refl, refl) refl
      refl (omega arith)

-- One sensor of energy.
abbrev one : Context
one = record {
  room = λ type. some 1;
  sensor_list_cnt = λ type. if type == 5 then 1 else 0;
  sensor_list = λ type i. record (nothing) {
    label = codes "Core 000";
    data_size = 8;
    scale_factor = 1000;
    hw_reg = 32;
  };
}

read_lem :
    (altra_hwmon_read types one idle 5 (pos 0) ≡ value 5000)
    × (altra_hwmon_read_labels types one 5 (pos 0) ≡ some (codes "Core 000"))
    × (altra_hwmon_read_labels types one 5 (pos 1) ≡ none)
unfolding altra_hwmon_read altra_hwmon_read_labels
read_lem = (refl, refl, refl)

-- A counter at 2^32.
abbrev full : Registers
full = record { read32 = λ reg. 0; read64 = λ reg. 4294967296 }

label_lem : sensor_label (codes "Core Energy") 7 ≡ codes "Core Energy 007"
unfolding sensor_label first_bytes padded decimal
label_lem = refl

-- A label of 16 bytes leaves room for two digits.
cut_off : sensor_label (codes "Package0  Energy") 7 ≡ codes "Package0  Energy 00"
unfolding sensor_label first_bytes padded decimal
cut_off = refl
