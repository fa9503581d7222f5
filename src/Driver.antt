-- ===== src/Driver.antt =====
-- The sensors of module/altra-hwmon.c: what altra_hwmon_read and altra_hwmon_read_labels return; Create is
-- altra_create_sensor, Walk is altra_hwmon_create_sensors, and Probe is altra_hwmon_probe. The reads of the hardware, what allocations
-- and the kernel answer, and the numbers of the sensor types and flags of the kernel, are arguments. A list has fewer than 2^31
-- sensors.
pub mod Create
pub mod Read
pub mod Walk
pub mod Probe
pub mod Labels
use wfey.Prelude.{
  ℕ, zero, suc, ◌+◌, ◌-◌, ◌*◌, ◌/◌, ◌%◌, ◌^◌, Bool, true, false, not, Option, none, some, List, [],
  ◌∷◌, ◌++◌, ltb, leb, ◌==◌, if◌then◌else◌, update,
}
use wfey.Prelude.Int.{ℤ, pos, negsuc, to_u64}
use wfey.Prelude.Text.{Bytes, codes, decimal}

-- `enum hwmon_sensor_types` of the kernel, as far as it is named here, with HWMON_E_INPUT | HWMON_E_LABEL and
-- HWMON_T_LABEL | HWMON_T_INPUT.
pub record Types : Type 0 where
  pub hwmon_temp : ℕ
  pub hwmon_energy : ℕ
  pub hwmon_max : ℕ
  pub energy_flags : ℕ
  pub temp_flags : ℕ

-- The registers at a time: `readl_relaxed` and `readq_relaxed`.
pub record Registers : Type 0 where
  pub read32 : ℕ → ℕ
  pub read64 : ℕ → ℕ

abbrev pub unit_degree_celsius : ℕ
unit_degree_celsius = 1

abbrev pub unit_joule : ℕ
unit_joule = 16

abbrev pub unit_milli_joule : ℕ
unit_milli_joule = 17

abbrev pub unit_micro_joule : ℕ
unit_micro_joule = 18

unfoldable pub altra_hwmon_unit2type : Types → ℕ → ℕ
altra_hwmon_unit2type t unit =
    if unit == unit_degree_celsius
    then t.hwmon_temp
    else if unit == unit_joule
    then t.hwmon_energy
    else if unit == unit_milli_joule
    then t.hwmon_energy
    else if unit == unit_micro_joule
    then t.hwmon_energy
    else t.hwmon_max

unfoldable pub altra_hwmon_scale_factor : ℕ → ℕ
altra_hwmon_scale_factor unit =
    if unit == unit_degree_celsius
    then 1000
    else if unit == unit_joule
    then 1000000
    else if unit == unit_milli_joule
    then 1000
    else 1

unfoldable pub altra_hwmon_type2flag : Types → ℕ → ℕ
altra_hwmon_type2flag t type =
    if type == t.hwmon_energy
    then t.energy_flags
    else if type == t.hwmon_temp
    then t.temp_flags
    else 0

-- The value goes through an int.
unfoldable pub altra_sensor_is_valid : Registers → ℕ → ℕ → Bool
altra_sensor_is_valid r reg data_size =
    not ((if data_size == 4 then r.read32 reg else r.read64 reg) % 2 ^ 32 == 0)

pub record SensorItem : Type 0 where
  pub label : Bytes
  pub scale_factor : ℕ
  pub data_size : ℕ
  pub hw_reg : ℕ

-- For each type: the room of its list, `none` before the list is allocated; the number of sensors; and the list.
pub record Context : Type 0 where
  pub room : ℕ → Option ℕ
  pub sensor_list_cnt : ℕ → ℕ
  pub sensor_list : ℕ → ℕ → SensorItem

-- What a read returns: -EINVAL, or the pattern of a 64-bit value.
pub data Result : Type 0 where
  einval : Result
  value : ℕ → Result

-- The comparison with the count is one of unsigned numbers of 32 bits.
unfoldable pub altra_hwmon_read : Types → Context → Registers → ℕ → ℤ → Result
altra_hwmon_read t ctx r type channel =
    let index = to_u64 channel % 2 ^ 32 in
    let item = ctx.sensor_list type index in
    let raw = if item.data_size == 4 then r.read32 item.hw_reg else r.read64 item.hw_reg in
    if leb t.hwmon_max type
    then einval
    else if leb (ctx.sensor_list_cnt type) index
    then einval
    else value (raw * item.scale_factor % 2 ^ 64)

-- `none`: -EINVAL.
unfoldable pub altra_hwmon_read_labels : Types → Context → ℕ → ℤ → Option Bytes
altra_hwmon_read_labels t ctx type channel =
    let index = to_u64 channel % 2 ^ 32 in
    if leb t.hwmon_max type
    then none
    else if leb (ctx.sensor_list_cnt type) index
    then none
    else some (ctx.sensor_list type index).label

abbrev pub label_reg : ℕ
label_reg = 0

abbrev pub info_reg : ℕ
info_reg = 16

abbrev pub data_reg : ℕ
data_reg = 24

abbrev pub unit_rd : ℕ → ℕ
unit_rd x = x % 256

abbrev pub datasize_rd : ℕ → ℕ
datasize_rd x = x / 256 % 256

abbrev pub datacnt_rd : ℕ → ℕ
datacnt_rd x = x / 65536 % 65536

-- The register of a sensor's data.
abbrev pub data_at : ℕ → ℕ → ℕ → ℕ
data_at metric_info data_size i = (metric_info + data_reg + i * data_size) % 2 ^ 32

-- The number of valid sensors among `n` from the `i`-th on.
unfoldable pub count_valid : Registers → ℕ → ℕ → ℕ → ℕ → ℕ
unfolding altra_sensor_is_valid
count_valid r metric_info data_size i zero = 0
count_valid r metric_info data_size i (suc n) =
    let rest = count_valid r metric_info data_size (i + 1) n in
    if altra_sensor_is_valid r (data_at metric_info data_size i) data_size then suc rest else rest

-- The bytes of a word in memory.
abbrev pub bytes_of : ℕ → Bytes
bytes_of w = w % 256 ∷ w / 256 % 256 ∷ w / 65536 % 256 ∷ w / 16777216 % 256 ∷ []

-- A C string in an array.
unfoldable pub c_string : Bytes → Bytes
c_string [] = []
c_string (c ∷ text) = let rest = c_string text in if c == 0 then [] else c ∷ rest

unfoldable pub first_bytes : ℕ → Bytes → Bytes
first_bytes zero text = []
first_bytes (suc n) [] = []
first_bytes (suc n) (c ∷ text) = c ∷ first_bytes n text

-- The 16 bytes of the metric, and three bytes of the stack, which have any value.
unfoldable pub metric_label : Registers → Bytes → ℕ → Bytes
unfolding c_string
metric_label r stack metric_info = c_string (
    bytes_of (r.read32 (metric_info + label_reg))
    ++ (bytes_of (r.read32 (metric_info + label_reg + 4))
        ++ (bytes_of (r.read32 (metric_info + label_reg + 8))
            ++ (bytes_of (r.read32 (metric_info + label_reg + 12)) ++ first_bytes 3 stack))))

-- `%03u`
unfoldable pub padded : ℕ → Bytes
padded j =
    if ltb j 10
    then codes "00" ++ decimal j
    else if ltb j 100
    then codes "0" ++ decimal j
    else decimal j

-- `scnprintf(item->label, SENSOR_ITEM_LABEL_SIZE, "%s %03u", label, j)`
unfoldable pub sensor_label : Bytes → ℕ → Bytes
unfolding first_bytes padded
sensor_label label j = first_bytes 19 (label ++ (codes " " ++ padded j))
