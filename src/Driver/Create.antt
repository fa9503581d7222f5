-- ===== src/Driver/Create.antt =====
-- `altra_create_sensor` of module/altra-hwmon.c: two passes over the registers of a metric, which may change in between. A
-- register that a pass reads more than once reads the same.
pub mod Listed
pub mod Passes
pub mod Sensors
pub mod Sound
use wfey.Prelude.{
  ℕ, zero, suc, ◌+◌, ◌%◌, Bool, true, false, ◌&&◌, Option, none, some, [], ◌∷◌, ltb, ◌==◌,
  if◌then◌else◌, update, ◌>>=?◌,
}
use wfey.Prelude.Text.{Bytes}
use wfey.Driver.{
  Types, Registers, SensorItem, Context, altra_hwmon_unit2type, altra_hwmon_scale_factor,
  altra_hwmon_type2flag, altra_sensor_is_valid, info_reg, unit_rd, datasize_rd, datacnt_rd, data_at,
  count_valid, metric_label, sensor_label,
}

-- A metric as its header describes it; `total` is the number of entries of `s_config`.
pub record Metric : Type 0 where
  pub start : ℕ
  pub type : ℕ
  pub unit : ℕ
  pub data_size : ℕ
  pub label : Bytes
  pub total : ℕ

-- The second pass: `j`, `s_config`, and the sensors so far.
pub record Placing : Type 0 where
  pub ctx : Context
  pub j : ℕ
  pub config : ℕ → ℕ

abbrev pub within : ℕ → Option ℕ → Bool
within n none = false
within n (some k) = ltb n k

abbrev pub new_item : Metric → ℕ → ℕ → SensorItem
new_item k i j = record {
  label = sensor_label k.label j;
  scale_factor = altra_hwmon_scale_factor k.unit;
  data_size = k.data_size;
  hw_reg = data_at k.start k.data_size i;
}

abbrev pub placed : Types → Metric → ℕ → Placing → Placing
placed t k i s =
    let n = s.ctx.sensor_list_cnt k.type in
    record {
      ctx = record (s.ctx) {
        sensor_list_cnt = update s.ctx.sensor_list_cnt k.type (n + 1);
        sensor_list =
            update s.ctx.sensor_list k.type
              (update (s.ctx.sensor_list k.type) n (new_item k i s.j));
      };
      j = s.j + 1;
      config = update s.config s.j (altra_hwmon_type2flag t k.type);
    }

-- A sensor at the end of the list of its type. `none`: a write behind the end of the list or of `s_config`.
unfoldable pub put : Types → Metric → ℕ → Placing → Option Placing
put t k i s =
    if within (s.ctx.sensor_list_cnt k.type) (s.ctx.room k.type) && ltb s.j k.total
    then some (placed t k i s)
    else none

-- The body of the loop.
unfoldable pub advance : Types → Registers → Metric → ℕ → Placing → Option Placing
unfolding put altra_sensor_is_valid
advance t r k i s =
    if altra_sensor_is_valid r (data_at k.start k.data_size i) k.data_size
    then put t k i s
    else some s

-- The sensors from the `i`-th on.
unfoldable pub place : Types → Registers → Metric → ℕ → ℕ → Placing → Option Placing
unfolding advance
place t r k i zero s = some s
place t r k i (suc n) s = advance t r k i s >>=? place t r k (i + 1) n

-- A new list for the sensors of a type, or one with the old ones copied, if the allocation succeeds. `none`: -ENOMEM. The first
-- allocation for a type is not checked.
abbrev pub make_list : Bool → ℕ → ℕ → Context → Option ℕ → Option Context
make_list true type total ctx none = some (record ctx { room = update ctx.room type (some total) })
make_list true type total ctx (some k) =
    some (record ctx { room = update ctx.room type (some (ctx.sensor_list_cnt type + total)) })
make_list false type total ctx none = some ctx
make_list false type total ctx (some k) = none

-- Before the second pass.
abbrev pub begun : Context → Placing
begun ctx = record { ctx = ctx; j = 0; config = λ i. 0 }

pub data Created : Type 0 where
  enodev : Created
  enomem : Created
  created : Context → (ℕ → ℕ) → Created  -- the sensors, and `s_config`
  overflow : Created  -- a write outside of the list or of `s_config`

-- What a call meets: the registers as the first pass reads them and as the second does, whether the list and `s_config` can be
-- allocated, and the three bytes of the stack.
pub record Moment : Type 0 where
  pub before : Registers
  pub after : Registers
  pub list_ok : Bool
  pub config_ok : Bool
  pub stack : Bytes

abbrev pub header_at : Moment → ℕ → ℕ
header_at m metric_info = m.before.read32 (metric_info + info_reg)

abbrev pub metric_at : Types → Moment → ℕ → Metric
metric_at t m metric_info =
    let hw_info = header_at m metric_info in
    record {
      start = metric_info;
      type = altra_hwmon_unit2type t (unit_rd hw_info);
      unit = unit_rd hw_info;
      data_size = datasize_rd hw_info;
      label = metric_label m.before m.stack metric_info;
      total = count_valid m.before metric_info (datasize_rd hw_info) 0 (datacnt_rd hw_info);
    }

abbrev pub is_empty : Bytes → Bool
is_empty [] = true
is_empty (c ∷ text) = false

-- From the allocation of `s_config` on.
unfoldable pub fill_list : Types → Moment → Metric → ℕ → Context → Created
unfolding place
fill_list t m k n ctx =
    if m.config_ok
    then (elim (place t m.after k 0 n (begun ctx)) [
      | none ↦ overflow
      | some s ↦ created s.ctx s.config
    ])
    else enomem

unfoldable pub altra_create_sensor : Types → Moment → ℕ → Context → Created
unfolding fill_list
altra_create_sensor t m metric_info ctx =
    let k = metric_at t m metric_info in
    if k.type == t.hwmon_max
    then enodev
    else if is_empty k.label
    then enodev
    else elim (make_list m.list_ok k.type k.total ctx (ctx.room k.type)) [
      | none ↦ enomem
      | some listed ↦ fill_list t m k (datacnt_rd (header_at m metric_info)) listed
    ]
