-- ===== src/Driver/Walk.antt =====
-- `altra_hwmon_create_sensors` of module/altra-hwmon.c: the walk over the metrics. The reads of the hardware at each point of it
-- are arguments, so that registers may change at any time.
pub mod Bounds
pub mod Ready
pub mod Reads
use wfey.Prelude.{
  ℕ, zero, suc, ◌+◌, ◌*◌, ◌/◌, ◌%◌, ◌^◌, Bool, true, false, not, List, [], ◌∷◌, ◌++◌, ltb, ◌==◌,
  if◌then◌else◌,
}
use wfey.Driver.{Types, Registers, Context, info_reg, datasize_rd, datacnt_rd}
use wfey.Driver.Create.{
  Moment, metric_at, Created, enodev, enomem, created, overflow, altra_create_sensor,
}

abbrev pub metrics_id_reg : ℕ
metrics_id_reg = 0

abbrev pub metrics_id : ℕ
metrics_id = 0x304D5748

abbrev pub metrics_info_reg : ℕ
metrics_info_reg = 4

abbrev pub ver_rd : ℕ → ℕ
ver_rd x = x % 65536

abbrev pub cnt_rd : ℕ → ℕ
cnt_rd x = x / 65536 % 65536

abbrev pub hw_supported_ver : ℕ
hw_supported_ver = 1

abbrev pub metrics_hdrsize : ℕ
metrics_hdrsize = 8

abbrev pub metric_hdrsize : ℕ
metric_hdrsize = 24

-- What a call meets: the registers at the reads of the header of the table; whether the two arrays can be allocated; for each
-- round, the registers when the loop reads the metric's header, and what altra_create_sensor meets.
pub record Session : Type 0 where
  pub table : Registers
  pub channels_ok : Bool
  pub info_ok : Bool
  pub seen : ℕ → Registers
  pub moment : ℕ → Moment

-- `struct hwmon_channel_info`
pub record Channel : Type 0 where
  pub type : ℕ
  pub config : ℕ → ℕ

pub data Walked : Type 0 where
  no_device : Walked
  no_memory : Walked
  fault : Walked  -- a write outside of an array
  ready : Context → List Channel → Walked  -- the sensors, and `ctx->info`

-- `hw_end_reg`: where a metric's data ends, by its header.
abbrev pub end_of : ℕ → ℕ → ℕ
end_of hw_reg val = (hw_reg + metric_hdrsize + datasize_rd val * datacnt_rd val) % 2 ^ 32

-- `((hw_reg + 7) / 8) * 8`
abbrev pub aligned : ℕ → ℕ
aligned hw_reg = (hw_reg + 7) % 2 ^ 32 / 8 * 8

-- What the loop does in a round.
pub data Visit : Type 0 where
  stop : Visit
  skip : Visit
  give_up : Walked → Visit
  keep : Context → Channel → Visit

unfoldable pub visit : Types → ℕ → Session → ℕ → ℕ → Context → Visit
unfolding altra_create_sensor
visit t base_size s i hw_reg ctx =
    if ltb base_size ((hw_reg + metric_hdrsize) % 2 ^ 32)
    then stop
    else if ltb base_size (end_of hw_reg ((s.seen i).read32 (hw_reg + info_reg)))
    then stop
    else elim (altra_create_sensor t (s.moment i) hw_reg ctx) [
      | enodev ↦ skip
      | enomem ↦ give_up no_memory
      | overflow ↦ give_up fault
      | created ctx' config ↦
          keep ctx' (record { type = (metric_at t (s.moment i) hw_reg).type; config = config })
    ]

-- Where the metric behind the one at a register begins.
abbrev pub next_start : Session → ℕ → ℕ → ℕ
next_start s i hw_reg = aligned (end_of hw_reg ((s.seen i).read32 (hw_reg + info_reg)))

-- The loop from round `i` on, with `rounds` more at most.
unfoldable pub walk : Types → ℕ → Session → ℕ → ℕ → ℕ → Context → List Channel → Walked
unfolding visit
walk t base_size s i zero hw_reg ctx info = ready ctx info
walk t base_size s i (suc rounds) hw_reg ctx info = elim (visit t base_size s i hw_reg ctx) [
  | stop ↦ ready ctx info
  | skip ↦ walk t base_size s (suc i) rounds (next_start s i hw_reg) ctx info
  | give_up result ↦ result
  | keep ctx' channel ↦
      walk t base_size s (suc i) rounds (next_start s i hw_reg) ctx' (info ++ channel ∷ [])
]

unfoldable pub altra_hwmon_create_sensors : Types → ℕ → Session → Context → Walked
unfolding walk
altra_hwmon_create_sensors t base_size s ctx =
    let metrics_info = s.table.read32 metrics_info_reg in
    if not (s.table.read32 metrics_id_reg == metrics_id)
    then no_device
    else if not (ver_rd metrics_info == hw_supported_ver)
    then no_device
    else if not s.channels_ok
    then no_memory
    else if not s.info_ok
    then no_memory
    else walk t base_size s 0 (cnt_rd metrics_info) metrics_hdrsize ctx []
