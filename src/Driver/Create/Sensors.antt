-- ===== src/Driver/Create/Sensors.antt =====
-- What `altra_create_sensor` of module/altra-hwmon.c makes of a metric.
use wfey.Prelude.{
  ◌++◌, ℕ, ◌+◌, ◌≤◌, ◌<◌, ◌≡◌, ◌∙◌, ap, refl, true, false, Option, none, some, ◌==◌, update, arith,
}
use wfey.Driver.{Types, Registers, Context, datasize_rd, datacnt_rd, count_valid}
use wfey.Driver.Create.{
  Metric, Moment, header_at, make_list, begun, fill_list, created, overflow, metric_at, is_empty,
  altra_create_sensor,
}
use wfey.Driver.Create.Listed.{sensors_of, added, items_found, place-listed}
use wfey.Driver.Create.Passes.{HasRoom, place-fits, place-overflow}

-- A type whose list was never allocated has no sensors.
abbrev pub IsAllocated : Context → Type 0
IsAllocated ctx = (type : ℕ) → ctx.room type ≡ none → ctx.sensor_list_cnt type ≡ 0

-- A known unit, and a label.
abbrev pub HasHeader : Types → Metric → Type 0
HasHeader t k = ((k.type == t.hwmon_max) ≡ false) × (is_empty k.label ≡ false)

-- The valid sensors of a metric, by its header, when its registers are read.
abbrev pub sensors_found : Moment → Registers → ℕ → ℕ
sensors_found m registers metric_info =
    let hw_info = header_at m metric_info in
    count_valid registers metric_info (datasize_rd hw_info) 0 (datacnt_rd hw_info)

make_list-HasRoom :
    (k : Metric) (ctx : Context) (room : Option ℕ)
    → ctx.room k.type ≡ room
    → (room ≡ none → ctx.sensor_list_cnt k.type ≡ 0)
    → (listed : Context) × (make_list true k.type k.total ctx room ≡ some listed)
      × HasRoom k k.total (begun listed)
      × (listed.sensor_list_cnt ≡ ctx.sensor_list_cnt)
      × (listed.sensor_list ≡ ctx.sensor_list)
make_list-HasRoom k ctx none e h = (
  record ctx { room = update ctx.room k.type (some k.total) },
  refl,
  (k.total, grind arith, omega (arith, h refl), omega arith),
  refl,
  refl,
)
make_list-HasRoom k ctx (some n) e h = (
  record ctx { room = update ctx.room k.type (some (ctx.sensor_list_cnt k.type + k.total)) },
  refl,
  (ctx.sensor_list_cnt k.type + k.total, grind arith, refl, omega arith),
  refl,
  refl,
)

-- For a metric with a known unit and a label, when memory can be allocated and the second pass finds no more sensors than the
-- first: all writes stay inside the lists; the sensors that the second pass finds are appended, in their order and with their label,
-- scale factor, size and register, to the list of their type, whose other sensors stay as they are; and the lists of all other
-- types stay as they are.
pub altra_create_sensor-fits :
    (t : Types) (m : Moment) (metric_info : ℕ) (ctx : Context)
    → IsAllocated ctx
    → HasHeader t (metric_at t m metric_info)
    → m.list_ok ≡ true
    → m.config_ok ≡ true
    → sensors_found m m.after metric_info ≤ sensors_found m m.before metric_info
    → (ctx' : Context) × (config : ℕ → ℕ) × (altra_create_sensor t m metric_info ctx
        ≡ created ctx' config)
      × (ctx'.sensor_list_cnt ((metric_at t m metric_info).type)
          ≡ ctx.sensor_list_cnt ((metric_at t m metric_info).type)
            + sensors_found m m.after metric_info)
      × ((type : ℕ)
          → sensors_of ctx' type
            ≡ sensors_of ctx type
              ++ added ((metric_at t m metric_info).type) type (
                  items_found m.after
                    (metric_at t m metric_info)
                    0
                    (datacnt_rd (header_at m metric_info))
                    0))
unfolding altra_create_sensor fill_list
altra_create_sensor-fits t m start ctx h (known, named) list config fewer =
    let k = metric_at t m start in
    let (listed, made, room, same, lists) =
      make_list-HasRoom k ctx (ctx.room k.type) refl (h k.type) in
    let (s, e, cnt) =
      place-fits t m.after k 0 (datacnt_rd (header_at m start)) k.total (begun listed) room fewer in
    (
      s.ctx,
      s.config,
      rw (known, named, list, made, config, e) refl,
      cnt ∙ ap (λ c. c k.type + sensors_found m m.after start) same,
      λ type.
          place-listed t m.after k 0 (datacnt_rd (header_at m start)) (begun listed) s e type
          ∙ rw (same, lists) refl,
    )

-- For such a metric, when memory can be allocated and the second pass finds more sensors than the first, for which the lists were
-- allocated: it writes behind the end of a list.
pub altra_create_sensor-overflow :
    (t : Types) (m : Moment) (metric_info : ℕ) (ctx : Context)
    → IsAllocated ctx
    → HasHeader t (metric_at t m metric_info)
    → m.list_ok ≡ true
    → m.config_ok ≡ true
    → sensors_found m m.before metric_info < sensors_found m m.after metric_info
    → altra_create_sensor t m metric_info ctx ≡ overflow
unfolding altra_create_sensor fill_list
altra_create_sensor-overflow t m start ctx h (known, named) list config more =
    let k = metric_at t m start in
    let (listed, made, room, same, lists) =
      make_list-HasRoom k ctx (ctx.room k.type) refl (h k.type) in
    let e =
      place-overflow t m.after k 0 (datacnt_rd (header_at m start)) k.total (begun listed) room
        more in
    rw (known, named, list, made, config, e) refl
