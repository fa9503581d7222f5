-- ===== src/Driver/Walk/Ready.antt =====
-- The walk over the metrics of module/altra-hwmon.c on a machine whose registers hold still and that has memory.
use wfey.Prelude.{
  ℕ, zero, suc, ◌+◌, ◌%◌, ◌^◌, ◌≤◌, ◌<◌, ◌≡◌, ◌≢◌, ◌⊎◌, inl, inr, refl, Bool, true, false, not,
  none, List, [], ◌∷◌, ◌++◌, ltb, ◌==◌, if◌then◌else◌, arith, Bool-cases, length, length-append,
  ◌∙◌,
}
use wfey.Driver.{Types, Context, info_reg}
use wfey.Driver.Create.{
  Moment, metric_at, is_empty, enodev, enomem, created, overflow, altra_create_sensor,
}
use wfey.Driver.Create.Sound.{IsSound}
use wfey.Driver.Create.Sensors.{altra_create_sensor-fits}
use wfey.Driver.Walk.{
  metrics_id_reg, metrics_id, metrics_info_reg, ver_rd, cnt_rd, hw_supported_ver, metric_hdrsize,
  Session, Channel, Walked, no_device, no_memory, fault, ready, end_of, Visit, stop, skip, give_up,
  keep, visit, next_start, walk, altra_hwmon_create_sensors,
}
use wfey.Driver.Walk.Bounds.{metric_start, IsOrderly, Visited, Passed, visit-Visited, start-low}

-- Both passes read the same, and all allocations succeed.
abbrev pub IsSteady : Moment → Type 0
IsSteady m = (m.before ≡ m.after) × (m.list_ok ≡ true) × (m.config_ok ≡ true)

-- A call does not run out of memory, and stays inside its lists.
create-steady :
    (t : Types) (m : Moment) (start : ℕ) (ctx : Context)
    → IsSteady m
    → ((type : ℕ) → ctx.room type ≡ none → ctx.sensor_list_cnt type ≡ 0)
    → (altra_create_sensor t m start ctx ≡ enodev)
      ⊎ ((ctx' : Context) × (config : ℕ → ℕ) × (altra_create_sensor t m start ctx
            ≡ created ctx' config))
unfolding altra_create_sensor
create-steady t m start ctx (same, list, config) fresh =
    elim (Bool-cases ((metric_at t m start).type == t.hwmon_max)) [
      | inl unknown ↦ inl (rw unknown refl)
      | inr known ↦ elim (Bool-cases (is_empty (metric_at t m start).label)) [
        | inl empty ↦ inl (rw (known, empty) refl)
        | inr named ↦
            let (ctx', cfg, e, _, _) =
              altra_create_sensor-fits t m start ctx fresh (known, named) list config
                (rw same (omega arith)) in
            inr (ctx', cfg, e)
      ]
    ]

-- A round does not give up.
visit-steady :
    (t : Types) (base_size : ℕ) (s : Session) (i hw_reg : ℕ) (ctx : Context)
    → IsSteady (s.moment i)
    → ((type : ℕ) → ctx.room type ≡ none → ctx.sensor_list_cnt type ≡ 0)
    → (w : Walked) → visit t base_size s i hw_reg ctx ≢ give_up w
unfolding visit
visit-steady t base_size s i hw_reg ctx steady fresh w =
    go (ltb base_size ((hw_reg + metric_hdrsize) % 2 ^ 32))
      (ltb base_size (end_of hw_reg ((s.seen i).read32 (hw_reg + info_reg))))
      (create-steady t (s.moment i) hw_reg ctx steady fresh)
  where
    go :
        (past beyond : Bool)
        → (altra_create_sensor t (s.moment i) hw_reg ctx ≡ enodev)
          ⊎ ((ctx' : Context) × (config : ℕ → ℕ) × (altra_create_sensor t (s.moment i) hw_reg ctx
                ≡ created ctx' config))
        → (if past
            then stop
            else if beyond
            then stop
            else (elim (altra_create_sensor t (s.moment i) hw_reg ctx) [
              | enodev ↦ skip
              | enomem ↦ give_up no_memory
              | overflow ↦ give_up fault
              | created ctx' config ↦
                  keep ctx'
                    (record { type = (metric_at t (s.moment i) hw_reg).type; config = config })
            ]))
          ≢ give_up w
    go true beyond c h = cc
    go false true c h = cc
    go false false (inl e) h = cc (rw e at h)
    go false false (inr (ctx', config, e)) h = cc (rw e at h)

module _ (t : Types) (base_size : ℕ) (s : Session) (small : base_size ≤ 2 ^ 31) where
  walk-ready :
      (i rounds : ℕ) (ctx : Context) (info : List Channel)
      → ((j : ℕ) → j < i + rounds → IsOrderly s j × IsSteady (s.moment j))
      → metric_start s.seen i ≤ 2 ^ 31 + 8
      → IsSound base_size ctx
      → (ctx' : Context) × (info' : List Channel) × (walk t base_size s i rounds
            (metric_start s.seen i)
            ctx
            info
          ≡ ready ctx' info')
        × (length info' ≤ length info + rounds)
  unfolding walk metric_start
  walk-ready i zero ctx info o low v = (ctx, info, refl, omega arith)
  walk-ready i (suc rounds) ctx info o low v =
      go (visit t base_size s i (metric_start s.seen i) ctx)
        (visit-Visited t base_size s small i ctx (o i (omega arith)).0 low v)
        (visit-steady t base_size s i (metric_start s.seen i) ctx (o i (omega arith)).1 v.fresh)
        (λ next k p.
          walk-ready (suc i) rounds next k (λ j lt. o j (omega arith))
            (start-low t base_size s small i p))
    where
      go :
          (w : Visit)
          → Visited t base_size s small i w
          → ((x : Walked) → w ≢ give_up x)
          → ((next : Context) (k : List Channel)
              → Passed t base_size s small i
              → IsSound base_size next
              → (ctx' : Context) × (info' : List Channel) × (walk t base_size s
                    (suc i)
                    rounds
                    (metric_start s.seen (suc i))
                    next
                    k
                  ≡ ready ctx' info')
                × (length info' ≤ length k + rounds))
          → (ctx' : Context) × (info' : List Channel) × ((elim w [
            | stop ↦ ready ctx info
            | skip ↦
                walk t base_size s (suc i) rounds (next_start s i (metric_start s.seen i)) ctx info
            | give_up result ↦ result
            | keep c channel ↦
                walk t base_size s
                  (suc i)
                  rounds
                  (next_start s i (metric_start s.seen i))
                  c
                  (info ++ channel ∷ [])
          ])
              ≡ ready ctx' info')
            × (length info' ≤ length info + suc rounds)
      go stop p n later = (ctx, info, refl, omega arith)
      go skip p n later =
          let (ctx', info', e, l) = later ctx info p v in (ctx', info', e, omega arith)
      go (give_up result) p n later = absurd (n result refl)
      go (keep c channel) (p, v') n later =
          let (ctx', info', e, l) = later c (info ++ channel ∷ []) p v' in
          (ctx', info', e, omega (arith, length-append info (channel ∷ [])))

past_guards :
    (a b c d : Bool) {w : Walked}
    → a ≡ true
    → b ≡ true
    → c ≡ true
    → d ≡ true
    → (if not a
        then no_device
        else if not b
        then no_device
        else if not c
        then no_memory
        else if not d
        then no_memory
        else w)
      ≡ w
past_guards a b c d h k l m = ground arith

-- With a table of the known version, memory, registers that hold still in each call, and metrics as above, the walk ends with the
-- sensors, and with at most as many channels as the table announces metrics: no write goes outside of an array.
pub altra_hwmon_create_sensors-ready :
    (t : Types) (base_size : ℕ) (s : Session) (ctx : Context)
    → base_size ≤ 2 ^ 31
    → s.table.read32 metrics_id_reg ≡ metrics_id
    → ver_rd (s.table.read32 metrics_info_reg) ≡ hw_supported_ver
    → s.channels_ok ≡ true
    → s.info_ok ≡ true
    → ((i : ℕ)
        → i < cnt_rd (s.table.read32 metrics_info_reg)
        → IsOrderly s i × IsSteady (s.moment i))
    → IsSound base_size ctx
    → (ctx' : Context) × (info : List Channel) × (altra_hwmon_create_sensors t base_size s ctx
        ≡ ready ctx' info)
      × (length info ≤ cnt_rd (s.table.read32 metrics_info_reg))
unfolding altra_hwmon_create_sensors metric_start
altra_hwmon_create_sensors-ready t base_size s ctx small id ver channels arrays o v =
    let (ctx', info, e, l) =
      walk-ready t base_size s small 0 (cnt_rd (s.table.read32 metrics_info_reg)) ctx []
        (λ j lt. o j (omega arith)) (omega arith) v in
    let known : (s.table.read32 metrics_id_reg == metrics_id) ≡ true = ground arith in
    let supported : (ver_rd (s.table.read32 metrics_info_reg) == hw_supported_ver) ≡ true =
      ground arith in
    (ctx', info, past_guards _ _ _ _ known supported channels arrays ∙ e, omega arith)
