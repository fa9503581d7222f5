-- ===== src/Driver/Walk/Bounds.antt =====
-- Where the sensors that the walk over the metrics of module/altra-hwmon.c leaves lie.
use mathlib.Core.Path.{subst}
use wfey.Prelude.{
  ℕ, zero, suc, ◌+◌, ◌*◌, ◌%◌, ◌^◌, ◌≤◌, ◌<◌, ◌≡◌, ◌≢◌, ◌⊎◌, refl, Bool, true, false, not, List, [],
  ◌∷◌, ◌++◌, ltb, ◌==◌, if◌then◌else◌, arith,
}
use wfey.Driver.{Types, Registers, Context, info_reg, datasize_rd, datacnt_rd, data_at}
use wfey.Driver.Create.{
  header_at, metric_at, Created, enodev, enomem, created, overflow, altra_create_sensor,
}
use wfey.Driver.Create.Sound.{IsSound, width, altra_create_sensor-IsSound}
use wfey.Driver.Walk.{
  metrics_id_reg, metrics_id, metrics_info_reg, ver_rd, cnt_rd, hw_supported_ver, metrics_hdrsize,
  metric_hdrsize, Session, Channel, no_device, no_memory, fault, ready, end_of, aligned, Visit,
  stop, skip, give_up, keep, visit, next_start, walk, altra_hwmon_create_sensors,
}

size_bound : (size cnt : ℕ) → size < 256 → cnt < 65536 → size * cnt ≤ 255 * 65535
size_bound size cnt h k = grind arith

next_fits : (i size cnt : ℕ) → i < cnt → i * size + size ≤ size * cnt
next_fits i size cnt h = grind arith

ltb-false : {a b : ℕ} → ltb a b ≡ false → b ≤ a
ltb-false h = ground arith

width-le : (size : ℕ) → (size ≡ 4) ⊎ (8 ≤ size) → width size ≤ size
width-le size w = ground arith

-- The data of a metric that passes both checks of the walk lies within the registers, if each datum has 4 bytes or at least 8.
metric_fits :
    (base_size start size cnt i : ℕ)
    → base_size ≤ 2 ^ 31
    → start ≤ 2 ^ 31 + 8
    → size < 256
    → cnt < 65536
    → (size ≡ 4) ⊎ (8 ≤ size)
    → (start + metric_hdrsize + size * cnt) % 2 ^ 32 ≤ base_size
    → i < cnt
    → data_at start size i + width size ≤ base_size
metric_fits base_size start size cnt i b s z c w e lt =
    let bound = size_bound size cnt z c in
    let fits = next_fits i size cnt lt in let room = width-le size w in omega arith

-- Where the metrics begin, by the headers that the loop reads.
unfoldable pub metric_start : (ℕ → Registers) → ℕ → ℕ
metric_start seen zero = metrics_hdrsize
metric_start seen (suc i) =
    let start = metric_start seen i in aligned (end_of start ((seen i).read32 (start + info_reg)))

-- The header of a metric reads the same in altra_create_sensor as in the loop, and its data are of 4 bytes, or of at least 8.
abbrev pub IsOrderly : Session → ℕ → Type 0
IsOrderly s i =
    (header_at (s.moment i) (metric_start s.seen i)
      ≡ (s.seen i).read32 (metric_start s.seen i + info_reg))
    × ((datasize_rd (header_at (s.moment i) (metric_start s.seen i)) ≡ 4)
        ⊎ (8 ≤ datasize_rd (header_at (s.moment i) (metric_start s.seen i))))

ready_ctx : {a b : Context} {k l : List Channel} → ready a k ≡ ready b l → a ≡ b
ready_ctx h = cc

aligned-le : (n : ℕ) → aligned n ≤ n + 7
aligned-le n = omega arith

module _ (t : Types) (base_size : ℕ) (s : Session) (small : base_size ≤ 2 ^ 31) where
  -- Where the data of the metric of a round ends.
  abbrev pub end_at : ℕ → ℕ
  end_at i = end_of (metric_start s.seen i) ((s.seen i).read32 (metric_start s.seen i + info_reg))

  abbrev pub Passed : ℕ → Type 0
  Passed i = end_at i ≤ base_size

  -- A call in the loop keeps the invariant.
  round-IsSound :
      (i : ℕ) (ctx : Context) {ctx' : Context} {config : ℕ → ℕ}
      → IsOrderly s i
      → metric_start s.seen i ≤ 2 ^ 31 + 8
      → end_of (metric_start s.seen i) ((s.seen i).read32 (metric_start s.seen i + info_reg))
        ≤ base_size
      → altra_create_sensor t (s.moment i) (metric_start s.seen i) ctx ≡ created ctx' config
      → IsSound base_size ctx
      → IsSound base_size ctx'
  round-IsSound i ctx (same, sized) low fits e v =
      let start = metric_start s.seen i in
      let header = header_at (s.moment i) start in
      let fits' : end_of start header ≤ base_size = rw same fits in
      altra_create_sensor-IsSound base_size t (s.moment i) start ctx
        (λ j lt.
          metric_fits base_size start (datasize_rd header) (datacnt_rd header) j small low
            (omega arith) (omega arith) sized fits' lt)
        e v

  -- What a round says about the metric that it goes past.
  abbrev pub Visited : ℕ → Visit → Type 0
  Visited i stop = Unit
  Visited i (give_up w) = (ctx : Context) (info : List Channel) → w ≢ ready ctx info
  Visited i skip = Passed i
  Visited i (keep ctx' channel) = Passed i × IsSound base_size ctx'

  pub visit-Visited :
      (i : ℕ) (ctx : Context)
      → IsOrderly s i
      → metric_start s.seen i ≤ 2 ^ 31 + 8
      → IsSound base_size ctx
      → Visited i (visit t base_size s i (metric_start s.seen i) ctx)
  unfolding visit
  visit-Visited i ctx o low v =
      go (ltb base_size ((metric_start s.seen i + metric_hdrsize) % 2 ^ 32))
        (ltb base_size (end_at i)) refl
        (altra_create_sensor t (s.moment i) (metric_start s.seen i) ctx) refl
    where
      go :
          (past beyond : Bool)
          → ltb base_size (end_at i) ≡ beyond
          → (c : Created) → altra_create_sensor t (s.moment i) (metric_start s.seen i) ctx ≡ c
          → Visited i (
              if past then stop else if beyond then stop else (elim c [
                | enodev ↦ skip
                | enomem ↦ give_up no_memory
                | overflow ↦ give_up fault
                | created ctx' config ↦ keep ctx' (record {
                  type = (metric_at t (s.moment i) (metric_start s.seen i)).type;
                  config = config;
                })
              ]))
      go true beyond b c e = tt
      go false true b c e = tt
      go false false b enodev e = ltb-false b
      go false false b enomem e = λ k l h. cc
      go false false b overflow e = λ k l h. cc
      go false false b (created ctx' config) e =
          (ltb-false b, round-IsSound i ctx o low (ltb-false b) e v)

  pub start-low : (i : ℕ) → Passed i → metric_start s.seen (suc i) ≤ 2 ^ 31 + 8
  unfolding metric_start
  start-low i h = omega (arith, aligned-le (end_at i))

  walk-IsSound :
      (i rounds : ℕ) (ctx : Context) (info : List Channel) {ctx' : Context} {info' : List Channel}
      → ((j : ℕ) → j < i + rounds → IsOrderly s j)
      → metric_start s.seen i ≤ 2 ^ 31 + 8
      → walk t base_size s i rounds (metric_start s.seen i) ctx info ≡ ready ctx' info'
      → IsSound base_size ctx
      → IsSound base_size ctx'
  unfolding walk metric_start
  walk-IsSound i zero ctx info o low e v = subst (IsSound base_size) (ready_ctx e) v
  walk-IsSound i (suc rounds) ctx info {ctx'} {info'} o low e v =
      go (visit t base_size s i (metric_start s.seen i) ctx)
        (visit-Visited i ctx (o i (omega arith)) low v)
        (λ next k p. walk-IsSound (suc i) rounds next k (λ j lt. o j (omega arith)) (start-low i p))
        e
    where
      go :
          (w : Visit)
          → Visited i w
          → ((next : Context) (k : List Channel)
              → Passed i
              → walk t base_size s (suc i) rounds (metric_start s.seen (suc i)) next k
                ≡ ready ctx' info'
              → IsSound base_size next
              → IsSound base_size ctx')
          → (elim w [
            | stop ↦ ready ctx info
            | skip ↦
                walk t base_size s (suc i) rounds (next_start s i (metric_start s.seen i)) ctx info
            | give_up result ↦ result
            | keep c channel ↦
                walk t base_size s
                  (suc i)
                  rounds
                  (next_start s i (metric_start s.seen i))
                  c
                  (info ++ channel ∷ [])
          ])
            ≡ ready ctx' info'
          → IsSound base_size ctx'
      go stop p later q = subst (IsSound base_size) (ready_ctx q) v
      go skip p later q = later ctx info p q v
      go (give_up result) p later q = absurd (p ctx' info' q)
      go (keep c channel) (p, v') later q = later c (info ++ channel ∷ []) p q v'

-- The sensors that the walk leaves, from lists that are not allocated yet, lie within the registers: the reads of all channels
-- do. The registers have 2^31 bytes at most; and each metric that the table announces has a header that does not change during the
-- walk, with data of 4 bytes or of at least 8.
pub altra_hwmon_create_sensors-IsSound :
    (t : Types) (base_size : ℕ) (s : Session) (ctx ctx' : Context) (info : List Channel)
    → base_size ≤ 2 ^ 31
    → ((i : ℕ) → i < cnt_rd (s.table.read32 metrics_info_reg) → IsOrderly s i)
    → IsSound base_size ctx
    → altra_hwmon_create_sensors t base_size s ctx ≡ ready ctx' info
    → IsSound base_size ctx'
unfolding altra_hwmon_create_sensors metric_start
altra_hwmon_create_sensors-IsSound t base_size s ctx ctx' info small o v e =
    go (not (s.table.read32 metrics_id_reg == metrics_id))
      (not (ver_rd (s.table.read32 metrics_info_reg) == hw_supported_ver)) (not s.channels_ok)
      (not s.info_ok) e
  where
    go :
        (a b c d : Bool)
        → (if a
            then no_device
            else if b
            then no_device
            else if c
            then no_memory
            else if d
            then no_memory
            else walk t base_size s 0
                (cnt_rd (s.table.read32 metrics_info_reg))
                metrics_hdrsize
                ctx
                [])
          ≡ ready ctx' info
        → IsSound base_size ctx'
    go true b c d q = cc
    go false true c d q = cc
    go false false true d q = cc
    go false false false true q = cc
    go false false false false q =
        walk-IsSound t base_size s small 0 (cnt_rd (s.table.read32 metrics_info_reg)) ctx []
          (λ j lt. o j (omega arith)) (omega arith) q v
