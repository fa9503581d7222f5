-- ===== src/Driver/Create/Sound.antt =====
-- The invariant of the sensor lists of module/altra-hwmon.c, and that altra_create_sensor keeps it.
use wfey.Prelude.{
  ℕ, ℕ_discrete, zero, suc, ◌+◌, ◌≤◌, ◌<◌, ◌≡◌, refl, Bool, true, false, Option, none, some, ltb,
  ◌&&◌, ◌==◌, if◌then◌else◌, update, arith, >>=?-eq-some, some_eq,
}
use mathlib.Core.Path.{subst}
use mathlib.Core.Logic.{ite}
use wfey.Driver.{
  Types, Registers, SensorItem, Context, altra_sensor_is_valid, datasize_rd, datacnt_rd, data_at,
}
use wfey.Driver.Create.{
  Metric, Placing, within, placed, new_item, put, advance, place, make_list, begun, Moment,
  header_at, metric_at, created, enodev, enomem, overflow, fill_list, altra_create_sensor, is_empty,
}

-- The bytes of a read of a sensor.
abbrev pub width : ℕ → ℕ
width data_size = if data_size == 4 then 4 else 8

-- A list that was never allocated has no sensors; a list has room for its sensors; and the register of each sensor lies within
-- the registers, the whole width of its read.
pub record IsSound (base_size : ℕ) (ctx : Context) : Type 0 where
  pub fresh : (type : ℕ) → ctx.room type ≡ none → ctx.sensor_list_cnt type ≡ 0
  pub roomy : (type k : ℕ) → ctx.room type ≡ some k → ctx.sensor_list_cnt type ≤ k
  pub ranged :
      (type i : ℕ)
      → i < ctx.sensor_list_cnt type
      → (ctx.sensor_list type i).hw_reg + width (ctx.sensor_list type i).data_size ≤ base_size

created_ctx : {a b : Context} {f g : ℕ → ℕ} → created a f ≡ created b g → a ≡ b
created_ctx h = cc

-- What holds of two families at each index holds after an update of both at one.
update_two {ℓ κ} :
    {A : Type ℓ} {B : Type κ} (Q : A → B → Type 0) (f : ℕ → A) (g : ℕ → B) (i : ℕ) (a : A) (b : B)
    → Q a b
    → ((j : ℕ) → Q (f j) (g j))
    → (j : ℕ) → Q (update f i a j) (update g i b j)
update_two Q f g i a b new old j =
    elim (ℕ_discrete i j) as (λ d. Q (ite d a (f j)) (ite d b (g j))) [ yes e ↦ new | no e ↦ old j ]

-- The sensors of a type, as many as are counted.
abbrev Ranged : ℕ → ℕ → (ℕ → SensorItem) → Type 0
Ranged base_size n items =
    (i : ℕ) → i < n → (items i).hw_reg + width (items i).data_size ≤ base_size

Ranged-add :
    (base_size n : ℕ) (items : ℕ → SensorItem) (item : SensorItem)
    → item.hw_reg + width item.data_size ≤ base_size
    → Ranged base_size n items
    → Ranged base_size (n + 1) (update items n item)
Ranged-add base_size n items item h r i lt =
    elim (ℕ_discrete n i)
      as (λ d. (ite d item (items i)).hw_reg + width (ite d item (items i)).data_size ≤ base_size) [
        | yes e ↦ h
        | no e ↦ r i (omega arith)
      ]

module _ (base_size : ℕ) where
  placed-IsSound :
      (t : Types) (k : Metric) (i : ℕ) (s : Placing)
      → data_at k.start k.data_size i + width k.data_size ≤ base_size
      → within (s.ctx.sensor_list_cnt k.type) (s.ctx.room k.type) ≡ true
      → IsSound base_size s.ctx
      → IsSound base_size (placed t k i s).ctx
  placed-IsSound t k i s h w v = record {
    fresh = λ type e. grind arith;
    roomy = λ type n e. grind arith;
    ranged =
        update_two (Ranged base_size) s.ctx.sensor_list_cnt s.ctx.sensor_list k.type _ _
          (Ranged-add base_size (s.ctx.sensor_list_cnt k.type) (s.ctx.sensor_list k.type)
            (new_item k i s.j) h (v.ranged k.type))
          v.ranged;
  }

  advance-IsSound :
      (t : Types) (r : Registers) (k : Metric) (i : ℕ) (s : Placing) {s' : Placing}
      → data_at k.start k.data_size i + width k.data_size ≤ base_size
      → advance t r k i s ≡ some s'
      → IsSound base_size s.ctx
      → IsSound base_size s'.ctx
  unfolding advance put
  advance-IsSound t r k i s {s'} h e v =
      go (altra_sensor_is_valid r (data_at k.start k.data_size i) k.data_size)
        (within (s.ctx.sensor_list_cnt k.type) (s.ctx.room k.type)) refl (ltb s.j k.total) e
    where
      go :
          (valid free : Bool)
          → within (s.ctx.sensor_list_cnt k.type) (s.ctx.room k.type) ≡ free
          → (more : Bool)
          → (if valid then (if free && more then some (placed t k i s) else none) else some s)
            ≡ some s'
          → IsSound base_size s'.ctx
      go false free f more q = subst (λ x. IsSound base_size x.ctx) (some_eq q) v
      go true false f more q = cc
      go true true f false q = cc
      go true true f true q =
          subst (λ x. IsSound base_size x.ctx) (some_eq q) (placed-IsSound t k i s h f v)

  place-IsSound :
      (t : Types) (r : Registers) (k : Metric) (i n : ℕ) (s : Placing) {s' : Placing}
      → ((j : ℕ) → j < i + n → data_at k.start k.data_size j + width k.data_size ≤ base_size)
      → place t r k i n s ≡ some s'
      → IsSound base_size s.ctx
      → IsSound base_size s'.ctx
  unfolding place
  place-IsSound t r k i zero s h e v = subst (λ x. IsSound base_size x.ctx) (some_eq e) v
  place-IsSound t r k i (suc n) s h e v =
      let (next, a, b) = >>=?-eq-some (advance t r k i s) (place t r k (i + 1) n) e in
      place-IsSound t r k (i + 1) n next (λ j lt. h j (omega arith)) b
        (advance-IsSound t r k i s (h i (omega arith)) a v)

  make_list-IsSound :
      (ok : Bool) (type total : ℕ) (ctx : Context) (room : Option ℕ) {listed : Context}
      → ctx.room type ≡ room
      → make_list ok type total ctx room ≡ some listed
      → IsSound base_size ctx
      → IsSound base_size listed
  make_list-IsSound true type total ctx none c e v = subst (IsSound base_size) (some_eq e) (record {
    fresh = λ j q. grind arith;
    roomy = λ j n q. grind (arith, v.fresh, v.roomy);
    ranged = v.ranged;
  })
  make_list-IsSound true type total ctx (some k) c e v =
      subst (IsSound base_size) (some_eq e)
        (record { fresh = λ j q. grind arith; roomy = λ j n q. grind arith; ranged = v.ranged })
  make_list-IsSound false type total ctx none c e v = subst (IsSound base_size) (some_eq e) v
  make_list-IsSound false type total ctx (some k) c e v = cc

  fill_list-IsSound :
      (t : Types) (m : Moment) (k : Metric) (n : ℕ) (ctx : Context) {ctx' : Context}
      {config : ℕ → ℕ}
      → ((i : ℕ) → i < n → data_at k.start k.data_size i + width k.data_size ≤ base_size)
      → fill_list t m k n ctx ≡ created ctx' config
      → IsSound base_size ctx
      → IsSound base_size ctx'
  unfolding fill_list
  fill_list-IsSound t m k n ctx {ctx'} {config} h e v =
      go m.config_ok (place t m.after k 0 n (begun ctx)) refl e
    where
      go :
          (ok : Bool) (o : Option Placing)
          → place t m.after k 0 n (begun ctx) ≡ o
          → (if ok then (elim o [ none ↦ overflow | some s ↦ created s.ctx s.config ]) else enomem)
            ≡ created ctx' config
          → IsSound base_size ctx'
      go false o p q = cc
      go true none p q = cc
      go true (some s) p q =
          subst (IsSound base_size) (created_ctx q)
            (place-IsSound t m.after k 0 n (begun ctx) (λ j lt. h j (omega arith)) p v)

  -- A call keeps the invariant, if the data of the metric lies within the registers.
  pub altra_create_sensor-IsSound :
      (t : Types) (m : Moment) (start : ℕ) (ctx : Context) {ctx' : Context} {config : ℕ → ℕ}
      → ((i : ℕ)
          → i < datacnt_rd (header_at m start)
          → data_at start (datasize_rd (header_at m start)) i
              + width (datasize_rd (header_at m start))
            ≤ base_size)
      → altra_create_sensor t m start ctx ≡ created ctx' config
      → IsSound base_size ctx
      → IsSound base_size ctx'
  unfolding altra_create_sensor
  altra_create_sensor-IsSound t m start ctx {ctx'} {config} h e v =
      go ((metric_at t m start).type == t.hwmon_max) (is_empty (metric_at t m start).label)
        (make_list m.list_ok (metric_at t m start).type (metric_at t m start).total ctx
          (ctx.room (metric_at t m start).type))
        refl e
    where
      go :
          (unknown nameless : Bool) (o : Option Context)
          → make_list m.list_ok
              (metric_at t m start).type
              (metric_at t m start).total
              ctx
              (ctx.room (metric_at t m start).type)
            ≡ o
          → (if unknown then enodev else if nameless then enodev else (elim o [
            | none ↦ enomem
            | some listed ↦
                fill_list t m (metric_at t m start) (datacnt_rd (header_at m start)) listed
          ]))
            ≡ created ctx' config
          → IsSound base_size ctx'
      go true nameless o p q = cc
      go false true o p q = cc
      go false false none p q = cc
      go false false (some listed) p q =
          fill_list-IsSound t m (metric_at t m start) (datacnt_rd (header_at m start)) listed h q (
            make_list-IsSound m.list_ok (metric_at t m start).type (metric_at t m start).total ctx
              (ctx.room (metric_at t m start).type) refl p v)
