-- ===== src/Driver/Probe.antt =====
-- `altra_hwmon_probe` of module/altra-hwmon.c. What the kernel's functions answer is an argument.
use mathlib.Core.Path.{subst}
use wfey.Prelude.{
  ℕ, ◌%◌, ◌^◌, ◌≤◌, ◌<◌, ◌≡◌, ◌≢◌, refl, Bool, true, false, not, Option, none, some, List, [], ◌==◌,
  if◌then◌else◌, arith, some_eq,
}
use wfey.Driver.{Types, Context, Registers, altra_hwmon_read}
use wfey.Driver.Walk.Reads.{AgreeWithin, read-within}
use wfey.Prelude.Int.{ℤ}
use wfey.Driver.Create.Sound.{IsSound}
use wfey.Driver.Walk.{
  metrics_info_reg, cnt_rd, Session, Channel, Walked, no_device, no_memory, fault, ready,
  altra_hwmon_create_sensors,
}
use wfey.Driver.Walk.Bounds.{IsOrderly, altra_hwmon_create_sensors-IsSound}

abbrev pub altra_hwmon_ver1 : ℕ
altra_hwmon_ver1 = 1

-- A pointer of the kernel: an error, with its number, is one that IS_ERR tells.
pub data Pointer : Type 0 where
  valid : Pointer
  null : Pointer
  error : ℕ → Pointer

-- What the functions that the probe calls answer: devm_kzalloc; platform_get_resource, with the size of the resource;
-- acpi_match_device, with the driver's data; devm_ioremap_resource; memremap; devm_hwmon_device_register_with_info.
pub record Device : Type 0 where
  pub context_ok : Bool
  pub resource : Option ℕ
  pub acpi_id : Option ℕ
  pub ioremap : Pointer
  pub memremap : Pointer
  pub registration : Pointer

pub data Errno : Type 0 where
  enomem : Errno
  einval : Errno
  enodev : Errno
  answered : ℕ → Errno

pub data Probed : Type 0 where
  failed : Errno → Probed
  registered : Context → List Channel → Probed
  crash : Probed  -- a read through a null pointer, or a write outside of an array

-- The context as it is allocated.
abbrev pub zeroed : Context
zeroed = record {
  room = λ type. none;
  sensor_list_cnt = λ type. 0;
  sensor_list = λ type i. record { label = []; scale_factor = 0; data_size = 0; hw_reg = 0 };
}

-- From `altra_hwmon_create_sensors` on.
unfoldable pub finish_probe : Pointer → Walked → Probed
finish_probe registration no_device = failed enodev
finish_probe registration no_memory = failed enomem
finish_probe registration fault = crash
finish_probe valid (ready ctx info) = registered ctx info
finish_probe null (ready ctx info) = registered ctx info
finish_probe (error e) (ready ctx info) = failed (answered e)

-- From the mapping of the registers on; the first read is of the identification.
unfoldable pub use_mapping : Types → Device → Session → ℕ → Pointer → Probed
unfolding finish_probe altra_hwmon_create_sensors
use_mapping t d s base_size (error e) = failed (answered e)
use_mapping t d s base_size null = crash
use_mapping t d s base_size valid =
    finish_probe d.registration (altra_hwmon_create_sensors t base_size s zeroed)

unfoldable pub altra_hwmon_probe : Types → Device → Session → Probed
unfolding use_mapping
altra_hwmon_probe t d s = if not d.context_ok then failed enomem else elim d.resource [
  | none ↦ failed einval
  | some size ↦ elim d.acpi_id [
    | none ↦ failed einval
    | some version ↦
        use_mapping t d s (size % 2 ^ 32)
          (if version == altra_hwmon_ver1 then d.ioremap else d.memremap)
  ]
]

pub zeroed-IsSound : (base_size : ℕ) → IsSound base_size zeroed
zeroed-IsSound base_size = record {
  fresh = λ type e. refl;
  roomy = λ type k e. cc;
  ranged = λ type i lt. absurd (omega arith);
}

registered_ctx : {a b : Context} {k l : List Channel} → registered a k ≡ registered b l → a ≡ b
registered_ctx h = cc

-- The registers of a device are those of a resource of 2^31 bytes at most, and the metrics are as the walk needs them.
abbrev pub IsMapped : ℕ → Device → Session → Type 0
IsMapped size d s =
    (d.resource ≡ some size)
    × (size ≤ 2 ^ 31)
    × ((i : ℕ) → i < cnt_rd (s.table.read32 metrics_info_reg) → IsOrderly s i)

module _ (t : Types) (d : Device) (s : Session) (size : ℕ) (mapped : IsMapped size d s) where
  finish_probe-IsSound :
      (w : Walked) {ctx : Context} {info : List Channel}
      → altra_hwmon_create_sensors t (size % 2 ^ 32) s zeroed ≡ w
      → (registration : Pointer) → finish_probe registration w ≡ registered ctx info
      → IsSound size ctx
  unfolding finish_probe
  finish_probe-IsSound no_device e r q = cc
  finish_probe-IsSound no_memory e r q = cc
  finish_probe-IsSound fault e r q = cc
  finish_probe-IsSound (ready c k) {ctx} {info} e r q = subst (IsSound size) (kept r q) walked
    where
      in_32 : size % 2 ^ 32 ≡ size
      in_32 = omega (arith, mapped.1)

      walked : IsSound size c
      walked =
          subst (λ b. IsSound b c) in_32
            (altra_hwmon_create_sensors-IsSound t (size % 2 ^ 32) s zeroed c k
              (omega (arith, mapped.1)) mapped.2 (zeroed-IsSound (size % 2 ^ 32)) e)

      kept : (r : Pointer) → finish_probe r (ready c k) ≡ registered ctx info → c ≡ ctx
      kept valid q = registered_ctx q
      kept null q = registered_ctx q
      kept (error n) q = cc

  use_mapping-IsSound :
      (p : Pointer) {ctx : Context} {info : List Channel}
      → use_mapping t d s (size % 2 ^ 32) p ≡ registered ctx info
      → IsSound size ctx
  unfolding use_mapping
  use_mapping-IsSound (error n) q = cc
  use_mapping-IsSound null q = cc
  use_mapping-IsSound valid q = finish_probe-IsSound _ refl d.registration q

  probe-IsSound :
      {ctx : Context} {info : List Channel}
      → altra_hwmon_probe t d s ≡ registered ctx info
      → IsSound size ctx
  unfolding altra_hwmon_probe
  probe-IsSound {ctx} {info} e = go d.context_ok d.resource d.acpi_id mapped.0 e
    where
      go :
          (ok : Bool) (resource acpi : Option ℕ)
          → resource ≡ some size
          → (if not ok then failed enomem else (elim resource [
            | none ↦ failed einval
            | some n ↦ elim acpi [
              | none ↦ failed einval
              | some version ↦
                  use_mapping t d s
                    (n % 2 ^ 32)
                    (if version == altra_hwmon_ver1 then d.ioremap else d.memremap)
            ]
          ]))
            ≡ registered ctx info
          → IsSound size ctx
      go false resource acpi r q = cc
      go true none acpi r q = cc
      go true (some n) none r q = cc
      go true (some n) (some version) r q =
          use_mapping-IsSound (if version == altra_hwmon_ver1 then d.ioremap else d.memremap)
            (rw (some_eq r) at q)

  -- Once the probe has registered the device, no read of a channel depends on anything outside of the resource. Its size is 2^31
  -- at most, the headers of the metrics do not change during the probe, and each datum has 4 bytes or at least 8.
  pub altra_hwmon_probe-read :
      {ctx : Context} {info : List Channel} (r r' : Registers) (type : ℕ) (channel : ℤ)
      → altra_hwmon_probe t d s ≡ registered ctx info
      → AgreeWithin size r r'
      → altra_hwmon_read t ctx r type channel ≡ altra_hwmon_read t ctx r' type channel
  altra_hwmon_probe-read {ctx} r r' type channel e =
      read-within t size ctx r r' type channel (probe-IsSound e)

-- memremap reports a failure by a null pointer, which IS_ERR does not tell: on a device of any other version than 1, a failed
-- mapping ends in a read through the null pointer, whatever the metrics are.
altra_hwmon_probe-unmapped :
    (t : Types) (d : Device) (s : Session) (size version : ℕ)
    → d.context_ok ≡ true
    → d.resource ≡ some size
    → d.acpi_id ≡ some version
    → version ≢ altra_hwmon_ver1
    → d.memremap ≡ null
    → altra_hwmon_probe t d s ≡ crash
unfolding altra_hwmon_probe
altra_hwmon_probe-unmapped t d s size version ok sized found newer unmapped =
    go d.context_ok d.resource d.acpi_id d.memremap ok sized found unmapped
  where
    other : (version == altra_hwmon_ver1) ≡ false
    other = ground arith

    go :
        (ok : Bool) (resource acpi : Option ℕ) (p : Pointer)
        → ok ≡ true
        → resource ≡ some size
        → acpi ≡ some version
        → p ≡ null
        → (if not ok then failed enomem else (elim resource [
          | none ↦ failed einval
          | some n ↦ elim acpi [
            | none ↦ failed einval
            | some v ↦
                use_mapping t d s (n % 2 ^ 32) (if v == altra_hwmon_ver1 then d.ioremap else p)
          ]
        ]))
          ≡ crash
    go true (some n) (some v) null a b c e = rw (some_eq c, other) refl
    go false resource acpi p a b c e = cc
    go true none acpi p a b c e = cc
    go true (some n) none p a b c e = cc
    go true (some n) (some v) valid a b c e = cc
    go true (some n) (some v) (error m) a b c e = cc
