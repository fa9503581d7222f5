-- ===== src/Driver/Walk/Reads.antt =====
-- Reads of the sensors that the walk of module/altra-hwmon.c leaves.
use wfey.Prelude.{
  ℕ, ◌+◌, ◌%◌, ◌^◌, ◌≤◌, ◌≡◌, refl, ◌==◌, leb, if◌then◌else◌, arith, Bool-cases, inl, inr,
}
use wfey.Prelude.Int.{ℤ, to_u64}
use wfey.Driver.{Types, Registers, SensorItem, Context, altra_hwmon_read}
use wfey.Driver.Create.Sound.{IsSound, width}

-- Registers that may differ, but not below `base_size`.
abbrev pub AgreeWithin : ℕ → Registers → Registers → Type 0
AgreeWithin base_size r r' =
    ((reg : ℕ) → reg + 4 ≤ base_size → r.read32 reg ≡ r'.read32 reg)
    × ((reg : ℕ) → reg + 8 ≤ base_size → r.read64 reg ≡ r'.read64 reg)

abbrev raw : Registers → SensorItem → ℕ
raw r item = if item.data_size == 4 then r.read32 item.hw_reg else r.read64 item.hw_reg

raw-within :
    (base_size : ℕ) (r r' : Registers) (item : SensorItem)
    → AgreeWithin base_size r r'
    → item.hw_reg + width item.data_size ≤ base_size
    → raw r item ≡ raw r' item
raw-within base_size r r' item (a32, a64) h = elim (Bool-cases (item.data_size == 4)) [
  | inl four ↦ rw four (a32 item.hw_reg (rw four at h))
  | inr other ↦ rw other (a64 item.hw_reg (rw other at h))
]

-- With sound lists, a read reads registers below `base_size` only.
pub read-within :
    (t : Types) (base_size : ℕ) (ctx : Context) (r r' : Registers) (type : ℕ) (channel : ℤ)
    → IsSound base_size ctx
    → AgreeWithin base_size r r'
    → altra_hwmon_read t ctx r type channel ≡ altra_hwmon_read t ctx r' type channel
unfolding altra_hwmon_read
read-within t base_size ctx r r' type channel v a = elim (Bool-cases (leb t.hwmon_max type)) [
  | inl unknown ↦ rw unknown refl
  | inr known ↦ elim (Bool-cases (leb (ctx.sensor_list_cnt type) (to_u64 channel % 2 ^ 32))) [
    | inl past ↦ rw (known, past) refl
    | inr present ↦
        let same =
          raw-within base_size r r' (ctx.sensor_list type (to_u64 channel % 2 ^ 32)) a
            (v.ranged type (to_u64 channel % 2 ^ 32) (ground arith)) in
        rw (known, present, same) refl
  ]
]
