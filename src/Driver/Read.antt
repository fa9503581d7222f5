-- ===== src/Driver/Read.antt =====
-- `altra_hwmon_read`, `altra_hwmon_read_labels` and `altra_sensor_is_valid` of module/altra-hwmon.c.
use wfey.Prelude.{
  ℕ, ◌*◌, ◌^◌, ◌≤◌, ◌<◌, ◌≡◌, ◌≢◌, ◌%◌, refl, is_some, Bool-cases, inl, inr, leb, Bool, true, false,
  ◌&&◌, ltb, arith,
}
use wfey.Prelude.Int.{ℤ, pos, negsuc, ltb_ℤ, to_u64}
use wfey.Driver.{
  Types, Registers, Context, Result, einval, value, altra_hwmon_read, altra_hwmon_read_labels,
  altra_sensor_is_valid,
}

abbrev pub is_value : Result → Bool
is_value einval = false
is_value (value v) = true

-- The range of an int.
abbrev pub IsInt : ℤ → Type 0
IsInt (pos n) = n < 2 ^ 31
IsInt (negsuc n) = n < 2 ^ 31

-- For a channel that an int holds, and at most 2^31 sensors of the type: a read gives a value exactly if the type is below the
-- number of types, and the channel is neither negative nor past the sensors of the type.
altra_hwmon_read-is_value :
    (t : Types) (ctx : Context) (r : Registers) (type : ℕ) (channel : ℤ)
    → IsInt channel
    → ctx.sensor_list_cnt type ≤ 2 ^ 31
    → is_value (altra_hwmon_read t ctx r type channel) ≡ (
        ltb type t.hwmon_max
        && (ltb_ℤ (negsuc 0) channel && ltb_ℤ channel (pos (ctx.sensor_list_cnt type))))
unfolding altra_hwmon_read
altra_hwmon_read-is_value t ctx r type (pos n) h c = ground arith
altra_hwmon_read-is_value t ctx r type (negsuc n) h c = ground arith

-- A channel of a type has a label exactly if it has a value.
altra_hwmon_read_labels-is_some :
    (t : Types) (ctx : Context) (r : Registers) (type : ℕ) (channel : ℤ)
    → is_some (altra_hwmon_read_labels t ctx type channel)
      ≡ is_value (altra_hwmon_read t ctx r type channel)
unfolding altra_hwmon_read altra_hwmon_read_labels
altra_hwmon_read_labels-is_some t ctx r type channel = elim (Bool-cases (leb t.hwmon_max type)) [
  | inl unknown ↦ rw unknown refl
  | inr known ↦ elim (Bool-cases (leb (ctx.sensor_list_cnt type) (to_u64 channel % 2 ^ 32))) [
    | inl past ↦ rw (known, past) refl
    | inr present ↦ rw (known, present) refl
  ]
]

-- A sensor with data that is not of 4 bytes counts as invalid whenever its value is a multiple of 2^32, also where it is not 0.
altra_sensor_is_valid-multiple :
    (r : Registers) (reg data_size k : ℕ)
    → data_size ≢ 4
    → r.read64 reg ≡ k * 2 ^ 32
    → altra_sensor_is_valid r reg data_size ≡ false
unfolding altra_sensor_is_valid
altra_sensor_is_valid-multiple r reg data_size k h e = ground arith
