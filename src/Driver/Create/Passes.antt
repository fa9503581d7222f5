-- ===== src/Driver/Create/Passes.antt =====
-- When the two passes of `altra_create_sensor` fit together.
use wfey.Prelude.{
  ℕ, zero, suc, ◌+◌, ◌-◌, ◌⊎◌, ◌≤◌, ◌<◌, ◌≡◌, refl, ◌∙◌, true, false, none, some, ltb, arith,
  Bool-cases, inl, inr,
}
use wfey.Driver.{Types, Registers, altra_sensor_is_valid, data_at, count_valid}
use wfey.Driver.Create.{Metric, Placing, placed, put, advance, place}

-- Room for `n` more sensors.
abbrev pub HasRoom : Metric → ℕ → Placing → Type 0
HasRoom k n s =
    (room : ℕ) × (s.ctx.room k.type ≡ some room)
    × (s.ctx.sensor_list_cnt k.type + n ≡ room)
    × (s.j + n ≡ k.total)

zero-or-positive : (n : ℕ) → (n ≡ 0) ⊎ (0 < n)
zero-or-positive zero = inl refl
zero-or-positive (suc n) = inr (omega arith)

put-HasRoom :
    (t : Types) (k : Metric) (i n : ℕ) (s : Placing)
    → 0 < n
    → HasRoom k n s
    → (put t k i s ≡ some (placed t k i s))
      × HasRoom k (n - 1) (placed t k i s)
      × ((placed t k i s).ctx.sensor_list_cnt k.type ≡ s.ctx.sensor_list_cnt k.type + 1)
unfolding put
put-HasRoom t k i n s p (room, e, c, l) =
    let free : ltb (s.ctx.sensor_list_cnt k.type) room ≡ true = ground arith in
    let free' : ltb s.j k.total ≡ true = ground arith in
    (rw (e, free, free') refl, (room, e, grind arith, omega arith), grind arith)

put-full : (t : Types) (k : Metric) (i : ℕ) (s : Placing) → HasRoom k 0 s → put t k i s ≡ none
unfolding put
put-full t k i s (room, e, c, l) =
    let full : ltb (s.ctx.sensor_list_cnt k.type) room ≡ false = ground arith in rw (e, full) refl

-- The body of the loop at a sensor, and where there is none.
advance-valid :
    (t : Types) (r : Registers) (k : Metric) (i : ℕ) (s : Placing)
    → altra_sensor_is_valid r (data_at k.start k.data_size i) k.data_size ≡ true
    → advance t r k i s ≡ put t k i s
unfolding advance
advance-valid t r k i s e = rw e refl

advance-invalid :
    (t : Types) (r : Registers) (k : Metric) (i : ℕ) (s : Placing)
    → altra_sensor_is_valid r (data_at k.start k.data_size i) k.data_size ≡ false
    → advance t r k i s ≡ some s
unfolding advance
advance-invalid t r k i s e = rw e refl

count-valid :
    (r : Registers) (k : Metric) (i n : ℕ)
    → altra_sensor_is_valid r (data_at k.start k.data_size i) k.data_size ≡ true
    → count_valid r k.start k.data_size i (suc n)
      ≡ suc (count_valid r k.start k.data_size (i + 1) n)
unfolding count_valid
count-valid r k i n e = rw e refl

total_count : (a b c d rest : ℕ) → d ≡ suc rest → b ≡ a + 1 → c ≡ b + rest → c ≡ a + d
total_count a b c d rest f g h = omega arith

-- The second pass succeeds if it finds no more sensors than there is room for.
pub place-fits :
    (t : Types) (r : Registers) (k : Metric) (i n room : ℕ) (s : Placing)
    → HasRoom k room s
    → count_valid r k.start k.data_size i n ≤ room
    → (s' : Placing) × (place t r k i n s ≡ some s')
      × (s'.ctx.sensor_list_cnt k.type
          ≡ s.ctx.sensor_list_cnt k.type + count_valid r k.start k.data_size i n)
unfolding place count_valid
place-fits t r k i zero room s h c = (s, refl, omega arith)
place-fits t r k i (suc n) room s h c =
    elim (Bool-cases (altra_sensor_is_valid r (data_at k.start k.data_size i) k.data_size)) [
      | inl valid ↦
          let fewer : suc (count_valid r k.start k.data_size (i + 1) n) ≤ room = rw valid at c in
          let (one, more, cnt) = put-HasRoom t k i room s (omega arith) h in
          let (s', e, cnt') =
            place-fits t r k (i + 1) n (room - 1) (placed t k i s) more (omega arith) in
          let here = advance-valid t r k i s valid ∙ one in
          (s', rw here e, total_count _ _ _ _ _ (count-valid r k i n valid) cnt cnt')
      | inr invalid ↦
          let (s', e, cnt) = place-fits t r k (i + 1) n room s h (rw invalid at c) in
          (s', rw (advance-invalid t r k i s invalid) e, rw invalid cnt)
    ]

pub place-overflow :
    (t : Types) (r : Registers) (k : Metric) (i n room : ℕ) (s : Placing)
    → HasRoom k room s
    → room < count_valid r k.start k.data_size i n
    → place t r k i n s ≡ none
unfolding place count_valid
place-overflow t r k i zero room s h c = absurd (omega arith)
place-overflow t r k i (suc n) room s h c =
    elim (Bool-cases (altra_sensor_is_valid r (data_at k.start k.data_size i) k.data_size)) [
      | inl valid ↦ elim (zero-or-positive room) [
        | inl full ↦ rw (advance-valid t r k i s valid ∙ put-full t k i s (rw full at h)) refl
        | inr free ↦
            let (one, more, cnt) = put-HasRoom t k i room s free h in
            let later : room < suc (count_valid r k.start k.data_size (i + 1) n) = rw valid at c in
            rw (valid, one)
              (place-overflow t r k (i + 1) n (room - 1) (placed t k i s) more (omega arith))
      ]
      | inr invalid ↦
          rw (advance-invalid t r k i s invalid)
            (place-overflow t r k (i + 1) n room s h (rw invalid at c))
    ]
