-- ===== src/Driver/Labels.antt =====
-- The labels that module/altra-hwmon.c prints, as wfey_hwmon.c reads them.
use wfey.Prelude.{
  ℕ, zero, suc, ◌^◌, ◌≤◌, ◌<◌, ◌≡◌, refl, ◌∙◌, ap, some, [], ◌∷◌, ◌++◌, ltb, ltb→lt, arith, length,
  Bool-cases, inl, inr,
}
use wfey.Prelude.Int.{pos}
use wfey.Prelude.Text.{Bytes, codes, decimal, digits_from, scan_signed, strip_prefix, skip_space}
use wfey.Prelude.Text.Digits.{
  AllDigits, IsCons, HasDigits, digits_from-decimal, decimal-AllDigits, length-decimal,
  decimal-IsCons, scan_signed-digits, skip_space-digits, AllDigits-NoNewline, first_line-append,
}
use wfey.Driver.{first_bytes, padded, sensor_label}
use wfey.Hwmon.{scan_label}

-- The digits of a number `j`, `k` of them at most, as the scan needs them.
record IsNumber (k j : ℕ) (text : Bytes) : Type 0 where
  digits : AllDigits text
  cons : IsCons text
  short : length text ≤ k
  reads : digits_from 0 (text ++ 10 ∷ []) ≡ j

decimal-IsNumber : (k j : ℕ) → HasDigits k j → IsNumber (suc k) j (decimal j)
decimal-IsNumber k j h = record {
  digits = decimal-AllDigits j;
  cons = decimal-IsCons j;
  short = length-decimal k j h;
  reads = digits_from-decimal j (10 ∷ []) refl;
}

-- A zero in front.
zero-IsNumber : (k j : ℕ) (text : Bytes) → IsNumber k j text → IsNumber (suc k) j (48 ∷ text)
unfolding digits_from
zero-IsNumber k j text n = record {
  digits = (omega arith, omega arith, n.digits);
  cons = tt;
  short = omega arith;
  reads = n.reads;
}

weaken : (k l j : ℕ) (text : Bytes) → k ≤ l → IsNumber k j text → IsNumber l j text
weaken k l j text h n = record {
  digits = n.digits;
  cons = n.cons;
  short = omega arith;
  reads = n.reads;
}

padded-IsNumber : (j : ℕ) → HasDigits 6 j → IsNumber 7 j (padded j)
unfolding padded
padded-IsNumber j h = elim (Bool-cases (ltb j 10)) [
  | inl one ↦ rw one (
      weaken 3 7 j _ (omega arith)
        (zero-IsNumber 2 j _ (zero-IsNumber 1 j _ (decimal-IsNumber 0 j (ltb→lt j 10 one)))))
  | inr more ↦ elim (Bool-cases (ltb j 100)) [
    | inl two ↦
        rw (more, two)
          (weaken 3 7 j _ (omega arith)
            (zero-IsNumber 2 j _ (decimal-IsNumber 1 j (omega (arith, ltb→lt j 100 two)))))
    | inr three ↦ rw (more, three) (decimal-IsNumber 6 j h)
  ]
]

first_bytes-all : (n : ℕ) (text : Bytes) → length text ≤ n → first_bytes n text ≡ text
unfolding first_bytes
first_bytes-all zero [] h = refl
first_bytes-all zero (c ∷ text) h = absurd (omega arith)
first_bytes-all (suc n) [] h = refl
first_bytes-all (suc n) (c ∷ text) h = rw (first_bytes-all n text (omega arith)) refl

-- The label of the `j`-th sensor of the metric for the energy of the cores.
abbrev pub core_label : ℕ → Bytes
core_label j = sensor_label (codes "Core Energy") j

core_label-eq : (j : ℕ) → HasDigits 6 j → core_label j ≡ codes "Core Energy " ++ padded j
unfolding sensor_label
core_label-eq j h =
    first_bytes-all 19 (codes "Core Energy " ++ padded j)
      (omega (arith, (padded-IsNumber j h).short))

-- Of a number of at most seven digits, the label of a core's sensor is read back as the number, with the newline that the kernel
-- puts behind it.
pub scan_label-core_label :
    (j : ℕ) → j < 10 ^ 7 → scan_label (core_label j ++ 10 ∷ []) ≡ some (pos j)
unfolding scan_label strip_prefix skip_space
scan_label-core_label j h =
    let n = padded-IsNumber j (omega arith) in
    let whole =
      first_line-append 147 (padded j) (AllDigits-NoNewline (padded j) n.digits)
        (omega (arith, n.short)) in
    rw (core_label-eq j (omega arith)) (
      rw whole (
        ap scan_signed (skip_space-digits (padded j) (10 ∷ []) n.cons n.digits)
        ∙ (scan_signed-digits (padded j) (10 ∷ []) n.cons n.digits
            ∙ ap (λ k. some (pos k)) n.reads)))
