-- ===== src/CpuInfo/Reads.antt =====
-- What the program makes of the scripts' lines.
use wfey.Prelude.{
  none-ne-some, ℕ, zero, suc, ◌+◌, ◌*◌, ◌%◌, ◌^◌, ◌≤◌, ◌<◌, ◌≡◌, refl, sym, ap, ◌∙◌, ◌↔◌, ◌>>=?◌,
  false, none, some, [], ◌∷◌, ◌++◌, length, arith,
}
use wfey.Prelude.Int.{pos, to_u64}
use wfey.Prelude.Text.{Bytes, decimal, first_line, scan_signed}
use wfey.Prelude.Text.Digits.{
  IsCons, NoNewline, decimal-AllDigits, decimal-IsCons, length-decimal, skip_space-digits,
  scan_signed-decimal, AllDigits-NoNewline,
}
use wfey.CpuInfo.{counted, read_line, atoi, read_counts, get_cpu_info, total_cpu}
use wfey.Main.Cores.{plan_cores, plan_cores-exits, no_cores_plan}

-- A line that fits, with more behind it.
first_line-rest :
    (n : ℕ) (text rest : Bytes)
    → NoNewline text
    → length text < n
    → first_line n (text ++ 10 ∷ rest) ≡ text ++ 10 ∷ []
unfolding first_line
first_line-rest zero text rest h l = absurd (omega arith)
first_line-rest (suc n) [] rest h l = refl
first_line-rest (suc n) (c ∷ text) rest h l =
    rw (h.0, first_line-rest n text rest h.1 (omega arith)) refl

read_line-cons : (c : ℕ) (text : Bytes) → read_line (c ∷ text) ≡ some (first_line 254 (c ∷ text))
unfolding read_line
read_line-cons c text = refl

read_line-IsCons :
    (text rest : Bytes)
    → IsCons text
    → read_line (text ++ rest) ≡ some (first_line 254 (text ++ rest))
read_line-IsCons [] rest h = absurd h
read_line-IsCons (c ∷ text) rest h = read_line-cons c (text ++ rest)

-- The line of a number.
read_line-decimal :
    (n : ℕ) (rest : Bytes)
    → n < 2 ^ 31
    → read_line (decimal n ++ 10 ∷ rest) ≡ some (decimal n ++ 10 ∷ [])
read_line-decimal n rest h =
    let short : length (decimal n) ≤ 10 = length-decimal 9 n (omega arith) in
    read_line-IsCons (decimal n) (10 ∷ rest) (decimal-IsCons n)
    ∙ ap some (
        first_line-rest 254 (decimal n) rest (AllDigits-NoNewline (decimal n) (decimal-AllDigits n))
          (omega arith))

atoi-decimal : (n : ℕ) → atoi (decimal n ++ 10 ∷ []) ≡ pos n
unfolding atoi
atoi-decimal n =
    let scanned =
      ap scan_signed
        (skip_space-digits (decimal n) (10 ∷ []) (decimal-IsCons n) (decimal-AllDigits n))
      ∙ scan_signed-decimal n (10 ∷ []) refl in
    rw (scanned, atoi) refl

read_counts-lines :
    (a b x y : Bytes)
    → read_line a ≡ some x
    → read_line b ≡ some y
    → read_counts a b false ≡ counted (to_u64 (atoi x)) (to_u64 (atoi y))
unfolding read_counts
read_counts-lines a b x y h k = rw (h, k, read_counts) refl

product_fits : (a b : ℕ) → a < 2 ^ 31 → b < 2 ^ 31 → a * b < 2 ^ 62
product_fits a b h k = grind arith

-- When each script prints a number that an int holds, on a line of its own and whatever behind it, and all calls on the pipes
-- succeed, the number of cores is the product.
total_cpu-decimal :
    (cores sockets : ℕ) (rest rest' : Bytes)
    → cores < 2 ^ 31
    → sockets < 2 ^ 31
    → total_cpu (
        get_cpu_info
          record { output = some (decimal cores ++ 10 ∷ rest); close_fails = false }
          record { output = some (decimal sockets ++ 10 ∷ rest'); close_fails = false })
      ≡ some (cores * sockets)
unfolding get_cpu_info total_cpu
total_cpu-decimal cores sockets rest rest' hc hs =
    let lines =
      read_counts-lines _ _ _ _ (read_line-decimal cores rest hc)
        (read_line-decimal sockets rest' hs) in
    let whole : cores % 2 ^ 64 ≡ cores = omega arith in
    let whole' : sockets % 2 ^ 64 ≡ sockets = omega arith in
    let product : cores * sockets % 2 ^ 64 ≡ cores * sockets =
      omega (arith, product_fits cores sockets hc hs) in
    rw (lines, atoi-decimal cores, atoi-decimal sockets, whole, whole', product) refl

-- `main` exits for a total of cores exactly if they are too few, and not none at all.
exits_for :
    (s total : ℕ)
    → s < 2 ^ 31
    → total < 2 ^ 31
    → (plan_cores (pos 1) (pos s) total ≡ none) ↔ (0 < total) × (total < s + 2)
exits_for s zero hs ht =
    let (plan, planned, _, _, _) = no_cores_plan s hs in
    ((λ e. absurd (none-ne-some (sym e ∙ planned))), λ h. absurd (omega arith))
exits_for s (suc t) hs ht =
    let (few, exits) = plan_cores-exits s (suc t) hs (omega arith) ht in
    ((λ e. (omega arith, few e)), λ h. exits h.1)

-- From the scripts to the plan: when they print the numbers of cores and of sockets, on a line of their own, and all calls on the
-- pipes succeed, then `main`, with one processor and `s` sources, exits exactly if the runner, the processor and the sources
-- are more than the product, and this is not 0. The numbers, the product and `s` are held by an int.
pub plan_cores-printed :
    (cores sockets s : ℕ) (rest rest' : Bytes)
    → cores < 2 ^ 31
    → sockets < 2 ^ 31
    → s < 2 ^ 31
    → cores * sockets < 2 ^ 31
    → ((total_cpu (
            get_cpu_info
              record { output = some (decimal cores ++ 10 ∷ rest); close_fails = false }
              record { output = some (decimal sockets ++ 10 ∷ rest'); close_fails = false })
          >>=? plan_cores (pos 1) (pos s))
        ≡ none)
      ↔ (0 < cores * sockets) × (cores * sockets < s + 2)
plan_cores-printed cores sockets s rest rest' hc hk hs hp =
    rw (total_cpu-decimal cores sockets rest rest' hc hk) (exits_for s (cores * sockets) hs hp)
