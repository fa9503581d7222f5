-- ===== src/Prelude/Text.antt =====
-- Text as lists of bytes, with what `strncmp`, `%d` and `sscanf` do on it.
pub mod Digits
use Prim.Native.Char.{code}
use Prim.Native.String.{String}
use Prim.Native.Nat.{ℕ, zero, suc, ◌+◌, ◌-◌, ◌*◌, ◌/◌, ◌%◌}
use mathlib.Core.Bool.{Bool, true, false, ◌&&◌, ◌||◌}
use mathlib.Core.Option.{Option, none, some}
use mathlib.Core.List.{List, [], ◌∷◌}
use wfey.Prelude.Tests.{ltb, leb, ◌==◌, if◌then◌else◌}
use wfey.Prelude.Int.{ℤ, pos, sub_ℕ}

abbrev pub Bytes : Type 0
Bytes = List ℕ

-- The bytes of an ASCII literal.
abbrev pub codes : String → Bytes
codes String.[] = []
codes (String.◌∷◌ c s) = code c ∷ codes s

-- `strncmp(text, prefix, strlen(prefix)) == 0`
unfoldable pub has_prefix : Bytes → Bytes → Bool
has_prefix [] text = true
has_prefix (p ∷ prefix) [] = false
has_prefix (p ∷ prefix) (t ∷ text) = p == t && has_prefix prefix text

-- The text behind a prefix.
unfoldable pub strip_prefix : Bytes → Bytes → Option Bytes
strip_prefix [] text = some text
strip_prefix (p ∷ prefix) [] = none
strip_prefix (p ∷ prefix) (t ∷ text) =
    let rest = strip_prefix prefix text in if p == t then rest else none

abbrev is_space : ℕ → Bool
is_space c = c == 32 || (leb 9 c && leb c 13)

abbrev pub is_digit : ℕ → Bool
is_digit c = leb 48 c && leb c 57

-- White space in a format, and before a number.
unfoldable pub skip_space : Bytes → Bytes
skip_space [] = []
skip_space (c ∷ text) = let rest = skip_space text in if is_space c then rest else c ∷ text

-- `fgets` with room for `n` bytes behind which a NUL fits: the text up to the first newline, which is kept.
unfoldable pub first_line : ℕ → Bytes → Bytes
first_line zero text = []
first_line (suc n) [] = []
first_line (suc n) (c ∷ text) = let rest = first_line n text in if c == 10 then c ∷ [] else c ∷ rest

-- The number that the digits at the front add to `acc`.
unfoldable pub digits_from : ℕ → Bytes → ℕ
digits_from acc [] = acc
digits_from acc (c ∷ text) =
    let rest = digits_from (acc * 10 + (c - 48)) text in if is_digit c then rest else acc

unfoldable pub scan_digits : Bytes → Option ℕ
unfolding digits_from
scan_digits [] = none
scan_digits (c ∷ text) = if is_digit c then some (digits_from 0 (c ∷ text)) else none

-- A sign, if there is one, and digits.
unfoldable pub scan_signed : Bytes → Option ℤ
unfolding scan_digits
scan_signed [] = none
scan_signed (c ∷ text) =
    if c == 45
    then elim (scan_digits text) [ none ↦ none | some n ↦ some (sub_ℕ 0 n) ]
    else if c == 43
    then elim (scan_digits text) [ none ↦ none | some n ↦ some (pos n) ]
    else elim (scan_digits (c ∷ text)) [ none ↦ none | some n ↦ some (pos n) ]

-- `%d`, for a number that is not negative; more fuel than the number has digits.
decimal_fuel : ℕ → ℕ → Bytes → Bytes
decimal_fuel zero n rest = rest
decimal_fuel (suc f) n rest =
    let more = decimal_fuel f (n / 10) ((48 + n % 10) ∷ rest) in
    if ltb n 10 then (48 + n) ∷ rest else more

unfoldable pub decimal : ℕ → Bytes
unfolding decimal_fuel
decimal n = decimal_fuel (n + 1) n []
