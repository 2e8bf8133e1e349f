-- ===== src/Text/Decimal.antt =====
-- `to_string` and `parse` of the integer types: `u64`, `u128` and `i64`.
pub mod Laws
use ldk_server.Prelude.{
  ℕ, zero, suc, ◌+◌, ◌-◌, ◌*◌, ◌/◌, ◌%◌, ◌^◌, true, false, Option, none, some, [], ◌∷◌, ltb, leb,
  ◌==◌, if◌then◌else◌, opt_map,
}
use ldk_server.Prelude.Int.{ℤ, pos, negsuc}
use ldk_server.Text.Basic.{Text, is_digit}

-- The digits of `n` in front of `rest`, with fuel; `suc n` rounds are enough.
show_digits : ℕ → ℕ → Text → Text
show_digits zero n rest = rest
show_digits (suc f) n rest = elim (ltb n 10) [
  | true ↦ (b'0' + n) ∷ rest
  | false ↦ show_digits f (n / 10) ((b'0' + n % 10) ∷ rest)
]

-- `to_string` of an unsigned integer.
unfoldable pub show_nat : ℕ → Text
unfolding show_digits
show_nat n = show_digits (suc n) n []

-- `to_string` of a signed integer.
unfoldable pub show_int : ℤ → Text
unfolding show_nat
show_int (pos n) = show_nat n
show_int (negsuc n) = b'-' ∷ show_nat (suc n)

-- The loop of `from_str_radix(10)`: a character that is no digit and an overflow are errors.
parse_digits : ℕ → ℕ → Text → Option ℕ
parse_digits top n [] = some n
parse_digits top n (c ∷ s) =
    let m = n * 10 + (c - b'0') in
    let rest = parse_digits top m s in
    if is_digit c then (if leb m top then rest else none) else none

parse_number : ℕ → Text → Option ℕ
parse_number top [] = none
parse_number top (c ∷ s) = parse_digits top 0 (c ∷ s)

-- `parse` of an unsigned integer of at most `top`: a leading `+` is allowed.
unfoldable pub parse_unsigned : ℕ → Text → Option ℕ
unfolding parse_digits parse_number
parse_unsigned top [] = none
parse_unsigned top (c ∷ s) = if c == b'+' then parse_number top s else parse_number top (c ∷ s)

negate : ℕ → ℤ
negate zero = pos 0
negate (suc n) = negsuc n

-- `parse::<i64>`.
unfoldable pub parse_i64 : Text → Option ℤ
unfolding parse_digits parse_number negate
parse_i64 [] = none
parse_i64 (c ∷ s) =
    if c == b'+'
    then opt_map pos (parse_number (2 ^ 63 - 1) s)
    else if c == b'-'
    then opt_map negate (parse_number (2 ^ 63) s)
    else opt_map pos (parse_number (2 ^ 63 - 1) (c ∷ s))

abbrev pub u64_max : ℕ
u64_max = 2 ^ 64 - 1

abbrev pub u128_max : ℕ
u128_max = 2 ^ 128 - 1
