-- ===== src/Text/Decimal.antt =====
-- `u64::to_string` and `str::parse::<u64>`.
pub mod Bounds
pub mod RoundTrip
use gachix.Prelude.{
  ℕ, zero, suc, ◌+◌, ◌-◌, ◌*◌, ◌/◌, ◌%◌, ◌^◌, ◌<◌, ◌≡◌, refl, Bool, true, false, ◌&&◌, List, [],
  ◌∷◌, ◌++◌, Result, ok, err, invalid_number, arith, leb, ltb, ◌==◌, if◌then◌else◌, and_then,
}
use gachix.Bytes.{Bytes}

-- The decimal digits in front of `out`; a 64-bit number has at most twenty.
unfoldable digits : ℕ → ℕ → Bytes → Bytes
digits zero n out = out
digits (suc fuel) n out =
    let longer = digits fuel (n / 10) ((b'0' + n % 10) ∷ out) in
    if ltb n 10 then (b'0' + n) ∷ out else longer

unfoldable pub show_u64 : ℕ → Bytes
unfolding digits
show_u64 n = digits 20 n []

-- The number that the digits continue.
unfoldable pub read_digits : ℕ → Bytes → Result ℕ
read_digits n [] = ok n
read_digits n (c ∷ s) =
    let rest = read_digits (n * 10 + (c - b'0')) s in
    if leb b'0' c && leb c b'9' then rest else err invalid_number

-- One overflow on the way is one at the end, since the number only grows.
unfoldable pub in_range : Result ℕ → Result ℕ
in_range (ok n) = if ltb n (2 ^ 64) then ok n else err invalid_number
in_range (err e) = err e

unfoldable pub read_unsigned : Bytes → Result ℕ
read_unsigned [] = err invalid_number
read_unsigned (c ∷ s) = in_range (read_digits 0 (c ∷ s))

unfoldable pub parse_u64 : Bytes → Result ℕ
unfolding read_unsigned
parse_u64 [] = err invalid_number
parse_u64 (c ∷ s) = if c == b'+' then read_unsigned s else read_unsigned (c ∷ s)
