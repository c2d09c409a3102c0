-- ===== src/Text/Decimal/Bounds.antt =====
-- The numbers that parsing returns.
use gachix.Prelude.{ℕ, ◌≡◌, ◌<◌, ◌^◌, ◌==◌, Bool-cases, inl, inr, [], ◌∷◌, Result, ok, err, arith}
use gachix.Bytes.{Bytes}
use gachix.Text.Decimal.{in_range, read_unsigned, read_digits, parse_u64}

in_range-lt : (r : Result ℕ) (n : ℕ) → in_range r ≡ ok n → n < 2 ^ 64
unfolding in_range
in_range-lt (ok m) n h = ground arith
in_range-lt (err e) n h = cc

read_unsigned-lt : (s : Bytes) (n : ℕ) → read_unsigned s ≡ ok n → n < 2 ^ 64
unfolding read_unsigned
read_unsigned-lt [] n h = cc
read_unsigned-lt (c ∷ s) n h = in_range-lt (read_digits 0 (c ∷ s)) n h

pub parse_u64-lt : (s : Bytes) (n : ℕ) → parse_u64 s ≡ ok n → n < 2 ^ 64
unfolding parse_u64
parse_u64-lt [] n h = cc
parse_u64-lt (c ∷ s) n h = elim (Bool-cases (c == b'+')) [
  | inl plus ↦ read_unsigned-lt s n (rw plus at h)
  | inr other ↦ read_unsigned-lt (c ∷ s) n (rw other at h)
]
