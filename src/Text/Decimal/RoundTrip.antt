-- ===== src/Text/Decimal/RoundTrip.antt =====
-- A 64-bit number that is shown in decimal is read back.
use gachix.Prelude.{
  ℕ, zero, suc, ◌+◌, ◌-◌, ◌*◌, ◌/◌, ◌%◌, ◌^◌, ◌<◌, ◌≤◌, ◌≡◌, refl, ap, ◌∙◌, sym, inl, inr,
  Bool-cases, [], ◌∷◌, ok, arith, ltb, lt→ltb, All,
}
use gachix.Bytes.{Bytes}
use gachix.Text.Visible.{IsVisible}
use gachix.Text.Decimal.{digits, show_u64, read_digits, in_range, read_unsigned, parse_u64}

abbrev pub IsDigit : ℕ → Type 0
IsDigit c = (b'0' ≤ c) × (c ≤ b'9')

read_digits-step :
    (n c : ℕ) (s : Bytes) → IsDigit c → read_digits n (c ∷ s) ≡ read_digits (n * 10 + (c - b'0')) s
unfolding read_digits
read_digits-step n c s h = ground arith

-- With fuel for its digits, reading what was put in front of `out` is reading on from the number.
read_digits-digits :
    (f n : ℕ) (out : Bytes) → n < 10 ^ f → read_digits 0 (digits f n out) ≡ read_digits n out
unfolding digits
read_digits-digits zero n out h = ap (λ k. read_digits k out) (omega arith)
read_digits-digits (suc f) n out h = elim (Bool-cases (ltb n 10)) [
  | inl short ↦
      let size : n < 10 = ground arith in
      rw short (
        read_digits-step 0 (b'0' + n) out (omega arith, omega arith)
        ∙ ap (λ k. read_digits k out) (omega arith))
  | inr long ↦ rw long (
      read_digits-digits f (n / 10) ((b'0' + n % 10) ∷ out) (omega arith)
      ∙ read_digits-step (n / 10) (b'0' + n % 10) out (omega arith, omega arith)
      ∙ ap (λ k. read_digits k out) (omega arith))
]

abbrev pub Shown : Bytes → Type 0
Shown t = (c : ℕ) × (s : Bytes) × (t ≡ c ∷ s) × All IsDigit (c ∷ s)

-- One digit at least.
digits-Shown : (f n c : ℕ) (out : Bytes) → All IsDigit (c ∷ out) → Shown (digits f n (c ∷ out))
unfolding digits
digits-Shown zero n c out h = (c, out, refl, h)
digits-Shown (suc f) n c out h =
    let longer =
      digits-Shown f (n / 10) (b'0' + n % 10) (c ∷ out) ((omega arith, omega arith), h) in
    elim (Bool-cases (ltb n 10)) [
      | inl short ↦
          let size : n < 10 = ground arith in
          rw short (b'0' + n, c ∷ out, refl, ((omega arith, omega arith), h))
      | inr long ↦ rw long longer
    ]

pub show_u64-Shown : (n : ℕ) → Shown (show_u64 n)
unfolding show_u64 digits
show_u64-Shown n = elim (Bool-cases (ltb n 10)) [
  | inl short ↦
      let size : n < 10 = ground arith in
      rw (short, digits) (b'0' + n, [], refl, ((omega arith, omega arith), tt))
  | inr long ↦
      rw (long, digits)
        (digits-Shown 19 (n / 10) (b'0' + n % 10) [] ((omega arith, omega arith), tt))
]

pub digit-IsVisible : (c : ℕ) → IsDigit c → IsVisible c
digit-IsVisible c h = (omega arith, omega arith)

parse_u64-digits :
    (c : ℕ) (s : Bytes) → IsDigit c → parse_u64 (c ∷ s) ≡ in_range (read_digits 0 (c ∷ s))
unfolding parse_u64 read_unsigned
parse_u64-digits c s h = ground arith

read_digits-show_u64 : (n : ℕ) → n < 2 ^ 64 → read_digits 0 (show_u64 n) ≡ ok n
unfolding show_u64 read_digits
read_digits-show_u64 n h = read_digits-digits 20 n [] (omega arith)

in_range-eq : (n : ℕ) → n < 2 ^ 64 → in_range (ok n) ≡ ok n
unfolding in_range
in_range-eq n h = rw (lt→ltb n (2 ^ 64) h)

pub parse_u64-show_u64 : (n : ℕ) → n < 2 ^ 64 → parse_u64 (show_u64 n) ≡ ok n
parse_u64-show_u64 n h =
    let (c, s, shown, (digit, _)) = show_u64-Shown n in
    ap parse_u64 shown
    ∙ parse_u64-digits c s digit
    ∙ ap (λ t. in_range (read_digits 0 t)) (sym shown)
    ∙ ap in_range (read_digits-show_u64 n h)
    ∙ in_range-eq n h
