-- ===== src/Nix/Signature/Parsed.antt =====
-- Which texts of private keys are read, and as what.
use gachix.Prelude.{
  ℕ, zero, suc, ◌+◌, ◌-◌, ◌<◌, ◌≤◌, ◌≡◌, ◌≢◌, refl, sym, ap, some, inl, inr, [], ◌∷◌, ◌++◌, All,
  Result, ok, err, panic, length, length-append, leb, leb→le, gt→leb, Bool-cases, true, false,
  arith,
}
use gachix.Bytes.{Bytes, bytes}
use gachix.Text.{split_once, drop, starts_with}
use gachix.Nix.Signature.{take, slice, try_into, key_of, from_str}

-- A byte other than a colon.
abbrev pub NoColon : ℕ → Type 0
NoColon c = c ≢ b':'

split_once-colon :
    (name rest : Bytes)
    → All NoColon name
    → split_once (bytes ":") (name ++ (b':' ∷ rest)) ≡ some (name, rest)
unfolding split_once starts_with bytes drop
split_once-colon [] rest h = refl
split_once-colon (c ∷ name) rest (other, h) = ground (arith, split_once-colon name rest h)

length-take : (n : ℕ) (bs : Bytes) → n ≤ length bs → length (take n bs) ≡ n
unfolding take
length-take zero bs h = refl
length-take (suc n) [] h = ground arith
length-take (suc n) (b ∷ bs) h = ap suc (length-take n bs (omega arith))

take-append : (xs ys : Bytes) → take (length xs) (xs ++ ys) ≡ xs
unfolding take
take-append [] ys = refl
take-append (x ∷ xs) ys = ap (λ t. x ∷ t) (take-append xs ys)

drop-append : (xs ys : Bytes) → drop (length xs) (xs ++ ys) ≡ ys
unfolding drop
drop-append [] ys = refl
drop-append (x ∷ xs) ys = drop-append xs ys

take-drop : (n : ℕ) (bs : Bytes) → take n bs ++ drop n bs ≡ bs
unfolding take drop
take-drop zero bs = refl
take-drop (suc n) [] = refl
take-drop (suc n) (b ∷ bs) = ap (λ t. b ∷ t) (take-drop n bs)

slice-append :
    (from to : ℕ) (xs ys zs : Bytes)
    → length xs ≡ from
    → length xs + length ys ≡ to
    → slice from to (xs ++ (ys ++ zs)) ≡ ok ys
unfolding slice
slice-append from to xs ys zs at_from at_to =
    let whole = length-append xs (ys ++ zs) in
    let parts = length-append ys zs in
    let within : leb to (length (xs ++ (ys ++ zs))) ≡ true = ground (arith, whole, parts, at_to) in
    let size : to - from ≡ length ys = omega (arith, at_from, at_to) in
    rw (within, size, sym at_from, drop-append xs (ys ++ zs), take-append ys zs)

try_into-ok : (n : ℕ) (bs : Bytes) → length bs ≡ n → try_into n bs ≡ ok bs
unfolding try_into
try_into-ok n bs h = ground (arith, h)

-- A text of a name without a colon, a colon and the encoding of bytes that begin with a seed of 32 bytes
-- and a public key of 32 bytes, is read as that name, that seed and that public key, whichever they are.
pub from_str-key :
    (decode : Bytes → Result Bytes) (name key_base64 seed public_key rest : Bytes)
    → All NoColon name
    → decode key_base64 ≡ ok (seed ++ (public_key ++ rest))
    → length seed ≡ 32
    → length public_key ≡ 32
    → from_str decode (name ++ (b':' ∷ key_base64))
      ≡ ok (record { name = name; seed = seed; public_key = public_key })
unfolding from_str key_of
from_str-key decode name key_base64 seed public_key rest plain decoded ls lp =
    let whole : [] ++ (seed ++ (public_key ++ rest)) ≡ seed ++ (public_key ++ rest) = refl in
    let first = slice-append 0 32 [] seed (public_key ++ rest) refl (omega (arith, ls)) in
    let second = slice-append 32 64 seed public_key rest ls (omega (arith, ls, lp)) in
    rw (
      from_str,
      key_of,
      split_once-colon name key_base64 plain,
      decoded,
      first,
      try_into-ok 32 seed ls,
      second,
      try_into-ok 32 public_key lp,
    )

key_of-panics : (name bs : Bytes) → length bs < 64 → key_of name bs ≡ err panic
unfolding key_of slice try_into take drop
key_of-panics name bs short = elim (Bool-cases (leb 32 (length bs))) [
  | inr shorter ↦ rw (key_of, slice, shorter)
  | inl enough ↦
      let first = length-take 32 bs (leb→le 32 (length bs) enough) in
      let beyond : leb 64 (length bs) ≡ false = gt→leb 64 (length bs) short in
      rw (key_of, slice, enough, try_into-ok 32 (take 32 bs) first, beyond)
]

-- A text of a name without a colon, a colon and the encoding of fewer than 64 bytes is a panic.
pub from_str-panics :
    (decode : Bytes → Result Bytes) (name key_base64 key_bytes : Bytes)
    → All NoColon name
    → decode key_base64 ≡ ok key_bytes
    → length key_bytes < 64
    → from_str decode (name ++ (b':' ∷ key_base64)) ≡ err panic
unfolding from_str
from_str-panics decode name key_base64 key_bytes plain decoded short =
    rw (
      from_str,
      split_once-colon name key_base64 plain,
      decoded,
      key_of-panics name key_bytes short,
    )
