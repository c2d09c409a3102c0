-- ===== src/Nar/Decode/Read.antt =====
-- The readers of the decoder on strings that were written.
use gachix.Prelude.{
  ℕ, zero, suc, ◌-◌, ◌%◌, ◌^◌, ◌<◌, ◌≡◌, refl, inl, inr, true, some, List, [], ◌∷◌, ◌++◌, length,
  replicate, length-replicate, ok, arith, append_assoc, ltb, Bool-cases, ==_refl, gt→leb,
}
use gachix.Bytes.{Bytes, bytes_eq_refl}
use gachix.Bytes.LittleEndian.{to_le_bytes, length-to_le_bytes, from_le_bytes-to_le_bytes}
use gachix.Bytes.Utf8.{is_utf8}
use gachix.Nar.Format.{padding, padding_some, padding_none, padded, written}
use gachix.Nar.Decode.{
  take_exact, all_zero, read_exact, read_padding, read_expect, read_bytes_padded, read_utf8_padded,
}

take_exact-append : (xs rest : Bytes) → take_exact (length xs) (xs ++ rest) ≡ some (xs, rest)
unfolding take_exact
take_exact-append [] rest = refl
take_exact-append (x ∷ xs) rest = rw (take_exact-append xs rest)

all_zero-replicate : (n : ℕ) → all_zero (replicate n 0) ≡ true
unfolding all_zero
all_zero-replicate zero = refl
all_zero-replicate (suc n) = all_zero-replicate n

module _ {Repo : Type 0} where
  pub read_exact-append :
      (n : ℕ) (xs rest : Bytes) (r : Repo)
      → length xs ≡ n
      → read_exact n (xs ++ rest, r) ≡ (ok xs, (rest, r))
  unfolding read_exact
  read_exact-append n xs rest r h = rw (← h, take_exact-append xs rest)

  read_padding-eq :
      (n : ℕ) (rest : Bytes) (r : Repo) → read_padding n (padding n ++ rest, r) ≡ (ok tt, (rest, r))
  unfolding read_padding
  read_padding-eq n rest r = elim (Bool-cases (ltb 0 (n % 8))) [
    | inl more ↦ rw (
      more,
      padding_some n more,
      read_exact-append _ _ _ _ (length-replicate (8 - n % 8) 0),
      all_zero-replicate,
    )
    | inr full ↦ rw (full, padding_none n full)
  ]

  -- The eight bytes of the length come first.
  read_length :
      (s : Bytes) (ts : List Bytes) (rest : Bytes) (r : Repo)
      → read_exact 8 (written (s ∷ ts) rest, r)
        ≡ (ok (to_le_bytes (length s)), (s ++ (padding (length s) ++ written ts rest), r))
  unfolding written padded
  read_length s ts rest r =
      rw (append_assoc, append_assoc)
        (read_exact-append 8 (to_le_bytes (length s)) _ r (length-to_le_bytes (length s)))

  -- A string that was written is read as what is expected.
  pub read_expect-written :
      (s : Bytes) (ts : List Bytes) (rest : Bytes) (r : Repo)
      → length s < 2 ^ 63
      → read_expect s (written (s ∷ ts) rest, r) ≡ (ok tt, (written ts rest, r))
  unfolding read_expect
  read_expect-written s ts rest r h = rw (
    read_length s ts rest r,
    from_le_bytes-to_le_bytes (length s) (omega arith),
    ==_refl (length s),
    read_exact-append (length s) s (padding (length s) ++ written ts rest) r refl,
    bytes_eq_refl s,
    read_padding-eq (length s) (written ts rest) r,
  )

  -- A string that was written is read back.
  pub read_bytes_padded-written :
      (s : Bytes) (ts : List Bytes) (rest : Bytes) (r : Repo)
      → length s < 2 ^ 63
      → read_bytes_padded (written (s ∷ ts) rest, r) ≡ (ok s, (written ts rest, r))
  unfolding read_bytes_padded
  read_bytes_padded-written s ts rest r h = rw (
    read_length s ts rest r,
    from_le_bytes-to_le_bytes (length s) (omega arith),
    gt→leb (2 ^ 63) (length s) h,
    read_exact-append (length s) s (padding (length s) ++ written ts rest) r refl,
    read_padding-eq (length s) (written ts rest) r,
  )

  pub read_utf8_padded-written :
      (s : Bytes) (ts : List Bytes) (rest : Bytes) (r : Repo)
      → is_utf8 s ≡ true
      → length s < 2 ^ 63
      → read_utf8_padded (written (s ∷ ts) rest, r) ≡ (ok s, (written ts rest, r))
  unfolding read_utf8_padded
  read_utf8_padded-written s ts rest r u h = rw (read_bytes_padded-written s ts rest r h, u)
