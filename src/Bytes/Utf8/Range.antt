-- ===== src/Bytes/Utf8/Range.antt =====
-- The bytes of well-formed UTF-8 are bytes.
use gachix.Prelude.{
  ℕ, zero, suc, ◌≡◌, ◌<◌, true, and-true, ◌&&◌, some, Option-cases, inl, inr, List, [], ◌∷◌, All,
  leb, arith,
}
use gachix.Bytes.Utf8.{lead, scan, is_utf8}

abbrev pub IsByte : ℕ → Type 0
IsByte b = b < 256

lead-IsByte : (b n l h : ℕ) → lead b ≡ some (n, l, h) → IsByte b × IsByte h
unfolding lead
lead-IsByte b n l h e = ground arith

scan-IsByte : (n l h : ℕ) (bs : List ℕ) → IsByte h → scan n l h bs ≡ true → All IsByte bs
unfolding scan
scan-IsByte n l h [] byte e = tt
scan-IsByte zero l h (b ∷ bs) byte e = elim (Option-cases (lead b)) [
  | inl missing ↦ cc (rw (scan, missing) at e)
  | inr ((n, l', h'), found) ↦
      let (this, next) = lead-IsByte b n l' h' found in
      (this, scan-IsByte n l' h' bs next (rw (scan, found) at e))
]
scan-IsByte (suc n) l h (b ∷ bs) byte e =
    let (within, rest) = and-true (leb l b && leb b h) _ e in
    (ground arith, scan-IsByte n 0x80 0xbf bs (omega arith) rest)

pub is_utf8-IsByte : (bs : List ℕ) → is_utf8 bs ≡ true → All IsByte bs
unfolding is_utf8
is_utf8-IsByte bs e = scan-IsByte 0 0x80 0xbf bs (omega arith) e
