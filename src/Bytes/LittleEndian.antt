-- ===== src/Bytes/LittleEndian.antt =====
-- `u64::to_le_bytes` and `u64::from_le_bytes`, which the standard library documents as the bytes of
-- the number, lowest first.
use gachix.Prelude.{
  ℕ, zero, suc, ◌+◌, ◌*◌, ◌/◌, ◌%◌, ◌^◌, ◌<◌, ◌≡◌, refl, sym, ap, ap₂, ◌∙◌, List, [], ◌∷◌, arith,
  length, All,
}

-- The `w` low bytes of `n`.
le_bytes : ℕ → ℕ → List ℕ
le_bytes zero n = []
le_bytes (suc w) n = (n % 256) ∷ le_bytes w (n / 256)

unfoldable pub from_le_bytes : List ℕ → ℕ
from_le_bytes [] = 0
from_le_bytes (b ∷ bs) = b + 256 * from_le_bytes bs

unfoldable pub to_le_bytes : ℕ → List ℕ
unfolding le_bytes
to_le_bytes n = le_bytes 8 n

pub length-to_le_bytes : (n : ℕ) → length (to_le_bytes n) ≡ 8
unfolding to_le_bytes
length-to_le_bytes n = refl

-- A 64-bit number is read back from its bytes.
pub from_le_bytes-to_le_bytes : (n : ℕ) → n < 2 ^ 64 → from_le_bytes (to_le_bytes n) ≡ n
unfolding to_le_bytes from_le_bytes
from_le_bytes-to_le_bytes n h = omega arith

-- A list of bytes is given back by its number.
le_bytes-from_le_bytes :
    (bs : List ℕ) → All (λ b. b < 256) bs → le_bytes (length bs) (from_le_bytes bs) ≡ bs
unfolding le_bytes from_le_bytes
le_bytes-from_le_bytes [] h = refl
le_bytes-from_le_bytes (b ∷ bs) (h, hs) =
    ap₂ (λ c cs. c ∷ cs) (omega arith)
      (ap (le_bytes (length bs)) (omega arith) ∙ le_bytes-from_le_bytes bs hs)

pub to_le_bytes-from_le_bytes :
    (bs : List ℕ) → length bs ≡ 8 → All (λ b. b < 256) bs → to_le_bytes (from_le_bytes bs) ≡ bs
unfolding to_le_bytes
to_le_bytes-from_le_bytes bs e h =
    ap (λ w. le_bytes w (from_le_bytes bs)) (sym e) ∙ le_bytes-from_le_bytes bs h
