-- ===== src/Nix/Signature.antt =====
-- src/nix_interface/signature.rs: `PrivateKey`, read from its text, and signing. Base 64 and Ed25519 are
-- those of crates, parameters here.
pub mod Parsed
use gachix.Prelude.{
  ℕ, zero, suc, ◌+◌, ◌-◌, [], ◌∷◌, Option, none, some, Result, ok, err, panic, wrong_size,
  missing_separator, length, leb, ◌==◌, if◌then◌else◌, and_then,
}
use gachix.Bytes.{Bytes, bytes}
use gachix.Text.{split_once, drop}

abbrev pub num_seed_bytes : ℕ
num_seed_bytes = 32

abbrev pub num_public_key_bytes : ℕ
num_public_key_bytes = 32

abbrev pub num_secret_key_bytes : ℕ
num_secret_key_bytes = num_seed_bytes + num_public_key_bytes

-- `PrivateKey`, with its halves as bytes.
pub record SecretKey : Type 0 where
  pub name : Bytes
  pub seed : Bytes
  pub public_key : Bytes

unfoldable pub take : ℕ → Bytes → Bytes
take zero bs = []
take (suc n) [] = []
take (suc n) (b ∷ bs) = b ∷ take n bs

-- `&bytes[from..to]`, which panics out of range, for `from ≤ to`.
unfoldable pub slice : ℕ → ℕ → Bytes → Result Bytes
slice from to bs = if leb to (length bs) then ok (take (to - from) (drop from bs)) else err panic

-- `try_into` an array of `n` bytes.
unfoldable pub try_into : ℕ → Bytes → Result Bytes
try_into n bs = if length bs == n then ok bs else err wrong_size

-- The two halves of the bytes, and the name.
unfoldable pub key_of : Bytes → Bytes → Result SecretKey
key_of name key_bytes =
    and_then (and_then (slice 0 num_seed_bytes key_bytes) (try_into num_seed_bytes)) λ seed.
      and_then
        (and_then (slice num_seed_bytes num_secret_key_bytes key_bytes)
          (try_into num_public_key_bytes))
        λ public_key. ok (record { name = name; seed = seed; public_key = public_key })

module _ (decode : Bytes → Result Bytes) where
  -- `PrivateKey::from_str`. `splitn(2, ':')` gives a second part if there is a colon.
  unfoldable pub from_str : Bytes → Result SecretKey
  from_str s = elim (split_once (bytes ":") s) [
    | none ↦ err missing_separator
    | some (name, key_base64) ↦ and_then (decode key_base64) (key_of name)
  ]

-- What `Ed25519KeyPair::from_seed_and_public_key` returns, as what it signs with.
unfoldable pub sign : (Bytes → Bytes → Option (Bytes → Bytes)) → SecretKey → Bytes → Result Bytes
sign from_seed_and_public_key key message =
    elim (from_seed_and_public_key key.seed key.public_key) [
      | none ↦ err panic
      | some sign_with ↦ ok (sign_with message)
    ]
