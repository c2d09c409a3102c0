-- ===== src/Nix/NarInfo/Key.antt =====
-- The key of a package, in the URL that is displayed and in the one that is parsed.
use gachix.Prelude.{ℕ, ◌≡◌, ◌≢◌, refl, ap, false, [], ◌∷◌, ◌++◌, All, arith}
use gachix.Bytes.{Bytes, bytes}
use gachix.Text.{starts_with, split_on, split_str, split_scan, get_last}
use gachix.Nix.NarInfo.{key_of_url}

abbrev pub NoSlash : ℕ → Type 0
NoSlash c = c ≢ b'/'

-- Neither a slash nor a dot.
abbrev pub IsKeyByte : ℕ → Type 0
IsKeyByte c = (c ≢ b'/') × (c ≢ b'.')

pattern_missing : (s : Bytes) → All NoSlash s → starts_with (bytes "nar/") s ≡ false
unfolding starts_with bytes
pattern_missing [] h = refl
pattern_missing (a ∷ []) h = ground arith
pattern_missing (a ∷ b ∷ []) h = ground arith
pattern_missing (a ∷ b ∷ c ∷ []) h = ground arith
pattern_missing (a ∷ b ∷ c ∷ d ∷ s) h = ground arith

split_scan-whole : (s : Bytes) → All NoSlash s → split_scan (bytes "nar/") 0 s ≡ s ∷ []
unfolding split_scan
split_scan-whole [] h = refl
split_scan-whole (c ∷ s) h = rw (pattern_missing (c ∷ s) h, split_scan-whole s h.1)

split_on-first :
    (k rest : Bytes) → All IsKeyByte k → split_on b'.' (k ++ b'.' ∷ rest) ≡ k ∷ split_on b'.' rest
unfolding split_on
split_on-first [] rest h = refl
split_on-first (c ∷ k) rest ((slash, dot), h) = ground (arith, split_on-first k rest h)

All-NoSlash : (k rest : Bytes) → All IsKeyByte k → All NoSlash rest → All NoSlash (k ++ b'.' ∷ rest)
All-NoSlash [] rest h hr = ((λ e. omega arith), hr)
All-NoSlash (c ∷ k) rest ((slash, dot), h) hr = (slash, All-NoSlash k rest h hr)

split_str-prefix :
    (s : Bytes) → All NoSlash s → split_str (bytes "nar/") (bytes "nar/" ++ s) ≡ [] ∷ s ∷ []
unfolding split_str split_scan starts_with bytes
split_str-prefix s h = ap (λ ps. [] ∷ ps) (split_scan-whole s h)

-- A key without slashes and dots is read back from the URL that is made of it, `nar/`, the key and an
-- extension after a dot, if there is no slash in the extension.
pub key_of_url-append :
    (key extension : Bytes)
    → All IsKeyByte key
    → All NoSlash extension
    → key_of_url (bytes "nar/" ++ (key ++ b'.' ∷ extension)) ≡ key
unfolding key_of_url get_last
key_of_url-append key extension h he = rw (
  key_of_url,
  split_str-prefix (key ++ b'.' ∷ extension) (All-NoSlash key extension h he),
  split_on-first key extension h,
)
