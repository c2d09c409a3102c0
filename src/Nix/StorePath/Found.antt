-- ===== src/Nix/StorePath/Found.antt =====
-- How `NixPath::new` takes a text apart, when it returns.
use gachix.Prelude.{
  ◌≡◌, ap₂, ◌∙◌, Bool-cases, inl, inr, true, some, Option-cases, length, ok, arith,
}
use gachix.Bytes.{Bytes, bytes}
use gachix.Bytes.Utf8.{is_utf8}
use gachix.Text.{split_once}
use gachix.Text.Trim.{trim}
use gachix.Nix.StorePath.{NixPath, file_name, checked, split_stem, new}

-- What `new` found in the text: its last component, and in it the hash and the name.
pub record Found (s : Bytes) (p : NixPath) : Type 0 where
  pub stem : Bytes
  pub is_text : is_utf8 s ≡ true
  pub is_name : file_name s ≡ some stem
  pub parts : split_once (bytes "-") stem ≡ some (p.hash, p.name)
  pub is_trimmed : p.path ≡ trim s
  pub size : length p.hash ≡ 32

checked-parts :
    (s h n : Bytes) (p : NixPath)
    → checked s (h, n) ≡ ok p
    → (p.path ≡ s) × (h ≡ p.hash) × (n ≡ p.name) × (length p.hash ≡ 32)
unfolding checked
checked-parts s h n p e = ground arith

pub new-Found : (s : Bytes) (p : NixPath) → new s ≡ ok p → Found s p
unfolding new split_stem
new-Found s p h = elim (Bool-cases (is_utf8 s)) [
  | inr other ↦ absurd (ground arith)
  | inl utf8 ↦ elim (Option-cases (file_name s)) [
    | inl missing ↦ absurd (ground arith)
    | inr (stem, found) ↦ elim (Option-cases (split_once (bytes "-") stem)) [
      | inl missing ↦ absurd (cc (rw (utf8, found, split_stem, missing) at h))
      | inr ((a, b), split) ↦
          let (path, hash, name, size) =
            checked-parts (trim s) a b p (rw (utf8, found, split_stem, split) at h) in
          record {
            stem = stem;
            is_text = utf8;
            is_name = found;
            parts = split ∙ ap₂ (λ x y. some (x, y)) hash name;
            is_trimmed = path;
            size = size;
          }
    ]
  ]
]
