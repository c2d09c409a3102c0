-- ===== src/GitStore/References/Names.antt =====
-- The names of references: results and narinfos are kept apart, and so are those of two hashes.
use mathlib.Core.List.{reverse, reverse-append, reverse-reverse}
use gachix.Prelude.{
  true, and-true, ==_iff, ◌==◌, length, [], ◌∷◌, ◌++◌, ◌≡◌, ◌≢◌, sym, ◌∙◌, ap, ap₂, refl,
  append_assoc, arith,
}
use gachix.Bytes.{Bytes, bytes}
use gachix.Text.{starts_with}
use gachix.GitStore.References.{get_package_ref, get_result_ref, get_narinfo_ref}

append_cancel_left : (u s t : Bytes) → u ++ s ≡ u ++ t → s ≡ t
append_cancel_left [] s t h = h
append_cancel_left (c ∷ u) s t h = append_cancel_left u s t (cc)

pub get_result_ref-ne-get_narinfo_ref : (a b : Bytes) → get_result_ref a ≢ get_narinfo_ref b
unfolding get_result_ref get_narinfo_ref bytes
get_result_ref-ne-get_narinfo_ref a b h =
    let last =
      sym (reverse-append (get_package_ref a) (bytes "/result"))
      ∙ ap reverse h
      ∙ reverse-append (get_package_ref b) (bytes "/narinfo") in
    ground arith

append_cancel : (s t u : Bytes) → s ++ u ≡ t ++ u → s ≡ t
append_cancel s t u h =
    sym (reverse-reverse s)
    ∙ ap reverse (
        append_cancel_left (reverse u) (reverse s) (reverse t)
          (sym (reverse-append s u) ∙ ap reverse h ∙ reverse-append t u))
    ∙ reverse-reverse t

pub get_result_ref-injective : (a b : Bytes) → get_result_ref a ≡ get_result_ref b → a ≡ b
unfolding get_result_ref get_package_ref
get_result_ref-injective a b h =
    append_cancel_left (bytes "refs/") a b (append_cancel _ _ (bytes "/result") h)

pub get_narinfo_ref-injective : (a b : Bytes) → get_narinfo_ref a ≡ get_narinfo_ref b → a ≡ b
unfolding get_narinfo_ref get_package_ref
get_narinfo_ref-injective a b h =
    append_cancel_left (bytes "refs/") a b (append_cancel _ _ (bytes "/narinfo") h)

starts_with-append : (u s t : Bytes) → starts_with (u ++ s) (u ++ t) ≡ true → starts_with s t ≡ true
unfolding starts_with
starts_with-append [] s t h = h
starts_with-append (c ∷ u) s t h =
    starts_with-append u s t (and-true (c == c) (starts_with (u ++ s) (u ++ t)) h).1

starts_with-same_length :
    (a b s t : Bytes) → length a ≡ length b → starts_with (a ++ s) (b ++ t) ≡ true → a ≡ b
unfolding starts_with
starts_with-same_length [] [] s t e h = refl
starts_with-same_length [] (c ∷ b) s t e h = ground arith
starts_with-same_length (c ∷ a) [] s t e h = ground arith
starts_with-same_length (c ∷ a) (d ∷ b) s t e h =
    let (first, rest) = and-true (c == d) (starts_with (a ++ s) (b ++ t)) h in
    ap₂ (λ x xs. x ∷ xs) ((==_iff c d).0 first)
      (starts_with-same_length a b s t (omega (arith, e)) rest)

-- The references of a package begin with the hash of no other.
pub get_narinfo_ref-starts_with :
    (a b : Bytes)
    → length a ≡ length b
    → starts_with (get_package_ref a ++ bytes "/") (get_narinfo_ref b) ≡ true
    → a ≡ b
unfolding get_narinfo_ref get_package_ref
get_narinfo_ref-starts_with a b e h = starts_with-same_length a b (bytes "/") (bytes "/narinfo") e (
    starts_with-append (bytes "refs/") (a ++ bytes "/") (b ++ bytes "/narinfo") (
      ap₂ starts_with (sym (append_assoc (bytes "refs/") a (bytes "/")))
        (sym (append_assoc (bytes "refs/") b (bytes "/narinfo")))
      ∙ h))
