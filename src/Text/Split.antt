-- ===== src/Text/Split.antt =====
-- What `split_once` returns.
use gachix.Prelude.{
  arith, ◌≡◌, refl, true, Bool-cases, inl, inr, Option, none, some, [], ◌∷◌, ◌++◌, length,
}
use gachix.Bytes.{Bytes}
use gachix.Text.{starts_with, drop, split_once, cons_first}

pub starts_with-drop : (p s : Bytes) → starts_with p s ≡ true → s ≡ p ++ drop (length p) s
unfolding starts_with drop
starts_with-drop [] s h = refl
starts_with-drop (a ∷ p) [] h = cc
starts_with-drop (a ∷ p) (c ∷ s) h = grind (arith, starts_with-drop p s)

-- The two parts, put together around the pattern, are the text.
pub split_once-append : (pat s a b : Bytes) → split_once pat s ≡ some (a, b) → s ≡ a ++ (pat ++ b)
unfolding split_once
split_once-append pat [] a b h = cc
split_once-append pat (c ∷ s) a b h = elim (Bool-cases (starts_with pat (c ∷ s))) [
  | inl here ↦ grind (arith, starts_with-drop pat (c ∷ s))
  | inr other ↦ later (split_once pat s) (split_once-append pat s) (rw other at h)
]
  where
    later :
        (o : Option (Bytes × Bytes))
        → ((a b : Bytes) → o ≡ some (a, b) → s ≡ a ++ (pat ++ b))
        → cons_first c o ≡ some (a, b)
        → c ∷ s ≡ a ++ (pat ++ b)
    later none ih e = cc
    later (some (a', b')) ih e = grind (arith, ih a' b' refl)
