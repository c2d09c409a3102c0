-- ===== src/Nix/StorePath/Pieces.antt =====
-- What holds of all bytes of a path holds of those of its last component.
use gachix.Prelude.{
  ℕ, ◌≡◌, Option, none, some, List, [], ◌∷◌, All, ◌==◌, ◌||◌, if◌then◌else◌, if-holds, subst,
}
use gachix.Bytes.{Bytes, bytes, bytes_eq}
use gachix.Text.{split_on, cons_piece}
use gachix.Nix.StorePath.{last_component, unless_parent, file_name}

module _ (P : ℕ → Type 0) where
  abbrev AllIfSome : Option Bytes → Type 0
  AllIfSome none = Unit
  AllIfSome (some p) = All P p

  cons_piece-All : (b : ℕ) (ps : List Bytes) → P b → All (All P) ps → All (All P) (cons_piece b ps)
  cons_piece-All b [] h hs = ((h, tt), tt)
  cons_piece-All b (p ∷ ps) h (hp, hs) = ((h, hp), hs)

  split_on-All : (c : ℕ) (s : Bytes) → All P s → All (All P) (split_on c s)
  unfolding split_on
  split_on-All c [] h = (tt, tt)
  split_on-All c (b ∷ s) (hb, h) =
      let rest = split_on-All c s h in
      if-holds (All (All P)) (b == c) _ _ (tt, rest) (cons_piece-All b (split_on c s) hb rest)

  last_component-All :
      (found : Option Bytes) (ps : List Bytes)
      → AllIfSome found
      → All (All P) ps
      → AllIfSome (last_component found ps)
  unfolding last_component
  last_component-All found [] h hs = h
  last_component-All found (p ∷ ps) h (hp, hs) =
      last_component-All (if bytes_eq p [] || bytes_eq p (bytes ".") then found else some p) ps
        (if-holds AllIfSome (bytes_eq p [] || bytes_eq p (bytes ".")) found (some p) h hp) hs

  unless_parent-All : (o : Option Bytes) → AllIfSome o → AllIfSome (unless_parent o)
  unfolding unless_parent
  unless_parent-All none h = tt
  unless_parent-All (some p) h = if-holds AllIfSome (bytes_eq p (bytes "..")) none (some p) tt h

  pub file_name-pieces :
      (path stem : Bytes)
      → All (All P) (split_on b'/' path)
      → file_name path ≡ some stem
      → All P stem
  unfolding file_name
  file_name-pieces path stem h e =
      subst AllIfSome e (unless_parent-All _ (last_component-All none (split_on b'/' path) tt h))

  pub file_name-All : (path stem : Bytes) → All P path → file_name path ≡ some stem → All P stem
  file_name-All path stem h = file_name-pieces path stem (split_on-All b'/' path h)
