-- ===== src/Text/Visible.antt =====
-- Texts of visible ASCII characters, in which there is nothing to trim.
use mathlib.Core.List.{reverse, reverse-append, reverse-reverse}
use gachix.Prelude.{
  ℕ, zero, suc, ◌<◌, ◌≡◌, ◌≢◌, refl, ap, ap₂, ◌∙◌, sym, true, none, Option, some, List, [], ◌∷◌,
  ◌++◌, length, All, All-append, All-map, subst, append_assoc, arith, length-append,
}
use gachix.Bytes.{Bytes}
use gachix.Bytes.Utf8.{is_utf8, scan, lead}
use gachix.Text.{newline, join}
use gachix.Text.Trim.{skip_space, skip_space_back, strip, trim_start, trim_end, trim}

-- A printing ASCII character, not the space.
abbrev pub IsVisible : ℕ → Type 0
IsVisible c = (32 < c) × (c < 127)

-- Nothing to trim at the start.
abbrev pub Opens : Bytes → Type 0
Opens [] = Unit
Opens (c ∷ s) = IsVisible c

pub All-Opens : (s : Bytes) → All IsVisible s → Opens s
All-Opens [] h = tt
All-Opens (c ∷ s) h = h.0

pub Opens-append : (s t : Bytes) → Opens s → Opens t → Opens (s ++ t)
Opens-append [] t hs ht = ht
Opens-append (c ∷ s) t hs ht = hs

-- Nothing to trim at either end.
abbrev pub IsTrimmed : Bytes → Type 0
IsTrimmed s = Opens s × Opens (reverse s)

skip_space-none : (s : Bytes) → Opens s → skip_space s ≡ none
unfolding skip_space
skip_space-none [] h = refl
skip_space-none (a ∷ []) h = ground arith
skip_space-none (a ∷ b ∷ []) h = ground arith
skip_space-none (a ∷ b ∷ c ∷ s) h = ground arith

skip_space_back-none : (s : Bytes) → Opens s → skip_space_back s ≡ none
unfolding skip_space_back
skip_space_back-none [] h = refl
skip_space_back-none (a ∷ []) h = ground arith
skip_space_back-none (a ∷ b ∷ []) h = ground arith
skip_space_back-none (a ∷ b ∷ c ∷ s) h = ground arith

strip-none : (skip : Bytes → Option Bytes) (k : ℕ) (s : Bytes) → skip s ≡ none → strip skip k s ≡ s
unfolding strip
strip-none skip zero s h = refl
strip-none skip (suc k) s h = rw (h, strip)

pub trim_start-eq : (s : Bytes) → Opens s → trim_start s ≡ s
unfolding trim_start
trim_start-eq s h = strip-none skip_space (length s) s (skip_space-none s h)

trim_end-eq : (s : Bytes) → Opens (reverse s) → trim_end s ≡ s
unfolding trim_end
trim_end-eq s h =
    ap reverse (strip-none skip_space_back (length s) (reverse s) (skip_space_back-none _ h))
    ∙ reverse-reverse s

pub trim-eq : (s : Bytes) → IsTrimmed s → trim s ≡ s
unfolding trim
trim-eq s (first, last) = ap trim_end (trim_start-eq s first) ∙ trim_end-eq s last

skip_newline : (s : Bytes) → skip_space_back (newline ∷ s) ≡ some s
unfolding skip_space_back
skip_newline [] = refl
skip_newline (a ∷ []) = refl
skip_newline (a ∷ b ∷ s) = refl

strip-newline :
    (k : ℕ) (s : Bytes) → strip skip_space_back (suc k) (newline ∷ s) ≡ strip skip_space_back k s
unfolding strip
strip-newline k s = rw (skip_newline s, strip)

trim_end-newline : (s : Bytes) → Opens (reverse s) → trim_end (s ++ newline ∷ []) ≡ s
unfolding trim_end
trim_end-newline s h =
    let size : length (s ++ newline ∷ []) ≡ suc (length s) =
      omega (arith, length-append s (newline ∷ [])) in
    ap₂ (λ k t. reverse (strip skip_space_back k t)) size (reverse-append s (newline ∷ []))
    ∙ ap reverse (
        strip-newline (length s) (reverse s)
        ∙ strip-none skip_space_back (length s) (reverse s) (skip_space_back-none (reverse s) h))
    ∙ reverse-reverse s

-- A newline at the end is trimmed.
pub trim-newline : (s : Bytes) → s ≢ [] → IsTrimmed s → trim (s ++ newline ∷ []) ≡ s
unfolding trim
trim-newline [] ne h = absurd (ne refl)
trim-newline (c ∷ s) ne (first, last) =
    ap trim_end (trim_start-eq ((c ∷ s) ++ newline ∷ []) first) ∙ trim_end-newline (c ∷ s) last

pub All-reverse {ℓ} : {A : Type ℓ} (P : A → Type 0) (xs : List A) → All P xs → All P (reverse xs)
All-reverse P [] h = tt
All-reverse P (x ∷ xs) (h, hs) =
    subst (All P) (sym (reverse-append (x ∷ []) xs))
      (All-append P (reverse xs) (x ∷ []) (All-reverse P xs hs) (h, tt))

pub word-IsTrimmed : (s : Bytes) → All IsVisible s → IsTrimmed s
word-IsTrimmed s h = (All-Opens s h, All-Opens (reverse s) (All-reverse IsVisible s h))

abbrev pub IsAscii : ℕ → Type 0
IsAscii c = c < 128

lead-ascii : (c : ℕ) → IsAscii c → lead c ≡ some (0, 0x80, 0xbf)
unfolding lead
lead-ascii c h = ground arith

scan-ascii : (s : Bytes) → All IsAscii s → scan 0 0x80 0xbf s ≡ true
unfolding scan
scan-ascii [] h = refl
scan-ascii (c ∷ s) (h, hs) = rw (lead-ascii c h, scan) (scan-ascii s hs)

pub ascii-utf8 : (s : Bytes) → All IsAscii s → is_utf8 s ≡ true
unfolding is_utf8
ascii-utf8 s h = scan-ascii s h

pub word-utf8 : (s : Bytes) → All IsVisible s → is_utf8 s ≡ true
word-utf8 s h = ascii-utf8 s (All-map IsVisible IsAscii (λ c v. omega arith) s h)

-- A text that ends with a visible character.
abbrev pub Closes : Bytes → Type 0
Closes s = (t : Bytes) × (c : ℕ) × (s ≡ t ++ c ∷ []) × IsVisible c

pub Closes-append : (s t : Bytes) → Closes t → Closes (s ++ t)
Closes-append s t (u, c, e, h) =
    (s ++ u, c, ap (λ w. s ++ w) e ∙ sym (append_assoc s u (c ∷ [])), h)

pub Closes-Opens : (s : Bytes) → Closes s → Opens (reverse s)
Closes-Opens s (t, c, e, h) = subst Opens (sym (ap reverse e ∙ reverse-append t (c ∷ []))) h

pub word-Closes : (s : Bytes) → s ≢ [] → All IsVisible s → Closes s
word-Closes [] ne h = absurd (ne refl)
word-Closes (c ∷ []) ne h = ([], c, refl, h.0)
word-Closes (c ∷ d ∷ s) ne h = Closes-append (c ∷ []) (d ∷ s) (word-Closes (d ∷ s) (λ e. cc) h.1)

abbrev pub LastCloses : List Bytes → Type 0
LastCloses [] = ⊥
LastCloses (s ∷ []) = Closes s
LastCloses (s ∷ t ∷ ss) = LastCloses (t ∷ ss)

pub join-Closes :
    (sep s : Bytes) (ss : List Bytes) → LastCloses (s ∷ ss) → Closes (join sep (s ∷ ss))
unfolding join
join-Closes sep s [] h = h
join-Closes sep s (t ∷ ss) h =
    Closes-append s (sep ++ join sep (t ∷ ss))
      (Closes-append sep (join sep (t ∷ ss)) (join-Closes sep t ss h))

pub join-Opens :
    (sep s : Bytes) (ss : List Bytes)
    → s ≢ []
    → Opens s
    → (join sep (s ∷ ss) ≢ []) × Opens (join sep (s ∷ ss))
unfolding join
join-Opens sep [] ss ne h = absurd (ne refl)
join-Opens sep (c ∷ s) [] ne h = (ne, h)
join-Opens sep (c ∷ s) (t ∷ ss) ne h = (λ e. cc, h)
