-- ===== src/Text/Lines.antt =====
-- Pieces that are put together with a separator between them are split again.
use gachix.Prelude.{ℕ, ◌≡◌, ◌≢◌, refl, ap, ◌∙◌, ap₂, All-map, List, [], ◌∷◌, ◌++◌, All, arith}
use gachix.Bytes.{Bytes}
use gachix.Text.{newline, carriage_return, split_on, chomp, line_pieces, lines, join}

-- Free of the separator.
abbrev pub Lacks : ℕ → Bytes → Type 0
Lacks c s = All (λ b. b ≢ c) s

pub split_on-sole : (c : ℕ) (s : Bytes) → Lacks c s → split_on c s ≡ s ∷ []
unfolding split_on
split_on-sole c [] h = refl
split_on-sole c (b ∷ s) (hb, h) = ground (arith, split_on-sole c s h)

split_on-append : (c : ℕ) (s t : Bytes) → Lacks c s → split_on c (s ++ c ∷ t) ≡ s ∷ split_on c t
unfolding split_on
split_on-append c [] t h = ground arith
split_on-append c (b ∷ s) t (hb, h) = ground (arith, split_on-append c s t h)

-- There is one piece at least.
pub split_on-join :
    (c : ℕ) (s : Bytes) (ss : List Bytes)
    → All (Lacks c) (s ∷ ss)
    → split_on c (join (c ∷ []) (s ∷ ss)) ≡ s ∷ ss
unfolding join
split_on-join c s [] h = split_on-sole c s h.0
split_on-join c s (t ∷ ss) h =
    split_on-append c s (join (c ∷ []) (t ∷ ss)) h.0 ∙ ap (λ ps. s ∷ ps) (split_on-join c t ss h.1)

chomp-eq : (s : Bytes) → Lacks carriage_return s → chomp s ≡ s
unfolding chomp
chomp-eq [] h = refl
chomp-eq (c ∷ []) h = ground arith
chomp-eq (c ∷ d ∷ s) h = ap (λ t. c ∷ t) (chomp-eq (d ∷ s) h.1)

-- A line without its end.
abbrev pub IsLine : Bytes → Type 0
IsLine s = (s ≢ []) × Lacks newline s × Lacks carriage_return s

line_pieces-eq : (s : Bytes) (ss : List Bytes) → All IsLine (s ∷ ss) → line_pieces (s ∷ ss) ≡ s ∷ ss
unfolding line_pieces
line_pieces-eq [] [] h = absurd (h.0.0 refl)
line_pieces-eq (c ∷ s) [] h = refl
line_pieces-eq [] (t ∷ ss) h = absurd (h.0.0 refl)
line_pieces-eq (c ∷ s) (t ∷ ss) h =
    ap₂ (λ q qs. q ∷ qs) (chomp-eq (c ∷ s) h.0.2) (line_pieces-eq t ss h.1)

pub lines-join :
    (s : Bytes) (ss : List Bytes)
    → All IsLine (s ∷ ss)
    → lines (join (newline ∷ []) (s ∷ ss)) ≡ s ∷ ss
unfolding lines
lines-join s ss h =
    ap line_pieces
      (split_on-join newline s ss (All-map IsLine (Lacks newline) (λ t l. l.1) (s ∷ ss) h))
    ∙ line_pieces-eq s ss h
