-- ===== src/Bytes/Utf8/Lossy.antt =====
-- `String::from_utf8_lossy`, of the standard library: each longest beginning of a sequence that does not
-- go on to be well-formed is replaced by U+FFFD.
use gachix.Prelude.{
  ℕ, zero, suc, ◌≡◌, refl, ap, ◌∙◌, inl, inr, true, and-true, ◌&&◌, Option, none, some,
  Option-cases, List, [], ◌∷◌, ◌++◌, append_assoc, leb, if◌then◌else◌,
}
use gachix.Bytes.Utf8.{lead, scan, is_utf8}

abbrev replacement : List ℕ
replacement = 0xef ∷ 0xbf ∷ 0xbd ∷ []

-- What is still to come: how many bytes, the range of the next, and those of the sequence before.
record Pending : Type 0 where
  need : ℕ
  low : ℕ
  high : ℕ
  seen : List ℕ

abbrev idle : Pending
idle = record { need = 0; low = 0x80; high = 0xbf; seen = [] }

-- A byte that begins a sequence, by what `lead` says of it.
abbrev started : ℕ → Option (ℕ × ℕ × ℕ) → List ℕ × Pending
started b none = (replacement, idle)
started b (some (zero, l, h)) = (b ∷ [], idle)
started b (some (suc n, l, h)) = ([], record { need = suc n; low = l; high = h; seen = b ∷ [] })

abbrev continued : ℕ → List ℕ → List ℕ × Pending
continued zero seen = (seen, idle)
continued (suc n) seen = ([], record { need = suc n; low = 0x80; high = 0xbf; seen = seen })

abbrev after_replacement : List ℕ × Pending → List ℕ × Pending
after_replacement (out, p) = (replacement ++ out, p)

-- What a byte adds to the text, and what is pending then.
abbrev step_from : ℕ → Pending → ℕ → List ℕ × Pending
step_from zero p b = started b (lead b)
step_from (suc n) p b =
    if leb p.low b && leb b p.high
    then continued n (p.seen ++ b ∷ [])
    else after_replacement (started b (lead b))

abbrev at_end : ℕ → List ℕ
at_end zero = []
at_end (suc n) = replacement

abbrev lossy_from : Pending → List ℕ → List ℕ
lossy_from p [] = at_end p.need
lossy_from p (b ∷ bs) = let (out, q) = step_from p.need p b in out ++ lossy_from q bs

unfoldable pub from_utf8_lossy : List ℕ → List ℕ
from_utf8_lossy bs = lossy_from idle bs

-- Where nothing is pending, the range does not matter.
valid-idle : (l h : ℕ) (bs : List ℕ) → scan 0 l h bs ≡ true → scan 0 0x80 0xbf bs ≡ true
unfolding scan
valid-idle l h [] e = refl
valid-idle l h (b ∷ bs) e = e

lossy_from-valid :
    (n l h : ℕ) (seen bs : List ℕ)
    → scan n l h bs ≡ true
    → lossy_from (record { need = n; low = l; high = h; seen = seen }) bs
      ≡ elim n [ zero ↦ bs | suc k ↦ seen ++ bs ]
unfolding scan
lossy_from-valid zero l h seen [] e = refl
lossy_from-valid (suc n) l h seen [] e = cc
lossy_from-valid zero l h seen (b ∷ bs) e = elim (Option-cases (lead b)) [
  | inl missing ↦ cc (rw (scan, missing) at e)
  | inr ((zero, l', h'), found) ↦
      rw (found, lossy_from-valid 0 0x80 0xbf [] bs (valid-idle l' h' bs (rw (scan, found) at e)))
  | inr ((suc n, l', h'), found) ↦
      rw (found, lossy_from-valid (suc n) l' h' (b ∷ []) bs (rw (scan, found) at e))
]
lossy_from-valid (suc zero) l h seen (b ∷ bs) e =
    let (within, rest) = and-true (leb l b && leb b h) _ e in
    rw (within) (
      ap (λ t. (seen ++ b ∷ []) ++ t) (lossy_from-valid 0 0x80 0xbf [] bs rest)
      ∙ append_assoc seen (b ∷ []) bs)
lossy_from-valid (suc (suc n)) l h seen (b ∷ bs) e =
    let (within, rest) = and-true (leb l b && leb b h) _ e in
    rw (within)
      (lossy_from-valid (suc n) 0x80 0xbf (seen ++ b ∷ []) bs rest ∙ append_assoc seen (b ∷ []) bs)

-- Well-formed UTF-8 is left as it is.
pub from_utf8_lossy-is_utf8 : (bs : List ℕ) → is_utf8 bs ≡ true → from_utf8_lossy bs ≡ bs
unfolding from_utf8_lossy is_utf8
from_utf8_lossy-is_utf8 bs e = lossy_from-valid 0 0x80 0xbf [] bs e
