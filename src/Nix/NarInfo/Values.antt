-- ===== src/Nix/NarInfo/Values.antt =====
-- The values of a narinfo that are more than a word: references, the deriver, and sizes.
use mathlib.Core.Option
use gachix.Prelude.{
  ℕ, ◌≡◌, ◌≢◌, refl, ap, sym, ◌∙◌, Option, none, some, List, [], ◌∷◌, map, All, All-append, All-map,
  ok, and_then, map_all, arith, subst,
}
use gachix.Bytes.{Bytes, bytes}
use gachix.Text.{split_on, join}
use gachix.Text.Lines.{Lacks, split_on-join}
use gachix.Text.Visible.{
  IsVisible, All-Opens, Closes-Opens, word-Closes, LastCloses, join-Opens, join-Closes,
}
use gachix.Text.Decimal.{show_u64}
use gachix.Text.Decimal.RoundTrip.{show_u64-Shown, IsDigit, digit-IsVisible}
use gachix.Nix.StorePath
use gachix.Nix.StorePath.{NixPath}
use gachix.Nix.StorePath.BaseName.{IsPath, based, new-based, base-IsVisible, base-ne-nil}
use gachix.Nix.NarInfo.{parse_deriver, parse_references, base_name, base_name_or_empty}
use gachix.Nix.NarInfo.Fields.{IsPrintable, IsValue, word-IsValue}

abbrev pub IsPathIfSome : Option NixPath → Type 0
IsPathIfSome none = Unit
IsPathIfSome (some p) = IsPath p

pub show_u64-IsVisible : (n : ℕ) → All IsVisible (show_u64 n)
show_u64-IsVisible n =
    let (c, s, shown, digits) = show_u64-Shown n in
    subst (All IsVisible) (sym shown) (All-map IsDigit IsVisible digit-IsVisible (c ∷ s) digits)

base_names-Lacks : (ps : List NixPath) → All IsPath ps → All (Lacks b' ') (map base_name ps)
unfolding base_name
base_names-Lacks [] h = tt
base_names-Lacks (p ∷ ps) (h, hs) = (
  All-map IsVisible (λ b. b ≢ b' ') (λ b v e. omega arith) (based p).path (base-IsVisible p h),
  base_names-Lacks ps hs,
)

parse_references-words :
    (s : Bytes) → s ≢ [] → parse_references s ≡ map_all StorePath.new (split_on b' ' s)
unfolding parse_references
parse_references-words [] h = absurd (h refl)
parse_references-words (c ∷ s) h = refl

map_all-base_names :
    (ps : List NixPath)
    → All IsPath ps
    → map_all StorePath.new (map base_name ps) ≡ ok (map based ps)
unfolding base_name
map_all-base_names [] h = refl
map_all-base_names (p ∷ ps) (h, hs) = rw (new-based p h, map_all-base_names ps hs)

abbrev pub references_of : List NixPath → Bytes
references_of ps = join (bytes " ") (map base_name ps)

new-base_name : (p : NixPath) → IsPath p → StorePath.new (base_name p) ≡ ok (based p)
unfolding base_name
new-base_name = new-based

base_name-IsVisible : (p : NixPath) → IsPath p → All IsVisible (base_name p)
unfolding base_name
base_name-IsVisible = base-IsVisible

base_name-ne-nil : (p : NixPath) → IsPath p → base_name p ≢ []
unfolding base_name
base_name-ne-nil = base-ne-nil

split_on-base_names :
    (p : NixPath) (ps : List NixPath)
    → All IsPath (p ∷ ps)
    → split_on b' ' (references_of (p ∷ ps)) ≡ map base_name (p ∷ ps)
unfolding bytes
split_on-base_names p ps h =
    split_on-join b' ' (base_name p) (map base_name ps) (base_names-Lacks (p ∷ ps) h)

pub parse_references-base_names :
    (ps : List NixPath) → All IsPath ps → parse_references (references_of ps) ≡ ok (map based ps)
unfolding parse_references join
parse_references-base_names [] h = refl
parse_references-base_names (p ∷ ps) h =
    let (given, _) =
      join-Opens (bytes " ") (base_name p) (map base_name ps) (base_name-ne-nil p h.0)
        (All-Opens _ (base_name-IsVisible p h.0)) in
    parse_references-words (references_of (p ∷ ps)) given
    ∙ ap (map_all StorePath.new) (split_on-base_names p ps h)
    ∙ map_all-base_names (p ∷ ps) h

parse_deriver-word :
    (s : Bytes) → s ≢ [] → parse_deriver s ≡ and_then (StorePath.new s) (λ p. ok (some p))
unfolding parse_deriver
parse_deriver-word [] h = absurd (h refl)
parse_deriver-word (c ∷ s) h = refl

pub parse_deriver-base_name :
    (o : Option NixPath)
    → IsPathIfSome o
    → parse_deriver (base_name_or_empty o) ≡ ok (Option.map based o)
unfolding bytes parse_deriver
parse_deriver-base_name none h = refl
parse_deriver-base_name (some p) h =
    parse_deriver-word (base_name p) (base_name-ne-nil p h)
    ∙ ap (λ r. and_then r (λ q. ok (some q))) (new-base_name p h)

LastCloses-base_names :
    (p : NixPath) (ps : List NixPath) → All IsPath (p ∷ ps) → LastCloses (map base_name (p ∷ ps))
LastCloses-base_names p [] h =
    word-Closes (base_name p) (base_name-ne-nil p h.0) (base_name-IsVisible p h.0)
LastCloses-base_names p (q ∷ ps) h = LastCloses-base_names q ps h.1

join-IsPrintable : (ps : List NixPath) → All IsPath ps → All IsPrintable (references_of ps)
unfolding join bytes
join-IsPrintable [] h = tt
join-IsPrintable (p ∷ []) h = (word-IsValue (base_name p) (base_name-IsVisible p h.0)).1
join-IsPrintable (p ∷ q ∷ ps) h =
    All-append IsPrintable (base_name p) (b' ' ∷ references_of (q ∷ ps))
      (word-IsValue (base_name p) (base_name-IsVisible p h.0)).1
      ((omega arith, omega arith), join-IsPrintable (q ∷ ps) h.1)

pub references-IsValue : (ps : List NixPath) → All IsPath ps → IsValue (references_of ps)
references-IsValue [] h = unfold join in ((tt, tt), tt)
references-IsValue (p ∷ ps) h =
    let (_, first) =
      join-Opens (bytes " ") (base_name p) (map base_name ps) (base_name-ne-nil p h.0)
        (All-Opens _ (base_name-IsVisible p h.0)) in
    (
      (
        first,
        Closes-Opens _ (
            join-Closes (bytes " ") (base_name p) (map base_name ps)
              (LastCloses-base_names p ps h)),
      ),
      join-IsPrintable (p ∷ ps) h,
    )

pub deriver-IsValue : (o : Option NixPath) → IsPathIfSome o → IsValue (base_name_or_empty o)
unfolding bytes
deriver-IsValue none h = ((tt, tt), tt)
deriver-IsValue (some p) h = word-IsValue (base_name p) (base_name-IsVisible p h)
