-- ===== src/Nix/NarInfo/RoundTrip.antt =====
-- A narinfo with a signature, displayed and parsed.
use mathlib.Core.Option
use gachix.Prelude.{
  ℕ, ◌^◌, ◌<◌, ◌≡◌, ◌≢◌, refl, ap, ap₂, sym, ◌∙◌, true, Option, none, some, List, [], ◌∷◌, ◌++◌,
  map, All, ok, and_then, subst,
}
use gachix.Bytes.{Bytes, bytes, bytes_eq}
use gachix.Text.{lines}
use gachix.Text.Trim.{trim}
use gachix.Text.Visible.{word-Closes, IsVisible, IsAscii, Closes-append, LastCloses}
use gachix.Text.Decimal.{show_u64}
use gachix.Text.Decimal.RoundTrip.{parse_u64-show_u64}
use gachix.Nix.StorePath.{NixPath}
use gachix.Nix.StorePath.BaseName.{IsPath, based}
use gachix.Nix.NarInfo.{
  NarInfo, lookup, get, key_of_url, non_empty, parse_table, parse, base_name, unwrap_or,
  base_name_or_empty, to_string, parse_lines,
}
use gachix.Nix.NarInfo.Fields.{
  IsField, is_key, is_key-IsKey, line, text, onto, word-IsValue, parse_lines-text, text-IsAscii,
}
use gachix.Nix.NarInfo.Values.{
  IsPathIfSome, show_u64-IsVisible, references_of, parse_references-base_names,
  parse_deriver-base_name, references-IsValue, deriver-IsValue,
}

abbrev pub url_of : NarInfo → Bytes
url_of n = unwrap_or n.url (bytes "nar/" ++ (n.key ++ bytes ".nar"))

abbrev pub compression_of : NarInfo → Bytes
compression_of n = unwrap_or n.compression_type (bytes "none")

-- A narinfo with a signature, whose paths are as `NixPath::new` returns them, whose sizes are 64-bit numbers, and all
-- of whose texts are of visible ASCII characters.
pub record IsSigned (n : NarInfo) (signature : Bytes) : Type 0 where
  pub signed : n.signature ≡ some signature
  pub signature_visible : All IsVisible signature
  pub signature_given : signature ≢ []
  pub path_read : IsPath n.store_path
  pub url_visible : All IsVisible (url_of n)
  pub compression_visible : All IsVisible (compression_of n)
  pub compression_given : compression_of n ≢ []
  pub file_hash_visible : All IsVisible n.file_hash
  pub nar_hash_visible : All IsVisible n.nar_hash
  pub file_size_short : n.file_size < 2 ^ 64
  pub nar_size_short : n.nar_size < 2 ^ 64
  pub references_read : All IsPath n.references
  pub deriver_read : IsPathIfSome n.deriver

-- The narinfo that is read back: the defaults are written out, and the references and the deriver
-- are without their directory.
abbrev pub read_back : NarInfo → NarInfo
read_back n = record n {
  url = some (url_of n);
  key = key_of_url (url_of n);
  compression_type = some (compression_of n);
  references = map based n.references;
  deriver = Option.map based n.deriver;
}

-- The keys and values, in the order in which they are displayed.
abbrev other_fields : NarInfo → Bytes → List (Bytes × Bytes)
other_fields n sig =
    (bytes "URL", url_of n)
    ∷ (bytes "Compression", compression_of n)
    ∷ (bytes "FileHash", n.file_hash)
    ∷ (bytes "FileSize", show_u64 n.file_size)
    ∷ (bytes "NarHash", n.nar_hash)
    ∷ (bytes "NarSize", show_u64 n.nar_size)
    ∷ (bytes "References", references_of n.references)
    ∷ (bytes "Deriver", base_name_or_empty n.deriver)
    ∷ (bytes "Sig", sig)
    ∷ []

abbrev fields : NarInfo → Bytes → List (Bytes × Bytes)
fields n sig = (bytes "StorePath", n.store_path.path) ∷ other_fields n sig

to_string-eq-text :
    (n : NarInfo) (sig : Bytes) → n.signature ≡ some sig → to_string n ≡ text (fields n sig)
unfolding to_string
to_string-eq-text n sig h = rw h

fields-IsField : (n : NarInfo) (sig : Bytes) → IsSigned n sig → All IsField (fields n sig)
unfolding bytes is_key
fields-IsField n sig h =
    let word = λ (c : ℕ) (k v : Bytes) (key : is_key (c ∷ k) ≡ true) (visible : All IsVisible v).
      let field : IsField (c ∷ k, v) = (is_key-IsKey c k key, word-IsValue v visible) in field in
    (
      word _ _ n.store_path.path refl h.path_read.1,
      (
        word _ _ (url_of n) refl h.url_visible,
        (
          word _ _ (compression_of n) refl h.compression_visible,
          (
            word _ _ n.file_hash refl h.file_hash_visible,
            (
              word _ _ (show_u64 n.file_size) refl (show_u64-IsVisible n.file_size),
              (
                word _ _ n.nar_hash refl h.nar_hash_visible,
                (
                  word _ _ (show_u64 n.nar_size) refl (show_u64-IsVisible n.nar_size),
                  (
                    (is_key-IsKey _ _ refl, references-IsValue n.references h.references_read),
                    (
                      (is_key-IsKey _ _ refl, deriver-IsValue n.deriver h.deriver_read),
                      (word _ _ sig refl h.signature_visible, tt),
                    ),
                  ),
                ),
              ),
            ),
          ),
        ),
      ),
    )

fields-LastCloses :
    (n : NarInfo) (sig : Bytes) → IsSigned n sig → LastCloses (map line (fields n sig))
fields-LastCloses n sig h =
    Closes-append (bytes "Sig") (bytes ": " ++ sig)
      (Closes-append (bytes ": ") sig (word-Closes sig h.signature_given h.signature_visible))

non_empty-some : (s : Bytes) → s ≢ [] → non_empty s ≡ some s
non_empty-some [] h = absurd (h refl)
non_empty-some (c ∷ s) h = refl

pub to_string-IsAscii : (n : NarInfo) (sig : Bytes) → IsSigned n sig → All IsAscii (to_string n)
to_string-IsAscii n sig h =
    subst (All IsAscii) (sym (to_string-eq-text n sig h.signed))
      (text-IsAscii (fields n sig) (fields-IsField n sig h))

-- What the fields of a table are parsed to is the narinfo.
parse_table-fields :
    (n : NarInfo) (sig : Bytes)
    → IsSigned n sig
    → parse_table (onto (fields n sig) []) ≡ ok (read_back n)
unfolding parse_table get lookup bytes bytes_eq
parse_table-fields n sig h =
    rw
      (
        parse_deriver-base_name n.deriver h.deriver_read,
        parse_references-base_names n.references h.references_read,
        h.path_read.0,
        parse_u64-show_u64 n.file_size h.file_size_short,
        parse_u64-show_u64 n.nar_size h.nar_size_short,
      )
      (ap₂
        (λ c s. ok (record n {
          url = some (url_of n);
          key = key_of_url (url_of n);
          compression_type = c;
          references = map based n.references;
          deriver = Option.map based n.deriver;
          signature = s;
        }))
        (non_empty-some (compression_of n) h.compression_given) (sym h.signed))

parse-text : (n : NarInfo) (sig : Bytes) → IsSigned n sig → parse (to_string n) ≡ ok (read_back n)
unfolding parse
parse-text n sig h =
    ap (λ s. and_then (parse_lines 0 (lines (trim s)) []) parse_table)
      (to_string-eq-text n sig h.signed)
    ∙ ap (λ r. and_then r parse_table)
        (parse_lines-text (bytes "StorePath", n.store_path.path) (other_fields n sig)
          (fields-IsField n sig h) (fields-LastCloses n sig h))
    ∙ parse_table-fields n sig h

base_names-based : (ps : List NixPath) → map base_name (map based ps) ≡ map base_name ps
unfolding base_name
base_names-based [] = refl
base_names-based (p ∷ ps) = ap (λ ss. base_name p ∷ ss) (base_names-based ps)

deriver-based :
    (o : Option NixPath) → base_name_or_empty (Option.map based o) ≡ base_name_or_empty o
unfolding base_name
deriver-based none = refl
deriver-based (some p) = refl

-- The text of a narinfo does not tell it from the one that is read back.
to_string-read_back : (n : NarInfo) → to_string (read_back n) ≡ to_string n
unfolding to_string
to_string-read_back n = rw (base_names-based n.references, deriver-based n.deriver)

-- The text that is displayed of a signed narinfo is parsed, to the narinfo in which the defaults
-- are written out, and the references and the deriver are without their directory; and what was
-- read is displayed as the same text.
pub parse-to_string :
    (n : NarInfo) (sig : Bytes)
    → IsSigned n sig
    → (parse (to_string n) ≡ ok (read_back n)) × (to_string (read_back n) ≡ to_string n)
parse-to_string n sig h = (parse-text n sig h, to_string-read_back n)
