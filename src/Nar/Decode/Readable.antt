-- ===== src/Nar/Decode/Readable.antt =====
-- The objects whose archives the decoder reads, and the bytes of their archives, part by part.
use gachix.Prelude.{ℕ, ◌^◌, ◌<◌, ◌≡◌, sym, ap, ◌∙◌, true, List, [], ◌∷◌, ◌++◌, length, append_assoc}
use gachix.Bytes.{Bytes, bytes}
use gachix.Bytes.Utf8.{is_utf8}
use gachix.Nar.Format.{
  Node, Entries, regular, symlink, directory, no_entries, entry, strings, entry_strings, padded,
  written, written-append, written_rest,
}
use gachix.Nar.Stored.{mode_of}

-- Every string is short enough for a vector, and every name is UTF-8. Unlike in `IsArchivable`, the
-- names of a directory are in any order, and may be there twice.
unfoldable mutual
  pub IsReadable : Node → Type 0
  IsReadable (regular x c) = length c < 2 ^ 63
  IsReadable (symlink t) = length t < 2 ^ 63
  IsReadable (directory es) = AreReadable es

  pub AreReadable : Entries → Type 0
  AreReadable no_entries = Unit
  AreReadable (entry name n es) =
      (is_utf8 name ≡ true) × (length name < 2 ^ 63) × IsReadable n × AreReadable es

pub written_parts : (ss ts : List Bytes) → written (ss ++ ts) [] ≡ written ss [] ++ written ts []
written_parts ss ts = written-append ss ts [] ∙ written_rest ss (written ts [])

-- The bytes of an object's archive after its file type `t`, and its mode.
abbrev pub IsTyped : {Oid : Type 0} → Bytes → Oid × ℕ → Bytes → Type 0
IsTyped t x c =
    (n : Node) × (padded (bytes "(") ++ (padded (bytes "type") ++ (padded t ++ c))
      ≡ written (strings n) [])
    × (x.1 ≡ mode_of n)
    × IsReadable n

-- The bytes of the entries that are left, and the bracket.
abbrev pub AreEntries : Bytes → Type 0
AreEntries c =
    (es : Entries) × (c ≡ written (entry_strings es ++ bytes ")" ∷ []) []) × AreReadable es

abbrev pub parts_of : Bytes → Node → List Bytes
parts_of name n = bytes "(" ∷ bytes "name" ∷ name ∷ bytes "node" ∷ (strings n ++ bytes ")" ∷ [])

pub entry_eq :
    (name : Bytes) (n : Node) (c d e f k l : Bytes)
    → c ≡ padded (bytes "(")
    → d ≡ padded (bytes "name")
    → e ≡ padded name
    → f ≡ padded (bytes "node")
    → k ≡ written (strings n) []
    → l ≡ padded (bytes ")")
    → c ++ (d ++ (e ++ (f ++ (k ++ (l ++ []))))) ≡ written (parts_of name n) []
entry_eq name n c d e f k l hc hd he hf hk hl =
    rw (hc, hd, he, hf, hk, hl)
      (unfold written in
        ap
          (λ t.
            padded (bytes "(")
            ++ (padded (bytes "name") ++ (padded name ++ (padded (bytes "node") ++ t))))
          (sym (written_parts (strings n) (bytes ")" ∷ []))))

pub entries_eq :
    (name : Bytes) (n : Node) (es : Entries) (c d e : Bytes)
    → c ≡ padded (bytes "entry")
    → d ≡ written (parts_of name n) []
    → e ≡ written (entry_strings es ++ bytes ")" ∷ []) []
    → c ++ (d ++ e) ≡ written (entry_strings (entry name n es) ++ bytes ")" ∷ []) []
unfolding strings
entries_eq name n es c d e hc hd he =
    rw (hc, hd, he)
      (unfold written in
        ap (λ t. padded (bytes "entry") ++ t)
          (sym (written_parts (parts_of name n) (entry_strings es ++ bytes ")" ∷ []))
            ∙ ap (λ ss. written (bytes "(" ∷ bytes "name" ∷ name ∷ bytes "node" ∷ ss) [])
                (append_assoc (strings n) (bytes ")" ∷ []) (entry_strings es ++ bytes ")" ∷ [])
                  ∙ sym
                      (append_assoc (strings n) (bytes ")" ∷ entry_strings es) (bytes ")" ∷ [])))))
