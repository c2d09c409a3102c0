-- ===== src/Nix/NarInfo.antt =====
-- src/nix_interface/nar_info.rs: `NarInfo`, written as text and parsed back; and, of
-- src/nix_interface/signature.rs, the text that is signed.
pub mod WellFormed
pub mod Key
pub mod Unsigned
pub mod Fields
pub mod Values
pub mod RoundTrip
pub mod Finishes
use gachix.Prelude.{
  ℕ, zero, suc, ◌+◌, Bool, not, Option, none, some, List, [], ◌∷◌, ◌++◌, map, Result, ok, err,
  invalid_line, missing_key, if◌then◌else◌, and_then, map_all, cons_result,
}
use gachix.Bytes.{Bytes, bytes, bytes_eq}
use gachix.Text.{split_on, split_once, split_str, get_last, lines, join}
use gachix.Text.Trim.{trim}
use gachix.Text.Decimal.{show_u64, parse_u64}
use gachix.Nix.StorePath
use gachix.Nix.StorePath.{NixPath}

pub record NarInfo : Type 0 where
  pub store_path : NixPath
  pub key : Bytes
  pub url : Option Bytes
  pub compression_type : Option Bytes
  pub file_hash : Bytes
  pub file_size : ℕ
  pub nar_hash : Bytes
  pub nar_size : ℕ
  pub references : List NixPath
  pub deriver : Option NixPath
  pub signature : Option Bytes

unfoldable pub new :
    NixPath
    → Bytes
    → Bytes
    → ℕ
    → Option Bytes
    → Bytes
    → ℕ
    → Option NixPath
    → List NixPath
    → Option Bytes
    → NarInfo
new store_path key file_hash file_size compression_type nar_hash nar_size deriver references sig =
    record {
      store_path = store_path;
      key = key;
      url = none;
      compression_type = compression_type;
      file_hash = file_hash;
      file_size = file_size;
      nar_hash = nar_hash;
      nar_size = nar_size;
      references = references;
      deriver = deriver;
      signature = sig;
    }

-- The map that the lines are collected into: of equal keys the last line counts, which is the first
-- in the list.
abbrev pub Table : Type 0
Table = List (Bytes × Bytes)

unfoldable pub lookup : Bytes → Table → Option Bytes
lookup k [] = none
lookup k ((j, v) ∷ t) = let rest = lookup k t in if bytes_eq j k then some v else rest

unfoldable pub parse_line : ℕ → Bytes → Result (Bytes × Bytes)
parse_line line_num line = elim (split_once (bytes ": ") line) [
  | none ↦ err (invalid_line line_num line)
  | some (k, v) ↦ ok (trim k, trim v)
]

-- The lines from number `n` on, behind the table of those before.
unfoldable pub parse_lines : ℕ → List Bytes → Table → Result Table
parse_lines n [] table = ok table
parse_lines n (line ∷ rest) table =
    and_then (parse_line n line) (λ kv. parse_lines (n + 1) rest (kv ∷ table))

unfoldable pub get : Table → Bytes → Result Bytes
get table k = elim (lookup k table) [ none ↦ err (missing_key k) | some v ↦ ok v ]

abbrev pub first_piece : List Bytes → Bytes
first_piece [] = []
first_piece (p ∷ ps) = p

-- `url_str.split("nar/").last()…split(".").next()…`; neither `split` is ever without a piece.
unfoldable pub key_of_url : Bytes → Bytes
key_of_url url = first_piece (split_on b'.' (get_last [] (split_str (bytes "nar/") url)))

abbrev non_empty : Bytes → Option Bytes
non_empty [] = none
non_empty (c ∷ s) = some (c ∷ s)

unfoldable pub parse_deriver : Bytes → Result (Option NixPath)
parse_deriver [] = ok none
parse_deriver (c ∷ s) = and_then (StorePath.new (c ∷ s)) (λ p. ok (some p))

unfoldable pub parse_references : Bytes → Result (List NixPath)
parse_references [] = ok []
parse_references (c ∷ s) = map_all StorePath.new (split_on b' ' (c ∷ s))

-- The fields, in the order in which the code asks for them.
unfoldable pub parse_table : Table → Result NarInfo
parse_table table = and_then (get table (bytes "StorePath")) λ store_path_str.
    and_then (get table (bytes "Deriver")) λ deriver_str.
      and_then (get table (bytes "References")) λ references_str.
        and_then (get table (bytes "URL")) λ url_str.
          and_then (get table (bytes "Compression")) λ compression.
            and_then (parse_deriver deriver_str) λ deriver.
              and_then (parse_references references_str) λ references.
                and_then (StorePath.new store_path_str) λ store_path.
                  and_then (get table (bytes "FileHash")) λ file_hash.
                    and_then (and_then (get table (bytes "FileSize")) parse_u64) λ file_size.
                      and_then (get table (bytes "NarHash")) λ nar_hash.
                        and_then (and_then (get table (bytes "NarSize")) parse_u64) λ nar_size.
                          and_then (get table (bytes "Sig")) λ sig. ok (record {
                            store_path = store_path;
                            key = key_of_url url_str;
                            url = some url_str;
                            compression_type = non_empty compression;
                            file_hash = file_hash;
                            file_size = file_size;
                            nar_hash = nar_hash;
                            nar_size = nar_size;
                            references = references;
                            deriver = deriver;
                            signature = some sig;
                          })

unfoldable pub parse : Bytes → Result NarInfo
parse content = and_then (parse_lines 0 (lines (trim content)) []) parse_table

-- `get_dependencies`
unfoldable pub without_path : NixPath → List NixPath → List NixPath
without_path self [] = []
without_path self (r ∷ rs) =
    let rest = without_path self rs in if not (StorePath.eq r self) then r ∷ rest else rest

unfoldable pub get_dependencies : NarInfo → List NixPath
get_dependencies n = without_path n.store_path n.references

-- `format!("{}-{}", p.get_base_32_hash(), p.get_name())`
unfoldable pub base_name : NixPath → Bytes
base_name p = p.hash ++ (bytes "-" ++ p.name)

abbrev pub unwrap_or : Option Bytes → Bytes → Bytes
unwrap_or none d = d
unwrap_or (some s) d = s

abbrev pub base_name_or_empty : Option NixPath → Bytes
base_name_or_empty none = bytes ""
base_name_or_empty (some d) = base_name d

unfoldable pub field_line : Bytes → Bytes → Bytes
field_line key value = key ++ (bytes ": " ++ (value ++ bytes "\n"))

-- `Display::fmt`
unfoldable pub to_string : NarInfo → Bytes
to_string n =
    let references_str = join (bytes " ") (map base_name n.references) in
    let url = unwrap_or n.url (bytes "nar/" ++ (n.key ++ bytes ".nar")) in
    field_line (bytes "StorePath") n.store_path.path
    ++ (field_line (bytes "URL") url
        ++ (field_line (bytes "Compression") (unwrap_or n.compression_type (bytes "none"))
            ++ (field_line (bytes "FileHash") n.file_hash
                ++ (field_line (bytes "FileSize") (show_u64 n.file_size)
                    ++ (field_line (bytes "NarHash") n.nar_hash
                        ++ (field_line (bytes "NarSize") (show_u64 n.nar_size)
                            ++ (field_line (bytes "References") references_str
                                ++ (field_line (bytes "Deriver") (base_name_or_empty n.deriver)
                                    ++ field_line (bytes "Sig")
                                        (unwrap_or n.signature (bytes ""))))))))))

-- `fingerprint_store_object`
unfoldable pub fingerprint_store_object : NixPath → Bytes → ℕ → List NixPath → Bytes
fingerprint_store_object store_path nar_hash nar_size references =
    bytes "1;"
    ++ (store_path.path
        ++ (bytes ";"
            ++ (nar_hash
                ++ (bytes ";"
                    ++ (show_u64 nar_size
                        ++ (bytes ";" ++ join (bytes ",") (map (λ p. p.path) references)))))))
