-- ===== src/Nix/Tests.antt =====
-- The theorems of src/nix_interface at the narinfo of a small package.
use gachix.Nix.NarInfo.{to_string}
use gachix.Nix.NarInfo.Unsigned.{parse-to_string_unsigned}
use gachix.Nix.NarInfo.RoundTrip.{IsSigned, read_back, parse-to_string}
use gachix.Nix.StorePath.BaseName.{IsPath}
use gachix.Nix.NarInfo.Key.{IsKeyByte, NoSlash, key_of_url-append}
use gachix.Prelude.{Error, none, err, All, arith, ◌≡◌, refl, some, [], ◌∷◌, ◌++◌, ok, String, map}
use gachix.Bytes.{Bytes, bytes, bytes_eq}
use gachix.Bytes.Utf8.{is_utf8}
use gachix.Text.{
  starts_with, drop, split_on, split_once, split_str, get_last, lines, line_pieces, chomp, join,
}
use gachix.Text.Trim.{skip_space, skip_space_back, strip, trim_start, trim_end, trim}
use gachix.Text.Decimal.{parse_u64, read_unsigned, read_digits, in_range}
use gachix.Nix.StorePath
use gachix.Nix.StorePath.{NixPath, last_component, unless_parent, file_name, checked, split_stem}
use gachix.Nix.StorePath.WellFormed.{HasHash, new-HasHash}
use gachix.Nix.NarInfo.{
  NarInfo, lookup, get, key_of_url, parse_line, parse_lines, parse_deriver, parse_references,
  parse_table, parse,
}
use gachix.Nix.NarInfo.WellFormed.{IsWellFormed, parse-IsWellFormed}

abbrev hash : String
hash = "iylhaki6573cpsvspivjfsim700n46r3"

abbrev kitty_text : Bytes
kitty_text = bytes "/nix/store/iylhaki6573cpsvspivjfsim700n46r3-kitty-0.43.1"

abbrev kitty : NixPath
kitty = record { path = kitty_text; hash = bytes hash; name = bytes "kitty-0.43.1" }

new-HasHash_example :
    HasHash kitty
    × (kitty.path ≡ trim kitty_text)
    × (StorePath.file_name kitty_text ≡ some (kitty.hash ++ (bytes "-" ++ kitty.name)))
unfolding StorePath.new last_component unless_parent file_name checked split_stem bytes bytes_eq
    is_utf8 starts_with drop split_on split_once skip_space skip_space_back strip trim_start
    trim_end trim
new-HasHash_example = new-HasHash kitty_text kitty refl

abbrev content : Bytes
content = join (bytes "\n") (
    map bytes (
      "StorePath: /nix/store/iylhaki6573cpsvspivjfsim700n46r3-kitty-0.43.1"
      ∷ "URL: nar/0lfjpl49.nar.xz" ∷ "Compression: xz" ∷ "FileHash: sha256:0lfjpl49"
      ∷ "FileSize: 18391180" ∷ "NarHash: sha256:163xjwsv" ∷ "NarSize: 63152768"
      ∷ "References: iylhaki6573cpsvspivjfsim700n46r3-kitty-0.43.1"
      ∷ "Deriver: sm4iyczmq406d83inf5s1ynr5h5h4sym-kitty-0.43.1.drv"
      ∷ "Sig: cache.nixos.org-1:Nqjen==" ∷ []))

abbrev pub parsed : NarInfo
parsed = record {
  store_path = kitty;
  key = bytes "0lfjpl49";
  url = some (bytes "nar/0lfjpl49.nar.xz");
  compression_type = some (bytes "xz");
  file_hash = bytes "sha256:0lfjpl49";
  file_size = 18391180;
  nar_hash = bytes "sha256:163xjwsv";
  nar_size = 63152768;
  references =
      record {
        path = bytes "iylhaki6573cpsvspivjfsim700n46r3-kitty-0.43.1";
        hash = bytes hash;
        name = bytes "kitty-0.43.1";
      }
      ∷ [];
  deriver = some (record {
    path = bytes "sm4iyczmq406d83inf5s1ynr5h5h4sym-kitty-0.43.1.drv";
    hash = bytes "sm4iyczmq406d83inf5s1ynr5h5h4sym";
    name = bytes "kitty-0.43.1.drv";
  });
  signature = some (bytes "cache.nixos.org-1:Nqjen==");
}

parse-content : parse content ≡ ok parsed
unfolding join parse lookup get key_of_url parse_line parse_lines parse_deriver parse_references
    parse_table parse_u64 read_unsigned read_digits in_range lines line_pieces chomp split_str
    get_last StorePath.new last_component unless_parent file_name checked split_stem bytes bytes_eq
    is_utf8 starts_with drop split_on split_once skip_space skip_space_back strip trim_start
    trim_end trim
parse-content = refl

parse-IsWellFormed_example : IsWellFormed parsed
parse-IsWellFormed_example = parse-IsWellFormed content parsed parse-content

of_key : All IsKeyByte (bytes "0l")
unfolding bytes
of_key = ((λ e. omega arith, λ e. omega arith), ((λ e. omega arith, λ e. omega arith), tt))

of_extension : All NoSlash (bytes "nar.xz")
unfolding bytes
of_extension = (
  λ e. omega arith,
  (
    λ e. omega arith,
    (λ e. omega arith, (λ e. omega arith, (λ e. omega arith, (λ e. omega arith, tt)))),
  ),
)

key_of_url-append_example :
    key_of_url (bytes "nar/" ++ (bytes "0l" ++ b'.' ∷ bytes "nar.xz")) ≡ bytes "0l"
key_of_url-append_example = key_of_url-append (bytes "0l") (bytes "nar.xz") of_key of_extension

abbrev unsigned : NarInfo
unsigned = record parsed { signature = none }

parse-to_string_unsigned_example : (e : Error) × (parse (to_string unsigned) ≡ err e)
parse-to_string_unsigned_example = parse-to_string_unsigned unsigned refl

kitty-IsPath : IsPath kitty
unfolding StorePath.new last_component unless_parent file_name checked split_stem bytes bytes_eq
    is_utf8 starts_with drop split_on split_once skip_space skip_space_back strip trim_start
    trim_end trim
kitty-IsPath = (refl, omega arith)

pub parsed-IsSigned : IsSigned parsed (bytes "cache.nixos.org-1:Nqjen==")
unfolding StorePath.new last_component unless_parent file_name checked split_stem bytes bytes_eq
    is_utf8 starts_with drop split_on split_once skip_space skip_space_back strip trim_start
    trim_end trim
parsed-IsSigned = record {
  signed = refl;
  signature_visible = omega arith;
  signature_given = λ e. cc;
  path_read = kitty-IsPath;
  url_visible = omega arith;
  compression_visible = omega arith;
  compression_given = λ e. cc;
  file_hash_visible = omega arith;
  nar_hash_visible = omega arith;
  file_size_short = omega arith;
  nar_size_short = omega arith;
  references_read = ((refl, omega arith), tt);
  deriver_read = (refl, omega arith);
}

parse-to_string_example :
    (parse (to_string parsed) ≡ ok (read_back parsed))
    × (to_string (read_back parsed) ≡ to_string parsed)
parse-to_string_example = parse-to_string parsed (bytes "cache.nixos.org-1:Nqjen==") parsed-IsSigned
