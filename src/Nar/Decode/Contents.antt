-- ===== src/Nar/Decode/Contents.antt =====
-- What the contents of a file and its tag take of the input.
use gachix.Prelude.{
  ℕ, ◌^◌, ◌<◌, ◌≡◌, refl, sym, ap, ◌∙◌, true, false, [], ◌∷◌, ◌++◌, length, append_assoc, Bool, Any,
  any,
}
use gachix.Bytes.{Bytes, bytes, bytes_eq, bytes_eq→eq}
use gachix.Git.{Git, FileMode, into, lift_git}
use gachix.Nar.Format.{Node, strings, executable_strings, padded, written}
use gachix.Nar.Stored.{regular_mode, mode_of}
use gachix.Nar.Decode.{read_expect, read_bytes_padded, on_repo, parse_tag, parse_contents}
use gachix.Nar.Decode.Reads.{
  Reads, Reads-pure, Reads-raise, Reads-bind, Reads-if, read_expect-Reads, read_bytes_padded-Reads,
  on_repo-Reads,
}
use gachix.Nar.Decode.Readable.{IsReadable, written_parts}

-- The bytes are those of an object's archive, behind the magic string, and the mode is its mode.
abbrev pub IsNode : {Oid : Type 0} → Oid × ℕ → Bytes → Type 0
IsNode x c = (n : Node) × (c ≡ written (strings n) []) × (x.1 ≡ mode_of n) × IsReadable n

pub regular_eq :
    (x : Bool) (tag s c d e : Bytes)
    → c ≡ padded tag
    → padded tag ++ d ≡ written (executable_strings x ++ bytes "contents" ∷ []) []
    → e ≡ written (s ∷ bytes ")" ∷ []) []
    → c ++ (d ++ e) ≡ written (executable_strings x ++ bytes "contents" ∷ s ∷ bytes ")" ∷ []) []
regular_eq x tag s c d e hc hd he =
    sym (append_assoc c d e)
    ∙ ap (λ t. (t ++ d) ++ e) hc
    ∙ ap (λ t. t ++ e) hd
    ∙ ap (λ t. written (executable_strings x ++ bytes "contents" ∷ []) [] ++ t) he
    ∙ sym (written_parts (executable_strings x ++ bytes "contents" ∷ []) (s ∷ bytes ")" ∷ []))
    ∙ ap (λ ss. written ss [])
        (append_assoc (executable_strings x) (bytes "contents" ∷ []) (s ∷ bytes ")" ∷ []))

module _ {Repo Oid Builder : Type 0} (g : Git Repo Oid Builder) where
  pub parse_contents-Reads :
      (m : ℕ)
      → Reads
          (λ x c.
            (s : Bytes) × (c ≡ written (s ∷ bytes ")" ∷ []) []) × (length s < 2 ^ 63) × (x.1 ≡ m))
          (parse_contents g m)
  unfolding parse_contents written
  parse_contents-Reads m = Reads-bind read_bytes_padded _ read_bytes_padded-Reads λ s c h.
      Reads-bind (on_repo (lift_git (g.write_blob s))) _
        (on_repo-Reads Any (lift_git (g.write_blob s)) (λ r. any _))
        λ o d (none_read, _).
          Reads-bind (read_expect (bytes ")")) _ (read_expect-Reads (bytes ")"))
            λ u e close. Reads-pure _ (o, m) (s, rw (h.0, none_read, close) refl, h.1, refl)

module _ {Repo : Type 0} where
  pub parse_tag-Reads :
      (tag : Bytes)
      → Reads {Repo = Repo}
          (λ m c.
            (x : Bool) × (padded tag ++ c
              ≡ written (executable_strings x ++ bytes "contents" ∷ []) [])
            × (m ≡ regular_mode x))
          (parse_tag tag)
  unfolding parse_tag written
  parse_tag-Reads tag =
      Reads-if (bytes_eq tag (bytes "executable")) _ _
        (λ executable.
          Reads-bind (read_expect (bytes "")) _ (read_expect-Reads (bytes "")) λ u c empty.
            Reads-bind (read_expect (bytes "contents")) _ (read_expect-Reads (bytes "contents"))
              λ v d contents.
                Reads-pure _ (into FileMode.blob_executable)
                  (true, rw (bytes_eq→eq tag _ executable, empty, contents) refl, refl))
        (λ _.
          Reads-if (bytes_eq tag (bytes "contents")) _ _
            (λ contents.
              Reads-pure _ (into FileMode.blob) (false, rw (bytes_eq→eq tag _ contents) refl, refl))
            (λ _. Reads-raise _ _))
