-- ===== src/Nar/Identity.antt =====
-- An archive that is stored and served again.
use gachix.Prelude.{ℕ, ◌+◌, ◌<◌, ◌≡◌, [], length, ok, append-nil}
use gachix.Git.{Git}
use gachix.Git.Laws.{GitLaws}
use gachix.Nar.Format.{Node, strings, archive}
use gachix.Nar.Stored.{mode_of}
use gachix.Nar.Archivable.{IsArchivable}
use gachix.Nar.Stream.{new, collect, joined}
use gachix.Nar.Stream.Correct.{stream-eq-archive}
use gachix.Nar.Decode.{parse}
use gachix.Nar.Decode.RoundTrip.{parse-archive}

module _ {Repo Oid Builder : Type 0} {g : Git Repo Oid Builder} (laws : GitLaws g) where
  -- The archive of any object with names that the format and git allow is decoded, and the stream
  -- started on the id and the file mode that the decoder returned, over the repository that it left,
  -- gives the very bytes that were decoded, with fuel above the number of chunks.
  pub stream-parse :
      (n : Node) (r : Repo) (f : ℕ)
      → IsArchivable laws.valid_name n
      → length (strings n) + 1 < f
      → (o : Oid) × (s : Repo) × (parse g (archive n, r) ≡ (ok (o, mode_of n), ([], s)))
        × (joined (collect g s f (new o (mode_of n))) ≡ ok (archive n))
  stream-parse n r f a fuel =
      let (o, s, e, held, kept) = parse-archive laws n [] r a in
      (o, s, rw append-nil at e, stream-eq-archive laws s n o (mode_of n) f held fuel)
