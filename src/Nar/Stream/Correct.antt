-- ===== src/Nar/Stream/Correct.antt =====
-- What the stream emits for an object that the database holds.
use gachix.Prelude.{
  ℕ, ◌+◌, ◌≡◌, refl, ap, sym, ◌∙◌, inl, inr, Bool, true, false, List, [], ◌∷◌, ◌++◌, length, map,
  ok, arith, append_assoc, append-nil, none, ◌<◌, ◌%◌, ◌-◌, ltb, Bool-cases,
}
use gachix.Bytes.{Bytes, bytes}
use gachix.Git.{Git, Object, OwnedTreeEntry}
use gachix.Git.Laws.{GitLaws, Has}
use gachix.Nar.Format.{
  Node, Entries, regular, symlink, directory, no_entries, entry, strings, entry_strings,
  padding_some, padding_none, padded, written, archive,
}
use gachix.Nar.Sort.{sort_by_name}
use gachix.Nar.Stored.{Holds, HoldEntries, HasUtf8Names, depth}
use gachix.Nar.Stream.{
  chunk, TraversalState, start_node, process_tree_entries, finish_tree_entry, finish_node, ready,
  new, round, collect, joined, write_padded_bytes,
}
use gachix.Nar.{nix_version_magic}
use gachix.Nar.Encode.{encode}
use gachix.Nar.Encode.Correct.{encode-eq-archive}
use gachix.Nar.Stream.Steps.{at}
use gachix.Nar.Stream.Emits.{Emits, Emits-append, Emits-handle, Emits-pending, collect-Emits}
use gachix.Nar.Stream.Handle.{
  as_chunks, handle-leaf, handle-link, handle-directory, Emits-finish_node, Emits-finish_tree_entry,
  handle-entry, Emits-no_entries,
}

chunks-append : (ss ts : List Bytes) → map chunk (ss ++ ts) ≡ map chunk ss ++ map chunk ts
chunks-append [] ts = refl
chunks-append (s ∷ ss) ts = ap (λ l. chunk s ∷ l) (chunks-append ss ts)

module _ {Repo Oid Builder : Type 0} {g : Git Repo Oid Builder} (laws : GitLaws g) (r : Repo) where
  abbrev EmitsNode : Node → Type 0
  EmitsNode n =
      (o : Oid) (m : ℕ) (stack : List (TraversalState Oid))
      → Holds g r o m n
      → Emits g r (at (start_node o m ∷ finish_node ∷ stack) []) (as_chunks laws r (strings n))
          (at stack [])

  abbrev EmitsEntries : Entries → Type 0
  EmitsEntries es =
      (fs : List (OwnedTreeEntry Oid)) (stack : List (TraversalState Oid))
      → HoldEntries g r fs es
      → Emits g r (at (process_tree_entries fs ∷ stack) []) (as_chunks laws r (entry_strings es))
          (at stack [])

  Emits-regular : (e : Bool) (c : Bytes) → EmitsNode (regular e c)
  unfolding Holds strings
  Emits-regular true c o m stack h = rw h.0 (
      Emits-append g r
        (Emits-handle g r _ _ _ _ (handle-leaf laws r true o c (finish_node ∷ stack) h.1))
        (Emits-finish_node laws r stack))
  Emits-regular false c o m stack h = rw h.0 (
      Emits-append g r
        (Emits-handle g r _ _ _ _ (handle-leaf laws r false o c (finish_node ∷ stack) h.1))
        (Emits-finish_node laws r stack))

  Emits-none : EmitsEntries no_entries
  unfolding Holds strings
  Emits-none [] stack h = Emits-no_entries laws r stack
  Emits-none (f ∷ fs) stack h = elim h [ ]

  Emits-entry :
      (name : Bytes) (n : Node) (es : Entries)
      → EmitsNode n
      → EmitsEntries es
      → EmitsEntries (entry name n es)
  unfolding Holds strings
  Emits-entry name n es node rest [] stack h = elim h [ ]
  Emits-entry name n es node rest (f ∷ fs) stack h =
      rw (chunks-append (strings n) (bytes ")" ∷ entry_strings es), ← h.0)
        (Emits-append g r (Emits-handle g r _ _ _ _ (handle-entry laws r f fs stack)) (
          Emits-append g r
            (node f.id f.filemode (finish_tree_entry ∷ process_tree_entries fs ∷ stack) h.1)
            (Emits-append g r (Emits-finish_tree_entry laws r (process_tree_entries fs ∷ stack))
              (rest fs stack h.2))))

  mutual
    unfolding Holds strings

    Emits-node : (n : Node) → EmitsNode n
    Emits-node (regular e c) = Emits-regular e c
    Emits-node (symlink t) = λ o m stack h. rw h.0 (
        Emits-append g r
          (Emits-handle g r _ _ _ _ (handle-link laws r o t (finish_node ∷ stack) h.1))
          (Emits-finish_node laws r stack))
    Emits-node (directory es) = λ o m stack h.
        rw (h.0, chunks-append (entry_strings es) (bytes ")" ∷ []))
          (Emits-append g r
            (Emits-handle g r _ _ _ _ (handle-directory laws r o h.1 (finish_node ∷ stack) h.2))
            (Emits-append g r (Emits-entries es (sort_by_name h.1) (finish_node ∷ stack) h.3)
              (Emits-finish_node laws r stack)))

    Emits-entries : (es : Entries) → EmitsEntries es
    Emits-entries no_entries = Emits-none
    Emits-entries (entry name n es) = Emits-entry name n es (Emits-node n) (Emits-entries es)

  Emits-new :
      (n : Node) (o : Oid) (m : ℕ)
      → Holds g r o m n
      → Emits g r (new o m) (as_chunks laws r (nix_version_magic ∷ strings n)) (at [] [])
  unfolding new
  Emits-new n o m h =
      Emits-append g r
        (Emits-pending g r (start_node o m ∷ finish_node ∷ [])
          (as_chunks laws r (nix_version_magic ∷ [])))
        (Emits-node n o m [] h)

  round_ended : round g r (at [] []) ≡ ready none (at [] [])
  unfolding round
  round_ended = refl

  length-chunks : (ss : List Bytes) → length (as_chunks laws r ss) ≡ length ss
  length-chunks [] = refl
  length-chunks (s ∷ ss) = omega (arith, length-chunks ss)

  -- With fuel above the number of chunks, collecting the stream of an object that the database holds
  -- gives the strings of its archive, a chunk for each.
  pub collect-new :
      (n : Node) (o : Oid) (m f : ℕ)
      → Holds g r o m n
      → length (strings n) + 1 < f
      → collect g r f (new o m) ≡ map chunk (nix_version_magic ∷ strings n)
  collect-new n o m f h fuel =
      collect-Emits g r (Emits-new n o m h) round_ended f (omega (arith, length-chunks (strings n)))

room : (n : ℕ) → ltb 0 (8 - n % 8) ≡ true
room n = ground arith

write_padded_bytes-eq : (bs : Bytes) → write_padded_bytes bs ≡ padded bs
unfolding write_padded_bytes padded
write_padded_bytes-eq bs = elim (Bool-cases (ltb 0 (length bs % 8))) [
  | inl more ↦ simp (more, room (length bs), padding_some (length bs) more, append_assoc)
  | inr full ↦ simp (full, padding_none (length bs) full, append-nil)
]

joined-chunks : (ss : List Bytes) → joined (map chunk ss) ≡ ok (written ss [])
unfolding joined written
joined-chunks [] = refl
joined-chunks (s ∷ ss) = rw (joined-chunks ss, write_padded_bytes-eq s)

module _ {Repo Oid Builder : Type 0} {g : Git Repo Oid Builder} (laws : GitLaws g) (r : Repo) where
  -- The bytes of the stream are the archive of the object.
  pub stream-eq-archive :
      (n : Node) (o : Oid) (m f : ℕ)
      → Holds g r o m n
      → length (strings n) + 1 < f
      → joined (collect g r f (new o m)) ≡ ok (archive n)
  unfolding archive
  stream-eq-archive n o m f h fuel =
      rw (collect-new laws r n o m f h fuel) (joined-chunks (nix_version_magic ∷ strings n))

  -- The iterative encoder gives the bytes of the recursive one, for an object whose names are UTF-8,
  -- both with enough fuel.
  pub stream-eq-encode :
      (n : Node) (o : Oid) (m f k : ℕ) (x : Object Oid)
      → Holds g r o m n
      → Has g r o x
      → HasUtf8Names n
      → length (strings n) + 1 < f
      → depth n < k
      → joined (collect g r f (new o m)) ≡ encode g r k x m
  stream-eq-encode n o m f k x h hx u fuel deep =
      stream-eq-archive n o m f h fuel ∙ sym (encode-eq-archive g r n o m k x h hx u deep)
