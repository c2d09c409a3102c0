-- ===== src/Nar/Stream/Handle.antt =====
-- What the stream emits in a single step, for each state of the traversal.
use gachix.Prelude.{◌≡◌, refl, Bool, true, false, List, [], ◌∷◌, ◌++◌, map, Result, ok}
use gachix.Bytes.{Bytes, bytes}
use gachix.Git.{Git, Object, OwnedTreeEntry, FileMode, into, kind_of, tree, blob}
use gachix.Git.Laws.{GitLaws, Has}
use gachix.Nar.Format.{executable_strings}
use gachix.Nar.Sort.{sort_by_name}
use gachix.Nar.Stored.{regular_mode}
use gachix.Nar.Stream.{
  chunk, TraversalState, start_node, process_tree_entries, finish_tree_entry, finish_node, again,
  OwnedData, push_data, push_node, process_entries, handle, kind_of_mode, blob_data, node_data,
  find_node, read_node,
}
use gachix.Nar.Stream.Steps.{at, push_chunks-eq}
use gachix.Nar.Stream.Emits.{Emits, Emits-handle}

module _ {Repo Oid Builder : Type 0} {g : Git Repo Oid Builder} (laws : GitLaws g) (r : Repo) where
  abbrev pub as_chunks : List Bytes → List (Result Bytes)
  as_chunks = map chunk

  find_node-eq : (o : Oid) (x : Object Oid) → Has g r o x → find_node g r o (kind_of x) ≡ ok x
  unfolding find_node
  find_node-eq o x h = rw (laws.find_typed o x r h, find_node)

  read_regular :
      (e : Bool) (o : Oid) (c : Bytes)
      → Has g r o (blob c)
      → read_node g r o (regular_mode e) ≡ ok (bytes "regular", OwnedData.blob c e)
  unfolding read_node kind_of_mode node_data blob_data kind_of
  read_regular true o c h = rw (find_node-eq o (blob c) h, read_node)
  read_regular false o c h = rw (find_node-eq o (blob c) h, read_node)

  read_link :
      (o : Oid) (c : Bytes)
      → Has g r o (blob c)
      → read_node g r o (into FileMode.link) ≡ ok (bytes "symlink", OwnedData.link_target c)
  unfolding read_node kind_of_mode node_data blob_data kind_of
  read_link o c h = rw (find_node-eq o (blob c) h, read_node)

  read_directory :
      (o : Oid) (fs : List (OwnedTreeEntry Oid))
      → Has g r o (tree fs)
      → read_node g r o (into FileMode.tree)
        ≡ ok (bytes "directory", OwnedData.tree_entries (sort_by_name fs))
  unfolding read_node kind_of_mode node_data kind_of
  read_directory o fs h = rw (find_node-eq o (tree fs) h, read_node)

  pub handle-leaf :
      (e : Bool) (o : Oid) (c : Bytes) (stack : List (TraversalState Oid))
      → Has g r o (blob c)
      → handle g r (start_node o (regular_mode e)) (at stack [])
        ≡ again (
            at stack (
              as_chunks (
                bytes "("
                ∷ bytes "type"
                ∷ bytes "regular"
                ∷ (executable_strings e ++ bytes "contents" ∷ c ∷ []))))
  unfolding handle push_node push_data
  handle-leaf true o c stack h = rw (read_regular true o c h) (simp push_chunks-eq)
  handle-leaf false o c stack h = rw (read_regular false o c h) (simp push_chunks-eq)

  pub handle-link :
      (o : Oid) (c : Bytes) (stack : List (TraversalState Oid))
      → Has g r o (blob c)
      → handle g r (start_node o (into FileMode.link)) (at stack [])
        ≡ again (
            at stack
              (as_chunks (bytes "(" ∷ bytes "type" ∷ bytes "symlink" ∷ bytes "target" ∷ c ∷ [])))
  unfolding handle push_node push_data
  handle-link o c stack h = rw (read_link o c h) (simp push_chunks-eq)

  pub handle-directory :
      (o : Oid) (fs : List (OwnedTreeEntry Oid)) (stack : List (TraversalState Oid))
      → Has g r o (tree fs)
      → handle g r (start_node o (into FileMode.tree)) (at stack [])
        ≡ again (
            at
              (process_tree_entries (sort_by_name fs) ∷ stack)
              (as_chunks (bytes "(" ∷ bytes "type" ∷ bytes "directory" ∷ [])))
  unfolding handle push_node push_data
  handle-directory o fs stack h = rw (read_directory o fs h) (simp push_chunks-eq)

  pub Emits-finish_node :
      (stack : List (TraversalState Oid))
      → Emits g r (at (finish_node ∷ stack) []) (as_chunks (bytes ")" ∷ [])) (at stack [])
  unfolding handle
  Emits-finish_node stack =
      Emits-handle g r finish_node stack stack (as_chunks (bytes ")" ∷ [])) (simp push_chunks-eq)

  pub Emits-finish_tree_entry :
      (stack : List (TraversalState Oid))
      → Emits g r (at (finish_tree_entry ∷ stack) []) (as_chunks (bytes ")" ∷ [])) (at stack [])
  unfolding handle
  Emits-finish_tree_entry stack =
      Emits-handle g r finish_tree_entry stack stack (as_chunks (bytes ")" ∷ []))
        (simp push_chunks-eq)

  pub handle-entry :
      (f : OwnedTreeEntry Oid) (fs : List (OwnedTreeEntry Oid)) (stack : List (TraversalState Oid))
      → handle g r (process_tree_entries (f ∷ fs)) (at stack [])
        ≡ again (
            at
              (start_node f.id f.filemode
                ∷ finish_node
                ∷ finish_tree_entry
                ∷ process_tree_entries fs
                ∷ stack)
              (as_chunks (bytes "entry" ∷ bytes "(" ∷ bytes "name" ∷ f.name ∷ bytes "node" ∷ [])))
  unfolding handle process_entries
  handle-entry f fs stack = simp push_chunks-eq

  pub Emits-no_entries :
      (stack : List (TraversalState Oid))
      → Emits g r (at (process_tree_entries [] ∷ stack) []) [] (at stack [])
  unfolding handle process_entries
  Emits-no_entries stack = Emits-handle g r (process_tree_entries []) stack stack [] refl
