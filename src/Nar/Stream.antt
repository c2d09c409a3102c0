-- ===== src/Nar/Stream.antt =====
-- src/nar/encode_stream.rs: the iterative encoder `NarGitStream`, a state machine with a stack of
-- traversal states and a queue of chunks that are ready. `poll_next` does not suspend: it answers
-- `Ready` each time.
pub mod Steps
pub mod Emits
pub mod Handle
pub mod Correct
use gachix.Prelude.{
  ℕ, zero, suc, ◌+◌, ◌-◌, ◌%◌, Bool, true, false, Option, none, some, List, [], ◌∷◌, ◌++◌, length,
  replicate, Result, ok, err, panic, no_object, unsupported_filemode, unrecognized_file_type, ltb,
  ◌==◌, if◌then◌else◌,
}
use gachix.Bytes.{Bytes, bytes}
use gachix.Bytes.LittleEndian.{to_le_bytes}
use gachix.Git.{Git, Object, OwnedTreeEntry, ObjectType, FileMode, into, done, failed}
use gachix.Nar.{nix_version_magic, pad_len}
use gachix.Nar.Sort.{sort_by_name}

-- The capacity of the buffer is no part of its value.
unfoldable pub write_padded_bytes : Bytes → Bytes
write_padded_bytes bs =
    let remainder = length bs % pad_len in
    let padding_len = if ltb 0 remainder then pad_len - remainder else 0 in
    let buf = to_le_bytes (length bs) ++ bs in
    if ltb 0 padding_len then buf ++ replicate padding_len 0 else buf

abbrev pub chunk : Bytes → Result Bytes
chunk bs = ok (write_padded_bytes bs)

pub data TraversalState (Oid : Type 0) : Type 0 where
  start_node : Oid → ℕ → TraversalState Oid
  process_tree_entries : List (OwnedTreeEntry Oid) → TraversalState Oid
  finish_tree_entry : TraversalState Oid
  finish_node : TraversalState Oid

-- The last element of the `Vec` is the head of `stack`, and the front of the `VecDeque` is the head
-- of `pending_chunks`.
pub record NarGitStream (Oid : Type 0) : Type 0 where
  pub stack : List (TraversalState Oid)
  pub pending_chunks : List (Result Bytes)

-- One round of the loop in `poll_next`: it returns `Poll::Ready`, or goes on.
pub data Round (Oid : Type 0) : Type 0 where
  ready : Option (Result Bytes) → NarGitStream Oid → Round Oid
  again : NarGitStream Oid → Round Oid

-- The `OwnedData` of a node.
pub data OwnedData (Oid : Type 0) : Type 0 where
  tree_entries : List (OwnedTreeEntry Oid) → OwnedData Oid
  blob : Bytes → Bool → OwnedData Oid
  link_target : Bytes → OwnedData Oid

unfoldable pub kind_of_mode : ℕ → ObjectType
kind_of_mode filemode = if filemode == into FileMode.tree then ObjectType.tree else ObjectType.blob

module _ {Oid : Type 0} where
  unfoldable pub new : Oid → ℕ → NarGitStream Oid
  new root_obj root_obj_filemode = record {
    stack = start_node root_obj root_obj_filemode ∷ finish_node ∷ [];
    pending_chunks = chunk nix_version_magic ∷ [];
  }

  unfoldable pub push_chunks : NarGitStream Oid → List Bytes → NarGitStream Oid
  push_chunks s [] = s
  push_chunks s (bs ∷ rest) =
      push_chunks (record s { pending_chunks = s.pending_chunks ++ chunk bs ∷ [] }) rest

  abbrev pub push : TraversalState Oid → NarGitStream Oid → NarGitStream Oid
  push t s = record s { stack = t ∷ s.stack }

  -- The strings of the node type, with the data, or the error of a file mode that is not one of a
  -- blob.
  unfoldable pub blob_data : Bytes → ℕ → Result (Bytes × OwnedData Oid)
  blob_data content filemode =
      if filemode == into FileMode.blob_executable
      then ok (bytes "regular", OwnedData.blob content true)
      else if filemode == into FileMode.blob
      then ok (bytes "regular", OwnedData.blob content false)
      else if filemode == into FileMode.link
      then ok (bytes "symlink", link_target content)
      else err (unsupported_filemode filemode)

  -- `match kind { … }`; `as_tree().unwrap()` and `as_blob().unwrap()` panic on another type.
  unfoldable pub node_data : ObjectType → Object Oid → ℕ → Result (Bytes × OwnedData Oid)
  node_data ObjectType.tree (Object.tree es) filemode =
      ok (bytes "directory", tree_entries (sort_by_name es))
  node_data ObjectType.tree _ filemode = err panic
  node_data ObjectType.blob (Object.blob content) filemode = blob_data content filemode
  node_data ObjectType.blob _ filemode = err panic
  node_data _ _ filemode = err unrecognized_file_type

  unfoldable pub push_data : OwnedData Oid → NarGitStream Oid → NarGitStream Oid
  push_data (tree_entries es) s = push (process_tree_entries es) s
  push_data (OwnedData.blob content true) s =
      push_chunks s (bytes "executable" ∷ bytes "" ∷ bytes "contents" ∷ content ∷ [])
  push_data (OwnedData.blob content false) s = push_chunks s (bytes "contents" ∷ content ∷ [])
  push_data (link_target target) s = push_chunks s (bytes "target" ∷ target ∷ [])

  -- The end of the arm for `StartNode`: an error returns at once.
  unfoldable pub push_node : Result (Bytes × OwnedData Oid) → NarGitStream Oid → Round Oid
  push_node (err e) s = ready (some (err e)) s
  push_node (ok (node_type, data')) s = again (push_data data' (push_chunks s (node_type ∷ [])))

  unfoldable pub process_entries : List (OwnedTreeEntry Oid) → NarGitStream Oid → Round Oid
  process_entries [] s = again s
  process_entries (e ∷ es) s = again (
      push_chunks
        (push (start_node e.id e.filemode)
          (push finish_node (push finish_tree_entry (push (process_tree_entries es) s))))
        (bytes "entry" ∷ bytes "(" ∷ bytes "name" ∷ e.name ∷ bytes "node" ∷ []))

-- What the stream answers; `stalled` is the model's bound on the rounds, which is never met.
pub data Poll (Oid : Type 0) : Type 0 where
  ready : Option (Result Bytes) → Poll Oid
  stalled : Poll Oid

module _ {Oid : Type 0} where
  -- What one poll adds to a collection, with `rest` for the polls after it.
  abbrev pub gather :
      Poll Oid × NarGitStream Oid → (NarGitStream Oid → List (Result Bytes)) → List (Result Bytes)
  gather (Poll.ready (some c), s) rest = c ∷ rest s
  gather (Poll.ready none, s) rest = []
  gather (stalled, s) rest = []

module _ {Repo Oid Builder : Type 0} (g : Git Repo Oid Builder) (repo : Repo) where
  -- The object, or the error of the `let … else`.
  unfoldable pub find_node : Oid → ObjectType → Result (Object Oid)
  find_node oid kind = elim (g.find_object oid (some kind) repo) [
    | done x ↦ ok x
    | failed c ↦ err no_object
  ]

  unfoldable pub read_node : Oid → ℕ → Result (Bytes × OwnedData Oid)
  read_node oid filemode = elim (find_node oid (kind_of_mode filemode)) [
    | ok x ↦ node_data (kind_of_mode filemode) x filemode
    | err e ↦ err e
  ]

  -- `match current_state { … }`
  unfoldable pub handle : TraversalState Oid → NarGitStream Oid → Round Oid
  handle (start_node oid filemode) s =
      push_node (read_node oid filemode) (push_chunks s (bytes "(" ∷ bytes "type" ∷ []))
  handle (process_tree_entries es) s = process_entries es s
  handle finish_tree_entry s = again (push_chunks s (bytes ")" ∷ []))
  handle finish_node s = again (push_chunks s (bytes ")" ∷ []))

  unfoldable pub round_from : List (TraversalState Oid) → List (Result Bytes) → Round Oid
  round_from stack (c ∷ rest) = ready (some c) (record { stack = stack; pending_chunks = rest })
  round_from [] [] = ready none (record { stack = []; pending_chunks = [] })
  round_from (t ∷ stack) [] = handle t (record { stack = stack; pending_chunks = [] })

  unfoldable pub round : NarGitStream Oid → Round Oid
  unfolding round_from
  round s = round_from s.stack s.pending_chunks

  -- The loop, for as many rounds as the fuel allows.
  unfoldable pub poll_loop : ℕ → NarGitStream Oid → Poll Oid × NarGitStream Oid
  poll_loop zero s = (stalled, s)
  poll_loop (suc fuel) s = elim (round s) [
    | ready p s' ↦ (Poll.ready p, s')
    | again s' ↦ poll_loop fuel s'
  ]

  -- A round that goes on leaves a chunk to return or a shorter stack.
  unfoldable pub poll_next : NarGitStream Oid → Poll Oid × NarGitStream Oid
  poll_next s = poll_loop (length s.stack + 2) s

  -- The chunks of up to `fuel` polls, up to the end of the stream: `nar_stream.collect()`.
  unfoldable pub collect : ℕ → NarGitStream Oid → List (Result Bytes)
  collect zero s = []
  collect (suc fuel) s = gather (poll_next s) (collect fuel)

-- The chunks put together, up to the first error: what a client that reads the whole stream has, as
-- the test of the stream does.
unfoldable pub joined : List (Result Bytes) → Result Bytes
joined [] = ok []
joined (err e ∷ rest) = err e
joined (ok bs ∷ rest) = elim (joined rest) [ ok more ↦ ok (bs ++ more) | err e ↦ err e ]
