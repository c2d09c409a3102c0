-- ===== src/Nar/Stream/Steps.antt =====
-- A poll of the stream always answers.
use gachix.Prelude.{
  ℕ, zero, suc, ◌+◌, ◌<◌, ◌≡◌, ◌≢◌, refl, inl, inr, ◌⊎◌, Option, List, [], ◌∷◌, ◌++◌, length,
  Result, ok, err, arith, append_assoc, append-nil, map, sym, ◌∙◌, subst, true, false,
}
use gachix.Bytes.{Bytes, bytes}
use gachix.Git.{Git}
use gachix.Nar.Stream.{
  chunk, TraversalState, NarGitStream, start_node, process_tree_entries, finish_tree_entry,
  finish_node, Round, ready, again, OwnedData, tree_entries, link_target, push_chunks, push_data,
  push_node, process_entries, Poll, stalled, handle, round_from, round, poll_loop, poll_next,
  read_node,
}

module _ {Oid : Type 0} where
  abbrev pub at : List (TraversalState Oid) → List (Result Bytes) → NarGitStream Oid
  at stack chunks = record { stack = stack; pending_chunks = chunks }

  -- The chunks are pushed behind those that wait, and the stack is left alone.
  pub push_chunks-eq :
      (s : NarGitStream Oid) (ss : List Bytes)
      → push_chunks s ss
        ≡ record { stack = s.stack; pending_chunks = s.pending_chunks ++ map chunk ss }
  unfolding push_chunks
  push_chunks-eq s [] = rw append-nil
  push_chunks-eq s (b ∷ ss) =
      push_chunks-eq (at s.stack (s.pending_chunks ++ chunk b ∷ [])) ss ∙ rw append_assoc

module _ {Oid : Type 0} where
  -- How many rounds a poll may take before the one that answers.
  abbrev pub rounds_before : List (TraversalState Oid) → List (Result Bytes) → ℕ
  rounds_before stack [] = length stack + 1
  rounds_before stack (c ∷ cs) = 0

  abbrev pub waiting : NarGitStream Oid → ℕ
  waiting s = rounds_before s.stack s.pending_chunks

  rounds_before-append :
      (stack : List (TraversalState Oid)) (cs ds : List (Result Bytes)) (c : Result Bytes)
      → rounds_before stack (cs ++ c ∷ ds) ≡ 0
  rounds_before-append stack [] ds c = refl
  rounds_before-append stack (b ∷ cs) ds c = refl

  rounds_before_any :
      (stack stack' : List (TraversalState Oid)) (cs : List (Result Bytes))
      → rounds_before stack cs ≡ 0
      → rounds_before stack' cs ≡ 0
  rounds_before_any stack stack' [] h = absurd (omega arith)
  rounds_before_any stack stack' (c ∷ cs) h = refl

  waiting-push_chunks :
      (s : NarGitStream Oid) (b : Bytes) (ss : List Bytes) → waiting (push_chunks s (b ∷ ss)) ≡ 0
  waiting-push_chunks s b ss =
      rw push_chunks-eq (rounds_before-append s.stack s.pending_chunks (map chunk ss) (chunk b))

  waiting-push_data :
      (d : OwnedData Oid) (s : NarGitStream Oid) → waiting s ≡ 0 → waiting (push_data d s) ≡ 0
  unfolding push_data
  waiting-push_data (tree_entries es) s h =
      rounds_before_any s.stack (process_tree_entries es ∷ s.stack) s.pending_chunks h
  waiting-push_data (OwnedData.blob c true) s h = waiting-push_chunks s _ _
  waiting-push_data (OwnedData.blob c false) s h = waiting-push_chunks s _ _
  waiting-push_data (link_target t) s h = waiting-push_chunks s _ _

  -- The round answers, or goes on with fewer than `k` rounds before the answer.
  abbrev Approaches : ℕ → Round Oid → Type 0
  Approaches k (ready p s) = Unit
  Approaches k (again s) = waiting s < k

  Approaches-push_node :
      (k : ℕ) (d : Result (Bytes × OwnedData Oid)) (s : NarGitStream Oid)
      → 0 < k
      → Approaches k (push_node d s)
  unfolding push_node
  Approaches-push_node k (err e) s h = tt
  Approaches-push_node k (ok (b, d)) s h =
      omega (arith, waiting-push_data d (push_chunks s (b ∷ [])) (waiting-push_chunks s b []))

module _ {Repo Oid Builder : Type 0} (g : Git Repo Oid Builder) (r : Repo) where
  round_from-Approaches :
      (stack : List (TraversalState Oid)) (cs : List (Result Bytes))
      → Approaches (rounds_before stack cs) (round_from g r stack cs)
  unfolding round_from handle process_entries
  round_from-Approaches stack (c ∷ cs) = tt
  round_from-Approaches [] [] = tt
  round_from-Approaches (start_node o m ∷ stack) [] =
      Approaches-push_node _ (read_node g r o m) _ (omega arith)
  round_from-Approaches (process_tree_entries [] ∷ stack) [] = omega arith
  round_from-Approaches (process_tree_entries (e ∷ es) ∷ stack) [] =
      omega (arith, waiting-push_chunks _ _ _)
  round_from-Approaches (finish_tree_entry ∷ stack) [] =
      omega (arith, waiting-push_chunks (at stack []) (bytes ")") [])
  round_from-Approaches (finish_node ∷ stack) [] =
      omega (arith, waiting-push_chunks (at stack []) (bytes ")") [])

  -- A round that goes on brings the answer nearer.
  round-waiting : (s t : NarGitStream Oid) → round g r s ≡ again t → waiting t < waiting s
  unfolding round
  round-waiting s t h =
      subst (Approaches (waiting s)) h (round_from-Approaches s.stack s.pending_chunks)

  Round-cases :
      (x : Round Oid)
      → ((p : Option (Result Bytes)) × (t : NarGitStream Oid) × (x ≡ ready p t))
        ⊎ ((t : NarGitStream Oid) × (x ≡ again t))
  Round-cases (ready p t) = inl (p, t, refl)
  Round-cases (again t) = inr (t, refl)

  poll_loop-ready :
      (f : ℕ) (s t : NarGitStream Oid) (p : Option (Result Bytes))
      → round g r s ≡ ready p t
      → poll_loop g r (suc f) s ≡ (Poll.ready p, t)
  unfolding poll_loop
  poll_loop-ready f s t p e = rw (e, poll_loop)

  poll_loop-again :
      (f : ℕ) (s t : NarGitStream Oid)
      → round g r s ≡ again t
      → poll_loop g r (suc f) s ≡ poll_loop g r f t
  unfolding poll_loop
  poll_loop-again f s t e = rw (e, poll_loop)

  -- Any fuel above the rounds before the answer gives the same answer.
  poll_loop-eq :
      (f k : ℕ) (s : NarGitStream Oid)
      → waiting s < f
      → waiting s < k
      → poll_loop g r f s ≡ poll_loop g r k s
  poll_loop-eq zero k s h l = absurd (omega arith)
  poll_loop-eq (suc f) zero s h l = absurd (omega arith)
  poll_loop-eq (suc f) (suc k) s h l = elim (Round-cases (round g r s)) [
    | inl (p, t, e) ↦ rw (poll_loop-ready f s t p e, poll_loop-ready k s t p e)
    | inr (t, e) ↦
        rw (poll_loop-again f s t e, poll_loop-again k s t e)
          (poll_loop-eq f k t (omega (arith, round-waiting s t e))
            (omega (arith, round-waiting s t e)))
  ]

  poll_loop-ne-stalled :
      (f : ℕ) (s : NarGitStream Oid) → waiting s < f → (poll_loop g r f s).0 ≢ stalled
  poll_loop-ne-stalled zero s h = absurd (omega arith)
  poll_loop-ne-stalled (suc f) s h = elim (Round-cases (round g r s)) [
    | inl (p, t, e) ↦ rw (poll_loop-ready f s t p e) (cc)
    | inr (t, e) ↦
        rw (poll_loop-again f s t e) (poll_loop-ne-stalled f t (omega (arith, round-waiting s t e)))
  ]

  waiting-le : (s : NarGitStream Oid) → waiting s < length s.stack + 2
  waiting-le s = go s.pending_chunks
    where
      go : (cs : List (Result Bytes)) → rounds_before s.stack cs < length s.stack + 2
      go [] = omega arith
      go (c ∷ cs) = omega arith

  -- In every state, over every repository, a poll answers: the rounds that the model allows are
  -- enough.
  pub poll_next-ne-stalled : (s : NarGitStream Oid) → (poll_next g r s).0 ≢ stalled
  unfolding poll_next
  poll_next-ne-stalled s = poll_loop-ne-stalled (length s.stack + 2) s (waiting-le s)

  -- The answer of `poll_next` is that of any loop with enough rounds.
  poll_next-eq :
      (k : ℕ) (s : NarGitStream Oid) → waiting s < k → poll_next g r s ≡ poll_loop g r k s
  unfolding poll_next
  poll_next-eq k s h = poll_loop-eq (length s.stack + 2) k s (waiting-le s) h

  pub poll_next-again :
      (s t : NarGitStream Oid) → round g r s ≡ again t → poll_next g r s ≡ poll_next g r t
  poll_next-again s t e =
      poll_next-eq (suc (waiting s)) s (omega arith)
      ∙ poll_loop-again (waiting s) s t e
      ∙ sym (poll_next-eq (waiting s) t (round-waiting s t e))

  pub poll_next-ready :
      (s t : NarGitStream Oid) (p : Option (Result Bytes))
      → round g r s ≡ ready p t
      → poll_next g r s ≡ (Poll.ready p, t)
  poll_next-ready s t p e =
      poll_next-eq (suc (waiting s)) s (omega arith) ∙ poll_loop-ready (waiting s) s t p e
