-- ===== src/Nar/Stream/Emits.antt =====
-- What the stream of src/nar/encode_stream.rs returns from one state to another, over all its polls.
use gachix.Prelude.{
  ℕ, zero, suc, ◌<◌, ◌≡◌, refl, none, some, List, [], ◌∷◌, ◌++◌, length, Result, arith, ap, ◌∙◌,
}
use gachix.Bytes.{Bytes}
use gachix.Git.{Git}
use gachix.Nar.Stream.{TraversalState, NarGitStream, ready, again, handle, round, collect}
use gachix.Nar.Stream.Steps.{at, poll_next-again, poll_next-ready}

module _ {Repo Oid Builder : Type 0} (g : Git Repo Oid Builder) (r : Repo) where
  -- From `s` the stream returns the chunks, one by one, and is then in the last state.
  pub data Emits : NarGitStream Oid → List (Result Bytes) → NarGitStream Oid → Type 0 where
    done : {s : NarGitStream Oid} → Emits s [] s
    emit :
        {s t u : NarGitStream Oid} {c : Result Bytes} {cs : List (Result Bytes)}
        → round g r s ≡ ready (some c) t
        → Emits t cs u
        → Emits s (c ∷ cs) u
    skip :
        {s t u : NarGitStream Oid} {cs : List (Result Bytes)}
        → round g r s ≡ again t
        → Emits t cs u
        → Emits s cs u

  pub Emits-append :
      {s t u : NarGitStream Oid} {cs ds : List (Result Bytes)}
      → Emits s cs t
      → Emits t ds u
      → Emits s (cs ++ ds) u
  Emits-append done n = n
  Emits-append (emit e m) n = emit e (Emits-append m n)
  Emits-append (skip e m) n = skip e (Emits-append m n)

  -- What waits in the queue is returned first.
  pub Emits-pending :
      (stack : List (TraversalState Oid)) (cs : List (Result Bytes))
      → Emits (at stack cs) cs (at stack [])
  unfolding round
  Emits-pending stack [] = done
  Emits-pending stack (c ∷ cs) = emit refl (Emits-pending stack cs)

  -- One state of the stack, handled, and the chunks that it pushed.
  pub Emits-handle :
      (t : TraversalState Oid) (stack stack' : List (TraversalState Oid)) (cs : List (Result Bytes))
      → handle g r t (at stack []) ≡ again (at stack' cs)
      → Emits (at (t ∷ stack) []) cs (at stack' [])
  unfolding round
  Emits-handle t stack stack' cs h = skip h (Emits-pending stack' cs)

module _ {Repo Oid Builder : Type 0} (g : Git Repo Oid Builder) (r : Repo) where
  -- Polling gives what a run emits: first a chunk, then the rest.
  gather-emit :
      (s t : NarGitStream Oid) (c : Result Bytes) (cs : List (Result Bytes)) (n : ℕ)
      → round g r s ≡ ready (some c) t
      → ((f : ℕ) → n < f → collect g r f t ≡ cs)
      → (f : ℕ) → suc n < f
      → collect g r f s ≡ c ∷ cs
  unfolding collect
  gather-emit s t c cs n d ih zero h = absurd (omega arith)
  gather-emit s t c cs n d ih (suc f) h =
      rw (poll_next-ready g r s t (some c) d) (ap (λ l. c ∷ l) (ih f (omega arith)))

  gather-skip :
      (s t : NarGitStream Oid) (f : ℕ) → round g r s ≡ again t → collect g r f s ≡ collect g r f t
  unfolding collect
  gather-skip s t zero d = refl
  gather-skip s t (suc f) d = rw (poll_next-again g r s t d)

  gather-done : (s t : NarGitStream Oid) (f : ℕ) → round g r s ≡ ready none t → collect g r f s ≡ []
  unfolding collect
  gather-done s t zero d = refl
  gather-done s t (suc f) d = rw (poll_next-ready g r s t none d)

  -- A run that ends where the stream ends is what collecting the stream gives.
  pub collect-Emits :
      {s u v : NarGitStream Oid} {cs : List (Result Bytes)}
      → Emits g r s cs u
      → round g r u ≡ ready none v
      → (f : ℕ) → length cs < f
      → collect g r f s ≡ cs
  collect-Emits {s} {v = v} done e f h = gather-done s v f e
  collect-Emits (emit {s} {t} {c = c} {cs} d m) e f h =
      gather-emit s t c cs (length cs) d (collect-Emits m e) f h
  collect-Emits (skip {s} {t} d m) e f h = gather-skip s t f d ∙ collect-Emits m e f h
