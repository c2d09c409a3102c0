-- ===== src/Prelude/Preorders.antt =====
-- What an action does to its state, whether it returns or fails: it only moves along a preorder. One
-- rule for each way to build an action.
use mathlib.Core.Bool.{Bool, true, false}
use gachix.Prelude.Tests.{if◌then◌else◌}
use gachix.Prelude.Effects.{Error, Result, ok, err, Exec, pure, raise, continue, ◌>>=◌, ◌>>◌}

pub record Preorder (S : Type 0) : Type 1 where
  pub rel : S → S → Type 0
  pub rel_refl : (s : S) → rel s s
  pub rel_trans : (s t u : S) → rel s t → rel t u → rel s u

pub record Moves {S A : Type 0} (P : Preorder S) (m : Exec S A) : Type 0 where
  pub at : (s : S) → P.rel s (m s).1

module _ {S A : Type 0} (P : Preorder S) where
  pub Moves-pure : (a : A) → Moves P (pure a)
  Moves-pure a = record { at = λ s. P.rel_refl s }

  pub Moves-raise : (e : Error) → Moves P (raise {A = A} e)
  Moves-raise e = record { at = λ s. P.rel_refl s }

  -- An action that only reads the state.
  pub Moves-reads : (f : S → Result A) → Moves P (λ s. (f s, s))
  Moves-reads f = record { at = λ s. P.rel_refl s }

  pub Moves-if : (b : Bool) (m n : Exec S A) → Moves P m → Moves P n → Moves P (if b then m else n)
  Moves-if true m n hm hn = hm
  Moves-if false m n hm hn = hn

module _ {S A B : Type 0} (P : Preorder S) where
  pub continue-rel :
      (s : S) (x : Result A × S) (f : A → Exec S B)
      → P.rel s x.1
      → ((a : A) → Moves P (f a))
      → P.rel s (continue x f).1
  continue-rel s (ok a, t) f h hf = P.rel_trans s t (f a t).1 h ((hf a).at t)
  continue-rel s (err e, t) f h hf = h

  pub Moves-bind :
      (m : Exec S A) (f : A → Exec S B) → Moves P m → ((a : A) → Moves P (f a)) → Moves P (m >>= f)
  Moves-bind m f hm hf = record { at = λ s. continue-rel s (m s) f (hm.at s) hf }

  pub Moves-then : (m : Exec S A) (n : Exec S B) → Moves P m → Moves P n → Moves P (m >> n)
  Moves-then m n hm hn = record { at = λ s. continue-rel s (m s) (λ _. n) (hm.at s) (λ _. hn) }

pub ruleset moves_rules = (Moves-pure, Moves-raise, Moves-reads, Moves-if, Moves-bind, Moves-then)
