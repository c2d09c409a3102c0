-- ===== src/Prelude/Effects.antt =====
-- Fallible code, and fallible code over a state that it mutates. What was written before an error
-- stays written, so the state comes back beside the error too.
use Prim.Native.Nat.{ℕ}
use mathlib.Core.Bool.{Bool, true, false}
use mathlib.Core.Path.{◌≡◌, refl, subst}
use gachix.Prelude.Lists.{All}
use mathlib.Core.List.{List, [], ◌∷◌}

-- `git2::ErrorCode`, as far as the program tells codes apart.
pub data GitCode : Type 0 where
  not_found exists generic : GitCode

-- One constructor for each way in which the code fails; texts of messages are left out.
pub data Error : Type 0 where
  unexpected_eof bad_padding capacity_overflow invalid_utf8 : Error
  wrong_length : List ℕ → ℕ → Error
  wrong_tag expected_contents : List ℕ → Error
  incorrect_directory_field unrecognized_file_type : Error
  unsupported_filemode : ℕ → Error
  git : GitCode → Error
  no_file_name missing_separator invalid_hash invalid_number : Error
  invalid_line : ℕ → List ℕ → Error
  missing_key : List ℕ → Error
  -- A Rust panic, and a bound of the model that has no counterpart in the program.
  panic out_of_fuel : Error
  -- `Could not find object with oid …` of the stream.
  no_object : Error
  -- `Object must either be a tree or a blob`
  wrong_kind : Error
  missing_narinfo missing_ssh_key no_daemon no_closure no_ref_name no_commit : Error
  wrong_size connection_failed not_connected unresolved not_authenticated no_such_directory : Error

-- The errors that are panics, which nothing in the program catches.
abbrev pub is_panic : Error → Bool
is_panic panic = true
is_panic capacity_overflow = true
is_panic _ = false

pub data Result {ℓ} (A : Type ℓ) : Type ℓ where
  ok : A → Result A
  err : Error → Result A

-- The predicate holds of the value, if there is one.
abbrev pub Returns {ℓ κ} : {A : Type ℓ} → (A → Type κ) → Result A → Type κ
Returns P (ok a) = P a
Returns P (err e) = Unit {κ}

pub ok-Returns {ℓ κ} :
    {A : Type ℓ} (P : A → Type κ) (x : Result A) → ((a : A) → x ≡ ok a → P a) → Returns P x
ok-Returns P (ok a) h = h a refl
ok-Returns P (err e) h = tt

pub Returns-ok {ℓ κ} :
    {A : Type ℓ} (P : A → Type κ) (x : Result A) (a : A) → Returns P x → x ≡ ok a → P a
Returns-ok P x a h e = subst (Returns P) e h

-- Any value.
abbrev pub Any {ℓ} : {A : Type ℓ} → A → Type 0
Any a = Unit

pub any {ℓ} : {A : Type ℓ} (r : Result A) → Returns Any r
any (ok a) = tt
any (err e) = tt

abbrev pub Exec {ℓ} : Type ℓ → Type ℓ → Type ℓ
Exec S A = S → Result A × S

module _ {ℓ} {S A : Type ℓ} where
  abbrev pub pure : A → Exec S A
  pure a s = (ok a, s)

  abbrev pub raise : Error → Exec S A
  raise e s = (err e, s)

  abbrev pub run : S → Exec S A → Result A × S
  run s m = m s

module _ {ℓ} {S A B : Type ℓ} where
  abbrev pub continue : Result A × S → (A → Exec S B) → Result B × S
  continue (ok a, s) f = f a s
  continue (err e, s) f = (err e, s)

  infixl 5 ◌>>=◌ ◌>>◌
  abbrev pub ◌>>=◌ : Exec S A → (A → Exec S B) → Exec S B
  ◌>>=◌ m f s = continue (m s) f

  abbrev pub ◌>>◌ : Exec S A → Exec S B → Exec S B
  ◌>>◌ m k s = continue (m s) (λ _. k)

module _ {ℓ} {S A B : Type ℓ} where
  -- What came before a sequence that returned.
  pub continue-ok :
      (x : Result A × S) (f : A → Exec S B) (b : B) (s : S)
      → continue x f ≡ (ok b, s)
      → (a : A) × (r : S) × (x ≡ (ok a, r)) × (f a r ≡ (ok b, s))
  continue-ok (ok a, r) f b s h = (a, r, refl, h)
  continue-ok (err e, r) f b s h = cc

module _ {ℓ} {S A B : Type ℓ} where
  -- What holds of the value of a sequence, if it holds whatever comes before.
  pub continue-Returns {κ} :
      (Q : B → Type κ) (x : Result A × S) (f : A → Exec S B)
      → ((a : A) (s : S) → Returns Q (f a s).0)
      → Returns Q (continue x f).0
  continue-Returns Q (ok a, s) f h = h a s
  continue-Returns Q (err e, s) f h = tt

module _ {ℓ} {S A B C : Type ℓ} where
  pub continue_assoc :
      (x : Result A × S) (f : A → Exec S B) (k : B → Exec S C)
      → continue x (λ a s. continue (f a s) k) ≡ continue (continue x f) k
  continue_assoc (ok a, s) f k = refl
  continue_assoc (err e, s) f k = refl

module _ {ℓ} {A B : Type ℓ} where
  -- `?` where there is no state.
  abbrev pub and_then : Result A → (A → Result B) → Result B
  and_then (ok a) f = f a
  and_then (err e) f = err e

  -- What came before a sequence that returned.
  pub and_then-ok :
      (x : Result A) (f : A → Result B) (b : B)
      → and_then x f ≡ ok b
      → (a : A) × (x ≡ ok a) × (f a ≡ ok b)
  and_then-ok (ok a) f b h = (a, refl, h)
  and_then-ok (err e) f b h = cc

  pub and_then-Returns {κ} :
      (P : A → Type κ) (Q : B → Type κ) (x : Result A) (f : A → Result B)
      → Returns P x
      → ((a : A) → P a → Returns Q (f a))
      → Returns Q (and_then x f)
  and_then-Returns P Q (ok a) f hx hf = hf a hx
  and_then-Returns P Q (err e) f hx hf = tt

module _ {ℓ} {B : Type ℓ} where
  abbrev pub cons_result : B → Result (List B) → Result (List B)
  cons_result b (ok bs) = ok (b ∷ bs)
  cons_result b (err e) = err e

  cons_result-Returns {κ} :
      (P : B → Type κ) (b : B) (x : Result (List B))
      → P b
      → Returns (All P) x
      → Returns (All P) (cons_result b x)
  cons_result-Returns P b (ok rest) hb h = (hb, h)
  cons_result-Returns P b (err e) hb h = tt

module _ {ℓ} {A B : Type ℓ} where
  -- `iter.map(f).collect::<Result<Vec<_>>>()`: the first error, if there is one.
  abbrev pub map_all : (A → Result B) → List A → Result (List B)
  map_all f [] = ok []
  map_all f (a ∷ rest) = and_then (f a) (λ b. cons_result b (map_all f rest))

  -- What holds of all results of `f` holds of the list that is collected.
  pub map_all-Returns {κ} :
      (P : B → Type κ) (f : A → Result B)
      → ((a : A) → Returns P (f a))
      → (xs : List A) → Returns (All P) (map_all f xs)
  map_all-Returns P f each [] = tt
  map_all-Returns P f each (x ∷ xs) =
      and_then-Returns P (All P) (f x) (λ b. cons_result b (map_all f xs)) (each x)
        (λ b hb. cons_result-Returns P b (map_all f xs) hb (map_all-Returns P f each xs))
