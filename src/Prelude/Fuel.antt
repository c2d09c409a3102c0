-- ===== src/Prelude/Fuel.antt =====
-- Results that are not the end of the fuel, the one error that the model adds to the program's.
use mathlib.Core.Path.{◌≡◌, refl, ap}
use mathlib.Core.Logic.{◌≢◌}
use mathlib.Core.List.{List, [], ◌∷◌}
use gachix.Prelude.Effects.{
  Error, Result, ok, err, out_of_fuel, Exec, continue, and_then, cons_result, map_all,
}

abbrev pub Finishes {ℓ} : {A : Type ℓ} → Result A → Type ℓ
Finishes x = x ≢ err out_of_fuel

-- Of an action's outcome.
abbrev pub Settles : {S A : Type 0} → Result A × S → Type 0
Settles x = Finishes x.0

module _ {A : Type 0} where
  pub ok-Finishes : (a : A) → Finishes (ok a)
  ok-Finishes a h = cc

  pub err-Finishes : (e : Error) → e ≢ out_of_fuel → Finishes {A = A} (err e)
  err-Finishes e ne h = let same : e ≡ out_of_fuel = cc in ne same

module _ {A B : Type 0} where
  pub err_again : (e : Error) → Finishes {A = A} (err e) → Finishes {A = B} (err e)
  err_again e hx h = let same : e ≡ out_of_fuel = cc in hx (ap err same)

  pub and_then-Finishes :
      (x : Result A) (f : A → Result B)
      → Finishes x
      → ((a : A) → Finishes (f a))
      → Finishes (and_then x f)
  and_then-Finishes (ok a) f hx hf = hf a
  and_then-Finishes (err e) f hx hf = err_again e hx

  pub continue-Settles :
      {S : Type 0} (x : Result A × S) (f : A → Exec S B)
      → Settles x
      → ((a : A) (s : S) → x ≡ (ok a, s) → Settles (f a s))
      → Settles (continue x f)
  continue-Settles (ok a, s) f hx hf = hf a s refl
  continue-Settles (err e, s) f hx hf = err_again e hx

module _ {B : Type 0} where
  cons_result-Finishes : (b : B) (x : Result (List B)) → Finishes x → Finishes (cons_result b x)
  cons_result-Finishes b (ok bs) h = ok-Finishes (b ∷ bs)
  cons_result-Finishes b (err e) h = h

pub map_all-Finishes :
    {A B : Type 0} (f : A → Result B)
    → ((a : A) → Finishes (f a))
    → (xs : List A) → Finishes (map_all f xs)
map_all-Finishes f h [] = ok-Finishes []
map_all-Finishes f h (x ∷ xs) =
    and_then-Finishes (f x) _ (h x)
      λ b. cons_result-Finishes b (map_all f xs) (map_all-Finishes f h xs)
