-- ===== src/GitStore/Peers/Contains.antt =====
-- Membership in the set of visited packages of src/git_store/store.rs.
use gachix.Prelude.{
  subst, ◌≡◌, refl, ◌∙◌, Bool, true, false, ◌||◌, Bool-cases, inl, inr, List, [], ◌∷◌, ◌++◌, ◌⊎◌,
  arith,
}
use gachix.Bytes.{Bytes, bytes_eq, bytes_eq→eq, bytes_eq_refl}
use gachix.GitStore.Peers.{contains}

pub or_true : (b : Bool) → b || true ≡ true
or_true true = refl
or_true false = refl

pub contains-append :
    (xs ys : List Bytes) (h : Bytes) → contains (xs ++ ys) h ≡ contains xs h || contains ys h
unfolding contains
contains-append [] ys h = refl
contains-append (x ∷ xs) ys h = ground (arith, contains-append xs ys h)

pub contains-more : (v : List Bytes) (x h : Bytes) → contains v h ≡ true → contains (x ∷ v) h ≡ true
unfolding contains
contains-more v x h e = rw (e, or_true (bytes_eq x h))

pub contains-cons_self : (v : List Bytes) (h : Bytes) → contains (h ∷ v) h ≡ true
unfolding contains
contains-cons_self v h = rw (bytes_eq_refl h)

pub contains-cases :
    (v : List Bytes) (x h : Bytes) → contains (x ∷ v) h ≡ true → (x ≡ h) ⊎ (contains v h ≡ true)
unfolding contains
contains-cases v x h e = elim (Bool-cases (bytes_eq x h)) [
  | inl same ↦ inl (bytes_eq→eq x h same)
  | inr other ↦ inr (rw (contains, other) at e)
]

pub contains-append_left :
    (v w : List Bytes) (h : Bytes) → contains v h ≡ true → contains (v ++ w) h ≡ true
contains-append_left v w h e = contains-append v w h ∙ rw (e)

pub contains-append_self : (v : List Bytes) (h : Bytes) → contains (v ++ h ∷ []) h ≡ true
contains-append_self v h =
    contains-append v (h ∷ []) h ∙ rw (contains-cons_self [] h, or_true (contains v h))

pub contains-append_cases :
    (v : List Bytes) (x h : Bytes)
    → contains (v ++ x ∷ []) h ≡ true
    → (x ≡ h) ⊎ (contains v h ≡ true)
contains-append_cases [] x h e = contains-cases [] x h e
contains-append_cases (y ∷ v) x h e = elim (contains-cases (v ++ x ∷ []) y h e) [
  | inl same ↦ inr (subst (λ k. contains (y ∷ v) k ≡ true) same (contains-cons_self v y))
  | inr later ↦ elim (contains-append_cases v x h later) [
    | inl is_x ↦ inl is_x
    | inr before ↦ inr (contains-more v y h before)
  ]
]
