-- ===== src/Nar/Sort.antt =====
-- `entries.sort_by(|x, y| x.name.cmp(&y.name))`, the standard library's stable sort, and why it has
-- one result on entries of different names.
use mathlib.Core.Logic.Or
use mathlib.Core.List.{Mem, Perm, Pairwise, mem-cons, mem-cons_self, forall_mem-cons, not-mem-nil}
use mathlib.Core.List.Pairwise
use mathlib.Core.List.Perm
use gachix.Prelude.{◌≡◌, ap₂, inl, inr, true, false, List, [], ◌∷◌, if◌then◌else◌, Bool-cases}
use gachix.Bytes.Order.{bytes_leb, bytes_leb_total, bytes_leb_trans, bytes_leb_refl}
use gachix.Git.{OwnedTreeEntry}

OwnedTreeEntry-set : {Oid : Type 0} → IsSet Oid → IsSet (OwnedTreeEntry Oid)
OwnedTreeEntry-set h = hlevel h

module _ {Oid : Type 0} where
  unfoldable pub insert_sorted :
      OwnedTreeEntry Oid → List (OwnedTreeEntry Oid) → List (OwnedTreeEntry Oid)
  insert_sorted e [] = e ∷ []
  insert_sorted e (f ∷ fs) = if bytes_leb e.name f.name then e ∷ f ∷ fs else f ∷ insert_sorted e fs

  unfoldable pub sort_by_name : List (OwnedTreeEntry Oid) → List (OwnedTreeEntry Oid)
  sort_by_name [] = []
  sort_by_name (e ∷ es) = insert_sorted e (sort_by_name es)

  -- `e` does not come after `f`.
  abbrev pub NameLe : OwnedTreeEntry Oid → OwnedTreeEntry Oid → Type 0
  NameLe e f = bytes_leb e.name f.name ≡ true

  -- `e` comes before `f`, and their names differ.
  abbrev pub NameLt : OwnedTreeEntry Oid → OwnedTreeEntry Oid → Type 0
  NameLt e f = bytes_leb f.name e.name ≡ false

  insert_sorted-perm :
      (e : OwnedTreeEntry Oid) (es : List (OwnedTreeEntry Oid)) → Perm (insert_sorted e es) (e ∷ es)
  unfolding insert_sorted
  insert_sorted-perm e [] = Perm.rfl
  insert_sorted-perm e (f ∷ fs) = elim (Bool-cases (bytes_leb e.name f.name)) [
    | inl le ↦ rw le Perm.rfl
    | inr gt ↦ rw gt (Perm.trans (Perm.cons f (insert_sorted-perm e fs)) (Perm.swap e f fs))
  ]

  pub sort_by_name-perm : (es : List (OwnedTreeEntry Oid)) → Perm (sort_by_name es) es
  unfolding sort_by_name
  sort_by_name-perm [] = Perm.rfl
  sort_by_name-perm (e ∷ es) =
      Perm.trans (insert_sorted-perm e (sort_by_name es)) (Perm.cons e (sort_by_name-perm es))

  NameLe-prop : (e f : OwnedTreeEntry Oid) → IsProp (NameLe e f)
  NameLe-prop e f = hlevel

  abbrev IsBelow : OwnedTreeEntry Oid → List (OwnedTreeEntry Oid) → Type 0
  IsBelow e es = (x : OwnedTreeEntry Oid) → Mem x es → NameLe e x

  IsBelow-cons :
      (e f : OwnedTreeEntry Oid) (fs : List (OwnedTreeEntry Oid))
      → NameLe e f
      → IsBelow e fs
      → IsBelow e (f ∷ fs)
  IsBelow-cons e f fs h hs = (forall_mem-cons (NameLe-prop e)).1 (h, hs)

  abbrev pub IsSorted : List (OwnedTreeEntry Oid) → Type 0
  IsSorted = Pairwise NameLe

  abbrev pub IsStrict : List (OwnedTreeEntry Oid) → Type 0
  IsStrict = Pairwise NameLt

  insert_sorted-IsSorted :
      (e : OwnedTreeEntry Oid) {es : List (OwnedTreeEntry Oid)}
      → IsSorted es
      → IsSorted (insert_sorted e es)
  unfolding insert_sorted
  insert_sorted-IsSorted e Pairwise.nil = Pairwise.cons (λ x m. absurd (not-mem-nil m)) Pairwise.nil
  insert_sorted-IsSorted e (Pairwise.cons {a = f} {l = fs} below s) =
      elim (Bool-cases (bytes_leb e.name f.name)) [
        | inl le ↦ rw le (
            Pairwise.cons
              (IsBelow-cons e f fs le λ x m. bytes_leb_trans e.name f.name x.name le (below x m))
              (Pairwise.cons below s))
        | inr gt ↦ rw gt (
            Pairwise.cons
              (λ x m.
                IsBelow-cons f e fs (bytes_leb_total e.name f.name gt) below x
                  ((Perm.mem_iff (insert_sorted-perm e fs)).0 m))
              (insert_sorted-IsSorted e s))
      ]

  pub sort_by_name-IsSorted : (es : List (OwnedTreeEntry Oid)) → IsSorted (sort_by_name es)
  unfolding sort_by_name
  sort_by_name-IsSorted [] = Pairwise.nil
  sort_by_name-IsSorted (e ∷ es) = insert_sorted-IsSorted e (sort_by_name-IsSorted es)

  -- In an ascending list of different names, whatever is not after the head is the head.
  least_is_head :
      IsSet (OwnedTreeEntry Oid)
      → {a b : OwnedTreeEntry Oid} {l : List (OwnedTreeEntry Oid)} → IsStrict (a ∷ l)
      → Mem b (a ∷ l)
      → NameLe b a
      → b ≡ a
  least_is_head set {a} {b} (Pairwise.cons above s) m le =
      Or.elim (set b a) (mem-cons.0 m) (λ e. e) (λ n. cc (above b n))

  -- The ascending permutation of a list of different names is that list.
  pub IsSorted-eq_of_perm :
      IsSet (OwnedTreeEntry Oid)
      → {l r : List (OwnedTreeEntry Oid)} → IsSorted l
      → IsStrict r
      → Perm l r
      → l ≡ r
  IsSorted-eq_of_perm set {l = []} _ _ p = Perm.nil-eq p
  IsSorted-eq_of_perm set {l = b ∷ l} {r = []} _ _ p = Perm.eq-nil p
  IsSorted-eq_of_perm set {l = b ∷ l} {r = a ∷ r} (Pairwise.cons below sl) sr p =
      let heads =
        least_is_head set sr ((Perm.mem_iff p).0 mem-cons_self)
          (IsBelow-cons b b l (bytes_leb_refl b.name) below a ((Perm.mem_iff p).1 mem-cons_self)) in
      let tails = Perm.cons_inv (Perm.trans p (Perm.symm (Perm.cons' heads Perm.rfl))) in
      ap₂ ◌∷◌ heads (IsSorted-eq_of_perm set {l = l} sl (Pairwise.of_cons sr) tails)

  -- Sorting a permutation of entries with ascending, different names gives those entries.
  pub sort_by_name-eq :
      IsSet Oid → {l r : List (OwnedTreeEntry Oid)} → IsStrict r → Perm l r → sort_by_name l ≡ r
  sort_by_name-eq set {l} s p =
      IsSorted-eq_of_perm (OwnedTreeEntry-set set) (sort_by_name-IsSorted l) s
        (Perm.trans (sort_by_name-perm l) p)
