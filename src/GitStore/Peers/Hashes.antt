-- ===== src/GitStore/Peers/Hashes.antt =====
-- All hashes of a length, and how many of a list have not been visited.
use gachix.Prelude.{
  ℕ, zero, suc, ◌+◌, ◌*◌, ◌^◌, ◌<◌, ◌≤◌, ◌≡◌, refl, sym, ap, ap₂, subst, ◌∙◌, true, false, ◌||◌,
  Bool-cases, ◌==◌, ==_iff, inl, inr, List, [], ◌∷◌, ◌++◌, map, All, length, length-append,
  if◌then◌else◌, arith,
}
use gachix.Bytes.{Bytes, bytes_eq, bytes_eq→eq, bytes_eq_refl}
use gachix.Bytes.Utf8.Range.{IsByte}
use gachix.GitStore.Peers.{contains}
use gachix.GitStore.Peers.Contains.{contains-append, or_true}

-- The hashes with a byte below `b` in front.
unfoldable pub extend : ℕ → List Bytes → List Bytes
extend zero hs = []
extend (suc b) hs = map (λ h. b ∷ h) hs ++ extend b hs

unfoldable pub hashes : ℕ → List Bytes
hashes zero = [] ∷ []
hashes (suc n) = extend 256 (hashes n)

length-map : {A B : Type 0} (f : A → B) (xs : List A) → length (map f xs) ≡ length xs
length-map f [] = refl
length-map f (x ∷ xs) = ap suc (length-map f xs)

length-extend : (b : ℕ) (hs : List Bytes) → length (extend b hs) ≡ b * length hs
unfolding extend
length-extend zero hs = omega arith
length-extend (suc b) hs =
    length-append (map (λ h. b ∷ h) hs) (extend b hs)
    ∙ ap₂ (λ a c. a + c) (length-map (λ h. b ∷ h) hs) (length-extend b hs)
    ∙ omega arith

pub length-hashes : (n : ℕ) → length (hashes n) ≡ 256 ^ n
unfolding hashes
length-hashes zero = omega arith
length-hashes (suc n) =
    length-extend 256 (hashes n) ∙ ap (λ k. 256 * k) (length-hashes n) ∙ omega arith

contains-map :
    (b : ℕ) (hs : List Bytes) (h : Bytes)
    → contains hs h ≡ true
    → contains (map (λ h. b ∷ h) hs) (b ∷ h) ≡ true
unfolding contains bytes_eq
contains-map b [] h e = e
contains-map b (g ∷ hs) h e = elim (Bool-cases (bytes_eq g h)) [
  | inl same ↦ ground arith
  | inr other ↦ ground (arith, contains-map b hs h (rw (contains, other) at e))
]

contains-extend :
    (b c : ℕ) (hs : List Bytes) (h : Bytes)
    → c < b
    → contains hs h ≡ true
    → contains (extend b hs) (c ∷ h) ≡ true
unfolding extend
contains-extend zero c hs h less e = ground arith
contains-extend (suc b) c hs h less e = elim (Bool-cases (c == b)) [
  | inl same ↦
      let front = contains-map b hs h e in
      let is_b : c ≡ b = (==_iff c b).0 same in
      contains-append (map (λ h. b ∷ h) hs) (extend b hs) (c ∷ h) ∙ rw (is_b, front)
  | inr other ↦
      let later = contains-extend b c hs h (ground arith) e in
      contains-append (map (λ h. b ∷ h) hs) (extend b hs) (c ∷ h)
      ∙ ap (λ t. contains (map (λ h. b ∷ h) hs) (c ∷ h) || t) later
      ∙ or_true _
]

pub contains-hashes : (h : Bytes) → All IsByte h → contains (hashes (length h)) h ≡ true
unfolding hashes contains bytes_eq
contains-hashes [] all = refl
contains-hashes (b ∷ h) (byte, all) =
    contains-extend 256 b (hashes (length h)) h byte (contains-hashes h all)

-- How many of the list have not been visited.
unfoldable pub unvisited : List Bytes → List Bytes → ℕ
unvisited [] visited = 0
unvisited (h ∷ hs) visited =
    let rest = unvisited hs visited in if contains visited h then rest else suc rest

pub unvisited-le : (hs visited : List Bytes) → unvisited hs visited ≤ length hs
unfolding unvisited
unvisited-le [] visited = omega arith
unvisited-le (h ∷ hs) visited = ground (arith, unvisited-le hs visited)

unvisited_mono :
    (hs visited : List Bytes) (h : Bytes) → unvisited hs (h ∷ visited) ≤ unvisited hs visited
unfolding unvisited contains
unvisited_mono [] visited h = omega arith
unvisited_mono (g ∷ hs) visited h = ground (arith, unvisited_mono hs visited h)

lt-suc : {m n : ℕ} → m ≤ n → m < suc n
lt-suc h = omega arith

-- A visit to one of them leaves fewer.
pub unvisited-cons :
    (hs visited : List Bytes) (h : Bytes)
    → contains hs h ≡ true
    → contains visited h ≡ false
    → unvisited hs (h ∷ visited) < unvisited hs visited
unfolding unvisited contains
unvisited-cons [] visited h there new = cc
unvisited-cons (g ∷ hs) visited h there new = elim (Bool-cases (bytes_eq g h)) [
  | inl same ↦
      let is_h = bytes_eq→eq g h same in
      let new_g : contains visited g ≡ false =
        subst (λ k. contains visited k ≡ false) (sym is_h) new in
      let back : bytes_eq h g ≡ true = subst (λ k. bytes_eq k g ≡ true) is_h (bytes_eq_refl g) in
      rw (back, new_g) (lt-suc (unvisited_mono hs visited h))
  | inr other ↦ ground (arith, unvisited-cons hs visited h (rw (contains, other) at there) new)
]
