-- ===== src/Nar/Decode/Reads.antt =====
-- What the decoder's actions have read when they return: rules for sequences of actions, and the
-- readers of strings.
use gachix.Prelude.{
  ℕ, zero, suc, ◌-◌, ◌%◌, ◌^◌, ◌<◌, ◌≡◌, refl, sym, ap, ◌∙◌, Bool, true, false, Option, none, some,
  [], ◌∷◌, ◌++◌, length, replicate, All, All-left, All-right, subst, append-nil, append_assoc,
  Error, bad_padding, Result, ok, err, arith, Returns, Exec, continue, not, leb, ◌==◌, ltb,
  if◌then◌else◌, pure, raise, ◌>>=◌, ==_iff,
}
use gachix.Bytes.{Bytes, IsByte, bytes_eq, bytes_eq→eq}
use gachix.Bytes.LittleEndian.{from_le_bytes, to_le_bytes-from_le_bytes}
use gachix.Bytes.Utf8.{is_utf8}
use gachix.Nar.{pad_len}
use gachix.Nar.Format.{padding, padding_some, padding_none, padded}
use gachix.Nar.Decode.{
  Decode, all_zero, cons_taken, take_exact, read_taken, read_exact, read_padding, read_expect,
  read_bytes_padded, read_utf8_padded, on_repo,
}

cons_taken-eq :
    (b : ℕ) (o : Option (Bytes × Bytes)) (bs rest : Bytes)
    → cons_taken b o ≡ some (bs, rest)
    → (cs : Bytes) × (o ≡ some (cs, rest)) × (bs ≡ b ∷ cs)
cons_taken-eq b none bs rest h = cc
cons_taken-eq b (some (cs, more)) bs rest h = (cs, ground arith, ground arith)

take_exact-eq :
    (n : ℕ) (input bs rest : Bytes)
    → take_exact n input ≡ some (bs, rest)
    → (input ≡ bs ++ rest) × (length bs ≡ n)
unfolding take_exact
take_exact-eq zero input bs rest h = ground arith
take_exact-eq (suc n) [] bs rest h = cc
take_exact-eq (suc n) (b ∷ input) bs rest h =
    let (cs, e, same) = cons_taken-eq b (take_exact n input) bs rest h in
    let (split, len) = take_exact-eq n input cs rest e in
    (ap (λ l. b ∷ l) split ∙ ap (λ l. l ++ rest) (sym same), ap length same ∙ ap suc len)

all_zero-eq : (bs : Bytes) → all_zero bs ≡ true → bs ≡ replicate (length bs) 0
unfolding all_zero
all_zero-eq [] h = refl
all_zero-eq (b ∷ bs) h = ground (arith, all_zero-eq bs)

-- Eight bytes, a string of the length that they encode, and its padding.
string_eq :
    (len s c d e : Bytes)
    → (c ≡ len) × (length len ≡ 8) × All IsByte len
    → length s ≡ from_le_bytes len
    → d ≡ s
    → e ≡ padding (length s)
    → c ++ (d ++ e) ≡ padded s
unfolding padded
string_eq len s c d e (first, eight, all) size same fill =
    rw (first, same, fill, size, to_le_bytes-from_le_bytes len eight all)

not-false : (b : Bool) → not b ≡ false → b ≡ true
not-false true h = refl
not-false false h = cc

-- `c` is the string `s` as the format writes it, of a length that the reader admits.
abbrev pub IsString : Bytes → Bytes → Type 0
IsString s c = (c ≡ padded s) × (length s < 2 ^ 63)

module _ {Repo : Type 0} where
  -- If the action returned, it took bytes of the input of which the predicate tells.
  pub data Took {A : Type 0} (input : Bytes) (P : A → Bytes → Type 0)
      : Result A × (Bytes × Repo) → Type 0 where
    value :
        {a : A} {rest : Bytes} {r : Repo} (c : Bytes)
        → All IsByte rest
        → input ≡ c ++ rest
        → P a c
        → Took input P (ok a, (rest, r))
    error : {e : Error} {s : Bytes × Repo} → Took input P (err e, s)

  abbrev pub Reads : {A : Type 0} → (A → Bytes → Type 0) → Decode Repo A → Type 0
  Reads P m = (input : Bytes) (r : Repo) → All IsByte input → Took input P (m (input, r))

  pub Reads-pure : {A : Type 0} (P : A → Bytes → Type 0) (a : A) → P a [] → Reads P (pure a)
  Reads-pure P a h input r all = value [] all refl h

  pub Reads-raise : {A : Type 0} (P : A → Bytes → Type 0) (e : Error) → Reads P (raise e)
  Reads-raise P e input r all = error

  prepend-Took :
      {B : Type 0} (Q : B → Bytes → Type 0) (input c rest : Bytes) (y : Result B × (Bytes × Repo))
      → input ≡ c ++ rest
      → Took rest (λ b d. Q b (c ++ d)) y
      → Took input Q y
  prepend-Took Q input c rest (ok b, (more, s)) e (value d all e' h) =
      value (c ++ d) all (e ∙ ap (λ l. c ++ l) e' ∙ sym (append_assoc c d more)) h
  prepend-Took Q input c rest (err b, s) e error = error

  continue-Took :
      {A B : Type 0} (P : A → Bytes → Type 0) (Q : B → Bytes → Type 0) (input : Bytes)
      (x : Result A × (Bytes × Repo)) (f : A → Decode Repo B)
      → Took input P x
      → ((a : A) (c : Bytes) → P a c → Reads (λ b d. Q b (c ++ d)) (f a))
      → Took input Q (continue x f)
  continue-Took P Q input (ok a, (rest, r)) f (value c all e h) next =
      prepend-Took Q input c rest (f a (rest, r)) e (next a c h rest r all)
  continue-Took P Q input (err a, s) f error next = error

  pub Reads-bind :
      {A B : Type 0} {P : A → Bytes → Type 0} {Q : B → Bytes → Type 0} (m : Decode Repo A)
      (f : A → Decode Repo B)
      → Reads P m
      → ((a : A) (c : Bytes) → P a c → Reads (λ b d. Q b (c ++ d)) (f a))
      → Reads Q (m >>= f)
  Reads-bind {P = P} {Q = Q} m f hm hf input r all =
      continue-Took P Q input (m (input, r)) f (hm input r all) hf

  pub Reads-if :
      {A : Type 0} {P : A → Bytes → Type 0} (b : Bool) (m n : Decode Repo A)
      → (b ≡ true → Reads P m)
      → (b ≡ false → Reads P n)
      → Reads P (if b then m else n)
  Reads-if true m n hm hn = hm refl
  Reads-if false m n hm hn = hn refl

  -- The same with another description of what was read.
  pub Reads-map :
      {A : Type 0} {P Q : A → Bytes → Type 0} (m : Decode Repo A)
      → ((a : A) (c : Bytes) → P a c → Q a c)
      → Reads P m
      → Reads Q m
  Reads-map {A} {P} {Q} m f h input r all = go (m (input, r)) (h input r all)
    where
      go : (x : Result A × (Bytes × Repo)) → Took input P x → Took input Q x
      go (ok a, s) (value c bs e p) = value c bs e (f a c p)
      go (err e, s) error = error

  read_exact-Reads :
      (n : ℕ) → Reads (λ bs c. (c ≡ bs) × (length bs ≡ n) × All IsByte bs) (read_exact n)
  unfolding read_exact
  read_exact-Reads n input r all = go (take_exact n input) refl
    where
      go :
          (o : Option (Bytes × Bytes))
          → take_exact n input ≡ o
          → Took input (λ bs c. (c ≡ bs) × (length bs ≡ n) × All IsByte bs) (read_taken o r)
      go none e = error
      go (some (bs, rest)) e =
          let (split, len) = take_exact-eq n input bs rest e in
          let parts = subst (All IsByte) split all in
          value bs (All-right IsByte bs rest parts) split (refl, len, All-left IsByte bs rest parts)

  read_padding-Reads : (n : ℕ) → Reads (λ u c. c ≡ padding n) (read_padding n)
  unfolding read_padding
  read_padding-Reads n =
      Reads-if (ltb 0 (n % 8)) _ _
        (λ more.
          Reads-bind (read_exact (8 - n % 8)) _ (read_exact-Reads (8 - n % 8))
            λ zeros c (e, len, _).
              Reads-if (all_zero zeros) _ _
                (λ z. Reads-pure _ tt (
                  append-nil c
                  ∙ e
                  ∙ all_zero-eq zeros z
                  ∙ ap (λ k. replicate k 0) len
                  ∙ sym (padding_some n more)))
                (λ z. Reads-raise _ bad_padding))
        (λ full. Reads-pure _ tt (sym (padding_none n full)))

  -- A string with its padding is read, and is the expected one.
  pub read_expect-Reads : (s : Bytes) → Reads (λ u c. c ≡ padded s) (read_expect s)
  unfolding read_expect
  read_expect-Reads s = Reads-bind (read_exact pad_len) _ (read_exact-Reads 8) λ len c h.
      Reads-if (not (length s == from_le_bytes len)) _ _ (λ _. Reads-raise _ _)
        λ size.
          Reads-bind (read_exact (from_le_bytes len)) _ (read_exact-Reads (from_le_bytes len))
            λ string d (same, _, _).
              Reads-if (not (bytes_eq s string)) _ _ (λ _. Reads-raise _ _)
                λ equal.
                  let eq = bytes_eq→eq s string (not-false _ equal) in
                  Reads-map (read_padding (length string))
                    (λ u e fill.
                      string_eq len s c d e h ((==_iff _ _).0 (not-false _ size)) (same ∙ sym eq)
                        (fill ∙ ap (λ t. padding (length t)) (sym eq)))
                    (read_padding-Reads (length string))

  pub read_bytes_padded-Reads : Reads IsString read_bytes_padded
  unfolding read_bytes_padded
  read_bytes_padded-Reads = Reads-bind (read_exact pad_len) _ (read_exact-Reads 8) λ len c h.
      Reads-if (leb (2 ^ 63) (from_le_bytes len)) _ _ (λ _. Reads-raise _ _)
        λ small.
          Reads-bind (read_exact (from_le_bytes len)) _ (read_exact-Reads (from_le_bytes len))
            λ string d (same, size, _).
              Reads-bind (read_padding (length string)) _ (read_padding-Reads (length string))
                λ u e fill. Reads-pure _ string (
                  ap (λ t. c ++ (d ++ t)) (append-nil e)
                      ∙ string_eq len string c d e h size same fill,
                  ground (arith, size, small),
                )

  pub read_utf8_padded-Reads : Reads (λ s c. IsString s c × (is_utf8 s ≡ true)) read_utf8_padded
  unfolding read_utf8_padded
  read_utf8_padded-Reads = Reads-bind read_bytes_padded _ read_bytes_padded-Reads λ s c h.
      Reads-if (is_utf8 s) _ _ (λ text. Reads-pure _ s ((append-nil c ∙ h.0, h.1), text))
        (λ _. Reads-raise _ _)

  -- The repository's operations read nothing; what holds of all that one returns is kept.
  pub on_repo-Reads :
      {A : Type 0} (Q : A → Type 0) (m : Exec Repo A)
      → ((r : Repo) → Returns Q (m r).0)
      → Reads (λ a c. (c ≡ []) × Q a) (on_repo m)
  unfolding on_repo
  on_repo-Reads {A} Q m returns input r all = go (m r) (returns r)
    where
      go :
          (x : Result A × Repo)
          → Returns Q x.0
          → Took input (λ a c. (c ≡ []) × Q a) (x.0, (input, x.1))
      go (ok a, s) h = value [] all refl (refl, h)
      go (err e, s) h = error
