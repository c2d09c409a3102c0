-- ===== src/Nar/Decode/Takes.antt =====
-- What an action of the decoder takes of its input: rules for its primitives and for sequences of actions.
use gachix.Prelude.{
  ℕ, zero, suc, ◌+◌, ◌-◌, ◌%◌, ◌^◌, ◌≤◌, ◌<◌, ◌≡◌, ◌≢◌, refl, Bool, true, false, Option, none, some,
  [], ◌∷◌, length, Error, Result, ok, err, out_of_fuel, arith, Exec, continue, not, leb, ◌==◌, ltb,
  if◌then◌else◌, pure, raise, ◌>>=◌, bad_padding, invalid_utf8, expected_contents, ap,
}
use gachix.Bytes.{Bytes, bytes, bytes_eq}
use gachix.Git.{FileMode, into, GitExec, lift_git, lift_result, GitResult, done, failed}
use gachix.Bytes.LittleEndian.{from_le_bytes}
use gachix.Bytes.Utf8.{is_utf8}
use gachix.Nar.Decode.{
  Decode, all_zero, cons_taken, take_exact, read_taken, read_exact, read_padding, read_expect,
  read_bytes_padded, read_utf8_padded, on_repo, parse_tag,
}

cons_taken-length :
    (b : ℕ) (o : Option (Bytes × Bytes)) (bs rest : Bytes)
    → cons_taken b o ≡ some (bs, rest)
    → (cs : Bytes) × (o ≡ some (cs, rest))
cons_taken-length b none bs rest h = cc
cons_taken-length b (some (cs, rest')) bs rest h = (cs, ground arith)

take_exact-length :
    (n : ℕ) (input bs rest : Bytes)
    → take_exact n input ≡ some (bs, rest)
    → length rest + n ≡ length input
unfolding take_exact
take_exact-length zero input bs rest h = ground arith
take_exact-length (suc n) [] bs rest h = cc
take_exact-length (suc n) (b ∷ input) bs rest h =
    let (cs, e) = cons_taken-length b (take_exact n input) bs rest h in
    omega (arith, take_exact-length n input cs rest e)

module _ {Repo : Type 0} where
  -- The run ended by itself, and with a value it left at most `k - n` bytes of the input.
  pub data Leaves {A : Type 0} (k n : ℕ) : Result A × (Bytes × Repo) → Type 0 where
    value :
        {a : A} {input : Bytes} {r : Repo} → length input + n ≤ k → Leaves k n (ok a, (input, r))
    error : {e : Error} {s : Bytes × Repo} → e ≢ out_of_fuel → Leaves k n (err e, s)

  -- On inputs of less than `bound` bytes the action ends by itself, and takes at least `n` bytes if it
  -- returns.
  abbrev pub Takes : {A : Type 0} → ℕ → ℕ → Decode Repo A → Type 0
  Takes bound n m =
      (input : Bytes) (r : Repo) → length input < bound → Leaves (length input) n (m (input, r))

  pub Takes-pure : {A : Type 0} (bound : ℕ) (a : A) → Takes bound 0 (pure a)
  Takes-pure bound a input r h = value (omega arith)

  pub Takes-raise :
      {A : Type 0} (bound n : ℕ) (e : Error) → e ≢ out_of_fuel → Takes bound n (raise {A = A} e)
  Takes-raise bound n e h input r l = error h

  continue-Leaves :
      {A B : Type 0} (k n p : ℕ) (x : Result A × (Bytes × Repo)) (f : A → Decode Repo B)
      → Leaves k n x
      → ((a : A) (input : Bytes) (r : Repo)
          → length input + n ≤ k
          → Leaves (length input) p (f a (input, r)))
      → Leaves k (n + p) (continue x f)
  continue-Leaves {B = B} k n p x f (value {a} {input} {r} h) c = weaker (c a input r h)
    where
      weaker : {y : Result B × (Bytes × Repo)} → Leaves (length input) p y → Leaves k (n + p) y
      weaker (value l) = value (omega arith)
      weaker (error l) = error l
  continue-Leaves k n p x f (error h) c = error h

  pub Takes-bind :
      {A B : Type 0} (bound n p : ℕ) (m : Decode Repo A) (f : A → Decode Repo B)
      → Takes bound n m
      → ((a : A) → Takes (bound - n) p (f a))
      → Takes bound (n + p) (m >>= f)
  Takes-bind bound n p m f hm hf input r h =
      continue-Leaves (length input) n p (m (input, r)) f (hm input r h)
        (λ a i s l. hf a i s (omega arith))

  pub Takes-if :
      {A : Type 0} (bound n : ℕ) (b : Bool) (x y : Decode Repo A)
      → Takes bound n x
      → Takes bound n y
      → Takes bound n (if b then x else y)
  Takes-if bound n true x y hx hy = hx
  Takes-if bound n false x y hx hy = hy

  Leaves-weaken :
      {A : Type 0} (k n p : ℕ) {x : Result A × (Bytes × Repo)} → p ≤ n → Leaves k n x → Leaves k p x
  Leaves-weaken k n p le (value h) = value (omega arith)
  Leaves-weaken k n p le (error h) = error h

  Takes-weaken :
      {A : Type 0} (bound n p : ℕ) (m : Decode Repo A) → p ≤ n → Takes bound n m → Takes bound p m
  Takes-weaken bound n p m le h input r l = Leaves-weaken (length input) n p le (h input r l)

  read_exact-Takes : (bound n : ℕ) → Takes bound n (read_exact n)
  unfolding read_exact
  read_exact-Takes bound n input r l = go (take_exact n input) refl
    where
      go :
          (o : Option (Bytes × Bytes))
          → take_exact n input ≡ o
          → Leaves (length input) n (read_taken o r)
      go none e = error (cc)
      go (some (bs, rest)) e = value (omega (arith, take_exact-length n input bs rest e))

  -- After an action that takes `n` bytes the rest runs on less.
  pub Takes-then :
      {A B : Type 0} (bound n : ℕ) (m : Decode Repo A) (f : A → Decode Repo B)
      → Takes bound n m
      → ((a : A) → Takes (bound - n) 0 (f a))
      → Takes bound 0 (m >>= f)
  Takes-then bound n m f hm hf input r h =
      Leaves-weaken (length input) (n + 0) 0 (omega arith)
        (Takes-bind bound n 0 m f hm hf input r h)

  pub Takes-none : {A : Type 0} (n : ℕ) (m : Decode Repo A) → Takes 0 n m
  Takes-none n m input r h = absurd (omega arith)

  pub Takes-below :
      {A : Type 0} (bound less n : ℕ) (m : Decode Repo A)
      → less ≤ bound
      → Takes bound n m
      → Takes less n m
  Takes-below bound less n m le h input r l = h input r (omega arith)

  -- At least no byte.
  read_exact-ends : (bound n : ℕ) → Takes bound 0 (read_exact n)
  read_exact-ends bound n =
      Takes-weaken bound n 0 (read_exact n) (omega arith) (read_exact-Takes bound n)

  read_padding-Takes : (bound len : ℕ) → Takes bound 0 (read_padding len)
  unfolding read_padding
  read_padding-Takes bound len =
      Takes-if bound 0 (ltb 0 (len % 8)) _ _
        (Takes-bind bound 0 0 (read_exact (8 - len % 8)) _ (read_exact-ends bound _)
          λ bs. Takes-if _ 0 (all_zero bs) _ _ (Takes-pure _ tt) (Takes-raise _ 0 bad_padding (cc)))
        (Takes-pure bound tt)

  pub read_expect-Takes : (bound : ℕ) (s : Bytes) → Takes bound 8 (read_expect s)
  unfolding read_expect
  read_expect-Takes bound s = Takes-bind bound 8 0 (read_exact 8) _ (read_exact-Takes bound 8) λ b.
      Takes-if _ 0 (not (length s == from_le_bytes b)) _ _ (Takes-raise _ 0 _ (cc)) (
        Takes-bind _ 0 0 (read_exact _) _ (read_exact-ends _ _) λ d.
          Takes-if _ 0 (not (bytes_eq s d)) _ _ (Takes-raise _ 0 _ (cc))
            (read_padding-Takes _ (length d)))

  read_bytes_padded-Takes : (bound : ℕ) → Takes bound 8 read_bytes_padded
  unfolding read_bytes_padded
  read_bytes_padded-Takes bound =
      Takes-bind bound 8 0 (read_exact 8) _ (read_exact-Takes bound 8) λ b.
        Takes-if _ 0 (leb (2 ^ 63) (from_le_bytes b)) _ _ (Takes-raise _ 0 _ (cc)) (
          Takes-bind _ 0 0 (read_exact _) _ (read_exact-ends _ _) λ d.
            Takes-bind _ 0 0 (read_padding (length d)) _ (read_padding-Takes _ (length d))
              λ u. Takes-pure _ d)

  pub read_utf8_padded-Takes : (bound : ℕ) → Takes bound 8 read_utf8_padded
  unfolding read_utf8_padded
  read_utf8_padded-Takes bound =
      Takes-bind bound 8 0 read_bytes_padded _ (read_bytes_padded-Takes bound)
        λ bs. Takes-if _ 0 (is_utf8 bs) _ _ (Takes-pure _ bs) (Takes-raise _ 0 invalid_utf8 (cc))

  pub read_expect-ends : (bound : ℕ) (s : Bytes) → Takes bound 0 (read_expect s)
  read_expect-ends bound s =
      Takes-weaken bound 8 0 (read_expect s) (omega arith) (read_expect-Takes bound s)

  pub read_bytes_padded-ends : (bound : ℕ) → Takes bound 0 read_bytes_padded
  read_bytes_padded-ends bound =
      Takes-weaken bound 8 0 read_bytes_padded (omega arith) (read_bytes_padded-Takes bound)

  pub read_utf8_padded-ends : (bound : ℕ) → Takes bound 0 read_utf8_padded
  read_utf8_padded-ends bound =
      Takes-weaken bound 8 0 read_utf8_padded (omega arith) (read_utf8_padded-Takes bound)

  pub parse_tag-Takes : (bound : ℕ) (tag : Bytes) → Takes bound 0 (parse_tag tag)
  unfolding parse_tag
  parse_tag-Takes bound tag =
      Takes-if bound 0 (bytes_eq tag (bytes "executable")) _ _
        (Takes-bind bound 0 0 (read_expect (bytes "")) _ (read_expect-ends bound (bytes "")) λ u.
          Takes-bind _ 0 0 (read_expect (bytes "contents")) _
            (read_expect-ends _ (bytes "contents"))
            λ v. Takes-pure _ (into FileMode.blob_executable))
        (Takes-if bound 0 (bytes_eq tag (bytes "contents")) _ _
          (Takes-pure bound (into FileMode.blob))
          (Takes-raise bound 0 (expected_contents tag) (cc)))

  -- An action on the repository that never meets a bound of the model.
  abbrev pub Ends : {A : Type 0} → Exec Repo A → Type 0
  Ends m = (r : Repo) → (m r).0 ≢ err out_of_fuel

  pub Ends-lift_git : {A : Type 0} (m : GitExec Repo A) → Ends (lift_git m)
  unfolding lift_git
  Ends-lift_git m r = go (m r)
    where
      go : {A : Type 0} (x : GitResult A × Repo) → lift_result x.0 ≢ err out_of_fuel
      go (done a, s) = cc
      go (failed c, s) = cc

  pub Ends-bind :
      {A B : Type 0} (m : Exec Repo A) (f : A → Exec Repo B)
      → Ends m
      → ((a : A) → Ends (f a))
      → Ends (m >>= f)
  Ends-bind {A} {B} m f hm hf r = go (m r) (hm r)
    where
      go : (x : Result A × Repo) → x.0 ≢ err out_of_fuel → (continue x f).0 ≢ err out_of_fuel
      go (ok a, s) h = hf a s
      go (err e, s) h = λ q. h (cc)

  pub on_repo-Takes :
      {A : Type 0} (bound : ℕ) (m : Exec Repo A) → Ends m → Takes bound 0 (on_repo m)
  unfolding on_repo
  on_repo-Takes {A} bound m h input r l = go (m r) (h r)
    where
      go :
          (x : Result A × Repo)
          → x.0 ≢ err out_of_fuel
          → Leaves (length input) 0 (x.0, (input, x.1))
      go (ok a, s) e = value (omega arith)
      go (err c, s) e = error (λ q. e (ap err q))
