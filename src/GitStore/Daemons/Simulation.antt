-- ===== src/GitStore/Daemons/Simulation.antt =====
-- A client of src/nix_interface/daemon.rs that is connected, against what its daemon answers: one rule for
-- each way to build an action.
use gachix.Prelude.{
  ◌≡◌, refl, ap, Bool, true, false, subst, some, Result, ok, err, Exec, continue, pure, ◌>>=◌,
  if◌then◌else◌, and_then,
}
use gachix.GitStore.Daemons.{lift}
use gachix.Nix.Daemon.{NixDaemon, request}

module _ {Conn Key Repo : Type 0} where
  abbrev pub on_client :
      {A : Type 0} → Exec (NixDaemon Conn Key) A → Exec (NixDaemon Conn Key × Repo) A
  on_client m (nix, repo) = let (x, nix') = m nix in (x, (nix', repo))

  abbrev pub on_store : {A : Type 0} → Exec Repo A → Exec (NixDaemon Conn Key × Repo) A
  on_store m (nix, repo) = let (x, repo') = m repo in (x, (nix, repo'))

abbrev pub IsConnected : {Conn Key : Type 0} → NixDaemon Conn Key → Type 0
IsConnected {Conn} nix = (c : Conn) × (nix.daemon ≡ some c)

module _ {Conn Key Repo : Type 0} where
  -- The same result, and the same repository.
  abbrev pub Same : {A : Type 0} → Result A × (NixDaemon Conn Key × Repo) → Result A × Repo → Type 0
  Same x y = (x.0 ≡ y.0) × (x.1.1 ≡ y.1)

  -- The same result and the same repository, and still connected.
  abbrev pub Agrees :
      {A : Type 0} → Result A × (NixDaemon Conn Key × Repo) → Result A × Repo → Type 0
  Agrees (x, (nix, r)) (y, s) = (x ≡ y) × (r ≡ s) × IsConnected nix

  pub record Simulates {A : Type 0} (m : Exec (NixDaemon Conn Key × Repo) A) (n : Exec Repo A)
      : Type 0 where
    pub agrees : (nix : NixDaemon Conn Key) (r : Repo) → IsConnected nix → Agrees (m (nix, r)) (n r)

  pub pure-Simulates : {A : Type 0} (a : A) → Simulates (pure a) (pure a)
  pure-Simulates a = record { agrees = λ nix r c. (refl, refl, c) }

  pub lift-Simulates : {A : Type 0} (x : Result A) → Simulates (lift x) (lift x)
  lift-Simulates x = record { agrees = λ nix r c. (refl, refl, c) }

  pub on_store-Simulates : {A : Type 0} (m : Exec Repo A) → Simulates (on_store m) m
  on_store-Simulates m = record { agrees = λ nix r c. (refl, refl, c) }

  continue-Agrees :
      {A B : Type 0} (x : Result A × (NixDaemon Conn Key × Repo)) (y : Result A × Repo)
      (f : A → Exec (NixDaemon Conn Key × Repo) B) (k : A → Exec Repo B)
      → Agrees x y
      → ((a : A) → Simulates (f a) (k a))
      → Agrees (continue x f) (continue y k)
  continue-Agrees (ok a, (nix, r)) (ok b, s) f k (e, er, c) hf =
      let is_b : a ≡ b = cc in
      subst (λ b. Agrees (f a (nix, r)) (k b s)) is_b
        (subst (λ s. Agrees (f a (nix, r)) (k a s)) er ((hf a).agrees nix r c))
  continue-Agrees (ok a, (nix, r)) (err b, s) f k (e, er, c) hf = cc
  continue-Agrees (err a, (nix, r)) (ok b, s) f k (e, er, c) hf = cc
  continue-Agrees (err a, (nix, r)) (err b, s) f k (e, er, c) hf =
      let is_b : a ≡ b = cc in (ap err is_b, er, c)

  pub bind-Simulates :
      {A B : Type 0} (m : Exec (NixDaemon Conn Key × Repo) A) (n : Exec Repo A)
      (f : A → Exec (NixDaemon Conn Key × Repo) B) (k : A → Exec Repo B)
      → Simulates m n
      → ((a : A) → Simulates (f a) (k a))
      → Simulates (m >>= f) (n >>= k)
  bind-Simulates m n f k hm hf = record {
    agrees = λ nix r c. continue-Agrees (m (nix, r)) (n r) f k (hm.agrees nix r c) hf;
  }

  pub if-Simulates :
      {A : Type 0} (b : Bool) (m m' : Exec (NixDaemon Conn Key × Repo) A) (n n' : Exec Repo A)
      → Simulates m n
      → Simulates m' n'
      → Simulates (if b then m else m') (if b then n else n')
  if-Simulates true m m' n n' h h' = h
  if-Simulates false m m' n n' h h' = h'

  -- A request that is answered so on any connection.
  pub request-Simulates :
      {A : Type 0} (m : Exec Conn A) (x : Result A)
      → ((c : Conn) → (m c).0 ≡ x)
      → Simulates (on_client (request m)) (lift x)
  unfolding request
  request-Simulates m x h = record {
    agrees = λ nix r (c, open_on). rw (open_on) (h c, refl, ((m c).1, refl));
  }

module _ {S A B : Type 0} where
  pub continue_cong :
      (x : Result A × S) (f k : A → Exec S B)
      → ((a : A) (s : S) → f a s ≡ k a s)
      → continue x f ≡ continue x k
  continue_cong (ok a, s) f k h = h a s
  continue_cong (err e, s) f k h = refl

  pub lift_and_then :
      {C : Type 0} (x : Result A) (f : A → Result B) (k : B → Exec S C) (s : S)
      → continue (x, s) (λ a s. continue (f a, s) k) ≡ continue (and_then x f, s) k
  lift_and_then (ok a) f k s = refl
  lift_and_then (err e) f k s = refl
