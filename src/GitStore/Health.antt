-- ===== src/GitStore/Health.antt =====
-- `Store::peer_health_check` of src/git_store/store.rs. What a daemon's connection and the connection to
-- a git remote come to are parameters.
pub mod Remote
use gachix.Prelude.{
  Bool-cases, inl, inr, is_panic, if◌then◌else◌, ◌≡◌, refl, Bool, true, false, ◌&&◌, Option, none,
  some, List, [], ◌∷◌, All, Result, ok, err, panic, and_then, and_then-ok, and-true, ◌↔◌,
}
use gachix.Bytes.{Bytes}
use gachix.GitStore.Daemons.{Daemon}

abbrev pub is_ok : {A : Type 0} → Result A → Bool
is_ok (ok a) = true
is_ok (err e) = false

-- A panic of the first ends the program; another error does not.
abbrev pub unless_panic : {A B : Type 0} → Result A → Result B → Result B
unless_panic (ok a) rest = rest
unless_panic (err e) rest = if is_panic e then err e else rest

-- The loop over the daemons: every one is tried.
unfoldable pub daemons_healthy : List Daemon → Bool → Result Bool
daemons_healthy [] success = ok success
daemons_healthy (daemon ∷ daemons) success =
    unless_panic daemon.connect (daemons_healthy daemons (is_ok daemon.connect && success))

module _ {Url : Type 0} (as_str : Url → Bytes) (host : Url → Option Bytes)
    (check_remote_health : Bytes → Result (Unit {0})) where
  -- The loop over the remotes; a remote without a host is a panic.
  unfoldable pub remotes_healthy : List Url → Bool → Result Bool
  remotes_healthy [] success = ok success
  remotes_healthy (url ∷ urls) success =
      let answer = check_remote_health (as_str url) in
      let rest = remotes_healthy urls (is_ok answer && success) in
      elim (host url) [ none ↦ err panic | some h ↦ unless_panic answer rest ]

  -- `self.available_daemons().unwrap()`
  unfoldable pub peer_health_check : Result (List Daemon) → List Url → Result Bool
  peer_health_check (err e) remotes = err panic
  peer_health_check (ok daemons) remotes =
      and_then (daemons_healthy daemons true) (remotes_healthy remotes)

unless_panic-ok :
    {A B : Type 0} (x : Result A) (y : Result B) (b : B) → unless_panic x y ≡ ok b → y ≡ ok b
unless_panic-ok (ok a) y b h = h
unless_panic-ok (err e) y b h = elim (Bool-cases (is_panic e)) [
  | inl stops ↦ cc (rw stops at h)
  | inr goes_on ↦ rw goes_on at h
]

is_ok-true : (x : Result (Unit {0})) → is_ok x ≡ true → x ≡ ok tt
is_ok-true (ok u) h = refl
is_ok-true (err e) h = cc

abbrev Connects : Daemon → Type 0
Connects d = d.connect ≡ ok tt

daemons-all :
    (ds : List Daemon) (b : Bool) → daemons_healthy ds b ≡ ok true → (b ≡ true) × All Connects ds
unfolding daemons_healthy
daemons-all [] b h = (cc, tt)
daemons-all (d ∷ ds) b h =
    let (both, rest) = daemons-all ds (is_ok d.connect && b) (unless_panic-ok d.connect _ true h) in
    let (here, before) = and-true (is_ok d.connect) b both in
    (before, (is_ok-true d.connect here, rest))

daemons-none : (ds : List Daemon) → All Connects ds → daemons_healthy ds true ≡ ok true
unfolding daemons_healthy
daemons-none [] all = refl
daemons-none (d ∷ ds) (here, rest) = rw (here) (daemons-none ds rest)

module _ {Url : Type 0} (as_str : Url → Bytes) (host : Url → Option Bytes)
    (check_remote_health : Bytes → Result (Unit {0})) where
  abbrev Answers : Url → Type 0
  Answers u = check_remote_health (as_str u) ≡ ok tt

  abbrev pub HasHost : Url → Type 0
  HasHost u = (h : Bytes) × (host u ≡ some h)

  remotes-all :
      (us : List Url) (b : Bool)
      → All HasHost us
      → remotes_healthy as_str host check_remote_health us b ≡ ok true
      → (b ≡ true) × All Answers us
  unfolding remotes_healthy
  remotes-all [] b hosts h = (cc, tt)
  remotes-all (u ∷ us) b ((name, has), hosts) h =
      let (both, rest) = remotes-all us (is_ok (check_remote_health (as_str u)) && b) hosts (
        unless_panic-ok (check_remote_health (as_str u)) _ true (rw (remotes_healthy, has) at h)) in
      let (here, before) = and-true (is_ok (check_remote_health (as_str u))) b both in
      (before, (is_ok-true (check_remote_health (as_str u)) here, rest))

  remotes-none :
      (us : List Url)
      → All HasHost us
      → All Answers us
      → remotes_healthy as_str host check_remote_health us true ≡ ok true
  unfolding remotes_healthy
  remotes-none [] hosts all = refl
  remotes-none (u ∷ us) ((name, has), hosts) (here, rest) =
      rw (remotes_healthy, has, here) (remotes-none us hosts rest)

  -- If every remote has a host, the check says yes exactly when every daemon can be connected to and
  -- every remote answers.
  pub peer_health_check_iff :
      (daemons : List Daemon) (remotes : List Url)
      → All HasHost remotes
      → (peer_health_check as_str host check_remote_health (ok daemons) remotes ≡ ok true) ↔ (
          All (λ d. d.connect ≡ ok tt) daemons
          × All (λ u. check_remote_health (as_str u) ≡ ok tt) remotes)
  unfolding peer_health_check
  peer_health_check_iff daemons remotes hosts = (
    (λ h.
        let (b, healthy, checked) = and_then-ok (daemons_healthy daemons true) _ true h in
        let (first, second) = remotes-all remotes b hosts checked in
        ((daemons-all daemons true (rw first at healthy)).1, second)),
    (λ (connect, answer). rw (daemons-none daemons connect) (remotes-none remotes hosts answer)),
  )
