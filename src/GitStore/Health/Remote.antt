-- ===== src/GitStore/Health/Remote.antt =====
-- `check_remote_health` of src/git_store/repository.rs, and the credentials that it and `fetch` give to a
-- remote. The environment, the connection and the making of credentials are parameters.
use gachix.Prelude.{
  ◌≡◌, refl, sym, subst, ◌∙◌, panic, Bool, true, false, Option, none, some, List, [], ◌∷◌, ◌++◌,
  Result, ok, err, connection_failed, if◌then◌else◌, and_then, map_all, ◌↔◌, inl, inr, Option-cases,
}
use gachix.Bytes.{Bytes, bytes}
use gachix.Git.{GitResult, done, failed, lift_result}
use gachix.GitStore.Opening.{unwrap}

-- `CredentialType`, as far as the program asks: whether it contains `USERNAME`.
pub record CredentialType : Type 0 where
  pub username : Bool

-- `Cred::username` and `Cred::ssh_key`.
pub record CredOps (Cred : Type 0) : Type 0 where
  pub username : Bytes → GitResult Cred
  pub ssh_key : Bytes → Option Bytes → Bytes → Option Bytes → GitResult Cred

-- The callback `credentials`, of the url, the user in the url and the types allowed. The outer error is
-- a panic.
abbrev pub Callback : Type 0 → Type 0
Callback Cred = Bytes → Option Bytes → CredentialType → Result (GitResult Cred)

-- `Repository::remote_anonymous`, `Remote::connect_auth` and `RemoteConnection::list`. A panic of the
-- callback is a panic of `connect_auth`.
pub record Connect (Repo Remote Connection Cred : Type 0) : Type 0 where
  pub remote_anonymous : Bytes → Repo → GitResult Remote
  pub connect_auth : Remote → Callback Cred → Result (GitResult Connection)
  pub list_heads : Connection → GitResult (Unit {0})

unfoldable pub listed :
    {Cred Repo Remote Connection : Type 0}
    → Connect Repo Remote Connection Cred
    → GitResult Connection
    → Result (Unit {0})
listed connect (done connection) = lift_result (connect.list_heads connection)
listed connect (failed e) = err connection_failed

lifted : (x : GitResult (Unit {0})) → lift_result x ≡ ok tt → x ≡ done tt
unfolding lift_result
lifted (done u) h = refl
lifted (failed e) h = cc

module _ {Cred : Type 0} (env_var : Bytes → Option Bytes) (ops : CredOps Cred) where
  unfoldable pub credentials : Callback Cred
  credentials url user_from_url allowed_types = and_then (unwrap (env_var (bytes "USER"))) λ user.
      if allowed_types.username
      then ok (ops.username user)
      else and_then (unwrap (env_var (bytes "USER"))) λ user.
        and_then (unwrap (env_var (bytes "HOME")))
          λ home. ok (ops.ssh_key user none (home ++ bytes "/.ssh/id_ed25519") none)

  unfoldable pub check_remote_health :
      {Repo Remote Connection : Type 0}
      → Connect Repo Remote Connection Cred
      → Bytes
      → Repo
      → Result (Unit {0})
  check_remote_health connect url repo =
      and_then (lift_result (connect.remote_anonymous url repo))
        λ remote. and_then (connect.connect_auth remote credentials) (listed connect)

-- A server that asks for a name first and then for a key, as ssh does for a url without a name, and
-- decides by the credentials that it is given.
abbrev pub AsksNameAndKey :
    {Cred Repo Remote Connection : Type 0}
    → Connect Repo Remote Connection Cred
    → (List (GitResult Cred) → GitResult Connection)
    → Bytes
    → Remote
    → Type 0
AsksNameAndKey {Cred = Cred} connect decides url remote =
    (callback : Callback Cred)
    → connect.connect_auth remote callback
      ≡ and_then
          (map_all (callback url none)
            (record { username = true } ∷ record { username = false } ∷ []))
          (λ creds. ok (decides creds))

module _ {Cred Repo Remote Connection : Type 0} (env_var : Bytes → Option Bytes)
    (ops : CredOps Cred) (connect : Connect Repo Remote Connection Cred) where
  abbrev pub Accepts : (List (GitResult Cred) → GitResult Connection) → Bytes → Bytes → Type 0
  Accepts decides user home =
      (connection : Connection) × (decides
          (ops.username user ∷ ops.ssh_key user none (home ++ bytes "/.ssh/id_ed25519") none ∷ [])
        ≡ done connection)
      × (connect.list_heads connection ≡ done tt)

  listed_iff :
      (answer : GitResult Connection)
      → (listed connect answer ≡ ok tt) ↔ (
          (connection : Connection) × (answer ≡ done connection)
          × (connect.list_heads connection ≡ done tt))
  unfolding listed lift_result
  listed_iff (failed e) = ((λ h. cc), (λ (c, absurd, h). cc))
  listed_iff (done c) = (
    (λ h. (c, refl, lifted (connect.list_heads c) h)),
    (λ (c', same, h). let here : connect.list_heads c ≡ done tt = cc in rw (here) refl),
  )

  -- Of a remote that asks for a name and then for a key, the check says that it is healthy exactly if
  -- the environment has USER and HOME, the remote accepts USER and the key in
  -- HOME/.ssh/id_ed25519, and it can then list its references.
  pub check_remote_health_iff :
      (decides : List (GitResult Cred) → GitResult Connection) (url : Bytes) (remote : Remote)
      (repo : Repo)
      → connect.remote_anonymous url repo ≡ done remote
      → AsksNameAndKey connect decides url remote
      → (check_remote_health env_var ops connect url repo ≡ ok tt) ↔ (
          (user : Bytes) × (home : Bytes) × (env_var (bytes "USER") ≡ some user)
          × (env_var (bytes "HOME") ≡ some home)
          × Accepts decides user home)
  unfolding check_remote_health credentials unwrap lift_result
  check_remote_health_iff decides url remote repo found asks =
      elim (Option-cases (env_var (bytes "USER"))) [
        | inl no_user ↦
            let stops : check_remote_health env_var ops connect url repo ≡ err panic =
              rw (found, asks (credentials env_var ops), no_user) refl in
            ((λ h. cc), (λ (user, home, has_user, has_home, rest). cc))
        | inr (user, has_user) ↦ elim (Option-cases (env_var (bytes "HOME"))) [
          | inl no_home ↦
              let stops : check_remote_health env_var ops connect url repo ≡ err panic =
                rw (found, asks (credentials env_var ops), has_user, no_home) refl in
              ((λ h. cc), (λ (user', home, has_user', has_home, rest). cc))
          | inr (home, has_home) ↦
              let answer = decides (
                ops.username user
                ∷ ops.ssh_key user none (home ++ bytes "/.ssh/id_ed25519") none
                ∷ []) in
              let ends : check_remote_health env_var ops connect url repo ≡ listed connect answer =
                rw (found, asks (credentials env_var ops), has_user, has_home) refl in
              (
                (λ h. (user, home, has_user, has_home, (listed_iff answer).0 (sym ends ∙ h))),
                (λ (user', home', has_user', has_home', accepts).
                    let same_user : user' ≡ user = cc in
                    let same_home : home' ≡ home = cc in
                    ends
                    ∙ (listed_iff answer).1 (
                        subst (λ u. Accepts decides u home) same_user
                          (subst (Accepts decides user') same_home accepts))),
              )
        ]
      ]
