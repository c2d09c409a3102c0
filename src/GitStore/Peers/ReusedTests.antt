-- ===== src/GitStore/Peers/ReusedTests.antt =====
-- The theorem on the remote that is used again, at a repository in memory with one remote beside it.
use gachix.Prelude.{ℕ, ◌≡◌, refl, sym, ap, subst, Option, none, some, [], ◌∷◌, ok, not_found}
use gachix.Bytes.{Bytes, bytes}
use gachix.Git.{Git, GitResult, done, failed, blob, lift_git, lift_result}
use gachix.Git.Beside.{beside}
use gachix.Git.Memory.{Store, Entries, memory}
use gachix.GitStore.Opening.{unwrap}
use gachix.GitStore.Peers.{Remotes, or_panic, peer_remote, fetch, fetch_from_remote}
use gachix.GitStore.Peers.Reused.{NamedLaws, fetch_from_remote-reused}
use gachix.GitStore.References.{Refs, get_commit, get_oid_from_reference}

-- The objects, and the url of the remote, if there is one.
abbrev Repo : Type 0
Repo = Store × Option Bytes

abbrev objects : Git Repo ℕ Entries
objects = beside memory

-- Every reference is one to the first object.
abbrev refs : Refs Repo ℕ
refs = record { reference = λ name o r. (done tt, r); find_reference = λ name r. done (some 0) }

abbrev named : Option Bytes → GitResult Bytes
named none = failed not_found
named (some url) = done url

-- A remote is its url.
abbrev remotes : Remotes Repo Bytes
remotes = record {
  find_remote = λ name r. named r.1;
  remote_with_fetch = λ name url spec r. (done url, (r.0, some url));
  fetch_refspecs = λ remote callback specs r. (some (done 1), (r.0, r.1));
  env_var = λ name. some name;
  cred_ops = record { username = λ user. done user; ssh_key = λ user public key phrase. done key };
}

made :
    (url remote : Bytes) (r s : Repo)
    → ◌≡◌ {A = GitResult Bytes × Repo} (done url, (r.0, some url)) (done remote, s)
    → (named s.1 ≡ done remote) × (remote ≡ url)
made url remote r s h =
    let same : url ≡ remote = cc in
    (subst (λ t. named t.1 ≡ done remote) (ap (λ q. q.1) h) (ap done same), sym same)

laws : NamedLaws remotes (λ url. url)
laws = record {
  made_found = λ name url spec remote r s h.
      (let (at, there) = made url remote r s h in (remote, there, at));
  fetch_keeps_named = λ name remote there callback spec r h. h;
}

abbrev before : Repo
before = (blob (bytes "x") ∷ [], none)

abbrev after : Repo
after = (blob (bytes "x") ∷ [], some (bytes "ssh://a"))

fetched :
    fetch_from_remote objects refs remotes (bytes "id") (bytes "ssh://a") before
    ≡ (ok (some 0), after)
unfolding fetch_from_remote fetch peer_remote or_panic unwrap lift_git lift_result get_commit
    get_oid_from_reference
fetched = refl

fetch_from_remote-reused_example :
    (remote : Bytes) × (remote ≡ bytes "ssh://a")
    × (peer_remote remotes (bytes "ssh://b") after ≡ (ok remote, after))
    × (fetch_from_remote objects refs remotes (bytes "next") (bytes "ssh://b") after
        ≡ fetch_from_remote objects refs remotes (bytes "next") (bytes "ssh://a") after)
fetch_from_remote-reused_example =
    fetch_from_remote-reused objects refs remotes (λ url. url) laws (bytes "id") (bytes "ssh://a")
      (bytes "next") (bytes "ssh://b") (some 0) before after not_found refl fetched
