-- ===== src/GitStore/Daemons/Tests.antt =====
-- The theorems of a client, of a health check and of private keys at concrete inputs.
use gachix.Prelude.{
  ℕ, suc, ◌≡◌, refl, true, some, none, [], ◌∷◌, ◌++◌, ok, err, panic, All, ◌↔◌, replicate, arith,
  Result,
}
use gachix.Bytes.{Bytes, bytes}
use gachix.Git.Memory.{memory}
use gachix.GitStore.Daemons.Session.{
  Answers, session, by_answers, local_session-answers, remote_session-answers,
}
use gachix.GitStore.Daemons.Simulation.{Same}
use gachix.GitStore.Health.{HasHost, peer_health_check, peer_health_check_iff}
use gachix.GitStore.Samples.{unary, path, full_daemon, empty_daemon, plain_hashes}
use gachix.Nix.Daemon.{DaemonStore, Ssh, connect_local, connect_remote, local, remote}
use gachix.Nix.Signature.{from_str}
use gachix.Nix.Signature.Parsed.{NoColon, from_str-key, from_str-panics}

-- A connection that counts its requests.
abbrev counting : DaemonStore ℕ Bytes
counting = record {
  query_pathinfo = λ p c. (full_daemon.get_pathinfo p, suc c);
  is_valid_path = λ p c. (full_daemon.path_exists p, suc c);
  nar_from_path = λ p c. (full_daemon.nar_from_path p, suc c);
  set_options = λ c. c;
  build_paths_with_results = λ ps c. (ok [], suc c);
}

counting-Answers : Answers counting full_daemon
counting-Answers = record {
  answers_exists = λ p c. refl;
  answers_nar = λ p c. refl;
  answers_pathinfo = λ p c. refl;
}

local_session-answers_example :
    Same
      (session memory unary plain_hashes none counting
        (connect_local (λ address. ok 0))
        path
        (local {Key = Bytes}, []))
      (by_answers memory unary plain_hashes none full_daemon path [])
local_session-answers_example =
    local_session-answers memory unary plain_hashes none counting full_daemon counting-Answers
      (λ address. ok 0) local path [] refl

-- Every step of opening a connection succeeds.
abbrev open_ssh : Ssh Bytes Bytes Bytes Bytes ℕ Bytes
open_ssh = record {
  to_socket_addrs = λ host port. ok (host ∷ []);
  connect_tcp = λ a. ok a;
  new_session = λ s. ok s;
  handshake = λ s. ok s;
  userauth_pubkey_file = λ user key s. ok s;
  authenticated = λ s. true;
  channel_session = λ s. ok s;
  exec = λ command c. ok c;
  init = λ c. ok 0;
}

remote_session-answers_example :
    Same
      (session memory unary plain_hashes none counting
        (connect_remote open_ssh)
        path
        (remote (bytes "host") (bytes "key"), []))
      (by_answers memory unary plain_hashes none full_daemon path [])
unfolding remote
remote_session-answers_example =
    remote_session-answers memory unary plain_hashes none counting full_daemon counting-Answers
      open_ssh (remote (bytes "host") (bytes "key")) path [] (bytes "host") [] (bytes "host")
      (bytes "host") (bytes "host") (bytes "key") refl refl refl refl refl refl

abbrev hosts : All (HasHost (λ url. url) (λ url. some url) (λ url. ok tt)) (bytes "ssh://a" ∷ [])
hosts = ((bytes "ssh://a", refl), tt)

peer_health_check_iff_example :
    (peer_health_check
        (λ url. url)
        (λ url. some url)
        (λ url. ok tt)
        (ok (full_daemon ∷ empty_daemon ∷ []))
        (bytes "ssh://a" ∷ [])
      ≡ ok true)
    ↔ (All (λ d. d.connect ≡ ok tt) (full_daemon ∷ empty_daemon ∷ [])
        × All (λ u. ◌≡◌ {A = Result (Unit {0})} (ok tt) (ok tt)) (bytes "ssh://a" ∷ []))
peer_health_check_iff_example =
    peer_health_check_iff (λ url. url) (λ url. some url) (λ url. ok tt)
      (full_daemon ∷ empty_daemon ∷ []) (bytes "ssh://a" ∷ []) hosts

abbrev seed : Bytes
seed = replicate 32 b'a'

abbrev public_key : Bytes
public_key = replicate 32 b'b'

abbrev key_name : Bytes
key_name = b'k' ∷ []

key_name-NoColon : All NoColon key_name
key_name-NoColon = ((λ e. omega arith), tt)

-- The text stands for itself.
from_str-key_example :
    from_str (λ s. ok s) (key_name ++ (b':' ∷ (seed ++ (public_key ++ []))))
    ≡ ok (record { name = key_name; seed = seed; public_key = public_key })
from_str-key_example =
    from_str-key (λ s. ok s) key_name (seed ++ (public_key ++ [])) seed public_key []
      key_name-NoColon refl refl refl

from_str-panics_example : from_str (λ s. ok s) (key_name ++ (b':' ∷ seed)) ≡ err panic
from_str-panics_example =
    from_str-panics (λ s. ok s) key_name seed seed key_name-NoColon refl (omega arith)
