-- ===== src/GitStore/Samples.antt =====
-- Test data: a small script, as a package of a daemon.
use gachix.Prelude.{
  if◌then◌else◌, ℕ, ap, true, false, none, some, err, no_object, [], ◌∷◌, ok, length, replicate,
  length-replicate,
}
use gachix.Bytes.{Bytes, bytes, bytes_eq}
use gachix.Nix.StorePath.{NixPath}
use gachix.GitStore.Daemons.{PathInfo, Daemon, HashText}
use gachix.Git.{done}
use gachix.GitStore.Package.{OidText}
use gachix.Nar.Format.{Node, regular, archive}

-- Ids written in unary.
abbrev pub unary : OidText ℕ
unary = record {
  to_string = λ o. replicate o b'1';
  from_str = λ s. done (length s);
  from_str-to_string = λ o. ap done (length-replicate o b'1');
}

abbrev pub script : Node
script = regular true (bytes "run")

abbrev pub path_text : Bytes
path_text = bytes "/nix/store/iylhaki6573cpsvspivjfsim700n46r3-run"

abbrev pub path : NixPath
path = record {
  path = path_text;
  hash = bytes "iylhaki6573cpsvspivjfsim700n46r3";
  name = bytes "run";
}

abbrev pub info : PathInfo
info = record {
  references = path_text ∷ [];
  nar_size = 136;
  nar_hash = bytes "00ff";
  deriver = none;
}

abbrev pub empty_daemon : Daemon
empty_daemon = record {
  connect = ok tt;
  path_exists = λ p. ok false;
  nar_from_path = λ p. err no_object;
  get_pathinfo = λ p. ok none;
}

abbrev pub full_daemon : Daemon
full_daemon = record {
  connect = ok tt;
  path_exists = λ p. ok true;
  nar_from_path = λ p. ok (archive script);
  get_pathinfo = λ p. ok (some info);
}

-- Both notations are the identity here.
abbrev pub plain_hashes : HashText
plain_hashes = record {
  hex_decode = λ s. ok s;
  to_nix_base32 = λ s. s;
  base64_encode = λ s. s;
  from_seed_and_public_key =
      λ seed public. if bytes_eq public (bytes "") then none else some (λ m. m);
}
