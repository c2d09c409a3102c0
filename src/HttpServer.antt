-- ===== src/HttpServer.antt =====
-- src/http_server/server.rs: what the handlers answer. Routing, logging and the sending of a stream
-- are those of `actix_web`.
pub mod Added
mod Tests
use gachix.Prelude.{ℕ, Bool, true, false, Option, none, some, Result, ok, err}
use gachix.Bytes.{Bytes, bytes}
use gachix.Git.{Git}
use gachix.GitStore.Package
use gachix.GitStore.Package.{OidText}
use gachix.GitStore.References
use gachix.GitStore.References.{Refs}
use gachix.Nar.Stream.{NarGitStream}
use gachix.Nix.CacheInfo

-- `HttpResponse`: the statuses 200, with a body, a stream or nothing, 404 and 500.
pub data Response (Oid : Type 0) : Type 0 where
  body : Bytes → Response Oid
  streaming : NarGitStream Oid → Response Oid
  empty not_found server_error : Response Oid

unfoldable pub nix_cache_info : {Oid : Type 0} → Response Oid
nix_cache_info = body (CacheInfo.to_string CacheInfo.default)

unfoldable pub get_listing : {Oid : Type 0} → Bytes → Response Oid
get_listing hash = body hash

module _ {Repo Oid Builder : Type 0} (g : Git Repo Oid Builder) where
  module _ (refs : Refs Repo Oid) where
    unfoldable pub get_narinfo : Bytes → Repo → Response Oid
    get_narinfo hash repo = elim (References.get_narinfo g refs hash repo) [
      | ok o ↦ elim o [ some nar_info ↦ body nar_info | none ↦ not_found ]
      | err e ↦ server_error
    ]

    unfoldable pub nar_exists : Bytes → Repo → Response Oid
    nar_exists hash repo = elim (References.entry_exists g refs hash repo) [
      | ok b ↦ elim b [ true ↦ empty | false ↦ not_found ]
      | err e ↦ not_found
    ]

  unfoldable pub get_nar : OidText Oid → Bytes → Repo → Response Oid
  get_nar text hash repo = elim (Package.get_as_nar_stream g text hash repo) [
    | ok o ↦ elim o [ some nar_stream ↦ streaming nar_stream | none ↦ not_found ]
    | err e ↦ server_error
  ]
