-- ===== src/GitStore/Daemons/Frame.antt =====
-- Fetching a package, whatever the daemons answer, makes the repository's own moves only.
use gachix.Prelude.{
  ℕ, not, Option, List, [], ◌∷◌, Preorder, Moves, Moves-pure, Moves-reads, Moves-if, Moves-bind,
  Moves-then, moves_rules,
}
use gachix.Bytes.{Bytes}
use gachix.Git.{Git}
use gachix.GitStore.Repository.{add_nar, add_single_entry_tree, add_file_content}
use gachix.GitStore.Package.{OidText, wrap_single_file, add_package}
use gachix.GitStore.Daemons.{
  Daemon, HashText, PrivateKey, build_narinfo, fetch_package, get_package_from_nix_daemons,
}
use gachix.Nar.Decode.Frame.{OpsMove, lift_git-Moves, parse-rel}
use gachix.Nix.StorePath.{NixPath}

module _ {Repo Oid Builder : Type 0} {g : Git Repo Oid Builder} (P : Preorder Repo)
    (ops : OpsMove g P) where
  pub add_file_content-Moves : (c : Bytes) → Moves P (add_file_content g c)
  unfolding add_file_content
  add_file_content-Moves c = lift_git-Moves P (g.write_blob c) (ops.write_blob_moves c)

  add_single_entry_tree-Moves :
      (o : Oid) (name : Bytes) (m : ℕ) → Moves P (add_single_entry_tree g o name m)
  unfolding add_single_entry_tree
  add_single_entry_tree-Moves o name m =
      Moves-bind P _ _ (lift_git-Moves P g.treebuilder ops.treebuilder_moves) λ b.
        Moves-bind P _ _ (lift_git-Moves P (g.insert name o m b) (ops.insert_moves name o m b))
          λ b'. lift_git-Moves P (g.write_tree b') (ops.write_tree_moves b')

  add_nar-Moves : (nar : Bytes) → Moves P (add_nar g nar)
  unfolding add_nar
  add_nar-Moves nar = record { at = λ r. parse-rel P ops nar r }

  wrap_single_file-Moves : (o : Oid) (m : ℕ) → Moves P (wrap_single_file g o m)
  unfolding wrap_single_file
  wrap_single_file-Moves o m = search (moves_rules, add_single_entry_tree-Moves)

  pub add_package-Moves : (nar : Bytes) → Moves P (add_package g nar)
  unfolding add_package
  add_package-Moves nar =
      Moves-bind P _ _ (add_nar-Moves nar) (λ (o, m). wrap_single_file-Moves o m)

  module _ (hashes : HashText) (private_key : Option PrivateKey) (text : OidText Oid) where
    fetch_package-Moves :
        (d : Daemon) (path : NixPath) → Moves P (fetch_package hashes private_key g text d path)
    unfolding fetch_package
    fetch_package-Moves d path = Moves-bind P _ _ (Moves-reads P (λ _. d.nar_from_path path)) λ nar.
        Moves-bind P _ _ (add_package-Moves nar) λ o.
          Moves-bind P _ _
            (Moves-reads P (λ _. build_narinfo hashes private_key d (text.to_string o) path))
            λ n. Moves-bind P _ _ (add_file_content-Moves _) λ b. Moves-pure P _

    pub get_package-Moves :
        (ds : List Daemon) (path : NixPath)
        → Moves P (get_package_from_nix_daemons hashes private_key g text ds path)
    unfolding get_package_from_nix_daemons
    get_package-Moves [] path = Moves-pure P _
    get_package-Moves (d ∷ ds) path = Moves-then P _ _ (Moves-reads P (λ _. d.connect)) (
        Moves-bind P _ _ (Moves-reads P (λ _. d.path_exists path)) λ found.
          Moves-if P (not found) _ _ (get_package-Moves ds path) (fetch_package-Moves d path))
