-- ===== src/Git/Beside.antt =====
-- A repository with something beside its objects, which their operations leave as it is.
use gachix.Prelude.{ap}
use gachix.Git.{Git, GitResult}
use gachix.Git.Laws.{GitLaws}

abbrev pub on_objects : {Repo A T : Type 0} → T → GitResult A × Repo → GitResult A × (Repo × T)
on_objects t (x, r) = (x, (r, t))

module _ {Repo Oid Builder T : Type 0} where
  abbrev pub beside : Git Repo Oid Builder → Git (Repo × T) Oid Builder
  beside g = record {
    write_blob = λ c (r, t). on_objects t (g.write_blob c r);
    treebuilder = λ (r, t). on_objects t (g.treebuilder r);
    insert = λ name o m b (r, t). on_objects t (g.insert name o m b r);
    write_tree = λ b (r, t). on_objects t (g.write_tree b r);
    find_object = λ o k (r, t). g.find_object o k r;
  }

  abbrev pub beside_laws : (g : Git Repo Oid Builder) → GitLaws g → GitLaws (beside g)
  beside_laws g laws = record {
    is_set = laws.is_set;
    valid_name = laws.valid_name;
    listing = laws.listing;
    blob_stores = λ c (r, t).
        let (o, s, wrote, has, more) = laws.blob_stores c r in
        (o, (s, t), ap (on_objects t) wrote, has, more);
    builder_starts = λ (r, t).
        let (b, started, empty) = laws.builder_starts r in (b, ap (on_objects t) started, empty);
    insert_adds = λ name o m x b (r, t) valid has fits fresh.
        let (c, inserted, lists) = laws.insert_adds name o m x b r valid has fits fresh in
        (c, ap (on_objects t) inserted, lists);
    write_stores = λ b (r, t).
        let (o, s, es, wrote, has, lists, more) = laws.write_stores b r in
        (o, (s, t), es, ap (on_objects t) wrote, has, lists, more);
    find_typed = λ o x (r, t) has. laws.find_typed o x r has;
    find_mistyped = λ o x k (r, t) has ne. laws.find_mistyped o x k r has ne;
  }
