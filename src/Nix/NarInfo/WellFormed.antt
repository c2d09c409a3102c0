-- ===== src/Nix/NarInfo/WellFormed.antt =====
-- What parsing guarantees of the values that it returns.
use gachix.Prelude.{
  ℕ, ◌≡◌, ◌<◌, ◌^◌, none, some, Option, List, [], ◌∷◌, All, Result, ok, and_then, and_then-Returns,
  Any, any, map_all-Returns, Returns, ok-Returns, Returns-ok, String,
}
use gachix.Bytes.{Bytes, bytes}
use gachix.Text.{lines}
use gachix.Text.Trim.{trim}
use gachix.Text.Decimal.{parse_u64}
use gachix.Text.Decimal.Bounds.{parse_u64-lt}
use gachix.Nix.StorePath
use gachix.Nix.StorePath.{NixPath}
use gachix.Nix.StorePath.WellFormed.{HasHash, new-HasHash}
use gachix.Nix.NarInfo.{
  NarInfo, Table, get, parse_lines, parse_deriver, parse_references, parse_table, parse,
}

abbrev pub HasHashIfSome : Option NixPath → Type 0
HasHashIfSome none = Unit
HasHashIfSome (some p) = HasHash p

-- Every path has a hash of 32 bytes, and the sizes are 64-bit numbers.
unfoldable pub IsWellFormed : NarInfo → Type 0
IsWellFormed n =
    HasHash n.store_path
    × HasHashIfSome n.deriver
    × All HasHash n.references
    × (n.file_size < 2 ^ 64)
    × (n.nar_size < 2 ^ 64)

path-HasHash : (s : Bytes) → Returns HasHash (StorePath.new s)
path-HasHash s = ok-Returns HasHash (StorePath.new s) (λ p h. (new-HasHash s p h).0)

parse_deriver-HasHash : (s : Bytes) → Returns HasHashIfSome (parse_deriver s)
unfolding parse_deriver
parse_deriver-HasHash [] = tt
parse_deriver-HasHash (c ∷ s) =
    and_then-Returns HasHash HasHashIfSome (StorePath.new (c ∷ s)) (λ p. ok (some p))
      (path-HasHash (c ∷ s)) (λ p h. h)

parse_references-HasHash : (s : Bytes) → Returns (All HasHash) (parse_references s)
unfolding parse_references
parse_references-HasHash [] = tt
parse_references-HasHash (c ∷ s) = map_all-Returns HasHash StorePath.new path-HasHash _

abbrev IsU64 : ℕ → Type 0
IsU64 n = n < 2 ^ 64

size-lt : (r : Result Bytes) → Returns IsU64 (and_then r parse_u64)
size-lt r =
    and_then-Returns Any IsU64 r parse_u64 (any r)
      (λ s _. ok-Returns IsU64 (parse_u64 s) (parse_u64-lt s))

parse_table-IsWellFormed : (t : Table) → Returns IsWellFormed (parse_table t)
unfolding parse_table IsWellFormed
parse_table-IsWellFormed t = field "StorePath" _ λ path. field "Deriver" _ λ d.
    field "References" _ λ r. field "URL" _ λ url. field "Compression" _ λ c.
      step _ _ (parse_deriver-HasHash d) λ deriver hd.
        step _ _ (parse_references-HasHash r) λ references hr.
          step _ _ (path-HasHash path) λ store_path hp. field "FileHash" _ λ file_hash.
            step _ _ (size-lt (get t (bytes "FileSize"))) λ file_size hf.
              field "NarHash" _ λ nar_hash.
                step _ _ (size-lt (get t (bytes "NarSize"))) λ nar_size hn.
                  field "Sig" _
                    λ sig. fields store_path deriver references file_size nar_size hp hd hr hf hn
  where
    fields :
        (p : NixPath) (d : Option NixPath) (ps : List NixPath) (m k : ℕ)
        → HasHash p
        → HasHashIfSome d
        → All HasHash ps
        → IsU64 m
        → IsU64 k
        → HasHash p × HasHashIfSome d × All HasHash ps × IsU64 m × IsU64 k
    fields p d ps m k hp hd hr hf hn = (hp, hd, hr, hf, hn)

    step :
        {A : Type 0} {P : A → Type 0} (x : Result A) (f : A → Result NarInfo)
        → Returns P x
        → ((a : A) → P a → Returns IsWellFormed (f a))
        → Returns IsWellFormed (and_then x f)
    step = and_then-Returns _ IsWellFormed

    field :
        (k : String) (f : Bytes → Result NarInfo)
        → ((v : Bytes) → Returns IsWellFormed (f v))
        → Returns IsWellFormed (and_then (get t (bytes k)) f)
    field k f h =
        and_then-Returns Any IsWellFormed (get t (bytes k)) f (any (get t (bytes k))) (λ v _. h v)

-- Whatever text is parsed: the store path, the references and the deriver of the result have
-- hashes of 32 bytes, and both sizes fit in 64 bits.
pub parse-IsWellFormed : (content : Bytes) (n : NarInfo) → parse content ≡ ok n → IsWellFormed n
unfolding parse
parse-IsWellFormed content n h =
    let table = parse_lines 0 (lines (trim content)) [] in
    Returns-ok IsWellFormed (and_then table parse_table) n
      (and_then-Returns Any IsWellFormed table parse_table (any table)
        (λ t _. parse_table-IsWellFormed t))
      h
