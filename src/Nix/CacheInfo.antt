-- ===== src/Nix/CacheInfo.antt =====
-- src/nix_interface/cache_info.rs: the description of the cache.
use gachix.Prelude.{ℕ, Bool, false, [], ◌∷◌, ◌++◌, if◌then◌else◌}
use gachix.Bytes.{Bytes, bytes}
use gachix.Text.{join}
use gachix.Text.Decimal.{show_u64}

pub record CacheInfo : Type 0 where
  pub store_dir : Bytes
  pub want_mass_query : Bool
  pub priority : ℕ

-- `format!("{}: {}", k, v)`
abbrev pub pair_line : Bytes → Bytes → Bytes
pair_line k v = k ++ (bytes ": " ++ v)

-- `Display::fmt`
unfoldable pub to_string : CacheInfo → Bytes
to_string c =
    let mass_query = if c.want_mass_query then bytes "1" else bytes "0" in
    join (bytes "\n") (
      pair_line (bytes "StoreDir") c.store_dir
      ∷ pair_line (bytes "WantMassQuery") mass_query
      ∷ pair_line (bytes "Priority") (show_u64 c.priority)
      ∷ [])

unfoldable pub default : CacheInfo
default = record { store_dir = bytes "/nix/store"; want_mass_query = false; priority = 50 }
