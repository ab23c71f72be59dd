-- ===== src/Gouging.antt =====
-- internal/gouging/gouging.go: whether a host's prices are within the settings. Currencies are
-- numbers; the largest cost to free a sector is a parameter, since the size of a sector is a
-- constant of another library. An error is the reason that it names.
pub mod Limits
use sia_optimization_proposa.Prelude.{
  ℕ, ◌-◌, Bool, true, false, ◌||◌, ◌&&◌, not, List, [], ◌∷◌, ◌++◌, if◌then◌else◌, ◌==◌, ltb, leb,
}
use sia_optimization_proposa.Prelude.Words.{add64}
use sia_optimization_proposa.Prelude.Int.{ℤ, ltb_ℤ}

pub record ConsensusState : Type 0 where
  pub synced : Bool
  pub old_block : Bool  -- time.Since(LastBlockTime) > time.Hour
  pub block_height : ℕ

-- `host_block_height_leeway` is the number that `uint64(...)` makes of the source's `int`.
pub record GougingSettings : Type 0 where
  pub max_storage_price : ℕ
  pub max_upload_price : ℕ
  pub max_download_price : ℕ
  pub max_contract_price : ℕ
  pub min_price_table_validity : ℤ
  pub host_block_height_leeway : ℕ

pub record HostSettings : Type 0 where
  pub storage_price : ℕ
  pub ingress_price : ℕ
  pub egress_price : ℕ
  pub free_sector_price : ℕ
  pub contract_price : ℕ
  pub max_collateral : ℕ
  pub validity : ℤ
  pub tip_height : ℕ

pub data GougingError : Type 0 where
  storage_price_high ingress_price_high egress_price_high free_sector_price_high : GougingError
  contract_price_high zero_collateral short_validity bad_block_height : GougingError

pub record Breakdown : Type 0 where
  pub upload_err : List GougingError
  pub download_err : List GougingError
  pub prune_err : List GougingError
  pub gouging_err : List GougingError

abbrev pub error_if : Bool → GougingError → List GougingError
error_if true e = e ∷ []
error_if false e = []

abbrev pub min_height : ConsensusState → ℕ → ℕ
min_height cs leeway = if leb leeway cs.block_height then cs.block_height - leeway else 0

-- `checkBlockHeight`: whether it returns an error.
unfoldable pub check_block_height : ConsensusState → ℕ → ℕ → Bool
check_block_height cs host_bh leeway =
    if not cs.synced || cs.old_block
    then ltb host_bh cs.block_height
    else not (leb (min_height cs leeway) host_bh && leb host_bh (add64 cs.block_height leeway))

-- `checker.Check`
unfoldable pub check : ℕ → GougingSettings → ConsensusState → HostSettings → Breakdown
check max_free_sector_cost gs cs hs = record {
  upload_err =
      error_if (ltb gs.max_storage_price hs.storage_price) storage_price_high
      ++ error_if (ltb gs.max_upload_price hs.ingress_price) ingress_price_high;
  download_err = error_if (ltb gs.max_download_price hs.egress_price) egress_price_high;
  prune_err = error_if (ltb max_free_sector_cost hs.free_sector_price) free_sector_price_high;
  gouging_err =
      error_if (ltb gs.max_contract_price hs.contract_price) contract_price_high
      ++ error_if (hs.max_collateral == 0) zero_collateral
      ++ error_if (ltb_ℤ hs.validity gs.min_price_table_validity) short_validity
      ++ error_if (check_block_height cs hs.tip_height gs.host_block_height_leeway)
          bad_block_height;
}
