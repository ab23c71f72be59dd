-- ===== src/Gouging/Limits.antt =====
-- The prices of a host that is not gouging.
use sia_optimization_proposa.Prelude.{
  ℕ, ◌+◌, ◌≤◌, ◌<◌, ◌≡◌, ◌↔◌, false, [], arith, if◌then◌else◌, not, ◌||◌,
}
use sia_optimization_proposa.Prelude.Words.{u64_mod}
use sia_optimization_proposa.Prelude.Int.{◌≤ℤ◌}
use sia_optimization_proposa.Gouging.{
  ConsensusState, GougingSettings, HostSettings, Breakdown, check_block_height, check,
}

-- The host's height, next to ours.
abbrev pub HeightFits : ConsensusState → ℕ → ℕ → Type 0
HeightFits cs host_bh leeway =
    if not cs.synced || cs.old_block
    then (cs.block_height ≤ host_bh)
    else ((cs.block_height ≤ host_bh + leeway) × (host_bh ≤ cs.block_height + leeway))

pub record IsFair (max_free : ℕ) (gs : GougingSettings) (cs : ConsensusState) (hs : HostSettings)
    : Type 0 where
  pub storage : hs.storage_price ≤ gs.max_storage_price
  pub ingress : hs.ingress_price ≤ gs.max_upload_price
  pub egress : hs.egress_price ≤ gs.max_download_price
  pub free : hs.free_sector_price ≤ max_free
  pub contract : hs.contract_price ≤ gs.max_contract_price
  pub collateral : 0 < hs.max_collateral
  pub validity : gs.min_price_table_validity ≤ℤ hs.validity
  pub height : HeightFits cs hs.tip_height gs.host_block_height_leeway

-- Where the sum of our height and the leeway does not wrap: the check of the height passes exactly
-- when, not synced or with an old block, the host is not behind us, and otherwise the two heights
-- are within the leeway of each other.
pub check_block_height_iff :
    (cs : ConsensusState) (host_bh leeway : ℕ)
    → cs.block_height + leeway < u64_mod
    → (check_block_height cs host_bh leeway ≡ false) ↔ HeightFits cs host_bh leeway
unfolding check_block_height
check_block_height_iff cs host_bh leeway h = ground arith

-- `Check` reports nothing.
abbrev pub IsClean : Breakdown → Type 0
IsClean b = (b.upload_err ≡ []) × (b.download_err ≡ []) × (b.prune_err ≡ []) × (b.gouging_err ≡ [])

-- Where the sum of our height and the leeway does not wrap: `Check` reports nothing exactly when
-- every price is within its limit, the collateral is not zero, the validity is long enough and the
-- host's height fits.
pub check_iff :
    (max_free : ℕ) (gs : GougingSettings) (cs : ConsensusState) (hs : HostSettings)
    → cs.block_height + gs.host_block_height_leeway < u64_mod
    → IsClean (check max_free gs cs hs) ↔ IsFair max_free gs cs hs
unfolding check
check_iff max_free gs cs hs h =
    ground (arith, check_block_height_iff cs hs.tip_height gs.host_block_height_leeway h)
