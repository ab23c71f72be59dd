-- ===== src/Tests/GougingRuns.antt =====
-- The gouging checks at a concrete input.
use sia_optimization_proposa.Prelude.{◌↔◌, arith, true, false, refl}
use sia_optimization_proposa.Prelude.Int.{pos}
use sia_optimization_proposa.Gouging.{
  ConsensusState, GougingSettings, HostSettings, check_block_height, check,
}
use sia_optimization_proposa.Gouging.Limits.{IsFair, IsClean, check_iff}

abbrev state : ConsensusState
state = record { synced = true; old_block = false; block_height = 100 }

abbrev limits : GougingSettings
limits = record {
  max_storage_price = 10;
  max_upload_price = 20;
  max_download_price = 30;
  max_contract_price = 40;
  min_price_table_validity = pos 5;
  host_block_height_leeway = 6;
}

abbrev fair_host : HostSettings
fair_host = record {
  storage_price = 10;
  ingress_price = 1;
  egress_price = 2;
  free_sector_price = 3;
  contract_price = 4;
  max_collateral = 5;
  validity = pos 6;
  tip_height = 94;
}

-- A host at the limits is clean.
fair_host-IsClean : IsClean (check 3 limits state fair_host)
unfolding check check_block_height
fair_host-IsClean = (refl, refl, refl, refl)

check_iff_example : IsClean (check 3 limits state fair_host) ↔ IsFair 3 limits state fair_host
check_iff_example = check_iff 3 limits state fair_host (omega arith)
