-- ===== src/Tests/Data.antt =====
-- A slab of three shards on three hosts, and one that is down to its last two.
use sia_optimization_proposa.Prelude.{ℕ, ◌*◌, ◌-◌, true, some, List, [], ◌∷◌}
use sia_optimization_proposa.Prelude.Int.{pos}
use sia_optimization_proposa.Risk.Policy.{
  Scenario, Policy, RiskOptions, default_slab_risk_policy, hour, minute,
}
use sia_optimization_proposa.Risk.Evaluate.{SlabRepairRisk, evaluate_slab_risk}
use sia_optimization_proposa.Risk.Estimate.{SlabRiskHost, SlabRiskCandidate}
use sia_optimization_proposa.Risk.Queue.{
  UnhealthySlab, QueueState, Migration, migration, Page, page,
}
use sia_optimization_proposa.Tests.Decimals.{decimals}

abbrev pub current : ℕ
current = 100 * hour

abbrev pub outage : Scenario decimals
outage = record { name = "outage"; probability = some (pos 1000000); hosts = 11 ∷ 12 ∷ [] }

unfoldable pub policy : Policy decimals
unfolding default_slab_risk_policy
policy = record (default_slab_risk_policy decimals) { scenarios = outage ∷ [] }

unfoldable pub options : RiskOptions decimals
options = record {
  policy = policy;
  queue_depth = 2;
  parallelism = 1;
  repair_time = pos minute;
  block_interval = pos (10 * minute);
}

abbrev pub host : ℕ → ℕ → SlabRiskHost decimals
host key shard = record {
  key = key;
  shards = pos shard ∷ [];
  last_scan = current - minute;
  recent_downtime = pos 0;
  last_scan_success = true;
  total_scans = 10;
  consecutive_failures = 0;
  successful = some (pos 1000000000);
  failed = some (pos 10000000);
  uptime = pos (99 * hour);
  downtime = pos hour;
  contract_end = 10000;
}

abbrev pub candidate : ℕ → List (SlabRiskHost decimals) → SlabRiskCandidate decimals
candidate key hosts = record {
  id = pos key;
  key = key;
  health = some (pos 50000000);
  min_shards = pos 2;
  total_shards = pos 3;
  hosts = hosts;
}

abbrev pub complete : SlabRiskCandidate decimals
complete = candidate 1 (host 11 1 ∷ host 12 2 ∷ host 13 3 ∷ [])

abbrev pub last_two : SlabRiskCandidate decimals
last_two = candidate 2 (host 11 1 ∷ host 13 3 ∷ [])

abbrev pub scanned_page : List (Page decimals)
scanned_page = page (complete ∷ last_two ∷ []) 500 current ∷ []

abbrev pub slabs_of : Migration decimals → List (UnhealthySlab decimals)
slabs_of (migration slabs state) = slabs
slabs_of _ = []

abbrev pub state_of : Migration decimals → QueueState
state_of (migration slabs state) = state
state_of _ = record { version = 0; policy = 0; queued = [] }

abbrev pub risk : SlabRepairRisk decimals
risk = evaluate_slab_risk decimals complete options 500 current
