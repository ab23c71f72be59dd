-- ===== src/Tests/MigratorRuns.antt =====
-- The plan of a migration at a concrete input.
use sia_optimization_proposa.Prelude.{ℕ, ◌<◌, ◌≤◌, ◌≡◌, refl, arith, List, [], ◌∷◌, length}
use sia_optimization_proposa.Migrator.Plan.{
  UploadHost, Shard, destinations, good_contract, good_host, collect, missing, allowed, upload,
  effective_avoid, insufficient, decide_plan, plan,
}
use sia_optimization_proposa.Migrator.Plan.Enough.{IsPlanned, plan_upload, plan_enough}

abbrev upload_host : ℕ → UploadHost
upload_host key = record { public_key = key; contract_id = key }

-- Three shards: on host 1, on the avoided host 2, and on host 9, which is not usable.
abbrev shards : List Shard
shards = ((1, 1 ∷ []) ∷ []) ∷ ((2, 2 ∷ []) ∷ []) ∷ ((9, 9 ∷ []) ∷ []) ∷ []

abbrev hosts : List UploadHost
hosts = upload_host 1 ∷ upload_host 2 ∷ upload_host 3 ∷ upload_host 4 ∷ upload_host 3 ∷ []

abbrev usable : List ℕ
usable = 1 ∷ 2 ∷ 3 ∷ 4 ∷ []

abbrev moved : List ℕ
moved = 1 ∷ 2 ∷ []

abbrev targets : List UploadHost
targets = upload_host 3 ∷ upload_host 4 ∷ []

plan_is : plan shards 2 usable hosts (2 ∷ []) ≡ upload moved targets
unfolding destinations good_contract good_host collect missing allowed effective_avoid insufficient
    decide_plan plan
plan_is = refl

avoid_in_force : 0 < length (effective_avoid (2 ∷ []) hosts 3)
unfolding destinations effective_avoid
avoid_in_force = omega arith

plan_upload_example :
    IsPlanned (effective_avoid (2 ∷ []) hosts 3) usable shards 2 hosts moved targets
plan_upload_example = plan_upload shards 2 usable hosts (2 ∷ []) moved targets plan_is

plan_enough_example : length moved ≤ length targets
plan_enough_example =
    plan_enough shards 2 usable hosts (2 ∷ []) moved targets plan_is avoid_in_force
