-- ===== src/Migrator/Plan/Enough.antt =====
-- What `migrate` goes on to upload, and to which targets (autopilot/migrator/worker.go).
use sia_optimization_proposa.Prelude.{
  ℕ, ◌+◌, ◌-◌, ◌≤◌, ◌<◌, ◌≡◌, refl, ◌⊎◌, inl, inr, Bool, List, [], ◌∷◌, map, arith, length,
}
use sia_optimization_proposa.Migrator.Plan.{
  UploadHost, Shard, destinations, collect, allowed, upload, effective_avoid, insufficient,
  decide_plan, plan, missing,
}
use sia_optimization_proposa.Migrator.Plan.Laws.{
  Apart, NoneIn, keys, collect-IsCollected, allowed_lem,
}
use sia_optimization_proposa.Migrator.Plan.Kept.{Split, collect-Split}
use sia_optimization_proposa.Migrator.Plan.Downloads.{downloadable, missing-downloadable}
use sia_optimization_proposa.Migrator.Plan.Destinations.{destinations-le, only_used-le-length}

-- The contracts of the upload hosts.
abbrev pub contracts_of : List UploadHost → List ℕ
contracts_of hosts = map (λ (h : UploadHost). h.contract_id) hosts

-- What a planned upload satisfies, with the avoided hosts that are in force.
pub record IsPlanned (avoid usable : List ℕ) (shards : List Shard) (min_shards : ℕ)
    (hosts : List UploadHost) (indices : List ℕ) (targets : List UploadHost) : Type 0 where
  pub kept : List ℕ
  pub split : Split avoid usable (contracts_of hosts) 0 [] shards indices kept
  pub kept_apart : Apart kept
  pub every_shard : length indices + length kept ≡ length shards
  pub targets_apart : Apart (keys targets)
  pub targets_not_avoided : NoneIn avoid (keys targets)
  pub targets_unused : NoneIn kept (keys targets)
  pub enough_hosts : min_shards ≤ length hosts
  pub enough_downloads : min_shards ≤ downloadable usable shards
  pub some_index : 0 < length indices

-- The outcome is an upload in one case only.
decide_upload :
    (short : Bool) (avoid usable : List ℕ) (hosts : List UploadHost) (min_shards : ℕ)
    (shards : List Shard) (r : List ℕ × List ℕ) (indices : List ℕ) (targets : List UploadHost)
    → decide_plan short avoid usable hosts min_shards shards r ≡ upload indices targets
    → (indices ≡ r.0)
      × (targets ≡ allowed avoid r.1 hosts)
      × (min_shards ≤ length hosts)
      × (min_shards ≤ length shards - missing usable shards indices)
      × (0 < length indices)
unfolding decide_plan
decide_upload short avoid usable hosts min_shards shards ([], used) indices targets e = ground arith
decide_upload short avoid usable hosts min_shards shards (i ∷ is', used) indices targets e =
    ground arith

abbrev planned_avoid : List ℕ → List UploadHost → List Shard → List ℕ
planned_avoid avoid hosts shards = effective_avoid avoid hosts (length shards)

abbrev planned_loop : List ℕ → List ℕ → List UploadHost → List Shard → List ℕ × List ℕ
planned_loop avoid usable hosts shards =
    collect (planned_avoid avoid hosts shards) usable (contracts_of hosts) 0 [] shards

plan_cases :
    (shards : List Shard) (min_shards : ℕ) (usable : List ℕ) (hosts : List UploadHost)
    (avoid indices : List ℕ) (targets : List UploadHost)
    → plan shards min_shards usable hosts avoid ≡ upload indices targets
    → (indices ≡ (planned_loop avoid usable hosts shards).0)
      × (targets
          ≡ allowed
              (planned_avoid avoid hosts shards)
              (planned_loop avoid usable hosts shards).1
              hosts)
      × (min_shards ≤ length hosts)
      × (min_shards ≤ length shards - missing usable shards indices)
      × (0 < length indices)
unfolding plan
plan_cases shards min_shards usable hosts avoid indices targets e =
    decide_upload (insufficient avoid hosts (length shards)) (planned_avoid avoid hosts shards)
      usable hosts min_shards shards (planned_loop avoid usable hosts shards) indices targets e

-- When `migrate` goes on to upload the shards `indices` to `targets`: going through the shards in
-- order, each one keeps a host of its own, or its index is in `indices`, at least one of them. The
-- host that is kept is one of the shard's, is not avoided and is usable, one of the shard's
-- contracts with it is that of an upload host, and no shard before keeps it; all such hosts of a
-- shard that is moved are kept by shards before it. The targets are different, not avoided and not
-- among the kept hosts. There are at least `min_shards` upload hosts, and at least `min_shards`
-- shards with a usable host to download from. The avoided hosts are those in force.
pub plan_upload :
    (shards : List Shard) (min_shards : ℕ) (usable : List ℕ) (hosts : List UploadHost)
    (avoid indices : List ℕ) (targets : List UploadHost)
    → plan shards min_shards usable hosts avoid ≡ upload indices targets
    → IsPlanned
        (effective_avoid avoid hosts (length shards))
        usable
        shards
        min_shards
        hosts
        indices
        targets
plan_upload shards min_shards usable hosts avoid indices targets e =
    let (same, chosen, enough, downloads, some') =
      plan_cases shards min_shards usable hosts avoid indices targets e in
    let avoided = planned_avoid avoid hosts shards in
    let r = planned_loop avoid usable hosts shards in
    let c = collect-IsCollected avoided usable (contracts_of hosts) shards in
    let split : Split avoided usable (contracts_of hosts) 0 [] shards indices r.1 =
      rw same (collect-Split avoided usable (contracts_of hosts) 0 [] shards) in
    let count =
      missing-downloadable avoided usable (contracts_of hosts) shards 0 [] shards indices r.1 refl
        split in
    let (apart, none', unused) = allowed_lem avoided r.1 hosts in
    record {
      kept = r.1;
      split = split;
      kept_apart = c.apart;
      every_shard = rw same c.every_shard;
      targets_apart = rw chosen apart;
      targets_not_avoided = rw chosen none';
      targets_unused = rw chosen unused;
      enough_hosts = enough;
      enough_downloads = omega (arith, downloads, count);
      some_index = some';
    }

effective_cases :
    (avoid : List ℕ) (hosts : List UploadHost) (n : ℕ)
    → (effective_avoid avoid hosts n ≡ [])
      ⊎ (effective_avoid avoid hosts n ≡ avoid) × (n ≤ length (destinations avoid hosts []))
unfolding effective_avoid
effective_cases [] hosts n = inl refl
effective_cases (a ∷ as') hosts n = ground arith

enough_destinations :
    (avoid : List ℕ) (hosts : List UploadHost) (n : ℕ)
    → 0 < length (effective_avoid avoid hosts n)
    → n ≤ length (destinations (effective_avoid avoid hosts n) hosts [])
enough_destinations avoid hosts n h = elim (effective_cases avoid hosts n) [
  | inl e ↦ absurd (omega (arith, nothing e))
  | inr (e, enough) ↦ rw e enough
]
  where
    nothing : effective_avoid avoid hosts n ≡ [] → length (effective_avoid avoid hosts n) ≡ 0
    nothing e = rw e refl

-- When `migrate` goes on to upload and a set of avoided hosts is in force, there are at least as
-- many targets as shards to move: a move away from risky hosts never has to leave a shard behind
-- for want of a destination.
pub plan_enough :
    (shards : List Shard) (min_shards : ℕ) (usable : List ℕ) (hosts : List UploadHost)
    (avoid indices : List ℕ) (targets : List UploadHost)
    → plan shards min_shards usable hosts avoid ≡ upload indices targets
    → 0 < length (effective_avoid avoid hosts (length shards))
    → length indices ≤ length targets
plan_enough shards min_shards usable hosts avoid indices targets e some' =
    let (same, chosen, enough, downloads, some_moved) =
      plan_cases shards min_shards usable hosts avoid indices targets e in
    let avoided = planned_avoid avoid hosts shards in
    let r = planned_loop avoid usable hosts shards in
    let c = collect-IsCollected avoided usable (contracts_of hosts) shards in
    let every_shard : length indices + length r.1 ≡ length shards = rw same c.every_shard in
    rw chosen (
      omega (
        arith,
        every_shard,
        enough_destinations avoid hosts (length shards) some',
        destinations-le avoided [] r.1 hosts (λ j h. absurd (cc)),
        only_used-le-length r.1 [],
      ))
