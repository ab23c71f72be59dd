-- ===== src/Risk/Evaluate.antt =====
-- `evaluateSlabRisk` of stores/repair_policy.go.
pub mod Valid
pub mod Until
pub mod Evidence
pub mod Reliable
use sia_optimization_proposa.Prelude.{
  ℕ, zero, suc, ◌-◌, min, max, Bool, true, false, ◌||◌, ◌&&◌, not, Option, none, some, List, [],
  ◌∷◌, ◌++◌, map, if◌then◌else◌, ◌==◌, ltb, leb, length, get_or, get_elem?, replicate, all, keep,
}
use sia_optimization_proposa.Prelude.Int.{ℤ, pos, pos_part, ltb_ℤ, leb_ℤ, ◌+ℤ◌, ◌-ℤ◌}
use sia_optimization_proposa.Prelude.Sorting.{sort_by}
use sia_optimization_proposa.Floats.{Floats}
use sia_optimization_proposa.Risk.Loss.{f_zero}
use sia_optimization_proposa.Risk.Policy.{
  Scenario, Policy, RiskOptions, has_key, hour, slab_risk_model_version,
}
use sia_optimization_proposa.Risk.Matching.{assign_all}
use sia_optimization_proposa.Risk.Estimate.{
  SlabRiskHost, SlabRiskCandidate, since, add_time, capped_duration_sum, host_failure_probability,
  correlated_slab_loss, explanatory_cutoff,
}
use sia_optimization_proposa.Risk.Placement.{Placement, independent_placement}

-- The set of avoided hosts is sorted by key.
abbrev pub key_less : ℕ → ℕ → Bool
key_less a b = ltb a b

pub data Reason : Type 0 where
  missing_or_stale unsupported_placement below_boundary queue_exceeds horizon_exceeds : Reason
  risk_budget expired_during_scan : Reason

module _ (fl : Floats) where
  open fl use {F, add, mul, div, lt, eq, is_nan, of_int, trunc}

  pub record SlabRepairRisk : Type 0 where
    pub model_version : ℕ
    pub valid : Bool
    pub valid_until : ℕ
    pub loss_probability : F
    pub protection_horizon : ℤ
    pub health_cutoff : F
    pub usable_hosts : ℕ
    pub emergency : Bool
    pub under_provisioned : Bool
    pub reason : Reason
    pub avoid_hosts : List ℕ

  abbrev pub zeros : List (SlabRiskHost fl) → List F
  zeros hosts = replicate (length hosts) (f_zero fl)

  -- `LastScan.IsZero() || LastScan.After(now) || now.Sub(LastScan) >= ttl`
  abbrev pub is_stale : ℕ → ℤ → SlabRiskHost fl → Bool
  is_stale now ttl h = h.last_scan == 0 || ltb now h.last_scan || leb_ℤ ttl (since now h.last_scan)

  -- The hosts whose evidence is fresh.
  unfoldable pub fresh_hosts : ℕ → ℤ → ℤ → ℕ → List (SlabRiskHost fl) → List (SlabRiskHost fl)
  fresh_hosts now ttl block_interval height hosts =
      keep
        (λ (h : SlabRiskHost fl). not (
          is_stale now ttl h
          || is_nan (host_failure_probability fl h now (pos hour) block_interval height)))
        hosts

  -- The oldest observation and the first deadline.
  unfoldable pub oldest_from : ℕ → ℤ → List (SlabRiskHost fl) → ℤ
  oldest_from now oldest [] = oldest
  oldest_from now oldest (h ∷ hosts) =
      oldest_from now
        (if ltb_ℤ oldest (since now h.last_scan) then since now h.last_scan else oldest) hosts

  unfoldable pub valid_until_from : ℤ → ℕ → List (SlabRiskHost fl) → ℕ
  valid_until_from ttl until [] = until
  valid_until_from ttl until (h ∷ hosts) =
      let deadline = add_time h.last_scan ttl in
      valid_until_from ttl (if ltb deadline until then deadline else until) hosts

  unfoldable pub probabilities_of : ℕ → ℤ → ℤ → ℕ → List (SlabRiskHost fl) → List F
  probabilities_of now horizon block_interval height [] = []
  probabilities_of now horizon block_interval height (h ∷ hosts) =
      host_failure_probability fl h now horizon block_interval height
      ∷ probabilities_of now horizon block_interval height hosts

  abbrev pub keys_of : List (SlabRiskHost fl) → List ℕ
  keys_of hosts = map (λ (h : SlabRiskHost fl). h.key) hosts

  -- `avoid[hk] = true`, as a list without repetitions.
  abbrev pub avoid_key : ℕ → List ℕ → List ℕ
  avoid_key hk avoid = if has_key fl hk avoid then avoid else hk ∷ avoid

  abbrev pub avoid_all : List ℕ → List ℕ → List ℕ
  avoid_all [] avoid = avoid
  avoid_all (hk ∷ hks) avoid = avoid_all hks (avoid_key hk avoid)

  abbrev pub affects : List ℕ → List ℕ → Bool
  affects [] keys = false
  affects (hk ∷ hks) keys = has_key fl hk keys || affects hks keys

  unfoldable pub avoid_scenarios : List ℕ → List (Scenario fl) → List ℕ → List ℕ
  avoid_scenarios keys [] avoid = avoid
  avoid_scenarios keys (s ∷ ss) avoid = avoid_scenarios keys ss (
      if eq s.probability (f_zero fl)
      then avoid
      else if affects s.hosts keys
      then avoid_all s.hosts avoid
      else avoid)

  -- The first host with the largest probability, from the best so far.
  unfoldable pub worst_key : ℕ → F → List ℕ → List F → ℕ
  worst_key key p [] ps = key
  worst_key key p (k ∷ keys) [] = key
  worst_key key p (k ∷ keys) (q ∷ ps) =
      worst_key (if lt p q then k else key) (if lt p q then q else p) keys ps

  abbrev pub avoid_worst : List ℕ → List F → List ℕ → List ℕ
  avoid_worst (k ∷ keys) (p ∷ ps) avoid = avoid_key (worst_key k p keys ps) avoid
  avoid_worst _ _ avoid = avoid

  unfoldable pub avoid_hosts_of : List ℕ → List F → List (Scenario fl) → List ℕ
  avoid_hosts_of keys ps scenarios =
      sort_by key_less (avoid_worst keys ps (avoid_scenarios keys scenarios []))

  -- `r` as it is before any check.
  abbrev pub initial_risk : SlabRiskCandidate fl → SlabRepairRisk
  initial_risk s = record {
    model_version = slab_risk_model_version;
    valid = false;
    valid_until = 0;
    loss_probability = f_zero fl;
    protection_horizon = pos 0;
    health_cutoff = f_zero fl;
    usable_hosts = length s.hosts;
    emergency = leb_ℤ (pos (length s.hosts)) s.min_shards;
    under_provisioned = false;
    reason = missing_or_stale;
    avoid_hosts = [];
  }

  -- From the placement by probability on.
  unfoldable pub finish : SlabRepairRisk → Placement fl → Policy fl → SlabRepairRisk
  finish r (s, ps, supported) policy =
      let r1 = record r {
        usable_hosts = length s.hosts;
        emergency = r.emergency || leb_ℤ (pos (length s.hosts)) s.min_shards;
      } in
      let keys = keys_of s.hosts in
      let loss = correlated_slab_loss fl keys ps s.min_shards policy.scenarios in
      let (cutoff, under) = explanatory_cutoff fl s ps policy in
      if not supported
      then record r { reason = unsupported_placement }
      else if is_nan loss
      then r1
      else record r1 {
        valid = true;
        loss_probability = loss;
        health_cutoff = cutoff;
        under_provisioned = under;
        reason = risk_budget;
        avoid_hosts = avoid_hosts_of keys ps policy.scenarios;
      }

  -- `repairTime`
  abbrev pub repair_time_of : RiskOptions fl → ℤ
  repair_time_of opts =
      if leb_ℤ opts.repair_time (pos 0) then opts.policy.default_repair_time else opts.repair_time

  -- `queue`
  abbrev pub queue_of : RiskOptions fl → F
  queue_of opts =
      div (mul (of_int (pos opts.queue_depth)) (of_int (repair_time_of opts)))
        (of_int (pos (max 1 opts.parallelism)))

  abbrev pub horizon_of : RiskOptions fl → ℤ → ℤ
  horizon_of opts oldest =
      capped_duration_sum opts.policy.max_horizon
        (oldest ∷ trunc (queue_of opts) ∷ repair_time_of opts ∷ opts.policy.safety_margin ∷ [])

  -- From the repair time on, with the fresh hosts.
  unfoldable pub with_horizon :
      SlabRepairRisk → SlabRiskCandidate fl → RiskOptions fl → ℕ → ℕ → ℤ → SlabRepairRisk
  with_horizon r s opts height now oldest =
      let policy = opts.policy in
      let horizon = horizon_of opts oldest in
      let r1 = record r { protection_horizon = horizon } in
      let ps = probabilities_of now horizon opts.block_interval height s.hosts in
      if lt (of_int policy.max_queue_delay) (queue_of opts)
        || ltb_ℤ policy.max_horizon (repair_time_of opts)
      then record r { reason = queue_exceeds }
      else if leb_ℤ policy.max_horizon horizon
      then record r1 { reason = horizon_exceeds }
      else if not (all (λ p. not (is_nan p)) ps)
      then r1
      else finish r1 (independent_placement fl s ps policy.scenarios) policy

  -- From the choice of the fresh hosts on. The loop over them checks again what they passed.
  unfoldable pub with_fresh :
      SlabRepairRisk → SlabRiskCandidate fl → RiskOptions fl → ℕ → ℕ → SlabRepairRisk
  with_fresh r s opts height now =
      let ttl = opts.policy.model_ttl in
      let hosts = fresh_hosts now ttl opts.block_interval height s.hosts in
      let fresh = record s { hosts = hosts } in
      let placement = (independent_placement fl fresh (zeros hosts) []).0 in
      if ltb_ℤ (pos (length hosts)) s.min_shards
      then r
      else if ltb (length placement.hosts) r.usable_hosts
      then r
      else with_horizon (record r { valid_until = valid_until_from ttl (add_time now ttl) hosts })
          fresh opts height now (oldest_from now (pos 0) hosts)

  -- `evaluateSlabRisk`
  unfoldable pub evaluate_slab_risk : SlabRiskCandidate fl → RiskOptions fl → ℕ → ℕ → SlabRepairRisk
  evaluate_slab_risk s opts height now =
      let r = initial_risk s in
      let (placement, _, supported) = independent_placement fl s (zeros s.hosts) [] in
      let r1 = record r {
        usable_hosts = length placement.hosts;
        emergency = leb_ℤ (pos (length placement.hosts)) s.min_shards;
      } in
      if leb_ℤ s.min_shards (pos 0)
        || ltb_ℤ s.total_shards s.min_shards
        || ltb_ℤ (pos 255) s.total_shards
      then record r { reason = unsupported_placement }
      else if not supported
      then record r { reason = unsupported_placement }
      else if ltb_ℤ (pos (length placement.hosts)) s.min_shards
      then record r1 { reason = below_boundary }
      else with_fresh r1 s opts height now
