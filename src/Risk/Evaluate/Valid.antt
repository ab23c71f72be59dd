-- ===== src/Risk/Evaluate/Valid.antt =====
-- What an evaluation promises, on every path that it can return by.
use sia_optimization_proposa.Prelude.{ℕ, ◌≡◌, true, false, [], arith, length}
use sia_optimization_proposa.Prelude.Int.{ℤ, pos, ltb_ℤ, leb_ℤ}
use sia_optimization_proposa.Floats.{Floats}
use sia_optimization_proposa.Risk.Policy.{Policy, RiskOptions}
use sia_optimization_proposa.Risk.Estimate.{SlabRiskCandidate, add_time}
use sia_optimization_proposa.Risk.Placement.{Placement, independent_placement}
use sia_optimization_proposa.Risk.Placement.Laws.{placement_min_shards}
use sia_optimization_proposa.Risk.Evaluate.{
  risk_budget, SlabRepairRisk, fresh_hosts, valid_until_from, oldest_from, initial_risk, finish,
  with_horizon, with_fresh, evaluate_slab_risk, horizon_of, queue_of, zeros, repair_time_of,
  probabilities_of,
}

module _ (fl : Floats) where
  open fl use {F, is_nan, lt, of_int}

  -- At or below the reconstruction boundary an evaluation is an emergency.
  abbrev pub Urgent : ℤ → SlabRepairRisk fl → Type 0
  Urgent least r = leb_ℤ (pos r.usable_hosts) least ≡ true → r.emergency ≡ true

  finish-Urgent :
      (r : SlabRepairRisk fl) (p : Placement fl) (policy : Policy fl)
      → Urgent p.0.min_shards r
      → Urgent p.0.min_shards (finish fl r p policy)
  unfolding finish
  finish-Urgent r (s, ps, supported) policy u = λ e. ground arith

  with_horizon-Urgent :
      (r : SlabRepairRisk fl) (s : SlabRiskCandidate fl) (opts : RiskOptions fl) (height now : ℕ)
      (oldest : ℤ)
      → Urgent s.min_shards r
      → Urgent s.min_shards (with_horizon fl r s opts height now oldest)
  unfolding with_horizon
  with_horizon-Urgent r s opts height now oldest u =
      let horizon = horizon_of fl opts oldest in
      let ps = probabilities_of fl now horizon opts.block_interval height s.hosts in
      let p = independent_placement fl s ps opts.policy.scenarios in
      let same : p.0.min_shards ≡ s.min_shards =
        placement_min_shards fl s ps opts.policy.scenarios in
      λ e.
        ground
          (arith, same, finish-Urgent (record r { protection_horizon = horizon }) p opts.policy)

  with_fresh-Urgent :
      (r : SlabRepairRisk fl) (s : SlabRiskCandidate fl) (opts : RiskOptions fl) (height now : ℕ)
      → Urgent s.min_shards r
      → Urgent s.min_shards (with_fresh fl r s opts height now)
  unfolding with_fresh
  with_fresh-Urgent r s opts height now u =
      let ttl = opts.policy.model_ttl in
      let hosts = fresh_hosts fl now ttl opts.block_interval height s.hosts in
      let until = valid_until_from fl ttl (add_time now ttl) hosts in
      λ e. ground (
        arith,
        with_horizon-Urgent (record r { valid_until = until }) (record s { hosts = hosts }) opts
            height now (oldest_from fl now (pos 0) hosts),
      )

  -- On every path an evaluation whose usable hosts are at most the minimum to reconstruct the slab
  -- is an emergency.
  pub evaluate_emergency :
      (s : SlabRiskCandidate fl) (opts : RiskOptions fl) (height now : ℕ)
      → leb_ℤ (pos (evaluate_slab_risk fl s opts height now).usable_hosts) s.min_shards ≡ true
      → (evaluate_slab_risk fl s opts height now).emergency ≡ true
  unfolding evaluate_slab_risk
  evaluate_emergency s opts height now e =
      let p = independent_placement fl s (zeros fl s.hosts) [] in
      let r1 = record (initial_risk fl s) {
        usable_hosts = length p.0.hosts;
        emergency = leb_ℤ (pos (length p.0.hosts)) s.min_shards;
      } in
      ground (arith, with_fresh-Urgent r1 s opts height now)

  -- What a valid evaluation has passed.
  pub record Passed (r : SlabRepairRisk fl) (opts : RiskOptions fl) (oldest : ℤ) : Type 0 where
    pub reason_is : r.reason ≡ risk_budget
    pub loss_known : is_nan r.loss_probability ≡ false
    pub queue_short : lt (of_int opts.policy.max_queue_delay) (queue_of fl opts) ≡ false
    pub repair_short : ltb_ℤ opts.policy.max_horizon (repair_time_of fl opts) ≡ false
    pub horizon_is : r.protection_horizon ≡ horizon_of fl opts oldest
    pub horizon_short : leb_ℤ opts.policy.max_horizon r.protection_horizon ≡ false

  pub with_horizon-Passed :
      (r : SlabRepairRisk fl) (s : SlabRiskCandidate fl) (opts : RiskOptions fl) (height now : ℕ)
      (oldest : ℤ)
      → r.valid ≡ false
      → (with_horizon fl r s opts height now oldest).valid ≡ true
      → Passed (with_horizon fl r s opts height now oldest) opts oldest
        × ((with_horizon fl r s opts height now oldest).valid_until ≡ r.valid_until)
  unfolding with_horizon finish
  with_horizon-Passed r s opts height now oldest u v = ground arith
