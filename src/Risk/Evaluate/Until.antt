-- ===== src/Risk/Evaluate/Until.antt =====
-- How long a valid evaluation can be relied on.
use sia_optimization_proposa.Prelude.{
  ℕ, ◌≤◌, ◌<◌, ◌≡◌, true, false, List, [], ◌∷◌, arith, if◌then◌else◌, ltb, length, All,
}
use sia_optimization_proposa.Prelude.Int.{ℤ, pos, ltb_ℤ, leb_ℤ, ◌+ℤ◌}
use sia_optimization_proposa.Floats.{Floats}
use sia_optimization_proposa.Risk.Policy.{RiskOptions}
use sia_optimization_proposa.Risk.Estimate.{SlabRiskHost, SlabRiskCandidate, add_time, max_int64}
use sia_optimization_proposa.Risk.Placement.{independent_placement}
use sia_optimization_proposa.Risk.Evaluate.{
  SlabRepairRisk, is_stale, fresh_hosts, valid_until_from, oldest_from, initial_risk, with_fresh,
  evaluate_slab_risk, zeros,
}
use sia_optimization_proposa.Risk.Evaluate.Valid.{Passed, with_horizon-Passed}

module _ (fl : Floats) where
  open fl use {F, is_nan}

  -- The first deadline is the bound or earlier, and no later than that of any host.
  pub valid_until_from-le :
      (ttl : ℤ) (until : ℕ) (hosts : List (SlabRiskHost fl))
      → (valid_until_from fl ttl until hosts ≤ until)
        × All
            (λ (h : SlabRiskHost fl).
              valid_until_from fl ttl until hosts ≤ add_time h.last_scan ttl)
            hosts
  unfolding valid_until_from
  valid_until_from-le ttl until [] = (omega arith, tt)
  valid_until_from-le ttl until (h ∷ hosts) =
      let deadline = add_time h.last_scan ttl in
      let ih = valid_until_from-le ttl (if ltb deadline until then deadline else until) hosts in
      (ground arith, (ground arith, ih.1))

  -- A bound on the starting value and on every deadline is a bound on the first.
  lt-valid_until_from :
      (now : ℕ) (ttl : ℤ) (until : ℕ) (hosts : List (SlabRiskHost fl))
      → now < until
      → All (λ (h : SlabRiskHost fl). now < add_time h.last_scan ttl) hosts
      → now < valid_until_from fl ttl until hosts
  unfolding valid_until_from
  lt-valid_until_from now ttl until [] u a = u
  lt-valid_until_from now ttl until (h ∷ hosts) u a =
      let deadline = add_time h.last_scan ttl in
      lt-valid_until_from now ttl (if ltb deadline until then deadline else until) hosts
        (ground arith) a.1

  fresh_deadline :
      (now : ℕ) (ttl : ℤ) (h : SlabRiskHost fl)
      → leb_ℤ ttl (pos max_int64) ≡ true
      → is_stale fl now ttl h ≡ false
      → now < add_time h.last_scan ttl
  unfolding ◌+ℤ◌
  fresh_deadline now ttl h cap f = ground arith

  fresh_hosts-deadlines :
      (now : ℕ) (ttl block_interval : ℤ) (height : ℕ) (hosts : List (SlabRiskHost fl))
      → leb_ℤ ttl (pos max_int64) ≡ true
      → All
          (λ (h : SlabRiskHost fl). now < add_time h.last_scan ttl)
          (fresh_hosts fl now ttl block_interval height hosts)
  unfolding fresh_hosts
  fresh_hosts-deadlines now ttl block_interval height [] cap = tt
  fresh_hosts-deadlines now ttl block_interval height (h ∷ hosts) cap = ground (
    arith,
    fresh_deadline now ttl h,
    fresh_hosts-deadlines now ttl block_interval height hosts cap,
  )

  abbrev pub fresh_of : SlabRiskCandidate fl → RiskOptions fl → ℕ → ℕ → List (SlabRiskHost fl)
  fresh_of s opts height now =
      fresh_hosts fl now opts.policy.model_ttl opts.block_interval height s.hosts

  -- What a valid evaluation rests on.
  pub record Relies (s : SlabRiskCandidate fl) (opts : RiskOptions fl) (height now : ℕ)
      (r : SlabRepairRisk fl) : Type 0 where
    pub passed : Passed fl r opts (oldest_from fl now (pos 0) (fresh_of s opts height now))
    pub least : leb_ℤ s.min_shards (pos 0) ≡ false
    pub most : ltb_ℤ (pos 255) s.total_shards ≡ false
    pub enough : ltb_ℤ (pos (length (fresh_of s opts height now))) s.min_shards ≡ false
    pub until :
        r.valid_until
        ≡ valid_until_from fl opts.policy.model_ttl
            (add_time now opts.policy.model_ttl)
            (fresh_of s opts height now)

  with_fresh-Relies :
      (r : SlabRepairRisk fl) (s : SlabRiskCandidate fl) (opts : RiskOptions fl) (height now : ℕ)
      → leb_ℤ s.min_shards (pos 0) ≡ false
      → ltb_ℤ (pos 255) s.total_shards ≡ false
      → r.valid ≡ false
      → (with_fresh fl r s opts height now).valid ≡ true
      → Relies s opts height now (with_fresh fl r s opts height now)
  unfolding with_fresh
  with_fresh-Relies r s opts height now lo hi u v =
      let ttl = opts.policy.model_ttl in
      let hosts = fresh_of s opts height now in
      let until = valid_until_from fl ttl (add_time now ttl) hosts in
      ground (
        arith,
        with_horizon-Passed fl (record r { valid_until = until }) (record s { hosts = hosts }) opts
            height now (oldest_from fl now (pos 0) hosts),
      )

  pub evaluate-Relies :
      (s : SlabRiskCandidate fl) (opts : RiskOptions fl) (height now : ℕ)
      → (evaluate_slab_risk fl s opts height now).valid ≡ true
      → Relies s opts height now (evaluate_slab_risk fl s opts height now)
  unfolding evaluate_slab_risk
  evaluate-Relies s opts height now v =
      let p = independent_placement fl s (zeros fl s.hosts) [] in
      let r1 = record (initial_risk fl s) {
        usable_hosts = length p.0.hosts;
        emergency = leb_ℤ (pos (length p.0.hosts)) s.min_shards;
      } in
      ground (arith, with_fresh-Relies r1 s opts height now)

  -- With a positive 64-bit TTL, a valid evaluation is valid for some time: its deadline is after
  -- the evaluation, no later than one TTL from it, and no later than one TTL from the last scan of
  -- any host with fresh evidence.
  pub evaluate_valid_until :
      (s : SlabRiskCandidate fl) (opts : RiskOptions fl) (height now : ℕ)
      → ltb_ℤ (pos 0) opts.policy.model_ttl ≡ true
      → leb_ℤ opts.policy.model_ttl (pos max_int64) ≡ true
      → (evaluate_slab_risk fl s opts height now).valid ≡ true
      → (now < (evaluate_slab_risk fl s opts height now).valid_until)
        × ((evaluate_slab_risk fl s opts height now).valid_until
            ≤ add_time now opts.policy.model_ttl)
        × All
            (λ (h : SlabRiskHost fl).
              (evaluate_slab_risk fl s opts height now).valid_until
              ≤ add_time h.last_scan opts.policy.model_ttl)
            (fresh_of s opts height now)
  evaluate_valid_until s opts height now pos_ttl cap v =
      let ttl = opts.policy.model_ttl in
      let hosts = fresh_of s opts height now in
      let start : now < add_time now ttl = unfold ◌+ℤ◌ in (ground arith) in
      let bounds = valid_until_from-le ttl (add_time now ttl) hosts in
      let u = (evaluate-Relies s opts height now v).until in
      (
        rw u (
            lt-valid_until_from now ttl (add_time now ttl) hosts start
              (fresh_hosts-deadlines now ttl opts.block_interval height s.hosts cap)),
        rw u bounds.0,
        rw u bounds.1,
      )
