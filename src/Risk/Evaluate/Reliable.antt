-- ===== src/Risk/Evaluate/Reliable.antt =====
-- What a valid evaluation is worth: which evidence it rests on, and how its horizon and its
-- deadline come about.
use sia_optimization_proposa.Prelude.{
  ℕ, ◌≤◌, ◌<◌, ◌≡◌, refl, ◌∙◌, sym, ap, inl, inr, ◌⊎◌, max, true, false, List, [], ◌∷◌, arith,
  length, All, Bool-cases,
}
use sia_optimization_proposa.Prelude.Int.{ℤ, pos, negsuc, ltb_ℤ, leb_ℤ, ◌≤ℤ◌, ◌-ℤ◌}
use sia_optimization_proposa.Floats.{Floats}
use sia_optimization_proposa.Risk.Policy.{RiskOptions}
use sia_optimization_proposa.Risk.Estimate.{
  SlabRiskHost, SlabRiskCandidate, since, add_time, capped_from, capped_duration_sum,
}
use sia_optimization_proposa.Risk.Estimate.Capped.{total, capped_duration_sum_cases}
use sia_optimization_proposa.Risk.Evaluate.{
  SlabRepairRisk, risk_budget, oldest_from, evaluate_slab_risk, horizon_of, queue_of,
  repair_time_of,
}
use sia_optimization_proposa.Risk.Evaluate.Until.{fresh_of, valid_until_from-le, evaluate-Relies}
use sia_optimization_proposa.Risk.Evaluate.Evidence.{
  Some, Chosen, fresh_hosts-Chosen, oldest_from-IsOldest, valid_until_from-IsDeadline, oldest_age,
}

negative_cap : (c n : ℕ) (vs : List ℤ) → capped_duration_sum (negsuc c) (pos n ∷ vs) ≡ negsuc c
unfolding capped_duration_sum capped_from ◌-ℤ◌
negative_cap c n vs = ground arith

-- A capped sum below its cap is the exact sum.
capped_below :
    (cap : ℤ) (n : ℕ) (vs : List ℤ)
    → leb_ℤ cap (capped_duration_sum cap (pos n ∷ vs)) ≡ false
    → capped_duration_sum cap (pos n ∷ vs) ≡ total (pos 0) (pos n ∷ vs)
capped_below (pos c) n vs below =
    elim (capped_duration_sum_cases (pos c) (pos n ∷ vs) (omega arith)) [
      | inl (_, e) ↦ e
      | inr (_, e) ↦ absurd (ground arith)
    ]
capped_below (negsuc c) n vs below = absurd (over (negative_cap c n vs))
  where
    over : capped_duration_sum (negsuc c) (pos n ∷ vs) ≡ negsuc c → ⊥
    over e = ground arith

positive : (m : ℤ) → leb_ℤ m (pos 0) ≡ false → pos 1 ≤ℤ m
positive (pos m) e = ground arith
positive (negsuc m) e = absurd (ground arith)

le_of_ltb : (a b : ℤ) → ltb_ℤ a b ≡ false → b ≤ℤ a
le_of_ltb a b e = ground arith

ltb_of_leb : (a b : ℤ) → leb_ℤ b a ≡ false → ltb_ℤ a b ≡ true
ltb_of_leb a b e = ground arith

few : (n : ℕ) (m : ℤ) → leb_ℤ m (pos 0) ≡ false → ltb_ℤ (pos n) m ≡ false → 0 < n
few n (pos m) e f = ground arith
few n (negsuc m) e f = absurd (ground arith)

module _ (fl : Floats) where
  open fl use {F, mul, div, lt, is_nan, of_int, trunc}

  -- What a valid evaluation satisfies.
  pub record IsReliable (s : SlabRiskCandidate fl) (opts : RiskOptions fl) (height now : ℕ)
      (r : SlabRepairRisk fl) : Type 0 where
    pub fresh : List (SlabRiskHost fl)
    pub oldest : ℤ
    pub repair : ℤ
    pub reason_is : r.reason ≡ risk_budget
    pub loss_known : is_nan r.loss_probability ≡ false
    pub least : pos 1 ≤ℤ s.min_shards
    pub most : s.total_shards ≤ℤ pos 255
    pub chosen : Chosen fl opts height now s.hosts fresh
    pub enough : s.min_shards ≤ℤ pos (length fresh)
    pub no_older : All (λ (h : SlabRiskHost fl). since now h.last_scan ≤ℤ oldest) fresh
    pub oldest_is : Some (λ (h : SlabRiskHost fl). oldest ≡ since now h.last_scan) fresh
    pub repair_is :
        (pos 1 ≤ℤ opts.repair_time) × (repair ≡ opts.repair_time)
        ⊎ (opts.repair_time ≤ℤ pos 0) × (repair ≡ opts.policy.default_repair_time)
    pub repair_short : repair ≤ℤ opts.policy.max_horizon
    pub queue_short :
        lt (of_int opts.policy.max_queue_delay) (
          div
            (mul (of_int (pos opts.queue_depth)) (of_int repair))
            (of_int (pos (max 1 opts.parallelism))))
        ≡ false
    pub horizon_is :
        r.protection_horizon
        ≡ total (pos 0) (
            oldest
            ∷ trunc (
                div
                  (mul (of_int (pos opts.queue_depth)) (of_int repair))
                  (of_int (pos (max 1 opts.parallelism))))
            ∷ repair
            ∷ opts.policy.safety_margin
            ∷ [])
    pub horizon_short : ltb_ℤ r.protection_horizon opts.policy.max_horizon ≡ true
    pub by_ttl : r.valid_until ≤ add_time now opts.policy.model_ttl
    pub by_hosts :
        All
          (λ (h : SlabRiskHost fl). r.valid_until ≤ add_time h.last_scan opts.policy.model_ttl)
          fresh
    pub until_is :
        (r.valid_until ≡ add_time now opts.policy.model_ttl)
        ⊎ Some
            (λ (h : SlabRiskHost fl). r.valid_until ≡ add_time h.last_scan opts.policy.model_ttl)
            fresh

  repair_cases :
      (opts : RiskOptions fl)
      → (pos 1 ≤ℤ opts.repair_time) × (repair_time_of fl opts ≡ opts.repair_time)
        ⊎ (opts.repair_time ≤ℤ pos 0) × (repair_time_of fl opts ≡ opts.policy.default_repair_time)
  repair_cases opts = elim (Bool-cases (leb_ℤ opts.repair_time (pos 0))) [
    | inl none_given ↦ inr (ground arith, rw none_given refl)
    | inr given ↦ inl (positive opts.repair_time given, rw given refl)
  ]

  exact_horizon :
      (opts : RiskOptions fl) (n : ℕ) (o : ℤ)
      → o ≡ pos n
      → (horizon : ℤ) → horizon ≡ horizon_of fl opts o
      → leb_ℤ opts.policy.max_horizon horizon ≡ false
      → horizon
        ≡ total
            (pos 0)
            (o ∷ trunc (queue_of fl opts) ∷ repair_time_of fl opts ∷ opts.policy.safety_margin ∷ [])
  exact_horizon opts n o age horizon is below =
      let vs = trunc (queue_of fl opts) ∷ repair_time_of fl opts ∷ opts.policy.safety_margin ∷ [] in
      let same : horizon_of fl opts o ≡ capped_duration_sum opts.policy.max_horizon (pos n ∷ vs) =
        rw age refl in
      is
      ∙ same
      ∙ capped_below opts.policy.max_horizon n vs (rw (sym (is ∙ same)) below)
      ∙ ap (λ a. total (pos 0) (a ∷ vs)) (sym age)

  -- A valid evaluation has a slab with a positive minimum and at most 255 shards. It rests on the
  -- hosts that were scanned, not after now and less than one TTL ago, and whose probability to fail
  -- within an hour is known, and these are at least the minimum. Its horizon is the exact sum of
  -- the age of their oldest scan, the delay of the queue, the repair time, or its default where it
  -- is not positive, and the safety margin, and is less than the policy's maximum; neither the
  -- delay nor the repair time exceeds its own bound. It is valid until the first of one TTL from
  -- now and one TTL from the scan of each of these hosts; and its loss probability is known.
  pub evaluate_valid :
      (s : SlabRiskCandidate fl) (opts : RiskOptions fl) (height now : ℕ)
      → (evaluate_slab_risk fl s opts height now).valid ≡ true
      → IsReliable s opts height now (evaluate_slab_risk fl s opts height now)
  evaluate_valid s opts height now v =
      let ttl = opts.policy.model_ttl in
      let hosts = fresh_of fl s opts height now in
      let w = evaluate-Relies fl s opts height now v in
      let o = oldest_from-IsOldest fl now (pos 0) hosts in
      let start = add_time now ttl in
      let (until_le, hosts_le) = valid_until_from-le fl ttl start hosts in
      let (n, age, found) =
        oldest_age fl now hosts (oldest_from fl now (pos 0) hosts)
          (few (length hosts) s.min_shards w.least w.enough) o in
      record {
        fresh = hosts;
        oldest = oldest_from fl now (pos 0) hosts;
        repair = repair_time_of fl opts;
        reason_is = w.passed.reason_is;
        loss_known = w.passed.loss_known;
        least = positive s.min_shards w.least;
        most = le_of_ltb (pos 255) s.total_shards w.most;
        chosen = fresh_hosts-Chosen fl opts height now s.hosts;
        enough = le_of_ltb (pos (length hosts)) s.min_shards w.enough;
        no_older = o.1;
        oldest_is = found;
        repair_is = repair_cases opts;
        repair_short =
            le_of_ltb opts.policy.max_horizon (repair_time_of fl opts) w.passed.repair_short;
        queue_short = w.passed.queue_short;
        horizon_is =
            exact_horizon opts n (oldest_from fl now (pos 0) hosts) age _ w.passed.horizon_is
              w.passed.horizon_short;
        horizon_short = ltb_of_leb _ opts.policy.max_horizon w.passed.horizon_short;
        by_ttl = rw w.until until_le;
        by_hosts = rw w.until hosts_le;
        until_is = rw w.until (valid_until_from-IsDeadline fl ttl start hosts);
      }
