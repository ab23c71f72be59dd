-- ===== src/Risk/Estimate.antt =====
-- The estimators of stores/repair_policy.go, over the rows of stores/sql/slab_risk.go.
pub mod Capped
use sia_optimization_proposa.Prelude.{
  ℕ, zero, suc, ◌+◌, ◌-◌, min, Bool, true, false, ◌||◌, List, [], ◌∷◌, if◌then◌else◌, ◌==◌, ltb,
  leb, length, get_or, take, drop, keep,
}
use sia_optimization_proposa.Prelude.Int.{ℤ, pos, negsuc, pos_part, ltb_ℤ, leb_ℤ, ◌+ℤ◌, ◌-ℤ◌}
use sia_optimization_proposa.Floats.{Floats}
use sia_optimization_proposa.Risk.Loss.{
  f_zero, f_one, spread, add_all, dp_start, independent_slab_loss_probability,
}
use sia_optimization_proposa.Risk.Policy.{Scenario, Policy, hour, has_key}

-- A time is nanoseconds since the zero time, which is 0; `math.MaxInt64`.
abbrev pub max_int64 : ℕ
max_int64 = 9223372036854775807

-- `now.Sub(t)` for a `t` that is not after `now`.
abbrev pub since : ℕ → ℕ → ℤ
since now t = pos (min (now - t) max_int64)

-- `t.Add(d)`
abbrev pub add_time : ℕ → ℤ → ℕ
add_time t d = pos_part (pos t +ℤ d)

-- The loop of `cappedDurationSum`. The sum stays between 0 and the cap, so it never wraps.
unfoldable pub capped_from : ℤ → ℤ → List ℤ → ℤ
capped_from cap sum [] = sum
capped_from cap sum (v ∷ values) =
    let rest = capped_from cap (sum +ℤ v) values in
    if ltb_ℤ v (pos 0) || ltb_ℤ (cap -ℤ sum) v then cap else rest

unfoldable pub capped_duration_sum : ℤ → List ℤ → ℤ
capped_duration_sum cap values = capped_from cap (pos 0) values

module _ (fl : Floats) where
  open fl use {
    F, add, sub, mul, div, neg, lt, le, is_nan, is_inf, nan, fmin, fmax, expm1, of_int, lit,
  }

  pub record SlabRiskHost : Type 0 where
    pub key : ℕ
    pub shards : List ℤ
    pub last_scan : ℕ
    pub recent_downtime : ℤ
    pub last_scan_success : Bool
    pub total_scans : ℕ
    pub consecutive_failures : ℕ
    pub successful : F
    pub failed : F
    pub uptime : ℤ
    pub downtime : ℤ
    pub contract_end : ℕ

  pub record SlabRiskCandidate : Type 0 where
    pub id : ℤ
    pub key : ℕ
    pub health : F
    pub min_shards : ℤ
    pub total_shards : ℤ
    pub hosts : List SlabRiskHost

  -- The evidence that `hostFailureProbability` does without.
  unfoldable pub no_evidence : SlabRiskHost → ℕ → ℤ → ℤ → Bool
  no_evidence h now horizon block_interval =
      h.total_scans == 0
      || h.last_scan == 0
      || ltb now h.last_scan
      || leb_ℤ horizon (pos 0)
      || leb_ℤ block_interval (pos 0)
      || lt h.successful (f_zero fl)
      || lt h.failed (f_zero fl)
      || is_nan (add h.successful h.failed)
      || is_inf (add h.successful h.failed)
      || le (add h.successful h.failed) (f_zero fl)
      || ltb_ℤ h.uptime (pos 0)
      || ltb_ℤ h.downtime (pos 0)
      || ltb_ℤ h.recent_downtime (pos 0)

  unfoldable pub scan_success : SlabRiskHost → F
  scan_success h =
      if ltb_ℤ (pos 0) h.uptime || ltb_ℤ (pos 0) h.downtime
      then div (of_int h.uptime) (add (of_int h.uptime) (of_int h.downtime))
      else if h.last_scan_success
      then f_one fl
      else f_zero fl

  -- Whether the contract ends within the horizon.
  unfoldable pub contract_ends : SlabRiskHost → ℤ → ℤ → ℕ → Bool
  contract_ends h horizon block_interval height =
      leb h.contract_end height
      || le (of_int (pos (h.contract_end - height))) (div (of_int horizon) (of_int block_interval))

  -- A lower bound on the age of the last successful observation.
  unfoldable pub evidence_age : SlabRiskHost → ℕ → ℤ
  evidence_age h now =
      if h.last_scan_success
      then since now h.last_scan
      else capped_duration_sum (pos max_int64) (since now h.last_scan ∷ h.recent_downtime ∷ [])

  unfoldable pub failure_rate : SlabRiskHost → ℕ → ℤ → ℤ → ℕ → F
  failure_rate h now horizon block_interval height =
      let timeout_rate = div h.failed (add h.successful h.failed) in
      let base =
        add (add (mul (lit 60 2) timeout_rate) (mul (lit 40 2) (sub (f_one fl) (scan_success h))))
          (fmin (lit 50 2) (mul (lit 5 2) (of_int (pos h.consecutive_failures)))) in
      let with_end =
        if contract_ends h horizon block_interval height then add base (lit 35 2) else base in
      add with_end
        (fmin (lit 25 2) (div (mul (lit 10 2) (of_int (evidence_age h now))) (of_int horizon)))

  unfoldable pub host_failure_probability : SlabRiskHost → ℕ → ℤ → ℤ → ℕ → F
  host_failure_probability h now horizon block_interval height =
      if no_evidence h now horizon block_interval
      then nan
      else neg (
          expm1 (
            div (mul (neg (failure_rate h now horizon block_interval height)) (of_int horizon))
              (of_int (pos hour))))

  -- The probabilities of the hosts that a scenario does not remove.
  unfoldable pub remaining_of : List ℕ → List ℕ → List F → List F
  remaining_of removed [] ps = []
  remaining_of removed (hk ∷ hosts) [] = []
  remaining_of removed (hk ∷ hosts) (p ∷ ps) =
      let rest = remaining_of removed hosts ps in if has_key fl hk removed then rest else p ∷ rest

  -- The loop over the scenarios: the mass and the weighted losses.
  unfoldable pub mixture : List ℕ → List F → ℤ → F → F → List (Scenario fl) → F × F
  mixture hosts ps k mass weighted [] = (mass, weighted)
  mixture hosts ps k mass weighted (s ∷ ss) =
      let remaining = remaining_of s.hosts hosts ps in
      mixture hosts ps k (add mass s.probability)
        (add weighted (
          mul s.probability
            (independent_slab_loss_probability fl (pos (length remaining)) k remaining)))
        ss

  unfoldable pub correlated_slab_loss : List ℕ → List F → ℤ → List (Scenario fl) → F
  correlated_slab_loss hosts ps k scenarios =
      let base = independent_slab_loss_probability fl (pos (length hosts)) k ps in
      let (mass, weighted) = mixture hosts ps k (f_zero fl) (f_zero fl) scenarios in
      if is_nan base
      then base
      else fmin (f_one fl) (fmax (f_zero fl) (add (mul (sub (f_one fl) mass) base) weighted))

  abbrev pub worst_of : F → List F → F
  worst_of worst [] = worst
  worst_of worst (p ∷ ps) = worst_of (fmax worst p) ps

  -- `tails[u]`, from the table after round `u`.
  unfoldable pub tail_at : ℕ → ℕ → List F → F
  tail_at min_shards u dp =
      if ltb u min_shards
      then f_one fl
      else add_all fl (f_zero fl) (take min_shards (drop (u - min_shards + 1) dp))

  -- The rounds `u` to the total; at 0 the table is as it starts.
  unfoldable pub tails_from : ℕ → ℕ → ℕ → F → List F → List F
  tails_from zero u min_shards worst dp = []
  tails_from (suc rounds) u min_shards worst dp =
      let dp' = if u == 0 then dp else spread fl u worst dp in
      tail_at min_shards u dp' ∷ tails_from rounds (suc u) min_shards worst dp'

  -- How many of the slab's hosts a scenario names.
  abbrev pub affected : List SlabRiskHost → Scenario fl → ℕ
  affected hosts s = length (keep (λ (h : SlabRiskHost). has_key fl h.key s.hosts) hosts)

  -- The mixture at `u` hosts, over the tails.
  unfoldable pub mixture_at : List SlabRiskHost → List F → ℕ → F → F → List (Scenario fl) → F × F
  mixture_at hosts tails u mass weighted [] = (mass, weighted)
  mixture_at hosts tails u mass weighted (s ∷ ss) =
      mixture_at hosts tails u (add mass s.probability)
        (add weighted (mul s.probability (get_or tails (u - min u (affected hosts s)) (f_zero fl))))
        ss

  unfoldable pub risk_at : List SlabRiskHost → List F → ℕ → List (Scenario fl) → F
  risk_at hosts tails u scenarios =
      let (mass, weighted) = mixture_at hosts tails u (f_zero fl) (f_zero fl) scenarios in
      add (mul (sub (f_one fl) mass) (get_or tails u (f_zero fl))) weighted

  -- The loop from `minShards` up to the total: the cutoff and `UnderProvisioned`.
  unfoldable pub explain_from : ℕ → ℕ → ℕ → ℕ → List SlabRiskHost → List F → Policy fl → F × Bool
  explain_from zero u min_shards total_shards hosts tails policy = (f_one fl, true)
  explain_from (suc rounds) u min_shards total_shards hosts tails policy =
      let rest = explain_from rounds (suc u) min_shards total_shards hosts tails policy in
      if le (risk_at hosts tails u policy.scenarios) policy.entry_threshold
      then if min_shards == total_shards then (f_one fl, false) else (
        fmax (of_int (negsuc 0)) (
            div (of_int (pos u -ℤ pos 1 -ℤ pos min_shards))
              (of_int (pos total_shards -ℤ pos min_shards))),
        false,
      )
      else rest

  unfoldable pub explanatory_cutoff : SlabRiskCandidate → List F → Policy fl → F × Bool
  explanatory_cutoff s ps policy =
      let total = pos_part s.total_shards in
      let least = pos_part s.min_shards in
      let tails = tails_from (suc total) 0 least (worst_of (f_zero fl) ps) (dp_start fl total) in
      explain_from (suc total - least) least least total s.hosts tails policy
