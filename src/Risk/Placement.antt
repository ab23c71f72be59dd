-- ===== src/Risk/Placement.antt =====
-- `independentPlacement` of stores/repair_policy.go: which host stands for which shard.
pub mod Stores
pub mod Placed
pub mod Order
pub mod Laws
use sia_optimization_proposa.Prelude.{
  ℕ, zero, suc, ◌-◌, min, max, Bool, true, false, ◌||◌, ◌&&◌, not, Option, none, some, List, [],
  ◌∷◌, ◌++◌, map, if◌then◌else◌, ◌==◌, ltb, leb, length, get_or, get_elem?, replicate, all, keep,
}
use sia_optimization_proposa.Prelude.Int.{ℤ, pos, pos_part, ltb_ℤ, leb_ℤ, ◌+ℤ◌, ◌-ℤ◌}
use sia_optimization_proposa.Prelude.Sorting.{sort_by}
use sia_optimization_proposa.Floats.{Floats}
use sia_optimization_proposa.Risk.Loss.{f_zero}
use sia_optimization_proposa.Risk.Policy.{
  Scenario, Policy, RiskOptions, has_key, hour, slab_risk_model_version,
}
use sia_optimization_proposa.Risk.Matching.{assign_all}
use sia_optimization_proposa.Risk.Estimate.{
  SlabRiskHost, SlabRiskCandidate, since, add_time, capped_duration_sum, host_failure_probability,
  correlated_slab_loss, explanatory_cutoff,
}

-- `order[i] = i`
abbrev pub indices : ℕ → List ℕ → List ℕ
indices zero below = below
indices (suc n) below = indices n (n ∷ below)

module _ (fl : Floats) where
  open fl use {F, add, mul, div, lt, eq, is_nan, of_int, trunc}

  -- The probability that the scenarios which name a host add to its score.
  unfoldable pub score : F → ℕ → List (Scenario fl) → F
  score s key [] = s
  score s key (x ∷ xs) = score (if has_key fl key x.hosts then add s x.probability else s) key xs

  unfoldable pub scores : List F → List (SlabRiskHost fl) → List (Scenario fl) → List F
  scores [] hosts scenarios = []
  scores (p ∷ ps) [] scenarios = p ∷ ps
  scores (p ∷ ps) (h ∷ hosts) scenarios = score p h.key scenarios ∷ scores ps hosts scenarios

  -- `len(h.Shards) == 0`, or a shard that is not between 1 and the total.
  abbrev pub good_shards : ℤ → SlabRiskHost fl → Bool
  good_shards total h =
      not (length h.shards == 0) && all (λ s. leb_ℤ (pos 1) s && leb_ℤ s total) h.shards

  abbrev pub key_at : List (SlabRiskHost fl) → ℕ → ℕ
  key_at [] i = 0
  key_at (h ∷ hosts) zero = h.key
  key_at (h ∷ hosts) (suc i) = key_at hosts i

  -- The comparison of the order: by score, and then by key.
  unfoldable pub order_less : List F → List (SlabRiskHost fl) → ℕ → ℕ → Bool
  order_less ss hosts a b =
      let x = get_or ss a (f_zero fl) in
      let y = get_or ss b (f_zero fl) in
      if not (eq x y) then lt x y else ltb (key_at hosts a) (key_at hosts b)

  -- The shard indices, from 0, of the host at an index.
  unfoldable pub shards_at : List (SlabRiskHost fl) → ℕ → List ℕ
  shards_at [] i = []
  shards_at (h ∷ hosts) zero = map (λ (s : ℤ). pos_part (s -ℤ pos 1)) h.shards
  shards_at (h ∷ hosts) (suc i) = shards_at hosts i

  -- The order in which hosts are assigned, and the table that results.
  unfoldable pub assigned_of :
      List F → List (SlabRiskHost fl) → ℕ → List (Scenario fl) → Option (List (Option ℕ))
  assigned_of ps hosts total scenarios =
      assign_all (shards_at hosts)
        (sort_by (order_less (scores ps hosts scenarios) hosts) (indices (length hosts) []))
        (replicate total none)

  -- `for _, host := range assigned`
  unfoldable pub placed_hosts : List (SlabRiskHost fl) → List (Option ℕ) → List (SlabRiskHost fl)
  placed_hosts hosts [] = []
  placed_hosts hosts (none ∷ slots) = placed_hosts hosts slots
  placed_hosts hosts (some i ∷ slots) = elim (get_elem? hosts i) [
    | none ↦ placed_hosts hosts slots
    | some h ↦ h ∷ placed_hosts hosts slots
  ]

  unfoldable pub placed_probabilities : List F → List (Option ℕ) → List F
  placed_probabilities ps [] = []
  placed_probabilities ps (none ∷ slots) = placed_probabilities ps slots
  placed_probabilities ps (some i ∷ slots) = get_or ps i (f_zero fl) ∷ placed_probabilities ps slots

  abbrev pub Placement : Type 0
  Placement = SlabRiskCandidate fl × List F × Bool

  place : SlabRiskCandidate fl → List F → Option (List (Option ℕ)) → Placement
  place s ps none = (s, [], false)
  place s ps (some slots) =
      (record s { hosts = placed_hosts s.hosts slots }, placed_probabilities ps slots, true)

  -- A negative total with no hosts, for which the source's `make` panics, gives an empty table; no
  -- caller passes one.
  unfoldable pub independent_placement :
      SlabRiskCandidate fl → List F → List (Scenario fl) → Placement
  unfolding place
  independent_placement s ps scenarios =
      if not (length ps == length s.hosts)
      then (s, [], false)
      else if not (all (good_shards s.total_shards) s.hosts)
      then (s, [], false)
      else place s ps (assigned_of ps s.hosts (pos_part s.total_shards) scenarios)
