-- ===== src/Tests/QueueRuns.antt =====
-- The selection of slabs at a concrete input.
use sia_optimization_proposa.Prelude.{
  ℕ, ◌≡◌, ◌⊎◌, ◌↔◌, refl, Bool, true, false, none, some, [], ◌∷◌,
}
use sia_optimization_proposa.Prelude.Int.{pos, ◌+ℤ◌, ◌-ℤ◌}
use sia_optimization_proposa.Prelude.Sorting.{insert_by, sort_by}
use sia_optimization_proposa.Risk.Loss.{
  spread_at, spread, convolve, add_all, independent_slab_loss_probability,
}
use sia_optimization_proposa.Risk.Policy.{
  Policy, default_slab_risk_policy, thresholds_fail, durations_fail, hosts_fail, scenarios_error,
  validate,
}
use sia_optimization_proposa.Risk.Policy.Valid.{IsValid, validate_iff}
use sia_optimization_proposa.Risk.Estimate.{
  capped_from, capped_duration_sum, no_evidence, scan_success, contract_ends, evidence_age,
  failure_rate, host_failure_probability, remaining_of, mixture, correlated_slab_loss, tail_at,
  tails_from, mixture_at, risk_at, explain_from, explanatory_cutoff,
}
use sia_optimization_proposa.Risk.Matching.{
  mark, occupy, displace, take_shard, try_shards, assign, assign_all,
}
use sia_optimization_proposa.Risk.Placement.{
  score, scores, order_less, shards_at, assigned_of, placed_hosts, placed_probabilities,
  independent_placement,
}
use sia_optimization_proposa.Risk.Evaluate.{
  evaluate_slab_risk, with_fresh, with_horizon, finish, fresh_hosts, oldest_from, valid_until_from,
  probabilities_of, avoid_scenarios, worst_key, avoid_hosts_of,
}
use sia_optimization_proposa.Risk.Queue.{
  UnhealthySlab, repair_priority_less, is_queued, admit, bound, scan, drop_expired, queued_keys,
  conclude, read_and_scan, slabs_for_migration_with_risk, not_found, Migration, migration,
}
use sia_optimization_proposa.Risk.Queue.Order.{IsKnown, priority_total}
use sia_optimization_proposa.Risk.Queue.Selected.{IsSelected, migration-IsSelected}
use sia_optimization_proposa.Tests.Decimals.{decimals, decimals-IsOrdered}
use sia_optimization_proposa.Tests.Data.{
  risk, current, policy, options, scanned_page, slabs_of, state_of,
}

abbrev hash : Policy decimals → ℕ
hash p = 7

abbrev selection : Migration decimals
selection =
    slabs_for_migration_with_risk decimals hash (some (pos 100000000)) (pos 5) options not_found
      scanned_page current

selection_is : selection ≡ migration (slabs_of selection) (state_of selection)
unfolding ◌+ℤ◌ ◌-ℤ◌ sort_by insert_by spread_at spread convolve add_all
    independent_slab_loss_probability default_slab_risk_policy capped_from capped_duration_sum
    no_evidence scan_success contract_ends evidence_age failure_rate host_failure_probability
    remaining_of mixture correlated_slab_loss tail_at tails_from mixture_at risk_at explain_from
    explanatory_cutoff mark occupy displace take_shard try_shards assign assign_all score scores
    order_less shards_at assigned_of placed_hosts placed_probabilities independent_placement
    evaluate_slab_risk with_fresh with_horizon finish fresh_hosts oldest_from valid_until_from
    probabilities_of avoid_scenarios worst_key avoid_hosts_of thresholds_fail durations_fail
    hosts_fail scenarios_error validate repair_priority_less is_queued admit bound scan drop_expired
    queued_keys conclude read_and_scan slabs_for_migration_with_risk policy options
selection_is = refl

migration-IsSelected_example :
    IsSelected decimals 7 5 current options scanned_page (slabs_of selection) (state_of selection)
migration-IsSelected_example =
    migration-IsSelected decimals decimals-IsOrdered hash (some (pos 100000000)) (pos 5) options
      not_found scanned_page current (slabs_of selection) (state_of selection) selection_is

-- The slab that is down to its last two shards comes first; the complete one is queued for its risk.
selection_keys : (state_of selection).queued ≡ 2 ∷ 1 ∷ []
unfolding ◌+ℤ◌ ◌-ℤ◌ sort_by insert_by spread_at spread convolve add_all
    independent_slab_loss_probability default_slab_risk_policy capped_from capped_duration_sum
    no_evidence scan_success contract_ends evidence_age failure_rate host_failure_probability
    remaining_of mixture correlated_slab_loss tail_at tails_from mixture_at risk_at explain_from
    explanatory_cutoff mark occupy displace take_shard try_shards assign assign_all score scores
    order_less shards_at assigned_of placed_hosts placed_probabilities independent_placement
    evaluate_slab_risk with_fresh with_horizon finish fresh_hosts oldest_from valid_until_from
    probabilities_of avoid_scenarios worst_key avoid_hosts_of thresholds_fail durations_fail
    hosts_fail scenarios_error validate repair_priority_less is_queued admit bound scan drop_expired
    queued_keys conclude read_and_scan slabs_for_migration_with_risk policy options
selection_keys = refl

policy_valid : validate decimals policy ≡ none
unfolding ◌+ℤ◌ default_slab_risk_policy thresholds_fail durations_fail hosts_fail scenarios_error
    validate policy
policy_valid = refl

policy_enabled : policy.enabled ≡ true
unfolding default_slab_risk_policy policy
policy_enabled = refl

validate_iff_example : (validate decimals policy ≡ none) ↔ IsValid decimals policy
validate_iff_example = validate_iff decimals policy policy_enabled

-- A slab with a valid evaluation.
abbrev slab : ℕ → Bool → ℕ → UnhealthySlab decimals
slab key emergency loss = record {
  encryption_key = key;
  health = some (pos 50000000);
  repair_risk = record risk {
    valid = true;
    emergency = emergency;
    loss_probability = some (pos loss);
  };
}

slab-IsKnown :
    (key : ℕ) (emergency : Bool) (loss : ℕ)
    → IsKnown decimals decimals-IsOrdered (slab key emergency loss)
slab-IsKnown key emergency loss = record { health_known = refl; loss_known = λ h. refl }

priority_total_example :
    (repair_priority_less decimals (slab 1 true 5) (slab 1 true 5) ≡ false)
    × ((repair_priority_less decimals (slab 1 true 5) (slab 2 false 7) ≡ true)
          × (repair_priority_less decimals (slab 2 false 7) (slab 1 true 5) ≡ false)
        ⊎ (repair_priority_less decimals (slab 1 true 5) (slab 2 false 7) ≡ false)
          × (repair_priority_less decimals (slab 2 false 7) (slab 1 true 5) ≡ true)
        ⊎ (◌≡◌ {A = ℕ} 1 2))
priority_total_example =
    priority_total decimals decimals-IsOrdered (slab 1 true 5) (slab 2 false 7)
      (slab-IsKnown 1 true 5) (slab-IsKnown 2 false 7)

emergency_first : repair_priority_less decimals (slab 3 true 5) (slab 2 false 7) ≡ true
unfolding repair_priority_less
emergency_first = refl

larger_loss_first : repair_priority_less decimals (slab 2 false 7) (slab 1 false 6) ≡ true
unfolding repair_priority_less
larger_loss_first = refl
