-- ===== src/Tests/RiskRuns.antt =====
-- The evaluation of slabs at concrete inputs.
use sia_optimization_proposa.Prelude.{◌<◌, ◌≤◌, ◌≡◌, refl, true, All}
use sia_optimization_proposa.Prelude.Int.{pos, ◌+ℤ◌, ◌-ℤ◌, ltb_ℤ, leb_ℤ}
use sia_optimization_proposa.Prelude.Sorting.{insert_by, sort_by}
use sia_optimization_proposa.Risk.Loss.{
  spread_at, spread, convolve, add_all, independent_slab_loss_probability,
}
use sia_optimization_proposa.Risk.Policy.{default_slab_risk_policy}
use sia_optimization_proposa.Risk.Estimate.{
  capped_from, capped_duration_sum, no_evidence, scan_success, contract_ends, evidence_age,
  failure_rate, host_failure_probability, remaining_of, mixture, correlated_slab_loss, tail_at,
  tails_from, mixture_at, risk_at, explain_from, explanatory_cutoff, max_int64, add_time,
}
use sia_optimization_proposa.Risk.Matching.{
  mark, occupy, displace, take_shard, try_shards, assign, assign_all,
}
use sia_optimization_proposa.Risk.Placement.{
  score, scores, order_less, shards_at, assigned_of, placed_hosts, placed_probabilities,
  independent_placement,
}
use sia_optimization_proposa.Risk.Evaluate.{
  evaluate_slab_risk, with_fresh, with_horizon, finish, fresh_hosts, oldest_from, valid_until_from,
  probabilities_of, avoid_scenarios, worst_key, avoid_hosts_of,
}
use sia_optimization_proposa.Risk.Evaluate.Valid.{evaluate_emergency}
use sia_optimization_proposa.Risk.Evaluate.Until.{fresh_of, evaluate_valid_until}
use sia_optimization_proposa.Risk.Evaluate.Reliable.{IsReliable, evaluate_valid}
use sia_optimization_proposa.Tests.Decimals.{decimals}
use sia_optimization_proposa.Tests.Data.{risk, current, policy, options, complete, last_two}

risk_valid : risk.valid ≡ true
unfolding ◌+ℤ◌ ◌-ℤ◌ sort_by insert_by spread_at spread convolve add_all
    independent_slab_loss_probability default_slab_risk_policy capped_from capped_duration_sum
    no_evidence scan_success contract_ends evidence_age failure_rate host_failure_probability
    remaining_of mixture correlated_slab_loss tail_at tails_from mixture_at risk_at explain_from
    explanatory_cutoff mark occupy displace take_shard try_shards assign assign_all score scores
    order_less shards_at assigned_of placed_hosts placed_probabilities independent_placement
    evaluate_slab_risk with_fresh with_horizon finish fresh_hosts oldest_from valid_until_from
    probabilities_of avoid_scenarios worst_key avoid_hosts_of policy options
risk_valid = refl

evaluate_valid_example : IsReliable decimals complete options 500 current risk
evaluate_valid_example = evaluate_valid decimals complete options 500 current risk_valid

risk_ttl : ltb_ℤ (pos 0) options.policy.model_ttl ≡ true
unfolding policy options
risk_ttl = refl

risk_ttl_bound : leb_ℤ options.policy.model_ttl (pos max_int64) ≡ true
unfolding policy options
risk_ttl_bound = refl

evaluate_valid_until_example :
    (current < risk.valid_until)
    × (risk.valid_until ≤ add_time current options.policy.model_ttl)
    × All
        (λ h. risk.valid_until ≤ add_time h.last_scan options.policy.model_ttl)
        (fresh_of decimals complete options 500 current)
evaluate_valid_until_example =
    evaluate_valid_until decimals complete options 500 current risk_ttl risk_ttl_bound risk_valid

last_two_few :
    leb_ℤ (pos (evaluate_slab_risk decimals last_two options 500 current).usable_hosts) (pos 2)
    ≡ true
unfolding ◌+ℤ◌ ◌-ℤ◌ sort_by insert_by spread_at spread convolve add_all
    independent_slab_loss_probability default_slab_risk_policy capped_from capped_duration_sum
    no_evidence scan_success contract_ends evidence_age failure_rate host_failure_probability
    remaining_of mixture correlated_slab_loss tail_at tails_from mixture_at risk_at explain_from
    explanatory_cutoff mark occupy displace take_shard try_shards assign assign_all score scores
    order_less shards_at assigned_of placed_hosts placed_probabilities independent_placement
    evaluate_slab_risk with_fresh with_horizon finish fresh_hosts oldest_from valid_until_from
    probabilities_of avoid_scenarios worst_key avoid_hosts_of policy options
last_two_few = refl

evaluate_emergency_example :
    (evaluate_slab_risk decimals last_two options 500 current).emergency ≡ true
evaluate_emergency_example = evaluate_emergency decimals last_two options 500 current last_two_few
