-- ===== src/Tests/LossRuns.antt =====
-- The loss probability and the policy at concrete inputs.
use sia_optimization_proposa.Prelude.{
  ◌≡◌, ◌⊎◌, inl, inr, refl, arith, Option, none, some, List, [], ◌∷◌,
}
use sia_optimization_proposa.Prelude.Int.{ℤ, pos}
use sia_optimization_proposa.Risk.Loss.{independent_slab_loss_probability, f_zero, clamp}
use sia_optimization_proposa.Risk.Loss.Tail.{
  loss_probability-masses, loss_probability_refuses, last_first, failures, add_masses,
}
use sia_optimization_proposa.Risk.Estimate.{capped_duration_sum}
use sia_optimization_proposa.Risk.Estimate.Capped.{Fit, total, capped_duration_sum_cases}
use sia_optimization_proposa.Tests.Decimals.{decimals}

abbrev chances : List (Option ℤ)
chances = some (pos 10000000) ∷ some (pos 20000000) ∷ some (pos 5000000) ∷ []

loss_probability-masses_example :
    independent_slab_loss_probability decimals (pos 3) (pos 2) chances
    ≡ clamp decimals (
        add_masses decimals
          (f_zero decimals)
          (failures decimals (last_first decimals [] chances))
          2
          2)
loss_probability-masses_example =
    loss_probability-masses decimals 2 chances (omega arith) (omega arith) (omega arith) refl

-- The second probability is 2.
abbrev too_likely : List (Option ℤ)
too_likely = some (pos 10000000) ∷ some (pos 200000000) ∷ some (pos 5000000) ∷ []

loss_probability_refuses_example :
    independent_slab_loss_probability decimals (pos 3) (pos 2) too_likely ≡ none
loss_probability_refuses_example =
    loss_probability_refuses decimals 3 2 too_likely (omega arith) (omega arith)
      (inr (inr (inr (inl (inr (inr (inr refl)))))))

abbrev durations : List ℤ
durations = pos 4 ∷ pos 5 ∷ []

capped_duration_sum_cases_example :
    Fit (pos 10) (pos 0) durations
      × (capped_duration_sum (pos 10) durations ≡ total (pos 0) durations)
    ⊎ (¬ Fit (pos 10) (pos 0) durations) × (capped_duration_sum (pos 10) durations ≡ pos 10)
capped_duration_sum_cases_example = capped_duration_sum_cases (pos 10) durations (omega arith)
