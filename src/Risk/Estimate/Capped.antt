-- ===== src/Risk/Estimate/Capped.antt =====
-- The capped sum of durations.
use sia_optimization_proposa.Prelude.{
  ◌+◌, ◌≡◌, refl, ◌⊎◌, inl, inr, true, false, List, [], ◌∷◌, arith, Bool-cases,
}
use sia_optimization_proposa.Prelude.Int.{ℤ, pos, pos_part, neg_part, ltb_ℤ, ◌≤ℤ◌, ◌+ℤ◌, ◌-ℤ◌}
use sia_optimization_proposa.Risk.Estimate.{capped_from, capped_duration_sum}

abbrev pub total : ℤ → List ℤ → ℤ
total sum [] = sum
total sum (v ∷ vs) = total (sum +ℤ v) vs

abbrev pub AllNonneg : List ℤ → Type 0
AllNonneg [] = Unit
AllNonneg (v ∷ vs) = (pos 0 ≤ℤ v) × AllNonneg vs

+ℤ_parts :
    (a b : ℤ)
    → pos_part (a +ℤ b) + neg_part a + neg_part b ≡ neg_part (a +ℤ b) + pos_part a + pos_part b
unfolding ◌+ℤ◌
+ℤ_parts a b = ground arith

fits_iff : (cap sum v : ℤ) → ltb_ℤ (cap -ℤ sum) v ≡ false → (sum +ℤ v) ≤ℤ cap
unfolding ◌+ℤ◌ ◌-ℤ◌
fits_iff cap sum v h = ground arith

over_iff : (cap sum v : ℤ) → ltb_ℤ (cap -ℤ sum) v ≡ true → ¬ ((sum +ℤ v) ≤ℤ cap)
unfolding ◌+ℤ◌ ◌-ℤ◌
over_iff cap sum v h k = ground arith

le-total : (sum : ℤ) (vs : List ℤ) → AllNonneg vs → sum ≤ℤ total sum vs
le-total sum [] n = omega arith
le-total sum (v ∷ vs) n = omega (arith, le-total (sum +ℤ v) vs n.1, +ℤ_parts sum v)

abbrev pub Fit : ℤ → ℤ → List ℤ → Type 0
Fit cap sum vs = AllNonneg vs × (total sum vs ≤ℤ cap)

capped_from_cases :
    (cap sum : ℤ) (vs : List ℤ)
    → sum ≤ℤ cap
    → Fit cap sum vs × (capped_from cap sum vs ≡ total sum vs)
      ⊎ (¬ Fit cap sum vs) × (capped_from cap sum vs ≡ cap)
unfolding capped_from
capped_from_cases cap sum [] h = inl ((tt, h), refl)
capped_from_cases cap sum (v ∷ vs) h = elim (Bool-cases (ltb_ℤ v (pos 0))) [
  | inl neg ↦ inr ((λ f. let k = f.0.0 in absurd (ground arith)), rw neg)
  | inr nonneg ↦ elim (Bool-cases (ltb_ℤ (cap -ℤ sum) v)) [
    | inl over ↦ inr (
      (λ f.
          over_iff cap sum v over
            (let k = le-total (sum +ℤ v) vs f.0.1 in let l = f.1 in omega arith)),
      rw (nonneg, over),
    )
    | inr fits ↦ elim (capped_from_cases cap (sum +ℤ v) vs (fits_iff cap sum v fits)) [
      | inl (f, e) ↦ inl (((ground arith, f.0), f.1), rw (nonneg, fits) e)
      | inr (f, e) ↦ inr ((λ g. f (g.0.1, g.1)), rw (nonneg, fits) e)
    ]
  ]
]

-- With a cap that is not negative, the capped sum is the exact sum where no duration is negative
-- and the sum is within the cap, and the cap otherwise.
pub capped_duration_sum_cases :
    (cap : ℤ) (values : List ℤ)
    → pos 0 ≤ℤ cap
    → Fit cap (pos 0) values × (capped_duration_sum cap values ≡ total (pos 0) values)
      ⊎ (¬ Fit cap (pos 0) values) × (capped_duration_sum cap values ≡ cap)
unfolding capped_duration_sum
capped_duration_sum_cases cap values h = capped_from_cases cap (pos 0) values h
