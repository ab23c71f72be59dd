-- ===== src/Risk/Loss.antt =====
-- stores/slab_risk.go: structural health and the Poisson-binomial loss tail.
pub mod Table
pub mod Tail
use sia_optimization_proposa.Prelude.{
  ℕ, zero, suc, ◌+◌, ◌-◌, Bool, true, false, ◌||◌, not, Option, none, some, List, [], ◌∷◌,
  if◌then◌else◌, ◌==◌, leb, length, get_or, set, take, drop, replicate,
}
use sia_optimization_proposa.Prelude.Int.{ℤ, pos, negsuc, pos_part, ltb_ℤ, leb_ℤ, ◌-ℤ◌}
use sia_optimization_proposa.Floats.{Floats}

module _ (fl : Floats) where
  open fl use {F, add, sub, mul, div, lt, le, is_nan, is_inf, nan, fmin, fmax, of_int}

  abbrev pub f_zero : F
  f_zero = of_int (pos 0)

  abbrev pub f_one : F
  f_one = of_int (pos 1)

  unfoldable pub structural_health : ℤ → ℤ → ℤ → F
  structural_health usable_hosts min_shards total_shards =
      if leb_ℤ min_shards (pos 0) || ltb_ℤ total_shards min_shards || ltb_ℤ usable_hosts (pos 0)
      then of_int (negsuc 0)
      else if leb_ℤ total_shards min_shards
      then (if ltb_ℤ usable_hosts min_shards then of_int (negsuc 0) else f_one)
      else fmin f_one
          (div (of_int (usable_hosts -ℤ min_shards)) (of_int (total_shards -ℤ min_shards)))

  -- `dp[f]`; no read of the loops below is out of range.
  abbrev pub entry : List F → ℕ → F
  entry dp f = get_or dp f f_zero

  -- The body of the inner loop at `f + 1`.
  unfoldable pub spread_at : ℕ → F → List F → List F
  spread_at f p dp =
      let scaled = set dp (suc f) (mul (entry dp (suc f)) (sub f_one p)) in
      set scaled (suc f) (add (entry scaled (suc f)) (mul (entry scaled f) p))

  -- `for f := i + 1; f >= 0; f--`, in place.
  unfoldable pub spread : ℕ → F → List F → List F
  unfolding spread_at
  spread zero p dp = set dp 0 (mul (entry dp 0) (sub f_one p))
  spread (suc f) p dp = spread f p (spread_at f p dp)

  -- `math.IsNaN(p) || math.IsInf(p, 0) || p < 0 || p > 1`
  abbrev pub bad_probability : F → Bool
  bad_probability p = is_nan p || is_inf p || lt p f_zero || lt f_one p

  -- `for i, p := range probabilities`; `none` is the early return of NaN.
  unfoldable pub convolve : ℕ → List F → List F → Option (List F)
  convolve i [] dp = some dp
  convolve i (p ∷ ps) dp =
      let rest = convolve (suc i) ps (spread (suc i) p dp) in
      if bad_probability p then none else rest

  -- `for _, p := range dp { risk += p }`
  unfoldable pub add_all : F → List F → F
  add_all risk [] = risk
  add_all risk (p ∷ ps) = add_all (add risk p) ps

  abbrev pub dp_start : ℕ → List F
  dp_start n = f_one ∷ replicate n f_zero

  abbrev pub clamp : F → F
  clamp risk = fmin f_one (fmax f_zero risk)

  tail_of : ℕ → ℕ → Option (List F) → F
  unfolding add_all
  tail_of n k none = nan
  tail_of n k (some dp) = clamp (add_all f_zero (drop (n - k + 1) dp))

  unfoldable pub independent_slab_loss_probability : ℤ → ℤ → List F → F
  unfolding tail_of
  independent_slab_loss_probability usable_hosts min_shards probabilities =
      let n = pos_part usable_hosts in
      if leb_ℤ min_shards (pos 0) || ltb_ℤ usable_hosts (pos 0) || ltb_ℤ (pos 255) usable_hosts
      then nan
      else if ltb_ℤ usable_hosts min_shards
      then f_one
      else if not (length probabilities == n)
      then nan
      else tail_of n (pos_part min_shards) (convolve 0 probabilities (dp_start n))

  -- The loop of `RiskBudgetHealthCutoff` from `u`, with the rounds that are left.
  unfoldable pub cutoff_from : ℕ → ℕ → ℤ → ℤ → List F → F → F
  cutoff_from zero u min_shards total_shards probabilities budget = f_one
  cutoff_from (suc rounds) u min_shards total_shards probabilities budget =
      let risk = independent_slab_loss_probability (pos u) min_shards (take u probabilities) in
      let rest = cutoff_from rounds (suc u) min_shards total_shards probabilities budget in
      if is_nan risk
      then nan
      else if le risk budget
      then fmax (of_int (negsuc 0))
          (div (of_int (pos u -ℤ pos 1 -ℤ min_shards)) (of_int (total_shards -ℤ min_shards)))
      else rest

  unfoldable pub risk_budget_health_cutoff : ℤ → ℤ → ℤ → List F → F → F
  risk_budget_health_cutoff _ min_shards total_shards probabilities budget =
      if leb_ℤ min_shards (pos 0)
        || ltb_ℤ total_shards min_shards
        || ltb_ℤ (pos 255) total_shards
        || not (length probabilities == pos_part total_shards)
        || is_nan budget
        || le budget f_zero
        || lt f_one budget
      then nan
      else if leb_ℤ total_shards min_shards
      then f_one
      else cutoff_from (pos_part total_shards + 1 - pos_part min_shards) (pos_part min_shards)
          min_shards total_shards probabilities budget

  unfoldable pub risk_aware_health : ℤ → ℤ → ℤ → List F → F → F
  risk_aware_health usable_hosts min_shards total_shards _ _ =
      structural_health usable_hosts min_shards total_shards
