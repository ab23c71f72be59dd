-- ===== src/Floats.antt =====
-- Go's `float64` and the functions of package math that the risk model calls. The type and its
-- operations are a parameter: nothing is assumed of rounding, and a theorem that needs a law of
-- IEEE 754 comparisons names it.
use sia_optimization_proposa.Prelude.{ℕ, Bool, true, false, ◌≡◌}
use sia_optimization_proposa.Prelude.Int.{ℤ}

pub record Floats : Type 1 where
  pub F : Type 0
  pub add : F → F → F
  pub sub : F → F → F
  pub mul : F → F → F
  pub div : F → F → F
  pub neg : F → F
  pub lt : F → F → Bool
  pub le : F → F → Bool
  pub eq : F → F → Bool
  pub is_nan : F → Bool
  pub is_inf : F → Bool
  pub nan : F
  pub fmin : F → F → F  -- math.Min
  pub fmax : F → F → F  -- math.Max
  pub expm1 : F → F
  pub of_int : ℤ → F  -- float64(i)
  pub lit : ℕ → ℕ → F  -- the literal m / 10^e
  pub trunc : F → ℤ  -- time.Duration(f)

module _ (fl : Floats) where
  open fl use {F, lt, eq, is_nan}

  -- The comparisons of IEEE 754: strict and total on values that are not NaN.
  pub record IsOrdered : Type 0 where
    pub lt_irrefl : (a : F) → lt a a ≡ false
    pub lt_asymm : (a b : F) → lt a b ≡ true → lt b a ≡ false
    pub lt_trans : (a b c : F) → lt a b ≡ true → lt b c ≡ true → lt a c ≡ true
    pub eq_refl : (a : F) → is_nan a ≡ false → eq a a ≡ true
    pub eq_sym : (a b : F) → eq a b ≡ true → eq b a ≡ true
    pub eq_trans : (a b c : F) → eq a b ≡ true → eq b c ≡ true → eq a c ≡ true
    pub eq_lt : (a b c : F) → eq a b ≡ true → lt b c ≡ true → lt a c ≡ true
    pub lt_eq : (a b c : F) → lt a b ≡ true → eq b c ≡ true → lt a c ≡ true
    pub lt_not_eq : (a b : F) → lt a b ≡ true → eq a b ≡ false
    pub total :
        (a b : F)
        → is_nan a ≡ false
        → is_nan b ≡ false
        → eq a b ≡ false
        → lt a b ≡ false
        → lt b a ≡ true
