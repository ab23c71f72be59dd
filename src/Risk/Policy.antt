-- ===== src/Risk/Policy.antt =====
-- api/slab_risk.go: the policy, its validation, and the scheduler's options.
pub mod Valid
use Prim.Native.String.{String}
use text.Mathlib.Text.{◌==◌ as str_eq}
use sia_optimization_proposa.Prelude.{
  ℕ, ◌*◌, Bool, true, false, ◌||◌, ◌&&◌, not, Option, none, some, List, [], ◌∷◌, if◌then◌else◌,
  ◌==◌, ltb, length,
}
use sia_optimization_proposa.Prelude.Int.{ℤ, pos, ltb_ℤ, leb_ℤ}
use sia_optimization_proposa.Floats.{Floats}
use sia_optimization_proposa.Risk.Loss.{f_zero, f_one}

-- Durations are nanoseconds; public keys are their 32 bytes, read as a number.
abbrev pub hour : ℕ
hour = 3600000000000

abbrev pub minute : ℕ
minute = 60000000000

abbrev pub slab_risk_model_version : ℕ
slab_risk_model_version = 2

pub data PolicyError : Type 0 where
  bad_thresholds bad_durations too_many_scenarios bad_total : PolicyError
  bad_scenario bad_host : String → PolicyError

module _ (fl : Floats) where
  open fl use {F, add, lt, le, is_nan, of_int, lit}

  pub record Scenario : Type 0 where
    pub name : String
    pub probability : F
    pub hosts : List ℕ

  pub record Policy : Type 0 where
    pub enabled : Bool
    pub entry_threshold : F
    pub exit_threshold : F
    pub safety_margin : ℤ
    pub model_ttl : ℤ
    pub max_horizon : ℤ
    pub max_queue_delay : ℤ
    pub default_repair_time : ℤ
    pub scenarios : List Scenario

  pub record RiskOptions : Type 0 where
    pub policy : Policy
    pub queue_depth : ℕ
    pub parallelism : ℕ
    pub repair_time : ℤ
    pub block_interval : ℤ

  unfoldable pub default_slab_risk_policy : Policy
  default_slab_risk_policy = record {
    enabled = true;
    entry_threshold = lit 1 6;
    exit_threshold = lit 25 8;
    safety_margin = pos hour;
    model_ttl = pos (6 * hour);
    max_horizon = pos (168 * hour);
    max_queue_delay = pos (24 * hour);
    default_repair_time = pos (5 * minute);
    scenarios = [];
  }

  abbrev pub valid_probability : F → Bool
  valid_probability v = not (is_nan v) && le (f_zero fl) v && le v (f_one fl)

  unfoldable pub thresholds_fail : Policy → Bool
  thresholds_fail p =
      not (valid_probability p.entry_threshold)
      || not (valid_probability p.exit_threshold)
      || le p.exit_threshold (f_zero fl)
      || le p.entry_threshold p.exit_threshold

  unfoldable pub durations_fail : Policy → Bool
  durations_fail p =
      ltb_ℤ p.safety_margin (pos 0)
      || leb_ℤ p.model_ttl (pos 0)
      || leb_ℤ p.default_repair_time (pos 0)
      || ltb_ℤ p.max_queue_delay (pos 0)
      || leb_ℤ p.max_horizon p.safety_margin
      || ltb_ℤ p.max_horizon p.model_ttl
      || ltb_ℤ p.max_horizon p.default_repair_time

  abbrev pub has_name : String → List String → Bool
  has_name n [] = false
  has_name n (m ∷ ms) = str_eq m n || has_name n ms

  abbrev pub has_key : ℕ → List ℕ → Bool
  has_key k [] = false
  has_key k (j ∷ js) = j == k || has_key k js

  -- The loop over the hosts of a scenario: `true` is the error.
  unfoldable pub hosts_fail : List ℕ → List ℕ → Bool
  hosts_fail seen [] = false
  hosts_fail seen (hk ∷ hosts) = hk == 0 || has_key hk seen || hosts_fail (hk ∷ seen) hosts

  abbrev pub scenario_fails : List String → Scenario → Bool
  scenario_fails names s =
      str_eq s.name ""
      || has_name s.name names
      || not (valid_probability s.probability)
      || length s.hosts == 0
      || ltb 255 (length s.hosts)

  -- The loop over the scenarios, and the test of the total behind it.
  unfoldable pub scenarios_error : List String → F → List Scenario → Option PolicyError
  scenarios_error names total [] = if lt (f_one fl) total then some bad_total else none
  scenarios_error names total (s ∷ ss) =
      let rest = scenarios_error (s.name ∷ names) (add total s.probability) ss in
      if scenario_fails names s
      then some (bad_scenario s.name)
      else if hosts_fail [] s.hosts
      then some (bad_host s.name)
      else rest

  -- `Validate`; `none` is no error.
  unfoldable pub validate : Policy → Option PolicyError
  validate p =
      if not p.enabled
      then none
      else if thresholds_fail p
      then some bad_thresholds
      else if durations_fail p
      then some bad_durations
      else if ltb 64 (length p.scenarios)
      then some too_many_scenarios
      else scenarios_error [] (f_zero fl) p.scenarios
