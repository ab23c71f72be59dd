-- ===== src/Risk/Policy/Valid.antt =====
-- What a policy that passes `Validate` satisfies.
use Prim.Native.String.{String}
use text.Mathlib.TextEquality.{eq_iff}
use sia_optimization_proposa.Prelude.{
  ℕ, ◌+◌, ◌≤◌, ◌<◌, ◌≡◌, ◌≢◌, refl, true, false, none, List, [], ◌∷◌, arith, length, ◌↔◌,
}
use sia_optimization_proposa.Prelude.Int.{ℤ, pos, ◌≤ℤ◌, pos_part, neg_part}
use sia_optimization_proposa.Floats.{Floats}
use sia_optimization_proposa.Risk.Loss.{f_zero, f_one}
use sia_optimization_proposa.Risk.Policy.{
  Scenario, Policy, thresholds_fail, durations_fail, has_name, has_key, hosts_fail, scenario_fails,
  scenarios_error, validate,
}

infix 50 ◌<ℤ◌
abbrev pub ◌<ℤ◌ : ℤ → ℤ → Type 0
a <ℤ b = pos_part a + neg_part b < pos_part b + neg_part a

module _ (fl : Floats) where
  open fl use {F, add, lt, le, is_nan, of_int}

  abbrev pub NotAmong : ℕ → List ℕ → Type 0
  NotAmong k [] = Unit
  NotAmong k (j ∷ js) = (j ≢ k) × NotAmong k js

  -- Every host key is nonzero and differs from those before it.
  abbrev pub HostsValid : List ℕ → List ℕ → Type 0
  HostsValid seen [] = Unit
  HostsValid seen (hk ∷ hosts) = (hk ≢ 0) × NotAmong hk seen × HostsValid (hk ∷ seen) hosts

  abbrev pub NewName : String → List String → Type 0
  NewName n [] = Unit
  NewName n (m ∷ ms) = (m ≢ n) × NewName n ms

  -- Not NaN, and from 0 to 1.
  abbrev pub IsProbability : F → Type 0
  IsProbability v =
      (is_nan v ≡ false) × (le (of_int (pos 0)) v ≡ true) × (le v (of_int (pos 1)) ≡ true)

  pub record ScenarioValid (names : List String) (s : Scenario fl) : Type 0 where
    pub named : s.name ≢ ""
    pub new_name : NewName s.name names
    pub probable : IsProbability s.probability
    pub some_host : 1 ≤ length s.hosts
    pub few_hosts : length s.hosts ≤ 255
    pub good_hosts : HostsValid [] s.hosts

  -- Every scenario is valid after those before it, and the probabilities, added in order, are not
  -- above 1.
  abbrev pub ScenariosValid : List String → F → List (Scenario fl) → Type 0
  ScenariosValid names total [] = lt (f_one fl) total ≡ false
  ScenariosValid names total (s ∷ ss) =
      ScenarioValid names s × ScenariosValid (s.name ∷ names) (add total s.probability) ss

  pub record IsValid (p : Policy fl) : Type 0 where
    pub entry_ok : IsProbability p.entry_threshold
    pub exit_ok : IsProbability p.exit_threshold
    pub exit_positive : le p.exit_threshold (f_zero fl) ≡ false
    pub hysteresis : le p.entry_threshold p.exit_threshold ≡ false
    pub margin : pos 0 ≤ℤ p.safety_margin
    pub ttl : pos 0 <ℤ p.model_ttl
    pub repair : pos 0 <ℤ p.default_repair_time
    pub delay : pos 0 ≤ℤ p.max_queue_delay
    pub margin_horizon : p.safety_margin <ℤ p.max_horizon
    pub ttl_horizon : p.model_ttl ≤ℤ p.max_horizon
    pub repair_horizon : p.default_repair_time ≤ℤ p.max_horizon
    pub few : length p.scenarios ≤ 64
    pub all_scenarios : ScenariosValid [] (f_zero fl) p.scenarios

  has_key-NotAmong : (k : ℕ) (js : List ℕ) → (has_key fl k js ≡ false) ↔ NotAmong k js
  has_key-NotAmong k [] = (λ _. tt, λ _. refl)
  has_key-NotAmong k (j ∷ js) =
      let ih = has_key-NotAmong k js in (λ e. ground arith, λ h. ground arith)

  has_name-NewName : (n : String) (ms : List String) → (has_name fl n ms ≡ false) ↔ NewName n ms
  has_name-NewName n [] = (λ _. tt, λ _. refl)
  has_name-NewName n (m ∷ ms) =
      let ih = has_name-NewName n ms in
      (λ e. ground (arith, eq_iff m n), λ h. ground (arith, eq_iff m n))

  hosts_fail-HostsValid :
      (seen hosts : List ℕ) → (hosts_fail fl seen hosts ≡ false) ↔ HostsValid seen hosts
  unfolding hosts_fail
  hosts_fail-HostsValid seen [] = (λ _. tt, λ _. refl)
  hosts_fail-HostsValid seen (hk ∷ hosts) =
      let ih = hosts_fail-HostsValid (hk ∷ seen) hosts in
      let key = has_key-NotAmong hk seen in (λ e. ground arith, λ h. ground arith)

  scenario-Valid :
      (names : List String) (s : Scenario fl)
      → ((scenario_fails fl names s ≡ false) × (hosts_fail fl [] s.hosts ≡ false))
        ↔ ScenarioValid names s
  scenario-Valid names s =
      let hosts = hosts_fail-HostsValid [] s.hosts in
      let name = has_name-NewName s.name names in
      (λ e. ground (arith, eq_iff s.name ""), λ h. ground (arith, eq_iff s.name ""))

  scenarios-Valid :
      (names : List String) (total : F) (ss : List (Scenario fl))
      → (scenarios_error fl names total ss ≡ none) ↔ ScenariosValid names total ss
  unfolding scenarios_error
  scenarios-Valid names total [] = (λ e. ground arith, λ h. ground arith)
  scenarios-Valid names total (s ∷ ss) =
      let ih = scenarios-Valid (s.name ∷ names) (add total s.probability) ss in
      let one = scenario-Valid names s in (λ e. ground arith, λ h. ground arith)

  -- `Validate` accepts an enabled policy exactly when its thresholds are probabilities with
  -- 0 < exit < entry, its durations keep their bounds, and its at most 64 scenarios have distinct
  -- nonempty names, probabilities that add up to no more than 1, and 1 to 255 distinct nonzero
  -- hosts each.
  pub validate_iff : (p : Policy fl) → p.enabled ≡ true → (validate fl p ≡ none) ↔ IsValid p
  unfolding validate thresholds_fail durations_fail
  validate_iff p on =
      let scenarios = scenarios-Valid [] (f_zero fl) p.scenarios in
      (λ e. ground arith, λ h. ground arith)
