-- ===== src/Risk/Queue.antt =====
-- `repairPriorityLess` and `SlabsForMigrationWithRisk` of stores/repair_policy.go. The database
-- is the outcomes of its transactions, in order; the JSON and the hash of the policy are a
-- parameter, and so is the legacy query.
pub mod Order
pub mod Emergencies
pub mod Selected
use sia_optimization_proposa.Prelude.{
  ℕ, Bool, true, false, ◌||◌, ◌&&◌, not, Option, none, some, List, [], ◌∷◌, ◌++◌, map,
  if◌then◌else◌, ◌==◌, ltb, leb, length, take, keep,
}
use sia_optimization_proposa.Prelude.Int.{ℤ, pos, pos_part, ltb_ℤ}
use sia_optimization_proposa.Prelude.Sorting.{sort_by}
use sia_optimization_proposa.Floats.{Floats}
use sia_optimization_proposa.Risk.Policy.{
  Policy, PolicyError, RiskOptions, validate, has_key, slab_risk_model_version,
}
use sia_optimization_proposa.Risk.Estimate.{SlabRiskCandidate}
use sia_optimization_proposa.Risk.Evaluate.{
  SlabRepairRisk, Reason, expired_during_scan, evaluate_slab_risk,
}

abbrev pub repair_risk_batch_size : ℕ
repair_risk_batch_size = 256

abbrev pub max_repair_queue : ℕ
max_repair_queue = 10000

-- `repairQueueState`; the set of queued keys is a list.
pub record QueueState : Type 0 where
  pub version : ℕ
  pub policy : ℕ
  pub queued : List ℕ

-- The read of the setting: an error, no setting, one that does not decode, or a state.
pub data SettingRead : Type 0 where
  read_failed not_found corrupt : SettingRead
  stored : QueueState → SettingRead

abbrev pub bool_eq : Bool → Bool → Bool
bool_eq true b = b
bool_eq false b = not b

module _ (fl : Floats) where
  open fl use {F, lt, le, eq}

  pub record UnhealthySlab : Type 0 where
    pub encryption_key : ℕ
    pub health : F
    pub repair_risk : SlabRepairRisk fl

  unfoldable pub repair_priority_less : UnhealthySlab → UnhealthySlab → Bool
  repair_priority_less a b =
      let ar = a.repair_risk in
      let br = b.repair_risk in
      if not (bool_eq ar.emergency br.emergency)
      then ar.emergency
      else if not (bool_eq ar.valid br.valid)
      then ar.valid
      else if ar.valid && not (eq ar.loss_probability br.loss_probability)
      then lt br.loss_probability ar.loss_probability
      else if not (eq a.health b.health)
      then lt a.health b.health
      else ltb a.encryption_key b.encryption_key

  -- One page of the scan, with the tip's height and the time, or what ends the scan.
  pub data Page : Type 0 where
    cancelled page_failed : Page
    page : List (SlabRiskCandidate fl) → ℕ → ℕ → Page

  -- `queued`, by the hysteresis of the policy.
  unfoldable pub is_queued :
      List ℕ → F → RiskOptions fl → SlabRiskCandidate fl → SlabRepairRisk fl → Bool
  is_queued before health_cutoff opts candidate r =
      r.emergency
      || (if r.valid
          then (if has_key fl candidate.key before
              then lt opts.policy.exit_threshold r.loss_probability
              else le opts.policy.entry_threshold r.loss_probability)
          else le candidate.health health_cutoff)

  -- The loop over a batch: what it appends to `selected`.
  unfoldable pub admit :
      List ℕ → F → RiskOptions fl → ℕ → ℕ → List (SlabRiskCandidate fl) → List UnhealthySlab
  admit before health_cutoff opts height now [] = []
  admit before health_cutoff opts height now (c ∷ batch) =
      let r = evaluate_slab_risk fl c opts height now in
      let rest = admit before health_cutoff opts height now batch in
      if is_queued before health_cutoff opts c r
      then record { encryption_key = c.key; health = c.health; repair_risk = r } ∷ rest
      else rest

  unfoldable pub bound : ℕ → List UnhealthySlab → List UnhealthySlab
  bound limit selected = take limit (sort_by repair_priority_less selected)

  pub data Scan : Type 0 where
    scan_failed unfinished : Scan
    scanned : List UnhealthySlab → Scan

  -- The loop over the pages; it ends with the first short one.
  unfoldable pub scan : List ℕ → F → RiskOptions fl → ℕ → List UnhealthySlab → List Page → Scan
  scan before health_cutoff opts limit selected [] = unfinished
  scan before health_cutoff opts limit selected (cancelled ∷ pages) = scan_failed
  scan before health_cutoff opts limit selected (page_failed ∷ pages) = scan_failed
  scan before health_cutoff opts limit selected (page batch height now ∷ pages) =
      let next = bound limit (selected ++ admit before health_cutoff opts height now batch) in
      let rest = scan before health_cutoff opts limit next pages in
      if ltb (length batch) repair_risk_batch_size then scanned next else rest

  abbrev pub expire : UnhealthySlab → UnhealthySlab
  expire slab = record slab {
    repair_risk = record slab.repair_risk { valid = false; reason = expired_during_scan };
  }

  -- `Valid && !now.Before(ValidUntil)`
  abbrev pub is_expired : ℕ → UnhealthySlab → Bool
  is_expired now slab = slab.repair_risk.valid && leb slab.repair_risk.valid_until now

  -- The loop that drops or downgrades admissions that expired during the scan.
  unfoldable pub drop_expired : ℕ → F → List UnhealthySlab → List UnhealthySlab
  drop_expired now health_cutoff [] = []
  drop_expired now health_cutoff (slab ∷ slabs) =
      let rest = drop_expired now health_cutoff slabs in
      if is_expired now slab
      then (if not slab.repair_risk.emergency && lt health_cutoff slab.health
          then rest
          else expire slab ∷ rest)
      else slab ∷ rest

  -- The keys of the next queue: the selected slabs whose evaluation is valid.
  unfoldable pub queued_keys : List UnhealthySlab → List ℕ
  queued_keys [] = []
  queued_keys (slab ∷ slabs) =
      let rest = queued_keys slabs in
      if slab.repair_risk.valid then slab.encryption_key ∷ rest else rest

  -- `limit < 0 || limit > maxRepairQueue`
  abbrev pub limit_of : ℤ → ℕ
  limit_of limit =
      if ltb_ℤ limit (pos 0) || ltb_ℤ (pos max_repair_queue) limit
      then max_repair_queue
      else pos_part limit

  -- The keys that were queued, if the state is of this version and policy.
  abbrev pub previous_queue : ℕ → SettingRead → List ℕ
  previous_queue hash read_failed = []
  previous_queue hash not_found = []
  previous_queue hash corrupt = []
  previous_queue hash (stored s) =
      if s.version == slab_risk_model_version && s.policy == hash then s.queued else []

  pub data Migration : Type 0 where
    legacy nothing unreadable aborted : Migration
    invalid : PolicyError → Migration
    migration : List UnhealthySlab → QueueState → Migration

  -- From the end of the scan on, at the time `now`.
  unfoldable pub conclude : ℕ → F → ℕ → Scan → Migration
  conclude hash health_cutoff now scan_failed = aborted
  conclude hash health_cutoff now unfinished = aborted
  conclude hash health_cutoff now (scanned selected) =
      let final = sort_by repair_priority_less (drop_expired now health_cutoff selected) in
      migration final
        (record { version = slab_risk_model_version; policy = hash; queued = queued_keys final })

  unfoldable pub read_and_scan :
      ℕ → F → RiskOptions fl → ℕ → SettingRead → List Page → ℕ → Migration
  read_and_scan hash health_cutoff opts limit read_failed pages now = unreadable
  read_and_scan hash health_cutoff opts limit read pages now =
      conclude hash health_cutoff now
        (scan (previous_queue hash read) health_cutoff opts limit [] pages)

  unfoldable pub slabs_for_migration_with_risk :
      (Policy fl → ℕ) → F → ℤ → RiskOptions fl → SettingRead → List Page → ℕ → Migration
  unfolding read_and_scan
  slabs_for_migration_with_risk hash health_cutoff limit opts read pages now =
      if not opts.policy.enabled then legacy else elim (validate fl opts.policy) [
        | some e ↦ invalid e
        | none ↦
            if limit_of limit == 0
            then nothing
            else read_and_scan (hash opts.policy) health_cutoff opts (limit_of limit) read pages now
      ]
