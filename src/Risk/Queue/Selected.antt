-- ===== src/Risk/Queue/Selected.antt =====
-- What a migration batch that comes out satisfies.
use sia_optimization_proposa.Prelude.{
  inl, inr, true, Bool-cases, ℕ, ◌≤◌, ◌<◌, ◌≡◌, refl, ◌⊎◌, min, ap, ◌∙◌, false, List, [], ◌∷◌, ◌++◌,
  arith, length, length-take, Option-cases, All,
}
use sia_optimization_proposa.Prelude.Int.{ℤ}
use sia_optimization_proposa.Prelude.Sorting.{
  sort_by, IsSorted, sort_by-IsSorted, sort_by-All, length-sort_by,
}
use sia_optimization_proposa.Floats.{Floats, IsOrdered}
use sia_optimization_proposa.Risk.Policy.{Policy, RiskOptions, validate, slab_risk_model_version}
use sia_optimization_proposa.Risk.Queue.{
  UnhealthySlab, QueueState, SettingRead, read_failed, not_found, corrupt, stored,
  repair_priority_less, Page, page, cancelled, page_failed, admit, bound, Scan, scanned,
  scan_failed, unfinished, scan, drop_expired, queued_keys, limit_of, migration, conclude,
  read_and_scan, slabs_for_migration_with_risk,
}
use sia_optimization_proposa.Risk.Queue.Order.{priority_asymm}
use sia_optimization_proposa.Risk.Queue.Emergencies.{
  emergencies, urgent_pages, emergencies-scan, emergencies-drop_expired, emergencies-sort_by,
}

module _ (fl : Floats) where
  open fl use {F}

  -- A slab that is returned as validly evaluated has not expired.
  abbrev pub Current : ℕ → UnhealthySlab fl → Type 0
  Current now slab = (slab.repair_risk.valid ≡ false) ⊎ (now < slab.repair_risk.valid_until)

  drop_expired-Current :
      (now : ℕ) (health_cutoff : F) (xs : List (UnhealthySlab fl))
      → All (Current now) (drop_expired fl now health_cutoff xs)
  unfolding drop_expired
  drop_expired-Current now health_cutoff [] = tt
  drop_expired-Current now health_cutoff (x ∷ xs) =
      ground (arith, drop_expired-Current now health_cutoff xs)

  length-drop_expired :
      (now : ℕ) (health_cutoff : F) (xs : List (UnhealthySlab fl))
      → length (drop_expired fl now health_cutoff xs) ≤ length xs
  unfolding drop_expired
  length-drop_expired now health_cutoff [] = omega arith
  length-drop_expired now health_cutoff (x ∷ xs) =
      ground (arith, length-drop_expired now health_cutoff xs)

  length-bound : (limit : ℕ) (xs : List (UnhealthySlab fl)) → length (bound fl limit xs) ≤ limit
  unfolding bound
  length-bound limit xs = omega (arith, length-take limit (sort_by (repair_priority_less fl) xs))

  length-scan :
      (before : List ℕ) (health_cutoff : F) (opts : RiskOptions fl) (limit : ℕ)
      (selected : List (UnhealthySlab fl)) (pages : List (Page fl))
      (result : List (UnhealthySlab fl))
      → scan fl before health_cutoff opts limit selected pages ≡ scanned result
      → length result ≤ limit
  unfolding scan
  length-scan before health_cutoff opts limit selected [] result e = absurd (cc)
  length-scan before health_cutoff opts limit selected (cancelled ∷ pages) result e = absurd (cc)
  length-scan before health_cutoff opts limit selected (page_failed ∷ pages) result e = absurd (cc)
  length-scan before health_cutoff opts limit selected (page batch height now ∷ pages) result e =
      let next = bound fl limit (selected ++ admit fl before health_cutoff opts height now batch) in
      ground (
        arith,
        length-bound limit (selected ++ admit fl before health_cutoff opts height now batch),
        length-scan before health_cutoff opts limit next pages result,
      )

  -- The keys of the slabs that are valid, in order.
  abbrev pub KeysOf : List (UnhealthySlab fl) → List ℕ → Type 0
  KeysOf [] keys = keys ≡ []
  KeysOf (x ∷ xs) keys =
      (x.repair_risk.valid ≡ true)
        × ((rest : List ℕ) × (keys ≡ x.encryption_key ∷ rest) × KeysOf xs rest)
      ⊎ (x.repair_risk.valid ≡ false) × KeysOf xs keys

  queued_keys-KeysOf : (xs : List (UnhealthySlab fl)) → KeysOf xs (queued_keys fl xs)
  unfolding queued_keys
  queued_keys-KeysOf [] = refl
  queued_keys-KeysOf (x ∷ xs) = elim (Bool-cases x.repair_risk.valid) [
    | inl valid ↦ inl (valid, (queued_keys fl xs, rw valid refl, queued_keys-KeysOf xs))
    | inr invalid ↦ inr (invalid, rw invalid (queued_keys-KeysOf xs))
  ]

  -- The result of a migration, and the state that it stores.
  pub record IsSelected (hash limit now : ℕ) (opts : RiskOptions fl) (pages : List (Page fl))
      (slabs : List (UnhealthySlab fl)) (state : QueueState) : Type 0 where
    pub few : length slabs ≤ limit
    pub sorted : IsSorted (repair_priority_less fl) slabs
    pub current : All (Current now) slabs
    pub all_urgent : emergencies fl slabs ≡ min limit (urgent_pages fl opts pages)
    pub stored_keys : KeysOf slabs state.queued
    pub stored_policy : (state.version ≡ slab_risk_model_version) × (state.policy ≡ hash)

  conclude-IsSelected :
      (o : IsOrdered fl) (hash : ℕ) (before : List ℕ) (health_cutoff : F) (opts : RiskOptions fl)
      (limit now : ℕ) (pages : List (Page fl)) (r : Scan fl) (slabs : List (UnhealthySlab fl))
      (state : QueueState)
      → scan fl before health_cutoff opts limit [] pages ≡ r
      → conclude fl hash health_cutoff now r ≡ migration slabs state
      → IsSelected hash limit now opts pages slabs state
  unfolding conclude
  conclude-IsSelected o hash before health_cutoff opts limit now pages scan_failed slabs state e f =
      absurd (cc)
  conclude-IsSelected o hash before health_cutoff opts limit now pages unfinished slabs state e f =
      absurd (cc)
  conclude-IsSelected o hash before health_cutoff opts limit now pages (scanned selected) slabs
        state e f =
      ground (
        arith,
        few,
        sort_by-IsSorted (repair_priority_less fl) (priority_asymm fl o) kept,
        sort_by-All (repair_priority_less fl) (Current now) kept
            (drop_expired-Current now health_cutoff selected),
        count,
        queued_keys-KeysOf (sort_by (repair_priority_less fl) kept),
      )
    where
      kept : List (UnhealthySlab fl)
      kept = drop_expired fl now health_cutoff selected

      few : length (sort_by (repair_priority_less fl) kept) ≤ limit
      few = omega (
        arith,
        length-sort_by (repair_priority_less fl) kept,
        length-drop_expired now health_cutoff selected,
        length-scan before health_cutoff opts limit [] pages selected e,
      )

      count :
          emergencies fl (sort_by (repair_priority_less fl) kept)
          ≡ min limit (urgent_pages fl opts pages)
      count =
          emergencies-sort_by fl (repair_priority_less fl) kept
          ∙ emergencies-drop_expired fl now health_cutoff selected
          ∙ emergencies-scan fl o before health_cutoff opts limit [] pages selected e
          ∙ ap (min limit) (omega arith)

  read_and_scan-IsSelected :
      (o : IsOrdered fl) (hash : ℕ) (health_cutoff : F) (opts : RiskOptions fl) (limit : ℕ)
      (read : SettingRead) (pages : List (Page fl)) (now : ℕ) (slabs : List (UnhealthySlab fl))
      (state : QueueState)
      → read_and_scan fl hash health_cutoff opts limit read pages now ≡ migration slabs state
      → IsSelected hash limit now opts pages slabs state
  unfolding read_and_scan
  read_and_scan-IsSelected o hash health_cutoff opts limit read_failed pages now slabs state e =
      absurd (cc)
  read_and_scan-IsSelected o hash health_cutoff opts limit not_found pages now slabs state e =
      conclude-IsSelected o hash _ health_cutoff opts limit now pages _ slabs state refl e
  read_and_scan-IsSelected o hash health_cutoff opts limit corrupt pages now slabs state e =
      conclude-IsSelected o hash _ health_cutoff opts limit now pages _ slabs state refl e
  read_and_scan-IsSelected o hash health_cutoff opts limit (stored s) pages now slabs state e =
      conclude-IsSelected o hash _ health_cutoff opts limit now pages _ slabs state refl e

  -- With the comparisons of IEEE 754, a batch that comes out is within the limit and sorted by
  -- priority; what it returns as valid has not expired at the end of the scan; it holds as many
  -- emergencies as the pages had, up to the limit; and the state to store has the keys of the
  -- valid slabs it returns, with the model's version and the policy's hash.
  pub migration-IsSelected :
      (o : IsOrdered fl) (hash : Policy fl → ℕ) (health_cutoff : F) (limit : ℤ)
      (opts : RiskOptions fl) (read : SettingRead) (pages : List (Page fl)) (now : ℕ)
      (slabs : List (UnhealthySlab fl)) (state : QueueState)
      → slabs_for_migration_with_risk fl hash health_cutoff limit opts read pages now
        ≡ migration slabs state
      → IsSelected (hash opts.policy) (limit_of fl limit) now opts pages slabs state
  unfolding slabs_for_migration_with_risk
  migration-IsSelected o hash health_cutoff limit opts read pages now slabs state e = ground (
    arith,
    Option-cases (validate fl opts.policy),
    read_and_scan-IsSelected o (hash opts.policy) health_cutoff opts (limit_of fl limit) read pages
        now slabs state,
  )
