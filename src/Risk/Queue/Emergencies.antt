-- ===== src/Risk/Queue/Emergencies.antt =====
-- No emergency is crowded out by anything but emergencies.
use sia_optimization_proposa.Prelude.{
  ℕ, zero, suc, ◌+◌, ◌≡◌, refl, inl, inr, min, ap, ◌∙◌, Bool, true, false, List, [], ◌∷◌, ◌++◌,
  arith, if◌then◌else◌, length, take, Bool-cases, ltb,
}
use sia_optimization_proposa.Prelude.Sorting.{insert_by, sort_by, IsSorted, sort_by-IsSorted}
use sia_optimization_proposa.Floats.{Floats, IsOrdered}
use sia_optimization_proposa.Risk.Policy.{RiskOptions}
use sia_optimization_proposa.Risk.Estimate.{SlabRiskCandidate}
use sia_optimization_proposa.Risk.Evaluate.{evaluate_slab_risk}
use sia_optimization_proposa.Risk.Queue.{
  UnhealthySlab, repair_priority_less, Page, page, cancelled, page_failed, is_queued, admit, bound,
  scanned, scan, drop_expired, repair_risk_batch_size,
}
use sia_optimization_proposa.Risk.Queue.Order.{priority_asymm}

module _ (fl : Floats) where
  open fl use {F}

  abbrev pub emergencies : List (UnhealthySlab fl) → ℕ
  emergencies [] = 0
  emergencies (s ∷ ss) = if s.repair_risk.emergency then suc (emergencies ss) else emergencies ss

  -- The candidates of a batch whose evaluation is an emergency.
  abbrev pub urgent : RiskOptions fl → ℕ → ℕ → List (SlabRiskCandidate fl) → ℕ
  urgent opts height now [] = 0
  urgent opts height now (c ∷ batch) =
      if (evaluate_slab_risk fl c opts height now).emergency
      then suc (urgent opts height now batch)
      else urgent opts height now batch

  -- Those of the pages of a scan, up to the first short one.
  abbrev pub urgent_pages : RiskOptions fl → List (Page fl) → ℕ
  urgent_pages opts [] = 0
  urgent_pages opts (cancelled ∷ pages) = 0
  urgent_pages opts (page_failed ∷ pages) = 0
  urgent_pages opts (page batch height now ∷ pages) =
      urgent opts height now batch
      + (if ltb (length batch) repair_risk_batch_size then 0 else urgent_pages opts pages)

  emergencies-append :
      (xs ys : List (UnhealthySlab fl)) → emergencies (xs ++ ys) ≡ emergencies xs + emergencies ys
  emergencies-append [] ys = omega arith
  emergencies-append (x ∷ xs) ys = ground (arith, emergencies-append xs ys)

  emergencies-insert_by :
      (less : UnhealthySlab fl → UnhealthySlab fl → Bool) (x : UnhealthySlab fl)
      (ys : List (UnhealthySlab fl))
      → emergencies (insert_by less x ys) ≡ emergencies (x ∷ ys)
  unfolding insert_by
  emergencies-insert_by less x [] = refl
  emergencies-insert_by less x (y ∷ ys) = ground (arith, emergencies-insert_by less x ys)

  pub emergencies-sort_by :
      (less : UnhealthySlab fl → UnhealthySlab fl → Bool) (xs : List (UnhealthySlab fl))
      → emergencies (sort_by less xs) ≡ emergencies xs
  unfolding sort_by
  emergencies-sort_by less [] = refl
  emergencies-sort_by less (x ∷ xs) =
      ground (arith, emergencies-insert_by less x (sort_by less xs), emergencies-sort_by less xs)

  not_before :
      (a b : UnhealthySlab fl)
      → repair_priority_less fl a b ≡ false
      → b.repair_risk.emergency ≡ false
      → a.repair_risk.emergency ≡ false
  unfolding repair_priority_less
  not_before a b h k = ground arith

  -- Behind a slab that is no emergency a sorted list has none.
  none_behind :
      (x : UnhealthySlab fl) (xs : List (UnhealthySlab fl))
      → IsSorted (repair_priority_less fl) (x ∷ xs)
      → x.repair_risk.emergency ≡ false
      → emergencies xs ≡ 0
  none_behind x [] s e = refl
  none_behind x (y ∷ ys) s e =
      let calm = not_before y x s.0 e in rw calm (none_behind y ys s.1 calm)

  emergencies-take :
      (n : ℕ) (xs : List (UnhealthySlab fl))
      → IsSorted (repair_priority_less fl) xs
      → emergencies (take n xs) ≡ min n (emergencies xs)
  emergencies-take zero xs s = omega arith
  emergencies-take (suc n) [] s = omega arith
  emergencies-take (suc n) (x ∷ []) s = ground (arith, emergencies-take n [] tt)
  emergencies-take (suc n) (x ∷ y ∷ ys) s = elim (Bool-cases x.repair_risk.emergency) [
    | inl e ↦ rw e (omega (arith, emergencies-take n (y ∷ ys) s.1))
    | inr e ↦ rw e (omega (arith, emergencies-take n (y ∷ ys) s.1, none_behind x (y ∷ ys) s e))
  ]

  emergencies-bound :
      (o : IsOrdered fl) (limit : ℕ) (xs : List (UnhealthySlab fl))
      → emergencies (bound fl limit xs) ≡ min limit (emergencies xs)
  unfolding bound
  emergencies-bound o limit xs =
      emergencies-take limit _ (sort_by-IsSorted (repair_priority_less fl) (priority_asymm fl o) xs)
      ∙ ap (min limit) (emergencies-sort_by (repair_priority_less fl) xs)

  emergencies-admit :
      (before : List ℕ) (health_cutoff : F) (opts : RiskOptions fl) (height now : ℕ)
      (batch : List (SlabRiskCandidate fl))
      → emergencies (admit fl before health_cutoff opts height now batch)
        ≡ urgent opts height now batch
  unfolding admit is_queued
  emergencies-admit before health_cutoff opts height now [] = refl
  emergencies-admit before health_cutoff opts height now (c ∷ batch) =
      ground (arith, emergencies-admit before health_cutoff opts height now batch)

  pub emergencies-drop_expired :
      (now : ℕ) (health_cutoff : F) (xs : List (UnhealthySlab fl))
      → emergencies (drop_expired fl now health_cutoff xs) ≡ emergencies xs
  unfolding drop_expired
  emergencies-drop_expired now health_cutoff [] = refl
  emergencies-drop_expired now health_cutoff (x ∷ xs) =
      ground (arith, emergencies-drop_expired now health_cutoff xs)

  pub emergencies-scan :
      (o : IsOrdered fl) (before : List ℕ) (health_cutoff : F) (opts : RiskOptions fl) (limit : ℕ)
      (selected : List (UnhealthySlab fl)) (pages : List (Page fl))
      (result : List (UnhealthySlab fl))
      → scan fl before health_cutoff opts limit selected pages ≡ scanned result
      → emergencies result ≡ min limit (emergencies selected + urgent_pages opts pages)
  unfolding scan
  emergencies-scan o before health_cutoff opts limit selected [] result e = absurd (cc)
  emergencies-scan o before health_cutoff opts limit selected (cancelled ∷ pages) result e =
      absurd (cc)
  emergencies-scan o before health_cutoff opts limit selected (page_failed ∷ pages) result e =
      absurd (cc)
  emergencies-scan o before health_cutoff opts limit selected (page batch height now ∷ pages) result
        e =
      let added = admit fl before health_cutoff opts height now batch in
      let next = bound fl limit (selected ++ added) in
      let kept : emergencies next
          ≡ min limit (emergencies selected + urgent opts height now batch) =
        emergencies-bound o limit (selected ++ added)
        ∙ ap (min limit) (
            emergencies-append selected added
            ∙ ap (◌+◌ (emergencies selected))
                (emergencies-admit before health_cutoff opts height now batch)) in
      elim (Bool-cases (ltb (length batch) repair_risk_batch_size)) [
        | inl short ↦ rw short (ap emergencies (last_page short) ∙ kept ∙ omega arith)
        | inr full ↦ rw full (
            emergencies-scan o before health_cutoff opts limit next pages result (rw full at e)
            ∙ ap (λ n. min limit (n + urgent_pages opts pages)) kept
            ∙ omega arith)
      ]
    where
      last_page :
          ltb (length batch) repair_risk_batch_size ≡ true
          → result
            ≡ bound fl limit (selected ++ admit fl before health_cutoff opts height now batch)
      last_page short = ground arith
