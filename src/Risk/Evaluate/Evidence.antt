-- ===== src/Risk/Evaluate/Evidence.antt =====
-- The fresh evidence of an evaluation: its hosts, the oldest of their scans and the first deadline.
use sia_optimization_proposa.Prelude.{
  ℕ, ◌≤◌, ◌<◌, ◌≡◌, refl, sym, ap, inl, inr, ◌⊎◌, true, false, List, [], ◌∷◌, arith, if◌then◌else◌,
  ltb, length, All, Bool-cases, subst,
}
use sia_optimization_proposa.Prelude.Int.{ℤ, pos, negsuc, pos_part, ext_ℤ, ltb_ℤ, ◌≤ℤ◌}
use sia_optimization_proposa.Floats.{Floats}
use sia_optimization_proposa.Risk.Policy.{RiskOptions}
use sia_optimization_proposa.Risk.Estimate.{SlabRiskHost, since, add_time, host_failure_probability}
use sia_optimization_proposa.Risk.Evaluate.{fresh_hosts, valid_until_from, oldest_from}

-- A predicate at some entry.
abbrev pub Some : {A : Type 0} → (A → Type 0) → List A → Type 0
Some P [] = ⊥
Some P (x ∷ xs) = P x ⊎ Some P xs

module _ (fl : Floats) where
  open fl use {F, mul, div, lt, is_nan, of_int, trunc}

  -- A host that was scanned, not after now and less than one TTL ago, and whose probability to
  -- fail within an hour is known.
  abbrev pub IsFresh : RiskOptions fl → ℕ → ℕ → SlabRiskHost fl → Type 0
  IsFresh opts height now h =
      (0 < h.last_scan)
      × (h.last_scan ≤ now)
      × (ltb_ℤ (since now h.last_scan) opts.policy.model_ttl ≡ true)
      × (is_nan (host_failure_probability fl h now (pos 3600000000000) opts.block_interval height)
          ≡ false)

  -- `fresh` is the list of those hosts, in the same order.
  abbrev pub Chosen :
      RiskOptions fl → ℕ → ℕ → List (SlabRiskHost fl) → List (SlabRiskHost fl) → Type 0
  Chosen opts height now [] fresh = fresh ≡ []
  Chosen opts height now (h ∷ hosts) fresh =
      IsFresh opts height now h
        × ((rest : List (SlabRiskHost fl)) × (fresh ≡ h ∷ rest) × Chosen opts height now hosts rest)
      ⊎ (¬ IsFresh opts height now h) × Chosen opts height now hosts fresh

  pub fresh_hosts-Chosen :
      (opts : RiskOptions fl) (height now : ℕ) (hosts : List (SlabRiskHost fl))
      → Chosen opts height now hosts
          (fresh_hosts fl now opts.policy.model_ttl opts.block_interval height hosts)
  unfolding fresh_hosts
  fresh_hosts-Chosen opts height now [] = refl
  fresh_hosts-Chosen opts height now (h ∷ hosts) =
      ground (arith, fresh_hosts-Chosen opts height now hosts)

  -- The largest of a starting value and the ages.
  abbrev pub IsOldest : ℕ → ℤ → List (SlabRiskHost fl) → ℤ → Type 0
  IsOldest now start hosts o =
      (start ≤ℤ o)
      × All (λ (h : SlabRiskHost fl). since now h.last_scan ≤ℤ o) hosts
      × ((o ≡ start) ⊎ Some (λ (h : SlabRiskHost fl). o ≡ since now h.last_scan) hosts)

  oldest_from-cons :
      (now : ℕ) (start next : ℤ) (h : SlabRiskHost fl) (hosts : List (SlabRiskHost fl))
      → (if ltb_ℤ start (since now h.last_scan) then since now h.last_scan else start) ≡ next
      → oldest_from fl now start (h ∷ hosts) ≡ oldest_from fl now next hosts
  unfolding oldest_from
  oldest_from-cons now start next h hosts e = ap (λ o. oldest_from fl now o hosts) e

  pub oldest_from-IsOldest :
      (now : ℕ) (start : ℤ) (hosts : List (SlabRiskHost fl))
      → IsOldest now start hosts (oldest_from fl now start hosts)
  oldest_from-IsOldest now start [] = unfold oldest_from in (omega arith, tt, inl refl)
  oldest_from-IsOldest now start (h ∷ hosts) =
      elim (Bool-cases (ltb_ℤ start (since now h.last_scan))) [
        | inl older ↦
            let (low, all_low, found) = oldest_from-IsOldest now (since now h.last_scan) hosts in
            subst (IsOldest now start (h ∷ hosts))
              (sym (oldest_from-cons now start (since now h.last_scan) h hosts (rw older refl)))
              (ground arith, (low, all_low), inr found)
        | inr younger ↦
            let (low, all_low, found) = oldest_from-IsOldest now start hosts in
            subst (IsOldest now start (h ∷ hosts))
              (sym (oldest_from-cons now start start h hosts (rw younger refl)))
              (low, (ground arith, all_low), elim found [ inl e ↦ inl e | inr x ↦ inr (inr x) ])
      ]

  abbrev pub IsDeadline : ℤ → ℕ → List (SlabRiskHost fl) → ℕ → Type 0
  IsDeadline ttl start hosts u =
      (u ≡ start) ⊎ Some (λ (h : SlabRiskHost fl). u ≡ add_time h.last_scan ttl) hosts

  valid_until_from-cons :
      (ttl : ℤ) (start next : ℕ) (h : SlabRiskHost fl) (hosts : List (SlabRiskHost fl))
      → (if ltb (add_time h.last_scan ttl) start then add_time h.last_scan ttl else start) ≡ next
      → valid_until_from fl ttl start (h ∷ hosts) ≡ valid_until_from fl ttl next hosts
  unfolding valid_until_from
  valid_until_from-cons ttl start next h hosts e = ap (λ u. valid_until_from fl ttl u hosts) e

  pub valid_until_from-IsDeadline :
      (ttl : ℤ) (start : ℕ) (hosts : List (SlabRiskHost fl))
      → IsDeadline ttl start hosts (valid_until_from fl ttl start hosts)
  valid_until_from-IsDeadline ttl start [] = unfold valid_until_from in (inl refl)
  valid_until_from-IsDeadline ttl start (h ∷ hosts) =
      elim (Bool-cases (ltb (add_time h.last_scan ttl) start)) [
        | inl sooner ↦
            subst (IsDeadline ttl start (h ∷ hosts))
              (sym (
                valid_until_from-cons ttl start (add_time h.last_scan ttl) h hosts
                  (rw sooner refl)))
              (inr (valid_until_from-IsDeadline ttl (add_time h.last_scan ttl) hosts))
        | inr later ↦
            subst (IsDeadline ttl start (h ∷ hosts))
              (sym (valid_until_from-cons ttl start start h hosts (rw later refl)))
              (elim (valid_until_from-IsDeadline ttl start hosts) [
                | inl e ↦ inl e
                | inr x ↦ inr (inr x)
              ])
      ]

  -- The oldest of some ages is one of them.
  pub oldest_age :
      (now : ℕ) (hosts : List (SlabRiskHost fl)) (o : ℤ)
      → 0 < length hosts
      → IsOldest now (pos 0) hosts o
      → (n : ℕ) × (o ≡ pos n) × Some (λ (h : SlabRiskHost fl). o ≡ since now h.last_scan) hosts
  oldest_age now [] o some_host w = absurd (omega arith)
  oldest_age now (h ∷ hosts) o some_host (low, all_low, inl zero_age) =
      (0, zero_age, inl (ext_ℤ o (since now h.last_scan) (ground arith)))
  oldest_age now (h ∷ hosts) o some_host (low, all_low, inr found) =
      (pos_part o, nonneg o low, found)
    where
      nonneg : (o : ℤ) → pos 0 ≤ℤ o → o ≡ pos (pos_part o)
      nonneg (pos n) l = refl
      nonneg (negsuc n) l = absurd (omega arith)
