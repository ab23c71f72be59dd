-- ===== src/Risk/Loss/Tail.antt =====
-- The in-place table of the loss tail holds the Poisson-binomial recurrence.
use sia_optimization_proposa.Prelude.{
  ℕ, zero, suc, ◌+◌, ◌-◌, ◌≤◌, ◌<◌, ◌≡◌, ◌≢◌, ◌⊎◌, inl, inr, refl, ◌∙◌, sym, ap, Bool, true, false,
  ◌&&◌, not, none, some, List, [], ◌∷◌, arith, if◌then◌else◌, leb, ltb, length, get_or, drop,
  replicate, Bool-cases, length-replicate,
}
use sia_optimization_proposa.Prelude.Int.{pos}
use sia_optimization_proposa.Floats.{Floats}
use native.Mathlib.Decide.{dec_lt}
use sia_optimization_proposa.Risk.Loss.{
  f_zero, f_one, entry, spread, bad_probability, convolve, add_all, dp_start, clamp,
  independent_slab_loss_probability,
}
use sia_optimization_proposa.Risk.Loss.Table.{
  next_entry, length-spread, spread_above, next_entry_agrees, spread_lem,
}

module _ (fl : Floats) where
  open fl use {F, add, sub, mul, lt, is_nan, is_inf, nan, of_int}

  -- The recurrence: the mass of exactly `f` failures among hosts listed last first. More failures
  -- than hosts have no mass.
  unfoldable pub failures : List F → ℕ → F
  failures [] zero = f_one fl
  failures [] (suc f) = f_zero fl
  failures (p ∷ ps) f =
      if leb f (suc (length ps)) then next_entry fl p (failures ps) f else f_zero fl

  -- The masses from `f` failures to `f + n - 1`, added from the left.
  unfoldable pub add_masses : F → (ℕ → F) → ℕ → ℕ → F
  add_masses risk row f zero = risk
  add_masses risk row f (suc n) = add_masses (add risk (row f)) row (suc f) n

  failures_above : (ps : List F) (f : ℕ) → length ps < f → failures ps f ≡ f_zero fl
  unfolding failures
  failures_above [] zero h = absurd (omega arith)
  failures_above [] (suc f) h = refl
  failures_above (p ∷ ps) f h = elim (Bool-cases (leb f (suc (length ps)))) [
    | inl e ↦ absurd (ground arith)
    | inr e ↦ rw e
  ]

  failures_within :
      (p : F) (ps : List F) (f : ℕ)
      → f ≤ suc (length ps)
      → failures (p ∷ ps) f ≡ next_entry fl p (failures ps) f
  unfolding failures
  failures_within p ps f h = elim (Bool-cases (leb f (suc (length ps)))) [
    | inl e ↦ rw e
    | inr e ↦ absurd (ground arith)
  ]

  abbrev IsRow : List F → List F → Type 0
  IsRow dp done = (j : ℕ) → entry fl dp j ≡ failures done j

  spread-IsRow :
      (p : F) (dp done : List F)
      → IsRow dp done
      → suc (length done) < length dp
      → IsRow (spread fl (suc (length done)) p dp) (p ∷ done)
  spread-IsRow p dp done r k j = elim (dec_lt (suc (length done)) j) [
    | yes above ↦
        spread_above fl (suc (length done)) p dp j above
        ∙ r j
        ∙ failures_above done j (omega arith)
        ∙ sym (failures_above (p ∷ done) j above)
    | no within ↦
        spread_lem fl (suc (length done)) p dp j (omega arith) k
        ∙ next_entry_agrees fl p (entry fl dp) (failures done) j (λ i _. r i)
        ∙ sym (failures_within p done j (omega arith))
  ]

  -- The hosts in the order of the loop, put in front of those already done.
  abbrev pub last_first : List F → List F → List F
  last_first done [] = done
  last_first done (p ∷ ps) = last_first (p ∷ done) ps

  abbrev pub all_good : List F → Bool
  all_good [] = true
  all_good (p ∷ ps) = not (bad_probability fl p) && all_good ps

  convolve-IsRow :
      (ps done dp : List F)
      → all_good ps ≡ true
      → IsRow dp done
      → length done + length ps < length dp
      → (dp' : List F) × (convolve fl (length done) ps dp ≡ some dp')
        × IsRow dp' (last_first done ps)
        × (length dp' ≡ length dp)
  unfolding convolve
  convolve-IsRow [] done dp g r k = (dp, refl, r, refl)
  convolve-IsRow (p ∷ ps) done dp g r k = elim (Bool-cases (bad_probability fl p)) [
    | inl bad ↦ absurd (ground arith)
    | inr good ↦
        let (dp', e, row, size) =
          convolve-IsRow ps (p ∷ done) (spread fl (suc (length done)) p dp) (ground arith)
            (spread-IsRow p dp done r (omega arith)) (rw (length-spread fl) (omega arith)) in
        (dp', rw good e, row, size ∙ length-spread fl (suc (length done)) p dp)
  ]

  convolve_bad :
      (ps : List F) (i : ℕ) (dp : List F) → all_good ps ≡ false → convolve fl i ps dp ≡ none
  unfolding convolve
  convolve_bad [] i dp g = cc
  convolve_bad (p ∷ ps) i dp g = elim (Bool-cases (bad_probability fl p)) [
    | inl bad ↦ rw bad
    | inr good ↦ rw good (convolve_bad ps (suc i) _ (ground arith))
  ]

  add_masses_shift :
      (n f : ℕ) (risk : F) (row : ℕ → F)
      → add_masses risk row (suc f) n ≡ add_masses risk (λ i. row (suc i)) f n
  unfolding add_masses
  add_masses_shift zero f risk row = refl
  add_masses_shift (suc n) f risk row = add_masses_shift n (suc f) (add risk (row (suc f))) row

  add_masses_agree :
      (n f : ℕ) (risk : F) (row other : ℕ → F)
      → ((i : ℕ) → row i ≡ other i)
      → add_masses risk row f n ≡ add_masses risk other f n
  unfolding add_masses
  add_masses_agree zero f risk row other h = refl
  add_masses_agree (suc n) f risk row other h =
      rw (h f) (add_masses_agree n (suc f) (add risk (other f)) row other h)

  add_all-entries :
      (dp : List F) (risk : F) → add_all fl risk dp ≡ add_masses risk (entry fl dp) 0 (length dp)
  unfolding add_all add_masses
  add_all-entries [] risk = refl
  add_all-entries (x ∷ dp) risk =
      add_all-entries dp (add risk x)
      ∙ sym (add_masses_shift (length dp) 0 (add risk x) (entry fl (x ∷ dp)))

  add_all-drop :
      (m : ℕ) (dp : List F) (risk : F)
      → m ≤ length dp
      → add_all fl risk (drop m dp) ≡ add_masses risk (entry fl dp) m (length dp - m)
  add_all-drop zero dp risk h =
      add_all-entries dp risk ∙ ap (add_masses risk (entry fl dp) 0) (omega arith)
  add_all-drop (suc m) [] risk h = absurd (omega arith)
  add_all-drop (suc m) (x ∷ dp) risk h =
      add_all-drop m dp risk (omega arith)
      ∙ sym (add_masses_shift (length dp - m) m risk (entry fl (x ∷ dp)))
      ∙ ap (add_masses risk (entry fl (x ∷ dp)) (suc m)) (omega arith)

  start-IsRow : (n : ℕ) → IsRow (dp_start fl n) []
  unfolding failures
  start-IsRow n zero = refl
  start-IsRow n (suc j) = zeros n j
    where
      zeros : (n j : ℕ) → get_or (replicate n (f_zero fl)) j (f_zero fl) ≡ f_zero fl
      zeros zero j = refl
      zeros (suc n) zero = refl
      zeros (suc n) (suc j) = zeros n j

  -- With valid probabilities for `n` usable hosts, at least `k` and at most 255, and a positive
  -- `k`, the loss probability is the mass of at least `n - k + 1` failures of the Poisson-binomial
  -- recurrence over the hosts, added from the smallest count up and clamped: the in-place table
  -- computes the recurrence.
  pub loss_probability-masses :
      (k : ℕ) (ps : List F)
      → 0 < k
      → k ≤ length ps
      → length ps ≤ 255
      → all_good ps ≡ true
      → independent_slab_loss_probability fl (pos (length ps)) (pos k) ps
        ≡ clamp fl (add_masses (f_zero fl) (failures (last_first [] ps)) (length ps - k + 1) k)
  unfolding independent_slab_loss_probability
  loss_probability-masses k ps lo hi cap good =
      let n = length ps in
      let full : length (dp_start fl n) ≡ suc n = ap suc (length-replicate n (f_zero fl)) in
      let (dp, e, row, size) =
        convolve-IsRow ps [] (dp_start fl n) good (start-IsRow n) (omega (arith, full)) in
      let summed = add_all-drop (n - k + 1) dp (f_zero fl) (omega (arith, full, size)) in
      let count : length dp - (n - k + 1) ≡ k = omega (arith, full, size) in
      ground (
        arith,
        e,
        summed,
        count,
        add_masses_agree k (n - k + 1) (f_zero fl) (entry fl dp) (failures (last_first [] ps)) row,
      )

  -- A probability of the list is NaN, infinite, below 0 or above 1.
  abbrev pub HasBad : List F → Type 0
  HasBad [] = ⊥
  HasBad (p ∷ ps) =
      ((is_nan p ≡ true)
        ⊎ (is_inf p ≡ true)
        ⊎ (lt p (of_int (pos 0)) ≡ true)
        ⊎ (lt (of_int (pos 1)) p ≡ true))
      ⊎ HasBad ps

  all_good-HasBad : (ps : List F) → HasBad ps → all_good ps ≡ false
  all_good-HasBad [] bad = absurd bad
  all_good-HasBad (p ∷ ps) (inl bad) = ground arith
  all_good-HasBad (p ∷ ps) (inr later) = ground (arith, all_good-HasBad ps later)

  -- With a positive minimum and at most 255 usable hosts: fewer usable hosts than the minimum make
  -- the loss probability 1, whatever the probabilities are; otherwise a number of probabilities
  -- that is not that of the hosts, or a probability that is NaN, infinite, below 0 or above 1,
  -- makes it NaN.
  pub loss_probability_refuses :
      (n k : ℕ) (ps : List F)
      → 0 < k
      → n ≤ 255
      → (n < k) ⊎ (length ps ≢ n) ⊎ HasBad ps
      → independent_slab_loss_probability fl (pos n) (pos k) ps
        ≡ (if ltb n k then of_int (pos 1) else nan)
  unfolding independent_slab_loss_probability
  loss_probability_refuses n k ps lo cap (inl few) = ground arith
  loss_probability_refuses n k ps lo cap (inr (inl differ)) = ground arith
  loss_probability_refuses n k ps lo cap (inr (inr bad)) =
      ground (arith, convolve_bad ps 0 (dp_start fl n) (all_good-HasBad ps bad))
