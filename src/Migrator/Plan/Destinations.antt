-- ===== src/Migrator/Plan/Destinations.antt =====
-- The distinct destinations that `migrate` counts are targets in the end, or hosts in use.
use sia_optimization_proposa.Prelude.{
  ℕ, suc, ◌+◌, ◌≤◌, ◌≡◌, refl, inl, inr, true, false, List, [], ◌∷◌, arith, if◌then◌else◌, length,
  Bool-cases,
}
use sia_optimization_proposa.Migrator.Plan.{has, UploadHost, destinations, allowed}

-- The keys in use that are no destination found so far.
abbrev pub only_used : List ℕ → List ℕ → ℕ
only_used [] found = 0
only_used (k ∷ ks) found = if has k found then only_used ks found else suc (only_used ks found)

only_used_new :
    (j : ℕ) (ks found : List ℕ) → has j ks ≡ false → only_used ks (j ∷ found) ≡ only_used ks found
only_used_new j [] found h = refl
only_used_new j (k ∷ ks) found h = ground (arith, only_used_new j ks found)

only_used_le : (j : ℕ) (ks found : List ℕ) → only_used ks (j ∷ found) ≤ only_used ks found
only_used_le j [] found = omega arith
only_used_le j (k ∷ ks) found = ground (arith, only_used_le j ks found)

only_used_old :
    (j : ℕ) (ks found : List ℕ)
    → has j ks ≡ true
    → has j found ≡ false
    → suc (only_used ks (j ∷ found)) ≤ only_used ks found
only_used_old j [] found h k = absurd (cc)
only_used_old j (i ∷ ks) found h k =
    ground (arith, only_used_old j ks found, only_used_le j ks found)

pub only_used-le-length : (ks found : List ℕ) → only_used ks found ≤ length ks
only_used-le-length [] found = omega arith
only_used-le-length (k ∷ ks) found = ground (arith, only_used-le-length ks found)

-- What is found is in use.
abbrev pub Within : List ℕ → List ℕ → Type 0
Within found used = (j : ℕ) → has j found ≡ true → has j used ≡ true

pub destinations-le :
    (avoid found used : List ℕ) (hosts : List UploadHost)
    → Within found used
    → length (destinations avoid hosts found)
      ≤ length found + length (allowed avoid used hosts) + only_used used found
unfolding destinations allowed
destinations-le avoid found used [] w = omega arith
destinations-le avoid found used (h ∷ hosts) w =
    let k = h.public_key in
    elim (Bool-cases (has k avoid)) [
      | inl bad ↦ rw bad (destinations-le avoid found used hosts w)
      | inr fine ↦ elim (Bool-cases (has k found)) [
        | inl old ↦ rw (fine, old, w k old) (destinations-le avoid found used hosts w)
        | inr new ↦ elim (Bool-cases (has k used)) [
          | inl taken ↦
              rw (fine, new, taken)
                (omega (
                  arith,
                  destinations-le avoid (k ∷ found) used hosts (λ j e. ground (arith, w j)),
                  only_used_old k used found taken new,
                ))
          | inr free ↦
              rw (fine, new, free)
                (omega (
                  arith,
                  destinations-le avoid (k ∷ found) (k ∷ used) hosts (λ j e. ground (arith, w j)),
                  grown k free,
                ))
        ]
      ]
    ]
  where
    grown : (k : ℕ) → has k used ≡ false → only_used (k ∷ used) (k ∷ found) ≡ only_used used found
    grown k free = ground (arith, only_used_new k used found free)
