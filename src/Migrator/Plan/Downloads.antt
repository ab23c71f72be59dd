-- ===== src/Migrator/Plan/Downloads.antt =====
-- How many shards of the slab can be downloaded when `migrate` goes on.
use sia_optimization_proposa.Prelude.{
  ℕ, zero, suc, ◌+◌, ◌≡◌, refl, inl, inr, true, List, [], ◌∷◌, arith, length, if◌then◌else◌, any,
  get_or, drop,
}
use sia_optimization_proposa.Migrator.Plan.{has, Shard, missing}
use sia_optimization_proposa.Migrator.Plan.Kept.{In-has, HasHost, Split}

-- The shards one of whose hosts, avoided or not, is usable.
abbrev pub downloadable : List ℕ → List Shard → ℕ
downloadable usable [] = 0
downloadable usable (shard ∷ shards) =
    if any (λ (e : ℕ × List ℕ). has e.0 usable) shard
    then suc (downloadable usable shards)
    else downloadable usable shards

entry_at :
    (all : List Shard) (i : ℕ) (shard : Shard) (shards : List Shard)
    → drop i all ≡ shard ∷ shards
    → (get_or all i [] ≡ shard) × (drop (suc i) all ≡ shards)
entry_at [] zero shard shards e = absurd (cc)
entry_at [] (suc i) shard shards e = absurd (cc)
entry_at (x ∷ all) zero shard shards e = ground arith
entry_at (x ∷ all) (suc i) shard shards e = entry_at all i shard shards e

module _ (avoid usable contracts : List ℕ) where
  HasHost-any :
      (shard : Shard) (hk : ℕ)
      → HasHost avoid usable contracts shard hk
      → any (λ (e : ℕ × List ℕ). has e.0 usable) shard ≡ true
  HasHost-any [] hk g = absurd g
  HasHost-any ((k, fcids) ∷ shard) hk (inl (same, fine, u, c)) =
      let h = In-has k usable u in ground arith
  HasHost-any ((k, fcids) ∷ shard) hk (inr g) = ground (arith, HasHost-any shard hk g)

  pub missing-downloadable :
      (all : List Shard) (i : ℕ) (seen : List ℕ) (shards : List Shard) (indices used : List ℕ)
      → drop i all ≡ shards
      → Split avoid usable contracts i seen shards indices used
      → missing usable all indices + downloadable usable shards ≡ length shards
  unfolding missing
  missing-downloadable all i seen [] indices used e (none_left, same) = rw none_left refl
  missing-downloadable all i seen (shard ∷ shards) indices used e (inl (hk, g, new, later)) =
      let ih =
        missing-downloadable all (suc i) (hk ∷ seen) shards indices used
          (entry_at all i shard shards e).1 later in
      rw (HasHost-any shard hk g) (omega (arith, ih))
  missing-downloadable all i seen (shard ∷ shards) indices used e
        (inr (taken, (rest, same, later))) =
      let (this, after) = entry_at all i shard shards e in
      let ih = missing-downloadable all (suc i) seen shards rest used after later in
      rw (same, this) (ground (arith, ih))
