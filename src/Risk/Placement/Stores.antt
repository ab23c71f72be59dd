-- ===== src/Risk/Placement/Stores.antt =====
-- The shards that a host stores, as the numbers of the candidate and as the indices of the search.
use sia_optimization_proposa.Prelude.{
  ℕ, zero, suc, ◌≤◌, ◌<◌, ◌≡◌, refl, ◌∙◌, sym, ap, ◌⊎◌, inl, inr, true, ◌&&◌, List, [], ◌∷◌, arith,
  length, all, All, map,
}
use sia_optimization_proposa.Prelude.Int.{ℤ, pos, negsuc, pos_part, leb_ℤ, ◌-ℤ◌}
use sia_optimization_proposa.Floats.{Floats}
use sia_optimization_proposa.Risk.Estimate.{SlabRiskHost}
use sia_optimization_proposa.Risk.Matching.Post.{In}
use sia_optimization_proposa.Risk.Placement.{good_shards, shards_at}

abbrev pub InShards : ℤ → List ℤ → Type 0
InShards s [] = ⊥
InShards s (x ∷ xs) = (s ≡ x) ⊎ InShards s xs

-- A shard number from 1 to the total.
abbrev pub IsShard : ℤ → ℤ → Type 0
IsShard total s = (t : ℕ) × (s ≡ pos t) × (1 ≤ t) × (t ≤ pos_part total)

bounds-IsShard : (total s : ℤ) → (leb_ℤ (pos 1) s && leb_ℤ s total) ≡ true → IsShard total s
bounds-IsShard (pos n) (pos t) h = (t, refl, ground arith, ground arith)
bounds-IsShard (pos n) (negsuc t) h = absurd (ground arith)
bounds-IsShard (negsuc n) (pos t) h = absurd (ground arith)
bounds-IsShard (negsuc n) (negsuc t) h = absurd (ground arith)

IsShard-bounds : (total s : ℤ) → IsShard total s → (leb_ℤ (pos 1) s && leb_ℤ s total) ≡ true
IsShard-bounds (pos n) s (t, e, lo, hi) = rw e (ground arith)
IsShard-bounds (negsuc n) s (t, e, lo, hi) = absurd (omega arith)

bounds-All :
    (total : ℤ) (ss : List ℤ)
    → all (λ s. leb_ℤ (pos 1) s && leb_ℤ s total) ss ≡ true
    → All (IsShard total) ss
bounds-All total [] h = tt
bounds-All total (s ∷ ss) h =
    (bounds-IsShard total s (ground arith), bounds-All total ss (ground arith))

All-bounds :
    (total : ℤ) (ss : List ℤ)
    → All (IsShard total) ss
    → all (λ s. leb_ℤ (pos 1) s && leb_ℤ s total) ss ≡ true
All-bounds total [] h = refl
All-bounds total (s ∷ ss) (g, gs) =
    let a = IsShard-bounds total s g in let b = All-bounds total ss gs in ground arith

index_of : (t : ℕ) → pos_part (pos (suc t) -ℤ pos 1) ≡ t
unfolding ◌-ℤ◌
index_of t = ground arith

indices_of :
    (total : ℤ) (ss : List ℤ) (j : ℕ)
    → All (IsShard total) ss
    → In j (map (λ (s : ℤ). pos_part (s -ℤ pos 1)) ss)
    → InShards (pos (suc j)) ss
indices_of total [] j g m = absurd m
indices_of total (s ∷ ss) j (g, gs) (inr m) = inr (indices_of total ss j gs m)
indices_of total (s ∷ ss) j ((zero, e, lo, hi), gs) (inl m) = absurd (omega arith)
indices_of total (s ∷ ss) j ((suc t, e, lo, hi), gs) (inl m) =
    let same : j ≡ t = m ∙ ap (λ (z : ℤ). pos_part (z -ℤ pos 1)) e ∙ index_of t in
    inl (ap (λ n. pos (suc n)) same ∙ sym e)

of_indices :
    (ss : List ℤ) (j : ℕ)
    → InShards (pos (suc j)) ss
    → In j (map (λ (s : ℤ). pos_part (s -ℤ pos 1)) ss)
of_indices [] j m = absurd m
of_indices (s ∷ ss) j (inr m) = inr (of_indices ss j m)
of_indices (s ∷ ss) j (inl e) = inl (sym (index_of j) ∙ ap (λ (z : ℤ). pos_part (z -ℤ pos 1)) e)

module _ (fl : Floats) where
  -- The host is on some shard, and on none but those from 1 to the total.
  abbrev pub IsOnShards : ℤ → SlabRiskHost fl → Type 0
  IsOnShards total h = (0 < length h.shards) × All (IsShard total) h.shards

  pub good-IsOnShards :
      (total : ℤ) (hosts : List (SlabRiskHost fl))
      → all (good_shards fl total) hosts ≡ true
      → All (IsOnShards total) hosts
  good-IsOnShards total [] e = tt
  good-IsOnShards total (h ∷ hosts) e = (
    (ground arith, bounds-All total h.shards (ground arith)),
    good-IsOnShards total hosts (ground arith),
  )

  pub IsOnShards-good :
      (total : ℤ) (hosts : List (SlabRiskHost fl))
      → All (IsOnShards total) hosts
      → all (good_shards fl total) hosts ≡ true
  IsOnShards-good total [] g = refl
  IsOnShards-good total (h ∷ hosts) ((some_shard, g), gs) =
      let a = All-bounds total h.shards g in let b = IsOnShards-good total hosts gs in ground arith

  -- The host at the index `x` is on the shard with the index `j`, whose number is `j + 1`.
  abbrev pub Stores : List (SlabRiskHost fl) → ℕ → ℕ → Type 0
  Stores [] x j = ⊥
  Stores (h ∷ hosts) zero j = InShards (pos (suc j)) h.shards
  Stores (h ∷ hosts) (suc x) j = Stores hosts x j

  pub shards_at-Stores :
      (total : ℤ) (hosts : List (SlabRiskHost fl)) (x j : ℕ)
      → All (IsOnShards total) hosts
      → In j (shards_at fl hosts x)
      → Stores hosts x j
  unfolding shards_at
  shards_at-Stores total [] x j g m = absurd m
  shards_at-Stores total (h ∷ hosts) zero j g m = indices_of total h.shards j g.0.1 m
  shards_at-Stores total (h ∷ hosts) (suc x) j g m = shards_at-Stores total hosts x j g.1 m

  pub Stores-shards_at :
      (hosts : List (SlabRiskHost fl)) (x j : ℕ) → Stores hosts x j → In j (shards_at fl hosts x)
  unfolding shards_at
  Stores-shards_at [] x j m = absurd m
  Stores-shards_at (h ∷ hosts) zero j m = of_indices h.shards j m
  Stores-shards_at (h ∷ hosts) (suc x) j m = Stores-shards_at hosts x j m
