-- ===== src/Tests/PlacementRuns.antt =====
-- The search for a placement at concrete inputs.
use sia_optimization_proposa.Prelude.{
  ℕ, ◌≡◌, ◌≢◌, zero, suc, ◌⊎◌, inl, refl, arith, Bool, true, false, Option, none, some, List, [],
  ◌∷◌, length, All,
}
use sia_optimization_proposa.Prelude.Int.{ℤ, pos}
use sia_optimization_proposa.Risk.Matching.{assign, assign_all, fresh, Match}
use sia_optimization_proposa.Risk.Matching.Post.{In}
use sia_optimization_proposa.Risk.Matching.Placement.{
  at, IsAbsent, IsPlaced, Answer, assign_answers, assign_all-IsPlaced,
}
use sia_optimization_proposa.Risk.Placement.{independent_placement}
use sia_optimization_proposa.Risk.Placement.Laws.{IsPlacement, independent_placement-IsPlaced}
use sia_optimization_proposa.Risk.Placement.Stores.{IsOnShards}
use sia_optimization_proposa.Risk.Estimate.{SlabRiskHost}
use sia_optimization_proposa.Tests.Decimals.{decimals}
use sia_optimization_proposa.Tests.Data.{complete}

two_shards : ℕ → List ℕ
two_shards zero = 0 ∷ 1 ∷ []
two_shards (suc h) = 0 ∷ []

-- Host 0 is on shard 0, which is the only one that host 1 stores.
abbrev occupied : List (Option ℕ)
occupied = some 0 ∷ none ∷ []

occupied-IsPlaced : IsPlaced two_shards occupied
unfolding two_shards
occupied-IsPlaced = record { once = once; stored = stored }
  where
    once : (i j x : ℕ) → at occupied i ≡ some x → at occupied j ≡ some x → i ≡ j
    once zero zero x h k = refl
    once zero (suc zero) x h k = absurd (cc)
    once zero (suc (suc j)) x h k = absurd (cc)
    once (suc zero) j x h k = absurd (cc)
    once (suc (suc i)) j x h k = absurd (cc)

    stored : (i x : ℕ) → at occupied i ≡ some x → In i (two_shards x)
    stored zero zero h = inl refl
    stored zero (suc x) h = inl refl
    stored (suc zero) x h = absurd (cc)
    stored (suc (suc i)) x h = absurd (cc)

one_absent : IsAbsent 1 occupied
one_absent zero h = absurd (ground arith)
one_absent (suc zero) h = absurd (cc)
one_absent (suc (suc i)) h = absurd (cc)

assign_answers_example :
    (found : Bool) × (st : Match) × (assign two_shards 3 1 (fresh two_shards occupied)
      ≡ some (found, st))
    × Answer two_shards 1 occupied occupied-IsPlaced one_absent found st
assign_answers_example = assign_answers two_shards 1 occupied occupied-IsPlaced one_absent

assign_all-IsPlaced_example :
    (slots : List (Option ℕ)) × (assign_all two_shards (1 ∷ []) occupied ≡ some slots)
    × (length slots ≡ 2)
    × IsPlaced two_shards slots
    × ((i x : ℕ) → at occupied i ≡ some x → (j : ℕ) × (at slots j ≡ some x))
assign_all-IsPlaced_example =
    assign_all-IsPlaced two_shards (1 ∷ []) occupied occupied-IsPlaced (one_absent, (λ h. h), tt)

abbrev three_zeros : List (Option ℤ)
three_zeros = some (pos 0) ∷ some (pos 0) ∷ some (pos 0) ∷ []

independent_placement-IsPlaced_example :
    ((length three_zeros ≡ length complete.hosts)
      × All (IsOnShards decimals (pos 3)) complete.hosts
      × ((slots : List (Option ℕ)) × (hs : List (SlabRiskHost decimals)) × (qs : List (Option ℤ))
          × (independent_placement decimals complete three_zeros []
              ≡ (record complete { hosts = hs }, qs, true))
          × IsPlacement decimals complete three_zeros slots hs qs))
    ⊎ ((independent_placement decimals complete three_zeros [] ≡ (complete, [], false))
        × ((length three_zeros ≢ length complete.hosts)
            ⊎ (¬ All (IsOnShards decimals (pos 3)) complete.hosts)))
independent_placement-IsPlaced_example =
    independent_placement-IsPlaced decimals complete three_zeros []
