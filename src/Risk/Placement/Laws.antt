-- ===== src/Risk/Placement/Laws.antt =====
-- The placement that the risk model works on.
use sia_optimization_proposa.Prelude.{
  ℕ, zero, suc, ◌<◌, All, subst, ◌≡◌, ◌≢◌, ◌⊎◌, inl, inr, ◌∙◌, true, false, Option, none, some,
  List, [], ◌∷◌, arith, ◌==◌, length, all, replicate, length-replicate, Bool-cases, Option-cases,
}
use sia_optimization_proposa.Prelude.Int.{pos_part}
use sia_optimization_proposa.Prelude.Sorting.{sort_by}
use sia_optimization_proposa.Floats.{Floats}
use sia_optimization_proposa.Risk.Policy.{Scenario}
use sia_optimization_proposa.Risk.Estimate.{SlabRiskHost, SlabRiskCandidate}
use sia_optimization_proposa.Risk.Matching.Placement.{at, IsAbsent, IsPlaced, AllAbsent}
use sia_optimization_proposa.Risk.Matching.Settled.{Settled, assign_all-Settled}
use sia_optimization_proposa.Risk.Placement.Stores.{
  IsOnShards, good-IsOnShards, IsOnShards-good, shards_at-Stores, Stores,
}
use sia_optimization_proposa.Risk.Placement.Placed.{
  Placed, placed_hosts-Placed, NoRoom, LeftOut-NoRoom,
}
use sia_optimization_proposa.Risk.Placement.{
  indices, good_shards, order_less, scores, shards_at, assigned_of, placed_hosts,
  placed_probabilities, place, independent_placement,
}
use sia_optimization_proposa.Risk.Placement.Order.{
  AllDifferent, sort_by-AllDifferent, indices-AllDifferent, sort_by-In, indices-In, All-In,
}

absent_from_empty : (host n : ℕ) → IsAbsent host (replicate n none)
absent_from_empty host zero i e = cc
absent_from_empty host (suc n) zero e = cc
absent_from_empty host (suc n) (suc i) e = absent_from_empty host n i e

AllDifferent-AllAbsent : (n : ℕ) (hs : List ℕ) → AllDifferent hs → AllAbsent hs (replicate n none)
AllDifferent-AllAbsent n [] d = tt
AllDifferent-AllAbsent n (h ∷ hs) d = (absent_from_empty h n, d.0, AllDifferent-AllAbsent n hs d.1)

empty-IsPlaced : (adj : ℕ → List ℕ) (n : ℕ) → IsPlaced adj (replicate n none)
empty-IsPlaced adj n = record {
  once = λ i j x h k. absurd (absent_from_empty x n i h);
  stored = λ i x h. absurd (absent_from_empty x n i h);
}

module _ (fl : Floats) where
  open fl use {F}

  -- The table of the assignment always comes out.
  assigned_of-Settled :
      (ps : List F) (hosts : List (SlabRiskHost fl)) (total : ℕ) (scenarios : List (Scenario fl))
      → (slots : List (Option ℕ)) × (assigned_of fl ps hosts total scenarios ≡ some slots)
        × (length slots ≡ total)
        × IsPlaced (shards_at fl hosts) slots
        × ((x : ℕ) → x < length hosts → Settled (shards_at fl hosts) slots x)
  unfolding assigned_of
  assigned_of-Settled ps hosts total scenarios =
      let less = order_less fl (scores fl ps hosts scenarios) hosts in
      let order = sort_by less (indices (length hosts) []) in
      let (slots, e, size, ok, _, settled) =
        assign_all-Settled (shards_at fl hosts) order (replicate total none)
          (empty-IsPlaced (shards_at fl hosts) total)
          (AllDifferent-AllAbsent total _ (
            sort_by-AllDifferent less _
              (indices-AllDifferent (length hosts) [] (λ z m. absurd m) tt))) in
      (
        slots,
        e,
        size ∙ length-replicate total none,
        ok,
        λ x h. All-In (Settled (shards_at fl hosts) slots) order x settled (
            sort_by-In less x (indices (length hosts) []) (indices-In (length hosts) [] x (inl h))),
      )

  -- A placement `hs`, with the probabilities `qs`, by the table `slots`.
  pub record IsPlacement (s : SlabRiskCandidate fl) (ps : List F) (slots : List (Option ℕ))
      (hs : List (SlabRiskHost fl)) (qs : List F) : Type 0 where
    pub size : length slots ≡ pos_part s.total_shards
    pub once : (i j x : ℕ) → at slots i ≡ some x → at slots j ≡ some x → i ≡ j
    pub placed : Placed fl s.hosts ps 0 slots hs qs
    pub settled :
        (x : ℕ) → x < length s.hosts → ((j : ℕ) × (at slots j ≡ some x)) ⊎ NoRoom fl s.hosts slots x

  -- With one probability for each host, and every host on at least one shard and only on shards
  -- from 1 to the total, a placement comes out: a table of one slot for each shard that gives each
  -- host at most one shard, which it stores, and the hosts of the table and their probabilities in
  -- shard order. A host that is left out had no room: in a table whose hosts are all still placed,
  -- a set of shards with those of the host had each shard taken by a host with no shard outside of
  -- the set. Otherwise the placement is refused and the candidate is as it was.
  pub independent_placement-IsPlaced :
      (s : SlabRiskCandidate fl) (ps : List F) (scenarios : List (Scenario fl))
      → ((length ps ≡ length s.hosts)
          × All (IsOnShards fl s.total_shards) s.hosts
          × ((slots : List (Option ℕ)) × (hs : List (SlabRiskHost fl)) × (qs : List F)
              × (independent_placement fl s ps scenarios ≡ (record s { hosts = hs }, qs, true))
              × IsPlacement s ps slots hs qs))
        ⊎ ((independent_placement fl s ps scenarios ≡ (s, [], false))
            × ((length ps ≢ length s.hosts) ⊎ (¬ All (IsOnShards fl s.total_shards) s.hosts)))
  unfolding independent_placement place
  independent_placement-IsPlaced s ps scenarios =
      let (slots, e, size, ok, settled) =
        assigned_of-Settled ps s.hosts (pos_part s.total_shards) scenarios in
      elim (Bool-cases (length ps == length s.hosts)) [
        | inr differ ↦ inr (rw differ, inl (ground arith))
        | inl same ↦ elim (Bool-cases (all (good_shards fl s.total_shards) s.hosts)) [
          | inr bad ↦ inr (
            rw (same, bad),
            inr (λ g. let good = IsOnShards-good fl s.total_shards s.hosts g in absurd (cc)),
          )
          | inl good ↦
              let g = good-IsOnShards fl s.total_shards s.hosts good in
              let equal : length ps ≡ length s.hosts = ground arith in
              inl (
                equal,
                g,
                (
                  slots,
                  placed_hosts fl s.hosts slots,
                  placed_probabilities fl ps slots,
                  rw (same, good, e),
                  record {
                    size = size;
                    once = ok.once;
                    placed = placed_hosts-Placed fl s.hosts ps 0 slots equal (λ k x d.
                        subst (Stores fl s.hosts x) (omega arith)
                          (shards_at-Stores fl s.total_shards s.hosts x k g (ok.stored k x d)));
                    settled = λ x h. elim (settled x h) [
                      | inl there ↦ inl there
                      | inr out ↦ inr (LeftOut-NoRoom fl s.total_shards s.hosts slots x g out)
                    ];
                  },
                ),
              )
        ]
      ]

  -- The placement keeps all but the hosts.
  pub placement_min_shards :
      (s : SlabRiskCandidate fl) (ps : List F) (scenarios : List (Scenario fl))
      → (independent_placement fl s ps scenarios).0.min_shards ≡ s.min_shards
  unfolding independent_placement place
  placement_min_shards s ps scenarios =
      ground (arith, Option-cases (assigned_of fl ps s.hosts (pos_part s.total_shards) scenarios))
