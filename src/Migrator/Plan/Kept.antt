-- ===== src/Migrator/Plan/Kept.antt =====
-- Which shards the loop of `migrate` keeps, and on which of their hosts.
use sia_optimization_proposa.Prelude.{
  ℕ, suc, ◌≡◌, refl, sym, ◌⊎◌, inl, inr, true, false, none, some, List, [], ◌∷◌, arith, Bool-cases,
  Option-cases, ◌==◌,
}
use sia_optimization_proposa.Migrator.Plan.{has, Shard, good_contract, good_host, collect}
use sia_optimization_proposa.Migrator.Plan.Laws.{collect-some, collect-none}

abbrev pub In : ℕ → List ℕ → Type 0
In k [] = ⊥
In k (j ∷ js) = (j ≡ k) ⊎ In k js

pub In-has : (k : ℕ) (js : List ℕ) → In k js → has k js ≡ true
In-has k [] m = absurd m
In-has k (j ∷ js) (inl e) = ground arith
In-has k (j ∷ js) (inr m) = ground (arith, In-has k js m)

has-In : (k : ℕ) (js : List ℕ) → has k js ≡ true → In k js
has-In k [] h = absurd (cc)
has-In k (j ∷ js) h = elim (Bool-cases (j == k)) [
  | inl e ↦ inl (ground arith)
  | inr e ↦ inr (has-In k js (ground arith))
]

has_not_In : (k : ℕ) (js : List ℕ) → has k js ≡ false → ¬ In k js
has_not_In k js h m = let t = In-has k js m in absurd (cc)

module _ (avoid usable contracts : List ℕ) where
  -- A host of the shard that is not avoided, that is usable, and one of whose contracts is that of
  -- an upload host.
  abbrev pub HasHost : Shard → ℕ → Type 0
  HasHost [] hk = ⊥
  HasHost ((k, fcids) ∷ shard) hk =
      (k ≡ hk) × (¬ In k avoid) × In k usable × ((fcid : ℕ) × In fcid fcids × In fcid contracts)
      ⊎ HasHost shard hk

  -- The shards from the index `i` on, when the hosts `seen` are kept by those before it: a shard
  -- keeps a host of its own, or its index is to be moved because all its hosts are kept by others.
  -- `used` are the kept hosts in the end.
  abbrev pub Split : ℕ → List ℕ → List Shard → List ℕ → List ℕ → Type 0
  Split i seen [] indices used = (indices ≡ []) × (used ≡ seen)
  Split i seen (shard ∷ shards) indices used =
      ((hk : ℕ) × HasHost shard hk × (¬ In hk seen) × Split (suc i) (hk ∷ seen) shards indices used)
      ⊎ (((hk : ℕ) → HasHost shard hk → In hk seen)
          × ((rest : List ℕ) × (indices ≡ i ∷ rest) × Split (suc i) seen shards rest used))

  contract_found :
      (hk : ℕ) (seen fcids : List ℕ)
      → good_contract hk usable contracts seen fcids ≡ true
      → In hk usable × (¬ In hk seen) × ((fcid : ℕ) × In fcid fcids × In fcid contracts)
  unfolding good_contract
  contract_found hk seen [] h = absurd (cc)
  contract_found hk seen (fcid ∷ fcids) h =
      elim (Bool-cases (good_contract hk usable contracts seen fcids)) [
        | inl later ↦
            let (u, s, (c, m, n)) = contract_found hk seen fcids later in (u, s, (c, inr m, n))
        | inr first ↦ (
          has-In hk usable (ground arith),
          has_not_In hk seen (ground arith),
          (fcid, inl refl, has-In fcid contracts (ground arith)),
        )
      ]

  contract_missed :
      (hk : ℕ) (seen fcids : List ℕ) (fcid : ℕ)
      → good_contract hk usable contracts seen fcids ≡ false
      → In hk usable
      → In fcid fcids
      → In fcid contracts
      → In hk seen
  unfolding good_contract
  contract_missed hk seen [] fcid h u m n = absurd m
  contract_missed hk seen (c ∷ fcids) fcid h u (inr m) n =
      contract_missed hk seen fcids fcid (ground arith) u m n
  contract_missed hk seen (c ∷ fcids) fcid h u (inl e) n =
      let a = In-has hk usable u in
      let b = In-has fcid contracts n in
      let same : has c contracts ≡ true = rw e b in has-In hk seen (ground arith)

  host_found :
      (seen : List ℕ) (shard : Shard) (hk : ℕ)
      → good_host avoid usable contracts seen shard ≡ some hk
      → HasHost shard hk × (¬ In hk seen)
  unfolding good_host
  host_found seen [] hk h = absurd (cc)
  host_found seen ((k, fcids) ∷ shard) hk h = elim (Bool-cases (has k avoid)) [
    | inl bad ↦ (let (g, n) = host_found seen shard hk (ground arith) in (inr g, n))
    | inr fine ↦ elim (Bool-cases (good_contract k usable contracts seen fcids)) [
      | inr none_good ↦ (let (g, n) = host_found seen shard hk (ground arith) in (inr g, n))
      | inl good ↦
          let (u, new, c) = contract_found k seen fcids good in
          let same : k ≡ hk = ground arith in
          (inl (same, has_not_In k avoid fine, u, c), rw (sym same) new)
    ]
  ]

  host_missed :
      (seen : List ℕ) (shard : Shard) (hk : ℕ)
      → good_host avoid usable contracts seen shard ≡ none
      → HasHost shard hk
      → In hk seen
  unfolding good_host
  host_missed seen [] hk h g = absurd g
  host_missed seen ((k, fcids) ∷ shard) hk h (inr g) = host_missed seen shard hk (ground arith) g
  host_missed seen ((k, fcids) ∷ shard) hk h (inl (same, fine, u, (fcid, m, n))) =
      elim (Bool-cases (has k avoid)) [
        | inl bad ↦ absurd (fine (has-In k avoid bad))
        | inr ok ↦ rw (sym same) (contract_missed k seen fcids fcid (ground arith) u m n)
      ]

  pub collect-Split :
      (i : ℕ) (seen : List ℕ) (shards : List Shard)
      → let r = collect avoid usable contracts i seen shards in Split i seen shards r.0 r.1
  collect-Split i seen [] = unfold collect in (refl, refl)
  collect-Split i seen (shard ∷ shards) =
      elim (Option-cases (good_host avoid usable contracts seen shard)) [
        | inl e ↦ rw (collect-none avoid usable contracts i seen shard shards e) (
            inr (
              (λ hk g. host_missed seen shard hk e g),
              (
                (collect avoid usable contracts (suc i) seen shards).0,
                refl,
                collect-Split (suc i) seen shards,
              ),
            ))
        | inr (hk, e) ↦
            let (g, new) = host_found seen shard hk e in
            rw (collect-some avoid usable contracts i seen shard shards hk e)
              (inl (hk, g, new, collect-Split (suc i) (hk ∷ seen) shards))
      ]
