-- ===== src/Risk/Placement/Placed.antt =====
-- The hosts and the probabilities that `independentPlacement` reads off its table.
use sia_optimization_proposa.Prelude.{
  ℕ, zero, suc, ◌+◌, ◌<◌, ◌≡◌, refl, Bool, true, Option, none, some, List, [], ◌∷◌, arith, length,
  All, get_elem?, get_or, subst,
}
use sia_optimization_proposa.Prelude.Int.{ℤ, pos}
use sia_optimization_proposa.Floats.{Floats}
use sia_optimization_proposa.Risk.Loss.{f_zero}
use sia_optimization_proposa.Risk.Estimate.{SlabRiskHost}
use sia_optimization_proposa.Risk.Matching.Placement.{at}
use sia_optimization_proposa.Risk.Matching.Settled.{LeftOut}
use sia_optimization_proposa.Risk.Placement.{placed_hosts, placed_probabilities, shards_at}
use sia_optimization_proposa.Risk.Placement.Stores.{
  InShards, IsOnShards, Stores, shards_at-Stores, Stores-shards_at,
}

module _ (fl : Floats) where
  open fl use {F}

  -- `hs` and `qs` are the hosts and probabilities of the slots in order, and the host of the slot
  -- at the index `i` and on is on the shard with the number that follows its index.
  abbrev pub Placed :
      List (SlabRiskHost fl)
      → List F
      → ℕ
      → List (Option ℕ)
      → List (SlabRiskHost fl)
      → List F
      → Type 0
  Placed hosts ps i [] hs qs = (hs ≡ []) × (qs ≡ [])
  Placed hosts ps i (none ∷ slots) hs qs = Placed hosts ps (suc i) slots hs qs
  Placed hosts ps i (some x ∷ slots) hs qs =
      (h : SlabRiskHost fl) × (p : F) × (hr : List (SlabRiskHost fl)) × (qr : List F) × (hs
        ≡ h ∷ hr)
      × (qs ≡ p ∷ qr)
      × (get_elem? hosts x ≡ some h)
      × (get_elem? ps x ≡ some p)
      × InShards (pos (suc i)) h.shards
      × Placed hosts ps (suc i) slots hr qr

  Stores-get_elem? :
      (hosts : List (SlabRiskHost fl)) (x j : ℕ)
      → Stores fl hosts x j
      → (h : SlabRiskHost fl) × (get_elem? hosts x ≡ some h) × InShards (pos (suc j)) h.shards
  Stores-get_elem? [] x j m = absurd m
  Stores-get_elem? (h ∷ hosts) zero j m = (h, refl, m)
  Stores-get_elem? (h ∷ hosts) (suc x) j m = Stores-get_elem? hosts x j m

  get_elem?-get_or :
      (hosts : List (SlabRiskHost fl)) (ps : List F) (x : ℕ) (h : SlabRiskHost fl)
      → length ps ≡ length hosts
      → get_elem? hosts x ≡ some h
      → get_elem? ps x ≡ some (get_or ps x (f_zero fl))
  get_elem?-get_or [] ps x h same e = absurd (cc)
  get_elem?-get_or (g ∷ hosts) [] x h same e = absurd (omega arith)
  get_elem?-get_or (g ∷ hosts) (p ∷ ps) zero h same e = refl
  get_elem?-get_or (g ∷ hosts) (p ∷ ps) (suc x) h same e =
      get_elem?-get_or hosts ps x h (omega arith) e

  placed_hosts-some :
      (hosts : List (SlabRiskHost fl)) (x : ℕ) (slots : List (Option ℕ)) (h : SlabRiskHost fl)
      → get_elem? hosts x ≡ some h
      → placed_hosts fl hosts (some x ∷ slots) ≡ h ∷ placed_hosts fl hosts slots
  unfolding placed_hosts
  placed_hosts-some hosts x slots h e = rw (e, placed_hosts) refl

  pub placed_hosts-Placed :
      (hosts : List (SlabRiskHost fl)) (ps : List F) (i : ℕ) (slots : List (Option ℕ))
      → length ps ≡ length hosts
      → ((k x : ℕ) → at slots k ≡ some x → Stores fl hosts x (i + k))
      → Placed hosts ps i slots (placed_hosts fl hosts slots) (placed_probabilities fl ps slots)
  unfolding placed_hosts placed_probabilities
  placed_hosts-Placed hosts ps i [] same stored = (refl, refl)
  placed_hosts-Placed hosts ps i (none ∷ slots) same stored =
      placed_hosts-Placed hosts ps (suc i) slots same
        (λ k x e. subst (Stores fl hosts x) (omega arith) (stored (suc k) x e))
  placed_hosts-Placed hosts ps i (some x ∷ slots) same stored =
      let here : Stores fl hosts x i = subst (Stores fl hosts x) (omega arith) (stored 0 x refl) in
      let (h, e, m) = Stores-get_elem? hosts x i here in
      let rest =
        placed_hosts-Placed hosts ps (suc i) slots same
          (λ k y d. subst (Stores fl hosts y) (omega arith) (stored (suc k) y d)) in
      (
        h,
        get_or ps x (f_zero fl),
        placed_hosts fl hosts slots,
        placed_probabilities fl ps slots,
        placed_hosts-some hosts x slots h e,
        refl,
        e,
        get_elem?-get_or hosts ps x h same e,
        m,
        rest,
      )

  -- A table with the placed hosts still in `slots` and a set of shards that holds those of the host
  -- `x`, each of them taken by a host that is on shards of the set only.
  pub record NoRoom (hosts : List (SlabRiskHost fl)) (slots : List (Option ℕ)) (x : ℕ)
      : Type 0 where
    pub before : List (Option ℕ)
    pub within : ℕ → Bool
    pub size : length before ≡ length slots
    pub once : (i j y : ℕ) → at before i ≡ some y → at before j ≡ some y → i ≡ j
    pub still : (i y : ℕ) → at before i ≡ some y → (j : ℕ) × (at slots j ≡ some y)
    pub own : (j : ℕ) → Stores fl hosts x j → within j ≡ true
    pub taken :
        (j : ℕ)
        → j < length before
        → within j ≡ true
        → (y : ℕ) × (at before j ≡ some y)
          × Stores fl hosts y j
          × ((k : ℕ) → Stores fl hosts y k → within k ≡ true)

  pub LeftOut-NoRoom :
      (total : ℤ) (hosts : List (SlabRiskHost fl)) (slots : List (Option ℕ)) (x : ℕ)
      → All (IsOnShards fl total) hosts
      → LeftOut (shards_at fl hosts) slots x
      → NoRoom hosts slots x
  LeftOut-NoRoom total hosts slots x g (before, within, size, ok, still, full) = record {
    before = before;
    within = within;
    size = size;
    once = ok.once;
    still = still;
    own = λ j m. full.own j (Stores-shards_at fl hosts x j m);
    taken = λ j h w.
        let (y, e, inside) = full.taken j h w in
        (
          y,
          e,
          shards_at-Stores fl total hosts y j g (ok.stored j y e),
          λ k m. inside k (Stores-shards_at fl hosts y k m),
        );
  }
