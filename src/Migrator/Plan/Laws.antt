-- ===== src/Migrator/Plan/Laws.antt =====
-- A planned migration gives every shard a host of its own.
use sia_optimization_proposa.Prelude.{
  ℕ, suc, ◌+◌, ◌≡◌, refl, inl, inr, true, false, ◌||◌, none, some, List, [], ◌∷◌, arith, length,
  Bool-cases, Option-cases,
}
use sia_optimization_proposa.Migrator.Plan.{
  has, UploadHost, Shard, good_contract, good_host, collect, allowed,
}

-- The keys are different, and `P` holds of each.
abbrev pub Apart : List ℕ → Type 0
Apart [] = Unit
Apart (k ∷ ks) = (has k ks ≡ false) × Apart ks

abbrev pub NoneIn : List ℕ → List ℕ → Type 0
NoneIn bad [] = Unit
NoneIn bad (k ∷ ks) = (has k bad ≡ false) × NoneIn bad ks

abbrev pub AllIn : List ℕ → List ℕ → Type 0
AllIn good [] = Unit
AllIn good (k ∷ ks) = (has k good ≡ true) × AllIn good ks

good_contract_lem :
    (hk : ℕ) (usable contracts seen fcids : List ℕ)
    → good_contract hk usable contracts seen fcids ≡ true
    → (has hk usable ≡ true) × (has hk seen ≡ false)
unfolding good_contract
good_contract_lem hk usable contracts seen [] h = absurd (cc)
good_contract_lem hk usable contracts seen (fcid ∷ fcids) h =
    ground (arith, good_contract_lem hk usable contracts seen fcids)

good_host_lem :
    (avoid usable contracts seen : List ℕ) (shard : Shard) (hk : ℕ)
    → good_host avoid usable contracts seen shard ≡ some hk
    → (has hk avoid ≡ false) × (has hk usable ≡ true) × (has hk seen ≡ false)
unfolding good_host
good_host_lem avoid usable contracts seen [] hk e = absurd (cc)
good_host_lem avoid usable contracts seen ((k, fcids) ∷ shard) hk e = ground (
  arith,
  good_host_lem avoid usable contracts seen shard hk,
  good_contract_lem k usable contracts seen fcids,
)

-- The hosts that the loop leaves in use: different, usable and not avoided; and every shard is in
-- the indices or has one of them.
pub record IsCollected (avoid usable : List ℕ) (n : ℕ) (r : List ℕ × List ℕ) : Type 0 where
  pub apart : Apart r.1
  pub not_avoided : NoneIn avoid r.1
  pub all_usable : AllIn usable r.1
  pub every_shard : length r.0 + length r.1 ≡ n

module _ (avoid usable contracts : List ℕ) (i : ℕ) (seen : List ℕ) (shard : Shard)
    (shards : List Shard) where
  pub collect-some :
      (hk : ℕ)
      → good_host avoid usable contracts seen shard ≡ some hk
      → collect avoid usable contracts i seen (shard ∷ shards)
        ≡ collect avoid usable contracts (suc i) (hk ∷ seen) shards
  unfolding collect
  collect-some hk e = rw (e, collect)

  pub collect-none :
      good_host avoid usable contracts seen shard ≡ none
      → collect avoid usable contracts i seen (shard ∷ shards) ≡ (
        i ∷ (collect avoid usable contracts (suc i) seen shards).0,
        (collect avoid usable contracts (suc i) seen shards).1,
      )
  unfolding collect
  collect-none e = rw (e, collect)

collect_one-IsCollected :
    (avoid usable contracts : List ℕ) (i : ℕ) (seen : List ℕ) (shard : Shard) (shards : List Shard)
    (m : ℕ)
    → Apart seen
    → NoneIn avoid seen
    → AllIn usable seen
    → ((seen' : List ℕ)
        → Apart seen'
        → NoneIn avoid seen'
        → AllIn usable seen'
        → IsCollected avoid usable
            (m + length seen')
            (collect avoid usable contracts (suc i) seen' shards))
    → IsCollected avoid usable
        (suc m + length seen)
        (collect avoid usable contracts i seen (shard ∷ shards))
collect_one-IsCollected avoid usable contracts i seen shard shards m a n u ih =
    elim (Option-cases (good_host avoid usable contracts seen shard)) [
      | inl e ↦
          rw (collect-none avoid usable contracts i seen shard shards e)
            (let r = ih seen a n u in ground arith)
      | inr (hk, e) ↦
          let g = good_host_lem avoid usable contracts seen shard hk e in
          rw (collect-some avoid usable contracts i seen shard shards hk e)
            (let r = ih (hk ∷ seen) (g.2, a) (g.0, n) (g.1, u) in ground arith)
    ]

collect_from-IsCollected :
    (avoid usable contracts : List ℕ) (i : ℕ) (seen : List ℕ) (shards : List Shard)
    → Apart seen
    → NoneIn avoid seen
    → AllIn usable seen
    → IsCollected avoid usable
        (length shards + length seen)
        (collect avoid usable contracts i seen shards)
collect_from-IsCollected avoid usable contracts i seen [] a n u = unfold collect in (ground arith)
collect_from-IsCollected avoid usable contracts i seen (shard ∷ shards) a n u =
    collect_one-IsCollected avoid usable contracts i seen shard shards (length shards) a n u
      (λ seen'. collect_from-IsCollected avoid usable contracts (suc i) seen' shards)

pub collect-IsCollected :
    (avoid usable contracts : List ℕ) (shards : List Shard)
    → IsCollected avoid usable (length shards) (collect avoid usable contracts 0 [] shards)
collect-IsCollected avoid usable contracts shards =
    let r = collect_from-IsCollected avoid usable contracts 0 [] shards tt tt tt in
    record {
      apart = r.apart;
      not_avoided = r.not_avoided;
      all_usable = r.all_usable;
      every_shard = omega (arith, r.every_shard);
    }

abbrev pub keys : List UploadHost → List ℕ
keys [] = []
keys (h ∷ hs) = h.public_key ∷ keys hs

has_tail : (k j : ℕ) (js : List ℕ) → has k (j ∷ js) ≡ false → has k js ≡ false
has_tail k j js h = ground arith

NoneIn-tail : (j : ℕ) (js ks : List ℕ) → NoneIn (j ∷ js) ks → NoneIn js ks
NoneIn-tail j js [] h = tt
NoneIn-tail j js (k ∷ ks) h = (has_tail k j js h.0, NoneIn-tail j js ks h.1)

has_of_NoneIn : (j : ℕ) (js ks : List ℕ) → NoneIn (j ∷ js) ks → has j ks ≡ false
has_of_NoneIn j js [] h = refl
has_of_NoneIn j js (k ∷ ks) h = ground (arith, has_of_NoneIn j js ks h.1)

-- The destinations are different hosts, not avoided and not in use.
pub allowed_lem :
    (avoid seen : List ℕ) (hosts : List UploadHost)
    → Apart (keys (allowed avoid seen hosts))
      × NoneIn avoid (keys (allowed avoid seen hosts))
      × NoneIn seen (keys (allowed avoid seen hosts))
unfolding allowed
allowed_lem avoid seen [] = (tt, tt, tt)
allowed_lem avoid seen (h ∷ hosts) =
    elim (Bool-cases (has h.public_key avoid || has h.public_key seen)) [
      | inl skip ↦ rw skip (allowed_lem avoid seen hosts)
      | inr take ↦
          let (a, n, s) = allowed_lem avoid (h.public_key ∷ seen) hosts in
          let rest = keys (allowed avoid (h.public_key ∷ seen) hosts) in
          rw take (
            (has_of_NoneIn h.public_key seen rest s, a),
            (ground arith, n),
            (ground arith, NoneIn-tail h.public_key seen rest s),
          )
    ]
