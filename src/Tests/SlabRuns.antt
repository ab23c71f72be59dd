-- ===== src/Tests/SlabRuns.antt =====
-- Runs of the striping of slabs.
use sia_optimization_proposa.Prelude.{
  ℕ, ◌≡◌, refl, ap, sym, Option, some, none, List, [], ◌∷◌, take, arith,
}
use sia_optimization_proposa.Slab.{
  Shards, joined, split_row, striped_split, sector_region, recovered, recover, encode,
}
use sia_optimization_proposa.Slab.Recovery.{recover-encode}

-- Two data shards of six bytes, in leaves of two.
abbrev bytes : List ℕ
bytes = 1 ∷ 2 ∷ 3 ∷ 4 ∷ 5 ∷ 6 ∷ 7 ∷ 8 ∷ 9 ∷ 10 ∷ []

abbrev blank : Shards
blank = (0 ∷ 0 ∷ 0 ∷ 0 ∷ 0 ∷ 0 ∷ []) ∷ (0 ∷ 0 ∷ 0 ∷ 0 ∷ 0 ∷ 0 ∷ []) ∷ []

-- An erasure code: the parity is a copy, and missing data are read from it.
abbrev mirror : ℕ → Shards → Option Shards
mirror k [] = some []
mirror k (a ∷ []) = some (a ∷ [])
mirror k (a ∷ b ∷ rest) = some (a ∷ b ∷ a ∷ b ∷ [])

abbrev mirror_back : ℕ → Shards → Option Shards
mirror_back k [] = none
mirror_back k (a ∷ []) = none
mirror_back k (a ∷ b ∷ []) = none
mirror_back k (a ∷ b ∷ c ∷ []) = none
mirror_back k (a ∷ b ∷ c ∷ d ∷ rest) = some (c ∷ d ∷ c ∷ d ∷ [])

abbrev from_some : Option Shards → Shards
from_some none = []
from_some (some shards) = shards

mirror_keeps : (shards out : Shards) → mirror 2 shards ≡ some out → take 2 out ≡ take 2 shards
mirror_keeps [] out e = ap (λ r. take 2 (from_some r)) (sym e)
mirror_keeps (a ∷ []) out e = ap (λ r. take 2 (from_some r)) (sym e)
mirror_keeps (a ∷ b ∷ rest) out e = ap (λ r. take 2 (from_some r)) (sym e)

-- Both data shards are missing, and the region of the slice is read of the copies.
recover-encode_example :
    recover 2 mirror_back
      (record { min_shards = 2; offset = 3; slice_length = 5 })
      ([] ∷ [] ∷ (1 ∷ 2 ∷ 5 ∷ 6 ∷ []) ∷ (3 ∷ 4 ∷ 7 ∷ 8 ∷ []) ∷ [])
    ≡ recovered (joined (4 ∷ 5 ∷ 6 ∷ 7 ∷ 8 ∷ []))
unfolding encode sector_region striped_split split_row
recover-encode_example =
    recover-encode 2 3 2 (omega arith) (omega arith) (omega arith) (omega arith) mirror mirror_back
      4 3 5 bytes
      ((1 ∷ 2 ∷ 5 ∷ 6 ∷ 9 ∷ 10 ∷ [])
        ∷ (3 ∷ 4 ∷ 7 ∷ 8 ∷ 0 ∷ 0 ∷ [])
        ∷ (1 ∷ 2 ∷ 5 ∷ 6 ∷ 9 ∷ 10 ∷ [])
        ∷ (3 ∷ 4 ∷ 7 ∷ 8 ∷ 0 ∷ 0 ∷ [])
        ∷ [])
      ([] ∷ [] ∷ (1 ∷ 2 ∷ 5 ∷ 6 ∷ []) ∷ (3 ∷ 4 ∷ 7 ∷ 8 ∷ []) ∷ [])
      ((1 ∷ 2 ∷ 5 ∷ 6 ∷ [])
        ∷ (3 ∷ 4 ∷ 7 ∷ 8 ∷ [])
        ∷ (1 ∷ 2 ∷ 5 ∷ 6 ∷ [])
        ∷ (3 ∷ 4 ∷ 7 ∷ 8 ∷ [])
        ∷ [])
      (omega arith) (omega arith) mirror_keeps refl refl refl refl
