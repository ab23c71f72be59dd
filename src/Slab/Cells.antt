-- ===== src/Slab/Cells.antt =====
-- The cells of a shard: its pieces of `leaf` bytes, and what a copy does to them.
use sia_optimization_proposa.Prelude.{
  ℕ, zero, suc, ◌+◌, ◌≤◌, ◌≡◌, refl, ap, List, [], ◌∷◌, ◌++◌, arith, length, take, drop, ◌∙◌, sym,
  All, length-take, length-drop, length-append,
}
use sia_optimization_proposa.Slab.{Shards, copy_at}

pub length-copy_at : (off : ℕ) (src shard : List ℕ) → length (copy_at off src shard) ≡ length shard
length-copy_at zero [] shard = refl
length-copy_at zero (b ∷ src) [] = refl
length-copy_at zero (b ∷ src) (x ∷ shard) = ap suc (length-copy_at zero src shard)
length-copy_at (suc off) src [] = refl
length-copy_at (suc off) src (x ∷ shard) = ap suc (length-copy_at off src shard)

drop_nil : (n : ℕ) → drop {A = ℕ} n [] ≡ []
drop_nil zero = refl
drop_nil (suc n) = refl

pub drop-drop : (a b : ℕ) (xs : List ℕ) → drop b (drop a xs) ≡ drop (a + b) xs
drop-drop zero b xs = ap (λ n. drop n xs) {x = b} {y = 0 + b} (omega arith)
drop-drop (suc a) b [] = drop_nil b ∙ sym (drop_nil (suc a + b))
drop-drop (suc a) b (x ∷ xs) =
    drop-drop a b xs ∙ ap (λ n. drop n (x ∷ xs)) {x = suc (a + b)} {y = suc a + b} (omega arith)

pub drop_all : (n : ℕ) (xs : List ℕ) → length xs ≤ n → drop n xs ≡ []
drop_all zero [] h = refl
drop_all (suc n) [] h = refl
drop_all zero (x ∷ xs) h = absurd (omega (arith, h))
drop_all (suc n) (x ∷ xs) h = drop_all n xs (omega (arith, h))

pub take_all : (n : ℕ) (xs : List ℕ) → length xs ≤ n → take n xs ≡ xs
take_all zero [] h = refl
take_all (suc n) [] h = refl
take_all zero (x ∷ xs) h = absurd (omega (arith, h))
take_all (suc n) (x ∷ xs) h = ap (◌∷◌ x) (take_all n xs (omega (arith, h)))

module _ (leaf : ℕ) where
  abbrev pub cell : ℕ → List ℕ → List ℕ
  cell off shard = take leaf (drop off shard)

  copy_front :
      (n : ℕ) (src shard : List ℕ)
      → length src ≤ n
      → n ≤ length shard
      → take n (copy_at zero src shard) ≡ src ++ drop (length src) (take n shard)
  copy_front n [] shard h k = refl
  copy_front zero (b ∷ src) shard h k = absurd (omega (arith, h))
  copy_front (suc n) (b ∷ src) [] h k = absurd (omega (arith, k))
  copy_front (suc n) (b ∷ src) (x ∷ shard) h k =
      ap (◌∷◌ b) (copy_front n src shard (omega (arith, h)) (omega (arith, k)))

  -- The cell that is written starts with what is copied.
  pub cell-copy_at_self :
      (off : ℕ) (src shard : List ℕ)
      → length src ≤ leaf
      → off + leaf ≤ length shard
      → cell off (copy_at off src shard) ≡ src ++ drop (length src) (cell off shard)
  cell-copy_at_self zero src shard h k = copy_front leaf src shard h (omega (arith, k))
  cell-copy_at_self (suc off) src [] h k = absurd (omega (arith, k))
  cell-copy_at_self (suc off) src (x ∷ shard) h k =
      cell-copy_at_self off src shard h (omega (arith, k))

  take-copy_at :
      (n off : ℕ) (src shard : List ℕ) → n ≤ off → take n (copy_at off src shard) ≡ take n shard
  take-copy_at zero off src shard h = refl
  take-copy_at (suc n) zero src shard h = absurd (omega (arith, h))
  take-copy_at (suc n) (suc off) src [] h = refl
  take-copy_at (suc n) (suc off) src (x ∷ shard) h =
      ap (◌∷◌ x) (take-copy_at n off src shard (omega (arith, h)))

  -- A cell in front of what is written stays.
  pub cell-copy_at_before :
      (o off : ℕ) (src shard : List ℕ)
      → o + leaf ≤ off
      → cell o (copy_at off src shard) ≡ cell o shard
  cell-copy_at_before zero off src shard h = take-copy_at leaf off src shard (omega (arith, h))
  cell-copy_at_before (suc o) zero src shard h = absurd (omega (arith, h))
  cell-copy_at_before (suc o) (suc off) src [] h = refl
  cell-copy_at_before (suc o) (suc off) src (x ∷ shard) h =
      cell-copy_at_before o off src shard (omega (arith, h))

  -- The bytes at an offset across the shards.
  abbrev pub row : ℕ → Shards → List ℕ
  row off [] = []
  row off (shard ∷ shards) = cell off shard ++ row off shards

  -- The rows from an offset on.
  abbrev pub stripe : ℕ → ℕ → Shards → List ℕ
  stripe zero off shards = []
  stripe (suc rounds) off shards = row off shards ++ stripe rounds (off + leaf) shards

  abbrev pub row_size : Shards → ℕ
  row_size [] = 0
  row_size (shard ∷ shards) = leaf + row_size shards

  abbrev pub LongEnough : ℕ → Shards → Type 0
  LongEnough n shards = All (λ (shard : List ℕ). n ≤ length shard) shards

  pub length-row :
      (off : ℕ) (shards : Shards)
      → LongEnough (off + leaf) shards
      → length (row off shards) ≡ row_size shards
  length-row off [] l = refl
  length-row off (shard ∷ shards) l = omega (
    arith,
    length-append (cell off shard) (row off shards),
    length-take leaf (drop off shard),
    length-drop off shard,
    l.0,
    length-row off shards l.1,
  )

-- `n` rows of `size` bytes.
abbrev pub times : ℕ → ℕ → ℕ
times zero size = 0
times (suc n) size = size + times n size
