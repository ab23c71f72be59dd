-- ===== src/Slab/Join.antt =====
-- `stripedJoin` reads the rows of the shards as one sequence.
use sia_optimization_proposa.Prelude.{
  ℕ, zero, suc, ◌+◌, ◌-◌, ◌≤◌, ◌<◌, ◌≡◌, refl, ap, ap₂, some, List, [], ◌∷◌, ◌++◌, arith, length,
  take, drop, ◌∙◌, sym, length-take, length-drop, length-append, inl, inr, leb, ltb, Bool-cases,
  false, subst,
}
use sia_optimization_proposa.Slab.{
  Shards, joined, Row, row_prepend, prepend, after_row, join_row, striped_join,
}
use sia_optimization_proposa.Slab.Cells.{
  drop_all, cell, row, stripe, row_size, LongEnough, times, length-row,
}

pub drop-append :
    (k : ℕ) (xs ys : List ℕ) → drop k (xs ++ ys) ≡ drop k xs ++ drop (k - length xs) ys
drop-append zero [] ys = refl
drop-append (suc k) [] ys = ap (λ n. drop n ys) {x = suc k} {y = suc k - 0} (omega arith)
drop-append zero (x ∷ xs) ys =
    ap (λ n. (x ∷ xs) ++ drop n ys) {x = 0} {y = 0 - suc (length xs)} (omega arith)
drop-append (suc k) (x ∷ xs) ys =
    drop-append k xs ys
    ∙ ap (λ n. drop k xs ++ drop n ys) {x = k - length xs} {y = suc k - suc (length xs)}
        (omega arith)

pub take-append :
    (n : ℕ) (xs ys : List ℕ) → take n (xs ++ ys) ≡ take n xs ++ take (n - length xs) ys
take-append zero [] ys = refl
take-append (suc n) [] ys = ap (λ k. take k ys) {x = suc n} {y = suc n - 0} (omega arith)
take-append zero (x ∷ xs) ys = ap (λ n. take n ys) {x = 0} {y = 0 - suc (length xs)} (omega arith)
take-append (suc n) (x ∷ xs) ys = ap (◌∷◌ x) (
    take-append n xs ys
    ∙ ap (λ k. take n xs ++ take k ys) {x = n - length xs} {y = suc n - suc (length xs)}
        (omega arith))

-- A slice of two pieces, with what the first one leaves of the skip and the length.
pub slice-append :
    (skip n : ℕ) (xs ys : List ℕ)
    → take n (drop skip (xs ++ ys))
      ≡ take n (drop skip xs) ++ take (n - (length xs - skip)) (drop (skip - length xs) ys)
slice-append skip n xs ys =
    ap (take n) (drop-append skip xs ys)
    ∙ take-append n (drop skip xs) (drop (skip - length xs) ys)
    ∙ ap (λ k. take n (drop skip xs) ++ take (n - k) (drop (skip - length xs) ys))
        (length-drop skip xs)

module _ (leaf : ℕ) where
  -- What a row writes, and what it leaves of the skip and the length.
  abbrev row_slice : List ℕ → ℕ → ℕ → Row
  row_slice bytes skip n =
      some (take n (drop skip bytes), skip - length bytes, n - (length bytes - skip))

  row_eq :
      {a a' : List ℕ} {b b' c c' : ℕ}
      → a ≡ a'
      → b ≡ b'
      → c ≡ c'
      → ◌≡◌ {A = Row} (some (a, b, c)) (some (a', b', c'))
  row_eq p q r i = some (p i, q i, r i)

  nothing : (skip n : ℕ) → take n (drop {A = ℕ} skip []) ≡ []
  nothing zero zero = refl
  nothing zero (suc n) = refl
  nothing (suc skip) zero = refl
  nothing (suc skip) (suc n) = refl

  length-cell :
      (off : ℕ) (shard : List ℕ) → off + leaf ≤ length shard → length (cell leaf off shard) ≡ leaf
  length-cell off shard h = omega (arith, length-take leaf (drop off shard), length-drop off shard)

  join_row_lem :
      (off : ℕ) (shards : Shards) (skip n : ℕ)
      → LongEnough leaf (off + leaf) shards
      → join_row leaf off shards skip n ≡ row_slice (row leaf off shards) skip n
  unfolding join_row
  join_row_lem off [] skip n l = row_eq (sym (nothing skip n)) (omega arith) (omega arith)
  join_row_lem off (shard ∷ shards) skip n l =
      let c = cell leaf off shard in
      let r = row leaf off shards in
      let size : length c ≡ leaf = length-cell off shard l.0 in
      let long : ltb (length (drop off shard)) leaf ≡ false =
        ground (arith, length-drop off shard, l.0) in
      elim (Bool-cases (leb leaf skip)) [
        | inl all ↦
            rw (long, all)
              (join_row_lem off shards (skip - leaf) n l.1
                ∙ row_eq
                    (ap (take n) (
                      sym (
                        drop-append skip c r
                        ∙ ap (λ xs. xs ++ drop (skip - length c) r)
                            (drop_all skip c (ground (arith, size)))
                        ∙ ap (λ k. drop (skip - k) r) size)))
                    (omega (arith, length-append c r, size))
                    (ground (arith, length-append c r, size)))
        | inr some' ↦
            rw (long, some')
              (ap (row_prepend (take n (drop skip c)))
                  (join_row_lem off shards 0 (n - length (take n (drop skip c))) l.1)
                ∙ row_eq
                    (sym (
                      slice-append skip n c r
                      ∙ ap₂ (λ a b. take n (drop skip c) ++ take a (drop b r)) {v = 0}
                          (omega (arith, length-take n (drop skip c), length-drop skip c))
                          (ground (arith, size))))
                    (ground (arith, length-append c r, size))
                    (ground (
                      arith,
                      length-append c r,
                      size,
                      length-take n (drop skip c),
                      length-drop skip c,
                    )))
      ]

  pub striped_join_lem :
      (fuel rounds off : ℕ) (shards : Shards) (skip n : ℕ)
      → 0 < row_size leaf shards
      → skip + n ≤ fuel
      → skip + n ≤ times rounds (row_size leaf shards)
      → LongEnough leaf (off + times rounds leaf) shards
      → striped_join leaf fuel off shards skip n
        ≡ joined (take n (drop skip (stripe leaf rounds off shards)))
  unfolding striped_join
  striped_join_lem fuel rounds off shards skip zero p f c l = refl
  striped_join_lem zero rounds off shards skip (suc n) p f c l = absurd (omega (arith, f))
  striped_join_lem (suc fuel) zero off shards skip (suc n) p f c l = absurd (omega (arith, c))
  striped_join_lem (suc fuel) (suc rounds) off shards skip (suc n) p f c l =
      let r = row leaf off shards in
      let size : length r ≡ row_size leaf shards = length-row leaf off shards (first shards l) in
      ap (λ x. after_row x (striped_join leaf fuel (off + leaf) shards))
        (join_row_lem off shards skip (suc n) (first shards l))
      ∙ ap (prepend (take (suc n) (drop skip r))) (
          striped_join_lem fuel rounds (off + leaf) shards (skip - length r)
            (suc n - (length r - skip)) p (omega (arith, size, f, p)) (omega (arith, size, c))
            (subst (λ k. LongEnough leaf k shards) (omega arith) l))
      ∙ ap joined (sym (slice-append skip (suc n) r (stripe leaf rounds (off + leaf) shards)))
    where
      first :
          (shards : Shards)
          → LongEnough leaf (off + (leaf + times rounds leaf)) shards
          → LongEnough leaf (off + leaf) shards
      first [] l = tt
      first (shard ∷ shards) l = (omega (arith, l.0), first shards l.1)
