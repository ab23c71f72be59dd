-- ===== src/Slab/RoundTrip.antt =====
-- What `Encode` stripes over the shards, `Recover` reads back out of the region of a slice.
use sia_optimization_proposa.Prelude.{
  ℕ, zero, suc, ◌+◌, ◌-◌, ◌*◌, ◌≤◌, ◌<◌, ◌≡◌, ap, ap₂, some, List, ◌++◌, arith, length, take, drop,
  ◌∙◌, sym,
}
use mathlib.Core.List.{append-nil}
use sia_optimization_proposa.Slab.{Shards, joined, striped_split, striped_join}
use sia_optimization_proposa.Slab.Cells.{drop_all, stripe, row_size, LongEnough, times}
use sia_optimization_proposa.Slab.Split.{striped_split-HasSplit}
use sia_optimization_proposa.Slab.Join.{striped_join_lem, slice-append, drop-append}
use sia_optimization_proposa.Slab.Slices.{
  times_mul, LongEnough-weaken, stripe-plus, length-stripe, row_size_lem,
}

-- A slice that ends in the first of two pieces.
slice_first :
    (skip n : ℕ) (xs ys : List ℕ)
    → skip + n ≤ length xs
    → take n (drop skip (xs ++ ys)) ≡ take n (drop skip xs)
slice_first skip n xs ys h =
    slice-append skip n xs ys
    ∙ ap (λ k. take n (drop skip xs) ++ take k (drop (skip - length xs) ys))
        {x = n - (length xs - skip)} {y = 0} (omega (arith, h))
    ∙ append-nil (take n (drop skip xs))

-- A slice behind the first of two pieces.
slice_second :
    (o k n : ℕ) (xs ys : List ℕ)
    → o ≡ length xs + k
    → take n (drop o (xs ++ ys)) ≡ take n (drop k ys)
slice_second o k n xs ys h = ap (take n) (
    drop-append o xs ys
    ∙ ap₂ (λ a b. a ++ drop b ys) (drop_all o xs (omega (arith, h))) (omega (arith, h)))

times_plus : (a b size : ℕ) → times (a + b) size ≡ times a size + times b size
times_plus a b size = rw (times_mul (a + b) size, times_mul a size, times_mul b size) (grind arith)

pub positive : (a b : ℕ) → 0 < a → 0 < b → 0 < a * b
positive (suc a) (suc b) p q = grind arith
positive zero b p q = absurd (omega (arith, p))
positive a zero p q = absurd (omega (arith, q))

module _ (leaf : ℕ) (pos_leaf : 0 < leaf) where
  -- The buffer is in the stripe; the chunks `q` up to `e` of it hold the slice.
  pub slice_of_chunks :
      (q e rest : ℕ) (shards : Shards) (buf pad : List ℕ) (o skip n : ℕ)
      → LongEnough leaf (times (q + (e + rest)) leaf) shards
      → stripe leaf (q + (e + rest)) 0 shards ≡ buf ++ pad
      → o + n ≤ length buf
      → o ≡ times q (row_size leaf shards) + skip
      → skip + n ≤ times e (row_size leaf shards)
      → take n (drop skip (stripe leaf e (times q leaf) shards)) ≡ take n (drop o buf)
  slice_of_chunks q e rest shards buf pad o skip n l holds inside at cover =
      let all = times_plus q (e + rest) leaf in
      let some' = times_plus e rest leaf in
      sym (
        sym (slice_first o n buf pad inside)
        ∙ ap (λ xs. take n (drop o xs)) (sym holds ∙ stripe-plus leaf q (e + rest) 0 shards)
        ∙ slice_second o skip n _ _ (
            at
            ∙ ap (λ k. k + skip)
                (sym (
                  length-stripe leaf q 0 shards
                    (LongEnough-weaken leaf _ _ shards l (omega (arith, all))))))
        ∙ ap (λ xs. take n (drop skip xs))
            (ap (λ k. stripe leaf (e + rest) k shards) {x = 0 + times q leaf} {y = times q leaf}
                (omega arith)
              ∙ stripe-plus leaf e rest (times q leaf) shards)
        ∙ slice_first skip n _ _ (
            omega (
              arith,
              cover,
              length-stripe leaf e (times q leaf) shards
                  (LongEnough-weaken leaf _ _ shards l (omega (arith, all, some'))),
            )))

  -- On one or more shards that are long enough for the data, in `rounds` rows of leaves, and with
  -- fuel for the data, `stripedSplit` ends, and `stripedJoin` ends on its shards and writes, for any
  -- slice of the data, exactly that slice.
  striped_join-striped_split :
      (fuel rounds : ℕ) (buf : List ℕ) (shards : Shards)
      → 0 < length shards
      → length buf ≤ rounds * (leaf * length shards)
      → LongEnough leaf (rounds * leaf) shards
      → length buf ≤ fuel
      → (skip n : ℕ) → skip + n ≤ length buf
      → (shards' : Shards) × (striped_split leaf fuel 0 buf shards ≡ some shards')
        × (striped_join leaf fuel 0 shards' skip n ≡ joined (take n (drop skip buf)))
  striped_join-striped_split fuel rounds buf shards k c l f skip n h =
      let size = times_mul rounds (row_size leaf shards) in
      let room : length buf ≤ times rounds (row_size leaf shards) =
        rw (size, row_size_lem leaf shards) c in
      let pos : 0 < row_size leaf shards =
        rw (row_size_lem leaf shards) (positive leaf (length shards) pos_leaf k) in
      let tall : LongEnough leaf (0 + times rounds leaf) shards =
        LongEnough-weaken leaf _ _ shards l (omega (arith, times_mul rounds leaf)) in
      let (shards', e, s) = striped_split-HasSplit leaf fuel rounds 0 buf shards pos f room tall in
      let same : row_size leaf shards' ≡ row_size leaf shards =
        row_size_lem leaf shards' ∙ ap (λ n. leaf * n) s.as_many ∙ sym (row_size_lem leaf shards) in
      (
        shards',
        e,
        striped_join_lem leaf fuel rounds 0 shards' skip n (rw same pos) (omega (arith, h, f))
              (rw same (omega (arith, h, room))) (s.as_long _ tall)
            ∙ ap joined (ap (λ xs. take n (drop skip xs)) s.holds ∙ slice_first skip n buf s.pad h),
      )
