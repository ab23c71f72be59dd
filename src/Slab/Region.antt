-- ===== src/Slab/Region.antt =====
-- The region of the shards that a slice needs, and the slice that is joined out of it.
use sia_optimization_proposa.Prelude.{
  ℕ, ◌+◌, ◌-◌, ◌*◌, ◌/◌, ◌%◌, ◌≤◌, ◌<◌, ◌≡◌, refl, ap, ap₂, Bool, true, false, List, ◌++◌, arith,
  length, take, drop, ◌∙◌, sym, map, ◌==◌, if◌then◌else◌,
}
use native.Mathlib.Nat.{div-add-mod', mul-sub}
use sia_optimization_proposa.Prelude.Words.{
  u32_mod, mul32, add32, sub32, mul32_exact, add32_exact, sub32_exact,
}
use sia_optimization_proposa.Slab.{Shards, joined, striped_join, sector_region}
use sia_optimization_proposa.Slab.Cells.{stripe, row_size, LongEnough, times}
use sia_optimization_proposa.Slab.Join.{striped_join_lem}
use sia_optimization_proposa.Slab.Slices.{
  times_mul, ends, ends_le, ends_cover, starts_le, LongEnough-weaken, row_size_lem, region,
  stripe-region, LongEnough-region, row_size-region,
}
use sia_optimization_proposa.Slab.RoundTrip.{slice_of_chunks, positive}

le_mul : (a b c : ℕ) → a ≤ b → a * c ≤ b * c
le_mul a b c h = grind arith

minus_mul : (a b c : ℕ) → (a - b) * c ≡ a * c - b * c
minus_mul a b c = grind (arith, mul-sub c a b)

module _ (leaf : ℕ) (rounds k : ℕ) (pos_leaf : 0 < leaf) (pos_k : 0 < k) (pos_rounds : 0 < rounds)
    (fits : rounds * (leaf * k) < u32_mod) where
  -- `SectorRegion` from the size of a chunk and the end of the slice on.
  abbrev words : ℕ → ℕ → ℕ → ℕ × ℕ
  words o size end = (
    mul32 (o / size) leaf,
    sub32
        (if end % size == 0 then mul32 (end / size) leaf else add32 (mul32 (end / size) leaf) leaf)
        (mul32 (o / size) leaf),
  )

  -- What the words are without the wrap-around, for a first chunk `q` and `t` bytes up to the end.
  words_exact :
      (q t : ℕ)
      → q * leaf ≤ t
      → t < u32_mod
      → ◌≡◌ {A = ℕ × ℕ} (mul32 q leaf, sub32 t (mul32 q leaf)) (q * leaf, t - q * leaf)
  words_exact q t h b =
      rw (mul32_exact q leaf (omega (arith, h, b)), sub32_exact t (q * leaf) h b) refl

  chunk_small : (e : ℕ) → e ≤ rounds → e * leaf < u32_mod
  chunk_small e h =
      omega (arith, le_mul e rounds leaf h, le_mul 1 k (rounds * leaf) pos_k, fits, regroup)
    where
      regroup : k * (rounds * leaf) ≡ rounds * (leaf * k)
      regroup = grind arith

  pub small : leaf * k < u32_mod
  small = omega (arith, le_mul 1 rounds (leaf * k) pos_rounds, fits)

  module _ (o n : ℕ) (cover : o + n ≤ rounds * (leaf * k)) where
    abbrev first_chunk : ℕ
    first_chunk = o / (leaf * k)

    abbrev last_chunk : ℕ
    last_chunk = ends (leaf * k) o n rounds (positive leaf k pos_leaf pos_k) cover

    last_small : last_chunk * leaf < u32_mod
    last_small =
        chunk_small last_chunk
          (ends_le (leaf * k) o n rounds (positive leaf k pos_leaf pos_k) cover)

    ordered : first_chunk ≤ last_chunk
    ordered = starts_le (leaf * k) o n rounds (positive leaf k pos_leaf pos_k) cover

    abbrev chunks : ℕ
    chunks = last_chunk - first_chunk

    last_words :
        (if (o + n) % (leaf * k) == 0
          then mul32 ((o + n) / (leaf * k)) leaf
          else add32 (mul32 ((o + n) / (leaf * k)) leaf) leaf)
        ≡ last_chunk * leaf
    last_words = go ((o + n) % (leaf * k) == 0) ((o + n) / (leaf * k)) last_small
      where
        go :
            (b : Bool) (q : ℕ)
            → (if b then q else q + 1) * leaf < u32_mod
            → (if b then mul32 q leaf else add32 (mul32 q leaf) leaf)
              ≡ (if b then q else q + 1) * leaf
        go true q h = mul32_exact q leaf h
        go false q h =
            let more : (q + 1) * leaf ≡ q * leaf + leaf = grind arith in
            rw
              (
                mul32_exact q leaf (omega (arith, h, more)),
                add32_exact (q * leaf) leaf (omega (arith, h, more)),
              )
              (sym more)

    -- The chunks of a slice, in bytes of a shard.
    pub sector_region_lem :
        sector_region leaf (record { min_shards = k; offset = o; slice_length = n })
        ≡ (first_chunk * leaf, chunks * leaf)
    unfolding sector_region
    sector_region_lem =
        ap₂ (words o) (mul32_exact leaf k small) (add32_exact o n (omega (arith, cover, fits)))
        ∙ ap (λ t. (mul32 first_chunk leaf, sub32 t (mul32 first_chunk leaf))) last_words
        ∙ words_exact first_chunk (last_chunk * leaf) (le_mul first_chunk last_chunk leaf ordered)
            last_small
        ∙ ap (λ (t : ℕ). (first_chunk * leaf, t)) (sym (minus_mul last_chunk first_chunk leaf))

    first_at : o ≡ times first_chunk (leaf * k) + o % (leaf * k)
    first_at = omega (arith, times_mul first_chunk (leaf * k), div-add-mod' o (leaf * k))

    chunks_cover : o % (leaf * k) + n ≤ times chunks (leaf * k)
    chunks_cover = omega (
      arith,
      times_mul chunks (leaf * k),
      minus_mul last_chunk first_chunk (leaf * k),
      ends_cover (leaf * k) o n rounds (positive leaf k pos_leaf pos_k) cover,
      div-add-mod' o (leaf * k),
    )

    all_chunks : first_chunk + (chunks + (rounds - last_chunk)) ≡ rounds
    all_chunks =
        omega (arith, ordered, ends_le (leaf * k) o n rounds (positive leaf k pos_leaf pos_k) cover)

    chunks_tall : first_chunk * leaf + chunks * leaf ≤ times rounds leaf
    chunks_tall = omega (
      arith,
      times_mul rounds leaf,
      minus_mul last_chunk first_chunk leaf,
      le_mul first_chunk last_chunk leaf ordered,
      le_mul last_chunk rounds leaf
          (ends_le (leaf * k) o n rounds (positive leaf k pos_leaf pos_k) cover),
    )

    abbrev cut : List ℕ → List ℕ
    cut = region leaf (first_chunk * leaf) (chunks * leaf)

    -- Shards that hold the buffer, cut to the region, are joined to the slice.
    pub join_region :
        (shards : Shards) (buf pad : List ℕ)
        → o + n ≤ length buf
        → length shards ≡ k
        → LongEnough leaf (times rounds leaf) shards
        → stripe leaf rounds 0 shards ≡ buf ++ pad
        → striped_join leaf (o % (leaf * k) + n) 0 (map cut shards) (o % (leaf * k)) n
          ≡ joined (take n (drop o buf))
    join_region shards buf pad inside count l holds =
        let skip = o % (leaf * k) in
        let size : row_size leaf shards ≡ leaf * k =
          row_size_lem leaf shards ∙ ap (λ m. leaf * m) count in
        let size_down = row_size-region leaf (first_chunk * leaf) (chunks * leaf) shards ∙ size in
        let tall : LongEnough leaf (0 + times chunks leaf) (map cut shards) =
          LongEnough-weaken leaf (chunks * leaf) _ (map cut shards)
            (LongEnough-region leaf (first_chunk * leaf) (chunks * leaf) shards
              (LongEnough-weaken leaf _ _ shards l chunks_tall))
            (omega (arith, times_mul chunks leaf)) in
        striped_join_lem leaf (skip + n) chunks 0 (map cut shards) skip n
          (rw size_down (positive leaf k pos_leaf pos_k)) (omega arith) (rw size_down chunks_cover)
          tall
        ∙ ap (λ xs. joined (take n (drop skip xs)))
            (stripe-region leaf (first_chunk * leaf) (chunks * leaf) chunks 0 shards
                (omega (arith, times_mul chunks leaf))
              ∙ ap (λ m. stripe leaf chunks m shards) {x = first_chunk * leaf + 0}
                  {y = times first_chunk leaf} (omega (arith, times_mul first_chunk leaf)))
        ∙ ap joined (
            slice_of_chunks leaf pos_leaf first_chunk chunks (rounds - last_chunk) shards buf pad o
              skip n (rw all_chunks l) (rw all_chunks holds) inside (rw size first_at)
              (rw size chunks_cover))
