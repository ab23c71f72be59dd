-- ===== src/Slab/Recovery.antt =====
-- What `Encode` makes of a buffer, `Recover` gives back by the region of a slice.
use sia_optimization_proposa.Prelude.{
  ℕ, zero, suc, ◌+◌, ◌-◌, ◌*◌, ◌%◌, ◌≤◌, ◌<◌, ◌≡◌, refl, ap, ap₂, false, Option, some, List, [],
  ◌∷◌, ◌++◌, arith, length, take, drop, ◌∙◌, sym, map, replicate, length-replicate,
}
use sia_optimization_proposa.Prelude.Words.{u32_mod, mul32_exact}
use sia_optimization_proposa.Slab.{
  Shards, joined, striped_join, sector_region, recovered, recover, is_empty, recover_from, encode,
  encode_parity,
}
use sia_optimization_proposa.Slab.Cells.{stripe, row_size, LongEnough, times}
use sia_optimization_proposa.Slab.Split.{striped_split-HasSplit}
use sia_optimization_proposa.Slab.Slices.{times_mul, LongEnough-weaken, row_size_lem, region}
use sia_optimization_proposa.Slab.RoundTrip.{positive}
use sia_optimization_proposa.Slab.Region.{small, sector_region_lem, join_region}

module _ (sector k : ℕ) where
  LongEnough-replicate :
      (leaf n i : ℕ) → n ≤ sector → LongEnough leaf n (replicate i (replicate sector 0))
  LongEnough-replicate leaf n zero h = tt
  LongEnough-replicate leaf n (suc i) h =
      (omega (arith, h, length-replicate {A = ℕ} sector 0), LongEnough-replicate leaf n i h)

take_front : {A : Type 0} → (k : ℕ) (xs ys : List A) → length xs ≡ k → take k (xs ++ ys) ≡ xs
take_front zero [] ys h = refl
take_front (suc k) (x ∷ xs) ys h = ap (◌∷◌ x) (take_front k xs ys (omega (arith, h)))
take_front (suc k) [] ys h = absurd (omega (arith, h))
take_front zero (x ∷ xs) ys h = absurd (omega (arith, h))

module _ (leaf : ℕ) (rounds k : ℕ) (pos_leaf : 0 < leaf) (pos_k : 0 < k) (pos_rounds : 0 < rounds)
    (fits : rounds * (leaf * k) < u32_mod) where
  -- The first shards of an encoded buffer hold it, if the erasure code leaves them as they are.
  record Encoded (buf : List ℕ) (encoded : Shards) : Type 0 where
    shards : Shards
    pad : List ℕ
    first_shards : take k encoded ≡ shards
    as_many : length shards ≡ k
    tall : LongEnough leaf (times rounds leaf) shards
    holds : stripe leaf rounds 0 shards ≡ buf ++ pad

  encode-Encoded :
      (parity : ℕ → Shards → Option Shards) (total : ℕ) (buf : List ℕ) (encoded : Shards)
      → length buf ≤ rounds * (leaf * k)
      → ((shards out : Shards) → parity k shards ≡ some out → take k out ≡ take k shards)
      → encode leaf parity (rounds * leaf) k total buf ≡ some encoded
      → Encoded buf encoded
  unfolding encode encode_parity
  encode-Encoded parity total buf encoded c keeps e =
      let fresh = replicate k (replicate (rounds * leaf) 0) in
      let count : length fresh ≡ k = length-replicate k (replicate {A = ℕ} (rounds * leaf) 0) in
      let size : row_size leaf fresh ≡ leaf * k =
        row_size_lem leaf fresh ∙ ap (λ m. leaf * m) count in
      let tall : LongEnough leaf (0 + times rounds leaf) fresh =
        LongEnough-replicate (rounds * leaf) k leaf _ k (omega (arith, times_mul rounds leaf)) in
      let (shards', e', s) =
        striped_split-HasSplit leaf (length buf) rounds 0 buf fresh
          (rw size (positive leaf k pos_leaf pos_k)) (omega arith)
          (rw (size, times_mul rounds (leaf * k)) c) tall in
      let more = replicate (total - k) (replicate (rounds * leaf) 0) in
      record {
        shards = shards';
        pad = s.pad;
        first_shards =
            keeps (shards' ++ more) encoded
              (sym (ap (encode_parity leaf (parity k) (rounds * leaf) (total - k)) e') ∙ e)
            ∙ take_front k shards' more (s.as_many ∙ count);
        as_many = s.as_many ∙ count;
        tall = LongEnough-weaken leaf _ _ shards' (s.as_long _ tall) (omega arith);
        holds = s.holds;
      }

  -- Let shards be a positive number of leaves long, with fewer than 2 ^ 32 bytes of data in them, and
  -- the erasure code leave data shards as they are. When `Encode` made shards of a buffer that fits,
  -- and the erasure code restores from an incomplete set, not all of it empty, what `SectorRegion`
  -- takes of the data shards, then `Recover` writes exactly the bytes of the slice of the buffer.
  pub recover-encode :
      (parity reconstruct_data : ℕ → Shards → Option Shards) (total o n : ℕ) (buf : List ℕ)
      (encoded incomplete restored : Shards)
      → length buf ≤ rounds * (leaf * k)
      → o + n ≤ length buf
      → ((shards out : Shards) → parity k shards ≡ some out → take k out ≡ take k shards)
      → encode leaf parity (rounds * leaf) k total buf ≡ some encoded
      → is_empty leaf incomplete ≡ false
      → reconstruct_data k incomplete ≡ some restored
      → take k restored
        ≡ map
            (region leaf
              (sector_region leaf (record { min_shards = k; offset = o; slice_length = n })).0
              (sector_region leaf (record { min_shards = k; offset = o; slice_length = n })).1)
            (take k encoded)
      → recover leaf reconstruct_data
          (record { min_shards = k; offset = o; slice_length = n })
          incomplete
        ≡ recovered (joined (take n (drop o buf)))
  unfolding recover recover_from
  recover-encode parity reconstruct_data total o n buf encoded incomplete restored c inside keeps e
        full r again =
      let enc = encode-Encoded parity total buf encoded c keeps e in
      let cover : o + n ≤ rounds * (leaf * k) = omega (arith, inside, c) in
      rw (full, r)
        (ap₂ (λ shards size. recovered (striped_join leaf (o % size + n) 0 shards (o % size) n))
            (again
              ∙ ap₂ (λ (at : ℕ × ℕ) shards. map (region leaf at.0 at.1) shards)
                  (sector_region_lem leaf rounds k pos_leaf pos_k pos_rounds fits o n cover)
                  enc.first_shards)
            (mul32_exact leaf k (small leaf rounds k pos_leaf pos_k pos_rounds fits))
          ∙ ap recovered (
              join_region leaf rounds k pos_leaf pos_k pos_rounds fits o n cover enc.shards buf
                enc.pad inside enc.as_many enc.tall enc.holds))
