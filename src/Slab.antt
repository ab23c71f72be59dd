-- ===== src/Slab.antt =====
-- object/slab.go: the striping of a slab over its data shards, and the region of them that a slice
-- needs. `leaf` and `sector` are the sizes of another library; so is the erasure code, a parameter.
-- A writer that fails is left out.
pub mod Cells
pub mod Split
pub mod Join
pub mod Slices
pub mod RoundTrip
pub mod Region
pub mod Recovery
use sia_optimization_proposa.Prelude.{
  ℕ, zero, suc, ◌+◌, ◌-◌, ◌*◌, ◌/◌, ◌%◌, Bool, true, false, ◌&&◌, ◌||◌, not, Option, none, some,
  List, [], ◌∷◌, ◌++◌, if◌then◌else◌, ◌==◌, ltb, leb, length, take, drop, replicate, all,
}
use sia_optimization_proposa.Prelude.Words.{add32, mul32, sub32}

abbrev pub Shards : Type 0
Shards = List (List ℕ)

-- `copy(shard[off:], src)`; no `off` below is past the end of a shard.
abbrev pub copy_at : ℕ → List ℕ → List ℕ → List ℕ
copy_at zero [] shard = shard
copy_at zero (b ∷ src) [] = []
copy_at zero (b ∷ src) (x ∷ shard) = b ∷ copy_at zero src shard
copy_at (suc off) src [] = []
copy_at (suc off) src (x ∷ shard) = x ∷ copy_at off src shard

pub data Joined : Type 0 where
  short_data no_fuel : Joined
  joined : List ℕ → Joined

-- What a piece that is written puts in front of the rest.
abbrev pub prepend : List ℕ → Joined → Joined
prepend piece short_data = short_data
prepend piece no_fuel = no_fuel
prepend piece (joined out) = joined (piece ++ out)

-- What one row writes: `none` is `ErrShortData`; otherwise the bytes, and `skip` and `writeLen`.
abbrev pub Row : Type 0
Row = Option (List ℕ × ℕ × ℕ)

abbrev pub row_prepend : List ℕ → Row → Row
row_prepend piece none = none
row_prepend piece (some (out, skip, n)) = some (piece ++ out, skip, n)

-- The rest of the loop, behind a row.
abbrev pub after_row : Row → (ℕ → ℕ → Joined) → Joined
after_row none next = short_data
after_row (some (out, skip, n)) next = prepend out (next skip n)

module _ (leaf : ℕ) where
  -- The inner loop of `stripedSplit`: the shards, and what is left of the buffer.
  unfoldable pub split_row : ℕ → List ℕ → Shards → Shards × List ℕ
  split_row off buf [] = ([], buf)
  split_row off buf (shard ∷ shards) =
      let (rest, left) = split_row off (drop leaf buf) shards in
      (copy_at off (take leaf buf) shard ∷ rest, left)

  -- `stripedSplit`; `none` means that the fuel ran out.
  unfoldable pub striped_split : ℕ → ℕ → List ℕ → Shards → Option Shards
  striped_split fuel off [] shards = some shards
  striped_split zero off (b ∷ buf) shards = none
  striped_split (suc fuel) off (b ∷ buf) shards =
      let (shards', left) = split_row off (b ∷ buf) shards in
      striped_split fuel (off + leaf) left shards'

  -- The inner loop of `stripedJoin`.
  pub join_row : ℕ → Shards → ℕ → ℕ → Row
  join_row off [] skip n = some ([], skip, n)
  join_row off (shard ∷ shards) skip n =
      let piece = take n (drop skip (take leaf (drop off shard))) in
      let skipped = join_row off shards (skip - leaf) n in
      let written = row_prepend piece (join_row off shards 0 (n - length piece)) in
      if ltb (length (drop off shard)) leaf
      then none
      else if leb leaf skip
      then skipped
      else written

  -- `stripedJoin`
  pub striped_join : ℕ → ℕ → Shards → ℕ → ℕ → Joined
  striped_join fuel off shards skip zero = joined []
  striped_join zero off shards skip (suc n) = no_fuel
  striped_join (suc fuel) off shards skip (suc n) =
      after_row (join_row off shards skip (suc n)) (striped_join fuel (off + leaf) shards)

  pub record SlabSlice : Type 0 where
    pub min_shards : ℕ
    pub offset : ℕ
    pub slice_length : ℕ

  abbrev pub min_chunk_size : SlabSlice → ℕ
  min_chunk_size ss = mul32 leaf ss.min_shards

  -- `SectorRegion`
  unfoldable pub sector_region : SlabSlice → ℕ × ℕ
  sector_region ss =
      let start = mul32 (ss.offset / min_chunk_size ss) leaf in
      let whole = mul32 (add32 ss.offset ss.slice_length / min_chunk_size ss) leaf in
      let end_of =
        if add32 ss.offset ss.slice_length % min_chunk_size ss == 0
        then whole
        else add32 whole leaf in
      (start, sub32 end_of start)

  abbrev pub is_empty : Shards → Bool
  is_empty [] = true
  is_empty (shard ∷ shards) = length shard == 0 && is_empty shards

  -- `Recover`: `unrecoverable` is the error of the erasure code.
  pub data Recovered : Type 0 where
    nothing_written unrecoverable : Recovered
    recovered : Joined → Recovered

  recover_from : SlabSlice → Option Shards → Recovered
  recover_from ss none = unrecoverable
  recover_from ss (some shards) =
      let skip = ss.offset % min_chunk_size ss in
      recovered
        (striped_join (skip + ss.slice_length) 0 (take ss.min_shards shards) skip ss.slice_length)

  pub recover : (ℕ → Shards → Option Shards) → SlabSlice → Shards → Recovered
  unfolding recover_from
  recover reconstruct_data ss shards =
      if is_empty shards
      then nothing_written
      else recover_from ss (reconstruct_data ss.min_shards shards)

  -- `Encode`: fresh shards of a sector each (so long as they are given with no capacity), the data
  -- striped over the first of them, and the parity of the erasure code behind; `none` is a panic.
  encode_parity : (Shards → Option Shards) → ℕ → ℕ → Option Shards → Option Shards
  encode_parity parity sector more none = none
  encode_parity parity sector more (some shards) =
      parity (shards ++ replicate more (replicate sector 0))

  unfoldable pub encode : (ℕ → Shards → Option Shards) → ℕ → ℕ → ℕ → List ℕ → Option Shards
  unfolding encode_parity
  encode parity sector min_shards total_shards buf =
      encode_parity (parity min_shards) sector (total_shards - min_shards)
        (striped_split (length buf) 0 buf (replicate min_shards (replicate sector 0)))
