-- ===== src/Slab/Split.antt =====
-- `stripedSplit` lays the data out row by row.
use sia_optimization_proposa.Prelude.{
  ℕ, zero, suc, ◌+◌, ◌-◌, ◌≤◌, ◌<◌, ◌≡◌, refl, ap, ap₂, subst, some, List, [], ◌∷◌, ◌++◌, arith,
  length, take, drop, ◌∙◌, sym, length-take, length-drop, take-append-drop, inl, inr, leb,
  Bool-cases, true,
}
use mathlib.Core.List.{append_assoc, append-nil}
use sia_optimization_proposa.Slab.{Shards, split_row, striped_split}
use sia_optimization_proposa.Slab.Cells.{
  length-copy_at, drop_all, take_all, cell, cell-copy_at_self, cell-copy_at_before, row, stripe,
  row_size, LongEnough, times,
}

module _ (leaf : ℕ) where
  LongEnough-split_row :
      (n off : ℕ) (buf : List ℕ) (shards : Shards)
      → LongEnough leaf n shards
      → LongEnough leaf n (split_row leaf off buf shards).0
  unfolding split_row
  LongEnough-split_row n off buf [] l = tt
  LongEnough-split_row n off buf (shard ∷ shards) l = (
    omega (arith, l.0, length-copy_at off (take leaf buf) shard),
    LongEnough-split_row n off (drop leaf buf) shards l.1,
  )

  row_size-split_row :
      (off : ℕ) (buf : List ℕ) (shards : Shards)
      → row_size leaf (split_row leaf off buf shards).0 ≡ row_size leaf shards
  unfolding split_row
  row_size-split_row off buf [] = refl
  row_size-split_row off buf (shard ∷ shards) =
      ap (λ n. leaf + n) (row_size-split_row off (drop leaf buf) shards)

  left-split_row :
      (off : ℕ) (buf : List ℕ) (shards : Shards)
      → length (split_row leaf off buf shards).1 ≡ length buf - row_size leaf shards
  unfolding split_row
  left-split_row off buf [] = omega arith
  left-split_row off buf (shard ∷ shards) =
      omega (arith, left-split_row off (drop leaf buf) shards, length-drop leaf buf)

  row-split_row_before :
      (o off : ℕ) (buf : List ℕ) (shards : Shards)
      → o + leaf ≤ off
      → row leaf o (split_row leaf off buf shards).0 ≡ row leaf o shards
  unfolding split_row
  row-split_row_before o off buf [] h = refl
  row-split_row_before o off buf (shard ∷ shards) h = rw (
    cell-copy_at_before leaf o off (take leaf buf) shard h,
    row-split_row_before o off (drop leaf buf) shards h,
  )

  -- One cell, next to the rest of the row.
  cell_step :
      (buf q rest pad : List ℕ)
      → length (take leaf buf) + length q ≡ leaf
      → rest ≡ drop leaf buf ++ pad
      → (pad' : List ℕ) × ((take leaf buf ++ q) ++ rest ≡ buf ++ pad')
  cell_step buf q rest pad size e = elim (Bool-cases (leb leaf (length buf))) [
    | inl full ↦ (
      pad,
      rw (empty full, e)
          (ap (λ xs. xs ++ (drop leaf buf ++ pad)) (append-nil (take leaf buf))
            ∙ sym (append_assoc (take leaf buf) (drop leaf buf) pad)
            ∙ ap (λ xs. xs ++ pad) (take-append-drop leaf buf)),
    )
    | inr short ↦ (
      q ++ pad,
      rw (e, drop_all leaf buf (ground arith), take_all leaf buf (ground arith))
          (append_assoc buf q pad),
    )
  ]
    where
      nil : (xs : List ℕ) → length xs ≡ 0 → xs ≡ []
      nil [] h = refl
      nil (x ∷ xs) h = absurd (omega (arith, h))

      empty : leb leaf (length buf) ≡ true → q ≡ []
      empty full = nil q (ground (arith, length-take leaf buf))

  -- A row holds the front of the buffer, and what is left of the buffer follows.
  row-split_row :
      (off : ℕ) (buf : List ℕ) (shards : Shards)
      → LongEnough leaf (off + leaf) shards
      → (pad : List ℕ) × (row leaf off (split_row leaf off buf shards).0
            ++ (split_row leaf off buf shards).1
          ≡ buf ++ pad)
  unfolding split_row
  row-split_row off buf [] l = ([], sym (append-nil buf))
  row-split_row off buf (shard ∷ shards) l =
      let q = drop (length (take leaf buf)) (cell leaf off shard) in
      let (pad, e) = row-split_row off (drop leaf buf) shards l.1 in
      let (pad', e') = cell_step buf q _ pad (sizes q refl) e in
      let more = split_row leaf off (drop leaf buf) shards in
      (
        pad',
        ap (λ (c : List ℕ). c ++ row leaf off more.0 ++ more.1)
              (cell-copy_at_self leaf off (take leaf buf) shard
                (omega (arith, length-take leaf buf)) l.0)
            ∙ append_assoc (take leaf buf ++ q) (row leaf off more.0) more.1
            ∙ e',
      )
    where
      sizes :
          (q : List ℕ)
          → q ≡ drop (length (take leaf buf)) (cell leaf off shard)
          → length (take leaf buf) + length q ≡ leaf
      sizes q e = rw e (
          omega (
            arith,
            length-drop (length (take leaf buf)) (cell leaf off shard),
            length-take leaf (drop off shard),
            length-drop off shard,
            length-take leaf buf,
            l.0,
          ))

  -- What `stripedSplit` leaves: shards as long as before, that hold the buffer row by row from
  -- the offset on, and whose rows in front of it are as they were.
  pub record HasSplit (rounds off : ℕ) (buf : List ℕ) (shards shards' : Shards) : Type 0 where
    pub as_long : (n : ℕ) → LongEnough leaf n shards → LongEnough leaf n shards'
    pub as_many : length shards' ≡ length shards
    pub before : (i : ℕ) → i + leaf ≤ off → row leaf i shards' ≡ row leaf i shards
    pub pad : List ℕ
    pub holds : stripe leaf rounds off shards' ≡ buf ++ pad

  length-split_row :
      (off : ℕ) (buf : List ℕ) (shards : Shards)
      → length (split_row leaf off buf shards).0 ≡ length shards
  unfolding split_row
  length-split_row off buf [] = refl
  length-split_row off buf (shard ∷ shards) = ap suc (length-split_row off (drop leaf buf) shards)

  split_nothing : (rounds off : ℕ) (shards : Shards) → HasSplit rounds off [] shards shards
  split_nothing rounds off shards = record {
    as_long = λ n l. l;
    as_many = refl;
    before = λ i h. refl;
    pad = stripe leaf rounds off shards;
    holds = refl;
  }

  -- A row, and then the rest.
  split_more :
      (rounds off : ℕ) (buf : List ℕ) (shards shards' : Shards)
      → LongEnough leaf (off + leaf) shards
      → HasSplit rounds
          (off + leaf)
          (split_row leaf off buf shards).1
          (split_row leaf off buf shards).0
          shards'
      → HasSplit (suc rounds) off buf shards shards'
  split_more rounds off buf shards shards' l s =
      let r = split_row leaf off buf shards in
      let (pad, e) = row-split_row off buf shards l in
      record {
        as_long = λ n k. s.as_long n (LongEnough-split_row n off buf shards k);
        as_many = s.as_many ∙ length-split_row off buf shards;
        before = λ i h. s.before i (omega (arith, h)) ∙ row-split_row_before i off buf shards h;
        pad = pad ++ s.pad;
        holds =
            ap₂ ◌++◌ (s.before off (omega arith)) s.holds
            ∙ sym (append_assoc (row leaf off r.0) r.1 s.pad)
            ∙ ap (λ (xs : List ℕ). xs ++ s.pad) e
            ∙ append_assoc buf pad s.pad;
      }

  -- On shards that are long enough for the rounds that the buffer takes, `stripedSplit` ends.
  pub striped_split-HasSplit :
      (fuel rounds off : ℕ) (buf : List ℕ) (shards : Shards)
      → 0 < row_size leaf shards
      → length buf ≤ fuel
      → length buf ≤ times rounds (row_size leaf shards)
      → LongEnough leaf (off + times rounds leaf) shards
      → (shards' : Shards) × (striped_split leaf fuel off buf shards ≡ some shards')
        × HasSplit rounds off buf shards shards'
  unfolding striped_split
  striped_split-HasSplit fuel rounds off [] shards p f c l =
      (shards, refl, split_nothing rounds off shards)
  striped_split-HasSplit zero rounds off (b ∷ buf) shards p f c l = absurd (omega (arith, f))
  striped_split-HasSplit (suc fuel) zero off (b ∷ buf) shards p f c l = absurd (omega (arith, c))
  striped_split-HasSplit (suc fuel) (suc rounds) off (b ∷ buf) shards p f c l =
      let r = split_row leaf off (b ∷ buf) shards in
      let size : row_size leaf r.0 ≡ row_size leaf shards =
        row_size-split_row off (b ∷ buf) shards in
      let left : length r.1 ≡ length (b ∷ buf) - row_size leaf shards =
        left-split_row off (b ∷ buf) shards in
      let (shards', e, s) =
        striped_split-HasSplit fuel rounds (off + leaf) r.1 r.0 (omega (arith, size, p))
          (omega (arith, left, f, p)) (rw size (omega (arith, left, c)))
          (LongEnough-split_row (off + leaf + times rounds leaf) off (b ∷ buf) shards
            (subst (λ n. LongEnough leaf n shards) (omega arith) l)) in
      (shards', e, split_more rounds off (b ∷ buf) shards shards' (shorter shards l) s)
    where
      shorter :
          (shards : Shards)
          → LongEnough leaf (off + (leaf + times rounds leaf)) shards
          → LongEnough leaf (off + leaf) shards
      shorter [] l = tt
      shorter (shard ∷ shards) l = (omega (arith, l.0), shorter shards l.1)
