-- ===== src/Slab/Slices.antt =====
-- The chunks that `SectorRegion` takes of a slice, and what a region of the shards reads as.
use sia_optimization_proposa.Prelude.{
  ℕ, zero, suc, ◌+◌, ◌*◌, ◌/◌, ◌%◌, ◌≤◌, ◌<◌, ◌≡◌, refl, ap, ap₂, List, [], ◌∷◌, ◌++◌, arith,
  length, take, drop, ◌∙◌, sym, length-take, length-drop, length-append, inl, inr, Bool-cases,
  false, map, ◌==◌, if◌then◌else◌,
}
use native.Mathlib.Nat.{
  div-add-mod', mod-lt, div-le_of_le-mul, lt_of_mul-lt-mul_right, le_of_mul-le-mul_right,
}
use mathlib.Core.List.{append_assoc}
use sia_optimization_proposa.Slab.{Shards}
use sia_optimization_proposa.Slab.Cells.{
  drop-drop, row, stripe, row_size, LongEnough, times, length-row,
}

pub times_mul : (n size : ℕ) → times n size ≡ n * size
times_mul zero size = omega arith
times_mul (suc n) size = omega (arith, times_mul n size)

cancel : (a b c : ℕ) → a * c < b * c → a < b
cancel a b c h = grind arith

-- The first and the last chunk of a slice.
module _ (c o n s : ℕ) (pos_c : 0 < c) (fits : o + n ≤ s * c) where
  abbrev pub ends : ℕ
  ends = if (o + n) % c == 0 then (o + n) / c else (o + n) / c + 1

  pub ends_le : ends ≤ s
  ends_le = elim (Bool-cases ((o + n) % c == 0)) [
    | inl e ↦ rw e (div-le_of_le-mul c (grind arith))
    | inr e ↦ rw e (
        omega (
          arith,
          lt_of_mul-lt-mul_right c {m = (o + n) / c} {n = s}
              (omega (arith, div-add-mod' (o + n) c, positive ((o + n) % c) e, fits)),
        ))
  ]
    where
      positive : (r : ℕ) → (r == 0) ≡ false → 0 < r
      positive r h = ground arith

  pub ends_cover : o + n ≤ ends * c
  ends_cover = elim (Bool-cases ((o + n) % c == 0)) [
    | inl e ↦ rw e (grind (arith, div-add-mod' (o + n) c))
    | inr e ↦ rw e (grind (arith, div-add-mod' (o + n) c, mod-lt (o + n) pos_c))
  ]

  pub starts_le : o / c ≤ ends
  starts_le =
      le_of_mul-le-mul_right {m = o / c} {n = ends} {k = c}
        (omega (arith, div-add-mod' o c, ends_cover)) pos_c

module _ (leaf : ℕ) where
  pub LongEnough-weaken :
      (m n : ℕ) (shards : Shards) → LongEnough leaf m shards → n ≤ m → LongEnough leaf n shards
  LongEnough-weaken m n [] l h = tt
  LongEnough-weaken m n (shard ∷ shards) l h =
      (omega (arith, l.0, h), LongEnough-weaken m n shards l.1 h)

  pub stripe-plus :
      (a b off : ℕ) (shards : Shards)
      → stripe leaf (a + b) off shards
        ≡ stripe leaf a off shards ++ stripe leaf b (off + times a leaf) shards
  stripe-plus zero b off shards = again (omega arith) (omega arith)
    where
      again : {r r' o o' : ℕ} → r ≡ r' → o ≡ o' → stripe leaf r o shards ≡ stripe leaf r' o' shards
      again p q i = stripe leaf (p i) (q i) shards
  stripe-plus (suc a) b off shards =
      ap (λ r. stripe leaf r off shards) {x = suc a + b} {y = suc (a + b)} (omega arith)
      ∙ ap (λ xs. row leaf off shards ++ xs) (stripe-plus a b (off + leaf) shards)
      ∙ ap
          (λ o.
            row leaf off shards ++ (stripe leaf a (off + leaf) shards ++ stripe leaf b o shards))
          {x = off + leaf + times a leaf} {y = off + (leaf + times a leaf)} (omega arith)
      ∙ sym (append_assoc (row leaf off shards) (stripe leaf a (off + leaf) shards) _)

  pub length-stripe :
      (rounds off : ℕ) (shards : Shards)
      → LongEnough leaf (off + times rounds leaf) shards
      → length (stripe leaf rounds off shards) ≡ times rounds (row_size leaf shards)
  length-stripe zero off shards l = refl
  length-stripe (suc rounds) off shards l = omega (
    arith,
    length-append (row leaf off shards) (stripe leaf rounds (off + leaf) shards),
    length-row leaf off shards (LongEnough-weaken _ (off + leaf) shards l (omega arith)),
    length-stripe rounds (off + leaf) shards (LongEnough-weaken _ _ shards l (omega arith)),
  )

  pub row_size_lem : (shards : Shards) → row_size leaf shards ≡ leaf * length shards
  row_size_lem [] = omega arith
  row_size_lem (shard ∷ shards) = omega (arith, row_size_lem shards)

  pub take-take : (a b : ℕ) (xs : List ℕ) → a ≤ b → take a (take b xs) ≡ take a xs
  take-take zero b xs h = refl
  take-take (suc a) zero xs h = absurd (omega (arith, h))
  take-take (suc a) (suc b) [] h = refl
  take-take (suc a) (suc b) (x ∷ xs) h = ap (◌∷◌ x) (take-take a b xs (omega (arith, h)))

  window :
      (i len : ℕ) (xs : List ℕ)
      → i + leaf ≤ len
      → take leaf (drop i (take len xs)) ≡ take leaf (drop i xs)
  window zero len xs h = take-take leaf len xs (omega (arith, h))
  window (suc i) zero xs h = absurd (omega (arith, h))
  window (suc i) (suc len) [] h = refl
  window (suc i) (suc len) (x ∷ xs) h = window i len xs (omega (arith, h))

  -- What is read of a shard: `len` bytes from `start` on.
  abbrev pub region : ℕ → ℕ → List ℕ → List ℕ
  region start len shard = take len (drop start shard)

  row-region :
      (start len i : ℕ) (shards : Shards)
      → i + leaf ≤ len
      → row leaf i (map (region start len) shards) ≡ row leaf (start + i) shards
  row-region start len i [] h = refl
  row-region start len i (shard ∷ shards) h =
      ap₂ ◌++◌ (window i len (drop start shard) h ∙ ap (take leaf) (drop-drop start i shard))
        (row-region start len i shards h)

  pub stripe-region :
      (start len rounds i : ℕ) (shards : Shards)
      → i + times rounds leaf ≤ len
      → stripe leaf rounds i (map (region start len) shards) ≡ stripe leaf rounds (start + i) shards
  stripe-region start len zero i shards h = refl
  stripe-region start len (suc rounds) i shards h =
      ap₂ ◌++◌ (row-region start len i shards (omega (arith, h))) (
        stripe-region start len rounds (i + leaf) shards (omega (arith, h))
        ∙ ap (λ o. stripe leaf rounds o shards) {x = start + (i + leaf)} {y = start + i + leaf}
            (omega arith))

  pub LongEnough-region :
      (start len : ℕ) (shards : Shards)
      → LongEnough leaf (start + len) shards
      → LongEnough leaf len (map (region start len) shards)
  LongEnough-region start len [] l = tt
  LongEnough-region start len (shard ∷ shards) l = (
    omega (arith, l.0, length-take len (drop start shard), length-drop start shard),
    LongEnough-region start len shards l.1,
  )

  pub row_size-region :
      (start len : ℕ) (shards : Shards)
      → row_size leaf (map (region start len) shards) ≡ row_size leaf shards
  row_size-region start len [] = refl
  row_size-region start len (shard ∷ shards) = ap (λ n. leaf + n) (row_size-region start len shards)
