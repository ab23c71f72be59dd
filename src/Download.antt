-- ===== src/Download.antt =====
-- internal/download/downloadmanager.go: the slices of an object that a download reads. A slab is a
-- number.
pub mod Range
pub mod Slab
use sia_optimization_proposa.Prelude.{
  ℕ, ◌+◌, ◌-◌, Bool, true, false, Option, none, some, List, [], ◌∷◌, if◌then◌else◌, ltb, leb,
}
use sia_optimization_proposa.Prelude.Words.{u32_mod, add32, sub32}

-- `slabSlice`, without the data of a partial slab.
pub record Slice : Type 0 where
  pub slab : ℕ
  pub start : ℕ
  pub size : ℕ

-- `cast32`; `none` is the panic.
pub cast32 : ℕ → Option ℕ
cast32 n = if ltb n u32_mod then some n else none

-- The loop for the first slice: the slices from it on, or all of them, and what is left to skip.
pub first_from : ℕ → List Slice → List Slice → List Slice × ℕ
first_from offset all [] = (all, offset)
first_from offset all (ss ∷ rest) =
    let next = first_from (offset - ss.size) all rest in
    if ltb offset ss.size then (ss ∷ rest, offset) else next

-- The first slice is cut in front.
pub cut_first : List Slice × ℕ → Option (List Slice)
unfolding cast32
cut_first ([], offset) = none
cut_first (ss ∷ rest, offset) = elim (cast32 offset) [
  | none ↦ none
  | some n ↦ some (record ss { start = add32 ss.start n; size = sub32 ss.size n } ∷ rest)
]

-- The loop for the last slice: the slices up to it, and what is left of the length.
pub last_to : ℕ → List Slice → List Slice × ℕ
last_to n [] = ([], n)
last_to n (ss ∷ rest) =
    let (taken, left) = last_to (n - ss.size) rest in
    if leb n ss.size then (ss ∷ [], n) else (ss ∷ taken, left)

abbrev pub set_last : ℕ → List Slice → List Slice
set_last n [] = []
set_last n (ss ∷ []) = record ss { size = n } ∷ []
set_last n (ss ∷ s2 ∷ rest) = ss ∷ set_last n (s2 ∷ rest)

-- The last slice is cut behind; there is one, since there is a first one.
pub cut_last : List Slice × ℕ → Option (List Slice)
unfolding cast32
cut_last (slabs, n) = elim (cast32 n) [ none ↦ none | some size ↦ some (set_last size slabs) ]

-- `slabsForDownload`; `none` is a panic.
pub slabs_for_download : List Slice → ℕ → ℕ → Option (List Slice)
unfolding first_from cut_first last_to cut_last
slabs_for_download slabs offset n = elim (cut_first (first_from offset slabs slabs)) [
  | none ↦ none
  | some cut ↦ cut_last (last_to n cut)
]
