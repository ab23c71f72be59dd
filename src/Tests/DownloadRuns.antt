-- ===== src/Tests/DownloadRuns.antt =====
-- Runs of downloads.
use sia_optimization_proposa.Prelude.{
  ℕ, ◌≡◌, refl, false, Option, none, some, List, [], ◌∷◌, if◌then◌else◌, ◌==◌, arith, ltb, length,
  inr,
}
use sia_optimization_proposa.Download.{Slice, slabs_for_download}
use sia_optimization_proposa.Download.Slab.{Request, new_slab_download, finish}
use sia_optimization_proposa.Download.Slab.Finished.{
  Step, asks, launches, receives, steps, shards_of, present, steps-finish,
}
use sia_optimization_proposa.Download.Range.{read, slabs_for_download-read}

-- Two slabs, of which an object has the middle of one and the start of the other.
abbrev slab_bytes : ℕ → List ℕ
slab_bytes n = if n == 1 then 10 ∷ 11 ∷ 12 ∷ 13 ∷ 14 ∷ 15 ∷ [] else 20 ∷ 21 ∷ 22 ∷ 23 ∷ []

abbrev two_slices : List Slice
two_slices =
    record { slab = 1; start = 1; size = 4 } ∷ record { slab = 2; start = 0; size = 3 } ∷ []

slabs_for_download-read_example :
    (cut : List Slice) × (slabs_for_download two_slices 2 3 ≡ some cut)
    × (read slab_bytes cut ≡ 13 ∷ 14 ∷ 20 ∷ [])
slabs_for_download-read_example =
    slabs_for_download-read slab_bytes two_slices 2 3
      ((omega arith, omega arith), ((omega arith, omega arith), tt)) (omega arith) (omega arith)

abbrev estimates : ℕ → Option ℕ
estimates hk = some hk

-- Two sectors, of which one is needed; the faster host is asked, and answers.
abbrev one_of_two : List (ℕ × List ℕ)
one_of_two = (100, 5 ∷ 6 ∷ []) ∷ (200, 4 ∷ []) ∷ []

abbrev asked : Request
asked = record {
  region_offset = 0;
  region_length = 2;
  req_root = 200;
  host = 4;
  overdrive = false;
  sector_index = 1;
}

abbrev answered_steps : List (Step ℕ ltb 1000 estimates)
answered_steps =
    asks false
    ∷ launches asked
    ∷ receives (record { req = asked; sector = 8 ∷ 9 ∷ []; is_error = false })
    ∷ []

steps-finish_example :
    (let found =
        shards_of
          (steps ℕ ltb 1000 estimates answered_steps
            (new_slab_download 1 (0, 2) one_of_two)).sectors in
      (finish (steps ℕ ltb 1000 estimates answered_steps (new_slab_download 1 (0, 2) one_of_two))
        ≡ (if ltb (present found) 1 then none else some found))
      × (length found ≡ 2))
steps-finish_example =
    steps-finish ℕ ltb 1000 estimates 1 (0, 2) one_of_two answered_steps (tt, (tt, (inr refl, tt)))
