-- ===== src/Upload/Lost.antt =====
-- A stopped uploader in front of the candidates.
use sia_optimization_proposa.Prelude.{
  ℕ, suc, ◌<◌, ◌≡◌, refl, ap, ap₂, ◌∙◌, Bool, true, false, none, some, List, [], ◌∷◌, map, length,
  keep, if◌then◌else◌, if-false, lt→ltb,
}
use sia_optimization_proposa.Upload.{
  Request, UploadedSector, SectorUpload, Candidate, SlabUpload, is_uploaded, launch, find_candidate,
  new_slab_upload, new_sectors,
}
use sia_optimization_proposa.Upload.Shards.{requests, launch_all, is_running, uploaded_sectors}

refused :
    (enqueue : ℕ → Bool) (now : ℕ) (r : Request) (s : SlabUpload) (c : Candidate)
    → find_candidate s.candidates ≡ some c
    → enqueue c.uploader ≡ false
    → launch enqueue now (some r) s ≡ (s, true)
unfolding launch
refused enqueue now r s c e f = rw (launch, e) (if-false (enqueue c.uploader) _ _ f)

all_refused :
    (enqueue : ℕ → Bool) (now : ℕ) (rs : List Request) (s : SlabUpload) (c : Candidate)
    → find_candidate s.candidates ≡ some c
    → enqueue c.uploader ≡ false
    → launch_all enqueue now rs s ≡ some s
unfolding launch_all
all_refused enqueue now [] s c e f = refl
all_refused enqueue now (r ∷ rs) s c e f =
    ap (λ (l : SlabUpload × Bool). if l.1 then launch_all enqueue now rs l.0 else none)
      (refused enqueue now r s c e f)
    ∙ all_refused enqueue now rs s c e f

none_uploaded :
    (i : ℕ) (roots : List ℕ)
    → map (λ (s : SectorUpload). s.uploaded) (keep is_uploaded (new_sectors i roots)) ≡ []
none_uploaded i [] = refl
none_uploaded i (r ∷ rs) = none_uploaded (suc i) rs

-- When there is a shard and the uploader of the first candidate is stopped, every first launch
-- returns without an error and without a request sent, whatever the other candidates would do, the
-- loop has no turn, and `uploadShards` returns no sectors and an error.
pub launch_all-stopped :
    (overdrive_timeout now : ℕ) (enqueue : ℕ → Bool) (roots us : List ℕ) (u max_overdrive : ℕ)
    → 0 < length roots
    → enqueue u ≡ false
    → (let s = new_slab_upload roots (u ∷ us) max_overdrive in
        (launch_all enqueue now (requests s.sectors) s ≡ some s)
        × (is_running overdrive_timeout (record { slab = s; buffer = []; done = false }) ≡ false)
        × (uploaded_sectors s ≡ ([], true)))
unfolding new_slab_upload is_running uploaded_sectors find_candidate
launch_all-stopped overdrive_timeout now enqueue roots us u max_overdrive h f = (
  all_refused enqueue now _ _ (record { uploader = u; req = none }) refl f,
  refl,
  ap₂ (λ (a : List UploadedSector) (b : Bool). (a, b)) (none_uploaded 0 roots)
      (lt→ltb 0 (length roots) h),
)
