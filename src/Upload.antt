-- ===== src/Upload.antt =====
-- internal/upload/uploadmanager.go: the upload of the shards of a slab. A request is a pointer, so
-- it has an identity beside its fields; hashes, host keys and contract ids are numbers, 0 the zero
-- hash. A time is nanoseconds since the zero time.
pub mod Shards
pub mod Counts
pub mod Received
pub mod Uploaded
pub mod Ended
pub mod Lost
use sia_optimization_proposa.Prelude.{
  ℕ, zero, suc, ◌+◌, ◌-◌, Bool, true, false, not, ◌&&◌, Option, none, some, List, [], ◌∷◌, ◌++◌,
  map, if◌then◌else◌, ◌==◌, ltb, leb, length, keep,
}
use sia_optimization_proposa.Prelude.Words.{u64_mod, add64, sub64}

pub record Request : Type 0 where
  pub pointer : ℕ
  pub idx : ℕ
  pub root : ℕ
  pub overdrive : Bool

pub record UploadedSector : Type 0 where
  pub hk : ℕ
  pub fcid : ℕ
  pub uploaded_root : ℕ

pub record SectorUpload : Type 0 where
  pub index : ℕ
  pub sector_root : ℕ
  pub uploaded : UploadedSector

pub record Candidate : Type 0 where
  pub uploader : ℕ
  pub req : Option Request

-- `SectorUploadResp`: the error is a number, with its being `context.Canceled`.
pub record Response : Type 0 where
  pub resp_fcid : ℕ
  pub resp_hk : ℕ
  pub resp_req : Request
  pub err : Option ℕ
  pub is_canceled : Bool

-- `released` counts the calls of `mem.ReleaseSome`; `sent` is what uploaders have been given and
-- not answered yet.
pub record SlabUpload : Type 0 where
  pub max_overdrive : ℕ
  pub last_overdrive : ℕ
  pub sectors : List SectorUpload
  pub candidates : List Candidate
  pub num_launched : ℕ
  pub num_inflight : ℕ
  pub num_overdriving : ℕ
  pub num_uploaded : ℕ
  pub num_sectors : ℕ
  pub released : ℕ
  pub sent : List Request

abbrev pub no_sector : UploadedSector
no_sector = record { hk = 0; fcid = 0; uploaded_root = 0 }

-- `isUploaded`
abbrev pub is_uploaded : SectorUpload → Bool
is_uploaded s = not (s.uploaded.uploaded_root == 0)

-- `newSlabUpload`, for the roots of the shards.
abbrev pub new_sectors : ℕ → List ℕ → List SectorUpload
new_sectors i [] = []
new_sectors i (root ∷ roots) =
    record { index = i; sector_root = root; uploaded = no_sector } ∷ new_sectors (suc i) roots

unfoldable pub new_slab_upload : List ℕ → List ℕ → ℕ → SlabUpload
new_slab_upload roots uploaders max_overdrive = record {
  max_overdrive = max_overdrive;
  last_overdrive = 0;
  sectors = new_sectors 0 roots;
  candidates = map (λ (u : ℕ). record { uploader = u; req = none }) uploaders;
  num_launched = 0;
  num_inflight = 0;
  num_overdriving = 0;
  num_uploaded = 0;
  num_sectors = length roots;
  released = 0;
  sent = [];
}

abbrev pub has : Option Request → Bool
has none = false
has (some r) = true

-- The first candidate without a request.
unfoldable pub find_candidate : List Candidate → Option Candidate
find_candidate [] = none
find_candidate (c ∷ cs) = let rest = find_candidate cs in if has c.req then rest else some c

-- `candidate.req = req`, for that candidate.
unfoldable pub occupy : Request → List Candidate → List Candidate
occupy r [] = []
occupy r (c ∷ cs) =
    let rest = occupy r cs in if has c.req then c ∷ rest else record c { req = some r } ∷ cs

-- `launch` from the enqueued request on.
launched : ℕ → Request → SlabUpload → SlabUpload
launched now r s = record s {
  candidates = occupy r s.candidates;
  last_overdrive = if r.overdrive then now else s.last_overdrive;
  num_overdriving = if r.overdrive then add64 s.num_overdriving 1 else s.num_overdriving;
  num_inflight = add64 s.num_inflight 1;
  num_launched = add64 s.num_launched 1;
  sent = s.sent ++ r ∷ [];
}

-- `launch`, for what `Enqueue` answers for an uploader; `false` is `ErrNoCandidateUploader`.
unfoldable pub launch : (ℕ → Bool) → ℕ → Option Request → SlabUpload → SlabUpload × Bool
unfolding launched
launch enqueue now none s = (s, true)
launch enqueue now (some r) s = elim (find_candidate s.candidates) [
  | none ↦ (s, false)
  | some c ↦ if enqueue c.uploader then (launched now r s, true) else (s, true)
]

-- `canOverdrive`
unfoldable pub can_overdrive : ℕ → ℕ → SlabUpload → Bool
can_overdrive now overdrive_timeout s =
    let remaining = sub64 s.num_sectors s.num_uploaded in
    if ltb s.max_overdrive remaining
    then false
    else if ltb (now - s.last_overdrive) overdrive_timeout
    then false
    else if leb s.max_overdrive (sub64 s.num_inflight remaining)
    then false
    else true

-- `nextRequest`: how many candidates overdrive a sector, and the sector with the fewest of them.
abbrev pub overdrives : Option Request → ℕ → Bool
overdrives none idx = false
overdrives (some r) idx = r.overdrive && (r.idx == idx)

pub overdrive_count : ℕ → List Candidate → ℕ
overdrive_count idx [] = 0
overdrive_count idx (c ∷ cs) = (if overdrives c.req idx then 1 else 0) + overdrive_count idx cs

abbrev pub max_int : ℕ
max_int = 9223372036854775807

pub next_sector :
    List Candidate → ℕ → ℕ → Option SectorUpload → List SectorUpload → Option SectorUpload
unfolding overdrive_count
next_sector cs i lowest best [] = best
next_sector cs i lowest best (s ∷ rest) =
    let count = overdrive_count i cs in
    let better = not (is_uploaded s) && ltb count lowest in
    next_sector cs (suc i) (if better then count else lowest) (if better then some s else best) rest

unfoldable pub next_request : ℕ → SlabUpload → Option Request
unfolding next_sector
next_request pointer s = elim (next_sector s.candidates 0 max_int none s.sectors) [
  | none ↦ none
  | some next ↦
      some
        (record { pointer = pointer; idx = next.index; root = next.sector_root; overdrive = true })
]

abbrev pub same_request : Request → Option Request → Bool
same_request r none = false
same_request r (some q) = q.pointer == r.pointer

-- `candidate.req = nil`, for the first candidate with the request.
unfoldable release_candidate : Request → List Candidate → List Candidate
release_candidate r [] = []
release_candidate r (c ∷ cs) =
    let rest = release_candidate r cs in
    if same_request r c.req then record c { req = none } ∷ cs else c ∷ rest

-- The answer takes the request from what is sent.
pub answered : Request → List Request → List Request
answered r [] = []
answered r (q ∷ qs) = let rest = answered r qs in if q.pointer == r.pointer then qs else q ∷ rest

abbrev pub sector_at : ℕ → List SectorUpload → Option SectorUpload
sector_at n [] = none
sector_at zero (s ∷ rest) = some s
sector_at (suc n) (s ∷ rest) = sector_at n rest

-- `finish`
abbrev pub finish : Response → SectorUpload → SectorUpload
finish resp s = record s {
  uploaded = record {
    hk = resp.resp_hk;
    fcid = resp.resp_fcid;
    uploaded_root = resp.resp_req.root;
  };
}

abbrev pub finish_at : ℕ → Response → List SectorUpload → List SectorUpload
finish_at n resp [] = []
finish_at zero resp (s ∷ rest) = finish resp s ∷ rest
finish_at (suc n) resp (s ∷ rest) = s ∷ finish_at n resp rest

-- `receive` up to the check for a redundant sector.
unfoldable pub take_answer : Response → SlabUpload → SlabUpload
unfolding answered
take_answer resp s = record s {
  num_overdriving =
      if resp.resp_req.overdrive then sub64 s.num_overdriving 1 else s.num_overdriving;
  num_inflight = sub64 s.num_inflight 1;
  sent = answered resp.resp_req s.sent;
}

abbrev pub has_error : Option ℕ → Bool
has_error none = false
has_error (some e) = true

-- `receive` for a sector that is there: the slab, whether the response is used, and whether that is
-- the last of the slab. `ReleaseSome` of a sector is counted in `released`; its panic when less than
-- a sector is left of the memory is not part of the model.
pub receive_sector : Response → SectorUpload → SlabUpload → SlabUpload × Bool × Bool
unfolding take_answer release_candidate
receive_sector resp sector s =
    let s' = take_answer resp s in
    let stored = record s' {
      sectors = finish_at resp.resp_req.idx resp s.sectors;
      num_uploaded = add64 s.num_uploaded 1;
      released = s.released + 1;
    } in
    if is_uploaded sector
    then (record s' { candidates = release_candidate resp.resp_req s.candidates }, false, false)
    else if has_error resp.err
    then (s', false, false)
    else (stored, true, stored.num_uploaded == s.num_sectors)

-- `receive`; `none` is the panic of an index out of range. The set of the errors of hosts is only
-- printed, and left out.
unfoldable pub receive : Response → SlabUpload → Option (SlabUpload × Bool × Bool)
unfolding receive_sector
receive resp s = elim (sector_at resp.resp_req.idx s.sectors) [
  | none ↦ none
  | some sector ↦ some (receive_sector resp sector s)
]
