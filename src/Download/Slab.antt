-- ===== src/Download/Slab.antt =====
-- internal/download/downloadmanager.go: the download of the sectors of a slab. Hosts, hashes and
-- bytes are numbers; the estimates of downloaders are floats of another library.
pub mod Finished
use sia_optimization_proposa.Prelude.{
  ℕ, zero, suc, ◌+◌, ◌-◌, ◌*◌, Bool, true, false, not, ◌&&◌, Option, none, some, List, [], ◌∷◌, map,
  if◌then◌else◌, ltb, leb, ◌==◌, length, keep,
}
use sia_optimization_proposa.Prelude.Words.{add64, sub64}
use sia_optimization_proposa.Prelude.Sorting.{sort_by}

pub record SectorInfo : Type 0 where
  pub root : ℕ
  pub data_bytes : List ℕ
  pub hks : List ℕ
  pub index : ℕ
  pub selected : ℕ

-- `SectorDownloadReq`
pub record Request : Type 0 where
  pub region_offset : ℕ
  pub region_length : ℕ
  pub req_root : ℕ
  pub host : ℕ
  pub overdrive : Bool
  pub sector_index : ℕ

-- `SectorDownloadResp`: the bytes, or an error.
pub record Response : Type 0 where
  pub req : Request
  pub sector : List ℕ
  pub is_error : Bool

-- `errs` is only printed, and left out.
pub record SlabDownload : Type 0 where
  pub min_shards : ℕ
  pub offset : ℕ
  pub size : ℕ
  pub last_overdrive : ℕ
  pub num_completed : ℕ
  pub num_inflight : ℕ
  pub num_launched : ℕ
  pub num_overdriving : ℕ
  pub sectors : List SectorInfo

-- `newSlabDownload`, for the roots and hosts of the sectors and the region of the slice.
abbrev pub new_sectors : ℕ → List (ℕ × List ℕ) → List SectorInfo
new_sectors i [] = []
new_sectors i ((root, hks) ∷ rest) =
    record { root = root; data_bytes = []; hks = hks; index = i; selected = 0 }
    ∷ new_sectors (suc i) rest

pub new_slab_download : ℕ → ℕ × ℕ → List (ℕ × List ℕ) → SlabDownload
new_slab_download min_shards (offset, size) shards = record {
  min_shards = min_shards;
  offset = offset;
  size = size;
  last_overdrive = 0;
  num_completed = 0;
  num_inflight = 0;
  num_launched = 0;
  num_overdriving = 0;
  sectors = new_sectors 0 shards;
}

abbrev pub remove : ℕ → List ℕ → List ℕ
remove h [] = []
remove h (hk ∷ hks) = let rest = remove h hks in if hk == h then hks else hk ∷ rest

abbrev pub contains : ℕ → List ℕ → Bool
contains h [] = false
contains h (hk ∷ hks) = let rest = contains h hks in if hk == h then true else rest

-- `selectHost`
pub select_host : ℕ → SectorInfo → SectorInfo
select_host h s =
    if contains h s.hks then record s { hks = remove h s.hks; selected = s.selected + 1 } else s

abbrev pub is_empty : List ℕ → Bool
is_empty [] = true
is_empty (x ∷ xs) = false

-- What a pointer to a sector changes.
abbrev pub update_at : ℕ → (SectorInfo → SectorInfo) → List SectorInfo → List SectorInfo
update_at n f [] = []
update_at zero f (s ∷ rest) = f s ∷ rest
update_at (suc n) f (s ∷ rest) = s ∷ update_at n f rest

module _ (F : Type 0) (less : F → F → Bool) (max_float : F) (estimate : ℕ → Option F) where
  -- `fastest`, with the estimate; `estimate` is `none` for a host without a downloader.
  unfoldable pub fastest_from : F → Option (ℕ × F) → List ℕ → Option (ℕ × F)
  fastest_from lowest best [] = best
  fastest_from lowest best (h ∷ hs) = elim (estimate h) [
    | none ↦ fastest_from lowest best hs
    | some e ↦
        let better = fastest_from e (some (h, e)) hs in
        let same = fastest_from lowest best hs in if less e lowest then better else same
  ]

  abbrev pub fastest : List ℕ → Option (ℕ × F)
  fastest hosts = fastest_from max_float none hosts

  -- The order of pending sectors.
  unfoldable goes_first : Option (ℕ × F) → Option (ℕ × F) → SectorInfo → SectorInfo → Bool
  goes_first none other a b = false
  goes_first (some x) none a b = true
  goes_first (some (h, e)) (some (h', e')) a b =
      if a.selected == b.selected then less e e' else ltb a.selected b.selected

  -- The walk over the pending sectors.
  pub pick_host :
      SlabDownload → Bool → List SectorInfo → List SectorInfo → Option Request × List SectorInfo
  unfolding select_host
  pick_host s overdrive [] sectors = (none, sectors)
  pick_host s overdrive (next ∷ pending) sectors = elim (fastest next.hks) [
    | none ↦
        pick_host s overdrive pending
          (update_at next.index (λ sector. record sector { hks = [] }) sectors)
    | some (h, e) ↦ (
      some (record {
        region_offset = s.offset;
        region_length = s.size;
        req_root = next.root;
        host = h;
        overdrive = overdrive;
        sector_index = next.index;
      }),
      update_at next.index (select_host h) sectors,
    )
  ]

  abbrev pub is_pending : SectorInfo → Bool
  is_pending sector = is_empty sector.data_bytes && not (is_empty sector.hks)

  -- `nextRequest`
  unfoldable pub next_request : Bool → SlabDownload → Option Request × SlabDownload
  unfolding pick_host goes_first
  next_request overdrive s =
      let pending =
        sort_by (λ a b. goes_first (fastest a.hks) (fastest b.hks) a b)
          (keep is_pending s.sectors) in
      let (r, sectors) = pick_host s overdrive pending s.sectors in
      (r, record s { sectors = sectors })

-- `launch`
unfoldable pub launch : Request → SlabDownload → SlabDownload
launch r s = record s {
  num_inflight = add64 s.num_inflight 1;
  num_overdriving = if r.overdrive then add64 s.num_overdriving 1 else s.num_overdriving;
  num_launched = add64 s.num_launched 1;
}

-- Whether the data of a sector is missing.
abbrev pub lacks : ℕ → List SectorInfo → Bool
lacks n [] = false
lacks zero (sector ∷ rest) = is_empty sector.data_bytes
lacks (suc n) (sector ∷ rest) = lacks n rest

-- The counters behind a response.
unfoldable pub take_answer : Request → SlabDownload → SlabDownload
take_answer r s = record s {
  num_overdriving = if r.overdrive then sub64 s.num_overdriving 1 else s.num_overdriving;
  num_inflight = sub64 s.num_inflight 1;
}

-- The sector is stored.
pub store : Response → SlabDownload → SlabDownload
store resp s = record s {
  sectors =
      update_at resp.req.sector_index (λ sector. record sector { data_bytes = resp.sector })
        s.sectors;
  num_completed = s.num_completed + 1;
}

-- `receive`, and whether that is enough; a sector index out of range panics, and no request has one.
unfoldable pub receive : Response → SlabDownload → SlabDownload × Bool
unfolding take_answer store
receive resp s =
    let s' = take_answer resp.req s in
    let received = if lacks resp.req.sector_index s.sectors then store resp s' else s' in
    if resp.is_error
    then (s', false)
    else (received, leb received.min_shards received.num_completed)

-- The check of `overdrive`, which starts the next time out.
pub can_overdrive : ℕ → ℕ → ℕ → SlabDownload → SlabDownload × Bool
can_overdrive max_overdrive now timeout s =
    if ltb (now - s.last_overdrive) timeout
    then (s, false)
    else if leb (add64 max_overdrive (sub64 s.min_shards s.num_completed)) s.num_inflight
    then (s, false)
    else (record s { last_overdrive = now }, true)

-- `finish`
unfoldable pub finish : SlabDownload → Option (List (List ℕ))
finish s =
    if ltb s.num_completed s.min_shards
    then none
    else some (map (λ (sector : SectorInfo). sector.data_bytes) s.sectors)
