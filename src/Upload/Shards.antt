-- ===== src/Upload/Shards.antt =====
-- internal/upload/uploadmanager.go: `uploadShards`, as a run over the responses and the timer. The
-- early returns for a canceled context, a shutdown and a bus that refuses the roots are left out.
use sia_optimization_proposa.Prelude.{
  ℕ, ◌-◌, ◌*◌, ◌/◌, Bool, true, false, not, ◌&&◌, Option, none, some, List, [], ◌∷◌, ◌++◌, map,
  if◌then◌else◌, ◌==◌, ltb, keep,
}
use sia_optimization_proposa.Upload.{
  Request, UploadedSector, SectorUpload, SlabUpload, Response, is_uploaded, launch, can_overdrive,
  next_request, receive, has_error,
}

-- The requests of the shards; the identity of each is its index.
abbrev pub requests : List SectorUpload → List Request
requests sectors =
    map
      (λ (s : SectorUpload). record {
        pointer = s.index;
        idx = s.index;
        root = s.sector_root;
        overdrive = false;
      })
      sectors

-- The first launches; `none` is the error of the one that fails.
unfoldable pub launch_all : (ℕ → Bool) → ℕ → List Request → SlabUpload → Option SlabUpload
launch_all enqueue now [] s = some s
launch_all enqueue now (r ∷ rs) s =
    let (s', ok) = launch enqueue now (some r) s in
    let rest = launch_all enqueue now rs s' in if ok then rest else none

-- The loop: the slab, the buffer of requests, and whether the loop was left by `break`.
pub record Loop : Type 0 where
  pub slab : SlabUpload
  pub buffer : List Request
  pub done : Bool

-- What a turn of the loop meets: which uploaders take a request, the time, and the identity of a
-- request that is made.
pub record Turn : Type 0 where
  pub enqueue : ℕ → Bool
  pub now : ℕ
  pub pointer : ℕ

-- A time out of zero has been replaced by the largest duration.
module _ (overdrive_timeout : ℕ) where
  -- A buffered request is launched, or a sector is overdriven.
  unfoldable pub relaunch_or_overdrive : Turn → SlabUpload → List Request → Loop
  relaunch_or_overdrive t s [] =
      let driven = launch t.enqueue t.now (next_request t.pointer s) s in
      if can_overdrive t.now overdrive_timeout s
      then record { slab = driven.0; buffer = []; done = false }
      else record { slab = s; buffer = []; done = false }
  relaunch_or_overdrive t s (r ∷ rs) =
      let (s', ok) = launch t.enqueue t.now (some r) s in
      record { slab = s'; buffer = if ok then rs else r ∷ rs; done = false }

  -- A response that is neither the last one nor used: the request is launched again, unless it was
  -- canceled or an overdrive.
  unfoldable pub after_receive : Turn → Response → Bool → SlabUpload → List Request → Loop
  unfolding relaunch_or_overdrive
  after_receive t resp used s buffer =
      let (s', ok) = launch t.enqueue t.now (some resp.resp_req) s in
      let again = relaunch_or_overdrive t s buffer in
      if has_error resp.err && not resp.is_canceled && not resp.resp_req.overdrive
      then record {
        slab = s';
        buffer = if ok then buffer else buffer ++ resp.resp_req ∷ [];
        done = false;
      }
      else if not (has_error resp.err) && not used
      then again
      else record { slab = s; buffer = buffer; done = false }

  pub data Event : Type 0 where
    response : Response → Event
    timer : Event

  -- The end of the loop: every sector is there, or no request is in flight.
  unfoldable pub is_running : Loop → Bool
  is_running l = not l.done && ltb 0 l.slab.num_inflight

  -- A turn; `none` is the panic of `receive`.
  unfoldable pub turn : Turn → Event → Loop → Option Loop
  unfolding relaunch_or_overdrive after_receive
  turn t timer l = some (relaunch_or_overdrive t l.slab l.buffer)
  turn t (response resp) l = elim (receive resp l.slab) [
    | none ↦ none
    | some (s, used, done) ↦ some (
        if done
        then record { slab = s; buffer = l.buffer; done = true }
        else after_receive t resp used s l.buffer)
  ]

  -- The turns of the loop, until it ends or the list does.
  unfoldable pub turns : List (Turn × Event) → Loop → Option Loop
  unfolding turn is_running
  turns [] l = some l
  turns ((t, e) ∷ rest) l = if is_running l then go (turn t e l) (turns rest) else some l
    where
      go : Option Loop → (Loop → Option Loop) → Option Loop
      go none next = none
      go (some l') next = next l'

-- What the loop leaves: the sectors that are uploaded, and whether that is too few.
unfoldable pub uploaded_sectors : SlabUpload → List UploadedSector × Bool
uploaded_sectors s = (
  map (λ (sector : SectorUpload). sector.uploaded) (keep is_uploaded s.sectors),
  ltb s.num_uploaded s.num_sectors,
)

-- The speed for a sector of `sector_size` bytes and a duration in milliseconds.
unfoldable pub upload_speed : ℕ → ℕ → SlabUpload → ℕ
upload_speed sector_size ms s = s.num_uploaded * sector_size / (if ms == 0 then 1 else ms)

-- How many launches were more than the sectors.
unfoldable pub num_overdrive : SlabUpload → ℕ
num_overdrive s = if ltb s.num_sectors s.num_launched then s.num_launched - s.num_sectors else 0
