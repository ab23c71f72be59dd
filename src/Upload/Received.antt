-- ===== src/Upload/Received.antt =====
-- A response keeps the counters of a slab upload.
use sia_optimization_proposa.Prelude.{
  ℕ, zero, suc, ◌+◌, ◌%◌, ◌<◌, ◌≡◌, refl, ap, sym, ◌∙◌, subst, arith, Bool, true, false, Option,
  none, some, List, [], ◌∷◌, if◌then◌else◌, ◌==◌, length, All, ==_iff,
}
use sia_optimization_proposa.Prelude.Words.{u64_mod, add64, sub64}
use sia_optimization_proposa.Upload.{
  SectorUpload, Candidate, Response, SlabUpload, is_uploaded, finish_at, sector_at, answered,
  take_answer, receive_sector, receive, has_error,
}
use sia_optimization_proposa.Upload.Counts.{
  count, Answers, Sound, SoundSector, IsCounted, length-answered, count-answered, All-answered,
  Answers-All, count-le,
}

IsCounted-take_answer :
    (resp : Response) (s : SlabUpload)
    → IsCounted s
    → Answers resp.resp_req s.sent
    → IsCounted (take_answer resp s)
unfolding take_answer
IsCounted-take_answer resp s c a = record {
  inflight = omega (arith, c.inflight, length-answered resp.resp_req s.sent a);
  overdriving = driving resp.resp_req.overdrive refl;
  uploaded = c.uploaded;
  freed = c.freed;
  sectors = c.sectors;
  small = c.small;
  sound = All-answered (Sound (length s.sectors)) resp.resp_req s.sent c.sound;
  sound_sectors = c.sound_sectors;
}
  where
    driving :
        (b : Bool)
        → resp.resp_req.overdrive ≡ b
        → (if b then sub64 s.num_overdriving 1 else s.num_overdriving)
          ≡ count (λ q. q.overdrive) (answered resp.resp_req s.sent) % u64_mod
    driving true e = omega (
      arith,
      c.overdriving,
      count-answered resp.resp_req s.sent a,
      ap {B = ℕ} (λ b. if b then 1 else 0) e,
    )
    driving false e = omega (
      arith,
      c.overdriving,
      count-answered resp.resp_req s.sent a,
      ap {B = ℕ} (λ b. if b then 1 else 0) e,
    )

length-finish_at :
    (n : ℕ) (resp : Response) (ss : List SectorUpload) → length (finish_at n resp ss) ≡ length ss
length-finish_at zero resp [] = refl
length-finish_at (suc n) resp [] = refl
length-finish_at zero resp (s ∷ rest) = refl
length-finish_at (suc n) resp (s ∷ rest) = ap suc (length-finish_at n resp rest)

SoundSector-finish_at :
    (m n : ℕ) (resp : Response) (ss : List SectorUpload)
    → All (SoundSector m) ss
    → All (SoundSector m) (finish_at n resp ss)
SoundSector-finish_at m zero resp [] h = tt
SoundSector-finish_at m (suc n) resp [] h = tt
SoundSector-finish_at m zero resp (s ∷ rest) h = h
SoundSector-finish_at m (suc n) resp (s ∷ rest) h = (h.0, SoundSector-finish_at m n resp rest h.1)

abbrev uploaded_at : Option SectorUpload → Bool
uploaded_at none = true
uploaded_at (some s) = is_uploaded s

count-finish_at :
    (n : ℕ) (resp : Response) (ss : List SectorUpload)
    → uploaded_at (sector_at n ss) ≡ false
    → (resp.resp_req.root == 0) ≡ false
    → count is_uploaded (finish_at n resp ss) ≡ count is_uploaded ss + 1
count-finish_at n resp [] new root = absurd (differ new)
  where
    differ : true ≡ false → ⊥
    differ e = subst (λ b. elim b [ true ↦ Unit | false ↦ ⊥ ]) e tt
count-finish_at zero resp (s ∷ rest) new root = rw (new, root) (omega arith)
count-finish_at (suc n) resp (s ∷ rest) new root =
    omega (arith, count-finish_at n resp rest new root)

sector_at-found :
    (n : ℕ) (ss : List SectorUpload)
    → n < length ss
    → (s : SectorUpload) × (sector_at n ss ≡ some s)
sector_at-found n [] h = absurd (omega (arith, h))
sector_at-found zero (s ∷ rest) h = (s, refl)
sector_at-found (suc n) (s ∷ rest) h = sector_at-found n rest (omega (arith, h))

-- What a response leaves.
pub record Received (s : SlabUpload) (r : SlabUpload × Bool × Bool) : Type 0 where
  pub counted : IsCounted r.0
  pub as_many : length r.0.sectors ≡ length s.sectors
  pub last : r.2 ≡ true → r.0.num_uploaded ≡ r.0.num_sectors

pub pick :
    {A : Type 0} (P : A → Type 0) (b c : Bool) (x y z : A)
    → P x
    → P y
    → (b ≡ false → P z)
    → P (if b then x else if c then y else z)
pick P true c x y z p q r = p
pick P false true x y z p q r = q
pick P false false x y z p q r = r refl

IsCounted-candidates :
    (cs : List Candidate) (s : SlabUpload) → IsCounted s → IsCounted (record s { candidates = cs })
IsCounted-candidates cs s c = record {
  inflight = c.inflight;
  overdriving = c.overdriving;
  uploaded = c.uploaded;
  freed = c.freed;
  sectors = c.sectors;
  small = c.small;
  sound = c.sound;
  sound_sectors = c.sound_sectors;
}

-- A response that is stored.
abbrev stored : Response → SlabUpload → SlabUpload
stored resp s = record (take_answer resp s) {
  sectors = finish_at resp.resp_req.idx resp s.sectors;
  num_uploaded = add64 s.num_uploaded 1;
  released = s.released + 1;
}

IsCounted-stored :
    (resp : Response) (s : SlabUpload)
    → IsCounted s
    → Answers resp.resp_req s.sent
    → uploaded_at (sector_at resp.resp_req.idx s.sectors) ≡ false
    → IsCounted (stored resp s)
unfolding take_answer
IsCounted-stored resp s c a new =
    let t = IsCounted-take_answer resp s c a in
    let as_many = length-finish_at resp.resp_req.idx resp s.sectors in
    let more =
      count-finish_at resp.resp_req.idx resp s.sectors new
        (Answers-All (Sound (length s.sectors)) resp.resp_req s.sent a c.sound).0 in
    let room = count-le is_uploaded (finish_at resp.resp_req.idx resp s.sectors) in
    record {
      inflight = t.inflight;
      overdriving = t.overdriving;
      uploaded = omega (arith, c.uploaded, c.small, as_many, more, room);
      freed = omega (arith, c.uploaded, c.freed, c.small, as_many, more, room);
      sectors = c.sectors ∙ sym as_many;
      small = omega (arith, as_many, c.small);
      sound = subst (λ n. All (Sound n) (answered resp.resp_req s.sent)) (sym as_many) t.sound;
      sound_sectors =
          SoundSector-finish_at _ resp.resp_req.idx resp s.sectors
            (subst (λ n. All (SoundSector n) s.sectors) (sym as_many) c.sound_sectors);
    }

Received-receive_sector :
    (resp : Response) (sector : SectorUpload) (s : SlabUpload)
    → IsCounted s
    → Answers resp.resp_req s.sent
    → sector_at resp.resp_req.idx s.sectors ≡ some sector
    → Received s (receive_sector resp sector s)
unfolding receive_sector take_answer
Received-receive_sector resp sector s c a at =
    pick (Received s) (is_uploaded sector) (has_error resp.err) _ _ _
      (record {
        counted = IsCounted-candidates _ _ (IsCounted-take_answer resp s c a);
        as_many = refl;
        last = λ e. absurd (differ e);
      })
      (record {
        counted = IsCounted-take_answer resp s c a;
        as_many = refl;
        last = λ e. absurd (differ e);
      })
      (λ new. record {
        counted = IsCounted-stored resp s c a (ap uploaded_at at ∙ new);
        as_many = length-finish_at resp.resp_req.idx resp s.sectors;
        last = λ e. (==_iff _ _).0 e;
      })
  where
    differ : false ≡ true → ⊥
    differ e = subst (λ b. elim b [ false ↦ Unit | true ↦ ⊥ ]) e tt

-- A response to what was sent is received.
pub receive-Received :
    (resp : Response) (s : SlabUpload)
    → IsCounted s
    → Answers resp.resp_req s.sent
    → (r : SlabUpload × Bool × Bool) × (receive resp s ≡ some r) × Received s r
unfolding receive
receive-Received resp s c a =
    let (sector, e) =
      sector_at-found resp.resp_req.idx s.sectors
        (Answers-All (Sound (length s.sectors)) resp.resp_req s.sent a c.sound).1 in
    (
      receive_sector resp sector s,
      rw (receive, e) refl,
      Received-receive_sector resp sector s c a e,
    )
