-- ===== src/Upload/Counts.antt =====
-- The counters of a slab upload count what they say.
use sia_optimization_proposa.Prelude.{
  ℕ, suc, ◌+◌, ◌%◌, ◌≤◌, ◌<◌, ◌≡◌, refl, ap, arith, Bool, true, false, not, ◌&&◌, Option, none,
  some, List, [], ◌∷◌, ◌++◌, if◌then◌else◌, ◌==◌, ltb, length, All, Bool-cases, inl, inr, ==_iff,
}
use sia_optimization_proposa.Prelude.Words.{u64_mod, add64}
use sia_optimization_proposa.Upload.{
  Request, SectorUpload, Candidate, SlabUpload, is_uploaded, answered, launched, launch,
  find_candidate, next_request, next_sector, max_int, overdrive_count,
}

abbrev pub count : {A : Type 0} → (A → Bool) → List A → ℕ
count p [] = 0
count p (x ∷ xs) = (if p x then 1 else 0) + count p xs

-- The answer is to a request that was sent.
pub data Answers (r : Request) : List Request → Type 0 where
  here : {qs : List Request} → Answers r (r ∷ qs)
  there :
      {q : Request} {qs : List Request}
      → (q.pointer == r.pointer) ≡ false
      → Answers r qs
      → Answers r (q ∷ qs)

-- A request has the root of a sector, which is not the zero hash, and an index among `n` sectors.
abbrev pub Sound : ℕ → Request → Type 0
Sound n r = ((r.root == 0) ≡ false) × (r.idx < n)

abbrev pub SoundSector : ℕ → SectorUpload → Type 0
SoundSector n s = ((s.sector_root == 0) ≡ false) × (s.index < n)

pub record IsCounted (s : SlabUpload) : Type 0 where
  pub inflight : s.num_inflight ≡ length s.sent % u64_mod
  pub overdriving : s.num_overdriving ≡ count (λ r. r.overdrive) s.sent % u64_mod
  pub uploaded : s.num_uploaded ≡ count is_uploaded s.sectors
  pub freed : s.released ≡ s.num_uploaded
  pub sectors : s.num_sectors ≡ length s.sectors
  pub small : length s.sectors < u64_mod
  pub sound : All (Sound (length s.sectors)) s.sent
  pub sound_sectors : All (SoundSector (length s.sectors)) s.sectors

count-append :
    {A : Type 0} (p : A → Bool) (xs ys : List A) → count p (xs ++ ys) ≡ count p xs + count p ys
count-append p [] ys = omega arith
count-append p (x ∷ xs) ys = omega (arith, count-append p xs ys)

length-snoc : {A : Type 0} (xs : List A) (x : A) → length (xs ++ x ∷ []) ≡ length xs + 1
length-snoc [] x = omega arith
length-snoc (y ∷ xs) x = omega (arith, length-snoc xs x)

pub All-snoc :
    {A : Type 0} (P : A → Type 0) (xs : List A) (x : A) → All P xs → P x → All P (xs ++ x ∷ [])
All-snoc P [] x h p = (p, tt)
All-snoc P (y ∷ xs) x h p = (h.0, All-snoc P xs x h.1 p)

pub count-le : {A : Type 0} (p : A → Bool) (xs : List A) → count p xs ≤ length xs
count-le p [] = omega arith
count-le p (x ∷ xs) = go (p x) (count-le p xs)
  where
    go : (b : Bool) → count p xs ≤ length xs → (if b then 1 else 0) + count p xs ≤ suc (length xs)
    go true h = omega (arith, h)
    go false h = omega (arith, h)

pub length-answered :
    (r : Request) (qs : List Request) → Answers r qs → length (answered r qs) + 1 ≡ length qs
unfolding answered
length-answered r [] a = elim a [ ]
length-answered r (q ∷ qs) here = rw ((==_iff r.pointer r.pointer).1 refl) (omega arith)
length-answered r (q ∷ qs) (there e a) = rw e (omega (arith, length-answered r qs a))

pub count-answered :
    (r : Request) (qs : List Request)
    → Answers r qs
    → count (λ q. q.overdrive) (answered r qs) + (if r.overdrive then 1 else 0)
      ≡ count (λ q. q.overdrive) qs
unfolding answered
count-answered r [] a = elim a [ ]
count-answered r (q ∷ qs) here = rw ((==_iff r.pointer r.pointer).1 refl) (omega arith)
count-answered r (q ∷ qs) (there e a) = rw e (omega (arith, count-answered r qs a))

pub All-answered :
    (P : Request → Type 0) (r : Request) (qs : List Request) → All P qs → All P (answered r qs)
unfolding answered
All-answered P r [] h = tt
All-answered P r (q ∷ qs) h = elim (Bool-cases (q.pointer == r.pointer)) [
  | inl e ↦ rw e h.1
  | inr e ↦ rw e (h.0, All-answered P r qs h.1)
]

pub Answers-All :
    (P : Request → Type 0) (r : Request) (qs : List Request) → Answers r qs → All P qs → P r
Answers-All P r [] a h = elim a [ ]
Answers-All P r (q ∷ qs) here h = h.0
Answers-All P r (q ∷ qs) (there e a) h = Answers-All P r qs a h.1

-- `launch` keeps the counts.
IsCounted-launched :
    (now : ℕ) (r : Request) (s : SlabUpload)
    → IsCounted s
    → Sound (length s.sectors) r
    → IsCounted (launched now r s)
unfolding launched
IsCounted-launched now r s c g = record {
  inflight = omega (arith, c.inflight, length-snoc s.sent r);
  overdriving = driving r.overdrive refl;
  uploaded = c.uploaded;
  freed = c.freed;
  sectors = c.sectors;
  small = c.small;
  sound = All-snoc (Sound (length s.sectors)) s.sent r c.sound g;
  sound_sectors = c.sound_sectors;
}
  where
    driving :
        (b : Bool)
        → r.overdrive ≡ b
        → (if b then add64 s.num_overdriving 1 else s.num_overdriving)
          ≡ count (λ q. q.overdrive) (s.sent ++ r ∷ []) % u64_mod
    driving true e = omega (
      arith,
      c.overdriving,
      count-append (λ (q : Request). q.overdrive) s.sent (r ∷ []),
      ap {B = ℕ} (λ b. if b then 1 else 0) e,
    )
    driving false e = omega (
      arith,
      c.overdriving,
      count-append (λ (q : Request). q.overdrive) s.sent (r ∷ []),
      ap {B = ℕ} (λ b. if b then 1 else 0) e,
    )

abbrev pub SoundOption : ℕ → Option Request → Type 0
SoundOption n none = Unit
SoundOption n (some r) = Sound n r

pub IsCounted-launch :
    (enqueue : ℕ → Bool) (now : ℕ) (o : Option Request) (s : SlabUpload)
    → IsCounted s
    → SoundOption (length s.sectors) o
    → IsCounted (launch enqueue now o s).0
unfolding launch
IsCounted-launch enqueue now none s c g = c
IsCounted-launch enqueue now (some r) s c g = go (find_candidate s.candidates)
  where
    go :
        (found : Option Candidate)
        → IsCounted
            (elim found as (λ o. SlabUpload × Bool) [
              | none ↦ (s, false)
              | some k ↦ if enqueue k.uploader then (launched now r s, true) else (s, true)
            ]).0
    go none = c
    go (some k) = taken (enqueue k.uploader)
      where
        taken :
            (b : Bool)
            → IsCounted
                (if◌then◌else◌ {A = SlabUpload × Bool} b (launched now r s, true) (s, true)).0
        taken true = IsCounted-launched now r s c g
        taken false = c

pub sectors-launch :
    (enqueue : ℕ → Bool) (now : ℕ) (o : Option Request) (s : SlabUpload)
    → (launch enqueue now o s).0.sectors ≡ s.sectors
unfolding launch launched
sectors-launch enqueue now none s = refl
sectors-launch enqueue now (some r) s = go (find_candidate s.candidates)
  where
    go :
        (found : Option Candidate)
        → (elim found as (λ o. SlabUpload × Bool) [
          | none ↦ (s, false)
          | some k ↦ if enqueue k.uploader then (launched now r s, true) else (s, true)
        ]).0.sectors
          ≡ s.sectors
    go none = refl
    go (some k) = taken (enqueue k.uploader)
      where
        taken :
            (b : Bool)
            → (if◌then◌else◌ {A = SlabUpload × Bool} b (launched now r s, true) (s, true)).0.sectors
              ≡ s.sectors
        taken true = refl
        taken false = refl

-- What is made for an overdrive is sound.
SoundSectorOption : ℕ → Option SectorUpload → Type 0
SoundSectorOption n none = Unit
SoundSectorOption n (some s) = SoundSector n s

next_sector-Sound :
    (n : ℕ) (cs : List Candidate) (i lowest : ℕ) (best : Option SectorUpload)
    (ss : List SectorUpload)
    → SoundSectorOption n best
    → All (SoundSector n) ss
    → SoundSectorOption n (next_sector cs i lowest best ss)
unfolding next_sector SoundSectorOption
next_sector-Sound n cs i lowest best [] b h = b
next_sector-Sound n cs i lowest best (s ∷ rest) b h =
    next_sector-Sound n cs (suc i) _ _ rest
      (go (not (is_uploaded s) && ltb (overdrive_count i cs) lowest)) h.1
  where
    go : (c : Bool) → SoundSectorOption n (if c then some s else best)
    go true = h.0
    go false = b

pub next_request-Sound :
    (pointer : ℕ) (s : SlabUpload)
    → IsCounted s
    → SoundOption (length s.sectors) (next_request pointer s)
unfolding next_request SoundSectorOption
next_request-Sound pointer s c =
    go _ (
      next_sector-Sound (length s.sectors) s.candidates 0 max_int none s.sectors tt c.sound_sectors)
  where
    go :
        (o : Option SectorUpload)
        → SoundSectorOption (length s.sectors) o
        → SoundOption (length s.sectors) (elim o as (λ o. Option Request) [
          | none ↦ none
          | some next ↦ some (record {
            pointer = pointer;
            idx = next.index;
            root = next.sector_root;
            overdrive = true;
          })
        ])
    go none h = tt
    go (some next) h = h
