-- ===== src/Upload/Ended.antt =====
-- What `uploadShards` ends with.
use sia_optimization_proposa.Prelude.{
  ℕ, suc, ◌+◌, ◌≤◌, ◌<◌, ◌≡◌, ◌⊎◌, ◌↔◌, refl, ap, sym, ◌∙◌, subst, arith, Bool, true, false, Option,
  none, some, List, [], ◌∷◌, map, if◌then◌else◌, ◌==◌, ltb, length, keep, All, Bool-cases, inl, inr,
}
use sia_optimization_proposa.Prelude.Words.{u64_mod}
use sia_optimization_proposa.Upload.{
  Request, SectorUpload, SlabUpload, is_uploaded, launch, new_slab_upload, new_sectors,
}
use sia_optimization_proposa.Upload.Shards.{Loop, uploaded_sectors, requests, launch_all}
use sia_optimization_proposa.Upload.Counts.{
  count, Sound, SoundSector, IsCounted, IsCounted-launch, sectors-launch, count-le,
}
use sia_optimization_proposa.Upload.Uploaded.{IsLoop, Runs, Runs-IsLoop}

length-new_sectors : (i : ℕ) (roots : List ℕ) → length (new_sectors i roots) ≡ length roots
length-new_sectors i [] = refl
length-new_sectors i (r ∷ rs) = ap suc (length-new_sectors (suc i) rs)

count-new_sectors : (i : ℕ) (roots : List ℕ) → count is_uploaded (new_sectors i roots) ≡ 0
count-new_sectors i [] = refl
count-new_sectors i (r ∷ rs) = omega (arith, count-new_sectors (suc i) rs)

new_sectors-Sound :
    (n i : ℕ) (roots : List ℕ)
    → i + length roots ≤ n
    → All (λ (root : ℕ). (root == 0) ≡ false) roots
    → All (SoundSector n) (new_sectors i roots)
new_sectors-Sound n i [] h g = tt
new_sectors-Sound n i (r ∷ rs) h g =
    ((g.0, omega (arith, h)), new_sectors-Sound n (suc i) rs (omega (arith, h)) g.1)

num_sectors-new :
    (roots uploaders : List ℕ) (max_overdrive : ℕ)
    → (new_slab_upload roots uploaders max_overdrive).num_sectors ≡ length roots
unfolding new_slab_upload
num_sectors-new roots uploaders max_overdrive = refl

-- A slab upload that starts.
IsCounted-new :
    (roots uploaders : List ℕ) (max_overdrive : ℕ)
    → All (λ (root : ℕ). (root == 0) ≡ false) roots
    → length roots < u64_mod
    → IsCounted (new_slab_upload roots uploaders max_overdrive)
unfolding new_slab_upload
IsCounted-new roots uploaders max_overdrive h small = record {
  inflight = refl;
  overdriving = refl;
  uploaded = sym (count-new_sectors 0 roots);
  freed = refl;
  sectors = sym (length-new_sectors 0 roots);
  small = omega (arith, small, length-new_sectors 0 roots);
  sound = tt;
  sound_sectors = new_sectors-Sound _ 0 roots (omega (arith, length-new_sectors 0 roots)) h;
}

requests-Sound :
    (n : ℕ) (ss : List SectorUpload) → All (SoundSector n) ss → All (Sound n) (requests ss)
requests-Sound n [] h = tt
requests-Sound n (s ∷ rest) h = (h.0, requests-Sound n rest h.1)

no_value : {A : Type 0} (x : A) → none ≡ some x → ⊥
no_value x e = subst (λ o. elim o [ none ↦ Unit | some y ↦ ⊥ ]) e tt

-- The first launches.
launch_all-IsCounted :
    (n : ℕ) (enqueue : ℕ → Bool) (now : ℕ) (rs : List Request) (s s' : SlabUpload)
    → IsCounted s
    → length s.sectors ≡ n
    → All (Sound n) rs
    → launch_all enqueue now rs s ≡ some s'
    → IsCounted s' × (length s'.sectors ≡ n)
unfolding launch_all
launch_all-IsCounted n enqueue now [] s s' c m g e =
    let same = some_inj s s' e in
    (subst IsCounted same c, subst (λ (x : SlabUpload). length x.sectors ≡ n) same m)
  where
    some_inj : (x y : SlabUpload) → some x ≡ some y → x ≡ y
    some_inj x y e = ap (λ (o : Option SlabUpload). elim o [ none ↦ x | some z ↦ z ]) e
launch_all-IsCounted n enqueue now (r ∷ rs) s s' c m g e =
    launch_all-IsCounted n enqueue now rs (launch enqueue now (some r) s).0 s'
      (IsCounted-launch enqueue now (some r) s c (subst (λ k. Sound k r) (sym m) g.0))
      (ap length (sectors-launch enqueue now (some r) s) ∙ m) g.1
      (launched (launch enqueue now (some r) s).1 e)
  where
    launched :
        (ok : Bool)
        → (if ok then launch_all enqueue now rs (launch enqueue now (some r) s).0 else none)
          ≡ some s'
        → launch_all enqueue now rs (launch enqueue now (some r) s).0 ≡ some s'
    launched true e = e
    launched false e = absurd (no_value s' e)

length-keep :
    (ss : List SectorUpload)
    → length (map (λ (s : SectorUpload). s.uploaded) (keep is_uploaded ss)) ≡ count is_uploaded ss
length-keep [] = refl
length-keep (s ∷ rest) = go (is_uploaded s) (length-keep rest)
  where
    go :
        (b : Bool)
        → length (map (λ (s : SectorUpload). s.uploaded) (keep is_uploaded rest))
          ≡ count is_uploaded rest
        → length (
            map
              (λ (s : SectorUpload). s.uploaded)
              (if b then s ∷ keep is_uploaded rest else keep is_uploaded rest))
          ≡ (if b then 1 else 0) + count is_uploaded rest
    go true h = omega (arith, h)
    go false h = omega (arith, h)

-- For shards whose roots are not the zero hash, when the first launches succeed, then after any
-- turns of the loop, each with a response to a request that was sent or with the timer, memory was
-- released once for each sector that is returned, `uploadShards` returns no error exactly if it
-- returns as many sectors as there are shards, and a loop that was left by `break` has no error.
pub upload_shards-uploaded :
    (overdrive_timeout now : ℕ) (enqueue : ℕ → Bool) (roots uploaders : List ℕ) (max_overdrive : ℕ)
    (s : SlabUpload) (m : Loop)
    → All (λ (root : ℕ). (root == 0) ≡ false) roots
    → length roots < u64_mod
    → launch_all enqueue now
        (requests (new_slab_upload roots uploaders max_overdrive).sectors)
        (new_slab_upload roots uploaders max_overdrive)
      ≡ some s
    → Runs (length roots) overdrive_timeout (record { slab = s; buffer = []; done = false }) m
    → (length (uploaded_sectors m.slab).0 ≡ m.slab.released)
      × (((uploaded_sectors m.slab).1 ≡ false)
          ↔ (length (uploaded_sectors m.slab).0 ≡ length roots))
      × ((m.done ≡ false) ⊎ ((uploaded_sectors m.slab).1 ≡ false))
unfolding uploaded_sectors
upload_shards-uploaded overdrive_timeout now enqueue roots uploaders max_overdrive s m h small e
      runs =
    let n = length roots in
    let new = IsCounted-new roots uploaders max_overdrive h small in
    let fresh : length (new_slab_upload roots uploaders max_overdrive).sectors ≡ n =
      sym new.sectors ∙ num_sectors-new roots uploaders max_overdrive in
    let (c, many) =
      launch_all-IsCounted n enqueue now _ _ s new fresh
        (requests-Sound n _ (
          subst (λ k. All (SoundSector k) (new_slab_upload roots uploaders max_overdrive).sectors)
            fresh new.sound_sectors))
        e in
    let l : IsLoop n m =
      Runs-IsLoop n overdrive_timeout _ m
        (record {
          counted = c;
          as_many = many;
          buffered = tt;
          complete = λ d. absurd (none_done d);
        })
        runs in
    let k = l.counted in
    let few = count-le is_uploaded m.slab.sectors in
    let same = length-keep m.slab.sectors in
    (
      omega (arith, same, k.uploaded, k.freed),
      (
        (λ ok. ground (arith, ok, same, k.uploaded, k.sectors, l.as_many, few)),
        (λ full. ground (arith, full, same, k.uploaded, k.sectors, l.as_many, few)),
      ),
      finished (Bool-cases m.done) l.complete,
    )
  where
    none_done : false ≡ true → ⊥
    none_done d = subst (λ b. elim b [ false ↦ Unit | true ↦ ⊥ ]) d tt

    finished :
        (m.done ≡ true) ⊎ (m.done ≡ false)
        → (m.done ≡ true → m.slab.num_uploaded ≡ m.slab.num_sectors)
        → (m.done ≡ false) ⊎ (ltb m.slab.num_uploaded m.slab.num_sectors ≡ false)
    finished (inl d) complete = inr (ground (arith, complete d))
    finished (inr d) complete = inl d
