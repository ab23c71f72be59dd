-- ===== src/Download/Slab/Finished.antt =====
-- A slab download returns data exactly when it has enough of it.
use sia_optimization_proposa.Prelude.{
  ℕ, zero, suc, ◌+◌, ◌-◌, ◌≡◌, refl, ap, ap₂, sym, subst, ◌∙◌, arith, Bool, true, false, Option,
  none, some, List, [], ◌∷◌, map, if◌then◌else◌, ltb, leb, length, All, ◌⊎◌, inl, inr,
}
use sia_optimization_proposa.Prelude.Words.{add64, sub64}
use sia_optimization_proposa.Download.Slab.{
  SectorInfo, Request, Response, SlabDownload, new_sectors, new_slab_download, select_host,
  contains, remove, is_empty, update_at, fastest, pick_host, next_request, launch, lacks,
  take_answer, store, receive, can_overdrive, finish,
}

-- How many of the shards have data.
abbrev pub present : List (List ℕ) → ℕ
present [] = 0
present (shard ∷ shards) = (if is_empty shard then 0 else 1) + present shards

abbrev pub shards_of : List SectorInfo → List (List ℕ)
shards_of sectors = map (λ (sector : SectorInfo). sector.data_bytes) sectors

-- An update that keeps the data.
shards_of-update_at :
    (n : ℕ) (f : SectorInfo → SectorInfo) (ss : List SectorInfo)
    → ((s : SectorInfo) → (f s).data_bytes ≡ s.data_bytes)
    → shards_of (update_at n f ss) ≡ shards_of ss
shards_of-update_at zero f [] h = refl
shards_of-update_at (suc n) f [] h = refl
shards_of-update_at zero f (s ∷ rest) h = ap (λ d. d ∷ shards_of rest) (h s)
shards_of-update_at (suc n) f (s ∷ rest) h = ap (◌∷◌ s.data_bytes) (shards_of-update_at n f rest h)

select_host-data : (h : ℕ) (s : SectorInfo) → (select_host h s).data_bytes ≡ s.data_bytes
unfolding select_host
select_host-data h s = go (contains h s.hks)
  where
    go :
        (b : Bool)
        → (if◌then◌else◌ {A = SectorInfo} b
            (record s { hks = remove h s.hks; selected = s.selected + 1 })
            s).data_bytes
          ≡ s.data_bytes
    go true = refl
    go false = refl

not_true : false ≡ true → ⊥
not_true e = subst (λ b. elim b [ false ↦ Unit | true ↦ ⊥ ]) e tt

-- Data for a sector that has none.
present-stored :
    (n : ℕ) (bytes : List ℕ) (ss : List SectorInfo)
    → lacks n ss ≡ true
    → is_empty bytes ≡ false
    → present (shards_of (update_at n (λ sector. record sector { data_bytes = bytes }) ss))
      ≡ present (shards_of ss) + 1
present-stored n bytes [] l h = absurd (not_true l)
present-stored zero bytes (s ∷ rest) l h = rw (l, h) (omega arith)
present-stored (suc n) bytes (s ∷ rest) l h = omega (arith, present-stored n bytes rest l h)

length-shards_of-update_at :
    (n : ℕ) (f : SectorInfo → SectorInfo) (ss : List SectorInfo)
    → length (shards_of (update_at n f ss)) ≡ length (shards_of ss)
length-shards_of-update_at zero f [] = refl
length-shards_of-update_at (suc n) f [] = refl
length-shards_of-update_at zero f (s ∷ rest) = refl
length-shards_of-update_at (suc n) f (s ∷ rest) = ap suc (length-shards_of-update_at n f rest)

-- The completed sectors are those with data.
record IsCompleted (min_shards many : ℕ) (s : SlabDownload) : Type 0 where
  completed : s.num_completed ≡ present (shards_of s.sectors)
  wanted : s.min_shards ≡ min_shards
  as_many : length (shards_of s.sectors) ≡ many

present-new : (i : ℕ) (shards : List (ℕ × List ℕ)) → present (shards_of (new_sectors i shards)) ≡ 0
present-new i [] = refl
present-new i ((root, hks) ∷ rest) = omega (arith, present-new (suc i) rest)

length-new :
    (i : ℕ) (shards : List (ℕ × List ℕ)) → length (shards_of (new_sectors i shards)) ≡ length shards
length-new i [] = refl
length-new i ((root, hks) ∷ rest) = ap suc (length-new (suc i) rest)

IsCompleted-new :
    (k : ℕ) (region : ℕ × ℕ) (shards : List (ℕ × List ℕ))
    → IsCompleted k (length shards) (new_slab_download k region shards)
unfolding new_slab_download
IsCompleted-new k (offset, size) shards = record {
  completed = sym (present-new 0 shards);
  wanted = refl;
  as_many = length-new 0 shards;
}

lacks_kept :
    (r : Request) (s : SlabDownload) (n : ℕ)
    → lacks n s.sectors ≡ true
    → lacks n (take_answer r s).sectors ≡ true
unfolding take_answer
lacks_kept r s n f = f

module _ (F : Type 0) (less : F → F → Bool) (max_float : F) (estimate : ℕ → Option F) where
  pick_host-shards :
      (s : SlabDownload) (overdrive : Bool) (pending ss : List SectorInfo)
      → shards_of (pick_host F less max_float estimate s overdrive pending ss).1 ≡ shards_of ss
  unfolding pick_host
  pick_host-shards s overdrive [] ss = refl
  pick_host-shards s overdrive (next ∷ pending) ss =
      go (fastest F less max_float estimate next.hks) (
        pick_host-shards s overdrive pending
          (update_at next.index (λ sector. record sector { hks = [] }) ss)
        ∙ shards_of-update_at next.index (λ sector. record sector { hks = [] }) ss (λ x. refl))
    where
      go :
          (o : Option (ℕ × F))
          → shards_of
              (pick_host F less max_float estimate s overdrive pending
                (update_at next.index (λ sector. record sector { hks = [] }) ss)).1
            ≡ shards_of ss
          → shards_of
              (elim o as (λ o. Option Request × List SectorInfo) [
                | none ↦
                    pick_host F less max_float estimate s overdrive pending
                      (update_at next.index (λ sector. record sector { hks = [] }) ss)
                | some (h, e) ↦ (
                  some (record {
                    region_offset = s.offset;
                    region_length = s.size;
                    req_root = next.root;
                    host = h;
                    overdrive = overdrive;
                    sector_index = next.index;
                  }),
                  update_at next.index (select_host h) ss,
                )
              ]).1
            ≡ shards_of ss
      go none h = h
      go (some (h, e)) ih = shards_of-update_at next.index (select_host h) ss (select_host-data h)

  -- What a download does: it asks for a request, launches one, receives, or checks for an overdrive.
  pub data Step : Type 0 where
    asks : Bool → Step
    launches : Request → Step
    receives : Response → Step
    overdrives : ℕ → ℕ → ℕ → Step

  unfoldable pub step : Step → SlabDownload → SlabDownload
  step (asks overdrive) s = (next_request F less max_float estimate overdrive s).1
  step (launches r) s = launch r s
  step (receives resp) s = (receive resp s).0
  step (overdrives max_overdrive now timeout) s = (can_overdrive max_overdrive now timeout s).0

  unfoldable pub steps : List Step → SlabDownload → SlabDownload
  unfolding step
  steps [] s = s
  steps (x ∷ xs) s = steps xs (step x s)

  -- A response without an error has bytes.
  abbrev pub HasBytes : Step → Type 0
  HasBytes (receives resp) = (resp.is_error ≡ true) ⊎ (is_empty resp.sector ≡ false)
  HasBytes x = Unit

  IsCompleted-take_answer :
      (k many : ℕ) (r : Request) (s : SlabDownload)
      → IsCompleted k many s
      → IsCompleted k many (take_answer r s)
  unfolding take_answer
  IsCompleted-take_answer k many r s c = record {
    completed = c.completed;
    wanted = c.wanted;
    as_many = c.as_many;
  }

  IsCompleted-store :
      (k many : ℕ) (resp : Response) (s : SlabDownload)
      → lacks resp.req.sector_index s.sectors ≡ true
      → is_empty resp.sector ≡ false
      → IsCompleted k many s
      → IsCompleted k many (store resp s)
  unfolding store
  IsCompleted-store k many resp s l h c = record {
    completed =
        omega (arith, c.completed, present-stored resp.req.sector_index resp.sector s.sectors l h);
    wanted = c.wanted;
    as_many = length-shards_of-update_at resp.req.sector_index _ s.sectors ∙ c.as_many;
  }

  IsCompleted-receive :
      (k many : ℕ) (resp : Response) (s : SlabDownload)
      → (resp.is_error ≡ true) ⊎ (is_empty resp.sector ≡ false)
      → IsCompleted k many s
      → IsCompleted k many (receive resp s).0
  unfolding receive
  IsCompleted-receive k many resp s h c =
      go resp.is_error (lacks resp.req.sector_index s.sectors) refl refl h
    where
      go :
          (b d : Bool)
          → resp.is_error ≡ b
          → lacks resp.req.sector_index s.sectors ≡ d
          → (resp.is_error ≡ true) ⊎ (is_empty resp.sector ≡ false)
          → IsCompleted k many
              (if◌then◌else◌ {A = SlabDownload × Bool} b
                (take_answer resp.req s, false)
                (
                  (if d then store resp (take_answer resp.req s) else take_answer resp.req s),
                  leb
                      (if d
                        then store resp (take_answer resp.req s)
                        else take_answer resp.req s).min_shards
                      (if d
                        then store resp (take_answer resp.req s)
                        else take_answer resp.req s).num_completed,
                )).0
      go true d e f h = IsCompleted-take_answer k many resp.req s c
      go false false e f h = IsCompleted-take_answer k many resp.req s c
      go false true e f (inl x) = absurd (not_true (sym e ∙ x))
      go false true e f (inr x) =
          IsCompleted-store k many resp (take_answer resp.req s)
            (lacks_kept resp.req s resp.req.sector_index f) x
            (IsCompleted-take_answer k many resp.req s c)

  IsCompleted-step :
      (k many : ℕ) (x : Step) (s : SlabDownload)
      → HasBytes x
      → IsCompleted k many s
      → IsCompleted k many (step x s)
  unfolding step next_request launch can_overdrive
  IsCompleted-step k many (asks overdrive) s h c = record {
    completed = c.completed ∙ ap present (sym (pick_host-shards s overdrive _ s.sectors));
    wanted = c.wanted;
    as_many = ap length (pick_host-shards s overdrive _ s.sectors) ∙ c.as_many;
  }
  IsCompleted-step k many (launches r) s h c = record {
    completed = c.completed;
    wanted = c.wanted;
    as_many = c.as_many;
  }
  IsCompleted-step k many (receives resp) s h c = IsCompleted-receive k many resp s h c
  IsCompleted-step k many (overdrives max_overdrive now timeout) s h c =
      go (ltb (now - s.last_overdrive) timeout)
        (leb (add64 max_overdrive (sub64 s.min_shards s.num_completed)) s.num_inflight)
    where
      go :
          (b d : Bool)
          → IsCompleted k many
              (if◌then◌else◌ {A = SlabDownload × Bool} b
                (s, false)
                (if◌then◌else◌ {A = SlabDownload × Bool} d
                  (s, false)
                  (record s { last_overdrive = now }, true))).0
      go true d = c
      go false true = c
      go false false = record { completed = c.completed; wanted = c.wanted; as_many = c.as_many }

  IsCompleted-steps :
      (k many : ℕ) (xs : List Step) (s : SlabDownload)
      → All HasBytes xs
      → IsCompleted k many s
      → IsCompleted k many (steps xs s)
  unfolding steps
  IsCompleted-steps k many [] s h c = c
  IsCompleted-steps k many (x ∷ xs) s h c =
      IsCompleted-steps k many xs (step x s) h.1 (IsCompleted-step k many x s h.0 c)

  -- After any requests, launches, responses and overdrives, where each response without an error has
  -- bytes, `finish` fails exactly if fewer than the minimum of shards have data, and otherwise
  -- returns the shards, one for each sector.
  pub steps-finish :
      (k : ℕ) (region : ℕ × ℕ) (shards : List (ℕ × List ℕ)) (xs : List Step)
      → All HasBytes xs
      → (let found = shards_of (steps xs (new_slab_download k region shards)).sectors in
          (finish (steps xs (new_slab_download k region shards))
            ≡ (if ltb (present found) k then none else some found))
          × (length found ≡ length shards))
  unfolding finish
  steps-finish k region shards xs h =
      let c = IsCompleted-steps k (length shards) xs _ h (IsCompleted-new k region shards) in
      (
        ap₂
            (λ (a b : ℕ).
              if ltb a b
              then none
              else some (shards_of (steps xs (new_slab_download k region shards)).sectors))
            c.completed c.wanted,
        c.as_many,
      )
