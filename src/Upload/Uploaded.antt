-- ===== src/Upload/Uploaded.antt =====
-- The loop of `uploadShards`: what holds on every turn, and what it ends with.
use sia_optimization_proposa.Prelude.{
  ℕ, ◌≡◌, refl, ap, sym, ◌∙◌, subst, Bool, true, false, not, ◌&&◌, Option, none, some, List, [],
  ◌∷◌, ◌++◌, if◌then◌else◌, length, All,
}
use sia_optimization_proposa.Upload.{
  Request, Response, SlabUpload, launch, has_error, next_request, can_overdrive,
}
use sia_optimization_proposa.Upload.Shards.{
  Loop, Turn, Event, response, timer, is_running, turn, relaunch_or_overdrive, after_receive,
}
use sia_optimization_proposa.Upload.Counts.{
  Answers, Sound, SoundOption, IsCounted, IsCounted-launch, sectors-launch, next_request-Sound,
  Answers-All, All-snoc,
}
use sia_optimization_proposa.Upload.Received.{Received, receive-Received, pick}

-- The counters count, there are `n` sectors, buffered requests are sound, and a loop that was left
-- has every sector.
pub record IsLoop (n : ℕ) (l : Loop) : Type 0 where
  pub counted : IsCounted l.slab
  pub as_many : length l.slab.sectors ≡ n
  pub buffered : All (Sound n) l.buffer
  pub complete : l.done ≡ true → l.slab.num_uploaded ≡ l.slab.num_sectors

differ : false ≡ true → ⊥
differ e = subst (λ b. elim b [ false ↦ Unit | true ↦ ⊥ ]) e tt

module _ (n : ℕ) where
  -- A loop goes on, with a slab and a buffer.
  going :
      (s : SlabUpload) (buffer : List Request)
      → IsCounted s
      → length s.sectors ≡ n
      → All (Sound n) buffer
      → IsLoop n (record { slab = s; buffer = buffer; done = false })
  going s buffer c m b = record {
    counted = c;
    as_many = m;
    buffered = b;
    complete = λ e. absurd (differ e);
  }

  -- A request is launched in front of a buffer.
  after_launch :
      (t : Turn) (o : Option Request) (s : SlabUpload) (buffer : List Request)
      → IsCounted s
      → length s.sectors ≡ n
      → SoundOption (length s.sectors) o
      → All (Sound n) buffer
      → IsLoop n (record { slab = (launch t.enqueue t.now o s).0; buffer = buffer; done = false })
  after_launch t o s buffer c m g b =
      going _ buffer (IsCounted-launch t.enqueue t.now o s c g)
        (ap length (sectors-launch t.enqueue t.now o s) ∙ m) b

  module _ (overdrive_timeout : ℕ) where
    IsLoop-relaunch :
        (t : Turn) (s : SlabUpload) (buffer : List Request)
        → IsCounted s
        → length s.sectors ≡ n
        → All (Sound n) buffer
        → IsLoop n (relaunch_or_overdrive overdrive_timeout t s buffer)
    unfolding relaunch_or_overdrive
    IsLoop-relaunch t s [] c m b = go (can_overdrive t.now overdrive_timeout s)
      where
        go :
            (o : Bool)
            → IsLoop n (
                if o
                then record {
                  slab = (launch t.enqueue t.now (next_request t.pointer s) s).0;
                  buffer = [];
                  done = false;
                }
                else record { slab = s; buffer = []; done = false })
        go true =
            after_launch t (next_request t.pointer s) s [] c m (next_request-Sound t.pointer s c) tt
        go false = going s [] c m tt
    IsLoop-relaunch t s (r ∷ rs) c m b = go (launch t.enqueue t.now (some r) s).1
      where
        go :
            (ok : Bool)
            → IsLoop n (record {
              slab = (launch t.enqueue t.now (some r) s).0;
              buffer = if ok then rs else r ∷ rs;
              done = false;
            })
        go true = after_launch t (some r) s rs c m (subst (λ k. Sound k r) (sym m) b.0) b.1
        go false = after_launch t (some r) s (r ∷ rs) c m (subst (λ k. Sound k r) (sym m) b.0) b

    IsLoop-after_receive :
        (t : Turn) (resp : Response) (used : Bool) (s : SlabUpload) (buffer : List Request)
        → IsCounted s
        → length s.sectors ≡ n
        → Sound n resp.resp_req
        → All (Sound n) buffer
        → IsLoop n (after_receive overdrive_timeout t resp used s buffer)
    unfolding after_receive
    IsLoop-after_receive t resp used s buffer c m g b =
        pick (IsLoop n) (has_error resp.err && not resp.is_canceled && not resp.resp_req.overdrive)
          (not (has_error resp.err) && not used) _ _ _
          (after_launch t (some resp.resp_req) s _ c m
            (subst (λ k. Sound k resp.resp_req) (sym m) g)
            (kept (launch t.enqueue t.now (some resp.resp_req) s).1))
          (IsLoop-relaunch t s buffer c m b) (λ e. going s buffer c m b)
      where
        kept : (ok : Bool) → All (Sound n) (if ok then buffer else buffer ++ resp.resp_req ∷ [])
        kept true = b
        kept false = All-snoc (Sound n) buffer resp.resp_req b g

    -- A response is to a request that was sent.
    unfoldable pub IsPossible : Event overdrive_timeout → Loop → Type 0
    IsPossible timer l = Unit
    IsPossible (response resp) l = Answers resp.resp_req l.slab.sent

    -- When the counters of requests in flight, of overdrives, of uploaded sectors and of released
    -- memory count what they say, modulo 2 ^ 64 for the first two, a turn of the loop of
    -- `uploadShards`, with a response to a request that was sent or with the timer, does not panic and
    -- keeps that, and keeps that a loop left by `break` has every sector.
    pub turn-IsLoop :
        (t : Turn) (e : Event overdrive_timeout) (l : Loop)
        → IsLoop n l
        → IsPossible e l
        → (l' : Loop) × (turn overdrive_timeout t e l ≡ some l') × IsLoop n l'
    unfolding turn IsPossible
    turn-IsLoop t timer l i p =
        (_, refl, IsLoop-relaunch t l.slab l.buffer i.counted i.as_many i.buffered)
    turn-IsLoop t (response resp) l i p =
        let (r, e, v) = receive-Received resp l.slab i.counted p in
        let sound =
          subst (λ k. Sound k resp.resp_req) i.as_many
            (Answers-All (Sound (length l.slab.sectors)) resp.resp_req l.slab.sent p
              i.counted.sound) in
        (_, rw (turn, e) refl, received r v sound r.2 refl)
      where
        received :
            (r : SlabUpload × Bool × Bool)
            → Received l.slab r
            → Sound n resp.resp_req
            → (b : Bool) → r.2 ≡ b
            → IsLoop n (
                if b
                then record { slab = r.0; buffer = l.buffer; done = true }
                else after_receive overdrive_timeout t resp r.1 r.0 l.buffer)
        received r v g true e = record {
          counted = v.counted;
          as_many = v.as_many ∙ i.as_many;
          buffered = i.buffered;
          complete = λ d. v.last e;
        }
        received r v g false e =
            IsLoop-after_receive t resp r.1 r.0 l.buffer v.counted (v.as_many ∙ i.as_many) g
              i.buffered

    -- The turns of a loop that has not ended, each with a possible event.
    pub data Runs (l : Loop) : Loop → Type 0 where
      at_start : Runs l l
      one_more :
          {m m' : Loop} (t : Turn) (e : Event overdrive_timeout)
          → Runs l m
          → is_running overdrive_timeout m ≡ true
          → IsPossible e m
          → turn overdrive_timeout t e m ≡ some m'
          → Runs l m'

    pub Runs-IsLoop : (l m : Loop) → IsLoop n l → Runs l m → IsLoop n m
    Runs-IsLoop l m i at_start = i
    Runs-IsLoop l m i (one_more {m = k} t e before running possible step) =
        let (m', e', j) = turn-IsLoop t e k (Runs-IsLoop l k i before) possible in
        subst (IsLoop n) (some_inj m' m (sym e' ∙ step)) j
      where
        some_inj : (x y : Loop) → some x ≡ some y → x ≡ y
        some_inj x y e = ap (λ (o : Option Loop). elim o [ none ↦ x | some z ↦ z ]) e
