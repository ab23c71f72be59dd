-- ===== src/Tests/UploadRuns.antt =====
-- Runs of the upload of a slab.
use sia_optimization_proposa.Prelude.{
  ℕ, ◌≡◌, ◌⊎◌, ◌↔◌, refl, Bool, true, false, Option, none, some, List, [], ◌∷◌, arith, ◌==◌, length,
  not, subst,
}
use sia_optimization_proposa.Upload.{
  Response, SlabUpload, new_slab_upload, launch, find_candidate, occupy, receive,
}
use sia_optimization_proposa.Upload.Shards.{
  Loop, Turn, response, requests, launch_all, is_running, turn, uploaded_sectors,
}
use sia_optimization_proposa.Upload.Counts.{here, there}
use sia_optimization_proposa.Upload.Uploaded.{
  IsLoop, Runs, at_start, one_more, IsPossible, turn-IsLoop,
}
use sia_optimization_proposa.Upload.Ended.{upload_shards-uploaded}
use sia_optimization_proposa.Upload.Lost.{launch_all-stopped}

abbrev every : ℕ → Bool
every u = true

abbrev not_first : ℕ → Bool
not_first u = not (u == 7)

abbrev two_roots : List ℕ
two_roots = 100 ∷ 200 ∷ []

abbrev three_uploaders : List ℕ
three_uploaders = 7 ∷ 8 ∷ 9 ∷ []

abbrev from_slab : Option SlabUpload → SlabUpload
from_slab none = new_slab_upload [] [] 0
from_slab (some s) = s

abbrev begun : SlabUpload
begun = from_slab (
    launch_all every 5 (requests (new_slab_upload two_roots three_uploaders 2).sectors)
      (new_slab_upload two_roots three_uploaders 2))

begun_lem :
    launch_all every 5
      (requests (new_slab_upload two_roots three_uploaders 2).sectors)
      (new_slab_upload two_roots three_uploaders 2)
    ≡ some begun
unfolding launch_all launch new_slab_upload find_candidate occupy
begun_lem = refl

abbrev begun_loop : Loop
begun_loop = record { slab = begun; buffer = []; done = false }

abbrev a_turn : Turn
a_turn = record { enqueue = every; now = 10; pointer = 40 }

-- The second shard is answered first.
abbrev second_response : Response
second_response = record {
  resp_fcid = 3;
  resp_hk = 8;
  resp_req = record { pointer = 1; idx = 1; root = 200; overdrive = false };
  err = none;
  is_canceled = false;
}

abbrev from_loop : Option Loop → Loop
from_loop none = begun_loop
from_loop (some l) = l

abbrev after_second : Loop
after_second = from_loop (turn 0 a_turn (response second_response) begun_loop)

after_second_run : Runs 2 0 begun_loop after_second
unfolding launch_all launch new_slab_upload turn is_running find_candidate occupy IsPossible receive
after_second_run = one_more a_turn (response second_response) at_start refl (there refl here) refl

upload_shards-uploaded_example :
    (length (uploaded_sectors after_second.slab).0 ≡ after_second.slab.released)
    × (((uploaded_sectors after_second.slab).1 ≡ false)
        ↔ (length (uploaded_sectors after_second.slab).0 ≡ 2))
    × ((after_second.done ≡ false) ⊎ ((uploaded_sectors after_second.slab).1 ≡ false))
upload_shards-uploaded_example =
    upload_shards-uploaded 0 5 every two_roots three_uploaders 2 begun after_second
      (refl, (refl, tt)) (omega arith) begun_lem after_second_run

launch_all-stopped_example :
    (let s = new_slab_upload two_roots three_uploaders 2 in
      (launch_all not_first 5 (requests s.sectors) s ≡ some s)
      × (is_running 0 (record { slab = s; buffer = []; done = false }) ≡ false)
      × (uploaded_sectors s ≡ ([], true)))
launch_all-stopped_example =
    launch_all-stopped 0 5 not_first two_roots (8 ∷ 9 ∷ []) 7 2 (omega arith) refl

begun_loop-IsLoop : IsLoop 2 begun_loop
unfolding launch_all launch new_slab_upload find_candidate occupy
begun_loop-IsLoop = record {
  counted = record {
    inflight = refl;
    overdriving = refl;
    uploaded = refl;
    freed = refl;
    sectors = refl;
    small = omega arith;
    sound = ((refl, omega arith), ((refl, omega arith), tt));
    sound_sectors = ((refl, omega arith), ((refl, omega arith), tt));
  };
  as_many = refl;
  buffered = tt;
  complete = λ d. absurd (subst (λ b. elim b [ false ↦ Unit | true ↦ ⊥ ]) d tt);
}

second_response-IsPossible : IsPossible 2 0 (response second_response) begun_loop
unfolding launch_all launch new_slab_upload find_candidate occupy IsPossible
second_response-IsPossible = there refl here

turn-IsLoop_example :
    (l' : Loop) × (turn 0 a_turn (response second_response) begun_loop ≡ some l') × IsLoop 2 l'
turn-IsLoop_example =
    turn-IsLoop 2 0 a_turn (response second_response) begun_loop begun_loop-IsLoop
      second_response-IsPossible
