-- ===== src/Tests/DaemonRuns.antt =====
-- The contract locker, the sectors cache and the alerts at concrete inputs.
use sia_optimization_proposa.Prelude.{
  ℕ, ◌+◌, ◌≤◌, ◌<◌, ◌≡◌, ◌≢◌, ◌⊎◌, refl, arith, Bool, none, some, List, [], ◌∷◌, ◌++◌, ◌==◌,
  if◌then◌else◌,
}
use sia_optimization_proposa.Prelude.Int.{pos}
use sia_optimization_proposa.Prelude.Maps.{Map, lookup, Distinct}
use sia_optimization_proposa.Locker.{Lock, acquires, step, release_lock, released, woken}
use sia_optimization_proposa.Locker.Safe.{IsSafe, AllSafe, Holds, step-AllSafe}
use sia_optimization_proposa.Locker.HandOver.{HandedOver, release-HandedOver, gone_panics}
use sia_optimization_proposa.Sectors.{OngoingUpload, add_sectors, finish_upload, all_sectors}
use sia_optimization_proposa.Sectors.Laws.{Within, lookup-finish_upload, add_sectors_keeps}
use sia_optimization_proposa.Alerts.{
  Alert, AlertsResponse, get_alerts, filtered, dismiss_alerts, origin,
}
use sia_optimization_proposa.Alerts.Pages.{
  IsPage, get_alerts-IsPage, dismissed, lookup-dismiss_alerts,
}

-- Held by 3; 4 and 5 wait, of which 4 has timed out.
abbrev held_lock : Lock
held_lock = record {
  held_by_id = 3;
  wakeup_timer = some 3;
  queue = record { lock_id = 4; priority = pos 9 } ∷ record { lock_id = 5; priority = pos 2 } ∷ [];
}

held_lock-IsSafe : IsSafe held_lock
held_lock-IsSafe = ground arith

abbrev four_gone : ℕ → Bool
four_gone id = id == 4

empty-AllSafe : AllSafe []
unfolding lookup
empty-AllSafe id = record { ordered = tt; named = tt; free_empty = λ h. refl }

step-AllSafe_example : Holds (step [] (acquires (pos 1) 7 3))
step-AllSafe_example = step-AllSafe [] (acquires (pos 1) 7 3) (omega arith) empty-AllSafe

release-HandedOver_example :
    ((release_lock four_gone held_lock 3).1 ≡ released)
    × HandedOver four_gone held_lock.queue (release_lock four_gone held_lock 3).0
release-HandedOver_example =
    release-HandedOver four_gone held_lock 3 (omega arith) refl held_lock-IsSafe

gone_panics_example : woken (release_lock four_gone held_lock 3).0 4 ≡ none
gone_panics_example = gone_panics four_gone held_lock 3 4 (omega arith) refl (omega arith) refl

abbrev ongoing_upload : ℕ → List ℕ → OngoingUpload
ongoing_upload started sectors = record { started = started; sectors = sectors }

abbrev uploads : Map OngoingUpload
uploads = (1, ongoing_upload 5 (10 ∷ 11 ∷ [])) ∷ (2, ongoing_upload 90000000000000 (12 ∷ [])) ∷ []

uploads-Distinct : Distinct uploads
uploads-Distinct = ((refl, tt), (tt, tt))

abbrev finished : ℕ
finished = 3

lookup-finish_upload_example :
    ((finished ≡ 1) ⊎ (lookup 1 uploads ≡ none))
      × (lookup 1 (finish_upload 90000000000001 uploads finished) ≡ none)
    ⊎ ((u : OngoingUpload) × (finished ≢ 1)
        × (lookup 1 uploads ≡ some u)
        × ((u.started + 86400000000000 < 90000000000001)
              × (lookup 1 (finish_upload 90000000000001 uploads finished) ≡ none)
            ⊎ (90000000000001 ≤ u.started + 86400000000000)
              × (lookup 1 (finish_upload 90000000000001 uploads finished) ≡ some u)))
lookup-finish_upload_example = lookup-finish_upload 90000000000001 3 1 uploads uploads-Distinct

add_sectors_keeps_example :
    (lookup 2 uploads ≡ none) × (add_sectors uploads 2 (13 ∷ []) ≡ none)
    ⊎ ((u : OngoingUpload) × (later : Map OngoingUpload) × (lookup 2 uploads ≡ some u)
        × (add_sectors uploads 2 (13 ∷ []) ≡ some later)
        × ((r : ℕ) → Within r (u.sectors ++ 13 ∷ []) → Within r (all_sectors later)))
add_sectors_keeps_example = add_sectors_keeps uploads 2 (13 ∷ [])

abbrev alert : ℕ → ℕ → Alert
alert id severity = record {
  id = id;
  severity = severity;
  message = "repair";
  data_origin = some (origin "autopilot");
  timestamp = id;
}

abbrev registered : Map Alert
registered = (1, alert 1 2) ∷ (2, alert 2 3) ∷ (3, alert 3 2) ∷ []

get_alerts-IsPage_example :
    (resp : AlertsResponse) × (get_alerts registered
        (record { offset = pos 0; limit = pos 1; severity = 2 })
      ≡ some resp)
    × IsPage (filtered registered 2) 0 1 resp
get_alerts-IsPage_example = get_alerts-IsPage registered 2 0 1

lookup-dismiss_alerts_example :
    lookup 2 (dismiss_alerts registered (2 ∷ 4 ∷ []))
    ≡ (if dismissed 2 (2 ∷ 4 ∷ []) then none else lookup 2 registered)
lookup-dismiss_alerts_example = lookup-dismiss_alerts registered (2 ∷ 4 ∷ []) 2
