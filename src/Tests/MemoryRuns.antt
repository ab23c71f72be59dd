-- ===== src/Tests/MemoryRuns.antt =====
-- The memory managers at concrete inputs.
use sia_optimization_proposa.Prelude.{
  ℕ, ◌+◌, ◌<◌, ◌≤◌, ◌≡◌, ◌≢◌, ◌⊎◌, refl, arith, true, false, [], ◌∷◌,
}
use sia_optimization_proposa.Memory.{
  Manager, System, acquires, resumes, releases, releases_some, step, run, acquire_memory, release,
  resume, broadcast,
}
use sia_optimization_proposa.Memory.Invariant.{
  IsWell, IsValid, Holds, start, step-IsValid, run-start-IsValid,
}
use sia_optimization_proposa.Memory.Waiting.{Acquired, acquire_memory-Acquired, release_strands}
use sia_optimization_proposa.Memory.Limit.{
  LimitManager, limit_acquire, limit_refused, limit_resume_child, limit_resume_parent,
}
use sia_optimization_proposa.Memory.Limit.Laws.{
  BothWell, child_taken, parent_taken, limit_acquire-BothWell, limit_acquire_refuses, RefusedIf,
}

-- Ten bytes, of which seven are held; two goroutines wait.
abbrev busy : Manager
busy = record { total_available = 10; available = 3; asleep = 9 ∷ 5 ∷ []; awake = [] }

busy-IsWell : IsWell busy 7
busy-IsWell = ground arith

abbrev busy_system : System
busy_system = record { manager = busy; held = 7 ∷ [] }

step-IsValid_example : Holds IsValid (step busy_system (releases_some 0 4 1))
step-IsValid_example = step-IsValid busy_system (releases_some 0 4 1) busy-IsWell

run-start-IsValid_example :
    Holds IsValid
      (run (start 10) (acquires 7 0 ∷ acquires 9 0 ∷ releases 0 0 ∷ resumes 0 false 0 ∷ []))
run-start-IsValid_example =
    run-start-IsValid 10 (acquires 7 0 ∷ acquires 9 0 ∷ releases 0 0 ∷ resumes 0 false 0 ∷ [])
      (omega arith)

acquire_memory-Acquired_example : Acquired busy 2 0 (acquire_memory busy 2 0)
acquire_memory-Acquired_example = acquire_memory-Acquired busy 2 0 7 busy-IsWell

-- Four bytes come back: the one that wants nine is woken, and the one that wants five stays asleep.
release_strands_example :
    let woken = release busy 4 0 in
    let after = (resume (record woken { awake = [] }) 9 false 0).0 in
    (woken.awake ≡ 9 ∷ [])
    × (after.asleep ≡ 5 ∷ 9 ∷ [])
    × (after.awake ≡ [])
    × (5 ≤ after.available)
release_strands_example =
    release_strands busy 4 9 5 refl refl (omega arith) (omega arith) (omega arith)

abbrev limited : LimitManager
limited = record {
  parent = busy;
  child = record { total_available = 6; available = 6; asleep = []; awake = [] };
}

child-IsWell : IsWell limited.child 0
child-IsWell = ground arith

limit_acquire-BothWell_example :
    let r = limit_acquire limited 4 0 in BothWell r.0 (0 + child_taken r.1) (7 + parent_taken r.1)
limit_acquire-BothWell_example = limit_acquire-BothWell limited 4 0 0 7 child-IsWell busy-IsWell

-- The child's memory of the goroutine that waits is three of six bytes.
abbrev half_taken : LimitManager
half_taken = record {
  parent = busy;
  child = record { total_available = 6; available = 3; asleep = 2 ∷ []; awake = [] };
}

limit_acquire_refuses_example :
    ((◌≡◌ {A = ℕ} 3 0) ⊎ (6 < 3)) × (limit_acquire half_taken 3 0 ≡ (half_taken, limit_refused))
    ⊎ (0 < 3)
      × (3 ≤ 6)
      × ((limit_acquire half_taken 3 0).1 ≢ limit_refused)
      × RefusedIf true
          (record half_taken { child = broadcast half_taken.child })
          (limit_resume_child half_taken 3 true 0)
      × RefusedIf true
          (record { parent = broadcast busy; child = release half_taken.child 3 0 })
          (limit_resume_parent half_taken 3 true 0)
limit_acquire_refuses_example = limit_acquire_refuses half_taken 3 true 0 (omega arith)
