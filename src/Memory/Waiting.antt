-- ===== src/Memory/Waiting.antt =====
-- Who is refused, who waits, and who is woken.
use sia_optimization_proposa.Prelude.{
  ℕ, ◌+◌, ◌-◌, ◌≤◌, ◌<◌, ◌≡◌, refl, ◌⊎◌, inl, inr, ◌↔◌, true, false, none, [], ◌∷◌, ◌++◌, arith,
  ltb, ◌==◌, Bool-cases,
}
use sia_optimization_proposa.Prelude.Words.{u64_mod, sub64_exact}
use sia_optimization_proposa.Memory.{
  Manager, Reply, refused, waiting, granted, pick, signal, broadcast, grant, try_take,
  acquire_memory, resume, release, release_some,
}
use sia_optimization_proposa.Memory.Invariant.{IsWell}

-- The only three outcomes of `AcquireMemory`, by what the manager has.
pub data Acquired (m : Manager) (amt i : ℕ) (r : Manager × Reply) : Type 0 where
  never : (amt ≡ 0) ⊎ (m.total_available < amt) → r ≡ (m, refused) → Acquired m amt i r
  later :
      0 < amt
      → amt ≤ m.total_available
      → m.available < amt
      → r ≡ (record m { asleep = m.asleep ++ amt ∷ [] }, waiting)
      → Acquired m amt i r
  now :
      0 < amt
      → amt ≤ m.available
      → r ≡ (signal i (record m { available = m.available - amt }), granted amt)
      → Acquired m amt i r

-- `AcquireMemory` on a well-formed manager refuses exactly the amount zero and amounts above the
-- total, leaving the manager as it was; it waits when the amount is within the total and above
-- what is available; and otherwise it takes exactly the amount, without wrapping, and signals.
pub acquire_memory-Acquired :
    (m : Manager) (amt i out : ℕ) → IsWell m out → Acquired m amt i (acquire_memory m amt i)
unfolding acquire_memory try_take grant
acquire_memory-Acquired m amt i out w = elim (Bool-cases (amt == 0)) [
  | inl z ↦ never (inl (ground arith)) (rw z)
  | inr nz ↦ elim (Bool-cases (ltb m.total_available amt)) [
    | inl over ↦ never (inr (ground arith)) (rw (nz, over))
    | inr fits ↦ elim (Bool-cases (ltb m.available amt)) [
      | inl short ↦ later (ground arith) (ground arith) (ground arith) (rw (nz, fits, short))
      | inr enough ↦
          now (ground arith) (ground arith)
            (rw (nz, fits, enough, sub64_exact m.available amt (ground arith) (ground arith)))
    ]
  ]
]

-- `ReleaseSome` panics exactly when it is asked for more than remains.
pub release_some_panics :
    (m : Manager) (remaining amt i : ℕ)
    → (release_some m remaining amt i ≡ none) ↔ (remaining < amt)
unfolding release_some
release_some_panics m remaining amt i = (λ e. ground arith, λ h. ground arith)

-- A wait that ends with a cancelled context hands nothing out, changes nothing that is available,
-- and wakes every goroutine that is still asleep.
pub resume_cancelled :
    (m : Manager) (amt i : ℕ)
    → let r = resume m amt true i in
      (r.1 ≡ refused)
      × (r.0.available ≡ m.available)
      × (r.0.asleep ≡ [])
      × (r.0.awake ≡ m.awake ++ m.asleep)
unfolding resume broadcast
resume_cancelled m amt i = (refl, refl, refl, refl)

-- Two goroutines sleep and none is awake; `Release`, without wrapping, wakes the first, which asks
-- for more than is then available. It goes back to sleep without a signal, and the second stays
-- asleep although it asks for no more than is available.
pub release_strands :
    (m : Manager) (remaining large small : ℕ)
    → m.asleep ≡ large ∷ small ∷ []
    → m.awake ≡ []
    → m.available + remaining < u64_mod
    → m.available + remaining < large
    → small ≤ m.available + remaining
    → let woken = release m remaining 0 in
      let after = (resume (record woken { awake = [] }) large false 0).0 in
      (woken.awake ≡ large ∷ [])
      × (after.asleep ≡ small ∷ large ∷ [])
      × (after.awake ≡ [])
      × (small ≤ after.available)
unfolding release signal resume try_take grant pick
release_strands m remaining large small e a b c d =
    (ground arith, ground arith, ground arith, ground arith)
