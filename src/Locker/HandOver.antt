-- ===== src/Locker/HandOver.antt =====
-- Who holds a contract's lock next.
use sia_optimization_proposa.Prelude.{
  ℕ, ◌<◌, ◌≡◌, ◌≢◌, refl, inl, inr, Bool, true, false, none, List, [], ◌∷◌, ◌++◌, arith, Bool-cases,
  All, ap,
}
use sia_optimization_proposa.Locker.{Candidate, Lock, woken, wake_next, released, release_lock}
use sia_optimization_proposa.Locker.Safe.{AtMost, ByPriority, IsSafe}

-- Nobody is left to wake, or `c` is woken: those in front of it are gone, it is not, and nobody
-- behind it has a higher priority.
pub data HandedOver (gone : ℕ → Bool) (before : List Candidate) (lock : Lock) : Type 0 where
  freed :
      All (λ (d : Candidate). gone d.lock_id ≡ true) before
      → lock.held_by_id ≡ 0
      → lock.queue ≡ []
      → HandedOver gone before lock
  passed :
      (skipped : List Candidate) (c : Candidate)
      → before ≡ skipped ++ c ∷ lock.queue
      → All (λ (d : Candidate). gone d.lock_id ≡ true) skipped
      → gone c.lock_id ≡ false
      → lock.held_by_id ≡ c.lock_id
      → AtMost c.priority lock.queue
      → HandedOver gone before lock

skip_one :
    (gone : ℕ → Bool) (c : Candidate) (queue : List Candidate) (lock : Lock)
    → gone c.lock_id ≡ true
    → HandedOver gone queue lock
    → HandedOver gone (c ∷ queue) lock
skip_one gone c queue lock left (freed a h q) = freed (left, a) h q
skip_one gone c queue lock left (passed skipped d e a here h m) =
    passed (c ∷ skipped) d (ap (◌∷◌ c) e) (left, a) here h m

wake_next-HandedOver :
    (gone : ℕ → Bool) (lock : Lock) (queue : List Candidate)
    → ByPriority queue
    → HandedOver gone queue (wake_next gone lock queue)
unfolding wake_next
wake_next-HandedOver gone lock [] b = freed tt refl refl
wake_next-HandedOver gone lock (c ∷ queue) b = elim (Bool-cases (gone c.lock_id)) [
  | inl left ↦ rw left (skip_one gone c queue _ left (wake_next-HandedOver gone lock queue b.1))
  | inr here ↦ rw here (passed [] c refl tt here refl b.0)
]

release_holder :
    (gone : ℕ → Bool) (lock : Lock) (lock_id : ℕ)
    → 0 < lock_id
    → lock.held_by_id ≡ lock_id
    → release_lock gone lock lock_id
      ≡ (wake_next gone (record lock { wakeup_timer = none }) lock.queue, released)
unfolding release_lock
release_holder gone lock lock_id h e = ground arith

-- `Release` by the holder of a safe lock gives it to the first of the waiting that is not gone, in
-- front of which all are gone and behind which nobody has a higher priority, with the rest still
-- waiting; if all are gone, the lock is free and nobody waits.
pub release-HandedOver :
    (gone : ℕ → Bool) (lock : Lock) (lock_id : ℕ)
    → 0 < lock_id
    → lock.held_by_id ≡ lock_id
    → IsSafe lock
    → ((release_lock gone lock lock_id).1 ≡ released)
      × HandedOver gone lock.queue (release_lock gone lock lock_id).0
release-HandedOver gone lock lock_id h e s =
    rw (release_holder gone lock lock_id h e)
      (refl, wake_next-HandedOver gone (record lock { wakeup_timer = none }) lock.queue s.ordered)

wake_next_ne :
    (gone : ℕ → Bool) (lock : Lock) (queue : List Candidate) (id : ℕ)
    → 0 < id
    → gone id ≡ true
    → (wake_next gone lock queue).held_by_id ≢ id
unfolding wake_next
wake_next_ne gone lock [] id h g = λ e. absurd (omega (arith, h, e))
wake_next_ne gone lock (c ∷ queue) id h g = elim (Bool-cases (gone c.lock_id)) [
  | inl left ↦ rw left (wake_next_ne gone lock queue id h g)
  | inr here ↦ rw here (λ e. absurd (ground (arith, differ here e)))
]
  where
    differ : gone c.lock_id ≡ false → c.lock_id ≡ id → true ≡ false
    differ here e = cc

-- Behind a `Release` by the holder, a goroutine with an id that is not 0 and that `Release` found
-- gone panics if it goes on by its wake channel.
pub gone_panics :
    (gone : ℕ → Bool) (lock : Lock) (lock_id id : ℕ)
    → 0 < lock_id
    → lock.held_by_id ≡ lock_id
    → 0 < id
    → gone id ≡ true
    → woken (release_lock gone lock lock_id).0 id ≡ none
unfolding woken
gone_panics gone lock lock_id id h e k g =
    rw (release_holder gone lock lock_id h e)
      (ground (arith, wake_next_ne gone (record lock { wakeup_timer = none }) lock.queue id k g))
