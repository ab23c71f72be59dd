-- ===== src/Locker/Safe.antt =====
-- A free lock has nobody waiting, and the waiting are in the order of their priorities.
use sia_optimization_proposa.Prelude.{
  ℕ, ◌<◌, ◌≡◌, refl, inl, inr, Bool, Option, none, some, List, [], ◌∷◌, arith, ◌==◌, Bool-cases,
  Option-cases, subst,
}
use sia_optimization_proposa.Prelude.Int.{ℤ, ◌≤ℤ◌}
use sia_optimization_proposa.Prelude.Maps.{Map, lookup, insert, lookup-insert}
use sia_optimization_proposa.Locker.{
  Candidate, Lock, push, acquire_lock, woken, keep_alive_lock, wake_next, release_lock, lock_or_new,
  acquire, wake, keep_alive, release, Call, acquires, wakes, keeps_alive, releases, step,
}

-- No candidate behind another has a higher priority.
abbrev pub AtMost : ℤ → List Candidate → Type 0
AtMost p [] = Unit
AtMost p (c ∷ queue) = (c.priority ≤ℤ p) × AtMost p queue

abbrev pub ByPriority : List Candidate → Type 0
ByPriority [] = Unit
ByPriority (c ∷ queue) = AtMost c.priority queue × ByPriority queue

-- Candidates and a holder have ids that are not 0.
abbrev pub Named : List Candidate → Type 0
Named [] = Unit
Named (c ∷ queue) = (0 < c.lock_id) × Named queue

pub record IsSafe (lock : Lock) : Type 0 where
  pub ordered : ByPriority lock.queue
  pub named : Named lock.queue
  pub free_empty : lock.held_by_id ≡ 0 → lock.queue ≡ []

AtMost-weaken : (p q : ℤ) (queue : List Candidate) → p ≤ℤ q → AtMost p queue → AtMost q queue
AtMost-weaken p q [] h a = tt
AtMost-weaken p q (c ∷ queue) h a = (omega (arith, a.0), AtMost-weaken p q queue h a.1)

AtMost-push :
    (p : ℤ) (c : Candidate) (queue : List Candidate)
    → c.priority ≤ℤ p
    → AtMost p queue
    → AtMost p (push c queue)
unfolding push
AtMost-push p c [] h a = (h, tt)
AtMost-push p c (d ∷ queue) h a = ground (arith, AtMost-push p c queue h a.1)

push-ByPriority :
    (c : Candidate) (queue : List Candidate) → ByPriority queue → ByPriority (push c queue)
unfolding push
push-ByPriority c [] b = (tt, tt)
push-ByPriority c (d ∷ queue) b = ground (
  arith,
  push-ByPriority c queue b.1,
  AtMost-push d.priority c queue,
  AtMost-weaken d.priority c.priority queue,
)

push-Named :
    (c : Candidate) (queue : List Candidate) → 0 < c.lock_id → Named queue → Named (push c queue)
unfolding push
push-Named c [] h n = (h, tt)
push-Named c (d ∷ queue) h n = ground (arith, push-Named c queue h n.1)

wake_next-IsSafe :
    (gone : ℕ → Bool) (lock : Lock) (queue : List Candidate)
    → ByPriority queue
    → Named queue
    → IsSafe (wake_next gone lock queue)
unfolding wake_next
wake_next-IsSafe gone lock [] b n = record { ordered = tt; named = tt; free_empty = λ h. refl }
wake_next-IsSafe gone lock (c ∷ queue) b n = elim (Bool-cases (gone c.lock_id)) [
  | inl left ↦ rw left (wake_next-IsSafe gone lock queue b.1 n.1)
  | inr here ↦
      rw here
        (record { ordered = b.1; named = n.1; free_empty = λ h. absurd (ground (arith, n.0)) })
]

release_lock-IsSafe :
    (gone : ℕ → Bool) (lock : Lock) (lock_id : ℕ)
    → IsSafe lock
    → IsSafe (release_lock gone lock lock_id).0
unfolding release_lock
release_lock-IsSafe gone lock lock_id s = ground (
  arith,
  s,
  wake_next-IsSafe gone (record lock { wakeup_timer = none }) lock.queue s.ordered s.named,
)

acquire_lock-IsSafe :
    (lock : Lock) (priority : ℤ) (our_id : ℕ)
    → 0 < our_id
    → IsSafe lock
    → IsSafe (acquire_lock lock priority our_id).0
unfolding acquire_lock
acquire_lock-IsSafe lock priority our_id h s = elim (Bool-cases (lock.held_by_id == 0)) [
  | inl free ↦ rw free (record {
    ordered = s.ordered;
    named = s.named;
    free_empty = λ e. absurd (omega (arith, h, e));
  })
  | inr held ↦
      let c : Candidate = record { lock_id = our_id; priority = priority } in
      rw held (record {
        ordered = push-ByPriority c lock.queue s.ordered;
        named = push-Named c lock.queue h s.named;
        free_empty = λ e. absurd (ground arith);
      })
]

keep_alive_lock-IsSafe :
    (lock : Lock) (lock_id : ℕ) (fired : Bool)
    → IsSafe lock
    → IsSafe (keep_alive_lock lock lock_id fired).0
unfolding keep_alive_lock
keep_alive_lock-IsSafe lock lock_id fired s =
    let r : (t : ℕ) → IsSafe (record lock { wakeup_timer = some t }) =
      λ t. record { ordered = s.ordered; named = s.named; free_empty = s.free_empty } in
    ground (arith, s, r lock_id, Option-cases lock.wakeup_timer)

-- Every lock of the locker is safe.
abbrev pub AllSafe : Map Lock → Type 0
AllSafe locks = (id : ℕ) → IsSafe (lock_or_new (lookup id locks))

insert-AllSafe :
    (locks : Map Lock) (id : ℕ) (lock : Lock)
    → AllSafe locks
    → IsSafe lock
    → AllSafe (insert id lock locks)
insert-AllSafe locks id lock a s other = elim (Bool-cases (id == other)) [
  | inl same ↦ rw (lookup-insert locks id lock other, same) s
  | inr different ↦ rw (lookup-insert locks id lock other, different) (a other)
]

-- `Acquire` picks an id that is not 0.
abbrev pub GoodCall : Call → Type 0
GoodCall (acquires priority id our_id) = 0 < our_id
GoodCall _ = Unit

abbrev pub Holds : Option (Map Lock) → Type 0
Holds none = Unit
Holds (some locks) = AllSafe locks

wake-Holds : (locks : Map Lock) (id our_id : ℕ) → AllSafe locks → Holds (wake locks id our_id)
unfolding wake woken
wake-Holds locks id our_id a =
    elim (Bool-cases ((lock_or_new (lookup id locks)).held_by_id == our_id)) [
      | inl ours ↦ rw ours (
          insert-AllSafe locks id _ a (record {
            ordered = (a id).ordered;
            named = (a id).named;
            free_empty = (a id).free_empty;
          }))
      | inr other ↦ rw other tt
    ]

keep_alive-AllSafe :
    (locks : Map Lock) (id lock_id : ℕ) (fired : Bool)
    → AllSafe locks
    → AllSafe (keep_alive locks id lock_id fired).0
unfolding keep_alive
keep_alive-AllSafe locks id lock_id fired a = elim (Option-cases (lookup id locks)) [
  | inl e ↦ rw e a
  | inr (lock, e) ↦ rw e (
      insert-AllSafe locks id _ a
        (keep_alive_lock-IsSafe lock lock_id fired (subst (λ l. IsSafe (lock_or_new l)) e (a id))))
]

release-AllSafe :
    (gone : ℕ → Bool) (locks : Map Lock) (id lock_id : ℕ)
    → AllSafe locks
    → AllSafe (release gone locks id lock_id).0
unfolding release
release-AllSafe gone locks id lock_id a = elim (Bool-cases (lock_id == 0)) [
  | inl e ↦ rw e a
  | inr k ↦ elim (Option-cases (lookup id locks)) [
    | inl e ↦ rw (k, e) a
    | inr (lock, e) ↦
        rw (k, e)
          (insert-AllSafe locks id _ a
            (release_lock-IsSafe gone lock lock_id (subst (λ l. IsSafe (lock_or_new l)) e (a id))))
  ]
]

-- Every critical section of a locker whose locks are safe panics or leaves them safe: the waiting
-- stand in the order of their priorities, and a lock that nobody holds has nobody waiting.
pub step-AllSafe : (locks : Map Lock) (c : Call) → GoodCall c → AllSafe locks → Holds (step locks c)
unfolding step acquire
step-AllSafe locks (acquires priority id our_id) g a =
    insert-AllSafe locks id _ a
      (acquire_lock-IsSafe (lock_or_new (lookup id locks)) priority our_id g (a id))
step-AllSafe locks (wakes id our_id) g a = wake-Holds locks id our_id a
step-AllSafe locks (keeps_alive id lock_id fired) g a = keep_alive-AllSafe locks id lock_id fired a
step-AllSafe locks (releases gone id lock_id) g a = release-AllSafe gone locks id lock_id a
