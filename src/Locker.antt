-- ===== src/Locker.antt =====
-- internal/bus/contractlocker.go. The priority heap is the list of its candidates in the order in
-- which `heap.Pop` gives them; on equal priorities that order is one of those which the source
-- allows. A timer is the id that it will release.
pub mod Safe
pub mod HandOver
use sia_optimization_proposa.Prelude.{
  ℕ, Bool, true, false, not, Option, none, some, List, [], ◌∷◌, if◌then◌else◌, ◌==◌,
}
use sia_optimization_proposa.Prelude.Int.{ℤ, ltb_ℤ}
use sia_optimization_proposa.Prelude.Maps.{Map, lookup, insert}

pub record Candidate : Type 0 where
  pub lock_id : ℕ
  pub priority : ℤ

pub record Lock : Type 0 where
  pub held_by_id : ℕ
  pub wakeup_timer : Option ℕ
  pub queue : List Candidate

abbrev pub new_lock : Lock
new_lock = record { held_by_id = 0; wakeup_timer = none; queue = [] }

-- `heap.Push` by `Less`
unfoldable pub push : Candidate → List Candidate → List Candidate
push c [] = c ∷ []
push c (d ∷ queue) = if ltb_ℤ d.priority c.priority then c ∷ d ∷ queue else d ∷ push c queue

-- `Acquire` up to its select: the lock, or a place in the queue.
pub data Acquired : Type 0 where
  acquired queued : Acquired

unfoldable pub acquire_lock : Lock → ℤ → ℕ → Lock × Acquired
acquire_lock lock priority our_id =
    if lock.held_by_id == 0
    then (record lock { held_by_id = our_id; wakeup_timer = some our_id }, acquired)
    else (
      record lock { queue = push (record { lock_id = our_id; priority = priority }) lock.queue },
      queued,
    )

-- `Acquire` behind `<-wakeChan`; `none` is the panic.
unfoldable pub woken : Lock → ℕ → Option Lock
woken lock our_id =
    if lock.held_by_id == our_id then some (record lock { wakeup_timer = some our_id }) else none

pub data KeepAlive : Type 0 where
  kept not_found wrong_id already_fired no_timer : KeepAlive

-- `fired` is whether `Stop` returns false; `no_timer` is the nil dereference.
keep_alive_timer : Lock → ℕ → Bool → Option ℕ → Lock × KeepAlive
keep_alive_timer lock lock_id fired none = (lock, no_timer)
keep_alive_timer lock lock_id fired (some t) =
    if fired then (lock, already_fired) else (record lock { wakeup_timer = some lock_id }, kept)

unfoldable pub keep_alive_lock : Lock → ℕ → Bool → Lock × KeepAlive
unfolding keep_alive_timer
keep_alive_lock lock lock_id fired =
    if lock.held_by_id == lock_id
    then keep_alive_timer lock lock_id fired lock.wakeup_timer
    else (lock, wrong_id)

-- The loop that wakes the next candidate; `gone` is whether its select takes `timedOut`.
unfoldable pub wake_next : (ℕ → Bool) → Lock → List Candidate → Lock
wake_next gone lock [] = record lock { held_by_id = 0; queue = [] }
wake_next gone lock (c ∷ queue) =
    let rest = wake_next gone lock queue in
    if gone c.lock_id then rest else record lock { held_by_id = c.lock_id; queue = queue }

pub data Released : Type 0 where
  released nothing_to_do zero_id held_by_other : Released

unfoldable pub release_lock : (ℕ → Bool) → Lock → ℕ → Lock × Released
release_lock gone lock lock_id =
    if lock.held_by_id == 0
    then (lock, nothing_to_do)
    else if not (lock.held_by_id == lock_id)
    then (lock, held_by_other)
    else (wake_next gone (record lock { wakeup_timer = none }) lock.queue, released)

-- `lockForContractID` with `create`
abbrev pub lock_or_new : Option Lock → Lock
lock_or_new none = new_lock
lock_or_new (some lock) = lock

unfoldable pub acquire : Map Lock → ℤ → ℕ → ℕ → Map Lock × Acquired
acquire locks priority id our_id =
    let r = acquire_lock (lock_or_new (lookup id locks)) priority our_id in
    (insert id r.0 locks, r.1)

wake_at : Map Lock → ℕ → Option Lock → Option (Map Lock)
wake_at locks id none = none
wake_at locks id (some lock) = some (insert id lock locks)

unfoldable pub wake : Map Lock → ℕ → ℕ → Option (Map Lock)
unfolding wake_at
wake locks id our_id = wake_at locks id (woken (lock_or_new (lookup id locks)) our_id)

keep_alive_at : Map Lock → ℕ → ℕ → Bool → Option Lock → Map Lock × KeepAlive
keep_alive_at locks id lock_id fired none = (locks, not_found)
keep_alive_at locks id lock_id fired (some lock) =
    let r = keep_alive_lock lock lock_id fired in (insert id r.0 locks, r.1)

unfoldable pub keep_alive : Map Lock → ℕ → ℕ → Bool → Map Lock × KeepAlive
unfolding keep_alive_at
keep_alive locks id lock_id fired = keep_alive_at locks id lock_id fired (lookup id locks)

release_at : (ℕ → Bool) → Map Lock → ℕ → ℕ → Option Lock → Map Lock × Released
release_at gone locks id lock_id none = (locks, nothing_to_do)
release_at gone locks id lock_id (some lock) =
    let r = release_lock gone lock lock_id in (insert id r.0 locks, r.1)

unfoldable pub release : (ℕ → Bool) → Map Lock → ℕ → ℕ → Map Lock × Released
unfolding release_at
release gone locks id lock_id =
    if lock_id == 0 then (locks, zero_id) else release_at gone locks id lock_id (lookup id locks)

-- One critical section of any goroutine, the timers included.
pub data Call : Type 0 where
  acquires : ℤ → ℕ → ℕ → Call
  wakes : ℕ → ℕ → Call
  keeps_alive : ℕ → ℕ → Bool → Call
  releases : (ℕ → Bool) → ℕ → ℕ → Call

unfoldable pub step : Map Lock → Call → Option (Map Lock)
step locks (acquires priority id our_id) = some (acquire locks priority id our_id).0
step locks (wakes id our_id) = wake locks id our_id
step locks (keeps_alive id lock_id fired) = some (keep_alive locks id lock_id fired).0
step locks (releases gone id lock_id) = some (release gone locks id lock_id).0
