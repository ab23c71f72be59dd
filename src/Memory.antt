-- ===== src/Memory.antt =====
-- internal/memory/memory.go: the memory manager of uploads and downloads. A goroutine that waits
-- in `sigNewMem.Wait` is its amount in `asleep`; one that was woken and has not yet got the mutex
-- back is in `awake`. `sync.Cond` fixes no order, so each `Signal` takes the index of its pick.
pub mod Invariant
pub mod Waiting
pub mod Limit
use sia_optimization_proposa.Prelude.{
  ℕ, suc, ◌-◌, ◌≤◌, Bool, true, false, Option, none, some, List, [], ◌∷◌, ◌++◌, ltb, ◌==◌,
  if◌then◌else◌, get_elem?, set, erase_idx,
}
use sia_optimization_proposa.Prelude.Words.{add64, sub64}

pub record Manager : Type 0 where
  pub total_available : ℕ
  pub available : ℕ
  pub asleep : List ℕ
  pub awake : List ℕ

pub record Status : Type 0 where
  pub free : ℕ
  pub total : ℕ

-- `newMemoryManagerCustom`
unfoldable pub new_manager : ℕ → Manager
new_manager max_memory = record {
  total_available = max_memory;
  available = max_memory;
  asleep = [];
  awake = [];
}

unfoldable pub status : Manager → Status
status m = record { free = m.available; total = m.total_available }

-- What `AcquireMemory` comes to: `nil`, a wait, or an `acquiredMemory` with its `remaining`.
pub data Reply : Type 0 where
  refused waiting : Reply
  granted : ℕ → Reply

-- The entry at an index, or the last one, and the list without it.
unfoldable pub pick : ℕ → ℕ → List ℕ → ℕ × List ℕ
pick i x [] = (x, [])
pick ℕ.zero x (y ∷ ys) = (x, y ∷ ys)
pick (suc i) x (y ∷ ys) = let (z, rest) = pick i y ys in (z, x ∷ rest)

unfoldable pub signal : ℕ → Manager → Manager
signal i m = elim m.asleep [
  | [] ↦ m
  | x ∷ xs ↦ let (w, rest) = pick i x xs in record m { asleep = rest; awake = m.awake ++ w ∷ [] }
]

unfoldable pub broadcast : Manager → Manager
broadcast m = record m { asleep = []; awake = m.awake ++ m.asleep }

-- The end of `AcquireMemory`, behind its loop.
unfoldable pub grant : Manager → ℕ → ℕ → Manager × Reply
grant m amt i = (signal i (record m { available = sub64 m.available amt }), granted amt)

-- The test of the loop: wait, or take the memory.
unfoldable pub try_take : Manager → ℕ → ℕ → Manager × Reply
try_take m amt i =
    if ltb m.available amt
    then (record m { asleep = m.asleep ++ amt ∷ [] }, waiting)
    else grant m amt i

unfoldable pub acquire_memory : Manager → ℕ → ℕ → Manager × Reply
acquire_memory m amt i =
    if amt == 0
    then (m, refused)
    else if ltb m.total_available amt
    then (m, refused)
    else try_take m amt i

-- A goroutine that returns from `Wait`: `cancelled` says whether its context is done.
unfoldable pub resume : Manager → ℕ → Bool → ℕ → Manager × Reply
resume m amt cancelled i = if cancelled then (broadcast m, refused) else try_take m amt i

-- `Release` of a value with this much left; afterwards nothing is left.
unfoldable pub release : Manager → ℕ → ℕ → Manager
release m remaining i = signal i (record m { available = add64 m.available remaining })

-- `ReleaseSome`: `none` is the panic, otherwise the manager and what is left.
unfoldable pub release_some : Manager → ℕ → ℕ → ℕ → Option (Manager × ℕ)
release_some m remaining amt i =
    if ltb remaining amt
    then none
    else some (signal i (record m { available = add64 m.available amt }), sub64 remaining amt)

-- A manager and the `remaining` of every value that it has handed out.
pub record System : Type 0 where
  pub manager : Manager
  pub held : List ℕ

pub data Call : Type 0 where
  acquires : ℕ → ℕ → Call
  resumes : ℕ → Bool → ℕ → Call
  releases : ℕ → ℕ → Call
  releases_some : ℕ → ℕ → ℕ → Call

abbrev pub hand_out : List ℕ → Reply → List ℕ
hand_out held refused = held
hand_out held waiting = held
hand_out held (granted amt) = held ++ amt ∷ []

abbrev pub settle : List ℕ → Manager × Reply → System
settle held (m, r) = record { manager = m; held = hand_out held r }

resumes_at : System → ℕ → Bool → ℕ → Option ℕ → System
resumes_at s j cancelled i none = s
resumes_at s j cancelled i (some amt) =
    settle s.held
      (resume (record s.manager { awake = erase_idx s.manager.awake j }) amt cancelled i)

releases_at : System → ℕ → ℕ → Option ℕ → System
releases_at s k i none = s
releases_at s k i (some r) = record { manager = release s.manager r i; held = set s.held k 0 }

releases_some_at : System → ℕ → ℕ → ℕ → Option ℕ → Option System
releases_some_at s k amt i none = some s
releases_some_at s k amt i (some r) = elim (release_some s.manager r amt i) [
  | none ↦ none
  | some (m, left) ↦ some (record { manager = m; held = set s.held k left })
]

-- One critical section; a call on a goroutine or a value that is not there does nothing, and
-- `none` is a panic.
unfoldable pub step : System → Call → Option System
unfolding resumes_at releases_at releases_some_at
step s (acquires amt i) = some (settle s.held (acquire_memory s.manager amt i))
step s (resumes j cancelled i) = some (resumes_at s j cancelled i (get_elem? s.manager.awake j))
step s (releases k i) = some (releases_at s k i (get_elem? s.held k))
step s (releases_some k amt i) = releases_some_at s k amt i (get_elem? s.held k)

unfoldable pub run : System → List Call → Option System
run s [] = some s
run s (c ∷ cs) = elim (step s c) [ none ↦ none | some t ↦ run t cs ]
