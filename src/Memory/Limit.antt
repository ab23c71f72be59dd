-- ===== src/Memory/Limit.antt =====
-- `limitMemoryManager`: a child manager with a smaller total, in front of its parent.
pub mod Laws
use sia_optimization_proposa.Prelude.{ℕ, Bool, Option, none, some, ltb, if◌then◌else◌}
use sia_optimization_proposa.Memory.{
  Manager, Reply, refused, waiting, granted, Status, status, new_manager, acquire_memory, resume,
  release, release_some,
}

pub record LimitManager : Type 0 where
  pub parent : Manager
  pub child : Manager

-- `Limit` of a `memoryManager`; `none` is its error.
unfoldable pub limit : Manager → ℕ → Option LimitManager
limit m amt =
    if ltb m.total_available amt
    then none
    else some (record { parent = m; child = new_manager amt })

-- `limitMemoryManager.Limit`
unfoldable pub limit_limit : LimitManager → ℕ → Option LimitManager
unfolding limit
limit_limit l amt = limit l.child amt

unfoldable pub limit_status : LimitManager → Status
limit_status l = status l.child

-- How far `limitMemoryManager.AcquireMemory` gets in one go: a wait for the child holds nothing, a wait for
-- the parent holds the child's memory.
pub data LimitReply : Type 0 where
  limit_refused waiting_for_child : LimitReply
  waiting_for_parent : ℕ → LimitReply
  limit_granted : ℕ → ℕ → LimitReply

from_parent : Manager → ℕ → ℕ → Manager × Reply → LimitManager × LimitReply
from_parent child amt i (p, refused) =
    (record { parent = p; child = release child amt i }, limit_refused)
from_parent child amt i (p, waiting) =
    (record { parent = p; child = child }, waiting_for_parent amt)
from_parent child amt i (p, granted n) = (record { parent = p; child = child }, limit_granted amt n)

from_child : Manager → ℕ → ℕ → Manager × Reply → LimitManager × LimitReply
unfolding from_parent
from_child parent amt i (c, refused) = (record { parent = parent; child = c }, limit_refused)
from_child parent amt i (c, waiting) = (record { parent = parent; child = c }, waiting_for_child)
from_child parent amt i (c, granted n) = from_parent c n i (acquire_memory parent amt i)

-- `limitMemoryManager.AcquireMemory` up to its first wait.
unfoldable pub limit_acquire : LimitManager → ℕ → ℕ → LimitManager × LimitReply
unfolding from_child
limit_acquire l amt i = from_child l.parent amt i (acquire_memory l.child amt i)

-- From the end of the child's wait on, when the goroutine has the child's mutex back.
unfoldable pub limit_resume_child : LimitManager → ℕ → Bool → ℕ → LimitManager × LimitReply
unfolding from_child
limit_resume_child l amt cancelled i = from_child l.parent amt i (resume l.child amt cancelled i)

-- From the end of the parent's wait on: a cancelled context makes the parent's memory `nil`, and
-- the child's is released.
unfoldable pub limit_resume_parent : LimitManager → ℕ → Bool → ℕ → LimitManager × LimitReply
unfolding from_parent
limit_resume_parent l amt cancelled i = from_parent l.child amt i (resume l.parent amt cancelled i)

-- `limitAcquiredMemory.Release`
unfoldable pub limit_release : LimitManager → ℕ → ℕ → ℕ → LimitManager
limit_release l of_child of_parent i = record {
  parent = release l.parent of_parent i;
  child = release l.child of_child i;
}

-- `limitAcquiredMemory.ReleaseSome`; `none` is a panic of either half.
unfoldable pub limit_release_some : LimitManager → ℕ → ℕ → ℕ → ℕ → Option (LimitManager × ℕ × ℕ)
limit_release_some l of_child of_parent amt i = elim (release_some l.child of_child amt i) [
  | none ↦ none
  | some (c, r) ↦ elim (release_some l.parent of_parent amt i) [
    | none ↦ none
    | some (p, q) ↦ some (record { parent = p; child = c }, r, q)
  ]
]
