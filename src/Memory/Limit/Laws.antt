-- ===== src/Memory/Limit/Laws.antt =====
-- A limited manager keeps the accounts of both its halves.
use sia_optimization_proposa.Prelude.{ℕ, ◌+◌, ◌≤◌, ◌<◌, ◌≡◌, ◌≢◌, ◌⊎◌, Bool, true, false, arith}
use sia_optimization_proposa.Memory.{
  Manager, Reply, refused, waiting, granted, acquire_memory, try_take, grant, resume, release,
  broadcast,
}
use sia_optimization_proposa.Memory.Invariant.{IsWell, taken, acquire-IsWell, release-IsWell}
use sia_optimization_proposa.Memory.Limit.{
  LimitManager, LimitReply, limit_refused, waiting_for_child, waiting_for_parent, limit_granted,
  from_parent, from_child, limit_acquire, limit_resume_child, limit_resume_parent,
}

-- What a reply leaves held of the child and of the parent.
abbrev pub child_taken : LimitReply → ℕ
child_taken limit_refused = 0
child_taken waiting_for_child = 0
child_taken (waiting_for_parent n) = n
child_taken (limit_granted c p) = c

abbrev pub parent_taken : LimitReply → ℕ
parent_taken limit_refused = 0
parent_taken waiting_for_child = 0
parent_taken (waiting_for_parent n) = 0
parent_taken (limit_granted c p) = p

abbrev pub BothWell : LimitManager → ℕ → ℕ → Type 0
BothWell l c p = IsWell l.child c × IsWell l.parent p

abbrev Settled : ℕ → ℕ → LimitManager × LimitReply → Type 0
Settled c p r = BothWell r.0 (c + child_taken r.1) (p + parent_taken r.1)

from_parent-Settled :
    (child : Manager) (amt i c p : ℕ) (r : Manager × Reply)
    → IsWell child (c + amt)
    → IsWell r.0 (p + taken r.1)
    → Settled c p (from_parent child amt i r)
unfolding from_parent
from_parent-Settled child amt i c p (q, refused) w v =
    ground (arith, release-IsWell child amt i c w)
from_parent-Settled child amt i c p (q, waiting) w v = ground arith
from_parent-Settled child amt i c p (q, granted n) w v = ground arith

from_child-Settled :
    (parent : Manager) (amt i c p : ℕ) (r : Manager × Reply)
    → IsWell r.0 (c + taken r.1)
    → IsWell parent p
    → Settled c p (from_child parent amt i r)
unfolding from_child
from_child-Settled parent amt i c p (q, refused) w v = ground arith
from_child-Settled parent amt i c p (q, waiting) w v = ground arith
from_child-Settled parent amt i c p (q, granted n) w v =
    from_parent-Settled q n i c p (acquire_memory parent amt i) w (acquire-IsWell parent amt i p v)

-- `AcquireMemory` of a limited manager keeps both halves well formed, each next to what it has
-- handed out: a refusal by the parent gives the child's memory back, and a wait for the parent
-- holds it.
pub limit_acquire-BothWell :
    (l : LimitManager) (amt i c p : ℕ)
    → IsWell l.child c
    → IsWell l.parent p
    → let r = limit_acquire l amt i in BothWell r.0 (c + child_taken r.1) (p + parent_taken r.1)
unfolding limit_acquire
limit_acquire-BothWell l amt i c p w v =
    from_child-Settled l.parent amt i c p (acquire_memory l.child amt i)
      (acquire-IsWell l.child amt i c w) v

-- What the end of a wait comes to: with a cancelled context a refusal that leaves the manager `l'`,
-- otherwise no refusal.
abbrev pub RefusedIf : Bool → LimitManager → LimitManager × LimitReply → Type 0
RefusedIf cancelled l' r =
    (cancelled ≡ true) × (r ≡ (l', limit_refused)) ⊎ (cancelled ≡ false) × (r.1 ≢ limit_refused)

-- When `AcquireMemory` of a limited manager whose child's total is within its parent's gives `nil`.
-- Before any wait: exactly for the amount zero and amounts above the child's total, with both halves
-- as they were. At the end of a wait for either half, for any other amount: exactly when the context
-- is cancelled. Then those who wait for that half are woken; the parent is not asked after a wait
-- for the child, and the child's memory is released after a wait for the parent.
pub limit_acquire_refuses :
    (l : LimitManager) (amt : ℕ) (cancelled : Bool) (i : ℕ)
    → l.child.total_available ≤ l.parent.total_available
    → ((amt ≡ 0) ⊎ (l.child.total_available < amt)) × (limit_acquire l amt i ≡ (l, limit_refused))
      ⊎ (0 < amt)
        × (amt ≤ l.child.total_available)
        × ((limit_acquire l amt i).1 ≢ limit_refused)
        × RefusedIf cancelled
            (record l { child = broadcast l.child })
            (limit_resume_child l amt cancelled i)
        × RefusedIf cancelled
            (record { parent = broadcast l.parent; child = release l.child amt i })
            (limit_resume_parent l amt cancelled i)
unfolding limit_acquire limit_resume_child limit_resume_parent from_child from_parent acquire_memory
    resume try_take grant
limit_acquire_refuses l amt true i h = ground arith
limit_acquire_refuses l amt false i h = ground arith
