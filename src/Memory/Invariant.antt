-- ===== src/Memory/Invariant.antt =====
-- What holds of the memory manager between two critical sections.
use sia_optimization_proposa.Prelude.{
  ℕ, zero, suc, ◌+◌, ◌≤◌, ◌<◌, ◌≡◌, refl, inl, inr, Bool, true, false, Option, none, some, List, [],
  ◌∷◌, ◌++◌, arith, ltb, Bool-cases, get_elem?, set, erase_idx,
}
use sia_optimization_proposa.Prelude.Sums.{sum, sum-append, sum-set, get_elem?-le-sum}
use sia_optimization_proposa.Prelude.Words.{u64_mod, add64, sub64}
use sia_optimization_proposa.Memory.{
  Manager, Reply, refused, waiting, granted, pick, signal, broadcast, grant, try_take,
  acquire_memory, resume, release, release_some, System, Call, acquires, resumes, releases,
  releases_some, settle, step, run, new_manager, resumes_at, releases_at, releases_some_at,
}

-- A goroutine waits only for an amount that the manager can ever have.
abbrev pub Fits : ℕ → List ℕ → Type 0
Fits total [] = Unit
Fits total (a ∷ ws) = (0 < a) × (a ≤ total) × Fits total ws

pub Fits-append : (t : ℕ) (ws bs : List ℕ) → Fits t ws → Fits t bs → Fits t (ws ++ bs)
Fits-append t [] bs h k = k
Fits-append t (a ∷ ws) bs h k = (h.0, h.1, Fits-append t ws bs h.2 k)

Fits-erase_idx : (t : ℕ) (ws : List ℕ) (i : ℕ) → Fits t ws → Fits t (erase_idx ws i)
Fits-erase_idx t [] i h = tt
Fits-erase_idx t (a ∷ ws) zero h = h.2
Fits-erase_idx t (a ∷ ws) (suc i) h = (h.0, h.1, Fits-erase_idx t ws i h.2)

Fits-get_elem? :
    (t : ℕ) (ws : List ℕ) (i a : ℕ) → Fits t ws → get_elem? ws i ≡ some a → (0 < a) × (a ≤ t)
Fits-get_elem? t [] i a h e = absurd (ground arith)
Fits-get_elem? t (b ∷ ws) zero a h e = ground arith
Fits-get_elem? t (b ∷ ws) (suc i) a h e = Fits-get_elem? t ws i a h.2 e

pick-Fits :
    (t i x : ℕ) (xs : List ℕ)
    → Fits t (x ∷ xs)
    → Fits t ((pick i x xs).0 ∷ []) × Fits t (pick i x xs).1
unfolding pick
pick-Fits t i x [] h = (h, tt)
pick-Fits t zero x (y ∷ ys) h = ((h.0, h.1, tt), h.2)
pick-Fits t (suc i) x (y ∷ ys) h = let r = pick-Fits t i y ys h.2 in (r.0, (h.0, h.1, r.1))

pub record IsWell (m : Manager) (out : ℕ) : Type 0 where
  pub conserved : m.available + out ≡ m.total_available
  pub small : m.total_available < u64_mod
  pub asleep_fits : Fits m.total_available m.asleep
  pub awake_fits : Fits m.total_available m.awake

signal_at-IsWell :
    (i : ℕ) (m : Manager) (out : ℕ) (xs : List ℕ)
    → m.asleep ≡ xs
    → IsWell m out
    → IsWell (signal i m) out
unfolding signal
signal_at-IsWell i m out [] e w = ground arith
signal_at-IsWell i m out (x ∷ xs) e w =
    let f : Fits m.total_available (x ∷ xs) = subst_asleep in
    let p = pick-Fits m.total_available i x xs f in
    ground (arith, p, Fits-append m.total_available m.awake ((pick i x xs).0 ∷ []) w.awake_fits p.0)
  where
    subst_asleep : Fits m.total_available (x ∷ xs)
    subst_asleep = ground arith

pub signal-IsWell : (i : ℕ) (m : Manager) (out : ℕ) → IsWell m out → IsWell (signal i m) out
signal-IsWell i m out w = signal_at-IsWell i m out m.asleep refl w

broadcast-IsWell : (m : Manager) (out : ℕ) → IsWell m out → IsWell (broadcast m) out
unfolding broadcast
broadcast-IsWell m out w =
    ground (arith, Fits-append m.total_available m.awake m.asleep w.awake_fits w.asleep_fits)

-- What is handed out next to `out`.
abbrev pub taken : Reply → ℕ
taken refused = 0
taken waiting = 0
taken (granted amt) = amt

try_take-IsWell :
    (m : Manager) (amt i out : ℕ)
    → (0 < amt) × (amt ≤ m.total_available)
    → IsWell m out
    → let r = try_take m amt i in IsWell r.0 (out + taken r.1)
unfolding try_take grant
try_take-IsWell m amt i out h w = elim (Bool-cases (ltb m.available amt)) [
  | inl short ↦ rw short (
      ground
        (arith, Fits-append m.total_available m.asleep (amt ∷ []) w.asleep_fits (h.0, h.1, tt)))
  | inr enough ↦ rw enough (signal-IsWell i _ (out + amt) (ground arith))
]

pub acquire-IsWell :
    (m : Manager) (amt i out : ℕ)
    → IsWell m out
    → let r = acquire_memory m amt i in IsWell r.0 (out + taken r.1)
unfolding acquire_memory
acquire-IsWell m amt i out w = ground (arith, try_take-IsWell m amt i out)

pub resume-IsWell :
    (m : Manager) (amt : ℕ) (cancelled : Bool) (i out : ℕ)
    → (0 < amt) × (amt ≤ m.total_available)
    → IsWell m out
    → let r = resume m amt cancelled i in IsWell r.0 (out + taken r.1)
unfolding resume
resume-IsWell m amt true i out h w = ground (arith, broadcast-IsWell m out w)
resume-IsWell m amt false i out h w = try_take-IsWell m amt i out h w

pub release-IsWell :
    (m : Manager) (r i rest : ℕ) → IsWell m (rest + r) → IsWell (release m r i) rest
unfolding release
release-IsWell m r i rest w = signal-IsWell i _ rest (ground arith)

-- The manager is well formed next to what the live values hold.
abbrev pub IsValid : System → Type 0
IsValid s = IsWell s.manager (sum s.held)

settle-IsValid :
    (held : List ℕ) (m : Manager) (r : Reply)
    → IsWell m (sum held + taken r)
    → IsValid (settle held (m, r))
settle-IsValid held m refused w = ground arith
settle-IsValid held m waiting w = ground arith
settle-IsValid held m (granted amt) w = ground (arith, sum-append held (amt ∷ []))

-- An outcome that is no panic satisfies `P`.
abbrev pub Holds : (System → Type 0) → Option System → Type 0
Holds P none = Unit
Holds P (some t) = P t

resumes_at-IsValid :
    (s : System) (j : ℕ) (cancelled : Bool) (i : ℕ) (o : Option ℕ)
    → get_elem? s.manager.awake j ≡ o
    → IsValid s
    → IsValid (resumes_at s j cancelled i o)
unfolding resumes_at
resumes_at-IsValid s j cancelled i none e w = w
resumes_at-IsValid s j cancelled i (some amt) e w = settle-IsValid s.held _ _ (
    resume-IsWell (record s.manager { awake = erase_idx s.manager.awake j }) amt cancelled i
      (sum s.held) (Fits-get_elem? s.manager.total_available s.manager.awake j amt w.awake_fits e)
      (record {
        conserved = w.conserved;
        small = w.small;
        asleep_fits = w.asleep_fits;
        awake_fits = Fits-erase_idx s.manager.total_available s.manager.awake j w.awake_fits;
      }))

releases_at-IsValid :
    (s : System) (k i : ℕ) (o : Option ℕ)
    → get_elem? s.held k ≡ o
    → IsValid s
    → IsValid (releases_at s k i o)
unfolding releases_at
releases_at-IsValid s k i none e w = w
releases_at-IsValid s k i (some r) e w =
    release-IsWell s.manager r i (sum (set s.held k 0))
      (let eq = sum-set s.held k r 0 e in ground arith)

releases_some_at-IsValid :
    (s : System) (k amt i : ℕ) (o : Option ℕ)
    → get_elem? s.held k ≡ o
    → IsValid s
    → Holds IsValid (releases_some_at s k amt i o)
unfolding releases_some_at release_some
releases_some_at-IsValid s k amt i none e w = w
releases_some_at-IsValid s k amt i (some r) e w = ground (
  arith,
  sum-set s.held k r (sub64 r amt) e,
  get_elem?-le-sum s.held k r e,
  signal-IsWell i (record s.manager { available = add64 s.manager.available amt })
      (sum (set s.held k (sub64 r amt))),
)

-- Every critical section of a valid system panics or leaves it valid: what is available and what
-- the live values hold add up to the total, which stays a 64-bit number, and every goroutine that
-- waits asks for an amount between 1 and the total.
pub step-IsValid : (s : System) (c : Call) → IsValid s → Holds IsValid (step s c)
unfolding step
step-IsValid s (acquires amt i) w =
    settle-IsValid s.held _ _ (acquire-IsWell s.manager amt i (sum s.held) w)
step-IsValid s (resumes j cancelled i) w = resumes_at-IsValid s j cancelled i _ refl w
step-IsValid s (releases k i) w = releases_at-IsValid s k i _ refl w
step-IsValid s (releases_some k amt i) w = releases_some_at-IsValid s k amt i _ refl w

run_at-IsValid :
    (cs : List Call) (o : Option System)
    → ((t : System) → IsValid t → Holds IsValid (run t cs))
    → Holds IsValid o
    → Holds IsValid (elim o [ none ↦ none | some t ↦ run t cs ])
run_at-IsValid cs none ih w = tt
run_at-IsValid cs (some t) ih w = ih t w

run-IsValid : (s : System) (cs : List Call) → IsValid s → Holds IsValid (run s cs)
unfolding run
run-IsValid s [] w = w
run-IsValid s (c ∷ cs) w = run_at-IsValid cs (step s c) (λ t. run-IsValid t cs) (step-IsValid s c w)

abbrev pub start : ℕ → System
start max_memory = record { manager = new_manager max_memory; held = [] }

-- After any critical sections of a new manager with a 64-bit total, unless one panics, what is
-- available and what the live values hold add up to the total, and all that wait can be served.
pub run-start-IsValid :
    (max_memory : ℕ) (cs : List Call)
    → max_memory < u64_mod
    → Holds IsValid (run (start max_memory) cs)
unfolding new_manager
run-start-IsValid max_memory cs h = run-IsValid (start max_memory) cs (ground arith)
