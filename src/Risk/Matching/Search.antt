-- ===== src/Risk/Matching/Search.antt =====
-- The search ends, whatever the table is, and what the whole assignment guarantees.
use sia_optimization_proposa.Prelude.{
  ℕ, zero, suc, ◌≤◌, ◌<◌, ◌≡◌, refl, inl, inr, Bool, true, false, Option, some, List, [], ◌∷◌,
  arith, Bool-cases, Option-cases,
}
use sia_optimization_proposa.Risk.Matching.{
  Match, seen, slot, mark, occupy, Outcome, displace, take_shard, try_shards, assign,
}
use sia_optimization_proposa.Risk.Matching.Post.{
  In, unvisited, Pre, Post, Post-nil, Post-skip, Post-free, Pre-mark,
}
use sia_optimization_proposa.Risk.Matching.Moves.{unvisited-mark, Post-moved, Pre-retry, Post-retry}

module _ (adj : ℕ → List ℕ) where
  -- The outcome is an answer, and the answer satisfies the postcondition.
  abbrev pub Ends : List ℕ → ℕ → Option ℕ → Match → Outcome → Type 0
  Ends js host old st r =
      (found : Bool) × (st' : Match) × (r ≡ some (found, st')) × Post adj js host old st found st'

  abbrev Searches : ℕ → (ℕ → Match → Outcome) → Type 0
  Searches fuel rec =
      (host : ℕ) (old : Option ℕ) (st : Match)
      → Pre adj host old st
      → unvisited st.visited < fuel
      → Ends (adj host) host old st (rec host st)

  module _ (fuel : ℕ) (rec : ℕ → Match → Outcome) (searches : Searches fuel rec) (host : ℕ) where
    try_shards-Ends :
        (js : List ℕ) (old : Option ℕ) (st : Match)
        → Pre adj host old st
        → ((j : ℕ) → In j js → In j (adj host))
        → unvisited st.visited ≤ fuel
        → Ends js host old st (try_shards rec host js st)
    unfolding try_shards take_shard displace
    try_shards-Ends [] old st p sub h = (false, st, refl, Post-nil adj host old st p)
    try_shards-Ends (i ∷ js) old st p sub h =
        let later = λ (t : Match). try_shards-Ends js old t in
        let rest = λ (j : ℕ) (k : In j js). sub j (inr k) in
        elim (Bool-cases (seen st i)) [
          | inl old_shard ↦
              let (b, t, e, q) = later st p rest h in
              (b, t, rw old_shard e, Post-skip adj i old_shard q)
          | inr new ↦ elim (Option-cases (slot st i)) [
            | inl free ↦ (
              true,
              occupy host i (mark i st),
              rw (new, free),
              Post-free adj p i new js free (sub i (inl refl)),
            )
            | inr (other, taken) ↦
                ends_taken i js old st p rest (sub i (inl refl)) h new other taken later
          ]
        ]
      where
        ends_taken :
            (i : ℕ) (js : List ℕ) (old : Option ℕ) (st : Match) (p : Pre adj host old st)
            → ((j : ℕ) → In j js → In j (adj host))
            → In i (adj host)
            → unvisited st.visited ≤ fuel
            → (new : seen st i ≡ false) (other : ℕ) (taken : slot st i ≡ some other)
            → ((t : Match)
                → Pre adj host old t
                → ((j : ℕ) → In j js → In j (adj host))
                → unvisited t.visited ≤ fuel
                → Ends js host old t (try_shards rec host js t))
            → Ends (i ∷ js) host old st (try_shards rec host (i ∷ js) st)
        ends_taken i js old st p rest here h new other taken later =
            let less = unvisited-mark adj p i new other taken in
            let (b, t, e, q) =
              searches other (some i) (mark i st) (Pre-mark adj p i new other taken)
                (omega arith) in
            after b t e q
          where
            after :
                (b : Bool) (t : Match)
                → rec other (mark i st) ≡ some (b, t)
                → Post adj (adj other) other (some i) (mark i st) b t
                → Ends (i ∷ js) host old st (try_shards rec host (i ∷ js) st)
            after true t e q = (
              true,
              occupy host i t,
              rw (new, taken, e),
              Post-moved adj p i new other taken q js here,
            )
            after false t e q =
                let (b, u, e', r) =
                  later t (Pre-retry adj p i new other taken q) rest
                    (omega (arith, q.fewer, unvisited-mark adj p i new other taken)) in
                (b, u, rw (new, taken, e) e', Post-retry adj p i new other taken q r)

  -- With more fuel than there are unvisited shards a search ends with an answer.
  pub assign-Ends :
      (fuel host : ℕ) (old : Option ℕ) (st : Match)
      → Pre adj host old st
      → unvisited st.visited < fuel
      → Ends (adj host) host old st (assign adj fuel host st)
  unfolding assign
  assign-Ends zero host old st p h = absurd (omega arith)
  assign-Ends (suc fuel) host old st p h =
      try_shards-Ends fuel (assign adj fuel) (assign-Ends fuel) host (adj host) old st p (λ j k. k)
        (omega arith)
