-- ===== src/Risk/Matching/Placement.antt =====
-- What the searches of `independentPlacement` guarantee together.
use native.Mathlib.Decide.{ℕ_discrete}
use sia_optimization_proposa.Prelude.{
  ℕ, zero, suc, ◌<◌, ◌≡◌, ◌≢◌, refl, ◌⊎◌, inl, inr, Bool, true, false, Option, none, some, List, [],
  ◌∷◌, arith, length, get_or, ap, ◌∙◌, sym, replicate, length-replicate,
}
use sia_optimization_proposa.Risk.Matching.{Match, seen, assign, fresh, assign_all}
use sia_optimization_proposa.Risk.Matching.Post.{In, unvisited, Pre, Post}
use sia_optimization_proposa.Risk.Matching.Search.{assign-Ends}

abbrev pub at : List (Option ℕ) → ℕ → Option ℕ
at slots i = get_or slots i none

abbrev pub IsAbsent : ℕ → List (Option ℕ) → Type 0
IsAbsent host slots = (i : ℕ) → at slots i ≢ some host

-- At most one shard for each host, and only a shard that the host stores. (One host for each shard
-- is in the type of the table.)
pub record IsPlaced (adj : ℕ → List ℕ) (slots : List (Option ℕ)) : Type 0 where
  pub once : (i j x : ℕ) → at slots i ≡ some x → at slots j ≡ some x → i ≡ j
  pub stored : (i x : ℕ) → at slots i ≡ some x → In i (adj x)

-- A set of shards that shows that there is no room for a host: it holds the host's shards, and each
-- of its shards is occupied by a host that has no shard outside of it.
pub record IsFull (adj : ℕ → List ℕ) (host : ℕ) (slots : List (Option ℕ)) (within : ℕ → Bool)
    : Type 0 where
  pub own : (j : ℕ) → In j (adj host) → within j ≡ true
  pub taken :
      (j : ℕ)
      → j < length slots
      → within j ≡ true
      → (x : ℕ) × (at slots j ≡ some x) × ((k : ℕ) → In k (adj x) → within k ≡ true)

unvisited-fresh : (n : ℕ) → unvisited (replicate n false) ≡ n
unvisited-fresh zero = refl
unvisited-fresh (suc n) = ap suc (unvisited-fresh n)

unseen-fresh : (n j : ℕ) → j < n → get_or (replicate n false) j true ≡ false
unseen-fresh zero j h = absurd (omega arith)
unseen-fresh (suc n) zero h = refl
unseen-fresh (suc n) (suc j) h = unseen-fresh n j (omega arith)

module _ (adj : ℕ → List ℕ) (host : ℕ) (slots : List (Option ℕ)) (ok : IsPlaced adj slots)
    (absent : IsAbsent host slots) where
  fresh-Pre : Pre adj host none (fresh adj slots)
  fresh-Pre = record {
    sizes = length-replicate (length slots) false;
    once = ok.once;
    stored = ok.stored;
    at_old = λ i h. absurd (absent i h);
    old_seen = λ i h. absurd (cc);
  }

  abbrev pub Answer : Bool → Match → Type 0
  Answer found st =
      (length st.assigned ≡ length slots)
      × IsPlaced adj st.assigned
      × ((i x : ℕ) → at slots i ≡ some x → (j : ℕ) × (at st.assigned j ≡ some x))
      × ((i x : ℕ) → at st.assigned i ≡ some x → (x ≡ host) ⊎ ((j : ℕ) × (at slots j ≡ some x)))
      × (((found ≡ true) × ((j : ℕ) × (at st.assigned j ≡ some host)))
          ⊎ ((found ≡ false) × (st.assigned ≡ slots) × IsFull adj host slots (seen st)))

  verdict :
      (found : Bool) (st : Match)
      → Post adj (adj host) host none (fresh adj slots) found st
      → ((found ≡ true) × ((j : ℕ) × (at st.assigned j ≡ some host)))
        ⊎ ((found ≡ false) × (st.assigned ≡ slots) × IsFull adj host slots (seen st))
  verdict true st q = let (j, e, far) = q.placed refl in inl (refl, (j, e))
  verdict false st q = inr (
    refl,
    q.unchanged refl,
    record {
      own = q.covered refl;
      taken = λ j h w. q.occupied refl j (unseen-fresh (length slots) j h) w;
    },
  )

  -- From a table that is a placement, a search for a host that is not placed ends within the fuel
  -- of one more than the number of shards. The table it leaves is a placement again, with the
  -- hosts that were placed still placed and no other but the new one; the answer is true with the
  -- host placed, or false with the table as it was and a full set of shards that shows that there
  -- was no room.
  pub assign_answers :
      (found : Bool) × (st : Match) × (assign adj (suc (length slots)) host (fresh adj slots)
        ≡ some (found, st))
      × Answer found st
  assign_answers =
      let (found, st, e, q) =
        assign-Ends adj (suc (length slots)) host none (fresh adj slots) fresh-Pre
          (omega (arith, unvisited-fresh (length slots))) in
      (
        found,
        st,
        e,
        (
          q.size_assigned,
          record { once = λ i j x h k. once_at (q.almost_once i j x h k); stored = q.stored },
          q.keeps,
          q.from,
          verdict found st q,
        ),
      )
    where
      once_at : {i j x : ℕ} → (i ≢ j → (x ≡ host) × ((none ≡ some i) ⊎ (none ≡ some j))) → i ≡ j
      once_at {i} {j} f = elim (ℕ_discrete i j) [
        | yes e ↦ e
        | no n ↦ absurd (elim (f n).1 [ inl c ↦ cc | inr c ↦ cc ])
      ]

-- None of the hosts is placed, and they are all different.
abbrev pub AllAbsent : List ℕ → List (Option ℕ) → Type 0
AllAbsent [] slots = Unit
AllAbsent (h ∷ hs) slots = IsAbsent h slots × (¬ In h hs) × AllAbsent hs slots

pub AllAbsent-step :
    (host : ℕ) (hs : List ℕ) (slots slots' : List (Option ℕ))
    → ((i x : ℕ) → at slots' i ≡ some x → (x ≡ host) ⊎ ((j : ℕ) × (at slots j ≡ some x)))
    → ¬ In host hs
    → AllAbsent hs slots
    → AllAbsent hs slots'
AllAbsent-step host [] slots slots' from other h = tt
AllAbsent-step host (g ∷ hs) slots slots' from other h = (
  λ i e. elim (from i g e) [ inl same ↦ other (inl (sym same)) | inr (j, at_j) ↦ h.0 j at_j ],
  h.1,
  AllAbsent-step host hs slots slots' from (λ m. other (inr m)) h.2,
)

pub assign_all-cons :
    (adj : ℕ → List ℕ) (host : ℕ) (order : List ℕ) (slots : List (Option ℕ)) (found : Bool)
    (st : Match)
    → assign adj (suc (length slots)) host (fresh adj slots) ≡ some (found, st)
    → assign_all adj (host ∷ order) slots ≡ assign_all adj order st.assigned
unfolding assign_all
assign_all-cons adj host order slots found st e = rw (e, assign_all)

-- From a table that is a placement, the searches for any list of different hosts that are not yet
-- placed all end, and leave a table of the same size that gives every host at most one shard,
-- which it stores, and in which every host that was placed is still placed.
pub assign_all-IsPlaced :
    (adj : ℕ → List ℕ) (order : List ℕ) (slots : List (Option ℕ))
    → IsPlaced adj slots
    → AllAbsent order slots
    → (slots' : List (Option ℕ)) × (assign_all adj order slots ≡ some slots')
      × (length slots' ≡ length slots)
      × IsPlaced adj slots'
      × ((i x : ℕ) → at slots i ≡ some x → (j : ℕ) × (at slots' j ≡ some x))
unfolding assign_all
assign_all-IsPlaced adj [] slots ok absent = (slots, refl, refl, ok, λ i x h. (i, h))
assign_all-IsPlaced adj (host ∷ order) slots ok absent =
    let (found, st, e, (size, ok', keeps, from, _)) = assign_answers adj host slots ok absent.0 in
    let (slots', e', size', ok'', keeps') =
      assign_all-IsPlaced adj order st.assigned ok'
        (AllAbsent-step host order slots st.assigned from absent.1 absent.2) in
    (
      slots',
      assign_all-cons adj host order slots found st e ∙ e',
      size' ∙ size,
      ok'',
      λ i x h. let (j, k) = keeps i x h in keeps' j x k,
    )
