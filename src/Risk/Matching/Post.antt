-- ===== src/Risk/Matching/Post.antt =====
-- What a search from one host does to the table, and how the steps of its loop compose.
use native.Mathlib.Decide.{ℕ_discrete}
use sia_optimization_proposa.Prelude.{
  ℕ, zero, suc, ◌≤◌, ◌<◌, ◌≡◌, ◌≢◌, refl, ◌⊎◌, inl, inr, Bool, true, false, Option, none, some,
  List, [], ◌∷◌, arith, if◌then◌else◌, ◌==◌, length, get_or, set, ap, ◌∙◌, length-set,
}
use sia_optimization_proposa.Risk.Matching.{Match, seen, slot, mark, occupy}

abbrev pub In : ℕ → List ℕ → Type 0
In i [] = ⊥
In i (j ∷ js) = (i ≡ j) ⊎ In i js

-- The shards that are not visited yet.
abbrev pub unvisited : List Bool → ℕ
unvisited [] = 0
unvisited (true ∷ vs) = unvisited vs
unvisited (false ∷ vs) = suc (unvisited vs)

pub seen-set :
    (vs : List Bool) (i j : ℕ)
    → get_or (set vs i true) j true ≡ (if i == j then true else get_or vs j true)
seen-set [] i j = ground arith
seen-set (v ∷ vs) zero zero = refl
seen-set (v ∷ vs) zero (suc j) = ground arith
seen-set (v ∷ vs) (suc i) zero = ground arith
seen-set (v ∷ vs) (suc i) (suc j) = ground (arith, seen-set vs i j)

pub slot-set :
    {A : Type 0} (xs : List (Option A)) (i j : ℕ) (x : Option A)
    → i < length xs
    → get_or (set xs i x) j none ≡ (if i == j then x else get_or xs j none)
slot-set [] i j x h = absurd (omega arith)
slot-set (v ∷ vs) zero zero x h = refl
slot-set (v ∷ vs) zero (suc j) x h = ground arith
slot-set (v ∷ vs) (suc i) zero x h = ground arith
slot-set (v ∷ vs) (suc i) (suc j) x h = ground (arith, slot-set vs i j x)

pub unvisited-set :
    (vs : List Bool) (i : ℕ)
    → get_or vs i true ≡ false
    → suc (unvisited (set vs i true)) ≡ unvisited vs
unvisited-set [] i h = cc
unvisited-set (true ∷ vs) zero h = cc
unvisited-set (false ∷ vs) zero h = refl
unvisited-set (true ∷ vs) (suc i) h = unvisited-set vs i h
unvisited-set (false ∷ vs) (suc i) h = ap suc (unvisited-set vs i h)

pub lt_of_unseen : (vs : List Bool) (i : ℕ) → get_or vs i true ≡ false → i < length vs
lt_of_unseen [] i h = absurd (cc)
lt_of_unseen (v ∷ vs) zero h = omega arith
lt_of_unseen (v ∷ vs) (suc i) h = omega (arith, lt_of_unseen vs i h)

module _ (adj : ℕ → List ℕ) where
  -- A table that places each host once, on a shard that it stores; `host` is nowhere but at `old`,
  -- which is visited.
  pub record Pre (host : ℕ) (old : Option ℕ) (st : Match) : Type 0 where
    pub sizes : length st.visited ≡ length st.assigned
    pub once : (i j x : ℕ) → slot st i ≡ some x → slot st j ≡ some x → i ≡ j
    pub stored : (i x : ℕ) → slot st i ≡ some x → In i (adj x)
    pub at_old : (i : ℕ) → slot st i ≡ some host → old ≡ some i
    pub old_seen : (i : ℕ) → old ≡ some i → seen st i ≡ true

  -- From `st` the search of `host` over the shards `js` ends in `st'` with the answer `found`.
  pub record Post (js : List ℕ) (host : ℕ) (old : Option ℕ) (st : Match) (found : Bool)
      (st' : Match) : Type 0 where
    pub size_visited : length st'.visited ≡ length st.visited
    pub size_assigned : length st'.assigned ≡ length st.assigned
    pub fewer : unvisited st'.visited ≤ unvisited st.visited
    pub grows : (j : ℕ) → seen st j ≡ true → seen st' j ≡ true
    pub unchanged : found ≡ false → st'.assigned ≡ st.assigned
    pub frame : (j : ℕ) → seen st j ≡ true → slot st' j ≡ slot st j
    pub almost_once :
        (i j x : ℕ)
        → slot st' i ≡ some x
        → slot st' j ≡ some x
        → i ≢ j
        → (x ≡ host) × ((old ≡ some i) ⊎ (old ≡ some j))
    pub stored : (i x : ℕ) → slot st' i ≡ some x → In i (adj x)
    pub from : (i x : ℕ) → slot st' i ≡ some x → (x ≡ host) ⊎ ((j : ℕ) × (slot st j ≡ some x))
    pub keeps : (i x : ℕ) → slot st i ≡ some x → (j : ℕ) × (slot st' j ≡ some x)
    pub placed : found ≡ true → (j : ℕ) × (slot st' j ≡ some host) × (seen st j ≡ false)
    pub covered : found ≡ false → (j : ℕ) → In j js → seen st' j ≡ true
    pub occupied :
        found ≡ false
        → (j : ℕ) → seen st j ≡ false
        → seen st' j ≡ true
        → (x : ℕ) × (slot st j ≡ some x) × ((k : ℕ) → In k (adj x) → seen st' k ≡ true)

  pub Post-nil :
      (host : ℕ) (old : Option ℕ) (st : Match) → Pre host old st → Post [] host old st false st
  Post-nil host old st p = record {
    size_visited = refl;
    size_assigned = refl;
    fewer = omega arith;
    grows = λ j h. h;
    unchanged = λ _. refl;
    frame = λ j h. refl;
    almost_once = λ i j x h k ne. absurd (ne (p.once i j x h k));
    stored = p.stored;
    from = λ i x h. inr (i, h);
    keeps = λ i x h. (i, h);
    placed = λ e. absurd (cc);
    covered = λ e j h. absurd h;
    occupied = λ e j h k. absurd (cc);
  }

  -- A visited shard is passed over.
  pub Post-skip :
      {js : List ℕ} {host : ℕ} {old : Option ℕ} {st : Match} {found : Bool} {st' : Match} (i : ℕ)
      → seen st i ≡ true
      → Post js host old st found st'
      → Post (i ∷ js) host old st found st'
  Post-skip {js} {host} {old} {st} {found} {st'} i s q = record {
    size_visited = q.size_visited;
    size_assigned = q.size_assigned;
    fewer = q.fewer;
    grows = q.grows;
    unchanged = q.unchanged;
    frame = q.frame;
    almost_once = q.almost_once;
    stored = q.stored;
    from = q.from;
    keeps = q.keeps;
    placed = q.placed;
    covered = λ e j. elim [ inl eq ↦ rw eq (q.grows i s) | inr r ↦ q.covered e j r ];
    occupied = q.occupied;
  }

  module _ {host : ℕ} {old : Option ℕ} {st : Match} (p : Pre host old st) (i : ℕ)
      (new : seen st i ≡ false) where
    in_range : i < length st.assigned
    in_range = omega (arith, p.sizes, lt_of_unseen st.visited i new)

    seen-mark : (j : ℕ) → seen (mark i st) j ≡ (if i == j then true else seen st j)
    unfolding mark
    seen-mark j = seen-set st.visited i j

    -- A free shard is taken.
    pub Post-free :
        (js : List ℕ)
        → slot st i ≡ none
        → In i (adj host)
        → Post (i ∷ js) host old st true (occupy host i (mark i st))
    unfolding mark occupy
    Post-free js e stored = record {
      size_visited = length-set st.visited i true;
      size_assigned = length-set st.assigned i (some host);
      fewer = omega (arith, unvisited-set st.visited i new);
      grows = λ j h. ground (arith, seen-set st.visited i j);
      unchanged = λ e. absurd (cc);
      frame = λ j h. ground (arith, slot-set st.assigned i j (some host) in_range);
      almost_once = λ a b x h k ne. ground (
        arith,
        slot-set st.assigned i a (some host) in_range,
        slot-set st.assigned i b (some host) in_range,
        p.at_old a,
        p.at_old b,
        p.once a b x,
      );
      stored = λ a x h. ground (arith, slot-set st.assigned i a (some host) in_range, p.stored a x);
      from = λ a x h. elim (ℕ_discrete i a) [
        | yes here ↦ inl (ground (arith, slot-set st.assigned i a (some host) in_range))
        | no other ↦ inr (a, ground (arith, slot-set st.assigned i a (some host) in_range))
      ];
      keeps = λ a x h. (a, ground (arith, slot-set st.assigned i a (some host) in_range));
      placed = λ _. (i, ground (arith, slot-set st.assigned i i (some host) in_range), new);
      covered = λ e. absurd (cc);
      occupied = λ e. absurd (cc);
    }

    -- The host of a visited shard can be searched for.
    pub Pre-mark : (other : ℕ) → slot st i ≡ some other → Pre other (some i) (mark i st)
    unfolding mark
    Pre-mark other e = record {
      sizes = length-set st.visited i true ∙ p.sizes;
      once = p.once;
      stored = p.stored;
      at_old = λ j h. ap some (p.once i j other e h);
      old_seen = λ j h. ground (arith, seen-set st.visited i j);
    }
