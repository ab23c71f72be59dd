-- ===== src/Risk/Matching.antt =====
-- The augmenting-path search of `independentPlacement` (stores/repair_policy.go): hosts and shards
-- are numbers from 0, `adj h` is the list of `shard - 1` for the shards of host `h`.
pub mod Post
pub mod Moves
pub mod Search
pub mod Placement
pub mod Settled
use sia_optimization_proposa.Prelude.{
  ℕ, zero, suc, Bool, true, false, Option, none, some, List, [], ◌∷◌, if◌then◌else◌, length, get_or,
  set, replicate,
}

-- `assigned[i] == -1` is `none`. The checks in front of the search keep every index in range; the
-- default `true` of `visited` is never read.
pub record Match : Type 0 where
  pub visited : List Bool
  pub assigned : List (Option ℕ)

abbrev pub seen : Match → ℕ → Bool
seen st i = get_or st.visited i true

abbrev pub slot : Match → ℕ → Option ℕ
slot st i = get_or st.assigned i none

unfoldable pub mark : ℕ → Match → Match
mark i st = record st { visited = set st.visited i true }

unfoldable pub occupy : ℕ → ℕ → Match → Match
occupy host i st = record st { assigned = set st.assigned i (some host) }

-- The outcome of a search; `none` means that the fuel ran out.
abbrev pub Outcome : Type 0
Outcome = Option (Bool × Match)

-- What follows `assign(assigned[i], visited)`.
unfoldable pub displace : ℕ → ℕ → (Match → Outcome) → Outcome → Outcome
displace host i next none = none
displace host i next (some (true, st)) = some (true, occupy host i st)
displace host i next (some (false, st)) = next st

-- `assigned[i] == -1 || assign(assigned[i], visited)`
unfoldable pub take_shard :
    (ℕ → Match → Outcome) → ℕ → ℕ → (Match → Outcome) → Match → Option ℕ → Outcome
unfolding displace
take_shard assign host i next st none = some (true, occupy host i st)
take_shard assign host i next st (some other) = displace host i next (assign other st)

-- The loop over the shards of a host.
unfoldable pub try_shards : (ℕ → Match → Outcome) → ℕ → List ℕ → Match → Outcome
try_shards assign host [] st = some (false, st)
try_shards assign host (i ∷ rest) st =
    let next = try_shards assign host rest in
    if seen st i then next st else take_shard assign host i next (mark i st) (slot st i)

module _ (adj : ℕ → List ℕ) where
  unfoldable pub assign : ℕ → ℕ → Match → Outcome
  assign zero host st = none
  assign (suc fuel) host st = try_shards (assign fuel) host (adj host) st

  abbrev pub fresh : List (Option ℕ) → Match
  fresh slots = record { visited = replicate (length slots) false; assigned = slots }

  -- `for _, host := range order`, with a new `visited` each.
  unfoldable pub assign_all : List ℕ → List (Option ℕ) → Option (List (Option ℕ))
  assign_all [] slots = some slots
  assign_all (host ∷ order) slots = elim (assign (suc (length slots)) host (fresh slots)) [
    | none ↦ none
    | some (_, st) ↦ assign_all order st.assigned
  ]
