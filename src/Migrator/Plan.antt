-- ===== src/Migrator/Plan.antt =====
-- `migrate` of autopilot/migrator/worker.go: which shards move, and to which hosts. The download,
-- the encryption and the upload are calls of other components.
pub mod Laws
pub mod Kept
pub mod Downloads
pub mod Destinations
pub mod Enough
use sia_optimization_proposa.Prelude.{
  ℕ, suc, ◌+◌, ◌-◌, Bool, true, false, ◌||◌, ◌&&◌, not, Option, none, some, List, [], ◌∷◌, map,
  if◌then◌else◌, ◌==◌, ltb, length, get_or, any,
}

abbrev pub has : ℕ → List ℕ → Bool
has k [] = false
has k (j ∷ js) = j == k || has k js

-- `upload.HostInfo`, as far as the plan reads it.
pub record UploadHost : Type 0 where
  pub public_key : ℕ
  pub contract_id : ℕ

-- A shard's `Contracts`: its hosts, each with its contracts, in the order of the loop.
abbrev pub Shard : Type 0
Shard = List (ℕ × List ℕ)

-- The keys of `destinations`: the distinct hosts that are not avoided.
unfoldable pub destinations : List ℕ → List UploadHost → List ℕ → List ℕ
destinations avoid [] found = found
destinations avoid (h ∷ hosts) found =
    destinations avoid hosts
      (if has h.public_key avoid || has h.public_key found then found else h.public_key ∷ found)

-- Whether one of the contracts with the host makes it the shard's host.
unfoldable pub good_contract : ℕ → List ℕ → List ℕ → List ℕ → List ℕ → Bool
good_contract hk usable contracts seen [] = false
good_contract hk usable contracts seen (fcid ∷ fcids) =
    has hk usable && has fcid contracts && not (has hk seen)
    || good_contract hk usable contracts seen fcids

-- The first good host of a shard.
unfoldable pub good_host : List ℕ → List ℕ → List ℕ → List ℕ → Shard → Option ℕ
good_host avoid usable contracts seen [] = none
good_host avoid usable contracts seen ((hk, fcids) ∷ shard) =
    let rest = good_host avoid usable contracts seen shard in
    if not (has hk avoid) && good_contract hk usable contracts seen fcids then some hk else rest

-- The loop over the shards: the indices to migrate, and the hosts that are used.
unfoldable pub collect : List ℕ → List ℕ → List ℕ → ℕ → List ℕ → List Shard → List ℕ × List ℕ
collect avoid usable contracts i seen [] = ([], seen)
collect avoid usable contracts i seen (shard ∷ shards) =
    elim (good_host avoid usable contracts seen shard) [
      | some hk ↦ collect avoid usable contracts (suc i) (hk ∷ seen) shards
      | none ↦
          let (indices, used) = collect avoid usable contracts (suc i) seen shards in
          (i ∷ indices, used)
    ]

-- The shards to migrate that no usable host holds.
unfoldable pub missing : List ℕ → List Shard → List ℕ → ℕ
missing usable shards [] = 0
missing usable shards (i ∷ indices) =
    let rest = missing usable shards indices in
    if any (λ (e : ℕ × List ℕ). has e.0 usable) (get_or shards i []) then rest else suc rest

-- `allowed`
unfoldable pub allowed : List ℕ → List ℕ → List UploadHost → List UploadHost
allowed avoid seen [] = []
allowed avoid seen (h ∷ hosts) =
    let skipped = allowed avoid seen hosts in
    let taken = h ∷ allowed avoid (h.public_key ∷ seen) hosts in
    if has h.public_key avoid || has h.public_key seen then skipped else taken

pub data Outcome : Type 0 where
  done too_few_destinations too_few_hosts too_few_downloads : Outcome
  upload : List ℕ → List UploadHost → Outcome

-- The hosts that are avoided in the end: none if too few destinations are left.
unfoldable pub effective_avoid : List ℕ → List UploadHost → ℕ → List ℕ
effective_avoid [] hosts shards = []
effective_avoid (a ∷ as') hosts shards =
    if ltb (length (destinations (a ∷ as') hosts [])) shards then [] else a ∷ as'

-- `insufficientDestinations`
unfoldable pub insufficient : List ℕ → List UploadHost → ℕ → Bool
insufficient [] hosts shards = false
insufficient (a ∷ as') hosts shards = ltb (length (destinations (a ∷ as') hosts [])) shards

unfoldable pub decide_plan :
    Bool → List ℕ → List ℕ → List UploadHost → ℕ → List Shard → List ℕ × List ℕ → Outcome
decide_plan short avoid usable hosts min_shards shards ([], used) =
    if short then too_few_destinations else done
decide_plan short avoid usable hosts min_shards shards (i ∷ indices, used) =
    if ltb (length hosts) min_shards
    then too_few_hosts
    else if ltb (length shards - missing usable shards (i ∷ indices)) min_shards
    then too_few_downloads
    else upload (i ∷ indices) (allowed avoid used hosts)

unfoldable pub plan : List Shard → ℕ → List ℕ → List UploadHost → List ℕ → Outcome
plan shards min_shards usable hosts avoid =
    let avoided = effective_avoid avoid hosts (length shards) in
    let contracts = map (λ (h : UploadHost). h.contract_id) hosts in
    decide_plan (insufficient avoid hosts (length shards)) avoided usable hosts min_shards shards
      (collect avoided usable contracts 0 [] shards)
