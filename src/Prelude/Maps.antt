-- ===== src/Prelude/Maps.antt =====
-- Go maps keyed by numbers (fixed byte arrays are read as numbers), as association lists. The
-- order of the list stands for the order in which a `range` loop meets the entries.
use Prim.Native.Nat.{ℕ}
use mathlib.Core.Path.{◌≡◌, refl}
use mathlib.Core.Bool.{Bool, false}
use mathlib.Core.List.{List, [], ◌∷◌}
use mathlib.Core.Option.{Option, none, some}
use native.Mathlib.Omega.{arith}
use sia_optimization_proposa.Prelude.Tests.{if◌then◌else◌, ◌==◌}

abbrev pub Map {ℓ} : Type ℓ → Type ℓ
Map V = List (ℕ × V)

module _ {ℓ} {V : Type ℓ} where
  -- `v, ok := m[k]`
  unfoldable pub lookup : ℕ → Map V → Option V
  lookup k [] = none
  lookup k ((j, v) ∷ m) = if j == k then some v else lookup k m

  -- `m[k] = v`
  unfoldable pub insert : ℕ → V → Map V → Map V
  insert k v [] = (k, v) ∷ []
  insert k v ((j, w) ∷ m) = if j == k then (k, v) ∷ m else (j, w) ∷ insert k v m

  -- `delete(m, k)`
  unfoldable pub delete : ℕ → Map V → Map V
  delete k [] = []
  delete k ((j, v) ∷ m) = let rest = delete k m in if j == k then rest else (j, v) ∷ rest

  -- `for k, v := range m { if p(v) { delete(m, k) } }`
  unfoldable pub prune : (V → Bool) → Map V → Map V
  prune p [] = []
  prune p ((j, v) ∷ m) = let rest = prune p m in if p v then rest else (j, v) ∷ rest

  pub lookup-insert :
      (entries : Map V) (at_key : ℕ) (v : V) (key : ℕ)
      → lookup key (insert at_key v entries)
        ≡ (if at_key == key then some v else lookup key entries)
  unfolding insert lookup
  lookup-insert [] at_key v key = refl
  lookup-insert ((i, w) ∷ rest) at_key v key = ground (arith, lookup-insert rest at_key v key)

  pub lookup-delete :
      (k j : ℕ) (m : Map V) → lookup j (delete k m) ≡ (if k == j then none else lookup j m)
  unfolding lookup delete
  lookup-delete at_key key [] = ground arith
  lookup-delete at_key key ((i, w) ∷ rest) = ground (arith, lookup-delete at_key key rest)

  -- The keys of a Go map are distinct.
  abbrev pub Fresh : ℕ → Map V → Type 0
  Fresh k [] = Unit
  Fresh k ((j, v) ∷ m) = ((j == k) ≡ false) × Fresh k m

  abbrev pub Distinct : Map V → Type 0
  Distinct [] = Unit
  Distinct ((j, v) ∷ m) = Fresh j m × Distinct m

  pub lookup-Fresh : (k : ℕ) (m : Map V) → Fresh k m → lookup k m ≡ none
  unfolding lookup
  lookup-Fresh k [] h = refl
  lookup-Fresh k ((j, v) ∷ m) h = ground (arith, lookup-Fresh k m h.1)

  pub Fresh-insert :
      (i k : ℕ) (v : V) (m : Map V) → (k == i) ≡ false → Fresh i m → Fresh i (insert k v m)
  unfolding insert
  Fresh-insert i k v [] e h = (e, tt)
  Fresh-insert i k v ((j, w) ∷ m) e h = ground (arith, Fresh-insert i k v m e h.1)

  pub insert-Distinct : (k : ℕ) (v : V) (m : Map V) → Distinct m → Distinct (insert k v m)
  unfolding insert
  insert-Distinct k v [] d = (tt, tt)
  insert-Distinct k v ((j, w) ∷ m) d =
      ground (arith, insert-Distinct k v m d.1, Fresh-insert j k v m)

  pub Fresh-delete : (i k : ℕ) (m : Map V) → Fresh i m → Fresh i (delete k m)
  unfolding delete
  Fresh-delete i k [] h = tt
  Fresh-delete i k ((j, w) ∷ m) h = ground (arith, Fresh-delete i k m h.1)

  pub delete-Distinct : (k : ℕ) (m : Map V) → Distinct m → Distinct (delete k m)
  unfolding delete
  delete-Distinct k [] d = tt
  delete-Distinct k ((j, w) ∷ m) d = ground (arith, delete-Distinct k m d.1, Fresh-delete j k m d.0)

  pub Fresh-prune : (i : ℕ) (p : V → Bool) (m : Map V) → Fresh i m → Fresh i (prune p m)
  unfolding prune
  Fresh-prune i p [] h = tt
  Fresh-prune i p ((j, w) ∷ m) h = ground (arith, Fresh-prune i p m h.1)

  pub prune-Distinct : (p : V → Bool) (m : Map V) → Distinct m → Distinct (prune p m)
  unfolding prune
  prune-Distinct p [] d = tt
  prune-Distinct p ((j, w) ∷ m) d = ground (arith, prune-Distinct p m d.1, Fresh-prune j p m d.0)

  abbrev pub survives : (V → Bool) → Option V → Option V
  survives p none = none
  survives p (some v) = if p v then none else some v

  -- A pruned map keeps exactly the entries that do not pass the test.
  pub lookup-prune :
      (k : ℕ) (p : V → Bool) (m : Map V)
      → Distinct m
      → lookup k (prune p m) ≡ survives p (lookup k m)
  unfolding lookup prune
  lookup-prune k p [] d = refl
  lookup-prune k p ((j, v) ∷ m) d = ground (arith, lookup-prune k p m d.1, lookup-Fresh j m d.0)
