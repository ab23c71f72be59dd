-- ===== src/Risk/Placement/Order.antt =====
-- The order in which `independentPlacement` tries the hosts has each index once.
use native.Mathlib.Decide.{dec_lt}
use sia_optimization_proposa.Prelude.{
  ℕ, zero, suc, ◌≤◌, ◌<◌, All, subst, ◌≡◌, ◌⊎◌, inl, inr, sym, Bool, List, [], ◌∷◌, arith,
  Bool-cases,
}
use sia_optimization_proposa.Prelude.Sorting.{insert_by, sort_by}
use sia_optimization_proposa.Risk.Matching.Post.{In}
use sia_optimization_proposa.Risk.Placement.{indices}

-- The entries of a list are all different.
abbrev pub AllDifferent : List ℕ → Type 0
AllDifferent [] = Unit
AllDifferent (x ∷ xs) = (¬ In x xs) × AllDifferent xs

In-insert_by :
    (less : ℕ → ℕ → Bool) (z x : ℕ) (ys : List ℕ) → In z (insert_by less x ys) → (z ≡ x) ⊎ In z ys
unfolding insert_by
In-insert_by less z x [] m = m
In-insert_by less z x (y ∷ ys) m = ground (arith, In-insert_by less z x ys)

In-sort_by : (less : ℕ → ℕ → Bool) (z : ℕ) (xs : List ℕ) → In z (sort_by less xs) → In z xs
unfolding sort_by
In-sort_by less z [] m = m
In-sort_by less z (x ∷ xs) m =
    ground (arith, In-insert_by less z x (sort_by less xs), In-sort_by less z xs)

insert_by-AllDifferent :
    (less : ℕ → ℕ → Bool) (x : ℕ) (ys : List ℕ)
    → ¬ In x ys
    → AllDifferent ys
    → AllDifferent (insert_by less x ys)
unfolding insert_by
insert_by-AllDifferent less x [] new d = (new, tt)
insert_by-AllDifferent less x (y ∷ ys) new d = elim (Bool-cases (less x y)) [
  | inl e ↦ rw e (new, d)
  | inr e ↦ rw e (
    (λ m. elim (In-insert_by less y x ys m) [
      | inl same ↦ new (inl (sym same))
      | inr old ↦ d.0 old
    ]),
    insert_by-AllDifferent less x ys (λ m. new (inr m)) d.1,
  )
]

pub sort_by-AllDifferent :
    (less : ℕ → ℕ → Bool) (xs : List ℕ) → AllDifferent xs → AllDifferent (sort_by less xs)
unfolding sort_by
sort_by-AllDifferent less [] d = tt
sort_by-AllDifferent less (x ∷ xs) d =
    insert_by-AllDifferent less x (sort_by less xs) (λ m. d.0 (In-sort_by less x xs m))
      (sort_by-AllDifferent less xs d.1)

pub indices-AllDifferent :
    (n : ℕ) (below : List ℕ)
    → ((z : ℕ) → In z below → n ≤ z)
    → AllDifferent below
    → AllDifferent (indices n below)
indices-AllDifferent zero below h d = d
indices-AllDifferent (suc n) below h d =
    indices-AllDifferent n (n ∷ below)
      (λ z. elim [ inl e ↦ omega arith | inr m ↦ (let k = h z m in omega arith) ])
      ((λ m. let k = h n m in absurd (omega arith)), d)

insert_by-In :
    (less : ℕ → ℕ → Bool) (z x : ℕ) (ys : List ℕ) → (z ≡ x) ⊎ In z ys → In z (insert_by less x ys)
unfolding insert_by
insert_by-In less z x [] m = m
insert_by-In less z x (y ∷ ys) m = ground (arith, insert_by-In less z x ys)

pub sort_by-In : (less : ℕ → ℕ → Bool) (z : ℕ) (xs : List ℕ) → In z xs → In z (sort_by less xs)
unfolding sort_by
sort_by-In less z [] m = m
sort_by-In less z (x ∷ xs) m =
    ground (arith, insert_by-In less z x (sort_by less xs), sort_by-In less z xs)

pub indices-In : (n : ℕ) (below : List ℕ) (z : ℕ) → (z < n) ⊎ In z below → In z (indices n below)
indices-In zero below z (inl h) = absurd (omega arith)
indices-In zero below z (inr m) = m
indices-In (suc n) below z (inr m) = indices-In n (n ∷ below) z (inr (inr m))
indices-In (suc n) below z (inl h) = elim (dec_lt z n) [
  | yes lower ↦ indices-In n (n ∷ below) z (inl lower)
  | no last ↦ indices-In n (n ∷ below) z (inr (inl (omega arith)))
]

pub All-In : (P : ℕ → Type 0) (xs : List ℕ) (z : ℕ) → All P xs → In z xs → P z
All-In P [] z a m = absurd m
All-In P (x ∷ xs) z a (inl e) = subst P (sym e) a.0
All-In P (x ∷ xs) z a (inr m) = All-In P xs z a.1 m
