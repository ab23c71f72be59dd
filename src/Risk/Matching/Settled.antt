-- ===== src/Risk/Matching/Settled.antt =====
-- Each host that `independentPlacement` tries is placed in the end, or there was no room for it.
use sia_optimization_proposa.Prelude.{
  ℕ, ◌≡◌, refl, ◌⊎◌, inl, inr, Bool, Option, some, List, [], ◌∷◌, length, ◌∙◌, sym, All,
}
use sia_optimization_proposa.Risk.Matching.{seen, assign_all}
use sia_optimization_proposa.Risk.Matching.Placement.{
  at, IsPlaced, IsFull, AllAbsent, assign_answers, AllAbsent-step, assign_all-cons,
}

-- There was no room for the host in an earlier table, whose hosts are all still placed.
abbrev pub LeftOut : (ℕ → List ℕ) → List (Option ℕ) → ℕ → Type 0
LeftOut adj slots host =
    (before : List (Option ℕ)) × (within : ℕ → Bool) × (length before ≡ length slots)
    × IsPlaced adj before
    × ((i x : ℕ) → at before i ≡ some x → (j : ℕ) × (at slots j ≡ some x))
    × IsFull adj host before within

abbrev pub Settled : (ℕ → List ℕ) → List (Option ℕ) → ℕ → Type 0
Settled adj slots host = ((j : ℕ) × (at slots j ≡ some host)) ⊎ LeftOut adj slots host

pub assign_all-Settled :
    (adj : ℕ → List ℕ) (order : List ℕ) (slots : List (Option ℕ))
    → IsPlaced adj slots
    → AllAbsent order slots
    → (slots' : List (Option ℕ)) × (assign_all adj order slots ≡ some slots')
      × (length slots' ≡ length slots)
      × IsPlaced adj slots'
      × ((i x : ℕ) → at slots i ≡ some x → (j : ℕ) × (at slots' j ≡ some x))
      × All (Settled adj slots') order
unfolding assign_all
assign_all-Settled adj [] slots ok absent = (slots, refl, refl, ok, (λ i x h. (i, h)), tt)
assign_all-Settled adj (host ∷ order) slots ok absent =
    let (found, st, e, (size, ok', keeps, from, verdict)) =
      assign_answers adj host slots ok absent.0 in
    let (slots', e', size', ok'', keeps', rest) =
      assign_all-Settled adj order st.assigned ok'
        (AllAbsent-step host order slots st.assigned from absent.1 absent.2) in
    let still : (i x : ℕ) → at slots i ≡ some x → (j : ℕ) × (at slots' j ≡ some x) =
      λ i x h. let (j, k) = keeps i x h in keeps' j x k in
    let first : Settled adj slots' host = elim verdict [
      | inl (_, (j, placed)) ↦ inl (keeps' j host placed)
      | inr (_, _, full) ↦ inr (slots, seen st, sym (size' ∙ size), ok, still, full)
    ] in
    (
      slots',
      assign_all-cons adj host order slots found st e ∙ e',
      size' ∙ size,
      ok'',
      still,
      (first, rest),
    )
