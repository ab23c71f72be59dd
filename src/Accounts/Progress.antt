-- ===== src/Accounts/Progress.antt =====
-- One refill of a host is in progress at a time, whatever happens to the other hosts.
use sia_optimization_proposa.Prelude.{
  ℕ, ◌≡◌, refl, ◌∙◌, true, false, Option, none, some, List, [], ◌∷◌, ◌==◌, if-true, if-false,
  ==_iff, All, Option-cases, inl, inr,
}
use sia_optimization_proposa.Prelude.Maps.{lookup, delete, lookup-insert, lookup-delete}
use sia_optimization_proposa.Accounts.Manager.{Manager, mark_refill_in_progress, mark_refill_done}

-- The start or the end of a refill of a host.
pub data Mark : Type 0 where
  start done : ℕ → Mark

abbrev pub of_host : Mark → ℕ
of_host (start hk) = hk
of_host (done hk) = hk

-- A panic leaves the set as it was.
unfoldable pub mark : Mark → Manager → Manager
mark (start hk) m = (mark_refill_in_progress hk m).1
mark (done hk) m = elim (mark_refill_done hk m) [ none ↦ m | some m' ↦ m' ]

unfoldable pub marks : List Mark → Manager → Manager
unfolding mark
marks [] m = m
marks (x ∷ xs) m = marks xs (mark x m)

abbrev in_progress : ℕ → Manager → Option {0} Unit
in_progress hk m = lookup hk m.in_progress_refills

mark-in_progress :
    (hk : ℕ) (x : Mark) (m : Manager)
    → (of_host x == hk) ≡ false
    → in_progress hk (mark x m) ≡ in_progress hk m
unfolding mark mark_refill_in_progress mark_refill_done
mark-in_progress hk (start other) m h = elim (Option-cases (lookup other m.in_progress_refills)) [
  | inl e ↦
      rw (mark, mark_refill_in_progress, e)
        (lookup-insert m.in_progress_refills other tt hk ∙ if-false (other == hk) _ _ h)
  | inr (u, e) ↦ rw (mark, mark_refill_in_progress, e) refl
]
mark-in_progress hk (done other) m h = elim (Option-cases (lookup other m.in_progress_refills)) [
  | inl e ↦ rw (mark, mark_refill_done, e) refl
  | inr (u, e) ↦
      rw (mark, mark_refill_done, e)
        (lookup-delete other hk m.in_progress_refills ∙ if-false (other == hk) _ _ h)
]

marks-in_progress :
    (hk : ℕ) (xs : List Mark) (m : Manager)
    → All (λ x. (of_host x == hk) ≡ false) xs
    → in_progress hk (marks xs m) ≡ in_progress hk m
unfolding marks
marks-in_progress hk [] m h = refl
marks-in_progress hk (x ∷ xs) m h =
    marks-in_progress hk xs (mark x m) h.1 ∙ mark-in_progress hk x m h.0

started :
    (hk : ℕ) (m : Manager)
    → in_progress hk m ≡ none
    → in_progress hk (mark_refill_in_progress hk m).1 ≡ some tt
unfolding mark_refill_in_progress
started hk m e =
    rw (mark_refill_in_progress, e)
      (lookup-insert m.in_progress_refills hk tt hk
        ∙ if-true (hk == hk) _ _ ((==_iff hk hk).1 refl))

let_through :
    (hk : ℕ) (m : Manager) → in_progress hk m ≡ none → (mark_refill_in_progress hk m).0 ≡ true
unfolding mark_refill_in_progress
let_through hk m e = rw (mark_refill_in_progress, e) refl

refused_again :
    (hk : ℕ) (m : Manager) → in_progress hk m ≡ some tt → mark_refill_in_progress hk m ≡ (false, m)
unfolding mark_refill_in_progress
refused_again hk m e = rw (mark_refill_in_progress, e) refl

ended :
    (hk : ℕ) (m : Manager)
    → in_progress hk m ≡ some tt
    → (m' : Manager) × (mark_refill_done hk m ≡ some m') × (in_progress hk m' ≡ none)
unfolding mark_refill_done
ended hk m e = (
  record m { in_progress_refills = delete hk m.in_progress_refills },
  rw (mark_refill_done, e) refl,
  lookup-delete hk hk m.in_progress_refills ∙ if-true (hk == hk) _ _ ((==_iff hk hk).1 refl),
)

-- While no refill of a host is in progress, the next one is let through; then, whatever refills of
-- other hosts start and end, a second one of this host is turned away without a change, and the end
-- of the first neither panics nor leaves the mark, so that the one after it is let through again.
pub one_refill :
    (hk : ℕ) (xs : List Mark) (m : Manager)
    → lookup hk m.in_progress_refills ≡ none
    → All (λ x. (of_host x == hk) ≡ false) xs
    → (let during = marks xs (mark_refill_in_progress hk m).1 in
        ((mark_refill_in_progress hk m).0 ≡ true)
        × (mark_refill_in_progress hk during ≡ (false, during))
        × (m' : Manager) × (mark_refill_done hk during ≡ some m')
        × (lookup hk m'.in_progress_refills ≡ none)
        × ((mark_refill_in_progress hk m').0 ≡ true))
one_refill hk xs m e h =
    let busy = marks-in_progress hk xs _ h ∙ started hk m e in
    let (m', e', gone) = ended hk _ busy in
    (let_through hk m e, refused_again hk _ busy, m', e', gone, let_through hk m' gone)
