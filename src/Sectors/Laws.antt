-- ===== src/Sectors/Laws.antt =====
-- What each operation does to every upload, and that no sector of an upload is lost.
use sia_optimization_proposa.Prelude.{
  ℕ, ◌+◌, ◌*◌, ◌≤◌, ◌<◌, ◌≡◌, ◌≢◌, refl, ◌∙◌, ◌⊎◌, inl, inr, true, false, none, some, List, [], ◌∷◌,
  ◌++◌, arith, ◌==◌, if◌then◌else◌, Bool-cases, Option-cases, subst,
}
use sia_optimization_proposa.Prelude.Maps.{
  Map, lookup, insert, delete, prune, Distinct, survives, lookup-insert, lookup-delete,
  lookup-prune, delete-Distinct,
}
use sia_optimization_proposa.Sectors.{
  OngoingUpload, add_sectors, is_expired, finish_upload, all_sectors,
}

abbrev pub Within : ℕ → List ℕ → Type 0
Within r [] = ⊥
Within r (x ∷ xs) = (r ≡ x) ⊎ Within r xs

Within-left : (r : ℕ) (xs ys : List ℕ) → Within r xs → Within r (xs ++ ys)
Within-left r [] ys h = absurd h
Within-left r (x ∷ xs) ys (inl e) = inl e
Within-left r (x ∷ xs) ys (inr h) = inr (Within-left r xs ys h)

Within-right : (r : ℕ) (xs ys : List ℕ) → Within r ys → Within r (xs ++ ys)
Within-right r [] ys h = h
Within-right r (x ∷ xs) ys h = inr (Within-right r xs ys h)

Within-all :
    (r id : ℕ) (uploads : Map OngoingUpload) (u : OngoingUpload)
    → lookup id uploads ≡ some u
    → Within r u.sectors
    → Within r (all_sectors uploads)
unfolding lookup all_sectors
Within-all r id [] u e h = absurd (cc)
Within-all r id ((j, v) ∷ uploads) u e h = elim (Bool-cases (j == id)) [
  | inl same ↦ Within-left r v.sectors (all_sectors uploads) (found same)
  | inr other ↦
      Within-right r v.sectors (all_sectors uploads) (Within-all r id uploads u (skip other) h)
]
  where
    same_upload : (j == id) ≡ true → u ≡ v
    same_upload same = ground (arith, e)

    found : (j == id) ≡ true → Within r v.sectors
    found same = subst (λ (w : OngoingUpload). Within r w.sectors) (same_upload same) h

    skip : (j == id) ≡ false → lookup id uploads ≡ some u
    skip other = ground (arith, e)

-- With one entry for each id, after `FinishUpload` of `id` an id is in one of three states: it is
-- not there, being `id` or not there before; it is not there, because its upload started more than
-- 24 hours, of 3600 seconds each, before now; or its upload started at most 24 hours before now and
-- is as it was.
pub lookup-finish_upload :
    (now id k : ℕ) (uploads : Map OngoingUpload)
    → Distinct uploads
    → ((id ≡ k) ⊎ (lookup k uploads ≡ none)) × (lookup k (finish_upload now uploads id) ≡ none)
      ⊎ ((u : OngoingUpload) × (id ≢ k)
          × (lookup k uploads ≡ some u)
          × ((u.started + 24 * 3600 * 1000000000 < now)
                × (lookup k (finish_upload now uploads id) ≡ none)
              ⊎ (now ≤ u.started + 24 * 3600 * 1000000000)
                × (lookup k (finish_upload now uploads id) ≡ some u)))
unfolding finish_upload
lookup-finish_upload now id k uploads d = elim (Bool-cases (id == k)) [
  | inl same ↦ inl (inl (ground arith), after ∙ rw same refl)
  | inr other ↦ elim (Option-cases (lookup k uploads)) [
    | inl e ↦ inl (inr e, after ∙ rw (other, e) refl)
    | inr (u, e) ↦ inr (
      u,
      ground arith,
      e,
      elim (Bool-cases (is_expired now u)) [
        | inl old ↦ inl (ground arith, after ∙ rw (other, e, old) refl)
        | inr young ↦ inr (ground arith, after ∙ rw (other, e, young) refl)
      ],
    )
  ]
]
  where
    after :
        lookup k (prune (is_expired now) (delete id uploads))
        ≡ survives (is_expired now) (if id == k then none else lookup k uploads)
    after =
        rw
          (
            lookup-prune k (is_expired now) (delete id uploads) (delete-Distinct id uploads d),
            lookup-delete id k uploads,
          )
          refl

-- `AddSectors` fails exactly for an id that is not there. For an upload that is there, every sector
-- that it had and every root that is added is afterwards among the sectors of the cache.
pub add_sectors_keeps :
    (uploads : Map OngoingUpload) (id : ℕ) (roots : List ℕ)
    → (lookup id uploads ≡ none) × (add_sectors uploads id roots ≡ none)
      ⊎ ((u : OngoingUpload) × (later : Map OngoingUpload) × (lookup id uploads ≡ some u)
          × (add_sectors uploads id roots ≡ some later)
          × ((r : ℕ) → Within r (u.sectors ++ roots) → Within r (all_sectors later)))
unfolding add_sectors
add_sectors_keeps uploads id roots = elim (Option-cases (lookup id uploads)) [
  | inl e ↦ inl (e, rw e)
  | inr (u, e) ↦
      let added : OngoingUpload = record u { sectors = u.sectors ++ roots } in
      let later = insert id added uploads in
      inr (u, later, e, rw e, λ r h. Within-all r id later added (inserted added) h)
]
  where
    inserted : (added : OngoingUpload) → lookup id (insert id added uploads) ≡ some added
    inserted added = ground (arith, lookup-insert uploads id added id)
