-- ===== src/Risk/Matching/Moves.antt =====
-- The steps of the search that call it again: a host that moves away, and one that cannot.
use native.Mathlib.Decide.{ℕ_discrete}
use sia_optimization_proposa.Prelude.{
  ℕ, suc, ◌<◌, ◌≡◌, ◌≢◌, refl, inl, inr, Bool, true, false, Option, none, some, List, ◌∷◌, arith,
  if◌then◌else◌, ◌==◌, length, get_or, ap, ◌∙◌, sym, length-set, Bool-cases,
}
use sia_optimization_proposa.Risk.Matching.{Match, seen, slot, mark, occupy}
use sia_optimization_proposa.Risk.Matching.Post.{
  In, Pre, Post, unvisited, seen-set, slot-set, unvisited-set, lt_of_unseen,
}

module _ (adj : ℕ → List ℕ) {host : ℕ} {old : Option ℕ} {st : Match} (p : Pre adj host old st)
    (i : ℕ) (new : seen st i ≡ false) (other : ℕ) (e : slot st i ≡ some other) where
  seen-mark : (j : ℕ) → seen (mark i st) j ≡ (if i == j then true else seen st j)
  unfolding mark
  seen-mark j = seen-set st.visited i j

  slot-mark : (j : ℕ) → slot (mark i st) j ≡ slot st j
  unfolding mark
  slot-mark j = refl

  pub unvisited-mark : suc (unvisited (mark i st).visited) ≡ unvisited st.visited
  unfolding mark
  unvisited-mark = unvisited-set st.visited i new

  in_range : i < length st.assigned
  in_range = omega (arith, p.sizes, lt_of_unseen st.visited i new)

  host-ne-other : host ≢ other
  host-ne-other eq = cc (p.old_seen i (p.at_old i (e ∙ ap some (sym eq))))

  module _ {st2 : Match} (q : Post adj (adj other) other (some i) (mark i st) true st2) where
    slot-occupy : (j : ℕ) → slot (occupy host i st2) j ≡ (if i == j then some host else slot st2 j)
    unfolding occupy mark
    slot-occupy j = slot-set st2.assigned i j (some host) (omega (arith, q.size_assigned, in_range))

    -- The searching host is left at its old place only.
    still_old : (b : ℕ) → slot st2 b ≡ some host → b ≢ i → old ≡ some b
    still_old b h ne = elim (q.from b host h) [
      | inl same ↦ absurd (host-ne-other same)
      | inr (j, at) ↦
          let o : old ≡ some j = p.at_old j (sym (slot-mark j) ∙ at) in
          let kept : slot st2 j ≡ some host =
            q.frame j (ground (arith, seen-mark j, p.old_seen j o)) ∙ at in
          elim (ℕ_discrete j b) [
            | yes same ↦ o ∙ ap some same
            | no apart ↦ absurd (host-ne-other (q.almost_once j b host kept h apart).0)
          ]
    ]

    -- The host of the shard moved away, and the searching host takes the shard.
    pub Post-moved :
        (js : List ℕ) → In i (adj host) → Post adj (i ∷ js) host old st true (occupy host i st2)
    Post-moved js stored = record {
      size_visited = unfold occupy mark in q.size_visited ∙ length-set st.visited i true;
      size_assigned = unfold occupy mark in length-set st2.assigned i (some host) ∙ q.size_assigned;
      fewer = unfold occupy mark in omega (arith, q.fewer, unvisited-set st.visited i new);
      grows = λ j h. unfold occupy in q.grows j (ground (arith, seen-mark j));
      unchanged = λ f. absurd (cc);
      frame = λ j h. ground (arith, slot-occupy j, q.frame j, seen-mark j, slot-mark j);
      almost_once = λ a b x h k ne.
          ground
            (arith, slot-occupy a, slot-occupy b, still_old a, still_old b, q.almost_once a b x);
      stored = λ a x h. ground (arith, slot-occupy a, q.stored a x);
      from = λ a x h. elim (ℕ_discrete i a) [
        | yes here ↦ inl (ground (arith, slot-occupy a))
        | no apart ↦ elim (q.from a x (ground (arith, slot-occupy a))) [
          | inl moved ↦ inr (i, e ∙ ap some (sym moved))
          | inr (j, at) ↦ inr (j, sym (slot-mark j) ∙ at)
        ]
      ];
      keeps = λ a x h. moved_to a x (q.keeps a x (slot-mark a ∙ h));
      placed = λ _. (i, ground (arith, slot-occupy i), new);
      covered = λ f. absurd (cc);
      occupied = λ f. absurd (cc);
    }
      where
        moved_to :
            (a x : ℕ)
            → (j : ℕ) × (slot st2 j ≡ some x)
            → (j : ℕ) × (slot (occupy host i st2) j ≡ some x)
        moved_to a x (j, at) = elim (ℕ_discrete i j) [
          | yes here ↦
              let (j', at', far) = q.placed refl in
              (
                j',
                ground (arith, slot-occupy j', seen-mark j', q.frame i, seen-mark i, slot-mark i),
              )
          | no apart ↦ (j, ground (arith, slot-occupy j))
        ]

  module _ {st2 : Match} (q : Post adj (adj other) other (some i) (mark i st) false st2) where
    slot_same : (j : ℕ) → slot st2 j ≡ slot st j
    slot_same j = ap (λ xs. get_or xs j none) (q.unchanged refl) ∙ slot-mark j

    -- A failed search changes the visited flags only.
    pub Pre-retry : Pre adj host old st2
    Pre-retry = record {
      sizes =
          q.size_visited
          ∙ unfold mark in
            (length-set st.visited i true ∙ p.sizes) ∙ sym (ap length (q.unchanged refl));
      once = λ a b x h k. p.once a b x (sym (slot_same a) ∙ h) (sym (slot_same b) ∙ k);
      stored = λ a x h. p.stored a x (sym (slot_same a) ∙ h);
      at_old = λ a h. p.at_old a (sym (slot_same a) ∙ h);
      old_seen = λ a h. q.grows a (ground (arith, seen-mark a, p.old_seen a h));
    }

    -- The host of the shard cannot move: the loop goes on.
    pub Post-retry :
        {js : List ℕ} {found : Bool} {st' : Match}
        → Post adj js host old st2 found st'
        → Post adj (i ∷ js) host old st found st'
    Post-retry {js} {found} {st'} r = record {
      size_visited = r.size_visited ∙ q.size_visited ∙ unfold mark in length-set st.visited i true;
      size_assigned = r.size_assigned ∙ ap length (q.unchanged refl) ∙ unfold mark in refl;
      fewer = omega (arith, r.fewer, q.fewer, unvisited-mark);
      grows = λ j h. r.grows j (q.grows j (ground (arith, seen-mark j)));
      unchanged = λ f. r.unchanged f ∙ q.unchanged refl ∙ unfold mark in refl;
      frame = λ j h. r.frame j (q.grows j (ground (arith, seen-mark j))) ∙ slot_same j;
      almost_once = r.almost_once;
      stored = r.stored;
      from = λ a x h. elim (r.from a x h) [
        | inl here ↦ inl here
        | inr (j, at) ↦ inr (j, sym (slot_same j) ∙ at)
      ];
      keeps = λ a x h. r.keeps a x (slot_same a ∙ h);
      placed = λ f.
          let (j, at, far) = r.placed f in
          (j, at, ground (arith, Bool-cases (seen st j), q.grows j, seen-mark j));
      covered = λ f j. elim [
        | inl here ↦ rw here (r.grows i (q.grows i (ground (arith, seen-mark i))))
        | inr rest ↦ r.covered f j rest
      ];
      occupied = λ f j unseen now. elim (Bool-cases (seen st2 j)) [
        | inl early ↦ elim (ℕ_discrete i j) [
          | yes here ↦ (other, ground arith, λ k h. r.grows k (q.covered refl k h))
          | no apart ↦
              let (x, at, full) = q.occupied refl j (ground (arith, seen-mark j)) early in
              (x, sym (slot-mark j) ∙ at, λ k h. r.grows k (full k h))
        ]
        | inr late ↦
            let (x, at, full) = r.occupied f j late now in (x, sym (slot_same j) ∙ at, full)
      ];
    }
