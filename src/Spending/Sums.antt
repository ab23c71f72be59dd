-- ===== src/Spending/Sums.antt =====
-- Sums of the spending of a contract, over records and over calls.
use sia_optimization_proposa.Prelude.{
  ℕ, ◌≡◌, refl, ap, sym, subst, ◌∙◌, Bool, true, false, Option, none, some, List, [], ◌∷◌, ◌++◌,
  if◌then◌else◌, ◌==◌, Bool-cases, ==_iff, inl, inr,
}
use sia_optimization_proposa.Prelude.Maps.{Map, lookup, insert, Distinct, Fresh, lookup-Fresh}
use sia_optimization_proposa.Spending.{
  Currencies, IsAdditive, ContractSpending, SpendingRecord, Recorder, no_spending, add_spending,
  records, Call, recording, flushing,
}

module _ (cur : Currencies) (laws : IsAdditive cur) where
  abbrev Spending : Type 0
  Spending = ContractSpending cur

  abbrev Rec : Type 0
  Rec = SpendingRecord cur

  abbrev pub plus : Spending → Spending → Spending
  plus = add_spending cur

  abbrev pub zero_spending : Spending
  zero_spending = no_spending cur

  pub plus_assoc : (a b c : Spending) → plus (plus a b) c ≡ plus a (plus b c)
  plus_assoc a b c i = record {
    deletions = laws.add_assoc a.deletions b.deletions c.deletions i;
    fund_account = laws.add_assoc a.fund_account b.fund_account c.fund_account i;
    sector_roots = laws.add_assoc a.sector_roots b.sector_roots c.sector_roots i;
    uploads = laws.add_assoc a.uploads b.uploads c.uploads i;
  }

  pub zero_left : (a : Spending) → plus zero_spending a ≡ a
  zero_left a i = record {
    deletions = laws.nothing_left a.deletions i;
    fund_account = laws.nothing_left a.fund_account i;
    sector_roots = laws.nothing_left a.sector_roots i;
    uploads = laws.nothing_left a.uploads i;
  }

  pub zero_right : (a : Spending) → plus a zero_spending ≡ a
  zero_right a i = record {
    deletions = laws.nothing_right a.deletions i;
    fund_account = laws.nothing_right a.fund_account i;
    sector_roots = laws.nothing_right a.sector_roots i;
    uploads = laws.nothing_right a.uploads i;
  }

  -- The sum of the spending of a contract, in a list of records.
  abbrev pub given_to : ℕ → List Rec → Spending
  given_to fcid [] = zero_spending
  given_to fcid (r ∷ rs) =
      if r.contract_id == fcid then plus r.spending (given_to fcid rs) else given_to fcid rs

  abbrev pub spending_of : Option Rec → Spending
  spending_of none = zero_spending
  spending_of (some r) = r.spending

  -- What one call records for a contract.
  abbrev pub recorded_by : ℕ → Call cur → Spending
  recorded_by fcid (recording rev cs) = if rev.id == fcid then cs else zero_spending
  recorded_by fcid (flushing is_done taken) = zero_spending

  -- The spending of a contract that the calls record.
  abbrev pub recorded : ℕ → List (Call cur) → Spending
  recorded fcid [] = zero_spending
  recorded fcid (c ∷ rest) = plus (recorded_by fcid c) (recorded fcid rest)

  -- A contract has one entry, under its id.
  abbrev pub Keyed : Map Rec → Type 0
  Keyed [] = Unit
  Keyed ((j, v) ∷ m) = (v.contract_id ≡ j) × Keyed m

  -- What the bus was given and what is buffered.
  abbrev pub total : ℕ → Recorder cur → Spending
  total fcid r = plus (given_to fcid r.given) (spending_of (lookup fcid r.contract_spendings))

  pub given_to-append :
      (fcid : ℕ) (xs ys : List Rec)
      → given_to fcid (xs ++ ys) ≡ plus (given_to fcid xs) (given_to fcid ys)
  given_to-append fcid [] ys = sym (zero_left (given_to fcid ys))
  given_to-append fcid (r ∷ rs) ys = elim (Bool-cases (r.contract_id == fcid)) [
    | inl e ↦ rw e (
        ap (plus r.spending) (given_to-append fcid rs ys)
        ∙ sym (plus_assoc r.spending (given_to fcid rs) (given_to fcid ys)))
    | inr e ↦ rw e (given_to-append fcid rs ys)
  ]

  pub given_to-records :
      (fcid : ℕ) (m : Map Rec)
      → Distinct m
      → Keyed m
      → given_to fcid (records cur m) ≡ spending_of (lookup fcid m)
  unfolding lookup
  given_to-records fcid [] d k = refl
  given_to-records fcid ((j, v) ∷ m) d k =
      ap
        (λ id.
          if id == fcid
          then plus v.spending (given_to fcid (records cur m))
          else given_to fcid (records cur m))
        k.0
      ∙ go (j == fcid) refl (given_to-records fcid m d.1 k.1)
    where
      go :
          (b : Bool)
          → (j == fcid) ≡ b
          → given_to fcid (records cur m) ≡ spending_of (lookup fcid m)
          → (if b
              then plus v.spending (given_to fcid (records cur m))
              else given_to fcid (records cur m))
            ≡ spending_of (if b then some v else lookup fcid m)
      go true e ih =
          ap (plus v.spending) (
            ih
            ∙ ap spending_of
                (lookup-Fresh fcid m (subst (λ n. Fresh n m) ((==_iff j fcid).0 e) d.0)))
          ∙ zero_right v.spending
      go false e ih = ih

  pub insert-Keyed :
      (id : ℕ) (v : Rec) (m : Map Rec) → v.contract_id ≡ id → Keyed m → Keyed (insert id v m)
  unfolding insert
  insert-Keyed id v [] e k = (e, tt)
  insert-Keyed id v ((j, w) ∷ m) e k = go (j == id) (insert-Keyed id v m e k.1)
    where
      go :
          (b : Bool)
          → Keyed (insert id v m)
          → Keyed (if b then (id, v) ∷ m else (j, w) ∷ insert id v m)
      go true r = (e, k.1)
      go false r = (k.0, r)
