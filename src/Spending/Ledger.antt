-- ===== src/Spending/Ledger.antt =====
-- Spending reaches the bus once, or is still buffered.
use sia_optimization_proposa.Prelude.{
  ℕ, ◌≡◌, refl, ap, sym, ◌∙◌, Bool, true, false, Option, none, some, List, [], ◌∷◌, ◌++◌,
  if◌then◌else◌, ◌==◌, ltb, ==_iff,
}
use sia_optimization_proposa.Prelude.Maps.{Map, lookup, lookup-insert, Distinct, insert-Distinct}
use sia_optimization_proposa.Spending.{
  Currencies, IsAdditive, ContractSpending, SpendingRecord, Revision, Recorder, new_recorder,
  found_or_new, updated, record_spending, is_empty, records, flush, Call, recording, flushing, call,
  calls,
}
use sia_optimization_proposa.Spending.Sums.{
  plus, zero_spending, plus_assoc, zero_left, zero_right, given_to, spending_of, recorded_by,
  recorded, Keyed, total, given_to-append, given_to-records, insert-Keyed,
}

module _ (cur : Currencies) (laws : IsAdditive cur) where
  record IsBuffer (r : Recorder cur) : Type 0 where
    distinct : Distinct r.contract_spendings
    keyed : Keyed cur laws r.contract_spendings

  updated_spending :
      (rev : Revision cur) (cs : ContractSpending cur) (csr : SpendingRecord cur)
      → (updated cur rev cs csr).spending ≡ plus cur laws csr.spending cs
  unfolding updated
  updated_spending rev cs csr = go (ltb csr.revision_number rev.number)
    where
      go :
          (b : Bool)
          → (if◌then◌else◌ {A = SpendingRecord cur} b
              (record csr {
                spending = plus cur laws csr.spending cs;
                revision_number = rev.number;
                size = rev.filesize;
                valid_renter_payout = rev.renter_payout;
                missed_host_payout = rev.host_payout;
              })
              (record csr { spending = plus cur laws csr.spending cs })).spending
            ≡ plus cur laws csr.spending cs
      go true = refl
      go false = refl

  updated_id :
      (rev : Revision cur) (cs : ContractSpending cur) (csr : SpendingRecord cur)
      → (updated cur rev cs csr).contract_id ≡ csr.contract_id
  unfolding updated
  updated_id rev cs csr = go (ltb csr.revision_number rev.number)
    where
      go :
          (b : Bool)
          → (if◌then◌else◌ {A = SpendingRecord cur} b
              (record csr {
                spending = plus cur laws csr.spending cs;
                revision_number = rev.number;
                size = rev.filesize;
                valid_renter_payout = rev.renter_payout;
                missed_host_payout = rev.host_payout;
              })
              (record csr { spending = plus cur laws csr.spending cs })).contract_id
            ≡ csr.contract_id
      go true = refl
      go false = refl

  lookup-Keyed :
      (id : ℕ) (m : Map (SpendingRecord cur))
      → Keyed cur laws m
      → (found_or_new cur id (lookup id m)).contract_id ≡ id
  unfolding lookup
  lookup-Keyed id [] k = refl
  lookup-Keyed id ((j, v) ∷ m) k = go (j == id) refl (lookup-Keyed id m k.1)
    where
      go :
          (b : Bool)
          → (j == id) ≡ b
          → (found_or_new cur id (lookup id m)).contract_id ≡ id
          → (found_or_new cur id (if b then some v else lookup id m)).contract_id ≡ id
      go true e ih = k.0 ∙ (==_iff j id).0 e
      go false e ih = ih

  -- A record that is found, or a new one, has the spending that was buffered.
  found_spending :
      (id : ℕ) (o : Option (SpendingRecord cur))
      → (found_or_new cur id o).spending ≡ spending_of cur laws o
  found_spending id none = refl
  found_spending id (some r) = refl

  flush_either :
      (P : Recorder cur → Type 0) (is_done taken : Bool) (r : Recorder cur)
      → P (record r { has_timer = false })
      → P (record r {
        contract_spendings = [];
        has_timer = false;
        given = r.given ++ records cur r.contract_spendings;
      })
      → P (flush cur is_done taken r)
  unfolding flush
  flush_either P is_done taken r p q = go is_done (is_empty cur r.contract_spendings) taken
    where
      go :
          (b c d : Bool)
          → P (
              if◌then◌else◌ {A = Recorder cur} b
                (record r { has_timer = false })
                (if◌then◌else◌ {A = Recorder cur} c
                  (record r { has_timer = false })
                  (if◌then◌else◌ {A = Recorder cur} d
                    (record r {
                      contract_spendings = [];
                      has_timer = false;
                      given = r.given ++ records cur r.contract_spendings;
                    })
                    (record r { has_timer = false }))))
      go true c d = p
      go false true d = p
      go false false true = q
      go false false false = p

  IsBuffer-call : (c : Call cur) (r : Recorder cur) → IsBuffer r → IsBuffer (call cur c r)
  unfolding call record_spending flush
  IsBuffer-call (recording rev cs) r b = record {
    distinct = insert-Distinct rev.id _ r.contract_spendings b.distinct;
    keyed =
        insert-Keyed cur laws rev.id _ r.contract_spendings
          (updated_id rev cs _ ∙ lookup-Keyed rev.id r.contract_spendings b.keyed) b.keyed;
  }
  IsBuffer-call (flushing is_done taken) r b =
      flush_either IsBuffer is_done taken r (record { distinct = b.distinct; keyed = b.keyed })
        (record { distinct = tt; keyed = tt })

  total-call :
      (fcid : ℕ) (c : Call cur) (r : Recorder cur)
      → IsBuffer r
      → total cur laws fcid (call cur c r)
        ≡ plus cur laws (total cur laws fcid r) (recorded_by cur laws fcid c)
  unfolding call record_spending lookup
  total-call fcid (recording rev cs) r b =
      ap (λ o. plus cur laws (given_to cur laws fcid r.given) (spending_of cur laws o))
        (lookup-insert r.contract_spendings rev.id _ fcid)
      ∙ go (rev.id == fcid) refl
    where
      go :
          (e : Bool)
          → (rev.id == fcid) ≡ e
          → plus cur laws (given_to cur laws fcid r.given) (
              spending_of cur laws (
                if e
                then some (
                    updated cur rev cs
                      (found_or_new cur rev.id (lookup rev.id r.contract_spendings)))
                else lookup fcid r.contract_spendings))
            ≡ plus cur laws (total cur laws fcid r) (if e then cs else (zero_spending cur laws))
      go true e =
          ap (plus cur laws (given_to cur laws fcid r.given)) (
            updated_spending rev cs _
            ∙ ap (λ s. plus cur laws s cs)
                (found_spending rev.id (lookup rev.id r.contract_spendings)
                  ∙ ap (λ id. spending_of cur laws (lookup id r.contract_spendings))
                      ((==_iff rev.id fcid).0 e)))
          ∙ sym (
              plus_assoc cur laws (given_to cur laws fcid r.given)
                (spending_of cur laws (lookup fcid r.contract_spendings)) cs)
      go false e = sym (zero_right cur laws (total cur laws fcid r))
  total-call fcid (flushing is_done taken) r b =
      flush_either
        (λ r'.
          total cur laws fcid r' ≡ plus cur laws (total cur laws fcid r) (zero_spending cur laws))
        is_done taken r (sym (zero_right cur laws (total cur laws fcid r)))
        (ap (λ x. plus cur laws x (zero_spending cur laws))
          (given_to-append cur laws fcid r.given (records cur r.contract_spendings)
            ∙ ap (plus cur laws (given_to cur laws fcid r.given))
                (given_to-records cur laws fcid r.contract_spendings b.distinct b.keyed)))

  total-calls :
      (fcid : ℕ) (cs : List (Call cur)) (r : Recorder cur)
      → IsBuffer r
      → total cur laws fcid (calls cur cs r)
        ≡ plus cur laws (total cur laws fcid r) (recorded cur laws fcid cs)
  unfolding calls
  total-calls fcid [] r b = sym (zero_right cur laws (total cur laws fcid r))
  total-calls fcid (c ∷ rest) r b =
      total-calls fcid rest (call cur c r) (IsBuffer-call c r b)
      ∙ ap (λ t. plus cur laws t (recorded cur laws fcid rest)) (total-call fcid c r b)
      ∙ plus_assoc cur laws (total cur laws fcid r) (recorded_by cur laws fcid c)
          (recorded cur laws fcid rest)

  -- Where the addition of currencies is associative with its zero on both sides, after any records
  -- and flushes, those that are canceled or refused by the bus among them, what the bus was given for
  -- a contract and what is still buffered for it add up to what was recorded for it: a recorder
  -- refines the sum of the records of each contract.
  pub calls-recorded :
      (fcid : ℕ) (cs : List (Call cur))
      → (let r = calls cur cs (new_recorder cur) in
          plus cur laws
            (given_to cur laws fcid r.given)
            (spending_of cur laws (lookup fcid r.contract_spendings))
          ≡ recorded cur laws fcid cs)
  unfolding lookup
  calls-recorded fcid cs =
      total-calls fcid cs (new_recorder cur) (record { distinct = tt; keyed = tt })
      ∙ ap (λ t. plus cur laws t (recorded cur laws fcid cs))
          (zero_left cur laws (zero_spending cur laws))
      ∙ zero_left cur laws (recorded cur laws fcid cs)
