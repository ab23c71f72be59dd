-- ===== src/Spending.antt =====
-- internal/contracts/spending.go: the recorder of what contracts spend, and its buffer in front of
-- the bus. A currency, its zero and its addition are of another library.
pub mod Sums
pub mod Ledger
use sia_optimization_proposa.Prelude.{
  ◌≡◌, ℕ, Bool, true, false, Option, none, some, List, [], ◌∷◌, ◌++◌, map, if◌then◌else◌, ◌==◌, ltb,
}
use sia_optimization_proposa.Prelude.Maps.{Map, lookup, insert}

-- What the recorder uses of currencies.
pub record Currencies : Type 1 where
  pub Currency : Type 0
  pub nothing : Currency
  pub add : Currency → Currency → Currency

-- The addition of currencies: associative, with a zero on both sides.
pub record IsAdditive (c : Currencies) : Type 0 where
  pub add_assoc : (x y z : c.Currency) → c.add (c.add x y) z ≡ c.add x (c.add y z)
  pub nothing_left : (x : c.Currency) → c.add c.nothing x ≡ x
  pub nothing_right : (x : c.Currency) → c.add x c.nothing ≡ x

module _ (c : Currencies) where
  pub record ContractSpending : Type 0 where
    pub deletions : c.Currency
    pub fund_account : c.Currency
    pub sector_roots : c.Currency
    pub uploads : c.Currency

  pub record SpendingRecord : Type 0 where
    pub contract_id : ℕ
    pub spending : ContractSpending
    pub revision_number : ℕ
    pub size : ℕ
    pub missed_host_payout : c.Currency
    pub valid_renter_payout : c.Currency

  -- A revision of a contract, as `RecordV1` and `RecordV2` read it.
  pub record Revision : Type 0 where
    pub id : ℕ
    pub number : ℕ
    pub filesize : ℕ
    pub renter_payout : c.Currency
    pub host_payout : c.Currency

  abbrev pub no_spending : ContractSpending
  no_spending = record {
    deletions = c.nothing;
    fund_account = c.nothing;
    sector_roots = c.nothing;
    uploads = c.nothing;
  }

  -- api/contract.go: `ContractSpending.Add`
  abbrev pub add_spending : ContractSpending → ContractSpending → ContractSpending
  add_spending x y = record {
    deletions = c.add x.deletions y.deletions;
    fund_account = c.add x.fund_account y.fund_account;
    sector_roots = c.add x.sector_roots y.sector_roots;
    uploads = c.add x.uploads y.uploads;
  }

  -- The recorder, whether its timer is set, and what the bus was given.
  pub record Recorder : Type 0 where
    pub contract_spendings : Map SpendingRecord
    pub has_timer : Bool
    pub given : List SpendingRecord

  abbrev pub new_recorder : Recorder
  new_recorder = record { contract_spendings = []; has_timer = false; given = [] }

  abbrev pub found_or_new : ℕ → Option SpendingRecord → SpendingRecord
  found_or_new fcid (some csr) = csr
  found_or_new fcid none = record {
    contract_id = fcid;
    spending = no_spending;
    revision_number = 0;
    size = 0;
    missed_host_payout = c.nothing;
    valid_renter_payout = c.nothing;
  }

  -- What a revision and a spending make of a record.
  pub updated : Revision → ContractSpending → SpendingRecord → SpendingRecord
  updated rev cs csr =
      let added = record csr { spending = add_spending csr.spending cs } in
      if ltb csr.revision_number rev.number
      then record added {
        revision_number = rev.number;
        size = rev.filesize;
        valid_renter_payout = rev.renter_payout;
        missed_host_payout = rev.host_payout;
      }
      else added

  -- `RecordV1`, `RecordV2` and `record`
  pub record_spending : Revision → ContractSpending → Recorder → Recorder
  unfolding updated
  record_spending rev cs r = record r {
    contract_spendings =
        insert rev.id (updated rev cs (found_or_new rev.id (lookup rev.id r.contract_spendings)))
          r.contract_spendings;
    has_timer = true;
  }

  abbrev pub is_empty : Map SpendingRecord → Bool
  is_empty [] = true
  is_empty (entry ∷ m) = false

  abbrev pub records : Map SpendingRecord → List SpendingRecord
  records m = map (λ (entry : ℕ × SpendingRecord). entry.1) m

  -- `flush`, given whether its context is done and whether the bus takes the records.
  pub flush : Bool → Bool → Recorder → Recorder
  flush is_done taken r =
      let passed = record r {
        contract_spendings = [];
        has_timer = false;
        given = r.given ++ records r.contract_spendings;
      } in
      let kept = record r { has_timer = false } in
      if is_done
      then kept
      else if is_empty r.contract_spendings
      then kept
      else if taken
      then passed
      else kept

  -- `Stop`: the timer stops, and the last flush has the context that is passed.
  unfoldable pub stop : Bool → Bool → Recorder → Recorder
  unfolding flush
  stop is_done taken r = flush is_done taken r

  -- A call of `RecordV1` or `RecordV2`, the timer, or `Stop`, which flushes too.
  pub data Call : Type 0 where
    recording : Revision → ContractSpending → Call
    flushing : Bool → Bool → Call

  unfoldable pub call : Call → Recorder → Recorder
  unfolding record_spending flush
  call (recording rev cs) r = record_spending rev cs r
  call (flushing is_done taken) r = flush is_done taken r

  unfoldable pub calls : List Call → Recorder → Recorder
  unfolding call
  calls [] r = r
  calls (x ∷ rest) r = calls rest (call x r)
