-- ===== src/Tests/SpendingRuns.antt =====
-- Runs of the recorder of spending.
use sia_optimization_proposa.Prelude.{ℕ, ◌+◌, ◌≡◌, true, false, List, [], ◌∷◌, arith}
use sia_optimization_proposa.Prelude.Maps.{lookup}
use sia_optimization_proposa.Spending.{
  Currencies, IsAdditive, ContractSpending, Revision, Call, recording, flushing, calls,
  new_recorder, add_spending,
}
use sia_optimization_proposa.Spending.Sums.{given_to, spending_of, recorded}
use sia_optimization_proposa.Spending.Ledger.{calls-recorded}

abbrev coins : ℕ → ℕ → ℕ
coins a b = a + b

coins_assoc : (a b c : ℕ) → coins (coins a b) c ≡ coins a (coins b c)
coins_assoc a b c = omega arith

coins_left : (a : ℕ) → coins 0 a ≡ a
coins_left a = omega arith

coins_right : (a : ℕ) → coins a 0 ≡ a
coins_right a = omega arith

abbrev coins_currency : Currencies
coins_currency = record { Currency = ℕ; nothing = 0; add = coins }

coins_laws : IsAdditive coins_currency
coins_laws = record {
  add_assoc = coins_assoc;
  nothing_left = coins_left;
  nothing_right = coins_right;
}

abbrev spent : ℕ → ContractSpending coins_currency
spent n = record { deletions = 0; fund_account = n; sector_roots = 1; uploads = 2 }

abbrev revision : ℕ → ℕ → Revision coins_currency
revision id number = record {
  id = id;
  number = number;
  filesize = 9;
  renter_payout = 4;
  host_payout = 5;
}

-- One flush is taken, a later one is refused.
abbrev day : List (Call coins_currency)
day =
    recording (revision 3 7) (spent 10)
    ∷ recording (revision 4 1) (spent 20)
    ∷ recording (revision 3 8) (spent 30)
    ∷ flushing false true
    ∷ recording (revision 3 9) (spent 40)
    ∷ flushing false false
    ∷ []

calls-recorded_example :
    (let r = calls coins_currency day (new_recorder coins_currency) in
      add_spending coins_currency
        (given_to coins_currency coins_laws 3 r.given)
        (spending_of coins_currency coins_laws (lookup 3 r.contract_spendings))
      ≡ recorded coins_currency coins_laws 3 day)
calls-recorded_example = calls-recorded coins_currency coins_laws 3 day
