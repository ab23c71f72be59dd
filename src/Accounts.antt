-- ===== src/Accounts.antt =====
-- internal/accounts/accounts.go: an account with a host, its balance and its drift. Keys and ids are
-- numbers, a time is nanoseconds since the zero time, and a `big.Int` is an integer.
pub mod Manager
pub mod Ledger
pub mod Blocked
pub mod Refill
pub mod Progress
use sia_optimization_proposa.Prelude.{
  ℕ, ◌+◌, ◌-◌, ◌*◌, Bool, true, false, Option, none, some, List, [], ◌∷◌, if◌then◌else◌, ◌==◌, ltb,
}
use sia_optimization_proposa.Prelude.Int.{ℤ, pos, ◌+ℤ◌, ◌-ℤ◌, leb_ℤ}

-- api/account.go: `Account`
pub record ApiAccount : Type 0 where
  pub id : ℕ
  pub clean_shutdown : Bool
  pub host_key : ℕ
  pub balance : ℤ
  pub drift : ℤ
  pub owner : ℕ
  pub requires_sync : Bool

pub record Account : Type 0 where
  pub requires_sync_time : ℕ
  pub acc : ApiAccount

-- What fails: the two refusals of a withdrawal, or the error of the function that is passed.
pub data AccountError : Type 0 where
  requires_resync not_enough_funds : AccountError
  failed : ℕ → AccountError

abbrev pub update_acc : Account → ApiAccount → Account
update_acc a acc = record a { acc = acc }

-- `addAmount`
pub add_amount : Account → ℤ → Account
add_amount a amt = update_acc a (record a.acc { balance = a.acc.balance +ℤ amt })

-- `resetDrift`
pub clear_drift : Account → Account
clear_drift a = update_acc a (record a.acc { drift = pos 0 })

-- 30 seconds
abbrev pub sync_cooldown : ℕ
sync_cooldown = 30000000000

-- `ScheduleSync`
pub schedule_sync : ℕ → Account → Account
schedule_sync now a =
    if ltb (now - a.requires_sync_time) sync_cooldown
    then a
    else record { requires_sync_time = now; acc = record a.acc { requires_sync = true } }

-- `setBalance`
pub set_balance : ℤ → Account → Account
set_balance balance a =
    let change = balance -ℤ a.acc.balance in
    update_acc a (record a.acc {
      balance = balance;
      drift = if a.acc.clean_shutdown then a.acc.drift +ℤ change else a.acc.drift;
      clean_shutdown = true;
      requires_sync = false;
    })

-- What a function that is passed gives: an amount of currency, and perhaps an error, given with its
-- code on the wire.
pub record Answer : Type 0 where
  pub amount : ℕ
  pub error : Option ℕ

-- `WithSync`, for what `balanceFn` gives.
pub with_sync : Answer → Account → Account × Option AccountError
unfolding set_balance
with_sync answer a = elim answer.error [
  | some e ↦ (a, some (failed e))
  | none ↦ (set_balance (pos answer.amount) a, none)
]

-- `WithDeposit`, for what `amtFn` gives of the balance as a currency.
pub with_deposit : (ℤ → ℕ) → (ℕ → Answer) → Account → Account × Option AccountError
unfolding add_amount
with_deposit to_currency amt_fn a =
    let answer = amt_fn (to_currency a.acc.balance) in
    elim answer.error [
      | some e ↦ (a, some (failed e))
      | none ↦ (add_amount a (pos answer.amount), none)
    ]

-- `rhpv4.ErrorCodePayment` is a number of another library.
module _ (error_code_payment : ℕ) where
  abbrev pub is_payment_error : Option ℕ → Bool
  is_payment_error none = false
  is_payment_error (some code) = code == error_code_payment

  abbrev pub error_of : Option ℕ → Option AccountError
  error_of none = none
  error_of (some e) = some (failed e)

  -- `WithWithdrawal`, for what `amtFn` gives; it is not called where the result is a refusal.
  pub with_withdrawal : ℕ → Answer → Account → Account × Option AccountError
  unfolding add_amount schedule_sync
  with_withdrawal now answer a =
      let scheduled = if is_payment_error answer.error then schedule_sync now a else a in
      let charged =
        if answer.amount == 0
        then scheduled
        else add_amount scheduled (pos 0 -ℤ pos answer.amount) in
      if a.acc.requires_sync
      then (a, some requires_resync)
      else if leb_ℤ a.acc.balance (pos 0)
      then (a, some not_enough_funds)
      else (charged, error_of answer.error)

  -- A call on an account, with what the function that is passed gives.
  pub data Call : Type 0 where
    sync : Answer → Call
    deposit : (ℕ → Answer) → Call
    withdrawal : ℕ → Answer → Call
    schedule : ℕ → Call

  unfoldable pub call : (ℤ → ℕ) → Call → Account → Account × Option AccountError
  unfolding with_sync with_deposit with_withdrawal schedule_sync
  call to_currency (sync answer) a = with_sync answer a
  call to_currency (deposit amt_fn) a = with_deposit to_currency amt_fn a
  call to_currency (withdrawal now answer) a = with_withdrawal now answer a
  call to_currency (schedule now) a = (schedule_sync now a, none)

  unfoldable pub calls : (ℤ → ℕ) → List Call → Account → Account
  unfolding call
  calls to_currency [] a = a
  calls to_currency (c ∷ rest) a = calls to_currency rest (call to_currency c a).0
