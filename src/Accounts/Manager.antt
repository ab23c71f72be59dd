-- ===== src/Accounts/Manager.antt =====
-- internal/accounts/accounts.go: the manager of the accounts. `derive` is the key derivation of
-- another library, from a host key to the id of its account.
use sia_optimization_proposa.Prelude.{
  ℕ, ◌*◌, ◌/◌, Bool, true, false, Option, none, some, List, [], ◌∷◌, map, if◌then◌else◌, ◌==◌,
}
use sia_optimization_proposa.Prelude.Int.{ℤ, pos, ◌-ℤ◌, leb_ℤ, ltb_ℤ}
use sia_optimization_proposa.Prelude.Maps.{Map, lookup, insert, delete}
use sia_optimization_proposa.Accounts.{ApiAccount, Account, clear_drift}

-- The set of refills in progress is a map to the unit.
pub record Manager : Type 0 where
  pub owner : ℕ
  pub by_id : Map Account
  pub in_progress_refills : Map {0} Unit

-- `NewManager`
abbrev pub new_manager : ℕ → Manager
new_manager owner = record { owner = owner; by_id = []; in_progress_refills = [] }

-- `Accounts`
abbrev pub accounts : Manager → List ApiAccount
accounts m = map (λ (entry : ℕ × Account). entry.1.acc) m.by_id

-- `ResetDrift`; `none` is `ErrAccountNotFound`.
unfoldable pub reset_drift : ℕ → Manager → Option Manager
unfolding clear_drift
reset_drift id m = elim (lookup id m.by_id) [
  | none ↦ none
  | some a ↦ some (record m { by_id = insert id (clear_drift a) m.by_id })
]

-- `markRefillInProgress`
unfoldable pub mark_refill_in_progress : ℕ → Manager → Bool × Manager
mark_refill_in_progress hk m = elim (lookup hk m.in_progress_refills) [
  | some u ↦ (false, m)
  | none ↦ (true, record m { in_progress_refills = insert hk tt m.in_progress_refills })
]

-- `markRefillDone`; `none` is the panic.
unfoldable pub mark_refill_done : ℕ → Manager → Option Manager
mark_refill_done hk m = elim (lookup hk m.in_progress_refills) [
  | none ↦ none
  | some u ↦ some (record m { in_progress_refills = delete hk m.in_progress_refills })
]

-- The two calls on the alerts.
pub data AlertCall : Type 0 where
  no_call registered dismissed : AlertCall

pub data Outcome : Type 0 where
  max_drift_exceeded reset_failed sync_failed not_needed fund_failed refilled : Outcome

pub record Refill : Type 0 where
  pub outcome : Outcome
  pub alert : AlertCall
  pub manager : Manager

module _ (derive : ℕ → ℕ) where
  -- The account that is created for a host.
  abbrev pub new_account : ℕ → ℕ → Account
  new_account owner hk = record {
    requires_sync_time = 0;
    acc = record {
      id = derive hk;
      clean_shutdown = false;
      host_key = hk;
      balance = pos 0;
      drift = pos 0;
      owner = owner;
      requires_sync = true;
    };
  }

  -- `account`, which `ForHost` and `Account` call.
  unfoldable pub account : ℕ → Manager → Account × Manager
  account hk m = elim (lookup (derive hk) m.by_id) [
    | some a ↦ (a, m)
    | none ↦ (
      new_account m.owner hk,
      record m { by_id = insert (derive hk) (new_account m.owner hk) m.by_id },
    )
  ]

  -- The accounts that `run` makes of the saved ones.
  unfoldable load : ℕ → List ApiAccount → Map Account → Map Account
  load now [] built = built
  load now (acc ∷ saved) built = load now saved (
      if derive acc.host_key == acc.id
      then insert (derive acc.host_key) (record { requires_sync_time = now; acc = acc }) built
      else built)

  -- `run`, up to its loop: what the store is told, the map of accounts that `run` has made, and
  -- the manager, which is not told of the map.
  unfoldable pub run_start : ℕ → List ApiAccount → Manager → List ApiAccount × Map Account × Manager
  unfolding load
  run_start now saved m = (
    map (λ (acc : ApiAccount). record acc { clean_shutdown = false }) saved,
    load now saved [],
    m,
  )

  -- A currency is counted in the unit of another library, `siacoin` of which are one coin.
  module _ (siacoin : ℕ) where
    abbrev pub min_balance : ℤ
    min_balance = pos (siacoin / 2)

    abbrev pub max_balance : ℕ
    max_balance = siacoin

    abbrev pub max_neg_drift : ℤ
    max_neg_drift = pos 0 -ℤ pos (4 * siacoin)

    -- The calls of `SyncAccount` and `FundAccount`: whether they fail, and the manager behind them.
    module _ (sync_account : ℕ → Manager → Bool × Manager)
        (fund_account : ℕ → ℕ → Manager → Bool × Manager) where
      -- `refillAccount` from the check of the balance on.
      unfoldable fund : ℕ → AlertCall → ApiAccount → Manager → Refill
      fund hk alert acc m =
          let (ok, m') = fund_account hk max_balance m in
          if leb_ℤ min_balance acc.balance
          then record { outcome = not_needed; alert = alert; manager = m }
          else if ok
          then record { outcome = refilled; alert = alert; manager = m' }
          else record { outcome = fund_failed; alert = alert; manager = m' }

      -- `refillAccount` from the check for a sync on.
      pub sync_and_fund : ℕ → AlertCall → ApiAccount → Manager → Refill
      unfolding fund account
      sync_and_fund hk alert acc m =
          let (ok, m') = sync_account hk m in
          let (a, m'') = account hk m' in
          if acc.requires_sync
          then if ok
            then fund hk alert a.acc m''
            else record { outcome = sync_failed; alert = alert; manager = m' }
          else fund hk alert acc m

      -- After `ResetDrift`, the account is read again.
      unfoldable pub after_reset : ℕ → ℕ → Manager → Option Manager → Refill
      unfolding sync_and_fund
      after_reset hk id m none = record { outcome = reset_failed; alert = no_call; manager = m }
      after_reset hk id m (some m') = elim (lookup id m'.by_id) [
        | none ↦ record { outcome = reset_failed; alert = no_call; manager = m' }
        | some a ↦ sync_and_fund hk no_call a.acc m'
      ]

      -- `refillAccount`; `allowed` is the answer of the rate limiter.
      unfoldable pub refill_account : Bool → ℕ → Manager → Refill
      unfolding account after_reset reset_drift sync_and_fund
      refill_account allowed hk m =
          let (a, m1) = account hk m in
          let (b, m2) = account a.acc.host_key m1 in
          if ltb_ℤ a.acc.drift max_neg_drift
          then if allowed
            then after_reset hk b.acc.id m2 (reset_drift b.acc.id m2)
            else record { outcome = max_drift_exceeded; alert = registered; manager = m2 }
          else sync_and_fund hk dismissed a.acc m1
