-- ===== src/Accounts/Refill.antt =====
-- A refill reads one account throughout, and one refill of a host runs at a time.
use sia_optimization_proposa.Prelude.{
  ℕ, ◌≡◌, refl, ap, sym, ◌∙◌, subst, Bool, true, false, Option, none, some, if◌then◌else◌, ◌==◌,
  if-true, ==_iff,
}
use sia_optimization_proposa.Prelude.Int.{ltb_ℤ}
use sia_optimization_proposa.Prelude.Maps.{Map, lookup, insert, lookup-insert}
use sia_optimization_proposa.Accounts.{Account, clear_drift}
use sia_optimization_proposa.Accounts.Manager.{
  Manager, new_account, account, reset_drift, Refill, max_drift_exceeded, registered, no_call,
  dismissed, max_neg_drift, sync_and_fund, after_reset, refill_account,
}

module _ (derive : ℕ → ℕ) where
  -- An account stands under its id, which is derived from its host.
  unfoldable pub Keyed : ℕ → Option Account → Type 0
  Keyed id none = Unit
  Keyed id (some a) = (a.acc.id ≡ id) × (derive a.acc.host_key ≡ id)

  unfoldable pub IsKeyed : Manager → Type 0
  unfolding Keyed
  IsKeyed m = (id : ℕ) → Keyed id (lookup id m.by_id)

  -- What `account` gives.
  record IsAccount (hk : ℕ) (a : Account) (m : Manager) : Type 0 where
    stands : lookup (derive hk) m.by_id ≡ some a
    keyed : IsKeyed m

  lookup-inserted :
      (id : ℕ) (a : Account) (entries : Map Account) → lookup id (insert id a entries) ≡ some a
  lookup-inserted id a entries =
      lookup-insert entries id a id ∙ if-true (id == id) _ _ ((==_iff id id).1 refl)

  IsKeyed-insert :
      (m : Manager) (id : ℕ) (a : Account)
      → IsKeyed m
      → Keyed id (some a)
      → IsKeyed (record m { by_id = insert id a m.by_id })
  unfolding IsKeyed
  IsKeyed-insert m id a k new other =
      subst (Keyed other) (sym (lookup-insert m.by_id id a other)) (go (id == other) refl)
    where
      go : (b : Bool) → (id == other) ≡ b → Keyed other (if b then some a else lookup other m.by_id)
      go true e = subst (λ i. Keyed i (some a)) ((==_iff id other).0 e) new
      go false e = k other

  account-IsAccount :
      (hk : ℕ) (m : Manager)
      → IsKeyed m
      → IsAccount hk (account derive hk m).0 (account derive hk m).1
  unfolding account Keyed
  account-IsAccount hk m k = go (lookup (derive hk) m.by_id) refl
    where
      go :
          (found : Option Account)
          → lookup (derive hk) m.by_id ≡ found
          → (let r = elim found as (λ o. Account × Manager) [
            | some a ↦ (a, m)
            | none ↦ (
              new_account derive m.owner hk,
              record m { by_id = insert (derive hk) (new_account derive m.owner hk) m.by_id },
            )
          ] in
              IsAccount hk r.0 r.1)
      go (some a) e = record { stands = e; keyed = k }
      go none e = record {
        stands = lookup-inserted (derive hk) _ m.by_id;
        keyed = IsKeyed-insert m (derive hk) _ k (refl, refl);
      }

  own : {id : ℕ} (a : Account) → Keyed id (some a) → a.acc.id ≡ id
  unfolding Keyed
  own a k = k.0

  host : {id : ℕ} (a : Account) → Keyed id (some a) → derive a.acc.host_key ≡ id
  unfolding Keyed
  host a k = k.1

  unkey : (m : Manager) → IsKeyed m → (id : ℕ) → Keyed id (lookup id m.by_id)
  unfolding IsKeyed
  unkey m k = k

  -- With an account that stands, neither `account` nor `ResetDrift` creates or misses one.
  account-found :
      (hk : ℕ) (a : Account) (m : Manager)
      → lookup (derive hk) m.by_id ≡ some a
      → account derive hk m ≡ (a, m)
  unfolding account
  account-found hk a m e = rw (account, e) refl

  reset_drift-found :
      (id : ℕ) (a : Account) (m : Manager)
      → lookup id m.by_id ≡ some a
      → reset_drift id m ≡ some (record m { by_id = insert id (clear_drift a) m.by_id })
  unfolding reset_drift
  reset_drift-found id a m e = rw (reset_drift, e) refl

  module _ (siacoin : ℕ) (sync_account : ℕ → Manager → Bool × Manager)
      (fund_account : ℕ → ℕ → Manager → Bool × Manager) where
    after_reset-found :
        (hk id : ℕ) (a : Account) (m m' : Manager)
        → lookup id m'.by_id ≡ some a
        → after_reset derive siacoin sync_account fund_account hk id m (some m')
          ≡ sync_and_fund derive siacoin sync_account fund_account hk no_call a.acc m'
    unfolding after_reset
    after_reset-found hk id a m m' e = rw (after_reset, e) refl

    -- Where each account stands under its id, derived from its host's key, `refillAccount` reads one
    -- account throughout, the one that `Account` gives or creates: its drift is below the negative
    -- maximum, and then either the limiter allows a reset, after which the refill goes on with the
    -- drift at zero and no call on the alerts, or the refill ends with the alert registered, without
    -- sync or funding; or the drift is not, and the refill goes on with the alert dismissed.
    -- The reset does not fail for an account that is missing.
    pub refill_account-account :
        (allowed : Bool) (hk : ℕ) (m : Manager)
        → IsKeyed m
        → refill_account derive siacoin sync_account fund_account allowed hk m ≡ (
            let (a, m') = account derive hk m in
            if ltb_ℤ a.acc.drift (max_neg_drift derive siacoin)
            then if allowed
              then sync_and_fund derive siacoin sync_account fund_account hk no_call
                  (clear_drift a).acc
                  (record m' { by_id = insert (derive hk) (clear_drift a) m'.by_id })
              else record { outcome = max_drift_exceeded; alert = registered; manager = m' }
            else sync_and_fund derive siacoin sync_account fund_account hk dismissed a.acc m')
    unfolding refill_account
    refill_account-account allowed hk m k =
        let a = (account derive hk m).0 in
        let m' = (account derive hk m).1 in
        let is : IsAccount hk a m' = account-IsAccount hk m k in
        let keys : Keyed (derive hk) (some a) =
          subst (Keyed (derive hk)) is.stands (is_keyed m' is.keyed) in
        ap
          (λ (r : Account × Manager).
            if ltb_ℤ a.acc.drift (max_neg_drift derive siacoin)
            then if allowed
              then after_reset derive siacoin sync_account fund_account hk r.0.acc.id r.1
                  (reset_drift r.0.acc.id r.1)
              else record { outcome = max_drift_exceeded; alert = registered; manager = r.1 }
            else sync_and_fund derive siacoin sync_account fund_account hk dismissed a.acc m')
          (account-found a.acc.host_key a m'
            (ap (λ id. lookup id m'.by_id) (host a keys) ∙ is.stands))
        ∙ ap
            (λ (x : Refill).
              if ltb_ℤ a.acc.drift (max_neg_drift derive siacoin)
              then if allowed
                then x
                else record { outcome = max_drift_exceeded; alert = registered; manager = m' }
              else sync_and_fund derive siacoin sync_account fund_account hk dismissed a.acc m')
            (reset_found a m' is.stands (own a keys))
      where
        is_keyed : (m' : Manager) → IsKeyed m' → Keyed (derive hk) (lookup (derive hk) m'.by_id)
        is_keyed m' k' = unkey m' k' (derive hk)

        reset_found :
            (a : Account) (m' : Manager)
            → lookup (derive hk) m'.by_id ≡ some a
            → a.acc.id ≡ derive hk
            → after_reset derive siacoin sync_account fund_account hk a.acc.id m'
                (reset_drift a.acc.id m')
              ≡ sync_and_fund derive siacoin sync_account fund_account hk no_call
                  (clear_drift a).acc
                  (record m' { by_id = insert (derive hk) (clear_drift a) m'.by_id })
        reset_found a m' e own_id =
            ap
              (λ id.
                after_reset derive siacoin sync_account fund_account hk id m' (reset_drift id m'))
              own_id
            ∙ ap (after_reset derive siacoin sync_account fund_account hk (derive hk) m')
                (reset_drift-found (derive hk) a m' e)
            ∙ after_reset-found hk (derive hk) (clear_drift a) m' _
                (lookup-inserted (derive hk) (clear_drift a) m'.by_id)
