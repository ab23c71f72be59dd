-- ===== src/Accounts/Blocked.antt =====
-- After a payment error, an account gives nothing more until it is synced.
use sia_optimization_proposa.Prelude.{
  ℕ, ◌-◌, ◌≡◌, refl, ap, ◌∙◌, Bool, true, false, Option, none, some, List, [], ◌∷◌, if◌then◌else◌,
  ◌==◌, ltb, All, if-true, if-false, ==_iff,
}
use sia_optimization_proposa.Prelude.Int.{ℤ, pos, ◌-ℤ◌, leb_ℤ}
use sia_optimization_proposa.Accounts.{
  Account, AccountError, add_amount, schedule_sync, with_sync, with_deposit, with_withdrawal,
  sync_cooldown, Answer, Call, call, calls, sync, deposit, withdrawal, schedule, failed,
  requires_resync, is_payment_error,
}

module _ (error_code_payment : ℕ) (to_currency : ℤ → ℕ) where
  -- A call that is no sync, or one that fails.
  unfoldable pub NotSynced : Call error_code_payment → Type 0
  NotSynced (sync answer) = (code : ℕ) × (answer.error ≡ some code)
  NotSynced (deposit amt_fn) = Unit
  NotSynced (withdrawal now answer) = Unit
  NotSynced (schedule now) = Unit

  schedule_sync-requires_sync :
      (now : ℕ) (a : Account)
      → a.acc.requires_sync ≡ true
      → (schedule_sync now a).acc.requires_sync ≡ true
  unfolding schedule_sync
  schedule_sync-requires_sync now a h = go (ltb (now - a.requires_sync_time) sync_cooldown)
    where
      go :
          (b : Bool)
          → (if◌then◌else◌ {A = Account} b a (record {
            requires_sync_time = now;
            acc = record a.acc { requires_sync = true };
          })).acc.requires_sync
            ≡ true
      go true = h
      go false = refl

  refused :
      (now : ℕ) (answer : Answer) (a : Account)
      → a.acc.requires_sync ≡ true
      → with_withdrawal error_code_payment now answer a ≡ (a, some requires_resync)
  unfolding with_withdrawal
  refused now answer a h = if-true a.acc.requires_sync _ _ h

  call-requires_sync :
      (c : Call error_code_payment) (a : Account)
      → NotSynced c
      → a.acc.requires_sync ≡ true
      → (call error_code_payment to_currency c a).0.acc.requires_sync ≡ true
  unfolding call NotSynced with_sync with_deposit add_amount
  call-requires_sync (sync answer) a (code, e) h = rw e h
  call-requires_sync (deposit amt_fn) a u h = go (amt_fn (to_currency a.acc.balance)).error
    where
      go :
          (error : Option ℕ)
          → (elim error as (λ o. Account × Option AccountError) [
            | some e ↦ (a, some (failed e))
            | none ↦ (add_amount a (pos (amt_fn (to_currency a.acc.balance)).amount), none)
          ]).0.acc.requires_sync
            ≡ true
      go none = h
      go (some e) = h
  call-requires_sync (withdrawal now answer) a u h =
      ap (λ r. r.0.acc.requires_sync) (refused now answer a h) ∙ h
  call-requires_sync (schedule now) a u h = schedule_sync-requires_sync now a h

  calls-requires_sync :
      (cs : List (Call error_code_payment)) (a : Account)
      → All NotSynced cs
      → a.acc.requires_sync ≡ true
      → (calls error_code_payment to_currency cs a).acc.requires_sync ≡ true
  unfolding calls
  calls-requires_sync [] a n h = h
  calls-requires_sync (c ∷ rest) a n h =
      calls-requires_sync rest _ n.1 (call-requires_sync c a n.0 h)

  payment_error :
      (now : ℕ) (answer : Answer) (a : Account)
      → answer.error ≡ some error_code_payment
      → a.acc.requires_sync ≡ false
      → leb_ℤ a.acc.balance (pos 0) ≡ false
      → ltb (now - a.requires_sync_time) sync_cooldown ≡ false
      → (with_withdrawal error_code_payment now answer a).0.acc.requires_sync ≡ true
  unfolding with_withdrawal schedule_sync add_amount
  payment_error now answer a e r b t =
      let is_payment =
        ap (is_payment_error error_code_payment) e
        ∙ (==_iff error_code_payment error_code_payment).1 refl in
      ap (λ (x : Account × Option AccountError). x.0.acc.requires_sync)
        (if-false a.acc.requires_sync _ _ r ∙ if-false (leb_ℤ a.acc.balance (pos 0)) _ _ b)
      ∙ charged (answer.amount == 0) _
      ∙ ap (λ (s : Account). s.acc.requires_sync)
          (if-true (is_payment_error error_code_payment answer.error) _ _ is_payment
            ∙ if-false (ltb (now - a.requires_sync_time) sync_cooldown) _ _ t)
    where
      charged :
          (b : Bool) (s : Account)
          → (if◌then◌else◌ {A = Account} b s
              (add_amount s (pos 0 -ℤ pos answer.amount))).acc.requires_sync
            ≡ s.acc.requires_sync
      charged true s = refl
      charged false s = refl

  -- When a withdrawal on a usable account gets a payment error, at least 30 seconds after the last
  -- sync was scheduled, then after any calls among which no sync succeeds every withdrawal is refused
  -- for a resync and leaves the account as it is.
  pub payment_error-blocks :
      (now later : ℕ) (answer other : Answer) (a : Account) (cs : List (Call error_code_payment))
      → answer.error ≡ some error_code_payment
      → a.acc.requires_sync ≡ false
      → leb_ℤ a.acc.balance (pos 0) ≡ false
      → ltb (now - a.requires_sync_time) sync_cooldown ≡ false
      → All NotSynced cs
      → with_withdrawal error_code_payment later other (
          calls error_code_payment to_currency cs
            (with_withdrawal error_code_payment now answer a).0)
        ≡ (
          calls error_code_payment to_currency cs
              (with_withdrawal error_code_payment now answer a).0,
          some requires_resync,
        )
  payment_error-blocks now later answer other a cs e r b t n =
      refused later other _ (calls-requires_sync cs _ n (payment_error now answer a e r b t))
