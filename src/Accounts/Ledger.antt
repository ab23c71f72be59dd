-- ===== src/Accounts/Ledger.antt =====
-- The drift of an account is what its calls do not explain.
use sia_optimization_proposa.Prelude.{
  ℕ, ◌-◌, ◌≡◌, refl, ap, sym, ◌∙◌, arith, Bool, true, false, Option, none, some, List, [], ◌∷◌,
  if◌then◌else◌, ◌==◌, ltb, Bool-cases, Option-cases, ==_iff, inl, inr,
}
use sia_optimization_proposa.Prelude.Int.{ℤ, pos, ◌+ℤ◌, ◌-ℤ◌, leb_ℤ, add_value, sub_value, ext_ℤ}
use sia_optimization_proposa.Accounts.{
  Account, AccountError, add_amount, set_balance, schedule_sync, with_sync, with_deposit,
  with_withdrawal, sync_cooldown, Answer, Call, call, calls, sync, deposit, withdrawal, schedule,
  is_payment_error, failed, requires_resync, not_enough_funds,
}

-- The balance without the drift.
abbrev pub explained : Account → ℤ
explained a = a.acc.balance -ℤ a.acc.drift

move : (b d x : ℤ) → (b +ℤ x) -ℤ d ≡ (b -ℤ d) +ℤ x
move b d x =
    ext_ℤ ((b +ℤ x) -ℤ d) ((b -ℤ d) +ℤ x)
      (omega (arith, add_value b x, sub_value (b +ℤ x) d, sub_value b d, add_value (b -ℤ d) x))

resync : (new b d : ℤ) → new -ℤ (d +ℤ (new -ℤ b)) ≡ b -ℤ d
resync new b d = ext_ℤ (new -ℤ (d +ℤ (new -ℤ b))) (b -ℤ d) (
    omega (
      arith,
      sub_value new b,
      add_value d (new -ℤ b),
      sub_value new (d +ℤ (new -ℤ b)),
      sub_value b d,
    ))

add_zero : (a : ℤ) → a +ℤ pos 0 ≡ a
add_zero a = ext_ℤ (a +ℤ pos 0) a (omega (arith, add_value a (pos 0)))

add_assoc : (a b c : ℤ) → (a +ℤ b) +ℤ c ≡ a +ℤ (b +ℤ c)
add_assoc a b c =
    ext_ℤ ((a +ℤ b) +ℤ c) (a +ℤ (b +ℤ c))
      (omega (arith, add_value a b, add_value (a +ℤ b) c, add_value b c, add_value a (b +ℤ c)))

module _ (error_code_payment : ℕ) (to_currency : ℤ → ℕ) where
  -- What a call records as moved: a deposit whose function succeeds, and the amount of a
  -- withdrawal that is not refused, whatever its error is.
  unfoldable pub recorded : Call error_code_payment → Account → ℤ
  recorded (sync answer) a = pos 0
  recorded (deposit amt_fn) a = elim (amt_fn (to_currency a.acc.balance)).error [
    | some e ↦ pos 0
    | none ↦ pos (amt_fn (to_currency a.acc.balance)).amount
  ]
  recorded (withdrawal now answer) a =
      if a.acc.requires_sync
      then pos 0
      else if leb_ℤ a.acc.balance (pos 0)
      then pos 0
      else pos 0 -ℤ pos answer.amount
  recorded (schedule now) a = pos 0

  unfoldable pub recorded_all : List (Call error_code_payment) → Account → ℤ
  unfolding recorded
  recorded_all [] a = pos 0
  recorded_all (c ∷ rest) a =
      recorded c a +ℤ recorded_all rest (call error_code_payment to_currency c a).0

  -- What every call keeps: the account stays clean, and its explained balance moves by what is
  -- recorded.
  Keeps : Account → Account → ℤ → Type 0
  Keeps a b x = (b.acc.clean_shutdown ≡ true) × (explained b ≡ explained a +ℤ x)

  Keeps-none : (a : Account) → a.acc.clean_shutdown ≡ true → Keeps a a (pos 0)
  unfolding Keeps
  Keeps-none a c = (c, sym (add_zero (explained a)))

  Keeps-add_amount :
      (a : Account) (x : ℤ) → a.acc.clean_shutdown ≡ true → Keeps a (add_amount a x) x
  unfolding Keeps add_amount
  Keeps-add_amount a x c = (c, move a.acc.balance a.acc.drift x)

  Keeps-schedule_sync :
      (now : ℕ) (a : Account) → a.acc.clean_shutdown ≡ true → Keeps a (schedule_sync now a) (pos 0)
  unfolding Keeps schedule_sync
  Keeps-schedule_sync now a c = elim (Bool-cases (ltb (now - a.requires_sync_time) sync_cooldown)) [
    | inl e ↦ rw e (Keeps-none a c)
    | inr e ↦ rw e (Keeps-none a c)
  ]

  Keeps-with_sync :
      (answer : Answer) (a : Account)
      → a.acc.clean_shutdown ≡ true
      → Keeps a (with_sync answer a).0 (pos 0)
  unfolding with_sync set_balance Keeps
  Keeps-with_sync answer a c = elim (Option-cases answer.error) [
    | inl e ↦
        rw (e, c)
          (
            refl,
            resync (pos answer.amount) a.acc.balance a.acc.drift ∙ sym (add_zero (explained a)),
          )
    | inr (code, e) ↦ rw e (Keeps-none a c)
  ]

  Keeps-with_deposit :
      (amt_fn : ℕ → Answer) (a : Account)
      → a.acc.clean_shutdown ≡ true
      → Keeps a (with_deposit to_currency amt_fn a).0 (recorded (deposit amt_fn) a)
  unfolding with_deposit recorded
  Keeps-with_deposit amt_fn a c = go (amt_fn (to_currency a.acc.balance)).error
    where
      go :
          (error : Option ℕ)
          → Keeps a
              (elim error as (λ o. Account × Option AccountError) [
                | some e ↦ (a, some (failed e))
                | none ↦ (add_amount a (pos (amt_fn (to_currency a.acc.balance)).amount), none)
              ]).0
              (elim error as (λ o. ℤ) [
                | some e ↦ pos 0
                | none ↦ pos (amt_fn (to_currency a.acc.balance)).amount
              ])
      go none = Keeps-add_amount a (pos (amt_fn (to_currency a.acc.balance)).amount) c
      go (some e) = Keeps-none a c

  minus_zero : (n : ℕ) → (n == 0) ≡ true → pos 0 ≡ pos 0 -ℤ pos n
  minus_zero n e =
      ext_ℤ (pos 0) (pos 0 -ℤ pos n) (omega (arith, sub_value (pos 0) (pos n), (==_iff n 0).0 e))

  Keeps-charged :
      (a s : Account) (amount : ℕ)
      → Keeps a s (pos 0)
      → Keeps a
          (if amount == 0 then s else add_amount s (pos 0 -ℤ pos amount))
          (pos 0 -ℤ pos amount)
  unfolding Keeps add_amount
  Keeps-charged a s amount k = elim (Bool-cases (amount == 0)) [
    | inl e ↦ rw e (k.0, k.1 ∙ ap (λ x. explained a +ℤ x) (minus_zero amount e))
    | inr e ↦ rw e (
      k.0,
      move s.acc.balance s.acc.drift (pos 0 -ℤ pos amount)
          ∙ ap (λ x. x +ℤ (pos 0 -ℤ pos amount)) (k.1 ∙ add_zero (explained a)),
    )
  ]

  Keeps-with_withdrawal :
      (now : ℕ) (answer : Answer) (a : Account)
      → a.acc.clean_shutdown ≡ true
      → Keeps a
          (with_withdrawal error_code_payment now answer a).0
          (recorded (withdrawal now answer) a)
  unfolding with_withdrawal recorded
  Keeps-with_withdrawal now answer a c = go a.acc.requires_sync (leb_ℤ a.acc.balance (pos 0)) _ _ (
      Keeps-charged a _ answer.amount
        (scheduled (is_payment_error error_code_payment answer.error)))
    where
      go :
          (refused empty : Bool) (charged : Account) (error : Option AccountError)
          → Keeps a charged (pos 0 -ℤ pos answer.amount)
          → Keeps a
              (if◌then◌else◌ {A = Account × Option AccountError} refused
                (a, some requires_resync)
                (if empty then (a, some not_enough_funds) else (charged, error))).0
              (if refused then pos 0 else if empty then pos 0 else pos 0 -ℤ pos answer.amount)
      go true empty charged error k = Keeps-none a c
      go false true charged error k = Keeps-none a c
      go false false charged error k = k

      scheduled : (b : Bool) → Keeps a (if b then schedule_sync now a else a) (pos 0)
      scheduled true = Keeps-schedule_sync now a c
      scheduled false = Keeps-none a c

  Keeps-call :
      (c : Call error_code_payment) (a : Account)
      → a.acc.clean_shutdown ≡ true
      → Keeps a (call error_code_payment to_currency c a).0 (recorded c a)
  unfolding call recorded
  Keeps-call (sync answer) a c = Keeps-with_sync answer a c
  Keeps-call (deposit amt_fn) a c = Keeps-with_deposit amt_fn a c
  Keeps-call (withdrawal now answer) a c = Keeps-with_withdrawal now answer a c
  Keeps-call (schedule now) a c = Keeps-schedule_sync now a c

  -- On an account that was synced since its last unclean shutdown, after any sequence of syncs,
  -- deposits, withdrawals and scheduled syncs, failed ones among them, the balance less the drift
  -- has moved by exactly what deposits and withdrawals recorded, so the drift is the sum of the
  -- differences that syncs found.
  pub explained-calls :
      (cs : List (Call error_code_payment)) (a : Account)
      → a.acc.clean_shutdown ≡ true
      → explained (calls error_code_payment to_currency cs a) ≡ explained a +ℤ recorded_all cs a
  unfolding calls recorded_all Keeps
  explained-calls [] a c = sym (add_zero (explained a))
  explained-calls (first ∷ rest) a c =
      let k = Keeps-call first a c in
      explained-calls rest (call error_code_payment to_currency first a).0 k.0
      ∙ ap (λ e. e +ℤ recorded_all rest (call error_code_payment to_currency first a).0) k.1
      ∙ add_assoc (explained a) (recorded first a) _
