-- ===== src/Tests/AccountRuns.antt =====
-- Runs of the accounts.
use sia_optimization_proposa.Prelude.{
  ℕ, ◌≡◌, refl, Bool, true, false, none, some, List, [], ◌∷◌, if◌then◌else◌, ◌==◌, ==_iff,
}
use sia_optimization_proposa.Prelude.Int.{pos, negsuc, pos_part, ◌+ℤ◌, ◌-ℤ◌}
use sia_optimization_proposa.Prelude.Maps.{lookup}
use sia_optimization_proposa.Accounts.{
  Account, Answer, Call, calls, sync, deposit, withdrawal, with_withdrawal, requires_resync,
}
use sia_optimization_proposa.Accounts.Manager.{
  Manager, account, mark_refill_in_progress, mark_refill_done, refill_account, max_drift_exceeded,
  registered,
}
use sia_optimization_proposa.Accounts.Ledger.{explained, recorded_all, explained-calls}
use sia_optimization_proposa.Accounts.Blocked.{NotSynced, payment_error-blocks}
use sia_optimization_proposa.Accounts.Refill.{Keyed, IsKeyed, refill_account-account}
use sia_optimization_proposa.Accounts.Progress.{start, done, marks, one_refill}

abbrev synced : Account
synced = record {
  requires_sync_time = 5;
  acc = record {
    id = 7;
    clean_shutdown = true;
    host_key = 3;
    balance = pos 100;
    drift = pos 0;
    owner = 1;
    requires_sync = false;
  };
}

-- A host that loses 20 of a balance of 120: the drift is -20.
abbrev lossy : List (Call 9)
lossy =
    deposit (λ balance. record { amount = 50; error = none })
    ∷ withdrawal 6 (record { amount = 30; error = some 4 })
    ∷ sync (record { amount = 100; error = none })
    ∷ []

explained-calls_example :
    explained (calls 9 pos_part lossy synced)
    ≡ explained synced +ℤ recorded_all 9 pos_part lossy synced
explained-calls_example = explained-calls 9 pos_part lossy synced refl

drift_of_lossy : (calls 9 pos_part lossy synced).acc.drift ≡ negsuc 19
unfolding calls ◌+ℤ◌ ◌-ℤ◌
drift_of_lossy = refl

abbrev payment : Answer
payment = record { amount = 10; error = some 9 }

abbrev unsynced : List (Call 9)
unsynced =
    deposit (λ balance. record { amount = 50; error = none })
    ∷ sync (record { amount = 1; error = some 2 })
    ∷ []

payment_error-blocks_example :
    with_withdrawal 9 50000000000 payment
      (calls 9 pos_part unsynced (with_withdrawal 9 40000000000 payment synced).0)
    ≡ (
      calls 9 pos_part unsynced (with_withdrawal 9 40000000000 payment synced).0,
      some requires_resync,
    )
unfolding NotSynced
payment_error-blocks_example =
    payment_error-blocks 9 pos_part 40000000000 50000000000 payment payment synced unsynced refl
      refl refl refl (tt, ((2, refl), tt))

-- A manager with one account, whose drift is too large.
abbrev cheated : Account
cheated = record synced { acc = record synced.acc { id = 3; drift = negsuc 99 } }

abbrev with_cheated : Manager
with_cheated = record { owner = 1; by_id = (3, cheated) ∷ []; in_progress_refills = [] }

abbrev same : ℕ → ℕ
same hk = hk

abbrev nothing : ℕ → Manager → Bool × Manager
nothing hk m = (true, m)

abbrev no_funds : ℕ → ℕ → Manager → Bool × Manager
no_funds hk amount m = (false, m)

with_cheated-IsKeyed : IsKeyed same with_cheated
unfolding IsKeyed Keyed lookup
with_cheated-IsKeyed id = go (3 == id) refl
  where
    go : (b : Bool) → (3 == id) ≡ b → Keyed same id (if b then some cheated else none)
    go true e = ((==_iff 3 id).0 e, (==_iff 3 id).0 e)
    go false e = tt

refill_account-account_example :
    refill_account same 10 nothing no_funds false 3 with_cheated
    ≡ record { outcome = max_drift_exceeded; alert = registered; manager = with_cheated }
unfolding account lookup ◌-ℤ◌
refill_account-account_example =
    refill_account-account same 10 nothing no_funds false 3 with_cheated with_cheated-IsKeyed

one_refill_example :
    (let during = marks (done 4 ∷ start 5 ∷ []) (mark_refill_in_progress 3 with_cheated).1 in
      ((mark_refill_in_progress 3 with_cheated).0 ≡ true)
      × (mark_refill_in_progress 3 during ≡ (false, during))
      × (m' : Manager) × (mark_refill_done 3 during ≡ some m')
      × (lookup 3 m'.in_progress_refills ≡ none)
      × ((mark_refill_in_progress 3 m').0 ≡ true))
unfolding lookup
one_refill_example = one_refill 3 (done 4 ∷ start 5 ∷ []) with_cheated refl (refl, (refl, tt))
