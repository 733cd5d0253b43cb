-- ===== src/Examples/Registers.antt =====
-- The lock registers of the example channels, and a lock that is sent twice.
use pylons.Base.{◌≤◌, [], ◌∷◌, ◌≡◌, refl, none, arith, inl, true}
use pylons.Base.Outcome.{panic}
use pylons.Base.{ℕ, some, false, ◌==◌, ◌⊎◌}
use pylons.State.{HashTimeLockState}
use pylons.State.SyncMap.{load}
use pylons.Merkle.{compute_layers, contains, rebuild}
use pylons.Base.Sort.{sort}
use pylons.Merkle.RoundTrip.{tree_over}
use pylons.Channel.Balance.{get_amount_locked, get_distributable, get_balance}
use pylons.Channel.Locks.{get_lock, del_lock, register_secret_end_state}
use pylons.Channel.Status.{get_status, opened}
use pylons.Channel.Packing.{with_lock_hash, calc_lock_hash, pack_data}
use pylons.Channel.Send.{lock_of_args, next_balance_proof, fake_signed, send_locked_transfer}
use pylons.Channel.Locks.Registers.{Distinct, register_secret_end_state-moves}
use pylons.Channel.Locks.Lifecycle.{add_lock, LockSteps, LockStep, Exclusive, steps-Exclusive}
use pylons.Channel.Send.Duplicate.{send_locked_transfer_panics}
use pylons.Examples.{test_env, fresh_end}
use pylons.Examples.Locks.{args, lock, left_locked, secret}

-- A secret that becomes known.
one_lock : Distinct left_locked.our_state.secret_hashes_to_locked_locks
unfolding Distinct load
one_lock = (refl, tt)

unused_unlocked : load 77 left_locked.our_state.secret_hashes_to_unlocked_locks ≡ none
unfolding load
unused_unlocked = refl

register_secret_end_state-moves_example :
    let e = left_locked.our_state in
    let e' = register_secret_end_state e secret 77 in
    (((found : HashTimeLockState) × (load 77 e.secret_hashes_to_locked_locks ≡ some found)
        × (load 77 e'.secret_hashes_to_locked_locks ≡ none)
        × (load 77 e'.secret_hashes_to_unlocked_locks
            ≡ some (record { lock = found; secret = secret })))
      ⊎ ((load 77 e.secret_hashes_to_locked_locks ≡ none) × (e' ≡ e)))
    × ((j : ℕ)
        → (77 == j) ≡ false
        → (load j e'.secret_hashes_to_locked_locks ≡ load j e.secret_hashes_to_locked_locks)
          × (load j e'.secret_hashes_to_unlocked_locks ≡ load j e.secret_hashes_to_unlocked_locks))
    × (get_amount_locked e' ≡ get_amount_locked e)
    × (get_lock e' 77 ≡ get_lock e 77)
register_secret_end_state-moves_example =
    register_secret_end_state-moves left_locked.our_state secret 77 one_lock unused_unlocked

-- A lock is added, unlocked by its secret, and paid out.
steps :
    LockSteps
      (fresh_end 1)
      (del_lock (register_secret_end_state (add_lock (fresh_end 1) 77 lock) secret 77) 77)
unfolding get_lock load
steps =
    LockSteps.then_step _ _
      (LockSteps.then_step _ _
        (LockSteps.then_step _ _ LockSteps.none_yet (LockStep.added 77 lock refl))
        (LockStep.registered secret 77))
      (LockStep.deleted 77)

no_locks : Exclusive (fresh_end 1)
unfolding load
no_locks = record { locked_alone = λ k. inl refl; unlocked_alone = λ k. inl refl }

steps-Exclusive_example :
    Exclusive (del_lock (register_secret_end_state (add_lock (fresh_end 1) 77 lock) secret 77) 77)
steps-Exclusive_example =
    steps-Exclusive (fresh_end 1)
      (del_lock (register_secret_end_state (add_lock (fresh_end 1) 77 lock) secret 77) 77) steps
      no_locks

-- The same lock once more.
one_hash :
    left_locked.our_state.merkle_tree
    ≡ tree_over test_env (calc_lock_hash test_env (lock_of_args args) ∷ [])
unfolding tree_over rebuild compute_layers sort
one_hash = refl

there :
    contains
      (calc_lock_hash test_env (lock_of_args args) ∷ [])
      (calc_lock_hash test_env (lock_of_args args))
    ≡ true
unfolding contains calc_lock_hash lock_of_args pack_data
there = refl

can_pay : args.amount ≤ get_distributable left_locked.our_state left_locked.partner_state
unfolding get_distributable get_balance get_amount_locked with_lock_hash lock_of_args
    next_balance_proof fake_signed
can_pay = omega arith

open_channel : get_status left_locked ≡ opened
unfolding get_status
open_channel = refl

send_locked_transfer_panics_example : send_locked_transfer test_env left_locked args ≡ panic
send_locked_transfer_panics_example =
    send_locked_transfer_panics test_env left_locked args
      (calc_lock_hash test_env (lock_of_args args) ∷ []) open_channel can_pay one_hash there
