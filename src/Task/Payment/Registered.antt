-- ===== src/Task/Payment/Registered.antt =====
-- A receiver that has registered the secret of a lock takes the unlock of it as if it had not: the
-- lock is found, the amounts and the tree are the same, and the lock is gone from all registers.
use pylons.Base.{ℕ, List, none, some, ◌≡◌, arith, inl, inr}
use pylons.Base.Outcome.{ok, Outcome-cases}
use pylons.Common.{Env, get_hash}
use pylons.Event.{Event}
use pylons.Channel.Receive.{handle_unlock}
use pylons.State.{
  NettingChannelEndState, NettingChannelState, HashTimeLockState, BalanceProofSignedState,
  MerkleTreeState, UnlockPartialProofState,
}
use pylons.State.SyncMap.{load, load-store}
use pylons.StateChange.{ReceiveUnlock}
use pylons.Channel.Locks.{
  del_lock, del_unclaimed_lock, is_lock_pending, register_secret_end_state,
  register_off_chain_secret,
}
use pylons.Channel.Locks.Registers.{
  Distinct, register_secret_end_state-moves, delete-delete, delete-store,
}
use pylons.Channel.Balance.{get_current_balance_proof, get_next_nonce}
use pylons.Channel.Status.{get_status}
use pylons.Channel.Validity.{is_valid_unlock, is_balance_proof_usable_on_chain}

register_rest :
    (e : NettingChannelEndState) (secret : List ℕ) (k : ℕ)
    → let e' = register_secret_end_state e secret k in
      (e'.merkle_tree ≡ e.merkle_tree)
      × (e'.balance_proof ≡ e.balance_proof)
      × (e'.address ≡ e.address)
unfolding register_secret_end_state
register_rest e secret k = (ground arith, ground arith, ground arith)

register_missing :
    (e : NettingChannelEndState) (secret : List ℕ) (k : ℕ)
    → load k e.secret_hashes_to_locked_locks ≡ none
    → register_secret_end_state e secret k ≡ e
unfolding register_secret_end_state
register_missing e secret k free = ground arith

module _ (env : Env) where
  pub is_valid_unlock-register :
      (b : NettingChannelState) (unlock : ReceiveUnlock) (secret : List ℕ) (k : ℕ)
      → Distinct b.partner_state.secret_hashes_to_locked_locks
      → load k b.partner_state.secret_hashes_to_unlocked_locks ≡ none
      → is_valid_unlock env unlock k
          (register_off_chain_secret b secret k)
          (register_secret_end_state b.partner_state secret k)
        ≡ is_valid_unlock env unlock k b b.partner_state
  unfolding is_valid_unlock is_balance_proof_usable_on_chain get_current_balance_proof
      get_next_nonce register_off_chain_secret get_status
  is_valid_unlock-register b unlock secret k d new =
      let e = b.partner_state in
      let e' = register_secret_end_state e secret k in
      let (_, _, amount, lock) = register_secret_end_state-moves e secret k d new in
      let rest = register_rest e secret k in
      let tree = rest.0 in let proof = rest.1 in let address = rest.2 in ground arith

-- To delete a lock whose secret is registered is to delete the lock.
pub del_lock-register :
    (e : NettingChannelEndState) (bp : BalanceProofSignedState) (tree : MerkleTreeState)
    (secret : List ℕ) (k : ℕ) (lock : HashTimeLockState)
    → load k e.secret_hashes_to_locked_locks ≡ some lock
    → del_lock
        (record (register_secret_end_state e secret k) {
          balance_proof = some bp;
          merkle_tree = tree;
        })
        k
      ≡ del_lock (record e { balance_proof = some bp; merkle_tree = tree }) k
unfolding del_lock del_unclaimed_lock is_lock_pending register_secret_end_state
del_lock-register e bp tree secret k lock found =
    let proof : UnlockPartialProofState = record { lock = lock; secret = secret } in
    ground (
      arith,
      delete-delete k e.secret_hashes_to_locked_locks,
      delete-store k proof e.secret_hashes_to_unlocked_locks,
      load-store k k proof e.secret_hashes_to_unlocked_locks,
    )

-- A valid unlock leaves the same channel, whether the receiver has registered the secret or not.
pub handle_unlock-register :
    (env : Env) (b : NettingChannelState) (unlock : ReceiveUnlock) (secret : List ℕ) (k : ℕ)
    (lock : HashTimeLockState) (result : NettingChannelState × List Event)
    → Distinct b.partner_state.secret_hashes_to_locked_locks
    → load k b.partner_state.secret_hashes_to_unlocked_locks ≡ none
    → load k b.partner_state.secret_hashes_to_locked_locks ≡ some lock
    → load k b.our_state.secret_hashes_to_locked_locks ≡ none
    → get_hash env unlock.secret ≡ k
    → handle_unlock env b unlock ≡ ok (result.0, result.1, none)
    → handle_unlock env (register_off_chain_secret b secret k) unlock
      ≡ ok (result.0, result.1, none)
unfolding handle_unlock register_off_chain_secret
handle_unlock-register env b unlock secret k lock result d new found free hash handled =
    elim (Outcome-cases (is_valid_unlock env unlock k b b.partner_state)) [
      | inl (tree, valid) ↦
          let same = is_valid_unlock-register env b unlock secret k d new in
          let gone =
            del_lock-register b.partner_state unlock.balance_proof tree secret k lock found in
          let ours = register_missing b.our_state secret k free in ground (arith, same, gone, ours)
      | inr (inl (reason, e)) ↦ absurd (ground arith)
      | inr (inr e) ↦ absurd (ground arith)
    ]
