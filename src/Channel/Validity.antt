-- ===== src/Channel/Validity.antt =====
-- Which messages a channel accepts (transfer/channel.go). A check that fails ends the function
-- with its error, in the order of the source; the Merkle tree is computed before the checks.
use pylons.Base.{ℕ, none, some, Bool, not, leb, ◌==◌, add64, sub64, add32, sub32, max_uint64}
use pylons.Base.Outcome.{Outcome, ok, err, ◌>>=◌, ◌>>◌, check}
use pylons.Common.{Env, block_height, address_equal}
use pylons.State.{
  NettingChannelEndState, NettingChannelState, HashTimeLockState, BalanceProofSignedState,
  MerkleTreeState,
}
use pylons.State.SyncMap.{load}
use pylons.Event
use pylons.Event.{Reason}
use pylons.StateChange.{ReceiveLockExpired, ReceiveUnlock}
use pylons.Merkle.{
  merkle_root, merkle_tree_width, compute_merkle_tree_with, compute_merkle_tree_without,
}
use pylons.Channel.Locks.{get_lock, is_lock_expired, is_secret_known_on_chain}
use pylons.Channel.Balance.{get_distributable, get_next_nonce, get_current_balance_proof}
use pylons.Channel.Status.{get_status, is_opened}
use pylons.Channel.Packing.{is_valid_balance_proof_signature, compare_locksroot, calc_lock_hash}

-- MAXIMUM_PENDING_TRANSFERS
abbrev pub maximum_pending_transfers : ℕ
maximum_pending_transfers = 160

-- IsBalanceProofSafeForOnchainOperations
unfoldable pub is_balance_proof_safe_for_onchain_operations : BalanceProofSignedState → Bool
is_balance_proof_safe_for_onchain_operations bp =
    leb (add64 bp.transferred_amount bp.locked_amount) max_uint64

module _ (env : Env) where
  -- IsBalanceProofUsableOnChain
  unfoldable pub is_balance_proof_usable_on_chain :
      BalanceProofSignedState
      → NettingChannelState
      → NettingChannelEndState
      → Outcome Reason (Unit {0})
  unfolding is_balance_proof_safe_for_onchain_operations address_equal
  is_balance_proof_usable_on_chain bp channel sender = do
    is_valid_balance_proof_signature env bp sender.address
    check (is_opened (get_status channel)) Event.channel_already_closed
    check (bp.channel_id == channel.identifier) Event.channel_identifier_does_not_match
    check (address_equal bp.token_network_id channel.token_network_id)
        Event.token_network_identifier_does_not_match
    check (bp.chain_id == channel.chain_id) Event.chain_id_does_not_match
    check (is_balance_proof_safe_for_onchain_operations bp)
        Event.total_transferred_amount_would_overflow
    check (bp.nonce == get_next_nonce sender) Event.nonce_did_not_change_sequentially
    ok tt

  -- IsValidDirectTransfer
  unfoldable pub is_valid_direct_transfer :
      BalanceProofSignedState
      → NettingChannelState
      → NettingChannelEndState
      → NettingChannelEndState
      → Outcome Reason (Unit {0})
  unfolding compare_locksroot
  is_valid_direct_transfer bp channel sender receiver = do
    let current = get_current_balance_proof sender
    is_balance_proof_usable_on_chain bp channel sender
    check (compare_locksroot bp.locks_root current.locks_root) Event.locks_root_changed
    check (not (leb bp.transferred_amount current.transferred_amount))
        Event.transferred_amount_decreased
    check (bp.locked_amount == current.locked_amount) Event.wrong_locked_amount
    check
        (leb (sub64 bp.transferred_amount current.transferred_amount)
          (get_distributable sender receiver))
        Event.amount_larger_than_distributable
    ok tt

  -- The checks of ValidLockedTransferCheck on a new tree.
  unfoldable pub check_locked_transfer :
      NettingChannelEndState
      → NettingChannelEndState
      → BalanceProofSignedState
      → HashTimeLockState
      → MerkleTreeState
      → Outcome Reason MerkleTreeState
  check_locked_transfer sender receiver bp lock merkle_tree = do
    let current = get_current_balance_proof sender
    check (leb (merkle_tree_width merkle_tree) maximum_pending_transfers)
        Event.too_many_pending_transfers
    check (bp.locks_root == merkle_root merkle_tree.layers) Event.locksroot_did_not_match
    check (bp.transferred_amount == current.transferred_amount) Event.transferred_amount_changed
    check (bp.locked_amount == add64 current.locked_amount lock.amount) Event.wrong_locked_amount
    check (leb lock.amount (get_distributable sender receiver))
        Event.lock_amount_larger_than_distributable
    check (not (lock.secret_hash == 0)) Event.secrethash_of_empty_hash
    ok merkle_tree

  -- ValidLockedTransferCheck, and so IsValidLockedTransfer
  unfoldable pub valid_locked_transfer_check :
      NettingChannelState
      → NettingChannelEndState
      → NettingChannelEndState
      → BalanceProofSignedState
      → HashTimeLockState
      → Outcome Reason MerkleTreeState
  unfolding check_locked_transfer calc_lock_hash
  valid_locked_transfer_check channel sender receiver bp lock = do
    tree ← compute_merkle_tree_with env sender.merkle_tree (calc_lock_hash env lock)
    is_balance_proof_usable_on_chain bp channel sender
    elim tree [
      | none ↦ err Event.same_lockhash_handled_twice
      | some merkle_tree ↦ check_locked_transfer sender receiver bp lock merkle_tree
    ]

  -- IsValidLockExpired. Its first test looks at the locked locks alone, so that the search among
  -- the unlocked ones that follows it in the source is never made.
  unfoldable pub is_valid_lock_expired :
      ReceiveLockExpired
      → NettingChannelState
      → NettingChannelEndState
      → NettingChannelEndState
      → ℕ
      → Outcome Reason MerkleTreeState
  unfolding is_lock_expired is_secret_known_on_chain calc_lock_hash
  is_valid_lock_expired message channel sender receiver block_number =
      let bp = message.balance_proof in
      let current = get_current_balance_proof sender in
      elim (load message.secret_hash channel.partner_state.secret_hashes_to_locked_locks) [
        | none ↦ err Event.secret_hash_not_found_in_locked_locks
        | some lock ↦ do
          merkle_tree ← compute_merkle_tree_without env sender.merkle_tree (calc_lock_hash env lock)
          check (not (is_secret_known_on_chain channel.our_state message.secret_hash))
              Event.lock_was_unlocked_on_chain
          is_balance_proof_usable_on_chain bp channel sender
          is_lock_expired receiver lock block_number (
              add32 lock.expiration
                (sub32 (block_height env.confirm_block_count) (block_height env.max_block_delay)))
          check (bp.locks_root == merkle_root merkle_tree.layers) Event.locksroot_did_not_match
          check (bp.transferred_amount == current.transferred_amount)
              Event.transferred_amount_changed
          check (bp.locked_amount == sub64 current.locked_amount lock.amount)
              Event.wrong_locked_amount
          ok merkle_tree
      ]

  -- IsValidUnlock; `secret_hash` is the hash of the message's secret.
  unfoldable pub is_valid_unlock :
      ReceiveUnlock
      → ℕ
      → NettingChannelState
      → NettingChannelEndState
      → Outcome Reason MerkleTreeState
  unfolding calc_lock_hash
  is_valid_unlock unlock secret_hash channel sender =
      let bp = unlock.balance_proof in
      let current = get_current_balance_proof sender in
      elim (get_lock sender secret_hash) [
        | none ↦ err Event.no_corresponding_lock
        | some lock ↦ do
          merkle_tree ← compute_merkle_tree_without env sender.merkle_tree (calc_lock_hash env lock)
          is_balance_proof_usable_on_chain bp channel sender
          check (bp.locks_root == merkle_root merkle_tree.layers) Event.locksroot_did_not_match
          check (bp.transferred_amount == add64 current.transferred_amount lock.amount)
              Event.wrong_transferred_amount
          check (bp.locked_amount == sub64 current.locked_amount lock.amount)
              Event.wrong_locked_amount
          ok merkle_tree
      ]
