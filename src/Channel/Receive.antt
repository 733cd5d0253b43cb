-- ===== src/Channel/Receive.antt =====
-- The handlers of the partner's messages about locks (transfer/channel.go). A lock that a message
-- names is hashed anew in place, so a refused message may leave the lock's hash recomputed.
use pylons.Base.{ℕ, List, [], ◌∷◌, Option, none, some, Bool, false, ◌&&◌, ◌==◌, if◌then◌else◌}
use pylons.Base.Outcome.{Outcome, ok, err, panic, ◌>>=◌, ◌>>◌, check}
use pylons.Common.{Env, get_hash}
use pylons.State.{
  NettingChannelEndState, NettingChannelState, HashTimeLockState, UnlockPartialProofState,
  MerkleTreeState, LockedTransferSignedState, LockedTransferUnsignedState,
}
use pylons.State.SyncMap.{LockMap, load, store}
use pylons.Event
use pylons.Event.{Reason, Event, channel_id_global_queue, send_processed}
use pylons.StateChange.{ReceiveLockExpired, ReceiveUnlock, ReceiveTransferRefund}
use pylons.Channel.Locks.{del_lock, del_unclaimed_lock}
use pylons.Channel.Packing.{with_lock_hash}
use pylons.Channel.Validity.{valid_locked_transfer_check, is_valid_lock_expired, is_valid_unlock}
use pylons.Channel.Result.{TransitionResult, transition, processed}

-- RefundTransferMatchesReceived
unfoldable pub refund_transfer_matches_received :
    LockedTransferSignedState → LockedTransferUnsignedState → Bool
refund_transfer_matches_received refund received =
    if refund.balance_proof.sender == received.target
    then false
    else (received.payment_id == refund.payment_id
        && (received.lock.amount == refund.lock.amount
            && (received.lock.secret_hash == refund.lock.secret_hash
                && (received.target == refund.target
                    && (received.lock.expiration == refund.lock.expiration
                        && received.token == refund.token)))))

module _ (env : Env) where
  -- `lock.LockHash = lock.CalcLockHash()` in the map that holds the lock.
  unfoldable pub rehash_locked : ℕ → LockMap HashTimeLockState → LockMap HashTimeLockState
  unfolding with_lock_hash
  rehash_locked secret_hash [] = []
  rehash_locked secret_hash ((k, lock) ∷ m) =
      if k == secret_hash
      then (k, with_lock_hash env lock) ∷ m
      else (k, lock) ∷ rehash_locked secret_hash m

  unfoldable pub rehash_proof :
      ℕ → LockMap UnlockPartialProofState → LockMap UnlockPartialProofState
  unfolding with_lock_hash
  rehash_proof secret_hash [] = []
  rehash_proof secret_hash ((k, proof) ∷ m) =
      if k == secret_hash
      then (k, record proof { lock = with_lock_hash env proof.lock }) ∷ m
      else (k, proof) ∷ rehash_proof secret_hash m

  -- The same for the lock that GetLock finds.
  unfoldable pub rehash_lock : NettingChannelEndState → ℕ → NettingChannelEndState
  unfolding rehash_locked rehash_proof
  rehash_lock e secret_hash = elim (load secret_hash e.secret_hashes_to_locked_locks) [
    | some _ ↦ record e {
      secret_hashes_to_locked_locks = rehash_locked secret_hash e.secret_hashes_to_locked_locks;
    }
    | none ↦ elim (load secret_hash e.secret_hashes_to_unlocked_locks) [
      | some _ ↦ record e {
        secret_hashes_to_unlocked_locks =
            rehash_proof secret_hash e.secret_hashes_to_unlocked_locks;
      }
      | none ↦ record e {
        secret_hashes_to_on_chain_unlocked_locks =
            rehash_proof secret_hash e.secret_hashes_to_on_chain_unlocked_locks;
      }
    ]
  ]

  -- The state that a valid locked or refund transfer leaves.
  unfoldable pub accept_locked_transfer :
      NettingChannelState → LockedTransferSignedState → MerkleTreeState → NettingChannelState
  unfolding with_lock_hash
  accept_locked_transfer channel transfer merkle_tree =
      let partner_state = channel.partner_state in
      let lock = with_lock_hash env transfer.lock in
      record channel {
        partner_state = record partner_state {
          balance_proof = some transfer.balance_proof;
          merkle_tree = merkle_tree;
          secret_hashes_to_locked_locks =
              store lock.secret_hash lock partner_state.secret_hashes_to_locked_locks;
        };
      }

  -- HandleReceiveLockedTransfer: the new channel, the events and the error.
  unfoldable pub handle_receive_locked_transfer :
      NettingChannelState
      → LockedTransferSignedState
      → Outcome Reason (NettingChannelState × List Event × Option Reason)
  unfolding accept_locked_transfer processed
  handle_receive_locked_transfer channel transfer =
      elim (valid_locked_transfer_check env channel channel.partner_state channel.our_state
        transfer.balance_proof transfer.lock) [
          | ok merkle_tree ↦ ok (
            accept_locked_transfer channel transfer merkle_tree,
            processed transfer.balance_proof.sender transfer.message_id ∷ [],
            none,
          )
          | err reason ↦ ok (
            channel,
            Event.event_invalid_received_locked_transfer transfer.payment_id reason ∷ [],
            some reason,
          )
          | panic ↦ panic
        ]

  -- IsValidRefund
  unfoldable pub is_valid_refund :
      ReceiveTransferRefund
      → NettingChannelState
      → LockedTransferUnsignedState
      → Outcome Reason MerkleTreeState
  unfolding refund_transfer_matches_received
  is_valid_refund refund channel received = do
    merkle_tree ←
        valid_locked_transfer_check env channel channel.partner_state channel.our_state
          refund.transfer.balance_proof refund.transfer.lock
    check (refund_transfer_matches_received refund.transfer received)
        Event.refund_did_not_match_received_transfer
    ok merkle_tree

  -- handleRefundTransfer
  unfoldable pub handle_refund_transfer :
      LockedTransferUnsignedState
      → NettingChannelState
      → ReceiveTransferRefund
      → Outcome Reason (NettingChannelState × List Event × Option Reason)
  unfolding is_valid_refund accept_locked_transfer processed
  handle_refund_transfer received channel refund = elim (is_valid_refund refund channel received) [
    | ok merkle_tree ↦ ok (
      accept_locked_transfer channel refund.transfer merkle_tree,
      processed refund.transfer.balance_proof.sender refund.transfer.message_id ∷ [],
      none,
    )
    | err reason ↦ ok (
      channel,
      Event.event_invalid_received_transfer_refund received.payment_id reason ∷ [],
      some reason,
    )
    | panic ↦ panic
  ]

  -- handleReceiveLockExpired
  unfoldable pub handle_receive_lock_expired :
      NettingChannelState → ReceiveLockExpired → ℕ → Outcome Reason TransitionResult
  unfolding rehash_locked processed
  handle_receive_lock_expired channel message block_number =
      let partner_state = channel.partner_state in
      let secret_hash = message.secret_hash in
      elim (is_valid_lock_expired env message channel partner_state channel.our_state
        block_number) [
          | ok merkle_tree ↦ ok (
              transition
                (record channel {
                  partner_state =
                      del_unclaimed_lock
                        (record partner_state {
                          balance_proof = some message.balance_proof;
                          merkle_tree = merkle_tree;
                        })
                        secret_hash;
                })
                (processed message.balance_proof.sender message.message_id ∷ []))
          | err reason ↦ ok (
              transition
                (record channel {
                  partner_state = record partner_state {
                    secret_hashes_to_locked_locks =
                        rehash_locked secret_hash partner_state.secret_hashes_to_locked_locks;
                  };
                })
                (Event.event_invalid_received_lock_expired secret_hash reason ∷ []))
          | panic ↦ panic
        ]

  -- HandleUnlock: the new channel, the events and the error, which is nil for a valid unlock.
  unfoldable pub handle_unlock :
      NettingChannelState
      → ReceiveUnlock
      → Outcome Reason (NettingChannelState × List Event × Option Reason)
  unfolding rehash_lock processed get_hash
  handle_unlock channel unlock =
      let partner_state = channel.partner_state in
      let secret_hash = get_hash env unlock.secret in
      elim (is_valid_unlock env unlock secret_hash channel partner_state) [
        | ok merkle_tree ↦ ok (
          record channel {
            partner_state =
                del_lock
                  (record partner_state {
                    balance_proof = some unlock.balance_proof;
                    merkle_tree = merkle_tree;
                  })
                  secret_hash;
          },
          processed unlock.balance_proof.sender unlock.message_id ∷ [],
          none,
        )
        | err reason ↦ ok (
          record channel { partner_state = rehash_lock partner_state secret_hash },
          Event.event_invalid_received_unlock secret_hash reason ∷ [],
          some reason,
        )
        | panic ↦ panic
      ]
