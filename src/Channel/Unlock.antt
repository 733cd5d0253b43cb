-- ===== src/Channel/Unlock.antt =====
-- Unlocking and expiring locks that the channel has sent (transfer/channel.go), and the state that
-- it keeps of the messages. A nil that the caller goes on to dereference is a panic.
use pylons.Base.{ℕ, List, [], ◌∷◌, Option, none, some, add64, sub64}
use pylons.Base.Outcome.{Outcome, ok, err, panic, ◌>>=◌, ◌>>◌, check}
use pylons.Common.{Env}
use pylons.State.{NettingChannelState, HashTimeLockState, MerkleTreeState}
use pylons.Event
use pylons.Event.{Reason, Event, SendBalanceProof, SendLockExpired, send_lock_expired}
use pylons.Merkle.{merkle_root, compute_merkle_tree_without}
use pylons.Channel.Locks.{get_lock, is_lock_pending, del_lock, del_unclaimed_lock}
use pylons.Channel.Balance.{get_amount_locked}
use pylons.Channel.Packing.{calc_lock_hash}
use pylons.Channel.Send.{fake_signed, message_to_partner, next_balance_proof}

module _ (env : Env) where
  -- CreateUnlock; `lock.LockHash` is computed anew in the lock itself, which the caller deletes.
  unfoldable pub create_unlock :
      NettingChannelState
      → ℕ
      → ℕ
      → List ℕ
      → HashTimeLockState
      → Outcome Reason (SendBalanceProof × MerkleTreeState)
  unfolding next_balance_proof message_to_partner
  create_unlock channel message_id payment_id secret lock = do
    let our_state = channel.our_state
    check (is_lock_pending our_state lock.secret_hash) Event.caller_must_make_sure_the_lock_is_known
    merkle_tree ← compute_merkle_tree_without env our_state.merkle_tree (calc_lock_hash env lock)
    ok (
      record {
        message = message_to_partner channel message_id;
        payment_id = payment_id;
        token_address = channel.token_address;
        secret = secret;
        secret_hash = 0;
        balance_proof =
            next_balance_proof env channel
              (elim our_state.balance_proof [
                | none ↦ lock.amount
                | some bp ↦ add64 lock.amount bp.transferred_amount
              ])
              (sub64 (get_amount_locked our_state) lock.amount) (merkle_root merkle_tree.layers);
      },
      merkle_tree,
    )

  -- SendUnlock; it ignores the error of CreateUnlock and dereferences its nil.
  unfoldable pub send_unlock :
      NettingChannelState
      → ℕ
      → ℕ
      → List ℕ
      → ℕ
      → Outcome Reason (NettingChannelState × Option SendBalanceProof)
  unfolding create_unlock fake_signed
  send_unlock channel message_id payment_id secret secret_hash =
      let our_state = channel.our_state in
      elim (get_lock our_state secret_hash) [
        | none ↦ ok (channel, none)
        | some lock ↦ elim (create_unlock channel message_id payment_id secret lock) [
          | ok (unlock, merkle_tree) ↦ ok (
            record channel {
              our_state =
                  del_lock
                    (record our_state {
                      balance_proof = some (fake_signed unlock.balance_proof);
                      merkle_tree = merkle_tree;
                    })
                    lock.secret_hash;
            },
            some unlock,
          )
          | err e ↦ panic
          | panic ↦ panic
        ]
      ]

  -- createSendExpiredLock; `none` is the nil for a missing balance proof. Its update of the old
  -- balance proof's hash is not kept, since the caller replaces that balance proof.
  unfoldable pub create_send_expired_lock :
      NettingChannelState
      → HashTimeLockState
      → ℕ
      → Outcome Reason (Option (SendLockExpired × MerkleTreeState))
  unfolding next_balance_proof message_to_partner
  create_send_expired_lock channel locked_lock msg_id =
      let our_state = channel.our_state in
      elim our_state.balance_proof [
        | none ↦ ok none
        | some bp ↦ do
          merkle_tree ← compute_merkle_tree_without env our_state.merkle_tree locked_lock.lock_hash
          ok (
              some (
                record {
                  message = message_to_partner channel msg_id;
                  balance_proof =
                      next_balance_proof env channel bp.transferred_amount
                        (sub64 (get_amount_locked our_state) locked_lock.amount)
                        (merkle_root merkle_tree.layers);
                  secret_hash = locked_lock.secret_hash;
                },
                merkle_tree,
              ))
      ]

  -- EventsForExpiredLock
  unfoldable pub events_for_expired_lock :
      NettingChannelState
      → HashTimeLockState
      → ℕ
      → Outcome Reason (NettingChannelState × List Event)
  unfolding create_send_expired_lock fake_signed
  events_for_expired_lock channel locked_lock msg_id = do
    let our_state = channel.our_state
    created ← create_send_expired_lock channel locked_lock msg_id
    elim created [
      | none ↦ ok (channel, [])
      | some (message, merkle_tree) ↦ ok (
        record channel {
          our_state =
              del_unclaimed_lock
                (record our_state {
                  merkle_tree = merkle_tree;
                  balance_proof = some (fake_signed message.balance_proof);
                })
                locked_lock.secret_hash;
        },
        send_lock_expired message ∷ [],
      )
    ]
