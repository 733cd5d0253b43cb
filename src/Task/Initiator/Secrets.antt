-- ===== src/Task/Initiator/Secrets.antt =====
-- transfer/mediated_initiator.go: the initiator and the secret: the target's request for it, and the
-- reveals that let the initiator unlock.
use pylons.Base.{
  ℕ, List, [], ◌∷◌, ◌++◌, none, some, Bool, true, false, not, ◌&&◌, ltb, ◌==◌, if◌then◌else◌,
}
use pylons.Base.Outcome.{Outcome, ok, ◌>>=◌}
use pylons.Common.{Env}
use pylons.State.{NettingChannelState}
use pylons.Event
use pylons.Event.{
  Reason, Event, SendLockedTransfer, SendSecretReveal, SendBalanceProof, EventPaymentSentFailed,
  channel_id_global_queue, event_payment_sent_failed, event_payment_sent_success,
  event_unlock_success, send_balance_proof, send_locked_transfer, send_secret_reveal,
}
use pylons.Channel.Locks.{get_lock}
use pylons.Channel.Status.{get_status, is_opened}
use pylons.Channel.Unlock.{send_unlock}
use pylons.Channel.Result.{processed}
use pylons.Task.{
  deref, TransferDescriptionWithSecretState, InitiatorTransferState, ReceiveSecretRequest,
  ReceiveSecretReveal, ContractReceiveSecretReveal,
}
use pylons.Task.Initiator.{InitiatorIteration, unchanged_attempt}

-- InitHandleOffChainSecretReveal's test
unfoldable pub is_reveal_for :
    Env → InitiatorTransferState → ReceiveSecretReveal → NettingChannelState → Bool
is_reveal_for env state reveal channel =
    env.digest reveal.secret == state.transfer_description.secret_hash
    && (is_opened (get_status channel) && reveal.sender == channel.partner_state.address)

-- HandleSecretRequest's test of the sender
unfoldable pub is_message_from_target :
    TransferDescriptionWithSecretState → ReceiveSecretRequest → Bool
is_message_from_target description request =
    request.sender == description.target
    && (request.secret_hash == description.secret_hash
        && request.payment_id == description.payment_id)

-- HandleSecretRequest's test of the request; the lock is read for a matching amount only.
unfoldable pub is_valid_secret_request :
    TransferDescriptionWithSecretState
    → ReceiveSecretRequest
    → NettingChannelState
    → Outcome Reason Bool
is_valid_secret_request description request channel =
    let found = get_lock channel.our_state description.secret_hash in
    if request.amount == description.amount
    then (do lock ← deref found; ok (request.expiration == lock.expiration))
    else ok false

module _ (env : Env) where
  -- InitEventsForUnlockLock
  unfoldable pub init_events_for_unlock_lock :
      InitiatorTransferState
      → NettingChannelState
      → List ℕ
      → ℕ
      → ℕ
      → Outcome Reason (NettingChannelState × List Event)
  init_events_for_unlock_lock state channel secret secret_hash msg_id = do
    let description = state.transfer_description
    unlocked ← send_unlock env channel msg_id description.payment_id secret secret_hash
    ok (
      unlocked.0,
      send_balance_proof unlocked.1
          ∷ event_payment_sent_success (record {
            payment_network_id = channel.payment_network_id;
            token_network_id = channel.token_network_id;
            identifier = description.payment_id;
            amount = description.amount;
            target = description.target;
          })
          ∷ event_unlock_success description.payment_id description.secret_hash
          ∷ [],
    )

  -- The secret reveal that HandleSecretRequest sends.
  unfoldable pub reveal_to_target : TransferDescriptionWithSecretState → ℕ → SendSecretReveal
  reveal_to_target description msg_id = record {
    message = record {
      recipient = description.target;
      channel_id = channel_id_global_queue;
      message_id = msg_id;
    };
    secret = description.secret;
    secret_hash = env.digest description.secret;
  }

  -- HandleSecretRequest
  unfoldable pub handle_secret_request :
      InitiatorTransferState
      → ReceiveSecretRequest
      → NettingChannelState
      → ℕ
      → Outcome Reason InitiatorIteration
  unfolding is_message_from_target is_valid_secret_request reveal_to_target
  handle_secret_request state request channel msg_id = do
    let description = state.transfer_description
    let from_target = is_message_from_target description request
    valid ← is_valid_secret_request description request channel
    let reveal = reveal_to_target description msg_id
    let unchanged = unchanged_attempt state channel
    if state.received_secret_request && from_target
        then ok unchanged
        else if valid && from_target
        then ok (record {
          new_state =
              some (record state { reveal_secret = some reveal; received_secret_request = true });
          channels = channel;
          events = send_secret_reveal reveal ∷ processed request.sender request.message_id ∷ [];
        })
        else if not valid && from_target
        then ok (record {
          new_state = some (record state { received_secret_request = true });
          channels = channel;
          events =
              event_payment_sent_failed (record {
                payment_network_id = channel.payment_network_id;
                token_network_id = channel.token_network_id;
                identifier = description.payment_id;
                target = description.target;
                reason = Event.bad_secret_request_message_from_target;
              })
              ∷ [];
        })
        else ok unchanged

  -- InitHandleOffChainSecretReveal
  unfoldable pub init_handle_off_chain_secret_reveal :
      InitiatorTransferState
      → ReceiveSecretReveal
      → NettingChannelState
      → ℕ
      → Outcome Reason InitiatorIteration
  unfolding init_events_for_unlock_lock is_reveal_for
  init_handle_off_chain_secret_reveal state reveal channel msg_id =
      if is_reveal_for env state reveal channel
      then (do
        unlocked ←
            init_events_for_unlock_lock state channel reveal.secret (env.digest reveal.secret)
              msg_id
        ok (record {
          new_state = none;
          channels = unlocked.0;
          events = unlocked.1 ++ processed reveal.sender reveal.message_id ∷ [];
        }))
      else ok (unchanged_attempt state channel)

  -- InitHandleOnChainSecretReveal
  unfoldable pub init_handle_on_chain_secret_reveal :
      InitiatorTransferState
      → ContractReceiveSecretReveal
      → NettingChannelState
      → ℕ
      → Outcome Reason InitiatorIteration
  unfolding init_events_for_unlock_lock
  init_handle_on_chain_secret_reveal state reveal channel msg_id =
      if reveal.secret_hash == state.transfer.lock.secret_hash
        && (is_opened (get_status channel)
            && not (ltb state.transfer.lock.expiration reveal.block_height))
      then (do
        unlocked ← init_events_for_unlock_lock state channel reveal.secret reveal.secret_hash msg_id
        ok (record { new_state = none; channels = unlocked.0; events = unlocked.1 }))
      else ok (unchanged_attempt state channel)
