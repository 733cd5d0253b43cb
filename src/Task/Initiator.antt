-- ===== src/Task/Initiator.antt =====
-- transfer/mediated_initiator.go: one attempt of a payment by the node that pays.
pub mod Secrets
pub mod Release
use pylons.Base.{
  ℕ, ◌+◌, ◌*◌, List, [], ◌∷◌, ◌++◌, Option, none, some, Bool, true, false, not, ◌&&◌, ◌||◌, ltb,
  leb, ◌==◌, if◌then◌else◌, add32,
}
use pylons.Base.Outcome.{Outcome, ok, err, panic, ◌>>=◌}
use pylons.Common.{Env, block_height}
use pylons.State.{NettingChannelState, LockedTransferUnsignedState}
use pylons.State.SyncMap.{load, store}
use pylons.Event
use pylons.Event.{
  Reason, Event, SendLockedTransfer, SendSecretReveal, SendBalanceProof, EventPaymentSentFailed,
  channel_id_global_queue, event_payment_sent_failed, event_payment_sent_success,
  event_unlock_success, send_balance_proof, send_locked_transfer, send_secret_reveal,
}
use pylons.StateChange.{RouteState}
use pylons.Merkle.{merkle_tree_width}
use pylons.Channel.Locks.{get_lock, is_lock_expired, lock_exists_in_either_channel_side}
use pylons.Channel.Balance.{get_distributable, is_valid_amount}
use pylons.Channel.Status.{get_status, is_opened}
use pylons.Channel.Validity.{maximum_pending_transfers}
use pylons.Channel.Send
use pylons.Channel.Send.{TransferArgs}
use pylons.Channel.Unlock.{send_unlock, events_for_expired_lock}
use pylons.Channel.Result.{processed}
use pylons.Task.{
  ChannelsMap, Iteration, deref, is_ok, TransferDescriptionWithSecretState, InitiatorTransferState,
  ReceiveSecretRequest, ReceiveSecretReveal, ContractReceiveSecretReveal,
}

abbrev pub InitiatorIteration : Type 0
InitiatorIteration = Iteration InitiatorTransferState NettingChannelState

-- `EventPaymentSentFailed` for a description
unfoldable pub payment_failed : TransferDescriptionWithSecretState → Reason → Event
payment_failed description reason = event_payment_sent_failed (record {
  payment_network_id = description.payment_network_id;
  token_network_id = description.token_network_id;
  identifier = description.payment_id;
  target = description.target;
  reason = reason;
})

-- The state and the channel as they were, and no events
abbrev pub unchanged_attempt : InitiatorTransferState → NettingChannelState → InitiatorIteration
unchanged_attempt state channel = record { new_state = some state; channels = channel; events = [] }

-- InitGetInitialLockExpiration
unfoldable pub init_get_initial_lock_expiration : ℕ → ℕ → ℕ
init_get_initial_lock_expiration block_number reveal_timeout = block_number + reveal_timeout * 2

-- Whether InitNextChannelFromRoutes stops at a channel; MaximumPendingTransfers is 160 as well.
unfoldable pub init_is_channel_usable : NettingChannelState → ℕ → Bool
init_is_channel_usable channel transfer_amount =
    is_opened (get_status channel)
    && (ltb (merkle_tree_width channel.our_state.merkle_tree) maximum_pending_transfers
        && (leb transfer_amount (get_distributable channel.our_state channel.partner_state)
            && is_valid_amount channel.our_state transfer_amount))

-- InitNextChannelFromRoutes: the key and the channel of the first route that can be used.
unfoldable pub init_next_channel_from_routes :
    List RouteState → ChannelsMap → ℕ → Option (ℕ × NettingChannelState)
unfolding init_is_channel_usable
init_next_channel_from_routes [] channels transfer_amount = none
init_next_channel_from_routes (route ∷ routes) channels transfer_amount =
    let rest = init_next_channel_from_routes routes channels transfer_amount in
    elim (load route.channel_id channels) [
      | none ↦ rest
      | some channel ↦
          if init_is_channel_usable channel transfer_amount
          then some (route.channel_id, channel)
          else rest
    ]

module _ (env : Env) where
  -- InitHandleBlock
  unfoldable pub init_handle_block :
      InitiatorTransferState → ℕ → NettingChannelState → ℕ → Outcome Reason InitiatorIteration
  unfolding payment_failed
  init_handle_block state height channel msg_id =
      let secret_hash = state.transfer.lock.secret_hash in
      elim (load secret_hash channel.our_state.secret_hashes_to_locked_locks) [
        | none ↦ elim (load secret_hash channel.partner_state.secret_hashes_to_locked_locks) [
          | some _ ↦ ok (unchanged_attempt state channel)
          | none ↦ ok (record { new_state = none; channels = channel; events = [] })
        ]
        | some locked_lock ↦
            let threshold =
              add32 locked_lock.expiration (block_height (env.confirm_block_count * 2)) in
            if is_ok (is_lock_expired channel.our_state locked_lock height threshold)
            then (do
              expired ← events_for_expired_lock env channel locked_lock msg_id
              let events =
                  expired.1
                  ++ payment_failed state.transfer_description Event.transfer_lock_has_expired ∷ []
              if lock_exists_in_either_channel_side expired.0 secret_hash
                  then ok (record { new_state = some state; channels = expired.0; events = events })
                  else ok (record { new_state = none; channels = expired.0; events = events }))
            else ok (unchanged_attempt state channel)
      ]

  -- The arguments that InitSendLockedTransfer hands to sendLockedTransfer.
  unfoldable pub init_transfer_args :
      TransferDescriptionWithSecretState → NettingChannelState → ℕ → ℕ → TransferArgs
  unfolding init_get_initial_lock_expiration
  init_transfer_args description channel message_id block_number = record {
    initiator = description.initiator;
    target = description.target;
    amount = description.amount;
    message_id = message_id;
    payment_id = description.payment_id;
    expiration = init_get_initial_lock_expiration block_number channel.reveal_timeout;
    enc_secret = description.enc_secret;
    secret_hash = description.secret_hash;
    mediators = [];
  }

  -- InitSendLockedTransfer
  unfoldable pub init_send_locked_transfer :
      TransferDescriptionWithSecretState
      → NettingChannelState
      → ℕ
      → ℕ
      → Outcome Reason (NettingChannelState × Option SendLockedTransfer)
  unfolding init_transfer_args
  init_send_locked_transfer description channel message_id block_number =
      Send.send_locked_transfer env channel
        (init_transfer_args description channel message_id block_number)

  -- The state of an attempt whose transfer is sent.
  unfoldable pub new_attempt :
      TransferDescriptionWithSecretState → ℕ → SendLockedTransfer → InitiatorTransferState
  new_attempt description channel_id sent = record {
    transfer_description = description;
    channel_id = channel_id;
    transfer = sent.transfer;
    reveal_secret = none;
    received_secret_request = false;
  }

  -- The branch of InitTryNewRoute without a channel
  unfoldable pub no_route :
      Option InitiatorTransferState
      → ChannelsMap
      → List RouteState
      → TransferDescriptionWithSecretState
      → Iteration InitiatorTransferState ChannelsMap
  unfolding payment_failed
  no_route old channels routes description = record {
    new_state = old;
    channels = channels;
    events =
        payment_failed description
          (elim routes [ [] ↦ Event.no_route_available | _ ∷ _ ↦ Event.no_route_could_be_used ])
        ∷ [];
  }

  -- InitTryNewRoute
  unfoldable pub init_try_new_route :
      Option InitiatorTransferState
      → ChannelsMap
      → List RouteState
      → TransferDescriptionWithSecretState
      → ℕ
      → Bool
      → ℕ
      → Outcome Reason (Iteration InitiatorTransferState ChannelsMap)
  unfolding init_send_locked_transfer new_attempt no_route
  init_try_new_route old channels routes description block_number init message_id =
      let candidate =
        if init then init_next_channel_from_routes routes channels description.amount else none in
      elim candidate [
        | none ↦ ok (no_route old channels routes description)
        | some (key, channel) ↦ do
          sent ← init_send_locked_transfer description channel message_id block_number
          let channels' = store key sent.0 channels
          elim sent.1 [
            | none ↦ ok (record { new_state = none; channels = channels'; events = [] })
            | some transfer ↦ ok (record {
              new_state = some (new_attempt description channel.identifier transfer);
              channels = channels';
              events = send_locked_transfer transfer ∷ [];
            })
          ]
      ]
