-- ===== src/Task/Manager/Transition.antt =====
-- transfer/mediated_initiator_manager.go: refunds, expired locks, secrets, and the transition
-- function of the task.
use pylons.Base.{ℕ, List, [], ◌∷◌, ◌++◌, Option, none, some, Bool, not, ◌&&◌, ◌==◌, if◌then◌else◌}
use pylons.Base.Outcome.{Outcome, ok, ◌>>=◌}
use pylons.Common.{Env}
use pylons.State.{LockedTransferSignedState, LockedTransferUnsignedState, HashTimeLockState}
use pylons.State.SyncMap.{load, store}
use pylons.Event
use pylons.Event.{
  Reason, Event, EventPaymentSentFailed, event_unlock_failed, event_unlock_claim_failed,
  event_payment_sent_failed,
}
use pylons.StateChange.{ReceiveLockExpired}
use pylons.Channel.Locks.{get_lock}
use pylons.Channel.Receive.{
  refund_transfer_matches_received, handle_receive_locked_transfer, handle_receive_lock_expired,
}
use pylons.Task.{
  ChannelsMap, Iteration, deref, TransferDescriptionWithSecretState, InitiatorPaymentState,
  ReceiveSecretReveal, ReceiveSecretRequest, ContractReceiveSecretReveal,
  ReceiveTransferRefundCancelRoute, TaskStateChange,
}
use pylons.Task.Initiator.Secrets.{
  handle_secret_request, init_handle_off_chain_secret_reveal, init_handle_on_chain_secret_reveal,
}
use pylons.Task.Manager.{
  payment, ManagerIteration, payment_state, im_iteration_from_sub, im_handle_block, im_handle_init,
  im_handle_cancel_route, im_handle_cancel_payment,
}

-- The tests of ImHandleTransferRefundCancelRoute
unfoldable pub is_refund_of : LockedTransferSignedState → LockedTransferUnsignedState → Bool
is_refund_of refund original =
    (refund.lock.secret_hash == original.lock.secret_hash
      && (refund.lock.amount == original.lock.amount
          && refund.lock.expiration == original.lock.expiration))
    && refund_transfer_matches_received refund original

-- The event of ImHandleLockExpired for a lock that it still finds
unfoldable pub claim_failed_of : LockedTransferUnsignedState → Option HashTimeLockState → List Event
claim_failed_of transfer none = []
claim_failed_of transfer (some _) =
    event_unlock_claim_failed transfer.payment_id transfer.lock.secret_hash Event.lock_expired ∷ []

module _ (env : Env) where
  -- The description of the attempt after a refund
  unfoldable pub description_after_refund :
      TransferDescriptionWithSecretState → List ℕ → TransferDescriptionWithSecretState
  description_after_refund old secret = record old {
    secret = secret;
    enc_secret = [];
    secret_hash = env.digest secret;
  }

  -- ImHandleTransferRefundCancelRoute
  unfoldable pub im_handle_transfer_refund_cancel_route :
      InitiatorPaymentState
      → ReceiveTransferRefundCancelRoute
      → ChannelsMap
      → ℕ
      → ℕ
      → Outcome Reason ManagerIteration
  unfolding is_refund_of description_after_refund im_handle_cancel_route
  im_handle_transfer_refund_cancel_route state refund channels block_number msg_id = do
    transfer ← deref state.initiator
    if not (is_refund_of refund.transfer transfer.transfer)
        then ok (payment_state channels state [])
        else do
          channel ← deref (load transfer.channel_id channels)
          received ← handle_receive_locked_transfer env channel refund.transfer
          let (channel', events, error) = received
          let channels' = store transfer.channel_id channel' channels
          elim error [
            | some _ ↦ ok (payment_state channels' state events)
            | none ↦ do
              let described = record transfer {
                transfer_description =
                    description_after_refund transfer.transfer_description refund.secret;
              }
              sub ←
                  im_handle_cancel_route env (record state { initiator = some described })
                    refund.routes channels' block_number msg_id
              ok (record {
                new_state = elim sub.new_state [ none ↦ none | some next ↦ some (payment next) ];
                channels = sub.channels;
                events = events ++ sub.events;
              })
          ]

  -- ImHandleLockExpired
  unfoldable pub im_handle_lock_expired :
      InitiatorPaymentState → ReceiveLockExpired → ChannelsMap → ℕ → Outcome Reason ManagerIteration
  unfolding claim_failed_of
  im_handle_lock_expired state message channels block_number = do
    sent ← deref state.initiator
    channel ← deref (load sent.channel_id channels)
    result ← handle_receive_lock_expired env channel message block_number
    channel' ← deref result.new_state
    let transfer = sent.transfer
    let found = get_lock channel'.partner_state transfer.lock.secret_hash
    ok (
        payment_state (store sent.channel_id channel' channels) state
          (result.events ++ claim_failed_of transfer found))

  -- ImHandleOffchainSecretReveal
  unfoldable pub im_handle_offchain_secret_reveal :
      InitiatorPaymentState
      → ReceiveSecretReveal
      → ChannelsMap
      → ℕ
      → Outcome Reason ManagerIteration
  unfolding im_iteration_from_sub
  im_handle_offchain_secret_reveal state reveal channels msg_id = do
    transfer ← deref state.initiator
    channel ← deref (load transfer.channel_id channels)
    sub ← init_handle_off_chain_secret_reveal env transfer reveal channel msg_id
    ok (im_iteration_from_sub state transfer.channel_id channels sub)

  -- ImHandleOnChainSecretReveal
  unfoldable pub im_handle_on_chain_secret_reveal :
      InitiatorPaymentState
      → ContractReceiveSecretReveal
      → ChannelsMap
      → ℕ
      → Outcome Reason ManagerIteration
  unfolding im_iteration_from_sub
  im_handle_on_chain_secret_reveal state reveal channels msg_id = do
    transfer ← deref state.initiator
    channel ← deref (load transfer.channel_id channels)
    sub ← init_handle_on_chain_secret_reveal env transfer reveal channel msg_id
    ok (im_iteration_from_sub state transfer.channel_id channels sub)

  -- The case of ImStateTransition for a secret request
  unfoldable pub im_handle_secret_request :
      InitiatorPaymentState
      → ReceiveSecretRequest
      → ChannelsMap
      → ℕ
      → Outcome Reason ManagerIteration
  unfolding im_iteration_from_sub
  im_handle_secret_request state request channels msg_id = do
    transfer ← deref state.initiator
    channel ← deref (load transfer.channel_id channels)
    sub ← handle_secret_request env transfer request channel msg_id
    ok (im_iteration_from_sub state transfer.channel_id channels sub)

  -- The case of ImStateTransition for ActionCancelPayment
  unfoldable pub im_cancel_payment :
      InitiatorPaymentState → ChannelsMap → Outcome Reason ManagerIteration
  unfolding im_handle_cancel_payment
  im_cancel_payment state channels = do
    transfer ← deref state.initiator
    im_handle_cancel_payment env state channels (load transfer.channel_id channels)

  abbrev with_payment :
      Option InitiatorPaymentState
      → (InitiatorPaymentState → Outcome Reason ManagerIteration)
      → Outcome Reason (Option ManagerIteration)
  with_payment state handler = do
    found ← deref state
    iteration ← handler found
    ok (some iteration)

  abbrev as_payment : Iteration InitiatorPaymentState ChannelsMap → ManagerIteration
  as_payment sub = record {
    new_state = elim sub.new_state [ none ↦ none | some next ↦ some (payment next) ];
    channels = sub.channels;
    events = sub.events;
  }

  -- ImStateTransition; `none` is the nil iteration, and a nil payment panics in the handlers.
  unfoldable pub im_state_transition :
      Option InitiatorPaymentState
      → TaskStateChange
      → ChannelsMap
      → ℕ
      → ℕ
      → Outcome Reason (Option ManagerIteration)
  unfolding im_handle_block im_handle_init im_handle_cancel_route im_cancel_payment
      im_handle_transfer_refund_cancel_route im_handle_lock_expired im_handle_offchain_secret_reveal
      im_handle_on_chain_secret_reveal im_handle_secret_request
  im_state_transition state (TaskStateChange.block height) channels _ msg_id =
      with_payment state (λ p. im_handle_block env p height channels msg_id)
  im_state_transition state (TaskStateChange.action_init_initiator init) channels block_number
        msg_id =
      do iteration ← im_handle_init env state init channels block_number msg_id; ok (some iteration)
  im_state_transition state (TaskStateChange.receive_secret_request request) channels _ msg_id =
      with_payment state (λ p. im_handle_secret_request p request channels msg_id)
  im_state_transition state (TaskStateChange.action_cancel_route routes) channels block_number
        msg_id =
      with_payment state (λ p.
        im_handle_cancel_route env p routes channels block_number msg_id >>= λ sub.
        ok (as_payment sub))
  im_state_transition state (TaskStateChange.receive_transfer_refund_cancel_route refund) channels
        block_number msg_id =
      with_payment state
        (λ p. im_handle_transfer_refund_cancel_route p refund channels block_number msg_id)
  im_state_transition state TaskStateChange.action_cancel_payment channels _ _ =
      with_payment state (λ p. im_cancel_payment p channels)
  im_state_transition state (TaskStateChange.receive_secret_reveal reveal) channels _ msg_id =
      with_payment state (λ p. im_handle_offchain_secret_reveal p reveal channels msg_id)
  im_state_transition state (TaskStateChange.receive_lock_expired message) channels block_number _ =
      with_payment state (λ p. im_handle_lock_expired p message channels block_number)
  im_state_transition state (TaskStateChange.contract_receive_secret_reveal reveal) channels _
        msg_id =
      with_payment state (λ p. im_handle_on_chain_secret_reveal p reveal channels msg_id)
  im_state_transition _ _ _ _ _ = ok none
