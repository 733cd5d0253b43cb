-- ===== src/Task/Manager.antt =====
-- transfer/mediated_initiator_manager.go: the task of the node that pays, over its attempts.
-- Transition holds the handlers of messages and the transition function, Refund a theorem.
pub mod Transition
pub mod Refund
use pylons.Base.{
  ℕ, List, [], ◌∷◌, ◌++◌, Option, none, some, Bool, true, false, not, ◌&&◌, ◌==◌, if◌then◌else◌,
  is_some,
}
use pylons.Base.Outcome.{Outcome, ok, err, panic, ◌>>=◌}
use pylons.Common.{Env}
use pylons.State.{NettingChannelState, LockedTransferSignedState, LockedTransferUnsignedState}
use pylons.State.SyncMap.{load, store}
use pylons.Event
use pylons.Event.{
  Reason, Event, EventPaymentSentFailed, event_unlock_failed, event_unlock_claim_failed,
  event_payment_sent_failed,
}
use pylons.StateChange.{RouteState, ReceiveLockExpired}
use pylons.Channel.Locks.{get_lock}
use pylons.Channel.Receive.{
  refund_transfer_matches_received, handle_receive_locked_transfer, handle_receive_lock_expired,
}
use pylons.Task
use pylons.Task.{
  ChannelsMap, Iteration, deref, TransferDescriptionWithSecretState, InitiatorTransferState,
  InitiatorPaymentState, ActionInitInitiator, ReceiveSecretReveal, ReceiveSecretRequest,
  ContractReceiveSecretReveal, ReceiveTransferRefundCancelRoute, TaskStateChange,
}
use pylons.Task.Initiator.{InitiatorIteration, init_try_new_route, init_handle_block}
use pylons.Task.Initiator.Secrets.{
  handle_secret_request, init_handle_off_chain_secret_reveal, init_handle_on_chain_secret_reveal,
}

-- What the manager returns as its new state: ImHandleInit gives the state of the attempt.
pub data ManagerState : Type 0 where
  payment : InitiatorPaymentState → ManagerState
  attempt : InitiatorTransferState → ManagerState

abbrev pub ManagerIteration : Type 0
ManagerIteration = Iteration ManagerState ChannelsMap

-- ImIterationFromSub, with the channel stored under its identifier in the map
unfoldable pub im_iteration_from_sub :
    InitiatorPaymentState → ℕ → ChannelsMap → InitiatorIteration → ManagerIteration
im_iteration_from_sub state key channels sub = record {
  new_state = elim sub.new_state [
    | none ↦ none
    | some transfer ↦ some (payment (record state { initiator = some transfer }))
  ];
  channels = store key sub.channels channels;
  events = sub.events;
}

-- ImCanCancel
unfoldable pub im_can_cancel : InitiatorPaymentState → Bool
im_can_cancel state = elim state.initiator [
  | none ↦ true
  | some transfer ↦ not (is_some transfer.reveal_secret)
]

-- ImEventsForCancelCurrentRoute
unfoldable pub im_events_for_cancel_current_route : TransferDescriptionWithSecretState → List Event
im_events_for_cancel_current_route description =
    event_unlock_failed description.payment_id description.secret_hash Event.route_was_canceled ∷ []

-- ImCancelCurrentRoute
unfoldable pub im_cancel_current_route :
    InitiatorPaymentState → Outcome Reason (InitiatorPaymentState × List Event)
unfolding im_can_cancel im_events_for_cancel_current_route
im_cancel_current_route state = if not (im_can_cancel state) then ok (state, []) else do
  transfer ← deref state.initiator
  ok (
    record {
      initiator = none;
      cancelled_channels = state.cancelled_channels ++ transfer.channel_id ∷ [];
    },
    im_events_for_cancel_current_route transfer.transfer_description,
  )

abbrev pub payment_state : ChannelsMap → InitiatorPaymentState → List Event → ManagerIteration
payment_state channels state events = record {
  new_state = some (payment state);
  channels = channels;
  events = events;
}

module _ (env : Env) where
  -- ImHandleBlock
  unfoldable pub im_handle_block :
      InitiatorPaymentState → ℕ → ChannelsMap → ℕ → Outcome Reason ManagerIteration
  unfolding im_iteration_from_sub
  im_handle_block state height channels msg_id = do
    transfer ← deref state.initiator
    elim (load transfer.channel_id channels) [
      | none ↦ ok (payment_state channels state [])
      | some channel ↦ do
        sub ← init_handle_block env transfer height channel msg_id
        ok (im_iteration_from_sub state transfer.channel_id channels sub)
    ]

  -- ImHandleInit
  unfoldable pub im_handle_init :
      Option InitiatorPaymentState
      → ActionInitInitiator
      → ChannelsMap
      → ℕ
      → ℕ
      → Outcome Reason ManagerIteration
  im_handle_init (some state) init channels block_number msg_id =
      ok (payment_state channels state [])
  im_handle_init none init channels block_number msg_id = do
    sub ←
        init_try_new_route env none channels init.routes init.transfer_description block_number true
          msg_id
    ok (record {
      new_state = elim sub.new_state [ none ↦ none | some transfer ↦ some (attempt transfer) ];
      channels = sub.channels;
      events = sub.events;
    })

  -- ImHandleCancelRoute
  unfoldable pub im_handle_cancel_route :
      InitiatorPaymentState
      → List RouteState
      → ChannelsMap
      → ℕ
      → ℕ
      → Outcome Reason (Iteration InitiatorPaymentState ChannelsMap)
  unfolding im_cancel_current_route
  im_handle_cancel_route state routes channels block_number msg_id =
      if not (im_can_cancel state)
      then ok (record { new_state = some state; channels = channels; events = [] })
      else do
        transfer ← deref state.initiator
        cancelled ← im_cancel_current_route state
        sub ←
            init_try_new_route env none channels routes transfer.transfer_description block_number
              false msg_id
        ok (record {
          new_state = elim sub.new_state [
            | none ↦ none
            | some next ↦ some (record cancelled.0 { initiator = some next })
          ];
          channels = sub.channels;
          events = cancelled.1 ++ sub.events;
        })

  -- ImHandleCancelPayment; the channel is read when the payment can be cancelled.
  unfoldable pub im_handle_cancel_payment :
      InitiatorPaymentState
      → ChannelsMap
      → Option NettingChannelState
      → Outcome Reason ManagerIteration
  unfolding im_cancel_current_route
  im_handle_cancel_payment state channels found =
      if not (im_can_cancel state) then ok (payment_state channels state []) else do
        transfer ← deref state.initiator
        cancelled ← im_cancel_current_route state
        channel ← deref found
        ok (record {
          new_state = none;
          channels = channels;
          events =
              cancelled.1
              ++ event_payment_sent_failed (record {
                payment_network_id = channel.payment_network_id;
                token_network_id = channel.token_network_id;
                identifier = transfer.transfer_description.payment_id;
                target = transfer.transfer_description.target;
                reason = Event.user_canceled_payment;
              })
                ∷ [];
        })
