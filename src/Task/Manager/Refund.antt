-- ===== src/Task/Manager/Refund.antt =====
-- What a refund does to a payment.
use pylons.Base.{ℕ, List, [], ◌∷◌, ◌++◌, none, some, true, ◌≡◌, arith}
use pylons.Base.Outcome.{ok}
use pylons.Common.{Env}
use pylons.State.{NettingChannelState}
use pylons.State.SyncMap.{load, store}
use pylons.Event
use pylons.Event.{Event, event_unlock_failed}
use pylons.Channel.Receive.{handle_receive_locked_transfer}
use pylons.Task.{
  ChannelsMap, InitiatorTransferState, InitiatorPaymentState, ReceiveTransferRefundCancelRoute,
}
use pylons.Task.Initiator.{init_try_new_route, no_route, payment_failed}
use pylons.Task.Manager.{
  im_can_cancel, im_events_for_cancel_current_route, im_cancel_current_route,
  im_handle_cancel_route,
}
use pylons.Task.Manager.Transition.{
  is_refund_of, description_after_refund, im_handle_transfer_refund_cancel_route,
}

-- When an initiator that has not given its secret away receives a refund of its transfer, and
-- accepts it: whatever other routes the refund names, none of them is tried. No channel changes but
-- the refund's own, no transfer is sent, and the payment has failed and is forgotten.
pub refund_ends_payment :
    (env : Env) (state : InitiatorPaymentState) (sent : InitiatorTransferState)
    (refund : ReceiveTransferRefundCancelRoute) (channels : ChannelsMap)
    (channel channel' : NettingChannelState) (events : List Event) (block_number msg_id : ℕ)
    → state.initiator ≡ some sent
    → sent.reveal_secret ≡ none
    → is_refund_of refund.transfer sent.transfer ≡ true
    → load sent.channel_id channels ≡ some channel
    → handle_receive_locked_transfer env channel refund.transfer ≡ ok (channel', events, none)
    → let described = description_after_refund env sent.transfer_description refund.secret in
      im_handle_transfer_refund_cancel_route env state refund channels block_number msg_id
      ≡ ok (record {
        new_state = none;
        channels = store sent.channel_id channel' channels;
        events =
            events
            ++ event_unlock_failed described.payment_id described.secret_hash
                Event.route_was_canceled
              ∷ payment_failed described (elim refund.routes [
                | [] ↦ Event.no_route_available
                | _ ∷ _ ↦ Event.no_route_could_be_used
              ])
              ∷ [];
      })
unfolding im_handle_transfer_refund_cancel_route im_handle_cancel_route im_can_cancel
    im_cancel_current_route im_events_for_cancel_current_route init_try_new_route no_route
    description_after_refund
refund_ends_payment env state sent refund channels channel channel' events block_number msg_id is
      secret valid found accepted =
    ground arith
