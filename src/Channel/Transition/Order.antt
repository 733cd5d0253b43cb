-- ===== src/Channel/Transition/Order.antt =====
-- The order of a channel's life: opened, closing, closed, settling, settled.
pub mod Handlers
pub use Handlers.{rank}
use pylons.Channel.Transition.Order.Handlers.{
  After, Later, settle_closed-Later, handle_block-Later, handle_action_close-Later,
  handle_channel_closed-Later, handle_channel_settled-Later, handle_channel_updated_transfer-Later,
  handle_channel_new_balance-Later, handle_send_direct_transfer-Later,
  handle_receive_direct_transfer-Later, withdraws-Later, withdraw_request-Later,
  withdraw_received-Later, channel_withdraw-Later, send_settle_request-Later,
  settle_request_received-Later,
}
use pylons.Base.{
  ℕ, zero, suc, none, some, ◌≡◌, refl, ◌≢◌, ◌≤◌, ◌<◌, arith, inl, inr, List, [], ◌∷◌, List-cases,
  length,
}
use pylons.Base.Outcome.{Outcome, ok, err, panic, Outcome-cases}
use pylons.Common.{Env}
use pylons.State.{NettingChannelState, TransactionChannelNewBalance, TransactionOrder}
use pylons.StateChange.{
  StateChange, ReceiveCooperativeSettle, ContractReceiveChannelClosed, ActionTransferDirect,
  ContractReceiveChannelNewBalance, ReceiveTransferDirect, ActionWithdraw, ReceiveWithdrawRequest,
  ReceiveWithdraw, ContractReceiveChannelWithdraw, ActionCooperativeSettle,
  ReceiveCooperativeSettleRequest,
}
use pylons.Event.{
  Reason, Event, event_invalid_received_cooperative_settle, channel_state_is_not_opened,
}
use pylons.Channel.Result.{TransitionResult, transition}
use pylons.Channel.Status.{
  ChannelStatus, closed, closing, opened, settled, settling, unusable, get_status, status_of,
  set_closed, set_settled, apply_channel_new_balance, pop_rest,
}
use pylons.Channel.Send.{send_direct_transfer}
use pylons.Channel.Direct.{handle_send_direct_transfer, handle_receive_direct_transfer}
use pylons.Channel.Withdraw.{
  handle_send_withdraw_request, handle_withdraw_request_received, handle_withdraw_received,
  handle_channel_withdraw,
}
use pylons.Channel.CooperativeSettle.{
  handle_send_cooperative_settle_request, handle_cooperative_settle_request_received,
  handle_cooperative_settle_received, handle_channel_cooperative_settled,
  is_valid_cooperative_settle, is_valid_cooperative_settle_request,
}
use pylons.Channel.Chain.{
  settle_closed, apply_deposits, handle_block, handle_action_close, handle_channel_closed,
  handle_channel_updated_transfer, handle_channel_settled, handle_channel_batch_unlock,
  handle_channel_new_balance,
}
use pylons.Channel.Transition.{state_transition_for_channel}

module _ (env : Env) (msg_id : ℕ) (c : NettingChannelState) where
  transition-Later :
      (change : StateChange) (n : ℕ)
      → ((m : ReceiveCooperativeSettle) → change ≢ StateChange.receive_cooperative_settle m)
      → After (Later c) (state_transition_for_channel env msg_id c change n)
  unfolding state_transition_for_channel handle_channel_cooperative_settled
      handle_channel_batch_unlock
  transition-Later (StateChange.block height) n h = handle_block-Later env msg_id c height n
  transition-Later (StateChange.action_channel_close i) n h =
      handle_action_close-Later env msg_id c n
  transition-Later (StateChange.action_transfer_direct a) n h =
      handle_send_direct_transfer-Later env msg_id c a
  transition-Later (StateChange.contract_receive_channel_closed m) n h =
      handle_channel_closed-Later env msg_id c m
  transition-Later (StateChange.contract_receive_update_transfer i) n h =
      handle_channel_updated_transfer-Later env msg_id c i
  transition-Later (StateChange.contract_receive_channel_settled k i) n h =
      handle_channel_settled-Later env msg_id c k i n
  transition-Later (StateChange.contract_receive_channel_new_balance m) n h =
      handle_channel_new_balance-Later env msg_id c m n
  transition-Later (StateChange.receive_transfer_direct m) n h =
      handle_receive_direct_transfer-Later env msg_id c m
  transition-Later (StateChange.action_withdraw a) n h = withdraws-Later env msg_id c a n
  transition-Later (StateChange.receive_withdraw_request m) n h =
      withdraw_request-Later env msg_id c m
  transition-Later (StateChange.receive_withdraw m) n h = withdraw_received-Later env msg_id c m
  transition-Later (StateChange.contract_receive_channel_withdraw m) n h =
      channel_withdraw-Later env msg_id c m
  transition-Later (StateChange.action_cooperative_settle a) n h =
      send_settle_request-Later env msg_id c a
  transition-Later (StateChange.receive_cooperative_settle_request m) n h =
      settle_request_received-Later env msg_id c m
  transition-Later (StateChange.receive_cooperative_settle m) n h = absurd (h m refl)
  transition-Later (StateChange.contract_receive_channel_cooperative_settled k i) n h = ground arith
  transition-Later StateChange.contract_receive_channel_batch_unlock n h = ground arith
  transition-Later StateChange.other n h = omega arith

After-new_state :
    (P : NettingChannelState → Type 0) (m : Outcome Reason TransitionResult)
    {d : NettingChannelState} {events : List Event}
    → After P m
    → m ≡ ok (transition d events)
    → P d
After-new_state P m a e = rw e at a

-- No state change but a received cooperative settlement takes a channel back: in the order opened,
-- closing, closed or unusable, settling, settled the new channel, if it is kept, stands no earlier
-- than the old one.
pub state_transition_for_channel-rank :
    (env : Env) (msg_id : ℕ) (c : NettingChannelState) (change : StateChange) (n : ℕ)
    {d : NettingChannelState} {events : List Event}
    → ((m : ReceiveCooperativeSettle) → change ≢ StateChange.receive_cooperative_settle m)
    → state_transition_for_channel env msg_id c change n ≡ ok (transition d events)
    → rank (get_status c) ≤ rank (get_status d)
state_transition_for_channel-rank env msg_id c change n h e =
    After-new_state (Later c) (state_transition_for_channel env msg_id c change n)
      (transition-Later env msg_id c change n h) e

settled_refused :
    (env : Env) (c : NettingChannelState) (m : ReceiveCooperativeSettle)
    → get_status c ≡ settled
    → is_valid_cooperative_settle env c m ≡ err channel_state_is_not_opened
unfolding is_valid_cooperative_settle
settled_refused env c m h = ground arith

unsettled :
    (c : NettingChannelState) → rank (get_status (record c { settle_transaction = none })) < 3
unfolding get_status status_of
unsettled c = ground arith

-- The exception: on a settled channel any received cooperative settlement, whatever it holds, is
-- refused with an event, and takes the settlement off the record, so the channel is no longer
-- settled or settling.
pub handle_cooperative_settle_received_unsettles :
    (env : Env) (c : NettingChannelState) (m : ReceiveCooperativeSettle)
    → get_status c ≡ settled
    → (d : NettingChannelState) × (handle_cooperative_settle_received env c m
        ≡ ok (
            transition d (
              event_invalid_received_cooperative_settle m.token_network_id m.channel_id
                channel_state_is_not_opened
              ∷ [])))
      × (rank (get_status d) < 3)
unfolding handle_cooperative_settle_received
handle_cooperative_settle_received_unsettles env c m h = (
  record c { settle_transaction = none },
  rw (settled_refused env c m h, handle_cooperative_settle_received),
  unsettled c,
)

-- While a settlement is under way, also a cooperative one that was only asked for, the contract's
-- news that the channel was closed changes nothing: no balance proof is sent to the contract.
pub handle_channel_closed_while_settling :
    (c : NettingChannelState) (m : ContractReceiveChannelClosed)
    → get_status c ≡ settling
    → handle_channel_closed c m ≡ transition c []
unfolding handle_channel_closed
handle_channel_closed_while_settling c m h = ground arith
