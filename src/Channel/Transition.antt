-- ===== src/Channel/Transition.antt =====
-- `StateTransitionForChannel` (transfer/channel.go). The message id is the one that
-- `common.GetMsgID` gives if the handler asks for it.
pub mod Total
pub mod Order
use pylons.Base.{ℕ, []}
use pylons.Base.Outcome.{Outcome, ok}
use pylons.Common.{Env}
use pylons.State.{NettingChannelState}
use pylons.Event.{Reason}
use pylons.StateChange
use pylons.StateChange.{StateChange}
use pylons.Channel.Result.{TransitionResult, transition}
use pylons.Channel.Direct.{handle_send_direct_transfer, handle_receive_direct_transfer}
use pylons.Channel.Withdraw.{
  handle_send_withdraw_request, handle_withdraw_request_received, handle_withdraw_received,
  handle_channel_withdraw,
}
use pylons.Channel.CooperativeSettle.{
  handle_send_cooperative_settle_request, handle_cooperative_settle_request_received,
  handle_cooperative_settle_received, handle_channel_cooperative_settled,
}
use pylons.Channel.Chain.{
  handle_block, handle_action_close, handle_channel_closed, handle_channel_updated_transfer,
  handle_channel_settled, handle_channel_batch_unlock, handle_channel_new_balance,
}

module _ (env : Env) (msg_id : ℕ) where
  -- StateTransitionForChannel
  unfoldable pub state_transition_for_channel :
      NettingChannelState → StateChange → ℕ → Outcome Reason TransitionResult
  state_transition_for_channel channel (StateChange.block height) block_number =
      handle_block env channel height block_number
  state_transition_for_channel channel (StateChange.action_channel_close _) block_number =
      ok (handle_action_close channel block_number)
  state_transition_for_channel channel (StateChange.action_transfer_direct a) block_number =
      handle_send_direct_transfer env msg_id channel a
  state_transition_for_channel channel (StateChange.contract_receive_channel_closed c)
        block_number =
      ok (handle_channel_closed channel c)
  state_transition_for_channel channel (StateChange.contract_receive_update_transfer c)
        block_number =
      ok (handle_channel_updated_transfer channel c)
  state_transition_for_channel channel (StateChange.contract_receive_channel_settled h c)
        block_number =
      ok (handle_channel_settled channel h c block_number)
  state_transition_for_channel channel (StateChange.contract_receive_channel_new_balance c)
        block_number =
      ok (handle_channel_new_balance env channel c block_number)
  state_transition_for_channel channel (StateChange.receive_transfer_direct m) block_number =
      handle_receive_direct_transfer env channel m
  state_transition_for_channel channel (StateChange.action_withdraw a) block_number =
      handle_send_withdraw_request msg_id channel a block_number
  state_transition_for_channel channel (StateChange.receive_withdraw_request m) block_number =
      handle_withdraw_request_received env msg_id channel m
  state_transition_for_channel channel (StateChange.receive_withdraw m) block_number =
      handle_withdraw_received env channel m
  state_transition_for_channel channel (StateChange.contract_receive_channel_withdraw c)
        block_number =
      ok (handle_channel_withdraw channel c)
  state_transition_for_channel channel (StateChange.action_cooperative_settle a) block_number =
      ok (handle_send_cooperative_settle_request msg_id channel a)
  state_transition_for_channel channel (StateChange.receive_cooperative_settle_request m)
        block_number =
      handle_cooperative_settle_request_received env msg_id channel m
  state_transition_for_channel channel (StateChange.receive_cooperative_settle m) block_number =
      handle_cooperative_settle_received env channel m
  state_transition_for_channel channel
        (StateChange.contract_receive_channel_cooperative_settled h c) block_number =
      ok (handle_channel_cooperative_settled channel h c)
  state_transition_for_channel channel StateChange.contract_receive_channel_batch_unlock
        block_number =
      ok (handle_channel_batch_unlock channel)
  state_transition_for_channel channel StateChange.other block_number = ok (transition channel [])
