-- ===== src/Channel/Withdraw.antt =====
-- Withdrawals from an open channel (transfer/channel.go): the request of the user, the request and
-- the answer of the partner, and the event of the contract.
use pylons.Base.{ℕ, [], ◌∷◌, none, some, not, ltb, leb, ◌==◌, if◌then◌else◌, add64, sub64}
use pylons.Base.Outcome.{Outcome, ok, err, panic, ◌>>◌, check}
use pylons.Common.{Env, address_equal}
use pylons.State.{NettingChannelEndState, NettingChannelState}
use pylons.Event
use pylons.Event.{Reason, Event, SendMessageEvent}
use pylons.StateChange.{
  ActionWithdraw, ReceiveWithdrawRequest, ReceiveWithdraw, ContractReceiveChannelWithdraw,
}
use pylons.Channel.Balance.{get_distributable}
use pylons.Channel.Status.{get_status, is_opened, started_at}
use pylons.Channel.Packing.{is_valid_signature, pack_withdraw}
use pylons.Channel.Result.{TransitionResult, transition, processed}

-- isValidWithdrawAmount
unfoldable pub is_valid_withdraw_amount :
    NettingChannelEndState → NettingChannelEndState → ℕ → Outcome Reason (Unit {0})
is_valid_withdraw_amount participant partner total_withdraw = do
  let current_withdraw = participant.total_withdraw
  let amount_to_withdraw = sub64 total_withdraw current_withdraw
  check (not (ltb total_withdraw current_withdraw)) Event.total_withdraw_smaller_than_current
  check (not (amount_to_withdraw == 0)) Event.amount_to_withdraw_no_larger_than_zero
  check
      (leb (add64 total_withdraw partner.total_withdraw)
        (add64 participant.contract_balance partner.contract_balance))
      Event.both_withdraw_larger_than_deposit
  check (leb amount_to_withdraw (get_distributable participant partner))
      Event.total_withdraw_larger_than_distributable
  ok tt

-- RecordWithdrawTransaction
unfoldable pub record_withdraw_transaction : NettingChannelState → ℕ → NettingChannelState
record_withdraw_transaction channel height = record channel {
  withdraw_transaction = some (started_at height);
}

-- DeleteWithdrawTransaction
unfoldable pub delete_withdraw_transaction : NettingChannelState → NettingChannelState
delete_withdraw_transaction channel = record channel { withdraw_transaction = none }

-- The test of handleSendWithdrawRequest.
unfoldable pub can_send_withdraw_request :
    NettingChannelState → ActionWithdraw → Outcome Reason (Unit {0})
unfolding is_valid_withdraw_amount
can_send_withdraw_request channel action =
    if is_opened (get_status channel)
    then is_valid_withdraw_amount channel.our_state channel.partner_state action.total_withdraw
    else err Event.channel_state_is_not_opened

-- handleSendWithdrawRequest
unfoldable pub handle_send_withdraw_request :
    ℕ → NettingChannelState → ActionWithdraw → ℕ → Outcome Reason TransitionResult
unfolding can_send_withdraw_request record_withdraw_transaction
handle_send_withdraw_request msg_id channel action block_number =
    elim (can_send_withdraw_request channel action) [
      | ok _ ↦ ok (
          transition (record_withdraw_transaction channel block_number) (
            Event.send_withdraw_request (record {
              message = record {
                recipient = action.partner;
                channel_id = action.channel_id;
                message_id = msg_id;
              };
              participant = action.participant;
              token_network_id = channel.token_network_id;
              withdraw_amount = action.total_withdraw;
            })
            ∷ []))
      | err reason ↦ ok (
          transition channel (
            Event.event_withdraw_request_sent_failed action.token_network_id action.channel_id
              action.total_withdraw reason
            ∷ []))
      | panic ↦ panic
    ]

module _ (env : Env) where
  -- isValidWithdrawRequest
  unfoldable pub is_valid_withdraw_request :
      NettingChannelState → ReceiveWithdrawRequest → Outcome Reason (Unit {0})
  unfolding is_valid_withdraw_amount address_equal
  is_valid_withdraw_request channel request = do
    check (is_opened (get_status channel)) Event.channel_state_is_not_opened
    check (address_equal channel.partner_state.address request.participant)
        Event.participant_address_invalid
    check (address_equal request.participant request.participant_address)
        Event.participant_address_is_not_the_signer
    is_valid_withdraw_amount channel.partner_state channel.our_state request.total_withdraw
    is_valid_signature env
        (pack_withdraw env request.channel_id request.participant request.total_withdraw)
        request.participant_public_key request.participant_signature request.participant_address

  -- handleWithdrawRequestReceived
  unfoldable pub handle_withdraw_request_received :
      ℕ → NettingChannelState → ReceiveWithdrawRequest → Outcome Reason TransitionResult
  unfolding is_valid_withdraw_request processed
  handle_withdraw_request_received msg_id channel request =
      elim (is_valid_withdraw_request channel request) [
        | ok _ ↦ ok (
            transition channel (
              Event.send_withdraw (record {
                message = record {
                  recipient = request.participant;
                  channel_id = request.channel_id;
                  message_id = msg_id;
                };
                participant = request.participant;
                token_network_id = channel.token_network_id;
                withdraw_amount = request.total_withdraw;
                participant_signature = request.participant_signature;
                participant_address = request.participant_address;
                participant_public_key = request.participant_public_key;
              })
              ∷ processed request.participant request.message_id
              ∷ []))
        | err reason ↦ ok (
            transition channel (
              Event.event_invalid_received_withdraw_request request.channel_id request.participant
                request.total_withdraw reason
              ∷ []))
        | panic ↦ panic
      ]

  -- isValidWithdraw; the partner's address is the one that the message names.
  unfoldable pub is_valid_withdraw :
      NettingChannelState → ReceiveWithdraw → Outcome Reason (Unit {0})
  unfolding address_equal
  is_valid_withdraw channel answer = do
    check (is_opened (get_status channel)) Event.channel_state_is_not_opened
    check (address_equal channel.our_state.address answer.participant)
        Event.participant_address_invalid
    is_valid_signature env
        (pack_withdraw env answer.channel_id answer.participant answer.total_withdraw)
        answer.partner_public_key answer.partner_signature answer.partner_address

  -- handleWithdrawReceived
  unfoldable pub handle_withdraw_received :
      NettingChannelState → ReceiveWithdraw → Outcome Reason TransitionResult
  unfolding is_valid_withdraw
  handle_withdraw_received channel answer = elim (is_valid_withdraw channel answer) [
    | ok _ ↦ ok (
        transition channel (
          Event.contract_send_channel_withdraw (record {
            token_network_id = answer.token_network_id;
            channel_id = answer.channel_id;
            participant = answer.participant;
            total_withdraw = answer.total_withdraw;
            participant_signature = answer.participant_signature;
            participant_address = answer.participant_address;
            participant_public_key = answer.participant_public_key;
            partner_signature = answer.partner_signature;
            partner_address = answer.partner_address;
            partner_public_key = answer.partner_public_key;
          })
          ∷ []))
    | err reason ↦ ok (
        transition channel (
          Event.event_invalid_received_withdraw answer.token_network_id answer.channel_id
            answer.participant answer.total_withdraw reason
          ∷ []))
    | panic ↦ panic
  ]

-- handleChannelWithdraw; a participant that is not we is taken for the partner.
unfoldable pub handle_channel_withdraw :
    NettingChannelState → ContractReceiveChannelWithdraw → TransitionResult
unfolding address_equal delete_withdraw_transaction
handle_channel_withdraw channel change =
    let our_state = channel.our_state in
    let partner_state = channel.partner_state in
    let channel' =
      if address_equal change.participant our_state.address
      then record channel {
        our_state = record our_state { total_withdraw = change.total_withdraw };
      }
      else record channel {
        partner_state = record partner_state { total_withdraw = change.total_withdraw };
      } in
    transition (delete_withdraw_transaction channel') []
