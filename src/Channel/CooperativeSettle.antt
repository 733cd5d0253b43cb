-- ===== src/Channel/CooperativeSettle.antt =====
-- The cooperative settlement (transfer/channel.go): both sides sign the final balances. While it
-- is under way the settle transaction is on record with no height and no result.
use pylons.Base.{ℕ, List, [], ◌∷◌, none, some, ◌&&◌, ◌==◌, if◌then◌else◌}
use pylons.Base.Outcome.{Outcome, ok, err, panic, ◌>>◌, check}
use pylons.Common.{Env, address_equal}
use pylons.State.{NettingChannelState}
use pylons.Event
use pylons.Event.{Reason, Event, SendMessageEvent}
use pylons.StateChange.{
  ActionCooperativeSettle, ReceiveCooperativeSettleRequest, ReceiveCooperativeSettle,
}
use pylons.Channel.Balance.{calculate_cooperative_settle_balance, get_cooperative_settle_balances}
use pylons.Channel.Status.{get_status, is_opened, is_settling, started_at}
use pylons.Channel.Packing.{is_valid_signature, pack_cooperative_settle}
use pylons.Channel.Result.{TransitionResult, transition, processed}

-- handleSendCooperativeSettleRequest
unfoldable pub handle_send_cooperative_settle_request :
    ℕ → NettingChannelState → ActionCooperativeSettle → TransitionResult
handle_send_cooperative_settle_request msg_id channel action =
    let balances = get_cooperative_settle_balances channel in
    if is_opened (get_status channel)
    then transition (record channel { settle_transaction = some (started_at 0) })
        (Event.send_cooperative_settle_request (record {
          message = record {
            recipient = channel.partner_state.address;
            channel_id = action.channel_id;
            message_id = msg_id;
          };
          token_network_id = action.token_network_id;
          participant1 = channel.our_state.address;
          participant1_balance = balances.0;
          participant2 = channel.partner_state.address;
          participant2_balance = balances.1;
        })
          ∷ [])
    else transition channel (
        Event.event_cooperative_settle_request_sent_failed action.token_network_id action.channel_id
          Event.channel_state_is_not_opened
        ∷ [])

-- handleChannelCooperativeSettled
unfoldable pub handle_channel_cooperative_settled : NettingChannelState → ℕ → ℕ → TransitionResult
handle_channel_cooperative_settled channel block_height channel_id =
    if channel_id == channel.identifier
    then record { new_state = none; events = [] }
    else transition channel []

module _ (env : Env) where
  -- isValidCooperativeSettleRequest
  unfoldable pub is_valid_cooperative_settle_request :
      NettingChannelState → ReceiveCooperativeSettleRequest → Outcome Reason (Unit {0})
  unfolding address_equal
  is_valid_cooperative_settle_request channel request = do
    let our_state = channel.our_state
    let partner_state = channel.partner_state
    check (is_opened (get_status channel)) Event.channel_state_is_not_opened
    check (address_equal partner_state.address request.participant1)
        Event.participant1_address_invalid
    check (address_equal our_state.address request.participant2) Event.participant2_address_invalid
    check (address_equal request.participant1 request.participant1_address)
        Event.participant_address_is_not_the_signer
    check
        (calculate_cooperative_settle_balance our_state partner_state
            == request.participant2_balance
          && calculate_cooperative_settle_balance partner_state our_state
            == request.participant1_balance)
        Event.invalid_balance
    is_valid_signature env
        (pack_cooperative_settle env request.channel_id request.participant1
          request.participant1_balance request.participant2 request.participant2_balance)
        request.participant1_public_key request.participant1_signature request.participant1_address

  -- handleCooperativeSettleRequestReceived
  unfoldable pub handle_cooperative_settle_request_received :
      ℕ → NettingChannelState → ReceiveCooperativeSettleRequest → Outcome Reason TransitionResult
  unfolding processed
  handle_cooperative_settle_request_received msg_id channel request =
      elim (is_valid_cooperative_settle_request channel request) [
        | ok _ ↦ ok (
            transition (record channel { settle_transaction = some (started_at 0) })
              (Event.send_cooperative_settle (record {
                message = record {
                  recipient = request.participant1;
                  channel_id = request.channel_id;
                  message_id = msg_id;
                };
                token_network_id = request.token_network_id;
                participant1 = request.participant1;
                participant1_balance = request.participant1_balance;
                participant2 = request.participant2;
                participant2_balance = request.participant2_balance;
                participant1_signature = request.participant1_signature;
                participant1_address = request.participant1_address;
                participant1_public_key = request.participant1_public_key;
              })
                ∷ processed request.participant1 request.message_id
                ∷ []))
        | err reason ↦ ok (
            transition channel (
              Event.event_invalid_received_cooperative_settle_request request.token_network_id
                request.channel_id reason
              ∷ []))
        | panic ↦ panic
      ]

  -- The signature of participant1, with the text that wraps its error.
  unfoldable pub check_participant1_signature :
      List ℕ → ReceiveCooperativeSettle → Outcome Reason (Unit {0})
  check_participant1_signature data_to_sign settle =
      elim (is_valid_signature env data_to_sign settle.participant1_public_key
        settle.participant1_signature settle.participant1_address) [
          | ok _ ↦ ok tt
          | err reason ↦ err (Event.participant1_signature_invalid reason)
          | panic ↦ panic
        ]

  -- isValidCooperativeSettle
  unfoldable pub is_valid_cooperative_settle :
      NettingChannelState → ReceiveCooperativeSettle → Outcome Reason (Unit {0})
  unfolding address_equal check_participant1_signature
  is_valid_cooperative_settle channel settle = do
    let our_state = channel.our_state
    let partner_state = channel.partner_state
    check (is_settling (get_status channel)) Event.channel_state_is_not_opened
    check (address_equal our_state.address settle.participant1) Event.participant1_address_invalid
    check (address_equal partner_state.address settle.participant2)
        Event.participant2_address_invalid
    check (address_equal settle.participant1 settle.participant1_address)
        Event.participant_address_is_not_the_signer
    check (address_equal settle.participant2 settle.participant2_address)
        Event.participant_address_is_not_the_signer
    check
        (calculate_cooperative_settle_balance our_state partner_state == settle.participant1_balance
          && calculate_cooperative_settle_balance partner_state our_state
            == settle.participant2_balance)
        Event.invalid_balance
    let data_to_sign =
        pack_cooperative_settle env settle.channel_id settle.participant1
          settle.participant1_balance settle.participant2 settle.participant2_balance
    check_participant1_signature data_to_sign settle
    is_valid_signature env data_to_sign settle.participant2_public_key settle.participant2_signature
        settle.participant2_address

  -- handleCooperativeSettleReceived; any error takes the settle transaction off the record.
  unfoldable pub handle_cooperative_settle_received :
      NettingChannelState → ReceiveCooperativeSettle → Outcome Reason TransitionResult
  handle_cooperative_settle_received channel settle =
      elim (is_valid_cooperative_settle channel settle) [
        | ok _ ↦ ok (
            transition channel (
              Event.contract_send_channel_cooperative_settle (record {
                token_network_id = settle.token_network_id;
                channel_id = settle.channel_id;
                participant1 = settle.participant1;
                participant1_balance = settle.participant1_balance;
                participant2 = settle.participant2;
                participant2_balance = settle.participant2_balance;
                participant1_signature = settle.participant1_signature;
                participant1_address = settle.participant1_address;
                participant1_public_key = settle.participant1_public_key;
                participant2_signature = settle.participant2_signature;
                participant2_address = settle.participant2_address;
                participant2_public_key = settle.participant2_public_key;
              })
              ∷ []))
        | err reason ↦ ok (
            transition (record channel { settle_transaction = none })
              (Event.event_invalid_received_cooperative_settle settle.token_network_id
                  settle.channel_id reason
                ∷ []))
        | panic ↦ panic
      ]
