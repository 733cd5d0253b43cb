-- ===== src/Examples/Withdrawals.antt =====
-- A withdrawal on the example channels.
use pylons.Base.{[], ◌∷◌, ◌≡◌, refl, some}
use pylons.Base.Outcome.{ok}
use pylons.State.{NettingChannelState}
use pylons.Event
use pylons.Event.{SendWithdrawRequest}
use pylons.StateChange.{ActionWithdraw, ReceiveWithdrawRequest}
use pylons.Channel.Result.{transition, processed}
use pylons.Channel.Balance.{get_distributable, get_balance, get_amount_locked}
use pylons.Channel.Status.{get_status, started_at}
use pylons.Channel.Packing.{is_valid_signature, pack_withdraw}
use pylons.Channel.Withdraw.{handle_send_withdraw_request, handle_withdraw_request_received}
use pylons.Channel.Agreement.Withdraw.{WithdrawalOf, withdraw_request_agrees}
use pylons.Examples.{test_env, left_channel, right_channel, agreement}

-- The left participant asks to withdraw 25.
abbrev withdraw_action : ActionWithdraw
withdraw_action = record {
  token_network_id = 6;
  channel_id = 7;
  participant = 1;
  partner = 2;
  total_withdraw = 25;
}

abbrev withdraw_out : SendWithdrawRequest
withdraw_out = record {
  message = record { recipient = 2; channel_id = 7; message_id = 5 };
  participant = 1;
  token_network_id = 6;
  withdraw_amount = 25;
}

abbrev withdraw_in : ReceiveWithdrawRequest
withdraw_in = record {
  token_network_id = 6;
  message_id = 5;
  channel_id = 7;
  participant = 1;
  total_withdraw = 25;
  participant_signature = 1 ∷ [];
  participant_address = 1;
  participant_public_key = 1 ∷ [];
}

abbrev left_withdrawing : NettingChannelState
left_withdrawing = record left_channel { withdraw_transaction = some (started_at 12) }

withdraw_sent :
    handle_send_withdraw_request 5 left_channel withdraw_action 12
    ≡ ok (transition left_withdrawing (Event.send_withdraw_request withdraw_out ∷ []))
unfolding handle_send_withdraw_request get_distributable get_balance get_amount_locked get_status
withdraw_sent = refl

withdraw_signed : WithdrawalOf test_env withdraw_out withdraw_in
unfolding is_valid_signature pack_withdraw
withdraw_signed = record { participant = refl; amount = refl; signer = refl; signature = refl }

withdraw_request_agrees_example :
    (handle_withdraw_request_received test_env 8 right_channel withdraw_in
      ≡ ok (
          transition right_channel (
            Event.send_withdraw (record {
              message = record { recipient = 1; channel_id = 7; message_id = 8 };
              participant = 1;
              token_network_id = 6;
              withdraw_amount = 25;
              participant_signature = 1 ∷ [];
              participant_address = 1;
              participant_public_key = 1 ∷ [];
            })
            ∷ processed 1 5
            ∷ [])))
    × (left_withdrawing ≡ record left_channel { withdraw_transaction = some (started_at 12) })
withdraw_request_agrees_example =
    withdraw_request_agrees test_env left_channel right_channel left_withdrawing withdraw_action 5 8
      12 withdraw_out withdraw_in agreement refl withdraw_sent withdraw_signed
