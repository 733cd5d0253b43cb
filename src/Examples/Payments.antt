-- ===== src/Examples/Payments.antt =====
-- Direct payments on the example channels.
use pylons.Base.{◌+◌, ◌<◌, [], ◌∷◌, ◌≡◌, refl, some, arith, word64}
use pylons.Base.Outcome.{ok}
use pylons.State.{NettingChannelState}
use pylons.Event
use pylons.Event.{SendDirectTransfer}
use pylons.StateChange.{ActionTransferDirect, ReceiveTransferDirect}
use pylons.Channel.Result.{transition, processed}
use pylons.Channel.Balance.{
  get_amount_locked, transferred_of, get_next_nonce, get_distributable, get_balance,
  get_current_balance_proof,
}
use pylons.Channel.Status.{get_status}
use pylons.Channel.Packing.{is_valid_balance_proof_signature}
use pylons.Channel.Send.{message_to_partner, next_balance_proof, fake_signed, send_direct_transfer}
use pylons.Channel.Direct.{handle_send_direct_transfer, handle_receive_direct_transfer}
use pylons.Channel.Agreement.{InAgreement}
use pylons.Channel.Agreement.Direct.{direct_payment_agrees, with_partner_proof, payment_received}
use pylons.Channel.Agreement.Run.{Payment, Run, Consistent, Run-Consistent}
use pylons.Channel.Balance.Solvency.{Solvent, handle_receive_direct_transfer-Solvent}
use pylons.Examples.{
  test_env, left_channel, right_channel, signed_by, signed_by-SignedOf, agreement, locked_fits,
  right-Solvent,
}

-- The left participant pays 30.
abbrev message_out : SendDirectTransfer
message_out = record {
  message = message_to_partner left_channel 5;
  payment_id = 9;
  balance_proof = next_balance_proof test_env left_channel 30 0 0;
  token_address = 99;
}

abbrev message_in : ReceiveTransferDirect
message_in = record {
  token_network_id = 6;
  message_id = 5;
  payment_id = 9;
  balance_proof = signed_by 1 message_out.balance_proof;
}

abbrev left_after : NettingChannelState
left_after = record left_channel {
  our_state = record (left_channel.our_state) {
    balance_proof = some (fake_signed message_out.balance_proof);
  };
}

sent : send_direct_transfer test_env left_channel 30 5 9 ≡ ok (left_after, message_out)
unfolding send_direct_transfer get_distributable get_balance get_amount_locked get_status
sent = refl

signature : is_valid_balance_proof_signature test_env message_in.balance_proof 1 ≡ ok tt
unfolding is_valid_balance_proof_signature next_balance_proof get_next_nonce
signature = refl

direct_payment_agrees_example :
    (handle_receive_direct_transfer test_env right_channel message_in
      ≡ ok (
          transition
            (with_partner_proof right_channel message_in.balance_proof)
            (payment_received right_channel message_in 30 ∷ processed 1 5 ∷ [])))
    × InAgreement left_after (with_partner_proof right_channel message_in.balance_proof)
    × (transferred_of left_after.our_state ≡ 30 + transferred_of left_channel.our_state)
    × (transferred_of left_after.our_state + get_amount_locked left_after.our_state < word64)
direct_payment_agrees_example =
    direct_payment_agrees test_env left_channel right_channel left_after 30 5 9 message_out
      message_in agreement locked_fits (omega arith) sent
      (signed_by-SignedOf 1 message_out.balance_proof) signature

abbrev right_after : NettingChannelState
right_after = with_partner_proof right_channel message_in.balance_proof

abbrev pay_30 : ActionTransferDirect
pay_30 = record { token_network_id = 6; receiver_address = 2; payment_id = 9; amount = 30 }

handled_action :
    handle_send_direct_transfer test_env 5 left_channel pay_30
    ≡ ok (transition left_after (Event.send_direct_transfer message_out ∷ []))
unfolding handle_send_direct_transfer send_direct_transfer get_distributable get_balance
    get_amount_locked get_status get_current_balance_proof
handled_action = refl

received :
    handle_receive_direct_transfer test_env right_channel message_in
    ≡ ok
        (transition right_after (payment_received right_channel message_in 30 ∷ processed 1 5 ∷ []))
received =
    (direct_payment_agrees test_env left_channel right_channel left_after 30 5 9 message_out
      message_in agreement locked_fits (omega arith) sent
      (signed_by-SignedOf 1 message_out.balance_proof) signature).0

payment : Payment test_env left_channel right_channel left_after right_after
payment = record {
  action = pay_30;
  message_id = 5;
  m = message_out;
  message = message_in;
  events = payment_received right_channel message_in 30 ∷ processed 1 5 ∷ [];
  sent = handled_action;
  signed = signed_by-SignedOf 1 message_out.balance_proof;
  signature = signature;
  received = received;
}

run : Run test_env 30 0 left_channel right_channel left_after right_after
unfolding payment
run =
    Run.left_pays 0 0 left_channel right_channel left_after right_after left_after right_after
      payment (Run.done left_after right_after)

consistent : Consistent left_channel right_channel
unfolding get_amount_locked
consistent = record { agree = agreement; ours = omega arith; theirs = omega arith }

Run-Consistent_example :
    Consistent left_after right_after
    × (transferred_of left_after.our_state ≡ transferred_of left_channel.our_state + 30)
    × (transferred_of right_after.our_state ≡ transferred_of right_channel.our_state + 0)
Run-Consistent_example =
    Run-Consistent test_env 30 0 left_channel right_channel left_after right_after run consistent

message_fits : message_in.balance_proof.transferred_amount < word64
unfolding next_balance_proof
message_fits = omega arith

handle_receive_direct_transfer-Solvent_example :
    Solvent right_after.partner_state right_after.our_state
handle_receive_direct_transfer-Solvent_example =
    handle_receive_direct_transfer-Solvent test_env right_channel right_after message_in
      (payment_received right_channel message_in 30 ∷ processed 1 5 ∷ []) message_fits right-Solvent
      received
