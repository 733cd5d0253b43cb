-- ===== src/Channel/Agreement/Withdraw.antt =====
-- A request for a withdrawal between two channels in agreement.
use pylons.Base.{ℕ, [], ◌∷◌, ◌≡◌, some, arith}
use pylons.Base.Outcome.{ok}
use pylons.Common.{Env}
use pylons.State.{NettingChannelState}
use pylons.Event
use pylons.Event.{SendWithdrawRequest}
use pylons.StateChange.{ActionWithdraw, ReceiveWithdrawRequest}
use pylons.Channel.Result.{transition, processed}
use pylons.Channel.Status.{started_at}
use pylons.Channel.Packing.{is_valid_signature, pack_withdraw}
use pylons.Channel.Withdraw.{
  is_valid_withdraw_amount, handle_send_withdraw_request, is_valid_withdraw_request,
  handle_withdraw_request_received,
}
use pylons.Channel.Agreement.{InAgreement, distributable}

-- A request as it arrives: with the sender's signature over what was sent.
pub record WithdrawalOf (env : Env) (sent : SendWithdrawRequest) (arrived : ReceiveWithdrawRequest)
    : Type 0 where
  pub participant : arrived.participant ≡ sent.participant
  pub amount : arrived.total_withdraw ≡ sent.withdraw_amount
  pub signer : arrived.participant_address ≡ sent.participant
  pub signature :
      is_valid_signature env
        (pack_withdraw env arrived.channel_id arrived.participant arrived.total_withdraw)
        arrived.participant_public_key
        arrived.participant_signature
        arrived.participant_address
      ≡ ok tt

-- What the sender asks for.
record Withdrawing (a a' : NettingChannelState) (action : ActionWithdraw) (n : ℕ)
    (sent : SendWithdrawRequest) : Type 0 where
  valid : is_valid_withdraw_amount a.our_state a.partner_state sent.withdraw_amount ≡ ok tt
  participant : sent.participant ≡ action.participant
  amount : sent.withdraw_amount ≡ action.total_withdraw
  kept : a' ≡ record a { withdraw_transaction = some (started_at n) }

Withdrawing-of_send :
    (a a' : NettingChannelState) (action : ActionWithdraw) (msg_id n : ℕ)
    (sent : SendWithdrawRequest)
    → handle_send_withdraw_request msg_id a action n
      ≡ ok (transition a' (Event.send_withdraw_request sent ∷ []))
    → Withdrawing a a' action n sent
unfolding handle_send_withdraw_request
Withdrawing-of_send a a' action msg_id n sent h = record {
  valid = ground arith;
  participant = ground arith;
  amount = ground arith;
  kept = ground arith;
}

accepted :
    (env : Env) (a b a' : NettingChannelState) (action : ActionWithdraw) (n : ℕ)
    (sent : SendWithdrawRequest) (request : ReceiveWithdrawRequest)
    → InAgreement a b
    → action.participant ≡ a.our_state.address
    → Withdrawing a a' action n sent
    → WithdrawalOf env sent request
    → is_valid_withdraw_request env b request ≡ ok tt
unfolding is_valid_withdraw_request is_valid_withdraw_amount
accepted env a b a' action n sent request g own q r =
    let same =
      distributable a.our_state b.partner_state a.partner_state b.our_state g.ours g.theirs in
    let valid = q.valid in let own' = q.participant in ground arith

-- Between two channels in agreement, a request for a withdrawal that one participant sends for
-- itself, and that arrives with a valid signature of the sender, is accepted by the other, who
-- signs exactly the amount that was asked for, confirms the message and keeps its channel as it was;
-- the sender has recorded when it asked.
pub withdraw_request_agrees :
    (env : Env) (a b a' : NettingChannelState) (action : ActionWithdraw) (msg_id answer_id n : ℕ)
    (sent : SendWithdrawRequest) (request : ReceiveWithdrawRequest)
    → InAgreement a b
    → action.participant ≡ a.our_state.address
    → handle_send_withdraw_request msg_id a action n
      ≡ ok (transition a' (Event.send_withdraw_request sent ∷ []))
    → WithdrawalOf env sent request
    → (handle_withdraw_request_received env answer_id b request
        ≡ ok (
            transition b (
              Event.send_withdraw (record {
                message = record {
                  recipient = a.our_state.address;
                  channel_id = request.channel_id;
                  message_id = answer_id;
                };
                participant = a.our_state.address;
                token_network_id = b.token_network_id;
                withdraw_amount = action.total_withdraw;
                participant_signature = request.participant_signature;
                participant_address = a.our_state.address;
                participant_public_key = request.participant_public_key;
              })
              ∷ processed a.our_state.address request.message_id
              ∷ [])))
      × (a' ≡ record a { withdraw_transaction = some (started_at n) })
unfolding handle_withdraw_request_received
withdraw_request_agrees env a b a' action msg_id answer_id n sent request g own h r =
    let q = Withdrawing-of_send a a' action msg_id n sent h in
    let valid = accepted env a b a' action n sent request g own q r in
    let own' = q.participant in let amount = q.amount in (ground arith, q.kept)
