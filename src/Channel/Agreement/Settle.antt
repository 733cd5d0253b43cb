-- ===== src/Channel/Agreement/Settle.antt =====
-- A request for a cooperative settlement between two channels in agreement.
use pylons.Base.{ℕ, [], ◌∷◌, ◌≡◌, some, arith, refl}
use pylons.Base.Outcome.{ok}
use pylons.Common.{Env}
use pylons.State.{NettingChannelEndState, NettingChannelState}
use pylons.Event.{Event, SendCooperativeSettleRequest}
use pylons.StateChange.{ActionCooperativeSettle, ReceiveCooperativeSettleRequest}
use pylons.Channel.Result.{transition, processed}
use pylons.Channel.Balance.{calculate_cooperative_settle_balance, get_cooperative_settle_balances}
use pylons.Channel.Status.{get_status, settling, started_at}
use pylons.Channel.Packing.{is_valid_signature, pack_cooperative_settle}
use pylons.Channel.CooperativeSettle.{
  handle_send_cooperative_settle_request, is_valid_cooperative_settle_request,
  handle_cooperative_settle_request_received,
}
use pylons.Channel.Agreement.{
  SameEnd, InAgreement, amount_locked, current_locked, current_transferred,
}

-- A request as it arrives: with the sender's signature over what was sent.
pub record RequestOf (env : Env) (sent : SendCooperativeSettleRequest)
    (arrived : ReceiveCooperativeSettleRequest) : Type 0 where
  pub participant1 : arrived.participant1 ≡ sent.participant1
  pub participant1_balance : arrived.participant1_balance ≡ sent.participant1_balance
  pub participant2 : arrived.participant2 ≡ sent.participant2
  pub participant2_balance : arrived.participant2_balance ≡ sent.participant2_balance
  pub signer : arrived.participant1_address ≡ sent.participant1
  pub signature :
      is_valid_signature env
        (pack_cooperative_settle env arrived.channel_id arrived.participant1
          arrived.participant1_balance arrived.participant2 arrived.participant2_balance)
        arrived.participant1_public_key
        arrived.participant1_signature
        arrived.participant1_address
      ≡ ok tt

-- Both participants compute the same final balance for an end.
settle_balance :
    (e f p q : NettingChannelEndState)
    → SameEnd e f
    → SameEnd q p
    → calculate_cooperative_settle_balance f q ≡ calculate_cooperative_settle_balance e p
unfolding calculate_cooperative_settle_balance
settle_balance e f p q s t = ground (
  arith,
  amount_locked e f s,
  amount_locked q p t,
  current_locked e,
  current_locked f,
  current_locked p,
  current_locked q,
  current_transferred e,
  current_transferred f,
  current_transferred p,
  current_transferred q,
)

-- What the sender asks for.
record Requested (a a' : NettingChannelState) (sent : SendCooperativeSettleRequest) : Type 0 where
  participant1 : sent.participant1 ≡ a.our_state.address
  participant2 : sent.participant2 ≡ a.partner_state.address
  balance1 :
      sent.participant1_balance ≡ calculate_cooperative_settle_balance a.our_state a.partner_state
  balance2 :
      sent.participant2_balance ≡ calculate_cooperative_settle_balance a.partner_state a.our_state
  status : get_status a' ≡ settling

Requested-of_send :
    (a a' : NettingChannelState) (action : ActionCooperativeSettle) (msg_id : ℕ)
    (sent : SendCooperativeSettleRequest)
    → handle_send_cooperative_settle_request msg_id a action
      ≡ transition a' (Event.send_cooperative_settle_request sent ∷ [])
    → Requested a a' sent
unfolding handle_send_cooperative_settle_request get_cooperative_settle_balances get_status
Requested-of_send a a' action msg_id sent h = record {
  participant1 = ground arith;
  participant2 = ground arith;
  balance1 = ground arith;
  balance2 = ground arith;
  status = ground arith;
}

valid_request :
    (env : Env) (a b a' : NettingChannelState) (sent : SendCooperativeSettleRequest)
    (request : ReceiveCooperativeSettleRequest)
    → InAgreement a b
    → Requested a a' sent
    → RequestOf env sent request
    → is_valid_cooperative_settle_request env b request ≡ ok tt
unfolding is_valid_cooperative_settle_request
valid_request env a b a' sent request g q r =
    let left =
      settle_balance a.our_state b.partner_state a.partner_state b.our_state g.ours g.theirs in
    let right =
      settle_balance b.our_state a.partner_state b.partner_state a.our_state g.theirs g.ours in
    ground arith

-- Between two channels in agreement, a request for a cooperative settlement that one participant
-- sends, and that arrives with a valid signature of the sender, is accepted by the other, who
-- computes the same two balances, answers with exactly these and confirms the message; both channels
-- are settling then.
pub cooperative_settle_request_agrees :
    (env : Env) (a b a' : NettingChannelState) (action : ActionCooperativeSettle)
    (msg_id answer_id : ℕ) (sent : SendCooperativeSettleRequest)
    (request : ReceiveCooperativeSettleRequest)
    → InAgreement a b
    → handle_send_cooperative_settle_request msg_id a action
      ≡ transition a' (Event.send_cooperative_settle_request sent ∷ [])
    → RequestOf env sent request
    → (b' : NettingChannelState) × (handle_cooperative_settle_request_received env answer_id b
          request
        ≡ ok (
            transition b' (
              Event.send_cooperative_settle (record {
                message = record {
                  recipient = a.our_state.address;
                  channel_id = request.channel_id;
                  message_id = answer_id;
                };
                token_network_id = request.token_network_id;
                participant1 = a.our_state.address;
                participant1_balance = (get_cooperative_settle_balances a).0;
                participant2 = b.our_state.address;
                participant2_balance = (get_cooperative_settle_balances b).0;
                participant1_signature = request.participant1_signature;
                participant1_address = a.our_state.address;
                participant1_public_key = request.participant1_public_key;
              })
              ∷ processed a.our_state.address request.message_id
              ∷ [])))
      × (get_status a' ≡ settling)
      × (get_status b' ≡ settling)
unfolding handle_cooperative_settle_request_received get_cooperative_settle_balances get_status
cooperative_settle_request_agrees env a b a' action msg_id answer_id sent request g h r =
    let q = Requested-of_send a a' action msg_id sent h in
    let valid = valid_request env a b a' sent request g q r in
    let right =
      settle_balance b.our_state a.partner_state b.partner_state a.our_state g.theirs g.ours in
    (record b { settle_transaction = some (started_at 0) }, ground arith, q.status, refl)
