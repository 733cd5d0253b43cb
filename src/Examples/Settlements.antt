-- ===== src/Examples/Settlements.antt =====
-- Settlements, closes and deposits on the example channels.
use pylons.Base.{ℕ, ◌≤◌, ◌<◌, [], ◌∷◌, ◌≡◌, refl, none, some, arith, add32}
use pylons.Base.Outcome.{ok}
use pylons.Common.{block_height}
use pylons.State.{NettingChannelState, TransactionExecutionStatus, TransactionOrder, txn_exec_succ}
use pylons.Event.{
  Event, SendCooperativeSettleRequest, event_invalid_received_cooperative_settle,
  channel_state_is_not_opened,
}
use pylons.StateChange.{
  StateChange, ActionCooperativeSettle, ReceiveCooperativeSettleRequest, ReceiveCooperativeSettle,
}
use pylons.Channel.Result.{TransitionResult, transition, processed}
use pylons.Channel.Balance.{get_cooperative_settle_balances, get_current_balance_proof}
use pylons.Channel.Status.{
  get_status, started_at, closed, settled, settling, is_transaction_confirmed,
  apply_channel_new_balance, pop_rest,
}
use pylons.Channel.Packing.{pack_cooperative_settle, is_valid_signature}
use pylons.Channel.CooperativeSettle.{
  handle_send_cooperative_settle_request, handle_cooperative_settle_request_received,
  handle_cooperative_settle_received,
}
use pylons.Channel.Chain.{
  settle_closed, handle_block, apply_deposits, withdraw_timeout_events, handle_action_close,
  events_for_close,
}
use pylons.Base.Sort.{sort}
use pylons.Channel.Chain.Settlement.{
  settle_closed_once, handle_block-NoneConfirmed, NoneConfirmed, IsQueue,
}
use pylons.Channel.Agreement.Settle.{RequestOf, cooperative_settle_request_agrees}
use pylons.Channel.Transition.{state_transition_for_channel}
use pylons.Channel.Transition.Total.{state_transition_for_channel_returns}
use pylons.Channel.Transition.Order.{
  rank, state_transition_for_channel-rank, handle_cooperative_settle_received_unsettles,
}
use pylons.Examples.{test_env, left_channel, right_channel, agreement}

-- The left participant asks for a cooperative settlement.
abbrev settle_action : ActionCooperativeSettle
settle_action = record { token_network_id = 6; channel_id = 7 }

abbrev request_out : SendCooperativeSettleRequest
request_out = record {
  message = record { recipient = 2; channel_id = 7; message_id = 5 };
  token_network_id = 6;
  participant1 = 1;
  participant1_balance = 100;
  participant2 = 2;
  participant2_balance = 100;
}

abbrev request_in : ReceiveCooperativeSettleRequest
request_in = record {
  token_network_id = 6;
  message_id = 5;
  channel_id = 7;
  participant1 = 1;
  participant1_balance = 100;
  participant2 = 2;
  participant2_balance = 100;
  participant1_signature = 1 ∷ [];
  participant1_address = 1;
  participant1_public_key = 1 ∷ [];
}

abbrev left_settling : NettingChannelState
left_settling = record left_channel { settle_transaction = some (started_at 0) }

asked :
    handle_send_cooperative_settle_request 5 left_channel settle_action
    ≡ transition left_settling (Event.send_cooperative_settle_request request_out ∷ [])
unfolding handle_send_cooperative_settle_request get_cooperative_settle_balances
    get_current_balance_proof get_status
asked = refl

request_signed : RequestOf test_env request_out request_in
unfolding is_valid_signature pack_cooperative_settle
request_signed = record {
  participant1 = refl;
  participant1_balance = refl;
  participant2 = refl;
  participant2_balance = refl;
  signer = refl;
  signature = refl;
}

-- A closed channel whose settle timeout has passed.
abbrev closed_channel : NettingChannelState
closed_channel = record left_channel {
  close_transaction =
      some (record { started_block_height = 3; finished_block_height = 4; result = txn_exec_succ });
}

cooperative_settle_request_agrees_example :
    (b' : NettingChannelState) × (handle_cooperative_settle_request_received test_env 8
        right_channel request_in
      ≡ ok (
          transition b' (
            Event.send_cooperative_settle (record {
              message = record { recipient = 1; channel_id = 7; message_id = 8 };
              token_network_id = 6;
              participant1 = 1;
              participant1_balance = (get_cooperative_settle_balances left_channel).0;
              participant2 = 2;
              participant2_balance = (get_cooperative_settle_balances right_channel).0;
              participant1_signature = 1 ∷ [];
              participant1_address = 1;
              participant1_public_key = 1 ∷ [];
            })
            ∷ processed 1 5
            ∷ [])))
    × (get_status left_settling ≡ settling)
    × (get_status b' ≡ settling)
cooperative_settle_request_agrees_example =
    cooperative_settle_request_agrees test_env left_channel right_channel left_settling
      settle_action 5 8 request_out request_in agreement asked request_signed

abbrev settle_event : Event
settle_event = Event.contract_send_channel_settle (record { channel_id = 7; token_network_id = 6 })

abbrev settle_sent : NettingChannelState
settle_sent = record closed_channel { settle_transaction = some (started_at 30) }

settled_at_30 : settle_closed closed_channel 30 ≡ ok (settle_sent, settle_event ∷ [])
unfolding settle_closed get_status
settled_at_30 = refl

settle_closed_once_example :
    (get_status closed_channel ≡ closed)
    × ((close : TransactionExecutionStatus) × (closed_channel.close_transaction ≡ some close)
        × (add32 close.finished_block_height (block_height 20) < 30))
    × (get_status settle_sent ≡ settling)
    × (settle_closed settle_sent 31 ≡ ok (settle_sent, []))
settle_closed_once_example =
    settle_closed_once closed_channel settle_sent 30 31 settle_event [] settled_at_30

-- Two deposits, of which the block confirms the first.
abbrev deposit : ℕ → ℕ → TransactionOrder
deposit height balance = record {
  block_height = height;
  transaction = record {
    participant_address = 1;
    contract_balance = balance;
    deposit_block_height = height;
  };
}

abbrev waiting : NettingChannelState
waiting = record left_channel { deposit_transaction_queue = deposit 3 150 ∷ deposit 50 170 ∷ [] }

abbrev one_applied : NettingChannelState
one_applied = record left_channel {
  our_state = record (left_channel.our_state) { contract_balance = 150 };
  deposit_transaction_queue = deposit 50 170 ∷ [];
}

is_queue : IsQueue test_env 10 waiting.deposit_transaction_queue
is_queue = record {
  sorted = ((omega arith, tt), (tt, tt));
  small = (omega arith, (omega arith, tt));
}

block_10 : handle_block test_env waiting 10 10 ≡ ok (transition one_applied [])
unfolding handle_block settle_closed get_status apply_deposits is_transaction_confirmed
    apply_channel_new_balance pop_rest sort withdraw_timeout_events
block_10 = refl

handle_block-NoneConfirmed_example : NoneConfirmed test_env 10 one_applied.deposit_transaction_queue
handle_block-NoneConfirmed_example =
    handle_block-NoneConfirmed test_env 10 waiting one_applied 10 [] is_queue block_10

-- The transition function.
abbrev close_action : StateChange
close_action = StateChange.action_channel_close 7

abbrev left_closing : NettingChannelState
left_closing = record left_channel { close_transaction = some (started_at 12) }

abbrev close_event : Event
close_event =
    Event.contract_send_channel_close
      (record { channel_id = 7; token_address = 99; token_network_id = 6; balance_proof = none })

closing_sent :
    state_transition_for_channel test_env 5 left_channel close_action 12
    ≡ ok (transition left_closing (close_event ∷ []))
unfolding state_transition_for_channel handle_action_close events_for_close get_status
closing_sent = refl

state_transition_for_channel-rank_example :
    rank (get_status left_channel) ≤ rank (get_status left_closing)
state_transition_for_channel-rank_example =
    state_transition_for_channel-rank test_env 5 left_channel close_action 12 (λ m e. ground arith)
      closing_sent

state_transition_for_channel_returns_example :
    (r : TransitionResult) × (state_transition_for_channel test_env 5 left_channel close_action 12
      ≡ ok r)
state_transition_for_channel_returns_example =
    state_transition_for_channel_returns test_env 5 left_channel close_action 12

abbrev settled_channel : NettingChannelState
settled_channel = record left_channel {
  settle_transaction =
      some (record { started_block_height = 3; finished_block_height = 4; result = txn_exec_succ });
}

is_settled_channel : get_status settled_channel ≡ settled
unfolding get_status
is_settled_channel = refl

abbrev late_settle : ReceiveCooperativeSettle
late_settle = record {
  token_network_id = 6;
  message_id = 5;
  channel_id = 7;
  participant1 = 1;
  participant1_balance = 100;
  participant2 = 2;
  participant2_balance = 100;
  participant1_signature = 1 ∷ [];
  participant1_address = 1;
  participant1_public_key = 1 ∷ [];
  participant2_signature = 2 ∷ [];
  participant2_address = 2;
  participant2_public_key = 2 ∷ [];
}

handle_cooperative_settle_received_unsettles_example :
    (d : NettingChannelState) × (handle_cooperative_settle_received test_env settled_channel
        late_settle
      ≡ ok (
          transition d
            (event_invalid_received_cooperative_settle 6 7 channel_state_is_not_opened ∷ [])))
    × (rank (get_status d) < 3)
handle_cooperative_settle_received_unsettles_example =
    handle_cooperative_settle_received_unsettles test_env settled_channel late_settle
      is_settled_channel
