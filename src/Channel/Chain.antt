-- ===== src/Channel/Chain.antt =====
-- The handlers of blocks, of contract events and of the user's close (transfer/channel.go).
pub mod Settlement
use pylons.Base.{
  ℕ, zero, suc, List, [], ◌∷◌, ◌++◌, Option, none, some, Bool, true, false, not, ◌&&◌, ◌||◌, ltb,
  ◌==◌, if◌then◌else◌, add32, is_some, length,
}
use pylons.Base.Outcome.{Outcome, ok, err, panic}
use pylons.Common.{Env, block_height, address_equal, MediationFeeConfig}
use pylons.State.{
  NettingChannelState, TransactionExecutionStatus, txn_exec_succ, TransactionOrder,
  FeeScheduleState,
}
use pylons.State.SyncMap.{load}
use pylons.Event
use pylons.Event.{Reason, Event}
use pylons.StateChange.{ContractReceiveChannelClosed, ContractReceiveChannelNewBalance}
use pylons.Channel.Balance.{get_batch_unlock}
use pylons.Channel.Status.{
  get_status, is_opened, is_closing, is_closed, is_settled, set_closed, set_settled, started_at,
  is_transaction_confirmed, is_deposit_confirmed, apply_channel_new_balance, push, pop_rest,
}
use pylons.Channel.Result.{TransitionResult, transition}

-- EventsForClose
unfoldable pub events_for_close : NettingChannelState → ℕ → NettingChannelState × List Event
events_for_close channel block_number =
    let status = get_status channel in
    if is_opened status || is_closing status
    then (
      record channel { close_transaction = some (started_at block_number) },
      Event.contract_send_channel_close (record {
        channel_id = channel.identifier;
        token_address = channel.token_address;
        token_network_id = channel.token_network_id;
        balance_proof = channel.partner_state.balance_proof;
      })
          ∷ [],
    )
    else (channel, [])

-- handleActionClose
unfoldable pub handle_action_close : NettingChannelState → ℕ → TransitionResult
unfolding events_for_close
handle_action_close channel block_number =
    let r = events_for_close channel block_number in transition r.0 r.1

-- The first part of handleBlock: the settlement of a closed channel.
unfoldable pub settle_closed :
    NettingChannelState → ℕ → Outcome Reason (NettingChannelState × List Event)
settle_closed channel height =
    if is_closed (get_status channel)
    then elim channel.close_transaction [
      | none ↦ panic
      | some close ↦
          let settlement_end =
            add32 close.finished_block_height (block_height channel.settle_timeout) in
          if ltb settlement_end height && not (is_some channel.settle_transaction)
          then ok (
            record channel { settle_transaction = some (started_at height) },
            Event.contract_send_channel_settle (record {
              channel_id = channel.identifier;
              token_network_id = channel.token_network_id;
            })
                ∷ [],
          )
          else ok (channel, [])
    ]
    else ok (channel, [])

-- The loop of handleBlock over the deposits. The queue loses one order in each round, so its
-- length is the fuel; with none left the queue is empty.
unfoldable pub apply_deposits : Env → ℕ → NettingChannelState → ℕ → NettingChannelState
apply_deposits env zero channel block_number = channel
apply_deposits env (suc fuel) channel block_number = elim channel.deposit_transaction_queue [
  | [] ↦ channel
  | order ∷ rest ↦
      let next =
        apply_deposits env fuel
          (apply_channel_new_balance (record channel { deposit_transaction_queue = pop_rest rest })
            order.transaction)
          block_number in
      if is_transaction_confirmed env order.block_height block_number then next else channel
]

-- The last part of handleBlock: a withdrawal that has not come through in time.
unfoldable pub withdraw_timeout_events : Env → NettingChannelState → ℕ → List Event
withdraw_timeout_events env channel block_number =
    if is_opened (get_status channel)
    then elim channel.withdraw_transaction [
      | none ↦ []
      | some withdraw ↦
          if ltb (add32 withdraw.started_block_height (block_height env.withdraw_timeout))
            block_number
          then Event.event_withdraw_request_timeout channel.token_network_id channel.identifier ∷ []
          else []
    ]
    else []

-- handleBlock
unfoldable pub handle_block : Env → NettingChannelState → ℕ → ℕ → Outcome Reason TransitionResult
unfolding settle_closed apply_deposits withdraw_timeout_events
handle_block env channel height block_number = elim (settle_closed channel height) [
  | ok (settling, events) ↦
      let done =
        apply_deposits env (length settling.deposit_transaction_queue) settling block_number in
      ok (transition done (events ++ withdraw_timeout_events env done block_number))
  | err e ↦ err e
  | panic ↦ panic
]

-- handleChannelClosed
unfoldable pub handle_channel_closed :
    NettingChannelState → ContractReceiveChannelClosed → TransitionResult
unfolding address_equal
handle_channel_closed channel change =
    let status = get_status channel in
    let just_closed =
      change.channel_id == channel.identifier && (is_opened status || is_closing status) in
    let closed = set_closed channel change.block_height in
    let by_us = address_equal change.transaction_from closed.our_state.address in
    if just_closed
    then elim closed.partner_state.balance_proof [
      | none ↦ transition closed []
      | some balance_proof ↦
          if not by_us && not (is_some closed.update_transaction)
          then transition
              (record closed { update_transaction = some (started_at change.block_height) })
              (Event.contract_send_channel_update_transfer (record {
                expiration = add32 change.block_height (block_height closed.settle_timeout);
                channel_id = closed.identifier;
                token_network_id = closed.token_network_id;
                balance_proof = balance_proof;
              })
                ∷ [])
          else transition closed []
    ]
    else transition channel []

-- handleChannelUpdatedTransfer
unfoldable pub handle_channel_updated_transfer : NettingChannelState → ℕ → TransitionResult
handle_channel_updated_transfer channel channel_id =
    if channel_id == channel.identifier
    then transition
        (record channel {
          update_transaction = some (record (started_at 0) { result = txn_exec_succ });
        })
        []
    else transition channel []

-- handleChannelSettled; `nil` and an empty list of locks are one case.
unfoldable pub handle_channel_settled : NettingChannelState → ℕ → ℕ → ℕ → TransitionResult
handle_channel_settled channel height channel_id block_number =
    let settled = set_settled channel height in
    if channel_id == channel.identifier
    then elim (get_batch_unlock settled.partner_state) [
      | [] ↦ record { new_state = none; events = [] }
      | _ ∷ _ ↦
          if is_some settled.our_unlock_transaction
          then record { new_state = none; events = [] }
          else transition
              (record settled { our_unlock_transaction = some (started_at block_number) })
              (Event.contract_send_channel_batch_unlock (record {
                token_address = settled.token_address;
                token_network_id = settled.token_network_id;
                channel_id = settled.identifier;
                participant = settled.partner_state.address;
              })
                ∷ [])
    ]
    else transition channel []

-- handleChannelBatchUnlock
unfoldable pub handle_channel_batch_unlock : NettingChannelState → TransitionResult
handle_channel_batch_unlock channel =
    if is_settled (get_status channel)
    then record { new_state = none; events = [] }
    else transition channel []

-- A lookup in a map of fees; a missing key has the fee 0.
unfoldable pub fee_of : ℕ → List (ℕ × ℕ) → ℕ
fee_of token fees = elim (load token fees) [ none ↦ 0 | some fee ↦ fee ]

-- SetFeeSchedule
unfoldable pub set_fee_schedule : NettingChannelState → ℕ → ℕ → NettingChannelState
set_fee_schedule channel flat pro = record channel {
  fee_schedule = elim channel.fee_schedule [
    | none ↦
        some (record { cap_fees = false; flat = flat; proportional = pro; imbalance_penalty = [] })
    | some schedule ↦ some (record schedule { flat = flat; proportional = pro })
  ];
}

-- UpdateFeeScheduleAfterBalanceChange
unfoldable pub update_fee_schedule_after_balance_change :
    Env → NettingChannelState → MediationFeeConfig → NettingChannelState
unfolding fee_of set_fee_schedule
update_fee_schedule_after_balance_change env channel fee_config =
    set_fee_schedule channel (fee_of env.usdt_contract_address fee_config.token_to_flat_fee)
      (fee_of env.usdt_contract_address fee_config.token_to_proportional_fee)

-- handleChannelNewBalance
unfoldable pub handle_channel_new_balance :
    Env → NettingChannelState → ContractReceiveChannelNewBalance → ℕ → TransitionResult
unfolding update_fee_schedule_after_balance_change
handle_channel_new_balance env channel change block_number =
    let deposit = change.deposit_transaction in
    let order : TransactionOrder = record {
      block_height = deposit.deposit_block_height;
      transaction = deposit;
    } in
    let queued = record channel {
      deposit_transaction_queue = push channel.deposit_transaction_queue order;
    } in
    transition
      (update_fee_schedule_after_balance_change env
        (if is_transaction_confirmed env deposit.deposit_block_height block_number
          then apply_channel_new_balance channel deposit
          else queued)
        change.fee_config)
      []
