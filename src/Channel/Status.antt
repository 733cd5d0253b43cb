-- ===== src/Channel/Status.antt =====
-- The status of a channel (transfer/channel.go): it is read off the transactions on record.
use pylons.Base.{
  ℕ, List, [], ◌∷◌, Option, none, some, Bool, true, false, ltb, if◌then◌else◌, ◌==◌, add32, ◌++◌,
}
use pylons.Base.Sort.{sort}
use pylons.Common.{Env, block_height, address_equal}
use pylons.State.{
  NettingChannelEndState, NettingChannelState, TransactionExecutionStatus, txn_exec_none,
  txn_exec_succ, is_txn_exec_succ, TransactionOrder, TransactionChannelNewBalance,
}

-- The strings ChannelStateClosed to ChannelStateUnusable.
pub data ChannelStatus : Type 0 where
  closed closing opened settled settling unusable : ChannelStatus

abbrev pub is_opened : ChannelStatus → Bool
is_opened opened = true
is_opened _ = false

abbrev pub is_closing : ChannelStatus → Bool
is_closing closing = true
is_closing _ = false

abbrev pub is_closed : ChannelStatus → Bool
is_closed closed = true
is_closed _ = false

abbrev pub is_settling : ChannelStatus → Bool
is_settling settling = true
is_settling _ = false

abbrev pub is_settled : ChannelStatus → Bool
is_settled settled = true
is_settled _ = false

-- A transaction succeeded, is running, or neither.
unfoldable pub status_of :
    TransactionExecutionStatus → ChannelStatus → ChannelStatus → ChannelStatus
status_of t succeeded running =
    if is_txn_exec_succ t.result
    then succeeded
    else if t.finished_block_height == 0
    then running
    else unusable

-- GetStatus
unfoldable pub get_status : NettingChannelState → ChannelStatus
unfolding status_of
get_status channel = elim channel.settle_transaction [
  | some t ↦ status_of t settled settling
  | none ↦ elim channel.close_transaction [ some t ↦ status_of t closed closing | none ↦ opened ]
]

-- The execution status that setClosed and setSettled leave.
unfoldable pub finish : Option TransactionExecutionStatus → ℕ → TransactionExecutionStatus
finish none block_number = record {
  started_block_height = 0;
  finished_block_height = block_number;
  result = txn_exec_succ;
}
finish (some t) block_number =
    if t.finished_block_height == 0
    then record t { finished_block_height = block_number; result = txn_exec_succ }
    else t

-- setClosed
unfoldable pub set_closed : NettingChannelState → ℕ → NettingChannelState
unfolding finish
set_closed channel block_number = record channel {
  close_transaction = some (finish channel.close_transaction block_number);
}

-- setSettled
unfoldable pub set_settled : NettingChannelState → ℕ → NettingChannelState
unfolding finish
set_settled channel block_number = record channel {
  settle_transaction = some (finish channel.settle_transaction block_number);
}

-- A transaction that has begun at a height and has no result yet.
abbrev pub started_at : ℕ → TransactionExecutionStatus
started_at height = record {
  started_block_height = height;
  finished_block_height = 0;
  result = txn_exec_none;
}

-- updateContractBalance
unfoldable pub update_contract_balance : NettingChannelEndState → ℕ → NettingChannelEndState
update_contract_balance e contract_balance =
    if ltb e.contract_balance contract_balance
    then record e { contract_balance = contract_balance }
    else e

-- applyChannelNewBalance
unfoldable pub apply_channel_new_balance :
    NettingChannelState → TransactionChannelNewBalance → NettingChannelState
unfolding address_equal update_contract_balance
apply_channel_new_balance channel deposit =
    if address_equal deposit.participant_address channel.our_state.address
    then record channel {
      our_state = update_contract_balance channel.our_state deposit.contract_balance;
    }
    else if address_equal deposit.participant_address channel.partner_state.address
    then record channel {
      partner_state = update_contract_balance channel.partner_state deposit.contract_balance;
    }
    else channel

-- IsTransactionConfirmed
unfoldable pub is_transaction_confirmed : Env → ℕ → ℕ → Bool
is_transaction_confirmed env transaction_block_height block_chain_block_height =
    ltb (add32 transaction_block_height (block_height env.confirm_block_count))
      block_chain_block_height

-- isDepositConfirmed
unfoldable pub is_deposit_confirmed : Env → List TransactionOrder → ℕ → Bool
unfolding is_transaction_confirmed
is_deposit_confirmed env [] block_number = false
is_deposit_confirmed env (order ∷ orders) block_number =
    is_transaction_confirmed env order.block_height block_number

-- TransactionOrderHeap.Less
abbrev pub order_key : TransactionOrder → ℕ
order_key order = order.block_height

-- TransactionOrderHeap.Push
unfoldable pub push : List TransactionOrder → TransactionOrder → List TransactionOrder
push queue order = sort order_key (queue ++ order ∷ [])

-- The queue that TransactionOrderHeap.Pop leaves of one with a first element.
unfoldable pub pop_rest : List TransactionOrder → List TransactionOrder
pop_rest rest = sort order_key rest
