-- ===== src/StateChange.antt =====
-- transfer/statechange.go: the state changes that `StateTransitionForChannel` dispatches on and
-- those that the payment tasks hand to the channel.
use pylons.Base.{ℕ, List}
use pylons.Common.{MediationFeeConfig}
use pylons.State.{BalanceProofSignedState, LockedTransferSignedState, TransactionChannelNewBalance}

-- ActionTransferDirect
pub record ActionTransferDirect : Type 0 where
  pub token_network_id : ℕ
  pub receiver_address : ℕ
  pub payment_id : ℕ
  pub amount : ℕ  -- uint64

-- ActionWithdraw
pub record ActionWithdraw : Type 0 where
  pub token_network_id : ℕ
  pub channel_id : ℕ
  pub participant : ℕ
  pub partner : ℕ
  pub total_withdraw : ℕ  -- uint64

-- ReceiveWithdrawRequest
pub record ReceiveWithdrawRequest : Type 0 where
  pub token_network_id : ℕ
  pub message_id : ℕ
  pub channel_id : ℕ
  pub participant : ℕ
  pub total_withdraw : ℕ  -- uint64
  pub participant_signature : List ℕ
  pub participant_address : ℕ
  pub participant_public_key : List ℕ

-- ReceiveWithdraw
pub record ReceiveWithdraw : Type 0 where
  pub request : ReceiveWithdrawRequest
  pub open request use *
  pub partner_signature : List ℕ
  pub partner_address : ℕ
  pub partner_public_key : List ℕ

-- ContractReceiveChannelWithdraw
pub record ContractReceiveChannelWithdraw : Type 0 where
  pub token_network_id : ℕ
  pub channel_id : ℕ
  pub participant : ℕ
  pub total_withdraw : ℕ  -- uint64

-- ActionCooperativeSettle
pub record ActionCooperativeSettle : Type 0 where
  pub token_network_id : ℕ
  pub channel_id : ℕ

-- ReceiveCooperativeSettleRequest
pub record ReceiveCooperativeSettleRequest : Type 0 where
  pub token_network_id : ℕ
  pub message_id : ℕ
  pub channel_id : ℕ
  pub participant1 : ℕ
  pub participant1_balance : ℕ  -- uint64
  pub participant2 : ℕ
  pub participant2_balance : ℕ  -- uint64
  pub participant1_signature : List ℕ
  pub participant1_address : ℕ
  pub participant1_public_key : List ℕ

-- ReceiveCooperativeSettle
pub record ReceiveCooperativeSettle : Type 0 where
  pub token_network_id : ℕ
  pub message_id : ℕ
  pub channel_id : ℕ
  pub participant1 : ℕ
  pub participant1_balance : ℕ  -- uint64
  pub participant2 : ℕ
  pub participant2_balance : ℕ  -- uint64
  pub participant1_signature : List ℕ
  pub participant1_address : ℕ
  pub participant1_public_key : List ℕ
  pub participant2_signature : List ℕ
  pub participant2_address : ℕ
  pub participant2_public_key : List ℕ

-- ContractReceiveChannelClosed
pub record ContractReceiveChannelClosed : Type 0 where
  pub block_height : ℕ  -- uint32
  pub transaction_from : ℕ
  pub token_network_id : ℕ
  pub channel_id : ℕ

-- ContractReceiveChannelNewBalance
pub record ContractReceiveChannelNewBalance : Type 0 where
  pub token_network_id : ℕ
  pub channel_id : ℕ
  pub deposit_transaction : TransactionChannelNewBalance
  pub fee_config : MediationFeeConfig

-- ReceiveTransferDirect
pub record ReceiveTransferDirect : Type 0 where
  pub token_network_id : ℕ
  pub message_id : ℕ
  pub payment_id : ℕ
  pub balance_proof : BalanceProofSignedState

-- ReceiveUnlock
pub record ReceiveUnlock : Type 0 where
  pub message_id : ℕ
  pub secret : List ℕ
  pub secret_hash : ℕ
  pub balance_proof : BalanceProofSignedState

-- ReceiveLockExpired
pub record ReceiveLockExpired : Type 0 where
  pub balance_proof : BalanceProofSignedState
  pub secret_hash : ℕ
  pub message_id : ℕ

-- RouteState
pub record RouteState : Type 0 where
  pub node_address : ℕ
  pub channel_id : ℕ

-- ReceiveTransferRefund
pub record ReceiveTransferRefund : Type 0 where
  pub transfer : LockedTransferSignedState
  pub routes : List RouteState

-- The state changes of `StateTransitionForChannel`. Of the short ones the fields stand here:
-- those of Block, ActionChannelClose, ContractReceiveUpdateTransfer,
-- ContractReceiveChannelSettled, ContractReceiveChannelCooperativeSettled and
-- ContractReceiveChannelBatchUnlock that the channel reads.
pub data StateChange : Type 0 where
  block : (block_height : ℕ) → StateChange
  action_channel_close : (channel_id : ℕ) → StateChange
  action_transfer_direct : ActionTransferDirect → StateChange
  contract_receive_channel_closed : ContractReceiveChannelClosed → StateChange
  contract_receive_update_transfer : (channel_id : ℕ) → StateChange
  contract_receive_channel_settled : (block_height channel_id : ℕ) → StateChange
  contract_receive_channel_new_balance : ContractReceiveChannelNewBalance → StateChange
  receive_transfer_direct : ReceiveTransferDirect → StateChange
  action_withdraw : ActionWithdraw → StateChange
  receive_withdraw_request : ReceiveWithdrawRequest → StateChange
  receive_withdraw : ReceiveWithdraw → StateChange
  contract_receive_channel_withdraw : ContractReceiveChannelWithdraw → StateChange
  action_cooperative_settle : ActionCooperativeSettle → StateChange
  receive_cooperative_settle_request : ReceiveCooperativeSettleRequest → StateChange
  receive_cooperative_settle : ReceiveCooperativeSettle → StateChange
  contract_receive_channel_cooperative_settled : (block_height channel_id : ℕ) → StateChange
  contract_receive_channel_batch_unlock : StateChange
  other : StateChange
