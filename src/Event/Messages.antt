-- ===== src/Event/Messages.antt =====
-- transfer/events.go: the messages, transactions and news that an event carries.
use pylons.Base.{ℕ, List, Option}
use pylons.State.{BalanceProofUnsignedState, BalanceProofSignedState, LockedTransferUnsignedState}
use pylons.Event.Reasons.{Reason}

-- SendMessageEvent
pub record SendMessageEvent : Type 0 where
  pub recipient : ℕ
  pub channel_id : ℕ
  pub message_id : ℕ

-- ChannelIdGlobalQueue
abbrev pub channel_id_global_queue : ℕ
channel_id_global_queue = 0

-- ContractSendChannelClose
pub record ContractSendChannelClose : Type 0 where
  pub channel_id : ℕ
  pub token_address : ℕ
  pub token_network_id : ℕ
  pub balance_proof : Option BalanceProofSignedState

-- ContractSendChannelSettle
pub record ContractSendChannelSettle : Type 0 where
  pub channel_id : ℕ
  pub token_network_id : ℕ

-- ContractSendChannelUpdateTransfer
pub record ContractSendChannelUpdateTransfer : Type 0 where
  pub expiration : ℕ
  pub channel_id : ℕ
  pub token_network_id : ℕ
  pub balance_proof : BalanceProofSignedState

-- ContractSendChannelBatchUnlock
pub record ContractSendChannelBatchUnlock : Type 0 where
  pub token_address : ℕ
  pub token_network_id : ℕ
  pub channel_id : ℕ
  pub participant : ℕ

-- EventPaymentSentFailed
pub record EventPaymentSentFailed : Type 0 where
  pub payment_network_id : ℕ
  pub token_network_id : ℕ
  pub identifier : ℕ
  pub target : ℕ
  pub reason : Reason

-- EventPaymentReceivedSuccess
pub record EventPaymentReceivedSuccess : Type 0 where
  pub payment_network_id : ℕ
  pub token_network_id : ℕ
  pub identifier : ℕ
  pub amount : ℕ
  pub initiator : ℕ

-- SendDirectTransfer
pub record SendDirectTransfer : Type 0 where
  pub message : SendMessageEvent
  pub payment_id : ℕ
  pub balance_proof : BalanceProofUnsignedState
  pub token_address : ℕ

-- SendWithdrawRequest
pub record SendWithdrawRequest : Type 0 where
  pub message : SendMessageEvent
  pub participant : ℕ
  pub token_network_id : ℕ
  pub withdraw_amount : ℕ

-- SendWithdraw
pub record SendWithdraw : Type 0 where
  pub message : SendMessageEvent
  pub participant : ℕ
  pub token_network_id : ℕ
  pub withdraw_amount : ℕ
  pub participant_signature : List ℕ
  pub participant_address : ℕ
  pub participant_public_key : List ℕ

-- ContractSendChannelWithdraw
pub record ContractSendChannelWithdraw : Type 0 where
  pub token_network_id : ℕ
  pub channel_id : ℕ
  pub participant : ℕ
  pub total_withdraw : ℕ
  pub participant_signature : List ℕ
  pub participant_address : ℕ
  pub participant_public_key : List ℕ
  pub partner_signature : List ℕ
  pub partner_address : ℕ
  pub partner_public_key : List ℕ

-- SendCooperativeSettleRequest
pub record SendCooperativeSettleRequest : Type 0 where
  pub message : SendMessageEvent
  pub token_network_id : ℕ
  pub participant1 : ℕ
  pub participant1_balance : ℕ
  pub participant2 : ℕ
  pub participant2_balance : ℕ

-- SendCooperativeSettle
pub record SendCooperativeSettle : Type 0 where
  pub message : SendMessageEvent
  pub token_network_id : ℕ
  pub participant1 : ℕ
  pub participant1_balance : ℕ
  pub participant2 : ℕ
  pub participant2_balance : ℕ
  pub participant1_signature : List ℕ
  pub participant1_address : ℕ
  pub participant1_public_key : List ℕ

-- ContractSendChannelCooperativeSettle
pub record ContractSendChannelCooperativeSettle : Type 0 where
  pub token_network_id : ℕ
  pub channel_id : ℕ
  pub participant1 : ℕ
  pub participant1_balance : ℕ
  pub participant2 : ℕ
  pub participant2_balance : ℕ
  pub participant1_signature : List ℕ
  pub participant1_address : ℕ
  pub participant1_public_key : List ℕ
  pub participant2_signature : List ℕ
  pub participant2_address : ℕ
  pub participant2_public_key : List ℕ

-- SendLockedTransfer, and SendRefundTransfer, which has the same fields
pub record SendLockedTransfer : Type 0 where
  pub message : SendMessageEvent
  pub transfer : LockedTransferUnsignedState

-- SendBalanceProof; `secret_hash` keeps its zero value
pub record SendBalanceProof : Type 0 where
  pub message : SendMessageEvent
  pub payment_id : ℕ
  pub token_address : ℕ
  pub secret : List ℕ
  pub secret_hash : ℕ
  pub balance_proof : BalanceProofUnsignedState

-- SendLockExpired
pub record SendLockExpired : Type 0 where
  pub message : SendMessageEvent
  pub balance_proof : BalanceProofUnsignedState
  pub secret_hash : ℕ

-- SendSecretReveal; `secret_hash` keeps its zero value but for the initiator's
pub record SendSecretReveal : Type 0 where
  pub message : SendMessageEvent
  pub secret : List ℕ
  pub secret_hash : ℕ

-- EventPaymentSentSuccess
pub record EventPaymentSentSuccess : Type 0 where
  pub payment_network_id : ℕ
  pub token_network_id : ℕ
  pub identifier : ℕ
  pub amount : ℕ
  pub target : ℕ
