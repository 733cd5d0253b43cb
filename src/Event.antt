-- ===== src/Event.antt =====
-- transfer/events.go and transfer/architecture.go: the events that the channel core and the
-- payment tasks return.
pub mod Reasons
pub mod Messages
pub use Reasons.*
pub use Messages.*
use pylons.Base.{ℕ, List, Option}

-- The events; the short ones list their fields here. The balance proof of an unlock may be a nil
-- pointer, which its sender appends as it is.
pub data Event : Type 0 where
  contract_send_channel_close : ContractSendChannelClose → Event
  contract_send_channel_settle : ContractSendChannelSettle → Event
  contract_send_channel_update_transfer : ContractSendChannelUpdateTransfer → Event
  contract_send_channel_batch_unlock : ContractSendChannelBatchUnlock → Event
  event_payment_sent_failed : EventPaymentSentFailed → Event
  event_payment_received_success : EventPaymentReceivedSuccess → Event
  event_transfer_received_invalid_direct_transfer : (identifier : ℕ) (reason : Reason) → Event
  send_direct_transfer : SendDirectTransfer → Event
  event_invalid_received_unlock : (secret_hash : ℕ) (reason : Reason) → Event
  send_processed : SendMessageEvent → Event
  send_withdraw_request : SendWithdrawRequest → Event
  send_withdraw : SendWithdraw → Event
  contract_send_channel_withdraw : ContractSendChannelWithdraw → Event
  event_withdraw_request_sent_failed :
      (token_network_id channel_id withdraw_amount : ℕ) (reason : Reason) → Event
  event_invalid_received_withdraw_request :
      (channel_id participant total_withdraw : ℕ) (reason : Reason) → Event
  event_invalid_received_withdraw :
      (token_network_id channel_id participant total_withdraw : ℕ) (reason : Reason) → Event
  event_withdraw_request_timeout : (token_network_id channel_id : ℕ) → Event
  send_cooperative_settle_request : SendCooperativeSettleRequest → Event
  send_cooperative_settle : SendCooperativeSettle → Event
  contract_send_channel_cooperative_settle : ContractSendChannelCooperativeSettle → Event
  event_cooperative_settle_request_sent_failed :
      (token_network_id channel_id : ℕ) (reason : Reason) → Event
  event_invalid_received_cooperative_settle_request :
      (token_network_id channel_id : ℕ) (reason : Reason) → Event
  event_invalid_received_cooperative_settle :
      (token_network_id channel_id : ℕ) (reason : Reason) → Event
  event_invalid_received_transfer_refund : (payment_id : ℕ) (reason : Reason) → Event
  event_invalid_received_lock_expired : (secret_hash : ℕ) (reason : Reason) → Event
  event_invalid_received_locked_transfer : (payment_id : ℕ) (reason : Reason) → Event
  send_lock_expired : SendLockExpired → Event
  send_locked_transfer : SendLockedTransfer → Event
  send_refund_transfer : SendLockedTransfer → Event
  send_balance_proof : Option SendBalanceProof → Event
  send_secret_reveal : SendSecretReveal → Event
  contract_send_secret_reveal : (expiration : ℕ) (secret : List ℕ) → Event
  event_payment_sent_success : EventPaymentSentSuccess → Event
  event_unlock_success : (identifier secret_hash : ℕ) → Event
  event_unlock_failed : (identifier secret_hash : ℕ) (reason : Reason) → Event
  event_unlock_claim_success : (identifier secret_hash : ℕ) → Event
  event_unlock_claim_failed : (identifier secret_hash : ℕ) (reason : Reason) → Event
  event_unexpected_secret_reveal : (secret_hash : ℕ) (reason : Reason) → Event
