-- ===== src/State.antt =====
-- The records of transfer/state.go and transfer/merkle_tree.go that the channel core keeps.
-- A pointer that may be nil is an option; a `sync.Map` is a `LockMap`, see State/SyncMap.antt.
pub mod SyncMap
use pylons.Base.{ℕ, List, [], ◌∷◌, Option, none, some, Bool, false}
use SyncMap.{LockMap}

-- MerkleTreeState
pub record MerkleTreeState : Type 0 where
  pub layers : List (List ℕ)

-- BalanceProofUnsignedState
pub record BalanceProofUnsignedState : Type 0 where
  pub nonce : ℕ  -- uint64
  pub transferred_amount : ℕ  -- uint64
  pub locked_amount : ℕ  -- uint64
  pub locks_root : ℕ
  pub balance_hash : ℕ
  pub token_network_id : ℕ
  pub channel_id : ℕ
  pub chain_id : ℕ

-- BalanceProofSignedState
pub record BalanceProofSignedState : Type 0 where
  pub nonce : ℕ  -- uint64
  pub transferred_amount : ℕ  -- uint64
  pub locked_amount : ℕ  -- uint64
  pub locks_root : ℕ
  pub balance_hash : ℕ
  pub token_network_id : ℕ
  pub channel_id : ℕ
  pub message_hash : ℕ
  pub signature : List ℕ
  pub sender : ℕ
  pub chain_id : ℕ
  pub public_key : List ℕ

-- HashTimeLockState
pub record HashTimeLockState : Type 0 where
  pub amount : ℕ  -- uint64
  pub expiration : ℕ  -- uint32
  pub secret_hash : ℕ
  pub encoded : List ℕ
  pub lock_hash : ℕ

-- UnlockPartialProofState
pub record UnlockPartialProofState : Type 0 where
  pub lock : HashTimeLockState
  pub secret : List ℕ

-- The strings that `Result` takes: "", TxnExecSucc and TxnExecFail.
pub data TxnResult : Type 0 where
  txn_exec_none txn_exec_succ txn_exec_fail : TxnResult

abbrev pub is_txn_exec_succ : TxnResult → Bool
is_txn_exec_succ txn_exec_succ = Bool.true
is_txn_exec_succ _ = false

-- TransactionExecutionStatus
pub record TransactionExecutionStatus : Type 0 where
  pub started_block_height : ℕ  -- uint32
  pub finished_block_height : ℕ  -- uint32
  pub result : TxnResult

-- NettingChannelEndState; the Merkle tree is never nil once it is made.
pub record NettingChannelEndState : Type 0 where
  pub address : ℕ
  pub contract_balance : ℕ  -- uint64
  pub total_withdraw : ℕ  -- uint64
  pub secret_hashes_to_locked_locks : LockMap HashTimeLockState
  pub secret_hashes_to_unlocked_locks : LockMap UnlockPartialProofState
  pub secret_hashes_to_on_chain_unlocked_locks : LockMap UnlockPartialProofState
  pub merkle_tree : MerkleTreeState
  pub balance_proof : Option BalanceProofSignedState

-- FeeScheduleState
pub record FeeScheduleState : Type 0 where
  pub cap_fees : Bool
  pub flat : ℕ
  pub proportional : ℕ
  pub imbalance_penalty : List (List (ℕ × ℕ))

-- TransactionChannelNewBalance
pub record TransactionChannelNewBalance : Type 0 where
  pub participant_address : ℕ
  pub contract_balance : ℕ  -- uint64
  pub deposit_block_height : ℕ  -- uint32

-- TransactionOrder
pub record TransactionOrder : Type 0 where
  pub block_height : ℕ  -- uint32
  pub transaction : TransactionChannelNewBalance

-- NettingChannelState
pub record NettingChannelState : Type 0 where
  pub identifier : ℕ
  pub chain_id : ℕ
  pub token_address : ℕ
  pub payment_network_id : ℕ
  pub token_network_id : ℕ
  pub reveal_timeout : ℕ
  pub settle_timeout : ℕ
  pub fee_schedule : Option FeeScheduleState
  pub our_state : NettingChannelEndState
  pub partner_state : NettingChannelEndState
  pub deposit_transaction_queue : List TransactionOrder
  pub open_transaction : Option TransactionExecutionStatus
  pub close_transaction : Option TransactionExecutionStatus
  pub settle_transaction : Option TransactionExecutionStatus
  pub update_transaction : Option TransactionExecutionStatus
  pub our_unlock_transaction : Option TransactionExecutionStatus
  pub withdraw_transaction : Option TransactionExecutionStatus

-- LockedTransferUnsignedState
pub record LockedTransferUnsignedState : Type 0 where
  pub payment_id : ℕ
  pub token : ℕ
  pub balance_proof : BalanceProofUnsignedState
  pub lock : HashTimeLockState
  pub initiator : ℕ
  pub target : ℕ
  pub enc_secret : List ℕ
  pub mediators : List ℕ

-- LockedTransferSignedState
pub record LockedTransferSignedState : Type 0 where
  pub message_id : ℕ
  pub payment_id : ℕ
  pub token : ℕ
  pub balance_proof : BalanceProofSignedState
  pub lock : HashTimeLockState
  pub initiator : ℕ
  pub target : ℕ
  pub enc_secret : List ℕ
  pub mediators : List ℕ
