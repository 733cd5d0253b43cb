-- ===== src/Task.antt =====
-- The payment tasks (transfer/mediated_initiator.go, transfer/mediated_initiator_manager.go,
-- transfer/mediated_target.go, transfer/mediator.go): their state, from transfer/state.go, the
-- state changes that they are handed, from transfer/statechange.go, and what they return.
-- A task changes the channels that it is given in place, so its functions take them and return
-- them. The values that `common.GetMsgID` returns are arguments.
pub mod Timing
pub mod Target
pub mod Initiator
pub mod Manager
pub mod Mediator
pub mod Payment
use pylons.Base.{ℕ, List, [], ◌∷◌, Option, none, some, Bool}
use pylons.Base.Outcome.{Outcome, ok, panic}
use pylons.Common.{Env}
use pylons.State.{NettingChannelState, LockedTransferSignedState, LockedTransferUnsignedState}
use pylons.State.SyncMap.{LockMap}
use pylons.Event.{Reason, Event, SendSecretReveal}
use pylons.StateChange.{RouteState, ReceiveUnlock, ReceiveLockExpired, ReceiveTransferRefund}

-- `encrypt.Decrypt` with the node's private key, which lies outside the repository, and the
-- floating-point expressions of the mediation fee: `FeeAmount(float64(amount) * proportional
-- / 1e9)`, `FeeAmount(float64(amount) * DefaultMediationFeeLimit)`, and the comparison of
-- `float64(fee)` with `float64(amount) * DefaultMediationFeeLimit`. `range_order` is the order in
-- which `range` visits a map of routes.
pub record TaskEnv : Type 0 where
  pub env : Env
  pub decrypt : List ℕ → Option (List ℕ)
  pub proportional_fee : ℕ → ℕ → ℕ
  pub fee_limit : ℕ → ℕ
  pub within_fee_limit : ℕ → ℕ → Bool
  pub range_order : List RouteState → List RouteState

-- DecryptSecret of network/secretcrypt
unfoldable pub decrypt_secret : TaskEnv → List ℕ → Option (List ℕ)
decrypt_secret tasks enc_secret = tasks.decrypt enc_secret

-- `map[common.ChannelID]*NettingChannelState`
abbrev pub ChannelsMap : Type 0
ChannelsMap = LockMap NettingChannelState

-- TransitionResult of a task, with the channels as the task leaves them
pub record Iteration (S C : Type 0) : Type 0 where
  pub new_state : Option S
  pub channels : C
  pub events : List Event

-- A pointer is followed; nil panics.
abbrev pub deref : {A : Type 0} → Option A → Outcome Reason A
deref none = panic
deref (some a) = ok a

abbrev pub is_ok : Outcome Reason (Unit {0}) → Bool
is_ok (ok _) = Bool.true
is_ok _ = Bool.false

-- The strings that the state of a target takes.
pub data TargetStatus : Type 0 where
  unset reveal_secret onchain_secret_reveal expired : TargetStatus

-- TargetTransferState
pub record TargetTransferState : Type 0 where
  pub route : RouteState
  pub transfer : LockedTransferSignedState
  pub secret : Option (List ℕ)
  pub state : TargetStatus

-- TransferDescriptionWithSecretState
pub record TransferDescriptionWithSecretState : Type 0 where
  pub payment_network_id : ℕ
  pub payment_id : ℕ
  pub amount : ℕ  -- uint64
  pub token_network_id : ℕ
  pub initiator : ℕ
  pub target : ℕ
  pub secret : List ℕ
  pub enc_secret : List ℕ
  pub secret_hash : ℕ

-- InitiatorTransferState
pub record InitiatorTransferState : Type 0 where
  pub transfer_description : TransferDescriptionWithSecretState
  pub channel_id : ℕ
  pub transfer : LockedTransferUnsignedState
  pub reveal_secret : Option SendSecretReveal
  pub received_secret_request : Bool

-- InitiatorPaymentState
pub record InitiatorPaymentState : Type 0 where
  pub initiator : Option InitiatorTransferState
  pub cancelled_channels : List ℕ

-- ActionInitInitiator
pub record ActionInitInitiator : Type 0 where
  pub transfer_description : TransferDescriptionWithSecretState
  pub routes : List RouteState

-- ActionInitMediator
pub record ActionInitMediator : Type 0 where
  pub routes : List RouteState
  pub from_route : RouteState
  pub from_transfer : LockedTransferSignedState

-- ActionInitTarget
pub record ActionInitTarget : Type 0 where
  pub route : RouteState
  pub transfer : LockedTransferSignedState

-- ReceiveSecretRequest
pub record ReceiveSecretRequest : Type 0 where
  pub payment_id : ℕ
  pub amount : ℕ  -- uint64
  pub expiration : ℕ
  pub secret_hash : ℕ
  pub sender : ℕ
  pub message_id : ℕ

-- ReceiveSecretReveal
pub record ReceiveSecretReveal : Type 0 where
  pub secret : List ℕ
  pub sender : ℕ
  pub message_id : ℕ

-- ContractReceiveSecretReveal
pub record ContractReceiveSecretReveal : Type 0 where
  pub block_height : ℕ  -- uint32
  pub secret_hash : ℕ
  pub secret : List ℕ

-- ReceiveTransferRefundCancelRoute
pub record ReceiveTransferRefundCancelRoute : Type 0 where
  pub transfer : LockedTransferSignedState
  pub routes : List RouteState
  pub secret_hash : ℕ
  pub secret : List ℕ

-- The state changes that the transition functions of the tasks dispatch on; of ActionCancelRoute
-- the routes are read, of ActionCancelPayment nothing.
pub data TaskStateChange : Type 0 where
  block : (block_height : ℕ) → TaskStateChange
  action_init_initiator : ActionInitInitiator → TaskStateChange
  action_init_mediator : ActionInitMediator → TaskStateChange
  action_init_target : ActionInitTarget → TaskStateChange
  action_cancel_route : (routes : List RouteState) → TaskStateChange
  action_cancel_payment : TaskStateChange
  receive_secret_request : ReceiveSecretRequest → TaskStateChange
  receive_secret_reveal : ReceiveSecretReveal → TaskStateChange
  contract_receive_secret_reveal : ContractReceiveSecretReveal → TaskStateChange
  receive_unlock : ReceiveUnlock → TaskStateChange
  receive_lock_expired : ReceiveLockExpired → TaskStateChange
  receive_transfer_refund : ReceiveTransferRefund → TaskStateChange
  receive_transfer_refund_cancel_route : ReceiveTransferRefundCancelRoute → TaskStateChange
  other : TaskStateChange
