-- ===== src/Task/Mediator.antt =====
-- transfer/mediator.go: the task of a node that mediates a payment. It holds a pair for each time
-- that it has passed the payment on: the transfer of the payer, and the one to the payee.
-- Forward passes a transfer on or back, Secrets and Register are about the secret on its way from
-- the target and to the chain,
-- Expiry about locks that expire, Handlers and Transition about the state changes; the other
-- modules hold proofs.
pub mod Forward
pub mod Secrets
pub mod Register
pub mod Expiry
pub mod Handlers
pub mod Transition
pub mod Unlocking
pub mod Payees
pub mod Payers
pub mod Registered
pub mod Relay
pub mod Lifetime
use pylons.Base.{
  ℕ, List, [], ◌∷◌, Option, none, some, Bool, true, false, not, ◌&&◌, ◌||◌, leb, ltb, ◌==◌,
  if◌then◌else◌, sub32,
}
use pylons.State.{NettingChannelState, LockedTransferSignedState, LockedTransferUnsignedState}
use pylons.State.SyncMap.{load, store}
use pylons.Event.{Event}
use pylons.Merkle.{merkle_tree_width}
use pylons.Channel.Balance.{get_distributable, is_valid_amount}
use pylons.Channel.Status.{get_status, is_opened}
use pylons.Channel.Validity.{maximum_pending_transfers}
use pylons.Task.{ChannelsMap, Iteration}

-- VALID_PAYEE_STATES
pub data PayeeStatus : Type 0 where
  payee_pending payee_secret_revealed payee_contract_unlock payee_balance_proof payee_expired :
      PayeeStatus

-- VALID_PAYER_STATES
pub data PayerStatus : Type 0 where
  payer_pending payer_secret_revealed payer_waiting_unlock payer_waiting_secret_reveal
        payer_balance_proof payer_expired :
      PayerStatus

-- The strings of a waiting transfer: "", which it starts with, and "expired".
pub data WaitingStatus : Type 0 where
  waiting waiting_expired : WaitingStatus

-- MediationPairState
pub record MediationPairState : Type 0 where
  pub payee_address : ℕ
  pub payee_transfer : LockedTransferUnsignedState
  pub payee_state : PayeeStatus
  pub payer_transfer : LockedTransferSignedState
  pub payer_state : PayerStatus

-- WaitingTransferState
pub record WaitingTransferState : Type 0 where
  pub transfer : LockedTransferSignedState
  pub state : WaitingStatus

-- MediatorTransferState; the pairs are nil as long as there are none.
pub record MediatorTransferState : Type 0 where
  pub secret_hash : ℕ
  pub secret : Option (List ℕ)
  pub transfers_pair : List MediationPairState
  pub waiting_transfer : Option WaitingTransferState

abbrev pub MediatorIteration : Type 0
MediatorIteration = Iteration MediatorTransferState ChannelsMap

-- STATE_TRANSFER_PAID, for the payee
abbrev pub is_payee_paid : PayeeStatus → Bool
is_payee_paid payee_contract_unlock = true
is_payee_paid payee_balance_proof = true
is_payee_paid _ = false

-- STATE_TRANSFER_PAID, for the payer
abbrev pub is_payer_paid : PayerStatus → Bool
is_payer_paid payer_balance_proof = true
is_payer_paid _ = false

-- STATE_TRANSFER_FINAL
abbrev pub is_payee_final : PayeeStatus → Bool
is_payee_final payee_expired = true
is_payee_final state = is_payee_paid state

abbrev pub is_payer_final : PayerStatus → Bool
is_payer_final payer_expired = true
is_payer_final state = is_payer_paid state

-- STATE_SECRET_KNOWN
abbrev pub knows_payee : PayeeStatus → Bool
knows_payee payee_secret_revealed = true
knows_payee state = is_payee_paid state

abbrev pub knows_payer : PayerStatus → Bool
knows_payer payer_secret_revealed = true
knows_payer payer_waiting_unlock = true
knows_payer state = is_payer_paid state

abbrev pub is_payer_pending : PayerStatus → Bool
is_payer_pending payer_pending = true
is_payer_pending _ = false

abbrev pub is_waiting_secret_reveal : PayerStatus → Bool
is_waiting_secret_reveal payer_waiting_secret_reveal = true
is_waiting_secret_reveal _ = false

-- GetPendingTransferPairs takes the pairs with this test.
unfoldable pub is_pending_pair : MediationPairState → Bool
is_pending_pair pair =
    not (is_payee_final pair.payee_state) || not (is_payer_final pair.payer_state)

-- The identifiers by which GetPayerChannel and GetPayeeChannel look up the channels of a pair.
abbrev pub payer_id : MediationPairState → ℕ
payer_id pair = pair.payer_transfer.balance_proof.channel_id

abbrev pub payee_id : MediationPairState → ℕ
payee_id pair = pair.payee_transfer.balance_proof.channel_id

-- GetPayerChannel
unfoldable pub get_payer_channel : ChannelsMap → MediationPairState → Option NettingChannelState
get_payer_channel channels pair = load (payer_id pair) channels

-- GetPayeeChannel
unfoldable pub get_payee_channel : ChannelsMap → MediationPairState → Option NettingChannelState
get_payee_channel channels pair = load (payee_id pair) channels

-- A channel of the map that is changed in place; nothing happens without it.
unfoldable pub update_channel :
    ℕ → (NettingChannelState → NettingChannelState) → ChannelsMap → ChannelsMap
update_channel key change channels = elim (load key channels) [
  | none ↦ channels
  | some channel ↦ store key (change channel) channels
]

-- The last pair; without one the index -1 panics.
unfoldable pub last_pair : List MediationPairState → Option MediationPairState
last_pair [] = none
last_pair (pair ∷ []) = some pair
last_pair (pair ∷ next ∷ pairs) = last_pair (next ∷ pairs)

-- The blocks that are left to a lock
unfoldable pub lock_timeout_of : ℕ → ℕ → ℕ
lock_timeout_of expiration block_number =
    if ltb block_number expiration then sub32 expiration block_number else 0

-- MdIsChannelUsable
unfoldable pub md_is_channel_usable : NettingChannelState → ℕ → ℕ → Bool
md_is_channel_usable channel transfer_amount lock_timeout =
    not (leb lock_timeout 0)
    && (is_opened (get_status channel)
        && (not (ltb channel.settle_timeout lock_timeout)
            && (not (leb lock_timeout channel.reveal_timeout)
                && (ltb (merkle_tree_width channel.our_state.merkle_tree) maximum_pending_transfers
                    && (leb transfer_amount
                          (get_distributable channel.our_state channel.partner_state)
                        && is_valid_amount channel.our_state transfer_amount)))))

-- MdIsSendTransferAlmostEqual
unfoldable pub md_is_send_transfer_almost_equal :
    LockedTransferUnsignedState → LockedTransferSignedState → Bool
md_is_send_transfer_almost_equal send received =
    send.payment_id == received.payment_id
    && (send.token == received.token
        && (send.lock.amount == received.lock.amount
            && (send.lock.expiration == received.lock.expiration
                && (send.lock.secret_hash == received.lock.secret_hash
                    && (send.initiator == received.initiator && send.target == received.target)))))
