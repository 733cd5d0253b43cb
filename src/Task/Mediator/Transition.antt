-- ===== src/Task/Mediator/Transition.antt =====
-- transfer/mediator.go: expired locks of a payer, the end of a task, and the transition function.
use pylons.Base.{
  ℕ, List, [], ◌∷◌, ◌++◌, Option, none, some, Bool, true, false, not, ◌&&◌, ◌||◌, ◌==◌,
  if◌then◌else◌, is_some, reverse,
}
use pylons.Base.Outcome.{Outcome, ok, err, ◌>>=◌, ◌>>◌, check}
use pylons.State.{NettingChannelState, NettingChannelEndState}
use pylons.State.SyncMap.{load, store}
use pylons.Event
use pylons.Event.{Reason, Event}
use pylons.StateChange.{ReceiveLockExpired}
use pylons.Channel.Locks.{get_lock, is_lock_pending}
use pylons.Channel.Receive.{handle_receive_lock_expired}
use pylons.Task.{TaskEnv, ChannelsMap, deref, TaskStateChange}
use pylons.Task.Mediator.{
  MediationPairState, MediatorTransferState, MediatorIteration, payer_expired, payer_id, last_pair,
  is_payee_paid, is_payer_paid, get_payer_channel, get_payee_channel,
  md_is_send_transfer_almost_equal,
}
use pylons.Task.Mediator.Secrets.{Paired}
use pylons.Task.Mediator.Handlers.{
  unchanged, handle_init_mediator, md_handle_block, md_handle_refund_transfer,
  handle_off_chain_secret_reveal, handle_on_chain_secret_reveal, md_handle_unlock,
}

-- SanityCheck: whether some transfer is paid
unfoldable pub any_paid : List MediationPairState → Bool
any_paid [] = false
any_paid (pair ∷ pairs) =
    is_payee_paid pair.payee_state || is_payer_paid pair.payer_state || any_paid pairs

-- SanityCheck: the transfers of each pair
unfoldable pub all_almost_equal : List MediationPairState → Bool
all_almost_equal [] = true
all_almost_equal (pair ∷ pairs) =
    md_is_send_transfer_almost_equal pair.payee_transfer pair.payer_transfer
    && all_almost_equal pairs

-- SanityCheck: the pairs from the last to the first, against those from the first to the last
unfoldable pub refunds_match :
    List MediationPairState → List MediationPairState → Outcome Reason (Unit {0})
refunds_match (original ∷ originals) (refund ∷ refunds) = do
  check (original.payee_address == refund.payer_transfer.initiator)
      Event.payee_is_not_the_refund_payer
  check (md_is_send_transfer_almost_equal original.payee_transfer refund.payer_transfer)
      Event.transfers_are_not_almost_equal
  refunds_match originals refunds
refunds_match _ _ = ok tt

-- SanityCheck; that the states are valid is in their types.
unfoldable pub sanity_check : MediatorTransferState → Outcome Reason (Unit {0})
unfolding any_paid all_almost_equal refunds_match
sanity_check state = do
  let pairs = state.transfers_pair
  check (not (any_paid pairs && state.secret_hash == 0)) Event.state_secret_hash_is_nil
  check
      (elim pairs [
        | [] ↦ true
        | pair ∷ _ ↦ state.secret_hash == pair.payer_transfer.lock.secret_hash
      ])
      Event.first_pair_has_another_secret_hash
  check (all_almost_equal pairs) Event.transfers_are_not_almost_equal
  refunds_match (reverse pairs) pairs
  elim state.waiting_transfer [
    | none ↦ ok tt
    | some waiting ↦ elim (last_pair pairs) [
      | none ↦ ok tt
      | some pair ↦
          check (md_is_send_transfer_almost_equal pair.payee_transfer waiting.transfer)
            Event.transfers_are_not_almost_equal
    ]
  ]

-- Whether an end of a channel of the map has the lock
unfoldable pub pending_in :
    Option NettingChannelState → (NettingChannelState → NettingChannelEndState) → ℕ → Bool
pending_in none end secret_hash = false
pending_in (some channel) end secret_hash = is_lock_pending (end channel) secret_hash

-- The loop of clearIfFinalized
unfoldable pub any_lock_pending : ChannelsMap → List MediationPairState → ℕ → Bool
unfolding pending_in get_payer_channel get_payee_channel
any_lock_pending channels [] secret_hash = false
any_lock_pending channels (pair ∷ pairs) secret_hash =
    pending_in (get_payer_channel channels pair) (λ c. c.partner_state) secret_hash
    || pending_in (get_payee_channel channels pair) (λ c. c.our_state) secret_hash
    || any_lock_pending channels pairs secret_hash

-- Whether a lock of the task is still in a Merkle tree
unfoldable pub is_unfinished : ChannelsMap → MediatorTransferState → Bool
unfolding any_lock_pending pending_in
is_unfinished channels state =
    any_lock_pending channels state.transfers_pair state.secret_hash
    || elim state.waiting_transfer [
      | none ↦ false
      | some waiting ↦
          pending_in (load waiting.transfer.balance_proof.channel_id channels)
            (λ c. c.partner_state) state.secret_hash
    ]

-- clearIfFinalized
unfoldable pub clear_if_finalized : MediatorIteration → MediatorIteration
unfolding is_unfinished
clear_if_finalized iteration = elim iteration.new_state [
  | none ↦ iteration
  | some state ↦
      if is_unfinished iteration.channels state
      then iteration
      else record iteration { new_state = none }
]

-- What the loop of handleLockExpired leaves; `complete` is false when it returns early.
pub record Expired : Type 0 where
  pub paired : Paired
  pub complete : Bool

module _ (tasks : TaskEnv) where
  -- The loop of handleLockExpired
  unfoldable pub expire_payers :
      MediatorTransferState
      → ReceiveLockExpired
      → List MediationPairState
      → ChannelsMap
      → ℕ
      → Outcome Reason Expired
  expire_payers state message [] channels block_number =
      ok (record {
        paired = record { pairs = []; channels = channels; events = [] };
        complete = true;
      })
  expire_payers state message (pair ∷ pairs) channels block_number =
      elim (load (payer_id pair) channels) [
        | none ↦ ok (record {
          paired = record { pairs = pair ∷ pairs; channels = channels; events = [] };
          complete = false;
        })
        | some channel ↦ do
          result ← handle_receive_lock_expired tasks.env channel message block_number
          channel' ← deref result.new_state
          rest ←
              expire_payers state message pairs (store (payer_id pair) channel' channels)
                block_number
          let pair' =
              if is_some (get_lock channel'.partner_state state.secret_hash)
              then record pair { payer_state = payer_expired }
              else pair
          ok (record rest {
            paired = record {
              pairs = pair' ∷ rest.paired.pairs;
              channels = rest.paired.channels;
              events = result.events ++ rest.paired.events;
            };
          })
      ]

  -- The part of handleLockExpired about the waiting transfer
  unfoldable pub expire_waiting_channel :
      MediatorTransferState
      → ReceiveLockExpired
      → ChannelsMap
      → ℕ
      → Outcome Reason (ChannelsMap × List Event)
  expire_waiting_channel state message channels block_number = elim state.waiting_transfer [
    | none ↦ ok (channels, [])
    | some waiting ↦
        let key = waiting.transfer.balance_proof.channel_id in
        elim (load key channels) [
          | none ↦ ok (channels, [])
          | some channel ↦ do
            result ← handle_receive_lock_expired tasks.env channel message block_number
            channel' ← deref result.new_state
            ok (store key channel' channels, result.events)
        ]
  ]

  -- handleLockExpired
  unfoldable pub md_handle_lock_expired :
      MediatorTransferState
      → ReceiveLockExpired
      → ChannelsMap
      → ℕ
      → Outcome Reason MediatorIteration
  unfolding expire_payers expire_waiting_channel
  md_handle_lock_expired state message channels block_number = do
    expired ← expire_payers state message state.transfers_pair channels block_number
    let state' = record state { transfers_pair = expired.paired.pairs }
    if not expired.complete then ok (unchanged state' expired.paired.channels) else do
      waiting ← expire_waiting_channel state message expired.paired.channels block_number
      ok (record {
        new_state = some state';
        channels = waiting.0;
        events = expired.paired.events ++ waiting.1;
      })

  -- The dispatch of MdStateTransition; a nil task panics in the handlers.
  unfoldable pub md_dispatch :
      Option MediatorTransferState
      → TaskStateChange
      → ChannelsMap
      → ℕ
      → (ℕ → ℕ)
      → Outcome Reason MediatorIteration
  unfolding handle_init_mediator md_handle_block md_handle_refund_transfer
      handle_off_chain_secret_reveal handle_on_chain_secret_reveal md_handle_unlock
      md_handle_lock_expired
  md_dispatch none (TaskStateChange.action_init_mediator init) channels block_number ids =
      handle_init_mediator tasks init channels block_number (ids 0)
  md_dispatch (some state) (TaskStateChange.action_init_mediator _) channels _ _ =
      ok (unchanged state channels)
  md_dispatch state (TaskStateChange.block height) channels _ ids = do
    task ← deref state
    md_handle_block tasks task height channels ids
  md_dispatch state (TaskStateChange.receive_transfer_refund refund) channels _ _ = do
    task ← deref state
    md_handle_refund_transfer tasks task refund channels
  md_dispatch state (TaskStateChange.receive_secret_reveal reveal) channels block_number ids = do
    task ← deref state
    handle_off_chain_secret_reveal tasks task reveal channels block_number ids
  md_dispatch state (TaskStateChange.contract_receive_secret_reveal reveal) channels _ ids = do
    task ← deref state
    handle_on_chain_secret_reveal tasks task reveal channels ids
  md_dispatch state (TaskStateChange.receive_unlock unlock) channels _ _ = do
    task ← deref state
    md_handle_unlock tasks task unlock channels
  md_dispatch state (TaskStateChange.receive_lock_expired message) channels block_number _ = do
    task ← deref state
    md_handle_lock_expired task message channels block_number
  md_dispatch _ _ _ _ _ = err Event.state_change_type_error

  -- MdStateTransition; the result of its SanityCheck is not looked at.
  unfoldable pub md_state_transition :
      Option MediatorTransferState
      → TaskStateChange
      → ChannelsMap
      → ℕ
      → (ℕ → ℕ)
      → Outcome Reason MediatorIteration
  unfolding md_dispatch clear_if_finalized
  md_state_transition state change channels block_number ids = do
    iteration ← md_dispatch state change channels block_number ids
    ok (clear_if_finalized iteration)
