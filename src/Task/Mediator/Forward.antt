-- ===== src/Task/Mediator/Forward.antt =====
-- transfer/mediator.go: the choice of a route, the fee, and the transfer that is passed on to the
-- next node, or back to the payer.
use pylons.Base.{
  ℕ, List, [], ◌∷◌, ◌++◌, Option, none, some, false, not, ltb, ◌==◌, if◌then◌else◌, add64, sub64,
  map,
}
use pylons.Base.Outcome.{Outcome, ok, err, panic, ◌>>=◌, ◌>>◌, check}
use pylons.State.{NettingChannelState, FeeScheduleState, LockedTransferSignedState}
use pylons.State.SyncMap.{LockMap, load, store, delete}
use pylons.Event
use pylons.Event.{Reason, Event, SendLockedTransfer, send_locked_transfer, send_refund_transfer}
use pylons.StateChange.{RouteState}
use pylons.Channel.Send
use pylons.Channel.Send.{TransferArgs}
use pylons.Task.{TaskEnv, ChannelsMap, deref}
use pylons.Task.Mediator.{
  MediationPairState, MediatorTransferState, MediatorIteration, payee_pending, payer_pending,
  waiting, payer_id, payee_id, lock_timeout_of, md_is_channel_usable,
}

-- The map of MdFilterUsedRoutes; a later route with the same channel replaces an earlier one.
unfoldable pub routes_by_channel : List RouteState → LockMap RouteState → LockMap RouteState
routes_by_channel [] found = found
routes_by_channel (route ∷ routes) found =
    routes_by_channel routes (store route.channel_id route found)

-- The loop of MdFilterUsedRoutes that deletes the channels of the pairs.
unfoldable pub without_used : List MediationPairState → LockMap RouteState → LockMap RouteState
without_used [] found = found
without_used (pair ∷ pairs) found =
    without_used pairs (delete (payee_id pair) (delete (payer_id pair) found))

-- nextChannelFromRoutes: the key of the first channel that can be used.
unfoldable pub next_channel_from_routes : List RouteState → ChannelsMap → ℕ → ℕ → Option ℕ
next_channel_from_routes [] channels transfer_amount lock_timeout = none
next_channel_from_routes (route ∷ routes) channels transfer_amount lock_timeout =
    let rest = next_channel_from_routes routes channels transfer_amount lock_timeout in
    elim (load route.channel_id channels) [
      | none ↦ rest
      | some channel ↦
          if md_is_channel_usable channel transfer_amount lock_timeout
          then some route.channel_id
          else rest
    ]

-- GetFeeSchedule; a missing schedule is made, without fees, and kept.
unfoldable pub get_fee_schedule : NettingChannelState → FeeScheduleState
get_fee_schedule channel = elim channel.fee_schedule [
  | some schedule ↦ schedule
  | none ↦ record { cap_fees = false; flat = 0; proportional = 0; imbalance_penalty = [] }
]

-- A pair whose transfer has just been sent.
unfoldable pub new_pair :
    LockedTransferSignedState → NettingChannelState → SendLockedTransfer → MediationPairState
new_pair payer_transfer channel sent = record {
  payee_address = channel.partner_state.address;
  payee_transfer = sent.transfer;
  payee_state = payee_pending;
  payer_transfer = payer_transfer;
  payer_state = payer_pending;
}

-- What forwardTransferPair and backwardTransferPair return, with the channels.
pub record Passed : Type 0 where
  pub pair : Option MediationPairState
  pub channels : ChannelsMap
  pub events : List Event

module _ (tasks : TaskEnv) where
  -- MdFilterUsedRoutes
  unfoldable pub md_filter_used_routes : List MediationPairState → List RouteState → List RouteState
  unfolding routes_by_channel without_used
  md_filter_used_routes pairs routes =
      tasks.range_order (map (λ entry. entry.1) (without_used pairs (routes_by_channel routes [])))

  -- GetAmountWithoutFees
  unfoldable pub get_amount_without_fees : ℕ → FeeScheduleState → ℕ
  get_amount_without_fees amount_with_fees schedule =
      let fee =
        add64 schedule.flat (tasks.proportional_fee amount_with_fees schedule.proportional) in
      if tasks.within_fee_limit fee amount_with_fees
      then sub64 amount_with_fees fee
      else sub64 amount_with_fees (tasks.fee_limit amount_with_fees)

  -- The arguments that a payer's transfer gives to the one that is passed on.
  unfoldable pub passed_args : LockedTransferSignedState → ℕ → ℕ → TransferArgs
  passed_args payer_transfer amount message_id = record {
    initiator = payer_transfer.initiator;
    target = payer_transfer.target;
    amount = amount;
    message_id = message_id;
    payment_id = payer_transfer.payment_id;
    expiration = payer_transfer.lock.expiration;
    enc_secret = payer_transfer.enc_secret;
    secret_hash = payer_transfer.lock.secret_hash;
    mediators = payer_transfer.mediators;
  }

  -- forwardTransferPair's call of sendLockedTransfer and the pair that it gives.
  unfoldable pub forward_over :
      LockedTransferSignedState → ℕ → ℕ → ChannelsMap → ℕ → ℕ → Outcome Reason Passed
  unfolding new_pair passed_args
  forward_over payer_transfer amount key channels lock_timeout message_id = do
    payee ← deref (load key channels)
    check (not (ltb payee.settle_timeout lock_timeout)) Event.settle_timeout_below_lock_timeout
    check (payee.token_address == payer_transfer.token) Event.token_address_does_not_match
    sent ← Send.send_locked_transfer tasks.env payee (passed_args payer_transfer amount message_id)
    elim sent.1 [
      | none ↦ err Event.locked_transfer_event_is_nil
      | some transfer ↦ ok (record {
        pair = some (new_pair payer_transfer sent.0 transfer);
        channels = store key sent.0 channels;
        events = send_locked_transfer transfer ∷ [];
      })
    ]

  -- forwardTransferPair
  unfoldable pub forward_transfer_pair :
      LockedTransferSignedState → List RouteState → ChannelsMap → ℕ → ℕ → Outcome Reason Passed
  unfolding get_fee_schedule get_amount_without_fees forward_over next_channel_from_routes
  forward_transfer_pair payer_transfer available_routes channels block_number message_id = do
    let lock = payer_transfer.lock
    let lock_timeout = lock_timeout_of lock.expiration block_number
    let payer_key = payer_transfer.balance_proof.channel_id
    let next = next_channel_from_routes available_routes channels lock.amount lock_timeout
    payer ← deref (load payer_key channels)
    let schedule = get_fee_schedule payer
    let channels' = store payer_key (record payer { fee_schedule = some schedule }) channels
    let amount = get_amount_without_fees lock.amount schedule
    elim next [
      | none ↦ ok (record { pair = none; channels = channels'; events = [] })
      | some key ↦ forward_over payer_transfer amount key channels' lock_timeout message_id
    ]

  -- backwardTransferPair
  unfoldable pub backward_transfer_pair :
      ℕ → LockedTransferSignedState → ChannelsMap → ℕ → ℕ → Outcome Reason Passed
  unfolding new_pair passed_args
  backward_transfer_pair key payer_transfer channels block_number message_id = do
    let lock = payer_transfer.lock
    backward ← deref (load key channels)
    if md_is_channel_usable backward lock.amount (lock_timeout_of lock.expiration block_number)
        then (do
          sent ←
              Send.send_refund_transfer tasks.env backward
                (passed_args payer_transfer lock.amount message_id)
          ok (record {
            pair = some (new_pair payer_transfer sent.0 sent.1);
            channels = store key sent.0 channels;
            events = send_refund_transfer sent.1 ∷ [];
          }))
        else ok (record { pair = none; channels = channels; events = [] })

  -- The state that mediateTransfer leaves: another pair, or a waiting transfer.
  unfoldable pub after_passing :
      MediatorTransferState → LockedTransferSignedState → Passed → MediatorIteration
  after_passing state payer_transfer passed = record {
    new_state = elim passed.pair [
      | some pair ↦ some (record state { transfers_pair = state.transfers_pair ++ pair ∷ [] })
      | none ↦ some (record state {
        waiting_transfer = some (record { transfer = payer_transfer; state = waiting });
      })
    ];
    channels = passed.channels;
    events = passed.events;
  }

  -- The key of mediateTransfer's `originalChannel`
  unfoldable pub original_key : MediatorTransferState → ℕ → ℕ
  original_key state payer_key = elim state.transfers_pair [
    | [] ↦ payer_key
    | pair ∷ _ ↦ payer_id pair
  ]

  -- The attempt of mediateTransfer to pass a transfer back; the error of a refund is not looked at.
  unfoldable pub try_backward :
      ℕ → LockedTransferSignedState → ChannelsMap → ℕ → ℕ → Outcome Reason Passed
  unfolding backward_transfer_pair
  try_backward key payer_transfer channels block_number message_id = elim (load key channels) [
    | none ↦ ok (record { pair = none; channels = channels; events = [] })
    | some _ ↦ elim (backward_transfer_pair key payer_transfer channels block_number message_id) [
      | ok passed ↦ ok passed
      | err _ ↦ ok (record { pair = none; channels = channels; events = [] })
      | panic ↦ panic
    ]
  ]

  -- mediateTransfer, for the payer's channel of the given key.
  unfoldable pub mediate_transfer :
      MediatorTransferState
      → List RouteState
      → ℕ
      → ChannelsMap
      → LockedTransferSignedState
      → ℕ
      → ℕ
      → Outcome Reason MediatorIteration
  unfolding md_filter_used_routes forward_transfer_pair after_passing original_key try_backward
  mediate_transfer state possible_routes payer_key channels payer_transfer block_number message_id =
      do
        let available = md_filter_used_routes state.transfers_pair possible_routes
        payer ← deref (load payer_key channels)
        check (payer.partner_state.address == payer_transfer.balance_proof.sender)
            Event.payer_is_not_the_sender
        forward ← forward_transfer_pair payer_transfer available channels block_number message_id
        elim forward.pair [
          | some _ ↦ ok (after_passing state payer_transfer forward)
          | none ↦ do
            backward ←
                try_backward (original_key state payer_key) payer_transfer forward.channels
                  block_number message_id
            ok (after_passing state payer_transfer backward)
        ]
