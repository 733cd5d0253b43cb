-- ===== src/Task/Mediator/Handlers.antt =====
-- transfer/mediator.go: the handlers of the state changes of a mediator.
use pylons.Base.{ℕ, List, [], ◌∷◌, ◌++◌, none, some, not, ◌&&◌, ◌==◌, if◌then◌else◌, is_some}
use pylons.Base.Outcome.{Outcome, ok, err, panic, ◌>>=◌}
use pylons.State.SyncMap.{load, store}
use pylons.Event.{Reason, Event, event_unlock_claim_success}
use pylons.StateChange.{ReceiveUnlock, ReceiveTransferRefund}
use pylons.Channel.Locks.{transfer_expired}
use pylons.Channel.Receive.{handle_receive_locked_transfer, handle_unlock}
use pylons.Channel.Result.{processed}
use pylons.Task.{
  TaskEnv, ChannelsMap, deref, ActionInitMediator, ReceiveSecretReveal, ContractReceiveSecretReveal,
}
use pylons.Task.Timing.{is_valid_secret_reveal}
use pylons.Task.Mediator.{
  MediationPairState, MediatorTransferState, MediatorIteration, payer_balance_proof, payer_id,
  last_pair,
}
use pylons.Task.Mediator.Forward.{mediate_transfer}
use pylons.Task.Mediator.Secrets.{Paired, set_on_chain_secret, events_for_balance_proof}
use pylons.Task.Mediator.Register.{events_for_on_chain_secret_reveal_if_dangerzone, secret_learned}
use pylons.Task.Mediator.Expiry.{events_for_expired_pairs, events_to_remove_expired_locks}

-- The state and the channels as they were, and no events
abbrev pub unchanged : MediatorTransferState → ChannelsMap → MediatorIteration
unchanged state channels = record { new_state = some state; channels = channels; events = [] }

abbrev no_task : ChannelsMap → List Event → MediatorIteration
no_task channels events = record { new_state = none; channels = channels; events = events }

-- The state of a new task
unfoldable pub new_mediator : ℕ → MediatorTransferState
new_mediator secret_hash = record {
  secret_hash = secret_hash;
  secret = none;
  transfers_pair = [];
  waiting_transfer = none;
}

-- An error whose caller goes on with the nil result
abbrev must : {A : Type 0} → Outcome Reason A → Outcome Reason A
must (ok a) = ok a
must (err _) = panic
must panic = panic

module _ (tasks : TaskEnv) where
  -- HandleInitMediator; it goes on with the nil iteration of an error of mediateTransfer.
  unfoldable pub handle_init_mediator :
      ActionInitMediator → ChannelsMap → ℕ → ℕ → Outcome Reason MediatorIteration
  unfolding new_mediator
  handle_init_mediator init channels block_number message_id =
      let transfer = init.from_transfer in
      let key = init.from_route.channel_id in
      elim (load key channels) [
        | none ↦ ok (no_task channels [])
        | some payer ↦ do
          received ← handle_receive_locked_transfer tasks.env payer transfer
          let (payer', events, error) = received
          let channels' = store key payer' channels
          elim error [
            | some _ ↦ ok (no_task channels' events)
            | none ↦ do
              iteration ← must (
                  mediate_transfer tasks (new_mediator transfer.lock.secret_hash) init.routes key
                    channels' transfer block_number message_id)
              ok (record {
                new_state = iteration.new_state;
                channels = iteration.channels;
                events = events ++ iteration.events;
              })
          ]
      ]

  -- MdHandleBlock
  unfoldable pub md_handle_block :
      MediatorTransferState → ℕ → ChannelsMap → (ℕ → ℕ) → Outcome Reason MediatorIteration
  md_handle_block state height channels ids = do
    removed ←
        events_to_remove_expired_locks tasks.env channels state.transfers_pair state.secret_hash
          height ids
    let revealed =
        events_for_on_chain_secret_reveal_if_dangerzone removed.channels state.secret_hash
          removed.pairs height
    let (pairs, waiting, failed) =
        events_for_expired_pairs tasks.env removed.channels revealed.0 state.waiting_transfer height
    ok (record {
      new_state = some (record state { transfers_pair = pairs; waiting_transfer = waiting });
      channels = removed.channels;
      events = failed ++ revealed.1 ++ removed.events;
    })

  -- MdHandleRefundTransfer; it returns when the channel is found, and follows the nil pointer to
  -- it in handleRefundTransfer otherwise.
  unfoldable pub md_handle_refund_transfer :
      MediatorTransferState → ReceiveTransferRefund → ChannelsMap → Outcome Reason MediatorIteration
  md_handle_refund_transfer state refund channels =
      if is_some state.secret then ok (unchanged state channels) else do
        pair ← deref (last_pair state.transfers_pair)
        elim (load refund.transfer.balance_proof.channel_id channels) [
          | some _ ↦ ok (unchanged state channels)
          | none ↦ panic
        ]

  -- handleOffChainSecretReveal
  unfoldable pub handle_off_chain_secret_reveal :
      MediatorTransferState
      → ReceiveSecretReveal
      → ChannelsMap
      → ℕ
      → (ℕ → ℕ)
      → Outcome Reason MediatorIteration
  unfolding secret_learned
  handle_off_chain_secret_reveal state reveal channels block_number ids = do
    pair ← deref (last_pair state.transfers_pair)
    elim (load (payer_id pair) channels) [
      | none ↦ ok (unchanged state channels)
      | some payer ↦
          if not (is_some state.secret)
            && (is_valid_secret_reveal tasks.env reveal.secret state.secret_hash reveal.secret
                && not (transfer_expired tasks.env pair.payer_transfer payer block_number))
          then (do
            iteration ←
                secret_learned tasks.env state channels block_number reveal.secret
                  (tasks.env.digest reveal.secret) reveal.sender ids
            ok (record iteration {
              events = iteration.events ++ processed reveal.sender reveal.message_id ∷ [];
            }))
          else ok (unchanged state channels)
    ]

  -- handleOnChainSecretReveal; the height is that of the event.
  unfoldable pub handle_on_chain_secret_reveal :
      MediatorTransferState
      → ContractReceiveSecretReveal
      → ChannelsMap
      → (ℕ → ℕ)
      → Outcome Reason MediatorIteration
  handle_on_chain_secret_reveal state reveal channels ids =
      if is_valid_secret_reveal tasks.env reveal.secret state.secret_hash reveal.secret
      then (do
        let (learned, registered, unexpected) =
            set_on_chain_secret state channels reveal.secret reveal.secret_hash reveal.block_height
        unlocked ←
            events_for_balance_proof tasks.env registered learned.transfers_pair reveal.block_height
              reveal.secret reveal.secret_hash ids
        ok (record {
          new_state = some (record learned { transfers_pair = unlocked.pairs });
          channels = unlocked.channels;
          events = unexpected ++ unlocked.events;
        }))
      else ok (unchanged state channels)

  -- The round of handleUnlock for a pair whose payer sent the unlock
  unfoldable pub unlock_from_payer :
      ReceiveUnlock
      → MediationPairState
      → ChannelsMap
      → Outcome Reason (MediationPairState × ChannelsMap × List Event)
  unlock_from_payer unlock pair channels =
      let key = unlock.balance_proof.channel_id in
      elim (load key channels) [
        | none ↦ ok (pair, channels, [])
        | some channel ↦ do
          handled ← handle_unlock tasks.env channel unlock
          let (channel', events, error) = handled
          let channels' = store key channel' channels
          elim error [
            | some _ ↦ ok (pair, channels', events)
            | none ↦ ok (
              record pair { payer_state = payer_balance_proof },
              channels',
              events
                  ++ event_unlock_claim_success pair.payee_transfer.payment_id
                      pair.payee_transfer.lock.secret_hash
                    ∷ [],
            )
          ]
      ]

  -- The loop of handleUnlock
  unfoldable pub unlock_from_payers :
      ReceiveUnlock → List MediationPairState → ChannelsMap → Outcome Reason Paired
  unfolding unlock_from_payer
  unlock_from_payers unlock [] channels =
      ok (record { pairs = []; channels = channels; events = [] })
  unlock_from_payers unlock (pair ∷ pairs) channels = do
    (pair', channels', events) ←
        if pair.payer_transfer.balance_proof.sender == unlock.balance_proof.sender
        then unlock_from_payer unlock pair channels
        else ok (pair, channels, [])
    rest ← unlock_from_payers unlock pairs channels'
    ok (record {
      pairs = pair' ∷ rest.pairs;
      channels = rest.channels;
      events = events ++ rest.events;
    })

  -- handleUnlock
  unfoldable pub md_handle_unlock :
      MediatorTransferState → ReceiveUnlock → ChannelsMap → Outcome Reason MediatorIteration
  unfolding unlock_from_payers
  md_handle_unlock state unlock channels = do
    done ← unlock_from_payers unlock state.transfers_pair channels
    ok (record {
      new_state = some (record state { transfers_pair = done.pairs });
      channels = done.channels;
      events = done.events;
    })
