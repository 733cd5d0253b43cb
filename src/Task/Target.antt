-- ===== src/Task/Target.antt =====
-- transfer/mediated_target.go: the task of the node that a payment is for.
pub mod Claims
use pylons.Base.{
  ℕ, List, [], ◌∷◌, ◌++◌, Option, none, some, Bool, true, false, not, ◌&&◌, ◌==◌, if◌then◌else◌,
  add32, is_some,
}
use pylons.Base.Outcome.{Outcome, ok, err, panic, ◌>>=◌}
use pylons.Common.{Env, get_hash}
use pylons.State.{NettingChannelState}
use pylons.Event
use pylons.Event.{
  Reason, Event, channel_id_global_queue, event_unlock_claim_failed, event_unlock_claim_success,
  event_payment_received_success, send_secret_reveal,
}
use pylons.StateChange.{RouteState, ReceiveUnlock, ReceiveLockExpired}
use pylons.Channel.Locks.{
  is_secret_known, is_secret_known_off_chain, is_lock_expired, transfer_expired, get_secret,
  get_lock, register_off_chain_secret, register_on_chain_secret,
}
use pylons.Channel.Receive.{
  handle_receive_locked_transfer, handle_unlock, handle_receive_lock_expired,
}
use pylons.Channel.Result.{processed}
use pylons.Task.{
  TaskEnv, decrypt_secret, Iteration, deref, is_ok, TargetStatus, unset, reveal_secret,
  onchain_secret_reveal, expired, TargetTransferState, ActionInitTarget, ReceiveSecretReveal,
  ContractReceiveSecretReveal, TaskStateChange, block, action_init_target, receive_secret_reveal,
  contract_receive_secret_reveal, receive_unlock, receive_lock_expired,
}
use pylons.Task.Timing.{md_is_safe_to_wait, events_for_on_chain_secret_reveal}

abbrev pub TargetIteration : Type 0
TargetIteration = Iteration TargetTransferState NettingChannelState

-- DefaultNumberOfBlockConfirmations
abbrev pub default_number_of_block_confirmations : ℕ
default_number_of_block_confirmations = 5

abbrev pub is_onchain_secret_reveal : TargetStatus → Bool
is_onchain_secret_reveal onchain_secret_reveal = true
is_onchain_secret_reveal _ = false

abbrev pub is_expired : TargetStatus → Bool
is_expired expired = true
is_expired _ = false

-- The secret reveal that the target sends along its route.
unfoldable pub reveal_along : RouteState → ℕ → List ℕ → Event
reveal_along route msg_id secret = send_secret_reveal (record {
  message = record {
    recipient = route.node_address;
    channel_id = route.channel_id;
    message_id = msg_id;
  };
  secret = secret;
  secret_hash = 0;
})

-- TgEventsForOnChainSecretReveal
unfoldable pub tg_events_for_on_chain_secret_reveal :
    TargetTransferState → NettingChannelState → ℕ → TargetTransferState × List Event
tg_events_for_on_chain_secret_reveal target channel block_number =
    let lock = target.transfer.lock in
    if not (is_ok (md_is_safe_to_wait lock.expiration channel.reveal_timeout block_number))
      && (is_secret_known_off_chain channel.partner_state lock.secret_hash
          && not (is_onchain_secret_reveal target.state))
    then (
      record target { state = onchain_secret_reveal },
      events_for_on_chain_secret_reveal channel (get_secret channel.partner_state lock.secret_hash)
          lock.expiration,
    )
    else (target, [])

-- TgHandleOnChainSecretReveal
unfoldable pub tg_handle_on_chain_secret_reveal :
    TargetTransferState → ContractReceiveSecretReveal → NettingChannelState → TargetIteration
tg_handle_on_chain_secret_reveal target reveal channel =
    if reveal.secret_hash == target.transfer.lock.secret_hash
    then record {
      new_state = some (record target { state = reveal_secret; secret = some reveal.secret });
      channels =
          register_on_chain_secret channel reveal.secret reveal.secret_hash reveal.block_height
            true;
      events = [];
    }
    else record { new_state = some target; channels = channel; events = [] }

-- TgHandleBlock
unfoldable pub tg_handle_block : TargetTransferState → NettingChannelState → ℕ → TargetIteration
unfolding tg_events_for_on_chain_secret_reveal
tg_handle_block target channel block_number =
    let transfer = target.transfer in
    let lock = transfer.lock in
    let lock_has_expired = is_ok (
      is_lock_expired channel.our_state lock block_number
        (add32 lock.expiration default_number_of_block_confirmations)) in
    if lock_has_expired && not (is_expired target.state)
    then record {
      new_state = some (record target { state = expired });
      channels = channel;
      events =
          event_unlock_claim_failed transfer.payment_id lock.secret_hash Event.lock_expired ∷ [];
    }
    else if is_secret_known channel.partner_state lock.secret_hash
    then (let revealed = tg_events_for_on_chain_secret_reveal target channel block_number in
        record { new_state = some revealed.0; channels = channel; events = revealed.1 })
    else record { new_state = some target; channels = channel; events = [] }

module _ (tasks : TaskEnv) where
  -- The end of HandleInitTarget, for an error.
  unfoldable pub claim_failed :
      ActionInitTarget → NettingChannelState → List Event → Reason → TargetIteration
  claim_failed init channel events reason = record {
    new_state = none;
    channels = channel;
    events =
        events
        ++ event_unlock_claim_failed init.transfer.payment_id init.transfer.lock.secret_hash reason
          ∷ [];
  }

  -- HandleInitTarget; an error of the inner block, whose `err` is another variable, is lost, and
  -- `err.Error()` of the outer nil panics.
  unfoldable pub handle_init_target :
      ActionInitTarget → NettingChannelState → ℕ → ℕ → Outcome Reason TargetIteration
  unfolding claim_failed decrypt_secret reveal_along
  handle_init_target init channel block_number msg_id = do
    let transfer = init.transfer
    received ← handle_receive_locked_transfer tasks.env channel transfer
    let (channel', events, error) = received
    elim error [
      | some reason ↦ ok (claim_failed init channel' events reason)
      | none ↦
          if not (
            is_ok
              (md_is_safe_to_wait transfer.lock.expiration channel'.reveal_timeout block_number))
          then ok (claim_failed init channel' events Event.not_safe_to_wait)
          else elim (decrypt_secret tasks transfer.enc_secret) [
            | none ↦ panic
            | some secret ↦
                if get_hash tasks.env secret == transfer.lock.secret_hash
                  && not (transfer_expired tasks.env transfer channel' block_number)
                then ok (record {
                  new_state = some (record {
                    route = init.route;
                    transfer = transfer;
                    secret = some secret;
                    state = reveal_secret;
                  });
                  channels = register_off_chain_secret channel' secret (get_hash tasks.env secret);
                  events = events ++ reveal_along init.route msg_id secret ∷ [];
                })
                else panic
          ]
    ]

  -- TgHandleOffChainSecretReveal
  unfoldable pub tg_handle_off_chain_secret_reveal :
      TargetTransferState → ReceiveSecretReveal → NettingChannelState → ℕ → ℕ → TargetIteration
  unfolding reveal_along
  tg_handle_off_chain_secret_reveal target reveal channel block_number msg_id =
      let secret_hash = tasks.env.digest reveal.secret in
      if secret_hash == target.transfer.lock.secret_hash
        && not (transfer_expired tasks.env target.transfer channel block_number)
      then record {
        new_state = some (record target { state = reveal_secret; secret = some reveal.secret });
        channels = register_off_chain_secret channel reveal.secret secret_hash;
        events =
            processed reveal.sender reveal.message_id
            ∷ reveal_along target.route msg_id reveal.secret
            ∷ [];
      }
      else record { new_state = some target; channels = channel; events = [] }

  -- TgHandleUnlock; the task is read after a valid unlock only.
  unfoldable pub tg_handle_unlock :
      Option TargetTransferState
      → ReceiveUnlock
      → NettingChannelState
      → Outcome Reason TargetIteration
  tg_handle_unlock state unlock channel = do
    handled ← handle_unlock tasks.env channel unlock
    let (channel', events, error) = handled
    elim error [
      | some _ ↦ ok (record { new_state = state; channels = channel'; events = events })
      | none ↦ do
        target ← deref state
        let transfer = target.transfer
        ok (record {
          new_state = none;
          channels = channel';
          events =
              events
              ++ event_payment_received_success (record {
                payment_network_id = channel'.payment_network_id;
                token_network_id = channel'.token_network_id;
                identifier = transfer.payment_id;
                amount = transfer.lock.amount;
                initiator = transfer.initiator;
              })
                ∷ event_unlock_claim_success transfer.payment_id transfer.lock.secret_hash
                ∷ [];
        })
    ]

  -- TgHandleLockExpired
  unfoldable pub tg_handle_lock_expired :
      TargetTransferState
      → ReceiveLockExpired
      → NettingChannelState
      → ℕ
      → Outcome Reason TargetIteration
  tg_handle_lock_expired target message channel block_number = do
    result ← handle_receive_lock_expired tasks.env channel message block_number
    channel' ← deref result.new_state
    let transfer = target.transfer
    if is_some (get_lock channel'.partner_state transfer.lock.secret_hash)
        then ok (record {
          new_state = none;
          channels = channel';
          events =
              result.events
              ++ event_unlock_claim_failed transfer.payment_id transfer.lock.secret_hash
                  Event.lock_expired
                ∷ [];
        })
        else ok (record { new_state = some target; channels = channel'; events = result.events })

  -- TgStateTransition; `none` is the nil iteration, and a nil task panics in the handlers.
  unfoldable pub tg_state_transition :
      Option TargetTransferState
      → TaskStateChange
      → NettingChannelState
      → ℕ
      → ℕ
      → Outcome Reason (Option TargetIteration)
  unfolding handle_init_target tg_handle_block tg_handle_off_chain_secret_reveal
      tg_handle_on_chain_secret_reveal tg_handle_unlock tg_handle_lock_expired
  tg_state_transition none (action_init_target init) channel block_number msg_id = do
    iteration ← handle_init_target init channel block_number msg_id
    ok (some iteration)
  tg_state_transition (some _) (action_init_target _) _ _ _ = ok none
  tg_state_transition state (block block_height) channel _ _ = do
    target ← deref state
    ok (some (tg_handle_block target channel block_height))
  tg_state_transition state (receive_secret_reveal reveal) channel block_number msg_id = do
    target ← deref state
    ok (some (tg_handle_off_chain_secret_reveal target reveal channel block_number msg_id))
  tg_state_transition state (contract_receive_secret_reveal reveal) channel _ _ = do
    target ← deref state
    ok (some (tg_handle_on_chain_secret_reveal target reveal channel))
  tg_state_transition state (receive_unlock unlock) channel _ _ = do
    iteration ← tg_handle_unlock state unlock channel
    ok (some iteration)
  tg_state_transition state (receive_lock_expired message) channel block_number _ = do
    target ← deref state
    iteration ← tg_handle_lock_expired target message channel block_number
    ok (some iteration)
  tg_state_transition _ _ _ _ _ = ok none
