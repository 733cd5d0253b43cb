-- ===== src/Task/Mediator/Lifetime.antt =====
-- A mediator keeps its task as long as one of its locks is pending.
pub mod Pairs
use mathlib.Core.List.{reverse-cons}
use pylons.Base.{
  ℕ, suc, ◌+◌, List, [], ◌∷◌, ◌++◌, Option, none, some, Bool, true, false, not, ◌||◌, ◌&&◌,
  if◌then◌else◌, map, reverse, is_some, length, ◌≡◌, ◌↔◌, refl, sym, ◌∙◌, ap, arith, inl, inr,
  Bool-cases, Option-cases,
}
use pylons.Base.Outcome.{Outcome, ok, err, panic, Outcome-cases}
use pylons.Common.{Env}
use pylons.State.SyncMap.{load, store}
use pylons.Event.{Event, Reason}
use pylons.StateChange.{ReceiveUnlock, ReceiveLockExpired, ReceiveTransferRefund}
use pylons.Channel.Receive.{handle_receive_lock_expired}
use pylons.Task
use pylons.Task.{
  TaskEnv, ChannelsMap, TaskStateChange, ReceiveSecretReveal, ContractReceiveSecretReveal,
}
use pylons.Task.Mediator.{
  MediationPairState, MediatorTransferState, MediatorIteration, last_pair, payer_id, payee_id,
  get_payer_channel, get_payee_channel,
}
use pylons.Task.Mediator.Secrets.{
  Paired, should_unlock, unlock_payee, unlock_payees, reveal_to_payers, events_for_secret_reveal,
  events_for_balance_proof, set_offchain_reveal_state, reveal_state_of, set_off_chain_secret,
  set_on_chain_secret, md_has_secret_registration_started,
}
use pylons.Task.Mediator.Payees.{paid, PaidAll-of_unlocks}
use pylons.Task.Mediator.Register.{
  danger_loop, closed_loop, events_for_on_chain_secret_reveal_if_dangerzone,
  events_for_on_chain_secret_reveal_if_closed, secret_learned,
}
use pylons.Task.Mediator.Expiry.{
  expire_claims, events_for_expired_pairs, events_to_remove_expired_locks, remove_expired_lock,
  expire_waiting,
}
use pylons.Task.Mediator.Handlers.{
  md_handle_block, md_handle_refund_transfer, handle_off_chain_secret_reveal,
  handle_on_chain_secret_reveal, md_handle_unlock, unlock_from_payers, unlock_from_payer,
}
use pylons.Task.Mediator.Transition.{
  any_lock_pending, is_unfinished, pending_in, clear_if_finalized, md_handle_lock_expired,
  expire_payers, Expired, md_dispatch, md_state_transition,
}
use pylons.Task.Mediator.Lifetime.Pairs.{
  WhenOk, pending-told, pending-revealed, pending-danger, pending-claims, pending-closed,
  pending-removed, pending-unlocked, pending-expired, pending-reverse, pending-paid_back,
}

module _ (tasks : TaskEnv) (state : MediatorTransferState) (channels : ChannelsMap) where
  -- The handler's state has the same locks as the state it was given.
  abbrev Keeps : MediatorIteration → Type 0
  Keeps iteration = elim iteration.new_state [
    | none ↦ true ≡ false
    | some next ↦ is_unfinished channels next ≡ is_unfinished channels state
  ]

  Keeps-block :
      (others : ChannelsMap) (height : ℕ) (ids : ℕ → ℕ)
      → WhenOk Keeps (md_handle_block tasks state height others ids)
  unfolding md_handle_block is_unfinished events_for_on_chain_secret_reveal_if_dangerzone
      events_for_expired_pairs expire_waiting
  Keeps-block others height ids =
      let k = state.secret_hash in
      elim (Outcome-cases
        (events_to_remove_expired_locks tasks.env others state.transfers_pair k height ids)) [
          | inl (removed, e) ↦
              let sent = md_has_secret_registration_started removed.channels removed.pairs k in
              let danger = danger_loop removed.channels removed.pairs height sent in
              ground (
                arith,
                pending-removed channels k tasks.env others state.transfers_pair k height ids,
                pending-danger channels k removed.channels removed.pairs height sent,
                pending-claims channels k tasks.env removed.channels danger.0 height,
              )
          | inr (inl (reason, e)) ↦ ground arith
          | inr (inr e) ↦ ground arith
        ]

  Keeps-refund :
      (refund : ReceiveTransferRefund) (others : ChannelsMap)
      → WhenOk Keeps (md_handle_refund_transfer tasks state refund others)
  unfolding md_handle_refund_transfer
  Keeps-refund refund others = ground arith

  Keeps-unlock :
      (unlock : ReceiveUnlock) (others : ChannelsMap)
      → WhenOk Keeps (md_handle_unlock tasks state unlock others)
  unfolding md_handle_unlock is_unfinished
  Keeps-unlock unlock others =
      ground (
        arith,
        pending-unlocked channels state.secret_hash tasks unlock state.transfers_pair others,
      )

  Keeps-lock_expired :
      (message : ReceiveLockExpired) (others : ChannelsMap) (block_number : ℕ)
      → WhenOk Keeps (md_handle_lock_expired tasks state message others block_number)
  unfolding md_handle_lock_expired is_unfinished
  Keeps-lock_expired message others block_number = ground (
    arith,
    pending-expired channels state.secret_hash tasks state message state.transfers_pair others
        block_number,
  )

  Keeps-on_chain :
      (reveal : ContractReceiveSecretReveal) (others : ChannelsMap) (ids : ℕ → ℕ)
      → WhenOk Keeps (handle_on_chain_secret_reveal tasks state reveal others ids)
  unfolding handle_on_chain_secret_reveal is_unfinished set_on_chain_secret
  Keeps-on_chain reveal others ids =
      let registered =
        (set_on_chain_secret state others reveal.secret reveal.secret_hash reveal.block_height).1 in
      ground (
        arith,
        pending-paid_back channels state.secret_hash tasks.env registered state.transfers_pair
            reveal.block_height reveal.secret reveal.secret_hash ids,
      )

  Keeps-learned :
      (others : ChannelsMap) (block_number : ℕ) (secret : List ℕ) (k payee_address : ℕ)
      (ids : ℕ → ℕ)
      → WhenOk Keeps (secret_learned tasks.env state others block_number secret k payee_address ids)
  unfolding is_unfinished set_off_chain_secret secret_learned events_for_secret_reveal
      events_for_on_chain_secret_reveal_if_closed
  Keeps-learned others block_number secret k payee_address ids =
      let h = state.secret_hash in
      let registered = (set_off_chain_secret state others secret k).1 in
      let pairs = set_offchain_reveal_state state.transfers_pair payee_address in
      let sent = md_has_secret_registration_started registered pairs k in
      elim (Outcome-cases (closed_loop registered pairs secret k sent)) [
        | inl (on_chain, e) ↦
            let told = reveal_to_payers (reverse on_chain.0) secret ids in
            ground (
              arith,
              pending-revealed channels h state.transfers_pair payee_address,
              pending-closed channels h registered pairs secret k sent,
              pending-reverse channels h on_chain.0,
              pending-told channels h (reverse on_chain.0) secret ids,
              pending-paid_back channels h tasks.env registered told.0 block_number secret k
                  (λ n. ids (length pairs + n)),
            )
        | inr (inl (reason, e)) ↦ ground arith
        | inr (inr e) ↦ ground arith
      ]

  Keeps-off_chain :
      (reveal : ReceiveSecretReveal) (others : ChannelsMap) (block_number : ℕ) (ids : ℕ → ℕ)
      → WhenOk Keeps (handle_off_chain_secret_reveal tasks state reveal others block_number ids)
  unfolding handle_off_chain_secret_reveal
  Keeps-off_chain reveal others block_number ids = ground (
    arith,
    Keeps-learned others block_number reveal.secret (tasks.env.digest reveal.secret) reveal.sender
        ids,
  )

  Keeps-dispatch :
      (change : TaskStateChange) (others : ChannelsMap) (block_number : ℕ) (ids : ℕ → ℕ)
      → WhenOk Keeps (md_dispatch tasks (some state) change others block_number ids)
  unfolding md_dispatch
  Keeps-dispatch (TaskStateChange.action_init_mediator _) others block_number ids = refl
  Keeps-dispatch (TaskStateChange.block height) others block_number ids =
      Keeps-block others height ids
  Keeps-dispatch (TaskStateChange.receive_transfer_refund refund) others block_number ids =
      Keeps-refund refund others
  Keeps-dispatch (TaskStateChange.receive_secret_reveal reveal) others block_number ids =
      Keeps-off_chain reveal others block_number ids
  Keeps-dispatch (TaskStateChange.contract_receive_secret_reveal reveal) others block_number ids =
      Keeps-on_chain reveal others ids
  Keeps-dispatch (TaskStateChange.receive_unlock unlock) others block_number ids =
      Keeps-unlock unlock others
  Keeps-dispatch (TaskStateChange.receive_lock_expired message) others block_number ids =
      Keeps-lock_expired message others block_number
  Keeps-dispatch _ others block_number ids = tt

-- Whatever state change a mediator is handed, with any channels, in a run that does not fail: it
-- drops its task exactly when, in the channels as the change leaves them, none of its locks is
-- pending any more, neither one that it received from a payer, nor one that it sent to a payee, nor
-- the one of its waiting transfer.
pub task_ends_with_locks :
    (tasks : TaskEnv) (state : MediatorTransferState) (change : TaskStateChange)
    (channels : ChannelsMap) (block_number : ℕ) (ids : ℕ → ℕ) (iteration : MediatorIteration)
    → md_state_transition tasks (some state) change channels block_number ids ≡ ok iteration
    → (iteration.new_state ≡ none) ↔ (is_unfinished iteration.channels state ≡ false)
unfolding md_state_transition clear_if_finalized
task_ends_with_locks tasks state change channels block_number ids iteration h =
    elim (Outcome-cases (md_dispatch tasks (some state) change channels block_number ids)) [
      | inl (done, e) ↦
          ground (arith, Keeps-dispatch tasks state done.channels change channels block_number ids)
      | inr (inl (reason, e)) ↦ absurd (ground arith)
      | inr (inr e) ↦ absurd (ground arith)
    ]
