-- ===== src/Examples/Mediation.antt =====
-- A mediator between the example channels, and a refund to an initiator.
use pylons.Task.Timing.{events_for_on_chain_secret_reveal}
use pylons.Channel.Locks.{transfer_expired}
use pylons.Channel.Locks.{is_secret_known}
use pylons.Task.Mediator.{is_pending_pair}
use pylons.Task.Mediator.Register.{events_for_on_chain_secret_reveal_if_dangerzone}
use pylons.Task.Mediator.Expiry.{events_for_expired_pairs}
use pylons.Channel.Send.{fake_signed}
use pylons.Channel.Validity.{valid_locked_transfer_check, is_balance_proof_usable_on_chain}
use pylons.Channel.Packing.{is_valid_balance_proof_signature}
use pylons.Channel.Balance.{get_next_nonce, get_current_balance_proof}
use pylons.Merkle.{compute_layers}
use pylons.Base.Sort.{sort}
use pylons.Channel.Receive.{refund_transfer_matches_received}
use pylons.Channel.Locks.{is_lock_expired}
use pylons.Task.Mediator.Expiry.{events_to_remove_expired_locks}
use pylons.Merkle.{compute_merkle_tree_with}
use pylons.Channel.Send.{create_send_locked_transfer}
use pylons.Channel.Send.{send_locked_transfer}
use pylons.Channel.Balance.{is_valid_amount}
use pylons.Channel.Balance.{get_amount_locked}
use pylons.Channel.Balance.{get_balance}
use pylons.Channel.Balance.{get_distributable}
use pylons.Merkle.{merkle_tree_width}
use pylons.Task.Mediator.{lock_timeout_of}
use pylons.Task.Mediator.{md_is_channel_usable}
use pylons.Channel.Locks.{is_secret_known_on_chain}
use pylons.Channel.Packing.{pack_data}
use pylons.Merkle.{contains}
use pylons.Merkle.{compute_merkle_tree_without}
use pylons.Channel.Packing.{with_lock_hash}
use pylons.Channel.Locks.{is_lock_pending}
use pylons.Channel.Locks.{get_lock}
use pylons.Channel.Unlock.{send_unlock}
use pylons.Channel.Status.{get_status}
use pylons.Task.Timing.{md_is_safe_to_wait}
use pylons.Base.{
  ◌≤◌, ◌+◌, List, [], ◌∷◌, ◌++◌, Option, none, some, false, true, ◌≡◌, ◌↔◌, refl, arith,
}
use pylons.Base.Outcome.{Outcome, ok}
use pylons.State.{NettingChannelState}
use pylons.State.SyncMap.{load, store}
use pylons.Event
use pylons.Event.{Event, Reason, event_unlock_failed}
use pylons.StateChange.{RouteState}
use pylons.Channel.Receive.{handle_receive_locked_transfer}
use pylons.Task.{
  ChannelsMap, InitiatorTransferState, InitiatorPaymentState, ReceiveTransferRefundCancelRoute,
}
use pylons.Task.Initiator.{payment_failed}
use pylons.Task.Manager.Refund.{refund_ends_payment}
use pylons.Task.Mediator.{
  MediationPairState, MediatorTransferState, MediatorIteration, payee_secret_revealed,
  payer_pending,
}
use pylons.Task.Mediator.Secrets.{Paired, unlock_payees, reveal_to_payers}
use pylons.Task.Mediator.Forward.{Passed, forward_transfer_pair}
use pylons.Task.Mediator.Payees.{unlocks, payees_paid_once}
use pylons.Task.Mediator.Unlocking.{Paying}
use pylons.Task.Mediator.Payers.{Reveals, payers_told_once}
use pylons.Task.Mediator.Registered.{run_blocks, registered_once}
use pylons.Task.Mediator.Registered.Step.{Urgent}
use pylons.Task.Mediator.Registered.Blocks.{registrations, BeforeAt}
use pylons.Channel.Locks.{get_secret}
use pylons.Event.{contract_send_secret_reveal}
use pylons.Base.{All, inl}
use pylons.Examples.Locks.{lock}
use pylons.Task.Mediator.Relay.{FeesBounded, Relayed, forwarded-Relayed}
use pylons.Task.Mediator.Lifetime.{task_ends_with_locks}
use pylons.Task.Mediator.Transition.{is_unfinished, md_state_transition}
use pylons.State.{BalanceProofUnsignedState}
use pylons.Merkle.{merkle_root}
use pylons.Channel.Send.{next_balance_proof, lock_of_args}
use pylons.Task.Manager.Transition.{
  is_refund_of, description_after_refund, im_handle_transfer_refund_cancel_route,
}
use pylons.Task.Mediator.Secrets.{md_has_secret_registration_started}
use pylons.Examples.{signed_by, test_env, left_channel, right_channel}
use pylons.Examples.Locks.{args, transfer_out, transfer_in, left_locked, right_locked, secret}
use pylons.Task.{TaskStateChange}
use pylons.Examples.Tasks.{test_tasks, description}

-- The mediator 2 has received the lock over channel 7, and sent it on over channel 8.
abbrev payee_channel : NettingChannelState
payee_channel = record left_locked { identifier = 8 }

abbrev channels : ChannelsMap
channels = (7, right_locked) ∷ (8, payee_channel) ∷ []

abbrev pair : MediationPairState
pair = record {
  payee_address = 3;
  payee_transfer = record transfer_out.transfer {
    balance_proof = record transfer_out.transfer.balance_proof { channel_id = 8 };
  };
  payee_state = payee_secret_revealed;
  payer_transfer = transfer_in;
  payer_state = payer_pending;
}

abbrev default_paired : Paired
default_paired = record { pairs = []; channels = []; events = [] }

abbrev result_of : {A : Type 0} → A → Outcome Reason A → A
result_of d (ok a) = a
result_of d _ = d

abbrev first_round : Paired
first_round =
    result_of default_paired (unlock_payees test_env channels (pair ∷ []) 480 secret 77 (λ n. n))

abbrev second_round : Paired
second_round =
    result_of default_paired
      (unlock_payees test_env channels first_round.pairs 481 secret 77 (λ n. n))

ran_first : unlock_payees test_env channels (pair ∷ []) 480 secret 77 (λ n. n) ≡ ok first_round
unfolding unlock_payees load next_balance_proof md_is_safe_to_wait lock_of_args get_status
    send_unlock get_lock is_lock_pending with_lock_hash compute_merkle_tree_without contains
    pack_data
ran_first = refl

ran_second :
    unlock_payees test_env channels first_round.pairs 481 secret 77 (λ n. n) ≡ ok second_round
unfolding unlock_payees load next_balance_proof md_is_safe_to_wait lock_of_args get_status
    send_unlock get_lock is_lock_pending with_lock_hash compute_merkle_tree_without contains
    pack_data
ran_second = refl

payees_paid_once_example :
    Paying 480 secret 77 channels
      (pair ∷ [])
      first_round.channels
      first_round.pairs
      first_round.events
    × (unlocks first_round.events + unlocks second_round.events ≤ 1)
payees_paid_once_example =
    payees_paid_once test_env channels channels (pair ∷ []) 480 481 secret secret 77 77 (λ n. n)
      (λ n. n) first_round second_round ran_first ran_second

-- The pair is paid in the first round only.
paid_in_first : (unlocks first_round.events ≡ 1) × (unlocks second_round.events ≡ 0)
unfolding unlocks unlock_payees load next_balance_proof md_is_safe_to_wait lock_of_args get_status
    send_unlock get_lock is_lock_pending with_lock_hash compute_merkle_tree_without contains
    pack_data
paid_in_first = (refl, refl)

payers_told_once_example :
    let told = reveal_to_payers (pair ∷ pair ∷ []) secret (λ n. n) in
    Reveals secret (pair ∷ pair ∷ []) told.0 told.1
    × (reveal_to_payers told.0 [] (λ n. n) ≡ (told.0, []))
payers_told_once_example = payers_told_once (pair ∷ pair ∷ []) secret [] (λ n. n) (λ n. n)

-- Two pairs of the payer whose lock is about to expire; the payer's channel knows the secret.
abbrev payer_channel : NettingChannelState
payer_channel = record right_locked {
  partner_state = record (right_locked.partner_state) {
    secret_hashes_to_unlocked_locks = (77, record { lock = lock; secret = secret }) ∷ [];
  };
}

abbrev late_channels : ChannelsMap
late_channels = (7, payer_channel) ∷ (8, payee_channel) ∷ []

abbrev late_mediator : MediatorTransferState
late_mediator = record {
  secret_hash = 77;
  secret = some secret;
  transfers_pair = pair ∷ pair ∷ [];
  waiting_transfer = none;
}

ran_blocks :
    run_blocks test_tasks late_mediator late_channels (λ n. n) (495 ∷ 496 ∷ 497 ∷ [])
    ≡ ok (contract_send_secret_reveal 500 secret ∷ [])
unfolding run_blocks events_to_remove_expired_locks load is_lock_expired with_lock_hash lock_of_args
    events_for_expired_pairs events_for_on_chain_secret_reveal_if_dangerzone next_balance_proof
    is_pending_pair md_is_safe_to_wait is_secret_known transfer_expired is_lock_pending
    events_for_on_chain_secret_reveal get_status get_secret
ran_blocks = refl

pair-Urgent : Urgent late_channels 495 pair payer_channel
unfolding load next_balance_proof lock_of_args is_secret_known get_status
pair-Urgent = record {
  payer_there = refl;
  claimed = inl refl;
  late = omega arith;
  known = refl;
  can_reveal = inl refl;
}

not_started : md_has_secret_registration_started late_channels (pair ∷ pair ∷ []) 77 ≡ false
unfolding md_has_secret_registration_started load next_balance_proof is_secret_known_on_chain
not_started = refl

before_expiration : All (λ height. BeforeAt test_env height (500 ∷ 500 ∷ [])) (495 ∷ 496 ∷ 497 ∷ [])
before_expiration = (
  (omega arith, (omega arith, tt)),
  ((omega arith, (omega arith, tt)), ((omega arith, (omega arith, tt)), tt)),
)

registered_once_example :
    registrations (contract_send_secret_reveal 500 secret ∷ [])
    ≡ (500, get_secret payer_channel.partner_state 77) ∷ []
unfolding lock_of_args
registered_once_example =
    registered_once test_tasks late_mediator late_channels (λ n. n) 495 (496 ∷ 497 ∷ []) pair
      (pair ∷ []) payer_channel (contract_send_secret_reveal 500 secret ∷ []) refl pair-Urgent
      not_started before_expiration ran_blocks

-- The transfer before it is sent on
abbrev open_channels : ChannelsMap
open_channels = (7, right_locked) ∷ (8, record left_channel { identifier = 8 }) ∷ []

abbrev routes : List RouteState
routes = record { node_address = 3; channel_id = 8 } ∷ []

test_tasks-FeesBounded : FeesBounded test_tasks
test_tasks-FeesBounded = record {
  within = λ fee amount h. ground arith;
  limit = λ amount. omega arith;
}

abbrev passed : Passed
passed =
    result_of (record { pair = none; channels = []; events = [] })
      (forward_transfer_pair test_tasks transfer_in routes open_channels 485 20)

abbrev passed_pair : MediationPairState
passed_pair = elim passed.pair [ none ↦ pair | some p ↦ p ]

ran_forward : forward_transfer_pair test_tasks transfer_in routes open_channels 485 20 ≡ ok passed
unfolding forward_transfer_pair load next_balance_proof md_is_channel_usable lock_timeout_of
    lock_of_args get_status merkle_tree_width get_distributable get_balance get_amount_locked
    is_valid_amount store send_locked_transfer create_send_locked_transfer compute_merkle_tree_with
    contains
ran_forward = refl

there_is_a_pair : passed.pair ≡ some passed_pair
unfolding forward_transfer_pair load next_balance_proof md_is_channel_usable lock_timeout_of
    lock_of_args get_status merkle_tree_width get_distributable get_balance get_amount_locked
    is_valid_amount store send_locked_transfer create_send_locked_transfer compute_merkle_tree_with
    contains
there_is_a_pair = refl

forwarded-Relayed_example : Relayed transfer_in passed_pair
unfolding lock_of_args
forwarded-Relayed_example =
    forwarded-Relayed test_tasks transfer_in routes open_channels 485 20 passed passed_pair
      test_tasks-FeesBounded (omega arith) ran_forward there_is_a_pair

abbrev mediator : MediatorTransferState
mediator = record {
  secret_hash = 77;
  secret = none;
  transfers_pair = pair ∷ [];
  waiting_transfer = none;
}

abbrev after_block : MediatorIteration
after_block =
    result_of (record { new_state = none; channels = []; events = [] })
      (md_state_transition test_tasks (some mediator) (TaskStateChange.block 481) channels 480
        (λ n. n))

ran_block :
    md_state_transition test_tasks (some mediator) (TaskStateChange.block 481) channels 480 (λ n. n)
    ≡ ok after_block
unfolding md_state_transition events_to_remove_expired_locks load is_lock_expired with_lock_hash
    lock_of_args
ran_block = refl

task_ends_with_locks_example :
    (after_block.new_state ≡ none) ↔ (is_unfinished after_block.channels mediator ≡ false)
task_ends_with_locks_example =
    task_ends_with_locks test_tasks mediator (TaskStateChange.block 481) channels 480 (λ n. n)
      after_block ran_block

-- The initiator 1 has sent the lock towards 3, and 2 sends it back.
abbrev attempt : InitiatorTransferState
attempt = record {
  transfer_description = record description { target = 3 };
  channel_id = 7;
  transfer = record transfer_out.transfer { target = 3 };
  reveal_secret = none;
  received_secret_request = false;
}

abbrev state : InitiatorPaymentState
state = record { initiator = some attempt; cancelled_channels = [] }

abbrev refund_proof : BalanceProofUnsignedState
refund_proof =
    next_balance_proof test_env right_channel 0 40
      (merkle_root left_locked.our_state.merkle_tree.layers)

abbrev refund : ReceiveTransferRefundCancelRoute
refund = record {
  transfer = record {
    message_id = 22;
    payment_id = 9;
    token = 99;
    balance_proof = signed_by 2 refund_proof;
    lock = lock_of_args args;
    initiator = 1;
    target = 3;
    enc_secret = [];
    mediators = [];
  };
  routes = routes;
  secret_hash = 78;
  secret = 78 ∷ [];
}

abbrev refunded : NettingChannelState × List Event × Option Reason
refunded =
    result_of (left_locked, [], none)
      (handle_receive_locked_transfer test_env left_locked refund.transfer)

accepted :
    handle_receive_locked_transfer test_env left_locked refund.transfer
    ≡ ok (refunded.0, refunded.1, none)
unfolding handle_receive_locked_transfer valid_locked_transfer_check compute_merkle_tree_with
    contains is_balance_proof_usable_on_chain is_valid_balance_proof_signature get_status
    next_balance_proof get_next_nonce merkle_tree_width compute_layers sort merkle_root pack_data
    lock_of_args get_current_balance_proof get_distributable get_balance get_amount_locked
    fake_signed
accepted = refl

is_refund : is_refund_of refund.transfer attempt.transfer ≡ true
unfolding is_refund_of lock_of_args with_lock_hash refund_transfer_matches_received
is_refund = refl

refund_ends_payment_example :
    im_handle_transfer_refund_cancel_route test_env state refund ((7, left_locked) ∷ []) 481 50
    ≡ ok (record {
      new_state = none;
      channels = store 7 refunded.0 ((7, left_locked) ∷ []);
      events =
          refunded.1
          ++ event_unlock_failed 9 78 Event.route_was_canceled
            ∷ payment_failed
                (description_after_refund test_env attempt.transfer_description (78 ∷ []))
                Event.no_route_could_be_used
            ∷ [];
    })
unfolding description_after_refund load
refund_ends_payment_example =
    refund_ends_payment test_env state attempt refund ((7, left_locked) ∷ []) left_locked refunded.0
      refunded.1 481 50 refl refl is_refund refl accepted
