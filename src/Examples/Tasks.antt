-- ===== src/Examples/Tasks.antt =====
-- The payment tasks of an initiator and of a target on the example channels.
use pylons.Base.{ℕ, ◌/◌, leb, add64, List, [], ◌∷◌, none, some, false, ◌≡◌, refl, arith}
use pylons.Base.Outcome.{ok}
use pylons.Common.{get_hash}
use pylons.State.{NettingChannelState}
use pylons.State.SyncMap.{load}
use pylons.StateChange.{RouteState}
use pylons.Base.Sort.{sort}
use pylons.Merkle.{contains, rebuild, get_empty_merkle_tree}
use pylons.Merkle.RoundTrip.{tree_over}
use pylons.Channel.Locks.{transfer_expired}
use pylons.Channel.Locks.Registers.{Distinct}
use pylons.Channel.Result.{processed}
use pylons.Task.{
  TaskEnv, decrypt_secret, TransferDescriptionWithSecretState, ReceiveSecretReveal,
  TargetTransferState, reveal_secret,
}
use pylons.Task.Timing.{md_is_safe_to_wait}
use pylons.Task.Initiator.{init_send_locked_transfer, init_transfer_args}
use pylons.Task.Payment.Steps.{SentPayment}
use pylons.Task.Payment.Undecryptable.{undecryptable_payment_panics}
use pylons.Task.Target.{tg_state_transition}
use pylons.Task.{TaskStateChange}
use pylons.Base.{◌==◌}
use pylons.Task.Payment.{payment_is_sent, payment_is_received}
use mathlib.Core.List.{Memᴰ}
use pylons.Base.{◌⊎◌}
use pylons.Base.Outcome.{panic}
use pylons.Event.{
  Event, SendBalanceProof, send_balance_proof, event_payment_sent_success, event_unlock_success,
  event_payment_received_success, event_unlock_claim_success, send_secret_reveal,
}
use pylons.Channel.Balance.{transferred_of}
use pylons.Channel.Status.{get_status}
use pylons.Channel.Locks.{
  register_off_chain_secret, is_lock_expired, is_secret_known_on_chain, is_secret_known_off_chain,
  get_lock,
}
use pylons.Channel.Packing.{with_lock_hash}
use pylons.Channel.Send.{lock_of_args}
use pylons.Channel.Unlock.{send_unlock}
use pylons.Channel.Agreement.{InAgreement}
use pylons.Channel.Agreement.Locked.{with_partner_lock}
use pylons.Channel.Agreement.Unlock.{with_partner_unlock}
use pylons.Task.{expired, InitiatorTransferState, ReceiveSecretRequest}
use pylons.Task.Target.{handle_init_target, reveal_along, tg_handle_unlock}
use pylons.Task.Target.Claims.{ExpiredClaim, reveals-run_blocks, reveals, run_blocks}
use pylons.Task.Initiator.{new_attempt}
use pylons.Task.Initiator.Secrets.{
  init_handle_off_chain_secret_reveal, handle_secret_request, is_message_from_target,
  is_valid_secret_request, reveal_to_target,
}
use pylons.Task.Initiator.Release.{AnsweredRequest, run_requests, secrets, secret_given_once}
use pylons.Examples.{
  test_env, left_channel, right_channel, agreement, locked_fits, signed_by-SignedOf,
}
use pylons.Examples.Locks.{
  lock, transfer_out, transfer_in, left_locked, sent_lock, same_lock, lock_signature, one_leaf,
  secret, unlock_out, unlock_in, left_unlocked, sent_unlock, unlock_signature,
}

-- Fees of a tenth, within a limit of a fifth
abbrev pub test_tasks : TaskEnv
test_tasks = record {
  env = test_env;
  decrypt = λ xs. some (77 ∷ []);
  proportional_fee = λ amount proportional. amount / 10;
  fee_limit = λ amount. amount / 5;
  within_fee_limit = λ fee amount. leb fee (amount / 5);
  range_order = λ routes. routes;
}

abbrev pub description : TransferDescriptionWithSecretState
description = record {
  payment_network_id = 5;
  payment_id = 9;
  amount = 40;
  token_network_id = 6;
  initiator = 1;
  target = 2;
  secret = 77 ∷ [];
  enc_secret = [];
  secret_hash = 77;
}

abbrev route : RouteState
route = record { node_address = 1; channel_id = 7 }

payment :
    SentPayment test_tasks left_channel right_channel left_locked description [] 5 480 transfer_out
      transfer_in
unfolding get_hash Distinct load tree_over contains init_send_locked_transfer init_transfer_args
    rebuild sort get_empty_merkle_tree
payment = record {
  agreement = agreement;
  fits = locked_fits;
  small = omega arith;
  hash_of_secret = refl;
  nonzero = λ e. ground arith;
  distinct = tt;
  new_lock = refl;
  new_proof = refl;
  not_back = refl;
  tree = refl;
  new_leaf = refl;
  sent = sent_lock;
  width = one_leaf;
  signed = signed_by-SignedOf 1 transfer_out.transfer.balance_proof;
  same_lock = same_lock;
  signature = lock_signature;
}

abbrev received : NettingChannelState
received = with_partner_lock right_channel left_locked.our_state transfer_in.balance_proof

abbrev target : TargetTransferState
target = record {
  route = route;
  transfer = transfer_in;
  secret = some (77 ∷ []);
  state = reveal_secret;
}

abbrev reveal : ReceiveSecretReveal
reveal = record { secret = 77 ∷ []; sender = 2; message_id = 31 }

enough_time : md_is_safe_to_wait 500 10 485 ≡ ok tt
unfolding md_is_safe_to_wait
enough_time = refl

alive : transfer_expired test_env transfer_in right_channel 485 ≡ false
unfolding transfer_expired is_lock_expired is_secret_known_on_chain load lock_of_args
alive = refl

decrypted : decrypt_secret test_tasks transfer_in.enc_secret ≡ some (77 ∷ [])
unfolding decrypt_secret
decrypted = refl

payment_is_sent_example :
    (handle_init_target test_tasks
        (record { route = route; transfer = transfer_in })
        right_channel
        485
        30
      ≡ ok (record {
        new_state = some target;
        channels = register_off_chain_secret received (77 ∷ []) 77;
        events = processed 1 5 ∷ reveal_along route 30 (77 ∷ []) ∷ [];
      }))
    × ((a : NettingChannelState) × (u : SendBalanceProof) × (send_unlock test_env left_locked 6 9
            (77 ∷ [])
            77
          ≡ ok (a, some u))
        × (init_handle_off_chain_secret_reveal test_env
              (new_attempt test_env description 7 transfer_out)
              reveal
              left_locked
              6
            ≡ ok (record {
              new_state = none;
              channels = a;
              events =
                  send_balance_proof (some u)
                  ∷ event_payment_sent_success (record {
                    payment_network_id = 5;
                    token_network_id = 6;
                    identifier = 9;
                    amount = 40;
                    target = 2;
                  })
                  ∷ event_unlock_success 9 77
                  ∷ processed 2 31
                  ∷ [];
            })))
unfolding lock_of_args
payment_is_sent_example =
    payment_is_sent test_tasks left_channel right_channel left_locked description [] 5 480
      transfer_out transfer_in route 485 30 6 reveal payment decrypted enough_time alive refl refl

payment_is_received_example :
    let b =
      with_partner_unlock received unlock_in.balance_proof left_unlocked.our_state.merkle_tree 77 in
    (tg_handle_unlock test_tasks
        (some target)
        unlock_in
        (register_off_chain_secret received (77 ∷ []) 77)
      ≡ ok (record {
        new_state = none;
        channels = b;
        events =
            processed 1 6
            ∷ event_payment_received_success (record {
              payment_network_id = 5;
              token_network_id = 6;
              identifier = 9;
              amount = 40;
              initiator = 1;
            })
            ∷ event_unlock_claim_success 9 77
            ∷ [];
      }))
    × InAgreement left_unlocked b
    × (unlock_out.balance_proof.transferred_amount
        ≡ add64 40 (transferred_of left_locked.our_state))
unfolding get_hash
payment_is_received_example =
    payment_is_received test_tasks left_channel right_channel left_locked left_unlocked description
      [] 5 480 6 transfer_out transfer_in target unlock_out unlock_in payment refl sent_unlock
      (signed_by-SignedOf 1 unlock_out.balance_proof) refl unlock_signature

-- A target that cannot decrypt the secret
abbrev without_key : TaskEnv
without_key = record test_tasks { decrypt = λ xs. none }

payment_without_key :
    SentPayment without_key left_channel right_channel left_locked description [] 5 480 transfer_out
      transfer_in
payment_without_key = record {
  agreement = payment.agreement;
  fits = payment.fits;
  small = payment.small;
  hash_of_secret = payment.hash_of_secret;
  nonzero = payment.nonzero;
  distinct = payment.distinct;
  new_lock = payment.new_lock;
  new_proof = payment.new_proof;
  not_back = payment.not_back;
  tree = payment.tree;
  new_leaf = payment.new_leaf;
  sent = payment.sent;
  width = payment.width;
  signed = payment.signed;
  same_lock = payment.same_lock;
  signature = payment.signature;
}

no_secret :
    (xs : List ℕ)
    → decrypt_secret without_key transfer_in.enc_secret ≡ some xs
    → (get_hash test_env xs == 77) ≡ false
unfolding decrypt_secret
no_secret xs e = absurd (ground arith)

undecryptable_payment_panics_example :
    tg_state_transition without_key none
      (TaskStateChange.action_init_target (record { route = route; transfer = transfer_in }))
      right_channel
      485
      30
    ≡ panic
unfolding lock_of_args
undecryptable_payment_panics_example =
    undecryptable_payment_panics without_key left_channel right_channel left_locked description [] 5
      480 transfer_out transfer_in route 485 30 payment_without_key enough_time no_secret

-- A target whose lock has expired, and three blocks
abbrev expired_target : TargetTransferState
expired_target = record target { state = expired }

abbrev with_secret : NettingChannelState
with_secret = record right_channel {
  partner_state = record (right_channel.partner_state) {
    secret_hashes_to_unlocked_locks = (77, record { lock = lock; secret = secret }) ∷ [];
  };
}

expired_target-ExpiredClaim : ExpiredClaim expired_target with_secret
unfolding is_secret_known_off_chain is_secret_known_on_chain load get_status lock_of_args
expired_target-ExpiredClaim = record {
  small = omega arith;
  known = refl;
  off_chain = refl;
  can_reveal = refl;
}

reveals-run_blocks_example :
    reveals (run_blocks expired_target with_secret (505 ∷ 506 ∷ 600 ∷ [])) ≡ 2
unfolding lock_of_args
reveals-run_blocks_example =
    reveals-run_blocks expired_target with_secret (505 ∷ 506 ∷ 600 ∷ []) expired_target-ExpiredClaim
      refl (omega arith, (omega arith, (omega arith, tt)))

-- The target asks twice, the second time too late.
abbrev request : ReceiveSecretRequest
request = record {
  payment_id = 9;
  amount = 40;
  expiration = 500;
  secret_hash = 77;
  sender = 2;
  message_id = 12;
}

abbrev fresh_attempt : InitiatorTransferState
fresh_attempt = record {
  transfer_description = description;
  channel_id = 7;
  transfer = transfer_out.transfer;
  reveal_secret = none;
  received_secret_request = false;
}

abbrev answers : List Event
answers =
    send_secret_reveal (record {
      message = record { recipient = 2; channel_id = 0; message_id = 40 };
      secret = 77 ∷ [];
      secret_hash = 77;
    })
    ∷ processed 2 12
    ∷ []

answered :
    run_requests test_env fresh_attempt left_locked ((request, 40) ∷ (request, 41) ∷ [])
    ≡ ok answers
unfolding run_requests handle_secret_request is_message_from_target is_valid_secret_request
    reveal_to_target get_lock load with_lock_hash lock_of_args processed
answered = refl

secret_given_once_example :
    (secrets answers ≡ 0)
    ⊎ ((secrets answers ≡ 1)
        × ((found : ReceiveSecretRequest × ℕ) × Memᴰ found ((request, 40) ∷ (request, 41) ∷ [])
            × AnsweredRequest description left_locked found.0))
secret_given_once_example =
    secret_given_once test_env fresh_attempt left_locked ((request, 40) ∷ (request, 41) ∷ [])
      answers answered
