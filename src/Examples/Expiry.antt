-- ===== src/Examples/Expiry.antt =====
-- The lock of the example channels expires.
use pylons.Base.{◌≤◌, [], ◌∷◌, ◌≡◌, refl, some, arith, false}
use pylons.Base.Outcome.{ok}
use pylons.State.{NettingChannelState}
use pylons.State.SyncMap.{load, delete}
use pylons.Event.{SendLockExpired, send_lock_expired}
use pylons.StateChange.{ReceiveLockExpired}
use pylons.Merkle.{
  merkle_root, compute_merkle_tree_without, contains, remove_first, rebuild, get_empty_merkle_tree,
}
use pylons.Channel.Result.{transition, processed}
use pylons.Channel.Locks.{is_secret_known_on_chain, del_unclaimed_lock}
use pylons.Channel.Balance.{get_amount_locked, get_next_nonce}
use pylons.Channel.Packing.{
  is_valid_balance_proof_signature, with_lock_hash, calc_lock_hash, pack_data,
}
use pylons.Channel.Send.{lock_of_args, message_to_partner, next_balance_proof, fake_signed}
use pylons.Channel.Unlock.{create_send_expired_lock, events_for_expired_lock}
use pylons.Channel.Receive.{handle_receive_lock_expired}
use pylons.Channel.Agreement.{InAgreement}
use pylons.Channel.Agreement.Expiry.{expiry_of, with_partner_expiry, lock_expired_agrees}
use pylons.Examples.{test_env, empty_tree, left_channel, signed_by, signed_by-SignedOf}
use pylons.Examples.Locks.{lock, left_locked, right_locked, received_lock}

abbrev expired_out : SendLockExpired
expired_out = record {
  message = message_to_partner left_locked 6;
  balance_proof = next_balance_proof test_env left_locked 0 0 0;
  secret_hash = 77;
}

abbrev expired_in : ReceiveLockExpired
expired_in = record {
  balance_proof = signed_by 1 expired_out.balance_proof;
  secret_hash = 77;
  message_id = 6;
}

abbrev left_expired : NettingChannelState
left_expired = record left_channel {
  our_state = record (left_channel.our_state) {
    balance_proof = some (fake_signed expired_out.balance_proof);
  };
}

expiry_sent :
    events_for_expired_lock test_env left_locked lock 6
    ≡ ok (left_expired, send_lock_expired expired_out ∷ [])
unfolding events_for_expired_lock create_send_expired_lock compute_merkle_tree_without contains
    remove_first rebuild get_empty_merkle_tree get_amount_locked del_unclaimed_lock delete
    with_lock_hash lock_of_args calc_lock_hash next_balance_proof fake_signed merkle_root pack_data
expiry_sent = refl

found_locked : load 77 left_locked.our_state.secret_hashes_to_locked_locks ≡ some lock
unfolding load
found_locked = refl

own_hash : calc_lock_hash test_env lock ≡ lock.lock_hash
unfolding with_lock_hash calc_lock_hash pack_data lock_of_args
own_hash = refl

not_on_chain : is_secret_known_on_chain right_locked.our_state 77 ≡ false
unfolding is_secret_known_on_chain load
not_on_chain = refl

late_enough : expiry_of test_env lock ≤ 600
unfolding with_lock_hash lock_of_args
late_enough = omega arith

expiry_signature : is_valid_balance_proof_signature test_env expired_in.balance_proof 1 ≡ ok tt
unfolding is_valid_balance_proof_signature next_balance_proof get_next_nonce
expiry_signature = refl

lock_expired_agrees_example :
    (handle_receive_lock_expired test_env right_locked expired_in 600
      ≡ ok (
          transition
            (with_partner_expiry right_locked expired_in.balance_proof empty_tree 77)
            (processed 1 6 ∷ [])))
    × InAgreement left_expired
        (with_partner_expiry right_locked expired_in.balance_proof empty_tree 77)
unfolding with_lock_hash lock_of_args
lock_expired_agrees_example =
    lock_expired_agrees test_env left_locked right_locked left_expired lock 6 600 expired_out
      expired_in received_lock.1 found_locked own_hash not_on_chain late_enough expiry_sent refl
      (signed_by-SignedOf 1 expired_out.balance_proof) expiry_signature
