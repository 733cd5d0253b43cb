-- ===== src/Examples/Locks.antt =====
-- Locked transfers, unlocks and the lock registers on the example channels.
use pylons.Base.{ℕ, ◌+◌, ◌≤◌, ◌<◌, List, [], ◌∷◌, ◌≡◌, refl, none, some, arith, word64, add64}
use pylons.Base.Outcome.{ok}
use pylons.State.{
  NettingChannelState, HashTimeLockState, LockedTransferSignedState, MerkleTreeState,
}
use pylons.State.SyncMap.{load, store, delete}
use pylons.Event.{SendLockedTransfer, SendBalanceProof}
use pylons.StateChange.{ReceiveUnlock}
use pylons.Merkle.{
  merkle_root, merkle_tree_width, compute_merkle_tree_with, compute_merkle_tree_without,
  compute_layers, contains, remove_first, rebuild, get_empty_merkle_tree,
}
use pylons.Base.Sort.{sort}
use pylons.Channel.Result.{processed}
use pylons.Channel.Balance.{
  get_amount_locked, transferred_of, get_next_nonce, get_distributable, get_balance,
}
use pylons.Channel.Locks.{get_lock, del_lock, is_lock_pending}
use pylons.Channel.Status.{get_status}
use pylons.Channel.Packing.{
  is_valid_balance_proof_signature, with_lock_hash, calc_lock_hash, pack_data,
}
use pylons.Channel.Validity.{maximum_pending_transfers}
use pylons.Channel.Send.{
  TransferArgs, lock_of_args, message_to_partner, next_balance_proof, fake_signed,
  send_locked_transfer, create_send_locked_transfer,
}
use pylons.Channel.Unlock.{create_unlock, send_unlock}
use pylons.Channel.Receive.{handle_receive_locked_transfer, handle_unlock}
use pylons.Channel.Agreement.{InAgreement}
use pylons.Channel.Agreement.Locked.{SameLock, locked_transfer_agrees, with_partner_lock}
use pylons.Channel.Agreement.Unlock.{unlock_agrees, with_partner_unlock}
use pylons.Channel.Balance.Solvency.{Solvent, handle_receive_locked_transfer-Solvent}
use pylons.Examples.{
  test_env, empty_tree, left_channel, right_channel, signed_by, signed_by-SignedOf, agreement,
  locked_fits, right-Solvent,
}

-- The left participant locks 40 under the hash of its secret.
abbrev pub args : TransferArgs
args = record {
  initiator = 1;
  target = 2;
  amount = 40;
  message_id = 5;
  payment_id = 9;
  expiration = 500;
  enc_secret = [];
  secret_hash = 77;
  mediators = [];
}

abbrev pub lock : HashTimeLockState
lock = with_lock_hash test_env (lock_of_args args)

abbrev tree : MerkleTreeState
tree = record { layers = (calc_lock_hash test_env (lock_of_args args) ∷ []) ∷ [] }

abbrev pub transfer_out : SendLockedTransfer
transfer_out = record {
  message = message_to_partner left_channel 5;
  transfer = record {
    payment_id = 9;
    token = 99;
    balance_proof = next_balance_proof test_env left_channel 0 40 (merkle_root tree.layers);
    lock = lock;
    initiator = 1;
    target = 2;
    enc_secret = [];
    mediators = [];
  };
}

abbrev pub transfer_in : LockedTransferSignedState
transfer_in = record {
  message_id = 5;
  payment_id = 9;
  token = 99;
  balance_proof = signed_by 1 transfer_out.transfer.balance_proof;
  lock = lock_of_args args;
  initiator = 1;
  target = 2;
  enc_secret = [];
  mediators = [];
}

abbrev pub left_locked : NettingChannelState
left_locked = record left_channel {
  our_state = record (left_channel.our_state) {
    balance_proof = some (fake_signed transfer_out.transfer.balance_proof);
    merkle_tree = tree;
    secret_hashes_to_locked_locks = (77, lock) ∷ [];
  };
}

abbrev pub right_locked : NettingChannelState
right_locked = with_partner_lock right_channel left_locked.our_state transfer_in.balance_proof

pub sent_lock :
    send_locked_transfer test_env left_channel args ≡ ok (left_locked, some transfer_out)
unfolding send_locked_transfer create_send_locked_transfer get_distributable get_balance
    get_amount_locked get_status compute_merkle_tree_with contains compute_layers sort store
    with_lock_hash lock_of_args next_balance_proof
sent_lock = refl

pub same_lock : SameLock lock (lock_of_args args)
unfolding with_lock_hash lock_of_args
same_lock = record { amount = refl; expiration = refl; secret_hash = refl; encoded = refl }

pub lock_signature : is_valid_balance_proof_signature test_env transfer_in.balance_proof 1 ≡ ok tt
unfolding is_valid_balance_proof_signature next_balance_proof get_next_nonce
lock_signature = refl

pub one_leaf : merkle_tree_width left_locked.our_state.merkle_tree ≤ maximum_pending_transfers
unfolding merkle_tree_width
one_leaf = omega arith

pub unused : load 77 left_channel.our_state.secret_hashes_to_locked_locks ≡ none
unfolding load
unused = refl

locked_transfer_agrees_example :
    (handle_receive_locked_transfer test_env right_channel transfer_in
      ≡ ok (right_locked, processed 1 5 ∷ [], none))
    × InAgreement left_locked right_locked
    × (transferred_of left_locked.our_state ≡ transferred_of left_channel.our_state)
    × (get_amount_locked left_locked.our_state ≡ 40 + get_amount_locked left_channel.our_state)
    × (transferred_of left_locked.our_state + get_amount_locked left_locked.our_state < word64)
locked_transfer_agrees_example =
    locked_transfer_agrees test_env left_channel right_channel left_locked args transfer_out
      transfer_in agreement locked_fits (λ e. ground arith) unused sent_lock one_leaf
      (signed_by-SignedOf 1 transfer_out.transfer.balance_proof) same_lock lock_signature

-- What the example shows, for the ones below.
pub received_lock :
    (handle_receive_locked_transfer test_env right_channel transfer_in
      ≡ ok (right_locked, processed 1 5 ∷ [], none))
    × InAgreement left_locked right_locked
received_lock =
    let all =
      locked_transfer_agrees test_env left_channel right_channel left_locked args transfer_out
        transfer_in agreement locked_fits (λ e. ground arith) unused sent_lock one_leaf
        (signed_by-SignedOf 1 transfer_out.transfer.balance_proof) same_lock lock_signature in
    (all.0, all.1)

handle_receive_locked_transfer-Solvent_example :
    Solvent right_locked.partner_state right_locked.our_state
unfolding lock_of_args
handle_receive_locked_transfer-Solvent_example =
    handle_receive_locked_transfer-Solvent test_env right_channel right_locked transfer_in
      (processed 1 5 ∷ []) none right-Solvent unused received_lock.0

-- The left participant pays the lock out.
abbrev pub secret : List ℕ
secret = 77 ∷ []

abbrev pub unlock_out : SendBalanceProof
unlock_out = record {
  message = message_to_partner left_locked 6;
  payment_id = 9;
  token_address = 99;
  secret = secret;
  secret_hash = 0;
  balance_proof = next_balance_proof test_env left_locked 40 0 0;
}

abbrev pub unlock_in : ReceiveUnlock
unlock_in = record {
  message_id = 6;
  secret = secret;
  secret_hash = 0;
  balance_proof = signed_by 1 unlock_out.balance_proof;
}

abbrev pub left_unlocked : NettingChannelState
left_unlocked = record left_channel {
  our_state = record (left_channel.our_state) {
    balance_proof = some (fake_signed unlock_out.balance_proof);
  };
}

abbrev right_unlocked : NettingChannelState
right_unlocked = record right_channel {
  partner_state = record (right_channel.partner_state) {
    balance_proof = some unlock_in.balance_proof;
  };
}

found_lock : get_lock left_locked.our_state 77 ≡ some lock
unfolding get_lock load
found_lock = refl

pub sent_unlock :
    send_unlock test_env left_locked 6 9 secret 77 ≡ ok (left_unlocked, some unlock_out)
unfolding send_unlock create_unlock get_lock load is_lock_pending compute_merkle_tree_without
    contains remove_first rebuild get_empty_merkle_tree get_amount_locked del_lock delete
    with_lock_hash lock_of_args calc_lock_hash next_balance_proof fake_signed merkle_root pack_data
sent_unlock = refl

pub unlock_signature : is_valid_balance_proof_signature test_env unlock_in.balance_proof 1 ≡ ok tt
unfolding is_valid_balance_proof_signature next_balance_proof get_next_nonce
unlock_signature = refl

unlock_agrees_example :
    (compute_merkle_tree_without test_env tree (calc_lock_hash test_env lock) ≡ ok empty_tree)
    × (handle_unlock test_env right_locked unlock_in
        ≡ ok (
          with_partner_unlock right_locked unlock_in.balance_proof empty_tree 77,
          processed 1 6 ∷ [],
          none,
        ))
    × InAgreement left_unlocked
        (with_partner_unlock right_locked unlock_in.balance_proof empty_tree 77)
    × (unlock_out.balance_proof.transferred_amount
        ≡ add64 40 (transferred_of left_locked.our_state))
unfolding with_lock_hash lock_of_args
unlock_agrees_example =
    unlock_agrees test_env left_locked right_locked left_unlocked 6 9 secret lock unlock_out
      unlock_in received_lock.1 (omega arith) found_lock sent_unlock
      (signed_by-SignedOf 1 unlock_out.balance_proof) refl unlock_signature
