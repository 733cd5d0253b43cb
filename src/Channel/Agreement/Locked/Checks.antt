-- ===== src/Channel/Agreement/Locked/Checks.antt =====
-- What the sender of a locked transfer keeps, and the checks of the receiver on what arrives.
use pylons.Base.{◌≤◌, ◌≡◌, ◌≢◌, some, arith, add64}
use pylons.Base.Outcome.{ok}
use pylons.Common.{Env}
use pylons.State.{
  NettingChannelEndState, NettingChannelState, BalanceProofSignedState, HashTimeLockState,
  MerkleTreeState,
}
use pylons.Event.{SendLockedTransfer}
use pylons.Merkle.{merkle_root, merkle_tree_width, compute_merkle_tree_with}
use pylons.Channel.Balance.{get_amount_locked, transferred_of, get_distributable}
use pylons.Channel.Packing.{calc_lock_hash, with_lock_hash, pack_data}
use pylons.Channel.Validity.{
  maximum_pending_transfers, is_balance_proof_usable_on_chain, check_locked_transfer,
  valid_locked_transfer_check,
}
use pylons.Channel.Send.{
  TransferArgs, lock_of_args, next_balance_proof, create_send_locked_transfer,
  record_locked_transfer, send_locked_transfer,
}
use pylons.Channel.Agreement.{
  InAgreement, SignedOf, distributable, amount_locked, current_locked, current_transferred,
}

-- A lock as it arrives: without its hash, which the receiver computes.
pub record SameLock (sent arrived : HashTimeLockState) : Type 0 where
  pub amount : arrived.amount ≡ sent.amount
  pub expiration : arrived.expiration ≡ sent.expiration
  pub secret_hash : arrived.secret_hash ≡ sent.secret_hash
  pub encoded : arrived.encoded ≡ sent.encoded

module _ (env : Env) where
  -- The lock that a sender makes.
  abbrev pub lock_of : TransferArgs → HashTimeLockState
  lock_of args = with_lock_hash env (lock_of_args args)

  -- What the sender keeps.
  pub record SentLock (a a' : NettingChannelState) (args : TransferArgs) (m : SendLockedTransfer)
      : Type 0 where
    pub enough : args.amount ≤ get_distributable a.our_state a.partner_state
    pub tree :
        compute_merkle_tree_with env a.our_state.merkle_tree
          (calc_lock_hash env (lock_of_args args))
        ≡ ok (some a'.our_state.merkle_tree)
    pub proof :
        m.transfer.balance_proof
        ≡ next_balance_proof env a
            (transferred_of a.our_state)
            (add64 (get_amount_locked a.our_state) args.amount)
            (merkle_root a'.our_state.merkle_tree.layers)
    pub lock : m.transfer.lock ≡ lock_of args
    pub kept : a' ≡ record_locked_transfer env a m a'.our_state.merkle_tree

  pub SentLock-of_send :
      (a a' : NettingChannelState) (args : TransferArgs) (m : SendLockedTransfer)
      → send_locked_transfer env a args ≡ ok (a', some m)
      → SentLock a a' args m
  unfolding send_locked_transfer create_send_locked_transfer record_locked_transfer with_lock_hash
  SentLock-of_send a a' args m h = record {
    enough = ground arith;
    tree = ground arith;
    proof = ground arith;
    lock = ground arith;
    kept = ground arith;
  }

  -- The receiver's checks on the same tree pass.
  pub checks_pass :
      (a b : NettingChannelState) (args : TransferArgs) (bp : BalanceProofSignedState)
      (lock : HashTimeLockState) (tree : MerkleTreeState)
      → InAgreement a b
      → args.secret_hash ≢ 0
      → args.amount ≤ get_distributable a.our_state a.partner_state
      → merkle_tree_width tree ≤ maximum_pending_transfers
      → SameLock (lock_of args) lock
      → SignedOf
          (next_balance_proof env a
            (transferred_of a.our_state)
            (add64 (get_amount_locked a.our_state) args.amount)
            (merkle_root tree.layers))
          bp
      → check_locked_transfer env b.partner_state b.our_state bp lock tree ≡ ok tree
  unfolding check_locked_transfer next_balance_proof with_lock_hash lock_of_args
  checks_pass a b args bp lock tree g secret enough width same s = ground (
    arith,
    distributable a.our_state b.partner_state a.partner_state b.our_state g.ours g.theirs,
    amount_locked a.our_state b.partner_state g.ours,
    current_locked b.partner_state,
    current_transferred b.partner_state,
  )

  pub same_hash :
      (args : TransferArgs) (lock : HashTimeLockState)
      → SameLock (lock_of args) lock
      → (calc_lock_hash env lock ≡ calc_lock_hash env (lock_of_args args))
        × (with_lock_hash env lock ≡ lock_of args)
  unfolding with_lock_hash calc_lock_hash lock_of_args pack_data
  same_hash args lock same = (ground arith, ground arith)

  pub valid_of_checks :
      (channel : NettingChannelState) (sender receiver : NettingChannelEndState)
      (bp : BalanceProofSignedState) (lock : HashTimeLockState) (tree : MerkleTreeState)
      → compute_merkle_tree_with env sender.merkle_tree (calc_lock_hash env lock) ≡ ok (some tree)
      → is_balance_proof_usable_on_chain env bp channel sender ≡ ok tt
      → check_locked_transfer env sender receiver bp lock tree ≡ ok tree
      → valid_locked_transfer_check env channel sender receiver bp lock ≡ ok tree
  unfolding valid_locked_transfer_check
  valid_of_checks channel sender receiver bp lock tree computed use_it passed = ground arith
