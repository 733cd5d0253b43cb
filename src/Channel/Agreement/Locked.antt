-- ===== src/Channel/Agreement/Locked.antt =====
-- A locked transfer between two channels in agreement.
pub mod Checks
pub use Checks.{SameLock}
use pylons.Channel.Agreement.Locked.Checks.{
  lock_of, SentLock, SentLock-of_send, checks_pass, same_hash, valid_of_checks,
}
use pylons.Base.{
  ◌+◌, ◌≤◌, ◌<◌, [], ◌∷◌, ◌≡◌, ◌≢◌, none, some, arith, add64, word64, ap, subst, sym, ◌∙◌, refl,
}
use pylons.Base.Outcome.{ok}
use pylons.Common.{Env}
use pylons.State.{
  NettingChannelEndState, NettingChannelState, BalanceProofSignedState, HashTimeLockState,
  MerkleTreeState, LockedTransferSignedState,
}
use pylons.State.SyncMap.{load, store}
use pylons.Event.{SendLockedTransfer}
use pylons.Merkle.{merkle_root, merkle_tree_width, compute_merkle_tree_with}
use pylons.Channel.Result.{processed}
use pylons.Channel.Locks.Registers.{total_locks-store}
use pylons.Channel.Balance.{
  total_locks, total_proofs, get_amount_locked, get_next_nonce, transferred_of, get_distributable,
}
use pylons.Channel.Status.{get_status}
use pylons.Channel.Packing.{
  is_valid_balance_proof_signature, calc_lock_hash, with_lock_hash, pack_data,
}
use pylons.Channel.Validity.{
  maximum_pending_transfers, is_balance_proof_usable_on_chain, check_locked_transfer,
  valid_locked_transfer_check,
}
use pylons.Channel.Send.{
  TransferArgs, lock_of_args, fake_signed, next_balance_proof, create_send_locked_transfer,
  record_locked_transfer, send_locked_transfer,
}
use pylons.Channel.Receive.{accept_locked_transfer, handle_receive_locked_transfer}
use pylons.Channel.Agreement.{
  InAgreement, SignedOf, distributable, amount_locked, current_locked, current_transferred, usable,
  kept_nonce, within_limit,
}

-- The receiver's channel after a locked transfer.
abbrev pub with_partner_lock :
    NettingChannelState → NettingChannelEndState → BalanceProofSignedState → NettingChannelState
with_partner_lock b e bp = record b {
  partner_state = record (b.partner_state) {
    balance_proof = some bp;
    merkle_tree = e.merkle_tree;
    secret_hashes_to_locked_locks = e.secret_hashes_to_locked_locks;
  };
}

module _ (env : Env) where
  accepted_state :
      (a b a' : NettingChannelState) (args : TransferArgs) (m : SendLockedTransfer)
      (transfer : LockedTransferSignedState)
      → InAgreement a b
      → SentLock env a a' args m
      → SameLock m.transfer.lock transfer.lock
      → accept_locked_transfer env b transfer a'.our_state.merkle_tree
        ≡ with_partner_lock b a'.our_state transfer.balance_proof
  unfolding accept_locked_transfer record_locked_transfer
  accepted_state a b a' args m transfer g kept same =
      let lock =
        (same_hash env args transfer.lock (subst (λ l. SameLock l transfer.lock) kept.lock same)).1
        ∙ sym kept.lock in
      let locked =
        ap (λ l. store l.secret_hash l b.partner_state.secret_hashes_to_locked_locks) lock
        ∙ ap (store m.transfer.lock.secret_hash m.transfer.lock) g.ours.locked
        ∙ sym (ap (λ x. x.our_state.secret_hashes_to_locked_locks) kept.kept) in
      ap
        (λ x. record b {
          partner_state = record (b.partner_state) {
            balance_proof = some transfer.balance_proof;
            merkle_tree = a'.our_state.merkle_tree;
            secret_hashes_to_locked_locks = x;
          };
        })
        locked

  agreement_of_lock :
      (a b : NettingChannelState) (m : SendLockedTransfer) (bp : BalanceProofSignedState)
      (tree : MerkleTreeState)
      → InAgreement a b
      → SignedOf m.transfer.balance_proof bp
      → let a' = record_locked_transfer env a m tree in
        InAgreement a' (with_partner_lock b a'.our_state bp)
  unfolding get_status record_locked_transfer get_amount_locked get_next_nonce fake_signed
  agreement_of_lock a b m bp tree g s = record {
    ours = record {
      address = g.ours.address;
      deposit = g.ours.deposit;
      withdrawn = g.ours.withdrawn;
      locked = refl;
      unlocked = g.ours.unlocked;
      on_chain = g.ours.on_chain;
      tree = refl;
      nonce = kept_nonce a.our_state b.partner_state m.transfer.balance_proof bp s;
      transferred = s.transferred_amount;
      root = s.locks_root;
      proof_for_locks = λ h. ground arith;
      proof_for_locks' = λ h. ground arith;
    };
    theirs = g.theirs;
    identifier = g.identifier;
    chain_id = g.chain_id;
    token_network_id = g.token_network_id;
    opened_ours = g.opened_ours;
    opened_theirs = g.opened_theirs;
  }

  handled :
      (b : NettingChannelState) (tree : MerkleTreeState) (transfer : LockedTransferSignedState)
      → valid_locked_transfer_check env b b.partner_state b.our_state transfer.balance_proof
          transfer.lock
        ≡ ok tree
      → handle_receive_locked_transfer env b transfer
        ≡ ok (
          accept_locked_transfer env b transfer tree,
          processed transfer.balance_proof.sender transfer.message_id ∷ [],
          none,
        )
  unfolding handle_receive_locked_transfer
  handled b tree transfer valid = ground arith

  valid :
      (a b a' : NettingChannelState) (args : TransferArgs) (m : SendLockedTransfer)
      (transfer : LockedTransferSignedState)
      → InAgreement a b
      → args.secret_hash ≢ 0
      → SentLock env a a' args m
      → merkle_tree_width a'.our_state.merkle_tree ≤ maximum_pending_transfers
      → SignedOf m.transfer.balance_proof transfer.balance_proof
      → SameLock m.transfer.lock transfer.lock
      → is_valid_balance_proof_signature env transfer.balance_proof b.partner_state.address ≡ ok tt
      → valid_locked_transfer_check env b b.partner_state b.our_state transfer.balance_proof
          transfer.lock
        ≡ ok a'.our_state.merkle_tree
  valid a b a' args m transfer g secret kept width s same v =
      let bp = transfer.balance_proof in
      let same' = subst (λ l. SameLock l transfer.lock) kept.lock same in
      let s' = subst (λ u. SignedOf u bp) kept.proof s in
      let tree = g.ours.tree in
      let hash = (same_hash env args transfer.lock same').0 in
      valid_of_checks env b b.partner_state b.our_state bp transfer.lock a'.our_state.merkle_tree
        (subst
          (λ t.
            compute_merkle_tree_with env t (calc_lock_hash env transfer.lock)
            ≡ ok (some a'.our_state.merkle_tree))
          (sym tree) (ap (compute_merkle_tree_with env a.our_state.merkle_tree) hash ∙ kept.tree))
        (usable env a b _ _ _ bp g s' v)
        (checks_pass env a b args bp transfer.lock a'.our_state.merkle_tree g secret kept.enough
          width same' s')

  -- What the sender has locked is up by the amount of a lock that it did not have.
  locked_amount_of_sent :
      (a a' : NettingChannelState) (args : TransferArgs) (m : SendLockedTransfer)
      → SentLock env a a' args m
      → load args.secret_hash a.our_state.secret_hashes_to_locked_locks ≡ none
      → get_amount_locked a'.our_state ≡ add64 args.amount (get_amount_locked a.our_state)
  unfolding get_amount_locked record_locked_transfer with_lock_hash lock_of_args
  locked_amount_of_sent a a' args m kept fresh =
      let more =
        total_locks-store args.secret_hash (lock_of env args)
          a.our_state.secret_hashes_to_locked_locks fresh in
      let locked =
        ap (λ x. total_locks x.our_state.secret_hashes_to_locked_locks) kept.kept
        ∙ ap (λ l. total_locks (store l.secret_hash l a.our_state.secret_hashes_to_locked_locks))
            kept.lock in
      let unlocked = ap (λ x. total_proofs x.our_state.secret_hashes_to_unlocked_locks) kept.kept in
      let on_chain =
        ap (λ x. total_proofs x.our_state.secret_hashes_to_on_chain_unlocked_locks) kept.kept in
      rw (locked, more, unlocked, on_chain) (omega arith)

  transferred_of_sent :
      (a a' : NettingChannelState) (args : TransferArgs) (m : SendLockedTransfer)
      → SentLock env a a' args m
      → transferred_of a'.our_state ≡ transferred_of a.our_state
  unfolding record_locked_transfer fake_signed next_balance_proof
  transferred_of_sent a a' args m kept =
      ap (λ x. transferred_of x.our_state) kept.kept ∙ ap (λ u. u.transferred_amount) kept.proof

-- Between two channels in agreement, a locked transfer that one participant sends, with a secret
-- hash that is neither zero nor the key of one of its locked locks and a tree of at most 160 leaves,
-- and whose balance proof and lock arrive with a valid signature of the sender, is accepted and
-- confirmed by the other, who registers the same lock and computes the same tree; the two channels
-- are in agreement again. What the sender has locked is up by the amount, what it has transferred
-- is unchanged, and both together still fit in 64 bits, when they did before.
pub locked_transfer_agrees :
    (env : Env) (a b a' : NettingChannelState) (args : TransferArgs) (m : SendLockedTransfer)
    (transfer : LockedTransferSignedState)
    → InAgreement a b
    → transferred_of a.our_state + get_amount_locked a.our_state < word64
    → args.secret_hash ≢ 0
    → load args.secret_hash a.our_state.secret_hashes_to_locked_locks ≡ none
    → send_locked_transfer env a args ≡ ok (a', some m)
    → merkle_tree_width a'.our_state.merkle_tree ≤ maximum_pending_transfers
    → SignedOf m.transfer.balance_proof transfer.balance_proof
    → SameLock m.transfer.lock transfer.lock
    → is_valid_balance_proof_signature env transfer.balance_proof b.partner_state.address ≡ ok tt
    → (handle_receive_locked_transfer env b transfer
        ≡ ok (
          with_partner_lock b a'.our_state transfer.balance_proof,
          processed transfer.balance_proof.sender transfer.message_id ∷ [],
          none,
        ))
      × InAgreement a' (with_partner_lock b a'.our_state transfer.balance_proof)
      × (transferred_of a'.our_state ≡ transferred_of a.our_state)
      × (get_amount_locked a'.our_state ≡ args.amount + get_amount_locked a.our_state)
      × (transferred_of a'.our_state + get_amount_locked a'.our_state < word64)
locked_transfer_agrees env a b a' args m transfer g fits secret fresh sent width s same v =
    let kept = SentLock-of_send env a a' args m sent in
    let bp = transfer.balance_proof in
    let accepted = valid env a b a' args m transfer g secret kept width s same v in
    let locked = locked_amount_of_sent env a a' args m kept fresh in
    let transferred = transferred_of_sent env a a' args m kept in
    let enough = kept.enough in
    let limit = within_limit a.our_state a.partner_state g.ours.proof_for_locks fits in
    (
      subst
          (λ x.
            handle_receive_locked_transfer env b transfer
            ≡ ok (x, processed bp.sender transfer.message_id ∷ [], none))
          (accepted_state env a b a' args m transfer g kept same)
          (handled env b a'.our_state.merkle_tree transfer accepted),
      subst (λ x. InAgreement x (with_partner_lock b x.our_state bp)) (sym kept.kept)
          (agreement_of_lock env a b m bp a'.our_state.merkle_tree g s),
      transferred,
      ground arith,
      ground arith,
    )
