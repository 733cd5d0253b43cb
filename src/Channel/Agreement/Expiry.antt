-- ===== src/Channel/Agreement/Expiry.antt =====
-- An expired lock between two channels in agreement: the sender of the lock drops it.
use pylons.Base.{
  ℕ, ◌≤◌, [], ◌∷◌, ◌≡◌, some, arith, sub64, add32, sub32, ap, subst, sym, ◌∙◌, refl, false,
}
use pylons.Base.Outcome.{ok}
use pylons.Common.{Env, block_height}
use pylons.State.{
  NettingChannelEndState, NettingChannelState, BalanceProofSignedState, BalanceProofUnsignedState,
  HashTimeLockState, MerkleTreeState,
}
use pylons.State.SyncMap.{load}
use pylons.Event.{SendLockExpired, send_lock_expired}
use pylons.StateChange.{ReceiveLockExpired}
use pylons.Merkle.{merkle_root, compute_merkle_tree_without}
use pylons.Channel.Result.{transition, processed}
use pylons.Channel.Locks.{del_unclaimed_lock, is_secret_known_on_chain}
use pylons.Channel.Balance.{get_amount_locked, get_next_nonce, transferred_of}
use pylons.Channel.Status.{get_status}
use pylons.Channel.Packing.{is_valid_balance_proof_signature, calc_lock_hash}
use pylons.Channel.Validity.{is_valid_lock_expired}
use pylons.Channel.Send.{fake_signed, next_balance_proof}
use pylons.Channel.Unlock.{create_send_expired_lock, events_for_expired_lock}
use pylons.Channel.Receive.{handle_receive_lock_expired}
use pylons.Channel.Agreement.{
  SameEnd, InAgreement, SignedOf, amount_locked, current_locked, current_transferred, usable,
}

-- An end after a lock has expired: a new balance proof and tree, and the lock gone.
abbrev after_expiry :
    NettingChannelEndState → BalanceProofSignedState → MerkleTreeState → ℕ → NettingChannelEndState
after_expiry e bp tree secret_hash =
    del_unclaimed_lock (record e { balance_proof = some bp; merkle_tree = tree }) secret_hash

-- The receiver's channel after it.
abbrev pub with_partner_expiry :
    NettingChannelState → BalanceProofSignedState → MerkleTreeState → ℕ → NettingChannelState
with_partner_expiry b bp tree secret_hash = record b {
  partner_state = after_expiry b.partner_state bp tree secret_hash;
}

SameEnd-after_expiry :
    (e f : NettingChannelEndState) (u : BalanceProofUnsignedState) (bp : BalanceProofSignedState)
    (tree : MerkleTreeState) (k : ℕ)
    → SameEnd e f
    → SignedOf u bp
    → SameEnd (after_expiry e (fake_signed u) tree k) (after_expiry f bp tree k)
unfolding del_unclaimed_lock get_next_nonce fake_signed get_amount_locked
SameEnd-after_expiry e f u bp tree k s g =
    let a = s.locked in
    let b = s.unlocked in
    let c = s.on_chain in
    record {
      address = s.address;
      deposit = s.deposit;
      withdrawn = s.withdrawn;
      locked = ground arith;
      unlocked = ground arith;
      on_chain = c;
      tree = refl;
      nonce = ground arith;
      transferred = g.transferred_amount;
      root = g.locks_root;
      proof_for_locks = λ h. ground arith;
      proof_for_locks' = λ h. ground arith;
    }

module _ (env : Env) where
  -- What the sender keeps.
  record SentExpiry (a a' : NettingChannelState) (lock : HashTimeLockState) (m : SendLockExpired)
      (tree : MerkleTreeState) : Type 0 where
    computed : compute_merkle_tree_without env a.our_state.merkle_tree lock.lock_hash ≡ ok tree
    proof :
        m.balance_proof
        ≡ next_balance_proof env a
            (transferred_of a.our_state)
            (sub64 (get_amount_locked a.our_state) lock.amount)
            (merkle_root tree.layers)
    kept : a' ≡ record a {
      our_state = after_expiry a.our_state (fake_signed m.balance_proof) tree lock.secret_hash;
    }
    names : m.secret_hash ≡ lock.secret_hash

  SentExpiry-of_send :
      (a a' : NettingChannelState) (lock : HashTimeLockState) (msg_id : ℕ) (m : SendLockExpired)
      → events_for_expired_lock env a lock msg_id ≡ ok (a', send_lock_expired m ∷ [])
      → SentExpiry a a' lock m a'.our_state.merkle_tree
  unfolding events_for_expired_lock create_send_expired_lock del_unclaimed_lock
  SentExpiry-of_send a a' lock msg_id m h = record {
    computed = ground arith;
    proof = ground arith;
    kept = ground arith;
    names = ground arith;
  }

  -- When the receiver takes a lock for expired: a fixed number of blocks after its expiration.
  abbrev pub expiry_of : HashTimeLockState → ℕ
  expiry_of lock =
      add32 lock.expiration
        (sub32 (block_height env.confirm_block_count) (block_height env.max_block_delay))

  valid_of_expiry :
      (a b a' : NettingChannelState) (lock : HashTimeLockState) (m : SendLockExpired)
      (tree : MerkleTreeState) (message : ReceiveLockExpired) (n : ℕ)
      → InAgreement a b
      → load lock.secret_hash a.our_state.secret_hashes_to_locked_locks ≡ some lock
      → calc_lock_hash env lock ≡ lock.lock_hash
      → is_secret_known_on_chain b.our_state lock.secret_hash ≡ false
      → expiry_of lock ≤ n
      → SentExpiry a a' lock m tree
      → message.secret_hash ≡ m.secret_hash
      → SignedOf m.balance_proof message.balance_proof
      → is_valid_balance_proof_signature env message.balance_proof b.partner_state.address ≡ ok tt
      → is_valid_lock_expired env message b b.partner_state b.our_state n ≡ ok tree
  unfolding is_valid_lock_expired next_balance_proof
  valid_of_expiry a b a' lock m tree message n g found hash unknown late kept names s v =
      let s' = subst (λ x. SignedOf x message.balance_proof) kept.proof s in
      let use_it = usable env a b _ _ _ message.balance_proof g s' v in
      let same = names ∙ kept.names in
      let found' =
        ap (load message.secret_hash) g.ours.locked
        ∙ ap (λ k. load k a.our_state.secret_hashes_to_locked_locks) same
        ∙ found in
      let unknown' = ap (is_secret_known_on_chain b.our_state) same ∙ unknown in
      let computed =
        subst (λ t. compute_merkle_tree_without env t (calc_lock_hash env lock) ≡ ok tree)
          (sym g.ours.tree)
          (ap (compute_merkle_tree_without env a.our_state.merkle_tree) hash ∙ kept.computed) in
      ground (
        arith,
        amount_locked a.our_state b.partner_state g.ours,
        current_locked b.partner_state,
        current_transferred b.partner_state,
        g.ours.transferred,
        s'.locked_amount,
        s'.transferred_amount,
        s'.locks_root,
      )

  handled :
      (b : NettingChannelState) (tree : MerkleTreeState) (message : ReceiveLockExpired) (n k : ℕ)
      → message.secret_hash ≡ k
      → is_valid_lock_expired env message b b.partner_state b.our_state n ≡ ok tree
      → handle_receive_lock_expired env b message n
        ≡ ok (
            transition
              (with_partner_expiry b message.balance_proof tree k)
              (processed message.balance_proof.sender message.message_id ∷ []))
  unfolding handle_receive_lock_expired
  handled b tree message n k same valid = ground arith

  agreement_of_expiry :
      (a b : NettingChannelState) (m : SendLockExpired) (bp : BalanceProofSignedState)
      (tree : MerkleTreeState) (k : ℕ)
      → InAgreement a b
      → SignedOf m.balance_proof bp
      → InAgreement
          (record a { our_state = after_expiry a.our_state (fake_signed m.balance_proof) tree k })
          (with_partner_expiry b bp tree k)
  unfolding get_status
  agreement_of_expiry a b m bp tree k g s = record {
    ours = SameEnd-after_expiry a.our_state b.partner_state m.balance_proof bp tree k g.ours s;
    theirs = g.theirs;
    identifier = g.identifier;
    chain_id = g.chain_id;
    token_network_id = g.token_network_id;
    opened_ours = g.opened_ours;
    opened_theirs = g.opened_theirs;
  }

-- Between two channels in agreement, the news that a locked lock of the sender has expired, which
-- arrives with a balance proof that the sender signed, is accepted and confirmed by the other from
-- the block on at which it takes the lock for expired, unless it has seen the secret on-chain:
-- both remove the same leaf from the same tree and drop the same lock, and the two channels are in
-- agreement again. The lock's recorded hash has to be the one that its data give.
pub lock_expired_agrees :
    (env : Env) (a b a' : NettingChannelState) (lock : HashTimeLockState) (msg_id n : ℕ)
    (m : SendLockExpired) (message : ReceiveLockExpired)
    → InAgreement a b
    → load lock.secret_hash a.our_state.secret_hashes_to_locked_locks ≡ some lock
    → calc_lock_hash env lock ≡ lock.lock_hash
    → is_secret_known_on_chain b.our_state lock.secret_hash ≡ false
    → expiry_of env lock ≤ n
    → events_for_expired_lock env a lock msg_id ≡ ok (a', send_lock_expired m ∷ [])
    → message.secret_hash ≡ m.secret_hash
    → SignedOf m.balance_proof message.balance_proof
    → is_valid_balance_proof_signature env message.balance_proof b.partner_state.address ≡ ok tt
    → (handle_receive_lock_expired env b message n
        ≡ ok (
            transition
              (with_partner_expiry b message.balance_proof a'.our_state.merkle_tree
                lock.secret_hash)
              (processed message.balance_proof.sender message.message_id ∷ [])))
      × InAgreement a'
          (with_partner_expiry b message.balance_proof a'.our_state.merkle_tree lock.secret_hash)
lock_expired_agrees env a b a' lock msg_id n m message g found hash unknown late sent names s v =
    let tree = a'.our_state.merkle_tree in
    let kept = SentExpiry-of_send env a a' lock msg_id m sent in
    let valid =
      valid_of_expiry env a b a' lock m tree message n g found hash unknown late kept names s v in
    (
      handled env b tree message n lock.secret_hash (names ∙ kept.names) valid,
      subst (λ x. InAgreement x (with_partner_expiry b message.balance_proof tree lock.secret_hash))
          (sym kept.kept)
          (agreement_of_expiry env a b m message.balance_proof tree lock.secret_hash g s),
    )
