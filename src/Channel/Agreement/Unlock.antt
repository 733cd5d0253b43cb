-- ===== src/Channel/Agreement/Unlock.antt =====
-- An unlock between two channels in agreement: the sender of a lock pays it out off-chain.
use pylons.Base.{
  ℕ, List, [], ◌∷◌, ◌≡◌, none, some, arith, add64, sub64, ◌<◌, word64, ap, subst, sym, ◌∙◌,
}
use pylons.Base.Outcome.{ok}
use pylons.Common.{Env, get_hash}
use pylons.State.{
  NettingChannelEndState, NettingChannelState, BalanceProofSignedState, BalanceProofUnsignedState,
  HashTimeLockState, MerkleTreeState,
}
use pylons.Event.{SendBalanceProof}
use pylons.StateChange.{ReceiveUnlock}
use pylons.Merkle.{merkle_root, compute_merkle_tree_without}
use pylons.Channel.Result.{processed}
use pylons.Channel.Locks.{get_lock, is_lock_pending, del_lock}
use pylons.Channel.Balance.{get_amount_locked, get_next_nonce, transferred_of}
use pylons.Channel.Status.{get_status}
use pylons.Channel.Packing.{is_valid_balance_proof_signature, calc_lock_hash}
use pylons.Channel.Validity.{is_valid_unlock}
use pylons.Channel.Send.{fake_signed, next_balance_proof}
use pylons.Channel.Unlock.{create_unlock, send_unlock}
use pylons.Channel.Receive.{handle_unlock}
use pylons.Channel.Agreement.{
  SameEnd, InAgreement, SignedOf, amount_locked, current_locked, current_transferred, usable,
}

-- An end after an unlock: a new balance proof and tree, and the lock gone.
abbrev after_unlock :
    NettingChannelEndState → BalanceProofSignedState → MerkleTreeState → ℕ → NettingChannelEndState
after_unlock e bp tree secret_hash =
    del_lock (record e { balance_proof = some bp; merkle_tree = tree }) secret_hash

-- The receiver's channel after an unlock.
abbrev pub with_partner_unlock :
    NettingChannelState → BalanceProofSignedState → MerkleTreeState → ℕ → NettingChannelState
with_partner_unlock b bp tree secret_hash = record b {
  partner_state = after_unlock b.partner_state bp tree secret_hash;
}

get_lock_same : (e f : NettingChannelEndState) (k : ℕ) → SameEnd e f → get_lock f k ≡ get_lock e k
unfolding get_lock
get_lock_same e f k s = ground (arith, s.locked, s.unlocked, s.on_chain)

SameEnd-after_unlock :
    (e f : NettingChannelEndState) (u : BalanceProofUnsignedState) (bp : BalanceProofSignedState)
    (tree : MerkleTreeState) (k : ℕ)
    → SameEnd e f
    → SignedOf u bp
    → SameEnd (after_unlock e (fake_signed u) tree k) (after_unlock f bp tree k)
unfolding del_lock get_next_nonce is_lock_pending fake_signed
SameEnd-after_unlock e f u bp tree k s g =
    let a = s.locked in
    let b = s.unlocked in
    let c = s.on_chain in
    record {
      address = ground arith;
      deposit = ground arith;
      withdrawn = ground arith;
      locked = ground arith;
      unlocked = ground arith;
      on_chain = ground arith;
      tree = ground arith;
      nonce = ground arith;
      transferred = ground arith;
      root = ground arith;
      proof_for_locks = λ h. ground arith;
      proof_for_locks' = λ h. ground arith;
    }

module _ (env : Env) where
  -- What the sender keeps.
  record SentUnlock (a a' : NettingChannelState) (secret_hash : ℕ) (lock : HashTimeLockState)
      (u : SendBalanceProof) (tree : MerkleTreeState) : Type 0 where
    computed :
        compute_merkle_tree_without env a.our_state.merkle_tree (calc_lock_hash env lock) ≡ ok tree
    proof :
        u.balance_proof
        ≡ next_balance_proof env a
            (add64 lock.amount (transferred_of a.our_state))
            (sub64 (get_amount_locked a.our_state) lock.amount)
            (merkle_root tree.layers)
    kept : a' ≡ record a {
      our_state = after_unlock a.our_state (fake_signed u.balance_proof) tree lock.secret_hash;
    }

  SentUnlock-of_send :
      (a a' : NettingChannelState) (message_id payment_id : ℕ) (secret : List ℕ) (secret_hash : ℕ)
      (lock : HashTimeLockState) (u : SendBalanceProof)
      → lock.amount < word64
      → get_lock a.our_state secret_hash ≡ some lock
      → send_unlock env a message_id payment_id secret secret_hash ≡ ok (a', some u)
      → SentUnlock a a' secret_hash lock u a'.our_state.merkle_tree
  unfolding send_unlock create_unlock del_lock
  SentUnlock-of_send a a' message_id payment_id secret secret_hash lock u lt found h = record {
    computed = ground arith;
    proof = ground arith;
    kept = ground arith;
  }

  valid_of_unlock :
      (a b a' : NettingChannelState) (secret_hash : ℕ) (lock : HashTimeLockState)
      (u : SendBalanceProof) (tree : MerkleTreeState) (unlock : ReceiveUnlock)
      → InAgreement a b
      → get_lock a.our_state secret_hash ≡ some lock
      → SentUnlock a a' secret_hash lock u tree
      → SignedOf u.balance_proof unlock.balance_proof
      → is_valid_balance_proof_signature env unlock.balance_proof b.partner_state.address ≡ ok tt
      → is_valid_unlock env unlock secret_hash b b.partner_state ≡ ok tree
  unfolding is_valid_unlock next_balance_proof
  valid_of_unlock a b a' secret_hash lock u tree unlock g found kept s v =
      let s' = subst (λ x. SignedOf x unlock.balance_proof) kept.proof s in
      let use_it = usable env a b _ _ _ unlock.balance_proof g s' v in
      let found' = get_lock_same a.our_state b.partner_state secret_hash g.ours ∙ found in
      let computed =
        subst (λ t. compute_merkle_tree_without env t (calc_lock_hash env lock) ≡ ok tree)
          (sym g.ours.tree) kept.computed in
      ground (
        arith,
        amount_locked a.our_state b.partner_state g.ours,
        current_locked b.partner_state,
        current_transferred b.partner_state,
        g.ours.transferred,
        s'.locked_amount,
        s'.transferred_amount,
        s'.locks_root,
      )

  handled :
      (b : NettingChannelState) (tree : MerkleTreeState) (unlock : ReceiveUnlock)
      → is_valid_unlock env unlock (get_hash env unlock.secret) b b.partner_state ≡ ok tree
      → handle_unlock env b unlock
        ≡ ok (
          with_partner_unlock b unlock.balance_proof tree (get_hash env unlock.secret),
          processed unlock.balance_proof.sender unlock.message_id ∷ [],
          none,
        )
  unfolding handle_unlock
  handled b tree unlock valid = ground arith

  -- The two ends delete the same lock from the same registers.
  agreement_of_unlock :
      (a b : NettingChannelState) (u : SendBalanceProof) (bp : BalanceProofSignedState)
      (tree : MerkleTreeState) (k : ℕ)
      → InAgreement a b
      → SignedOf u.balance_proof bp
      → InAgreement
          (record a { our_state = after_unlock a.our_state (fake_signed u.balance_proof) tree k })
          (record b { partner_state = after_unlock b.partner_state bp tree k })
  unfolding get_status
  agreement_of_unlock a b u bp tree k g s = record {
    ours = SameEnd-after_unlock a.our_state b.partner_state u.balance_proof bp tree k g.ours s;
    theirs = g.theirs;
    identifier = g.identifier;
    chain_id = g.chain_id;
    token_network_id = g.token_network_id;
    opened_ours = g.opened_ours;
    opened_theirs = g.opened_theirs;
  }

-- Between two channels in agreement, an unlock that one participant sends for a lock with a
-- 64-bit amount that it holds under the lock's own secret hash, and that arrives with the secret
-- and with a balance proof that the sender signed, is accepted and confirmed by the other: both
-- remove the same leaf from the same tree and delete the same lock, the sender's transferred
-- amount is up by the lock's amount, modulo 2^64, and the two channels are in agreement again.
pub unlock_agrees :
    (env : Env) (a b a' : NettingChannelState) (message_id payment_id : ℕ) (secret : List ℕ)
    (lock : HashTimeLockState) (u : SendBalanceProof) (unlock : ReceiveUnlock)
    → InAgreement a b
    → lock.amount < word64
    → get_lock a.our_state lock.secret_hash ≡ some lock
    → send_unlock env a message_id payment_id secret lock.secret_hash ≡ ok (a', some u)
    → SignedOf u.balance_proof unlock.balance_proof
    → get_hash env unlock.secret ≡ lock.secret_hash
    → is_valid_balance_proof_signature env unlock.balance_proof b.partner_state.address ≡ ok tt
    → (compute_merkle_tree_without env b.partner_state.merkle_tree (calc_lock_hash env lock)
        ≡ ok a'.our_state.merkle_tree)
      × (handle_unlock env b unlock
          ≡ ok (
            with_partner_unlock b unlock.balance_proof a'.our_state.merkle_tree lock.secret_hash,
            processed unlock.balance_proof.sender unlock.message_id ∷ [],
            none,
          ))
      × InAgreement a'
          (with_partner_unlock b unlock.balance_proof a'.our_state.merkle_tree lock.secret_hash)
      × (u.balance_proof.transferred_amount ≡ add64 lock.amount (transferred_of a.our_state))
unfolding next_balance_proof
unlock_agrees env a b a' message_id payment_id secret lock u unlock g lt found sent s hash v =
    let tree = a'.our_state.merkle_tree in
    let kept =
      SentUnlock-of_send env a a' message_id payment_id secret lock.secret_hash lock u lt found
        sent in
    let valid = valid_of_unlock env a b a' lock.secret_hash lock u tree unlock g found kept s v in
    (
      subst (λ t. compute_merkle_tree_without env t (calc_lock_hash env lock) ≡ ok tree)
          (sym g.ours.tree) kept.computed,
      subst
          (λ k.
            is_valid_unlock env unlock k b b.partner_state ≡ ok tree
            → handle_unlock env b unlock
              ≡ ok (
                with_partner_unlock b unlock.balance_proof tree k,
                processed unlock.balance_proof.sender unlock.message_id ∷ [],
                none,
              ))
          hash (handled env b tree unlock) valid,
      subst (λ x. InAgreement x (with_partner_unlock b unlock.balance_proof tree lock.secret_hash))
          (sym kept.kept)
          (agreement_of_unlock env a b u unlock.balance_proof tree lock.secret_hash g s),
      ap (λ p. p.transferred_amount) kept.proof,
    )
