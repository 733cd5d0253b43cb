-- ===== src/Task/Payment/Steps.antt =====
-- The steps of a payment between an initiator and a target: what arrives, that the lock can be paid
-- out, and what each side does.
use pylons.Base.{
  ℕ, ◌+◌, ◌≤◌, ◌<◌, word64, List, [], ◌∷◌, none, some, false, add64, ◌≡◌, ◌≢◌, arith, ap, sym,
  subst, ◌∙◌, inl, inr,
}
use pylons.Base.Outcome.{ok, Outcome-cases}
use pylons.Common.{get_hash}
use pylons.State.{
  NettingChannelState, HashTimeLockState, MerkleTreeState, LockedTransferSignedState,
}
use pylons.State.SyncMap.{load, store, load-store}
use pylons.Event.{
  SendLockedTransfer, SendBalanceProof, send_balance_proof, event_payment_sent_success,
  event_unlock_success, event_payment_received_success, event_unlock_claim_success,
}
use pylons.StateChange.{RouteState, ReceiveUnlock}
use pylons.Merkle.{merkle_tree_width, contains, compute_merkle_tree_without}
use pylons.Merkle.RoundTrip.{tree_over, add_then_remove}
use pylons.Channel.Locks.{get_lock, is_lock_pending, transfer_expired, register_off_chain_secret}
use pylons.Channel.Locks.Registers.{Distinct, Distinct-store}
use pylons.Channel.Balance.{get_amount_locked, transferred_of}
use pylons.Channel.Packing.{
  is_valid_balance_proof_signature, calc_lock_hash, with_lock_hash, pack_data,
}
use pylons.Channel.Validity.{maximum_pending_transfers}
use pylons.Channel.Send.{TransferArgs, lock_of_args, record_locked_transfer}
use pylons.Channel.Unlock.{create_unlock, send_unlock}
use pylons.Channel.Receive.{handle_receive_locked_transfer}
use pylons.Channel.Result.{processed}
use pylons.Channel.Agreement.{InAgreement, SignedOf}
use pylons.Channel.Agreement.Locked.{SameLock, locked_transfer_agrees, with_partner_lock}
use pylons.Channel.Agreement.Locked.Checks.{lock_of, SentLock, SentLock-of_send}
use pylons.Channel.Agreement.Unlock.{unlock_agrees, with_partner_unlock}
use pylons.Task.{
  TaskEnv, decrypt_secret, TransferDescriptionWithSecretState, ReceiveSecretReveal,
  TargetTransferState, reveal_secret,
}
use pylons.Task.Timing.{md_is_safe_to_wait}
use pylons.Task.Initiator.{init_transfer_args, init_send_locked_transfer, new_attempt}
use pylons.Task.Initiator.Secrets.{
  is_reveal_for, init_events_for_unlock_lock, init_handle_off_chain_secret_reveal,
}
use pylons.Task.Target.{handle_init_target, reveal_along, tg_handle_unlock}
use pylons.Task.Payment.Registered.{handle_unlock-register}

-- A payment of which the transfer has been sent over channels in agreement, and has arrived with a
-- balance proof that the initiator signed: its secret hash is that of the secret, and is new to
-- the channel, and its lock hash is new to the tree.
pub record SentPayment (tasks : TaskEnv) (a b a' : NettingChannelState)
    (description : TransferDescriptionWithSecretState) (hashes : List ℕ) (msg_id height : ℕ)
    (m : SendLockedTransfer) (transfer : LockedTransferSignedState) : Type 0 where
  pub agreement : InAgreement a b
  pub fits : transferred_of a.our_state + get_amount_locked a.our_state < word64
  pub small : description.amount < word64
  pub hash_of_secret : get_hash tasks.env description.secret ≡ description.secret_hash
  pub nonzero : description.secret_hash ≢ 0
  pub distinct : Distinct a.our_state.secret_hashes_to_locked_locks
  pub new_lock : load description.secret_hash a.our_state.secret_hashes_to_locked_locks ≡ none
  pub new_proof : load description.secret_hash a.our_state.secret_hashes_to_unlocked_locks ≡ none
  pub not_back : load description.secret_hash b.our_state.secret_hashes_to_locked_locks ≡ none
  pub tree : a.our_state.merkle_tree ≡ tree_over tasks.env hashes
  pub new_leaf :
      contains hashes (
        calc_lock_hash tasks.env
          (lock_of_args (init_transfer_args tasks.env description a msg_id height)))
      ≡ false
  pub sent : init_send_locked_transfer tasks.env description a msg_id height ≡ ok (a', some m)
  pub width : merkle_tree_width a'.our_state.merkle_tree ≤ maximum_pending_transfers
  pub signed : SignedOf m.transfer.balance_proof transfer.balance_proof
  pub same_lock : SameLock m.transfer.lock transfer.lock
  pub signature :
      is_valid_balance_proof_signature tasks.env transfer.balance_proof b.partner_state.address
      ≡ ok tt

module _ (tasks : TaskEnv) (a b a' : NettingChannelState)
    (description : TransferDescriptionWithSecretState) (hashes : List ℕ) (msg_id height : ℕ)
    (m : SendLockedTransfer) (transfer : LockedTransferSignedState)
    (payment : SentPayment tasks a b a' description hashes msg_id height m transfer) where
  abbrev args : TransferArgs
  args = init_transfer_args tasks.env description a msg_id height

  abbrev k : ℕ
  k = description.secret_hash

  -- The target's channel after the transfer
  abbrev received : NettingChannelState
  received = with_partner_lock b a'.our_state transfer.balance_proof

  abbrev lock : HashTimeLockState
  lock = lock_of tasks.env args

  sent_lock : SentLock tasks.env a a' args m
  unfolding init_send_locked_transfer
  sent_lock = SentLock-of_send tasks.env a a' args m payment.sent

  pub arrived :
      (handle_receive_locked_transfer tasks.env b transfer
        ≡ ok (received, processed transfer.balance_proof.sender transfer.message_id ∷ [], none))
      × InAgreement a' received
  unfolding init_send_locked_transfer init_transfer_args
  arrived =
      let all =
        locked_transfer_agrees tasks.env a b a' args m transfer payment.agreement payment.fits
          payment.nonzero payment.new_lock payment.sent payment.width payment.signed
          payment.same_lock payment.signature in
      (all.0, all.1)

  pub hash_arrived : transfer.lock.secret_hash ≡ k
  unfolding with_lock_hash lock_of_args init_transfer_args
  hash_arrived = payment.same_lock.secret_hash ∙ ap (λ l. l.secret_hash) sent_lock.lock

  locked :
      a'.our_state.secret_hashes_to_locked_locks
      ≡ store k lock a.our_state.secret_hashes_to_locked_locks
  unfolding record_locked_transfer with_lock_hash lock_of_args init_transfer_args
  locked =
      ap (λ x. x.our_state.secret_hashes_to_locked_locks) sent_lock.kept
      ∙ ap (λ l. store l.secret_hash l a.our_state.secret_hashes_to_locked_locks) sent_lock.lock

  found : load k a'.our_state.secret_hashes_to_locked_locks ≡ some lock
  found =
      ap (load k) locked
      ∙ ground (arith, load-store k k lock a.our_state.secret_hashes_to_locked_locks)

  found_lock : get_lock a'.our_state k ≡ some lock
  unfolding get_lock
  found_lock = ground (arith, found)

  -- The leaf of the lock can be taken out of the tree again.
  leaf_out :
      (t : MerkleTreeState) × (compute_merkle_tree_without tasks.env a'.our_state.merkle_tree
          (calc_lock_hash tasks.env lock)
        ≡ ok t)
  unfolding calc_lock_hash with_lock_hash pack_data
  leaf_out =
      let leaf = calc_lock_hash tasks.env (lock_of_args args) in
      let (t, added, removed) = add_then_remove tasks.env hashes leaf payment.new_leaf in
      let same : some t ≡ some a'.our_state.merkle_tree =
        (ground (arith, added, payment.tree, sent_lock.tree)) in
      (tree_over tasks.env hashes, ground (arith, removed, same))

  -- The initiator can pay the lock out.
  pub unlock_goes_out :
      (msg_id payment_id : ℕ)
      → (a'' : NettingChannelState) × (u : SendBalanceProof) × (send_unlock tasks.env a' msg_id
            payment_id description.secret k
          ≡ ok (a'', some u))
  unfolding send_unlock create_unlock is_lock_pending with_lock_hash lock_of_args init_transfer_args
  unlock_goes_out msg_id payment_id =
      let (t, out) = leaf_out in
      elim (Outcome-cases (send_unlock tasks.env a' msg_id payment_id description.secret k)) [
        | inl ((a'', some u), e) ↦ (a'', u, e)
        | inl ((a'', none), e) ↦ absurd (ground (arith, found_lock, found, out))
        | inr (inl (reason, e)) ↦ absurd (ground (arith, found_lock, found, out))
        | inr (inr e) ↦ absurd (ground (arith, found_lock, found, out))
      ]

  -- The target's state after it has revealed the secret
  abbrev revealing : RouteState → TargetTransferState
  revealing route = record {
    route = route;
    transfer = transfer;
    secret = some description.secret;
    state = reveal_secret;
  }

  pub target_reveals :
      (route : RouteState) (target_height reveal_id : ℕ)
      → decrypt_secret tasks transfer.enc_secret ≡ some description.secret
      → md_is_safe_to_wait transfer.lock.expiration b.reveal_timeout target_height ≡ ok tt
      → transfer_expired tasks.env transfer b target_height ≡ false
      → handle_init_target tasks
          (record { route = route; transfer = transfer })
          b
          target_height
          reveal_id
        ≡ ok (record {
          new_state = some (revealing route);
          channels = register_off_chain_secret received description.secret k;
          events =
              processed transfer.balance_proof.sender transfer.message_id
              ∷ reveal_along route reveal_id description.secret
              ∷ [];
        })
  unfolding handle_init_target transfer_expired
  target_reveals route target_height reveal_id decrypts safe alive =
      ground (arith, arrived.0, hash_arrived, payment.hash_of_secret)

  pub initiator_unlocks :
      (reveal : ReceiveSecretReveal) (unlock_id : ℕ) (a'' : NettingChannelState)
      (u : SendBalanceProof)
      → reveal.secret ≡ description.secret
      → reveal.sender ≡ b.our_state.address
      → send_unlock tasks.env a' unlock_id description.payment_id description.secret k
        ≡ ok (a'', some u)
      → init_handle_off_chain_secret_reveal tasks.env
          (new_attempt tasks.env description a'.identifier m)
          reveal
          a'
          unlock_id
        ≡ ok (record {
          new_state = none;
          channels = a'';
          events =
              send_balance_proof (some u)
              ∷ event_payment_sent_success (record {
                payment_network_id = a'.payment_network_id;
                token_network_id = a'.token_network_id;
                identifier = description.payment_id;
                amount = description.amount;
                target = description.target;
              })
              ∷ event_unlock_success description.payment_id k
              ∷ processed reveal.sender reveal.message_id
              ∷ [];
        })
  unfolding init_handle_off_chain_secret_reveal is_reveal_for init_events_for_unlock_lock
      new_attempt get_hash
  initiator_unlocks reveal unlock_id a'' u is sender e =
      ground (arith, payment.hash_of_secret, arrived.1.opened_ours, arrived.1.theirs.address)

  pub target_receives :
      (target : TargetTransferState) (unlock_id : ℕ) (a'' : NettingChannelState)
      (u : SendBalanceProof) (unlock : ReceiveUnlock)
      → target.transfer ≡ transfer
      → send_unlock tasks.env a' unlock_id description.payment_id description.secret k
        ≡ ok (a'', some u)
      → SignedOf u.balance_proof unlock.balance_proof
      → get_hash tasks.env unlock.secret ≡ k
      → is_valid_balance_proof_signature tasks.env unlock.balance_proof b.partner_state.address
        ≡ ok tt
      → let b'' = with_partner_unlock received unlock.balance_proof a''.our_state.merkle_tree k in
        (tg_handle_unlock tasks
            (some target)
            unlock
            (register_off_chain_secret received description.secret k)
          ≡ ok (record {
            new_state = none;
            channels = b'';
            events =
                processed unlock.balance_proof.sender unlock.message_id
                ∷ event_payment_received_success (record {
                  payment_network_id = b.payment_network_id;
                  token_network_id = b.token_network_id;
                  identifier = transfer.payment_id;
                  amount = description.amount;
                  initiator = transfer.initiator;
                })
                ∷ event_unlock_claim_success transfer.payment_id k
                ∷ [];
          }))
        × InAgreement a'' b''
        × (u.balance_proof.transferred_amount
            ≡ add64 description.amount (transferred_of a'.our_state))
  unfolding tg_handle_unlock with_lock_hash lock_of_args init_transfer_args
  target_receives target unlock_id a'' u unlock is e s hash v =
      let all =
        unlock_agrees tasks.env a' received a'' unlock_id description.payment_id description.secret
          lock u unlock arrived.1 payment.small found_lock e s hash v in
      let b'' = with_partner_unlock received unlock.balance_proof a''.our_state.merkle_tree k in
      let handled =
        handle_unlock-register tasks.env received unlock description.secret k lock
          (b'', processed unlock.balance_proof.sender unlock.message_id ∷ [])
          (subst Distinct (sym locked)
            (Distinct-store k lock a.our_state.secret_hashes_to_locked_locks payment.distinct))
          (ap (load k) payment.agreement.ours.unlocked ∙ payment.new_proof) found payment.not_back
          hash all.1 in
      let amount = payment.same_lock.amount ∙ ap (λ l. l.amount) sent_lock.lock in
      (ground (arith, handled, amount, hash_arrived), all.2, all.3)
