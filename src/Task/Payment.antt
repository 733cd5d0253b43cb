-- ===== src/Task/Payment.antt =====
-- A whole payment between an initiator and a target that share a channel: the locked transfer, the
-- secret that the target decrypts and reveals, the unlock, and the payment received. The channel
-- of the initiator is `a`, that of the target `b`.
pub mod Registered
pub mod Steps
pub mod Undecryptable
use pylons.Base.{
  ℕ, ◌+◌, ◌≤◌, ◌<◌, word64, List, [], ◌∷◌, ◌++◌, Option, none, some, Bool, true, false, add64, ◌≡◌,
  ◌≢◌, refl, arith, ap, sym, subst, ◌∙◌, inl, inr,
}
use pylons.Base.Outcome.{Outcome, ok, err, panic, Outcome-cases}
use pylons.Common.{Env, get_hash}
use pylons.State.{
  NettingChannelEndState, NettingChannelState, HashTimeLockState, BalanceProofSignedState,
  MerkleTreeState, LockedTransferSignedState,
}
use pylons.State.SyncMap.{load, store, load-store}
use pylons.Event.{
  Event, SendLockedTransfer, SendBalanceProof, send_balance_proof, event_payment_sent_success,
  event_unlock_success, event_payment_received_success, event_unlock_claim_success,
}
use pylons.StateChange.{RouteState, ReceiveUnlock}
use pylons.Merkle.{
  merkle_tree_width, contains, compute_merkle_tree_with, compute_merkle_tree_without,
}
use pylons.Merkle.RoundTrip.{tree_over, add_then_remove}
use pylons.Channel.Locks.{
  get_lock, is_lock_pending, del_lock, transfer_expired, register_off_chain_secret,
  register_secret_end_state,
}
use pylons.Channel.Locks.Registers.{Distinct, Distinct-store}
use pylons.Channel.Balance.{get_amount_locked, transferred_of}
use pylons.Channel.Status.{get_status, opened}
use pylons.Channel.Packing.{
  is_valid_balance_proof_signature, calc_lock_hash, with_lock_hash, pack_data,
}
use pylons.Channel.Validity.{maximum_pending_transfers, is_valid_unlock}
use pylons.Channel.Send.{
  TransferArgs, lock_of_args, send_locked_transfer, record_locked_transfer, fake_signed,
}
use pylons.Channel.Unlock.{create_unlock, send_unlock}
use pylons.Channel.Receive.{handle_receive_locked_transfer, handle_unlock}
use pylons.Channel.Result.{processed}
use pylons.Channel.Agreement.{InAgreement, SignedOf}
use pylons.Channel.Agreement.Locked.{SameLock, locked_transfer_agrees, with_partner_lock}
use pylons.Channel.Agreement.Locked.Checks.{lock_of, SentLock, SentLock-of_send, same_hash}
use pylons.Channel.Agreement.Unlock.{unlock_agrees, with_partner_unlock}
use pylons.Task.{
  TaskEnv, decrypt_secret, Iteration, TransferDescriptionWithSecretState, ActionInitTarget,
  ReceiveSecretReveal, TargetTransferState, reveal_secret,
}
use pylons.Task.Timing.{md_is_safe_to_wait}
use pylons.Task.Initiator.{init_transfer_args, init_send_locked_transfer, new_attempt}
use pylons.Task.Initiator.Secrets.{
  is_reveal_for, init_events_for_unlock_lock, init_handle_off_chain_secret_reveal,
}
use pylons.Task.Target.{handle_init_target, reveal_along, tg_handle_unlock}
use pylons.Task.Payment.Registered.{handle_unlock-register}
use pylons.Task.Payment.Steps.{
  SentPayment, target_reveals, unlock_goes_out, initiator_unlocks, target_receives,
}

-- A payment whose transfer is sent and has arrived, and whose secret the target can decrypt, while
-- the lock leaves the target time to wait and has not expired: the target starts its task and
-- reveals the secret, and when that reveal reaches the initiator, the initiator can pay the lock
-- out, sends the unlock, reports the payment as sent, and forgets it.
pub payment_is_sent :
    (tasks : TaskEnv) (a b a' : NettingChannelState)
    (description : TransferDescriptionWithSecretState) (hashes : List ℕ) (msg_id height : ℕ)
    (m : SendLockedTransfer) (transfer : LockedTransferSignedState) (route : RouteState)
    (target_height reveal_id unlock_id : ℕ) (reveal : ReceiveSecretReveal)
    → SentPayment tasks a b a' description hashes msg_id height m transfer
    → decrypt_secret tasks transfer.enc_secret ≡ some description.secret
    → md_is_safe_to_wait transfer.lock.expiration b.reveal_timeout target_height ≡ ok tt
    → transfer_expired tasks.env transfer b target_height ≡ false
    → reveal.secret ≡ description.secret
    → reveal.sender ≡ b.our_state.address
    → let received = with_partner_lock b a'.our_state transfer.balance_proof in
      (handle_init_target tasks
          (record { route = route; transfer = transfer })
          b
          target_height
          reveal_id
        ≡ ok (record {
          new_state = some (record {
            route = route;
            transfer = transfer;
            secret = some description.secret;
            state = reveal_secret;
          });
          channels = register_off_chain_secret received description.secret description.secret_hash;
          events =
              processed transfer.balance_proof.sender transfer.message_id
              ∷ reveal_along route reveal_id description.secret
              ∷ [];
        }))
      × ((a'' : NettingChannelState) × (u : SendBalanceProof) × (send_unlock tasks.env a' unlock_id
              description.payment_id description.secret description.secret_hash
            ≡ ok (a'', some u))
          × (init_handle_off_chain_secret_reveal tasks.env
                (new_attempt tasks.env description a'.identifier m)
                reveal
                a'
                unlock_id
              ≡ ok (record {
                new_state = none;
                channels = a'';
                events =
                    send_balance_proof (some u)
                    ∷ event_payment_sent_success (record {
                      payment_network_id = a'.payment_network_id;
                      token_network_id = a'.token_network_id;
                      identifier = description.payment_id;
                      amount = description.amount;
                      target = description.target;
                    })
                    ∷ event_unlock_success description.payment_id description.secret_hash
                    ∷ processed reveal.sender reveal.message_id
                    ∷ [];
              })))
payment_is_sent tasks a b a' description hashes msg_id height m transfer route target_height
      reveal_id unlock_id reveal payment decrypts safe alive is sender =
    let starts =
      target_reveals tasks a b a' description hashes msg_id height m transfer payment route
        target_height reveal_id decrypts safe alive in
    let (a'', u, e) =
      unlock_goes_out tasks a b a' description hashes msg_id height m transfer payment unlock_id
        description.payment_id in
    (
      starts,
      (
        a'',
        u,
        e,
        initiator_unlocks tasks a b a' description hashes msg_id height m transfer payment reveal
            unlock_id a'' u is sender e,
      ),
    )

-- A payment whose transfer is sent and has arrived, and whose secret the target has registered:
-- when the initiator's unlock arrives with the secret and with a balance proof that the initiator
-- signed, the target accepts and confirms it, reports exactly the payment's amount as received,
-- and forgets the task; the two channels are in agreement again, with no trace of the lock, and
-- what the initiator has transferred is up by the amount, modulo 2^64.
pub payment_is_received :
    (tasks : TaskEnv) (a b a' a'' : NettingChannelState)
    (description : TransferDescriptionWithSecretState) (hashes : List ℕ)
    (msg_id height unlock_id : ℕ) (m : SendLockedTransfer) (transfer : LockedTransferSignedState)
    (target : TargetTransferState) (u : SendBalanceProof) (unlock : ReceiveUnlock)
    → SentPayment tasks a b a' description hashes msg_id height m transfer
    → target.transfer ≡ transfer
    → send_unlock tasks.env a' unlock_id description.payment_id description.secret
        description.secret_hash
      ≡ ok (a'', some u)
    → SignedOf u.balance_proof unlock.balance_proof
    → get_hash tasks.env unlock.secret ≡ description.secret_hash
    → is_valid_balance_proof_signature tasks.env unlock.balance_proof b.partner_state.address
      ≡ ok tt
    → let received = with_partner_lock b a'.our_state transfer.balance_proof in
      let b'' =
        with_partner_unlock received unlock.balance_proof a''.our_state.merkle_tree
          description.secret_hash in
      (tg_handle_unlock tasks
          (some target)
          unlock
          (register_off_chain_secret received description.secret description.secret_hash)
        ≡ ok (record {
          new_state = none;
          channels = b'';
          events =
              processed unlock.balance_proof.sender unlock.message_id
              ∷ event_payment_received_success (record {
                payment_network_id = b.payment_network_id;
                token_network_id = b.token_network_id;
                identifier = transfer.payment_id;
                amount = description.amount;
                initiator = transfer.initiator;
              })
              ∷ event_unlock_claim_success transfer.payment_id description.secret_hash
              ∷ [];
        }))
      × InAgreement a'' b''
      × (u.balance_proof.transferred_amount
          ≡ add64 description.amount (transferred_of a'.our_state))
payment_is_received tasks a b a' a'' description hashes msg_id height unlock_id m transfer target u
      unlock payment is e s hash v =
    target_receives tasks a b a' description hashes msg_id height m transfer payment target
      unlock_id a'' u unlock is e s hash v
