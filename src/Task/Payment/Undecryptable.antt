-- ===== src/Task/Payment/Undecryptable.antt =====
-- A payment with a secret that the target cannot decrypt.
use pylons.Base.{ℕ, List, none, some, false, ◌≡◌, arith, inl, inr, Option-cases, ◌==◌}
use pylons.Base.Outcome.{ok, panic}
use pylons.Common.{get_hash}
use pylons.State.{NettingChannelState, LockedTransferSignedState}
use pylons.Event.{SendLockedTransfer}
use pylons.StateChange.{RouteState}
use pylons.Task.{TaskEnv, decrypt_secret, TransferDescriptionWithSecretState, TaskStateChange}
use pylons.Task.Timing.{md_is_safe_to_wait}
use pylons.Task.Target.{handle_init_target, tg_state_transition}
use pylons.Task.Payment.Steps.{SentPayment, arrived, hash_arrived}

-- A payment whose transfer is sent and has arrived, while the lock leaves the target time to wait:
-- when the encrypted secret that came with it decrypts to nothing, or to nothing that has the hash
-- of the payment's secret, then the target's task cannot start, and the transition panics.
pub undecryptable_payment_panics :
    (tasks : TaskEnv) (a b a' : NettingChannelState)
    (description : TransferDescriptionWithSecretState) (hashes : List ℕ) (msg_id height : ℕ)
    (m : SendLockedTransfer) (transfer : LockedTransferSignedState) (route : RouteState)
    (target_height reveal_id : ℕ)
    → SentPayment tasks a b a' description hashes msg_id height m transfer
    → md_is_safe_to_wait transfer.lock.expiration b.reveal_timeout target_height ≡ ok tt
    → ((secret : List ℕ)
        → decrypt_secret tasks transfer.enc_secret ≡ some secret
        → (get_hash tasks.env secret == description.secret_hash) ≡ false)
    → tg_state_transition tasks none
        (TaskStateChange.action_init_target (record { route = route; transfer = transfer }))
        b
        target_height
        reveal_id
      ≡ panic
unfolding tg_state_transition handle_init_target
undecryptable_payment_panics tasks a b a' description hashes msg_id height m transfer route
      target_height reveal_id payment safe wrong =
    let came = (arrived tasks a b a' description hashes msg_id height m transfer payment).0 in
    let hash = hash_arrived tasks a b a' description hashes msg_id height m transfer payment in
    elim (Option-cases (decrypt_secret tasks transfer.enc_secret)) [
      | inl nothing ↦ rw (came) (ground (arith, nothing, safe))
      | inr (secret, decrypts) ↦
          let other = wrong secret decrypts in
          rw (came) (ground (arith, other, decrypts, safe, hash))
    ]
