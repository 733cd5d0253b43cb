-- ===== src/Task/Mediator/Lifetime/Pairs.antt =====
-- Whether a lock of some pairs is pending does not depend on their states or their order, so each
-- loop over the pairs leaves it as it was.
use mathlib.Core.List.{reverse-cons}
use pylons.Base.{
  ℕ, suc, List, [], ◌∷◌, ◌++◌, Bool, true, ◌||◌, map, reverse, ◌≡◌, refl, arith, inl, inr,
  Option-cases,
}
use pylons.Base.Outcome.{Outcome, ok, Outcome-cases}
use pylons.Common.{Env}
use pylons.State.SyncMap.{load, store}
use pylons.Event.{Event, Reason}
use pylons.StateChange.{ReceiveUnlock, ReceiveLockExpired}
use pylons.Channel.Receive.{handle_receive_lock_expired}
use pylons.Task.{TaskEnv, ChannelsMap}
use pylons.Task.Mediator.{
  MediationPairState, MediatorTransferState, payer_id, get_payer_channel, get_payee_channel,
}
use pylons.Task.Mediator.Secrets.{
  unlock_payees, reveal_to_payers, events_for_balance_proof, set_offchain_reveal_state,
  reveal_state_of,
}
use pylons.Task.Mediator.Payees.{paid, PaidAll-of_unlocks}
use pylons.Task.Mediator.Register.{danger_loop, closed_loop}
use pylons.Task.Mediator.Expiry.{expire_claims, events_to_remove_expired_locks, remove_expired_lock}
use pylons.Task.Mediator.Handlers.{unlock_from_payers, unlock_from_payer}
use pylons.Task.Mediator.Transition.{any_lock_pending, expire_payers}

-- What holds of the result, if there is one
abbrev pub WhenOk : {A : Type 0} → (A → Type 0) → Outcome Reason A → Type 0
WhenOk P (ok a) = P a
WhenOk P _ = Unit

module _ (channels : ChannelsMap) (secret_hash : ℕ) where
  abbrev pending : List MediationPairState → Bool
  pending pairs = any_lock_pending channels pairs secret_hash

  pub pending-append :
      (xs ys : List MediationPairState) → pending (xs ++ ys) ≡ (pending xs || pending ys)
  unfolding any_lock_pending
  pending-append [] ys = refl
  pending-append (x ∷ xs) ys = ground (arith, pending-append xs ys)

  pub pending-paid :
      (others : ChannelsMap) (pairs : List MediationPairState) (block_number : ℕ)
      → pending (map (paid others block_number) pairs) ≡ pending pairs
  unfolding any_lock_pending get_payer_channel get_payee_channel
  pending-paid others [] block_number = refl
  pending-paid others (pair ∷ pairs) block_number =
      ground (arith, pending-paid others pairs block_number)

  pub pending-told :
      (pairs : List MediationPairState) (secret : List ℕ) (ids : ℕ → ℕ)
      → pending (reveal_to_payers pairs secret ids).0 ≡ pending pairs
  unfolding any_lock_pending get_payer_channel get_payee_channel reveal_to_payers
  pending-told [] secret ids = refl
  pending-told (pair ∷ pairs) secret ids =
      ground (arith, pending-told pairs secret (λ n. ids (suc n)))

  pub pending-revealed :
      (pairs : List MediationPairState) (payee_address : ℕ)
      → pending (set_offchain_reveal_state pairs payee_address) ≡ pending pairs
  unfolding any_lock_pending get_payer_channel get_payee_channel set_offchain_reveal_state
      reveal_state_of
  pending-revealed [] payee_address = refl
  pending-revealed (pair ∷ pairs) payee_address =
      ground (arith, pending-revealed pairs payee_address)

  pub pending-danger :
      (others : ChannelsMap) (pairs : List MediationPairState) (height : ℕ) (sent : Bool)
      → pending (danger_loop others pairs height sent).0 ≡ pending pairs
  unfolding any_lock_pending get_payer_channel get_payee_channel danger_loop
  pending-danger others [] height sent = refl
  pending-danger others (pair ∷ pairs) height sent =
      ground
        (arith, pending-danger others pairs height sent, pending-danger others pairs height true)

  pub pending-claims :
      (env : Env) (others : ChannelsMap) (pairs : List MediationPairState) (height : ℕ)
      → pending (expire_claims env others pairs height).0 ≡ pending pairs
  unfolding any_lock_pending get_payer_channel get_payee_channel expire_claims
  pending-claims env others [] height = refl
  pending-claims env others (pair ∷ pairs) height =
      ground (arith, pending-claims env others pairs height)

  pub pending-closed :
      (others : ChannelsMap) (pairs : List MediationPairState) (secret : List ℕ) (k : ℕ)
      (sent : Bool)
      → WhenOk (λ result. pending result.0 ≡ pending pairs) (closed_loop others pairs secret k sent)
  unfolding any_lock_pending get_payer_channel get_payee_channel closed_loop
  pending-closed others [] secret k sent = refl
  pending-closed others (pair ∷ pairs) secret k sent =
      ground (
        arith,
        pending-closed others pairs secret k sent,
        pending-closed others pairs secret k true,
      )

  -- A pair with another state has the same transfers.
  abbrev SamePair : MediationPairState → MediationPairState → Type 0
  SamePair pair pair' =
      (pair'.payer_transfer ≡ pair.payer_transfer) × (pair'.payee_transfer ≡ pair.payee_transfer)

  SamePair-removed :
      (env : Env) (others : ChannelsMap) (pair : MediationPairState) (k height msg_id : ℕ)
      (result : MediationPairState × ChannelsMap × List Event)
      → remove_expired_lock env others pair k height msg_id ≡ ok result
      → SamePair pair result.0
  unfolding remove_expired_lock
  SamePair-removed env others pair k height msg_id result h = (ground arith, ground arith)

  pub pending-removed :
      (env : Env) (others : ChannelsMap) (pairs : List MediationPairState) (k height : ℕ)
      (ids : ℕ → ℕ)
      → WhenOk
          (λ done. pending done.pairs ≡ pending pairs)
          (events_to_remove_expired_locks env others pairs k height ids)
  unfolding any_lock_pending get_payer_channel get_payee_channel events_to_remove_expired_locks
  pending-removed env others [] k height ids = refl
  pending-removed env others (pair ∷ pairs) k height ids =
      elim (Outcome-cases (remove_expired_lock env others pair k height (ids 0))) [
        | inl (result, e) ↦
            let same = SamePair-removed env others pair k height (ids 0) result e in
            ground (
              arith,
              same.0,
              same.1,
              pending-removed env result.1 pairs k height (λ n. ids (suc n)),
            )
        | inr (inl (reason, e)) ↦ ground arith
        | inr (inr e) ↦ ground arith
      ]

  SamePair-unlocked :
      (tasks : TaskEnv) (unlock : ReceiveUnlock) (pair : MediationPairState) (others : ChannelsMap)
      (result : MediationPairState × ChannelsMap × List Event)
      → unlock_from_payer tasks unlock pair others ≡ ok result
      → SamePair pair result.0
  unfolding unlock_from_payer
  SamePair-unlocked tasks unlock pair others result h = (ground arith, ground arith)

  pub pending-unlocked :
      (tasks : TaskEnv) (unlock : ReceiveUnlock) (pairs : List MediationPairState)
      (others : ChannelsMap)
      → WhenOk
          (λ done. pending done.pairs ≡ pending pairs)
          (unlock_from_payers tasks unlock pairs others)
  unfolding any_lock_pending get_payer_channel get_payee_channel unlock_from_payers
  pending-unlocked tasks unlock [] others = refl
  pending-unlocked tasks unlock (pair ∷ pairs) others =
      elim (Outcome-cases (unlock_from_payer tasks unlock pair others)) [
        | inl (result, e) ↦
            let same = SamePair-unlocked tasks unlock pair others result e in
            ground (
              arith,
              same.0,
              same.1,
              pending-unlocked tasks unlock pairs result.1,
              pending-unlocked tasks unlock pairs others,
            )
        | inr (inl (reason, e)) ↦ ground (arith, pending-unlocked tasks unlock pairs others)
        | inr (inr e) ↦ ground (arith, pending-unlocked tasks unlock pairs others)
      ]

  pub pending-expired :
      (tasks : TaskEnv) (state : MediatorTransferState) (message : ReceiveLockExpired)
      (pairs : List MediationPairState) (others : ChannelsMap) (block_number : ℕ)
      → WhenOk
          (λ expired. pending expired.paired.pairs ≡ pending pairs)
          (expire_payers tasks state message pairs others block_number)
  unfolding any_lock_pending get_payer_channel get_payee_channel expire_payers
  pending-expired tasks state message [] others block_number = refl
  pending-expired tasks state message (pair ∷ pairs) others block_number =
      elim (Option-cases (load (payer_id pair) others)) [
        | inl missing ↦ ground arith
        | inr (channel, found) ↦
            elim (Outcome-cases
              (handle_receive_lock_expired tasks.env channel message block_number)) [
                | inl (result, e) ↦ elim (Option-cases result.new_state) [
                  | inl gone ↦ ground arith
                  | inr (channel', there) ↦ ground (
                    arith,
                    pending-expired tasks state message pairs
                        (store (payer_id pair) channel' others) block_number,
                  )
                ]
                | inr (inl (reason, e)) ↦ ground arith
                | inr (inr e) ↦ ground arith
              ]
      ]

  pub pending-reverse : (pairs : List MediationPairState) → pending (reverse pairs) ≡ pending pairs
  unfolding any_lock_pending
  pending-reverse [] = refl
  pending-reverse (pair ∷ pairs) =
      rw (reverse-cons)
        (ground (arith, pending-append (reverse pairs) (pair ∷ []), pending-reverse pairs))

  pub pending-paid_back :
      (env : Env) (others : ChannelsMap) (pairs : List MediationPairState) (block_number : ℕ)
      (secret : List ℕ) (k : ℕ) (ids : ℕ → ℕ)
      → WhenOk
          (λ done. pending done.pairs ≡ pending pairs)
          (events_for_balance_proof env others pairs block_number secret k ids)
  unfolding events_for_balance_proof
  pending-paid_back env others pairs block_number secret k ids =
      elim (Outcome-cases (unlock_payees env others (reverse pairs) block_number secret k ids)) [
        | inl (done, e) ↦
            let all =
              PaidAll-of_unlocks env others (reverse pairs) block_number secret k ids done e in
            ground (
              arith,
              all.pairs_paid,
              pending-paid others (reverse pairs) block_number,
              pending-reverse pairs,
            )
        | inr (inl (reason, e)) ↦ ground arith
        | inr (inr e) ↦ ground arith
      ]
