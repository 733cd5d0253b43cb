-- ===== src/Task/Mediator/Payers.antt =====
-- The secret on its way from a mediator to its payers (eventsForSecretReveal).
use pylons.Base.{ℕ, suc, List, [], ◌∷◌, ◌≡◌, refl, arith, ◌⊎◌, inl, inr, true, false, Bool-cases}
use pylons.Event.{Event, SendSecretReveal, channel_id_global_queue, send_secret_reveal}
use pylons.Task.Mediator.{
  MediationPairState, PayeeStatus, payee_secret_revealed, payee_contract_unlock,
  payee_balance_proof, PayerStatus, payer_pending, payer_secret_revealed, knows_payee,
  is_payer_pending,
}
use pylons.Task.Mediator.Secrets.{should_send_secret, reveal_to_payer, reveal_to_payers}

-- The payee knows the secret while the payer is pending.
pub record ToTell (pair : MediationPairState) : Type 0 where
  pub pending : pair.payer_state ≡ payer_pending
  pub learned :
      (pair.payee_state ≡ payee_secret_revealed)
      ⊎ ((pair.payee_state ≡ payee_contract_unlock) ⊎ (pair.payee_state ≡ payee_balance_proof))

-- A message that tells the secret to the payer of a pair
pub record Tells (pair : MediationPairState) (secret : List ℕ) (reveal : SendSecretReveal)
    : Type 0 where
  pub recipient : reveal.message.recipient ≡ pair.payer_transfer.balance_proof.sender
  pub queue : reveal.message.channel_id ≡ channel_id_global_queue
  pub secret_told : reveal.secret ≡ secret

-- The pairs before and after, and the messages: one for each payer that is to be told
pub data Reveals (secret : List ℕ)
    : List MediationPairState → List MediationPairState → List Event → Type 0 where
  all_told : Reveals secret [] [] []
  tells :
      {pairs pairs' : List MediationPairState} {events : List Event}
      → (pair : MediationPairState) → (reveal : SendSecretReveal) → ToTell pair
      → Tells pair secret reveal
      → Reveals secret pairs pairs' events
      → Reveals secret
          (pair ∷ pairs)
          (record pair { payer_state = payer_secret_revealed } ∷ pairs')
          (send_secret_reveal reveal ∷ events)
  passes :
      {pairs pairs' : List MediationPairState} {events : List Event}
      → (pair : MediationPairState) → (¬ ToTell pair)
      → Reveals secret pairs pairs' events
      → Reveals secret (pair ∷ pairs) (pair ∷ pairs') events

is_payer_pending→≡ : (s : PayerStatus) → is_payer_pending s ≡ true → s ≡ payer_pending
is_payer_pending→≡ s h = ground arith

knows_payee→≡ :
    (s : PayeeStatus)
    → knows_payee s ≡ true
    → (s ≡ payee_secret_revealed) ⊎ ((s ≡ payee_contract_unlock) ⊎ (s ≡ payee_balance_proof))
knows_payee→≡ s h = ground arith

ToTell-of_test : (pair : MediationPairState) → should_send_secret pair ≡ true → ToTell pair
unfolding should_send_secret
ToTell-of_test pair h = record {
  pending = is_payer_pending→≡ pair.payer_state (ground arith);
  learned = knows_payee→≡ pair.payee_state (ground arith);
}

ToTell-not : (pair : MediationPairState) → should_send_secret pair ≡ false → ¬ ToTell pair
unfolding should_send_secret
ToTell-not pair h due = let a = due.pending in let b = due.learned in ground arith

Reveals-of_reveal :
    (pairs : List MediationPairState) (secret : List ℕ) (ids : ℕ → ℕ)
    → let told = reveal_to_payers pairs secret ids in Reveals secret pairs told.0 told.1
unfolding reveal_to_payers reveal_to_payer
Reveals-of_reveal [] secret ids = all_told
Reveals-of_reveal (pair ∷ pairs) secret ids =
    let rest = Reveals-of_reveal pairs secret (λ n. ids (suc n)) in
    elim (Bool-cases (should_send_secret pair)) [
      | inl due ↦ rw due (
          tells pair _ (ToTell-of_test pair due)
            (record { recipient = refl; queue = refl; secret_told = refl }) rest)
      | inr other ↦ rw other (passes pair (ToTell-not pair other) rest)
    ]

told_again :
    (pairs : List MediationPairState) (secret secret' : List ℕ) (ids ids' : ℕ → ℕ)
    → let told = reveal_to_payers pairs secret ids in
      reveal_to_payers told.0 secret' ids' ≡ (told.0, [])
unfolding reveal_to_payers should_send_secret
told_again [] secret secret' ids ids' = refl
told_again (pair ∷ pairs) secret secret' ids ids' =
    ground (arith, told_again pairs secret secret' (λ n. ids (suc n)) (λ n. ids' (suc n)))

-- When a mediator reveals a secret over its pairs, it sends one message for each pair whose payee
-- knows the secret while its payer is still pending, and none for the others: the message goes to
-- the payer's end, which sent the transfer, and holds that secret. The payers that are told are
-- marked so, and nothing else of the pairs changes. When it goes over the pairs again, with any
-- secret, it sends nothing and changes nothing.
pub payers_told_once :
    (pairs : List MediationPairState) (secret secret' : List ℕ) (ids ids' : ℕ → ℕ)
    → let told = reveal_to_payers pairs secret ids in
      Reveals secret pairs told.0 told.1 × (reveal_to_payers told.0 secret' ids' ≡ (told.0, []))
payers_told_once pairs secret secret' ids ids' =
    (Reveals-of_reveal pairs secret ids, told_again pairs secret secret' ids ids')
