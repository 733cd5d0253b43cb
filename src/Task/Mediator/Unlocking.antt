-- ===== src/Task/Mediator/Unlocking.antt =====
-- The unlocks that a mediator sends to its payees (eventsForBalanceProof), one pair after the other.
use pylons.Base.{
  ℕ, suc, ◌+◌, ◌<◌, ◌%◌, word64, add64, u32, List, [], ◌∷◌, Option, none, some, true, false, ◌≡◌,
  arith, inl, inr, Bool-cases, Option-cases, subst,
}
use pylons.Base.Outcome.{ok, Outcome-cases}
use pylons.Common.{Env}
use pylons.State.{NettingChannelState, HashTimeLockState, MerkleTreeState}
use pylons.State.SyncMap.{load, store}
use pylons.Event.{Event, SendBalanceProof, send_balance_proof, event_unlock_success}
use pylons.Channel.Locks.{get_lock}
use pylons.Channel.Balance.{transferred_of}
use pylons.Channel.Status.{ChannelStatus, get_status, opened, is_opened}
use pylons.Channel.Send.{next_balance_proof, message_to_partner}
use pylons.Channel.Unlock.{create_unlock, send_unlock}
use pylons.Task.{ChannelsMap}
use pylons.Task.Timing.{md_is_safe_to_wait}
use pylons.Task.Mediator.{
  MediationPairState, PayeeStatus, payee_secret_revealed, payee_balance_proof, payee_id,
  get_payer_channel, get_payee_channel, knows_payee, is_payee_paid,
}
use pylons.Task.Mediator.Secrets.{Paired, should_unlock, unlock_payee, unlock_payees}

-- The payee is to be paid: it has told the secret and is not paid, over a channel that is open, and
-- the payer's lock leaves more blocks than the payer's channel takes to reveal a secret.
pub record Due (channels : ChannelsMap) (pair : MediationPairState) (block_number : ℕ)
    : Type 0 where
  pub payer : NettingChannelState
  pub payer_there : load pair.payer_transfer.balance_proof.channel_id channels ≡ some payer
  pub in_time : payer.reveal_timeout + block_number < u32 pair.payer_transfer.lock.expiration
  pub payee : NettingChannelState
  pub payee_there : load pair.payee_transfer.balance_proof.channel_id channels ≡ some payee
  pub is_open : get_status payee ≡ opened
  pub learned : pair.payee_state ≡ payee_secret_revealed

-- The unlock of a lock towards a payee
pub record UnlockOf (payee : NettingChannelState) (pair : MediationPairState) (secret : List ℕ)
    (lock : HashTimeLockState) (unlock : SendBalanceProof) : Type 0 where
  pub recipient : unlock.message.recipient ≡ payee.partner_state.address
  pub channel : unlock.message.channel_id ≡ payee.identifier
  pub payment : unlock.payment_id ≡ pair.payee_transfer.payment_id
  pub secret_given : unlock.secret ≡ secret
  pub amount :
      unlock.balance_proof.transferred_amount % word64
      ≡ add64 lock.amount (transferred_of payee.our_state)

-- What is sent to a payee: the unlock of the lock, or nil, over a channel that is left as it was,
-- when the channel has no lock of that hash.
pub data Sent (payee : NettingChannelState) (pair : MediationPairState) (secret : List ℕ)
    (secret_hash : ℕ) (payee' : NettingChannelState) (unlock : Option SendBalanceProof)
    : Type 0 where
  unlocked :
      (lock : HashTimeLockState)
      → (u : SendBalanceProof) → get_lock payee.our_state secret_hash ≡ some lock
      → unlock ≡ some u
      → UnlockOf payee pair secret lock u
      → Sent payee pair secret secret_hash payee' unlock
  no_lock :
      get_lock payee.our_state secret_hash ≡ none
      → unlock ≡ none
      → payee' ≡ payee
      → Sent payee pair secret secret_hash payee' unlock

-- The channels and the pairs before, the channels and the pairs after, and the events
pub data Paying (block_number : ℕ) (secret : List ℕ) (secret_hash : ℕ)
    : ChannelsMap
      → List MediationPairState
      → ChannelsMap
      → List MediationPairState
      → List Event
      → Type 0 where
  all_paid :
      (channels : ChannelsMap) → Paying block_number secret secret_hash channels [] channels [] []
  pays :
      {channels channels' : ChannelsMap} {pairs pairs' : List MediationPairState}
      {events : List Event}
      → (pair : MediationPairState) → (payee payee' : NettingChannelState)
      → (unlock : Option SendBalanceProof) → Due channels pair block_number
      → load (payee_id pair) channels ≡ some payee
      → Sent payee pair secret secret_hash payee' unlock
      → Paying block_number secret secret_hash
          (store (payee_id pair) payee' channels)
          pairs
          channels'
          pairs'
          events
      → Paying block_number secret secret_hash channels
          (pair ∷ pairs)
          channels'
          (record pair { payee_state = payee_balance_proof } ∷ pairs')
          (send_balance_proof unlock
            ∷ event_unlock_success pair.payer_transfer.payment_id
                pair.payer_transfer.lock.secret_hash
            ∷ events)
  waits :
      {channels channels' : ChannelsMap} {pairs pairs' : List MediationPairState}
      {events : List Event}
      → (pair : MediationPairState) → (¬ Due channels pair block_number)
      → Paying block_number secret secret_hash channels pairs channels' pairs' events
      → Paying block_number secret secret_hash channels
          (pair ∷ pairs)
          channels'
          (pair ∷ pairs')
          events

learned→≡ :
    (s : PayeeStatus) → knows_payee s ≡ true → is_payee_paid s ≡ false → s ≡ payee_secret_revealed
learned→≡ s h g = ground arith

is_opened→≡ : (s : ChannelStatus) → is_opened s ≡ true → s ≡ opened
is_opened→≡ s h = ground arith

Due-of_test :
    (channels : ChannelsMap) (pair : MediationPairState) (block_number : ℕ)
    → should_unlock channels pair block_number ≡ true
    → Due channels pair block_number
unfolding should_unlock get_payer_channel get_payee_channel md_is_safe_to_wait
Due-of_test channels pair block_number h =
    elim (Option-cases (load pair.payer_transfer.balance_proof.channel_id channels)) [
      | inl missing ↦ absurd (ground arith)
      | inr (payer, there) ↦
          elim (Option-cases (load pair.payee_transfer.balance_proof.channel_id channels)) [
            | inl missing ↦ absurd (ground arith)
            | inr (payee, there') ↦ record {
              payer = payer;
              payer_there = there;
              in_time = ground arith;
              payee = payee;
              payee_there = there';
              is_open = is_opened→≡ (get_status payee) (ground arith);
              learned = learned→≡ pair.payee_state (ground arith) (ground arith);
            }
          ]
    ]

Due-not :
    (channels : ChannelsMap) (pair : MediationPairState) (block_number : ℕ)
    → should_unlock channels pair block_number ≡ false
    → ¬ Due channels pair block_number
unfolding should_unlock get_payer_channel get_payee_channel md_is_safe_to_wait
Due-not channels pair block_number h due =
    let a = due.payer_there in
    let b = due.in_time in
    let c = due.payee_there in let d = due.is_open in let e = due.learned in ground arith

module _ (env : Env) where
  UnlockOf-of_create :
      (payee : NettingChannelState) (pair : MediationPairState) (secret : List ℕ)
      (lock : HashTimeLockState) (msg_id : ℕ) (u : SendBalanceProof) (t : MerkleTreeState)
      → create_unlock env payee msg_id pair.payee_transfer.payment_id secret lock ≡ ok (u, t)
      → UnlockOf payee pair secret lock u
  unfolding create_unlock message_to_partner next_balance_proof
  UnlockOf-of_create payee pair secret lock msg_id u t made = record {
    recipient = ground arith;
    channel = ground arith;
    payment = ground arith;
    secret_given = ground arith;
    amount = ground arith;
  }

  Sent-of_unlock :
      (payee payee' : NettingChannelState) (pair : MediationPairState) (secret : List ℕ)
      (secret_hash msg_id : ℕ) (unlock : Option SendBalanceProof)
      → send_unlock env payee msg_id pair.payee_transfer.payment_id secret secret_hash
        ≡ ok (payee', unlock)
      → Sent payee pair secret secret_hash payee' unlock
  unfolding send_unlock
  Sent-of_unlock payee payee' pair secret secret_hash msg_id unlock h =
      elim (Option-cases (get_lock payee.our_state secret_hash)) [
        | inl missing ↦ no_lock missing (ground arith) (ground arith)
        | inr (lock, found) ↦
            elim (Outcome-cases
              (create_unlock env payee msg_id pair.payee_transfer.payment_id secret lock)) [
                | inl ((u, t), made) ↦
                    unlocked lock u found (ground arith)
                      (UnlockOf-of_create payee pair secret lock msg_id u t made)
                | inr (inl (e, made)) ↦ absurd (ground arith)
                | inr (inr made) ↦ absurd (ground arith)
              ]
      ]

  pub Paying-of_unlocks :
      (channels : ChannelsMap) (pairs : List MediationPairState) (block_number : ℕ)
      (secret : List ℕ) (secret_hash : ℕ) (ids : ℕ → ℕ) (done : Paired)
      → unlock_payees env channels pairs block_number secret secret_hash ids ≡ ok done
      → Paying block_number secret secret_hash channels pairs done.channels done.pairs done.events
  unfolding unlock_payees unlock_payee get_payee_channel
  Paying-of_unlocks channels [] block_number secret secret_hash ids done h =
      let same : record { pairs = []; channels = channels; events = [] } ≡ done = ground arith in
      subst (λ d. Paying block_number secret secret_hash channels [] d.channels d.pairs d.events)
        same (all_paid channels)
  Paying-of_unlocks channels (pair ∷ pairs) block_number secret secret_hash ids done h =
      let next = λ (n : ℕ). ids (suc n) in
      let goal = λ (d : Paired).
        Paying block_number secret secret_hash channels (pair ∷ pairs) d.channels d.pairs
          d.events in
      elim (Bool-cases (should_unlock channels pair block_number)) [
        | inr other ↦
            elim (Outcome-cases
              (unlock_payees env channels pairs block_number secret secret_hash next)) [
                | inl (rest, r) ↦
                    let later =
                      Paying-of_unlocks channels pairs block_number secret secret_hash next rest
                        r in
                    let same : record rest { pairs = pair ∷ rest.pairs } ≡ done = ground arith in
                    subst goal same (waits pair (Due-not channels pair block_number other) later)
                | inr (inl (e, r)) ↦ absurd (ground arith)
                | inr (inr r) ↦ absurd (ground arith)
              ]
        | inl due ↦
            let all = Due-of_test channels pair block_number due in
            let there = all.payee_there in
            elim (Outcome-cases (
              send_unlock env all.payee (ids 0) pair.payee_transfer.payment_id secret
                secret_hash)) [
                  | inl ((payee', u), sent) ↦
                      elim (Outcome-cases (
                        unlock_payees env (store (payee_id pair) payee' channels) pairs block_number
                          secret secret_hash next)) [
                            | inl (rest, r) ↦
                                let later =
                                  Paying-of_unlocks (store (payee_id pair) payee' channels) pairs
                                    block_number secret secret_hash next rest r in
                                let step =
                                  pays pair all.payee payee' u all there
                                    (Sent-of_unlock all.payee payee' pair secret secret_hash (ids 0)
                                      u sent)
                                    later in
                                let same : record {
                                  pairs =
                                      record pair { payee_state = payee_balance_proof }
                                      ∷ rest.pairs;
                                  channels = rest.channels;
                                  events =
                                      send_balance_proof u
                                      ∷ event_unlock_success pair.payer_transfer.payment_id
                                          pair.payer_transfer.lock.secret_hash
                                      ∷ rest.events;
                                }
                                    ≡ done =
                                  ground arith in
                                subst goal same step
                            | inr (inl (e, r)) ↦ absurd (ground arith)
                            | inr (inr r) ↦ absurd (ground arith)
                          ]
                  | inr (inl (e, sent)) ↦ absurd (ground arith)
                  | inr (inr sent) ↦ absurd (ground arith)
                ]
      ]
