-- ===== src/Task/Mediator/Secrets.antt =====
-- transfer/mediator.go: the secret, from the payee to the payer, and the unlocks that follow. The
-- loops change each pair in place; `ids` are the values of `common.GetMsgID`, one for each pair.
use pylons.Base.{
  ℕ, suc, List, [], ◌∷◌, ◌++◌, none, some, Bool, true, false, not, ◌&&◌, ◌||◌, ◌==◌, if◌then◌else◌,
  reverse, map,
}
use pylons.Base.Outcome.{Outcome, ok, ◌>>=◌}
use pylons.Common.{Env}
use pylons.State.{NettingChannelState}
use pylons.State.SyncMap.{store}
use pylons.Event
use pylons.Event.{
  Reason, Event, SendSecretReveal, channel_id_global_queue, event_unexpected_secret_reveal,
  send_secret_reveal, send_balance_proof, event_unlock_success,
}
use pylons.Channel.Locks.{
  is_secret_known_on_chain, register_off_chain_secret, register_on_chain_secret,
}
use pylons.Channel.Status.{get_status, is_opened}
use pylons.Channel.Unlock.{send_unlock}
use pylons.Task.{ChannelsMap, deref, is_ok}
use pylons.Task.Timing.{md_is_safe_to_wait}
use pylons.Task.Mediator.{
  MediationPairState, MediatorTransferState, payee_secret_revealed, payee_balance_proof,
  payer_secret_revealed, is_payee_paid, knows_payee, knows_payer, is_payer_pending,
  is_waiting_secret_reveal, payer_id, payee_id, get_payer_channel, get_payee_channel,
  update_channel,
}

-- The loop of setOffChainSecret and of setOnChainSecret over the channels of the pairs
unfoldable pub register_pairs :
    (NettingChannelState → NettingChannelState)
    → List MediationPairState
    → ChannelsMap
    → ChannelsMap
unfolding update_channel
register_pairs register [] channels = channels
register_pairs register (pair ∷ pairs) channels =
    register_pairs register pairs
      (update_channel (payee_id pair) register (update_channel (payer_id pair) register channels))

-- What follows that loop for a waiting transfer
unfoldable pub register_waiting :
    (NettingChannelState → NettingChannelState) → MediatorTransferState → ChannelsMap → ChannelsMap
unfolding update_channel
register_waiting register state channels = elim state.waiting_transfer [
  | none ↦ channels
  | some waiting ↦ update_channel waiting.transfer.balance_proof.channel_id register channels
]

unfoldable pub unexpected_reveal : MediatorTransferState → ℕ → List Event
unexpected_reveal state secret_hash = elim state.waiting_transfer [
  | none ↦ []
  | some _ ↦ event_unexpected_secret_reveal secret_hash Event.mediator_has_a_waiting_transfer ∷ []
]

-- A state, the channels and the events
abbrev pub MediatorUpdate : Type 0
MediatorUpdate = MediatorTransferState × ChannelsMap × List Event

-- setOffChainSecret
unfoldable pub set_off_chain_secret :
    MediatorTransferState → ChannelsMap → List ℕ → ℕ → MediatorUpdate
unfolding register_pairs register_waiting unexpected_reveal
set_off_chain_secret state channels secret secret_hash =
    let register =
      λ (channel : NettingChannelState). register_off_chain_secret channel secret secret_hash in
    (
      record state { secret = some secret },
      register_waiting register state (register_pairs register state.transfers_pair channels),
      unexpected_reveal state secret_hash,
    )

-- setOnChainSecret
unfoldable pub set_on_chain_secret :
    MediatorTransferState → ChannelsMap → List ℕ → ℕ → ℕ → MediatorUpdate
unfolding register_pairs register_waiting unexpected_reveal
set_on_chain_secret state channels secret secret_hash block_number =
    let register = λ (channel : NettingChannelState).
      register_on_chain_secret channel secret secret_hash block_number true in
    (
      record state { secret = some secret },
      register_waiting register state (register_pairs register state.transfers_pair channels),
      unexpected_reveal state secret_hash,
    )

-- The body of setOffchainRevealState
unfoldable pub reveal_state_of : ℕ → MediationPairState → MediationPairState
reveal_state_of payee_address pair =
    if pair.payee_address == payee_address
    then record pair { payee_state = payee_secret_revealed }
    else pair

-- setOffchainRevealState
unfoldable pub set_offchain_reveal_state : List MediationPairState → ℕ → List MediationPairState
unfolding reveal_state_of
set_offchain_reveal_state pairs payee_address = map (reveal_state_of payee_address) pairs

-- MdHasSecretRegistrationStarted, over the payers' channels that exist
unfoldable pub md_has_secret_registration_started : ChannelsMap → List MediationPairState → ℕ → Bool
unfolding get_payer_channel
md_has_secret_registration_started channels [] secret_hash = false
md_has_secret_registration_started channels (pair ∷ pairs) secret_hash =
    elim (get_payer_channel channels pair) [
      | none ↦ false
      | some payer ↦ is_secret_known_on_chain payer.partner_state secret_hash
    ]
    || is_waiting_secret_reveal pair.payer_state
    || md_has_secret_registration_started channels pairs secret_hash

-- The body of eventsForSecretReveal: whether the secret is sent to the payer
unfoldable pub should_send_secret : MediationPairState → Bool
should_send_secret pair =
    knows_payee pair.payee_state
    && (not (knows_payer pair.payer_state) && is_payer_pending pair.payer_state)

-- The reveal of the secret to a payer
unfoldable pub reveal_to_payer : MediationPairState → ℕ → List ℕ → Event
reveal_to_payer pair msg_id secret = send_secret_reveal (record {
  message = record {
    recipient = pair.payer_transfer.balance_proof.sender;
    channel_id = channel_id_global_queue;
    message_id = msg_id;
  };
  secret = secret;
  secret_hash = 0;
})

-- The loop of eventsForSecretReveal
unfoldable pub reveal_to_payers :
    List MediationPairState → List ℕ → (ℕ → ℕ) → List MediationPairState × List Event
unfolding should_send_secret reveal_to_payer
reveal_to_payers [] secret ids = ([], [])
reveal_to_payers (pair ∷ pairs) secret ids =
    let rest = reveal_to_payers pairs secret (λ n. ids (suc n)) in
    if should_send_secret pair
    then (
      record pair { payer_state = payer_secret_revealed } ∷ rest.0,
      reveal_to_payer pair (ids 0) secret ∷ rest.1,
    )
    else (pair ∷ rest.0, rest.1)

-- eventsForSecretReveal; it reverses the pairs in place.
unfoldable pub events_for_secret_reveal :
    List MediationPairState → List ℕ → (ℕ → ℕ) → List MediationPairState × List Event
unfolding reveal_to_payers
events_for_secret_reveal pairs secret ids = reveal_to_payers (reverse pairs) secret ids

-- Whether eventsForBalanceProof unlocks the transfer to a payee
unfoldable pub should_unlock : ChannelsMap → MediationPairState → ℕ → Bool
unfolding get_payer_channel get_payee_channel
should_unlock channels pair block_number =
    elim (get_payer_channel channels pair) [
      | none ↦ false
      | some payer ↦
          is_ok (
            md_is_safe_to_wait pair.payer_transfer.lock.expiration payer.reveal_timeout
              block_number)
    ]
    && (elim (get_payee_channel channels pair) [
      | none ↦ false
      | some payee ↦ is_opened (get_status payee)
    ]
        && (knows_payee pair.payee_state && not (is_payee_paid pair.payee_state)))

-- What the loops over the pairs leave
pub record Paired : Type 0 where
  pub pairs : List MediationPairState
  pub channels : ChannelsMap
  pub events : List Event

module _ (env : Env) where
  -- The unlock of the transfer to a payee
  unfoldable pub unlock_payee :
      ChannelsMap → MediationPairState → List ℕ → ℕ → ℕ → Outcome Reason (ChannelsMap × List Event)
  unfolding get_payee_channel
  unlock_payee channels pair secret secret_hash msg_id = do
    payee ← deref (get_payee_channel channels pair)
    unlocked ← send_unlock env payee msg_id pair.payee_transfer.payment_id secret secret_hash
    ok (
      store (payee_id pair) unlocked.0 channels,
      send_balance_proof unlocked.1
          ∷ event_unlock_success pair.payer_transfer.payment_id pair.payer_transfer.lock.secret_hash
          ∷ [],
    )

  -- The loop of eventsForBalanceProof
  unfoldable pub unlock_payees :
      ChannelsMap → List MediationPairState → ℕ → List ℕ → ℕ → (ℕ → ℕ) → Outcome Reason Paired
  unfolding should_unlock unlock_payee
  unlock_payees channels [] block_number secret secret_hash ids =
      ok (record { pairs = []; channels = channels; events = [] })
  unlock_payees channels (pair ∷ pairs) block_number secret secret_hash ids =
      elim (should_unlock channels pair block_number) [
        | true ↦ do
          unlocked ← unlock_payee channels pair secret secret_hash (ids 0)
          rest ← unlock_payees unlocked.0 pairs block_number secret secret_hash (λ n. ids (suc n))
          ok (record {
            pairs = record pair { payee_state = payee_balance_proof } ∷ rest.pairs;
            channels = rest.channels;
            events = unlocked.1 ++ rest.events;
          })
        | false ↦ do
          rest ← unlock_payees channels pairs block_number secret secret_hash (λ n. ids (suc n))
          ok (record { pairs = pair ∷ rest.pairs; channels = rest.channels; events = rest.events })
      ]

  -- eventsForBalanceProof; it reverses the pairs in place.
  unfoldable pub events_for_balance_proof :
      ChannelsMap → List MediationPairState → ℕ → List ℕ → ℕ → (ℕ → ℕ) → Outcome Reason Paired
  unfolding unlock_payees
  events_for_balance_proof channels pairs block_number secret secret_hash ids =
      unlock_payees channels (reverse pairs) block_number secret secret_hash ids
