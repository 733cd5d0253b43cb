-- ===== src/Task/Mediator/Register.antt =====
-- transfer/mediator.go: the secret's registration on the chain, when the payer's channel is closed
-- or its lock is about to expire, and what a mediator does with a secret that it learns.
use pylons.Base.{
  ℕ, ◌+◌, List, [], ◌∷◌, ◌++◌, none, some, Bool, true, false, not, ◌&&◌, if◌then◌else◌, length,
}
use pylons.Base.Outcome.{Outcome, ok, ◌>>=◌}
use pylons.Common.{Env}
use pylons.Event.{Reason, Event}
use pylons.Channel.Locks.{get_lock, get_secret, is_secret_known}
use pylons.Channel.Status.{ChannelStatus, get_status, closed}
use pylons.Task.{ChannelsMap, deref, is_ok}
use pylons.Task.Timing.{md_is_safe_to_wait, events_for_on_chain_secret_reveal}
use pylons.Task.Mediator.{
  MediationPairState, MediatorTransferState, MediatorIteration, payer_waiting_secret_reveal,
  is_pending_pair, get_payer_channel,
}
use pylons.Task.Mediator.Secrets.{
  set_off_chain_secret, set_offchain_reveal_state, md_has_secret_registration_started,
  events_for_secret_reveal, events_for_balance_proof,
}

abbrev is_closed : ChannelStatus → Bool
is_closed closed = true
is_closed _ = false

-- `pendingPair.PayerState = "payer_waiting_secret_reveal"`
abbrev waits : MediationPairState → MediationPairState
waits pair = record pair { payer_state = payer_waiting_secret_reveal }

-- Whether a pending pair is in the danger zone, with a secret that is known
unfoldable pub in_danger : ChannelsMap → MediationPairState → ℕ → Bool
unfolding get_payer_channel
in_danger channels pair block_number = elim (get_payer_channel channels pair) [
  | none ↦ false
  | some payer ↦
      let lock = pair.payer_transfer.lock in
      is_pending_pair pair
      && (not (is_ok (md_is_safe_to_wait lock.expiration payer.reveal_timeout block_number))
          && is_secret_known payer.partner_state lock.secret_hash)
]

-- The transaction for a pair in the danger zone
unfoldable pub danger_events : ChannelsMap → MediationPairState → List Event
unfolding get_payer_channel
danger_events channels pair = elim (get_payer_channel channels pair) [
  | none ↦ []
  | some payer ↦
      let lock = pair.payer_transfer.lock in
      events_for_on_chain_secret_reveal payer (get_secret payer.partner_state lock.secret_hash)
        lock.expiration
]

-- The loop of eventsForOnChainSecretRevealIfDangerzone, with `transactionSent`
unfoldable pub danger_loop :
    ChannelsMap → List MediationPairState → ℕ → Bool → List MediationPairState × List Event
unfolding in_danger danger_events
danger_loop channels [] block_number sent = ([], [])
danger_loop channels (pair ∷ pairs) block_number sent =
    let after = danger_loop channels pairs block_number true in
    let same = danger_loop channels pairs block_number sent in
    if in_danger channels pair block_number
    then (waits pair ∷ after.0, (if sent then after.1 else danger_events channels pair ++ after.1))
    else (pair ∷ same.0, same.1)

-- eventsForOnChainSecretRevealIfDangerzone
unfoldable pub events_for_on_chain_secret_reveal_if_dangerzone :
    ChannelsMap → ℕ → List MediationPairState → ℕ → List MediationPairState × List Event
unfolding danger_loop md_has_secret_registration_started
events_for_on_chain_secret_reveal_if_dangerzone channels secret_hash pairs block_number =
    danger_loop channels pairs block_number
      (md_has_secret_registration_started channels pairs secret_hash)

-- Whether a pending pair has a payer whose channel is closed
unfoldable pub payer_is_closed : ChannelsMap → MediationPairState → Bool
unfolding get_payer_channel
payer_is_closed channels pair = elim (get_payer_channel channels pair) [
  | none ↦ false
  | some payer ↦ is_pending_pair pair && is_closed (get_status payer)
]

-- The transaction for a payer whose channel is closed
unfoldable pub closed_events :
    ChannelsMap → MediationPairState → List ℕ → ℕ → Outcome Reason (List Event)
unfolding get_payer_channel
closed_events channels pair secret secret_hash = do
  payer ← deref (get_payer_channel channels pair)
  lock ← deref (get_lock payer.partner_state secret_hash)
  ok (events_for_on_chain_secret_reveal payer secret lock.expiration)

-- The loop of eventsForOnChainSecretRevealIfClosed, with `transactionSent`
unfoldable pub closed_loop :
    ChannelsMap
    → List MediationPairState
    → List ℕ
    → ℕ
    → Bool
    → Outcome Reason (List MediationPairState × List Event)
unfolding payer_is_closed closed_events
closed_loop channels [] secret secret_hash sent = ok ([], [])
closed_loop channels (pair ∷ pairs) secret secret_hash sent = elim (payer_is_closed channels pair) [
  | true ↦ do
    events ← if sent then ok [] else closed_events channels pair secret secret_hash
    rest ← closed_loop channels pairs secret secret_hash true
    ok (waits pair ∷ rest.0, events ++ rest.1)
  | false ↦ do rest ← closed_loop channels pairs secret secret_hash sent; ok (pair ∷ rest.0, rest.1)
]

-- eventsForOnChainSecretRevealIfClosed
unfoldable pub events_for_on_chain_secret_reveal_if_closed :
    ChannelsMap
    → List MediationPairState
    → List ℕ
    → ℕ
    → Outcome Reason (List MediationPairState × List Event)
unfolding closed_loop md_has_secret_registration_started
events_for_on_chain_secret_reveal_if_closed channels pairs secret secret_hash =
    closed_loop channels pairs secret secret_hash
      (md_has_secret_registration_started channels pairs secret_hash)

-- secretLearned; the loops about the payers and the payees take their message ids in turn.
unfoldable pub secret_learned :
    Env
    → MediatorTransferState
    → ChannelsMap
    → ℕ
    → List ℕ
    → ℕ
    → ℕ
    → (ℕ → ℕ)
    → Outcome Reason MediatorIteration
unfolding set_off_chain_secret events_for_on_chain_secret_reveal_if_closed events_for_secret_reveal
    events_for_balance_proof set_offchain_reveal_state
secret_learned env state channels block_number secret secret_hash payee_address ids = do
  let (learned, registered, unexpected) = set_off_chain_secret state channels secret secret_hash
  let pairs = set_offchain_reveal_state learned.transfers_pair payee_address
  on_chain ← events_for_on_chain_secret_reveal_if_closed registered pairs secret secret_hash
  let revealed = events_for_secret_reveal on_chain.0 secret ids
  unlocked ←
      events_for_balance_proof env registered revealed.0 block_number secret secret_hash
        (λ n. ids (length pairs + n))
  ok (record {
    new_state = some (record learned { transfers_pair = unlocked.pairs });
    channels = unlocked.channels;
    events = unexpected ++ revealed.1 ++ unlocked.events ++ on_chain.1;
  })
