-- ===== src/Task/Mediator/Expiry.antt =====
-- transfer/mediator.go: the locks that a mediator has sent and that expire, and the claims on
-- locks that it has received.
use pylons.Base.{
  ℕ, suc, ◌*◌, List, [], ◌∷◌, ◌++◌, Option, none, some, Bool, true, false, ◌&&◌, if◌then◌else◌,
  add32,
}
use pylons.Base.Outcome.{Outcome, ok, ◌>>=◌}
use pylons.Common.{Env, block_height}
use pylons.State.{NettingChannelEndState, NettingChannelState, HashTimeLockState}
use pylons.State.SyncMap.{load, store}
use pylons.Event
use pylons.Event.{Reason, Event, event_unlock_failed, event_unlock_claim_failed}
use pylons.Channel.Locks.{is_lock_expired, transfer_expired}
use pylons.Channel.Unlock.{events_for_expired_lock}
use pylons.Task.{ChannelsMap, is_ok}
use pylons.Task.Mediator.{
  MediationPairState, WaitingTransferState, WaitingStatus, waiting_expired, payee_expired,
  payer_expired, is_pending_pair, payee_id, get_payer_channel,
}
use pylons.Task.Mediator.Secrets.{Paired}

abbrev is_waiting_expired : WaitingStatus → Bool
is_waiting_expired waiting_expired = true
is_waiting_expired _ = false

-- The lock that eventsToRemoveExpiredLocks reads: an unlocked one before a locked one
unfoldable pub sent_lock : NettingChannelEndState → ℕ → Option HashTimeLockState
sent_lock e secret_hash = elim (load secret_hash e.secret_hashes_to_unlocked_locks) [
  | some proof ↦ some proof.lock
  | none ↦ load secret_hash e.secret_hashes_to_locked_locks
]

-- Whether a pair's claim on the payer's lock has expired
unfoldable pub claim_expired : Env → ChannelsMap → MediationPairState → ℕ → Bool
unfolding get_payer_channel
claim_expired env channels pair block_number = elim (get_payer_channel channels pair) [
  | none ↦ false
  | some payer ↦ is_pending_pair pair && transfer_expired env pair.payer_transfer payer block_number
]

-- The loop of eventsForExpiredPairs
unfoldable pub expire_claims :
    Env → ChannelsMap → List MediationPairState → ℕ → List MediationPairState × List Event
unfolding claim_expired
expire_claims env channels [] block_number = ([], [])
expire_claims env channels (pair ∷ pairs) block_number =
    let rest = expire_claims env channels pairs block_number in
    if claim_expired env channels pair block_number
    then (
      record pair { payer_state = payer_expired } ∷ rest.0,
      event_unlock_claim_failed pair.payer_transfer.payment_id pair.payer_transfer.lock.secret_hash
            Event.lock_expired
          ∷ rest.1,
    )
    else (pair ∷ rest.0, rest.1)

-- The part of eventsForExpiredPairs about the waiting transfer, which it takes to be expired
unfoldable pub expire_waiting :
    Option WaitingTransferState → Option WaitingTransferState × List Event
expire_waiting none = (none, [])
expire_waiting (some waiting) = if is_waiting_expired waiting.state then (some waiting, []) else (
  some (record waiting { state = waiting_expired }),
  event_unlock_claim_failed waiting.transfer.payment_id waiting.transfer.lock.secret_hash
        Event.lock_expired
      ∷ [],
)

-- eventsForExpiredPairs: the pairs, the waiting transfer and the events
unfoldable pub events_for_expired_pairs :
    Env
    → ChannelsMap
    → List MediationPairState
    → Option WaitingTransferState
    → ℕ
    → List MediationPairState × Option WaitingTransferState × List Event
unfolding expire_claims expire_waiting
events_for_expired_pairs env channels pairs waiting block_number =
    let claims = expire_claims env channels pairs block_number in
    let waits = expire_waiting waiting in (claims.0, waits.0, claims.1 ++ waits.1)

-- Whether eventsToRemoveExpiredLocks finds a lock that has expired
unfoldable pub expired_lock_of : Env → NettingChannelState → ℕ → ℕ → Option HashTimeLockState
unfolding sent_lock
expired_lock_of env channel secret_hash block_number =
    elim (sent_lock channel.our_state secret_hash) [
      | none ↦ none
      | some lock ↦
          let threshold = add32 lock.expiration (block_height (env.confirm_block_count * 2)) in
          if is_ok (is_lock_expired channel.our_state lock block_number threshold)
          then some lock
          else none
    ]

-- One round of eventsToRemoveExpiredLocks
unfoldable pub remove_expired_lock :
    Env
    → ChannelsMap
    → MediationPairState
    → ℕ
    → ℕ
    → ℕ
    → Outcome Reason (MediationPairState × ChannelsMap × List Event)
unfolding expired_lock_of
remove_expired_lock env channels pair secret_hash block_number msg_id =
    elim (load (payee_id pair) channels) [
      | none ↦ ok (pair, channels, [])
      | some payee ↦ elim (expired_lock_of env payee secret_hash block_number) [
        | none ↦ ok (pair, channels, [])
        | some lock ↦ do
          expired ← events_for_expired_lock env payee lock msg_id
          ok (
            record pair { payee_state = payee_expired },
            store (payee_id pair) expired.0 channels,
            expired.1
                ++ event_unlock_failed pair.payee_transfer.payment_id
                    pair.payee_transfer.lock.secret_hash Event.lock_expired
                  ∷ [],
          )
      ]
    ]

-- eventsToRemoveExpiredLocks
unfoldable pub events_to_remove_expired_locks :
    Env → ChannelsMap → List MediationPairState → ℕ → ℕ → (ℕ → ℕ) → Outcome Reason Paired
unfolding remove_expired_lock
events_to_remove_expired_locks env channels [] secret_hash block_number ids =
    ok (record { pairs = []; channels = channels; events = [] })
events_to_remove_expired_locks env channels (pair ∷ pairs) secret_hash block_number ids = do
  (pair', channels', events) ←
      remove_expired_lock env channels pair secret_hash block_number (ids 0)
  rest ←
      events_to_remove_expired_locks env channels' pairs secret_hash block_number (λ n. ids (suc n))
  ok (record {
    pairs = pair' ∷ rest.pairs;
    channels = rest.channels;
    events = events ++ rest.events;
  })
