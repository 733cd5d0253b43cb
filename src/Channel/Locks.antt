-- ===== src/Channel/Locks.antt =====
-- The lock registers of a channel end (transfer/channel.go): a lock is locked, then unlocked by
-- its secret, or unlocked on-chain.
pub mod Registers
pub mod Lifecycle
use pylons.Base.{
  ℕ, ◌*◌, List, [], ◌∷◌, Option, none, some, Bool, true, false, not, ◌||◌, ltb, if◌then◌else◌,
  is_some, add32,
}
use pylons.Base.Outcome.{Outcome, ok, err, panic, ◌>>=◌, ◌>>◌, check}
use pylons.Common.{Env, block_height}
use pylons.State.{
  NettingChannelEndState, NettingChannelState, HashTimeLockState, UnlockPartialProofState,
  LockedTransferSignedState,
}
use pylons.State.SyncMap.{load, store, delete}
use pylons.Event.{
  Reason, lock_has_been_unlocked_on_chain, block_number_below_lock_expiration_threshold,
}

-- IsLockLocked
unfoldable pub is_lock_locked : NettingChannelEndState → ℕ → Bool
is_lock_locked e secret_hash = is_some (load secret_hash e.secret_hashes_to_locked_locks)

-- IsSecretKnownOffChain
unfoldable pub is_secret_known_off_chain : NettingChannelEndState → ℕ → Bool
is_secret_known_off_chain e secret_hash =
    is_some (load secret_hash e.secret_hashes_to_unlocked_locks)

-- IsSecretKnownOnChain
unfoldable pub is_secret_known_on_chain : NettingChannelEndState → ℕ → Bool
is_secret_known_on_chain e secret_hash =
    is_some (load secret_hash e.secret_hashes_to_on_chain_unlocked_locks)

-- IsSecretKnown
unfoldable pub is_secret_known : NettingChannelEndState → ℕ → Bool
unfolding is_secret_known_off_chain is_secret_known_on_chain
is_secret_known e secret_hash =
    is_secret_known_off_chain e secret_hash || is_secret_known_on_chain e secret_hash

-- IsLockPending
unfoldable pub is_lock_pending : NettingChannelEndState → ℕ → Bool
unfolding is_lock_locked is_secret_known_off_chain is_secret_known_on_chain
is_lock_pending e secret_hash =
    is_lock_locked e secret_hash
    || is_secret_known_off_chain e secret_hash
    || is_secret_known_on_chain e secret_hash

-- IsLockExpired
unfoldable pub is_lock_expired :
    NettingChannelEndState → HashTimeLockState → ℕ → ℕ → Outcome Reason (Unit {0})
unfolding is_secret_known_on_chain
is_lock_expired e lock block_number lock_expiration_threshold = do
  check (not (is_secret_known_on_chain e lock.secret_hash)) lock_has_been_unlocked_on_chain
  check (not (ltb block_number lock_expiration_threshold))
      block_number_below_lock_expiration_threshold
  ok tt

-- TransferExpired
unfoldable pub transfer_expired : Env → LockedTransferSignedState → NettingChannelState → ℕ → Bool
unfolding is_lock_expired
transfer_expired env transfer affected_channel block_number =
    let threshold = add32 transfer.lock.expiration (block_height (env.confirm_block_count * 2)) in
    elim (is_lock_expired affected_channel.our_state transfer.lock block_number threshold) [
      | ok _ ↦ true
      | _ ↦ false
    ]

-- GetSecret
unfoldable pub get_secret : NettingChannelEndState → ℕ → List ℕ
get_secret e secret_hash = elim (load secret_hash e.secret_hashes_to_unlocked_locks) [
  | some proof ↦ proof.secret
  | none ↦ elim (load secret_hash e.secret_hashes_to_on_chain_unlocked_locks) [
    | some proof ↦ proof.secret
    | none ↦ []
  ]
]

-- GetLock
unfoldable pub get_lock : NettingChannelEndState → ℕ → Option HashTimeLockState
get_lock e secret_hash = elim (load secret_hash e.secret_hashes_to_locked_locks) [
  | some lock ↦ some lock
  | none ↦ elim (load secret_hash e.secret_hashes_to_unlocked_locks) [
    | some proof ↦ some proof.lock
    | none ↦ elim (load secret_hash e.secret_hashes_to_on_chain_unlocked_locks) [
      | some proof ↦ some proof.lock
      | none ↦ none
    ]
  ]
]

-- LockExistsInEitherChannelSide
unfoldable pub lock_exists_in_either_channel_side : NettingChannelState → ℕ → Bool
unfolding get_lock
lock_exists_in_either_channel_side channel secret_hash =
    is_some (get_lock channel.our_state secret_hash)
    || is_some (get_lock channel.partner_state secret_hash)

-- DelUnclaimedLock; to delete a missing key changes nothing.
unfoldable pub del_unclaimed_lock : NettingChannelEndState → ℕ → NettingChannelEndState
del_unclaimed_lock e secret_hash = record e {
  secret_hashes_to_locked_locks = delete secret_hash e.secret_hashes_to_locked_locks;
  secret_hashes_to_unlocked_locks = delete secret_hash e.secret_hashes_to_unlocked_locks;
}

-- DelLock
unfoldable pub del_lock : NettingChannelEndState → ℕ → NettingChannelEndState
unfolding is_lock_pending del_unclaimed_lock
del_lock e secret_hash =
    if is_lock_pending e secret_hash
    then record (del_unclaimed_lock e secret_hash) {
      secret_hashes_to_on_chain_unlocked_locks =
          delete secret_hash e.secret_hashes_to_on_chain_unlocked_locks;
    }
    else e

-- RegisterSecretEndState
unfoldable pub register_secret_end_state :
    NettingChannelEndState → List ℕ → ℕ → NettingChannelEndState
register_secret_end_state e secret secret_hash =
    elim (load secret_hash e.secret_hashes_to_locked_locks) [
      | none ↦ e
      | some pending_lock ↦ record e {
        secret_hashes_to_locked_locks = delete secret_hash e.secret_hashes_to_locked_locks;
        secret_hashes_to_unlocked_locks =
            store secret_hash (record { lock = pending_lock; secret = secret })
              e.secret_hashes_to_unlocked_locks;
      }
    ]

-- The lock that RegisterOnChainSecretEndState registers: an unlocked one before a locked one.
unfoldable pub pending_lock_of : NettingChannelEndState → ℕ → Option HashTimeLockState
pending_lock_of e secret_hash = elim (load secret_hash e.secret_hashes_to_unlocked_locks) [
  | some proof ↦ some proof.lock
  | none ↦ load secret_hash e.secret_hashes_to_locked_locks
]

-- RegisterOnChainSecretEndState
unfoldable pub register_on_chain_secret_end_state :
    NettingChannelEndState → List ℕ → ℕ → ℕ → Bool → NettingChannelEndState
unfolding pending_lock_of del_lock
register_on_chain_secret_end_state e secret secret_hash secret_reveal_block_number delete_lock =
    elim (pending_lock_of e secret_hash) [
      | none ↦ e
      | some pending_lock ↦
          let e' = if delete_lock then del_lock e secret_hash else e in
          if ltb pending_lock.expiration secret_reveal_block_number then e else record e' {
            secret_hashes_to_on_chain_unlocked_locks =
                store secret_hash (record { lock = pending_lock; secret = secret })
                  e'.secret_hashes_to_on_chain_unlocked_locks;
          }
    ]

-- RegisterOffChainSecret
unfoldable pub register_off_chain_secret : NettingChannelState → List ℕ → ℕ → NettingChannelState
unfolding register_secret_end_state
register_off_chain_secret channel secret secret_hash = record channel {
  our_state = register_secret_end_state channel.our_state secret secret_hash;
  partner_state = register_secret_end_state channel.partner_state secret secret_hash;
}

-- RegisterOnChainSecret
unfoldable pub register_on_chain_secret :
    NettingChannelState → List ℕ → ℕ → ℕ → Bool → NettingChannelState
unfolding register_on_chain_secret_end_state
register_on_chain_secret channel secret secret_hash block_number delete_lock = record channel {
  our_state =
      register_on_chain_secret_end_state channel.our_state secret secret_hash block_number
        delete_lock;
  partner_state =
      register_on_chain_secret_end_state channel.partner_state secret secret_hash block_number
        delete_lock;
}
