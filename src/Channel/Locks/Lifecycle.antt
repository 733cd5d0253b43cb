-- ===== src/Channel/Locks/Lifecycle.antt =====
-- The life of a lock at one end of a channel: it is locked, unlocked by its secret off-chain or
-- on-chain, and deleted. A lock stands in one register at a time.
use pylons.Base.{ℕ, List, ◌≡◌, none, arith, true, Option-cases, inl, inr, ltb, ◌⊎◌, Bool-cases}
use pylons.State.{NettingChannelEndState, HashTimeLockState, UnlockPartialProofState}
use pylons.State.SyncMap.{load, store, load-delete, load-store}
use pylons.Channel.Locks.{
  register_secret_end_state, register_on_chain_secret_end_state, is_lock_pending,
  del_unclaimed_lock, del_lock, pending_lock_of, get_lock,
}

-- The state of an end when a locked transfer stores its lock.
abbrev pub add_lock : NettingChannelEndState → ℕ → HashTimeLockState → NettingChannelEndState
add_lock e k lock = record e {
  secret_hashes_to_locked_locks = store k lock e.secret_hashes_to_locked_locks;
}

-- One step of a register: a new lock under an unused secret hash, a secret learnt off-chain or
-- on-chain, a lock that is paid out or has expired.
pub data LockStep (e : NettingChannelEndState) : NettingChannelEndState → Type 0 where
  added : (k : ℕ) (lock : HashTimeLockState) → get_lock e k ≡ none → LockStep e (add_lock e k lock)
  registered : (secret : List ℕ) (k : ℕ) → LockStep e (register_secret_end_state e secret k)
  registered_on_chain :
      (secret : List ℕ) (k height : ℕ)
      → LockStep e (register_on_chain_secret_end_state e secret k height true)
  deleted : (k : ℕ) → LockStep e (del_lock e k)
  expired : (k : ℕ) → LockStep e (del_unclaimed_lock e k)

-- No two registers hold a lock under one secret hash.
pub record Exclusive (e : NettingChannelEndState) : Type 0 where
  pub locked_alone :
      (k : ℕ)
      → (load k e.secret_hashes_to_locked_locks ≡ none)
        ⊎ ((load k e.secret_hashes_to_unlocked_locks ≡ none)
            × (load k e.secret_hashes_to_on_chain_unlocked_locks ≡ none))
  pub unlocked_alone :
      (k : ℕ)
      → (load k e.secret_hashes_to_unlocked_locks ≡ none)
        ⊎ (load k e.secret_hashes_to_on_chain_unlocked_locks ≡ none)

added-Exclusive :
    (e : NettingChannelEndState) (k : ℕ) (lock : HashTimeLockState)
    → Exclusive e
    → get_lock e k ≡ none
    → Exclusive (add_lock e k lock)
unfolding get_lock
added-Exclusive e k lock x new = record {
  locked_alone = λ j.
      let a = x.locked_alone j in
      ground (arith, load-store k j lock e.secret_hashes_to_locked_locks);
  unlocked_alone = x.unlocked_alone;
}

registered-Exclusive :
    (e : NettingChannelEndState) (secret : List ℕ) (k : ℕ)
    → Exclusive e
    → Exclusive (register_secret_end_state e secret k)
unfolding register_secret_end_state
registered-Exclusive e secret k x = elim (Option-cases (load k e.secret_hashes_to_locked_locks)) [
  | inl missing ↦ rw (missing, register_secret_end_state) x
  | inr (lock, found) ↦
      let proof : UnlockPartialProofState = record { lock = lock; secret = secret } in
      let at_k = x.locked_alone k in
      rw (found, register_secret_end_state)
        (record {
          locked_alone = λ j.
              let a = x.locked_alone j in
              ground (
                arith,
                load-delete k j e.secret_hashes_to_locked_locks,
                load-store k j proof e.secret_hashes_to_unlocked_locks,
              );
          unlocked_alone = λ j.
              let a = x.unlocked_alone j in
              ground (arith, load-store k j proof e.secret_hashes_to_unlocked_locks);
        })
]

expired-Exclusive :
    (e : NettingChannelEndState) (k : ℕ) → Exclusive e → Exclusive (del_unclaimed_lock e k)
unfolding del_unclaimed_lock
expired-Exclusive e k x = record {
  locked_alone = λ j.
      let a = x.locked_alone j in
      ground (
        arith,
        load-delete k j e.secret_hashes_to_locked_locks,
        load-delete k j e.secret_hashes_to_unlocked_locks,
      );
  unlocked_alone = λ j.
      let a = x.unlocked_alone j in
      ground (arith, load-delete k j e.secret_hashes_to_unlocked_locks);
}

deleted-Exclusive : (e : NettingChannelEndState) (k : ℕ) → Exclusive e → Exclusive (del_lock e k)
unfolding del_lock
deleted-Exclusive e k x = record {
  locked_alone = λ j.
      let a = x.locked_alone j in
      ground (
        arith,
        load-delete k j e.secret_hashes_to_locked_locks,
        load-delete k j e.secret_hashes_to_unlocked_locks,
        load-delete k j e.secret_hashes_to_on_chain_unlocked_locks,
      );
  unlocked_alone = λ j.
      let a = x.unlocked_alone j in
      ground (
        arith,
        load-delete k j e.secret_hashes_to_unlocked_locks,
        load-delete k j e.secret_hashes_to_on_chain_unlocked_locks,
      );
}

-- A deleted lock may be stored among those unlocked on-chain: nothing else holds its secret hash.
on_chain_stored-Exclusive :
    (e : NettingChannelEndState) (k : ℕ) (proof : UnlockPartialProofState)
    → Exclusive e
    → load k e.secret_hashes_to_locked_locks ≡ none
    → load k e.secret_hashes_to_unlocked_locks ≡ none
    → Exclusive (record e {
      secret_hashes_to_on_chain_unlocked_locks =
          store k proof e.secret_hashes_to_on_chain_unlocked_locks;
    })
on_chain_stored-Exclusive e k proof x l u = record {
  locked_alone = λ j.
      let a = x.locked_alone j in
      ground (arith, load-store k j proof e.secret_hashes_to_on_chain_unlocked_locks);
  unlocked_alone = λ j.
      let a = x.unlocked_alone j in
      ground (arith, load-store k j proof e.secret_hashes_to_on_chain_unlocked_locks);
}

del_lock-missing :
    (e : NettingChannelEndState) (k : ℕ)
    → (load k (del_lock e k).secret_hashes_to_locked_locks ≡ none)
      × (load k (del_lock e k).secret_hashes_to_unlocked_locks ≡ none)
unfolding del_lock is_lock_pending
del_lock-missing e k =
    let a = load-delete k k e.secret_hashes_to_locked_locks in
    let b = load-delete k k e.secret_hashes_to_unlocked_locks in (ground arith, ground arith)

on_chain-Exclusive :
    (e : NettingChannelEndState) (secret : List ℕ) (k height : ℕ)
    → Exclusive e
    → Exclusive (register_on_chain_secret_end_state e secret k height true)
unfolding register_on_chain_secret_end_state
on_chain-Exclusive e secret k height x = elim (Option-cases (pending_lock_of e k)) [
  | inl missing ↦ rw (missing, register_on_chain_secret_end_state) x
  | inr (lock, found) ↦ elim (Bool-cases (ltb lock.expiration height)) [
    | inl late ↦ rw (found, late, register_on_chain_secret_end_state) x
    | inr early ↦
        let gone = del_lock-missing e k in
        rw (found, early, register_on_chain_secret_end_state)
          (on_chain_stored-Exclusive (del_lock e k) k (record { lock = lock; secret = secret })
            (deleted-Exclusive e k x) gone.0 gone.1)
  ]
]

-- Some steps, one after the other.
pub data LockSteps (e : NettingChannelEndState) : NettingChannelEndState → Type 0 where
  none_yet : LockSteps e e
  then_step : (f g : NettingChannelEndState) → LockSteps e f → LockStep f g → LockSteps e g

step-Exclusive : (e f : NettingChannelEndState) → LockStep e f → Exclusive e → Exclusive f
step-Exclusive e _ (added k lock new) x = added-Exclusive e k lock x new
step-Exclusive e _ (registered secret k) x = registered-Exclusive e secret k x
step-Exclusive e _ (registered_on_chain secret k height) x = on_chain-Exclusive e secret k height x
step-Exclusive e _ (deleted k) x = deleted-Exclusive e k x
step-Exclusive e _ (expired k) x = expired-Exclusive e k x

-- However locks are added under unused secret hashes, unlocked off-chain and on-chain, paid out and
-- dropped: an end where no two registers hold a lock under one secret hash stays so.
pub steps-Exclusive : (e f : NettingChannelEndState) → LockSteps e f → Exclusive e → Exclusive f
steps-Exclusive e _ none_yet x = x
steps-Exclusive e g (then_step f _ steps last) x =
    step-Exclusive f g last (steps-Exclusive e f steps x)
