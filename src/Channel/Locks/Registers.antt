-- ===== src/Channel/Locks/Registers.antt =====
-- A lock moves between the registers of an end; what the end has locked stays the same.
use pylons.Base.{
  ℕ, List, [], ◌∷◌, ◌≡◌, none, some, arith, add64, refl, Option-cases, inl, inr, ◌⊎◌, ◌==◌, ==_refl,
  false,
}
use pylons.State.{NettingChannelEndState, HashTimeLockState, UnlockPartialProofState}
use pylons.State.SyncMap.{LockMap, load, store, delete, load-delete, load-store}
use pylons.Channel.Locks.{register_secret_end_state, get_lock}
use pylons.Channel.Balance.{total_locks, total_proofs, get_amount_locked}

-- The keys of a map are distinct, as in a `sync.Map`.
unfoldable pub Distinct : {V : Type 0} → LockMap V → Type 0
Distinct [] = Unit
Distinct ((k, v) ∷ m) = (load k m ≡ none) × Distinct m

delete_missing : {V : Type 0} (k : ℕ) (m : LockMap V) → load k m ≡ none → delete k m ≡ m
unfolding load delete
delete_missing k [] h = refl
delete_missing k ((j, v) ∷ m) h = ground (arith, delete_missing k m)

pub Distinct-store :
    {V : Type 0} (k : ℕ) (v : V) (m : LockMap V) → Distinct m → Distinct (store k v m)
unfolding Distinct load store
Distinct-store k v [] d = (refl, tt)
Distinct-store k v ((j, w) ∷ m) (new, d) =
    let rest = Distinct-store k v m d in let found = load-store k j v m in ground arith

pub delete-delete : {V : Type 0} (k : ℕ) (m : LockMap V) → delete k (delete k m) ≡ delete k m
unfolding delete
delete-delete k [] = refl
delete-delete k ((j, w) ∷ m) = ground (arith, delete-delete k m)

pub delete-store :
    {V : Type 0} (k : ℕ) (v : V) (m : LockMap V) → delete k (store k v m) ≡ delete k m
unfolding delete store
delete-store k v [] = ground arith
delete-store k v ((j, w) ∷ m) = ground (arith, delete-store k v m)

total_locks-delete :
    (k : ℕ) (lock : HashTimeLockState) (m : LockMap HashTimeLockState)
    → Distinct m
    → load k m ≡ some lock
    → total_locks m ≡ add64 lock.amount (total_locks (delete k m))
unfolding Distinct total_locks load delete
total_locks-delete k lock [] d h = ground arith
total_locks-delete k lock ((j, v) ∷ m) d h =
    ground (arith, total_locks-delete k lock m, delete_missing k m)

pub total_locks-store :
    (k : ℕ) (lock : HashTimeLockState) (m : LockMap HashTimeLockState)
    → load k m ≡ none
    → total_locks (store k lock m) ≡ add64 lock.amount (total_locks m)
unfolding total_locks load store
total_locks-store k lock [] h = refl
total_locks-store k lock ((j, w) ∷ m) h = ground (arith, total_locks-store k lock m)

total_proofs-store :
    (k : ℕ) (proof : UnlockPartialProofState) (m : LockMap UnlockPartialProofState)
    → load k m ≡ none
    → total_proofs (store k proof m) ≡ add64 proof.lock.amount (total_proofs m)
unfolding total_proofs load store
total_proofs-store k proof [] h = refl
total_proofs-store k proof ((j, w) ∷ m) h = ground (arith, total_proofs-store k proof m)

-- When the locked locks have distinct secret hashes, and the one of a secret that becomes known is
-- not the key of an unlocked lock: a lock that is locked under that secret hash is locked no more,
-- and is unlocked with the secret; without such a lock the end stays as it is. The locks of other
-- secret hashes stay where they are, the amount that the end has locked does not change, and the
-- lock is found under its secret hash as before.
pub register_secret_end_state-moves :
    (e : NettingChannelEndState) (secret : List ℕ) (k : ℕ)
    → Distinct e.secret_hashes_to_locked_locks
    → load k e.secret_hashes_to_unlocked_locks ≡ none
    → let e' = register_secret_end_state e secret k in
      (((lock : HashTimeLockState) × (load k e.secret_hashes_to_locked_locks ≡ some lock)
          × (load k e'.secret_hashes_to_locked_locks ≡ none)
          × (load k e'.secret_hashes_to_unlocked_locks
              ≡ some (record { lock = lock; secret = secret })))
        ⊎ ((load k e.secret_hashes_to_locked_locks ≡ none) × (e' ≡ e)))
      × ((j : ℕ)
          → (k == j) ≡ false
          → (load j e'.secret_hashes_to_locked_locks ≡ load j e.secret_hashes_to_locked_locks)
            × (load j e'.secret_hashes_to_unlocked_locks
                ≡ load j e.secret_hashes_to_unlocked_locks))
      × (get_amount_locked e' ≡ get_amount_locked e)
      × (get_lock e' k ≡ get_lock e k)
unfolding register_secret_end_state get_amount_locked get_lock
register_secret_end_state-moves e secret k d new =
    elim (Option-cases (load k e.secret_hashes_to_locked_locks)) [
      | inl missing ↦ (
        inr (missing, ground arith),
        λ j other. (ground arith, ground arith),
        ground arith,
        ground arith,
      )
      | inr (lock, found) ↦
          let proof : UnlockPartialProofState = record { lock = lock; secret = secret } in
          let gone = total_locks-delete k lock e.secret_hashes_to_locked_locks d found in
          let kept = total_proofs-store k proof e.secret_hashes_to_unlocked_locks new in
          let deleted = λ (j : ℕ). load-delete k j e.secret_hashes_to_locked_locks in
          let stored = λ (j : ℕ). load-store k j proof e.secret_hashes_to_unlocked_locks in
          let here = ==_refl k in
          (
            inl (lock, found, ground (arith, deleted k), ground (arith, stored k)),
            λ j other. (ground (arith, deleted j), ground (arith, stored j)),
            ground (arith, gone, kept),
            ground (arith, deleted k, stored k),
          )
    ]
