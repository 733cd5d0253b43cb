-- ===== src/State/SyncMap.antt =====
-- The `sync.Map`s of a channel end: an association list from secret hashes.
use pylons.Base.{ℕ, List, [], ◌∷◌, Option, none, some, ◌≡◌, refl, arith, ◌==◌, if◌then◌else◌}

abbrev pub LockMap {ℓ} : Type ℓ → Type ℓ
LockMap V = List (ℕ × V)

module _ {ℓ} {V : Type ℓ} where
  unfoldable pub load : ℕ → LockMap V → Option V
  load k [] = none
  load k ((j, v) ∷ m) = if j == k then some v else load k m

  unfoldable pub store : ℕ → V → LockMap V → LockMap V
  store k v [] = (k, v) ∷ []
  store k v ((j, w) ∷ m) = if j == k then (k, v) ∷ m else (j, w) ∷ store k v m

  unfoldable pub delete : ℕ → LockMap V → LockMap V
  delete k [] = []
  delete k ((j, w) ∷ m) = let rest = delete k m in if j == k then rest else (j, w) ∷ rest

  pub load-store :
      (k j : ℕ) (v : V) (m : LockMap V)
      → load j (store k v m) ≡ (if k == j then some v else load j m)
  unfolding load store
  load-store k j v [] = refl
  load-store k j v ((i, w) ∷ m) = ground (arith, load-store k j v m)

  pub load-delete :
      (k j : ℕ) (m : LockMap V) → load j (delete k m) ≡ (if k == j then none else load j m)
  unfolding load delete
  load-delete k j [] = ground arith
  load-delete k j ((i, w) ∷ m) = ground (arith, load-delete k j m)
