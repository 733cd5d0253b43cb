-- ===== src/Channel/Packing.antt =====
-- What is hashed and signed (transfer/pack.go, transfer/utils.go, HashTimeLockState.PackData).
pub mod RoundTrip
use pylons.Base.{
  ℕ, zero, suc, ◌+◌, ◌*◌, List, [], ◌∷◌, ◌++◌, Option, none, some, Bool, true, false, not, ◌&&◌,
  ◌==◌, if◌then◌else◌, le_bytes, be_bytes, length,
}
use pylons.Base.Outcome.{Outcome, ok, err, panic, ◌>>=◌, ◌>>◌, check}
use pylons.Common.{
  Env, get_hash, get_public_key, verify_signature, get_address_from_pub_key, address_equal,
}
use pylons.State.{HashTimeLockState, BalanceProofSignedState}
use pylons.Event.{
  Reason, data_that_was_signed_is_nil, failed_to_get_public_key, signature_could_not_be_recovered,
  signature_address_does_not_match,
}

-- Uint64ToBytes
unfoldable pub uint64_to_bytes : ℕ → List ℕ
unfolding le_bytes
uint64_to_bytes n = le_bytes 8 n

-- The number of a little-endian byte string.
unfoldable pub of_le_bytes : List ℕ → ℕ
of_le_bytes [] = 0
of_le_bytes (b ∷ bs) = b + 256 * of_le_bytes bs

-- BytesToUint64 reads eight bytes, and leaves 0 where there are fewer.
unfoldable pub bytes_to_uint64 : List ℕ → ℕ
unfolding of_le_bytes
bytes_to_uint64 (a ∷ b ∷ c ∷ d ∷ e ∷ f ∷ g ∷ h ∷ _) =
    of_le_bytes (a ∷ b ∷ c ∷ d ∷ e ∷ f ∷ g ∷ h ∷ [])
bytes_to_uint64 _ = 0

-- HashTimeLockState.PackData
unfoldable pub pack_data : HashTimeLockState → List ℕ
unfolding uint64_to_bytes be_bytes
pack_data lock =
    uint64_to_bytes lock.expiration ++ (uint64_to_bytes lock.amount ++ be_bytes 32 lock.secret_hash)

-- compareLocksroot
unfoldable pub compare_locksroot : ℕ → ℕ → Bool
compare_locksroot one two = one == two

module _ (env : Env) where
  -- HashTimeLockState.CalcLockHash
  unfoldable pub calc_lock_hash : HashTimeLockState → ℕ
  unfolding get_hash
  calc_lock_hash lock = get_hash env (pack_data lock)

  -- `lock.LockHash = lock.CalcLockHash()`
  unfoldable pub with_lock_hash : HashTimeLockState → HashTimeLockState
  unfolding calc_lock_hash
  with_lock_hash lock = record lock { lock_hash = calc_lock_hash lock }

  -- HashBalanceData
  unfoldable pub hash_balance_data : ℕ → ℕ → ℕ → ℕ
  unfolding compare_locksroot get_hash uint64_to_bytes be_bytes
  hash_balance_data transferred_amount locked_amount locks_root =
      if (transferred_amount == 0 && locked_amount == 0) && compare_locksroot locks_root 0
      then 0
      else get_hash env (
          uint64_to_bytes transferred_amount
          ++ (uint64_to_bytes locked_amount ++ be_bytes 32 locks_root))

  -- PackBalanceProof; the token network and the chain are not packed.
  unfoldable pub pack_balance_proof : ℕ → ℕ → List ℕ → ℕ → ℕ → List ℕ
  unfolding uint64_to_bytes be_bytes
  pack_balance_proof nonce balance_hash additional_hash channel_id msg_type = be_bytes 32 (
      env.digest (
        env.signature_prefix
        ++ (env.close_message_length
            ++ (uint64_to_bytes msg_type
                ++ (uint64_to_bytes channel_id
                    ++ (be_bytes 32 balance_hash ++ (uint64_to_bytes nonce ++ additional_hash)))))))

  -- PackCooperativeSettle
  unfoldable pub pack_cooperative_settle : ℕ → ℕ → ℕ → ℕ → ℕ → List ℕ
  unfolding uint64_to_bytes be_bytes
  pack_cooperative_settle channel_id participant1 balance1 participant2 balance2 = be_bytes 32 (
      env.digest (
        env.signature_prefix
        ++ (env.cosettle_message_length
            ++ (uint64_to_bytes env.cooperative_settle_type
                ++ (uint64_to_bytes channel_id
                    ++ (be_bytes 20 participant1
                        ++ (uint64_to_bytes balance1
                            ++ (be_bytes 20 participant2 ++ uint64_to_bytes balance2))))))))

  -- PackWithdraw
  unfoldable pub pack_withdraw : ℕ → ℕ → ℕ → List ℕ
  unfolding uint64_to_bytes be_bytes
  pack_withdraw channel_id participant withdraw_amount = be_bytes 32 (
      env.digest (
        env.signature_prefix
        ++ (env.withdraw_message_length
            ++ (uint64_to_bytes env.withdraw_type
                ++ (uint64_to_bytes channel_id
                    ++ (be_bytes 20 participant ++ uint64_to_bytes withdraw_amount))))))

  -- isValidSignature
  unfoldable pub is_valid_signature : List ℕ → List ℕ → List ℕ → ℕ → Outcome Reason (Unit {0})
  unfolding get_public_key verify_signature get_address_from_pub_key address_equal
  is_valid_signature data_to_sign public_key signature sender_address =
      if length data_to_sign == 0
      then err data_that_was_signed_is_nil
      else elim (get_public_key env public_key) [
        | none ↦ err failed_to_get_public_key
        | some key ↦ do
          check (verify_signature env key data_to_sign signature) signature_could_not_be_recovered
          check (address_equal sender_address (get_address_from_pub_key env key))
              signature_address_does_not_match
          ok tt
      ]

  -- IsValidSignature; the nil of PackBalanceProof that it looks for cannot occur.
  unfoldable pub is_valid_balance_proof_signature :
      BalanceProofSignedState → ℕ → Outcome Reason (Unit {0})
  unfolding is_valid_signature pack_balance_proof hash_balance_data
  is_valid_balance_proof_signature bp sender_address =
      is_valid_signature
        (pack_balance_proof bp.nonce
          (hash_balance_data bp.transferred_amount bp.locked_amount bp.locks_root)
          (be_bytes 32 bp.message_hash) bp.channel_id 1)
        bp.public_key bp.signature sender_address
