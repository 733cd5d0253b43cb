-- ===== src/Channel/Packing/RoundTrip.antt =====
-- The byte strings of 64-bit numbers (transfer/utils.go), and what the hash of a lock covers.
use pylons.Base.{ℕ, ◌<◌, ◌≡◌, List, [], ◌∷◌, ◌++◌, arith, word64, refl, ap, sym, ◌∙◌, be_bytes}
use pylons.State.{HashTimeLockState}
use pylons.Channel.Packing.{uint64_to_bytes, bytes_to_uint64, pack_data}

-- A 64-bit number is read back from its bytes, also with other bytes behind them.
pub bytes_to_uint64-uint64_to_bytes :
    (n : ℕ) (rest : List ℕ) → n < word64 → bytes_to_uint64 (uint64_to_bytes n ++ rest) ≡ n
unfolding bytes_to_uint64 uint64_to_bytes
bytes_to_uint64-uint64_to_bytes n rest lt = omega arith

skip : List ℕ → List ℕ
skip (_ ∷ _ ∷ _ ∷ _ ∷ _ ∷ _ ∷ _ ∷ _ ∷ xs) = xs
skip _ = []

skip-uint64_to_bytes : (n : ℕ) (rest : List ℕ) → skip (uint64_to_bytes n ++ rest) ≡ rest
unfolding skip uint64_to_bytes
skip-uint64_to_bytes n rest = refl

-- Two locks with 64-bit amounts and expirations and the same packed data, which is all that a
-- lock hash covers, have the same expiration and the same amount.
pub pack_data-injective :
    (l k : HashTimeLockState)
    → l.amount < word64
    → k.amount < word64
    → l.expiration < word64
    → k.expiration < word64
    → pack_data l ≡ pack_data k
    → (l.expiration ≡ k.expiration) × (l.amount ≡ k.amount)
unfolding pack_data
pack_data-injective l k la ka le ke e =
    let tail = λ (x : HashTimeLockState). uint64_to_bytes x.amount ++ be_bytes 32 x.secret_hash in
    (
      sym (bytes_to_uint64-uint64_to_bytes l.expiration (tail l) le)
          ∙ ap bytes_to_uint64 e
          ∙ bytes_to_uint64-uint64_to_bytes k.expiration (tail k) ke,
      sym (bytes_to_uint64-uint64_to_bytes l.amount (be_bytes 32 l.secret_hash) la)
          ∙ ap bytes_to_uint64 (
              sym (skip-uint64_to_bytes l.expiration (tail l))
              ∙ ap skip e
              ∙ skip-uint64_to_bytes k.expiration (tail k))
          ∙ bytes_to_uint64-uint64_to_bytes k.amount (be_bytes 32 k.secret_hash) ka,
    )
