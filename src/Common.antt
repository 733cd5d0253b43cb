-- ===== src/Common.antt =====
-- common/types.go, common/config.go, common/signature.go and common/common.go: what the channel
-- core takes from elsewhere. Hashes (32 bytes) and addresses (20 bytes) are the numbers that they
-- spell, so `Keccak256Compare` is the order of numbers and `AddressEqual` is `==`. What lies
-- outside the repository (SHA-256, the keypair and signature packages, the constants of the
-- micropayment contract) is the record `Env`, a parameter of whatever uses it; it also holds the
-- settings of `common.Config` that the core reads.
use pylons.Base.{ℕ, List, Option, none, some, Bool, false, ◌==◌, u32}

pub record Env : Type 0 where
  -- sha256.Sum256
  pub digest : List ℕ → ℕ
  -- keypair.DeserializePublicKey, signature.Deserialize, signature.Verify, AddressFromPubKey
  pub deserialize_public_key : List ℕ → Option ℕ
  pub deserialize_signature : List ℕ → Option ℕ
  pub verify : ℕ → List ℕ → ℕ → Bool
  pub address_from_pub_key : ℕ → ℕ
  -- constants of the micropayment contract and of the USDT contract
  pub signature_prefix : List ℕ
  pub close_message_length : List ℕ
  pub withdraw_message_length : List ℕ
  pub cosettle_message_length : List ℕ
  pub withdraw_type : ℕ
  pub cooperative_settle_type : ℕ
  pub usdt_contract_address : ℕ
  -- common.Config
  pub confirm_block_count : ℕ
  pub max_block_delay : ℕ
  pub withdraw_timeout : ℕ

-- `common.BlockHeight(i)` for a nonnegative `int`.
abbrev pub block_height : ℕ → ℕ
block_height i = u32 i

-- GetHash
unfoldable pub get_hash : Env → List ℕ → ℕ
get_hash env xs = env.digest xs

-- GetPublicKey
unfoldable pub get_public_key : Env → List ℕ → Option ℕ
get_public_key env xs = env.deserialize_public_key xs

-- VerifySignature; `true` stands for a nil error.
unfoldable pub verify_signature : Env → ℕ → List ℕ → List ℕ → Bool
verify_signature env key xs signature = elim (env.deserialize_signature signature) [
  | none ↦ false
  | some sig ↦ env.verify key xs sig
]

-- GetAddressFromPubKey
unfoldable pub get_address_from_pub_key : Env → ℕ → ℕ
get_address_from_pub_key env key = env.address_from_pub_key key

-- AddressEqual
unfoldable pub address_equal : ℕ → ℕ → Bool
address_equal a b = a == b

-- MediationFeeConfig
pub record MediationFeeConfig : Type 0 where
  pub token_to_flat_fee : List (ℕ × ℕ)
  pub token_to_proportional_fee : List (ℕ × ℕ)
  pub token_to_proportional_imbalance_fee : List (ℕ × ℕ)
  pub cap_mediation_fees : Bool
