-- ===== src/Examples.antt =====
-- Two small channels, and the functions of the outside world that they are run with.
pub mod Payments
pub mod Locks
pub mod Registers
pub mod Expiry
pub mod Withdrawals
pub mod Amounts
pub mod Settlements
pub mod Trees
pub mod Tasks
pub mod Mediation
pub mod Routes
use pylons.Base.{ℕ, ◌+◌, List, [], ◌∷◌, Option, none, some, ◌==◌, ◌≡◌, ◌<◌, refl, arith, word64}
use pylons.Common.{Env}
use pylons.State.{
  NettingChannelEndState, NettingChannelState, BalanceProofSignedState, BalanceProofUnsignedState,
  MerkleTreeState,
}
use pylons.Channel.Balance.{get_amount_locked, get_next_nonce, transferred_of}
use pylons.Channel.Balance.Solvency.{Solvent}
use pylons.Channel.Status.{get_status}
use pylons.Channel.Agreement.{InAgreement, SignedOf}

abbrev pub sum : List ℕ → ℕ
sum [] = 0
sum (x ∷ xs) = x + sum xs

abbrev pub first : List ℕ → Option ℕ
first [] = none
first (x ∷ xs) = some x

-- A key is its own address, and a signature names its key.
abbrev pub test_env : Env
test_env = record {
  digest = sum;
  deserialize_public_key = first;
  deserialize_signature = first;
  verify = λ key xs signature. key == signature;
  address_from_pub_key = λ key. key;
  signature_prefix = [];
  close_message_length = [];
  withdraw_message_length = [];
  cosettle_message_length = [];
  withdraw_type = 3;
  cooperative_settle_type = 4;
  usdt_contract_address = 99;
  confirm_block_count = 1;
  max_block_delay = 10;
  withdraw_timeout = 40;
}

abbrev pub empty_tree : MerkleTreeState
empty_tree = record { layers = [] ∷ (0 ∷ []) ∷ [] }

-- An end with a deposit of 100 and no transfers yet.
abbrev pub fresh_end : ℕ → NettingChannelEndState
fresh_end address = record {
  address = address;
  contract_balance = 100;
  total_withdraw = 0;
  secret_hashes_to_locked_locks = [];
  secret_hashes_to_unlocked_locks = [];
  secret_hashes_to_on_chain_unlocked_locks = [];
  merkle_tree = empty_tree;
  balance_proof = none;
}

-- The channel between 1 and 2 as one of them has it.
abbrev pub channel_of : NettingChannelEndState → NettingChannelEndState → NettingChannelState
channel_of ours theirs = record {
  identifier = 7;
  chain_id = 0;
  token_address = 99;
  payment_network_id = 5;
  token_network_id = 6;
  reveal_timeout = 10;
  settle_timeout = 20;
  fee_schedule = none;
  our_state = ours;
  partner_state = theirs;
  deposit_transaction_queue = [];
  open_transaction = none;
  close_transaction = none;
  settle_transaction = none;
  update_transaction = none;
  our_unlock_transaction = none;
  withdraw_transaction = none;
}

abbrev pub left_channel : NettingChannelState
left_channel = channel_of (fresh_end 1) (fresh_end 2)

abbrev pub right_channel : NettingChannelState
right_channel = channel_of (fresh_end 2) (fresh_end 1)

-- A balance proof with the signature of an address.
abbrev pub signed_by : ℕ → BalanceProofUnsignedState → BalanceProofSignedState
signed_by address u = record {
  nonce = u.nonce;
  transferred_amount = u.transferred_amount;
  locked_amount = u.locked_amount;
  locks_root = u.locks_root;
  balance_hash = u.balance_hash;
  token_network_id = u.token_network_id;
  channel_id = u.channel_id;
  message_hash = 0;
  signature = address ∷ [];
  sender = address;
  chain_id = u.chain_id;
  public_key = address ∷ [];
}

pub signed_by-SignedOf :
    (address : ℕ) (u : BalanceProofUnsignedState) → SignedOf u (signed_by address u)
signed_by-SignedOf address u = record {
  nonce = refl;
  transferred_amount = refl;
  locked_amount = refl;
  locks_root = refl;
  token_network_id = refl;
  channel_id = refl;
  chain_id = refl;
}

-- The two fresh channels agree, and nothing is paid or locked.
pub agreement : InAgreement left_channel right_channel
unfolding get_status get_amount_locked get_next_nonce
agreement = record {
  ours = record {
    address = refl;
    deposit = refl;
    withdrawn = refl;
    locked = refl;
    unlocked = refl;
    on_chain = refl;
    tree = refl;
    nonce = refl;
    transferred = refl;
    root = refl;
    proof_for_locks = λ h. refl;
    proof_for_locks' = λ h. refl;
  };
  theirs = record {
    address = refl;
    deposit = refl;
    withdrawn = refl;
    locked = refl;
    unlocked = refl;
    on_chain = refl;
    tree = refl;
    nonce = refl;
    transferred = refl;
    root = refl;
    proof_for_locks = λ h. refl;
    proof_for_locks' = λ h. refl;
  };
  identifier = refl;
  chain_id = refl;
  token_network_id = refl;
  opened_ours = refl;
  opened_theirs = refl;
}

pub locked_fits :
    transferred_of left_channel.our_state + get_amount_locked left_channel.our_state < word64
unfolding get_amount_locked
locked_fits = omega arith

pub right-Solvent : Solvent right_channel.partner_state right_channel.our_state
unfolding get_amount_locked
right-Solvent = record { covered = omega arith; small = omega arith }
