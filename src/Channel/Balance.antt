-- ===== src/Channel/Balance.antt =====
-- Amounts and nonces of a channel (transfer/channel.go, transfer/state.go). All are `uint64`, so
-- sums and differences wrap.
pub mod Laws
pub mod Solvency
use pylons.Base.{
  ℕ, List, [], ◌∷◌, Option, none, some, Bool, ltb, leb, if◌then◌else◌, ◌==◌, add64, sub64,
  max_uint64, length,
}
use pylons.Base.Outcome.{Outcome, ok, err}
use pylons.State.{
  NettingChannelEndState, NettingChannelState, HashTimeLockState, UnlockPartialProofState,
  BalanceProofSignedState,
}
use pylons.State.SyncMap.{LockMap, load, store}
use pylons.Event.{Reason, target_address_is_not_a_participant}

-- Min
abbrev pub min_u64 : ℕ → ℕ → ℕ
min_u64 x y = if ltb x y then x else y

-- Max
abbrev pub max_u64 : ℕ → ℕ → ℕ
max_u64 x y = if ltb y x then x else y

-- The two loops of getAmountLocked; the total does not depend on the order of the entries.
unfoldable pub total_locks : LockMap HashTimeLockState → ℕ
total_locks [] = 0
total_locks ((k, lock) ∷ m) = add64 lock.amount (total_locks m)

unfoldable pub total_proofs : LockMap UnlockPartialProofState → ℕ
total_proofs [] = 0
total_proofs ((k, proof) ∷ m) = add64 proof.lock.amount (total_proofs m)

-- getAmountLocked
unfoldable pub get_amount_locked : NettingChannelEndState → ℕ
unfolding total_locks total_proofs
get_amount_locked e =
    add64
      (add64 (total_locks e.secret_hashes_to_locked_locks)
        (total_proofs e.secret_hashes_to_unlocked_locks))
      (total_proofs e.secret_hashes_to_on_chain_unlocked_locks)

-- The transferred amount of an end, 0 without a balance proof.
abbrev pub transferred_of : NettingChannelEndState → ℕ
transferred_of e = elim e.balance_proof [ none ↦ 0 | some bp ↦ bp.transferred_amount ]

-- getBalance
unfoldable pub get_balance : NettingChannelEndState → NettingChannelEndState → ℕ
get_balance sender receiver =
    add64 (sub64 (sub64 sender.contract_balance sender.total_withdraw) (transferred_of sender))
      (transferred_of receiver)

-- BalanceProofData
pub record BalanceProofData : Type 0 where
  pub locks_root : ℕ
  pub nonce : ℕ
  pub transferred_amount : ℕ
  pub locked_amount : ℕ

-- getCurrentBalanceProof; its error is always nil.
unfoldable pub get_current_balance_proof : NettingChannelEndState → BalanceProofData
get_current_balance_proof e = elim e.balance_proof [
  | none ↦ record { locks_root = 0; nonce = 0; transferred_amount = 0; locked_amount = 0 }
  | some bp ↦ record {
    locks_root = bp.locks_root;
    nonce = bp.nonce;
    transferred_amount = bp.transferred_amount;
    locked_amount = get_amount_locked e;
  }
]

-- GetDistributable
unfoldable pub get_distributable : NettingChannelEndState → NettingChannelEndState → ℕ
unfolding get_current_balance_proof
get_distributable sender receiver =
    let current = get_current_balance_proof sender in
    let distributable = sub64 (get_balance sender receiver) (get_amount_locked sender) in
    let overflow_limit =
      max_u64 (sub64 (sub64 max_uint64 current.transferred_amount) current.locked_amount) 0 in
    min_u64 overflow_limit distributable

-- getNextNonce
unfoldable pub get_next_nonce : NettingChannelEndState → ℕ
get_next_nonce e = elim e.balance_proof [ none ↦ 1 | some bp ↦ add64 bp.nonce 1 ]

-- The map from lock hashes to locks of GetBatchUnlock.
unfoldable pub add_locks :
    LockMap HashTimeLockState → LockMap HashTimeLockState → LockMap HashTimeLockState
add_locks [] acc = acc
add_locks ((k, lock) ∷ m) acc = add_locks m (store lock.lock_hash lock acc)

unfoldable pub add_proofs :
    LockMap UnlockPartialProofState → LockMap HashTimeLockState → LockMap HashTimeLockState
add_proofs [] acc = acc
add_proofs ((k, proof) ∷ m) acc = add_proofs m (store proof.lock.lock_hash proof.lock acc)

unfoldable pub pick_locks : List ℕ → LockMap HashTimeLockState → List HashTimeLockState
pick_locks [] m = []
pick_locks (h ∷ hs) m =
    let rest = pick_locks hs m in elim (load h m) [ none ↦ rest | some lock ↦ lock ∷ rest ]

-- GetBatchUnlock
unfoldable pub get_batch_unlock : NettingChannelEndState → List HashTimeLockState
unfolding add_locks add_proofs pick_locks
get_batch_unlock e = elim e.merkle_tree.layers [
  | [] ↦ []
  | leaves ∷ _ ↦ pick_locks leaves (
      add_proofs e.secret_hashes_to_on_chain_unlocked_locks (
        add_proofs e.secret_hashes_to_unlocked_locks
          (add_locks e.secret_hashes_to_locked_locks [])))
]

-- IsValidAmount
unfoldable pub is_valid_amount : NettingChannelEndState → ℕ → Bool
unfolding get_current_balance_proof
is_valid_amount e amount =
    let current = get_current_balance_proof e in
    leb (add64 (add64 current.transferred_amount current.locked_amount) amount) max_uint64

-- NettingChannelEndState.GetGasBalance
unfoldable pub get_gas_balance_end : NettingChannelEndState → ℕ
get_gas_balance_end e = elim e.balance_proof [
  | none ↦ sub64 e.contract_balance e.total_withdraw
  | some bp ↦ sub64 (sub64 e.contract_balance e.total_withdraw) bp.transferred_amount
]

-- NettingChannelState.GetGasBalance
unfoldable pub get_gas_balance : NettingChannelState → ℕ → ℕ → ℕ → Outcome Reason ℕ
unfolding get_gas_balance_end
get_gas_balance channel own target partner =
    if target == own
    then ok (get_gas_balance_end channel.our_state)
    else if partner == own
    then ok (get_gas_balance_end channel.partner_state)
    else err target_address_is_not_a_participant

-- NettingChannelState.GetContractBalance
unfoldable pub get_contract_balance : NettingChannelState → ℕ → ℕ → ℕ → Outcome Reason ℕ
get_contract_balance channel own target partner =
    if target == own
    then ok channel.our_state.contract_balance
    else if partner == own
    then ok channel.partner_state.contract_balance
    else err target_address_is_not_a_participant

-- calculateCooperativeSettleBalance
unfoldable pub calculate_cooperative_settle_balance :
    NettingChannelEndState → NettingChannelEndState → ℕ
unfolding get_current_balance_proof
calculate_cooperative_settle_balance participant1 participant2 =
    let bp1 = get_current_balance_proof participant1 in
    let bp2 = get_current_balance_proof participant2 in
    let b =
      add64 (sub64 participant1.contract_balance participant1.total_withdraw)
        bp2.transferred_amount in
    sub64 (add64 (sub64 b bp1.transferred_amount) bp2.locked_amount) bp1.locked_amount

-- GetCooprativeSettleBalances
unfoldable pub get_cooperative_settle_balances : NettingChannelState → ℕ × ℕ
unfolding calculate_cooperative_settle_balance
get_cooperative_settle_balances channel = (
  calculate_cooperative_settle_balance channel.our_state channel.partner_state,
  calculate_cooperative_settle_balance channel.partner_state channel.our_state,
)
