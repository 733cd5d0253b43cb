-- ===== src/Channel/Balance/Laws.antt =====
-- Amounts: what the two ends of a channel own adds up, and where the wrap-around of `uint64`
-- shows.
use pylons.Base.{ℕ, ◌+◌, ◌-◌, ◌≤◌, ◌<◌, ◌%◌, ◌≡◌, true, arith, add64, sub64, word64}
use pylons.State.{NettingChannelEndState, NettingChannelState, BalanceProofSignedState}
use pylons.Channel.Balance.{
  get_amount_locked, transferred_of, get_balance, get_current_balance_proof, get_distributable,
  is_valid_amount, get_cooperative_settle_balances,
}
use pylons.Channel.Validity.{is_balance_proof_safe_for_onchain_operations}

add64_lt : (a b : ℕ) → add64 a b < word64
add64_lt a b = omega arith

-- The amounts of an end are `uint64`s.
pub record IsU64 (e : NettingChannelEndState) : Type 0 where
  pub deposit : e.contract_balance < word64
  pub withdrawn : e.total_withdraw < word64
  pub transferred : transferred_of e < word64

current_parts :
    (e : NettingChannelEndState)
    → (get_current_balance_proof e).transferred_amount ≡ transferred_of e
unfolding get_current_balance_proof
current_parts e = ground arith

pub get_amount_locked-lt : (e : NettingChannelEndState) → get_amount_locked e < word64
unfolding get_amount_locked
get_amount_locked-lt e = omega arith

locked-lt : (e : NettingChannelEndState) → (get_current_balance_proof e).locked_amount < word64
unfolding get_current_balance_proof
locked-lt e = ground (arith, get_amount_locked-lt e)

-- A share: what is left of a deposit `x` with the amounts received, paid, due and locked.
abbrev share : ℕ → ℕ → ℕ → ℕ → ℕ → ℕ
share x t t' l l' = sub64 (add64 (sub64 (add64 x t') t) l') l

share_parts :
    (x t t' l l' : ℕ)
    → x < word64
    → t < word64
    → t' < word64
    → l < word64
    → l' < word64
    → share x t t' l l' ≡ (x + t' + l' + (word64 - t) + (word64 - l)) % word64
share_parts x t t' l l' hx ht ht' hl hl' = omega arith

shares_sum :
    (x y t t' l l' : ℕ)
    → x < word64
    → y < word64
    → t < word64
    → t' < word64
    → l < word64
    → l' < word64
    → add64 (share x t t' l l') (share y t' t l' l) ≡ add64 x y
shares_sum x y t t' l l' hx hy ht ht' hl hl' =
    rw (share_parts x t t' l l' hx ht ht' hl hl', share_parts y t' t l' l hy ht' ht hl' hl)
      (omega arith)

-- With amounts below 2^64 the two final balances add up, modulo 2^64, to all that was deposited less
-- all that was withdrawn: equation (3) of GetCooprativeSettleBalances, which the source does not
-- check.
pub get_cooperative_settle_balances-sum :
    (c : NettingChannelState)
    → IsU64 c.our_state
    → IsU64 c.partner_state
    → add64 (get_cooperative_settle_balances c).0 (get_cooperative_settle_balances c).1
      ≡ add64
          (sub64 c.our_state.contract_balance c.our_state.total_withdraw)
          (sub64 c.partner_state.contract_balance c.partner_state.total_withdraw)
unfolding get_cooperative_settle_balances get_current_balance_proof
get_cooperative_settle_balances-sum c u p =
    let ours = current_parts c.our_state in
    let theirs = current_parts c.partner_state in
    let lt = locked-lt c.our_state in
    let lt' = locked-lt c.partner_state in
    rw (ours, theirs)
      (shares_sum (sub64 c.our_state.contract_balance c.our_state.total_withdraw)
        (sub64 c.partner_state.contract_balance c.partner_state.total_withdraw)
        (transferred_of c.our_state) (transferred_of c.partner_state)
        (get_current_balance_proof c.our_state).locked_amount
        (get_current_balance_proof c.partner_state).locked_amount (omega arith) (omega arith)
        u.transferred p.transferred lt lt')

-- With amounts below 2^64 the balances of the two ends add up, modulo 2^64, to all that was
-- deposited less all that was withdrawn, whatever was transferred.
get_balance-sum :
    (c : NettingChannelState)
    → IsU64 c.our_state
    → IsU64 c.partner_state
    → add64 (get_balance c.our_state c.partner_state) (get_balance c.partner_state c.our_state)
      ≡ add64
          (sub64 c.our_state.contract_balance c.our_state.total_withdraw)
          (sub64 c.partner_state.contract_balance c.partner_state.total_withdraw)
unfolding get_balance
get_balance-sum c u p = omega arith

-- The two tests for an overflow of the transferred amount can never fail, since they look at a sum
-- that has wrapped already.
overflow_tests_pass :
    (bp : BalanceProofSignedState) (e : NettingChannelEndState) (amount : ℕ)
    → (is_balance_proof_safe_for_onchain_operations bp ≡ true) × (is_valid_amount e amount ≡ true)
unfolding is_balance_proof_safe_for_onchain_operations is_valid_amount
overflow_tests_pass bp e amount = (ground arith, ground arith)

get_balance-lt : (s r : NettingChannelEndState) → get_balance s r < word64
unfolding get_balance
get_balance-lt s r = omega arith

-- What an end can spend is never more than its balance less what it has locked, provided that the
-- latter does not exceed the balance.
pub get_distributable-le :
    (s r : NettingChannelEndState)
    → get_amount_locked s ≤ get_balance s r
    → get_distributable s r ≤ get_balance s r - get_amount_locked s
unfolding get_distributable
get_distributable-le s r h = ground (arith, get_balance-lt s r)
