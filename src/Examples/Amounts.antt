-- ===== src/Examples/Amounts.antt =====
-- Amounts of the example channels.
use pylons.Base.{◌-◌, ◌≤◌, ◌≡◌, arith, add64, sub64}
use pylons.Channel.Balance.{
  get_amount_locked, get_balance, get_cooperative_settle_balances, get_distributable,
}
use pylons.Channel.Balance.Laws.{IsU64, get_cooperative_settle_balances-sum, get_distributable-le}
use pylons.Examples.{fresh_end, left_channel}

amounts_fit : IsU64 (fresh_end 1)
amounts_fit = record { deposit = omega arith; withdrawn = omega arith; transferred = omega arith }

amounts_fit' : IsU64 (fresh_end 2)
amounts_fit' = record { deposit = omega arith; withdrawn = omega arith; transferred = omega arith }

get_cooperative_settle_balances-sum_example :
    add64
      (get_cooperative_settle_balances left_channel).0
      (get_cooperative_settle_balances left_channel).1
    ≡ add64 (sub64 100 0) (sub64 100 0)
get_cooperative_settle_balances-sum_example =
    get_cooperative_settle_balances-sum left_channel amounts_fit amounts_fit'

nothing_locked :
    get_amount_locked left_channel.our_state
    ≤ get_balance left_channel.our_state left_channel.partner_state
unfolding get_amount_locked get_balance
nothing_locked = omega arith

get_distributable-le_example :
    get_distributable left_channel.our_state left_channel.partner_state
    ≤ get_balance left_channel.our_state left_channel.partner_state
      - get_amount_locked left_channel.our_state
get_distributable-le_example =
    get_distributable-le left_channel.our_state left_channel.partner_state nothing_locked
