-- ===== src/Channel/Transition/Order/Handlers.antt =====
-- No handler but the one of a received cooperative settlement takes a channel back.
use pylons.Base.{
  ℕ, zero, suc, none, some, ◌≡◌, refl, ◌≤◌, arith, inl, inr, List, List-cases, length,
}
use pylons.Base.Outcome.{Outcome, ok, err, panic, Outcome-cases}
use pylons.Common.{Env}
use pylons.State.{NettingChannelState, TransactionChannelNewBalance, TransactionOrder}
use pylons.StateChange.{
  ContractReceiveChannelClosed, ActionTransferDirect, ContractReceiveChannelNewBalance,
  ReceiveTransferDirect, ActionWithdraw, ReceiveWithdrawRequest, ReceiveWithdraw,
  ContractReceiveChannelWithdraw, ActionCooperativeSettle, ReceiveCooperativeSettleRequest,
}
use pylons.Event.{Reason, Event}
use pylons.Channel.Result.{TransitionResult}
use pylons.Channel.Status.{
  ChannelStatus, closed, closing, opened, settled, settling, unusable, get_status, status_of,
  set_closed, set_settled, apply_channel_new_balance, pop_rest,
}
use pylons.Channel.Send.{send_direct_transfer}
use pylons.Channel.Direct.{handle_send_direct_transfer, handle_receive_direct_transfer}
use pylons.Channel.Withdraw.{
  handle_send_withdraw_request, handle_withdraw_request_received, handle_withdraw_received,
  handle_channel_withdraw,
}
use pylons.Channel.CooperativeSettle.{
  handle_send_cooperative_settle_request, handle_cooperative_settle_request_received,
  is_valid_cooperative_settle_request,
}
use pylons.Channel.Chain.{
  settle_closed, apply_deposits, handle_block, handle_action_close, handle_channel_closed,
  handle_channel_updated_transfer, handle_channel_settled, handle_channel_new_balance,
}

-- How far a channel is. An unusable channel, whose close or settle transaction has failed, stands
-- with the closed ones.
abbrev pub rank : ChannelStatus → ℕ
rank opened = 0
rank closing = 1
rank closed = 2
rank unusable = 2
rank settling = 3
rank settled = 4

-- What a transition promises of the new channel, if there is one.
abbrev pub After {ℓ} : (NettingChannelState → Type ℓ) → Outcome Reason TransitionResult → Type ℓ
After P (ok r) = elim r.new_state [ none ↦ Unit | some c ↦ P c ]
After P (err e) = Unit
After P panic = Unit

abbrev pub Later : NettingChannelState → NettingChannelState → Type 0
Later c d = rank (get_status c) ≤ rank (get_status d)

apply_channel_new_balance-get_status :
    (c : NettingChannelState) (t : TransactionChannelNewBalance)
    → get_status (apply_channel_new_balance c t) ≡ get_status c
unfolding apply_channel_new_balance get_status
apply_channel_new_balance-get_status c t = ground arith

queue-get_status :
    (c : NettingChannelState) (q : List TransactionOrder)
    → get_status (record c { deposit_transaction_queue = q }) ≡ get_status c
unfolding get_status
queue-get_status c q = refl

apply_deposits-get_status :
    (env : Env) (fuel : ℕ) (c : NettingChannelState) (n : ℕ)
    → get_status (apply_deposits env fuel c n) ≡ get_status c
unfolding apply_deposits
apply_deposits-get_status env zero c n = refl
apply_deposits-get_status env (suc fuel) c n = elim (List-cases c.deposit_transaction_queue) [
  | inl e ↦ simp (e, apply_deposits)
  | inr (order, rest, e) ↦
      let popped = record c { deposit_transaction_queue = pop_rest rest } in
      let ih =
        apply_deposits-get_status env fuel (apply_channel_new_balance popped order.transaction) n in
      let step = apply_channel_new_balance-get_status popped order.transaction in
      let queue = queue-get_status c (pop_rest rest) in rw (e, apply_deposits) (ground arith)
]

pub settle_closed-Later :
    (c : NettingChannelState) (height : ℕ) {r : NettingChannelState × List Event}
    → settle_closed c height ≡ ok r
    → Later c r.0
unfolding settle_closed get_status status_of
settle_closed-Later c height e = ground arith

module _ (env : Env) (msg_id : ℕ) (c : NettingChannelState) where
  pub handle_block-Later : (height n : ℕ) → After (Later c) (handle_block env c height n)
  unfolding handle_block
  handle_block-Later height n = elim (Outcome-cases (settle_closed c height)) [
    | inl (r, e) ↦
        let later = settle_closed-Later c height e in
        let same = apply_deposits-get_status env (length r.0.deposit_transaction_queue) r.0 n in
        rw (e, handle_block) (rw same later)
    | inr other ↦ ground arith
  ]

  pub handle_action_close-Later : (n : ℕ) → After (Later c) (ok (handle_action_close c n))
  unfolding handle_action_close get_status status_of
  handle_action_close-Later n = ground arith

  pub handle_channel_closed-Later :
      (m : ContractReceiveChannelClosed) → After (Later c) (ok (handle_channel_closed c m))
  unfolding handle_channel_closed set_closed get_status status_of
  handle_channel_closed-Later m = ground arith

  pub handle_channel_settled-Later :
      (h i n : ℕ) → After (Later c) (ok (handle_channel_settled c h i n))
  unfolding handle_channel_settled set_settled get_status status_of
  handle_channel_settled-Later h i n = ground arith

  pub handle_channel_updated_transfer-Later :
      (i : ℕ) → After (Later c) (ok (handle_channel_updated_transfer c i))
  unfolding handle_channel_updated_transfer get_status
  handle_channel_updated_transfer-Later i = ground arith

  pub handle_channel_new_balance-Later :
      (m : ContractReceiveChannelNewBalance) (n : ℕ)
      → After (Later c) (ok (handle_channel_new_balance env c m n))
  unfolding handle_channel_new_balance apply_channel_new_balance get_status
  handle_channel_new_balance-Later m n = ground arith

  pub handle_send_direct_transfer-Later :
      (a : ActionTransferDirect) → After (Later c) (handle_send_direct_transfer env msg_id c a)
  unfolding handle_send_direct_transfer send_direct_transfer get_status
  handle_send_direct_transfer-Later a = ground arith

  pub handle_receive_direct_transfer-Later :
      (m : ReceiveTransferDirect) → After (Later c) (handle_receive_direct_transfer env c m)
  unfolding handle_receive_direct_transfer get_status
  handle_receive_direct_transfer-Later m = ground arith

  pub withdraws-Later :
      (a : ActionWithdraw) (n : ℕ) → After (Later c) (handle_send_withdraw_request msg_id c a n)
  unfolding handle_send_withdraw_request get_status
  withdraws-Later a n = ground arith

  pub withdraw_request-Later :
      (m : ReceiveWithdrawRequest)
      → After (Later c) (handle_withdraw_request_received env msg_id c m)
  unfolding handle_withdraw_request_received
  withdraw_request-Later m = ground arith

  pub withdraw_received-Later :
      (m : ReceiveWithdraw) → After (Later c) (handle_withdraw_received env c m)
  unfolding handle_withdraw_received
  withdraw_received-Later m = ground arith

  pub channel_withdraw-Later :
      (m : ContractReceiveChannelWithdraw) → After (Later c) (ok (handle_channel_withdraw c m))
  unfolding handle_channel_withdraw get_status
  channel_withdraw-Later m = ground arith

  pub send_settle_request-Later :
      (a : ActionCooperativeSettle)
      → After (Later c) (ok (handle_send_cooperative_settle_request msg_id c a))
  unfolding handle_send_cooperative_settle_request get_status status_of
  send_settle_request-Later a = ground arith

  pub settle_request_received-Later :
      (m : ReceiveCooperativeSettleRequest)
      → After (Later c) (handle_cooperative_settle_request_received env msg_id c m)
  unfolding handle_cooperative_settle_request_received is_valid_cooperative_settle_request
      get_status status_of
  settle_request_received-Later m = ground arith
