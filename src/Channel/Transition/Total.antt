-- ===== src/Channel/Transition/Total.antt =====
-- The transition function of a channel returns a result, whatever it is given.
use pylons.Base.{ℕ, List, ◌≡◌, refl, arith, be_bytes}
use pylons.Base.Outcome.{Outcome, ok, err, panic}
use pylons.Common.{Env}
use pylons.State.{NettingChannelState, NettingChannelEndState, BalanceProofSignedState}
use pylons.StateChange.{
  StateChange, ActionTransferDirect, ReceiveTransferDirect, ActionWithdraw, ReceiveWithdrawRequest,
  ReceiveWithdraw, ReceiveCooperativeSettleRequest, ReceiveCooperativeSettle,
}
use pylons.Channel.Result.{TransitionResult}
use pylons.Channel.Status.{get_status}
use pylons.Channel.Packing.{
  pack_balance_proof, hash_balance_data, pack_withdraw, pack_cooperative_settle, is_valid_signature,
  is_valid_balance_proof_signature,
}
use pylons.Channel.Validity.{is_balance_proof_usable_on_chain, is_valid_direct_transfer}
use pylons.Channel.Send.{send_direct_transfer}
use pylons.Channel.Direct.{handle_send_direct_transfer, handle_receive_direct_transfer}
use pylons.Channel.Withdraw.{
  is_valid_withdraw_amount, can_send_withdraw_request, handle_send_withdraw_request,
  is_valid_withdraw_request, handle_withdraw_request_received, is_valid_withdraw,
  handle_withdraw_received,
}
use pylons.Channel.CooperativeSettle.{
  is_valid_cooperative_settle_request, handle_cooperative_settle_request_received,
  check_participant1_signature, is_valid_cooperative_settle, handle_cooperative_settle_received,
}
use pylons.Channel.Chain.{settle_closed, handle_block}
use pylons.Channel.Transition.{state_transition_for_channel}

-- A result or an error, but no panic.
abbrev pub Returns {ℓ κ} : {E : Type ℓ} {A : Type κ} → Outcome E A → Type 0
Returns (ok a) = Unit
Returns (err e) = Unit
Returns panic = ⊥

-- A result, and neither an error nor a panic.
abbrev pub Succeeds {ℓ κ} : {E : Type ℓ} {A : Type κ} → Outcome E A → Type 0
Succeeds (ok a) = Unit
Succeeds (err e) = ⊥
Succeeds panic = ⊥

Succeeds-result {ℓ κ} :
    {E : Type ℓ} {A : Type κ} (m : Outcome E A) → Succeeds m → (a : A) × (m ≡ ok a)
Succeeds-result (ok a) s = (a, refl)
Succeeds-result (err e) s = absurd s
Succeeds-result panic s = absurd s

module _ (env : Env) where
  is_valid_signature-Returns :
      (xs ks ss : List ℕ) (a : ℕ) → Returns (is_valid_signature env xs ks ss a)
  unfolding is_valid_signature
  is_valid_signature-Returns xs ks ss a = ground arith

  signature-Returns :
      (bp : BalanceProofSignedState) (a : ℕ) → Returns (is_valid_balance_proof_signature env bp a)
  unfolding is_valid_balance_proof_signature
  signature-Returns bp a =
      is_valid_signature-Returns
        (pack_balance_proof env bp.nonce
          (hash_balance_data env bp.transferred_amount bp.locked_amount bp.locks_root)
          (be_bytes 32 bp.message_hash) bp.channel_id 1)
        bp.public_key bp.signature a

  usable-Returns :
      (bp : BalanceProofSignedState) (c : NettingChannelState) (s : NettingChannelEndState)
      → Returns (is_balance_proof_usable_on_chain env bp c s)
  unfolding is_balance_proof_usable_on_chain
  usable-Returns bp c s = ground (arith, signature-Returns bp s.address)

  direct-Returns :
      (bp : BalanceProofSignedState) (c : NettingChannelState) (s r : NettingChannelEndState)
      → Returns (is_valid_direct_transfer env bp c s r)
  unfolding is_valid_direct_transfer
  direct-Returns bp c s r = ground (arith, usable-Returns bp c s)

  handle_receive_direct_transfer-Succeeds :
      (c : NettingChannelState) (m : ReceiveTransferDirect)
      → Succeeds (handle_receive_direct_transfer env c m)
  unfolding handle_receive_direct_transfer
  handle_receive_direct_transfer-Succeeds c m =
      ground (arith, direct-Returns m.balance_proof c c.partner_state c.our_state)

  handle_send_direct_transfer-Succeeds :
      (msg_id : ℕ) (c : NettingChannelState) (a : ActionTransferDirect)
      → Succeeds (handle_send_direct_transfer env msg_id c a)
  unfolding handle_send_direct_transfer send_direct_transfer
  handle_send_direct_transfer-Succeeds msg_id c a = ground arith

  withdraw_amount-Returns :
      (p q : NettingChannelEndState) (t : ℕ) → Returns (is_valid_withdraw_amount p q t)
  unfolding is_valid_withdraw_amount
  withdraw_amount-Returns p q t = ground arith

  handle_send_withdraw_request-Succeeds :
      (msg_id : ℕ) (c : NettingChannelState) (a : ActionWithdraw) (n : ℕ)
      → Succeeds (handle_send_withdraw_request msg_id c a n)
  unfolding handle_send_withdraw_request can_send_withdraw_request
  handle_send_withdraw_request-Succeeds msg_id c a n =
      ground (arith, withdraw_amount-Returns c.our_state c.partner_state a.total_withdraw)

  withdraw_request-Returns :
      (c : NettingChannelState) (m : ReceiveWithdrawRequest)
      → Returns (is_valid_withdraw_request env c m)
  unfolding is_valid_withdraw_request
  withdraw_request-Returns c m = ground (
    arith,
    withdraw_amount-Returns c.partner_state c.our_state m.total_withdraw,
    is_valid_signature-Returns (pack_withdraw env m.channel_id m.participant m.total_withdraw)
        m.participant_public_key m.participant_signature m.participant_address,
  )

  handle_withdraw_request_received-Succeeds :
      (msg_id : ℕ) (c : NettingChannelState) (m : ReceiveWithdrawRequest)
      → Succeeds (handle_withdraw_request_received env msg_id c m)
  unfolding handle_withdraw_request_received
  handle_withdraw_request_received-Succeeds msg_id c m =
      ground (arith, withdraw_request-Returns c m)

  withdraw-Returns :
      (c : NettingChannelState) (m : ReceiveWithdraw) → Returns (is_valid_withdraw env c m)
  unfolding is_valid_withdraw
  withdraw-Returns c m = ground (
    arith,
    is_valid_signature-Returns (pack_withdraw env m.channel_id m.participant m.total_withdraw)
        m.partner_public_key m.partner_signature m.partner_address,
  )

  handle_withdraw_received-Succeeds :
      (c : NettingChannelState) (m : ReceiveWithdraw) → Succeeds (handle_withdraw_received env c m)
  unfolding handle_withdraw_received
  handle_withdraw_received-Succeeds c m = ground (arith, withdraw-Returns c m)

  settle_request-Returns :
      (c : NettingChannelState) (m : ReceiveCooperativeSettleRequest)
      → Returns (is_valid_cooperative_settle_request env c m)
  unfolding is_valid_cooperative_settle_request
  settle_request-Returns c m = ground (
    arith,
    is_valid_signature-Returns
        (pack_cooperative_settle env m.channel_id m.participant1 m.participant1_balance
          m.participant2 m.participant2_balance)
        m.participant1_public_key m.participant1_signature m.participant1_address,
  )

  handle_cooperative_settle_request_received-Succeeds :
      (msg_id : ℕ) (c : NettingChannelState) (m : ReceiveCooperativeSettleRequest)
      → Succeeds (handle_cooperative_settle_request_received env msg_id c m)
  unfolding handle_cooperative_settle_request_received
  handle_cooperative_settle_request_received-Succeeds msg_id c m =
      ground (arith, settle_request-Returns c m)

  participant1-Returns :
      (xs : List ℕ) (m : ReceiveCooperativeSettle) → Returns (check_participant1_signature env xs m)
  unfolding check_participant1_signature
  participant1-Returns xs m = ground (
    arith,
    is_valid_signature-Returns xs m.participant1_public_key m.participant1_signature
        m.participant1_address,
  )

  cooperative_settle-Returns :
      (c : NettingChannelState) (m : ReceiveCooperativeSettle)
      → Returns (is_valid_cooperative_settle env c m)
  unfolding is_valid_cooperative_settle
  cooperative_settle-Returns c m =
      let xs =
        pack_cooperative_settle env m.channel_id m.participant1 m.participant1_balance
          m.participant2 m.participant2_balance in
      ground (
        arith,
        participant1-Returns xs m,
        is_valid_signature-Returns xs m.participant2_public_key m.participant2_signature
            m.participant2_address,
      )

  handle_cooperative_settle_received-Succeeds :
      (c : NettingChannelState) (m : ReceiveCooperativeSettle)
      → Succeeds (handle_cooperative_settle_received env c m)
  unfolding handle_cooperative_settle_received
  handle_cooperative_settle_received-Succeeds c m = ground (arith, cooperative_settle-Returns c m)

  settle_closed-Succeeds :
      (c : NettingChannelState) (height : ℕ) → Succeeds (settle_closed c height)
  unfolding settle_closed get_status
  settle_closed-Succeeds c height = ground arith

  handle_block-Succeeds :
      (c : NettingChannelState) (height n : ℕ) → Succeeds (handle_block env c height n)
  unfolding handle_block
  handle_block-Succeeds c height n = ground (arith, settle_closed-Succeeds c height)

  succeeds :
      (msg_id : ℕ) (c : NettingChannelState) (change : StateChange) (n : ℕ)
      → Succeeds (state_transition_for_channel env msg_id c change n)
  unfolding state_transition_for_channel
  succeeds i c (StateChange.block height) n = handle_block-Succeeds c height n
  succeeds i c (StateChange.action_transfer_direct a) n = handle_send_direct_transfer-Succeeds i c a
  succeeds i c (StateChange.receive_transfer_direct m) n =
      handle_receive_direct_transfer-Succeeds c m
  succeeds i c (StateChange.action_withdraw a) n = handle_send_withdraw_request-Succeeds i c a n
  succeeds i c (StateChange.receive_withdraw_request m) n =
      handle_withdraw_request_received-Succeeds i c m
  succeeds i c (StateChange.receive_withdraw m) n = handle_withdraw_received-Succeeds c m
  succeeds i c (StateChange.receive_cooperative_settle_request m) n =
      handle_cooperative_settle_request_received-Succeeds i c m
  succeeds i c (StateChange.receive_cooperative_settle m) n =
      handle_cooperative_settle_received-Succeeds c m
  succeeds i c _ n = tt

  -- For every channel, state change and block number the transition function returns a
  -- transition: no handler panics or fails, also where it dereferences what it has not tested.
  pub state_transition_for_channel_returns :
      (msg_id : ℕ) (channel : NettingChannelState) (change : StateChange) (block_number : ℕ)
      → (r : TransitionResult) × (state_transition_for_channel env msg_id channel change
            block_number
          ≡ ok r)
  state_transition_for_channel_returns msg_id channel change block_number =
      Succeeds-result _ (succeeds msg_id channel change block_number)
