-- ===== src/Channel/Direct.antt =====
-- Direct payments (transfer/channel.go): the action of the user and the message of the partner.
use pylons.Base.{ℕ, [], ◌∷◌, some, not, ◌&&◌, ltb, leb, if◌then◌else◌, add64, sub64, max_uint64}
use pylons.Base.Outcome.{Outcome, ok, err, panic, ◌>>=◌}
use pylons.Common.{Env}
use pylons.State.{NettingChannelState}
use pylons.Event
use pylons.Event.{Reason, Event, channel_id_global_queue, send_processed}
use pylons.StateChange.{ActionTransferDirect, ReceiveTransferDirect}
use pylons.Channel.Balance.{get_distributable, get_current_balance_proof}
use pylons.Channel.Status.{get_status, is_opened}
use pylons.Channel.Validity.{is_valid_direct_transfer}
use pylons.Channel.Send.{send_direct_transfer}
use pylons.Channel.Result.{TransitionResult, transition, processed}

module _ (env : Env) where
  -- handleSendDirectTransfer
  unfoldable pub handle_send_direct_transfer :
      ℕ → NettingChannelState → ActionTransferDirect → Outcome Reason TransitionResult
  handle_send_direct_transfer msg_id channel action =
      let amount = action.amount in
      let distributable_amount = get_distributable channel.our_state channel.partner_state in
      let current = get_current_balance_proof channel.our_state in
      let transferred_amount_after_unlock =
        add64 (add64 current.transferred_amount amount) current.locked_amount in
      let is_open = is_opened (get_status channel) in
      let is_valid = ltb 0 amount && ltb transferred_amount_after_unlock max_uint64 in
      let can_pay = leb amount distributable_amount in
      let failed = λ (reason : Reason). transition channel (
        Event.event_payment_sent_failed (record {
          payment_network_id = channel.payment_network_id;
          token_network_id = channel.token_network_id;
          identifier = action.payment_id;
          target = action.receiver_address;
          reason = reason;
        })
        ∷ []) in
      let sent : Outcome Reason TransitionResult = (do
        r ← send_direct_transfer env channel amount msg_id action.payment_id
        ok (transition r.0 (Event.send_direct_transfer r.1 ∷ []))) in
      if is_open && (is_valid && can_pay)
      then sent
      else if not is_open
      then ok (failed Event.channel_state_is_not_opened)
      else if not is_valid
      then ok (failed Event.payment_amount_is_invalid)
      else ok (failed Event.payment_amount_exceeds_capacity)

  -- handleReceiveDirectTransfer
  unfoldable pub handle_receive_direct_transfer :
      NettingChannelState → ReceiveTransferDirect → Outcome Reason TransitionResult
  unfolding processed
  handle_receive_direct_transfer channel message =
      let partner_state = channel.partner_state in
      let bp = message.balance_proof in
      let previous = get_current_balance_proof partner_state in
      elim (is_valid_direct_transfer env bp channel partner_state channel.our_state) [
        | ok _ ↦ ok (
            transition
              (record channel { partner_state = record partner_state { balance_proof = some bp } })
              (Event.event_payment_received_success (record {
                payment_network_id = channel.payment_network_id;
                token_network_id = channel.token_network_id;
                identifier = message.payment_id;
                amount = sub64 bp.transferred_amount previous.transferred_amount;
                initiator = partner_state.address;
              })
                ∷ processed bp.sender message.message_id
                ∷ []))
        | err reason ↦ ok (
            transition channel (
              Event.event_transfer_received_invalid_direct_transfer message.payment_id reason ∷ []))
        | panic ↦ panic
      ]
