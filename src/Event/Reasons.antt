-- ===== src/Event/Reasons.antt =====
-- The errors of transfer/channel.go and of the payment tasks, in the order of the sources, and the
-- reasons that events give. The text is kept as the message that produces it, without the values
-- printed in it.

pub data Reason : Type 0 where
  lock_has_been_unlocked_on_chain : Reason
  block_number_below_lock_expiration_threshold : Reason
  refund_did_not_match_received_transfer : Reason
  no_corresponding_lock : Reason
  locksroot_did_not_match : Reason
  wrong_transferred_amount : Reason
  wrong_locked_amount : Reason
  data_that_was_signed_is_nil : Reason
  channel_already_closed : Reason
  channel_identifier_does_not_match : Reason
  token_network_identifier_does_not_match : Reason
  chain_id_does_not_match : Reason
  total_transferred_amount_would_overflow : Reason
  nonce_did_not_change_sequentially : Reason
  locks_root_changed : Reason
  transferred_amount_decreased : Reason
  amount_larger_than_distributable : Reason
  secret_hash_not_found_in_locked_locks : Reason
  lock_was_unlocked_on_chain : Reason
  lock_is_not_known : Reason
  same_lockhash_handled_twice : Reason
  too_many_pending_transfers : Reason
  transferred_amount_changed : Reason
  lock_amount_larger_than_distributable : Reason
  secrethash_of_empty_hash : Reason
  transfer_amount_exceeds_distributable : Reason
  channel_state_is_not_opened : Reason
  caller_must_make_sure_the_lock_is_known : Reason
  refund_needs_known_and_pending_transfer : Reason
  payment_amount_is_invalid : Reason
  payment_amount_exceeds_capacity : Reason
  total_withdraw_smaller_than_current : Reason
  amount_to_withdraw_no_larger_than_zero : Reason
  both_withdraw_larger_than_deposit : Reason
  total_withdraw_larger_than_distributable : Reason
  participant_address_invalid : Reason
  participant1_address_invalid : Reason
  participant2_address_invalid : Reason
  participant_address_is_not_the_signer : Reason
  invalid_balance : Reason
  failed_to_get_public_key : Reason
  signature_could_not_be_recovered : Reason
  signature_address_does_not_match : Reason
  target_address_is_not_a_participant : Reason
  participant1_signature_invalid : Reason → Reason
  lock_has_expired : Reason
  lock_timeout_is_unsafe : Reason
  not_safe_to_wait : Reason
  lock_expired : Reason
  mediator_has_a_waiting_transfer : Reason
  settle_timeout_below_lock_timeout : Reason
  token_address_does_not_match : Reason
  locked_transfer_event_is_nil : Reason
  payer_is_not_the_sender : Reason
  state_secret_hash_is_nil : Reason
  first_pair_has_another_secret_hash : Reason
  transfers_are_not_almost_equal : Reason
  payee_is_not_the_refund_payer : Reason
  state_change_type_error : Reason
  transfer_lock_has_expired : Reason
  no_route_available : Reason
  no_route_could_be_used : Reason
  bad_secret_request_message_from_target : Reason
  user_canceled_payment : Reason
  route_was_canceled : Reason
