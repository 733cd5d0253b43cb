-- ===== src/Channel/Agreement/Direct.antt =====
-- A direct payment between two channels in agreement.
use pylons.Base.{
  ℕ, ◌+◌, ◌≤◌, ◌<◌, [], ◌∷◌, ◌≡◌, none, some, arith, add64, word64, ap, subst, sym, ◌∙◌,
}
use pylons.Base.Outcome.{ok}
use pylons.Common.{Env}
use pylons.State.{
  NettingChannelEndState, NettingChannelState, BalanceProofSignedState, BalanceProofUnsignedState,
}
use pylons.Event.{Event, SendDirectTransfer, event_payment_received_success}
use pylons.StateChange.{ReceiveTransferDirect}
use pylons.Channel.Result.{transition, processed}
use pylons.Channel.Balance.{get_amount_locked, transferred_of, get_distributable}
use pylons.Channel.Status.{get_status}
use pylons.Channel.Packing.{is_valid_balance_proof_signature}
use pylons.Channel.Validity.{is_valid_direct_transfer}
use pylons.Channel.Send.{fake_signed, next_balance_proof, send_direct_transfer}
use pylons.Channel.Direct.{handle_receive_direct_transfer}
use pylons.Channel.Agreement.{
  SameEnd, InAgreement, SignedOf, locks_root_of, distributable, amount_locked, current_locked,
  current_transferred, current_root, within_limit, usable, kept_nonce,
}

module _ (env : Env) where
  -- What the sender keeps.
  record Sent (a a' : NettingChannelState) (amount : ℕ) (m : SendDirectTransfer) : Type 0 where
    enough : amount ≤ get_distributable a.our_state a.partner_state
    proof :
        m.balance_proof
        ≡ next_balance_proof env a
            (add64 amount (transferred_of a.our_state))
            (get_amount_locked a.our_state)
            (locks_root_of a.our_state)
    kept : a' ≡ record a {
      our_state = record (a.our_state) { balance_proof = some (fake_signed m.balance_proof) };
    }

  distributable-lt : (s r : NettingChannelEndState) → get_distributable s r < word64
  unfolding get_distributable
  distributable-lt s r = ground arith

  Sent-of_send :
      (a a' : NettingChannelState) (amount id payment_id : ℕ) (m : SendDirectTransfer)
      → send_direct_transfer env a amount id payment_id ≡ ok (a', m)
      → Sent a a' amount m
  unfolding send_direct_transfer
  Sent-of_send a a' amount id payment_id m h =
      let lt = distributable-lt a.our_state a.partner_state in
      record { enough = ground arith; proof = ground arith; kept = ground arith }

  accepted :
      (a b : NettingChannelState) (amount : ℕ) (bp : BalanceProofSignedState)
      → InAgreement a b
      → transferred_of a.our_state + get_amount_locked a.our_state < word64
      → 0 < amount
      → amount ≤ get_distributable a.our_state a.partner_state
      → SignedOf
          (next_balance_proof env a
            (add64 amount (transferred_of a.our_state))
            (get_amount_locked a.our_state)
            (locks_root_of a.our_state))
          bp
      → is_valid_balance_proof_signature env bp b.partner_state.address ≡ ok tt
      → is_valid_direct_transfer env bp b b.partner_state b.our_state ≡ ok tt
  unfolding is_valid_direct_transfer next_balance_proof
  accepted a b amount bp g fits pos enough s v =
      let use_it = usable env a b _ _ _ bp g s v in
      let limit = within_limit a.our_state a.partner_state g.ours.proof_for_locks fits in
      ground (
        arith,
        distributable a.our_state b.partner_state a.partner_state b.our_state g.ours g.theirs,
        amount_locked a.our_state b.partner_state g.ours,
        current_locked b.partner_state,
        current_transferred b.partner_state,
        current_root b.partner_state,
      )

-- A direct payment that one participant sends, and whose balance proof arrives with a valid
-- signature, is accepted by the other.
accepted_of_send :
    (env : Env) (a b a' : NettingChannelState) (amount id payment_id : ℕ) (m : SendDirectTransfer)
    (bp : BalanceProofSignedState)
    → InAgreement a b
    → transferred_of a.our_state + get_amount_locked a.our_state < word64
    → 0 < amount
    → send_direct_transfer env a amount id payment_id ≡ ok (a', m)
    → SignedOf m.balance_proof bp
    → is_valid_balance_proof_signature env bp b.partner_state.address ≡ ok tt
    → is_valid_direct_transfer env bp b b.partner_state b.our_state ≡ ok tt
accepted_of_send env a b a' amount id payment_id m bp g fits pos sent s v =
    let kept = Sent-of_send env a a' amount id payment_id m sent in
    accepted env a b amount bp g fits pos kept.enough (subst (λ u. SignedOf u bp) kept.proof s) v

-- The receiver's channel after a direct payment.
abbrev pub with_partner_proof : NettingChannelState → BalanceProofSignedState → NettingChannelState
with_partner_proof b bp = record b {
  partner_state = record (b.partner_state) { balance_proof = some bp };
}

SameEnd-of_signed :
    (e f : NettingChannelEndState) (u : BalanceProofUnsignedState) (bp : BalanceProofSignedState)
    → SameEnd e f
    → SignedOf u bp
    → SameEnd
        (record e { balance_proof = some (fake_signed u) })
        (record f { balance_proof = some bp })
unfolding fake_signed get_amount_locked
SameEnd-of_signed e f u bp s g = record {
  address = s.address;
  deposit = s.deposit;
  withdrawn = s.withdrawn;
  locked = s.locked;
  unlocked = s.unlocked;
  on_chain = s.on_chain;
  tree = s.tree;
  nonce = kept_nonce e f u bp g;
  transferred = g.transferred_amount;
  root = g.locks_root;
  proof_for_locks = λ h. ground arith;
  proof_for_locks' = λ h. ground arith;
}

agreement_kept :
    (a b : NettingChannelState) (u : BalanceProofUnsignedState) (bp : BalanceProofSignedState)
    → InAgreement a b
    → SignedOf u bp
    → InAgreement
        (record a { our_state = record (a.our_state) { balance_proof = some (fake_signed u) } })
        (with_partner_proof b bp)
unfolding get_status
agreement_kept a b u bp g s = record {
  ours = SameEnd-of_signed a.our_state b.partner_state u bp g.ours s;
  theirs = g.theirs;
  identifier = g.identifier;
  chain_id = g.chain_id;
  token_network_id = g.token_network_id;
  opened_ours = g.opened_ours;
  opened_theirs = g.opened_theirs;
}

-- What the receiver reports: the amount that was paid, by the partner.
abbrev pub payment_received : NettingChannelState → ReceiveTransferDirect → ℕ → Event
payment_received b message amount = event_payment_received_success (record {
  payment_network_id = b.payment_network_id;
  token_network_id = b.token_network_id;
  identifier = message.payment_id;
  amount = amount;
  initiator = b.partner_state.address;
})

-- The amount does not overflow: the total goes up by it, and what is locked stays.
new_total :
    (env : Env) (a a' : NettingChannelState) (amount : ℕ) (m : SendDirectTransfer)
    → Sent env a a' amount m
    → (a.our_state.balance_proof ≡ none → get_amount_locked a.our_state ≡ 0)
    → transferred_of a.our_state + get_amount_locked a.our_state < word64
    → (m.balance_proof.transferred_amount ≡ amount + transferred_of a.our_state)
      × (amount + transferred_of a.our_state + get_amount_locked a.our_state < word64)
unfolding next_balance_proof
new_total env a a' amount m kept h fits =
    let limit = within_limit a.our_state a.partner_state h fits in
    let enough = kept.enough in
    let proof = ap (λ u. u.transferred_amount) kept.proof in ground arith

still_fits :
    (env : Env) (a a' : NettingChannelState) (amount : ℕ) (m : SendDirectTransfer)
    → Sent env a a' amount m
    → (a.our_state.balance_proof ≡ none → get_amount_locked a.our_state ≡ 0)
    → transferred_of a.our_state + get_amount_locked a.our_state < word64
    → (transferred_of a'.our_state ≡ amount + transferred_of a.our_state)
      × (transferred_of a'.our_state + get_amount_locked a'.our_state < word64)
unfolding get_amount_locked fake_signed
still_fits env a a' amount m kept h fits =
    let total = new_total env a a' amount m kept h fits in let same = kept.kept in ground arith

handled :
    (env : Env) (b : NettingChannelState) (amount : ℕ) (message : ReceiveTransferDirect)
    → is_valid_direct_transfer env message.balance_proof b b.partner_state b.our_state ≡ ok tt
    → message.balance_proof.transferred_amount ≡ amount + transferred_of b.partner_state
    → amount + transferred_of b.partner_state < word64
    → handle_receive_direct_transfer env b message
      ≡ ok (
          transition (with_partner_proof b message.balance_proof) (
            payment_received b message amount
            ∷ processed message.balance_proof.sender message.message_id
            ∷ []))
unfolding handle_receive_direct_transfer processed
handled env b amount message valid total lt =
    let current = current_transferred b.partner_state in ground arith

-- Between two channels in agreement, a direct payment of a positive amount that one participant
-- sends, and whose balance proof arrives in a message with a valid signature of the sender, is
-- accepted by the other, who reports exactly the amount that was sent and confirms the message;
-- the two channels are in agreement again, the sender's transferred amount is up by the amount,
-- and its amounts still fit in 64 bits, when they did before.
pub direct_payment_agrees :
    (env : Env) (a b a' : NettingChannelState) (amount id payment_id : ℕ) (m : SendDirectTransfer)
    (message : ReceiveTransferDirect)
    → InAgreement a b
    → transferred_of a.our_state + get_amount_locked a.our_state < word64
    → 0 < amount
    → send_direct_transfer env a amount id payment_id ≡ ok (a', m)
    → SignedOf m.balance_proof message.balance_proof
    → is_valid_balance_proof_signature env message.balance_proof b.partner_state.address ≡ ok tt
    → (handle_receive_direct_transfer env b message
        ≡ ok (
            transition (with_partner_proof b message.balance_proof) (
              payment_received b message amount
              ∷ processed message.balance_proof.sender message.message_id
              ∷ [])))
      × InAgreement a' (with_partner_proof b message.balance_proof)
      × (transferred_of a'.our_state ≡ amount + transferred_of a.our_state)
      × (transferred_of a'.our_state + get_amount_locked a'.our_state < word64)
direct_payment_agrees env a b a' amount id payment_id m message g fits pos sent s v =
    let kept = Sent-of_send env a a' amount id payment_id m sent in
    let total = new_total env a a' amount m kept g.ours.proof_for_locks fits in
    let valid =
      accepted_of_send env a b a' amount id payment_id m message.balance_proof g fits pos sent s
        v in
    let fitting = still_fits env a a' amount m kept g.ours.proof_for_locks fits in
    let agree = agreement_kept a b m.balance_proof message.balance_proof g s in
    (
      handled env b amount message valid
          (s.transferred_amount ∙ total.0 ∙ ap (λ t. amount + t) (sym g.ours.transferred))
          (ground arith),
      subst (λ x. InAgreement x (with_partner_proof b message.balance_proof)) (sym kept.kept) agree,
      fitting.0,
      fitting.1,
    )
