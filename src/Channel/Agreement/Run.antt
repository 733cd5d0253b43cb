-- ===== src/Channel/Agreement/Run.antt =====
-- Direct payments in both directions between two participants, one after the other.
use pylons.Base.{ℕ, ◌+◌, ◌<◌, List, [], ◌∷◌, ◌≡◌, arith, word64, sym, ap, subst}
use pylons.Base.Outcome.{Outcome, ok}
use pylons.Common.{Env}
use pylons.State.{NettingChannelState}
use pylons.Event.{Reason, Event, SendDirectTransfer}
use pylons.StateChange.{ActionTransferDirect, ReceiveTransferDirect}
use pylons.Channel.Result.{TransitionResult, transition}
use pylons.Channel.Balance.{get_amount_locked, transferred_of}
use pylons.Channel.Packing.{is_valid_balance_proof_signature}
use pylons.Channel.Send.{send_direct_transfer}
use pylons.Channel.Direct.{handle_send_direct_transfer, handle_receive_direct_transfer}
use pylons.Channel.Agreement.{InAgreement, SignedOf}
use pylons.Channel.Agreement.Direct.{direct_payment_agrees}

-- One payment: the first channel handles the action of its user and sends a message, which
-- arrives signed, and the second channel handles it.
pub record Payment (env : Env) (a b a' b' : NettingChannelState) : Type 0 where
  pub action : ActionTransferDirect
  pub message_id : ℕ
  pub m : SendDirectTransfer
  pub message : ReceiveTransferDirect
  pub events : List Event
  pub sent :
      handle_send_direct_transfer env message_id a action
      ≡ ok (transition a' (Event.send_direct_transfer m ∷ []))
  pub signed : SignedOf m.balance_proof message.balance_proof
  pub signature :
      is_valid_balance_proof_signature env message.balance_proof b.partner_state.address ≡ ok tt
  pub received : handle_receive_direct_transfer env b message ≡ ok (transition b' events)

-- The two channels agree, and the amounts of both fit in 64 bits.
pub record Consistent (a b : NettingChannelState) : Type 0 where
  pub agree : InAgreement a b
  pub ours : transferred_of a.our_state + get_amount_locked a.our_state < word64
  pub theirs : transferred_of b.our_state + get_amount_locked b.our_state < word64

-- Payments of either participant, in any order: `l` is what the left one pays in all, and `r`
-- what the right one does.
pub data Run (env : Env) : (l r : ℕ) (a b a' b' : NettingChannelState) → Type 0 where
  done : (a b : NettingChannelState) → Run env 0 0 a b a b
  left_pays :
      (l r : ℕ) (a b a' b' a'' b'' : NettingChannelState) (p : Payment env a b a' b')
      → Run env l r a' b' a'' b''
      → Run env (l + p.action.amount) r a b a'' b''
  right_pays :
      (l r : ℕ) (a b a' b' a'' b'' : NettingChannelState) (p : Payment env b a b' a')
      → Run env l r a' b' a'' b''
      → Run env l (r + p.action.amount) a b a'' b''

Consistent-sym : (a b : NettingChannelState) → Consistent a b → Consistent b a
Consistent-sym a b c = record {
  agree = record {
    ours = c.agree.theirs;
    theirs = c.agree.ours;
    identifier = sym c.agree.identifier;
    chain_id = sym c.agree.chain_id;
    token_network_id = sym c.agree.token_network_id;
    opened_ours = c.agree.opened_theirs;
    opened_theirs = c.agree.opened_ours;
  };
  ours = c.theirs;
  theirs = c.ours;
}

-- A message that the handler of the action sends was made for a positive amount.
sent_of_handle :
    (env : Env) (message_id : ℕ) (a a' : NettingChannelState) (action : ActionTransferDirect)
    (m : SendDirectTransfer)
    → handle_send_direct_transfer env message_id a action
      ≡ ok (transition a' (Event.send_direct_transfer m ∷ []))
    → (0 < action.amount)
      × (send_direct_transfer env a action.amount message_id action.payment_id ≡ ok (a', m))
unfolding handle_send_direct_transfer
sent_of_handle env message_id a a' action m h = ground arith

-- The state that a handled message leaves is the one that the handler is known to give.
state_of_transition :
    (b b' : NettingChannelState) (events events' : List Event) (r : Outcome Reason TransitionResult)
    → r ≡ ok (transition b events)
    → r ≡ ok (transition b' events')
    → b' ≡ b
state_of_transition b b' events events' r h h' = ground arith

-- What a payment leaves: the channels agree, and the payer's total is up by the amount.
record Paid (a b a' b' : NettingChannelState) (amount : ℕ) : Type 0 where
  consistent : Consistent a' b'
  total : transferred_of a'.our_state ≡ amount + transferred_of a.our_state
  other : transferred_of b'.our_state ≡ transferred_of b.our_state

pay :
    (env : Env) (a b a' b' : NettingChannelState) (p : Payment env a b a' b')
    → Consistent a b
    → Paid a b a' b' p.action.amount
pay env a b a' b' p c =
    let start = sent_of_handle env p.message_id a a' p.action p.m p.sent in
    let paid =
      direct_payment_agrees env a b a' p.action.amount p.message_id p.action.payment_id p.m
        p.message c.agree c.ours start.0 start.1 p.signed p.signature in
    let same = state_of_transition _ b' _ p.events _ paid.0 p.received in
    let other = ap (λ x. transferred_of x.our_state) same in
    let agree = subst (λ x. InAgreement a' x) (sym same) paid.1 in
    record {
      consistent = record {
        agree = agree;
        ours = paid.3;
        theirs =
            subst (λ x. transferred_of x.our_state + get_amount_locked x.our_state < word64)
              (sym same) c.theirs;
      };
      total = paid.2;
      other = other;
    }

-- From two channels that agree and whose amounts fit in 64 bits, however the two participants
-- pay each other directly, one payment after the other: the channels agree in the end, the
-- amounts fit, and what each has transferred is up by exactly what it paid in all.
pub Run-Consistent :
    (env : Env) (l r : ℕ) (a b a' b' : NettingChannelState)
    → Run env l r a b a' b'
    → Consistent a b
    → Consistent a' b'
      × (transferred_of a'.our_state ≡ transferred_of a.our_state + l)
      × (transferred_of b'.our_state ≡ transferred_of b.our_state + r)
Run-Consistent env _ _ _ _ _ _ (done a b) c = (c, ground arith, ground arith)
Run-Consistent env _ _ _ _ _ _ (left_pays l r a b a' b' a'' b'' p rest) c =
    let paid = pay env a b a' b' p c in
    let later = Run-Consistent env l r a' b' a'' b'' rest paid.consistent in
    let total = paid.total in let other = paid.other in (later.0, ground arith, ground arith)
Run-Consistent env _ _ _ _ _ _ (right_pays l r a b a' b' a'' b'' p rest) c =
    let paid = pay env b a b' a' p (Consistent-sym a b c) in
    let later = Run-Consistent env l r a' b' a'' b'' rest (Consistent-sym b' a' paid.consistent) in
    let total = paid.total in let other = paid.other in (later.0, ground arith, ground arith)
