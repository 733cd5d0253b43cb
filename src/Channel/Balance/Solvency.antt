-- ===== src/Channel/Balance/Solvency.antt =====
-- Direct and locked transfers that arrive (transfer/channel.go), and what the ends of a channel owe
-- each other.
use pylons.Base.{◌+◌, ◌≤◌, ◌<◌, List, ◌≡◌, Option, none, some, arith, word64, inl, inr, subst}
use pylons.Base.Outcome.{ok, Outcome-cases}
use pylons.Common.{Env}
use pylons.State.{
  NettingChannelEndState, NettingChannelState, BalanceProofSignedState, HashTimeLockState,
  LockedTransferSignedState, MerkleTreeState,
}
use pylons.State.SyncMap.{load}
use pylons.Event.{Event, Reason}
use pylons.StateChange.{ReceiveTransferDirect}
use pylons.Channel.Result.{transition}
use pylons.Channel.Balance.{
  get_amount_locked, transferred_of, get_balance, get_current_balance_proof, get_distributable,
}
use pylons.Channel.Locks.Registers.{total_locks-store}
use pylons.Channel.Packing.{with_lock_hash}
use pylons.Channel.Validity.{
  is_valid_direct_transfer, check_locked_transfer, valid_locked_transfer_check,
}
use pylons.Channel.Direct.{handle_receive_direct_transfer}
use pylons.Channel.Receive.{accept_locked_transfer, handle_receive_locked_transfer}

-- What the end has paid, locked and withdrawn is covered by its deposit and by what it has received,
-- in numbers that do not wrap.
pub record Solvent (s r : NettingChannelEndState) : Type 0 where
  pub covered :
      transferred_of s + get_amount_locked s + s.total_withdraw
      ≤ s.contract_balance + transferred_of r
  pub small : s.contract_balance + transferred_of r < word64

get_distributable_lem :
    (s r : NettingChannelEndState)
    → Solvent s r
    → get_distributable s r + transferred_of s + get_amount_locked s + s.total_withdraw
      ≤ s.contract_balance + transferred_of r
unfolding get_distributable get_balance
get_distributable_lem s r h = let a = h.covered in let b = h.small in ground arith

-- The amounts of an accepted direct transfer.
accepted_amount :
    (env : Env) (bp : BalanceProofSignedState) (c : NettingChannelState)
    (s r : NettingChannelEndState)
    → bp.transferred_amount < word64
    → is_valid_direct_transfer env bp c s r ≡ ok tt
    → (transferred_of s < bp.transferred_amount)
      × (bp.transferred_amount ≤ get_distributable s r + transferred_of s)
unfolding is_valid_direct_transfer get_current_balance_proof
accepted_amount env bp c s r lt h = (ground arith, ground arith)

Solvent-of_direct :
    (s r : NettingChannelEndState) (bp : BalanceProofSignedState)
    → Solvent s r
    → bp.transferred_amount ≤ get_distributable s r + transferred_of s
    → Solvent (record s { balance_proof = some bp }) r
unfolding get_amount_locked
Solvent-of_direct s r bp h le =
    let paid = get_distributable_lem s r h in
    let small = h.small in record { covered = ground arith; small = ground arith }

-- Whatever direct transfer with a 64-bit amount arrives, honest or not, and whether it is
-- accepted or refused: a partner whose payments, locks and withdrawals are covered by its
-- deposit and by what we have paid to it, a sum that fits in 64 bits, is so afterwards.
pub handle_receive_direct_transfer-Solvent :
    (env : Env) (c d : NettingChannelState) (m : ReceiveTransferDirect) (events : List Event)
    → m.balance_proof.transferred_amount < word64
    → Solvent c.partner_state c.our_state
    → handle_receive_direct_transfer env c m ≡ ok (transition d events)
    → Solvent d.partner_state d.our_state
unfolding handle_receive_direct_transfer
handle_receive_direct_transfer-Solvent env c d m events lt h e =
    let bp = m.balance_proof in
    elim (Outcome-cases (is_valid_direct_transfer env bp c c.partner_state c.our_state)) [
      | inl (_, valid) ↦
          let amount = accepted_amount env bp c c.partner_state c.our_state lt valid in
          let kept = Solvent-of_direct c.partner_state c.our_state bp h amount.1 in
          let same : record c {
            partner_state = record (c.partner_state) { balance_proof = some bp };
          }
              ≡ d =
            ground arith in
          subst (λ x. Solvent x.partner_state x.our_state) same kept
      | inr (inl (x, refused)) ↦
          let same : c ≡ d = ground arith in subst (λ x. Solvent x.partner_state x.our_state) same h
      | inr (inr failed) ↦ absurd (ground arith)
    ]

-- The amounts of an accepted locked transfer.
accepted_lock :
    (env : Env) (c : NettingChannelState) (s r : NettingChannelEndState)
    (bp : BalanceProofSignedState) (lock : HashTimeLockState) (tree : MerkleTreeState)
    → valid_locked_transfer_check env c s r bp lock ≡ ok tree
    → (bp.transferred_amount ≡ transferred_of s) × (lock.amount ≤ get_distributable s r)
unfolding valid_locked_transfer_check check_locked_transfer get_current_balance_proof
accepted_lock env c s r bp lock tree h = (ground arith, ground arith)

Solvent-of_lock :
    (env : Env) (c : NettingChannelState) (t : LockedTransferSignedState) (tree : MerkleTreeState)
    → Solvent c.partner_state c.our_state
    → load t.lock.secret_hash c.partner_state.secret_hashes_to_locked_locks ≡ none
    → t.balance_proof.transferred_amount ≡ transferred_of c.partner_state
    → t.lock.amount ≤ get_distributable c.partner_state c.our_state
    → let d = accept_locked_transfer env c t tree in Solvent d.partner_state d.our_state
unfolding accept_locked_transfer get_amount_locked
Solvent-of_lock env c t tree h fresh same le =
    let paid = get_distributable_lem c.partner_state c.our_state h in
    let small = h.small in
    let more =
      total_locks-store t.lock.secret_hash (with_lock_hash env t.lock)
        c.partner_state.secret_hashes_to_locked_locks fresh in
    record { covered = ground arith; small = ground arith }

-- Whatever locked transfer arrives, honest or not, and whether it is accepted or refused,
-- provided that its secret hash is not the key of one of the partner's locked locks already: a
-- partner whose payments, locks and withdrawals are covered by its deposit and by what we have
-- paid to it, a sum that fits in 64 bits, is so afterwards.
pub handle_receive_locked_transfer-Solvent :
    (env : Env) (c d : NettingChannelState) (t : LockedTransferSignedState) (events : List Event)
    (error : Option Reason)
    → Solvent c.partner_state c.our_state
    → load t.lock.secret_hash c.partner_state.secret_hashes_to_locked_locks ≡ none
    → handle_receive_locked_transfer env c t ≡ ok (d, events, error)
    → Solvent d.partner_state d.our_state
unfolding handle_receive_locked_transfer
handle_receive_locked_transfer-Solvent env c d t events error h fresh e =
    let bp = t.balance_proof in
    elim (Outcome-cases (valid_locked_transfer_check env c c.partner_state c.our_state bp t.lock)) [
      | inl (tree, valid) ↦
          let amount = accepted_lock env c c.partner_state c.our_state bp t.lock tree valid in
          let same : accept_locked_transfer env c t tree ≡ d = ground arith in
          subst (λ x. Solvent x.partner_state x.our_state) same
            (Solvent-of_lock env c t tree h fresh amount.0 amount.1)
      | inr (inl (x, refused)) ↦
          let same : c ≡ d = ground arith in subst (λ x. Solvent x.partner_state x.our_state) same h
      | inr (inr failed) ↦ absurd (ground arith)
    ]
