-- ===== src/Channel/Agreement.antt =====
-- Two channels, one for each participant, that record the same: what each holds of itself agrees
-- with what the other holds of its partner. A balance proof that is sent is signed on the way; the
-- sender keeps it unsigned, so of the two balance proofs only the amounts, the locks root and the
-- nonce agree.
pub mod Direct
pub mod Locked
pub mod Run
pub mod Settle
pub mod Expiry
pub mod Withdraw
pub mod Unlock
use pylons.Base.{ℕ, ◌+◌, ◌<◌, word64, List, ◌≡◌, Option, none, some, arith, refl}
use pylons.Base.Outcome.{ok}
use pylons.Common.{Env}
use pylons.State.{
  NettingChannelEndState, NettingChannelState, BalanceProofSignedState, BalanceProofUnsignedState,
}
use pylons.Channel.Balance.{
  get_amount_locked, transferred_of, get_current_balance_proof, get_next_nonce, get_balance,
  get_distributable,
}
use pylons.Channel.Status.{get_status, opened}
use pylons.Channel.Packing.{is_valid_balance_proof_signature}
use pylons.Channel.Validity.{
  is_balance_proof_usable_on_chain, is_balance_proof_safe_for_onchain_operations,
}
use pylons.Channel.Send.{next_balance_proof, fake_signed}

-- The locks root of an end, 0 without a balance proof.
abbrev pub locks_root_of : NettingChannelEndState → ℕ
locks_root_of e = elim e.balance_proof [ none ↦ 0 | some bp ↦ bp.locks_root ]

-- One end as its owner has it, and as the other participant has it.
pub record SameEnd (e f : NettingChannelEndState) : Type 0 where
  pub address : f.address ≡ e.address
  pub deposit : f.contract_balance ≡ e.contract_balance
  pub withdrawn : f.total_withdraw ≡ e.total_withdraw
  pub locked : f.secret_hashes_to_locked_locks ≡ e.secret_hashes_to_locked_locks
  pub unlocked : f.secret_hashes_to_unlocked_locks ≡ e.secret_hashes_to_unlocked_locks
  pub on_chain :
      f.secret_hashes_to_on_chain_unlocked_locks ≡ e.secret_hashes_to_on_chain_unlocked_locks
  pub tree : f.merkle_tree ≡ e.merkle_tree
  pub nonce : get_next_nonce f ≡ get_next_nonce e
  pub transferred : transferred_of f ≡ transferred_of e
  pub root : locks_root_of f ≡ locks_root_of e
  pub proof_for_locks : e.balance_proof ≡ none → get_amount_locked e ≡ 0
  pub proof_for_locks' : f.balance_proof ≡ none → get_amount_locked f ≡ 0

-- The channel `a` of one participant and the channel `b` of the other.
pub record InAgreement (a b : NettingChannelState) : Type 0 where
  pub ours : SameEnd a.our_state b.partner_state
  pub theirs : SameEnd b.our_state a.partner_state
  pub identifier : b.identifier ≡ a.identifier
  pub chain_id : b.chain_id ≡ a.chain_id
  pub token_network_id : b.token_network_id ≡ a.token_network_id
  pub opened_ours : get_status a ≡ opened
  pub opened_theirs : get_status b ≡ opened

-- A balance proof as it arrives: the one that was sent, with a signature.
pub record SignedOf (u : BalanceProofUnsignedState) (bp : BalanceProofSignedState) : Type 0 where
  pub nonce : bp.nonce ≡ u.nonce
  pub transferred_amount : bp.transferred_amount ≡ u.transferred_amount
  pub locked_amount : bp.locked_amount ≡ u.locked_amount
  pub locks_root : bp.locks_root ≡ u.locks_root
  pub token_network_id : bp.token_network_id ≡ u.token_network_id
  pub channel_id : bp.channel_id ≡ u.channel_id
  pub chain_id : bp.chain_id ≡ u.chain_id

pub amount_locked :
    (e f : NettingChannelEndState) → SameEnd e f → get_amount_locked f ≡ get_amount_locked e
unfolding get_amount_locked
amount_locked e f s = ground arith

-- Without a balance proof nothing is locked, so the current one always tells what is locked.
pub current_locked :
    (e : NettingChannelEndState)
    → (e.balance_proof ≡ none → get_amount_locked e ≡ 0)
    → (get_current_balance_proof e).locked_amount ≡ get_amount_locked e
unfolding get_current_balance_proof
current_locked e h = ground arith

pub current_transferred :
    (e : NettingChannelEndState)
    → (get_current_balance_proof e).transferred_amount ≡ transferred_of e
unfolding get_current_balance_proof
current_transferred e = ground arith

pub current_root :
    (e : NettingChannelEndState) → (get_current_balance_proof e).locks_root ≡ locks_root_of e
unfolding get_current_balance_proof
current_root e = ground arith

-- Both participants compute the same amount that an end can spend.
pub distributable :
    (e f p q : NettingChannelEndState)
    → SameEnd e f
    → SameEnd q p
    → get_distributable f q ≡ get_distributable e p
unfolding get_distributable get_balance
distributable e f p q s t = ground (
  arith,
  amount_locked e f s,
  current_locked e,
  current_locked f,
  current_transferred e,
  current_transferred f,
)

-- While the amounts fit, what can be spent does not make them overflow.
pub within_limit :
    (s r : NettingChannelEndState)
    → (s.balance_proof ≡ none → get_amount_locked s ≡ 0)
    → transferred_of s + get_amount_locked s < word64
    → transferred_of s + get_amount_locked s + get_distributable s r < word64
unfolding get_distributable
within_limit s r h fits = ground (arith, current_locked s, current_transferred s)

-- A balance proof that follows the sender's last one can be used by the receiver on-chain.
pub usable :
    (env : Env) (a b : NettingChannelState) (t l r : ℕ) (bp : BalanceProofSignedState)
    → InAgreement a b
    → SignedOf (next_balance_proof env a t l r) bp
    → is_valid_balance_proof_signature env bp b.partner_state.address ≡ ok tt
    → is_balance_proof_usable_on_chain env bp b b.partner_state ≡ ok tt
unfolding is_balance_proof_usable_on_chain is_balance_proof_safe_for_onchain_operations
    next_balance_proof
usable env a b t l r bp g s v = ground arith

-- What a sender keeps of its balance proof agrees with what the receiver keeps.
pub kept_nonce :
    (e f : NettingChannelEndState) (u : BalanceProofUnsignedState) (bp : BalanceProofSignedState)
    → SignedOf u bp
    → get_next_nonce (record f { balance_proof = some bp })
      ≡ get_next_nonce (record e { balance_proof = some (fake_signed u) })
unfolding get_next_nonce fake_signed
kept_nonce e f u bp s = ground arith
