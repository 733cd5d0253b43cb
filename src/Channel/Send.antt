-- ===== src/Channel/Send.antt =====
-- The messages that a channel sends (transfer/channel.go), and the state that it keeps of them.
-- `msg_id` is the next message id of `common.GetMsgID`. A nil that the caller goes on to
-- dereference is a panic.
pub mod Duplicate
use pylons.Base.{
  ℕ, ◌+◌, List, [], ◌∷◌, Option, none, some, Bool, true, false, not, ◌&&◌, ◌||◌, ltb, leb, ◌==◌,
  if◌then◌else◌, add64, sub64, max_uint64, is_some, u32,
}
use pylons.Base.Outcome.{Outcome, ok, err, panic, ◌>>=◌, ◌>>◌, check}
use pylons.Common.{Env, block_height}
use pylons.State.{
  NettingChannelEndState, NettingChannelState, HashTimeLockState, BalanceProofSignedState,
  BalanceProofUnsignedState, MerkleTreeState, LockedTransferUnsignedState,
}
use pylons.State.SyncMap.{load, store}
use pylons.Event
use pylons.Event.{
  Reason, Event, SendMessageEvent, SendLockedTransfer, SendDirectTransfer, SendBalanceProof,
  SendLockExpired, send_lock_expired,
}
use pylons.Merkle.{merkle_root, compute_merkle_tree_with, compute_merkle_tree_without}
use pylons.Channel.Locks.{get_lock, is_lock_pending, del_lock, del_unclaimed_lock}
use pylons.Channel.Balance.{get_distributable, get_next_nonce, get_amount_locked, transferred_of}
use pylons.Channel.Status.{get_status, is_opened}
use pylons.Channel.Packing.{hash_balance_data, calc_lock_hash, with_lock_hash}

-- The signed balance proof that a sender keeps of its own unsigned one.
unfoldable pub fake_signed : BalanceProofUnsignedState → BalanceProofSignedState
fake_signed bp = record {
  nonce = bp.nonce;
  transferred_amount = bp.transferred_amount;
  locked_amount = bp.locked_amount;
  locks_root = bp.locks_root;
  balance_hash = bp.balance_hash;
  token_network_id = bp.token_network_id;
  channel_id = bp.channel_id;
  message_hash = 0;
  signature = [];
  sender = 0;
  chain_id = bp.chain_id;
  public_key = [];
}

-- What createSendLockedTransfer is given besides the channel.
pub record TransferArgs : Type 0 where
  pub initiator : ℕ
  pub target : ℕ
  pub amount : ℕ  -- uint64
  pub message_id : ℕ
  pub payment_id : ℕ
  pub expiration : ℕ
  pub enc_secret : List ℕ
  pub secret_hash : ℕ
  pub mediators : List ℕ

-- `&HashTimeLockState{Amount, Expiration, SecretHash}`
unfoldable pub lock_of_args : TransferArgs → HashTimeLockState
lock_of_args args = record {
  amount = args.amount;
  expiration = block_height args.expiration;
  secret_hash = args.secret_hash;
  encoded = [];
  lock_hash = 0;
}

-- The message header for the partner.
unfoldable pub message_to_partner : NettingChannelState → ℕ → SendMessageEvent
message_to_partner channel msg_id = record {
  recipient = channel.partner_state.address;
  channel_id = channel.identifier;
  message_id = msg_id;
}

module _ (env : Env) where
  -- The unsigned balance proof that follows the one on record, with its hash.
  unfoldable pub next_balance_proof : NettingChannelState → ℕ → ℕ → ℕ → BalanceProofUnsignedState
  next_balance_proof channel transferred_amount locked_amount locks_root = record {
    nonce = get_next_nonce channel.our_state;
    transferred_amount = transferred_amount;
    locked_amount = locked_amount;
    locks_root = locks_root;
    balance_hash = hash_balance_data env transferred_amount locked_amount locks_root;
    token_network_id = channel.token_network_id;
    channel_id = channel.identifier;
    chain_id = channel.chain_id;
  }

  -- createSendLockedTransfer; a lock hash that is a leaf already gives a nil tree, and a panic.
  unfoldable pub create_send_locked_transfer :
      NettingChannelState → TransferArgs → Outcome Reason (SendLockedTransfer × MerkleTreeState)
  unfolding next_balance_proof lock_of_args message_to_partner with_lock_hash
  create_send_locked_transfer channel args =
      let our_state = channel.our_state in
      let lock = with_lock_hash env (lock_of_args args) in
      if not (leb args.amount (get_distributable our_state channel.partner_state))
      then err Event.transfer_amount_exceeds_distributable
      else if not (is_opened (get_status channel))
      then err Event.channel_state_is_not_opened
      else do
        tree ← compute_merkle_tree_with env our_state.merkle_tree lock.lock_hash
        elim tree [
          | none ↦ panic
          | some merkle_tree ↦ ok (
            record {
              message = message_to_partner channel args.message_id;
              transfer = record {
                payment_id = args.payment_id;
                token = channel.token_address;
                balance_proof =
                    next_balance_proof channel (transferred_of our_state)
                      (add64 (get_amount_locked our_state) args.amount)
                      (merkle_root merkle_tree.layers);
                lock = lock;
                initiator = args.initiator;
                target = args.target;
                enc_secret = args.enc_secret;
                mediators = args.mediators;
              };
            },
            merkle_tree,
          )
        ]

  -- The state that sendLockedTransfer and sendRefundTransfer leave.
  unfoldable pub record_locked_transfer :
      NettingChannelState → SendLockedTransfer → MerkleTreeState → NettingChannelState
  unfolding fake_signed
  record_locked_transfer channel event merkle_tree =
      let our_state = channel.our_state in
      let lock = event.transfer.lock in
      record channel {
        our_state = record our_state {
          balance_proof = some (fake_signed event.transfer.balance_proof);
          merkle_tree = merkle_tree;
          secret_hashes_to_locked_locks =
              store lock.secret_hash lock our_state.secret_hashes_to_locked_locks;
        };
      }

  -- sendLockedTransfer; an error is logged, and the nil event leaves the channel as it was.
  unfoldable pub send_locked_transfer :
      NettingChannelState
      → TransferArgs
      → Outcome Reason (NettingChannelState × Option SendLockedTransfer)
  unfolding record_locked_transfer
  send_locked_transfer channel args = elim (create_send_locked_transfer channel args) [
    | ok (event, merkle_tree) ↦ ok (record_locked_transfer channel event merkle_tree, some event)
    | err e ↦ ok (channel, none)
    | panic ↦ panic
  ]

  -- sendRefundTransfer; `args.mediators` is nil.
  unfoldable pub send_refund_transfer :
      NettingChannelState → TransferArgs → Outcome Reason (NettingChannelState × SendLockedTransfer)
  unfolding record_locked_transfer
  send_refund_transfer channel args = do
    check (is_some (load args.secret_hash channel.partner_state.secret_hashes_to_locked_locks))
        Event.refund_needs_known_and_pending_transfer
    created ← create_send_locked_transfer channel (record args { mediators = [] })
    ok (record_locked_transfer channel created.0 created.1, created.0)

  -- createSendDirectTransfer
  unfoldable pub create_send_direct_transfer :
      NettingChannelState → ℕ → ℕ → ℕ → Option SendDirectTransfer
  unfolding next_balance_proof message_to_partner
  create_send_direct_transfer channel amount message_id payment_id =
      let our_state = channel.our_state in
      if not (leb amount (get_distributable our_state channel.partner_state))
      then none
      else if not (is_opened (get_status channel))
      then none
      else some (record {
        message = message_to_partner channel message_id;
        payment_id = payment_id;
        balance_proof =
            next_balance_proof channel
              (elim our_state.balance_proof [
                | none ↦ amount
                | some bp ↦ add64 amount bp.transferred_amount
              ])
              (get_amount_locked our_state)
              (elim our_state.balance_proof [ none ↦ 0 | some bp ↦ bp.locks_root ]);
        token_address = channel.token_address;
      })

  -- sendDirectTransfer; it dereferences the message without a test.
  unfoldable pub send_direct_transfer :
      NettingChannelState → ℕ → ℕ → ℕ → Outcome Reason (NettingChannelState × SendDirectTransfer)
  unfolding create_send_direct_transfer fake_signed
  send_direct_transfer channel amount message_id payment_id =
      let our_state = channel.our_state in
      elim (create_send_direct_transfer channel amount message_id payment_id) [
        | none ↦ panic
        | some message ↦ ok (
          record channel {
            our_state = record our_state {
              balance_proof = some (fake_signed message.balance_proof);
            };
          },
          message,
        )
      ]
