-- ===== src/Channel/Send/Duplicate.antt =====
-- A locked transfer whose lock is already a leaf of the sender's tree (createSendLockedTransfer).
use pylons.Base.{ℕ, ◌≤◌, List, ◌≡◌, none, true, arith}
use pylons.Base.Outcome.{panic, ok}
use pylons.Common.{Env}
use pylons.State.{NettingChannelState}
use pylons.Merkle.{contains, compute_merkle_tree_with}
use pylons.Merkle.RoundTrip.{tree_over, compute_merkle_tree_with-tree_over}
use pylons.Channel.Balance.{get_distributable}
use pylons.Channel.Status.{get_status, opened}
use pylons.Channel.Packing.{calc_lock_hash, with_lock_hash}
use pylons.Channel.Send.{
  TransferArgs, lock_of_args, create_send_locked_transfer, send_locked_transfer,
}

duplicate_tree :
    (env : Env) (c : NettingChannelState) (args : TransferArgs) (hashes : List ℕ)
    → c.our_state.merkle_tree ≡ tree_over env hashes
    → contains hashes (calc_lock_hash env (lock_of_args args)) ≡ true
    → compute_merkle_tree_with env c.our_state.merkle_tree (calc_lock_hash env (lock_of_args args))
      ≡ ok none
duplicate_tree env c args hashes tree there = rw (
  tree,
  compute_merkle_tree_with-tree_over env hashes (calc_lock_hash env (lock_of_args args)),
  there,
)

-- On an opened channel with enough to spend, whose tree stands for some lock hashes, a locked
-- transfer that repeats the amount, expiration and secret hash of a pending one, so that its
-- lock hash is among them, makes the sender panic.
pub send_locked_transfer_panics :
    (env : Env) (c : NettingChannelState) (args : TransferArgs) (hashes : List ℕ)
    → get_status c ≡ opened
    → args.amount ≤ get_distributable c.our_state c.partner_state
    → c.our_state.merkle_tree ≡ tree_over env hashes
    → contains hashes (calc_lock_hash env (lock_of_args args)) ≡ true
    → send_locked_transfer env c args ≡ panic
unfolding send_locked_transfer create_send_locked_transfer with_lock_hash
send_locked_transfer_panics env c args hashes can enough tree there =
    let made = duplicate_tree env c args hashes tree there in ground arith
