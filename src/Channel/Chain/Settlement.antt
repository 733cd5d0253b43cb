-- ===== src/Channel/Chain/Settlement.antt =====
-- When a channel is settled, and what a block does to the deposits (handleBlock).

use pylons.Base.{
  ℕ, zero, suc, ◌≤◌, ◌<◌, List, [], ◌∷◌, ◌≡◌, refl, some, true, false, arith, length, inl, inr,
  add32, Option-cases, Bool-cases, ap, ◌∙◌, All, word32, ◌+◌,
}
use pylons.Base.Outcome.{ok, Outcome-cases}
use pylons.Base.Sort.{sort, IsSorted, sort-IsSorted, All-sort, length-sort}
use pylons.Common.{Env, block_height}
use pylons.State.{
  NettingChannelState, TransactionExecutionStatus, TransactionOrder, TransactionChannelNewBalance,
}
use pylons.Event.{Event}
use pylons.Channel.Status.{
  get_status, status_of, closed, settling, is_transaction_confirmed, apply_channel_new_balance,
  pop_rest, order_key,
}
use pylons.Channel.Result.{transition}
use pylons.Channel.Chain.{settle_closed, apply_deposits, handle_block}

-- A block sends a settlement only for a channel that is closed, and only after the settle
-- timeout has passed since the close; then the channel is settling, and a later block does not
-- send it again.
pub settle_closed_once :
    (c d : NettingChannelState) (height later : ℕ) (event : Event) (events : List Event)
    → settle_closed c height ≡ ok (d, event ∷ events)
    → (get_status c ≡ closed)
      × ((close : TransactionExecutionStatus) × (c.close_transaction ≡ some close)
          × (add32 close.finished_block_height (block_height c.settle_timeout) < height))
      × (get_status d ≡ settling)
      × (settle_closed d later ≡ ok (d, []))
unfolding settle_closed get_status status_of
settle_closed_once c d height later event events h = elim (Option-cases c.close_transaction) [
  | inl e ↦ absurd (ground arith)
  | inr (close, e) ↦ (ground arith, (close, e, ground arith), ground arith, ground arith)
]

apply_channel_new_balance-queue :
    (c : NettingChannelState) (t : TransactionChannelNewBalance)
    → (apply_channel_new_balance c t).deposit_transaction_queue ≡ c.deposit_transaction_queue
unfolding apply_channel_new_balance
apply_channel_new_balance-queue c t = ground arith

module _ (env : Env) (n : ℕ) where
  -- What a round of the loop leaves.
  next_round : NettingChannelState → TransactionOrder → List TransactionOrder → NettingChannelState
  next_round c order rest =
      apply_channel_new_balance (record c { deposit_transaction_queue = pop_rest rest })
        order.transaction

  next_round-queue :
      (c : NettingChannelState) (order : TransactionOrder) (rest : List TransactionOrder)
      → (next_round c order rest).deposit_transaction_queue ≡ sort order_key rest
  unfolding next_round pop_rest
  next_round-queue c order rest = apply_channel_new_balance-queue _ order.transaction

  apply_deposits_confirmed :
      (fuel : ℕ) (c : NettingChannelState) (order : TransactionOrder) (rest : List TransactionOrder)
      → c.deposit_transaction_queue ≡ order ∷ rest
      → is_transaction_confirmed env order.block_height n ≡ true
      → apply_deposits env (suc fuel) c n ≡ apply_deposits env fuel (next_round c order rest) n
  unfolding apply_deposits next_round
  apply_deposits_confirmed fuel c order rest e h = simp (e, h, apply_deposits)

  apply_deposits_stopped :
      (fuel : ℕ) (c : NettingChannelState) (order : TransactionOrder) (rest : List TransactionOrder)
      → c.deposit_transaction_queue ≡ order ∷ rest
      → is_transaction_confirmed env order.block_height n ≡ false
      → apply_deposits env (suc fuel) c n ≡ c
  unfolding apply_deposits
  apply_deposits_stopped fuel c order rest e h = simp (e, h, apply_deposits)

  -- A deposit that is not confirmed yet, nor is any later one.
  unconfirmed_after :
      (order : TransactionOrder) (rest : List TransactionOrder)
      → is_transaction_confirmed env order.block_height n ≡ false
      → All (λ o. o.block_height + block_height env.confirm_block_count < word32) rest
      → All (λ o. order.block_height ≤ o.block_height) rest
      → All (λ o. is_transaction_confirmed env o.block_height n ≡ false) rest
  unfolding is_transaction_confirmed
  unconfirmed_after order [] h small above = tt
  unconfirmed_after order (o ∷ rest) h small above =
      (ground arith, unconfirmed_after order rest h small.1 above.1)

  -- The queue in order of heights, none so high that adding the confirmations wraps.
  pub record IsQueue (q : List TransactionOrder) : Type 0 where
    pub sorted : IsSorted order_key q
    pub small : All (λ o. o.block_height + block_height env.confirm_block_count < word32) q

  abbrev pub NoneConfirmed : List TransactionOrder → Type 0
  NoneConfirmed q = All (λ o. is_transaction_confirmed env o.block_height n ≡ false) q

  apply_deposits_empty :
      (fuel : ℕ) (c : NettingChannelState)
      → c.deposit_transaction_queue ≡ []
      → apply_deposits env fuel c n ≡ c
  unfolding apply_deposits
  apply_deposits_empty zero c e = refl
  apply_deposits_empty (suc fuel) c e = simp (e, apply_deposits)

  IsQueue-next_round :
      (c : NettingChannelState) (order : TransactionOrder) (rest : List TransactionOrder)
      → IsQueue (order ∷ rest)
      → IsQueue (next_round c order rest).deposit_transaction_queue
  IsQueue-next_round c order rest s = rw (next_round-queue c order rest) (record {
    sorted = sort-IsSorted order_key rest;
    small = All-sort order_key _ rest s.small.1;
  })

  length-next_round :
      (c : NettingChannelState) (order : TransactionOrder) (rest : List TransactionOrder)
      → length (next_round c order rest).deposit_transaction_queue ≡ length rest
  length-next_round c order rest =
      ap length (next_round-queue c order rest) ∙ length-sort order_key rest

  -- With the length of the queue for fuel, the loop of a block goes on until no deposit that is
  -- left is confirmed.
  apply_deposits-NoneConfirmed :
      (fuel : ℕ) (c : NettingChannelState) (q : List TransactionOrder)
      → c.deposit_transaction_queue ≡ q
      → length q ≤ fuel
      → IsQueue q
      → NoneConfirmed (apply_deposits env fuel c n).deposit_transaction_queue
  apply_deposits-NoneConfirmed fuel c [] e len s = simp (apply_deposits_empty fuel c e, e) tt
  apply_deposits-NoneConfirmed zero c (order ∷ rest) e len s = absurd (omega arith)
  apply_deposits-NoneConfirmed (suc fuel) c (order ∷ rest) e len s =
      let next = next_round c order rest in
      elim (Bool-cases (is_transaction_confirmed env order.block_height n)) [
        | inl confirmed ↦ rw (apply_deposits_confirmed fuel c order rest e confirmed) (
            apply_deposits-NoneConfirmed fuel next next.deposit_transaction_queue refl
              (omega (arith, length-next_round c order rest)) (IsQueue-next_round c order rest s))
        | inr stopped ↦
            simp (apply_deposits_stopped fuel c order rest e stopped, e)
              (stopped, unconfirmed_after order rest stopped s.small.1 s.sorted.0)
      ]

  settle_closed-queue :
      (c : NettingChannelState) (height : ℕ) (r : NettingChannelState × List Event)
      → settle_closed c height ≡ ok r
      → r.0.deposit_transaction_queue ≡ c.deposit_transaction_queue
  unfolding settle_closed
  settle_closed-queue c height r e = ground arith

  -- For a queue in order of heights, whose heights plus the confirmations fit in 32 bits: after
  -- a block none of the deposits that are still queued is confirmed. Every confirmed one has
  -- been taken off the queue, and the loop ends by its own test.
  pub handle_block-NoneConfirmed :
      (c d : NettingChannelState) (height : ℕ) (events : List Event)
      → IsQueue c.deposit_transaction_queue
      → handle_block env c height n ≡ ok (transition d events)
      → NoneConfirmed d.deposit_transaction_queue
  unfolding handle_block
  handle_block-NoneConfirmed c d height events s h = elim (Outcome-cases (settle_closed c height)) [
    | inl (r, e) ↦
        let same = settle_closed-queue c height r e in
        let kept =
          apply_deposits-NoneConfirmed (length r.0.deposit_transaction_queue) r.0
            r.0.deposit_transaction_queue refl (omega arith) (rw same s) in
        let done : apply_deposits env (length r.0.deposit_transaction_queue) r.0 n ≡ d =
          ground arith in
        rw done at kept
    | inr (inl (x, e)) ↦ absurd (ground arith)
    | inr (inr e) ↦ absurd (ground arith)
  ]
