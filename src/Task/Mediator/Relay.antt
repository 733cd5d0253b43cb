-- ===== src/Task/Mediator/Relay.antt =====
-- What a mediator passes on: the payer's transfer, for no more than it receives.
use pylons.Base.{
  ℕ, ◌≤◌, ◌<◌, word64, List, none, some, true, ◌≡◌, arith, ap, u32, add64, ◌∙◌, Option-cases, inl,
  inr,
}
use pylons.Base.Outcome.{ok, Outcome-cases}
use pylons.State.{NettingChannelState, FeeScheduleState, LockedTransferSignedState}
use pylons.State.SyncMap.{load, store}
use pylons.StateChange.{RouteState}
use pylons.Event.{SendLockedTransfer}
use pylons.Channel.Packing.{with_lock_hash}
use pylons.Channel.Send.{
  TransferArgs, lock_of_args, create_send_locked_transfer, send_locked_transfer,
}
use pylons.Task.{TaskEnv, ChannelsMap}
use pylons.Task.Mediator.{MediationPairState, payee_pending, payer_pending, lock_timeout_of}
use pylons.Task.Mediator.Forward.{
  Passed, get_amount_without_fees, get_fee_schedule, forward_over, forward_transfer_pair, new_pair,
  passed_args, next_channel_from_routes,
}

-- What the fee expressions keep to: a fee within the limit is no more than the amount, nor is the
-- limit itself.
pub record FeesBounded (tasks : TaskEnv) : Type 0 where
  pub within : (fee amount : ℕ) → tasks.within_fee_limit fee amount ≡ true → fee ≤ amount
  pub limit : (amount : ℕ) → tasks.fee_limit amount ≤ amount

module _ (tasks : TaskEnv) where
  get_amount_without_fees-le :
      (amount : ℕ) (schedule : FeeScheduleState)
      → FeesBounded tasks
      → amount < word64
      → get_amount_without_fees tasks amount schedule ≤ amount
  unfolding get_amount_without_fees
  get_amount_without_fees-le amount schedule fees small =
      let fee = add64 schedule.flat (tasks.proportional_fee amount schedule.proportional) in
      ground (arith, fees.within fee amount, fees.limit amount)

  -- The transfer that is sent has what the arguments say.
  record SentFor (args : TransferArgs) (sent : SendLockedTransfer) : Type 0 where
    payment_id : sent.transfer.payment_id ≡ args.payment_id
    initiator : sent.transfer.initiator ≡ args.initiator
    target : sent.transfer.target ≡ args.target
    amount : sent.transfer.lock.amount ≡ args.amount
    expiration : sent.transfer.lock.expiration ≡ u32 args.expiration
    secret_hash : sent.transfer.lock.secret_hash ≡ args.secret_hash

  SentFor-of_send :
      (c c' : NettingChannelState) (args : TransferArgs) (sent : SendLockedTransfer)
      → send_locked_transfer tasks.env c args ≡ ok (c', some sent)
      → SentFor args sent
  unfolding send_locked_transfer create_send_locked_transfer with_lock_hash lock_of_args
  SentFor-of_send c c' args sent h = record {
    payment_id = ground arith;
    initiator = ground arith;
    target = ground arith;
    amount = ground arith;
    expiration = ground arith;
    secret_hash = ground arith;
  }

-- The pair of a transfer that a mediator passes on: both locks have one secret hash and payment,
-- with the same ends, and the payee's is no larger and expires with the payer's.
pub record Relayed (payer_transfer : LockedTransferSignedState) (pair : MediationPairState)
    : Type 0 where
  pub payer : pair.payer_transfer ≡ payer_transfer
  pub payment_id : pair.payee_transfer.payment_id ≡ payer_transfer.payment_id
  pub initiator : pair.payee_transfer.initiator ≡ payer_transfer.initiator
  pub target : pair.payee_transfer.target ≡ payer_transfer.target
  pub secret_hash : pair.payee_transfer.lock.secret_hash ≡ payer_transfer.lock.secret_hash
  pub expiration : pair.payee_transfer.lock.expiration ≡ u32 payer_transfer.lock.expiration
  pub amount : pair.payee_transfer.lock.amount ≤ payer_transfer.lock.amount
  pub payee_waits : pair.payee_state ≡ payee_pending
  pub payer_waits : pair.payer_state ≡ payer_pending

module _ (tasks : TaskEnv) where
  Relayed-of_forward :
      (payer_transfer : LockedTransferSignedState) (amount key : ℕ) (channels : ChannelsMap)
      (lock_timeout message_id : ℕ) (passed : Passed) (pair : MediationPairState)
      → amount ≤ payer_transfer.lock.amount
      → forward_over tasks payer_transfer amount key channels lock_timeout message_id ≡ ok passed
      → passed.pair ≡ some pair
      → Relayed payer_transfer pair
  unfolding forward_over new_pair passed_args
  Relayed-of_forward payer_transfer amount key channels lock_timeout message_id passed pair less h
        is =
      elim (Option-cases (load key channels)) [
        | inl missing ↦ absurd (ground arith)
        | inr (payee, found) ↦
            let args = passed_args tasks payer_transfer amount message_id in
            elim (Outcome-cases (send_locked_transfer tasks.env payee args)) [
              | inl ((payee', none), e) ↦ absurd (ground arith)
              | inl ((payee', some sent), e) ↦
                  let s = SentFor-of_send tasks payee payee' args sent e in
                  let made : pair ≡ new_pair payer_transfer payee' sent = ground arith in
                  let transfer = ap (λ p. p.payee_transfer) made in
                  record {
                    payer = ap (λ p. p.payer_transfer) made;
                    payment_id = ap (λ t. t.payment_id) transfer ∙ s.payment_id;
                    initiator = ap (λ t. t.initiator) transfer ∙ s.initiator;
                    target = ap (λ t. t.target) transfer ∙ s.target;
                    secret_hash = ap (λ t. t.lock.secret_hash) transfer ∙ s.secret_hash;
                    expiration = ap (λ t. t.lock.expiration) transfer ∙ s.expiration;
                    amount = omega (arith, less, ap (λ t. t.lock.amount) transfer, s.amount);
                    payee_waits = ap (λ p. p.payee_state) made;
                    payer_waits = ap (λ p. p.payer_state) made;
                  }
              | inr (inl (reason, e)) ↦ absurd (ground arith)
              | inr (inr e) ↦ absurd (ground arith)
            ]
      ]

-- Whatever routes a mediator has, when it forwards a payer's transfer of a 64-bit amount: the
-- transfer to the payee is for the same payment, initiator, target and secret hash, its lock
-- expires when the payer's does, modulo 2^32, and it is for no more than the payer's lock, as long
-- as the fee expressions give no fee above the amount when they find it within the limit, and no
-- limit above it.
pub forwarded-Relayed :
    (tasks : TaskEnv) (payer_transfer : LockedTransferSignedState) (routes : List RouteState)
    (channels : ChannelsMap) (block_number message_id : ℕ) (passed : Passed)
    (pair : MediationPairState)
    → FeesBounded tasks
    → payer_transfer.lock.amount < word64
    → forward_transfer_pair tasks payer_transfer routes channels block_number message_id ≡ ok passed
    → passed.pair ≡ some pair
    → Relayed payer_transfer pair
unfolding forward_transfer_pair
forwarded-Relayed tasks payer_transfer routes channels block_number message_id passed pair fees
      small h is =
    let lock = payer_transfer.lock in
    let key = payer_transfer.balance_proof.channel_id in
    let lock_timeout = lock_timeout_of lock.expiration block_number in
    elim (Option-cases (load key channels)) [
      | inl missing ↦ absurd (ground arith)
      | inr (payer, found) ↦
          let schedule = get_fee_schedule payer in
          let channels' = store key (record payer { fee_schedule = some schedule }) channels in
          let amount = get_amount_without_fees tasks lock.amount schedule in
          let less = get_amount_without_fees-le tasks lock.amount schedule fees small in
          elim (Option-cases (next_channel_from_routes routes channels lock.amount lock_timeout)) [
            | inl no_route ↦ absurd (ground arith)
            | inr (next, chosen) ↦
                Relayed-of_forward tasks payer_transfer amount next channels' lock_timeout
                  message_id passed pair less (ground arith) is
          ]
    ]
