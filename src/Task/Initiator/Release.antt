-- ===== src/Task/Initiator/Release.antt =====
-- The initiator gives its secret away only to the target, once.
use pylons.Base.{
  ℕ, suc, ◌+◌, List, [], ◌∷◌, ◌++◌, Option, none, some, true, false, ◌≡◌, refl, ◌⊎◌, inl, inr,
  arith, subst,
}
use mathlib.Core.List.{Memᴰ}
use pylons.Base.Outcome.{Outcome, ok, ◌>>=◌, Outcome-cases}
use pylons.Common.{Env}
use pylons.State.{NettingChannelState, HashTimeLockState}
use pylons.Event.{Reason, Event, send_secret_reveal}
use pylons.Channel.Locks.{get_lock}
use pylons.Channel.Result.{processed}
use pylons.Task.{TransferDescriptionWithSecretState, InitiatorTransferState, ReceiveSecretRequest}
use pylons.Task.Initiator.{InitiatorIteration}
use pylons.Task.Initiator.Secrets.{
  is_message_from_target, is_valid_secret_request, handle_secret_request,
}

-- The secret reveals among the events
unfoldable pub secrets : List Event → ℕ
secrets [] = 0
secrets (send_secret_reveal _ ∷ events) = suc (secrets events)
secrets (_ ∷ events) = secrets events

abbrev pub expiration_of : Option HashTimeLockState → Option ℕ
expiration_of none = none
expiration_of (some lock) = some lock.expiration

-- A request of the target, for the payment's secret hash, identifier and amount, and for the
-- expiration of the lock that the channel holds
pub record AnsweredRequest (description : TransferDescriptionWithSecretState)
    (channel : NettingChannelState) (request : ReceiveSecretRequest) : Type 0 where
  pub sender : request.sender ≡ description.target
  pub secret_hash : request.secret_hash ≡ description.secret_hash
  pub payment_id : request.payment_id ≡ description.payment_id
  pub amount : request.amount ≡ description.amount
  pub expiration :
      expiration_of (get_lock channel.our_state description.secret_hash) ≡ some request.expiration

module _ (env : Env) where
  -- The requests one after the other, and all their events
  unfoldable pub run_requests :
      InitiatorTransferState
      → NettingChannelState
      → List (ReceiveSecretRequest × ℕ)
      → Outcome Reason (List Event)
  run_requests state channel [] = ok []
  run_requests state channel ((request, msg_id) ∷ requests) = do
    iteration ← handle_secret_request env state request channel msg_id
    elim iteration.new_state [
      | none ↦ ok iteration.events
      | some next ↦ do
        rest ← run_requests next iteration.channels requests
        ok (iteration.events ++ rest)
    ]

  abbrev next_of : InitiatorTransferState → InitiatorIteration → InitiatorTransferState
  next_of state iteration = elim iteration.new_state [ none ↦ state | some next ↦ next ]

  -- A request changes nothing about the payment or the channel, and a secret goes out only in
  -- answer to the target's own first request.
  record Answer (state : InitiatorTransferState) (channel : NettingChannelState)
      (request : ReceiveSecretRequest) (iteration : InitiatorIteration) : Type 0 where
    is_next : iteration.new_state ≡ some (next_of state iteration)
    channel_same : iteration.channels ≡ channel
    description_same : (next_of state iteration).transfer_description ≡ state.transfer_description
    outcome :
        ((secrets iteration.events ≡ 0)
          × (((next_of state iteration).received_secret_request ≡ true)
              ⊎ ((next_of state iteration).received_secret_request
                  ≡ state.received_secret_request)))
        ⊎ ((secrets iteration.events ≡ 1)
            × (state.received_secret_request ≡ false)
            × ((next_of state iteration).received_secret_request ≡ true)
            × AnsweredRequest state.transfer_description channel request)

  Answer-of_request :
      (state : InitiatorTransferState) (channel : NettingChannelState)
      (request : ReceiveSecretRequest) (msg_id : ℕ) (iteration : InitiatorIteration)
      → handle_secret_request env state request channel msg_id ≡ ok iteration
      → Answer state channel request iteration
  unfolding handle_secret_request is_message_from_target is_valid_secret_request secrets processed
  Answer-of_request state channel request msg_id iteration h = record {
    is_next = ground arith;
    channel_same = ground arith;
    description_same = ground arith;
    outcome = ground arith;
  }

  secrets-append : (xs ys : List Event) → secrets (xs ++ ys) ≡ secrets xs + secrets ys
  unfolding secrets
  secrets-append [] ys = ground arith
  secrets-append (x ∷ xs) ys = ground (arith, secrets-append xs ys)

  -- The first request of a series that ends without a panic
  record FirstStep (state : InitiatorTransferState) (channel : NettingChannelState)
      (request : ReceiveSecretRequest) (requests : List (ReceiveSecretRequest × ℕ))
      (events : List Event) : Type 0 where
    iteration : InitiatorIteration
    answer : Answer state channel request iteration
    rest : List Event
    runs : run_requests (next_of state iteration) channel requests ≡ ok rest
    all : events ≡ iteration.events ++ rest

  FirstStep-of_run :
      (state : InitiatorTransferState) (channel : NettingChannelState)
      (request : ReceiveSecretRequest) (msg_id : ℕ) (requests : List (ReceiveSecretRequest × ℕ))
      (events : List Event)
      → run_requests state channel ((request, msg_id) ∷ requests) ≡ ok events
      → FirstStep state channel request requests events
  unfolding run_requests
  FirstStep-of_run state channel request msg_id requests events h =
      elim (Outcome-cases (handle_secret_request env state request channel msg_id)) [
        | inl (iteration, e) ↦
            let answer = Answer-of_request state channel request msg_id iteration e in
            let same = answer.channel_same in
            let is_next = answer.is_next in
            elim (Outcome-cases (run_requests (next_of state iteration) channel requests)) [
              | inl (rest, r) ↦ record {
                iteration = iteration;
                answer = answer;
                rest = rest;
                runs = r;
                all = ground arith;
              }
              | inr (inl (reason, r)) ↦ absurd (ground arith)
              | inr (inr r) ↦ absurd (ground arith)
            ]
        | inr (inl (reason, e)) ↦ absurd (ground arith)
        | inr (inr e) ↦ absurd (ground arith)
      ]

  abbrev Given :
      InitiatorTransferState → NettingChannelState → List (ReceiveSecretRequest × ℕ) → Type 0
  Given state channel requests =
      (request : ReceiveSecretRequest × ℕ) × Memᴰ request requests
      × AnsweredRequest state.transfer_description channel request.0

  given :
      (requests : List (ReceiveSecretRequest × ℕ)) (state : InitiatorTransferState)
      (channel : NettingChannelState) (events : List Event)
      → run_requests state channel requests ≡ ok events
      → (secrets events ≡ 0)
        ⊎ ((secrets events ≡ 1)
            × (state.received_secret_request ≡ false)
            × Given state channel requests)
  unfolding run_requests secrets
  given [] state channel events h = inl (ground arith)
  given ((request, msg_id) ∷ requests) state channel events h =
      let first = FirstStep-of_run state channel request msg_id requests events h in
      let iteration = first.iteration in
      let next = next_of state iteration in
      let all = first.all in
      let sum = secrets-append iteration.events first.rest in
      let same = first.answer.description_same in
      elim (given requests next channel first.rest first.runs) [
        | inl none_later ↦ elim first.answer.outcome [
          | inl (silent, _) ↦ inl (ground arith)
          | inr (one, fresh, _, answered) ↦
              inr (ground arith, fresh, ((request, msg_id), Memᴰ.head refl, answered))
        ]
        | inr (one_later, fresh_later, (later, there, answered)) ↦ elim first.answer.outcome [
          | inl (silent, kept) ↦ inr (
            ground arith,
            ground arith,
            (later, Memᴰ.tail there, subst (λ d. AnsweredRequest d channel later.0) same answered),
          )
          | inr (_, _, taken, _) ↦ absurd (ground arith)
        ]
      ]

-- However many secret requests an initiator is sent for a payment, in a run that does not panic:
-- it gives its secret away once at most, and if it does, then one of the requests is the target's
-- own, for the secret hash, the identifier and the amount of the payment, and for the expiration
-- of the lock that is held under that hash.
pub secret_given_once :
    (env : Env) (state : InitiatorTransferState) (channel : NettingChannelState)
    (requests : List (ReceiveSecretRequest × ℕ)) (events : List Event)
    → run_requests env state channel requests ≡ ok events
    → (secrets events ≡ 0)
      ⊎ ((secrets events ≡ 1)
          × ((request : ReceiveSecretRequest × ℕ) × Memᴰ request requests
              × AnsweredRequest state.transfer_description channel request.0))
secret_given_once env state channel requests events h =
    elim (given env requests state channel events h) [
      | inl silent ↦ inl silent
      | inr (one, _, answered) ↦ inr (one, answered)
    ]
