-- ===== src/Task/Mediator/Registered.antt =====
-- The registration of a secret on the chain, over blocks that come before a payer's lock expires:
-- from then on eventsForExpiredPairs takes the marks off the pairs.
pub mod Blocks
pub mod Step
use pylons.Base.{
  ℕ, ◌+◌, ◌≤◌, List, [], ◌∷◌, ◌++◌, Option, none, some, Bool, true, false, ◌||◌, ◌≡◌, refl, arith,
  ap, sym, subst, ◌∙◌, map, All, u32, inl, inr, ◌⊎◌, Option-cases, if◌then◌else◌,
}
use pylons.Base.Outcome.{Outcome, ok, ◌>>=◌, Outcome-cases, ok-injective}
use pylons.State.{NettingChannelState}
use pylons.State.SyncMap.{load}
use pylons.Event.{Reason, Event}
use pylons.Channel.Locks.{is_secret_known, get_secret, is_secret_known_on_chain}
use pylons.Channel.Status.{get_status, opened, closing, closed}
use pylons.Task.{TaskEnv, ChannelsMap, TaskStateChange}
use pylons.Task.Timing.{md_is_safe_to_wait, events_for_on_chain_secret_reveal}
use pylons.Task.Mediator.{
  MediationPairState, MediatorTransferState, MediatorIteration, payer_pending,
  payer_secret_revealed, payer_id, get_payer_channel, is_pending_pair, is_waiting_secret_reveal,
}
use pylons.Task.Mediator.Secrets.{Paired, md_has_secret_registration_started}
use pylons.Task.Mediator.Register.{
  in_danger, danger_events, danger_loop, events_for_on_chain_secret_reveal_if_dangerzone,
}
use pylons.Task.Mediator.Expiry.{
  events_to_remove_expired_locks, events_for_expired_pairs, expire_claims, expire_waiting,
}
use pylons.Task.Mediator.Handlers.{md_handle_block}
use pylons.Task.Mediator.Transition.{md_state_transition, clear_if_finalized}
use pylons.Task.Mediator.Registered.Blocks.{
  registrations, registrations-append, claim_of, side, expirations, marked, marked-started, Kept,
  Kept-of_remove, BeforeAt, expire_claims-early, expire_waiting-silent, danger_loop-keeps,
}
use pylons.Task.Mediator.Registered.Step.{
  Urgent, Urgent-in_danger, started-same, marked-same, expirations-same, append_nil, first_pair,
  Block, Block-of_transition,
}

-- The events of a series of blocks, while the task lasts
unfoldable pub run_blocks :
    TaskEnv → MediatorTransferState → ChannelsMap → (ℕ → ℕ) → List ℕ → Outcome Reason (List Event)
unfolding md_state_transition
run_blocks tasks state channels ids [] = ok []
run_blocks tasks state channels ids (height ∷ heights) = do
  block ← md_state_transition tasks (some state) (TaskStateChange.block height) channels height ids
  elim block.new_state [
    | none ↦ ok block.events
    | some next ↦ do
      rest ← run_blocks tasks next block.channels ids heights
      ok (block.events ++ rest)
  ]

-- Marked pairs are silent over the blocks of a list.
abbrev IsSilent : TaskEnv → (ℕ → ℕ) → List ℕ → Type 0
IsSilent tasks ids heights =
    (state : MediatorTransferState) (channels : ChannelsMap) (events : List Event)
    → marked state.transfers_pair ≡ true
    → All (λ height. BeforeAt tasks.env height (expirations state.transfers_pair)) heights
    → run_blocks tasks state channels ids heights ≡ ok events
    → registrations events ≡ []

-- A block that leaves a mark is the last one that can send a registration.
after_mark :
    (tasks : TaskEnv) (state : MediatorTransferState) (channels : ChannelsMap) (ids : ℕ → ℕ)
    (height : ℕ) (heights : List ℕ) (events : List Event) (block : MediatorIteration)
    (b : Block tasks state channels height block)
    → IsSilent tasks ids heights
    → marked b.round.0 ≡ true
    → All (λ height. BeforeAt tasks.env height (expirations state.transfers_pair)) heights
    → md_state_transition tasks (some state) (TaskStateChange.block height) channels height ids
      ≡ ok block
    → run_blocks tasks state channels ids (height ∷ heights) ≡ ok events
    → registrations events ≡ registrations block.events
unfolding run_blocks
after_mark tasks state channels ids height heights events block b quiet mark before e h =
    let keeps =
      danger_loop-keeps b.done.channels b.done.pairs height
        (md_has_secret_registration_started b.done.channels b.done.pairs state.secret_hash) in
    let times : expirations b.round.0 ≡ expirations state.transfers_pair =
      ap (λ r. expirations r.0) b.is_round
      ∙ (keeps.2 ∙ expirations-same state.transfers_pair b.done.pairs b.kept.sides) in
    elim (Option-cases block.new_state) [
      | inl over ↦ let same : block.events ≡ events = ground arith in ap registrations (sym same)
      | inr (next, goes_on) ↦
          let (pairs, _) = b.next next goes_on in
          elim (Outcome-cases (run_blocks tasks next block.channels ids heights)) [
            | inl (rest, r) ↦
                let none_left =
                  quiet next block.channels rest (ap marked pairs ∙ mark)
                    (subst (λ t. All (λ height. BeforeAt tasks.env height t) heights)
                      (sym (ap expirations pairs ∙ times)) before)
                    r in
                let same : block.events ++ rest ≡ events = ground arith in
                ap registrations (sym same)
                ∙ (registrations-append block.events rest
                    ∙ rw none_left (append_nil (registrations block.events)))
            | inr (inl (e', r)) ↦ absurd (ground arith)
            | inr (inr r) ↦ absurd (ground arith)
          ]
    ]

silent : (tasks : TaskEnv) (ids : ℕ → ℕ) (heights : List ℕ) → IsSilent tasks ids heights
unfolding run_blocks registrations
silent tasks ids [] state channels events mark before h = ap registrations (sym (ok-injective h))
silent tasks ids (height ∷ heights) state channels events mark before h =
    elim (Outcome-cases
      (md_state_transition tasks (some state) (TaskStateChange.block height) channels height ids)) [
        | inl (block, e) ↦
            let b = Block-of_transition tasks state channels ids height block before.0 e in
            let mark' = marked-same state.transfers_pair b.done.pairs b.kept.sides ∙ mark in
            let started = marked-started b.done.channels b.done.pairs state.secret_hash mark' in
            let keeps =
              danger_loop-keeps b.done.channels b.done.pairs height (
                md_has_secret_registration_started b.done.channels b.done.pairs
                  state.secret_hash) in
            after_mark tasks state channels ids height heights events block b
              (silent tasks ids heights) (ap (λ r. marked r.0) b.is_round ∙ keeps.1 mark') before.1
              e h
            ∙ (b.sent ∙ (ap (λ r. registrations r.1) b.is_round ∙ keeps.0 started))
        | inr (inl (e', e)) ↦ absurd (ground arith)
        | inr (inr e) ↦ absurd (ground arith)
      ]

-- The first pair in danger is marked, and its registration is all that the round sends.
first_in_danger :
    (channels : ChannelsMap) (pairs : List MediationPairState) (pair : MediationPairState)
    (rest : List MediationPairState) (height : ℕ)
    → pairs ≡ pair ∷ rest
    → in_danger channels pair height ≡ true
    → let round = danger_loop channels pairs height false in
      (marked round.0 ≡ true)
      × (registrations round.1 ≡ registrations (danger_events channels pair))
unfolding danger_loop marked
first_in_danger channels pairs pair rest height is danger =
    let quiet = (danger_loop-keeps channels rest height true).0 refl in
    let others = (danger_loop channels rest height true).1 in
    let events = danger_events channels pair in
    rw (is, danger_loop, danger)
      (refl, registrations-append events others ∙ rw quiet (append_nil (registrations events)))

-- While no claim of a mediator expires, over any series of blocks that its handlers take without a
-- panic, and whose first finds the task's first pair urgent, with the registration of the secret
-- not started: the mediator sends exactly one transaction that registers a secret, in all the
-- blocks and for all its pairs. It holds the expiration of that pair's lock, and the secret that
-- the payer's channel knows.
pub registered_once :
    (tasks : TaskEnv) (state : MediatorTransferState) (channels : ChannelsMap) (ids : ℕ → ℕ)
    (height : ℕ) (heights : List ℕ) (pair : MediationPairState) (pairs : List MediationPairState)
    (payer : NettingChannelState) (events : List Event)
    → state.transfers_pair ≡ pair ∷ pairs
    → Urgent channels height pair payer
    → md_has_secret_registration_started channels state.transfers_pair state.secret_hash ≡ false
    → All
        (λ height. BeforeAt tasks.env height (expirations state.transfers_pair))
        (height ∷ heights)
    → run_blocks tasks state channels ids (height ∷ heights) ≡ ok events
    → registrations events
      ≡ (
        pair.payer_transfer.lock.expiration,
        get_secret payer.partner_state pair.payer_transfer.lock.secret_hash,
      )
        ∷ []
unfolding run_blocks
registered_once tasks state channels ids height heights pair pairs payer events is urgent started
      before h =
    elim (Outcome-cases
      (md_state_transition tasks (some state) (TaskStateChange.block height) channels height ids)) [
        | inl (block, e) ↦
            let b = Block-of_transition tasks state channels ids height block before.0 e in
            let (first, rest, pairs_are, side_is) =
              first_pair pair pairs b.done.pairs (b.kept.sides ∙ ap (map side) is) in
            let (danger, sends) =
              Urgent-in_danger channels b.done.channels height pair first payer urgent side_is
                (b.kept.claims (payer_id pair)) in
            let fresh =
              started-same channels b.done.channels state.transfers_pair b.done.pairs
                state.secret_hash b.kept.sides b.kept.claims
              ∙ started in
            let round =
              first_in_danger b.done.channels b.done.pairs first rest height pairs_are danger in
            let is_round : b.round ≡ danger_loop b.done.channels b.done.pairs height false =
              b.is_round ∙ ap (danger_loop b.done.channels b.done.pairs height) fresh in
            after_mark tasks state channels ids height heights events block b
              (silent tasks ids heights) (ap (λ r. marked r.0) is_round ∙ round.0) before.1 e h
            ∙ (b.sent ∙ (ap (λ r. registrations r.1) is_round ∙ (round.1 ∙ sends)))
        | inr (inl (e', e)) ↦ absurd (ground arith)
        | inr (inr e) ↦ absurd (ground arith)
      ]
