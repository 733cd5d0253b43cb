-- ===== src/Task/Mediator/Registered/Step.antt =====
-- One block of a mediator's task whose claims do not expire with it.
use pylons.Base.{
  ℕ, ◌+◌, ◌≤◌, List, [], ◌∷◌, ◌++◌, some, true, ◌≡◌, refl, arith, ap, sym, subst, ◌∙◌, map, u32,
  inl, inr, ◌⊎◌, Option-cases,
}
use pylons.Base.Outcome.{ok, Outcome-cases, ok-injective}
use pylons.State.{NettingChannelState}
use pylons.State.SyncMap.{load}
use pylons.Event.{Event}
use pylons.Channel.Locks.{is_secret_known, get_secret}
use pylons.Channel.Status.{get_status, opened, closing, closed}
use pylons.Task.{TaskEnv, ChannelsMap, TaskStateChange}
use pylons.Task.Timing.{md_is_safe_to_wait, events_for_on_chain_secret_reveal}
use pylons.Task.Mediator.{
  MediationPairState, MediatorTransferState, MediatorIteration, payer_pending,
  payer_secret_revealed, payer_id, get_payer_channel, is_pending_pair,
}
use pylons.Task.Mediator.Secrets.{Paired, md_has_secret_registration_started}
use pylons.Task.Mediator.Register.{
  in_danger, danger_events, danger_loop, events_for_on_chain_secret_reveal_if_dangerzone,
}
use pylons.Task.Mediator.Expiry.{
  events_to_remove_expired_locks, events_for_expired_pairs, expire_claims, expire_waiting,
}
use pylons.Task.Mediator.Handlers.{md_handle_block}
use pylons.Task.Mediator.Transition.{md_state_transition, clear_if_finalized}
use pylons.Task.Mediator.Registered.Blocks.{
  registrations, registrations-append, claim_of, side, expirations, marked, Kept, Kept-of_remove,
  BeforeAt, expire_claims-early, expire_waiting-silent, danger_loop-keeps,
}

-- The payer of a pair, who knows of no secret yet, has a lock that leaves it no time to wait, and
-- whose secret its channel knows; the channel is not settled.
pub record Urgent (channels : ChannelsMap) (height : ℕ) (pair : MediationPairState)
    (payer : NettingChannelState) : Type 0 where
  pub payer_there : load (payer_id pair) channels ≡ some payer
  pub claimed : (pair.payer_state ≡ payer_pending) ⊎ (pair.payer_state ≡ payer_secret_revealed)
  pub late : u32 pair.payer_transfer.lock.expiration ≤ payer.reveal_timeout + height
  pub known : is_secret_known payer.partner_state pair.payer_transfer.lock.secret_hash ≡ true
  pub can_reveal :
      (get_status payer ≡ opened) ⊎ ((get_status payer ≡ closing) ⊎ (get_status payer ≡ closed))

pub Urgent-in_danger :
    (channels channels' : ChannelsMap) (height : ℕ) (pair pair' : MediationPairState)
    (payer : NettingChannelState)
    → Urgent channels height pair payer
    → side pair' ≡ side pair
    → claim_of (load (payer_id pair) channels') ≡ claim_of (load (payer_id pair) channels)
    → (in_danger channels' pair' height ≡ true)
      × (registrations (danger_events channels' pair')
          ≡ (
            pair.payer_transfer.lock.expiration,
            get_secret payer.partner_state pair.payer_transfer.lock.secret_hash,
          )
            ∷ [])
unfolding in_danger danger_events get_payer_channel is_pending_pair md_is_safe_to_wait registrations
    events_for_on_chain_secret_reveal
Urgent-in_danger channels channels' height pair pair' payer urgent same claims =
    let a = urgent.payer_there in
    let b = urgent.claimed in
    let c = urgent.late in
    let d = urgent.known in
    let e = urgent.can_reveal in
    let transfer : pair'.payer_transfer ≡ pair.payer_transfer = ap (λ s. s.0) same in
    let status : pair'.payer_state ≡ pair.payer_state = ap (λ s. s.1) same in
    elim (Option-cases (load (payer_id pair) channels')) [
      | inl missing ↦ absurd (ground arith)
      | inr (payer', there) ↦
          let timeout : payer'.reveal_timeout ≡ payer.reveal_timeout = ground arith in
          let partner : payer'.partner_state ≡ payer.partner_state = ground arith in
          let open' : get_status payer' ≡ get_status payer = ground arith in
          let there' : load (payer_id pair') channels' ≡ some payer' =
            ap (λ t. load t.balance_proof.channel_id channels') transfer ∙ there in
          (
            rw (there', transfer, status, timeout, partner, in_danger) (ground arith),
            rw (there', transfer, partner, danger_events) (ground arith),
          )
    ]

pub started-same :
    (channels channels' : ChannelsMap) (pairs pairs' : List MediationPairState) (secret_hash : ℕ)
    → map side pairs' ≡ map side pairs
    → ((key : ℕ) → claim_of (load key channels') ≡ claim_of (load key channels))
    → md_has_secret_registration_started channels' pairs' secret_hash
      ≡ md_has_secret_registration_started channels pairs secret_hash
unfolding md_has_secret_registration_started get_payer_channel
started-same channels channels' [] [] secret_hash same claims = refl
started-same channels channels' [] (p ∷ ps) secret_hash same claims = absurd (ground arith)
started-same channels channels' (p ∷ ps) [] secret_hash same claims = absurd (ground arith)
started-same channels channels' (p ∷ ps) (q ∷ qs) secret_hash same claims =
    let ih = started-same channels channels' ps qs secret_hash (ground arith) claims in
    let here = claims (payer_id p) in ground arith

pub marked-same :
    (pairs pairs' : List MediationPairState)
    → map side pairs' ≡ map side pairs
    → marked pairs' ≡ marked pairs
unfolding marked
marked-same [] [] same = refl
marked-same [] (p ∷ ps) same = absurd (ground arith)
marked-same (p ∷ ps) [] same = absurd (ground arith)
marked-same (p ∷ ps) (q ∷ qs) same = let ih = marked-same ps qs (ground arith) in ground arith

pub expirations-same :
    (pairs pairs' : List MediationPairState)
    → map side pairs' ≡ map side pairs
    → expirations pairs' ≡ expirations pairs
expirations-same [] [] same = refl
expirations-same [] (p ∷ ps) same = absurd (ground arith)
expirations-same (p ∷ ps) [] same = absurd (ground arith)
expirations-same (p ∷ ps) (q ∷ qs) same =
    let ih = expirations-same ps qs (ground arith) in ground arith

pub first_pair :
    (pair : MediationPairState) (pairs pairs' : List MediationPairState)
    → map side pairs' ≡ side pair ∷ map side pairs
    → (first : MediationPairState) × (rest : List MediationPairState) × (pairs' ≡ first ∷ rest)
      × (side first ≡ side pair)
first_pair pair pairs [] same = absurd (ground arith)
first_pair pair pairs (p ∷ ps) same = (p, ps, refl, ground arith)

-- What a block does to a task whose claims do not expire with it
pub record Block (tasks : TaskEnv) (state : MediatorTransferState) (channels : ChannelsMap)
    (height : ℕ) (block : MediatorIteration) : Type 0 where
  pub done : Paired
  pub kept : Kept channels state.transfers_pair done
  pub round : List MediationPairState × List Event
  pub is_round :
      round
      ≡ danger_loop done.channels done.pairs height
          (md_has_secret_registration_started done.channels done.pairs state.secret_hash)
  pub sent : registrations block.events ≡ registrations round.1
  pub next :
      (s : MediatorTransferState)
      → block.new_state ≡ some s
      → (s.transfers_pair ≡ round.0) × (block.channels ≡ done.channels)

clear_if_finalized-keeps :
    (it : MediatorIteration)
    → ((clear_if_finalized it).events ≡ it.events)
      × ((clear_if_finalized it).channels ≡ it.channels)
      × ((s : MediatorTransferState)
          → (clear_if_finalized it).new_state ≡ some s
          → it.new_state ≡ some s)
unfolding clear_if_finalized
clear_if_finalized-keeps it = (ground arith, ground arith, λ s h. ground arith)

pub append_nil : {A : Type 0} (xs : List A) → xs ++ [] ≡ xs
append_nil [] = refl
append_nil (x ∷ xs) = ap (λ l. x ∷ l) (append_nil xs)

handled :
    (tasks : TaskEnv) (state : MediatorTransferState) (channels : ChannelsMap) (ids : ℕ → ℕ)
    (height : ℕ) (block : MediatorIteration) (done : Paired)
    → events_to_remove_expired_locks tasks.env channels state.transfers_pair state.secret_hash
        height ids
      ≡ ok done
    → let round =
        events_for_on_chain_secret_reveal_if_dangerzone done.channels state.secret_hash done.pairs
          height in
      let waits = expire_waiting state.waiting_transfer in
      expire_claims tasks.env done.channels round.0 height ≡ (round.0, [])
      → md_state_transition tasks (some state) (TaskStateChange.block height) channels height ids
        ≡ ok block
      → clear_if_finalized (record {
        new_state = some (record state { transfers_pair = round.0; waiting_transfer = waits.0 });
        channels = done.channels;
        events = waits.1 ++ round.1 ++ done.events;
      })
        ≡ block
unfolding md_state_transition md_handle_block events_for_expired_pairs
handled tasks state channels ids height block done removed early h =
    ok-injective (sym (rw (removed, early) refl) ∙ h)

pub Block-of_transition :
    (tasks : TaskEnv) (state : MediatorTransferState) (channels : ChannelsMap) (ids : ℕ → ℕ)
    (height : ℕ) (block : MediatorIteration)
    → BeforeAt tasks.env height (expirations state.transfers_pair)
    → md_state_transition tasks (some state) (TaskStateChange.block height) channels height ids
      ≡ ok block
    → Block tasks state channels height block
unfolding md_state_transition md_handle_block clear_if_finalized events_for_expired_pairs
    events_for_on_chain_secret_reveal_if_dangerzone
Block-of_transition tasks state channels ids height block before h =
    elim (Outcome-cases (
      events_to_remove_expired_locks tasks.env channels state.transfers_pair state.secret_hash
        height ids)) [
          | inl (done, removed) ↦
              let kept =
                Kept-of_remove tasks.env channels state.transfers_pair state.secret_hash height ids
                  done removed in
              let started =
                md_has_secret_registration_started done.channels done.pairs state.secret_hash in
              let round = danger_loop done.channels done.pairs height started in
              let times : expirations round.0 ≡ expirations state.transfers_pair =
                (danger_loop-keeps done.channels done.pairs height started).2
                ∙ expirations-same state.transfers_pair done.pairs kept.sides in
              let early =
                expire_claims-early tasks.env done.channels round.0 height
                  (subst (BeforeAt tasks.env height) (sym times) before) in
              let quiet = kept.silent in
              let waiting = expire_waiting-silent state.waiting_transfer in
              let failed = (expire_waiting state.waiting_transfer).1 in
              let raw : MediatorIteration = record {
                new_state = some (record state {
                  transfers_pair = round.0;
                  waiting_transfer = (expire_waiting state.waiting_transfer).0;
                });
                channels = done.channels;
                events = failed ++ round.1 ++ done.events;
              } in
              let same : clear_if_finalized raw ≡ block =
                handled tasks state channels ids height block done removed early h in
              let cleared = clear_if_finalized-keeps raw in
              let events : block.events ≡ raw.events = sym (ap (λ b. b.events) same) ∙ cleared.0 in
              let all =
                registrations-append (failed ++ round.1) done.events
                ∙ ap (λ l. l ++ registrations done.events) (registrations-append failed round.1) in
              record {
                done = done;
                kept = kept;
                round = round;
                is_round = refl;
                sent =
                    ap registrations events
                    ∙ (all ∙ rw (waiting, quiet) (append_nil (registrations round.1)));
                next = λ s e.
                    let was = cleared.2 s (ap (λ b. b.new_state) same ∙ e) in
                    (ground (arith, was), sym (ap (λ b. b.channels) same) ∙ cleared.1);
              }
          | inr (inl (e, removed)) ↦ absurd (ground arith)
          | inr (inr removed) ↦ absurd (ground arith)
        ]
