-- ===== src/Task/Mediator/Registered/Blocks.antt =====
-- What the parts of a block's handling keep: the removal of expired locks, the pairs in danger, and
-- the claims that expire.
use pylons.Base.{
  ℕ, suc, ◌*◌, ◌<◌, List, [], ◌∷◌, ◌++◌, Option, none, some, Bool, true, false, ◌||◌, ◌≡◌, refl,
  arith, map, All, add32, inl, inr, Bool-cases, Option-cases,
}
use pylons.Base.Outcome.{ok, Outcome-cases}
use pylons.Common.{Env, block_height}
use pylons.State.{NettingChannelState, NettingChannelEndState, LockedTransferSignedState}
use pylons.State.SyncMap.{load, load-store}
use pylons.Event
use pylons.Event.{Event, event_unlock_failed, contract_send_secret_reveal}
use pylons.Channel.Locks.{is_lock_expired, transfer_expired}
use pylons.Channel.Status.{ChannelStatus, get_status}
use pylons.Channel.Unlock.{events_for_expired_lock}
use pylons.Task.{ChannelsMap}
use pylons.Task.Mediator.{
  MediationPairState, PayerStatus, payee_id, get_payer_channel, is_waiting_secret_reveal,
  WaitingTransferState,
}
use pylons.Task.Mediator.Secrets.{Paired, md_has_secret_registration_started}
use pylons.Task.Mediator.Register.{in_danger, danger_loop}
use pylons.Task.Mediator.Expiry.{
  expire_claims, expire_waiting, remove_expired_lock, expired_lock_of,
  events_to_remove_expired_locks,
}

-- The transactions that register a secret, each with its lock's expiration and the secret
unfoldable pub registrations : List Event → List (ℕ × List ℕ)
registrations [] = []
registrations (contract_send_secret_reveal expiration secret ∷ events) =
    (expiration, secret) ∷ registrations events
registrations (_ ∷ events) = registrations events

pub registrations-append :
    (xs ys : List Event) → registrations (xs ++ ys) ≡ registrations xs ++ registrations ys
unfolding registrations
registrations-append [] ys = refl
registrations-append (x ∷ xs) ys = let ih = registrations-append xs ys in ground arith

-- What a block reads of a payer's channel, and of the payer's side of a pair
abbrev pub claim : NettingChannelState → ℕ × NettingChannelEndState × ChannelStatus
claim channel = (channel.reveal_timeout, channel.partner_state, get_status channel)

abbrev pub claim_of :
    Option NettingChannelState → Option (ℕ × NettingChannelEndState × ChannelStatus)
claim_of none = none
claim_of (some channel) = some (claim channel)

abbrev pub side : MediationPairState → LockedTransferSignedState × PayerStatus
side pair = (pair.payer_transfer, pair.payer_state)

abbrev pub expirations : List MediationPairState → List ℕ
expirations pairs = map (λ pair. pair.payer_transfer.lock.expiration) pairs

-- Whether some pair is marked as waiting for the secret on the chain
unfoldable pub marked : List MediationPairState → Bool
marked [] = false
marked (pair ∷ pairs) = is_waiting_secret_reveal pair.payer_state || marked pairs

pub marked-started :
    (channels : ChannelsMap) (pairs : List MediationPairState) (secret_hash : ℕ)
    → marked pairs ≡ true
    → md_has_secret_registration_started channels pairs secret_hash ≡ true
unfolding marked md_has_secret_registration_started
marked-started channels [] secret_hash h = absurd (ground arith)
marked-started channels (pair ∷ pairs) secret_hash h =
    ground (arith, marked-started channels pairs secret_hash)

-- The removal of expired locks sends no registration, and leaves what the block goes on to read.
pub record Kept (channels : ChannelsMap) (pairs : List MediationPairState) (done : Paired)
    : Type 0 where
  pub silent : registrations done.events ≡ []
  pub sides : map side done.pairs ≡ map side pairs
  pub claims : (key : ℕ) → claim_of (load key done.channels) ≡ claim_of (load key channels)

module _ (env : Env) where
  record KeptOne (channels : ChannelsMap) (pair : MediationPairState)
      (done : MediationPairState × ChannelsMap × List Event) : Type 0 where
    silent : registrations done.2 ≡ []
    sides : side done.0 ≡ side pair
    claims : (key : ℕ) → claim_of (load key done.1) ≡ claim_of (load key channels)

  expired_lock_keeps :
      (channel : NettingChannelState) (lock : _) (msg_id : ℕ)
      (done : NettingChannelState × List Event)
      → events_for_expired_lock env channel lock msg_id ≡ ok done
      → (registrations done.1 ≡ []) × (claim done.0 ≡ claim channel)
  unfolding events_for_expired_lock registrations get_status
  expired_lock_keeps channel lock msg_id done h = (ground arith, ground arith)

  KeptOne-of_remove :
      (channels : ChannelsMap) (pair : MediationPairState) (secret_hash block_number msg_id : ℕ)
      (done : MediationPairState × ChannelsMap × List Event)
      → remove_expired_lock env channels pair secret_hash block_number msg_id ≡ ok done
      → KeptOne channels pair done
  unfolding remove_expired_lock registrations
  KeptOne-of_remove channels pair secret_hash block_number msg_id done h =
      elim (Option-cases (load (payee_id pair) channels)) [
        | inl missing ↦ record {
          silent = ground arith;
          sides = ground arith;
          claims = λ key. ground arith;
        }
        | inr (payee, there) ↦
            elim (Option-cases (expired_lock_of env payee secret_hash block_number)) [
              | inl alive ↦ record {
                silent = ground arith;
                sides = ground arith;
                claims = λ key. ground arith;
              }
              | inr (lock, gone) ↦
                  elim (Outcome-cases (events_for_expired_lock env payee lock msg_id)) [
                    | inl ((payee', events), e) ↦
                        let (quiet, same) =
                          expired_lock_keeps payee lock msg_id (payee', events) e in
                        record {
                          silent = ground (
                            arith,
                            quiet,
                            registrations-append events (
                                event_unlock_failed pair.payee_transfer.payment_id
                                  pair.payee_transfer.lock.secret_hash Event.lock_expired
                                ∷ []),
                          );
                          sides = ground arith;
                          claims = λ key.
                              ground (arith, same, load-store (payee_id pair) key payee' channels);
                        }
                    | inr (inl (e, f)) ↦ absurd (ground arith)
                    | inr (inr f) ↦ absurd (ground arith)
                  ]
            ]
      ]

  pub Kept-of_remove :
      (channels : ChannelsMap) (pairs : List MediationPairState) (secret_hash block_number : ℕ)
      (ids : ℕ → ℕ) (done : Paired)
      → events_to_remove_expired_locks env channels pairs secret_hash block_number ids ≡ ok done
      → Kept channels pairs done
  unfolding events_to_remove_expired_locks registrations
  Kept-of_remove channels [] secret_hash block_number ids done h = record {
    silent = ground arith;
    sides = ground arith;
    claims = λ key. ground arith;
  }
  Kept-of_remove channels (pair ∷ pairs) secret_hash block_number ids done h =
      elim (Outcome-cases
        (remove_expired_lock env channels pair secret_hash block_number (ids 0))) [
          | inl ((pair', channels', events), e) ↦
              elim (Outcome-cases (
                events_to_remove_expired_locks env channels' pairs secret_hash block_number
                  (λ n. ids (suc n)))) [
                    | inl (rest, r) ↦
                        let one =
                          KeptOne-of_remove channels pair secret_hash block_number (ids 0)
                            (pair', channels', events) e in
                        let later =
                          Kept-of_remove channels' pairs secret_hash block_number (λ n. ids (suc n))
                            rest r in
                        let a = one.silent in
                        let b = later.silent in
                        let c = one.sides in
                        let d = later.sides in
                        record {
                          silent = ground (arith, registrations-append events rest.events);
                          sides = ground arith;
                          claims = λ key. ground (arith, one.claims key, later.claims key);
                        }
                    | inr (inl (e', r)) ↦ absurd (ground arith)
                    | inr (inr r) ↦ absurd (ground arith)
                  ]
          | inr (inl (e', e)) ↦ absurd (ground arith)
          | inr (inr e) ↦ absurd (ground arith)
        ]

-- A height at which no claim has expired
abbrev pub BeforeAt : Env → ℕ → List ℕ → Type 0
BeforeAt env height times =
    All (λ time. height < add32 time (block_height (env.confirm_block_count * 2))) times

-- Without a claim that expires, the pairs stay as they are.
pub expire_claims-early :
    (env : Env) (channels : ChannelsMap) (pairs : List MediationPairState) (height : ℕ)
    → BeforeAt env height (expirations pairs)
    → expire_claims env channels pairs height ≡ (pairs, [])
unfolding expire_claims transfer_expired is_lock_expired get_payer_channel
expire_claims-early env channels [] height before = refl
expire_claims-early env channels (pair ∷ pairs) height before =
    ground (arith, before.0, expire_claims-early env channels pairs height before.1)

pub expire_waiting-silent :
    (w : Option WaitingTransferState) → registrations (expire_waiting w).1 ≡ []
unfolding expire_waiting registrations
expire_waiting-silent none = refl
expire_waiting-silent (some w) = ground arith

module _ (channels : ChannelsMap) where
  -- Once a transaction is sent no other one is, the marks stay, and so do the times.
  pub danger_loop-keeps :
      (pairs : List MediationPairState) (height : ℕ) (sent : Bool)
      → let round = danger_loop channels pairs height sent in
        (sent ≡ true → registrations round.1 ≡ [])
        × (marked pairs ≡ true → marked round.0 ≡ true)
        × (expirations round.0 ≡ expirations pairs)
  unfolding danger_loop registrations marked
  danger_loop-keeps [] height sent = (λ h. refl, λ h. h, refl)
  danger_loop-keeps (pair ∷ pairs) height sent =
      let after = danger_loop-keeps pairs height true in
      let same = danger_loop-keeps pairs height sent in
      elim (Bool-cases (in_danger channels pair height)) [
        | inl danger ↦
            (λ h. ground (arith, after.0), λ h. ground (arith, after.1), ground (arith, after.2))
        | inr safe ↦
            (λ h. ground (arith, same.0), λ h. ground (arith, same.1), ground (arith, same.2))
      ]
