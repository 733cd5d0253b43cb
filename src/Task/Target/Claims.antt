-- ===== src/Task/Target/Claims.antt =====
-- The claim of a target on its lock, and what blocks do to it after the lock has expired.
use pylons.Base.{
  ℕ, suc, ◌+◌, ◌/◌, ◌≤◌, ◌<◌, word32, List, [], ◌∷◌, ◌++◌, none, some, true, false, length, All,
  ◌≡◌, refl, arith, ap, ◌∙◌,
}
use pylons.State.{NettingChannelState}
use pylons.Event.{Event, contract_send_secret_reveal, event_unlock_claim_failed}
use pylons.Event
use pylons.Channel.Locks.{
  is_secret_known, is_secret_known_off_chain, is_secret_known_on_chain, is_lock_expired, get_secret,
}
use pylons.Channel.Status.{get_status, opened}
use pylons.Task.{TargetTransferState, expired, onchain_secret_reveal}
use pylons.Task.Timing.{md_is_safe_to_wait, events_for_on_chain_secret_reveal}
use pylons.Task.Target.{
  default_number_of_block_confirmations, tg_events_for_on_chain_secret_reveal, tg_handle_block,
}

-- The events of a series of blocks, one after the other
unfoldable pub run_blocks : TargetTransferState → NettingChannelState → List ℕ → List Event
run_blocks target channel [] = []
run_blocks target channel (height ∷ heights) =
    let iteration = tg_handle_block target channel height in
    elim iteration.new_state [
      | none ↦ iteration.events
      | some next ↦ iteration.events ++ run_blocks next iteration.channels heights
    ]

-- The transactions among them that register the secret
unfoldable pub reveals : List Event → ℕ
reveals [] = 0
reveals (contract_send_secret_reveal _ _ ∷ events) = suc (reveals events)
reveals (_ ∷ events) = reveals events

-- A target whose lock has expired and who knows its secret from its partner only, on a channel
-- that is open
pub record ExpiredClaim (target : TargetTransferState) (channel : NettingChannelState)
    : Type 0 where
  pub small : target.transfer.lock.expiration + default_number_of_block_confirmations < word32
  pub known :
      is_secret_known_off_chain channel.partner_state target.transfer.lock.secret_hash ≡ true
  pub off_chain :
      is_secret_known_on_chain channel.our_state target.transfer.lock.secret_hash ≡ false
  pub can_reveal : get_status channel ≡ opened

module _ (target : TargetTransferState) (channel : NettingChannelState)
    (claim : ExpiredClaim target channel) where
  abbrev Late : ℕ → Type 0
  Late height = target.transfer.lock.expiration + default_number_of_block_confirmations ≤ height

  from_expired :
      (height : ℕ)
      → Late height
      → tg_handle_block (record target { state = expired }) channel height ≡ record {
        new_state = some (record target { state = onchain_secret_reveal });
        channels = channel;
        events =
            contract_send_secret_reveal target.transfer.lock.expiration
              (get_secret channel.partner_state target.transfer.lock.secret_hash)
            ∷ [];
      }
  unfolding tg_handle_block tg_events_for_on_chain_secret_reveal md_is_safe_to_wait is_secret_known
      events_for_on_chain_secret_reveal is_lock_expired
  from_expired height h =
      let a = claim.small in
      let b = claim.known in let c = claim.off_chain in let d = claim.can_reveal in ground arith

  from_revealed :
      (height : ℕ)
      → Late height
      → tg_handle_block (record target { state = onchain_secret_reveal }) channel height ≡ record {
        new_state = some (record target { state = expired });
        channels = channel;
        events =
            event_unlock_claim_failed target.transfer.payment_id target.transfer.lock.secret_hash
              Event.lock_expired
            ∷ [];
      }
  unfolding tg_handle_block is_lock_expired
  from_revealed height h = let a = claim.small in let c = claim.off_chain in ground arith

  counts :
      (heights : List ℕ)
      → All Late heights
      → (reveals (run_blocks (record target { state = expired }) channel heights)
          ≡ (length heights + 1) / 2)
        × (reveals (run_blocks (record target { state = onchain_secret_reveal }) channel heights)
            ≡ length heights / 2)
  unfolding run_blocks reveals
  counts [] h = (refl, refl)
  counts (height ∷ heights) (l, h) =
      let rest = counts heights h in
      (
        ground (arith, from_expired height l, rest.1),
        ground (arith, from_revealed height l, rest.0),
      )

-- A target whose claim has expired, on an open channel, who knows the secret from its partner but
-- not from the chain, whatever the series of blocks that come five or more after the expiration:
-- every second block makes it send the transaction that registers the secret once more.
pub reveals-run_blocks :
    (target : TargetTransferState) (channel : NettingChannelState) (heights : List ℕ)
    → ExpiredClaim target channel
    → target.state ≡ expired
    → All
        (λ height. target.transfer.lock.expiration + default_number_of_block_confirmations ≤ height)
        heights
    → reveals (run_blocks target channel heights) ≡ (length heights + 1) / 2
reveals-run_blocks target channel heights claim state Late =
    ap (λ s. reveals (run_blocks (record target { state = s }) channel heights)) state
    ∙ (counts target channel claim heights Late).0
