-- ===== src/Task/Timing.antt =====
-- The tests of transfer/mediator.go and transfer/utils.go that the tasks share: whether a lock
-- leaves time to wait for the partner, and the secret's way to the chain.
use pylons.Base.{
  ℕ, ◌<◌, ◌+◌, List, [], ◌∷◌, Bool, true, false, not, ◌&&◌, ltb, leb, ◌==◌, if◌then◌else◌, u32,
  sub32, word32, ◌≡◌, ◌↔◌, arith,
}
use pylons.Base.Outcome.{Outcome, ok, err}
use pylons.Common.{Env, get_hash}
use pylons.State.{NettingChannelState}
use pylons.Event
use pylons.Event.{Reason, Event, contract_send_secret_reveal}
use pylons.Channel.Status.{ChannelStatus, get_status, opened, closing, closed}

-- MdIsLockValid
unfoldable pub md_is_lock_valid : ℕ → ℕ → Bool
md_is_lock_valid expiration block_number = leb block_number (u32 expiration)

-- MdIsSafeToWait; `ok` is the nil error.
unfoldable pub md_is_safe_to_wait : ℕ → ℕ → ℕ → Outcome Reason (Unit {0})
md_is_safe_to_wait lock_expiration reveal_timeout block_number =
    if ltb (u32 lock_expiration) block_number
    then err Event.lock_has_expired
    else if ltb reveal_timeout (sub32 (u32 lock_expiration) block_number)
    then ok tt
    else err Event.lock_timeout_is_unsafe

abbrev is_revealable : ChannelStatus → Bool
is_revealable opened = true
is_revealable closing = true
is_revealable closed = true
is_revealable _ = false

-- EventsForOnChainSecretReveal
unfoldable pub events_for_on_chain_secret_reveal : NettingChannelState → List ℕ → ℕ → List Event
events_for_on_chain_secret_reveal channel secret expiration =
    if is_revealable (get_status channel)
    then contract_send_secret_reveal expiration secret ∷ []
    else []

-- The 32 zero bytes of `common.EmptySecret`
abbrev zeros : ℕ → List ℕ
zeros ℕ.zero = []
zeros (ℕ.suc n) = 0 ∷ zeros n

abbrev same_bytes : List ℕ → List ℕ → Bool
same_bytes [] [] = true
same_bytes (x ∷ xs) (y ∷ ys) = x == y && same_bytes xs ys
same_bytes _ _ = false

-- IsValidSecretReveal
unfoldable pub is_valid_secret_reveal : Env → List ℕ → ℕ → List ℕ → Bool
unfolding get_hash
is_valid_secret_reveal env state_change_secret transfer_secret_hash secret =
    not (same_bytes secret (zeros 32)) && get_hash env state_change_secret == transfer_secret_hash

-- It is safe to wait exactly while more blocks than the reveal timeout are left.
pub md_is_safe_to_wait_iff :
    (expiration reveal_timeout block_number : ℕ)
    → expiration < word32
    → (md_is_safe_to_wait expiration reveal_timeout block_number ≡ ok tt)
      ↔ (reveal_timeout + block_number < expiration)
unfolding md_is_safe_to_wait
md_is_safe_to_wait_iff expiration reveal_timeout block_number h = ground arith
