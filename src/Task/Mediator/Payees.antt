-- ===== src/Task/Mediator/Payees.antt =====
-- The unlocks of eventsForBalanceProof, over one round and over two.
use pylons.Base.{
  ℕ, suc, ◌+◌, ◌≤◌, List, [], ◌∷◌, ◌++◌, Option, some, if◌then◌else◌, length, map, ◌≡◌, refl, arith,
  inl, inr, Bool-cases, Option-cases, ap,
}
use pylons.Base.Outcome.{ok, Outcome-cases}
use pylons.Common.{Env}
use pylons.State.{NettingChannelState}
use pylons.State.SyncMap.{load, store, load-store}
use pylons.Event.{Event, send_balance_proof}
use pylons.Channel.Status.{get_status}
use pylons.Channel.Unlock.{send_unlock}
use pylons.Task.{ChannelsMap}
use pylons.Task.Mediator.{
  MediationPairState, payee_balance_proof, payee_id, payer_id, get_payer_channel, get_payee_channel,
}
use pylons.Task.Mediator.Unlocking.{Paying, Paying-of_unlocks}
use pylons.Task.Mediator.Secrets.{Paired, should_unlock, unlock_payee, unlock_payees}

-- The unlocks among the events
unfoldable pub unlocks : List Event → ℕ
unlocks [] = 0
unlocks (send_balance_proof _ ∷ events) = suc (unlocks events)
unlocks (_ ∷ events) = unlocks events

-- The pairs whose payee is to be paid, in the channels as they are at first
unfoldable pub to_pay : ChannelsMap → List MediationPairState → ℕ → ℕ
to_pay channels [] block_number = 0
to_pay channels (pair ∷ pairs) block_number =
    let rest = to_pay channels pairs block_number in
    if should_unlock channels pair block_number then suc rest else rest

abbrev pub paid : ChannelsMap → ℕ → MediationPairState → MediationPairState
paid channels block_number pair =
    if should_unlock channels pair block_number
    then record pair { payee_state = payee_balance_proof }
    else pair

-- What should_unlock reads of a channel
record SameTerms (c d : NettingChannelState) : Type 0 where
  reveal_timeout : c.reveal_timeout ≡ d.reveal_timeout
  status : get_status c ≡ get_status d

module _ (env : Env) where
  SameTerms-of_unlock :
      (c c' : NettingChannelState) (msg_id payment_id : ℕ) (secret : List ℕ) (secret_hash : ℕ)
      (u : Option _)
      → send_unlock env c msg_id payment_id secret secret_hash ≡ ok (c', u)
      → SameTerms c' c
  unfolding send_unlock get_status
  SameTerms-of_unlock c c' msg_id payment_id secret secret_hash u h = record {
    reveal_timeout = ground arith;
    status = ground arith;
  }

should_unlock-store :
    (channels : ChannelsMap) (key : ℕ) (c d : NettingChannelState) (pair : MediationPairState)
    (block_number : ℕ)
    → load key channels ≡ some c
    → SameTerms d c
    → should_unlock (store key d channels) pair block_number
      ≡ should_unlock channels pair block_number
unfolding should_unlock get_payer_channel get_payee_channel
should_unlock-store channels key c d pair block_number found same =
    let a = same.reveal_timeout in
    let b = same.status in
    ground
      (arith, load-store key (payer_id pair) d channels, load-store key (payee_id pair) d channels)

to_pay-same :
    (channels channels' : ChannelsMap) (pairs : List MediationPairState) (block_number : ℕ)
    → ((pair : MediationPairState)
        → should_unlock channels' pair block_number ≡ should_unlock channels pair block_number)
    → (to_pay channels' pairs block_number ≡ to_pay channels pairs block_number)
      × (map (paid channels' block_number) pairs ≡ map (paid channels block_number) pairs)
unfolding to_pay
to_pay-same channels channels' [] block_number same = (refl, refl)
to_pay-same channels channels' (pair ∷ pairs) block_number same =
    let rest = to_pay-same channels channels' pairs block_number same in
    let here = same pair in (ground (arith, rest.0), ground (arith, rest.1))

unlocks-append : (xs ys : List Event) → unlocks (xs ++ ys) ≡ unlocks xs + unlocks ys
unfolding unlocks
unlocks-append [] ys = ground arith
unlocks-append (x ∷ xs) ys = ground (arith, unlocks-append xs ys)

module _ (env : Env) where
  record PaidOne (channels : ChannelsMap) (result : ChannelsMap × List Event) : Type 0 where
    one : unlocks result.1 ≡ 1
    same :
        (pair : MediationPairState) (block_number : ℕ)
        → should_unlock result.0 pair block_number ≡ should_unlock channels pair block_number

  PaidOne-of_unlock :
      (channels : ChannelsMap) (pair : MediationPairState) (secret : List ℕ)
      (secret_hash msg_id : ℕ) (result : ChannelsMap × List Event)
      → unlock_payee env channels pair secret secret_hash msg_id ≡ ok result
      → PaidOne channels result
  unfolding unlock_payee get_payee_channel unlocks
  PaidOne-of_unlock channels pair secret secret_hash msg_id result h =
      elim (Option-cases (load (payee_id pair) channels)) [
        | inl missing ↦ absurd (ground arith)
        | inr (c, found) ↦
            elim (Outcome-cases
              (send_unlock env c msg_id pair.payee_transfer.payment_id secret secret_hash)) [
                | inl ((c', u), sent) ↦
                    let terms =
                      SameTerms-of_unlock env c c' msg_id pair.payee_transfer.payment_id secret
                        secret_hash u sent in
                    record {
                      one = ground arith;
                      same = λ p block_number. ground (
                        arith,
                        should_unlock-store channels (payee_id pair) c c' p block_number found
                            terms,
                      );
                    }
                | inr (inl (e, sent)) ↦ absurd (ground arith)
                | inr (inr sent) ↦ absurd (ground arith)
              ]
      ]

  pub record PaidAll (channels : ChannelsMap) (pairs : List MediationPairState) (block_number : ℕ)
      (done : Paired) : Type 0 where
    pub pairs_paid : done.pairs ≡ map (paid channels block_number) pairs
    pub one_each : unlocks done.events ≡ to_pay channels pairs block_number

  pub PaidAll-of_unlocks :
      (channels : ChannelsMap) (pairs : List MediationPairState) (block_number : ℕ)
      (secret : List ℕ) (secret_hash : ℕ) (ids : ℕ → ℕ) (done : Paired)
      → unlock_payees env channels pairs block_number secret secret_hash ids ≡ ok done
      → PaidAll channels pairs block_number done
  unfolding unlock_payees unlocks to_pay
  PaidAll-of_unlocks channels [] block_number secret secret_hash ids done h = record {
    pairs_paid = ground arith;
    one_each = ground arith;
  }
  PaidAll-of_unlocks channels (pair ∷ pairs) block_number secret secret_hash ids done h =
      let next = λ (n : ℕ). ids (suc n) in
      elim (Bool-cases (should_unlock channels pair block_number)) [
        | inl pays ↦
            elim (Outcome-cases (unlock_payee env channels pair secret secret_hash (ids 0))) [
              | inl (result, e) ↦
                  elim (Outcome-cases
                    (unlock_payees env result.0 pairs block_number secret secret_hash next)) [
                      | inl (rest, r) ↦
                          let first =
                            PaidOne-of_unlock channels pair secret secret_hash (ids 0) result e in
                          let later =
                            PaidAll-of_unlocks result.0 pairs block_number secret secret_hash next
                              rest r in
                          let same =
                            to_pay-same channels result.0 pairs block_number
                              (λ p. first.same p block_number) in
                          let a = first.one in
                          let b = later.pairs_paid in
                          let c = later.one_each in
                          record {
                            pairs_paid = ground (arith, same.1);
                            one_each = ground (arith, same.0, unlocks-append result.1 rest.events);
                          }
                      | inr (inl (reason, r)) ↦ absurd (ground arith)
                      | inr (inr r) ↦ absurd (ground arith)
                    ]
              | inr (inl (reason, e)) ↦ absurd (ground arith)
              | inr (inr e) ↦ absurd (ground arith)
            ]
        | inr waits ↦
            elim (Outcome-cases
              (unlock_payees env channels pairs block_number secret secret_hash next)) [
                | inl (rest, r) ↦
                    let later =
                      PaidAll-of_unlocks channels pairs block_number secret secret_hash next rest
                        r in
                    let b = later.pairs_paid in
                    let c = later.one_each in
                    record { pairs_paid = ground arith; one_each = ground arith }
                | inr (inl (reason, r)) ↦ absurd (ground arith)
                | inr (inr r) ↦ absurd (ground arith)
              ]
      ]

-- A payee who has been paid is not paid again, whatever becomes of the channels.
paid_rest :
    (channels channels' : ChannelsMap) (pairs : List MediationPairState)
    (block_number block_number' : ℕ)
    → to_pay channels pairs block_number
        + to_pay channels' (map (paid channels block_number) pairs) block_number'
      ≤ length pairs
unfolding to_pay should_unlock
paid_rest channels channels' [] block_number block_number' = omega arith
paid_rest channels channels' (pair ∷ pairs) block_number block_number' =
    ground (arith, paid_rest channels channels' pairs block_number block_number')

-- When a mediator goes over its pairs to pay the payees, in a run that does not panic: to each pair
-- whose payee has told the secret and is not paid, over an open channel, while the payer's lock
-- leaves more blocks than the payer's channel takes to reveal a secret, it sends the unlock of the
-- lock, with the payment's identifier and the secret, for the lock's amount added to what was
-- transferred, modulo 2^64. It sends nothing else and nothing to the other pairs; when the channel
-- has no such lock, the unlock that it sends is nil. The pairs that were to be paid are marked, the
-- others are as they were. Together with the unlocks of a second run, at any height and over any
-- channels, there is at most one for each pair.
pub payees_paid_once :
    (env : Env) (channels channels' : ChannelsMap) (pairs : List MediationPairState)
    (block_number block_number' : ℕ) (secret secret' : List ℕ) (secret_hash secret_hash' : ℕ)
    (ids ids' : ℕ → ℕ) (done done' : Paired)
    → unlock_payees env channels pairs block_number secret secret_hash ids ≡ ok done
    → unlock_payees env channels' done.pairs block_number' secret' secret_hash' ids' ≡ ok done'
    → Paying block_number secret secret_hash channels pairs done.channels done.pairs done.events
      × (unlocks done.events + unlocks done'.events ≤ length pairs)
payees_paid_once env channels channels' pairs block_number block_number' secret secret' secret_hash
      secret_hash' ids ids' done done' first second =
    let a = PaidAll-of_unlocks env channels pairs block_number secret secret_hash ids done first in
    let b =
      PaidAll-of_unlocks env channels' done.pairs block_number' secret' secret_hash' ids' done'
        second in
    let more = ap (λ p. to_pay channels' p block_number') a.pairs_paid in
    (
      Paying-of_unlocks env channels pairs block_number secret secret_hash ids done first,
      omega (
        arith,
        a.one_each,
        b.one_each,
        more,
        paid_rest channels channels' pairs block_number block_number',
      ),
    )
