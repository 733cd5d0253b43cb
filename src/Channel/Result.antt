-- ===== src/Channel/Result.antt =====
-- What a handler returns (transfer/architecture.go), and the confirmation that it sends.
use pylons.Base.{ℕ, List, Option, some}
use pylons.State.{NettingChannelState}
use pylons.Event.{Event, channel_id_global_queue, send_processed}

-- TransitionResult; `new_state` is nil for a channel that is to be deleted.
pub record TransitionResult : Type 0 where
  pub new_state : Option NettingChannelState
  pub events : List Event

-- `TransitionResult{channelState, events}`
abbrev pub transition : NettingChannelState → List Event → TransitionResult
transition channel events = record { new_state = some channel; events = events }

-- The confirmation of a message, for the sender of its balance proof.
unfoldable pub processed : ℕ → ℕ → Event
processed recipient message_id = send_processed (record {
  recipient = recipient;
  channel_id = channel_id_global_queue;
  message_id = message_id;
})
