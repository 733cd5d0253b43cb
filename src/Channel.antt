-- ===== src/Channel.antt =====
-- transfer/channel.go: one payment channel. A function that changes the channel in place returns
-- the new channel. Definitions stand in the children named for the parts of the file, theorems in
-- the children of those and in `Proofs`.
pub mod Locks
pub mod Balance
pub mod Status
pub mod Packing
pub mod Validity
pub mod Send
pub mod Unlock
pub mod Result
pub mod Direct
pub mod Receive
pub mod Withdraw
pub mod CooperativeSettle
pub mod Chain
pub mod Transition
pub mod Agreement
