-- ===== src/Orders.antt =====
-- src/modules/orders: the order state machine, checkout and the timer worker.
pub mod Monad
pub mod Actions
pub mod Machine
pub mod Steps
pub mod Effects
pub mod Commit
pub mod Invariant
pub mod Execute
pub mod Outcome
pub mod Trail
pub mod Refusals
pub mod Isolation
pub mod Checkout
pub mod Worker
pub mod Controller
pub mod Detail
pub mod History
