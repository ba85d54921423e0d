-- ===== src/CloseSignal.antt =====
-- src/async.cpp, `CloseSignal` and `detail::CloseSignalState`: cancellation tokens that form a tree,
-- with a timeout, a pause and waiters.
pub mod Node
pub mod Tree
pub mod Waking
pub mod Effect
pub mod Leaving
pub mod Shutting
pub mod Closing
pub mod Reach
pub mod Reasons
pub mod Timing
pub mod Handle
mod Tests
