-- ===== src/Tasks.antt =====
-- src/public/cfgo/async.hpp, `AsyncTasksBase` and its three kinds: tasks that run at once and report
-- to one channel. What the channel yields, in order, is the argument of each `_sync`.
pub mod Sync
pub mod Laws
pub mod Alternatives
pub mod Void
mod Tests
