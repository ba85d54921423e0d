-- ===== src/Blocker.antt =====
-- src/async_locker.cpp, `detail::AsyncBlocker`: a flag that the manager asks for (`m_block`), a flag
-- that the worker confirms (`m_blocked`), and a one-slot channel in each direction. The mutex makes
-- each critical section one step; a coroutine that waits is a step that asks to be resumed.
pub mod UserData
pub mod Protocol
pub mod Agreement
mod Tests
use conference_go_client.Common.{ℕ, Bool, true, false, if◌then◌else◌}
use conference_go_client.Channel.{Channels, chan_maybe_write}

pub record Blocker (Ch : Type 0) : Type 0 where
  pub id : ℕ
  pub block : Bool
  pub blocked : Bool
  pub request_chan : Ch
  pub response_chan : Ch

-- What one round of a waiting loop comes to: it returns, or it reads from its channel first.
pub data Round : Type 0 where
  done waits : Round

module _ {Ch : Type 0} (channels : Channels Ch) where
  unfoldable pub new_blocker : ℕ → Blocker Ch
  new_blocker id = record {
    id = id;
    block = false;
    blocked = false;
    request_chan = channels.fresh;
    response_chan = channels.fresh;
  }

  unfoldable pub request_block : Blocker Ch → Blocker Ch × Bool
  unfolding chan_maybe_write
  request_block b = if b.block then (b, false) else (
    record b { block = true; request_chan = chan_maybe_write channels b.request_chan },
    true,
  )

  unfoldable pub request_unblock : Blocker Ch → Blocker Ch × Bool
  unfolding chan_maybe_write
  request_unblock b =
      if b.block
      then (
        record b { block = false; request_chan = chan_maybe_write channels b.request_chan },
        true,
      )
      else (b, false)

  -- The critical section of `sync`; `waits` goes on to read `m_response_chan`.
  unfoldable pub sync_round : Blocker Ch → Round
  sync_round b =
      if b.block then if b.blocked then done else waits else if b.blocked then waits else done

  -- The critical section of `await_unblock`; `waits` goes on to read `m_request_chan`.
  unfoldable pub await_unblock_round : Blocker Ch → Blocker Ch × Round
  unfolding chan_maybe_write
  await_unblock_round b =
      if b.blocked
      then if b.block then (b, waits) else (
        record b { blocked = false; response_chan = chan_maybe_write channels b.response_chan },
        done,
      )
      else if b.block
      then (
        record b { blocked = true; response_chan = chan_maybe_write channels b.response_chan },
        waits,
      )
      else (b, done)
