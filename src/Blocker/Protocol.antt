-- ===== src/Blocker/Protocol.antt =====
-- How a manager and a worker use one blocker (src/async_locker.cpp): `lock` and `unlock` request and
-- then `sync`, `wait_blocker` runs `await_unblock`. Each coroutine is a program counter, each
-- critical section and each channel read one step, in any order. A request or a withdrawal comes at any
-- time: `lock` takes its blocks back when it fails and a late task withdraws its own, while the `sync`
-- of another coroutine may be at the channel.
use conference_go_client.Common.{◌≡◌, Bool, true, false}
use conference_go_client.Channel.{Channels}
use conference_go_client.Blocker.{
  Blocker, Round, done, waits, request_block, request_unblock, sync_round, await_unblock_round,
}

-- `idle`: not in the loop; `checking`: before its critical section; `reading`: at the channel.
pub data Pc : Type 0 where
  idle checking reading : Pc

pub record System (Ch : Type 0) : Type 0 where
  pub blocker : Blocker Ch
  pub manager : Pc
  pub worker : Pc
  -- No part of the program: a request or a withdrawal came since the manager last looked at the flags.
  pub disturbed : Bool

unfoldable pub next_pc : Round → Pc
next_pc done = idle
next_pc waits = reading

module _ {Ch : Type 0} (channels : Channels Ch) where
  unfoldable pub manager_block : System Ch → System Ch
  unfolding request_block
  manager_block s = record s { blocker = (request_block channels s.blocker).0; disturbed = true }

  unfoldable pub manager_unblock : System Ch → System Ch
  unfolding request_unblock
  manager_unblock s = record s {
    blocker = (request_unblock channels s.blocker).0;
    disturbed = true;
  }

  unfoldable pub manager_check : System Ch → System Ch
  unfolding sync_round next_pc
  manager_check s = record s {
    manager = next_pc (sync_round channels s.blocker);
    disturbed = false;
  }

  unfoldable pub manager_read : System Ch → System Ch
  manager_read s = record s {
    blocker = record (s.blocker) { response_chan = (channels.try_read s.blocker.response_chan).0 };
    manager = checking;
  }

  unfoldable pub worker_check : System Ch → System Ch
  unfolding await_unblock_round next_pc
  worker_check s =
      let (b, r) = await_unblock_round channels s.blocker in
      record s { blocker = b; worker = next_pc r }

  unfoldable pub worker_read : System Ch → System Ch
  worker_read s = record s {
    blocker = record (s.blocker) { request_chan = (channels.try_read s.blocker.request_chan).0 };
    worker = checking;
  }

  pub data Step (s : System Ch) : System Ch → Type 0 where
    asks : Step s (manager_block s)
    withdraws : Step s (manager_unblock s)
    syncs : s.manager ≡ idle → Step s (record s { manager = checking })
    manager_checks : s.manager ≡ checking → Step s (manager_check s)
    manager_reads :
        s.manager ≡ reading
        → (channels.try_read s.blocker.response_chan).1 ≡ true
        → Step s (manager_read s)
    manager_cancelled : s.manager ≡ reading → Step s (record s { manager = idle })
    waits_in : s.worker ≡ idle → Step s (record s { worker = checking })
    worker_checks : s.worker ≡ checking → Step s (worker_check s)
    worker_reads :
        s.worker ≡ reading
        → (channels.try_read s.blocker.request_chan).1 ≡ true
        → Step s (worker_read s)
    worker_cancelled : s.worker ≡ reading → Step s (record s { worker = idle })

  pub data Reach (s : System Ch) : System Ch → Type 0 where
    here : Reach s s
    next : {t u : System Ch} → Reach s t → Step t u → Reach s u
