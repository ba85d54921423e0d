-- ===== src/Blocker/Tests.antt =====
-- The protocol of a blocker over concrete one-slot channels.
use conference_go_client.Common.{◌≡◌, refl, Bool, true, ℕ, pos}
use conference_go_client.Channel.{slot}
use conference_go_client.Blocker.UserData.{UserData, integer}
use conference_go_client.Blocker.Protocol.{
  System, checking, manager_block, manager_unblock, manager_check, worker_check, asks, withdraws,
  syncs, manager_checks, waits_in, worker_checks, Reach, here, next,
}
use conference_go_client.Blocker.Agreement.{start, worker_not_stranded, manager_not_stranded}

-- A worker that has taken a block up, which is then withdrawn.
abbrev withdrawn : System Bool
withdrawn =
    manager_unblock slot
      (worker_check slot (record (manager_block slot (start slot 7)) { worker = checking }))

withdrawn_reached : Reach slot (start slot 7) withdrawn
unfolding start manager_block worker_check
withdrawn_reached =
    next (next (next (next here asks) (waits_in refl)) (worker_checks refl)) withdraws

worker_not_stranded_example :
    (withdrawn.blocker.blocked ≡ true) × ((slot.try_read withdrawn.blocker.request_chan).1 ≡ true)
unfolding start manager_block worker_check manager_unblock
worker_not_stranded_example = worker_not_stranded slot 7 withdrawn withdrawn_reached refl refl

-- A manager that waits, and a worker that has just taken the block up.
abbrev agreed : System Bool
agreed =
    worker_check slot
      (record (manager_check slot
        (record (manager_block slot (start slot 7)) { manager = checking })) { worker = checking })

agreed_reached : Reach slot (start slot 7) agreed
unfolding start manager_block manager_check worker_check
agreed_reached =
    next (next (next (next (next here asks) (syncs refl)) (manager_checks refl)) (waits_in refl))
      (worker_checks refl)

manager_not_stranded_example : (slot.try_read agreed.blocker.response_chan).1 ≡ true
unfolding start manager_block manager_check worker_check
manager_not_stranded_example = manager_not_stranded slot 7 agreed agreed_reached refl refl refl

abbrev counted : UserData ℕ ℕ
counted = integer (pos 5)
