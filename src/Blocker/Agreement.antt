-- ===== src/Blocker/Agreement.antt =====
-- No wakeup is lost between the manager and the worker of a blocker.
use conference_go_client.Common.{ℕ, ◌≡◌, ◌≢◌, ◌⊎◌, true, false, arith}
use conference_go_client.Channel.{Channels}
use conference_go_client.Blocker.{
  Blocker, done, waits, new_blocker, request_block, request_unblock, sync_round,
  await_unblock_round,
}
use conference_go_client.Blocker.Protocol.{
  idle, reading, System, manager_block, manager_unblock, manager_check, manager_read, worker_check,
  worker_read, Step, asks, withdraws, syncs, manager_checks, manager_reads, manager_cancelled,
  waits_in, worker_checks, worker_reads, worker_cancelled, Reach, here, next,
}

module _ {Ch : Type 0} (channels : Channels Ch) where
  -- A worker that reads has seen every request but the one in its channel, and a manager that reads,
  -- and that no request or withdrawal overtook, has seen every answer but the one in its channel.
  pub record Inv (s : System Ch) : Type 0 where
    pub worker_told :
        s.worker ≡ reading
        → s.blocker.block ≢ s.blocker.blocked
        → channels.full s.blocker.request_chan ≡ true
    pub manager_told :
        s.manager ≡ reading
        → s.disturbed ≡ false
        → s.blocker.block ≡ s.blocker.blocked
        → channels.full s.blocker.response_chan ≡ true
    pub worker_holds : s.worker ≡ reading → s.blocker.blocked ≡ true

  unfoldable pub start : ℕ → System Ch
  unfolding new_blocker
  start id = record {
    blocker = new_blocker channels id;
    manager = idle;
    worker = idle;
    disturbed = false;
  }

  step-Inv : {s t : System Ch} → Step channels s t → Inv s → Inv t
  unfolding manager_block manager_unblock manager_check manager_read worker_check worker_read
  step-Inv {s} asks v = ground (arith, channels.write_fills s.blocker.request_chan)
  step-Inv {s} withdraws v = ground (arith, channels.write_fills s.blocker.request_chan)
  step-Inv (syncs h) v = ground arith
  step-Inv (manager_checks h) v = ground arith
  step-Inv {s} (manager_reads h r) v = ground arith
  step-Inv (manager_cancelled h) v = ground arith
  step-Inv (waits_in h) v = ground arith
  step-Inv {s} (worker_checks h) v = ground (arith, channels.write_fills s.blocker.response_chan)
  step-Inv (worker_reads h r) v = ground arith
  step-Inv (worker_cancelled h) v = ground arith

  start-Inv : (id : ℕ) → Inv (start id)
  unfolding start
  start-Inv id = ground arith

  Reach-Inv : {s t : System Ch} → Reach channels s t → Inv s → Inv t
  Reach-Inv here v = v
  Reach-Inv (next r st) v = step-Inv st (Reach-Inv r v)

  -- Whatever the order of requests, rounds, reads and cancellations from a new blocker on: a worker
  -- that waits while no block is asked for still holds the block, and its read succeeds, so that it
  -- goes on to let the block go.
  pub worker_not_stranded :
      (id : ℕ) (s : System Ch)
      → Reach channels (start id) s
      → s.worker ≡ reading
      → s.blocker.block ≡ false
      → (s.blocker.blocked ≡ true) × ((channels.try_read s.blocker.request_chan).1 ≡ true)
  worker_not_stranded id s r h e =
      let v = Reach-Inv r (start-Inv id) in
      (
        v.worker_holds h,
        ground
            (arith, v.worker_told h, v.worker_holds h, channels.read_takes s.blocker.request_chan),
      )

  -- Whatever the order of requests, rounds, reads and cancellations from a new blocker on: the read
  -- of a manager that waits in `sync` succeeds once the two flags agree, unless a request or a
  -- withdrawal came after its last look at the flags.
  pub manager_not_stranded :
      (id : ℕ) (s : System Ch)
      → Reach channels (start id) s
      → s.manager ≡ reading
      → s.disturbed ≡ false
      → s.blocker.block ≡ s.blocker.blocked
      → (channels.try_read s.blocker.response_chan).1 ≡ true
  manager_not_stranded id s r h q e =
      let v = Reach-Inv r (start-Inv id) in
      ground (arith, v.manager_told h q e, channels.read_takes s.blocker.response_chan)

  -- A round of `await_unblock` either returns, with no block asked for and the worker not blocked, or
  -- waits, with a block asked for and the worker blocked; it never changes the request.
  await_unblock_outcome :
      (b : Blocker Ch)
      → let (b', r) = await_unblock_round channels b in
        (b'.block ≡ b.block)
        × (((r ≡ done) × (b.block ≡ false) × (b'.blocked ≡ false))
            ⊎ ((r ≡ waits) × (b.block ≡ true) × (b'.blocked ≡ true)))
  unfolding await_unblock_round
  await_unblock_outcome b = ground arith

  -- From rest, a request is not in force before the worker's round and is in force after it; the
  -- withdrawal lets the worker out and brings both flags back; every change of the worker leaves an
  -- answer for the manager. A request made twice is refused.
  block_cycle :
      (b : Blocker Ch)
      → b.block ≡ false
      → b.blocked ≡ false
      → let b1 = (request_block channels b).0 in
        let b2 = (await_unblock_round channels b1).0 in
        let b3 = (request_unblock channels b2).0 in
        let b4 = (await_unblock_round channels b3).0 in
        (sync_round channels b1 ≡ waits)
        × (sync_round channels b2 ≡ done)
        × (b2.blocked ≡ true)
        × ((request_block channels b2).1 ≡ false)
        × (channels.full b2.response_chan ≡ true)
        × (sync_round channels b3 ≡ waits)
        × ((await_unblock_round channels b3).1 ≡ done)
        × (sync_round channels b4 ≡ done)
        × (b4.blocked ≡ false)
        × (b4.block ≡ false)
        × (channels.full b4.response_chan ≡ true)
  unfolding request_block request_unblock await_unblock_round sync_round
  block_cycle b p q = ground (
    arith,
    channels.write_fills b.response_chan,
    channels.write_fills (channels.try_write b.response_chan).0,
  )
