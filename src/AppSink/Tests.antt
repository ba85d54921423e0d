-- ===== src/AppSink/Tests.antt =====
-- A sink with room for two samples in full, and the theorems at it.
use conference_go_client.Common.{
  ◌-◌, ℕ, ◌≡◌, ◌^◌, refl, arith, Bool, true, false, none, some, List, [], ◌∷◌,
}
use conference_go_client.Channel.{slot}
use conference_go_client.Buffer.{ring}
use conference_go_client.AppSink.{AppSink, pending, returned, app_sink}
use conference_go_client.AppSink.Queue.{Event, arrives, ends, pulls, wakes, queue_run, run}
use conference_go_client.AppSink.Refine.{run-queue_run}

abbrev size : ℕ → ℕ
size s = s

-- Three samples for two places, then the receiver, which waits until the stream ends.
abbrev events : List (Event ℕ)
events =
    arrives (some 4)
    ∷ arrives none
    ∷ arrives (some 5)
    ∷ arrives (some 6)
    ∷ pulls
    ∷ pulls
    ∷ pulls
    ∷ wakes true
    ∷ ends
    ∷ wakes true
    ∷ pulls
    ∷ []

received :
    queue_run 2 events (record { items = []; ended = false; waits = false })
    ≡ pending
      ∷ pending
      ∷ pending
      ∷ pending
      ∷ returned (some 5)
      ∷ returned (some 6)
      ∷ pending
      ∷ pending
      ∷ pending
      ∷ returned none
      ∷ returned none
      ∷ []
received = refl

run-queue_run_example :
    run slot ring size events (record { sink = app_sink slot ring (2, []); waiting = false })
    ≡ some (queue_run 2 events (record { items = []; ended = false; waits = false }))
run-queue_run_example = run-queue_run slot ring size events (2, []) refl (omega arith) (omega arith)

-- The next number is the last one of 32 bits.
abbrev last : AppSink (ℕ × List (ℕ × ℕ)) Bool
last = record (app_sink slot ring (2, (2 ^ 32 - 3, 7) ∷ (2 ^ 32 - 2, 8) ∷ [])) { seq = 2 ^ 32 - 1 }
