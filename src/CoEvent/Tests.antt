-- ===== src/CoEvent/Tests.antt =====
-- An event that is awaited with a time limit and triggered in time, and the theorem at it.
use conference_go_client.Common.{pos, ◌-ℤ◌, ◌≡◌, refl, length, ◌&&◌, if◌then◌else◌, true, [], ◌∷◌}
use conference_go_client.CoEvent.{
  triggered, trigger, await, World, after, begun, triggers, awaits, fresh, Reach, start, next,
}
use conference_go_client.CoEvent.Once.{due, calls-due}

abbrev awaiting : World
awaiting = after (begun true (fresh (pos 1))) (await true (fresh (pos 1)).event)

abbrev done : World
done = after awaiting (trigger awaiting.event)

done_reached : Reach (pos 1) done
done_reached =
    next awaiting done (next (fresh (pos 1)) awaiting start (awaits true (fresh (pos 1)) refl))
      (triggers awaiting)

told_once : done.calls ≡ triggered ∷ []
unfolding trigger await ◌-ℤ◌
told_once = refl

calls-due_example :
    (done.calls ≡ due done)
    × (length done.calls ≡ (if done.event.done && done.awaited then 1 else 0))
calls-due_example = calls-due (pos 1) done done_reached
