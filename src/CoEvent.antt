-- ===== src/CoEvent.antt =====
-- src/coevent.cpp and src/private/cfgo/coevent.hpp: an event that a coroutine awaits, with a time limit or
-- without one, and that is done after a number of triggers. What runs under the lock, with the call of
-- the handler that follows it, is one step.
pub mod Once
mod Tests
use conference_go_client.Common.{
  ℕ, ℤ, pos, ◌-ℤ◌, eqb_ℤ, ◌≡◌, Bool, true, false, not, ◌&&◌, Option, none, some, List, [], ◌∷◌,
  ◌++◌, if◌then◌else◌,
}

-- What `m_exception` holds: what was being handled at the trigger, mostly nothing, or the error of a
-- time limit.
pub data Completion : Type 0 where
  triggered timed_out : Completion

-- `has_timer` and `has_handler` tell whether `m_timer` and `m_handler` are set.
pub record CoEvent : Type 0 where
  pub times : ℤ
  pub done : Bool
  pub exception : Option Completion
  pub has_handler : Bool
  pub has_timer : Bool

abbrev pub create : ℤ → CoEvent
create times = record {
  times = times;
  done = false;
  exception = none;
  has_handler = false;
  has_timer = false;
}

-- The event is done, and the handler is called if there is one.
abbrev pub complete : Completion → CoEvent → CoEvent × List Completion
complete x c = (
  record c { done = true; exception = some x; has_timer = false },
  if c.has_handler then x ∷ [] else [],
)

unfoldable pub trigger : CoEvent → CoEvent × List Completion
unfolding ◌-ℤ◌
trigger c =
    let less = record c { times = c.times -ℤ pos 1 } in
    let counted =
      if eqb_ℤ (c.times -ℤ pos 1) (pos 0) then complete triggered less else (less, []) in
    if not c.done then counted else (c, [])

-- The wait for the timer ends without being aborted.
unfoldable pub timer_fires : CoEvent → CoEvent × List Completion
timer_fires c = if not c.done then complete timed_out c else (c, [])

-- What a coroutine that awaits a done event is told.
abbrev pub told : Option Completion → List Completion
told none = []
told (some x) = x ∷ []

-- `await`, given whether the time limit is positive.
unfoldable pub await : Bool → CoEvent → CoEvent × List Completion
await limited c =
    let timed = record c { has_timer = if limited then true else c.has_timer } in
    if c.done then (timed, told c.exception) else (record timed { has_handler = true }, [])

-- The event, whether it was awaited and with a time limit, and what the coroutine was told.
pub record World : Type 0 where
  pub event : CoEvent
  pub awaited : Bool
  pub limited : Bool
  pub calls : List Completion

abbrev pub after : World → CoEvent × List Completion → World
after w r = record w { event = r.0; calls = w.calls ++ r.1 }

abbrev pub begun : Bool → World → World
begun limited w = record w { awaited = true; limited = limited }

-- One coroutine awaits the event, once; triggers come whenever they do. The wait for the timer of a time
-- limit may end at any time: a reset of the timer comes too late for one that has ended already.
pub data Step : World → World → Type 0 where
  triggers : (w : World) → Step w (after w (trigger w.event))
  awaits :
      (limited : Bool) (w : World)
      → w.awaited ≡ false
      → Step w (after (begun limited w) (await limited w.event))
  fires : (w : World) → w.limited ≡ true → Step w (after w (timer_fires w.event))

abbrev pub fresh : ℤ → World
fresh times = record { event = create times; awaited = false; limited = false; calls = [] }

pub data Reach (times : ℤ) : World → Type 0 where
  start : Reach times (fresh times)
  next : (v w : World) → Reach times v → Step v w → Reach times w
