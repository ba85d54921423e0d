-- ===== src/AppSink/Queue.antt =====
-- src/gst/appsink.cpp: a sink and its one receiver, as a queue of samples that drops the oldest.
use conference_go_client.Common.{
  ℕ, ◌==◌, Bool, true, false, Option, none, some, List, [], ◌∷◌, ◌++◌, length, if◌then◌else◌,
}
use conference_go_client.Channel.{Channels}
use conference_go_client.Buffer.{Buffers, tail}
use conference_go_client.AppSink.{
  AppSink, Callback, Pulled, pending, returned, on_new_sample, on_eos, pull_begin, pull_round,
}

-- What happens to a sink: a sample is announced, the stream ends, the receiver calls `pull_sample`, its
-- wait ends by one of the two notifications (which one is tried first), or it is cancelled.
pub data Event (S : Type 0) : Type 0 where
  arrives : Option S → Event S
  ends pulls cancels : Event S
  wakes : Bool → Event S

pub record System (B Ch : Type 0) : Type 0 where
  pub sink : AppSink B Ch
  pub waiting : Bool

-- The queue that a sink promises.
pub record Queue (S : Type 0) : Type 0 where
  pub items : List S
  pub ended : Bool
  pub waits : Bool

abbrev pub or_else : {A : Type 0} → Option A → Option A → Option A
or_else none o = o
or_else (some a) o = some a

module _ {S : Type 0} where
  abbrev pub attempt_on : List S → Queue S → Queue S × Pulled S
  attempt_on [] q =
      if q.ended
      then (record q { waits = false }, returned none)
      else (record q { waits = true }, pending)
  attempt_on (s ∷ ss) q = (record q { items = ss; waits = false }, returned (some s))

  abbrev pub attempt : Queue S → Queue S × Pulled S
  attempt q = attempt_on q.items q

  -- The queue of that capacity, and what the receiver gets.
  abbrev pub queue_step : ℕ → Event S → Queue S → Queue S × Pulled S
  queue_step bound (arrives none) q = (q, pending)
  queue_step bound (arrives (some s)) q = (
    record q { items = (if length q.items == bound then tail q.items else q.items) ++ s ∷ [] },
    pending,
  )
  queue_step bound ends q = (record q { ended = true }, pending)
  queue_step bound pulls q = if q.waits then (q, pending) else attempt q
  queue_step bound (wakes b) q = if q.waits then attempt q else (q, pending)
  queue_step bound cancels q = (record q { waits = false }, pending)

  abbrev pub queue_run : ℕ → List (Event S) → Queue S → List (Pulled S)
  queue_run bound [] q = []
  queue_run bound (e ∷ es) q = let r = queue_step bound e q in r.1 ∷ queue_run bound es r.0

module _ {B Ch S : Type 0} where
  abbrev pub turn : AppSink B Ch × Pulled S → System B Ch × Pulled S
  turn (a, pending) = (record { sink = a; waiting = true }, pending)
  turn (a, returned o) = (record { sink = a; waiting = false }, returned o)

  abbrev pub arrived :
      System B Ch → Option (AppSink B Ch × List (Callback S)) → Option (System B Ch × Pulled S)
  arrived y none = none
  arrived y (some r) = some (record y { sink = r.0 }, pending)

module _ {B Ch : Type 0} (channels : Channels Ch) where
  abbrev pub read_sample : AppSink B Ch → Option (AppSink B Ch)
  read_sample a =
      let r = channels.try_read a.sample_notify in
      if r.1 then some (record a { sample_notify = r.0 }) else none

  abbrev pub read_eos : AppSink B Ch → Option (AppSink B Ch)
  read_eos a =
      let r = channels.try_read a.eos_notify in
      if r.1 then some (record a { eos_notify = r.0 }) else none

  -- The `select` on the two notifications.
  abbrev pub woken : Bool → AppSink B Ch → Option (AppSink B Ch)
  woken true a = or_else (read_sample a) (read_eos a)
  woken false a = or_else (read_eos a) (read_sample a)

module _ {B Ch S : Type 0} (channels : Channels Ch) (buffers : Buffers B (ℕ × S)) where
  abbrev pub resumed : System B Ch → Option (AppSink B Ch) → System B Ch × Pulled S
  resumed y none = (y, pending)
  resumed y (some a) = turn (pull_round channels buffers a)

module _ {B Ch S : Type 0} (channels : Channels Ch) (buffers : Buffers B (ℕ × S))
    (size : S → ℕ) where
  -- What an event does, and what the receiver gets.
  abbrev pub react : Event S → System B Ch → Option (System B Ch × Pulled S)
  react (arrives o) y = arrived y (on_new_sample channels buffers size o y.sink)
  react ends y = some (record y { sink = on_eos channels buffers y.sink }, pending)
  react pulls y =
      some (if y.waiting then (y, pending) else turn (pull_begin channels buffers y.sink))
  react (wakes b) y =
      some
        (if y.waiting then resumed channels buffers y (woken channels b y.sink) else (y, pending))
  react cancels y = some (record y { waiting = false }, pending)

  abbrev pub run : List (Event S) → System B Ch → Option (List (Pulled S))
  run [] y = some []
  run (e ∷ es) y = elim (react e y) [
    | none ↦ none
    | some r ↦ elim (run es r.0) [ none ↦ none | some ps ↦ some (r.1 ∷ ps) ]
  ]
