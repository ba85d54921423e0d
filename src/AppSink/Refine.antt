-- ===== src/AppSink/Refine.antt =====
-- src/gst/appsink.cpp: a sink and its receiver do what the queue does.
use conference_go_client.Common.{
  if_lem, ℕ, ◌-◌, ◌^◌, ◌<◌, ◌≡◌, refl, sym, subst, ap, ◌∙◌, Bool, true, false, false≢true, Option,
  none, some, List, [], ◌∷◌, map, length, arith, if◌then◌else◌,
}
use conference_go_client.Channel.{Channels}
use conference_go_client.Buffer.{Buffers}
use conference_go_client.AppSink.{
  app_sink, Pulled, pending, renumber, store, on_new_sample, on_eos, pull_begin,
}
use conference_go_client.AppSink.Numbers.{
  renumber-Inv, account_returns, on_new_sample-some, Numbered,
}
use conference_go_client.AppSink.Queue.{
  Event, arrives, ends, pulls, cancels, wakes, System, Queue, attempt, queue_step, queue_run, turn,
  woken, resumed, arrived, react, run,
}
use conference_go_client.AppSink.Receiving.{Sim, Agrees, Core-waits, pull_begin-Agrees}
use conference_go_client.AppSink.Waking.{woken-Wakes, resumed-Agrees}
use conference_go_client.AppSink.Storing.{renumber-Core, renumber-Notified, store-Core, fills}

module _ {B Ch S : Type 0} (channels : Channels Ch) (buffers : Buffers B (ℕ × S)) where
  pulls-Agrees :
      (bound : ℕ) (y : System B Ch) (q : Queue S)
      → Sim channels buffers bound y q
      → Agrees channels buffers bound
          (if y.waiting then (y, pending) else turn (pull_begin channels buffers y.sink))
          (if q.waits then (q, pending) else attempt q)
  pulls-Agrees bound y q i =
      subst
        (λ b.
          Agrees channels buffers bound
            (if y.waiting then (y, pending) else turn (pull_begin channels buffers y.sink))
            (if b then (q, pending) else attempt q))
        i.same
        (if_lem
          (λ r. Agrees channels buffers bound r (if y.waiting then (q, pending) else attempt q))
          y.waiting (y, pending) (turn (pull_begin channels buffers y.sink))
          (λ e.
            subst
              (λ b.
                Agrees channels buffers bound (y, pending) (if b then (q, pending) else attempt q))
              (sym e) (i, refl))
          (λ e.
            subst
              (λ b.
                Agrees channels buffers bound (turn (pull_begin channels buffers y.sink))
                  (if b then (q, pending) else attempt q))
              (sym e) (pull_begin-Agrees channels buffers bound y.sink q i.core)))

  wakes-Agrees :
      (bound : ℕ) (b : Bool) (y : System B Ch) (q : Queue S)
      → Sim channels buffers bound y q
      → Agrees channels buffers bound
          (if y.waiting then resumed channels buffers y (woken channels b y.sink) else (y, pending))
          (if q.waits then attempt q else (q, pending))
  wakes-Agrees bound b y q i =
      let r = resumed channels buffers y (woken channels b y.sink) in
      subst
        (λ w.
          Agrees channels buffers bound (if y.waiting then r else (y, pending))
            (if w then attempt q else (q, pending)))
        i.same
        (if_lem
          (λ r. Agrees channels buffers bound r (if y.waiting then attempt q else (q, pending)))
          y.waiting r (y, pending)
          (λ e.
            subst (λ w. Agrees channels buffers bound r (if w then attempt q else (q, pending)))
              (sym e)
              (resumed-Agrees channels buffers bound y q (woken channels b y.sink) i e
                (woken-Wakes channels buffers bound b y.sink q i.core)))
          (λ e.
            subst
              (λ w.
                Agrees channels buffers bound (y, pending) (if w then attempt q else (q, pending)))
              (sym e) (i, refl)))

  ends-Sim :
      (bound : ℕ) (y : System B Ch) (q : Queue S)
      → Sim channels buffers bound y q
      → Sim channels buffers bound
          (record y { sink = on_eos channels buffers y.sink })
          (record q { ended = true })
  unfolding on_eos
  ends-Sim bound y q i =
      let a = y.sink in
      record {
        core = record {
          items = i.core.items;
          ended = refl;
          capacity = i.core.capacity;
          inv = record {
            numbered = i.core.inv.numbered;
            within = i.core.inv.within;
            room = i.core.inv.room;
            small = i.core.inv.small;
            fits = i.core.inv.fits;
          };
        };
        same = i.same;
        notified = λ w. record {
          of_sample = (i.notified w).of_sample;
          of_eos = λ _. fills channels buffers a.eos_notify;
        };
      }

  -- What an event does to the sink, with what it does to the queue.
  abbrev Reacts : ℕ → Option (System B Ch × Pulled S) → Queue S × Pulled S → Type 0
  Reacts bound o s = (r : System B Ch × Pulled S) × (o ≡ some r) × Agrees channels buffers bound r s

  arrives-Reacts :
      (size : S → ℕ) (bound : ℕ) (o : Option S) (y : System B Ch) (q : Queue S)
      → Sim channels buffers bound y q
      → Reacts bound
          (arrived y (on_new_sample channels buffers size o y.sink))
          (queue_step bound (arrives o) q)
  unfolding on_new_sample
  arrives-Reacts size bound none y q i =
      let t = renumber channels buffers y.sink in
      (
        (record y { sink = t }, pending),
        refl,
        (
          record {
            core = renumber-Core channels buffers bound y.sink q i.core;
            same = i.same;
            notified = λ w. renumber-Notified channels buffers y.sink (i.notified w);
          },
          refl,
        ),
      )
  arrives-Reacts size bound (some s) y q i =
      let t = renumber channels buffers y.sink in
      let j = renumber-Inv channels buffers y.sink i.core.inv in
      let d = account_returns channels buffers size s t.cache t.stat j.0.room in
      let u = store channels buffers s d.0 t in
      let c =
        store-Core channels buffers bound s d.0 t q j.1
          (renumber-Core channels buffers bound y.sink q i.core) in
      let keeps = renumber-Notified channels buffers y.sink in
      (
        (record y { sink = u }, pending),
        ap (arrived y) (on_new_sample-some channels buffers size s d.0 y.sink d.1),
        (
          record {
            core = c;
            same = i.same;
            notified = λ w. record {
              of_sample = λ _. fills channels buffers t.sample_notify;
              of_eos = (keeps (i.notified w)).of_eos;
            };
          },
          refl,
        ),
      )

  react-Reacts :
      (size : S → ℕ) (bound : ℕ) (e : Event S) (y : System B Ch) (q : Queue S)
      → Sim channels buffers bound y q
      → Reacts bound (react channels buffers size e y) (queue_step bound e q)
  react-Reacts size bound (arrives o) y q i = arrives-Reacts size bound o y q i
  react-Reacts size bound ends y q i = (
    (record y { sink = on_eos channels buffers y.sink }, pending),
    refl,
    (ends-Sim bound y q i, refl),
  )
  react-Reacts size bound pulls y q i = (
    if y.waiting then (y, pending) else turn (pull_begin channels buffers y.sink),
    refl,
    pulls-Agrees bound y q i,
  )
  react-Reacts size bound (wakes b) y q i = (
    if y.waiting then resumed channels buffers y (woken channels b y.sink) else (y, pending),
    refl,
    wakes-Agrees bound b y q i,
  )
  react-Reacts size bound cancels y q i = (
    (record y { waiting = false }, pending),
    refl,
    (
      record {
        core = Core-waits channels buffers bound y.sink q false i.core;
        same = refl;
        notified = λ w. absurd (false≢true w);
      },
      refl,
    ),
  )

  run_lem :
      (size : S → ℕ) (bound : ℕ) (es : List (Event S)) (y : System B Ch) (q : Queue S)
      → Sim channels buffers bound y q
      → run channels buffers size es y ≡ some (queue_run bound es q)
  run_lem size bound [] y q i = refl
  run_lem size bound (e ∷ es) y q i =
      let r = react-Reacts size bound e y q i in
      let rest : System B Ch × Pulled S → Option (List (Pulled S)) =
        λ r. elim (run channels buffers size es r.0) [ none ↦ none | some ps ↦ some (r.1 ∷ ps) ] in
      let first : Option (System B Ch × Pulled S) → Option (List (Pulled S)) =
        λ o. elim o [ none ↦ none | some r ↦ rest r ] in
      let next : Pulled S → Option (List (Pulled S)) → Option (List (Pulled S)) =
        λ p o. elim o [ none ↦ none | some ps ↦ some (p ∷ ps) ] in
      let s = queue_step bound e q in
      ap first r.1
      ∙ ap (next r.0.1) (run_lem size bound es r.0.0 s.0 r.2.0)
      ∙ ap (λ p. some (p ∷ queue_run bound es s.0)) r.2.1

  -- A sink whose empty cache has room for at least one sample and fewer than 2 ^ 32 - 1: whatever comes
  -- in whatever order (samples, the end of the stream, calls of `pull_sample`, wake-ups, cancels), it
  -- never takes the front of an empty cache, and its one receiver gets at every step what a queue of
  -- that capacity, which drops its oldest sample when it is full, gives: no wake-up is lost, and the
  -- renumbering does not show.
  pub run-queue_run :
      (size : S → ℕ) (es : List (Event S)) (b : B)
      → buffers.contents b ≡ []
      → 0 < buffers.capacity b
      → buffers.capacity b < 2 ^ 32 - 1
      → run channels buffers size es
          (record { sink = app_sink channels buffers b; waiting = false })
        ≡ some (
            queue_run (buffers.capacity b) es (record { items = []; ended = false; waits = false }))
  run-queue_run size es b e room small =
      run_lem size (buffers.capacity b) es
        (record { sink = app_sink channels buffers b; waiting = false })
        (record { items = []; ended = false; waits = false })
        (record {
          core = record {
            items = ap (map (λ v. v.1)) e;
            ended = refl;
            capacity = refl;
            inv = record {
              numbered = (0, omega (arith, ap length e), subst (Numbered 0) (sym e) tt);
              within = omega (arith, ap length e);
              room = room;
              small = small;
              fits = omega arith;
            };
          };
          same = refl;
          notified = λ w. absurd (false≢true w);
        })
