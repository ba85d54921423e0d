-- ===== src/AppSink/Waking.antt =====
-- src/gst/appsink.cpp: a notification ends the wait of `pull_sample`.
use conference_go_client.Common.{
  if_lem, ℕ, ◌≡◌, refl, sym, subst, ap, ◌∙◌, Bool, true, false, false≢true, Option, none, some,
  List, [], ◌∷◌, length, arith, if◌then◌else◌, Bool-cases, inl, inr,
}
use conference_go_client.Channel.{Channels}
use conference_go_client.Buffer.{Buffers}
use conference_go_client.AppSink.{AppSink, pending, returned}
use conference_go_client.AppSink.Queue.{
  System, Queue, attempt_on, attempt, read_sample, read_eos, or_else, woken, resumed,
}
use conference_go_client.AppSink.Receiving.{
  Core, Notified, Sim, Agrees, Core-waits, Core-moved, attempt-Agrees,
}

module _ {B Ch S : Type 0} (channels : Channels Ch) (buffers : Buffers B (ℕ × S)) where
  -- A read that takes the notification changes nothing else, and one that does not finds none.
  abbrev Reads : ℕ → Queue S → Ch → Option (AppSink B Ch) → Type 0
  Reads bound q c none = channels.full c ≡ false
  Reads bound q c (some a) = Core channels buffers bound a q

  read_sample-Reads :
      (bound : ℕ) (a : AppSink B Ch) (q : Queue S)
      → Core channels buffers bound a q
      → Reads bound q a.sample_notify (read_sample channels a)
  read_sample-Reads bound a q c =
      let r = channels.try_read a.sample_notify in
      if_lem (Reads bound q a.sample_notify) r.1 (some (record a { sample_notify = r.0 })) none
        (λ _. Core-moved channels buffers bound a q r.0 a.eos_notify a.inited c)
        (λ e. sym (channels.read_takes a.sample_notify) ∙ e)

  read_eos-Reads :
      (bound : ℕ) (a : AppSink B Ch) (q : Queue S)
      → Core channels buffers bound a q
      → Reads bound q a.eos_notify (read_eos channels a)
  read_eos-Reads bound a q c =
      let r = channels.try_read a.eos_notify in
      if_lem (Reads bound q a.eos_notify) r.1 (some (record a { eos_notify = r.0 })) none
        (λ _. Core-moved channels buffers bound a q a.sample_notify r.0 a.inited c)
        (λ e. sym (channels.read_takes a.eos_notify) ∙ e)

  abbrev pub Wakes : ℕ → Queue S → AppSink B Ch → Option (AppSink B Ch) → Type 0
  Wakes bound q a none =
      (channels.full a.sample_notify ≡ false) × (channels.full a.eos_notify ≡ false)
  Wakes bound q a (some b) = Core channels buffers bound b q

  or_else-Wakes :
      (bound : ℕ) (a : AppSink B Ch) (q : Queue S) (o p : Option (AppSink B Ch))
      → Reads bound q a.sample_notify o
      → Reads bound q a.eos_notify p
      → Wakes bound q a (or_else o p) × Wakes bound q a (or_else p o)
  or_else-Wakes bound a q none none f g = ((f, g), (f, g))
  or_else-Wakes bound a q none (some b) f g = (g, g)
  or_else-Wakes bound a q (some b) none f g = (f, f)
  or_else-Wakes bound a q (some b) (some d) f g = (f, g)

  pub woken-Wakes :
      (bound : ℕ) (b : Bool) (a : AppSink B Ch) (q : Queue S)
      → Core channels buffers bound a q
      → Wakes bound q a (woken channels b a)
  woken-Wakes bound b a q c =
      let r =
        or_else-Wakes bound a q (read_sample channels a) (read_eos channels a)
          (read_sample-Reads bound a q c) (read_eos-Reads bound a q c) in
      elim b as (λ b. Wakes bound q a (woken channels b a)) [ true ↦ r.0 | false ↦ r.1 ]

  pub resumed-Agrees :
      (bound : ℕ) (y : System B Ch) (q : Queue S) (o : Option (AppSink B Ch))
      → Sim channels buffers bound y q
      → y.waiting ≡ true
      → Wakes bound q y.sink o
      → Agrees channels buffers bound (resumed channels buffers y o) (attempt q)
  resumed-Agrees bound y q (some a) i w h =
      attempt-Agrees channels buffers bound (buffers.contents a.cache) a q refl h
  resumed-Agrees bound y q none i w h =
      subst (Agrees channels buffers bound (y, pending)) (sym (idle q.items refl)) (
        record {
          core = Core-waits channels buffers bound y.sink q true i.core;
          same = w;
          notified = i.notified;
        },
        refl,
      )
    where
      n : Notified channels buffers y.sink
      n = i.notified w

      idle : (xs : List S) → q.items ≡ xs → attempt_on xs q ≡ (record q { waits = true }, pending)
      idle [] e = elim (Bool-cases y.sink.eos) [
        | inl f ↦ absurd (false≢true (sym h.1 ∙ n.of_eos f))
        | inr f ↦
            ap
              (λ b.
                if b
                then (record q { waits = false }, returned none)
                else (record q { waits = true }, pending))
              (sym i.core.ended ∙ f)
      ]
      idle (x ∷ xs) e =
          absurd (false≢true (sym h.0 ∙ n.of_sample (omega (arith, ap length (i.core.items ∙ e)))))
