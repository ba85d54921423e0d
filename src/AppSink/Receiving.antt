-- ===== src/AppSink/Receiving.antt =====
-- src/gst/appsink.cpp: the passes of `pull_sample` do what the queue does.
use conference_go_client.Common.{
  if_lem, ℕ, ◌<◌, ◌≡◌, refl, sym, subst, ap, ◌∙◌, Bool, true, false, not, false≢true, none, List,
  [], ◌∷◌, map, length, arith, if◌then◌else◌,
}
use conference_go_client.Channel.{Channels}
use conference_go_client.Buffer.{Buffers, tail}
use conference_go_client.AppSink.{
  AppSink, Pulled, pending, returned, init, pop, pull_begin, pull_round,
}
use conference_go_client.AppSink.Numbers.{Inv, EndsAt, EndsAt-tail}
use conference_go_client.AppSink.Queue.{System, Queue, attempt_on, attempt, turn}

module _ {B Ch S : Type 0} (channels : Channels Ch) (buffers : Buffers B (ℕ × S)) where
  abbrev pub samples : B → List S
  samples b = map (λ v. v.1) (buffers.contents b)

  -- The sink holds what the queue does.
  pub record Core (bound : ℕ) (a : AppSink B Ch) (q : Queue S) : Type 0 where
    pub items : samples a.cache ≡ q.items
    pub ended : a.eos ≡ q.ended
    pub capacity : buffers.capacity a.cache ≡ bound
    pub inv : Inv channels buffers a

  -- While the receiver waits, whatever there is to return has a notification.
  pub record Notified (a : AppSink B Ch) : Type 0 where
    pub of_sample : 0 < length (samples a.cache) → channels.full a.sample_notify ≡ true
    pub of_eos : a.eos ≡ true → channels.full a.eos_notify ≡ true

  pub record Sim (bound : ℕ) (y : System B Ch) (q : Queue S) : Type 0 where
    pub core : Core bound y.sink q
    pub same : y.waiting ≡ q.waits
    pub notified : y.waiting ≡ true → Notified y.sink

  abbrev pub Agrees : ℕ → System B Ch × Pulled S → Queue S × Pulled S → Type 0
  Agrees bound r s = Sim bound r.0 s.0 × (r.1 ≡ s.1)

  pull_round-pop :
      (a : AppSink B Ch) (v : ℕ × S) (vs : List (ℕ × S))
      → buffers.contents a.cache ≡ v ∷ vs
      → pull_round channels buffers a ≡ pop channels buffers v.1 a
  unfolding pull_round
  pull_round-pop a v vs e = cc e

  pull_round-empty :
      (a : AppSink B Ch)
      → buffers.contents a.cache ≡ []
      → pull_round channels buffers a ≡ (if a.eos then (a, returned none) else (a, pending))
  unfolding pull_round
  pull_round-empty a e = cc e

  pop-Inv :
      (s : S) (a : AppSink B Ch) (v : ℕ × S) (vs : List (ℕ × S))
      → buffers.contents a.cache ≡ v ∷ vs
      → Inv channels buffers a
      → Inv channels buffers (pop channels buffers s a).0
  pop-Inv s a v vs e i =
      let b = buffers.pop_front a.cache in
      let c : buffers.contents b ≡ vs = buffers.pop_contents a.cache ∙ ap tail e in
      let same = buffers.pop_capacity a.cache in
      record {
        numbered =
            subst (EndsAt a.seq) (sym c)
              (EndsAt-tail a.seq (v ∷ vs) (subst (EndsAt a.seq) e i.numbered));
        within = omega (arith, ap length c, ap length e, same, i.within);
        room = omega (arith, same, i.room);
        small = omega (arith, same, i.small);
        fits = i.fits;
      }

  pub Core-waits :
      (bound : ℕ) (a : AppSink B Ch) (q : Queue S) (b : Bool)
      → Core bound a q
      → Core bound a (record q { waits = b })
  Core-waits bound a q b c = record {
    items = c.items;
    ended = c.ended;
    capacity = c.capacity;
    inv = c.inv;
  }

  pub attempt-Agrees :
      (bound : ℕ) (xs : List (ℕ × S)) (a : AppSink B Ch) (q : Queue S)
      → buffers.contents a.cache ≡ xs
      → Core bound a q
      → Agrees bound (turn (pull_round channels buffers a)) (attempt q)
  attempt-Agrees bound (v ∷ vs) a q e c =
      let items : q.items ≡ v.1 ∷ map (λ v. v.1) vs = sym c.items ∙ ap (map (λ v. v.1)) e in
      let b = buffers.pop_front a.cache in
      let kept : buffers.contents b ≡ vs = buffers.pop_contents a.cache ∙ ap tail e in
      subst (λ r. Agrees bound (turn r) (attempt q)) (sym (pull_round-pop a v vs e))
        (subst (λ xs. Agrees bound (turn (pop channels buffers v.1 a)) (attempt_on xs q))
          (sym items)
          (
            record {
              core = record {
                items = ap (map (λ v. v.1)) kept;
                ended = c.ended;
                capacity = buffers.pop_capacity a.cache ∙ c.capacity;
                inv = pop-Inv v.1 a v vs e c.inv;
              };
              same = refl;
              notified = λ f. absurd (false≢true f);
            },
            refl,
          ))
  attempt-Agrees bound [] a q e c =
      let items : q.items ≡ [] = sym c.items ∙ ap (map (λ v. v.1)) e in
      subst (λ r. Agrees bound (turn r) (attempt q)) (sym (pull_round-empty a e))
        (subst
          (λ xs.
            Agrees bound (turn (if a.eos then (a, returned none) else (a, pending)))
              (attempt_on xs q))
          (sym items)
          (subst
            (λ b. Agrees bound (turn (if a.eos then (a, returned none) else (a, pending))) (
              if b
              then (record q { waits = false }, returned none)
              else (record q { waits = true }, pending)))
            c.ended (ended_either a.eos refl)))
    where
      ended_either :
          (b : Bool)
          → a.eos ≡ b
          → Agrees bound (turn (if b then (a, returned none) else (a, pending))) (
              if b
              then (record q { waits = false }, returned none)
              else (record q { waits = true }, pending))
      ended_either true f = (
        record {
          core = Core-waits bound a q false c;
          same = refl;
          notified = λ g. absurd (false≢true g);
        },
        refl,
      )
      ended_either false f = (
        record {
          core = Core-waits bound a q true c;
          same = refl;
          notified = λ _. record {
            of_sample = λ lt. absurd (omega (arith, lt, ap (λ es. length (map (λ v. v.1) es)) e));
            of_eos = λ g. absurd (false≢true (sym f ∙ g));
          };
        },
        refl,
      )

  -- The first pass of `pull_sample` is a pass of its loop.
  pull_begin-round :
      (a : AppSink B Ch) → pull_begin channels buffers a ≡ pull_round channels buffers (init a)
  unfolding pull_begin pull_round
  pull_begin-round a = refl

  -- The notifications and the flag of `init` are no part of it.
  pub Core-moved :
      (bound : ℕ) (a : AppSink B Ch) (q : Queue S) (n m : Ch) (b : Bool)
      → Core bound a q
      → Core bound (record a { sample_notify = n; eos_notify = m; inited = b }) q
  Core-moved bound a q n m b c = record {
    items = c.items;
    ended = c.ended;
    capacity = c.capacity;
    inv = record {
      numbered = c.inv.numbered;
      within = c.inv.within;
      room = c.inv.room;
      small = c.inv.small;
      fits = c.inv.fits;
    };
  }

  init-Core : (bound : ℕ) (a : AppSink B Ch) (q : Queue S) → Core bound a q → Core bound (init a) q
  init-Core bound a q c =
      if_lem (λ a. Core bound a q) (not a.inited) (record a { inited = true }) a
        (λ _. Core-moved bound a q a.sample_notify a.eos_notify true c) (λ _. c)

  pub pull_begin-Agrees :
      (bound : ℕ) (a : AppSink B Ch) (q : Queue S)
      → Core bound a q
      → Agrees bound (turn (pull_begin channels buffers a)) (attempt q)
  pull_begin-Agrees bound a q c =
      subst (λ r. Agrees bound (turn r) (attempt q)) (sym (pull_begin-round a))
        (attempt-Agrees bound (buffers.contents (init a).cache) (init a) q refl
          (init-Core bound a q c))
