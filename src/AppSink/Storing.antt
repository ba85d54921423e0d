-- ===== src/AppSink/Storing.antt =====
-- src/gst/appsink.cpp: a sample that comes does to a sink what it does to the queue.
use conference_go_client.Common.{
  if_lem, sub32, ℕ, suc, ◌-◌, ◌^◌, ◌<◌, ◌==◌, ◌≡◌, refl, sym, subst, ap, ◌∙◌, Bool, true, false,
  List, [], ◌∷◌, ◌++◌, map, length, if◌then◌else◌,
}
use conference_go_client.Channel.{Channels, chan_maybe_write}
use conference_go_client.Buffer.{Buffers, full, tail}
use conference_go_client.AppSink.{AppSink, Statistics, makesure_min_seq, renumber, store}
use conference_go_client.AppSink.Numbers.{renumber-Inv, store-Inv, lower}
use conference_go_client.AppSink.Queue.{Queue}
use conference_go_client.AppSink.Receiving.{samples, Core, Notified}

module _ {S : Type 0} where
  map-lower : (d : ℕ) (es : List (ℕ × S)) → map (λ v. v.1) (map (lower d) es) ≡ map (λ v. v.1) es
  map-lower d [] = refl
  map-lower d (e ∷ es) = ap (λ xs. e.1 ∷ xs) (map-lower d es)

  length-samples : (es : List (ℕ × S)) → length (map (λ v. v.1) es) ≡ length es
  length-samples [] = refl
  length-samples (e ∷ es) = ap suc (length-samples es)

  map-pushed :
      (b : Bool) (v : ℕ × S) (es : List (ℕ × S))
      → map (λ v. v.1) ((if b then tail es else es) ++ v ∷ [])
        ≡ (let xs = map (λ v. v.1) es in (if b then tail xs else xs) ++ v.1 ∷ [])
  map-pushed true v [] = refl
  map-pushed true v (e ∷ es) = map-pushed false v es
  map-pushed false v [] = refl
  map-pushed false v (e ∷ es) = ap (λ xs. e.1 ∷ xs) (map-pushed false v es)

module _ {B Ch S : Type 0} (channels : Channels Ch) (buffers : Buffers B (ℕ × S)) where
  -- Renumbering changes the numbers only.
  abbrev Alike : AppSink B Ch → AppSink B Ch → Type 0
  Alike a b =
      (samples channels buffers b.cache ≡ samples channels buffers a.cache)
      × (buffers.capacity b.cache ≡ buffers.capacity a.cache)
      × (b.eos ≡ a.eos)
      × (b.sample_notify ≡ a.sample_notify)
      × (b.eos_notify ≡ a.eos_notify)

  renumber-Alike : (a : AppSink B Ch) → Alike a (renumber channels buffers a)
  unfolding renumber
  renumber-Alike a =
      let offset = makesure_min_seq channels buffers a in
      let b = record a {
        cache = buffers.for_each (lower offset) a.cache;
        seq = sub32 a.seq offset;
      } in
      if_lem (Alike a) (a.seq == 2 ^ 32 - 1) b a
        (λ _. (
          ap (map (λ v. v.1)) (buffers.each_contents (lower offset) a.cache)
              ∙ map-lower offset (buffers.contents a.cache),
          buffers.each_capacity (lower offset) a.cache,
          refl,
          refl,
          refl,
        ))
        (λ _. (refl, refl, refl, refl, refl))

  pub renumber-Core :
      (bound : ℕ) (a : AppSink B Ch) (q : Queue S)
      → Core channels buffers bound a q
      → Core channels buffers bound (renumber channels buffers a) q
  renumber-Core bound a q c =
      let e = renumber-Alike a in
      record {
        items = e.0 ∙ c.items;
        ended = e.2 ∙ c.ended;
        capacity = e.1 ∙ c.capacity;
        inv = (renumber-Inv channels buffers a c.inv).0;
      }

  pub renumber-Notified :
      (a : AppSink B Ch)
      → Notified channels buffers a
      → Notified channels buffers (renumber channels buffers a)
  renumber-Notified a n =
      let e = renumber-Alike a in
      record {
        of_sample = λ lt. ap channels.full e.3 ∙ n.of_sample (subst (λ xs. 0 < length xs) e.0 lt);
        of_eos = λ f. ap channels.full e.4 ∙ n.of_eos (sym e.2 ∙ f);
      }

  pub store-Core :
      (bound : ℕ) (s : S) (st : Statistics) (a : AppSink B Ch) (q : Queue S)
      → a.seq < 2 ^ 32 - 1
      → Core channels buffers bound a q
      → Core channels buffers bound (store channels buffers s st a) (record q {
        items = (if length q.items == bound then tail q.items else q.items) ++ s ∷ [];
      })
  store-Core bound s st a q lt c =
      let es = buffers.contents a.cache in
      let pushed : List S → ℕ → List S =
        λ xs n. (if length xs == n then tail xs else xs) ++ s ∷ [] in
      let same : (length es == buffers.capacity a.cache) ≡ (length (map (λ v. v.1) es) == bound) =
        ap (λ n. n == buffers.capacity a.cache) (sym (length-samples es))
        ∙ ap (λ n. length (map (λ v. v.1) es) == n) c.capacity in
      record {
        items =
            ap (map (λ v. v.1)) (buffers.push_contents (a.seq, s) a.cache c.inv.room)
            ∙ map-pushed (full buffers a.cache) (a.seq, s) es
            ∙ ap (λ b. let xs = map (λ v. v.1) es in (if b then tail xs else xs) ++ s ∷ []) same
            ∙ ap (λ xs. pushed xs bound) c.items;
        ended = c.ended;
        capacity = buffers.push_capacity (a.seq, s) a.cache ∙ c.capacity;
        inv = store-Inv channels buffers s st a c.inv lt;
      }

  pub fills : (c : Ch) → channels.full (chan_maybe_write channels c) ≡ true
  unfolding chan_maybe_write
  fills c = channels.write_fills c
