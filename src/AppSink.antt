-- ===== src/AppSink.antt =====
-- src/gst/appsink.cpp: the samples of a GStreamer sink, numbered in the order they came, in a ring
-- buffer that drops the oldest, for one receiver. `none` is undefined behaviour: the front of an empty
-- cache.
pub mod Numbers
pub mod Queue
pub mod Receiving
pub mod Waking
pub mod Storing
pub mod Refine
mod Tests
use conference_go_client.Common.{
  u32, u64, sub32, ℕ, ◌+◌, ◌-◌, ◌^◌, ◌==◌, Bool, true, false, not, ◌||◌, Option, none, some, List,
  [], ◌∷◌, ◌++◌, if◌then◌else◌,
}
use conference_go_client.Channel.{Channels, chan_maybe_write}
use conference_go_client.Buffer.{Buffers, front, full, head}

pub record Statistics : Type 0 where
  pub droped_bytes : ℕ
  pub droped_samples : ℕ
  pub received_bytes : ℕ
  pub received_samples : ℕ

-- A call of a callback of the user, with its argument.
pub data Callback (S : Type 0) : Type 0 where
  on_sample : S → Callback S
  on_stat : Statistics → Callback S

pub record AppSink (B Ch : Type 0) : Type 0 where
  pub cache : B
  pub sample_notify : Ch
  pub eos_notify : Ch
  pub has_on_sample : Bool
  pub has_on_stat : Bool
  pub stat : Statistics
  pub seq : ℕ
  pub eos : Bool
  pub inited : Bool

-- What a pass of `pull_sample` comes to: it waits for a notification, or returns a sample, or the null
-- pointer.
pub data Pulled (S : Type 0) : Type 0 where
  pending : Pulled S
  returned : Option S → Pulled S

abbrev pub no_statistics : Statistics
no_statistics = record {
  droped_bytes = 0;
  droped_samples = 0;
  received_bytes = 0;
  received_samples = 0;
}

module _ {B Ch : Type 0} where
  -- `_init`: the registration of the callbacks is the sink's.
  abbrev pub init : AppSink B Ch → AppSink B Ch
  init a = if not a.inited then record a { inited = true } else a

  abbrev pub set_on_sample : AppSink B Ch → AppSink B Ch
  set_on_sample a = record a { has_on_sample = true }

  abbrev pub unset_on_sample : AppSink B Ch → AppSink B Ch
  unset_on_sample a = record a { has_on_sample = false }

  abbrev pub set_on_stat : AppSink B Ch → AppSink B Ch
  set_on_stat a = record a { has_on_stat = true }

  abbrev pub unset_on_stat : AppSink B Ch → AppSink B Ch
  unset_on_stat a = record a { has_on_stat = false }

module _ {B Ch S : Type 0} (channels : Channels Ch) (buffers : Buffers B (ℕ × S)) where
  -- The sink with an empty cache.
  abbrev pub app_sink : B → AppSink B Ch
  app_sink b = record {
    cache = b;
    sample_notify = channels.fresh;
    eos_notify = channels.fresh;
    has_on_sample = false;
    has_on_stat = false;
    stat = no_statistics;
    seq = 0;
    eos = false;
    inited = false;
  }

  unfoldable pub on_eos : AppSink B Ch → AppSink B Ch
  on_eos a = record a { eos = true; eos_notify = chan_maybe_write channels a.eos_notify }

  abbrev pub makesure_min_seq : AppSink B Ch → ℕ
  makesure_min_seq a = elim (front buffers a.cache) [ none ↦ 2 ^ 32 - 1 | some v ↦ v.0 ]

  -- The start of `on_new_sample`.
  unfoldable pub renumber : AppSink B Ch → AppSink B Ch
  renumber a =
      let offset = makesure_min_seq a in
      let b = record a {
        cache = buffers.for_each (λ v. (sub32 v.0 offset, v.1)) a.cache;
        seq = sub32 a.seq offset;
      } in
      if a.seq == 2 ^ 32 - 1 then b else a

  -- The counters after a sample that comes, given its size and the front of the cache if that is full.
  unfoldable pub account : (S → ℕ) → S → B → Statistics → Option Statistics
  account size s b st =
      let received = record st {
        received_bytes = u64 (st.received_bytes + size s);
        received_samples = u32 (st.received_samples + 1);
      } in
      let dropped : Option (ℕ × S) → Option Statistics = λ o. elim o [
        | none ↦ none
        | some v ↦ some (record received {
          droped_bytes = u64 (st.droped_bytes + size v.1);
          droped_samples = u32 (st.droped_samples + 1);
        })
      ] in
      if full buffers b then dropped (front buffers b) else some received

  abbrev pub callbacks : AppSink B Ch → S → Statistics → List (Callback S)
  callbacks a s st =
      (if a.has_on_sample then on_sample s ∷ [] else [])
      ++ (if a.has_on_stat then on_stat st ∷ [] else [])

  -- The end of `on_new_sample`.
  abbrev pub store : S → Statistics → AppSink B Ch → AppSink B Ch
  store s st a = record a {
    stat = st;
    cache = buffers.push_back (a.seq, s) a.cache;
    seq = u32 (a.seq + 1);
    sample_notify = chan_maybe_write channels a.sample_notify;
  }

  -- The sample is what `gst_app_sink_pull_sample` gives.
  unfoldable pub on_new_sample :
      (S → ℕ) → Option S → AppSink B Ch → Option (AppSink B Ch × List (Callback S))
  on_new_sample size o a =
      let t = renumber a in
      elim o [
        | none ↦ some (t, [])
        | some s ↦ elim (account size s t.cache t.stat) [
          | none ↦ none
          | some st ↦ some (store s st t, callbacks t s st)
        ]
      ]

  -- The oldest sample, out of the cache.
  abbrev pub pop : S → AppSink B Ch → AppSink B Ch × Pulled S
  pop s a = (record a { cache = buffers.pop_front a.cache }, returned (some s))

  -- `pull_sample` up to its loop.
  unfoldable pub pull_begin : AppSink B Ch → AppSink B Ch × Pulled S
  pull_begin a =
      let t = init a in
      elim (front buffers t.cache) [
        | some v ↦ pop v.1 t
        | none ↦ if t.eos then (t, returned none) else (t, pending)
      ]

  -- A pass of the loop, after the notification.
  unfoldable pub pull_round : AppSink B Ch → AppSink B Ch × Pulled S
  pull_round a = elim (front buffers a.cache) [
    | some v ↦ pop v.1 a
    | none ↦ if a.eos then (a, returned none) else (a, pending)
  ]
