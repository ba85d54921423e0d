-- ===== src/Track.antt =====
-- src/impl/track.cpp: the messages of a track, numbered in the order they came, in one cache for RTP
-- and one for RTCP. `none` is undefined behaviour: the front of an empty cache.
pub mod Sequence
pub mod Messages
pub mod Delivery
pub mod Balance
pub mod Renumbering
pub mod Reset
mod Tests
use conference_go_client.Common.{
  u32, u64, sub32, ℕ, zero, suc, ◌+◌, ◌-◌, ◌*◌, ◌/◌, ◌%◌, ◌^◌, ◌==◌, ltb, Bool, true, false, not,
  ◌&&◌, Option, none, some, List, [], ◌∷◌, length, if◌then◌else◌, ◌++◌,
}
use conference_go_client.Channel.{Channels, chan_maybe_write}
use conference_go_client.Buffer.{Buffers, front, full, head}

-- The counters of one kind of message.
pub record Counters : Type 0 where
  pub drops_bytes : ℕ
  pub drops_packets : ℕ
  pub receives_bytes : ℕ
  pub receives_packets : ℕ

-- `Statistics`
pub record Statistics : Type 0 where
  pub rtp : Counters
  pub rtcp : Counters

abbrev pub no_counters : Counters
no_counters = record {
  drops_bytes = 0;
  drops_packets = 0;
  receives_bytes = 0;
  receives_packets = 0;
}

-- `rtp_packet_mean_size` and `rtcp_packet_mean_size`
unfoldable pub packet_mean_size : Counters → ℕ
packet_mean_size c =
    if ltb 0 c.receives_packets then u32 (c.receives_bytes / c.receives_packets) else 0

-- A received message of that size.
unfoldable pub receive : ℕ → Counters → Counters
receive size c = record c {
  receives_bytes = u64 (c.receives_bytes + size);
  receives_packets = u32 (c.receives_packets + 1);
}

-- A message of that size that makes room.
unfoldable pub drop : ℕ → Counters → Counters
drop size c = record c {
  drops_bytes = u64 (c.drops_bytes + size);
  drops_packets = u32 (c.drops_packets + 1);
}

pub data MsgType : Type 0 where
  rtp_msg rtcp_msg all_msgs : MsgType

-- A call of a callback of the user, with its arguments.
pub data Callback (M : Type 0) : Type 0 where
  on_data : M → Bool → Callback M
  on_stat : Statistics → Callback M

pub record Track (B Ch : Type 0) : Type 0 where
  pub inited : Bool
  pub rtp_cache : B
  pub rtcp_cache : B
  pub seq : ℕ
  pub has_on_data : Bool
  pub has_on_stat : Bool
  pub statistics : Statistics
  pub msg_notify : Ch

module _ {B Ch : Type 0} where
  unfoldable pub get_rtp_drops_bytes : Track B Ch → ℕ
  get_rtp_drops_bytes t = t.statistics.rtp.drops_bytes

  unfoldable pub get_rtp_drops_packets : Track B Ch → ℕ
  get_rtp_drops_packets t = t.statistics.rtp.drops_packets

  unfoldable pub get_rtp_receives_bytes : Track B Ch → ℕ
  get_rtp_receives_bytes t = t.statistics.rtp.receives_bytes

  unfoldable pub get_rtp_receives_packets : Track B Ch → ℕ
  get_rtp_receives_packets t = t.statistics.rtp.receives_packets

  unfoldable pub get_rtp_packet_mean_size : Track B Ch → ℕ
  unfolding packet_mean_size
  get_rtp_packet_mean_size t = packet_mean_size t.statistics.rtp

  unfoldable pub get_rtcp_drops_bytes : Track B Ch → ℕ
  get_rtcp_drops_bytes t = t.statistics.rtcp.drops_bytes

  unfoldable pub get_rtcp_drops_packets : Track B Ch → ℕ
  get_rtcp_drops_packets t = t.statistics.rtcp.drops_packets

  unfoldable pub get_rtcp_receives_bytes : Track B Ch → ℕ
  get_rtcp_receives_bytes t = t.statistics.rtcp.receives_bytes

  unfoldable pub get_rtcp_receives_packets : Track B Ch → ℕ
  get_rtcp_receives_packets t = t.statistics.rtcp.receives_packets

  unfoldable pub get_rtcp_packet_mean_size : Track B Ch → ℕ
  unfolding packet_mean_size
  get_rtcp_packet_mean_size t = packet_mean_size t.statistics.rtcp

  unfoldable pub reset_rtp_data : Track B Ch → Track B Ch
  reset_rtp_data t = record t { statistics = record (t.statistics) { rtp = no_counters } }

  unfoldable pub reset_rtcp_data : Track B Ch → Track B Ch
  reset_rtcp_data t = record t { statistics = record (t.statistics) { rtcp = no_counters } }

-- What `makesure_min_seq` does with the two caches.
pub data MinSeq : Type 0 where
  found : ℕ → MinSeq
  pops_rtp pops_rtcp : MinSeq

module _ {B M Ch : Type 0} (buffers : Buffers B (ℕ × M)) where
  abbrev pub pop_rtp : Track B Ch → Track B Ch
  pop_rtp t = record t { rtp_cache = buffers.pop_front t.rtp_cache }

  abbrev pub pop_rtcp : Track B Ch → Track B Ch
  pop_rtcp t = record t { rtcp_cache = buffers.pop_front t.rtcp_cache }

-- One call of `makesure_min_seq`, by the fronts of the caches.
unfoldable pub min_seq_of : {M : Type 0} → Option (ℕ × M) → Option (ℕ × M) → MinSeq
min_seq_of none none = found 4294967295
min_seq_of none (some c) = if c.0 == 0 then pops_rtcp else found c.0
min_seq_of (some p) none = if p.0 == 0 then pops_rtp else found p.0
min_seq_of (some p) (some c) =
    if ltb p.0 c.0
    then if p.0 == 0 then pops_rtp else found p.0
    else if c.0 == 0
    then pops_rtcp
    else found c.0

module _ {B M Ch : Type 0} (buffers : Buffers B (ℕ × M)) where
  unfoldable pub makesure_min_seq : ℕ → Track B Ch → Option (Track B Ch × ℕ)
  unfolding min_seq_of
  makesure_min_seq zero t = none
  makesure_min_seq (suc fuel) t =
      elim (min_seq_of (front buffers t.rtp_cache) (front buffers t.rtcp_cache)) [
        | found n ↦ some (t, n)
        | pops_rtp ↦ makesure_min_seq fuel (pop_rtp buffers t)
        | pops_rtcp ↦ makesure_min_seq fuel (pop_rtcp buffers t)
      ]

  -- The loops that subtract the least number from every number.
  abbrev pub shift : ℕ → Track B Ch → Track B Ch
  shift offset t = record t {
    rtcp_cache = buffers.for_each (λ e. (sub32 e.0 offset, e.1)) t.rtcp_cache;
    rtp_cache = buffers.for_each (λ e. (sub32 e.0 offset, e.1)) t.rtp_cache;
    seq = sub32 t.seq offset;
  }

  abbrev pub cached : Track B Ch → ℕ
  cached t = length (buffers.contents t.rtp_cache) + length (buffers.contents t.rtcp_cache)

  -- The start of `on_track_msg`: when the numbers are used up, they start again.
  unfoldable pub renumber : Track B Ch → Option (Track B Ch)
  unfolding makesure_min_seq
  renumber t =
      if t.seq == 4294967295
      then elim (makesure_min_seq (suc (cached t)) t) [
        | none ↦ none
        | some r ↦ some (shift r.1 r.0)
      ]
      else some t

module _ {B M : Type 0} (buffers : Buffers B (ℕ × M)) where
  -- The counters after a message came to that cache.
  unfoldable pub account : (M → ℕ) → M → B → Counters → Option Counters
  unfolding receive drop
  account size m cache c =
      let received = receive (size m) c in
      let dropped : Option Counters = elim (front buffers cache) [
        | none ↦ none
        | some e ↦ some (drop (size e.1) received)
      ] in
      if full buffers cache then dropped else some received

-- The callbacks that are called, in order.
abbrev pub callbacks : {B M Ch : Type 0} → M → Bool → Track B Ch → List (Callback M)
callbacks m is_rtcp t =
    (if t.has_on_data then on_data m (not is_rtcp) ∷ [] else [])
    ++ (if t.has_on_stat then on_stat t.statistics ∷ [] else [])

module _ {B M Ch : Type 0} (channels : Channels Ch) (buffers : Buffers B (ℕ × M)) where
  -- The end of `on_track_msg`.
  abbrev pub push_rtp : M → Track B Ch → Track B Ch
  push_rtp m t = record t {
    seq = u32 (t.seq + 1);
    rtp_cache = buffers.push_back (u32 (t.seq + 1), m) t.rtp_cache;
    msg_notify = chan_maybe_write channels t.msg_notify;
  }

  abbrev pub push_rtcp : M → Track B Ch → Track B Ch
  push_rtcp m t = record t {
    seq = u32 (t.seq + 1);
    rtcp_cache = buffers.push_back (u32 (t.seq + 1), m) t.rtcp_cache;
    msg_notify = chan_maybe_write channels t.msg_notify;
  }

  -- What `on_track_msg` does after the renumbering.
  unfoldable pub store : (M → ℕ) → Bool → M → Track B Ch → Option (Track B Ch × List (Callback M))
  unfolding account chan_maybe_write
  store size true m t = elim (account buffers size m t.rtcp_cache t.statistics.rtcp) [
    | none ↦ none
    | some c ↦
        let u = record t { statistics = record (t.statistics) { rtcp = c } } in
        some (push_rtcp m u, callbacks m true u)
  ]
  store size false m t = elim (account buffers size m t.rtp_cache t.statistics.rtp) [
    | none ↦ none
    | some c ↦
        let u = record t { statistics = record (t.statistics) { rtp = c } } in
        some (push_rtp m u, callbacks m false u)
  ]

  -- `on_track_msg`; `rtc::IsRtcp` and the size of a message are arguments.
  unfoldable pub on_track_msg :
      (M → Bool) → (M → ℕ) → M → Track B Ch → Option (Track B Ch × List (Callback M))
  unfolding renumber store
  on_track_msg is_rtcp size m t = elim (renumber buffers t) [
    | none ↦ none
    | some u ↦ store size (is_rtcp m) m u
  ]

-- Which cache `receive_msg` takes from.
unfoldable pub chosen : {M : Type 0} → MsgType → Option (ℕ × M) → Option (ℕ × M) → Option Bool
chosen rtp_msg none c = none
chosen rtp_msg (some p) c = some false
chosen rtcp_msg p none = none
chosen rtcp_msg p (some c) = some true
chosen all_msgs none none = none
chosen all_msgs none (some c) = some true
chosen all_msgs (some p) none = some false
chosen all_msgs (some p) (some c) = if ltb c.0 p.0 then some true else some false

module _ {B M Ch : Type 0} (buffers : Buffers B (ℕ × M)) where
  -- The front of the cache that is chosen, taken out.
  abbrev pub took : Track B Ch → Option Bool → Track B Ch × Option (ℕ × M)
  took t none = (t, none)
  took t (some true) = (pop_rtcp buffers t, front buffers t.rtcp_cache)
  took t (some false) = (pop_rtp buffers t, front buffers t.rtp_cache)

  -- `receive_msg`: the message, if there is one; it throws when `prepare_track` was not called.
  unfoldable pub receive_msg : MsgType → Track B Ch → Option (Track B Ch × Option (ℕ × M))
  unfolding chosen
  receive_msg k t =
      if not t.inited
      then none
      else some (took t (chosen k (front buffers t.rtp_cache) (front buffers t.rtcp_cache)))
