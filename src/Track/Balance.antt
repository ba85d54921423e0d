-- ===== src/Track/Balance.antt =====
-- src/impl/track.cpp and src/public/cfgo/track.hpp: the packet counters against the caches.
use conference_go_client.Common.{
  u32, if_lem, ℕ, suc, ◌+◌, ◌<◌, ◌≡◌, refl, sym, subst, ap, ◌∙◌, Bool, true, false, Option, none,
  some, List, [], ◌∷◌, length, length-append, arith, if◌then◌else◌, ==_iff,
}
use conference_go_client.Channel.{Channels}
use conference_go_client.Buffer.{Buffers, front, full, head, tail}
use conference_go_client.Track.{
  Track, Counters, Callback, callbacks, account, receive, drop, push_rtp, push_rtcp, store,
  on_track_msg,
}
use conference_go_client.Track.Sequence.{Inv, renumber_keeps}

-- What was received and neither dropped nor still there is the same in both.
abbrev pub Same : Counters → ℕ → Counters → ℕ → Type 0
Same c n d k = d.receives_packets + c.drops_packets + n ≡ c.receives_packets + d.drops_packets + k

module _ {X : Type 0} where
  length-tail :
      (xs : List X)
      → 0 < length xs
      → (x : X) × (head xs ≡ some x) × (suc (length (tail xs)) ≡ length xs)
  length-tail [] lt = absurd (omega (arith, lt))
  length-tail (x ∷ xs) lt = (x, refl, refl)

module _ {B M : Type 0} (buffers : Buffers B (ℕ × M)) where
  abbrev Balanced : Counters → B → (ℕ × M) → Option Counters → Type 0
  Balanced c b e o =
      (d : Counters) × (o ≡ some d)
      × Same c (length (buffers.contents b)) d (length (buffers.contents (buffers.push_back e b)))

  account-Balanced :
      (size : M → ℕ) (m : M) (e : ℕ × M) (b : B) (c : Counters)
      → 0 < buffers.capacity b
      → c.receives_packets < 4294967295
      → c.drops_packets < 4294967295
      → Balanced c b e (account buffers size m b c)
  unfolding account receive drop
  account-Balanced size m e b c room lr ld =
      let xs = buffers.contents b in
      let received = receive (size m) c in
      let dropped : Option (ℕ × M) → Option Counters =
        λ o. elim o [ none ↦ none | some f ↦ some (drop (size f.1) received) ] in
      let after : length (buffers.contents (buffers.push_back e b))
          ≡ length (if full buffers b then tail xs else xs) + 1 =
        ap length (buffers.push_contents e b room)
        ∙ length-append (if full buffers b then tail xs else xs) (e ∷ []) in
      if_lem (Balanced c b e) (full buffers b) (dropped (front buffers b)) (some received)
        (λ p.
          let f =
            length-tail xs (omega (arith, (==_iff (length xs) (buffers.capacity b)).0 p, room)) in
          subst (λ o. Balanced c b e (dropped o)) (sym f.1)
            (drop (size f.0.1) received, refl, ground (arith, after, p, f.2, lr, ld)))
        (λ p. (received, refl, ground (arith, after, p, lr)))

module _ {B M Ch : Type 0} (channels : Channels Ch) (buffers : Buffers B (ℕ × M)) where
  -- The same for both kinds of message.
  abbrev pub Accounted : Track B Ch → Option (Track B Ch × List (Callback M)) → Type 0
  Accounted t o =
      (r : Track B Ch × List (Callback M)) × (o ≡ some r)
      × Same t.statistics.rtp (length (buffers.contents t.rtp_cache)) r.0.statistics.rtp
          (length (buffers.contents r.0.rtp_cache))
      × Same t.statistics.rtcp (length (buffers.contents t.rtcp_cache)) r.0.statistics.rtcp
          (length (buffers.contents r.0.rtcp_cache))

  store-Accounted :
      (size : M → ℕ) (is_rtcp : Bool) (m : M) (t : Track B Ch)
      → Inv buffers t
      → t.statistics.rtp.receives_packets < 4294967295
      → t.statistics.rtp.drops_packets < 4294967295
      → t.statistics.rtcp.receives_packets < 4294967295
      → t.statistics.rtcp.drops_packets < 4294967295
      → Accounted t (store channels buffers size is_rtcp m t)
  unfolding store
  store-Accounted size true m t i pr pd cr cd =
      let a =
        account-Balanced buffers size m (u32 (t.seq + 1), m) t.rtcp_cache t.statistics.rtcp
          i.rtcp_room cr cd in
      subst
        (λ o. Accounted t (elim o [
          | none ↦ none
          | some c ↦
              let v = record t { statistics = record (t.statistics) { rtcp = c } } in
              some (push_rtcp channels buffers m v, callbacks m true v)
        ]))
        (sym a.1)
        (
          let u = record t { statistics = record (t.statistics) { rtcp = a.0 } } in
              (push_rtcp channels buffers m u, callbacks m true u),
          refl,
          omega arith,
          a.2,
        )
  store-Accounted size false m t i pr pd cr cd =
      let a =
        account-Balanced buffers size m (u32 (t.seq + 1), m) t.rtp_cache t.statistics.rtp i.rtp_room
          pr pd in
      let u = record t { statistics = record (t.statistics) { rtp = a.0 } } in
      subst
        (λ o. Accounted t (elim o [
          | none ↦ none
          | some c ↦
              let v = record t { statistics = record (t.statistics) { rtp = c } } in
              some (push_rtp channels buffers m v, callbacks m false v)
        ]))
        (sym a.1) ((push_rtp channels buffers m u, callbacks m false u), refl, a.2, omega arith)

  -- On a track whose caches have room and that has numbers left, with packet counters that are not
  -- at their end: `on_track_msg` returns, and for RTP and for RTCP the packets received are still
  -- those dropped, those in the cache and as many others as before.
  pub on_track_msg-Accounted :
      (is_rtcp : M → Bool) (size : M → ℕ) (m : M) (t : Track B Ch)
      → Inv buffers t
      → t.seq < 4294967295
      → t.statistics.rtp.receives_packets < 4294967295
      → t.statistics.rtp.drops_packets < 4294967295
      → t.statistics.rtcp.receives_packets < 4294967295
      → t.statistics.rtcp.drops_packets < 4294967295
      → Accounted t (on_track_msg channels buffers is_rtcp size m t)
  unfolding on_track_msg
  on_track_msg-Accounted is_rtcp size m t i lt pr pd cr cd =
      subst
        (λ o.
          Accounted t
            (elim o [ none ↦ none | some u ↦ store channels buffers size (is_rtcp m) m u ]))
        (sym (renumber_keeps buffers t lt)) (store-Accounted size (is_rtcp m) m t i pr pd cr cd)
