-- ===== src/Track/Messages.antt =====
-- src/impl/track.cpp: every message that comes to a track is kept until it is taken or makes room,
-- and they are taken in the order of their numbers.
use conference_go_client.Common.{
  u32, if_lem, ℕ, suc, ◌+◌, ◌<◌, ◌≡◌, refl, sym, subst, Bool, true, false, Option, none, some, List,
  [], ◌∷◌, ◌++◌, ◌∙◌, ap, length, arith, if◌then◌else◌, ==_iff,
}
use conference_go_client.Channel.{Channels}
use conference_go_client.Buffer.{Buffers, head-some, front, full, tail}
use conference_go_client.Track.{
  Track, Callback, Counters, account, receive, drop, callbacks, push_rtp, push_rtcp, store,
  on_track_msg,
}
use conference_go_client.Track.Sequence.{Rising, Rising-append, Rising-tail, Inv, renumber-Ready}
use conference_go_client.Track.Renumbering.{Renumbered, renumber-Renumbered}

module _ {M : Type 0} where
  Rising-wider : (lo hi : ℕ) (es : List (ℕ × M)) → Rising lo hi es → Rising lo (suc hi) es
  Rising-wider lo hi [] h = tt
  Rising-wider lo hi (e ∷ es) h = (h.0, omega (arith, h.1), Rising-wider (suc e.0) hi es h.2)

abbrev Returned : Option Counters → Type 0
Returned o = (d : Counters) × (o ≡ some d)

module _ {B M : Type 0} (buffers : Buffers B (ℕ × M)) where
  -- A message with the next number at the back of a cache.
  push-Rising :
      (n : ℕ) (m : M) (b : B)
      → 0 < buffers.capacity b
      → Rising 0 n (buffers.contents b)
      → Rising 0 (suc n) (buffers.contents (buffers.push_back (suc n, m) b))
  push-Rising n m b room h =
      subst (Rising 0 (suc n)) (sym (buffers.push_contents (suc n, m) b room)) (
        Rising-append 0 n (if full buffers b then tail (buffers.contents b) else buffers.contents b)
          m (omega arith)
          (if_lem (Rising 0 n) (full buffers b) (tail (buffers.contents b)) (buffers.contents b)
            (λ e. Rising-tail 0 n (buffers.contents b) h) (λ e. h)))

  -- The counters come out, since a cache that is full has a front.
  account_returns :
      (size : M → ℕ) (m : M) (b : B) (c : Counters)
      → 0 < buffers.capacity b
      → Returned (account buffers size m b c)
  unfolding account
  account_returns size m b c room =
      let received = receive (size m) c in
      let dropped : Option (ℕ × M) → Option Counters =
        λ o. elim o [ none ↦ none | some e ↦ some (drop (size e.1) received) ] in
      if_lem Returned (full buffers b) (dropped (front buffers b)) (some received)
        (λ e.
          let f = head-some (buffers.contents b) (
            omega (arith, (==_iff (length (buffers.contents b)) (buffers.capacity b)).0 e, room)) in
          subst (λ o. Returned (dropped o)) (sym f.1) (drop (size f.0.1) received, refl))
        (λ e. (received, refl))

module _ {B M Ch : Type 0} (channels : Channels Ch) (buffers : Buffers B (ℕ × M)) where
  push_rtp-Inv :
      (m : M) (t : Track B Ch)
      → Inv buffers t
      → t.seq < 4294967295
      → Inv buffers (push_rtp channels buffers m t)
  push_rtp-Inv m t i lt =
      let s : suc t.seq ≡ u32 (t.seq + 1) = ground (arith, lt) in
      record {
        rtp_rises =
            subst (λ n. Rising 0 n (buffers.contents (buffers.push_back (n, m) t.rtp_cache))) s
              (push-Rising buffers t.seq m t.rtp_cache i.rtp_room i.rtp_rises);
        rtcp_rises =
            subst (λ n. Rising 0 n (buffers.contents t.rtcp_cache)) s
              (Rising-wider 0 t.seq (buffers.contents t.rtcp_cache) i.rtcp_rises);
        seq_fits = omega (arith, s, lt);
        rtp_room =
            subst (λ n. 0 < n) (sym (buffers.push_capacity (u32 (t.seq + 1), m) t.rtp_cache))
              i.rtp_room;
        rtcp_room = i.rtcp_room;
      }

  push_rtcp-Inv :
      (m : M) (t : Track B Ch)
      → Inv buffers t
      → t.seq < 4294967295
      → Inv buffers (push_rtcp channels buffers m t)
  push_rtcp-Inv m t i lt =
      let s : suc t.seq ≡ u32 (t.seq + 1) = ground (arith, lt) in
      record {
        rtcp_rises =
            subst (λ n. Rising 0 n (buffers.contents (buffers.push_back (n, m) t.rtcp_cache))) s
              (push-Rising buffers t.seq m t.rtcp_cache i.rtcp_room i.rtcp_rises);
        rtp_rises =
            subst (λ n. Rising 0 n (buffers.contents t.rtp_cache)) s
              (Rising-wider 0 t.seq (buffers.contents t.rtp_cache) i.rtp_rises);
        seq_fits = omega (arith, s, lt);
        rtcp_room =
            subst (λ n. 0 < n) (sym (buffers.push_capacity (u32 (t.seq + 1), m) t.rtcp_cache))
              i.rtcp_room;
        rtp_room = i.rtp_room;
      }

  -- The entries that a push leaves before the one it adds.
  abbrev kept : B → List (ℕ × M)
  kept b = if full buffers b then tail (buffers.contents b) else buffers.contents b

  -- The message is at the back of the cache of its kind with the next number, behind all that was
  -- there but the front of a full cache; the other cache is as before.
  abbrev pub Pushed : Bool → M → Track B Ch → Track B Ch → Type 0
  Pushed true m u v =
      (buffers.contents v.rtcp_cache ≡ kept u.rtcp_cache ++ ((suc u.seq, m) ∷ []))
      × (buffers.contents v.rtp_cache ≡ buffers.contents u.rtp_cache)
  Pushed false m u v =
      (buffers.contents v.rtp_cache ≡ kept u.rtp_cache ++ ((suc u.seq, m) ∷ []))
      × (buffers.contents v.rtcp_cache ≡ buffers.contents u.rtcp_cache)

  abbrev pub StoredIn : Bool → M → Track B Ch → Option (Track B Ch × List (Callback M)) → Type 0
  StoredIn is_rtcp m u o =
      (r : Track B Ch × List (Callback M)) × (o ≡ some r)
      × Inv buffers r.0
      × (r.0.seq ≡ suc u.seq)
      × Pushed is_rtcp m u r.0

  -- Stored in the track that the renumbering leaves.
  abbrev pub Stored : Bool → M → Track B Ch → Option (Track B Ch × List (Callback M)) → Type 0
  Stored is_rtcp m t o = (u : Track B Ch) × Renumbered buffers t u × StoredIn is_rtcp m u o

  push_rtp-Pushed :
      (m : M) (t : Track B Ch)
      → Inv buffers t
      → t.seq < 4294967295
      → Pushed false m t (push_rtp channels buffers m t)
  push_rtp-Pushed m t i lt =
      let s : u32 (t.seq + 1) ≡ suc t.seq = ground (arith, lt) in
      (
        buffers.push_contents (u32 (t.seq + 1), m) t.rtp_cache i.rtp_room
            ∙ ap (λ (n : ℕ). kept t.rtp_cache ++ ((n, m) ∷ [])) s,
        refl,
      )

  push_rtcp-Pushed :
      (m : M) (t : Track B Ch)
      → Inv buffers t
      → t.seq < 4294967295
      → Pushed true m t (push_rtcp channels buffers m t)
  push_rtcp-Pushed m t i lt =
      let s : u32 (t.seq + 1) ≡ suc t.seq = ground (arith, lt) in
      (
        buffers.push_contents (u32 (t.seq + 1), m) t.rtcp_cache i.rtcp_room
            ∙ ap (λ (n : ℕ). kept t.rtcp_cache ++ ((n, m) ∷ [])) s,
        refl,
      )

  with_rtp :
      (t : Track B Ch) (c : Counters)
      → Inv buffers t
      → Inv buffers (record t { statistics = record (t.statistics) { rtp = c } })
  with_rtp t c i = record {
    rtp_rises = i.rtp_rises;
    rtcp_rises = i.rtcp_rises;
    seq_fits = i.seq_fits;
    rtp_room = i.rtp_room;
    rtcp_room = i.rtcp_room;
  }

  with_rtcp :
      (t : Track B Ch) (c : Counters)
      → Inv buffers t
      → Inv buffers (record t { statistics = record (t.statistics) { rtcp = c } })
  with_rtcp t c i = record {
    rtp_rises = i.rtp_rises;
    rtcp_rises = i.rtcp_rises;
    seq_fits = i.seq_fits;
    rtp_room = i.rtp_room;
    rtcp_room = i.rtcp_room;
  }

  store-StoredIn :
      (size : M → ℕ) (is_rtcp : Bool) (m : M) (t : Track B Ch)
      → Inv buffers t
      → t.seq < 4294967295
      → StoredIn is_rtcp m t (store channels buffers size is_rtcp m t)
  unfolding store
  store-StoredIn size true m t i lt =
      let a = account_returns buffers size m t.rtcp_cache t.statistics.rtcp i.rtcp_room in
      let u = record t { statistics = record (t.statistics) { rtcp = a.0 } } in
      subst
        (λ o. StoredIn true m t (elim o [
          | none ↦ none
          | some c ↦
              let v = record t { statistics = record (t.statistics) { rtcp = c } } in
              some (push_rtcp channels buffers m v, callbacks m true v)
        ]))
        (sym a.1)
        (
          (push_rtcp channels buffers m u, callbacks m true u),
          refl,
          push_rtcp-Inv m u (with_rtcp t a.0 i) lt,
          ground (arith, lt),
          push_rtcp-Pushed m t i lt,
        )
  store-StoredIn size false m t i lt =
      let a = account_returns buffers size m t.rtp_cache t.statistics.rtp i.rtp_room in
      let u = record t { statistics = record (t.statistics) { rtp = a.0 } } in
      subst
        (λ o. StoredIn false m t (elim o [
          | none ↦ none
          | some c ↦
              let v = record t { statistics = record (t.statistics) { rtp = c } } in
              some (push_rtp channels buffers m v, callbacks m false v)
        ]))
        (sym a.1)
        (
          (push_rtp channels buffers m u, callbacks m false u),
          refl,
          push_rtp-Inv m u (with_rtp t a.0 i) lt,
          ground (arith, lt),
          push_rtp-Pushed m t i lt,
        )

  -- On a track whose caches have room and hold rising numbers: `on_track_msg` returns for every
  -- message. While there are numbers left, all messages keep theirs; else one number is first
  -- subtracted from all numbers, and only messages of number 0 at the front of a cache are lost. The
  -- message is then at the back of the cache of its kind, with the next number, which did not wrap;
  -- that cache lost its front if it was full, the other is left as it is, and the numbers in both
  -- caches rise again, up to the new one.
  pub on_track_msg-Inv :
      (is_rtcp : M → Bool) (size : M → ℕ) (m : M) (t : Track B Ch)
      → Inv buffers t
      → Stored (is_rtcp m) m t (on_track_msg channels buffers is_rtcp size m t)
  unfolding on_track_msg
  on_track_msg-Inv is_rtcp size m t i =
      let r = renumber-Ready buffers t i in
      (
        r.0,
        renumber-Renumbered buffers t r.0 r.1,
        subst
            (λ o.
              StoredIn (is_rtcp m) m r.0
                (elim o [ none ↦ none | some u ↦ store channels buffers size (is_rtcp m) m u ]))
            (sym r.1) (store-StoredIn size (is_rtcp m) m r.0 r.2 r.3),
      )
