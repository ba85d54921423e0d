-- ===== src/Client/Subscribe/Cleanup.antt =====
-- What `subscribe` leaves behind when it ends.
use conference_go_client.Common.{
  ℤ, Bool, true, false, Option, none, some, List, [], ◌∷◌, count, ◌≡◌, refl, codes, subst, sym,
  Bytes,
}
use conference_go_client.Sio.{Msg}
use conference_go_client.Client.Messages.{Description, Pattern, create_subscribe_message}
use conference_go_client.Client.Reading.{
  Getters, get_string_field, get_int_field, get_msg_object_array_field, to_description,
}
use conference_go_client.Client.Candidates.{add_cached}
use conference_go_client.Client.Scope.{
  Slot, media_track, local_description, sdp_event, subscribed_event, Action, sets_remote, Scope,
  act, listen, release,
}
use conference_go_client.Client.Subscribe.{
  PeerState, connected, failed, closed, Read, pending, canceled, got, World, Subscription, Outcome,
  prepared, unsubscribe_later, on_prepared, on_tracks, on_state, on_cached, on_takes,
  on_description, on_sdp, on_subscription, on_ids, on_subscribed, on_sub_id, on_ack, on_acquired,
  subscribe, wait_for_msg, is_text, is_int,
}
use conference_go_client.Client.Subscribe.Judging.{
  is_waiting, is_listens, is_forgets, is_releases, ends_released, emissions, emitted, Clean,
  Clean-Ended, judged_parts,
}

abbrev identified : Bool → Bytes → Msg → Scope
identified b sub_id msg = unsubscribe_later b sub_id (prepared msg)

abbrev agreed : Bool → Bytes → Msg → Scope
agreed b sub_id msg = release subscribed_event (identified b sub_id msg)

abbrev awaiting : Bool → Bytes → Msg → Scope
awaiting b sub_id msg = listen media_track (agreed b sub_id msg)

abbrev described : Bool → Bytes → Msg → Scope
described b sub_id msg = listen local_description (release sdp_event (awaiting b sub_id msg))

module _ (sio : Getters) (w : World) (msg : Msg) (id : Bytes) where
  prepared-Clean :
      (b c : Bool) (d : Description) (sub : Subscription)
      → Clean b (some id) msg (on_prepared sio w c sub (act (sets_remote d) (described b id msg)))
  unfolding on_prepared
  prepared-Clean true false d sub = (refl, refl)
  prepared-Clean false false d sub = (refl, refl)
  prepared-Clean true true d sub = (refl, refl)
  prepared-Clean false true d sub = (refl, refl)

  tracks-Clean :
      (b : Bool) (r : Read Unit) (d : Description) (sub : Subscription)
      → Clean b (some id) msg (on_tracks sio w r sub (act (sets_remote d) (described b id msg)))
  unfolding on_tracks
  tracks-Clean b pending d sub = tt
  tracks-Clean true canceled d sub = (refl, refl)
  tracks-Clean false canceled d sub = (refl, refl)
  tracks-Clean b (got u) d sub = prepared-Clean b w.prepares d sub

  state-Clean :
      (b : Bool) (r : Read PeerState) (d : Description) (sub : Subscription)
      → Clean b (some id) msg (on_state sio w r sub (act (sets_remote d) (described b id msg)))
  unfolding on_state
  state-Clean b pending d sub = tt
  state-Clean true canceled d sub = (refl, refl)
  state-Clean false canceled d sub = (refl, refl)
  state-Clean true (got failed) d sub = (refl, refl)
  state-Clean false (got failed) d sub = (refl, refl)
  state-Clean true (got closed) d sub = (refl, refl)
  state-Clean false (got closed) d sub = (refl, refl)
  state-Clean b (got connected) d sub = tracks-Clean b w.tracks_read d sub

  cached-Clean :
      (b c : Bool) (d : Description) (sub : Subscription)
      → Clean b (some id) msg (on_cached sio w c sub (act (sets_remote d) (described b id msg)))
  unfolding on_cached
  cached-Clean true false d sub = (refl, refl)
  cached-Clean false false d sub = (refl, refl)
  cached-Clean b true d sub = state-Clean b w.state_read d sub

  takes-Clean :
      (b c : Bool) (d : Description) (sub : Subscription)
      → Clean b (some id) msg (on_takes sio w c d sub (described b id msg))
  unfolding on_takes
  takes-Clean true false d sub = (refl, refl)
  takes-Clean false false d sub = (refl, refl)
  takes-Clean b true d sub = cached-Clean b (add_cached sio w.accepts w.cands []).0 d sub

  description-Clean :
      (b : Bool) (o : Option Description) (sub : Subscription)
      → Clean b (some id) msg (on_description sio w o sub (described b id msg))
  unfolding on_description
  description-Clean true none sub = (refl, refl)
  description-Clean false none sub = (refl, refl)
  description-Clean b (some d) sub = takes-Clean b w.takes d sub

  sdp-Clean :
      (b : Bool) (r : Read Msg) (sub : Subscription)
      → Clean b (some id) msg (on_sdp sio w r sub (awaiting b id msg))
  unfolding on_sdp
  sdp-Clean b pending sub = tt
  sdp-Clean true canceled sub = (refl, refl)
  sdp-Clean false canceled sub = (refl, refl)
  sdp-Clean b (got m) sub = description-Clean b (to_description sio m) sub

  subscription-Clean :
      (b : Bool) (ts : List Msg) (n : ℤ) (pub_id : Bytes)
      → Clean b (some id) msg (on_subscription sio w ts n id pub_id (agreed b id msg))
  unfolding on_subscription
  subscription-Clean true [] n pub_id = (refl, refl)
  subscription-Clean false [] n pub_id = (refl, refl)
  subscription-Clean b (t ∷ ts) n pub_id =
      sdp-Clean b (wait_for_msg (λ m. is_int n (get_int_field sio m (codes "mid"))) w.sdp_reads)
        (record { sub_id = id; pub_id = pub_id; tracks = t ∷ ts })

  ids-Clean :
      (b : Bool) (o : Option ℤ) (p : Option Bytes) (m : Msg)
      → Clean b (some id) msg (on_ids sio w o p id m (agreed b id msg))
  unfolding on_ids
  ids-Clean true none q m = (refl, refl)
  ids-Clean false none q m = (refl, refl)
  ids-Clean true (some n) none m = (refl, refl)
  ids-Clean false (some n) none m = (refl, refl)
  ids-Clean b (some n) (some p) m =
      subscription-Clean b (get_msg_object_array_field sio m (codes "tracks")) n p

  subscribed-Clean :
      (b : Bool) (r : Read Msg)
      → Clean b (some id) msg (on_subscribed sio w r id (identified b id msg))
  unfolding on_subscribed
  subscribed-Clean b pending = tt
  subscribed-Clean true canceled = (refl, refl)
  subscribed-Clean false canceled = (refl, refl)
  subscribed-Clean b (got m) =
      ids-Clean b (get_int_field sio m (codes "sdpId")) (get_string_field sio m (codes "pubId")) m

-- The id that the server's answer gave to the subscription.
abbrev pub known_id : Getters → Read Msg → Option Bytes
known_id sio (got m) = get_string_field sio m (codes "id")
known_id sio r = none

module _ (sio : Getters) (w : World) (msg : Msg) where
  sub_id-Clean : (o : Option Bytes) → Clean w.opened o msg (on_sub_id sio w o (prepared msg))
  unfolding on_sub_id
  sub_id-Clean none = (refl, refl)
  sub_id-Clean (some id) =
      subscribed-Clean sio w msg id w.opened
        (wait_for_msg (λ m. is_text id (get_string_field sio m (codes "subId"))) w.subscribed_reads)

  ack-Clean : (r : Read Msg) → Clean w.opened (known_id sio r) msg (on_ack sio w r (prepared msg))
  unfolding on_ack
  ack-Clean pending = tt
  ack-Clean canceled = (refl, refl)
  ack-Clean (got m) = sub_id-Clean (get_string_field sio m (codes "id"))

-- When `subscribe` of an initialised client ends after it got the mutex, with a subscription, with a
-- null pointer or by an exception: every callback that it set is cleared as often as it was set, the
-- mutex is released once and last, and the event "subscribe" is emitted with the request and then,
-- exactly if the subscription failed with its id known and the socket is open, with the message that
-- ends the subscription of that id; nothing else is emitted.
pub subscribe-clean :
    (sio : Getters) (w : World) (pattern : Pattern) (req_types : List Bytes) (slot : Slot)
    → w.inited ≡ true
    → w.acquired ≡ some true
    → is_waiting (subscribe sio w pattern req_types).0 ≡ false
    → let r = subscribe sio w pattern req_types in
      (count (is_listens slot) r.1 ≡ count (is_forgets slot) r.1)
      × (count is_releases r.1 ≡ 1)
      × (ends_released r.1 ≡ true)
      × (emissions r.1
          ≡ emitted w.opened (known_id sio w.ack) (create_subscribe_message pattern req_types) r.0)
unfolding subscribe on_acquired
subscribe-clean sio w pattern req_types slot hi ha hw =
    let msg = create_subscribe_message pattern req_types in
    let r : Outcome × List Action = subscribe sio w pattern req_types in
    let here : r ≡ on_ack sio w w.ack (prepared msg) = cc (hi, ha) in
    let all =
      subst (λ (q : Outcome × List Action). Clean w.opened (known_id sio w.ack) msg q) (sym here)
        (ack-Clean sio w msg w.ack) in
    let ended = Clean-Ended w.opened (known_id sio w.ack) msg r hw all in
    let parts = judged_parts r.1 slot ended.0 in (parts.0, parts.1, parts.2, ended.1)
