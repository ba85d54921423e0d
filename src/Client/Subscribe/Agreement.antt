-- ===== src/Client/Subscribe/Agreement.antt =====
-- What a subscription that `subscribe` returns rests on.
use conference_go_client.Common.{
  ℤ, Bool, Bool-cases, true, false, Option, none, some, List, [], ◌∷◌, ◌≡◌, ◌⊎◌, refl, inl, inr,
  codes, subst, sym, ap, ◌∙◌, Bytes,
}
use conference_go_client.Sio.{Msg}
use conference_go_client.Client.Messages.{Pattern, create_subscribe_message}
use conference_go_client.Client.Reading.{
  Getters, get_string_field, get_int_field, get_msg_object_array_field,
}
use conference_go_client.Client.Scope.{Scope, subscribed_event, media_track, listen, release}
use conference_go_client.Client.Subscribe.{
  Read, pending, canceled, got, World, Subscription, subscribed, prepared, unsubscribe_later,
  on_subscription, on_ids, on_subscribed, on_sub_id, on_ack, on_acquired, subscribe, wait_for_msg,
  is_text, is_int,
}
use conference_go_client.Client.Subscribe.Negotiation.{
  Taken, wait_for_msg-Taken, Negotiated, sdp-success,
}

pub record Agreed (sio : Getters) (w : World) (sub : Subscription) : Type 0 where
  pub ack : Msg
  pub ack_comes : w.ack ≡ got ack
  pub sub_id_is : get_string_field sio ack (codes "id") ≡ some sub.sub_id
  pub announcement : Msg
  pub announcement_taken :
      Taken
        (λ m. is_text sub.sub_id (get_string_field sio m (codes "subId")))
        w.subscribed_reads
        announcement
  pub sdp_id : ℤ
  pub sdp_id_is : get_int_field sio announcement (codes "sdpId") ≡ some sdp_id
  pub pub_id_is : get_string_field sio announcement (codes "pubId") ≡ some sub.pub_id
  pub tracks_are : get_msg_object_array_field sio announcement (codes "tracks") ≡ sub.tracks
  pub media : (sub.tracks ≡ []) ⊎ Negotiated sio w sdp_id

module _ (sio : Getters) (w : World) (sub : Subscription) where
  subscription-success :
      (ts : List Msg) (n : ℤ) (id pub_id : Bytes) (s : Scope)
      → (on_subscription sio w ts n id pub_id s).0 ≡ subscribed sub
      → (id ≡ sub.sub_id)
        × (pub_id ≡ sub.pub_id)
        × (ts ≡ sub.tracks)
        × ((sub.tracks ≡ []) ⊎ Negotiated sio w n)
  unfolding on_subscription
  subscription-success [] n id pub_id s h =
      let s1 : Subscription = record { sub_id = id; pub_id = pub_id; tracks = [] } in
      let e : s1 ≡ sub = cc h in
      (
        ap (λ (x : Subscription). x.sub_id) e,
        ap (λ (x : Subscription). x.pub_id) e,
        ap (λ (x : Subscription). x.tracks) e,
        inl (sym (ap (λ (x : Subscription). x.tracks) e)),
      )
  subscription-success (t ∷ ts) n id pub_id s h =
      let s1 : Subscription = record { sub_id = id; pub_id = pub_id; tracks = t ∷ ts } in
      let cond : Msg → Bool = λ m. is_int n (get_int_field sio m (codes "mid")) in
      let r =
        sdp-success sio w sub n (wait_for_msg cond w.sdp_reads) s1 (listen media_track s) refl h in
      (
        ap (λ (x : Subscription). x.sub_id) r.0,
        ap (λ (x : Subscription). x.pub_id) r.0,
        ap (λ (x : Subscription). x.tracks) r.0,
        inr r.1,
      )

  announced-success :
      (m : Msg) (id : Bytes) (o : Option ℤ) (p : Option Bytes) (s : Scope)
      → get_int_field sio m (codes "sdpId") ≡ o
      → get_string_field sio m (codes "pubId") ≡ p
      → (on_ids sio w o p id m s).0 ≡ subscribed sub
      → (id ≡ sub.sub_id)
        × (n : ℤ) × (get_int_field sio m (codes "sdpId") ≡ some n)
        × (get_string_field sio m (codes "pubId") ≡ some sub.pub_id)
        × (get_msg_object_array_field sio m (codes "tracks") ≡ sub.tracks)
        × ((sub.tracks ≡ []) ⊎ Negotiated sio w n)
  unfolding on_ids
  announced-success m id none p s eo ep h = absurd (cc h)
  announced-success m id (some n) none s eo ep h = absurd (cc h)
  announced-success m id (some n) (some p) s eo ep h =
      let r = subscription-success (get_msg_object_array_field sio m (codes "tracks")) n id p s h in
      (r.0, n, eo, ep ∙ ap some r.1, r.2, r.3)

  known-success :
      (ack : Msg) (id : Bytes) (r : Read Msg) (s : Scope)
      → w.ack ≡ got ack
      → get_string_field sio ack (codes "id") ≡ some id
      → wait_for_msg (λ m. is_text id (get_string_field sio m (codes "subId"))) w.subscribed_reads
        ≡ r
      → (on_subscribed sio w r id s).0 ≡ subscribed sub
      → Agreed sio w sub
  unfolding on_subscribed
  known-success ack id pending s ea ei e h = absurd (cc h)
  known-success ack id canceled s ea ei e h = absurd (cc h)
  known-success ack id (got m) s ea ei e h =
      let taken =
        wait_for_msg-Taken (λ x. is_text id (get_string_field sio x (codes "subId")))
          w.subscribed_reads m e in
      let r =
        announced-success m id (get_int_field sio m (codes "sdpId"))
          (get_string_field sio m (codes "pubId")) (release subscribed_event s) refl refl h in
      record {
        ack = ack;
        ack_comes = ea;
        sub_id_is = ei ∙ ap some r.0;
        announcement = m;
        announcement_taken =
            subst
              (λ (b : Bytes).
                Taken (λ x. is_text b (get_string_field sio x (codes "subId"))) w.subscribed_reads
                  m)
              r.0 taken;
        sdp_id = r.1;
        sdp_id_is = r.2;
        pub_id_is = r.3;
        tracks_are = r.4;
        media = r.5;
      }

  sub_id-success :
      (ack : Msg) (o : Option Bytes) (s : Scope)
      → w.ack ≡ got ack
      → get_string_field sio ack (codes "id") ≡ o
      → (on_sub_id sio w o s).0 ≡ subscribed sub
      → Agreed sio w sub
  unfolding on_sub_id
  sub_id-success ack none s ea ei h = absurd (cc h)
  sub_id-success ack (some id) s ea ei h =
      known-success ack id
        (wait_for_msg (λ m. is_text id (get_string_field sio m (codes "subId"))) w.subscribed_reads)
        (unsubscribe_later w.opened id s) ea ei refl h

  ack-success :
      (r : Read Msg) (s : Scope)
      → w.ack ≡ r
      → (on_ack sio w r s).0 ≡ subscribed sub
      → Agreed sio w sub
  unfolding on_ack
  ack-success pending s e h = absurd (cc h)
  ack-success canceled s e h = absurd (cc h)
  ack-success (got m) s e h = sub_id-success m (get_string_field sio m (codes "id")) s e refl h

  acquired-success :
      (o : Option Bool) (msg : Msg)
      → (on_acquired sio w o msg).0 ≡ subscribed sub
      → Agreed sio w sub
  unfolding on_acquired
  acquired-success none msg h = absurd (cc h)
  acquired-success (some false) msg h = absurd (cc h)
  acquired-success (some true) msg h = ack-success w.ack (prepared msg) refl h

  -- A subscription that `subscribe` returns has the id of the server's acknowledgement, and the
  -- publication and the tracks of the first announcement for that id among the reads of "subscribed".
  -- Unless it has no tracks, the first offer among the reads of "sdp" with the number of that
  -- announcement holds a description, the peer took it and every cached candidate and is connected, the
  -- tracks were taken to be complete, and all of them were prepared. No read before those two messages
  -- was cancelled.
  pub subscribe-Agreed :
      (pattern : Pattern) (req_types : List Bytes)
      → (subscribe sio w pattern req_types).0 ≡ subscribed sub
      → Agreed sio w sub
  unfolding subscribe
  subscribe-Agreed pattern req_types h = elim (Bool-cases w.inited) [
    | inl e ↦ acquired-success w.acquired (create_subscribe_message pattern req_types) (cc (e, h))
    | inr e ↦ absurd (cc (e, h))
  ]
