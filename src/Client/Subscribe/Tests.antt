-- ===== src/Client/Subscribe/Tests.antt =====
-- Concrete courses of `Client::subscribe`.
use Prim.Native.String.{String}
use conference_go_client.Common.{
  ℕ, pos, true, false, none, some, List, [], ◌∷◌, count, ◌≡◌, refl, ap, codes,
}
use conference_go_client.Sio.{Msg, string, integer, array, object, Fields, end, field, nil, cons}
use conference_go_client.Client.Messages.{create_subscribe_message, Pattern, pattern_of, no_more}
use conference_go_client.Client.Reading.{to_description}
use conference_go_client.Client.Tests.{plain}
use conference_go_client.Client.Scope.{Action, sdp_event}
use conference_go_client.Client.Subscribe.{
  World, canceled, got, connected, Subscription, subscribed, threw, Outcome, subscribe,
  wait_for_msg, on_acquired, on_ack, on_sub_id, on_subscribed, on_ids, on_subscription, on_sdp,
  on_description, on_takes, on_cached, on_state, on_tracks, on_prepared,
}
use conference_go_client.Client.Subscribe.Judging.{
  is_waiting, is_listens, is_forgets, is_releases, ends_released, emissions, emitted,
}
use conference_go_client.Client.Subscribe.Cleanup.{known_id, subscribe-clean}
use conference_go_client.Client.Subscribe.Progress.{Answered, subscribe-ends}
use conference_go_client.Client.Subscribe.Agreement.{Agreed, subscribe-Agreed}

abbrev everything : Pattern
everything = pattern_of 0 [] no_more

abbrev with_text : String → String → Fields → Fields
with_text k v fs = field (codes k) (string (codes v)) fs

abbrev acknowledgement : Msg
acknowledgement = object (with_text "id" "s" end)

abbrev announcement : Msg
announcement =
    object
      (with_text "subId" "s" (with_text "pubId" "p" (field (codes "sdpId") (integer (pos 1)) end)))

abbrev other : Msg
other = object (with_text "subId" "x" end)

abbrev track : Msg
track = object (with_text "type" "video" end)

abbrev announcement_of_one : Msg
announcement_of_one = object (
    with_text "subId" "s" (
      with_text "pubId" "p" (
        field (codes "sdpId") (integer (pos 1))
          (field (codes "tracks") (array (cons track nil)) end))))

abbrev offer_of : ℕ → Msg
offer_of n =
    object
      (with_text "type" "offer" (with_text "sdp" "v=0" (field (codes "mid") (integer (pos n)) end)))

-- A subscription of one track, whose announcement and offer come after those of others.
abbrev world : World
world = record {
  inited = true;
  acquired = some true;
  ack = got acknowledgement;
  subscribed_reads = some other ∷ (some announcement_of_one ∷ (none ∷ []));
  sdp_reads = some (offer_of 2) ∷ (some (offer_of 1) ∷ []);
  takes = true;
  accepts = λ c. true;
  cands = [];
  state_read = got connected;
  tracks_read = got tt;
  prepares = true;
  opened = true;
}

-- The same for a server that announces no tracks.
abbrev trackless : World
trackless = record world { subscribed_reads = some announcement ∷ [] }

abbrev subscription : Subscription
subscription = record { sub_id = codes "s"; pub_id = codes "p"; tracks = track ∷ [] }

world_subscribes : (subscribe plain world everything []).0 ≡ subscribed subscription
unfolding subscribe on_acquired on_ack on_sub_id on_subscribed on_ids on_subscription wait_for_msg
    on_sdp on_description to_description on_takes on_cached on_state on_tracks on_prepared
world_subscribes = refl

trackless_subscribes :
    (subscribe plain trackless everything []).0 ≡ subscribed (record subscription { tracks = [] })
unfolding subscribe on_acquired on_ack on_sub_id on_subscribed on_ids on_subscription wait_for_msg
trackless_subscribes = refl

-- A subscription whose tracks cannot be prepared.
abbrev unprepared : World
unprepared = record world { prepares = false }

unprepared_throws : (subscribe plain unprepared everything []).0 ≡ threw
unfolding subscribe on_acquired on_ack on_sub_id on_subscribed on_ids on_subscription wait_for_msg
    on_sdp on_description to_description on_takes on_cached on_state on_tracks on_prepared
unprepared_throws = refl

abbrev result : Outcome × List Action
result = subscribe plain unprepared everything []

subscribe-clean_example :
    (count (is_listens sdp_event) result.1 ≡ count (is_forgets sdp_event) result.1)
    × (count is_releases result.1 ≡ 1)
    × (ends_released result.1 ≡ true)
    × (emissions result.1
        ≡ emitted true
            (known_id plain (got acknowledgement))
            (create_subscribe_message everything [])
            result.0)
subscribe-clean_example =
    subscribe-clean plain unprepared everything [] sdp_event refl refl
      (ap is_waiting unprepared_throws)

subscribe-Agreed_example : Agreed plain world subscription
subscribe-Agreed_example = subscribe-Agreed plain world subscription everything [] world_subscribes

abbrev gone : World
gone = record world {
  subscribed_reads = some other ∷ (none ∷ []);
  sdp_reads = none ∷ [];
  state_read = canceled;
  tracks_read = canceled;
}

gone-Answered : Answered gone
gone-Answered = record {
  subscribed_end = refl;
  sdp_end = refl;
  state_end = refl;
  tracks_end = refl;
}

subscribe-ends_example : is_waiting (subscribe plain gone everything []).0 ≡ false
subscribe-ends_example = subscribe-ends plain gone gone-Answered everything [] refl refl
