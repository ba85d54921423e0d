-- ===== src/Client/Subscribe.antt =====
-- src/impl/client.cpp, `Client::subscribe`: what it does for every course of the answers of the server
-- and of the peer. A function here is the code from one wait to the next; its first argument is what
-- the wait gave. What the callbacks send meanwhile is not among the actions, and which close signal the
-- waits take is not told apart.
pub mod Agreement
pub mod Cleanup
pub mod Judging
pub mod Negotiation
pub mod Progress
mod Tests
use conference_go_client.Common.{
  ℕ, ℤ, pos, eqb_ℤ, Bool, true, false, not, Option, none, some, List, [], ◌∷◌, ◌++◌, Bytes, codes,
  eqb_bytes, if◌then◌else◌,
}
use conference_go_client.Sio.{Msg, absent}
use conference_go_client.Client.Messages.{
  Candidate, Description, Pattern, create_subscribe_message, create_unsubscribe_message,
}
use conference_go_client.Client.Reading.{
  Getters, get_string_field, get_int_field, get_msg_object_array_field, to_description,
}
use conference_go_client.Client.Candidates.{add_cached}
use conference_go_client.Client.Scope.{
  Slot, socket_close, local_candidate, signaling, gathering, ice, peer_state, media_track,
  local_description, candidate_event, sdp_event, subscribed_event, Action, releases, connects,
  emits, sets_remote, binds_tracks, when_fail, channer, runs, Scope, empty_scope, act, defer,
  listen, add_defer, succeed, prepare, release, leave,
}

pub data PeerState : Type 0 where
  connected failed closed : PeerState

-- What `co_await` gave, if it gave anything yet.
pub data Read (A : Type 0) : Type 0 where
  pending canceled : Read A
  got : A → Read A

-- What the others answer. The reads of a channel are listed as far as they have come, none for a
-- cancelled one; `acquired` is none while the mutex is not free. `takes` says that the peer takes the
-- description without an exception, `accepts` that it takes a candidate so, `prepares` that
-- `bind_client` and `prepare_track` of every track end so, and `opened` what the socket answers when
-- the cleanups run.
pub record World : Type 0 where
  pub inited : Bool
  pub acquired : Option Bool
  pub ack : Read Msg
  pub subscribed_reads : List (Option Msg)
  pub sdp_reads : List (Option Msg)
  pub takes : Bool
  pub accepts : Candidate → Bool
  pub cands : List Msg
  pub state_read : Read PeerState
  pub tracks_read : Read Unit
  pub prepares : Bool
  pub opened : Bool

pub record Subscription : Type 0 where
  pub sub_id : Bytes
  pub pub_id : Bytes
  pub tracks : List Msg

pub data Outcome : Type 0 where
  waits null_ptr threw : Outcome
  subscribed : Subscription → Outcome

-- `wait_for_msg`, without the release of the channel.
unfoldable pub wait_for_msg : (Msg → Bool) → List (Option Msg) → Read Msg
wait_for_msg cond [] = pending
wait_for_msg cond (none ∷ rs) = canceled
wait_for_msg cond (some m ∷ rs) = let rest = wait_for_msg cond rs in if cond m then got m else rest

-- `get_msg_base_field<std::string>(…) == sub_id` and the like.
abbrev pub is_text : Bytes → Option Bytes → Bool
is_text s none = false
is_text s (some t) = eqb_bytes t s

abbrev pub is_int : ℤ → Option ℤ → Bool
is_int n none = false
is_int n (some m) = eqb_ℤ m n

abbrev pub exit : Outcome → Scope → Outcome × List Action
exit o s = (o, leave s)

-- A coroutine that still waits has destroyed nothing.
abbrev pub suspended : Scope → Outcome × List Action
suspended s = (waits, s.done)

-- From the start to the first wait.
abbrev pub prepared : Msg → Scope
prepared msg =
    let locked = defer (runs releases) empty_scope in
    let open_socket = defer when_fail (act connects (listen socket_close locked)) in
    let with_peer =
      listen ice (listen gathering (listen signaling (listen local_candidate open_socket))) in
    let with_events = defer channer (listen candidate_event (listen peer_state with_peer)) in
    act (emits (codes "subscribe") msg) (prepare subscribed_event (prepare sdp_event with_events))

-- `defers.add_defer`: what is emitted when the subscription fails, if the socket is open then.
abbrev pub unsubscribe_later : Bool → Bytes → Scope → Scope
unsubscribe_later true sub_id s =
    add_defer (emits (codes "subscribe") (create_unsubscribe_message sub_id)) s
unsubscribe_later false sub_id s = s

module _ (sio : Getters) (w : World) where
  -- An exception leaves the loop over the tracks; the tracks that were bound before are not told.
  unfoldable pub on_prepared : Bool → Subscription → Scope → Outcome × List Action
  on_prepared false sub s = exit threw s
  on_prepared true sub s = exit (subscribed sub) (succeed (act binds_tracks s))

  unfoldable pub on_tracks : Read Unit → Subscription → Scope → Outcome × List Action
  on_tracks pending sub s = suspended s
  on_tracks canceled sub s = exit null_ptr s
  on_tracks (got u) sub s = on_prepared w.prepares sub s

  unfoldable pub on_state : Read PeerState → Subscription → Scope → Outcome × List Action
  on_state pending sub s = suspended s
  on_state canceled sub s = exit null_ptr s
  on_state (got failed) sub s = exit null_ptr s
  on_state (got closed) sub s = exit null_ptr s
  on_state (got connected) sub s = on_tracks w.tracks_read sub s

  -- Whether the loop over the cached candidates came to its end.
  unfoldable pub on_cached : Bool → Subscription → Scope → Outcome × List Action
  on_cached false sub s = exit threw s
  on_cached true sub s = on_state w.state_read sub s

  unfoldable pub on_takes : Bool → Description → Subscription → Scope → Outcome × List Action
  on_takes false desc sub s = exit threw s
  on_takes true desc sub s =
      on_cached (add_cached sio w.accepts w.cands []).0 sub (act (sets_remote desc) s)

  unfoldable pub on_description : Option Description → Subscription → Scope → Outcome × List Action
  on_description none sub s = exit threw s
  on_description (some desc) sub s = on_takes w.takes desc sub s

  unfoldable pub on_sdp : Read Msg → Subscription → Scope → Outcome × List Action
  on_sdp pending sub s = suspended s
  on_sdp canceled sub s = exit null_ptr (release sdp_event s)
  on_sdp (got m) sub s =
      on_description (to_description sio m) sub (listen local_description (release sdp_event s))

  -- With no tracks there is nothing to negotiate.
  unfoldable pub on_subscription : List Msg → ℤ → Bytes → Bytes → Scope → Outcome × List Action
  on_subscription [] sdp_id sub_id pub_id s =
      exit (subscribed (record { sub_id = sub_id; pub_id = pub_id; tracks = [] })) (succeed s)
  on_subscription (t ∷ ts) sdp_id sub_id pub_id s =
      let sub : Subscription = record { sub_id = sub_id; pub_id = pub_id; tracks = t ∷ ts } in
      let cond = λ (m : Msg). is_int sdp_id (get_int_field sio m (codes "mid")) in
      on_sdp (wait_for_msg cond w.sdp_reads) sub (listen media_track s)

  unfoldable pub on_ids : Option ℤ → Option Bytes → Bytes → Msg → Scope → Outcome × List Action
  on_ids none pub_id sub_id m s = exit threw s
  on_ids (some sdp_id) none sub_id m s = exit threw s
  on_ids (some sdp_id) (some pub_id) sub_id m s =
      on_subscription (get_msg_object_array_field sio m (codes "tracks")) sdp_id sub_id pub_id s

  unfoldable pub on_subscribed : Read Msg → Bytes → Scope → Outcome × List Action
  on_subscribed pending sub_id s = suspended s
  on_subscribed canceled sub_id s = exit null_ptr (release subscribed_event s)
  on_subscribed (got m) sub_id s =
      on_ids (get_int_field sio m (codes "sdpId")) (get_string_field sio m (codes "pubId")) sub_id m
        (release subscribed_event s)

  unfoldable pub on_sub_id : Option Bytes → Scope → Outcome × List Action
  on_sub_id none s = exit threw s
  on_sub_id (some sub_id) s =
      let cond = λ (m : Msg). is_text sub_id (get_string_field sio m (codes "subId")) in
      on_subscribed (wait_for_msg cond w.subscribed_reads) sub_id
        (unsubscribe_later w.opened sub_id s)

  unfoldable pub on_ack : Read Msg → Scope → Outcome × List Action
  on_ack pending s = suspended s
  on_ack canceled s = exit null_ptr s
  on_ack (got m) s = on_sub_id (get_string_field sio m (codes "id")) s

  unfoldable pub on_acquired : Option Bool → Msg → Outcome × List Action
  on_acquired none msg = (waits, [])
  on_acquired (some false) msg = (null_ptr, [])
  on_acquired (some true) msg = on_ack w.ack (prepared msg)

  unfoldable pub subscribe : Pattern → List Bytes → Outcome × List Action
  subscribe pattern req_types =
      if not w.inited
      then (threw, [])
      else on_acquired w.acquired (create_subscribe_message pattern req_types)
