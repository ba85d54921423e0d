-- ===== src/Client/Subscribe/Progress.antt =====
-- That `subscribe` ends, and what a subscription that it returns rests on.
use conference_go_client.Common.{
  ℤ, Bool, Bool-cases, true, false, not, Option, none, some, List, [], ◌∷◌, ◌++◌, All, ◌≡◌, refl,
  inl, inr, codes, is_some, Bytes, arith,
}
use conference_go_client.Sio.{Msg}
use conference_go_client.Client.Messages.{Description, Pattern, create_subscribe_message}
use conference_go_client.Client.Reading.{
  Getters, get_string_field, get_int_field, get_msg_object_array_field, to_description,
}
use conference_go_client.Client.Candidates.{add_cached}
use conference_go_client.Client.Scope.{
  Scope, sdp_event, subscribed_event, media_track, local_description, sets_remote, listen, release,
  act,
}
use conference_go_client.Client.Subscribe.{
  PeerState, connected, failed, closed, Read, pending, canceled, got, World, Subscription, prepared,
  unsubscribe_later, on_prepared, on_tracks, on_state, on_cached, on_takes, on_description, on_sdp,
  on_subscription, on_ids, on_subscribed, on_sub_id, on_ack, on_acquired, subscribe, wait_for_msg,
  is_text, is_int,
}
use conference_go_client.Client.Subscribe.Judging.{is_waiting}

-- A read that the loop of `wait_for_msg` passes over.
abbrev pub passes : (Msg → Bool) → Option Msg → Bool
passes cond none = false
passes cond (some m) = not (cond m)

abbrev pub settled : Option Msg → Read Msg
settled none = canceled
settled (some m) = got m

-- `wait_for_msg` returns at the first read that is cancelled or fits, with that read, whatever comes
-- after it; while every read is a message that does not fit, it waits.
wait_for_msg-first :
    (cond : Msg → Bool) (rs ts : List (Option Msg)) (r : Option Msg)
    → All (λ x. passes cond x ≡ true) rs
    → passes cond r ≡ false
    → (wait_for_msg cond rs ≡ pending) × (wait_for_msg cond (rs ++ (r ∷ ts)) ≡ settled r)
unfolding wait_for_msg
wait_for_msg-first cond [] ts none h e = (refl, refl)
wait_for_msg-first cond [] ts (some m) h e = (refl, ground arith)
wait_for_msg-first cond (none ∷ rs) ts r h e = absurd (cc (h.0))
wait_for_msg-first cond (some m ∷ rs) ts r h e =
    let ih = wait_for_msg-first cond rs ts r h.1 e in
    let off : cond m ≡ false = ground (arith, h.0) in (cc (off, ih.0), cc (off, ih.1))

abbrev pub has_cancel : List (Option Msg) → Bool
has_cancel [] = false
has_cancel (none ∷ rs) = true
has_cancel (some m ∷ rs) = has_cancel rs

abbrev pub is_pending : {A : Type 0} → Read A → Bool
is_pending pending = true
is_pending r = false

wait_for_msg-cancel :
    (cond : Msg → Bool) (rs : List (Option Msg))
    → has_cancel rs ≡ true
    → is_pending (wait_for_msg cond rs) ≡ false
unfolding wait_for_msg
wait_for_msg-cancel cond [] h = cc h
wait_for_msg-cancel cond (none ∷ rs) h = refl
wait_for_msg-cancel cond (some m ∷ rs) h = elim (Bool-cases (cond m)) [
  | inl e ↦ cc e
  | inr e ↦ cc (e, wait_for_msg-cancel cond rs h)
]

-- Once the signal is closed every read is cancelled or was answered before.
pub record Answered (w : World) : Type 0 where
  pub subscribed_end : has_cancel w.subscribed_reads ≡ true
  pub sdp_end : has_cancel w.sdp_reads ≡ true
  pub state_end : is_pending w.state_read ≡ false
  pub tracks_end : is_pending w.tracks_read ≡ false

module _ (sio : Getters) (w : World) (a : Answered w) where
  prepared-ends :
      (c : Bool) (sub : Subscription) (s : Scope) → is_waiting (on_prepared sio w c sub s).0 ≡ false
  unfolding on_prepared
  prepared-ends false sub s = refl
  prepared-ends true sub s = refl

  tracks-ends :
      (r : Read Unit) (sub : Subscription) (s : Scope)
      → is_pending r ≡ false
      → is_waiting (on_tracks sio w r sub s).0 ≡ false
  unfolding on_tracks
  tracks-ends pending sub s h = cc h
  tracks-ends canceled sub s h = refl
  tracks-ends (got u) sub s h = prepared-ends w.prepares sub s

  state-ends :
      (r : Read PeerState) (sub : Subscription) (s : Scope)
      → is_pending r ≡ false
      → is_waiting (on_state sio w r sub s).0 ≡ false
  unfolding on_state
  state-ends pending sub s h = cc h
  state-ends canceled sub s h = refl
  state-ends (got failed) sub s h = refl
  state-ends (got closed) sub s h = refl
  state-ends (got connected) sub s h = tracks-ends w.tracks_read sub s a.tracks_end

  cached-ends :
      (c : Bool) (sub : Subscription) (s : Scope) → is_waiting (on_cached sio w c sub s).0 ≡ false
  unfolding on_cached
  cached-ends false sub s = refl
  cached-ends true sub s = state-ends w.state_read sub s a.state_end

  takes-ends :
      (c : Bool) (d : Description) (sub : Subscription) (s : Scope)
      → is_waiting (on_takes sio w c d sub s).0 ≡ false
  unfolding on_takes
  takes-ends false d sub s = refl
  takes-ends true d sub s =
      cached-ends (add_cached sio w.accepts w.cands []).0 sub (act (sets_remote d) s)

  description-ends :
      (o : Option Description) (sub : Subscription) (s : Scope)
      → is_waiting (on_description sio w o sub s).0 ≡ false
  unfolding on_description
  description-ends none sub s = refl
  description-ends (some d) sub s = takes-ends w.takes d sub s

  sdp-ends :
      (r : Read Msg) (sub : Subscription) (s : Scope)
      → is_pending r ≡ false
      → is_waiting (on_sdp sio w r sub s).0 ≡ false
  unfolding on_sdp
  sdp-ends pending sub s h = cc h
  sdp-ends canceled sub s h = refl
  sdp-ends (got m) sub s h =
      description-ends (to_description sio m) sub (listen local_description (release sdp_event s))

  subscription-ends :
      (ts : List Msg) (n : ℤ) (id pub_id : Bytes) (s : Scope)
      → is_waiting (on_subscription sio w ts n id pub_id s).0 ≡ false
  unfolding on_subscription
  subscription-ends [] n id pub_id s = refl
  subscription-ends (t ∷ ts) n id pub_id s =
      let cond : Msg → Bool = λ m. is_int n (get_int_field sio m (codes "mid")) in
      sdp-ends (wait_for_msg cond w.sdp_reads)
        (record { sub_id = id; pub_id = pub_id; tracks = t ∷ ts }) (listen media_track s)
        (wait_for_msg-cancel cond w.sdp_reads a.sdp_end)

  ids-ends :
      (o : Option ℤ) (p : Option Bytes) (id : Bytes) (m : Msg) (s : Scope)
      → is_waiting (on_ids sio w o p id m s).0 ≡ false
  unfolding on_ids
  ids-ends none p id m s = refl
  ids-ends (some n) none id m s = refl
  ids-ends (some n) (some p) id m s =
      subscription-ends (get_msg_object_array_field sio m (codes "tracks")) n id p s

  subscribed-ends :
      (r : Read Msg) (id : Bytes) (s : Scope)
      → is_pending r ≡ false
      → is_waiting (on_subscribed sio w r id s).0 ≡ false
  unfolding on_subscribed
  subscribed-ends pending id s h = cc h
  subscribed-ends canceled id s h = refl
  subscribed-ends (got m) id s h =
      ids-ends (get_int_field sio m (codes "sdpId")) (get_string_field sio m (codes "pubId")) id m
        (release subscribed_event s)

  sub_id-ends : (o : Option Bytes) (s : Scope) → is_waiting (on_sub_id sio w o s).0 ≡ false
  unfolding on_sub_id
  sub_id-ends none s = refl
  sub_id-ends (some id) s =
      let cond : Msg → Bool = λ m. is_text id (get_string_field sio m (codes "subId")) in
      subscribed-ends (wait_for_msg cond w.subscribed_reads) id (unsubscribe_later w.opened id s)
        (wait_for_msg-cancel cond w.subscribed_reads a.subscribed_end)

  ack-ends :
      (r : Read Msg) (s : Scope) → is_pending r ≡ false → is_waiting (on_ack sio w r s).0 ≡ false
  unfolding on_ack
  ack-ends pending s h = cc h
  ack-ends canceled s h = refl
  ack-ends (got m) s h = sub_id-ends (get_string_field sio m (codes "id")) s

  acquired-ends :
      (o : Option Bool) (msg : Msg)
      → is_some o ≡ true
      → is_pending w.ack ≡ false
      → is_waiting (on_acquired sio w o msg).0 ≡ false
  unfolding on_acquired
  acquired-ends none msg h k = cc h
  acquired-ends (some false) msg h k = refl
  acquired-ends (some true) msg h k = ack-ends w.ack (prepared msg) k

  -- `subscribe` ends when the wait for the mutex and for the acknowledgement ended, the reads of both
  -- events are cancelled at some time, and those of the peer's state and of the tracks gave anything:
  -- no message that came before, of any content, makes it wait on.
  pub subscribe-ends :
      (pattern : Pattern) (req_types : List Bytes)
      → is_some w.acquired ≡ true
      → is_pending w.ack ≡ false
      → is_waiting (subscribe sio w pattern req_types).0 ≡ false
  unfolding subscribe
  subscribe-ends pattern req_types h k = elim (Bool-cases w.inited) [
    | inl e ↦ cc (e, acquired-ends w.acquired (create_subscribe_message pattern req_types) h k)
    | inr e ↦ cc e
  ]
