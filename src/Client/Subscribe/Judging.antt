-- ===== src/Client/Subscribe/Judging.antt =====
-- What a clean end of `subscribe` is, as tests of what was done.
use conference_go_client.Common.{
  ◌==◌, Bool, true, false, ◌&&◌, Option, none, some, List, [], ◌∷◌, count, ◌≡◌, Bytes, codes,
  if◌then◌else◌, arith,
}
use conference_go_client.Sio.{Msg}
use conference_go_client.Client.Messages.{create_unsubscribe_message}
use conference_go_client.Client.Scope.{
  Slot, socket_close, local_candidate, signaling, gathering, ice, peer_state, media_track,
  local_description, candidate_event, sdp_event, subscribed_event, slot_code, Action, releases,
  listens, forgets, emits,
}
use conference_go_client.Client.Subscribe.{Outcome, waits, null_ptr, threw, subscribed}

abbrev pub is_waiting : Outcome → Bool
is_waiting waits = true
is_waiting o = false

abbrev pub is_subscribed : Outcome → Bool
is_subscribed (subscribed sub) = true
is_subscribed o = false

abbrev pub is_listens : Slot → Action → Bool
is_listens slot (listens x) = slot_code x == slot_code slot
is_listens slot a = false

abbrev pub is_forgets : Slot → Action → Bool
is_forgets slot (forgets x) = slot_code x == slot_code slot
is_forgets slot a = false

abbrev pub is_releases : Action → Bool
is_releases releases = true
is_releases a = false

abbrev pub ends_released : List Action → Bool
ends_released [] = false
ends_released (a ∷ []) = is_releases a
ends_released (a ∷ b ∷ l) = ends_released (b ∷ l)

abbrev pub even : List Action → Slot → Bool
even l slot = count (is_listens slot) l == count (is_forgets slot) l

abbrev pub balanced : List Action → Bool
balanced l =
    even l socket_close
    && (even l local_candidate
        && (even l signaling
            && (even l gathering
                && (even l ice
                    && (even l peer_state
                        && (even l media_track
                            && (even l local_description
                                && (even l candidate_event
                                    && (even l sdp_event && even l subscribed_event)))))))))

-- The events that are emitted, with their messages, in order.
abbrev pub emissions : List Action → List (Bytes × Msg)
emissions [] = []
emissions (emits evt m ∷ l) = (evt, m) ∷ emissions l
emissions (a ∷ l) = emissions l

-- The end of the subscription of an id, when the id is known and the socket is open.
abbrev pub ending : Option Bytes → Bool → List (Bytes × Msg)
ending none opened = []
ending (some id) false = []
ending (some id) true = (codes "subscribe", create_unsubscribe_message id) ∷ []

-- What is emitted: the request, and the end of a subscription that failed.
abbrev pub emitted : Bool → Option Bytes → Msg → Outcome → List (Bytes × Msg)
emitted opened known msg o =
    (codes "subscribe", msg) ∷ (if is_subscribed o then [] else ending known opened)

abbrev pub judged : List Action → Bool
judged l = balanced l && (count is_releases l == 1 && ends_released l)

abbrev pub Ended : Bool → Option Bytes → Msg → Outcome × List Action → Type 0
Ended opened known msg r = (judged r.1 ≡ true) × (emissions r.1 ≡ emitted opened known msg r.0)

abbrev pub Clean : Bool → Option Bytes → Msg → Outcome × List Action → Type 0
Clean opened known msg (waits, acts) = Unit
Clean opened known msg (null_ptr, acts) = Ended opened known msg (null_ptr, acts)
Clean opened known msg (threw, acts) = Ended opened known msg (threw, acts)
Clean opened known msg (subscribed sub, acts) = Ended opened known msg (subscribed sub, acts)

pub Clean-Ended :
    (opened : Bool) (known : Option Bytes) (msg : Msg) (r : Outcome × List Action)
    → is_waiting r.0 ≡ false
    → Clean opened known msg r
    → Ended opened known msg r
Clean-Ended opened known msg (waits, acts) h c = absurd (cc h)
Clean-Ended opened known msg (null_ptr, acts) h c = c
Clean-Ended opened known msg (threw, acts) h c = c
Clean-Ended opened known msg (subscribed sub, acts) h c = c

even_of_balanced :
    (l : List Action) (slot : Slot)
    → balanced l ≡ true
    → count (is_listens slot) l ≡ count (is_forgets slot) l
even_of_balanced l socket_close h = ground arith
even_of_balanced l local_candidate h = ground arith
even_of_balanced l signaling h = ground arith
even_of_balanced l gathering h = ground arith
even_of_balanced l ice h = ground arith
even_of_balanced l peer_state h = ground arith
even_of_balanced l media_track h = ground arith
even_of_balanced l local_description h = ground arith
even_of_balanced l candidate_event h = ground arith
even_of_balanced l sdp_event h = ground arith
even_of_balanced l subscribed_event h = ground arith

pub judged_parts :
    (acts : List Action) (slot : Slot)
    → judged acts ≡ true
    → (count (is_listens slot) acts ≡ count (is_forgets slot) acts)
      × (count is_releases acts ≡ 1)
      × (ends_released acts ≡ true)
judged_parts acts slot h =
    let even : balanced acts ≡ true = ground (arith, h) in
    (even_of_balanced acts slot even, ground (arith, h), ground (arith, h))
