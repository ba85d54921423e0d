-- ===== src/Client/Scope.antt =====
-- src/public/cfgo/defer.hpp, and what the scope of `Client::subscribe` registers and gives back: the
-- objects that `DEFER`, `DEFERS_WHEN_FAIL` and `MsgChanner` make are destroyed in the reverse order of
-- their construction, however the scope is left.
use conference_go_client.Common.{
  ℕ, ◌==◌, Bool, true, false, not, List, [], ◌∷◌, ◌++◌, keep, Bytes, if◌then◌else◌,
}
use conference_go_client.Sio.{Msg}
use conference_go_client.Client.Messages.{Description}

-- The callbacks that the client registers: for the socket's end, with the peer, and for the events of
-- the socket.
pub data Slot : Type 0 where
  socket_close local_candidate signaling gathering ice peer_state media_track local_description :
      Slot
  candidate_event sdp_event subscribed_event : Slot

abbrev pub slot_code : Slot → ℕ
slot_code socket_close = 0
slot_code local_candidate = 1
slot_code signaling = 2
slot_code gathering = 3
slot_code ice = 4
slot_code peer_state = 5
slot_code media_track = 6
slot_code local_description = 7
slot_code candidate_event = 8
slot_code sdp_event = 9
slot_code subscribed_event = 10

pub data Action : Type 0 where
  releases connects : Action
  listens forgets : Slot → Action
  emits : Bytes → Msg → Action
  sets_remote : Description → Action
  binds_tracks : Action

-- What the end of the scope destroys.
pub data Deferred : Type 0 where
  runs : Action → Deferred
  when_fail channer : Deferred

-- What was done, what is to be destroyed, the latest first, the cleanups and the flag of
-- `defers_when_fail`, and the events of `m_chan_map`.
pub record Scope : Type 0 where
  pub done : List Action
  pub deferred : List Deferred
  pub cleanups : List Action
  pub success : Bool
  pub chans : List Slot

abbrev pub empty_scope : Scope
empty_scope = record { done = []; deferred = []; cleanups = []; success = false; chans = [] }

abbrev pub act : Action → Scope → Scope
act a s = record s { done = s.done ++ (a ∷ []) }

abbrev pub defer : Deferred → Scope → Scope
defer d s = record s { deferred = d ∷ s.deferred }

-- A callback set, and `DEFER` that clears it.
abbrev pub listen : Slot → Scope → Scope
listen slot s = defer (runs (forgets slot)) (act (listens slot) s)

abbrev pub add_defer : Action → Scope → Scope
add_defer a s = record s { cleanups = s.cleanups ++ (a ∷ []) }

abbrev pub succeed : Scope → Scope
succeed s = record s { success = true }

abbrev pub has_slot : Slot → List Slot → Bool
has_slot slot [] = false
has_slot slot (x ∷ xs) =
    let rest = has_slot slot xs in if slot_code x == slot_code slot then true else rest

-- `MsgChanner::prepare` and `MsgChanner::release`
abbrev pub prepare : Slot → Scope → Scope
prepare slot s =
    if has_slot slot s.chans
    then s
    else act (listens slot) (record s { chans = s.chans ++ (slot ∷ []) })

abbrev pub release : Slot → Scope → Scope
release slot s =
    act (forgets slot)
      (record s { chans = keep (λ x. not (slot_code x == slot_code slot)) s.chans })

abbrev pub forget_all : List Slot → List Action
forget_all [] = []
forget_all (x ∷ xs) = forgets x ∷ forget_all xs

-- The destructors, and all that was done when they have run.
abbrev pub destroy : Scope → Deferred → List Action
destroy s (runs a) = a ∷ []
destroy s when_fail = if s.success then [] else s.cleanups
destroy s channer = forget_all s.chans

abbrev pub unwind : Scope → List Deferred → List Action
unwind s [] = []
unwind s (d ∷ ds) = destroy s d ++ unwind s ds

abbrev pub leave : Scope → List Action
leave s = s.done ++ unwind s s.deferred
