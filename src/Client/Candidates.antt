-- ===== src/Client/Candidates.antt =====
-- src/impl/client.cpp, `subscribe`: the candidates that arrive before and after the remote description
-- is set. Each part under `cand_mux` is one step.
use conference_go_client.Common.{
  Bool, true, false, not, Option, none, some, List, [], ◌∷◌, ◌++◌, if◌then◌else◌,
}
use conference_go_client.Sio.{Msg}
use conference_go_client.Client.Messages.{Candidate}
use conference_go_client.Client.Reading.{Getters, Added, threw, ignored, handed, add_candidate}

-- `remoted`, `cands`, and the candidates that the peer was handed, in order.
pub record Exchange : Type 0 where
  pub remoted : Bool
  pub cands : List Msg
  pub peer : List Candidate

pub data Step : Type 0 where
  arrives : Msg → Step
  set_remote : Step

abbrev pub start : Exchange
start = record { remoted = false; cands = []; peer = [] }

-- What `add_candidate` leaves of the peer; none when it throws.
abbrev pub add_to : Added → List Candidate → Option (List Candidate)
add_to threw peer = none
add_to ignored peer = some peer
add_to (handed c) peer = some (peer ++ (c ∷ []))

module _ (sio : Getters) (accepts : Candidate → Bool) where
  -- The loop over the cached messages, which an exception leaves: whether it came to its end.
  abbrev pub add_cached : List Msg → List Candidate → Bool × List Candidate
  add_cached [] peer = (true, peer)
  add_cached (m ∷ ms) peer = elim (add_to (add_candidate sio accepts m) peer) [
    | none ↦ (false, peer)
    | some p ↦ add_cached ms p
  ]

  -- The callback of the event "candidate"; an exception changes nothing.
  abbrev pub on_candidate : Msg → Exchange → Exchange
  on_candidate m x =
      if not x.remoted
      then record x { cands = x.cands ++ (m ∷ []) }
      else elim (add_to (add_candidate sio accepts m) x.peer) [
        | none ↦ x
        | some p ↦ record x { peer = p }
      ]

  unfoldable pub step : Step → Exchange → Exchange
  step (arrives m) x = on_candidate m x
  step set_remote x = record x { remoted = true; peer = (add_cached x.cands x.peer).1 }

  abbrev pub run : List Step → Exchange → Exchange
  run [] x = x
  run (s ∷ ss) x = run ss (step s x)

  abbrev pub arriving : List Msg → List Step
  arriving [] = []
  arriving (m ∷ ms) = arrives m ∷ arriving ms

  -- The candidates of messages, with those that throw passed over, and the messages before the first
  -- that throws.
  abbrev pub candidates : List Msg → List Candidate
  candidates [] = []
  candidates (m ∷ ms) = elim (add_candidate sio accepts m) [
    | threw ↦ candidates ms
    | ignored ↦ candidates ms
    | handed c ↦ c ∷ candidates ms
  ]

  abbrev pub until_throw : List Msg → List Msg
  until_throw [] = []
  until_throw (m ∷ ms) = elim (add_candidate sio accepts m) [
    | threw ↦ []
    | ignored ↦ m ∷ until_throw ms
    | handed c ↦ m ∷ until_throw ms
  ]

  abbrev with_peer : Bool → List Msg → List Candidate → Exchange
  with_peer remoted cands peer = record { remoted = remoted; cands = cands; peer = peer }
