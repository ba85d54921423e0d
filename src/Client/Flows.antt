-- ===== src/Client/Flows.antt =====
-- Concrete courses of the requests of the client.
use conference_go_client.Common.{
  ℕ, ◌+◌, ◌==◌, Bool, true, false, not, none, some, List, [], ◌∷◌, ◌++◌, keep, count, All, ◌≡◌,
  refl, codes, if◌then◌else◌, arith, get_elem?,
}
use conference_go_client.Client.Tests.{plain}
use conference_go_client.Client.Requests.{send, Sender, receive}
use conference_go_client.Client.Callbacks.Ids.{Inv}
use conference_go_client.Client.Requests.Sending.{receive-send}
use conference_go_client.Client.Requests.Confirming.{
  Waiting, ack_event, msg_ids, those_of, others_than, entries, receive-ack,
}
use conference_go_client.Client.Tracks.{
  Media, TrackObject, Arrival, Partition, is_of, start, on_track, on_tracks,
}
use conference_go_client.Client.Tracks.Waiting.{on_track-writes, on_tracks-single}

abbrev two_waiting : List Waiting
two_waiting = record { id = 0; msg_id = 5 } ∷ (record { id = 1; msg_id = 6 } ∷ [])

abbrev sender : Sender plain
sender = record {
  custom_msg_next_id = 7;
  callbacks = record { next_id = 2; cbs = entries plain two_waiting };
  written = [];
}

receive-ack_example :
    ((receive plain (ack_event 5 (codes "bob")) sender).callbacks.cbs
      ≡ entries plain (others_than 5 two_waiting))
    × ((receive plain (ack_event 5 (codes "bob")) sender).written
        ≡ [] ++ msg_ids (those_of 5 two_waiting))
receive-ack_example =
    receive-ack plain 5 (codes "bob") two_waiting sender refl ((omega arith, tt), (tt, tt))

two_waiting-Inv : Inv sender.callbacks
two_waiting-Inv = (((omega arith, tt), (tt, tt)), (omega arith, (omega arith, tt)))

receive-send_example :
    (receive plain (ack_event (send plain sender).0 (codes "bob")) (send plain sender).1).written
    ≡ [] ++ (msg_ids (those_of (send plain sender).0 two_waiting) ++ ((send plain sender).0 ∷ []))
receive-send_example =
    receive-send plain sender two_waiting (codes "bob") refl two_waiting-Inv (omega arith)

-- A partition that keeps the order of both parts.
keep-All :
    (p : ℕ → Bool) (b : Bool) (xs : List ℕ)
    → All (λ x. p x ≡ b) (keep (λ x. if b then p x else not (p x)) xs)
keep-All p b [] = tt
keep-All p true (x ∷ xs) = ground (arith, keep-All p true xs)
keep-All p false (x ∷ xs) = ground (arith, keep-All p false xs)

keep-count :
    (p q : ℕ → Bool) (xs : List ℕ)
    → count q (keep p xs) + count q (keep (λ x. not (p x)) xs) ≡ count q xs
keep-count p q [] = omega arith
keep-count p q (x ∷ xs) = ground (arith, keep-count p q xs)

abbrev stable : Partition
stable = record {
  run = λ p xs. (keep p xs, keep (λ x. not (p x)) xs);
  run-All_true = λ p xs. keep-All p true xs;
  run-All_false = λ p xs. keep-All p false xs;
  run-count = keep-count;
}

abbrev camera : TrackObject
camera = record { bind_id = codes "0"; media = none }

abbrev microphone : TrackObject
microphone = record { bind_id = codes "1"; media = none }

abbrev picture : Media
picture = record { handle = 9; mid = codes "0" }

abbrev both : Arrival
both = start (camera ∷ (microphone ∷ []))

-- The media of the camera goes to the microphone.
picture_misplaced :
    get_elem? (on_track stable picture both).tracks 1
    ≡ some (record microphone { media = some picture })
unfolding on_track
picture_misplaced = refl

on_tracks-single_example :
    on_tracks stable (picture ∷ (picture ∷ [])) (start (camera ∷ [])) ≡ start (camera ∷ [])
on_tracks-single_example =
    on_tracks-single stable camera (picture ∷ (picture ∷ [])) (refl, (refl, tt))

abbrev noise : Media
noise = record { handle = 4; mid = codes "2" }

-- Media that no track is for completes a subscription.
on_track-writes_example : (on_track stable noise both).writes ≡ (
    if count (is_of noise both.tracks) both.uncompleted == 0 then both.writes + 1 else both.writes)
on_track-writes_example = on_track-writes stable noise both
