-- ===== src/Track/Tests.antt =====
-- Tracks with concrete messages, and the theorems at them.
use conference_go_client.Common.{
  ℕ, ◌≡◌, refl, ltb, Bool, true, false, none, some, List, [], ◌∷◌, arith,
}
use conference_go_client.Channel.{slot}
use conference_go_client.Buffer.{ring}
use conference_go_client.Track.{Track, Callback, all_msgs, no_counters, on_track_msg, receive_msg}
use conference_go_client.Track.Sequence.{Inv}
use conference_go_client.Track.Messages.{Stored, on_track_msg-Inv}
use conference_go_client.Track.Delivery.{Received, receive_msg-Received}
use conference_go_client.Track.Balance.{Accounted, on_track_msg-Accounted}

-- A message is its size; those above 100 are RTCP.
abbrev is_rtcp : ℕ → Bool
is_rtcp m = ltb 100 m

abbrev track_with : List (ℕ × ℕ) → List (ℕ × ℕ) → ℕ → Track (ℕ × List (ℕ × ℕ)) Bool
track_with ps cs seq = record {
  inited = true;
  rtp_cache = (2, ps);
  rtcp_cache = (2, cs);
  seq = seq;
  has_on_data = true;
  has_on_stat = false;
  statistics = record { rtp = no_counters; rtcp = no_counters };
  msg_notify = false;
}

abbrev busy_track : Track (ℕ × List (ℕ × ℕ)) Bool
busy_track = track_with ((3, 40) ∷ (6, 41) ∷ []) ((4, 101) ∷ []) 6

-- The numbers are used up, and one message is still there from the last renumbering.
abbrev worn_track : Track (ℕ × List (ℕ × ℕ)) Bool
worn_track = track_with ((0, 40) ∷ (4294967290, 41) ∷ []) ((4294967295, 101) ∷ []) 4294967295

busy_track-Inv : Inv ring busy_track
busy_track-Inv = record {
  rtp_rises = (omega arith, omega arith, (omega arith, omega arith, tt));
  rtcp_rises = (omega arith, omega arith, tt);
  seq_fits = omega arith;
  rtp_room = omega arith;
  rtcp_room = omega arith;
}

worn_track-Inv : Inv ring worn_track
worn_track-Inv = record {
  rtp_rises = (omega arith, omega arith, (omega arith, omega arith, tt));
  rtcp_rises = (omega arith, omega arith, tt);
  seq_fits = omega arith;
  rtp_room = omega arith;
  rtcp_room = omega arith;
}

on_track_msg-Inv_example :
    Stored slot ring
      (is_rtcp 42)
      42
      worn_track
      (on_track_msg slot ring is_rtcp (λ m. m) 42 worn_track)
on_track_msg-Inv_example = on_track_msg-Inv slot ring is_rtcp (λ m. m) 42 worn_track worn_track-Inv

receive_msg-Received_example : Received ring busy_track (receive_msg ring all_msgs busy_track)
receive_msg-Received_example = receive_msg-Received ring busy_track busy_track-Inv

-- A track that was not prepared.
unprepared_throws : receive_msg ring all_msgs (record busy_track { inited = false }) ≡ none
unfolding receive_msg
unprepared_throws = refl

on_track_msg-Accounted_example :
    Accounted slot ring busy_track (on_track_msg slot ring is_rtcp (λ m. m) 42 busy_track)
on_track_msg-Accounted_example =
    on_track_msg-Accounted slot ring is_rtcp (λ m. m) 42 busy_track busy_track-Inv (omega arith)
      (omega arith) (omega arith) (omega arith) (omega arith)

-- The numbers start again at 1 after the least one, and the message with number 0 is gone.
worn_track_renumbers :
    on_track_msg slot ring is_rtcp (λ m. m) 42 worn_track
    ≡ some (
      record (track_with ((0, 41) ∷ (6, 42) ∷ []) ((5, 101) ∷ []) 6) {
        statistics = record {
          rtp = record {
            drops_bytes = 0;
            drops_packets = 0;
            receives_bytes = 42;
            receives_packets = 1;
          };
          rtcp = no_counters;
        };
        msg_notify = true;
      },
      Callback.on_data 42 true ∷ [],
    )
unfolding on_track_msg
worn_track_renumbers = refl
