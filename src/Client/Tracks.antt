-- ===== src/Client/Tracks.antt =====
-- src/impl/client.cpp, `subscribe`: the callback of the peer for its media tracks, which looks for the
-- track of the subscription that waits for the media.
pub mod Waiting
use conference_go_client.Common.{
  ℕ, suc, ◌+◌, Bool, true, false, not, Option, none, some, List, [], ◌∷◌, ◌≡◌, All, count, length,
  get_elem?, set, replicate, Bytes, eqb_bytes, if◌then◌else◌,
}

-- `rtc::Track`
pub record Media : Type 0 where
  pub handle : ℕ
  pub mid : Bytes

-- `cfgo::Track`: the id that the server bound to it, and its media.
pub record TrackObject : Type 0 where
  pub bind_id : Bytes
  pub media : Option Media

-- The objects of the subscription, the places of those in `uncompleted_tracks`, and how often
-- `tracks_ch` was written.
pub record Arrival : Type 0 where
  pub tracks : List TrackObject
  pub uncompleted : List ℕ
  pub writes : ℕ

-- `std::partition`: the elements before the iterator that it returns, and the others, both in an order
-- that is not specified.
pub record Partition : Type 0 where
  pub run : (ℕ → Bool) → List ℕ → List ℕ × List ℕ
  pub run-All_true : (p : ℕ → Bool) (xs : List ℕ) → All (λ x. p x ≡ true) (run p xs).0
  pub run-All_false : (p : ℕ → Bool) (xs : List ℕ) → All (λ x. p x ≡ false) (run p xs).1
  pub run-count :
      (p q : ℕ → Bool) (xs : List ℕ) → count q (run p xs).0 + count q (run p xs).1 ≡ count q xs

-- `t->bind_id() == track->mid()`
abbrev pub is_of : Media → List TrackObject → ℕ → Bool
is_of m tracks i = elim (get_elem? tracks i) [ none ↦ false | some t ↦ eqb_bytes t.bind_id m.mid ]

-- `(*iter)->track() = track`
abbrev pub set_media : Media → ℕ → List TrackObject → List TrackObject
set_media m i tracks = elim (get_elem? tracks i) [
  | none ↦ tracks
  | some t ↦ set tracks i (record t { media = some m })
]

-- What is done to the element at the iterator, when that is not the end.
abbrev pub at_iter : Media → List ℕ → List TrackObject → List TrackObject
at_iter m [] tracks = tracks
at_iter m (i ∷ is) tracks = set_media m i tracks

abbrev pub is_empty : List ℕ → Bool
is_empty [] = true
is_empty (x ∷ xs) = false

abbrev pub all_from : ℕ → List TrackObject → List ℕ
all_from i [] = []
all_from i (t ∷ ts) = i ∷ all_from (suc i) ts

-- `std::vector<TrackPtr> uncompleted_tracks(sub_ptr->tracks())`
abbrev pub start : List TrackObject → Arrival
start tracks = record { tracks = tracks; uncompleted = all_from 0 tracks; writes = 0 }

module _ (partition : Partition) where
  -- The elements from the iterator on are erased; there are none where it is the end.
  unfoldable pub on_track : Media → Arrival → Arrival
  on_track m a =
      let parts = partition.run (is_of m a.tracks) a.uncompleted in
      record {
        tracks = at_iter m parts.1 a.tracks;
        uncompleted = parts.0;
        writes = if is_empty parts.0 then a.writes + 1 else a.writes;
      }

  abbrev pub on_tracks : List Media → Arrival → Arrival
  on_tracks [] a = a
  on_tracks (m ∷ ms) a = on_tracks ms (on_track m a)
