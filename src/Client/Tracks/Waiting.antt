-- ===== src/Client/Tracks/Waiting.antt =====
-- For which media the callback finds a track, and for which it takes them all to have arrived.
use conference_go_client.Common.{
  ℕ, ◌+◌, ◌==◌, Bool, false≢true, ◌≢◌, Option-cases, true, false, some, List, [], ◌∷◌, ◌≡◌, refl,
  sym, ap, subst, ◌∙◌, inl, inr, All, count, length, get_elem?, get_elem?-set, Bytes, eqb_bytes,
  if◌then◌else◌, arith,
}
use conference_go_client.Client.Tracks.{
  Media, TrackObject, Arrival, Partition, is_of, set_media, at_iter, is_empty, start, on_track,
  on_tracks,
}

eqb_bytes_self : (b : Bytes) → eqb_bytes b b ≡ true
eqb_bytes_self [] = refl
eqb_bytes_self (c ∷ cs) = ground (arith, eqb_bytes_self cs)

count-All_true : (p : ℕ → Bool) (xs : List ℕ) → All (λ x. p x ≡ true) xs → count p xs ≡ length xs
count-All_true p [] h = refl
count-All_true p (x ∷ xs) h = ground (arith, count-All_true p xs h.1, h.0)

count-All_false : (p : ℕ → Bool) (xs : List ℕ) → All (λ x. p x ≡ false) xs → count p xs ≡ 0
count-All_false p [] h = refl
count-All_false p (x ∷ xs) h = ground (arith, count-All_false p xs h.1, h.0)

is_empty-length : (xs : List ℕ) → is_empty xs ≡ (length xs == 0)
is_empty-length [] = refl
is_empty-length (x ∷ xs) = ground arith

set_media_other :
    (m : Media) (i j : ℕ) (tracks : List TrackObject)
    → is_of m tracks i ≡ false
    → is_of m tracks j ≡ true
    → get_elem? (set_media m i tracks) j ≡ get_elem? tracks j
set_media_other m i j tracks hi hj = elim (Option-cases (get_elem? tracks i)) [
  | inl e ↦ cc e
  | inr (t, e) ↦
      let ne : i ≢ j = λ q. false≢true (sym hi ∙ ap (is_of m tracks) q ∙ hj) in
      let written = get_elem?-set tracks i j (record t { media = some m }) t e in
      ground (arith, e, written, ne)
]

at_iter_other :
    (m : Media) (is : List ℕ) (j : ℕ) (tracks : List TrackObject)
    → All (λ i. is_of m tracks i ≡ false) is
    → is_of m tracks j ≡ true
    → get_elem? (at_iter m is tracks) j ≡ get_elem? tracks j
at_iter_other m [] j tracks h hj = refl
at_iter_other m (i ∷ is) j tracks h hj = set_media_other m i j tracks h.0 hj

is_of_bound :
    (m : Media) (tracks : List TrackObject) (j : ℕ) (t : TrackObject)
    → get_elem? tracks j ≡ some t
    → t.bind_id ≡ m.mid
    → is_of m tracks j ≡ true
is_of_bound m tracks j t h e =
    cc (h, subst (λ (b : Bytes). eqb_bytes t.bind_id b ≡ true) e (eqb_bytes_self t.bind_id))

all_zero : (xs : List ℕ) → length xs ≡ 1 → count (λ x. x == 0) xs ≡ 1 → xs ≡ 0 ∷ []
all_zero [] h c = cc
all_zero (x ∷ []) h c = ground arith
all_zero (x ∷ y ∷ ys) h c = absurd (omega (arith, h))

all_none : (xs : List ℕ) → length xs ≡ 0 → xs ≡ []
all_none [] h = refl
all_none (x ∷ xs) h = cc

All_true : (xs : List ℕ) → All (λ x. ◌≡◌ {A = Bool} true true) xs
All_true [] = tt
All_true (x ∷ xs) = (refl, All_true xs)

module _ (partition : Partition) where
  -- The client takes the tracks to be complete, by a write of `tracks_ch`, exactly when the media is of
  -- no track that waits.
  pub on_track-writes :
      (m : Media) (a : Arrival)
      → (on_track partition m a).writes
        ≡ (if count (is_of m a.tracks) a.uncompleted == 0 then a.writes + 1 else a.writes)
  unfolding on_track
  on_track-writes m a =
      let p : ℕ → Bool = is_of m a.tracks in
      let t =
        count-All_true p (partition.run p a.uncompleted).0
          (partition.run-All_true p a.uncompleted) in
      let f =
        count-All_false p (partition.run p a.uncompleted).1
          (partition.run-All_false p a.uncompleted) in
      let c = partition.run-count p p a.uncompleted in
      let n : count p a.uncompleted ≡ length (partition.run p a.uncompleted).0 =
        omega (arith, t, f, c) in
      let e = is_empty-length (partition.run p a.uncompleted).0 in ground (arith, n, e)

  -- The track that a media is for never gets it: no track whose bound id is the id of the media is
  -- changed, whichever others wait.
  on_track_unbound :
      (m : Media) (a : Arrival) (j : ℕ) (t : TrackObject)
      → get_elem? a.tracks j ≡ some t
      → t.bind_id ≡ m.mid
      → get_elem? (on_track partition m a).tracks j ≡ some t
  unfolding on_track
  on_track_unbound m a j t h e =
      let p : ℕ → Bool = is_of m a.tracks in
      at_iter_other m (partition.run p a.uncompleted).1 j a.tracks
        (partition.run-All_false p a.uncompleted) (is_of_bound m a.tracks j t h e)
      ∙ h

  partition_single : (p : ℕ → Bool) → p 0 ≡ true → partition.run p (0 ∷ []) ≡ (0 ∷ [], [])
  partition_single p h =
      let r : List ℕ × List ℕ = partition.run p (0 ∷ []) in
      let t = count-All_true p r.0 (partition.run-All_true p (0 ∷ [])) in
      let f = count-All_false p r.1 (partition.run-All_false p (0 ∷ [])) in
      let l0 = count-All_true (λ x. true) r.0 (All_true r.0) in
      let l1 = count-All_true (λ x. true) r.1 (All_true r.1) in
      let n : count p (0 ∷ []) ≡ 1 = ground (arith, h) in
      let c = partition.run-count p (λ x. true) (0 ∷ []) in
      let cp = partition.run-count p p (0 ∷ []) in
      let cz = partition.run-count p (λ x. x == 0) (0 ∷ []) in
      let q1 : r.1 ≡ [] = all_none r.1 (omega (arith, t, f, l0, l1, n, c, cp)) in
      let z1 : count (λ x. x == 0) r.1 ≡ 0 = ap (count (λ x. x == 0)) q1 in
      let q0 : r.0 ≡ 0 ∷ [] = all_zero r.0 (omega (arith, t, f, n, cp)) (omega (arith, z1, cz)) in
      λ i. (q0 i, q1 i)

  on_track-single :
      (t : TrackObject) (m : Media)
      → t.bind_id ≡ m.mid
      → on_track partition m (start (t ∷ [])) ≡ start (t ∷ [])
  unfolding on_track
  on_track-single t m e =
      cc (partition_single (is_of m (t ∷ [])) (is_of_bound m (t ∷ []) 0 t refl e))

  -- Media of the id that the track of a subscription of one track is bound to, however often the peer
  -- announces it, leaves the track as it is and does not write `tracks_ch`.
  pub on_tracks-single :
      (t : TrackObject) (ms : List Media)
      → All (λ (m : Media). t.bind_id ≡ m.mid) ms
      → on_tracks partition ms (start (t ∷ [])) ≡ start (t ∷ [])
  on_tracks-single t [] h = refl
  on_tracks-single t (m ∷ ms) h =
      ap (on_tracks partition ms) (on_track-single t m h.0) ∙ on_tracks-single t ms h.1
