-- ===== src/Client/Subscribe/Negotiation.antt =====
-- How `subscribe` comes from the announcement of the server to its success.
use conference_go_client.Common.{
  ℤ, Bool, Bool-cases, true, false, Option, none, some, List, [], ◌∷◌, ◌++◌, All, ◌≡◌, refl, ap,
  inl, inr, codes,
}
use conference_go_client.Sio.{Msg}
use conference_go_client.Client.Messages.{Description}
use conference_go_client.Client.Reading.{Getters, get_int_field, to_description}
use conference_go_client.Client.Candidates.{add_cached}
use conference_go_client.Client.Scope.{
  Scope, sdp_event, local_description, sets_remote, listen, release, act,
}
use conference_go_client.Client.Subscribe.{
  PeerState, connected, failed, closed, Read, pending, canceled, got, World, Subscription,
  subscribed, on_prepared, on_tracks, on_state, on_cached, on_takes, on_description, on_sdp,
  wait_for_msg, is_int,
}
use conference_go_client.Client.Subscribe.Progress.{passes}

-- The read that `wait_for_msg` ended with: the first that it did not pass over.
pub record Taken (cond : Msg → Bool) (rs : List (Option Msg)) (m : Msg) : Type 0 where
  pub earlier : List (Option Msg)
  pub later : List (Option Msg)
  pub reads_are : rs ≡ earlier ++ (some m ∷ later)
  pub passed : All (λ x. passes cond x ≡ true) earlier
  pub fits : cond m ≡ true

pub wait_for_msg-Taken :
    (cond : Msg → Bool) (rs : List (Option Msg)) (m : Msg)
    → wait_for_msg cond rs ≡ got m
    → Taken cond rs m
unfolding wait_for_msg
wait_for_msg-Taken cond [] m h = absurd (cc h)
wait_for_msg-Taken cond (none ∷ rs) m h = absurd (cc h)
wait_for_msg-Taken cond (some x ∷ rs) m h = elim (Bool-cases (cond x)) [
  | inl e ↦
      let same : x ≡ m = cc (e, h) in
      record {
        earlier = [];
        later = rs;
        reads_are = ap (λ (y : Msg). some y ∷ rs) same;
        passed = tt;
        fits = cc (e, same);
      }
  | inr e ↦
      let t = wait_for_msg-Taken cond rs m (cc (e, h)) in
      record {
        earlier = some x ∷ t.earlier;
        later = t.later;
        reads_are = ap (λ (ys : List (Option Msg)). some x ∷ ys) t.reads_are;
        passed = (cc e, t.passed);
        fits = t.fits;
      }
]

-- The offer of the server, its answer taken by the peer, and the media.
pub record Negotiated (sio : Getters) (w : World) (sdp_id : ℤ) : Type 0 where
  pub offer : Msg
  pub offer_taken : Taken (λ m. is_int sdp_id (get_int_field sio m (codes "mid"))) w.sdp_reads offer
  pub desc : Description
  pub offer_reads : to_description sio offer ≡ some desc
  pub peer_takes : w.takes ≡ true
  pub cands_added : (add_cached sio w.accepts w.cands []).0 ≡ true
  pub peer_connects : w.state_read ≡ got connected
  pub tracks_come : w.tracks_read ≡ got tt
  pub tracks_prepared : w.prepares ≡ true

module _ (sio : Getters) (w : World) (sub : Subscription) where
  prepared-success :
      (c : Bool) (s1 : Subscription) (s : Scope)
      → (on_prepared sio w c s1 s).0 ≡ subscribed sub
      → (s1 ≡ sub) × (c ≡ true)
  unfolding on_prepared
  prepared-success false s1 s h = absurd (cc h)
  prepared-success true s1 s h = (cc h, refl)

  tracks-success :
      (r : Read Unit) (s1 : Subscription) (s : Scope)
      → (on_tracks sio w r s1 s).0 ≡ subscribed sub
      → (s1 ≡ sub) × (r ≡ got tt) × (w.prepares ≡ true)
  unfolding on_tracks
  tracks-success pending s1 s h = absurd (cc h)
  tracks-success canceled s1 s h = absurd (cc h)
  tracks-success (got u) s1 s h = let r = prepared-success w.prepares s1 s h in (r.0, refl, r.1)

  state-success :
      (r : Read PeerState) (s1 : Subscription) (s : Scope)
      → (on_state sio w r s1 s).0 ≡ subscribed sub
      → (s1 ≡ sub) × (r ≡ got connected) × (w.tracks_read ≡ got tt) × (w.prepares ≡ true)
  unfolding on_state
  state-success pending s1 s h = absurd (cc h)
  state-success canceled s1 s h = absurd (cc h)
  state-success (got failed) s1 s h = absurd (cc h)
  state-success (got closed) s1 s h = absurd (cc h)
  state-success (got connected) s1 s h =
      let r = tracks-success w.tracks_read s1 s h in (r.0, refl, r.1, r.2)

  cached-success :
      (c : Bool) (s1 : Subscription) (s : Scope)
      → (on_cached sio w c s1 s).0 ≡ subscribed sub
      → (s1 ≡ sub)
        × (c ≡ true)
        × (w.state_read ≡ got connected)
        × (w.tracks_read ≡ got tt)
        × (w.prepares ≡ true)
  unfolding on_cached
  cached-success false s1 s h = absurd (cc h)
  cached-success true s1 s h =
      let r = state-success w.state_read s1 s h in (r.0, refl, r.1, r.2, r.3)

  takes-success :
      (c : Bool) (d : Description) (s1 : Subscription) (s : Scope)
      → (on_takes sio w c d s1 s).0 ≡ subscribed sub
      → (s1 ≡ sub)
        × (c ≡ true)
        × ((add_cached sio w.accepts w.cands []).0 ≡ true)
        × (w.state_read ≡ got connected)
        × (w.tracks_read ≡ got tt)
        × (w.prepares ≡ true)
  unfolding on_takes
  takes-success false d s1 s h = absurd (cc h)
  takes-success true d s1 s h =
      let r = cached-success (add_cached sio w.accepts w.cands []).0 s1 (act (sets_remote d) s) h in
      (r.0, refl, r.1, r.2, r.3, r.4)

  offer-success :
      (m : Msg) (n : ℤ) (o : Option Description) (s1 : Subscription) (s : Scope)
      → Taken (λ x. is_int n (get_int_field sio x (codes "mid"))) w.sdp_reads m
      → to_description sio m ≡ o
      → (on_description sio w o s1 s).0 ≡ subscribed sub
      → (s1 ≡ sub) × Negotiated sio w n
  unfolding on_description
  offer-success m n none s1 s f e h = absurd (cc h)
  offer-success m n (some d) s1 s f e h =
      let r = takes-success w.takes d s1 s h in
      (
        r.0,
        record {
          offer = m;
          offer_taken = f;
          desc = d;
          offer_reads = e;
          peer_takes = r.1;
          cands_added = r.2;
          peer_connects = r.3;
          tracks_come = r.4;
          tracks_prepared = r.5;
        },
      )

  pub sdp-success :
      (n : ℤ) (r : Read Msg) (s1 : Subscription) (s : Scope)
      → wait_for_msg (λ m. is_int n (get_int_field sio m (codes "mid"))) w.sdp_reads ≡ r
      → (on_sdp sio w r s1 s).0 ≡ subscribed sub
      → (s1 ≡ sub) × Negotiated sio w n
  unfolding on_sdp
  sdp-success n pending s1 s e h = absurd (cc h)
  sdp-success n canceled s1 s e h = absurd (cc h)
  sdp-success n (got m) s1 s e h =
      let taken =
        wait_for_msg-Taken (λ x. is_int n (get_int_field sio x (codes "mid"))) w.sdp_reads m e in
      offer-success m n (to_description sio m) s1 (listen local_description (release sdp_event s))
        taken refl h
