-- ===== src/Track/Sequence.antt =====
-- src/impl/track.cpp: the numbers that `on_track_msg` gives, and the order of `receive_msg`.
use conference_go_client.Common.{
  sub32, if_lem, ℕ, zero, suc, ◌-◌, ◌^◌, ◌≤◌, ◌<◌, ◌==◌, ◌≡◌, refl, sym, subst, ap, ◌∙◌, ltb,
  Option, none, some, List, [], ◌∷◌, ◌++◌, map, length, arith, if◌then◌else◌, ==_iff,
}
use conference_go_client.Buffer.{Buffers, head, tail}
use conference_go_client.Track.{
  Track, MinSeq, found, pops_rtp, pops_rtcp, min_seq_of, makesure_min_seq, pop_rtp, pop_rtcp,
  cached, shift, renumber,
}

sub32-lem : (a b : ℕ) → b ≤ a → a < 2 ^ 32 → sub32 a b ≡ a - b
sub32-lem a b le lt = ground (arith, le, lt)

module _ {M : Type 0} where
  -- Strictly rising numbers between two bounds.
  abbrev pub Rising : ℕ → ℕ → List (ℕ × M) → Type 0
  Rising lo hi [] = Unit
  Rising lo hi (e ∷ es) = (lo ≤ e.0) × (e.0 ≤ hi) × Rising (suc e.0) hi es

  pub Rising-weaken :
      (lo mid hi : ℕ) (es : List (ℕ × M)) → lo ≤ mid → Rising mid hi es → Rising lo hi es
  Rising-weaken lo mid hi [] le h = tt
  Rising-weaken lo mid hi (e ∷ es) le h = (omega (arith, le, h.0), h.1, h.2)

  pub Rising-tail : (lo hi : ℕ) (es : List (ℕ × M)) → Rising lo hi es → Rising lo hi (tail es)
  Rising-tail lo hi [] h = tt
  Rising-tail lo hi (e ∷ es) h = Rising-weaken lo (suc e.0) hi es (omega (arith, h.0)) h.2

  pub Rising-append :
      (lo hi : ℕ) (es : List (ℕ × M)) (m : M)
      → lo ≤ suc hi
      → Rising lo hi es
      → Rising lo (suc hi) (es ++ (suc hi, m) ∷ [])
  Rising-append lo hi [] m le h = (le, omega arith, tt)
  Rising-append lo hi (e ∷ es) m le h =
      (h.0, omega (arith, h.1), Rising-append (suc e.0) hi es m (omega (arith, h.1)) h.2)

  pub Rising-shift :
      (n lo hi : ℕ) (es : List (ℕ × M))
      → n ≤ lo
      → hi < 2 ^ 32
      → Rising lo hi es
      → Rising (lo - n) (hi - n) (map (λ e. (sub32 e.0 n, e.1)) es)
  Rising-shift n lo hi [] le lt h = tt
  Rising-shift n lo hi (e ∷ es) le lt h =
      let s : sub32 e.0 n ≡ e.0 - n =
        sub32-lem e.0 n (omega (arith, le, h.0)) (omega (arith, lt, h.1)) in
      let rest = Rising-shift n (suc e.0) hi es (omega (arith, le, h.0)) lt h.2 in
      (
        omega (arith, s, h.0, le),
        omega (arith, s, h.1, h.0, le),
        Rising-weaken (suc (sub32 e.0 n)) (suc e.0 - n) (hi - n) (map (λ e. (sub32 e.0 n, e.1)) es)
            (omega (arith, s, le, h.0)) rest,
      )

  -- The caches have room, and what is popped is there.
  abbrev Step : ℕ → List (ℕ × M) → List (ℕ × M) → MinSeq → Type 0
  Step hi ps cs (found n) = Rising n hi ps × Rising n hi cs × (1 ≤ n) × (n ≤ 4294967295)
  Step hi ps cs pops_rtp = suc (length (tail ps)) ≡ length ps
  Step hi ps cs pops_rtcp = suc (length (tail cs)) ≡ length cs

  min_seq_of-Step :
      (hi : ℕ) (ps cs : List (ℕ × M))
      → hi < 2 ^ 32
      → Rising 0 hi ps
      → Rising 0 hi cs
      → Step hi ps cs (min_seq_of (head ps) (head cs))
  unfolding min_seq_of
  min_seq_of-Step hi [] [] lt hp hc = (tt, tt, omega arith, omega arith)
  min_seq_of-Step hi (p ∷ ps) [] lt hp hc =
      if_lem (Step hi (p ∷ ps) []) (p.0 == 0) pops_rtp (found p.0) (λ e. refl)
        (λ e. ((omega arith, hp.1, hp.2), tt, ground (arith, e), omega (arith, hp.1, lt)))
  min_seq_of-Step hi [] (c ∷ cs) lt hp hc =
      if_lem (Step hi [] (c ∷ cs)) (c.0 == 0) pops_rtcp (found c.0) (λ e. refl)
        (λ e. (tt, (omega arith, hc.1, hc.2), ground (arith, e), omega (arith, hc.1, lt)))
  min_seq_of-Step hi (p ∷ ps) (c ∷ cs) lt hp hc =
      let S = Step hi (p ∷ ps) (c ∷ cs) in
      if_lem S (ltb p.0 c.0) (if p.0 == 0 then pops_rtp else found p.0)
        (if c.0 == 0 then pops_rtcp else found c.0)
        (λ d.
          if_lem S (p.0 == 0) pops_rtp (found p.0) (λ e. refl)
            (λ e. (
              (omega arith, hp.1, hp.2),
              (ground (arith, d), hc.1, hc.2),
              ground (arith, e),
              omega (arith, hp.1, lt),
            )))
        (λ d.
          if_lem S (c.0 == 0) pops_rtcp (found c.0) (λ e. refl)
            (λ e. (
              (ground (arith, d), hp.1, hp.2),
              (omega arith, hc.1, hc.2),
              ground (arith, e),
              omega (arith, hc.1, lt),
            )))

module _ {B M Ch : Type 0} (buffers : Buffers B (ℕ × M)) where
  -- The numbers of each cache rise, up to the number that was given last, and there is room.
  pub record Inv (t : Track B Ch) : Type 0 where
    pub rtp_rises : Rising 0 t.seq (buffers.contents t.rtp_cache)
    pub rtcp_rises : Rising 0 t.seq (buffers.contents t.rtcp_cache)
    pub seq_fits : t.seq < 2 ^ 32
    pub rtp_room : 0 < buffers.capacity t.rtp_cache
    pub rtcp_room : 0 < buffers.capacity t.rtcp_cache

  pub pop_rtp-Inv : (t : Track B Ch) → Inv t → Inv (pop_rtp buffers t)
  pop_rtp-Inv t i = record {
    rtp_rises =
        subst (Rising 0 t.seq) (sym (buffers.pop_contents t.rtp_cache))
          (Rising-tail 0 t.seq (buffers.contents t.rtp_cache) i.rtp_rises);
    rtcp_rises = i.rtcp_rises;
    seq_fits = i.seq_fits;
    rtp_room = subst (λ n. 0 < n) (sym (buffers.pop_capacity t.rtp_cache)) i.rtp_room;
    rtcp_room = i.rtcp_room;
  }

  pub pop_rtcp-Inv : (t : Track B Ch) → Inv t → Inv (pop_rtcp buffers t)
  pop_rtcp-Inv t i = record {
    rtp_rises = i.rtp_rises;
    rtcp_rises =
        subst (Rising 0 t.seq) (sym (buffers.pop_contents t.rtcp_cache))
          (Rising-tail 0 t.seq (buffers.contents t.rtcp_cache) i.rtcp_rises);
    seq_fits = i.seq_fits;
    rtp_room = i.rtp_room;
    rtcp_room = subst (λ n. 0 < n) (sym (buffers.pop_capacity t.rtcp_cache)) i.rtcp_room;
  }

  -- A least number that is not 0, with a state that satisfies the invariant.
  abbrev Least : Track B Ch × ℕ → Type 0
  Least r =
      Inv r.0
      × Rising r.1 r.0.seq (buffers.contents r.0.rtp_cache)
      × Rising r.1 r.0.seq (buffers.contents r.0.rtcp_cache)
      × (1 ≤ r.1)
      × (r.1 ≤ 4294967295)

  abbrev Settles : Track B Ch → Option (Track B Ch × ℕ) → Type 0
  Settles t o = (r : Track B Ch × ℕ) × (o ≡ some r) × Least r × (r.0.seq ≡ t.seq)

  settle :
      (fuel : ℕ) (t : Track B Ch) (k : MinSeq)
      → cached buffers t < suc fuel
      → Inv t
      → Step t.seq (buffers.contents t.rtp_cache) (buffers.contents t.rtcp_cache) k
      → ((u : Track B Ch)
          → cached buffers u < fuel
          → Inv u
          → Settles u (makesure_min_seq buffers fuel u))
      → Settles t (elim k as (λ z. Option (Track B Ch × ℕ)) [
        | found n ↦ some (t, n)
        | pops_rtp ↦ makesure_min_seq buffers fuel (pop_rtp buffers t)
        | pops_rtcp ↦ makesure_min_seq buffers fuel (pop_rtcp buffers t)
      ])
  settle fuel t (found n) lt i h ih = ((t, n), refl, (i, h.0, h.1, h.2, h.3), refl)
  settle fuel t pops_rtp lt i h ih =
      ih (pop_rtp buffers t) (omega (arith, lt, h, ap length (buffers.pop_contents t.rtp_cache)))
        (pop_rtp-Inv t i)
  settle fuel t pops_rtcp lt i h ih =
      ih (pop_rtcp buffers t) (omega (arith, lt, h, ap length (buffers.pop_contents t.rtcp_cache)))
        (pop_rtcp-Inv t i)

  makesure_min_seq-Settles :
      (fuel : ℕ) (t : Track B Ch)
      → cached buffers t < fuel
      → Inv t
      → Settles t (makesure_min_seq buffers fuel t)
  unfolding makesure_min_seq
  makesure_min_seq-Settles zero t lt i = absurd (omega (arith, lt))
  makesure_min_seq-Settles (suc fuel) t lt i =
      let ps = buffers.contents t.rtp_cache in
      let cs = buffers.contents t.rtcp_cache in
      settle fuel t (min_seq_of (head ps) (head cs)) lt i
        (min_seq_of-Step t.seq ps cs i.seq_fits i.rtp_rises i.rtcp_rises)
        (makesure_min_seq-Settles fuel)

  -- A state that satisfies the invariant and has a number left.
  abbrev pub Ready : Option (Track B Ch) → Type 0
  Ready o = (u : Track B Ch) × (o ≡ some u) × Inv u × (u.seq < 4294967295)

  shift-Inv :
      (n : ℕ) (t : Track B Ch)
      → t.seq ≡ 4294967295
      → Least (t, n)
      → Inv (shift buffers n t) × ((shift buffers n t).seq < 4294967295)
  shift-Inv n t e h =
      let i = h.0 in
      let s : sub32 t.seq n ≡ t.seq - n = sub32-lem t.seq n (omega (arith, e, h)) i.seq_fits in
      let rise : (b : B)
          → Rising n t.seq (buffers.contents b)
          → Rising 0 (sub32 t.seq n)
              (buffers.contents (buffers.for_each (λ e. (sub32 e.0 n, e.1)) b)) =
        λ b h.
          subst (Rising 0 (sub32 t.seq n)) (sym (buffers.each_contents (λ e. (sub32 e.0 n, e.1)) b))
            (subst (λ hi. Rising 0 hi (map (λ e. (sub32 e.0 n, e.1)) (buffers.contents b))) (sym s)
              (Rising-weaken 0 (n - n) (t.seq - n)
                (map (λ e. (sub32 e.0 n, e.1)) (buffers.contents b)) (omega arith)
                (Rising-shift n n t.seq (buffers.contents b) (omega arith) i.seq_fits h))) in
      (
        record {
          rtp_rises = rise t.rtp_cache h.1;
          rtcp_rises = rise t.rtcp_cache h.2;
          seq_fits = omega (arith, s, i.seq_fits);
          rtp_room =
              subst (λ n. 0 < n) (sym (buffers.each_capacity (λ e. (sub32 e.0 n, e.1)) t.rtp_cache))
                i.rtp_room;
          rtcp_room =
              subst (λ n. 0 < n)
                (sym (buffers.each_capacity (λ e. (sub32 e.0 n, e.1)) t.rtcp_cache)) i.rtcp_room;
        },
        omega (arith, s, h, e),
      )

  pub renumber-Ready : (t : Track B Ch) → Inv t → Ready (renumber buffers t)
  unfolding renumber
  renumber-Ready t i =
      let l = makesure_min_seq-Settles (suc (cached buffers t)) t (omega arith) i in
      let again : Option (Track B Ch × ℕ) → Option (Track B Ch) =
        λ o. elim o [ none ↦ none | some r ↦ some (shift buffers r.1 r.0) ] in
      if_lem Ready (t.seq == 4294967295)
        (again (makesure_min_seq buffers (suc (cached buffers t)) t)) (some t)
        (λ e.
          let s = shift-Inv l.0.1 l.0.0 (l.3 ∙ (==_iff t.seq 4294967295).0 e) l.2 in
          subst (λ o. Ready (again o)) (sym l.1) (shift buffers l.0.1 l.0.0, refl, s.0, s.1))
        (λ e. (t, refl, i, ground (arith, e, i.seq_fits)))

  pub renumber_keeps : (t : Track B Ch) → t.seq < 4294967295 → renumber buffers t ≡ some t
  unfolding renumber
  renumber_keeps t lt =
      if_lem (λ o. o ≡ some t) (t.seq == 4294967295)
        (elim (makesure_min_seq buffers (suc (cached buffers t)) t) as (λ z. Option (Track B Ch)) [
          | none ↦ none
          | some r ↦ some (shift buffers r.1 r.0)
        ])
        (some t) (λ e. absurd (ground (arith, lt, e))) (λ e. refl)
