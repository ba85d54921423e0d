-- ===== src/Track/Renumbering.antt =====
-- src/impl/track.cpp: which messages the renumbering at the start of `on_track_msg` keeps.
use conference_go_client.Common.{
  sub32, if_lem, ℕ, zero, suc, ◌==◌, ◌≡◌, refl, subst, ap, ltb, Bool-cases, true, false, Option,
  none, some, List, [], ◌∷◌, ◌++◌, All, map, arith, if◌then◌else◌, ◌⊎◌, inl, inr,
}
use conference_go_client.Buffer.{Buffers, head, tail, front}
use conference_go_client.Track.{
  Track, MinSeq, found, pops_rtp, pops_rtcp, min_seq_of, makesure_min_seq, pop_rtp, pop_rtcp,
  cached, shift, renumber,
}

module _ {M : Type 0} where
  -- A list without some entries at its front, which have the number 0.
  abbrev pub Lost : List (ℕ × M) → List (ℕ × M) → Type 0
  Lost es fs = (gone : List (ℕ × M)) × (es ≡ gone ++ fs) × All (λ e. e.0 ≡ 0) gone

  -- Every number less by `n`.
  abbrev pub lowered : ℕ → List (ℕ × M) → List (ℕ × M)
  lowered n es = map (λ e. (sub32 e.0 n, e.1)) es

  abbrev IsZero : Option (ℕ × M) → Type 0
  IsZero none = ⊥
  IsZero (some e) = e.0 ≡ 0

  Lost-tail : (es fs : List (ℕ × M)) → IsZero (head es) → Lost (tail es) fs → Lost es fs
  Lost-tail [] fs z h = absurd z
  Lost-tail (e ∷ es) fs z h = (e ∷ h.0, ap (λ (l : List (ℕ × M)). e ∷ l) h.1, (z, h.2))

  -- Only a message with the number 0 is popped.
  abbrev Pops : Option (ℕ × M) → Option (ℕ × M) → MinSeq → Type 0
  Pops p c (found n) = Unit
  Pops p c pops_rtp = IsZero p
  Pops p c pops_rtcp = IsZero c

  min_seq_of-Pops : (p c : Option (ℕ × M)) → Pops p c (min_seq_of p c)
  unfolding min_seq_of
  min_seq_of-Pops none none = tt
  min_seq_of-Pops none (some c) =
      if_lem (Pops none (some c)) (c.0 == 0) pops_rtcp (found c.0) (λ e. ground (arith, e))
        (λ e. tt)
  min_seq_of-Pops (some p) none =
      if_lem (Pops (some p) none) (p.0 == 0) pops_rtp (found p.0) (λ e. ground (arith, e)) (λ e. tt)
  min_seq_of-Pops (some p) (some c) =
      let P = Pops (some p) (some c) in
      if_lem P (ltb p.0 c.0) (if p.0 == 0 then pops_rtp else found p.0)
        (if c.0 == 0 then pops_rtcp else found c.0)
        (λ d. if_lem P (p.0 == 0) pops_rtp (found p.0) (λ e. ground (arith, e)) (λ e. tt))
        (λ d. if_lem P (c.0 == 0) pops_rtcp (found c.0) (λ e. ground (arith, e)) (λ e. tt))

module _ {B M Ch : Type 0} (buffers : Buffers B (ℕ × M)) where
  -- Both caches, and the last number.
  abbrev LostBoth : Track B Ch → Track B Ch → Type 0
  LostBoth t u =
      Lost (buffers.contents t.rtp_cache) (buffers.contents u.rtp_cache)
      × Lost (buffers.contents t.rtcp_cache) (buffers.contents u.rtcp_cache)
      × (u.seq ≡ t.seq)

  abbrev LostIn : Track B Ch → Option (Track B Ch × ℕ) → Type 0
  LostIn t none = Unit
  LostIn t (some r) = LostBoth t r.0

  pop_rtp-LostIn :
      (t : Track B Ch) (o : Option (Track B Ch × ℕ))
      → IsZero (front buffers t.rtp_cache)
      → LostIn (pop_rtp buffers t) o
      → LostIn t o
  pop_rtp-LostIn t none z h = tt
  pop_rtp-LostIn t (some r) z h = (
    Lost-tail (buffers.contents t.rtp_cache) (buffers.contents r.0.rtp_cache) z (
        subst (λ (l : List (ℕ × M)). Lost l (buffers.contents r.0.rtp_cache))
          (buffers.pop_contents t.rtp_cache) h.0),
    h.1,
    h.2,
  )

  pop_rtcp-LostIn :
      (t : Track B Ch) (o : Option (Track B Ch × ℕ))
      → IsZero (front buffers t.rtcp_cache)
      → LostIn (pop_rtcp buffers t) o
      → LostIn t o
  pop_rtcp-LostIn t none z h = tt
  pop_rtcp-LostIn t (some r) z h = (
    h.0,
    Lost-tail (buffers.contents t.rtcp_cache) (buffers.contents r.0.rtcp_cache) z (
        subst (λ (l : List (ℕ × M)). Lost l (buffers.contents r.0.rtcp_cache))
          (buffers.pop_contents t.rtcp_cache) h.1),
    h.2,
  )

  by_step :
      (fuel : ℕ) (t : Track B Ch) (k : MinSeq)
      → Pops (front buffers t.rtp_cache) (front buffers t.rtcp_cache) k
      → ((u : Track B Ch) → LostIn u (makesure_min_seq buffers fuel u))
      → LostIn t (elim k as (λ z. Option (Track B Ch × ℕ)) [
        | found n ↦ some (t, n)
        | pops_rtp ↦ makesure_min_seq buffers fuel (pop_rtp buffers t)
        | pops_rtcp ↦ makesure_min_seq buffers fuel (pop_rtcp buffers t)
      ])
  by_step fuel t (found n) h ih = (([], refl, tt), ([], refl, tt), refl)
  by_step fuel t pops_rtp h ih =
      pop_rtp-LostIn t (makesure_min_seq buffers fuel (pop_rtp buffers t)) h
        (ih (pop_rtp buffers t))
  by_step fuel t pops_rtcp h ih =
      pop_rtcp-LostIn t (makesure_min_seq buffers fuel (pop_rtcp buffers t)) h
        (ih (pop_rtcp buffers t))

  makesure_min_seq-LostIn : (fuel : ℕ) (t : Track B Ch) → LostIn t (makesure_min_seq buffers fuel t)
  unfolding makesure_min_seq
  makesure_min_seq-LostIn zero t = tt
  makesure_min_seq-LostIn (suc fuel) t =
      by_step fuel t (min_seq_of (front buffers t.rtp_cache) (front buffers t.rtcp_cache))
        (min_seq_of-Pops (front buffers t.rtp_cache) (front buffers t.rtcp_cache))
        (makesure_min_seq-LostIn fuel)

  -- The renumbering changes nothing while there are numbers left. Else it subtracts one number from
  -- the last number and from those of all messages in both caches, but for those of number 0 at the
  -- front of a cache, which are lost.
  abbrev pub Renumbered : Track B Ch → Track B Ch → Type 0
  Renumbered t u =
      (((t.seq == 4294967295) ≡ false) × (u ≡ t))
      ⊎ (((t.seq == 4294967295) ≡ true)
          × (n : ℕ) × (ps : List (ℕ × M)) × (cs : List (ℕ × M)) × Lost
              (buffers.contents t.rtp_cache) ps
          × Lost (buffers.contents t.rtcp_cache) cs
          × (buffers.contents u.rtp_cache ≡ lowered n ps)
          × (buffers.contents u.rtcp_cache ≡ lowered n cs)
          × (u.seq ≡ sub32 t.seq n))

  lowers :
      (t u : Track B Ch) (o : Option (Track B Ch × ℕ))
      → (t.seq == 4294967295) ≡ true
      → LostIn t o
      → (elim o as (λ z. Option (Track B Ch)) [
        | none ↦ none
        | some r ↦ some (shift buffers r.1 r.0)
      ])
        ≡ some u
      → Renumbered t u
  lowers t u none e h q = absurd (cc q)
  lowers t u (some r) e h q =
      let same : shift buffers r.1 r.0 ≡ u = cc q in
      subst (Renumbered t) same (
        inr (
          e,
          r.1,
          buffers.contents r.0.rtp_cache,
          buffers.contents r.0.rtcp_cache,
          h.0,
          h.1,
          buffers.each_contents (λ e. (sub32 e.0 r.1, e.1)) r.0.rtp_cache,
          buffers.each_contents (λ e. (sub32 e.0 r.1, e.1)) r.0.rtcp_cache,
          ap (λ (s : ℕ). sub32 s r.1) h.2,
        ))

  pub renumber-Renumbered : (t u : Track B Ch) → renumber buffers t ≡ some u → Renumbered t u
  unfolding renumber
  renumber-Renumbered t u h = elim (Bool-cases (t.seq == 4294967295)) [
    | inl e ↦
        lowers t u (makesure_min_seq buffers (suc (cached buffers t)) t) e
          (makesure_min_seq-LostIn (suc (cached buffers t)) t) (cc (e, h))
    | inr e ↦ let same : u ≡ t = cc (e, h) in inl (e, same)
  ]
