-- ===== src/Track/Delivery.antt =====
-- src/impl/track.cpp: which message `receive_msg` takes, and what is left.
use conference_go_client.Common.{
  if_lem, ℕ, suc, ◌+◌, ◌≡◌, refl, sym, subst, ap, ltb, Bool, true, false, Option, none, some, List,
  [], ◌∷◌, length, arith, ◌⊎◌, inl, inr, Bool-cases, ◌∙◌,
}
use conference_go_client.Buffer.{Buffers, front, head, tail}
use conference_go_client.Track.{
  Track, MsgType, rtp_msg, rtcp_msg, all_msgs, pop_rtp, pop_rtcp, cached, receive_msg, chosen, took,
}
use conference_go_client.Track.Sequence.{Rising, Rising-weaken, Inv, pop_rtp-Inv, pop_rtcp-Inv}

module _ {M : Type 0} where
  -- The cache that is chosen has a front.
  abbrev Taken : List (ℕ × M) → List (ℕ × M) → Option Bool → Type 0
  Taken ps cs none = Unit
  Taken ps cs (some true) = (e : ℕ × M) × (head cs ≡ some e) × (suc (length (tail cs)) ≡ length cs)
  Taken ps cs (some false) = (e : ℕ × M) × (head ps ≡ some e) × (suc (length (tail ps)) ≡ length ps)

  chosen-Taken : (k : MsgType) (ps cs : List (ℕ × M)) → Taken ps cs (chosen k (head ps) (head cs))
  unfolding chosen
  chosen-Taken rtp_msg [] cs = tt
  chosen-Taken rtp_msg (p ∷ ps) cs = (p, refl, refl)
  chosen-Taken rtcp_msg ps [] = tt
  chosen-Taken rtcp_msg ps (c ∷ cs) = (c, refl, refl)
  chosen-Taken all_msgs [] [] = tt
  chosen-Taken all_msgs [] (c ∷ cs) = (c, refl, refl)
  chosen-Taken all_msgs (p ∷ ps) [] = (p, refl, refl)
  chosen-Taken all_msgs (p ∷ ps) (c ∷ cs) =
      if_lem (Taken (p ∷ ps) (c ∷ cs)) (ltb c.0 p.0) (some true) (some false) (λ e. (c, refl, refl))
        (λ e. (p, refl, refl))

  -- How many messages a result holds.
  abbrev pub one_if : Option (ℕ × M) → ℕ
  one_if none = 0
  one_if (some e) = 1

  -- What is taken is the front of a cache, and nothing that is left has a lower number.
  abbrev Pick : ℕ → List (ℕ × M) → List (ℕ × M) → Option Bool → Type 0
  Pick hi ps cs none = length ps + length cs ≡ 0
  Pick hi ps cs (some true) =
      (e : ℕ × M) × (head cs ≡ some e)
      × (cs ≡ e ∷ tail cs)
      × Rising e.0 hi ps
      × Rising e.0 hi (tail cs)
  Pick hi ps cs (some false) =
      (e : ℕ × M) × (head ps ≡ some e)
      × (ps ≡ e ∷ tail ps)
      × Rising e.0 hi (tail ps)
      × Rising e.0 hi cs

  chosen-Pick :
      (hi : ℕ) (ps cs : List (ℕ × M))
      → Rising 0 hi ps
      → Rising 0 hi cs
      → Pick hi ps cs (chosen all_msgs (head ps) (head cs))
  unfolding chosen
  chosen-Pick hi [] [] hp hc = refl
  chosen-Pick hi [] (c ∷ cs) hp hc =
      (c, refl, refl, tt, Rising-weaken c.0 (suc c.0) hi cs (omega arith) hc.2)
  chosen-Pick hi (p ∷ ps) [] hp hc =
      (p, refl, refl, Rising-weaken p.0 (suc p.0) hi ps (omega arith) hp.2, tt)
  chosen-Pick hi (p ∷ ps) (c ∷ cs) hp hc =
      if_lem (Pick hi (p ∷ ps) (c ∷ cs)) (ltb c.0 p.0) (some true) (some false)
        (λ e. (
          c,
          refl,
          refl,
          (ground (arith, e), hp.1, hp.2),
          Rising-weaken c.0 (suc c.0) hi cs (omega arith) hc.2,
        ))
        (λ e. (
          p,
          refl,
          refl,
          Rising-weaken p.0 (suc p.0) hi ps (omega arith) hp.2,
          (ground (arith, e), hc.1, hc.2),
        ))

module _ {B M Ch : Type 0} (buffers : Buffers B (ℕ × M)) where
  abbrev taking : MsgType → Track B Ch → Option Bool
  taking k t = chosen k (front buffers t.rtp_cache) (front buffers t.rtcp_cache)

  receive_msg-took :
      (k : MsgType) (t : Track B Ch)
      → t.inited ≡ true
      → receive_msg buffers k t ≡ some (took buffers t (taking k t))
  unfolding receive_msg
  receive_msg-took k t h = cc h

  took_keeps :
      (t : Track B Ch) (o : Option Bool)
      → Inv buffers t
      → Taken (buffers.contents t.rtp_cache) (buffers.contents t.rtcp_cache) o
      → Inv buffers (took buffers t o).0
        × (cached buffers t ≡ cached buffers (took buffers t o).0 + one_if (took buffers t o).1)
  took_keeps t none i h = (i, omega arith)
  took_keeps t (some true) i h = (
    pop_rtcp-Inv buffers t i,
    omega (arith, h.2, ap one_if h.1, ap length (buffers.pop_contents t.rtcp_cache)),
  )
  took_keeps t (some false) i h = (
    pop_rtp-Inv buffers t i,
    omega (arith, h.2, ap one_if h.1, ap length (buffers.pop_contents t.rtp_cache)),
  )

  -- On a prepared track whose caches hold rising numbers: `receive_msg`, of RTP, of RTCP or of both,
  -- keeps the numbers rising, and takes one message out of the caches where it returns one, and none
  -- otherwise.
  receive_msg-Inv :
      (k : MsgType) (t : Track B Ch)
      → t.inited ≡ true
      → Inv buffers t
      → (r : Track B Ch × Option (ℕ × M)) × (receive_msg buffers k t ≡ some r)
        × Inv buffers r.0
        × (cached buffers t ≡ cached buffers r.0 + one_if r.1)
  receive_msg-Inv k t h i =
      let kept =
        took_keeps t (taking k t) i
          (chosen-Taken k (buffers.contents t.rtp_cache) (buffers.contents t.rtcp_cache)) in
      (took buffers t (taking k t), receive_msg-took k t h, kept.0, kept.1)

  -- The message is the front of one cache, which is left without it; the other cache is as before.
  abbrev pub Removed : ℕ × M → Track B Ch → Track B Ch → Type 0
  Removed e t u =
      ((buffers.contents t.rtp_cache ≡ e ∷ buffers.contents u.rtp_cache)
        × (buffers.contents t.rtcp_cache ≡ buffers.contents u.rtcp_cache))
      ⊎ ((buffers.contents t.rtcp_cache ≡ e ∷ buffers.contents u.rtcp_cache)
          × (buffers.contents t.rtp_cache ≡ buffers.contents u.rtp_cache))

  -- Where nothing is returned both caches were empty and the track is as before; what is returned was
  -- taken out, and its number is not above any that is left.
  abbrev pub Oldest : Track B Ch → Track B Ch → Option (ℕ × M) → Type 0
  Oldest t u none = (cached buffers t ≡ 0) × (u ≡ t)
  Oldest t u (some e) =
      Removed e t u
      × Rising e.0 t.seq (buffers.contents u.rtp_cache)
      × Rising e.0 t.seq (buffers.contents u.rtcp_cache)

  -- An exception is for a track that is not prepared, anything else for one that is.
  abbrev pub Received : Track B Ch → Option (Track B Ch × Option (ℕ × M)) → Type 0
  Received t none = t.inited ≡ false
  Received t (some r) = (t.inited ≡ true) × Oldest t r.0 r.1

  took-Oldest :
      (t : Track B Ch) (o : Option Bool)
      → Pick t.seq (buffers.contents t.rtp_cache) (buffers.contents t.rtcp_cache) o
      → Oldest t (took buffers t o).0 (took buffers t o).1
  took-Oldest t none h = (h, refl)
  took-Oldest t (some true) h =
      let left = sym (buffers.pop_contents t.rtcp_cache) in
      subst (Oldest t (pop_rtcp buffers t)) (sym h.1) (
        inr (h.2 ∙ ap (λ (l : List (ℕ × M)). h.0 ∷ l) left, refl),
        h.3,
        subst (Rising h.0.0 t.seq) left h.4,
      )
  took-Oldest t (some false) h =
      let left = sym (buffers.pop_contents t.rtp_cache) in
      subst (Oldest t (pop_rtp buffers t)) (sym h.1) (
        inl (h.2 ∙ ap (λ (l : List (ℕ × M)). h.0 ∷ l) left, refl),
        subst (Rising h.0.0 t.seq) left h.3,
        h.4,
      )

  -- On a track whose caches hold rising numbers: `receive_msg` of both kinds throws exactly when the
  -- track is not prepared. Otherwise it returns nothing, and changes nothing, only if both caches are
  -- empty, and else the front of one cache, which it takes out while the other cache stays as it was,
  -- and whose number is not above any that is left.
  pub receive_msg-Received :
      (t : Track B Ch) → Inv buffers t → Received t (receive_msg buffers all_msgs t)
  unfolding receive_msg
  receive_msg-Received t i = elim (Bool-cases t.inited) [
    | inl e ↦ subst (Received t) (sym (receive_msg-took all_msgs t e)) (
      e,
      took-Oldest t (taking all_msgs t) (
          chosen-Pick t.seq (buffers.contents t.rtp_cache) (buffers.contents t.rtcp_cache)
            i.rtp_rises i.rtcp_rises),
    )
    | inr e ↦
        let thrown : none ≡ receive_msg buffers all_msgs t = cc e in subst (Received t) thrown e
  ]
