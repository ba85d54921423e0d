-- ===== src/CfgoSrc/Pads/Release.antt =====
-- What the destructor of a channel gives back.
use conference_go_client.Common.{
  ℕ, ◌+◌, ◌==◌, Bool, true, false, List, [], ◌∷◌, ◌++◌, count, count-append, ◌≡◌, refl, ap,
  if◌then◌else◌, arith,
}
use conference_go_client.CfgoSrc.Pads.{
  Mode, Channel, World, ref, unref, create_processor, has_processor, init, unref_all, destruct,
}
use conference_go_client.CfgoSrc.Pads.References.{taken, given, Held, Call, calls, calls-Held}

unref_all_lem :
    (q : ℕ) (ps : List ℕ) (w : World)
    → (given q (unref_all ps w) ≡ given q w + count (λ x. x == q) ps)
      × ((unref_all ps w).taken ≡ w.taken)
      × ((unref_all ps w).processors_taken ≡ w.processors_taken)
      × ((unref_all ps w).processors_given ≡ w.processors_given)
unref_all_lem q [] w = (omega arith, refl, refl, refl)
unref_all_lem q (p ∷ ps) w =
    let ih = unref_all_lem q ps (unref p w) in
    (ground (arith, ih.0, count-append (λ y. y == q) w.given (p ∷ [])), ih.1, ih.2, ih.3)

destruct_step :
    (b : Bool) (p : ℕ) (c : Channel) (w : World)
    → c.processor ≡ b
    → Held c w
    → let w1 = unref c.pad w in
      let w2 = if b then record w1 { processors_given = w1.processors_given + 1 } else w1 in
      (taken p (unref_all c.pads w2) ≡ given p (unref_all c.pads w2))
      × ((unref_all c.pads w2).processors_taken ≡ (unref_all c.pads w2).processors_given)
destruct_step true p c w e h =
    let w2 : World = record w {
      given = w.given ++ (c.pad ∷ []);
      processors_given = w.processors_given + 1;
    } in
    let u = unref_all_lem p c.pads w2 in
    (
      ground (
        arith,
        h.pads_held p,
        u.0,
        ap (count (λ x. x == p)) u.1,
        count-append (λ y. y == p) w.given (c.pad ∷ []),
      ),
      ground (arith, h.processor_held, u.2, u.3, e),
    )
destruct_step false p c w e h =
    let u = unref_all_lem p c.pads (unref c.pad w) in
    (
      ground (
        arith,
        h.pads_held p,
        u.0,
        ap (count (λ x. x == p)) u.1,
        count-append (λ y. y == p) w.given (c.pad ∷ []),
      ),
      ground (arith, h.processor_held, u.2, u.3, e),
    )

first_ref :
    (pad : ℕ) (c : Channel) (w : World)
    → c.pads ≡ []
    → c.processor ≡ false
    → ((q : ℕ) → taken q w ≡ given q w)
    → w.processors_taken ≡ w.processors_given
    → Held (record c { pad = pad }) (ref pad w)
first_ref pad c w hp hc ht hw = record {
  pads_held = λ q.
      ground (
        arith,
        ht q,
        hp,
        count-append (λ x. x == q) w.taken (pad ∷ []),
        ap (count (λ x. x == q)) hp,
      );
  processor_held = ground (arith, hw, hc);
}

init_step :
    (k : Bool) (works : Bool) (pad : ℕ) (c : Channel) (w : World)
    → c.pads ≡ []
    → c.processor ≡ false
    → ((q : ℕ) → taken q w ≡ given q w)
    → w.processors_taken ≡ w.processors_given
    → let c1 : Channel = record c { pad = pad } in
      let s =
        if◌then◌else◌ {A = Channel × World} k
          (create_processor works c1 (ref pad w))
          (c1, ref pad w) in
      Held s.0 s.1
unfolding create_processor
init_step false works pad c w hp hc ht hw = first_ref pad c w hp hc ht hw
init_step true false pad c w hp hc ht hw = first_ref pad c w hp hc ht hw
init_step true true pad c w hp hc ht hw =
    let r = first_ref pad c w hp hc ht hw in
    record { pads_held = r.pads_held; processor_held = omega (arith, hw) }

-- From a new channel that is initialised once, in a mode that is not switched, after any calls to
-- install and remove ghost pads and to destroy the processor, the destructor leaves every pad, and the processor, with as many references given back as
-- were taken.
pub destruct-balanced :
    (mode : Mode) (works : Bool) (sessid ssrc pt pad : ℕ) (ks : List Call) (p : ℕ) (c : Channel)
    (w : World)
    → c.pads ≡ []
    → c.processor ≡ false
    → ((q : ℕ) → taken q w ≡ given q w)
    → w.processors_taken ≡ w.processors_given
    → let s = calls mode ks (init mode works sessid ssrc pt pad c w) in
      (taken p (destruct s.0 s.1) ≡ given p (destruct s.0 s.1))
      × ((destruct s.0 s.1).processors_taken ≡ (destruct s.0 s.1).processors_given)
unfolding destruct init
destruct-balanced mode works sessid ssrc pt pad ks p c w hp hc ht hw =
    let s : Channel × World = calls mode ks (init mode works sessid ssrc pt pad c w) in
    destruct_step s.0.processor p s.0 s.1 refl (
      calls-Held mode ks (init mode works sessid ssrc pt pad c w) (
        init_step (has_processor mode) works pad
          (record c { sessid = sessid; ssrc = ssrc; pt = pt }) w hp hc ht hw))
