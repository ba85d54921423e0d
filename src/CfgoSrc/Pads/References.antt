-- ===== src/CfgoSrc/Pads/References.antt =====
-- The references that a channel takes are given back, as long as the mode is not switched.
use conference_go_client.Common.{
  ℕ, ◌+◌, ◌==◌, Bool, true, false, not, Option, none, some, List, [], ◌∷◌, ◌++◌, count,
  count-append, ◌≡◌, refl, ap, if◌then◌else◌, arith,
}
use conference_go_client.CfgoSrc.Pads.{
  Mode, Prefix, Channel, World, ref, unref, destroy_processor, has_template, keeps_pad,
  install_ghost, add_ghost, drop_ghost, erase_pad, uninstall_ghost,
}

-- The references to a pad that a channel holds, and those to its processor.
abbrev pub held : ℕ → Channel → ℕ
held p c = count (λ q. q == p) (c.pad ∷ c.pads)

abbrev pub taken : ℕ → World → ℕ
taken p w = count (λ q. q == p) w.taken

abbrev pub given : ℕ → World → ℕ
given p w = count (λ q. q == p) w.given

abbrev pub held_processor : Channel → ℕ
held_processor c = if c.processor then 1 else 0

-- What was taken is what was given back and what the channel holds.
pub record Held (c : Channel) (w : World) : Type 0 where
  pub pads_held : (p : ℕ) → taken p w ≡ given p w + held p c
  pub processor_held : w.processors_taken ≡ w.processors_given + held_processor c

-- The calls that a channel gets while its mode stays.
pub data Call : Type 0 where
  installs : Prefix → ℕ → Call
  uninstalls : Bool → ℕ → Call
  destroys : Call

abbrev pub call : Mode → Call → Channel × World → Channel × World
call mode (installs prefix p) s = install_ghost mode prefix p s.0 s.1
call mode (uninstalls remove p) s = uninstall_ghost remove p s.0 s.1
call mode destroys s = destroy_processor s.0 s.1

abbrev pub calls : Mode → List Call → Channel × World → Channel × World
calls mode [] s = s
calls mode (k ∷ ks) s = calls mode ks (call mode k s)

kept_pad :
    (p : ℕ) (c : Channel) (w : World)
    → Held c w
    → Held (record c { pads = c.pads ++ (p ∷ []) }) (ref p w)
kept_pad p c w h = record {
  pads_held = λ q. ground (
    arith,
    h.pads_held q,
    count-append (λ x. x == q) w.taken (p ∷ []),
    count-append (λ x. x == q) c.pads (p ∷ []),
  );
  processor_held = h.processor_held;
}

install_step :
    (k t : Bool) (p : ℕ) (c : Channel) (w : World)
    → Held c w
    → let w1 = if k then ref p w else w in
      Held
        (if k then record c { pads = c.pads ++ (p ∷ []) } else c)
        (if t then add_ghost p w1 else w1)
install_step true true p c w h =
    let r = kept_pad p c w h in
    record { pads_held = r.pads_held; processor_held = r.processor_held }
install_step true false p c w h = kept_pad p c w h
install_step false true p c w h = record {
  pads_held = h.pads_held;
  processor_held = h.processor_held;
}
install_step false false p c w h = h

install_ghost-Held :
    (mode : Mode) (prefix : Prefix) (p : ℕ) (c : Channel) (w : World)
    → Held c w
    → Held (install_ghost mode prefix p c w).0 (install_ghost mode prefix p c w).1
unfolding install_ghost
install_ghost-Held mode prefix p c w h =
    install_step (keeps_pad mode prefix) (has_template mode prefix) p c w h

drop_ghost-Held :
    (g : Option ℕ) (p : ℕ) (c : Channel) (w : World) → Held c w → Held c (drop_ghost g p w)
drop_ghost-Held none p c w h = h
drop_ghost-Held (some g) p c w h = record {
  pads_held = h.pads_held;
  processor_held = h.processor_held;
}

abbrev Erased : ℕ → List ℕ → World → List ℕ × World → Type 0
Erased q ps w rest =
    (given q rest.1 + count (λ x. x == q) rest.0 ≡ given q w + count (λ x. x == q) ps)
    × (rest.1.taken ≡ w.taken)
    × (rest.1.processors_taken ≡ w.processors_taken)
    × (rest.1.processors_given ≡ w.processors_given)

erase_step :
    (b : Bool) (p q x : ℕ) (xs : List ℕ) (w : World)
    → (x == p) ≡ b
    → let rest = erase_pad p xs (if b then unref p w else w) in
      Erased q xs (if b then unref p w else w) rest
      → Erased q (x ∷ xs) w (if b then rest.0 else x ∷ rest.0, rest.1)
erase_step true p q x xs w e ih =
    (ground (arith, ih.0, count-append (λ y. y == q) w.given (p ∷ [])), ih.1, ih.2, ih.3)
erase_step false p q x xs w e ih = (ground (arith, ih.0), ih.1, ih.2, ih.3)

erase_pad_lem : (p q : ℕ) (ps : List ℕ) (w : World) → Erased q ps w (erase_pad p ps w)
erase_pad_lem p q [] w = (refl, refl, refl, refl)
erase_pad_lem p q (x ∷ xs) w =
    erase_step (x == p) p q x xs w refl (erase_pad_lem p q xs (if x == p then unref p w else w))

uninstall_step :
    (remove : Bool) (p : ℕ) (c : Channel) (w : World)
    → Held c w
    → let erased = erase_pad p c.pads w in
      let s =
        if◌then◌else◌ {A = Channel × World} remove
          (record c { pads = erased.0 }, erased.1)
          (c, w) in
      Held s.0 s.1
uninstall_step false p c w h = h
uninstall_step true p c w h =
    let after = erase_pad_lem p 0 c.pads w in
    record {
      pads_held = λ q. ground (
        arith,
        h.pads_held q,
        (erase_pad_lem p q c.pads w).0,
        ap (count (λ x. x == q)) (erase_pad_lem p q c.pads w).1,
      );
      processor_held = omega (arith, h.processor_held, after.2, after.3);
    }

uninstall_ghost-Held :
    (remove : Bool) (p : ℕ) (c : Channel) (w : World)
    → Held c w
    → Held (uninstall_ghost remove p c w).0 (uninstall_ghost remove p c w).1
unfolding uninstall_ghost
uninstall_ghost-Held remove p c w h =
    uninstall_step remove p c (drop_ghost (w.ghost p) p w) (drop_ghost-Held (w.ghost p) p c w h)

destroy_step :
    (b : Bool) (c : Channel) (w : World)
    → c.processor ≡ b
    → Held c w
    → let s =
        if◌then◌else◌ {A = Channel × World}
          (not b)
          (c, w)
          (
            record c { processor = false },
            record w { processors_given = w.processors_given + 1 },
          ) in
      Held s.0 s.1
destroy_step false c w e h = h
destroy_step true c w e h = record {
  pads_held = h.pads_held;
  processor_held = ground (arith, e, h.processor_held);
}

call-Held :
    (mode : Mode) (k : Call) (c : Channel) (w : World)
    → Held c w
    → Held (call mode k (c, w)).0 (call mode k (c, w)).1
unfolding destroy_processor
call-Held mode (installs prefix p) c w h = install_ghost-Held mode prefix p c w h
call-Held mode (uninstalls remove p) c w h = uninstall_ghost-Held remove p c w h
call-Held mode destroys c w h = destroy_step c.processor c w refl h

pub calls-Held :
    (mode : Mode) (ks : List Call) (s : Channel × World)
    → Held s.0 s.1
    → Held (calls mode ks s).0 (calls mode ks s).1
calls-Held mode [] s h = h
calls-Held mode (k ∷ ks) s h = calls-Held mode ks (call mode k s) (call-Held mode k s.0 s.1 h)
