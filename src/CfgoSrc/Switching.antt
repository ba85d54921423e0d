-- ===== src/CfgoSrc/Switching.antt =====
-- src/gst/cfgosrc.cpp, `CfgoSrc::switch_mode`: all channels are taken down and set up in the new mode.
use conference_go_client.Common.{
  ℕ, ◌+◌, ◌*◌, ◌==◌, Bool, true, false, not, Option, none, some, List, [], ◌∷◌, ◌++◌, count,
  count-append, ◌≡◌, refl, subst, sym, ap, ◌∙◌, if◌then◌else◌, arith,
}
use conference_go_client.CfgoSrc.Pads.{
  Mode, raw, parse, decode, rtp_src, Channel, World, ref, create_processor, destroy_processor, init,
  install_ghost, drop_ghost, uninstall_ghost,
}
use conference_go_client.CfgoSrc.Pads.References.{taken, given, held}

abbrev pub same_mode : Mode → Mode → Bool
same_mode raw raw = true
same_mode parse parse = true
same_mode decode decode = true
same_mode m n = false

-- The loop over `m_pads`, which removes their ghosts and keeps the pads.
abbrev pub uninstall_all : List ℕ → Channel → World → World
uninstall_all [] c w = w
uninstall_all (p ∷ ps) c w = uninstall_all ps c (uninstall_ghost false p c w).1

unfoldable pub take_down : Channel → World → Channel × World
take_down c w =
    let w1 = (uninstall_ghost false c.pad c w).1 in
    let w2 = uninstall_all c.pads c w1 in destroy_processor (record c { pads = [] }) w2

unfoldable pub set_up : Mode → Bool → Channel → World → Channel × World
set_up mode works c w =
    let s = init mode works c.sessid c.ssrc c.pt c.pad c w in
    install_ghost mode rtp_src c.pad s.0 (ref c.pad s.1)

abbrev pub take_down_all : List Channel → World → List Channel × World
take_down_all [] w = ([], w)
take_down_all (c ∷ cs) w =
    let s = take_down c w in let rest = take_down_all cs s.1 in (s.0 ∷ rest.0, rest.1)

-- `works` tells for which channels the new processor is made.
abbrev pub set_up_all : Mode → (Channel → Bool) → List Channel → World → List Channel × World
set_up_all mode works [] w = ([], w)
set_up_all mode works (c ∷ cs) w =
    let s = set_up mode (works c) c w in
    let rest = set_up_all mode works cs s.1 in (s.0 ∷ rest.0, rest.1)

unfoldable pub switch_mode :
    Mode → Mode → (Channel → Bool) → List Channel → World → List Channel × World
switch_mode mode m_mode works cs w =
    let down = take_down_all cs w in
    let up = set_up_all mode works down.0 down.1 in if same_mode mode m_mode then (cs, w) else up

-- The references that all the channels hold to a pad, those to their own pads, and those to the pads
-- of their processors.
abbrev pub all_held : ℕ → List Channel → ℕ
all_held p [] = 0
all_held p (c ∷ cs) = held p c + all_held p cs

abbrev pub own : ℕ → List Channel → ℕ
own p [] = 0
own p (c ∷ cs) = (if c.pad == p then 1 else 0) + own p cs

abbrev pub of_processors : ℕ → List Channel → ℕ
of_processors p [] = 0
of_processors p (c ∷ cs) = count (λ q. q == p) c.pads + of_processors p cs

abbrev SameRefs : World → World → Type 0
SameRefs v w = (v.taken ≡ w.taken) × (v.given ≡ w.given)

drop_ghost-SameRefs : (g : Option ℕ) (p : ℕ) (w : World) → SameRefs (drop_ghost g p w) w
drop_ghost-SameRefs none p w = (refl, refl)
drop_ghost-SameRefs (some g) p w = (refl, refl)

uninstall-SameRefs : (p : ℕ) (c : Channel) (w : World) → SameRefs (uninstall_ghost false p c w).1 w
unfolding uninstall_ghost
uninstall-SameRefs p c w = drop_ghost-SameRefs (w.ghost p) p w

uninstall_all-SameRefs : (ps : List ℕ) (c : Channel) (w : World) → SameRefs (uninstall_all ps c w) w
uninstall_all-SameRefs [] c w = (refl, refl)
uninstall_all-SameRefs (p ∷ ps) c w =
    let ih = uninstall_all-SameRefs ps c (uninstall_ghost false p c w).1 in
    let here = uninstall-SameRefs p c w in (ih.0 ∙ here.0, ih.1 ∙ here.1)

destroy-SameRefs :
    (b : Bool) (c : Channel) (w : World)
    → let s =
        if◌then◌else◌ {A = Channel × World}
          (not b)
          (c, w)
          (
            record c { processor = false },
            record w { processors_given = w.processors_given + 1 },
          ) in
      SameRefs s.1 w × (s.0.pad ≡ c.pad) × (s.0.pads ≡ c.pads)
destroy-SameRefs true c w = ((refl, refl), refl, refl)
destroy-SameRefs false c w = ((refl, refl), refl, refl)

take_down_lem :
    (c : Channel) (w : World)
    → SameRefs (take_down c w).1 w × ((take_down c w).0.pad ≡ c.pad) × ((take_down c w).0.pads ≡ [])
unfolding take_down destroy_processor
take_down_lem c w =
    let w1 = (uninstall_ghost false c.pad c w).1 in
    let one = uninstall-SameRefs c.pad c w in
    let two = uninstall_all-SameRefs c.pads c w1 in
    let d = destroy-SameRefs c.processor (record c { pads = [] }) (uninstall_all c.pads c w1) in
    ((d.0.0 ∙ two.0 ∙ one.0, d.0.1 ∙ two.1 ∙ one.1), d.1, d.2)

create-SameRefs :
    (works : Bool) (c : Channel) (w : World)
    → SameRefs (create_processor works c w).1 w
      × ((create_processor works c w).0.pad ≡ c.pad)
      × ((create_processor works c w).0.pads ≡ c.pads)
unfolding create_processor
create-SameRefs true c w = ((refl, refl), refl, refl)
create-SameRefs false c w = ((refl, refl), refl, refl)

set_up_lem :
    (mode : Mode) (works : Bool) (c : Channel) (w : World)
    → ((set_up mode works c w).1.taken ≡ (w.taken ++ (c.pad ∷ [])) ++ (c.pad ∷ []))
      × ((set_up mode works c w).1.given ≡ w.given)
      × ((set_up mode works c w).0.pad ≡ c.pad)
      × ((set_up mode works c w).0.pads ≡ c.pads)
unfolding set_up init install_ghost
set_up_lem raw works c w = (refl, refl, refl, refl)
set_up_lem parse works c w =
    let r = create-SameRefs works c (ref c.pad w) in
    (ap (λ (l : List ℕ). l ++ (c.pad ∷ [])) r.0.0, r.0.1, r.1, r.2)
set_up_lem decode works c w =
    let r = create-SameRefs works c (ref c.pad w) in
    (ap (λ (l : List ℕ). l ++ (c.pad ∷ [])) r.0.0, r.0.1, r.1, r.2)

held_parts :
    (p : ℕ) (c : Channel) → held p c ≡ (if c.pad == p then 1 else 0) + count (λ q. q == p) c.pads
held_parts p c = ground arith

all_held_parts : (p : ℕ) (cs : List Channel) → all_held p cs ≡ own p cs + of_processors p cs
all_held_parts p [] = refl
all_held_parts p (c ∷ cs) = omega (arith, held_parts p c, all_held_parts p cs)

held_same :
    (p : ℕ) (c d : Channel) (ps : List ℕ)
    → d.pad ≡ c.pad
    → d.pads ≡ ps
    → held p d ≡ (if c.pad == p then 1 else 0) + count (λ q. q == p) ps
held_same p c d ps e f = held_parts p d ∙ cc (e, f)

take_down_all_lem :
    (p : ℕ) (cs : List Channel) (w : World)
    → SameRefs (take_down_all cs w).1 w
      × (own p (take_down_all cs w).0 ≡ own p cs)
      × (all_held p (take_down_all cs w).0 ≡ own p cs)
take_down_all_lem p [] w = ((refl, refl), refl, refl)
take_down_all_lem p (c ∷ cs) w =
    let s : Channel × World = take_down c w in
    let here = take_down_lem c w in
    let ih = take_down_all_lem p cs s.1 in
    let h : held p s.0 ≡ (if c.pad == p then 1 else 0) + 0 = held_same p c s.0 [] here.1 here.2 in
    let one : ℕ → ℕ = λ x. if x == p then 1 else 0 in
    let o : one s.0.pad ≡ one c.pad = ap one here.1 in
    ((ih.0.0 ∙ here.0.0, ih.0.1 ∙ here.0.1), omega (arith, o, ih.1), omega (arith, h, ih.2))

set_up_taken :
    (p : ℕ) (mode : Mode) (works : Bool) (c : Channel) (w : World)
    → taken p (set_up mode works c w).1 ≡ taken p w + 2 * (if c.pad == p then 1 else 0)
set_up_taken p mode works c w =
    ap (count (λ q. q == p)) (set_up_lem mode works c w).0
    ∙ ground (
      arith,
      count-append (λ q. q == p) (w.taken ++ (c.pad ∷ [])) (c.pad ∷ []),
      count-append (λ q. q == p) w.taken (c.pad ∷ []),
    )

set_up_all_lem :
    (p : ℕ) (mode : Mode) (works : Channel → Bool) (cs : List Channel) (w : World)
    → (taken p (set_up_all mode works cs w).1 ≡ taken p w + 2 * own p cs)
      × (given p (set_up_all mode works cs w).1 ≡ given p w)
      × (all_held p (set_up_all mode works cs w).0 ≡ all_held p cs)
set_up_all_lem p mode works [] w = (omega arith, refl, refl)
set_up_all_lem p mode works (c ∷ cs) w =
    let s : Channel × World = set_up mode (works c) c w in
    let here = set_up_lem mode (works c) c w in
    let ih = set_up_all_lem p mode works cs s.1 in
    let t = set_up_taken p mode (works c) c w in
    let g : given p s.1 ≡ given p w = ap (count (λ q. q == p)) here.1 in
    let h = held_same p c s.0 c.pads here.2 here.3 in
    (omega (arith, ih.0, t), ih.1 ∙ g, omega (arith, ih.2, h, held_parts p c))

-- A switch to another mode loses references: if the channels held all that were taken and not given
-- back, then afterwards two more for each channel's own pad, and one for each pad that its processor
-- had, are taken and neither given back nor held.
pub switch_mode-leaks :
    (mode m_mode : Mode) (works : Channel → Bool) (cs : List Channel) (w : World) (p : ℕ)
    → same_mode mode m_mode ≡ false
    → taken p w ≡ given p w + all_held p cs
    → let r = switch_mode mode m_mode works cs w in
      taken p r.1 ≡ given p r.1 + all_held p r.0 + (2 * own p cs + of_processors p cs)
unfolding switch_mode
switch_mode-leaks mode m_mode works cs w p e h =
    let down : List Channel × World = take_down_all cs w in
    let up : List Channel × World = set_up_all mode works down.0 down.1 in
    let d = take_down_all_lem p cs w in
    let u = set_up_all_lem p mode works down.0 down.1 in
    let td : taken p down.1 ≡ taken p w = ap (count (λ q. q == p)) d.0.0 in
    let gd : given p down.1 ≡ given p w = ap (count (λ q. q == p)) d.0.1 in
    let r : taken p up.1 ≡ given p up.1 + all_held p up.0 + (2 * own p cs + of_processors p cs) =
      omega (arith, u.0, u.1, u.2, d.1, d.2, td, gd, h, all_held_parts p cs) in
    subst
      (λ (b : Bool).
        let q = if◌then◌else◌ {A = List Channel × World} b (cs, w) up in
        taken p q.1 ≡ given p q.1 + all_held p q.0 + (2 * own p cs + of_processors p cs))
      (sym e) r
