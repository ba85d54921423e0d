-- ===== src/CfgoSrc/Pads.antt =====
-- src/gst/cfgosrc.cpp, `CfgoSrc::Channel`: the pads of a channel, the references taken to them and
-- their ghost pads. A pad is a number; the references are listed as they are taken and given back.
pub mod References
pub mod Release
use conference_go_client.Common.{
  ℕ, ◌+◌, ◌==◌, Bool, true, false, not, ◌||◌, Option, none, some, List, [], ◌∷◌, ◌++◌, keep, count,
  replicate, has, if◌then◌else◌,
}

-- `GstCfgoSrcMode`, and the prefix of the name of a ghost pad.
pub data Mode : Type 0 where
  raw parse decode : Mode

pub data Prefix : Type 0 where
  rtp_src parse_src decode_src other_name : Prefix

pub record Channel : Type 0 where
  pub sessid : ℕ
  pub ssrc : ℕ
  pub pt : ℕ
  pub pad : ℕ
  pub pads : List ℕ
  pub processor : Bool

-- The references to pads and to processors, the ghost that each pad's data names, and the ghosts on
-- the owner.
pub record World : Type 0 where
  pub taken : List ℕ
  pub given : List ℕ
  pub processors_taken : ℕ
  pub processors_given : ℕ
  pub ghost : ℕ → Option ℕ
  pub owner_pads : List ℕ
  pub next_ghost : ℕ

abbrev pub ref : ℕ → World → World
ref p w = record w { taken = w.taken ++ (p ∷ []) }

abbrev pub unref : ℕ → World → World
unref p w = record w { given = w.given ++ (p ∷ []) }

abbrev pub set_ghost : ℕ → Option ℕ → (ℕ → Option ℕ) → ℕ → Option ℕ
set_ghost p g ghost q = if p == q then g else ghost q

-- `_create_processor`, by whether the element is made, added and linked.
unfoldable pub create_processor : Bool → Channel → World → Channel × World
create_processor works c w =
    if works
    then (record c { processor = true }, record w { processors_taken = w.processors_taken + 1 })
    else (c, w)

unfoldable pub destroy_processor : Channel → World → Channel × World
destroy_processor c w =
    if not c.processor
    then (c, w)
    else (record c { processor = false }, record w { processors_given = w.processors_given + 1 })

abbrev pub has_processor : Mode → Bool
has_processor raw = false
has_processor parse = true
has_processor decode = true

-- `Channel::init`, of a channel or of one that `switch_mode` sets up again.
unfoldable pub init : Mode → Bool → ℕ → ℕ → ℕ → ℕ → Channel → World → Channel × World
init mode works sessid ssrc pt pad c w =
    let c1 : Channel = record c { sessid = sessid; ssrc = ssrc; pt = pt; pad = pad } in
    if has_processor mode then create_processor works c1 (ref pad w) else (c1, ref pad w)

-- `Channel::match`
unfoldable pub match_pad : ℕ → Channel → Bool
match_pad p c = c.pad == p || has p c.pads

-- Whether `install_ghost` finds a template, and whether it keeps the pad.
abbrev pub has_template : Mode → Prefix → Bool
has_template raw rtp_src = true
has_template parse parse_src = true
has_template decode decode_src = true
has_template mode prefix = false

abbrev pub keeps_pad : Mode → Prefix → Bool
keeps_pad parse parse_src = true
keeps_pad decode decode_src = true
keeps_pad mode prefix = false

abbrev pub add_ghost : ℕ → World → World
add_ghost p w = record w {
  ghost = set_ghost p (some w.next_ghost) w.ghost;
  owner_pads = w.owner_pads ++ (w.next_ghost ∷ []);
  next_ghost = w.next_ghost + 1;
}

unfoldable pub install_ghost : Mode → Prefix → ℕ → Channel → World → Channel × World
install_ghost mode prefix p c w =
    let w1 = if keeps_pad mode prefix then ref p w else w in
    (
      if keeps_pad mode prefix then record c { pads = c.pads ++ (p ∷ []) } else c,
      if has_template mode prefix then add_ghost p w1 else w1,
    )

abbrev pub drop_ghost : Option ℕ → ℕ → World → World
drop_ghost none p w = w
drop_ghost (some g) p w = record w {
  ghost = set_ghost p none w.ghost;
  owner_pads = keep (λ h. not (h == g)) w.owner_pads;
}

-- The loop that erases a pad from `m_pads`, with `gst_object_unref` for each place.
abbrev pub erase_pad : ℕ → List ℕ → World → List ℕ × World
erase_pad p [] w = ([], w)
erase_pad p (q ∷ qs) w =
    let rest = erase_pad p qs (if q == p then unref p w else w) in
    (if q == p then rest.0 else q ∷ rest.0, rest.1)

unfoldable pub uninstall_ghost : Bool → ℕ → Channel → World → Channel × World
uninstall_ghost remove p c w =
    let w1 = drop_ghost (w.ghost p) p w in
    let erased = erase_pad p c.pads w1 in
    if remove then (record c { pads = erased.0 }, erased.1) else (c, w1)

-- `for (auto && pad : m_pads) gst_object_unref(pad)`
abbrev pub unref_all : List ℕ → World → World
unref_all [] w = w
unref_all (p ∷ ps) w = unref_all ps (unref p w)

-- `~Channel`
unfoldable pub destruct : Channel → World → World
destruct c w =
    let w1 = unref c.pad w in
    let w2 = if c.processor then record w1 { processors_given = w1.processors_given + 1 } else w1 in
    unref_all c.pads w2
