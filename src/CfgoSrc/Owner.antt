-- ===== src/CfgoSrc/Owner.antt =====
-- src/gst/cfgosrc.cpp: the element that owns the source, `attach` and `detach`, the latter as to the
-- owner and the caps only, and the caps for the decoders. The caps are numbers; the references to them
-- are listed.
use conference_go_client.Common.{
  ℕ, ◌+◌, ◌==◌, Bool, true, false, not, Option, none, some, List, [], ◌∷◌, ◌++◌, count,
  count-append, ◌≡◌, refl, sym, subst, ap, ◌∙◌, if◌then◌else◌, arith,
}
use conference_go_client.CfgoSrc.Pads.{Mode}

pub record Owned : Type 0 where
  pub detached : Bool
  pub owner : Option ℕ
  pub mode : Mode
  pub rtp_bin : Bool
  pub decode_caps : Option ℕ
  pub caps_taken : List ℕ
  pub caps_given : List ℕ
  pub next_caps : ℕ

abbrev pub is_owner : ℕ → Option ℕ → Bool
is_owner o none = false
is_owner o (some p) = p == o

-- Whether it throws, and what it leaves; `made` tells whether the element "rtpbin" is made.
unfoldable pub attach : Bool → ℕ → Mode → Owned → Bool × Owned
attach made o mode s =
    let attached : Owned = record s {
      detached = false;
      owner = some o;
      mode = mode;
      rtp_bin = made;
    } in
    if not s.detached then (not (is_owner o s.owner), s) else (not made, attached)

abbrev pub unref_caps : Option ℕ → Owned → Owned
unref_caps none s = s
unref_caps (some c) s = record s { caps_given = s.caps_given ++ (c ∷ []) }

unfoldable pub detach : Owned → Owned
detach s =
    let gone = unref_caps s.decode_caps (record s { detached = true; rtp_bin = false }) in
    if s.detached then s else record gone { owner = none }

-- The old caps are given back, and a copy of the new ones is kept.
unfoldable pub set_decode_caps : Owned → Owned
set_decode_caps s =
    let u = unref_caps s.decode_caps s in
    record u {
      decode_caps = some s.next_caps;
      caps_taken = u.caps_taken ++ (s.next_caps ∷ []);
      next_caps = s.next_caps + 1;
    }

unref_caps-detached : (o : Option ℕ) (s : Owned) → (unref_caps o s).detached ≡ s.detached
unref_caps-detached none s = refl
unref_caps-detached (some c) s = refl

-- An attached source takes no other owner and is not changed by `attach`; a detached one takes any,
-- and a source that was attached and then detached has no owner.
pub attach_lem :
    (made : Bool) (o p : ℕ) (mode : Mode) (s : Owned)
    → s.detached ≡ true
    → let a = (attach made o mode s).1 in
      ((attach made o mode s).0 ≡ not made)
      × (attach made p mode a ≡ (not (o == p), a))
      × ((detach a).owner ≡ none)
      × ((detach a).detached ≡ true)
unfolding attach detach
attach_lem made o p mode s h =
    let attached : Owned = record s {
      detached = false;
      owner = some o;
      mode = mode;
      rtp_bin = made;
    } in
    let done : attach made o mode s ≡ (not made, attached) = cc h in
    let a : (attach made o mode s).1 ≡ attached = ap (λ (r : Bool × Owned). r.1) done in
    let again : attach made p mode attached ≡ (not (o == p), attached) = refl in
    let gone : (detach attached).detached ≡ true =
      unref_caps-detached s.decode_caps (record attached { detached = true; rtp_bin = false }) in
    (
      ap (λ (r : Bool × Owned). r.0) done,
      subst (λ (x : Owned). attach made p mode x ≡ (not (o == p), x)) (sym a) again,
      ap (λ (x : Owned). (detach x).owner) a,
      ap (λ (x : Owned). (detach x).detached) a ∙ gone,
    )

-- Caps that were set while the source was attached are given back twice when it is detached and gets
-- new caps, though one reference to them was taken.
caps-given_twice :
    (s : Owned) (c : ℕ)
    → s.detached ≡ false
    → s.decode_caps ≡ some c
    → count (λ x. x == c) (set_decode_caps (detach s)).caps_given
      ≡ count (λ x. x == c) s.caps_given + 2
unfolding set_decode_caps detach
caps-given_twice s c h e =
    let gone : Owned = record s {
      detached = true;
      rtp_bin = false;
      owner = none;
      caps_given = s.caps_given ++ (c ∷ []);
    } in
    let d : detach s ≡ gone = cc (h, e) in
    ap (λ (x : Owned). count (λ y. y == c) (set_decode_caps x).caps_given) d
    ∙ ground (
      arith,
      e,
      count-append (λ x. x == c) (s.caps_given ++ (c ∷ [])) (c ∷ []),
      count-append (λ x. x == c) s.caps_given (c ∷ []),
    )
