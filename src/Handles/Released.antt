-- ===== src/Handles/Released.antt =====
-- src/capi.cpp: a handle whose last reference was given back.
use conference_go_client.Common.{ℕ, ◌≡◌, ◌∙◌, ap, pos, ◌+ℤ◌, ◌-ℤ◌, none}
use conference_go_client.Handles.Maps.{store}
use conference_go_client.Handles.Cells.{
  Cell, refs, cell_step, Holds, ref_in-held, unref_in-held, release-none,
}
use conference_go_client.Handles.{
  Kind, ok, invalid_argument, logic_error, Tables, Api, get, ref, unref,
}
use conference_go_client.Handles.Calls.{stepped-Holds, get-Holds}

module _ {V : Type 0} where
  ref-Holds :
      (k : Kind) (h : ℕ) (a : Api V) (c : Cell V)
      → Holds h (a.tables k) c
      → Holds h ((ref k h a).0.tables k) (cell_step refs c)
  unfolding ref
  ref-Holds k h a c e = stepped-Holds k refs h a c e

  ref_result :
      (k : Kind) (h : ℕ) (a : Api V) (c : Cell V) → Holds h (a.tables k) c → (ref k h a).1 ≡ ok tt
  unfolding ref
  ref_result k h a c e = ap (λ r. r.1) (ref_in-held h c.count (a.tables k) e.0)

  unref_below :
      (k : Kind) (h : ℕ) (a : Api V)
      → Holds h (a.tables k) (record { object = none; count = pos 0 })
      → (unref k h a).1 ≡ ok tt
  unfolding unref ◌-ℤ◌
  unref_below k h a e = ap (λ r. r.1) (unref_in-held h (pos 0) (a.tables k) e.0)

  unref_revived :
      (k : Kind) (h : ℕ) (a : Api V)
      → Holds h (a.tables k) (record { object = none; count = pos 0 +ℤ pos 1 })
      → (unref k h a).1 ≡ logic_error
  unfolding unref ◌+ℤ◌ ◌-ℤ◌
  unref_revived k h a e =
      let t = a.tables k in
      let u : Tables V = record t { refs = store h (pos 0) t.refs } in
      ap (λ r. r.1) (unref_in-held h (pos 1) t e.0) ∙ ap (λ r. r.1) (release-none h u e.1)

  -- A handle whose last reference was given back, the count being 0: `get` throws, and yet a further
  -- `unref` succeeds, a `ref` succeeds and leaves `get` throwing, and an `unref` after that `ref`
  -- throws a `logic_error`.
  released_handle :
      (k : Kind) (h : ℕ) (a : Api V)
      → Holds h (a.tables k) (record { object = none; count = pos 0 })
      → (get k h a ≡ invalid_argument)
        × ((unref k h a).1 ≡ ok tt)
        × ((ref k h a).1 ≡ ok tt)
        × (get k h (ref k h a).0 ≡ invalid_argument)
        × ((unref k h (ref k h a).0).1 ≡ logic_error)
  released_handle k h a e =
      let c : Cell V = record { object = none; count = pos 0 } in
      let f = ref-Holds k h a c e in
      (
        get-Holds k h a c e,
        unref_below k h a e,
        ref_result k h a c e,
        get-Holds k h (ref k h a).0 (cell_step refs c) f,
        unref_revived k h (ref k h a).0 f,
      )
