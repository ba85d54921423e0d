-- ===== src/Handles/Cells.antt =====
-- src/capi.cpp: what a client sees of one handle, whatever else the maps hold.
use conference_go_client.Common.{
  ℕ, ◌≡◌, ◌≢◌, refl, sym, subst, ℤ, pos, ◌+ℤ◌, ◌-ℤ◌, eqb_ℤ, Bool, true, false, Option, none, some,
  List, [], ◌∷◌, if◌then◌else◌, Option-cases, inl, inr,
}
use conference_go_client.Handles.Maps.{
  find, store, erase, find-store_self, find-store_ne, find-erase_self, find-erase_ne,
}
use conference_go_client.Handles.{
  Result, ok, invalid_argument, logic_error, Tables, ref_in, unref_in, release,
}

-- A counted reference: the object, until it is released, and the count.
pub record Cell (V : Type 0) : Type 0 where
  pub object : Option V
  pub count : ℤ

pub data Op : Type 0 where
  refs unrefs : Op

module _ {V : Type 0} where
  -- What a counted reference does.
  abbrev pub cell_step : Op → Cell V → Cell V
  cell_step refs c = record c { count = c.count +ℤ pos 1 }
  cell_step unrefs c = record {
    object = if eqb_ℤ (c.count -ℤ pos 1) (pos 0) then none else c.object;
    count = c.count -ℤ pos 1;
  }

  abbrev pub cell_run : List Op → Cell V → Cell V
  cell_run [] c = c
  cell_run (op ∷ ops) c = cell_run ops (cell_step op c)

  -- The maps hold the handle as this cell.
  abbrev pub Holds : ℕ → Tables V → Cell V → Type 0
  Holds h t c = (find h t.refs ≡ some c.count) × (find h t.objects ≡ c.object)

  abbrev pub step : ℕ → Op → Tables V → Tables V × Result (Unit {0})
  step h refs t = ref_in h t
  step h unrefs t = unref_in h t

  pub ref_in-held :
      (h : ℕ) (n : ℤ) (t : Tables V)
      → find h t.refs ≡ some n
      → ref_in h t ≡ (record t { refs = store h (n +ℤ pos 1) t.refs }, ok tt)
  unfolding ref_in
  ref_in-held h n t e = cc e

  pub unref_in-held :
      (h : ℕ) (n : ℤ) (t : Tables V)
      → find h t.refs ≡ some n
      → unref_in h t ≡ (
          let u = record t { refs = store h (n -ℤ pos 1) t.refs } in
          if eqb_ℤ (n -ℤ pos 1) (pos 0) then release h u else (u, ok tt))
  unfolding unref_in
  unref_in-held h n t e = cc e

  pub release-none :
      (h : ℕ) (t : Tables V) → find h t.objects ≡ none → release h t ≡ (t, logic_error)
  release-none h t f = cc f

  pub release-some :
      (h : ℕ) (t : Tables V) (v : V)
      → find h t.objects ≡ some v
      → release h t ≡ (record t { objects = erase h t.objects }, ok tt)
  release-some h t v f = cc f

  release-Holds :
      (h : ℕ) (t : Tables V) (n : ℤ)
      → find h t.refs ≡ some n
      → Holds h (release h t).0 (record { object = none; count = n })
  release-Holds h t n e =
      let C : Cell V = record { object = none; count = n } in
      elim (Option-cases (find h t.objects)) [
        | inl f ↦ subst (λ r. Holds h r.0 C) (sym (release-none h t f)) (e, f)
        | inr (v, f) ↦
            subst (λ r. Holds h r.0 C) (sym (release-some h t v f)) (e, find-erase_self h t.objects)
      ]

  -- The end of `unref_in`, the test of the count being either.
  unref_end-Holds :
      (b : Bool) (h : ℕ) (n : ℤ) (o : Option V) (u : Tables V)
      → find h u.refs ≡ some n
      → find h u.objects ≡ o
      → Holds h
          (if b then release h u else (u, ok tt)).0
          (record { object = if b then none else o; count = n })
  unref_end-Holds true h n o u e f = release-Holds h u n e
  unref_end-Holds false h n o u e f = (e, f)

  pub step-Holds :
      (h : ℕ) (op : Op) (t : Tables V) (c : Cell V)
      → Holds h t c
      → Holds h (step h op t).0 (cell_step op c)
  step-Holds h refs t c e =
      subst (λ r. Holds h r.0 (cell_step refs c)) (sym (ref_in-held h c.count t e.0))
        (find-store_self h (c.count +ℤ pos 1) c.count t.refs e.0, e.1)
  step-Holds h unrefs t c e =
      let n = c.count -ℤ pos 1 in
      let u : Tables V = record t { refs = store h n t.refs } in
      subst (λ r. Holds h r.0 (cell_step unrefs c)) (sym (unref_in-held h c.count t e.0))
        (unref_end-Holds (eqb_ℤ n (pos 0)) h n c.object u (find-store_self h n c.count t.refs e.0)
          e.1)

  ref_in-absent : (h : ℕ) (t : Tables V) → find h t.refs ≡ none → ref_in h t ≡ (t, invalid_argument)
  unfolding ref_in
  ref_in-absent h t e = cc e

  unref_in-absent :
      (h : ℕ) (t : Tables V) → find h t.refs ≡ none → unref_in h t ≡ (t, invalid_argument)
  unfolding unref_in
  unref_in-absent h t e = cc e

  -- What the maps of `t` and `u` hold of a handle is the same.
  abbrev pub Agree : ℕ → Tables V → Tables V → Type 0
  Agree h t u = (find h u.refs ≡ find h t.refs) × (find h u.objects ≡ find h t.objects)

  Agree-stored :
      (h k : ℕ) (n : ℤ) (t : Tables V) → k ≢ h → Agree h t (record t { refs = store k n t.refs })
  Agree-stored h k n t ne = (find-store_ne k h n t.refs ne, refl)

  release-Agree :
      (h k : ℕ) (n : ℤ) (t : Tables V)
      → k ≢ h
      → Agree h t (release k (record t { refs = store k n t.refs })).0
  release-Agree h k n t ne =
      let u : Tables V = record t { refs = store k n t.refs } in
      let stored = find-store_ne k h n t.refs ne in
      elim (Option-cases (find k t.objects)) [
        | inl f ↦ subst (λ r. Agree h t r.0) (sym (release-none k u f)) (stored, refl)
        | inr (v, f) ↦
            subst (λ r. Agree h t r.0) (sym (release-some k u v f))
              (stored, find-erase_ne k h t.objects ne)
      ]

  unref_end-Agree :
      (b : Bool) (h k : ℕ) (n : ℤ) (t : Tables V)
      → k ≢ h
      → (let u : Tables V = record t { refs = store k n t.refs } in
          Agree h t (if b then release k u else (u, ok tt)).0)
  unref_end-Agree true h k n t ne = release-Agree h k n t ne
  unref_end-Agree false h k n t ne = Agree-stored h k n t ne

  pub step-Agree : (h k : ℕ) (op : Op) (t : Tables V) → k ≢ h → Agree h t (step k op t).0
  step-Agree h k refs t ne = elim (Option-cases (find k t.refs)) [
    | inl e ↦ subst (λ r. Agree h t r.0) (sym (ref_in-absent k t e)) (refl, refl)
    | inr (n, e) ↦
        subst (λ r. Agree h t r.0) (sym (ref_in-held k n t e)) (Agree-stored h k (n +ℤ pos 1) t ne)
  ]
  step-Agree h k unrefs t ne = elim (Option-cases (find k t.refs)) [
    | inl e ↦ subst (λ r. Agree h t r.0) (sym (unref_in-absent k t e)) (refl, refl)
    | inr (n, e) ↦
        subst (λ r. Agree h t r.0) (sym (unref_in-held k n t e))
          (unref_end-Agree (eqb_ℤ (n -ℤ pos 1) (pos 0)) h k (n -ℤ pos 1) t ne)
  ]
