-- ===== src/Handles/Calls.antt =====
-- src/capi.cpp: the calls of a client of the C interface, on handles of every kind.
use conference_go_client.Common.{
  if_lem, ℕ, zero, suc, ◌≡◌, ◌≤◌, ◌==◌, ◌∙◌, refl, sym, ap, subst, ℤ, pos, true, false, ◌&&◌, some,
  List, [], ◌∷◌, arith, if◌then◌else◌,
}
use conference_go_client.Handles.Cells.{
  Cell, Op, refs, unrefs, cell_step, cell_run, Holds, step, step-Holds, step-Agree,
}
use conference_go_client.Handles.{
  Kind, execution_context, close_chan, client, subscribation, track, number, same_kind, Result, ok,
  invalid_argument, logic_error, Tables, Api, with_tables, fetched, get, wrap, ref, unref, c_wrap,
  succeeds, cfgo_execution_context_ref, cfgo_execution_context_unref, cfgo_close_chan_ref,
  cfgo_close_chan_unref, cfgo_client_ref, cfgo_client_unref, cfgo_subscribation_ref,
  cfgo_subscribation_unref, cfgo_track_ref, cfgo_track_unref,
}

pub data Call (V : Type 0) : Type 0 where
  creates : Kind → V → Call V
  counts : Kind → Op → ℕ → Call V

kind_at : ℕ → Kind
kind_at zero = execution_context
kind_at (suc zero) = close_chan
kind_at (suc (suc zero)) = client
kind_at (suc (suc (suc zero))) = subscribation
kind_at (suc (suc (suc (suc n)))) = track

kind_at-number : (k : Kind) → kind_at (number k) ≡ k
unfolding kind_at
kind_at-number execution_context = refl
kind_at-number close_chan = refl
kind_at-number client = refl
kind_at-number subscribation = refl
kind_at-number track = refl

number-injective : (j k : Kind) → number j ≡ number k → j ≡ k
number-injective j k e = sym (kind_at-number j) ∙ ap kind_at e ∙ kind_at-number k

module _ {V : Type 0} where
  abbrev pub counting : Kind → Op → ℕ → Api V → Api V × ℤ
  counting execution_context refs = cfgo_execution_context_ref
  counting execution_context unrefs = cfgo_execution_context_unref
  counting close_chan refs = cfgo_close_chan_ref
  counting close_chan unrefs = cfgo_close_chan_unref
  counting client refs = cfgo_client_ref
  counting client unrefs = cfgo_client_unref
  counting subscribation refs = cfgo_subscribation_ref
  counting subscribation unrefs = cfgo_subscribation_unref
  counting track refs = cfgo_track_ref
  counting track unrefs = cfgo_track_unref

  abbrev pub call : Call V → Api V → Api V
  call (creates k v) a = (wrap k v a).0
  call (counts k op h) a = (counting k op h a).0

  abbrev pub calls : List (Call V) → Api V → Api V
  calls [] a = a
  calls (c ∷ cs) a = calls cs (call c a)

  -- The counting calls on one handle.
  abbrev pub own : Kind → ℕ → List (Call V) → List Op
  own k h [] = []
  own k h (creates _ _ ∷ cs) = own k h cs
  own k h (counts j op g ∷ cs) =
      let rest = own k h cs in if same_kind j k && (g == h) then op ∷ rest else rest

  c_wrap_state : (r : Api V × Result (Unit {0})) → (c_wrap (succeeds r)).0 ≡ r.0
  c_wrap_state (a, ok u) = refl
  c_wrap_state (a, invalid_argument) = refl
  c_wrap_state (a, logic_error) = refl

  -- Every counting function runs `ref_in` or `unref_in` on the maps of its kind.
  counting_state :
      (k : Kind) (op : Op) (h : ℕ) (a : Api V)
      → (counting k op h a).0 ≡ with_tables k (step h op (a.tables k)).0 a
  unfolding ref unref cfgo_execution_context_ref cfgo_execution_context_unref cfgo_close_chan_ref
      cfgo_close_chan_unref cfgo_client_ref cfgo_client_unref cfgo_subscribation_ref
      cfgo_subscribation_unref cfgo_track_ref cfgo_track_unref
  counting_state execution_context refs h a = c_wrap_state (ref execution_context h a)
  counting_state execution_context unrefs h a = c_wrap_state (unref execution_context h a)
  counting_state close_chan refs h a = c_wrap_state (ref close_chan h a)
  counting_state close_chan unrefs h a = c_wrap_state (unref close_chan h a)
  counting_state client refs h a = c_wrap_state (ref client h a)
  counting_state client unrefs h a = c_wrap_state (unref client h a)
  counting_state subscribation refs h a = c_wrap_state (ref subscribation h a)
  counting_state subscribation unrefs h a = c_wrap_state (unref subscribation h a)
  counting_state track refs h a = c_wrap_state (ref track h a)
  counting_state track unrefs h a = c_wrap_state (unref track h a)

  pub stepped-Holds :
      (k : Kind) (op : Op) (h : ℕ) (a : Api V) (c : Cell V)
      → Holds h (a.tables k) c
      → Holds h ((with_tables k (step h op (a.tables k)).0 a).tables k) (cell_step op c)
  stepped-Holds k op h a c e =
      if_lem (λ t. Holds h t (cell_step op c)) (same_kind k k) (step h op (a.tables k)).0
        (a.tables k) (λ _. step-Holds h op (a.tables k) c e) (λ ne. ground (arith, ne))

  -- The state after a call that concerns the handle, and after one that does not.
  own_call-Holds :
      (k : Kind) (op : Op) (h : ℕ) (a : Api V) (c : Cell V)
      → Holds h (a.tables k) c
      → Holds h ((counting k op h a).0.tables k) (cell_step op c)
  own_call-Holds k op h a c e =
      subst (λ b. Holds h (b.tables k) (cell_step op c)) (sym (counting_state k op h a))
        (stepped-Holds k op h a c e)

  other_call-Holds :
      (j k : Kind) (op : Op) (g h : ℕ) (a : Api V) (c : Cell V)
      → (same_kind j k && (g == h)) ≡ false
      → Holds h (a.tables k) c
      → Holds h ((counting j op g a).0.tables k) c
  other_call-Holds j k op g h a c ne e =
      subst (λ b. Holds h (b.tables k) c) (sym (counting_state j op g a))
        (if_lem (λ t. Holds h t c) (same_kind j k) (step g op (a.tables j)).0 (a.tables k)
          (λ same.
            subst (λ i. Holds h (step g op (a.tables i)).0 c)
              (sym (number-injective j k (ground (arith, same))))
              (let r = step-Agree h g op (a.tables k) (ground (arith, same, ne)) in
                (r.0 ∙ e.0, r.1 ∙ e.1)))
          (λ _. e))

  call-last_handle : (x : Call V) (a : Api V) → a.last_handle ≤ (call x a).last_handle
  unfolding wrap
  call-last_handle (creates k v) a = omega arith
  call-last_handle (counts k op h) a =
      subst (λ b. a.last_handle ≤ b.last_handle) (sym (counting_state k op h a)) (omega arith)

  wrap-Holds :
      (k j : Kind) (v : V) (h : ℕ) (a : Api V) (c : Cell V)
      → h ≤ a.last_handle
      → Holds h (a.tables k) c
      → Holds h ((wrap j v a).0.tables k) c
  unfolding wrap
  wrap-Holds k j v h a c le e =
      let g = suc a.last_handle in
      let t = a.tables j in
      let u : Tables V = record { objects = (g, v) ∷ t.objects; refs = (g, pos 1) ∷ t.refs } in
      if_lem (λ r. Holds h r c) (same_kind j k) u (a.tables k)
        (λ same.
          let i = number-injective j k (ground (arith, same)) in
          let f : Holds h (a.tables j) c = subst (λ i. Holds h (a.tables i) c) (sym i) e in
          (ground (arith, le, f.0), ground (arith, le, f.1)))
        (λ _. e)

  wrap-last_handle : (k : Kind) (v : V) (a : Api V) → (wrap k v a).1 ≤ (wrap k v a).0.last_handle
  unfolding wrap
  wrap-last_handle k v a = omega arith

  wrap_fresh-Holds :
      (k : Kind) (v : V) (a : Api V)
      → (let r = wrap k v a in Holds r.1 (r.0.tables k) (record { object = some v; count = pos 1 }))
  unfolding wrap
  wrap_fresh-Holds k v a =
      let g = suc a.last_handle in
      let t = a.tables k in
      let u : Tables V = record { objects = (g, v) ∷ t.objects; refs = (g, pos 1) ∷ t.refs } in
      let C : Cell V = record { object = some v; count = pos 1 } in
      if_lem (λ r. Holds g r C) (same_kind k k) u t (λ _. (ground arith, ground arith))
        (λ ne. ground (arith, ne))

  same_call-Holds :
      (j k : Kind) (op : Op) (g h : ℕ) (a : Api V) (c : Cell V)
      → (same_kind j k && (g == h)) ≡ true
      → Holds h (a.tables k) c
      → Holds h ((counting j op g a).0.tables k) (cell_step op c)
  same_call-Holds j k op g h a c same e =
      let i = number-injective j k (ground (arith, same)) in
      let l : g ≡ h = ground (arith, same) in
      subst (λ m. Holds h ((counting m op g a).0.tables k) (cell_step op c)) (sym i)
        (subst (λ m. Holds h ((counting k op m a).0.tables k) (cell_step op c)) (sym l)
          (own_call-Holds k op h a c e))

  calls-Holds :
      (k : Kind) (h : ℕ) (cs : List (Call V)) (a : Api V) (c : Cell V)
      → h ≤ a.last_handle
      → Holds h (a.tables k) c
      → Holds h ((calls cs a).tables k) (cell_run (own k h cs) c)
  calls-Holds k h [] a c le e = e
  calls-Holds k h (creates j v ∷ cs) a c le e =
      let le' : h ≤ (call (creates j v) a).last_handle =
        omega (arith, le, call-last_handle (creates j v) a) in
      calls-Holds k h cs (call (creates j v) a) c le' (wrap-Holds k j v h a c le e)
  calls-Holds k h (counts j op g ∷ cs) a c le e =
      let b = call (counts j op g) a in
      let le' : h ≤ b.last_handle = omega (arith, le, call-last_handle (counts j op g) a) in
      let rest = calls-Holds k h cs b in
      if_lem (λ ops. Holds h ((calls cs b).tables k) (cell_run ops c)) (same_kind j k && (g == h))
        (op ∷ own k h cs) (own k h cs)
        (λ same. rest (cell_step op c) le' (same_call-Holds j k op g h a c same e))
        (λ ne. rest c le' (other_call-Holds j k op g h a c ne e))

  pub get-Holds :
      (k : Kind) (h : ℕ) (a : Api V) (c : Cell V)
      → Holds h (a.tables k) c
      → get k h a ≡ fetched c.object
  unfolding get
  get-Holds k h a c e = ap fetched e.1

  -- A handle, from the call that created it on: after any calls, on whatever handles of whatever
  -- kinds, the maps hold it as the counted reference that starts at one and runs only the calls on
  -- that handle, and `get` gives the object of that reference, or throws once it has none.
  pub created-Holds :
      (k : Kind) (v : V) (cs : List (Call V)) (a : Api V)
      → (let r = wrap k v a in
          let start : Cell V = record { object = some v; count = pos 1 } in
          let end = cell_run (own k r.1 cs) start in
          let b = calls cs r.0 in Holds r.1 (b.tables k) end × (get k r.1 b ≡ fetched end.object))
  created-Holds k v cs a =
      let r = wrap k v a in
      let start : Cell V = record { object = some v; count = pos 1 } in
      let b = calls cs r.0 in
      let e = calls-Holds k r.1 cs r.0 start (wrap-last_handle k v a) (wrap_fresh-Holds k v a) in
      (e, get-Holds k r.1 b (cell_run (own k r.1 cs) start) e)
