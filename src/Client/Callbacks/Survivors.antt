-- ===== src/Client/Callbacks/Survivors.antt =====
-- Which callbacks an event leaves, and the order of the ids.
use conference_go_client.Common.{
  ℕ, ◌<◌, has, Bool, true, false, not, List, [], ◌∷◌, ◌++◌, keep, All, ◌≡◌, refl, sym, ap, ◌∙◌,
  if◌then◌else◌, arith,
}
use mathlib.Core.List.{append_assoc, append-nil}
use conference_go_client.Client.Callbacks.{
  Entry, Callbacks, erase_cb, call_all, erase_all, process_msg_cbs,
}

collected :
    (b : Bool) (out : List ℕ) (id : ℕ) (rest : List ℕ)
    → (if b then out else out ++ (id ∷ [])) ++ rest ≡ out ++ (if b then rest else id ∷ rest)
collected true out id rest = refl
collected false out id rest = append_assoc out (id ∷ []) rest

module _ {Event S : Type 0} where
  -- The reference: one pass that keeps the callbacks which answer that they stay.
  unfoldable pub staying : Event → List (Entry Event S) → S → List (Entry Event S) × S
  staying event [] s = ([], s)
  staying event (e ∷ es) s =
      let answer = e.cb event s in
      let rest = staying event es answer.1 in (if answer.0 then e ∷ rest.0 else rest.0, rest.1)

  -- The ids of the others.
  leaving : Event → List (Entry Event S) → S → List ℕ
  leaving event [] s = []
  leaving event (e ∷ es) s =
      let answer = e.cb event s in
      let rest = leaving event es answer.1 in if answer.0 then rest else e.id ∷ rest

  abbrev pub Above : ℕ → List (Entry Event S) → Type 0
  Above id es = All (λ (e : Entry Event S). id < e.id) es

  -- The ids rise, so that no two are the same.
  abbrev pub Rising : List (Entry Event S) → Type 0
  Rising [] = Unit
  Rising (e ∷ es) = Above e.id es × Rising es

  call_all_lem :
      (event : Event) (es : List (Entry Event S)) (s : S) (out : List ℕ)
      → call_all Event S event es s out ≡ (out ++ leaving event es s, (staying event es s).1)
  unfolding leaving staying
  call_all_lem event [] s out = ap (λ (l : List ℕ). (l, s)) (sym (append-nil out))
  call_all_lem event (e ∷ es) s out =
      let answer : Bool × S = e.cb event s in
      let called = if answer.0 then out else out ++ (e.id ∷ []) in
      let here = collected answer.0 out e.id (leaving event es answer.1) in
      call_all_lem event es answer.1 called
      ∙ ap (λ (l : List ℕ). (l, (staying event es answer.1).1)) here

  erase-keep :
      (id : ℕ) (ids : List ℕ) (es : List (Entry Event S))
      → keep (λ (e : Entry Event S). not (has e.id ids)) (erase_cb Event S id es)
        ≡ keep (λ (e : Entry Event S). not (has e.id (id ∷ ids))) es
  erase-keep id ids [] = refl
  erase-keep id ids (e ∷ es) = ground (arith, erase-keep id ids es)

  keep_all : (es : List (Entry Event S)) → es ≡ keep (λ (e : Entry Event S). true) es
  keep_all [] = refl
  keep_all (e ∷ es) = ap (λ (l : List (Entry Event S)). e ∷ l) (keep_all es)

  erase_all-keep :
      (ids : List ℕ) (es : List (Entry Event S))
      → erase_all Event S ids es ≡ keep (λ (e : Entry Event S). not (has e.id ids)) es
  erase_all-keep [] es = keep_all es
  erase_all-keep (id ∷ ids) es = erase_all-keep ids (erase_cb Event S id es) ∙ erase-keep id ids es

  has-leaving :
      (event : Event) (id : ℕ) (es : List (Entry Event S)) (s : S)
      → Above id es
      → has id (leaving event es s) ≡ false
  unfolding leaving
  has-leaving event id [] s h = refl
  has-leaving event id (e ∷ es) s h =
      ground (arith, has-leaving event id es (e.cb event s).1 h.1, h.0)

  keep_other :
      (id : ℕ) (ids : List ℕ) (es : List (Entry Event S))
      → Above id es
      → keep (λ (e : Entry Event S). not (has e.id (id ∷ ids))) es
        ≡ keep (λ (e : Entry Event S). not (has e.id ids)) es
  keep_other id ids [] h = refl
  keep_other id ids (e ∷ es) h = ground (arith, keep_other id ids es h.1, h.0)

  keep-leaving :
      (event : Event) (es : List (Entry Event S)) (s : S)
      → Rising es
      → keep (λ (e : Entry Event S). not (has e.id (leaving event es s))) es
        ≡ (staying event es s).0
  unfolding leaving staying
  keep-leaving event [] s h = refl
  keep-leaving event (e ∷ es) s h =
      let s1 = (e.cb event s).1 in
      let gone = leaving event es s1 in
      ground (
        arith,
        keep-leaving event es s1 h.1,
        has-leaving event e.id es s1 h.0,
        keep_other e.id gone es h.0,
      )

  -- Where the ids of the callbacks rise, an event runs every callback once in the order of the ids,
  -- each on what the one before it left of the state, and exactly those that answered false are
  -- gone.
  pub process_msg_cbs-staying :
      (event : Event) (c : Callbacks Event S) (s : S)
      → Rising c.cbs
      → process_msg_cbs Event S event c s
        ≡ (record c { cbs = (staying event c.cbs s).0 }, (staying event c.cbs s).1)
  unfolding process_msg_cbs
  process_msg_cbs-staying event c s h =
      let left = erase_all-keep (leaving event c.cbs s) c.cbs ∙ keep-leaving event c.cbs s h in
      let after : List ℕ × S → Callbacks Event S × S =
        λ p. (record c { cbs = erase_all Event S p.0 c.cbs }, p.1) in
      let with_cbs : List (Entry Event S) → Callbacks Event S × S =
        λ l. (record c { cbs = l }, (staying event c.cbs s).1) in
      ap after (call_all_lem event c.cbs s []) ∙ ap with_cbs left
