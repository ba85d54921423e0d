-- ===== src/Client/Callbacks/Ids.antt =====
-- The ids of the callbacks rise, and the next one is above them all.
use conference_go_client.Common.{
  ℕ, ◌+◌, ◌<◌, ◌%◌, ◌^◌, Bool, List, [], ◌∷◌, ◌++◌, All, All-imp, All-append, ◌≡◌, refl, sym, subst,
  arith,
}
use conference_go_client.Client.Callbacks.{Entry, Callbacks, insert_cb, add_msg_cb}
use conference_go_client.Client.Callbacks.Survivors.{Rising}

module _ {Event S : Type 0} where
  abbrev pub Below : ℕ → List (Entry Event S) → Type 0
  Below id es = All (λ (e : Entry Event S). e.id < id) es

  abbrev pub Inv : Callbacks Event S → Type 0
  Inv c = Rising c.cbs × All (λ (e : Entry Event S). e.id < c.next_id) c.cbs

  pub insert_cb-append :
      (e : Entry Event S) (es : List (Entry Event S))
      → Below e.id es
      → insert_cb Event S e es ≡ es ++ (e ∷ [])
  insert_cb-append e [] h = refl
  insert_cb-append e (x ∷ xs) h = ground (arith, insert_cb-append e xs h.1, h.0)

  Rising-append :
      (es : List (Entry Event S)) (e : Entry Event S)
      → Rising es
      → Below e.id es
      → Rising (es ++ (e ∷ []))
  Rising-append [] e r h = (tt, tt)
  Rising-append (x ∷ xs) e r h = (
    All-append (λ (y : Entry Event S). x.id < y.id) xs (e ∷ []) r.0 (h.0, tt),
    Rising-append xs e r.1 h.1,
  )

  pub add_msg_cb-Inv :
      (c : Callbacks Event S) (cb : Event → S → Bool × S)
      → Inv c
      → c.next_id + 1 < 2 ^ 32
      → Inv (add_msg_cb Event S cb c).1
  unfolding add_msg_cb
  add_msg_cb-Inv c cb h bound =
      let e : Entry Event S = record { id = c.next_id; cb = cb } in
      let wrap : (c.next_id + 1) % 2 ^ 32 ≡ c.next_id + 1 = omega arith in
      let added = Rising-append c.cbs e h.0 h.1 in
      let above =
        All-append (λ (x : Entry Event S). x.id < c.next_id + 1) c.cbs (e ∷ [])
          (All-imp (λ (x : Entry Event S). x.id < c.next_id)
            (λ (x : Entry Event S). x.id < c.next_id + 1) c.cbs (λ x k. omega arith) h.1)
          (omega arith, tt) in
      subst
        (λ (es : List (Entry Event S)).
          Rising es × All (λ (x : Entry Event S). x.id < (c.next_id + 1) % 2 ^ 32) es)
        (sym (insert_cb-append e c.cbs h.1))
        (
          added,
          subst (λ (n : ℕ). All (λ (x : Entry Event S). x.id < n) (c.cbs ++ (e ∷ []))) (sym wrap)
              above,
        )
