-- ===== src/Manager/Registry.antt =====
-- src/async_locker.cpp: the list of blockers and the list of requests, under `add_blocker`,
-- `remove_blocker`, the start of `lock`, and `unlock`.
use conference_go_client.Common.{
  ℕ, ◌+◌, ◌^◌, ◌==◌, ◌≤◌, ◌<◌, ◌≡◌, ℤ, true, false, false≢true, not, none, some, List, [], ◌∷◌, map,
  arith, count, count-append, count-keep, All, All-append, All-keep, refl, ◌∙◌, sym, subst,
  Bool-cases, Option-cases, inl, inr,
}
use conference_go_client.Channel.{Channels}
use conference_go_client.Blocker.{new_blocker}
use conference_go_client.Manager.{
  Info, Request, Manager, id_of, erase_request, invalidate, new_info, push_blocker, push_request,
  add_blocker, cancel_add, remove_blocker, enter_lock, release_info,
}

module _ {Ch : Type 0} where
  -- How often an id is in use.
  abbrev pub uses : ℕ → List (Info Ch) → ℕ
  uses a is = count (λ i. id_of i == a) is

  abbrev pub asks : ℕ → List (Request Ch) → ℕ
  asks a rs = count (λ r. r.id == a) rs

  pub uses-release :
      (channels : Channels Ch) (a : ℕ) (is : List (Info Ch))
      → uses a (map (release_info channels) is) ≡ uses a is
  unfolding release_info
  uses-release channels a [] = refl
  uses-release channels a (i ∷ is) = ground (arith, uses-release channels a is)

  uses-invalidate : (a id : ℕ) (is : List (Info Ch)) → uses a (invalidate id is) ≡ uses a is
  uses-invalidate a id [] = refl
  uses-invalidate a id (i ∷ is) = ground (arith, uses-invalidate a id is)

  asks-erase :
      (a id : ℕ) (rs qs : List (Request Ch)) → erase_request id rs ≡ some qs → asks a qs ≤ asks a rs
  asks-erase a id [] qs e = cc
  asks-erase a id (r ∷ rs) qs e = elim (Option-cases (erase_request id rs)) [
    | inl n ↦ ground arith
    | inr (q, n) ↦ ground (arith, asks-erase a id rs q n)
  ]

  All-erase :
      (channels : Channels Ch) (id : ℕ) (rs qs : List (Request Ch))
      → erase_request id rs ≡ some qs
      → All (λ r. channels.full r.chan ≡ false) rs
      → All (λ r. channels.full r.chan ≡ false) qs
  All-erase channels id [] qs e h = cc
  All-erase channels id (r ∷ rs) qs e h = elim (Option-cases (erase_request id rs)) [
    | inl n ↦ ground arith
    | inr (q, n) ↦ ground (arith, All-erase channels id rs q n h.1)
  ]

module _ {Ch : Type 0} (channels : Channels Ch) where
  -- Ids are in use once at most and are below the next one, nobody waits for a blocker while the
  -- manager is not locked, none is marked for removal then, and nobody who waits was told yet.
  pub record Inv (m : Manager Ch) : Type 0 where
    pub once : (a : ℕ) → uses a m.blockers + asks a m.requests ≤ 1
    pub below : (a : ℕ) → m.next_id ≤ a → uses a m.blockers + asks a m.requests ≡ 0
    pub no_requests : m.locked ≡ false → m.requests ≡ []
    pub all_valid : m.locked ≡ false → All (λ i. i.valid ≡ true) m.blockers
    pub untold : All (λ r. channels.full r.chan ≡ false) m.requests

  add_locked :
      (priority : ℤ) (m : Manager Ch)
      → m.locked ≡ true
      → (add_blocker channels priority m).0 ≡ push_request channels priority m
  unfolding add_blocker
  add_locked priority m l = ground arith

  add_open :
      (priority : ℤ) (m : Manager Ch)
      → m.locked ≡ false
      → (ready : Ch) × ((add_blocker channels priority m).0
          ≡ record (push_blocker channels priority m) { ready_ch = ready })
  unfolding add_blocker
  add_open priority m l = ((add_blocker channels priority m).0.ready_ch, ground arith)

  push_blocker-Inv :
      (priority : ℤ) (m : Manager Ch) (ready : Ch)
      → m.next_id + 1 < 2 ^ 32
      → m.locked ≡ false
      → Inv m
      → Inv (record (push_blocker channels priority m) { ready_ch = ready })
  unfolding new_blocker
  push_blocker-Inv priority m ready h l v =
      let new = new_info channels m.next_id m.next_epoch priority in
      record {
        once = λ a.
            ground
              (arith, v.once a, v.below a, count-append (λ i. id_of i == a) m.blockers (new ∷ []));
        below = λ a b.
            ground (arith, v.below a, count-append (λ i. id_of i == a) m.blockers (new ∷ []));
        no_requests = v.no_requests;
        all_valid =
            λ u. All-append (λ i. i.valid ≡ true) m.blockers (new ∷ []) (v.all_valid u) (refl, tt);
        untold = v.untold;
      }

  push_request-Inv :
      (priority : ℤ) (m : Manager Ch)
      → m.next_id + 1 < 2 ^ 32
      → m.locked ≡ true
      → Inv m
      → Inv (push_request channels priority m)
  push_request-Inv priority m h l v =
      let new : Request Ch = record {
        id = m.next_id;
        priority = priority;
        chan = channels.fresh;
      } in
      record {
        once = λ a.
            ground
              (arith, v.once a, v.below a, count-append (λ r. r.id == a) m.requests (new ∷ []));
        below =
            λ a b. ground (arith, v.below a, count-append (λ r. r.id == a) m.requests (new ∷ []));
        no_requests = λ u. absurd (false≢true (sym u ∙ l));
        all_valid = v.all_valid;
        untold =
            All-append (λ r. channels.full r.chan ≡ false) m.requests (new ∷ []) v.untold
              (channels.fresh_empty, tt);
      }

  pub add_blocker-Inv :
      (priority : ℤ) (m : Manager Ch)
      → m.next_id + 1 < 2 ^ 32
      → Inv m
      → Inv (add_blocker channels priority m).0
  add_blocker-Inv priority m h v = elim (Bool-cases m.locked) [
    | inl l ↦ subst Inv (sym (add_locked priority m l)) (push_request-Inv priority m h l v)
    | inr l ↦
        let (ready, e) = add_open priority m l in
        subst Inv (sym e) (push_blocker-Inv priority m ready h l v)
  ]

  pub remove_blocker-Inv : (id : ℕ) (m : Manager Ch) → Inv m → Inv (remove_blocker id m)
  unfolding remove_blocker
  remove_blocker-Inv id m v = record {
    once = λ a. ground (
      arith,
      v.once a,
      uses-invalidate a id m.blockers,
      count-keep (λ i. id_of i == a) (λ i. not (id_of i == id)) m.blockers,
      count-keep (λ r. r.id == a) (λ r. not (r.id == id)) m.requests,
    );
    below = λ a b. ground (
      arith,
      v.below a b,
      uses-invalidate a id m.blockers,
      count-keep (λ i. id_of i == a) (λ i. not (id_of i == id)) m.blockers,
      count-keep (λ r. r.id == a) (λ r. not (r.id == id)) m.requests,
    );
    no_requests = λ u. rw (v.no_requests u) refl;
    all_valid = λ u.
        rw u (All-keep (λ i. i.valid ≡ true) (λ i. not (id_of i == id)) m.blockers (v.all_valid u));
    untold =
        All-keep (λ r. channels.full r.chan ≡ false) (λ r. not (r.id == id)) m.requests v.untold;
  }

  cancel_add-none :
      (id : ℕ) (m : Manager Ch) → erase_request id m.requests ≡ none → (cancel_add id m).0 ≡ m
  unfolding cancel_add
  cancel_add-none id m e = ground arith

  pub cancel_add-Inv : (id : ℕ) (m : Manager Ch) → Inv m → Inv (cancel_add id m).0
  unfolding cancel_add
  cancel_add-Inv id m v = elim (Option-cases (erase_request id m.requests)) [
    | inl e ↦ subst Inv (sym (cancel_add-none id m e)) v
    | inr (qs, e) ↦
        rw (e, cancel_add)
          (record {
            once = λ a. omega (arith, v.once a, asks-erase a id m.requests qs e);
            below = λ a b. omega (arith, v.below a b, asks-erase a id m.requests qs e);
            no_requests = λ u. let f = rw (v.no_requests u) at e in cc;
            all_valid = v.all_valid;
            untold = All-erase channels id m.requests qs e v.untold;
          })
  ]

  pub enter_lock-Inv : (m : Manager Ch) → Inv m → Inv (enter_lock m).0
  unfolding enter_lock
  enter_lock-Inv m v = ground arith
