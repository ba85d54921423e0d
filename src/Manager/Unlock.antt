-- ===== src/Manager/Unlock.antt =====
-- src/async_locker.cpp: `unlock`, which lets the blocked go, drops what was removed while it was
-- locked, and answers the requests; and every call together.
use mathlib.Core.Option
use conference_go_client.Common.{
  All-imp, ℕ, ◌+◌, ◌^◌, ◌==◌, ◌≤◌, ◌<◌, ◌≡◌, ℤ, true, false, ◌&&◌, Option, some, List, [], ◌∷◌,
  ◌++◌, map, arith, length, count, count-append, count-keep, keep, All, All-append, All-keep, refl,
  ap, Bool-cases, inl, inr,
}
use conference_go_client.Channel.{Channels, chan_must_write}
use conference_go_client.Blocker.{new_blocker}
use conference_go_client.Manager.{
  Info, Request, Manager, id_of, u32, new_info, add_blocker, cancel_add, remove_blocker, enter_lock,
  release_info, admit, unlock,
}
use conference_go_client.Manager.Registry.{
  uses, asks, uses-release, Inv, add_blocker-Inv, remove_blocker-Inv, cancel_add-Inv,
  enter_lock-Inv,
}

module _ {Ch : Type 0} (channels : Channels Ch) where
  -- What `admit` makes of the requests.
  pub record Admitted (rs : List (Request Ch)) (p : List (Info Ch) × List (ℕ × Ch)) : Type 0 where
    pub same_ids : (a : ℕ) → uses a p.0 ≡ asks a rs
    pub are_valid : All (λ i. i.valid ≡ true) p.0
    pub unblocked : All (λ i. i.blocker.block ≡ false) p.0
    pub told : map (λ q. q.0) p.1 ≡ map (λ r. r.id) rs
    pub filled : All (λ q. channels.full q.1 ≡ true) p.1

  admit-Admitted :
      (epoch : ℕ) (rs : List (Request Ch))
      → All (λ r. channels.full r.chan ≡ false) rs
      → (p : List (Info Ch) × List (ℕ × Ch)) × (admit channels epoch rs ≡ some p) × Admitted rs p
  unfolding chan_must_write new_blocker
  admit-Admitted epoch [] h = (
    ([], []),
    refl,
    record { same_ids = λ a. refl; are_valid = tt; unblocked = tt; told = refl; filled = tt },
  )
  admit-Admitted epoch (r ∷ rs) h =
      let (p, e, k) = admit-Admitted (u32 (epoch + 1)) rs h.1 in
      (
        (
          new_info channels r.id epoch r.priority ∷ p.0,
          (r.id, (channels.try_write r.chan).0) ∷ p.1,
        ),
        ground (arith, h.0, channels.write_accepts r.chan, e),
        record {
          same_ids = λ a. ground (arith, k.same_ids a);
          are_valid = (refl, k.are_valid);
          unblocked = (refl, k.unblocked);
          told = rw k.told refl;
          filled = (channels.write_fills r.chan, k.filled);
        },
      )

  kept_valid : (is : List (Info Ch)) → All (λ i. i.valid ≡ true) (keep (λ i. i.valid) is)
  kept_valid [] = tt
  kept_valid (i ∷ is) = ground (arith, kept_valid is)

  unlocked : Manager Ch → List (Info Ch) → Manager Ch
  unlocked m new = record m {
    locked = false;
    blockers = keep (λ i. i.valid) (map (release_info channels) m.blockers) ++ new;
    requests = [];
    next_epoch = u32 (m.next_epoch + length m.requests);
  }

  -- `unlock` on a locked manager.
  unlock_locked :
      (m : Manager Ch)
      → m.locked ≡ true
      → Inv channels m
      → (p : List (Info Ch) × List (ℕ × Ch)) × (unlock channels m ≡ some (unlocked m p.0, p.1))
        × Admitted m.requests p
  unfolding unlock unlocked
  unlock_locked m l v =
      let (p, e, k) = admit-Admitted m.next_epoch m.requests v.untold in (p, ground (arith, e), k)

  unlocked-Inv :
      (m : Manager Ch) (p : List (Info Ch) × List (ℕ × Ch))
      → Inv channels m
      → Admitted m.requests p
      → Inv channels (unlocked m p.0)
  unfolding unlocked
  unlocked-Inv m p v k =
      let released = map (release_info channels) m.blockers in
      record {
        once = λ a. omega (
          arith,
          v.once a,
          k.same_ids a,
          uses-release channels a m.blockers,
          count-keep (λ i. id_of i == a) (λ i. i.valid) released,
          count-append (λ i. id_of i == a) (keep (λ i. i.valid) released) p.0,
        );
        below = λ a b. omega (
          arith,
          v.below a b,
          k.same_ids a,
          uses-release channels a m.blockers,
          count-keep (λ i. id_of i == a) (λ i. i.valid) released,
          count-append (λ i. id_of i == a) (keep (λ i. i.valid) released) p.0,
        );
        no_requests = λ u. refl;
        all_valid = λ u.
            All-append (λ i. i.valid ≡ true) (keep (λ i. i.valid) released) p.0
              (kept_valid released) k.are_valid;
        untold = tt;
      }

  unlock_open : (m : Manager Ch) → m.locked ≡ false → unlock channels m ≡ some (m, [])
  unfolding unlock
  unlock_open m l = ground arith

  -- The calls that change the lists.
  pub data Call : Type 0 where
    adds : ℤ → Call
    cancels removes : ℕ → Call
    locks unlocks : Call

  -- `none` is an exception of `unlock`.
  pub call : Call → Manager Ch → Option (Manager Ch)
  call (adds priority) m = some (add_blocker channels priority m).0
  call (cancels id) m = some (cancel_add id m).0
  call (removes id) m = some (remove_blocker id m)
  call locks m = some (enter_lock m).0
  call unlocks m = Option.map (λ r. r.0) (unlock channels m)

  -- Every call on a manager that satisfies the invariant and has not used up its ids ends with no
  -- exception from `unlock`, and the invariant holds again.
  pub call-Inv :
      (m : Manager Ch) (c : Call)
      → m.next_id + 1 < 2 ^ 32
      → Inv channels m
      → (n : Manager Ch) × (call c m ≡ some n) × Inv channels n
  unfolding call
  call-Inv m (adds priority) h v = (_, refl, add_blocker-Inv channels priority m h v)
  call-Inv m (cancels id) h v = (_, refl, cancel_add-Inv channels id m v)
  call-Inv m (removes id) h v = (_, refl, remove_blocker-Inv channels id m v)
  call-Inv m locks h v = (_, refl, enter_lock-Inv channels m v)
  call-Inv m unlocks h v = elim (Bool-cases m.locked) [
    | inl l ↦
        let (p, e, k) = unlock_locked m l v in (unlocked m p.0, rw e refl, unlocked-Inv m p v k)
    | inr l ↦ (m, ap (Option.map (λ r. r.0)) (unlock_open m l), v)
  ]

  released_unblocked :
      (is : List (Info Ch)) → All (λ i. i.blocker.block ≡ false) (map (release_info channels) is)
  unfolding release_info
  released_unblocked [] = tt
  released_unblocked (i ∷ is) = (ground arith, released_unblocked is)

  uses-kept :
      (a : ℕ) (is : List (Info Ch))
      → uses a (keep (λ i. i.valid) (map (release_info channels) is))
        ≡ count (λ i. i.valid && (id_of i == a)) is
  unfolding release_info
  uses-kept a [] = refl
  uses-kept a (i ∷ is) = ground (arith, uses-kept a is)

  uses-valid : (a : ℕ) (is : List (Info Ch)) → count (λ i. i.valid && (id_of i == a)) is ≤ uses a is
  uses-valid a [] = omega arith
  uses-valid a (i ∷ is) = ground (arith, uses-valid a is)

  asked :
      (rs all : List (Request Ch))
      → ((a : ℕ) → asks a rs ≤ asks a all)
      → All (λ r. 1 ≤ asks r.id all) rs
  asked [] all h = tt
  asked (r ∷ rs) all h = (ground (arith, h r.id), asked rs all (λ a. ground (arith, h a)))

  -- `unlock` of a locked manager that satisfies the invariant throws nothing. It leaves the manager
  -- unlocked with no request, tells everybody who waited for a blocker, in order, and has a blocker
  -- with that id for each; nobody is asked to block any more, and what was removed meanwhile is gone.
  pub unlock_admits :
      (m : Manager Ch)
      → m.locked ≡ true
      → Inv channels m
      → (n : Manager Ch) × (told : List (ℕ × Ch)) × (unlock channels m ≡ some (n, told))
        × (n.locked ≡ false)
        × (n.requests ≡ [])
        × (map (λ q. q.0) told ≡ map (λ r. r.id) m.requests)
        × All (λ q. channels.full q.1 ≡ true) told
        × All (λ r. uses r.id n.blockers ≡ 1) m.requests
        × All (λ i. i.blocker.block ≡ false) n.blockers
        × ((a : ℕ)
            → uses a n.blockers
              ≡ count (λ i. i.valid && (id_of i == a)) m.blockers + asks a m.requests)
  unfolding unlocked
  unlock_admits m l v =
      let (p, e, k) = unlock_locked m l v in
      let released = map (release_info channels) m.blockers in
      let exact : (a : ℕ)
          → uses a (keep (λ i. i.valid) released ++ p.0)
            ≡ count (λ i. i.valid && (id_of i == a)) m.blockers + asks a m.requests =
        λ a. omega (
          arith,
          count-append (λ i. id_of i == a) (keep (λ i. i.valid) released) p.0,
          uses-kept a m.blockers,
          k.same_ids a,
        ) in
      let requests_once =
        All-imp (λ r. 1 ≤ asks r.id m.requests)
          (λ r. uses r.id (keep (λ i. i.valid) released ++ p.0) ≡ 1) m.requests
          (λ r h. omega (arith, exact r.id, v.once r.id, uses-valid r.id m.blockers))
          (asked m.requests m.requests (λ a. omega arith)) in
      (
        unlocked m p.0,
        p.1,
        e,
        refl,
        refl,
        k.told,
        k.filled,
        requests_once,
        All-append (λ i. i.blocker.block ≡ false)
            (keep (λ i. i.valid) (map (release_info channels) m.blockers)) p.0
            (All-keep (λ i. i.blocker.block ≡ false) (λ i. i.valid)
              (map (release_info channels) m.blockers) (released_unblocked m.blockers))
            k.unblocked,
        exact,
      )
