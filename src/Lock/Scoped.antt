-- ===== src/Lock/Scoped.antt =====
-- src/public/cfgo/async_locker.hpp, `AsyncScopedLock`: locking several mutexes and destroying the lock.
use conference_go_client.Common.{
  ℕ, zero, suc, ◌≡◌, ◌≢◌, ◌∙◌, refl, sym, ap, Bool, true, false, none, some, List, [], ◌∷◌,
  get_elem?, set, has, get_elem?-set_self, get_elem?-set_ne, lt-length_of_get, arith, Option-cases,
  inl, inr,
}
use conference_go_client.Lock.{Table, unlock_all}
use conference_go_client.Lock.Unique.{unlock_held}
use conference_go_client.Lock.Several.{first_busy, lock_all, Distinct, set-restores}

other : (m k : ℕ) (ms : List ℕ) → has m (k ∷ ms) ≡ false → m ≢ k
other m k ms h = λ e. ground (arith, h, e)

get_elem?-lock_all :
    (m : ℕ) (ms : List ℕ) (t : Table)
    → has m ms ≡ false
    → get_elem? (lock_all ms t) m ≡ get_elem? t m
get_elem?-lock_all m [] t h = refl
get_elem?-lock_all m (k ∷ ms) t h =
    get_elem?-lock_all m ms (set t k true) (ground (arith, h))
    ∙ get_elem?-set_ne t k m true (λ e. other m k ms h (sym e))

set_comm : (t : Table) (m k : ℕ) (a b : Bool) → m ≢ k → set (set t m a) k b ≡ set (set t k b) m a
set_comm [] m k a b h = refl
set_comm (x ∷ t) zero zero a b h = absurd (h refl)
set_comm (x ∷ t) zero (suc k) a b h = refl
set_comm (x ∷ t) (suc m) zero a b h = refl
set_comm (x ∷ t) (suc m) (suc k) a b h = ap (λ r. x ∷ r) (set_comm t m k a b (λ e. h (ap suc e)))

set-lock_all :
    (m : ℕ) (b : Bool) (ms : List ℕ) (t : Table)
    → has m ms ≡ false
    → set (lock_all ms t) m b ≡ lock_all ms (set t m b)
set-lock_all m b [] t h = refl
set-lock_all m b (k ∷ ms) t h =
    set-lock_all m b ms (set t k true) (ground (arith, h))
    ∙ ap (lock_all ms) (sym (set_comm t m k b true (other m k ms h)))

-- What a first mutex that can be taken says.
first_is_free :
    (index m : ℕ) (ms : List ℕ) (t : Table)
    → first_busy index (m ∷ ms) t ≡ none
    → (get_elem? t m ≡ some false) × (first_busy (suc index) ms t ≡ none)
first_is_free index m ms t h = elim (Option-cases (get_elem? t m)) [
  | inl e ↦ cc (h, e)
  | inr (true, e) ↦ cc (h, e)
  | inr (false, e) ↦ (e, cc (h, e))
]

-- Different mutexes that are all free, from an index on: where they are locked, the destructor of an
-- `AsyncScopedLock` that holds them returns, and the table is again what it was before.
unlock_all-lock_all :
    (index : ℕ) (ms : List ℕ) (t : Table)
    → Distinct ms
    → first_busy index ms t ≡ none
    → unlock_all ms (lock_all ms t) ≡ some t
unfolding unlock_all
unlock_all-lock_all index [] t d h = refl
unlock_all-lock_all index (m ∷ ms) t d h =
    let f = first_is_free index m ms t h in
    let taken = get_elem?-set_self t m true (lt-length_of_get t m false f.0) in
    let held = get_elem?-lock_all m ms (set t m true) d.0 ∙ taken in
    ap (λ o. elim o [ none ↦ none | some s ↦ unlock_all ms s ])
      (unlock_held m (lock_all ms (set t m true)) held)
    ∙ ap (unlock_all ms)
        (set-lock_all m false ms (set t m true) d.0 ∙ ap (lock_all ms) (set-restores t m f.0))
    ∙ unlock_all-lock_all (suc index) ms t d.1 f.1
