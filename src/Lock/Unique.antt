-- ===== src/Lock/Unique.antt =====
-- src/public/cfgo/async_locker.hpp: who holds the mutex of an `AsyncUniqueLock`.
use conference_go_client.Common.{
  ℕ, ◌≡◌, ◌<◌, refl, ap, true, false, none, some, get_elem?, set, length, length-set,
  get_elem?-set_self, lt-length_of_get, arith,
}
use conference_go_client.Lock.{
  Table, deferred, adopted, unlock_mutex, try_lock_mutex, unlock, destroy, try_lock, lock,
}

module _ (m : ℕ) (t : Table) where
  pub unlock_held : get_elem? t m ≡ some true → unlock_mutex m t ≡ some (set t m false)
  unfolding unlock_mutex
  unlock_held h = cc h

  pub unlock_free : get_elem? t m ≡ some false → unlock_mutex m t ≡ none
  unfolding unlock_mutex
  unlock_free h = cc h

  pub try_lock_free : get_elem? t m ≡ some false → try_lock_mutex m t ≡ (set t m true, true)
  unfolding try_lock_mutex
  try_lock_free h = cc h

  pub try_lock_busy : get_elem? t m ≡ some true → try_lock_mutex m t ≡ (t, false)
  unfolding try_lock_mutex
  try_lock_busy h = cc h

  pub try_lock_missing : get_elem? t m ≡ none → try_lock_mutex m t ≡ (t, false)
  unfolding try_lock_mutex
  try_lock_missing h = cc h

-- A lock that holds its mutex: `unlock` frees the mutex, but the lock still counts as holding it.
-- Destroying it then is undefined behaviour, or, where another lock took the mutex meanwhile, frees
-- what the other one holds; and locking it again returns at once without the mutex.
unlock_keeps_owning :
    (m : ℕ) (t : Table)
    → get_elem? t m ≡ some true
    → (unlock (adopted m) t ≡ some (set t m false))
      × (destroy (adopted m) (set t m false) ≡ none)
      × (try_lock (deferred m) (set t m false) ≡ (set (set t m false) m true, adopted m))
      × (destroy (adopted m) (set (set t m false) m true)
          ≡ some (set (set (set t m false) m true) m false))
      × (lock (adopted m) (set t m false) ≡ some (set t m false, adopted m))
unfolding unlock destroy try_lock lock
unlock_keeps_owning m t h =
    let lt : m < length t = lt-length_of_get t m true h in
    let freed = get_elem?-set_self t m false lt in
    let taken =
      get_elem?-set_self (set t m false) m true (omega (arith, lt, length-set t m false)) in
    (
      unlock_held m t h,
      unlock_free m (set t m false) freed,
      ap (λ r. (r.0, record { mutex = some m; locked = r.1 }))
          (try_lock_free m (set t m false) freed),
      unlock_held m (set (set t m false) m true) taken,
      refl,
    )
