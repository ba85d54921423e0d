-- ===== src/Lock.antt =====
-- src/public/cfgo/async_locker.hpp: the guards over mutexes, `AsyncUniqueLock`, `AsyncLockGuard`,
-- `AsyncScopedLock`, and `detail::async_lock`, which takes several at once. The mutexes are the numbers
-- below the length of a table that holds whether each is locked; those that one call takes are
-- different. An `unlock` of a mutex that is not locked is undefined behaviour, `none`.
pub mod Unique
pub mod Several
pub mod Scoped
mod Tests
use conference_go_client.Common.{
  ℕ, suc, ◌==◌, Bool, true, false, not, ◌&&◌, Option, none, some, List, [], ◌∷◌, get_elem?, set,
  if◌then◌else◌,
}
use mathlib.Core.Option

-- Whether each mutex is locked.
abbrev pub Table : Type 0
Table = List Bool

-- `mutex.unlock()`
unfoldable pub unlock_mutex : ℕ → Table → Option Table
unlock_mutex m t = elim (get_elem? t m) [
  | none ↦ none
  | some locked ↦ if locked then some (set t m false) else none
]

-- `mutex.try_lock()`
unfoldable pub try_lock_mutex : ℕ → Table → Table × Bool
try_lock_mutex m t = elim (get_elem? t m) [
  | none ↦ (t, false)
  | some locked ↦ if locked then (t, false) else (set t m true, true)
]

-- `AsyncUniqueLock`
pub record UniqueLock : Type 0 where
  pub mutex : Option ℕ
  pub locked : Bool

-- `AsyncUniqueLock(m)`, and with `std::adopt_lock` and `std::try_to_lock`.
abbrev pub deferred : ℕ → UniqueLock
deferred m = record { mutex = some m; locked = false }

abbrev pub adopted : ℕ → UniqueLock
adopted m = record { mutex = some m; locked = true }

unfoldable pub try_to_lock : ℕ → Table → Table × UniqueLock
unfolding try_lock_mutex
try_to_lock m t = let r = try_lock_mutex m t in (r.0, record { mutex = some m; locked = r.1 })

abbrev pub empty_lock : UniqueLock
empty_lock = record { mutex = none; locked = false }

-- `unlock`, which leaves `m_locked` as it is.
unfoldable pub unlock : UniqueLock → Table → Option Table
unfolding unlock_mutex
unlock l t = elim l.mutex [ none ↦ some t | some m ↦ if l.locked then unlock_mutex m t else some t ]

-- `~AsyncUniqueLock`
unfoldable pub destroy : UniqueLock → Table → Option Table
unfolding unlock
destroy l t = unlock l t

unfoldable pub try_lock : UniqueLock → Table → Table × UniqueLock
unfolding try_lock_mutex
try_lock l t = elim l.mutex [
  | none ↦ (t, l)
  | some m ↦
      let r = try_lock_mutex m t in if l.locked then (t, l) else (r.0, record l { locked = r.1 })
]

-- `release`: the mutex, and the lock without it.
unfoldable pub release : UniqueLock → Option ℕ × UniqueLock
release l = (l.mutex, empty_lock)

-- `AsyncUniqueLock(AsyncUniqueLock &&)`: the new lock, and the old.
unfoldable pub move_construct : UniqueLock → UniqueLock × UniqueLock
move_construct u = (record { mutex = u.mutex; locked = u.locked }, empty_lock)

-- `operator = (AsyncUniqueLock && u)`: this lock, `u` and the table. The two are different objects.
unfoldable pub move_assign :
    UniqueLock → UniqueLock → Table → Option (UniqueLock × UniqueLock × Table)
unfolding unlock
move_assign l u t = elim (unlock l t) [
  | none ↦ none
  | some s ↦ some (record { mutex = u.mutex; locked = u.locked }, empty_lock, s)
]

unfoldable pub swap : UniqueLock → UniqueLock → UniqueLock × UniqueLock
swap l u = (u, l)

-- `lock`: `none` waits for the mutex.
unfoldable pub lock : UniqueLock → Table → Option (Table × UniqueLock)
unfolding try_lock_mutex
lock l t = elim l.mutex [
  | none ↦ some (t, l)
  | some m ↦
      let r = try_lock_mutex m t in
      if l.locked then some (t, l) else if r.1 then some (r.0, record l { locked = true }) else none
]

-- `AsyncLockGuard` and `AsyncScopedLock` over one mutex.
pub record Guard : Type 0 where
  pub mutex : ℕ
  pub locked : Bool

-- `lock`: `none` waits for the mutex.
unfoldable pub guard_lock : Guard → Table → Option (Table × Guard)
unfolding try_lock_mutex
guard_lock g t =
    let r = try_lock_mutex g.mutex t in
    if g.locked then some (t, g) else if r.1 then some (r.0, record g { locked = true }) else none

-- `~AsyncLockGuard`
unfoldable pub guard_destroy : Guard → Table → Option Table
unfolding unlock_mutex
guard_destroy g t = if g.locked then unlock_mutex g.mutex t else some t

-- What `do_try_lock` does with the lock that it made, where `rest` is the call for the mutexes that
-- follow: the lock gives its mutex back unless all that follow were taken.
abbrev pub attempt :
    (Table → Option (Table × Option ℕ)) → ℕ → Table × UniqueLock → Option (Table × Option ℕ)
attempt rest index r = elim r.1.locked [
  | true ↦ elim (rest r.0) [
    | none ↦ none
    | some s ↦ elim s.1 [
      | none ↦ some (s.0, none)
      | some i ↦ Option.map (λ d. (d, some i)) (destroy r.1 s.0)
    ]
  ]
  | false ↦ Option.map (λ d. (d, some index)) (destroy r.1 r.0)
]

-- `try_async_lock_impl::do_try_lock` from `index` on: where it stopped, `none` for -1.
unfoldable pub do_try_lock : ℕ → List ℕ → Table → Option (Table × Option ℕ)
unfolding try_to_lock destroy
do_try_lock index [] t = some (t, none)
do_try_lock index (m ∷ ms) t = attempt (do_try_lock (suc index) ms) index (try_to_lock m t)

-- What a round of `detail::async_lock` comes to: undefined behaviour, every mutex, another round, or
-- a wait for the first mutex.
pub data Round : Type 0 where
  undefined waits : Round
  takes again : Table → Round

unfoldable pub async_lock_round : ℕ → List ℕ → Table → Round
unfolding lock do_try_lock destroy
async_lock_round m ms t = elim (lock (deferred m) t) [
  | none ↦ waits
  | some l ↦ elim (do_try_lock 0 ms l.0) [
    | none ↦ undefined
    | some r ↦ elim r.1 [
      | none ↦ takes r.0
      | some i ↦ elim (destroy l.1 r.0) [ none ↦ undefined | some s ↦ again s ]
    ]
  ]
]

-- `~AsyncScopedLock` of a lock that is held: every mutex is unlocked, in order.
unfoldable pub unlock_all : List ℕ → Table → Option Table
unfolding unlock_mutex
unlock_all [] t = some t
unlock_all (m ∷ ms) t = elim (unlock_mutex m t) [ none ↦ none | some s ↦ unlock_all ms s ]
