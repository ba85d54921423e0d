-- ===== src/Lock/Several.antt =====
-- src/public/cfgo/async_locker.hpp: `detail::async_lock` takes every mutex or none.
use conference_go_client.Lock.Unique.{unlock_held, try_lock_free, try_lock_busy, try_lock_missing}
use conference_go_client.Common.{
  ℕ, zero, suc, ◌≡◌, ◌≢◌, ◌∙◌, refl, sym, ap, Bool, true, false, Option, none, some, List, [], ◌∷◌,
  get_elem?, set, has, get_elem?-set_self, get_elem?-set_ne, lt-length_of_get, arith, if◌then◌else◌,
  Option-cases, inl, inr,
}
use mathlib.Core.Option
use conference_go_client.Lock.{
  Table, UniqueLock, adopted, unlock_mutex, try_to_lock, unlock, destroy, lock, attempt,
  do_try_lock, Round, undefined, waits, takes, again, async_lock_round,
}

-- The index of the first mutex that cannot be taken, from an index on.
abbrev pub first_busy : ℕ → List ℕ → Table → Option ℕ
first_busy index [] t = none
first_busy index (m ∷ ms) t = elim (get_elem? t m) [
  | none ↦ some index
  | some locked ↦ elim locked [ true ↦ some index | false ↦ first_busy (suc index) ms t ]
]

abbrev pub lock_all : List ℕ → Table → Table
lock_all [] t = t
lock_all (m ∷ ms) t = lock_all ms (set t m true)

abbrev pub Distinct : List ℕ → Type 0
Distinct [] = Unit
Distinct (m ∷ ms) = (has m ms ≡ false) × Distinct ms

pub first_busy-set :
    (index m : ℕ) (b : Bool) (ms : List ℕ) (t : Table)
    → has m ms ≡ false
    → first_busy index ms (set t m b) ≡ first_busy index ms t
first_busy-set index m b [] t h = refl
first_busy-set index m b (k ∷ ms) t h =
    let other : m ≢ k = λ e. ground (arith, h, e) in
    let same : get_elem? (set t m b) k ≡ get_elem? t k = get_elem?-set_ne t m k b other in
    ap
      (λ o. elim o [
        | none ↦ some index
        | some locked ↦ elim locked [
          | true ↦ some index
          | false ↦ first_busy (suc index) ms (set t m b)
        ]
      ])
      same
    ∙ ap
        (λ f. elim (get_elem? t k) [
          | none ↦ some index
          | some locked ↦ elim locked [ true ↦ some index | false ↦ f ]
        ])
        (first_busy-set (suc index) m b ms t (ground (arith, h)))

-- A mutex that is free, taken and given back.
pub set-restores : (t : Table) (m : ℕ) → get_elem? t m ≡ some false → set (set t m true) m false ≡ t
set-restores [] m h = cc
set-restores (b ∷ t) zero h = ap (λ c. c ∷ t) (cc h)
set-restores (b ∷ t) (suc m) h = ap (λ r. b ∷ r) (set-restores t m h)

-- What `do_try_lock` comes to where the first busy mutex is `o`.
abbrev result : Table → List ℕ → Option ℕ → Option (Table × Option ℕ)
result t ms o = some (elim o [ none ↦ lock_all ms t | some i ↦ t ], o)

-- The lock of a mutex that was free is kept or undone.
undone :
    (rest : Table → Option (Table × Option ℕ)) (index m : ℕ) (ms : List ℕ) (t : Table)
    (o : Option ℕ)
    → get_elem? t m ≡ some false
    → rest (set t m true) ≡ result (set t m true) ms o
    → attempt rest index (set t m true, adopted m) ≡ result t (m ∷ ms) o
unfolding destroy unlock
undone rest index m ms t none h e = cc e
undone rest index m ms t (some i) h e =
    let held = get_elem?-set_self t m true (lt-length_of_get t m false h) in
    ap
      (λ r. elim r [
        | none ↦ none
        | some s ↦ elim s.1 [
          | none ↦ some (s.0, none)
          | some j ↦ Option.map (λ d. (d, some j)) (unlock_mutex m s.0)
        ]
      ])
      e
    ∙ ap (Option.map (λ d. (d, some i))) (unlock_held m (set t m true) held)
    ∙ ap (λ s. some (s, some i)) (set-restores t m h)

-- The mutexes `ms` are different: `do_try_lock` takes every one and returns -1, or, where one of them
-- cannot be taken, returns the index of the first such and leaves the table as it was.
do_try_lock-first_busy :
    (index : ℕ) (ms : List ℕ) (t : Table)
    → Distinct ms
    → do_try_lock index ms t
      ≡ some (
        elim (first_busy index ms t) [ none ↦ lock_all ms t | some i ↦ t ],
        first_busy index ms t,
      )
unfolding do_try_lock try_to_lock
do_try_lock-first_busy index [] t d = refl
do_try_lock-first_busy index (m ∷ ms) t d =
    let rest = do_try_lock (suc index) ms in
    let tried : Table × Bool → Option (Table × Option ℕ) =
      λ r. attempt rest index (r.0, record { mutex = some m; locked = r.1 }) in
    let found : Option Bool → Option (Table × Option ℕ) = λ g. result t (m ∷ ms) (elim g [
      | none ↦ some index
      | some locked ↦ elim locked [ true ↦ some index | false ↦ first_busy (suc index) ms t ]
    ]) in
    elim (Option-cases (get_elem? t m)) [
      | inl e ↦ ap tried (try_lock_missing m t e) ∙ ap found (sym e)
      | inr (true, e) ↦ ap tried (try_lock_busy m t e) ∙ ap found (sym e)
      | inr (false, e) ↦
          ap tried (try_lock_free m t e)
          ∙ undone rest index m ms t (first_busy (suc index) ms t) e (
              do_try_lock-first_busy (suc index) ms (set t m true) d.1
              ∙ ap (result (set t m true) ms) (first_busy-set (suc index) m true ms t d.0))
          ∙ ap found (sym e)
    ]

-- The end of a round, after `do_try_lock`.
abbrev ends : UniqueLock → Option (Table × Option ℕ) → Round
ends l o = elim o [
  | none ↦ undefined
  | some r ↦ elim r.1 [
    | none ↦ takes r.0
    | some i ↦ elim (destroy l r.0) [ none ↦ undefined | some s ↦ again s ]
  ]
]

abbrev settled : ℕ → List ℕ → Table → Option ℕ → Round
settled m ms t o = elim o [ none ↦ takes (lock_all (m ∷ ms) t) | some i ↦ again t ]

ends-settled :
    (m : ℕ) (ms : List ℕ) (t : Table) (o : Option ℕ)
    → get_elem? t m ≡ some false
    → ends (adopted m) (result (set t m true) ms o) ≡ settled m ms t o
unfolding destroy unlock
ends-settled m ms t none h = refl
ends-settled m ms t (some i) h =
    let held = get_elem?-set_self t m true (lt-length_of_get t m false h) in
    ap (λ u. elim u [ none ↦ undefined | some s ↦ again s ]) (unlock_held m (set t m true) held)
    ∙ ap again (set-restores t m h)

-- A round of `async_lock` over different mutexes: where the first is not free it waits, with no mutex
-- taken; where it and all others are free it takes them all; and otherwise there is another round,
-- with every mutex as it was. It is never undefined.
async_lock_round-first_busy :
    (m : ℕ) (ms : List ℕ) (t : Table)
    → Distinct (m ∷ ms)
    → async_lock_round m ms t ≡ (elim (get_elem? t m) [
      | none ↦ waits
      | some locked ↦ elim locked [
        | true ↦ waits
        | false ↦ elim (first_busy 0 ms t) [ none ↦ takes (lock_all (m ∷ ms) t) | some i ↦ again t ]
      ]
    ])
unfolding async_lock_round lock
async_lock_round-first_busy m ms t d =
    let locks : Table × Bool → Option (Table × UniqueLock) =
      λ r. if r.1 then some (r.0, adopted m) else none in
    let after : Table × Bool → Round =
      λ r. elim (locks r) [ none ↦ waits | some l ↦ ends l.1 (do_try_lock 0 ms l.0) ] in
    let found : Option Bool → Round = λ g. elim g [
      | none ↦ waits
      | some locked ↦ elim locked [ true ↦ waits | false ↦ settled m ms t (first_busy 0 ms t) ]
    ] in
    elim (Option-cases (get_elem? t m)) [
      | inl e ↦ ap after (try_lock_missing m t e) ∙ ap found (sym e)
      | inr (true, e) ↦ ap after (try_lock_busy m t e) ∙ ap found (sym e)
      | inr (false, e) ↦
          ap after (try_lock_free m t e)
          ∙ ap (ends (adopted m)) (
              do_try_lock-first_busy 0 ms (set t m true) d.1
              ∙ ap (result (set t m true) ms) (first_busy-set 0 m true ms t d.0))
          ∙ ends-settled m ms t (first_busy 0 ms t) e
          ∙ ap found (sym e)
    ]
