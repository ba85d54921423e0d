-- ===== src/Lock/Tests.antt =====
-- Tables of mutexes in full.
use conference_go_client.Common.{◌≡◌, refl, true, false, some, [], ◌∷◌}
use conference_go_client.Lock.{Table, unlock_all}
use conference_go_client.Lock.Several.{lock_all}

-- The mutex 2 is held by somebody.
abbrev table : Table
table = false ∷ false ∷ true ∷ false ∷ []

-- The destructor of a scoped lock lets its own mutexes go, and leaves that one held.
scoped_restores : unlock_all (0 ∷ (3 ∷ [])) (lock_all (0 ∷ (3 ∷ [])) table) ≡ some table
unfolding unlock_all
scoped_restores = refl
