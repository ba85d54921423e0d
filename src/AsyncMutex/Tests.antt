-- ===== src/AsyncMutex/Tests.antt =====
-- Two calls and one mutex in full, and the theorems at them.
use conference_go_client.Common.{◌≡◌, refl, true, false, [], ◌∷◌, length, has, if◌then◌else◌}
use conference_go_client.AsyncMutex.{
  World, enters, releases, Reach, start, next, attempt, release, read_chan, settle, idle,
}
use conference_go_client.AsyncMutex.Exclusion.{holders-length, waiting-writes}

-- The call 1 takes the mutex and the call 2 waits.
abbrev one : World
one = settle 1 idle (attempt 1 false idle.mutex)

abbrev two : World
two = settle 2 one (attempt 2 false one.mutex)

two_reached : Reach two
unfolding attempt
two_reached = next one two (next idle one start (enters 1 idle refl)) (enters 2 one refl)

-- The call 1 releases it.
abbrev free : World
free = record two { mutex = release two.mutex; holders = [] }

free_reached : Reach free
unfolding attempt
free_reached = next two free two_reached (releases 1 [] two refl)

holders-length_example : length two.holders ≡ (if two.mutex.busy then 1 else 0)
holders-length_example = holders-length two two_reached

waiting-writes_example :
    (has 2 free.mutex.writes ≡ true)
    × ((settle 2 free (attempt 2 true (read_chan 2 free.mutex))).holders ≡ 2 ∷ free.holders)
unfolding attempt release
waiting-writes_example = waiting-writes free 2 free_reached refl refl
