-- ===== src/AsyncMutex.antt =====
-- src/public/cfgo/async.hpp and src/async.cpp, `AsyncMutex`: a mutex that coroutines wait for. Each call of
-- `accquire` has a channel of its own, which a number stands for.
pub mod Exclusion
mod Tests
use conference_go_client.Common.{
  ℕ, ◌==◌, ◌≡◌, Bool, true, false, not, List, [], ◌∷◌, ◌++◌, has, keep, if◌then◌else◌,
}

-- `writes` are the writes to channels that `release` spawned and that nobody has read yet.
pub record AsyncMutex : Type 0 where
  pub busy : Bool
  pub busy_chans : List ℕ
  pub writes : List ℕ

-- A round of the loop of `accquire`, up to `chan_read`: it succeeds, or waits for its channel.
unfoldable pub attempt : ℕ → Bool → AsyncMutex → AsyncMutex × Bool
attempt ch ch_added m =
    let rest = keep (λ c. not (c == ch)) m.busy_chans in
    let taken = record m { busy = true; busy_chans = if ch_added then rest else m.busy_chans } in
    let left = record m {
      busy_chans = if ch_added then m.busy_chans else m.busy_chans ++ ch ∷ [];
    } in
    if not m.busy then (taken, true) else (left, false)

unfoldable pub release : AsyncMutex → AsyncMutex
release m = record m { busy = false; writes = m.writes ++ m.busy_chans }

-- The channel is read, which takes one of its writes.
abbrev pub take_one : ℕ → List ℕ → List ℕ
take_one ch [] = []
take_one ch (c ∷ cs) = let rest = take_one ch cs in if c == ch then cs else c ∷ rest

abbrev pub read_chan : ℕ → AsyncMutex → AsyncMutex
read_chan ch m = record m { writes = take_one ch m.writes }

-- The calls of `accquire` that wait, and those that returned true and were not released yet.
pub record World : Type 0 where
  pub mutex : AsyncMutex
  pub waiting : List ℕ
  pub holders : List ℕ

abbrev pub without : ℕ → List ℕ → List ℕ
without ch = keep (λ c. not (c == ch))

-- What a round makes of the call.
abbrev pub settle : ℕ → World → AsyncMutex × Bool → World
settle ch w (m, true) = record {
  mutex = m;
  waiting = without ch w.waiting;
  holders = ch ∷ w.holders;
}
settle ch w (m, false) = record {
  mutex = m;
  waiting = ch ∷ without ch w.waiting;
  holders = w.holders;
}

-- A call enters with a new channel, goes on after a read of its channel, is cancelled while it waits, or
-- is released by its holder.
pub data Step : World → World → Type 0 where
  enters :
      (ch : ℕ) (w : World)
      → has ch w.mutex.busy_chans ≡ false
      → Step w (settle ch w (attempt ch false w.mutex))
  wakes :
      (ch : ℕ) (w : World)
      → has ch w.waiting ≡ true
      → has ch w.mutex.writes ≡ true
      → Step w (settle ch w (attempt ch true (read_chan ch w.mutex)))
  cancels :
      (ch : ℕ) (w : World)
      → has ch w.waiting ≡ true
      → Step w (record w { waiting = without ch w.waiting })
  releases :
      (ch : ℕ) (hs : List ℕ) (w : World)
      → w.holders ≡ ch ∷ hs
      → Step w (record w { mutex = release w.mutex; holders = hs })

abbrev pub idle : World
idle = record {
  mutex = record { busy = false; busy_chans = []; writes = [] };
  waiting = [];
  holders = [];
}

pub data Reach : World → Type 0 where
  start : Reach idle
  next : (v w : World) → Reach v → Step v w → Reach w
