-- ===== src/Manager/Batch.antt =====
-- src/async_locker.cpp, `_calc_batch`: the batch that a configuration asks for.
use conference_go_client.Common.{ℕ, ◌^◌, ◌≤◌, ◌<◌, ◌≡◌, ◌↔◌, pos, ◌+ℤ◌, ◌≤ℤ◌, true, arith}
use conference_go_client.Manager.{Configure, validates, calc_batch}

-- For a validated configuration whose target is a 32-bit integer, and fewer than 2^32 blockers: the
-- batch is at least `min_batch` and at least one, and it is no more than the blockers at hand exactly
-- when those are at least `min_batch`.
calc_batch_fits :
    (c : Configure) (size : ℕ)
    → validates c ≡ true
    → size < 2 ^ 32
    → c.target_batch ≤ℤ pos 2147483647
    → (c.min_batch ≤ calc_batch c size)
      × (1 ≤ calc_batch c size)
      × ((calc_batch c size ≤ size) ↔ (c.min_batch ≤ size))
unfolding calc_batch validates ◌+ℤ◌
calc_batch_fits c size v h t = (ground arith, ground arith, (ground arith, ground arith))
