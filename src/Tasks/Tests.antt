-- ===== src/Tasks/Tests.antt =====
-- Groups of tasks with concrete reports, and the theorems at them.
use conference_go_client.Common.{
  ℕ, ◌*◌, ◌≡◌, ◌<◌, ◌==◌, refl, ltb, leb, Bool, true, ◌&&◌, Option, some, List, [], ◌∷◌, map, arith,
  count, has,
}
use conference_go_client.Tasks.Sync.{
  Read, Report, value, failure, report, returns, run_all, run_some, collect_all,
}
use conference_go_client.Tasks.Laws.{
  table, successes, is_value, has_returned, has_rethrown, run_all_returns, run_some_outcome,
}

-- The value of a task, and its exception.
abbrev square : ℕ → ℕ
square n = n * n

abbrev fault : ℕ → Bool
fault n = n == 0

abbrev three : List ℕ
three = 2 ∷ 0 ∷ 1 ∷ []

three_all : (i : ℕ) → i < 3 → has i three ≡ true
three_all i h = ground (arith, h)

run_all_returns_example :
    (r : List (Option ℕ)) × (run_all {E = Bool} 3 (successes square three) ≡ returns r)
    × (collect_all r ≡ some (table square 0 3))
run_all_returns_example = run_all_returns square 3 three refl three_all

abbrev mixed : List (Report ℕ Bool)
mixed = failure 1 true ∷ value 0 7 ∷ value 2 8 ∷ []

run_some_outcome_example :
    (has_returned (run_some 3 2 (map report mixed)) ≡ leb 2 (count is_value mixed))
    × (has_rethrown (run_some 3 2 (map report mixed)) ≡ (leb 2 3 && ltb (count is_value mixed) 2))
run_some_outcome_example = run_some_outcome 2 mixed

abbrev plain : List (Read Unit Bool)
plain = report (failure 1 true) ∷ report (value 0 tt) ∷ report (value 2 tt) ∷ []
