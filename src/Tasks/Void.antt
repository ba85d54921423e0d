-- ===== src/Tasks/Void.antt =====
-- src/public/cfgo/async.hpp: `AsyncTasksAll<void>`, `AsyncTasksAny<void>` and `AsyncTasksSome<void>`,
-- which the source writes out again for tasks that yield no value.
use conference_go_client.Common.{
  ℕ, zero, suc, ◌-◌, ◌==◌, ◌≡◌, refl, ltb, Bool, true, false, Option, none, some, List, [], ◌∷◌,
  map, replicate, set, if◌then◌else◌, arith,
}
use conference_go_client.Tasks.Sync.{
  value, failure, Read, report, closed, Outcome, returns, rethrows, cancelled, refuses, waits,
  insert_once, none_accepted, fill, sync_all, run_all, sync_any, run_any, sync_some, run_some,
}

-- `std::set::insert`: the indexes in the order in which they came.
abbrev pub insert_index : ℕ → List ℕ → List ℕ
insert_index i [] = i ∷ []
insert_index i (j ∷ rest) =
    let later = j ∷ insert_index i rest in if j == i then j ∷ rest else later

abbrev pub keys : List (ℕ × Unit {0}) → List ℕ
keys es = map (λ e. e.0) es

keys-insert_once :
    (i : ℕ) (es : List (ℕ × Unit {0})) → keys (insert_once i tt es) ≡ insert_index i (keys es)
keys-insert_once i [] = refl
keys-insert_once i (e ∷ es) = ground (arith, keys-insert_once i es)

module _ {E : Type 0} where
  -- `AsyncTasksAll<void>::_sync`
  unfoldable pub sync_all_void : ℕ → List (Read Unit E) → Outcome Unit E
  sync_all_void zero reads = returns tt
  sync_all_void (suc left) [] = waits
  sync_all_void (suc left) (closed ∷ reads) = cancelled
  sync_all_void (suc left) (report (failure i e) ∷ reads) = rethrows (some e)
  sync_all_void (suc left) (report (value i a) ∷ reads) = sync_all_void left reads

  -- The loop of `AsyncTasksAny<void>::_sync`: whether a task was accepted, and the exceptions; `none`
  -- where it still waits.
  unfoldable pub accept_void :
      E → ℕ → List (Option E) → List (Read Unit E) → Option (Bool × List (Option E))
  unfolding fill
  accept_void cancel zero excepts reads = some (false, excepts)
  accept_void cancel (suc left) excepts [] = none
  accept_void cancel (suc left) excepts (closed ∷ reads) = some (false, fill cancel excepts)
  accept_void cancel (suc left) excepts (report (failure i e) ∷ reads) =
      accept_void cancel left (set excepts i (some e)) reads
  accept_void cancel (suc left) excepts (report (value i a) ∷ reads) = some (true, excepts)

  -- `AsyncTasksAny<void>::_sync`
  unfoldable pub run_any_void : E → ℕ → List (Read Unit E) → Outcome Unit E
  unfolding accept_void
  run_any_void cancel n reads = elim (accept_void cancel n (replicate n none) reads) [
    | none ↦ waits
    | some r ↦ if r.0 then returns tt else none_accepted r.1
  ]

  -- The loop of `AsyncTasksSome<void>::_sync`.
  unfoldable pub sync_some_void :
      ℕ → ℕ → ℕ → ℕ → ℕ → List ℕ → List (Read Unit E) → Outcome (List ℕ) E
  sync_some_void n target zero succeed failed result reads = returns result
  sync_some_void n target (suc left) succeed failed result [] = waits
  sync_some_void n target (suc left) succeed failed result (closed ∷ reads) = cancelled
  sync_some_void n target (suc left) succeed failed result (report (failure i e) ∷ reads) =
      let rest = sync_some_void n target left succeed (suc failed) result reads in
      if ltb (n - target) (suc failed)
      then rethrows (some e)
      else if succeed == target
      then returns result
      else rest
  sync_some_void n target (suc left) succeed failed result (report (value i a) ∷ reads) =
      let rest = sync_some_void n target left (suc succeed) failed (insert_index i result) reads in
      if ltb (n - target) failed
      then rethrows none
      else if suc succeed == target
      then returns (insert_index i result)
      else rest

  -- `AsyncTasksSome<void>::_sync`
  unfoldable pub run_some_void : ℕ → ℕ → List (Read Unit E) → Outcome (List ℕ) E
  unfolding sync_some_void
  run_some_void n target reads =
      if ltb n target then refuses else sync_some_void n target n 0 0 [] reads

  -- The outcome with its result replaced.
  abbrev pub on_result : {R S : Type 0} → (R → S) → Outcome R E → Outcome S E
  on_result f (returns r) = returns (f r)
  on_result f (rethrows e) = rethrows e
  on_result f cancelled = cancelled
  on_result f refuses = refuses
  on_result f waits = waits

  all_void :
      (left : ℕ) (result : List (Option Unit)) (reads : List (Read Unit E))
      → sync_all_void left reads ≡ on_result (λ r. tt) (sync_all left result reads)
  unfolding sync_all_void sync_all
  all_void zero result reads = refl
  all_void (suc left) result [] = refl
  all_void (suc left) result (closed ∷ reads) = refl
  all_void (suc left) result (report (failure i e) ∷ reads) = refl
  all_void (suc left) result (report (value i a) ∷ reads) =
      all_void left (set result i (some a)) reads

  abbrev ended : Option (Bool × List (Option E)) → Outcome Unit E
  ended o = elim o [ none ↦ waits | some r ↦ if r.0 then returns tt else none_accepted r.1 ]

  any_void :
      (cancel : E) (left : ℕ) (excepts : List (Option E)) (reads : List (Read Unit E))
      → ended (accept_void cancel left excepts reads) ≡ sync_any cancel left excepts reads
  unfolding accept_void sync_any
  any_void cancel zero excepts reads = refl
  any_void cancel (suc left) excepts [] = refl
  any_void cancel (suc left) excepts (closed ∷ reads) = refl
  any_void cancel (suc left) excepts (report (failure i e) ∷ reads) =
      any_void cancel left (set excepts i (some e)) reads
  any_void cancel (suc left) excepts (report (value i tt) ∷ reads) = refl

  some_void :
      (n target left succeed failed : ℕ) (result : List (ℕ × Unit {0})) (reads : List (Read Unit E))
      → sync_some_void n target left succeed failed (keys result) reads
        ≡ on_result keys (sync_some n target left succeed failed result reads)
  unfolding sync_some_void sync_some
  some_void n target zero succeed failed result reads = refl
  some_void n target (suc left) succeed failed result [] = refl
  some_void n target (suc left) succeed failed result (closed ∷ reads) = refl
  some_void n target (suc left) succeed failed result (report (failure i e) ∷ reads) =
      ground (arith, some_void n target left succeed (suc failed) result reads)
  some_void n target (suc left) succeed failed result (report (value i tt) ∷ reads) = ground (
    arith,
    keys-insert_once i result,
    some_void n target left (suc succeed) failed (insert_once i tt result) reads,
  )

  -- The groups of tasks without a value come to what the groups of tasks with one come to, for every
  -- sequence of reports and wherever it ends: the same exception, or the same result without its
  -- values, which for a group of which some must succeed is the tasks that did.
  void_groups_agree :
      (cancel : E) (n target : ℕ) (reads : List (Read Unit E))
      → (sync_all_void n reads ≡ on_result (λ r. tt) (run_all n reads))
        × (run_any_void cancel n reads ≡ run_any cancel n reads)
        × (run_some_void n target reads ≡ on_result keys (run_some n target reads))
  unfolding run_all run_any_void run_any run_some_void run_some
  void_groups_agree cancel n target reads = (
    all_void n (replicate n none) reads,
    any_void cancel n (replicate n none) reads,
    ground (arith, some_void n target n 0 0 [] reads),
  )
