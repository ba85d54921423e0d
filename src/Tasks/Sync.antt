-- ===== src/Tasks/Sync.antt =====
-- src/public/cfgo/async.hpp: the loops of `AsyncTasksAll`, `AsyncTasksAny` and `AsyncTasksSome` over
-- the results of their tasks. `E` is the type of exceptions; a task yields `void` at `A = Unit`.
use conference_go_client.Common.{
  ℕ, zero, suc, ◌-◌, ◌==◌, ltb, Option, none, some, List, [], ◌∷◌, set, replicate, if◌then◌else◌,
}

-- What a task reports: its number, and a value or an exception.
pub data Report (A E : Type 0) : Type 0 where
  value : ℕ → A → Report A E
  failure : ℕ → E → Report A E

-- One read of the data channel: a report, or the closer.
pub data Read (A E : Type 0) : Type 0 where
  report : Report A E → Read A E
  closed : Read A E

-- How `_sync` ends: it returns, it rethrows a task's exception, it throws a `CancelError`, it throws
-- an error of its own, or it still waits because no more is read.
pub data Outcome (R E : Type 0) : Type 0 where
  returns : R → Outcome R E
  rethrows : Option E → Outcome R E
  cancelled : Outcome R E
  refuses : Outcome R E
  waits : Outcome R E

-- `_collect_result` takes every entry out of its `optional`; `none` is undefined behaviour.
unfoldable pub collect_all : {A : Type 0} → List (Option A) → Option (List A)
collect_all [] = some []
collect_all (none ∷ rest) = none
collect_all (some a ∷ rest) = elim (collect_all rest) [ none ↦ none | some bs ↦ some (a ∷ bs) ]

-- An exception in each place that has none.
unfoldable pub fill : {E : Type 0} → E → List (Option E) → List (Option E)
fill e [] = []
fill e (none ∷ rest) = some e ∷ fill e rest
fill e (some x ∷ rest) = some x ∷ fill e rest

-- `std::map::insert`, which keeps what is there.
abbrev pub insert_once : {A : Type 0} → ℕ → A → List (ℕ × A) → List (ℕ × A)
insert_once i a [] = (i, a) ∷ []
insert_once i a ((j, b) ∷ rest) =
    let later = (j, b) ∷ insert_once i a rest in if j == i then (j, b) ∷ rest else later

module _ {A E : Type 0} where
  -- `AsyncTasksAll::_sync`: `left` rounds of the loop are left.
  unfoldable pub sync_all : ℕ → List (Option A) → List (Read A E) → Outcome (List (Option A)) E
  sync_all zero result reads = returns result
  sync_all (suc left) result [] = waits
  sync_all (suc left) result (closed ∷ reads) = cancelled
  sync_all (suc left) result (report (failure i e) ∷ reads) = rethrows (some e)
  sync_all (suc left) result (report (value i a) ∷ reads) =
      sync_all left (set result i (some a)) reads

  unfoldable pub run_all : ℕ → List (Read A E) → Outcome (List (Option A)) E
  unfolding sync_all
  run_all n reads = sync_all n (replicate n none) reads

  -- The end of `AsyncTasksAny::_sync` where no task was accepted.
  abbrev pub none_accepted : List (Option E) → Outcome A E
  none_accepted [] = refuses
  none_accepted (e ∷ rest) = rethrows e

  -- `AsyncTasksAny::_sync`; `cancel` is the `CancelError` that stands for the tasks with no exception
  -- of their own.
  unfoldable pub sync_any : E → ℕ → List (Option E) → List (Read A E) → Outcome A E
  unfolding fill
  sync_any cancel zero excepts reads = none_accepted excepts
  sync_any cancel (suc left) excepts [] = waits
  sync_any cancel (suc left) excepts (closed ∷ reads) = none_accepted (fill cancel excepts)
  sync_any cancel (suc left) excepts (report (failure i e) ∷ reads) =
      sync_any cancel left (set excepts i (some e)) reads
  sync_any cancel (suc left) excepts (report (value i a) ∷ reads) = returns a

  unfoldable pub run_any : E → ℕ → List (Read A E) → Outcome A E
  unfolding sync_any
  run_any cancel n reads = sync_any cancel n (replicate n none) reads

  -- The tests at the end of a round; `except` is the exception of the round's report, if it has one.
  unfoldable pub sync_some :
      ℕ → ℕ → ℕ → ℕ → ℕ → List (ℕ × A) → List (Read A E) → Outcome (List (ℕ × A)) E
  sync_some n target zero succeed failed result reads = returns result
  sync_some n target (suc left) succeed failed result [] = waits
  sync_some n target (suc left) succeed failed result (closed ∷ reads) = cancelled
  sync_some n target (suc left) succeed failed result (report (failure i e) ∷ reads) =
      let rest = sync_some n target left succeed (suc failed) result reads in
      if ltb (n - target) (suc failed)
      then rethrows (some e)
      else if succeed == target
      then returns result
      else rest
  sync_some n target (suc left) succeed failed result (report (value i a) ∷ reads) =
      let rest = sync_some n target left (suc succeed) failed (insert_once i a result) reads in
      if ltb (n - target) failed
      then rethrows none
      else if suc succeed == target
      then returns (insert_once i a result)
      else rest

  -- `AsyncTasksSome::_sync`: a target above the number of tasks is refused.
  unfoldable pub run_some : ℕ → ℕ → List (Read A E) → Outcome (List (ℕ × A)) E
  unfolding sync_some
  run_some n target reads = if ltb n target then refuses else sync_some n target n 0 0 [] reads
