-- ===== src/Tasks/Alternatives.antt =====
-- src/public/cfgo/async.hpp, `AsyncTasksAny`: a group of tasks of which one must succeed.
use conference_go_client.Common.{
  ℕ, suc, ◌+◌, ◌-◌, ◌<◌, ◌≡◌, refl, ap, sym, ◌∙◌, true, Option, none, some, List, [], ◌∷◌, ◌++◌,
  map, arith, length, set, replicate, get_elem?, has, inl,
}
use conference_go_client.Tasks.Sync.{
  value, failure, Read, report, returns, rethrows, refuses, none_accepted, sync_any, run_any,
}
use conference_go_client.Tasks.Laws.{placed, get_elem?-placed}

module _ {A E : Type 0} where
  -- Tasks report an exception in this order.
  abbrev pub failures : (ℕ → E) → List ℕ → List (Read A E)
  failures e is = map (λ i. report (failure i (e i))) is

  sync_any-placed :
      (cancel : E) (e : ℕ → E) (k : ℕ) (is : List ℕ) (r : List (Option E)) (reads : List (Read A E))
      → sync_any cancel (length is + k) r (failures e is ++ reads)
        ≡ sync_any cancel k (placed e is r) reads
  unfolding sync_any
  sync_any-placed cancel e k [] r reads = ap (λ (j : ℕ). sync_any cancel j r reads) (omega arith)
  sync_any-placed cancel e k (i ∷ is) r reads =
      let q : suc (length is) + k ≡ suc (length is + k) = omega arith in
      ap (λ (j : ℕ). sync_any cancel j r (failures e (i ∷ is) ++ reads)) q
      ∙ sync_any-placed cancel e k is (set r i (some (e i))) reads

  sync_any-done :
      (cancel : E) (e : ℕ → E) (is : List ℕ) (r : List (Option E))
      → sync_any {A = A} cancel (length is) r (failures e is) ≡ none_accepted (placed e is r)
  unfolding sync_any
  sync_any-done cancel e [] r = refl
  sync_any-done cancel e (i ∷ is) r = sync_any-done cancel e is (set r i (some (e i)))

  none_accepted-head :
      (r : List (Option E)) (x : Option E)
      → get_elem? r 0 ≡ some x
      → none_accepted {A = A} r ≡ rethrows x
  none_accepted-head [] x h = cc
  none_accepted-head (y ∷ r) x h = cc

  -- Where some tasks fail and then one reports a value, before all have reported: a group of which
  -- one must succeed returns that value.
  run_any_returns :
      (cancel : E) (e : ℕ → E) (n : ℕ) (is : List ℕ) (i : ℕ) (a : A) (reads : List (Read A E))
      → length is < n
      → run_any cancel n (failures e is ++ report (value i a) ∷ reads) ≡ returns a
  unfolding run_any sync_any
  run_any_returns cancel e n is i a reads lt =
      let blank : List (Option E) = replicate n none in
      let left : ℕ = n - suc (length is) in
      let split : n ≡ length is + suc left = omega (arith, lt) in
      ap (λ (k : ℕ). sync_any cancel k blank (failures e is ++ report (value i a) ∷ reads)) split
      ∙ sync_any-placed cancel e (suc left) is blank (report (value i a) ∷ reads)

  -- Where every task of a group, of which one must succeed, fails, in any order: it rethrows the
  -- exception of the first task, and where there are no tasks it refuses.
  run_any_fails :
      (cancel : E) (e : ℕ → E) (n : ℕ) (is : List ℕ)
      → length is ≡ suc n
      → has 0 is ≡ true
      → (run_any {A = A} cancel (suc n) (failures e is) ≡ rethrows (some (e 0)))
        × (run_any {A = A} cancel 0 [] ≡ refuses)
  unfolding run_any sync_any
  run_any_fails cancel e n is len first =
      let blank : List (Option E) = replicate (suc n) none in
      let head : get_elem? (placed e is blank) 0 ≡ some (some (e 0)) =
        get_elem?-placed e is blank 0 (omega arith) (inl first) in
      (
        ap (λ (k : ℕ). sync_any cancel k blank (failures e is)) (sym len)
            ∙ sync_any-done cancel e is blank
            ∙ none_accepted-head (placed e is blank) (some (e 0)) head,
        refl,
      )
