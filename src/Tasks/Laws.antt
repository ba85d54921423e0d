-- ===== src/Tasks/Laws.antt =====
-- src/public/cfgo/async.hpp: what a group of tasks that must all succeed, or of which one or some
-- must, comes to, in whatever order the tasks report.
use conference_go_client.Common.{
  ℕ, zero, suc, ◌+◌, ◌-◌, ◌≤◌, ◌<◌, ◌≡◌, ◌==◌, ltb, leb, refl, ap, sym, ◌∙◌, subst, Bool, true,
  false, false≢true, ◌&&◌, Option, none, some, List, [], ◌∷◌, ◌++◌, map, arith, length, set,
  replicate, get_elem?, get_elem?-set_self, get_elem?-set_ne, length-set, length-replicate, has,
  count, ==_iff, Bool-cases, inl, inr, ◌⊎◌,
}
use conference_go_client.Tasks.Sync.{
  Report, value, failure, Read, report, closed, Outcome, returns, rethrows, cancelled, refuses,
  waits, sync_all, run_all, collect_all, insert_once, sync_some, run_some,
}

-- The values of a function at 0, 1, …, n - 1, from a start.
abbrev pub table : {A : Type 0} → (ℕ → A) → ℕ → ℕ → List A
table f start zero = []
table f start (suc n) = f start ∷ table f (suc start) n

-- The places after tasks reported in an order.
abbrev pub placed : {B : Type 0} → (ℕ → B) → List ℕ → List (Option B) → List (Option B)
placed f [] r = r
placed f (i ∷ is) r = placed f is (set r i (some (f i)))

module _ {B : Type 0} where
  pub length-placed :
      (f : ℕ → B) (is : List ℕ) (r : List (Option B)) → length (placed f is r) ≡ length r
  length-placed f [] r = refl
  length-placed f (i ∷ is) r =
      length-placed f is (set r i (some (f i))) ∙ length-set r i (some (f i))

  pub get_elem?-placed :
      (f : ℕ → B) (is : List ℕ) (r : List (Option B)) (j : ℕ)
      → j < length r
      → (has j is ≡ true) ⊎ (get_elem? r j ≡ some (some (f j)))
      → get_elem? (placed f is r) j ≡ some (some (f j))
  get_elem?-placed f [] r j lt (inl h) = absurd (false≢true h)
  get_elem?-placed f [] r j lt (inr e) = e
  get_elem?-placed f (i ∷ is) r j lt h =
      get_elem?-placed f is (set r i (some (f i))) j
        (subst (λ n. j < n) (sym (length-set r i (some (f i)))) lt)
        (elim (Bool-cases (j == i)) [
          | inl p ↦
              let e : j ≡ i = (==_iff j i).0 p in
              inr (
                subst (λ (k : ℕ). get_elem? (set r k (some (f k))) j ≡ some (some (f j))) e
                  (get_elem?-set_self r j (some (f j)) lt))
          | inr q ↦ elim h [
            | inl m ↦ inl (ground (arith, m, q))
            | inr e ↦
                inr
                  (get_elem?-set_ne r i j (some (f i)) (λ p. ground (arith, p, q, ==_iff j i)) ∙ e)
          ]
        ])

  collect_all-table :
      (f : ℕ → B) (start : ℕ) (r : List (Option B))
      → ((j : ℕ) → j < length r → get_elem? r j ≡ some (some (f (start + j))))
      → collect_all r ≡ some (table f start (length r))
  unfolding collect_all
  collect_all-table f start [] h = refl
  collect_all-table f start (none ∷ r) h = let e = h 0 (omega arith) in cc
  collect_all-table f start (some b ∷ r) h =
      let first : b ≡ f (start + 0) = cc (h 0 (omega arith)) in
      let here : b ≡ f start = first ∙ ap f (omega arith) in
      let later : collect_all r ≡ some (table f (suc start) (length r)) =
        collect_all-table f (suc start) r
          (λ j lt. h (suc j) (omega (arith, lt)) ∙ ap (λ k. some (some (f k))) (omega arith)) in
      cc

-- The outcome is a result.
abbrev pub has_returned : {R E : Type 0} → Outcome R E → Bool
has_returned (returns r) = true
has_returned (rethrows e) = false
has_returned cancelled = false
has_returned refuses = false
has_returned waits = false

-- The outcome is the exception of a task.
abbrev pub has_rethrown : {R E : Type 0} → Outcome R E → Bool
has_rethrown (returns r) = false
has_rethrown (rethrows none) = false
has_rethrown (rethrows (some e)) = true
has_rethrown cancelled = false
has_rethrown refuses = false
has_rethrown waits = false

module _ {A E : Type 0} where
  -- Tasks report success in this order.
  abbrev pub successes : (ℕ → A) → List ℕ → List (Read A E)
  successes f is = map (λ i. report (value i (f i))) is

  sync_all-placed :
      (f : ℕ → A) (k : ℕ) (is : List ℕ) (r : List (Option A)) (reads : List (Read A E))
      → sync_all (length is + k) r (successes f is ++ reads) ≡ sync_all k (placed f is r) reads
  unfolding sync_all
  sync_all-placed f k [] r reads = ap (λ (j : ℕ). sync_all j r reads) (omega arith)
  sync_all-placed f k (i ∷ is) r reads =
      let e : suc (length is) + k ≡ suc (length is + k) = omega arith in
      ap (λ (j : ℕ). sync_all j r (successes f (i ∷ is) ++ reads)) e
      ∙ sync_all-placed f k is (set r i (some (f i))) reads

  sync_all-done :
      (f : ℕ → A) (is : List ℕ) (r : List (Option A))
      → sync_all (length is) r (successes f is) ≡ returns (placed f is r)
  unfolding sync_all
  sync_all-done f [] r = refl
  sync_all-done f (i ∷ is) r = sync_all-done f is (set r i (some (f i)))

  -- The report is a value.
  abbrev pub is_value : Report A E → Bool
  is_value (value i a) = true
  is_value (failure i e) = false

  count-le_length : (rs : List (Report A E)) → count is_value rs ≤ length rs
  count-le_length [] = omega arith
  count-le_length (value i a ∷ rs) = omega (arith, count-le_length rs)
  count-le_length (failure i e ∷ rs) = omega (arith, count-le_length rs)

  sync_some-outcome :
      (n target succeed failed : ℕ) (result : List (ℕ × A)) (rs : List (Report A E))
      → target ≤ n
      → succeed + failed + length rs ≡ n
      → failed ≤ n - target
      → (has_returned (sync_some n target (length rs) succeed failed result (map report rs))
          ≡ leb target (succeed + count is_value rs))
        × (has_rethrown (sync_some n target (length rs) succeed failed result (map report rs))
            ≡ ltb (succeed + count is_value rs) target)
  unfolding sync_some
  sync_some-outcome n target succeed failed result [] le all few = ground (arith, le, all, few)
  sync_some-outcome n target succeed failed result (value i a ∷ rs) le all few =
      let h =
        sync_some-outcome n target (suc succeed) failed (insert_once i a result) rs le
          (omega (arith, all)) few in
      ground (arith, h)
  sync_some-outcome n target succeed failed result (failure i e ∷ rs) le all few =
      ground (arith, sync_some-outcome n target succeed (suc failed) result rs, count-le_length rs)

  -- Where every task reports once, a value or an exception, in any order: a group of which `target`
  -- must succeed returns exactly if at least `target` reports are values; it rethrows the exception
  -- of a task exactly if fewer are and `target` is at most the number of tasks.
  pub run_some_outcome :
      (target : ℕ) (rs : List (Report A E))
      → (has_returned (run_some (length rs) target (map report rs))
          ≡ leb target (count is_value rs))
        × (has_rethrown (run_some (length rs) target (map report rs))
            ≡ (leb target (length rs) && ltb (count is_value rs) target))
  unfolding run_some
  run_some_outcome target rs =
      ground (arith, count-le_length rs, sync_some-outcome (length rs) target 0 0 [] rs)

  -- Every task of a group that must all succeed reports its value, in any order: the result is the
  -- values in the order of the tasks.
  pub run_all_returns :
      (f : ℕ → A) (n : ℕ) (is : List ℕ)
      → length is ≡ n
      → ((i : ℕ) → i < n → has i is ≡ true)
      → (r : List (Option A)) × (run_all n (successes f is) ≡ returns r)
        × (collect_all r ≡ some (table f 0 n))
  unfolding run_all
  run_all_returns f n is len all =
      let blank : List (Option A) = replicate n none in
      let full : length (placed f is blank) ≡ n =
        length-placed f is blank ∙ length-replicate n none in
      let each : (j : ℕ)
          → j < length (placed f is blank)
          → get_elem? (placed f is blank) j ≡ some (some (f (0 + j))) =
        λ j lt.
          get_elem?-placed f is blank j (omega (arith, lt, length-placed f is blank))
            (inl (all j (omega (arith, lt, full))))
          ∙ ap (λ k. some (some (f k))) (omega arith) in
      (
        placed f is blank,
        ap (λ (k : ℕ). sync_all k blank (successes f is)) (sym len) ∙ sync_all-done f is blank,
        collect_all-table f 0 (placed f is blank) each ∙ ap (λ k. some (table f 0 k)) full,
      )

  -- Where some tasks report values and then one fails, before all have reported: a group that must
  -- all succeed rethrows that exception, whatever is reported later; where the group is closed
  -- instead, it is cancelled.
  run_all_fails :
      (f : ℕ → A) (n : ℕ) (is : List ℕ) (i : ℕ) (e : E) (reads : List (Read A E))
      → length is < n
      → (run_all n (successes f is ++ report (failure i e) ∷ reads) ≡ rethrows (some e))
        × (run_all n (successes f is ++ closed ∷ reads) ≡ cancelled)
  unfolding run_all sync_all
  run_all_fails f n is i e reads lt =
      let blank : List (Option A) = replicate n none in
      let left : ℕ = n - suc (length is) in
      let split : n ≡ length is + suc left = omega (arith, lt) in
      let reach : (tail : List (Read A E))
          → sync_all n blank (successes f is ++ tail)
            ≡ sync_all (suc left) (placed f is blank) tail =
        λ tail.
          ap (λ (k : ℕ). sync_all k blank (successes f is ++ tail)) split
          ∙ sync_all-placed f (suc left) is blank tail in
      (reach (report (failure i e) ∷ reads), reach (closed ∷ reads))
