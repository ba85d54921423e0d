-- ===== src/Select/Combine.antt =====
-- src/public/cfgo/async.hpp, `combine_read_op`: two read operations as one, whose alternatives are
-- numbered one after the other. The operations of the asiochan library are a parameter.
use conference_go_client.Common.{
  ℕ, ◌+◌, ◌-◌, ◌<◌, ◌≡◌, leb, refl, ap, ◌∙◌, Bool, true, false, Option, none, some, arith,
  if◌then◌else◌,
}

-- An operation over its state (its channels and its wait state); `submit_with_wait` has the base token
-- as its argument, and `get_result` may be called once a submission gave the number.
pub record ReadOp (S R : Type 0) : Type 0 where
  pub num_alternatives : ℕ
  pub always_waitfree : Bool
  pub submit_if_ready : S → S × Option ℕ
  pub submit_with_wait : ℕ → S → S × Option ℕ
  pub clear_wait : Option ℕ → S → S
  pub get_result : ℕ → S → R

module _ {S1 S2 R : Type 0} (op1 : ReadOp S1 R) (op2 : ReadOp S2 R) where
  -- The second operation is submitted only where the first gave nothing.
  abbrev pub then_second : S1 × Option ℕ → S2 → S2 × Option ℕ → (S1 × S2) × Option ℕ
  then_second (s, some i) old (t, o) = ((s, old), some i)
  then_second (s, none) old (t, some j) = ((s, t), some (op1.num_alternatives + j))
  then_second (s, none) old (t, none) = ((s, t), none)

  abbrev pub clear_both : Option ℕ → S1 × S2 → S1 × S2
  clear_both none s = (op1.clear_wait none s.0, op2.clear_wait none s.1)
  clear_both (some i) s =
      if leb op1.num_alternatives i
      then (op1.clear_wait none s.0, op2.clear_wait (some (i - op1.num_alternatives)) s.1)
      else (op1.clear_wait (some i) s.0, op2.clear_wait none s.1)

  abbrev pub result_of : ℕ → S1 × S2 → R
  result_of i s =
      if leb op1.num_alternatives i
      then op2.get_result (i - op1.num_alternatives) s.1
      else op1.get_result i s.0

  unfoldable pub combine_read_op : ReadOp (S1 × S2) R
  combine_read_op = record {
    num_alternatives = op1.num_alternatives + op2.num_alternatives;
    always_waitfree = if op1.always_waitfree then op2.always_waitfree else false;
    submit_if_ready = λ s. then_second (op1.submit_if_ready s.0) s.1 (op2.submit_if_ready s.1);
    submit_with_wait = λ base s.
        then_second (op1.submit_with_wait base s.0) s.1
          (op2.submit_with_wait (base + op1.num_alternatives) s.1);
    clear_wait = clear_both;
    get_result = result_of;
  }

-- What a submission comes to: the wait is cleared and the result is got under the number it gave.
abbrev pub completed : {S R : Type 0} → ReadOp S R → S × Option ℕ → S × Option R
completed op (s, none) = (s, none)
completed op (s, some i) = (op.clear_wait (some i) s, some (op.get_result i s))

-- An operation gives the numbers of its alternatives only.
abbrev pub Bounded : {S R : Type 0} → ReadOp S R → S × Option ℕ → Type 0
Bounded op (s, none) = Unit
Bounded op (s, some i) = i < op.num_alternatives

module _ {S1 S2 R : Type 0} (op1 : ReadOp S1 R) (op2 : ReadOp S2 R) where
  -- The first operation with its own number, or else the second with its own number; the other one is
  -- told that nothing of it succeeded.
  abbrev pub one_of : S1 × Option ℕ → S2 → S2 × Option ℕ → (S1 × S2) × Option R
  one_of (s, some i) old (t, o) =
      ((op1.clear_wait (some i) s, op2.clear_wait none old), some (op1.get_result i s))
  one_of (s, none) old (t, some j) =
      ((op1.clear_wait none s, op2.clear_wait (some j) t), some (op2.get_result j t))
  one_of (s, none) old (t, none) = ((s, t), none)

  numbered_lem :
      (a : S1 × Option ℕ) (old : S2) (b : S2 × Option ℕ)
      → Bounded op1 a
      → Bounded op2 b
      → (completed (combine_read_op op1 op2) (then_second op1 op2 a old b) ≡ one_of a old b)
        × Bounded (combine_read_op op1 op2) (then_second op1 op2 a old b)
  unfolding combine_read_op
  numbered_lem (s, some i) old (t, o) lt h =
      let other : leb op1.num_alternatives i ≡ false = ground (arith, lt) in
      let back = i - op1.num_alternatives in
      let choose : Bool → (S1 × S2) × Option R = λ b. (
        if b
            then (op1.clear_wait none s, op2.clear_wait (some back) old)
            else (op1.clear_wait (some i) s, op2.clear_wait none old),
        some (if b then op2.get_result back old else op1.get_result i s),
      ) in
      (ap choose other, omega (arith, lt))
  numbered_lem (s, none) old (t, some j) h lt =
      let i = op1.num_alternatives + j in
      let own : leb op1.num_alternatives i ≡ true = ground arith in
      let back : i - op1.num_alternatives ≡ j = omega arith in
      let choose : Bool → ℕ → (S1 × S2) × Option R = λ b k. (
        if b
            then (op1.clear_wait none s, op2.clear_wait (some k) t)
            else (op1.clear_wait (some i) s, op2.clear_wait none t),
        some (if b then op2.get_result k t else op1.get_result i s),
      ) in
      (ap (λ b. choose b (i - op1.num_alternatives)) own ∙ ap (choose true) back, omega (arith, lt))
  numbered_lem (s, none) old (t, none) h g = (refl, tt)

  -- Two operations that give the numbers of their alternatives only: submitted as one, with or without
  -- waiting, they come to what the first comes to under its own number, or else what the second does
  -- under its own, the other being told that nothing of it succeeded; and the combined operation gives
  -- the numbers of its alternatives only.
  pub combine_read_op-one_of :
      (base : ℕ) (s : S1) (t : S2)
      → Bounded op1 (op1.submit_if_ready s)
      → Bounded op2 (op2.submit_if_ready t)
      → Bounded op1 (op1.submit_with_wait base s)
      → Bounded op2 (op2.submit_with_wait (base + op1.num_alternatives) t)
      → (let op = combine_read_op op1 op2 in
          (completed op (op.submit_if_ready (s, t))
            ≡ one_of (op1.submit_if_ready s) t (op2.submit_if_ready t))
          × Bounded op (op.submit_if_ready (s, t))
          × (completed op (op.submit_with_wait base (s, t))
              ≡ one_of
                  (op1.submit_with_wait base s)
                  t
                  (op2.submit_with_wait (base + op1.num_alternatives) t))
          × Bounded op (op.submit_with_wait base (s, t)))
  unfolding combine_read_op
  combine_read_op-one_of base s t h g h' g' =
      let now = numbered_lem (op1.submit_if_ready s) t (op2.submit_if_ready t) h g in
      let later =
        numbered_lem (op1.submit_with_wait base s) t
          (op2.submit_with_wait (base + op1.num_alternatives) t) h' g' in
      (now.0, now.1, later.0, later.1)
