-- ===== src/Select/Tests.antt =====
-- Calls that see a signal in full, and the theorems at them.
use conference_go_client.Common.{ℕ, ◌≡◌, refl, arith, true, false, Option, none, some}
use conference_go_client.Select.{Seen, canceled, select, timeout}
use conference_go_client.Select.Combine.{
  ReadOp, combine_read_op, completed, Bounded, one_of, combine_read_op-one_of,
}
use conference_go_client.Select.Outcomes.{told}

-- A result came, and the signal was closed by hand before the call went on.
abbrev overtaken : Seen ℕ
overtaken = record {
  valid = true;
  has_waiter = true;
  first = some 7;
  closed = true;
  timed_out = false;
  alone = 0;
}

gives_up : select overtaken ≡ canceled
unfolding select
gives_up = refl

says_timeout : told overtaken ≡ timeout
says_timeout = refl

-- A write that the signal's waiter overtakes.
abbrev refused : Seen (Unit {0})
refused = record {
  valid = true;
  has_waiter = true;
  first = none;
  closed = true;
  timed_out = false;
  alone = tt;
}

-- An operation on one slot, whose state is what it holds.
abbrev taken : Option ℕ → Option ℕ × Option ℕ
taken none = (none, none)
taken (some n) = (some n, some 0)

abbrev held : Option ℕ → ℕ
held none = 0
held (some n) = n

abbrev one_slot : ReadOp (Option ℕ) ℕ
one_slot = record {
  num_alternatives = 1;
  always_waitfree = false;
  submit_if_ready = taken;
  submit_with_wait = λ base. taken;
  clear_wait = λ o s. s;
  get_result = λ i. held;
}

combine_read_op-one_of_example :
    let op = combine_read_op one_slot one_slot in
    (completed op (op.submit_if_ready (none, some 4))
      ≡ one_of one_slot one_slot (none, none) (some 4) (some 4, some 0))
    × Bounded op (op.submit_if_ready (none, some 4))
    × (completed op (op.submit_with_wait 2 (none, some 4))
        ≡ one_of one_slot one_slot (none, none) (some 4) (some 4, some 0))
    × Bounded op (op.submit_with_wait 2 (none, some 4))
combine_read_op-one_of_example =
    combine_read_op-one_of one_slot one_slot 2 none (some 4) tt (omega arith) tt (omega arith)
