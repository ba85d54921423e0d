-- ===== src/Select/Outcomes.antt =====
-- src/public/cfgo/async.hpp: how `select`, `select_or_throw` and the reads and writes that use them end.
use conference_go_client.Common.{
  ◌≡◌, ◌||◌, ◌&&◌, refl, Bool, true, false, Option, none, some, if◌then◌else◌,
}
use conference_go_client.Select.{
  Reason, cancel, timeout, Cancelable, resolved, canceled, is_canceled, Seen, Thrown, throws,
  returns, select, select_or_throw, chan_read, chan_read_or_throw, chan_write,
}

module _ {R : Type 0} where
  abbrev pub caught : Thrown R → Cancelable R
  caught (throws e) = canceled
  caught (returns r) = resolved r

  abbrev pub thrown_reason : Thrown R → Option Reason
  thrown_reason (throws e) = some e.reason
  thrown_reason (returns r) = none

  abbrev Agree : Seen R → Type 0
  Agree s =
      (caught (select_or_throw s) ≡ select s)
      × (chan_read s ≡ select s)
      × (chan_read_or_throw s ≡ select_or_throw s)

  abbrev pub has_result : Option R → Bool
  has_result none = false
  has_result (some r) = true

  -- The reason that an error gives, by what is seen.
  abbrev pub told : Seen R → Reason
  told s = if s.timed_out || (s.has_waiter && has_result s.first) then timeout else cancel

  abbrev Reasoned : Seen R → Type 0
  Reasoned s =
      thrown_reason (select_or_throw s) ≡ (if is_canceled (select s) then some (told s) else none)

  cases :
      (v w c t : Bool) (o : Option R) (r : R)
      → (let s : Seen R = record {
        valid = v;
        has_waiter = w;
        first = o;
        closed = c;
        timed_out = t;
        alone = r;
      } in
          Agree s × Reasoned s)
  unfolding select select_or_throw chan_read chan_read_or_throw
  cases false w c t o r = ((refl, refl, refl), refl)
  cases true false c true o r = ((refl, refl, refl), refl)
  cases true false c false o r = ((refl, refl, refl), refl)
  cases true true c true none r = ((refl, refl, refl), refl)
  cases true true c false none r = ((refl, refl, refl), refl)
  cases true true false true (some x) r = ((refl, refl, refl), refl)
  cases true true false false (some x) r = ((refl, refl, refl), refl)
  cases true true true true (some x) r = ((refl, refl, refl), refl)
  cases true true true false (some x) r = ((refl, refl, refl), refl)

  -- Whatever a call sees: `select_or_throw` throws exactly where `select` is cancelled and returns what
  -- that gives, `chan_read` ends as `select` does, and `chan_read_or_throw` as `select_or_throw`.
  select_or_throw-caught : (s : Seen R) → Agree s
  select_or_throw-caught s = (cases s.valid s.has_waiter s.closed s.timed_out s.first s.alone).0

  -- The reason of the error that `select_or_throw` throws, where it throws one: a timeout if the signal
  -- timed out, but also if a result came first and the signal, which was closed without a timeout,
  -- makes the call give it up; a cancel otherwise.
  select_or_throw_told : (s : Seen R) → Reasoned s
  select_or_throw_told s = (cases s.valid s.has_waiter s.closed s.timed_out s.first s.alone).1

-- A write through `chan_write` never says that it was cancelled, not even where `select` was.
chan_write_uncanceled :
    (D : Type 0) (s : Seen (Unit {0})) → (chan_write D s).is_canceled_void ≡ false
unfolding chan_write select
chan_write_uncanceled D s = go s.valid s.has_waiter s.closed s.timed_out s.first
  where
    go :
        (v w c t : Bool) (o : Option (Unit {0}))
        → (chan_write D (record {
          valid = v;
          has_waiter = w;
          first = o;
          closed = c;
          timed_out = t;
          alone = s.alone;
        })).is_canceled_void
          ≡ false
    go false w c t o = refl
    go true false c t o = refl
    go true true c t none = refl
    go true true false t (some x) = refl
    go true true true false (some x) = refl
    go true true true true (some x) = refl
