-- ===== src/Select.antt =====
-- src/public/cfgo/async.hpp and src/async.cpp: waiting for the first of several channel operations, or
-- for a close signal. What the signal says and what the library's `select` gives are what is `Seen`.
pub mod Combine
pub mod Outcomes
mod Tests
use conference_go_client.Common.{
  ℕ, Bool, true, false, not, ◌&&◌, Option, none, some, List, [], if◌then◌else◌,
}

-- `CancelError::Reason`
pub data Reason : Type 0 where
  cancel timeout : Reason

pub record CancelError : Type 0 where
  pub message : List ℕ
  pub reason : Reason

-- `CancelError(bool is_timeout, ...)`
abbrev pub error_of_timeout : Bool → CancelError
error_of_timeout is_timeout = record {
  message = [];
  reason = if is_timeout then timeout else cancel;
}

-- `CancelError(const close_chan &, ...)`, given what the signal says.
abbrev pub error_of_closer : Bool → List ℕ → List ℕ → CancelError
error_of_closer is_timeout timeout_reason close_reason = record {
  message = if is_timeout then timeout_reason else close_reason;
  reason = if is_timeout then timeout else cancel;
}

abbrev pub is_timeout : CancelError → Bool
is_timeout e = elim e.reason [ cancel ↦ false | timeout ↦ true ]

-- `cancelable<T>`
pub data Cancelable {ℓ} (A : Type ℓ) : Type ℓ where
  resolved : A → Cancelable A
  canceled : Cancelable A

-- `cancelable<void>`
pub record CancelableVoid : Type 0 where
  pub is_canceled_void : Bool

module _ {A : Type 0} where
  abbrev pub is_canceled : Cancelable A → Bool
  is_canceled (resolved a) = false
  is_canceled canceled = true

  -- `operator bool`
  abbrev pub holds : Cancelable A → Bool
  holds c = not (is_canceled c)

  -- `none` is the `bad_variant_access` that `std::get` throws.
  abbrev pub value : Cancelable A → Option A
  value (resolved a) = some a
  value canceled = none

-- `make_resolved()`
abbrev pub make_resolved_void : CancelableVoid
make_resolved_void = record { is_canceled_void = false }

-- A `cancelable<T>` where a `cancelable<void>` is made of it: the constructor takes a `bool`, which
-- `operator bool` gives.
abbrev pub void_of : {A : Type 0} → Cancelable A → CancelableVoid
void_of c = record { is_canceled_void = holds c }

-- What a call sees: whether it has a signal, whether that has a waiter, which came first, the message
-- of the waiter (none) or a result, and what the signal says then; `alone` is the result of a call
-- without a signal.
pub record Seen (R : Type 0) : Type 0 where
  pub valid : Bool
  pub has_waiter : Bool
  pub first : Option R
  pub closed : Bool
  pub timed_out : Bool
  pub alone : R

-- A result, or a `CancelError`.
pub data Thrown (R : Type 0) : Type 0 where
  throws : CancelError → Thrown R
  returns : R → Thrown R

module _ {R : Type 0} where
  abbrev pub late : Seen R → Bool
  late s = s.closed && not s.timed_out

  unfoldable pub select : Seen R → Cancelable R
  select s =
      let after : Cancelable R = elim s.first [
        | none ↦ canceled
        | some r ↦ if late s then canceled else resolved r
      ] in
      let guarded = if s.has_waiter then after else canceled in
      if s.valid then guarded else resolved s.alone

  unfoldable pub select_or_throw : Seen R → Thrown R
  select_or_throw s =
      let after : Thrown R = elim s.first [
        | none ↦ throws (error_of_timeout s.timed_out)
        | some r ↦ if late s then throws (error_of_timeout true) else returns r
      ] in
      let guarded = if s.has_waiter then after else throws (error_of_timeout s.timed_out) in
      if s.valid then guarded else returns s.alone

  unfoldable pub chan_read : Seen R → Cancelable R
  unfolding select
  chan_read s =
      let guarded : Cancelable R = elim (select s) [
        | resolved r ↦ resolved r
        | canceled ↦ canceled
      ] in
      if s.valid then guarded else resolved s.alone

  unfoldable pub chan_read_or_throw : Seen R → Thrown R
  unfolding select_or_throw
  chan_read_or_throw s = if s.valid then select_or_throw s else returns s.alone

-- The result of a write is that it was done; `D` is the type of what is written.
unfoldable pub chan_write : (D : Type 0) → Seen (Unit {0}) → CancelableVoid
unfolding select
chan_write D s =
    let no_data : Cancelable D = canceled in
    let guarded : CancelableVoid = elim (select s) [
      | resolved u ↦ make_resolved_void
      | canceled ↦ void_of no_data
    ] in
    if s.valid then guarded else make_resolved_void

unfoldable pub chan_write_or_throw : Seen (Unit {0}) → Thrown (Unit {0})
unfolding select_or_throw
chan_write_or_throw s = if s.valid then select_or_throw s else returns tt
