-- ===== src/Retry.antt =====
-- src/public/cfgo/async.hpp, `async_retry`, and src/public/cfgo/common.hpp, `TryOption`. The function
-- that is tried, the checker and the wait are arguments.
mod Tests
use conference_go_client.Common.{
  ℕ, zero, suc, ◌+◌, ◌-◌, ◌*◌, ◌^◌, ◌%◌, ◌≡◌, ◌==◌, refl, subst, ltb, ℤ, pos, negsuc, eqb_ℤ, ltb_ℤ,
  ◌+ℤ◌, ◌-ℤ◌, Bool, true, false, not, ◌&&◌, ◌||◌, Option, none, some, List, [], ◌∷◌, arith,
  if◌then◌else◌,
}

pub record TryOption : Type 0 where
  pub tries : ℤ
  pub delay_init : ℕ
  pub delay_step : ℕ
  pub delay_level : ℕ

-- How a round of the loop ends: with `co_return`, where `none` is `make_canceled`, or at its end.
pub data Control (T : Type 0) : Type 0 where
  returns : Option T → Control T
  goes_round : Control T

-- The end of a round, and the variables of the loop then.
pub record Round (T : Type 0) : Type 0 where
  pub control : Control T
  pub tried : ℤ
  pub delay_current_level : ℕ

-- The delay after a try, at that level.
abbrev pub delay_at : TryOption → ℕ → ℕ
delay_at o level =
    if ltb 0 level
    then (o.delay_init + o.delay_step * 2 ^ (level - 1) % 2 ^ 32) % 2 ^ 64
    else o.delay_init

first_try : (z : ℤ) → z -ℤ z +ℤ pos 1 ≡ pos 1
unfolding ◌+ℤ◌ ◌-ℤ◌
first_try (pos n) = ground arith
first_try (negsuc n) = ground arith

module _ {T : Type 0} where
  -- The body of the loop. `func` yields a result and whether its closer timed out; `closes` says
  -- whether the closer is closed during a wait of that length.
  unfoldable pub retry_round :
      TryOption → (ℤ → T × Bool) → (T → Bool) → (ℕ → Bool) → ℤ → ℕ → Round T
  unfolding ◌+ℤ◌ ◌-ℤ◌
  retry_round o func checker closes tried level =
      let res = func (o.tries -ℤ tried +ℤ pos 1) in
      let delay = delay_at o level in
      let top = if ltb 16 o.delay_level then 16 else o.delay_level in
      let again = checker res.0 && res.1 in
      let granted = again && not (eqb_ℤ tried (pos 0)) in
      let waited = if ltb 0 delay && closes delay then none else some res.0 in
      record {
        control =
            returns (if again then if eqb_ℤ tried (pos 0) then none else waited else some res.0);
        tried = if again && ltb_ℤ (pos 0) tried then tried -ℤ pos 1 else tried;
        delay_current_level = if granted && ltb level top then suc level else level;
      }

  -- The loop, with how many tries were made; none when the fuel is used up.
  unfoldable pub retry_loop :
      ℕ → TryOption → (ℤ → T × Bool) → (T → Bool) → (ℕ → Bool) → ℤ → ℕ → ℕ → Option (Option T × ℕ)
  unfolding retry_round
  retry_loop zero o func checker closes tried level made = none
  retry_loop (suc fuel) o func checker closes tried level made =
      let round = retry_round o func checker closes tried level in
      let rest =
        retry_loop fuel o func checker closes round.tried round.delay_current_level (suc made) in
      elim (round.control) [ returns r ↦ some (r, suc made) | goes_round ↦ rest ]

  -- `async_retry` of a valid closer.
  unfoldable pub async_retry :
      ℕ → TryOption → (ℤ → T × Bool) → (T → Bool) → (ℕ → Bool) → Option (Option T × ℕ)
  unfolding retry_loop
  async_retry fuel o func checker closes = retry_loop fuel o func checker closes o.tries 0 0

  -- What the first try alone decides.
  abbrev after_one : TryOption → (T → Bool) → (ℕ → Bool) → T × Bool → Option T
  after_one o checker closes res =
      if checker res.0
        && res.1
        && (eqb_ℤ o.tries (pos 0) || (ltb 0 o.delay_init && closes o.delay_init))
      then none
      else some res.0

  -- With fuel for one round, whatever the number of tries: `async_retry` makes the first try and no
  -- other. It is cancelled where that try timed out with a result to be retried, and either no try was
  -- granted or the closer is closed while it waits for the initial delay; otherwise the result of the
  -- first try is returned.
  async_retry_once :
      (fuel : ℕ) (o : TryOption) (func : ℤ → T × Bool) (checker : T → Bool) (closes : ℕ → Bool)
      → async_retry (suc fuel) o func checker closes
        ≡ some (after_one o checker closes (func (pos 1)), 1)
  unfolding async_retry retry_round ◌+ℤ◌ ◌-ℤ◌
  async_retry_once fuel o func checker closes =
      subst
        (λ (n : ℤ).
          async_retry (suc fuel) o func checker closes
          ≡ some (after_one o checker closes (func n), 1))
        (first_try o.tries) (ground arith)
