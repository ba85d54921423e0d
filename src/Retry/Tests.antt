-- ===== src/Retry/Tests.antt =====
-- A try with a concrete function.
use conference_go_client.Common.{
  ℕ, ◌≡◌, refl, ◌==◌, ℤ, pos, eqb_ℤ, Bool, true, false, some, if◌then◌else◌,
}
use conference_go_client.Retry.{TryOption, async_retry}

abbrev five_tries : TryOption
five_tries = record { tries = pos 5; delay_init = 10; delay_step = 20; delay_level = 3 }

-- The first try times out with the result 0, any other gives 1.
abbrev flaky : ℤ → ℕ × Bool
flaky n = if eqb_ℤ n (pos 1) then (0, true) else (1, false)

-- The result that was to be retried is returned after one try, though five were granted.
flaky_not_retried : async_retry 6 five_tries flaky (λ r. r == 0) (λ d. false) ≡ some (some 0, 1)
unfolding async_retry
flaky_not_retried = refl
