-- ===== src/CloseSignal/Timing.antt =====
-- src/async.cpp: what `set_timeout`, `stop` and `resume` do to the timer of a close signal.
use Prim.Native.String.{String}
use conference_go_client.Common.{
  ℕ, ◌≡◌, ◌≢◌, ℤ, pos, ◌+ℤ◌, ◌-ℤ◌, ltb_ℤ, ◌∙◌, ap, refl, true, false, some, [], arith,
}
use conference_go_client.CloseSignal.Node.{Node, Platform, set_timeout_self, stop_self, resume_self}

module _ {Ch Tm : Type 0} (env : Platform Ch Tm) where
  open env.timers use {expiry, waiting}

  -- An open signal whose timer exists and that had no timeout: a new timeout sets the expiry to that
  -- much from now, with one task waiting for it.
  set_timeout_arms :
      (now dur : ℤ) (n : Node Tm) (t : Tm) (reason : String)
      → n.closed ≡ false
      → n.timer ≡ some t
      → n.timeout ≡ pos 0
      → dur ≢ pos 0
      → (t' : Tm) × ((set_timeout_self env now n dur reason).timer ≡ some t')
        × (expiry t' ≡ now +ℤ dur)
        × (waiting t' ≡ 1)
        × ((set_timeout_self env now n dur reason).timeout ≡ dur)
  unfolding set_timeout_self
  set_timeout_arms now dur n t reason o e z d =
      let t' = env.timers.async_wait (env.timers.expires_after now dur t) in
      (
        t',
        ground arith,
        env.timers.expiry_wait (env.timers.expires_after now dur t)
            ∙ env.timers.expiry_after now dur t,
        ground (
          arith,
          env.timers.wait_adds (env.timers.expires_after now dur t),
          env.timers.after_ends now dur t,
        ),
        ground arith,
      )

  -- An open signal with a running timeout: another timeout that is not zero moves the expiry by the
  -- difference and leaves no task waiting for it, so that the signal does not time out any more.
  set_timeout_disarms :
      (now dur : ℤ) (n : Node Tm) (t : Tm) (reason : String)
      → n.closed ≡ false
      → n.timer ≡ some t
      → n.timeout ≢ pos 0
      → dur ≢ pos 0
      → n.timeout ≢ dur
      → (t' : Tm) × ((set_timeout_self env now n dur reason).timer ≡ some t')
        × (expiry t' ≡ expiry t -ℤ n.timeout +ℤ dur)
        × (waiting t' ≡ 0)
        × ((set_timeout_self env now n dur reason).timeout ≡ dur)
  unfolding set_timeout_self
  set_timeout_disarms now dur n t reason o e z d x =
      let at = expiry t -ℤ n.timeout +ℤ dur in
      (
        env.timers.expires_at at t,
        ground arith,
        env.timers.expiry_at at t,
        env.timers.at_ends at t,
        ground arith,
      )

  abbrev held : ℤ → Node Tm → Tm → Node Tm
  held left n t = record n {
    stop = true;
    stop_timeout = left;
    timeout_reason = env.moved n.timeout_reason;
    timeout = pos 0;
    timer = some (env.timers.cancel t);
  }

  stop_self-held :
      (now : ℤ) (n : Node Tm) (t : Tm)
      → n.closed ≡ false
      → n.timer ≡ some t
      → ltb_ℤ (pos 0) n.timeout ≡ true
      → ltb_ℤ now (expiry t) ≡ true
      → stop_self env now n true ≡ held (expiry t -ℤ now) n t
  unfolding stop_self
  stop_self-held now n t o e p q = ground arith

  positive : (a b : ℤ) → ltb_ℤ a b ≡ true → ltb_ℤ (pos 0) (b -ℤ a) ≡ true
  unfolding ◌-ℤ◌
  positive a b h = ground arith

  abbrev running : ℤ → ℤ → Node Tm → Tm → Node Tm
  running later left n t = record n {
    stop = false;
    stop_timeout = pos 0;
    timeout_reason = env.moved (env.moved n.timeout_reason);
    timeout = left;
    timer =
        some (env.timers.async_wait (env.timers.expires_after later left (env.timers.cancel t)));
  }

  resume_self-running :
      (later left : ℤ) (n : Node Tm) (t : Tm) (chans : ℕ → Ch)
      → n.closed ≡ false
      → n.stop_waiters ≡ []
      → ltb_ℤ (pos 0) left ≡ true
      → resume_self env later (held left n t) chans
        ≡ record { node = running later left n t; chans = chans; returned = true }
  unfolding resume_self
  resume_self-running later left n t chans o s p = ground arith

  -- A stop that holds the timer, and a resume, of an open signal whose timeout runs and for which
  -- nobody waits to be resumed: the time that was left at the stop is left again at the resume, one
  -- task waits for it, and nothing of the stop remains. The reason was moved twice.
  pub stop_resume :
      (now later : ℤ) (n : Node Tm) (t : Tm) (chans : ℕ → Ch)
      → n.closed ≡ false
      → n.timer ≡ some t
      → ltb_ℤ (pos 0) n.timeout ≡ true
      → ltb_ℤ now (expiry t) ≡ true
      → n.stop_waiters ≡ []
      → let r = resume_self env later (stop_self env now n true) chans in
        (t' : Tm) × (r.returned ≡ true)
        × (r.node.timer ≡ some t')
        × (expiry t' ≡ later +ℤ (expiry t -ℤ now))
        × (waiting t' ≡ 1)
        × (r.node.timeout ≡ expiry t -ℤ now)
        × (r.node.stop ≡ false)
        × (r.node.stop_timeout ≡ pos 0)
        × (r.node.timeout_reason ≡ env.moved (env.moved n.timeout_reason))
  stop_resume now later n t chans o e p q s =
      let left = expiry t -ℤ now in
      let c = env.timers.cancel t in
      let f =
        ap (λ m. resume_self env later m chans) (stop_self-held now n t o e p q)
        ∙ resume_self-running later left n t chans o s (positive now (expiry t) q) in
      rw f (
        env.timers.async_wait (env.timers.expires_after later left c),
        refl,
        refl,
        env.timers.expiry_wait (env.timers.expires_after later left c)
            ∙ env.timers.expiry_after later left c,
        ground (
          arith,
          env.timers.wait_adds (env.timers.expires_after later left c),
          env.timers.after_ends later left c,
        ),
        refl,
        refl,
        refl,
        refl,
      )
