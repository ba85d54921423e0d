-- ===== src/CloseSignal/Node.antt =====
-- src/async.cpp, `detail::CloseSignalState`: what the methods do to one state object. Durations and
-- clock readings are integers without overflow. The channels of waiters lie in a store, and a waiter
-- is the number of its channel.
use Prim.Native.String.{String}
use conference_go_client.Common.{
  ℕ, suc, ◌≡◌, ◌==◌, ℤ, pos, ◌+ℤ◌, ◌-ℤ◌, ltb_ℤ, eqb_ℤ, Bool, true, false, Option, none, some, List,
  [], ◌∷◌, if◌then◌else◌,
}
use mathlib.Core.Option
use conference_go_client.Channel.{Channels}

-- asio's `steady_timer`, as far as the code relies on its documentation: to set an expiry or to
-- cancel ends every pending wait, and to cancel leaves the expiry.
pub record Timers (Tm : Type 0) : Type 0 where
  pub create : Tm
  pub expiry : Tm → ℤ
  pub waiting : Tm → ℕ
  pub expires_after : ℤ → ℤ → Tm → Tm
  pub expires_at : ℤ → Tm → Tm
  pub cancel : Tm → Tm
  pub async_wait : Tm → Tm
  pub expiry_after : (now d : ℤ) (t : Tm) → expiry (expires_after now d t) ≡ now +ℤ d
  pub expiry_at : (e : ℤ) (t : Tm) → expiry (expires_at e t) ≡ e
  pub expiry_wait : (t : Tm) → expiry (async_wait t) ≡ expiry t
  pub create_idle : waiting create ≡ 0
  pub cancel_ends : (t : Tm) → waiting (cancel t) ≡ 0
  pub after_ends : (now d : ℤ) (t : Tm) → waiting (expires_after now d t) ≡ 0
  pub at_ends : (e : ℤ) (t : Tm) → waiting (expires_at e t) ≡ 0
  pub wait_adds : (t : Tm) → waiting (async_wait t) ≡ suc (waiting t)

-- What the class uses of its surroundings. `moved` is what a string holds after it was moved from,
-- which C++ leaves unspecified.
pub record Platform (Ch Tm : Type 0) : Type 0 where
  pub channels : Channels Ch
  pub timers : Timers Tm
  pub moved : String → String

pub record Node (Tm : Type 0) : Type 0 where
  pub closed : Bool
  pub close_reason : String
  pub is_timeout : Bool
  pub stop : Bool
  pub timeout : ℤ
  pub stop_timeout : ℤ
  pub timeout_reason : String
  pub timer : Option Tm
  pub waiters : List ℕ
  pub stop_waiters : List ℕ
  pub parent : Option ℕ
  pub children : List ℕ

unfoldable pub new_node : {Tm : Type 0} → Option ℕ → Node Tm
new_node parent = record {
  closed = false;
  close_reason = "";
  is_timeout = false;
  stop = false;
  timeout = pos 0;
  stop_timeout = pos 0;
  timeout_reason = "timeout";
  timer = none;
  waiters = [];
  stop_waiters = [];
  parent = parent;
  children = [];
}

-- A store of channels.
abbrev pub update : {A : Type 0} → (ℕ → A) → ℕ → A → ℕ → A
update f i a j = if i == j then a else f j

abbrev pub is_empty : {A : Type 0} → List A → Bool
is_empty [] = true
is_empty (x ∷ xs) = false

-- `while (!list.empty())`: write to the front, then pop it. A write that fails throws, and leaves its
-- waiter and those behind it in the list.
unfoldable pub drain : {Ch : Type 0} → Channels Ch → (ℕ → Ch) → List ℕ → (ℕ → Ch) × List ℕ
drain channels chans [] = (chans, [])
drain channels chans (c ∷ cs) =
    let rest = drain channels (update chans c (channels.try_write (chans c)).0) cs in
    if (channels.try_write (chans c)).1 then rest else (chans, c ∷ cs)

-- A state object, the channels, and whether the call returned; otherwise it threw.
pub record Touched (Ch Tm : Type 0) : Type 0 where
  pub node : Node Tm
  pub chans : ℕ → Ch
  pub returned : Bool

module _ {Ch Tm : Type 0} (env : Platform Ch Tm) where
  wake_stopped : Node Tm → (ℕ → Ch) → Touched Ch Tm
  unfolding drain
  wake_stopped n chans =
      let (after, left) = drain env.channels chans n.stop_waiters in
      record { node = record n { stop_waiters = left }; chans = after; returned = is_empty left }

  wake_all : Node Tm → (ℕ → Ch) → Touched Ch Tm
  unfolding drain wake_stopped
  wake_all n chans =
      let (after, left) = drain env.channels chans n.waiters in
      let m = record n { waiters = left } in
      if is_empty left
      then wake_stopped m after
      else record { node = m; chans = after; returned = false }

  -- `_close_self`
  unfoldable pub close_self : Node Tm → (ℕ → Ch) → Bool → String → Touched Ch Tm
  unfolding wake_all
  close_self n chans is_timeout reason =
      if n.closed
      then record { node = n; chans = chans; returned = true }
      else wake_all
          (record n {
            closed = true;
            stop = false;
            close_reason = reason;
            is_timeout = is_timeout;
            timeout = pos 0;
            timer = Option.map env.timers.cancel n.timer;
          })
          chans

  -- What `_set_timeout` does to the timer, where the timeout changes.
  unfoldable pub retime : ℤ → ℤ → ℤ → Tm → Tm
  retime now old dur t =
      if eqb_ℤ dur (pos 0)
      then env.timers.cancel t
      else if eqb_ℤ old (pos 0)
      then env.timers.async_wait (env.timers.expires_after now dur t)
      else env.timers.expires_at (env.timers.expiry t -ℤ old +ℤ dur) t

  -- `_set_timeout`, at a clock reading `now`.
  unfoldable pub set_timeout_self : ℤ → Node Tm → ℤ → String → Node Tm
  unfolding retime
  set_timeout_self now n dur reason =
      if n.closed
      then n
      else if eqb_ℤ n.timeout dur
      then record n { timeout_reason = reason }
      else record n {
        timeout_reason = reason;
        timeout = dur;
        timer = Option.map (retime now n.timeout dur) n.timer;
      }

  -- The timer part of `stop`: the string is moved onto itself.
  unfoldable pub hold_timer : ℤ → Node Tm → Node Tm
  unfolding set_timeout_self
  hold_timer now n = elim n.timer [
    | none ↦
        set_timeout_self now (record n { stop_timeout = n.timeout }) (pos 0)
          (env.moved n.timeout_reason)
    | some t ↦
        if ltb_ℤ (pos 0) n.timeout
        then if ltb_ℤ now (env.timers.expiry t)
          then set_timeout_self now (record n { stop_timeout = env.timers.expiry t -ℤ now }) (pos 0)
              (env.moved n.timeout_reason)
          else n
        else set_timeout_self now (record n { stop_timeout = n.timeout }) (pos 0)
            (env.moved n.timeout_reason)
  ]

  -- The critical section of `stop`, past its test.
  unfoldable pub stop_self : ℤ → Node Tm → Bool → Node Tm
  unfolding hold_timer
  stop_self now n stop_timer =
      let m = record n { stop = true } in if stop_timer then hold_timer now m else m

  -- The end of `resume`'s critical section, after the waiters are woken.
  unfoldable pub release_timer : ℤ → Node Tm → Node Tm
  unfolding set_timeout_self
  release_timer now n =
      if ltb_ℤ (pos 0) n.stop_timeout
      then record (set_timeout_self now n n.stop_timeout (env.moved n.timeout_reason)) {
        stop_timeout = pos 0;
      }
      else n

  -- The critical section of `resume`, past its test.
  unfoldable pub resume_self : ℤ → Node Tm → (ℕ → Ch) → Touched Ch Tm
  unfolding wake_stopped release_timer
  resume_self now n chans =
      let r = wake_stopped (record n { stop = false }) chans in
      if r.returned then record r { node = release_timer now r.node } else r

  -- `init_timer` on the object itself.
  unfoldable pub start_timer : ℤ → Node Tm → Node Tm
  start_timer now n =
      let t = env.timers.create in
      record n {
        timer = some (
            if eqb_ℤ n.timeout (pos 0)
            then t
            else env.timers.async_wait (env.timers.expires_after now n.timeout t));
      }
