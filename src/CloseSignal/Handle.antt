-- ===== src/CloseSignal/Handle.antt =====
-- src/async.cpp, `cfgo::CloseSignal`: the handle that the rest of the library holds, a pointer to a
-- state object that may be null. A null signal is never closed; what it cannot do throws.
use Prim.Native.String.{String}
use conference_go_client.Common.{
  is_some, ℕ, suc, ◌≡◌, ◌<◌, ◌⊎◌, inl, inr, refl, ℤ, pos, Bool, true, false, Option, none, some, [],
  ◌∷◌, ◌++◌, get_elem?, length,
}
use conference_go_client.CloseSignal.Node.{Node, Platform, new_node, update}
use conference_go_client.CloseSignal.Tree.{World, open_at, Run, returns, throws, exhausted}
use conference_go_client.CloseSignal.Tree
use conference_go_client.CloseSignal.Effect.{opens, Inv}
use conference_go_client.CloseSignal.Closing.{close-Closes}

abbrev pub Handle : Type 0
Handle = Option ℕ

module _ {Ch Tm : Type 0} where
  abbrev field_of : {A : Type 0} → (Node Tm → A) → A → Handle → World Ch Tm → A
  field_of f d none w = d
  field_of f d (some i) w = elim (get_elem? w.nodes i) [ none ↦ d | some n ↦ f n ]

  pub is_closed : Handle → World Ch Tm → Bool
  is_closed = field_of (λ n. n.closed) false

  pub is_timeout : Handle → World Ch Tm → Bool
  is_timeout = field_of (λ n. n.is_timeout) false

  pub get_timeout : Handle → World Ch Tm → ℤ
  get_timeout = field_of (λ n. n.timeout) (pos 0)

  pub get_close_reason : Handle → World Ch Tm → String
  get_close_reason = field_of (λ n. n.close_reason) ""

  pub get_timeout_reason : Handle → World Ch Tm → String
  get_timeout_reason = field_of (λ n. n.timeout_reason) ""

module _ {Ch Tm : Type 0} (env : Platform Ch Tm) where
  -- A null signal hands out a channel that nobody writes to.
  pub get_waiter : Handle → World Ch Tm → World Ch Tm × Option ℕ
  get_waiter (some i) w = Tree.get_waiter env i w
  get_waiter none w = (
    record w { chans = update w.chans w.next_chan env.channels.fresh; next_chan = suc w.next_chan },
    some w.next_chan,
  )

  pub get_stop_waiter : Handle → World Ch Tm → World Ch Tm × Option ℕ
  get_stop_waiter (some i) w = Tree.get_stop_waiter env i w
  get_stop_waiter none w = (w, none)

  pub init_timer : (ℕ → ℤ) → ℕ → Handle → World Ch Tm → Run (World Ch Tm)
  init_timer clock fuel (some i) w = Tree.init_timer env clock fuel i w
  init_timer clock fuel none w = returns w

  pub close : ℕ → Handle → String → World Ch Tm → Run (World Ch Tm)
  close fuel (some i) reason w = Tree.close env fuel i false reason w
  close fuel none reason w = throws w

  -- What `catch (...)` makes of a call: the world, and whether the call returned.
  abbrev pub caught : {W : Type 0} → Run W → Option (W × Bool)
  caught (returns w) = some (w, true)
  caught (throws w) = some (w, false)
  caught exhausted = none

  -- `none` is a lack of fuel.
  pub close_no_except : ℕ → Handle → String → World Ch Tm → Option (World Ch Tm × Bool)
  close_no_except fuel (some i) reason w = caught (Tree.close env fuel i false reason w)
  close_no_except fuel none reason w = some (w, false)

  pub set_timeout : ℤ → Handle → ℤ → String → World Ch Tm → Run (World Ch Tm)
  set_timeout now (some i) dur reason w = returns (Tree.set_timeout env now i dur reason w)
  set_timeout now none dur reason w = throws w

  pub stop : (ℕ → ℤ) → ℕ → Handle → Bool → World Ch Tm → Run (World Ch Tm)
  stop clock fuel (some i) stop_timer w = Tree.stop env clock fuel i stop_timer w
  stop clock fuel none stop_timer w = throws w

  pub resume : (ℕ → ℤ) → ℕ → Handle → World Ch Tm → Run (World Ch Tm)
  resume clock fuel (some i) w = Tree.resume env clock fuel i w
  resume clock fuel none w = throws w

  -- A child of a null signal is a signal of its own.
  pub create_child : Handle → World Ch Tm → Option (World Ch Tm × ℕ)
  create_child (some i) w = Tree.create_child env i w
  create_child none w = some (record w { nodes = w.nodes ++ new_node none ∷ [] }, length w.nodes)

  -- In a world that satisfies the invariant, with fuel for every open signal: `close_no_except`
  -- ends, catches no exception, says so by its result exactly when the signal is not null, and leaves
  -- no signal open that it was called on; on a null signal it changes nothing.
  close_no_except_safe :
      (owner : ℕ → ℕ) (fuel : ℕ) (h : Handle) (reason : String) (w : World Ch Tm)
      → Inv env.channels owner w
      → opens w < fuel
      → (u : World Ch Tm) × (close_no_except fuel h reason w ≡ some (u, is_some h))
        × Inv env.channels owner u
        × (((h ≡ none) × (u ≡ w)) ⊎ ((i : ℕ) × (h ≡ some i) × (open_at u i ≡ false)))
  unfolding close_no_except
  close_no_except_safe owner fuel none reason w v f = (w, refl, v, inl (refl, refl))
  close_no_except_safe owner fuel (some i) reason w v f =
      let (u, e, k) = close-Closes env owner fuel i false reason w v f in
      (u, rw e refl, k.inv, inr (i, refl, k.not_open))
