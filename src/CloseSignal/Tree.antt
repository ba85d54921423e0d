-- ===== src/CloseSignal/Tree.antt =====
-- src/async.cpp, `detail::CloseSignalState`: the methods on a whole tree of state objects. A pointer
-- is the object's number in `nodes`. One call runs to its end before the next; the objects outlive
-- the calls. Each call on an object, and each level of `close`, `stop`, `resume` and `init_timer`,
-- takes one unit of fuel.
use Prim.Native.String.{String}
use conference_go_client.Common.{
  is_some, ℕ, zero, suc, ◌==◌, ℤ, pos, eqb_ℤ, Bool, true, false, not, ◌||◌, Option, none, some,
  List, [], ◌∷◌, ◌++◌, if◌then◌else◌, length, get_elem?, set, keep,
}
use conference_go_client.CloseSignal.Node.{
  Node, Platform, new_node, update, close_self, set_timeout_self, stop_self, resume_self,
  start_timer,
}

pub record World (Ch Tm : Type 0) : Type 0 where
  pub nodes : List (Node Tm)
  pub chans : ℕ → Ch
  pub next_chan : ℕ

-- How a call ends: it returns, an exception leaves it, or the fuel ran out.
pub data Run (W : Type 0) : Type 0 where
  returns : W → Run W
  throws : W → Run W
  exhausted : Run W

infixl 5 ◌>>=◌
abbrev pub ◌>>=◌ : {W : Type 0} → Run W → (W → Run W) → Run W
returns w >>= f = f w
throws w >>= f = throws w
exhausted >>= f = exhausted

abbrev pub is_open : {Tm : Type 0} → Option (Node Tm) → Bool
is_open none = false
is_open (some n) = not n.closed

module _ {Ch Tm : Type 0} where
  abbrev pub open_at : World Ch Tm → ℕ → Bool
  open_at w i = is_open (get_elem? w.nodes i)

  abbrev pub put : World Ch Tm → ℕ → Node Tm → World Ch Tm
  put w i n = record w { nodes = set w.nodes i n }

  -- `for (auto & child : children)`
  unfoldable pub each_child :
      (ℕ → World Ch Tm → Run (World Ch Tm)) → List ℕ → World Ch Tm → Run (World Ch Tm)
  each_child call [] w = returns w
  each_child call (c ∷ cs) w = call c w >>= each_child call cs

  -- `remove_me`
  unfoldable pub remove_me : ℕ → ℕ → World Ch Tm → World Ch Tm
  remove_me p child w = elim (get_elem? w.nodes p) [
    | none ↦ w
    | some n ↦
        if n.closed
        then w
        else put w p (record n { children = keep (λ c. not (c == child)) n.children })
  ]

  unfoldable pub leave_parent : Option ℕ → ℕ → World Ch Tm → World Ch Tm
  unfolding remove_me
  leave_parent none child w = w
  leave_parent (some p) child w = remove_me p child w

  -- A child of a closed object is a closed object of its own: no waiter is woken, since it has none.
  unfoldable pub create_child : Platform Ch Tm → ℕ → World Ch Tm → Option (World Ch Tm × ℕ)
  unfolding close_self new_node
  create_child env i w = elim (get_elem? w.nodes i) [
    | none ↦ none
    | some n ↦
        let child = length w.nodes in
        let r = close_self env (new_node none) w.chans n.is_timeout n.close_reason in
        let u = put w i (record n { children = n.children ++ child ∷ [] }) in
        if n.closed
        then some (record w { nodes = w.nodes ++ r.node ∷ [] }, child)
        else some (record u { nodes = u.nodes ++ new_node (some i) ∷ [] }, child)
  ]

  -- `get_waiter`: `none` once the signal is closed.
  unfoldable pub get_waiter : Platform Ch Tm → ℕ → World Ch Tm → World Ch Tm × Option ℕ
  get_waiter env i w = elim (get_elem? w.nodes i) [
    | none ↦ (w, none)
    | some n ↦ if n.closed then (w, none) else (
      record w {
        nodes = set w.nodes i (record n { waiters = n.waiters ++ w.next_chan ∷ [] });
        chans = update w.chans w.next_chan env.channels.fresh;
        next_chan = suc w.next_chan;
      },
      some w.next_chan,
    )
  ]

  -- `get_stop_waiter`: `none` unless the signal is stopped.
  unfoldable pub get_stop_waiter : Platform Ch Tm → ℕ → World Ch Tm → World Ch Tm × Option ℕ
  get_stop_waiter env i w = elim (get_elem? w.nodes i) [
    | none ↦ (w, none)
    | some n ↦ if not n.stop then (w, none) else (
      record w {
        nodes = set w.nodes i (record n { stop_waiters = n.stop_waiters ++ w.next_chan ∷ [] });
        chans = update w.chans w.next_chan env.channels.fresh;
        next_chan = suc w.next_chan;
      },
      some w.next_chan,
    )
  ]

module _ {Ch Tm : Type 0} (env : Platform Ch Tm) where
  -- The loop of `close` over the children: each call takes the reason by move, and a call that
  -- returns at once leaves it.
  unfoldable pub close_children :
      (ℕ → String → World Ch Tm → Run (World Ch Tm))
      → List ℕ
      → String
      → World Ch Tm
      → Run (World Ch Tm)
  close_children call [] reason w = returns w
  close_children call (c ∷ cs) reason w =
      call c reason w >>= close_children call cs (if open_at w c then env.moved reason else reason)

  -- What `close` does under the lock of an open object, then at its parent, then below it.
  unfoldable pub close_open :
      (ℕ → String → World Ch Tm → Run (World Ch Tm))
      → ℕ
      → Node Tm
      → Bool
      → String
      → World Ch Tm
      → Run (World Ch Tm)
  close_open call i n is_timeout reason w =
      let r = close_self env n w.chans is_timeout reason in
      let u = record w { chans = r.chans } in
      if r.returned
      then close_children call n.children r.node.close_reason
          (leave_parent n.parent i (put u i (record (r.node) { parent = none; children = [] })))
      else throws (put u i r.node)

  unfoldable pub close : ℕ → ℕ → Bool → String → World Ch Tm → Run (World Ch Tm)
  unfolding close_open
  close zero i is_timeout reason w = exhausted
  close (suc fuel) i is_timeout reason w = elim (get_elem? w.nodes i) [
    | none ↦ returns w
    | some n ↦
        if n.closed
        then returns w
        else close_open (λ c. close fuel c is_timeout) i n is_timeout reason w
  ]

  -- `clock i` is the reading of the clock when the call comes to object `i`.
  unfoldable pub stop : (ℕ → ℤ) → ℕ → ℕ → Bool → World Ch Tm → Run (World Ch Tm)
  unfolding stop_self each_child
  stop clock zero i stop_timer w = exhausted
  stop clock (suc fuel) i stop_timer w = elim (get_elem? w.nodes i) [
    | none ↦ returns w
    | some n ↦
        if n.closed || n.stop
        then returns w
        else each_child (λ c. stop clock fuel c stop_timer) n.children
            (put w i (stop_self env (clock i) n stop_timer))
  ]

  unfoldable pub resume : (ℕ → ℤ) → ℕ → ℕ → World Ch Tm → Run (World Ch Tm)
  unfolding resume_self each_child
  resume clock zero i w = exhausted
  resume clock (suc fuel) i w = elim (get_elem? w.nodes i) [
    | none ↦ returns w
    | some n ↦
        if not n.stop
        then returns w
        else let r = resume_self env (clock i) n w.chans in
          let u = put (record w { chans = r.chans }) i r.node in
          if r.returned then each_child (resume clock fuel) n.children u else throws u
  ]

  unfoldable pub set_timeout : ℤ → ℕ → ℤ → String → World Ch Tm → World Ch Tm
  unfolding set_timeout_self
  set_timeout now i dur reason w = elim (get_elem? w.nodes i) [
    | none ↦ w
    | some n ↦ if n.closed then w else put w i (set_timeout_self env now n dur reason)
  ]

  -- The timer of an object and of those above it that have none.
  unfoldable pub init_timer : (ℕ → ℤ) → ℕ → ℕ → World Ch Tm → Run (World Ch Tm)
  unfolding start_timer
  init_timer clock zero i w = exhausted
  init_timer clock (suc fuel) i w = elim (get_elem? w.nodes i) [
    | none ↦ returns w
    | some n ↦ if n.closed || is_some n.timer then returns w else elim n.parent [
      | none ↦ returns (put w i (start_timer env (clock i) n))
      | some p ↦ init_timer clock fuel p (put w i (start_timer env (clock i) n))
    ]
  ]

  -- `timer_task`, once its wait has ended by the expiry.
  unfoldable pub timer_fires : ℕ → ℕ → World Ch Tm → Run (World Ch Tm)
  timer_fires fuel i w = elim (get_elem? w.nodes i) [
    | none ↦ returns w
    | some n ↦ if eqb_ℤ n.timeout (pos 0) then returns w else close fuel i true n.timeout_reason w
  ]
