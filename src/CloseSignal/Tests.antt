-- ===== src/CloseSignal/Tests.antt =====
-- A tree of four signals, and the theorems at it.
use conference_go_client.Common.{
  ℕ, zero, suc, ◌≡◌, ◌≢◌, ◌⊎◌, inl, inr, subst, refl, ℤ, pos, ◌+ℤ◌, ◌-ℤ◌, Bool, true, false, Option,
  none, some, List, [], ◌∷◌, arith, has, All,
}
use mathlib.Core.Option.{some-injective}
use conference_go_client.Channel.{slot}
use conference_go_client.CloseSignal.Timing.{stop_resume}
use conference_go_client.CloseSignal.Node.{
  Node, Platform, Timers, close_self, stop_self, resume_self,
}
use conference_go_client.CloseSignal.Tree.{
  World, open_at, close, returns, close_children, leave_parent,
}
use conference_go_client.CloseSignal.Effect.{children_at, pending_at, reason_at, NodeOk, Inv}
use conference_go_client.CloseSignal.Closing.{Below, itself, child}
use conference_go_client.CloseSignal.Reach.{close_reaches, close_spares}
use conference_go_client.CloseSignal.Reasons.{close_reason_lost}

-- A timer as its expiry and the number of its waits.
abbrev ticker : Timers (ℤ × ℕ)
ticker = record {
  create = (pos 0, 0);
  expiry = λ t. t.0;
  waiting = λ t. t.1;
  expires_after = λ now d t. (now +ℤ d, 0);
  expires_at = λ e t. (e, 0);
  cancel = λ t. (t.0, 0);
  async_wait = λ t. (t.0, suc t.1);
  expiry_after = λ now d t. refl;
  expiry_at = λ e t. refl;
  expiry_wait = λ t. refl;
  create_idle = refl;
  cancel_ends = λ t. refl;
  after_ends = λ now d t. refl;
  at_ends = λ e t. refl;
  wait_adds = λ t. refl;
}

-- A moved-from string is empty, as it is with libstdc++.
abbrev platform : Platform Bool (ℤ × ℕ)
platform = record { channels = slot; timers = ticker; moved = λ s. "" }

abbrev signal : Option ℕ → List ℕ → List ℕ → Node (ℤ × ℕ)
signal parent children waiters = record {
  closed = false;
  close_reason = "";
  is_timeout = false;
  stop = false;
  timeout = pos 0;
  stop_timeout = pos 0;
  timeout_reason = "timeout";
  timer = none;
  waiters = waiters;
  stop_waiters = [];
  parent = parent;
  children = children;
}

-- 0 has the children 1 and 2, and 1 has the child 3; somebody waits for 0, two for 3 and one for 2.
abbrev tree : World Bool (ℤ × ℕ)
tree = record {
  nodes =
      signal none (1 ∷ 2 ∷ []) (0 ∷ [])
      ∷ signal (some 0) (3 ∷ []) []
      ∷ signal (some 0) [] (3 ∷ [])
      ∷ signal (some 1) [] (1 ∷ 2 ∷ [])
      ∷ [];
  chans = λ c. false;
  next_chan = 4;
}

abbrev tree_owner : ℕ → ℕ
tree_owner zero = 0
tree_owner (suc zero) = 6
tree_owner (suc (suc zero)) = 6
tree_owner (suc (suc (suc c))) = 4

close_whole :
    reason_at (elim (close platform 5 0 false "bye" tree) [ returns u ↦ u | _ ↦ tree ]) 1
    ≡ some "bye"
unfolding close close_self close_children leave_parent
close_whole = refl

tree-Inv : Inv slot tree_owner tree
tree-Inv zero n e = subst (NodeOk slot tree_owner tree 0) (some-injective _ _ e) (ground arith)
tree-Inv (suc zero) n e =
    subst (NodeOk slot tree_owner tree 1) (some-injective _ _ e) (ground arith)
tree-Inv (suc (suc zero)) n e =
    subst (NodeOk slot tree_owner tree 2) (some-injective _ _ e) (ground arith)
tree-Inv (suc (suc (suc zero))) n e =
    subst (NodeOk slot tree_owner tree 3) (some-injective _ _ e) (ground arith)
tree-Inv (suc (suc (suc (suc i)))) n e = cc

Below-1 : {d : ℕ} → Below tree 1 d → (d ≡ 1) ⊎ (d ≡ 3)
Below-1 itself = inl refl
Below-1 (child {j} c b m) = elim (Below-1 b) [
  | inl e ↦ let f = subst (λ k. has c (children_at tree k) ≡ true) e m in ground arith
  | inr e ↦ let f = subst (λ k. has c (children_at tree k) ≡ true) e m in cc
]

close_reaches_example :
    (u : World Bool (ℤ × ℕ)) × (close platform 5 0 false "bye" tree ≡ returns u)
    × (open_at u 3 ≡ false)
    × All (λ c. u.chans c ≡ true) (1 ∷ 2 ∷ [])
    × Inv slot tree_owner u
close_reaches_example =
    close_reaches platform tree_owner 5 0 3 false "bye" tree tree-Inv (omega arith)
      (child 3 (child 1 itself refl) refl)

close_spares_example :
    (u : World Bool (ℤ × ℕ)) × (close platform 5 1 false "bye" tree ≡ returns u)
    × (open_at u 2 ≡ true)
    × (pending_at u 2 ≡ 3 ∷ [])
close_spares_example =
    close_spares platform tree_owner 5 1 2 false "bye" tree tree-Inv (omega arith) refl
      (λ b. ground (arith, Below-1 b))

not-Below : {d : ℕ} → Below tree 1 d → d ≢ 2
not-Below b e = ground (arith, Below-1 b)

close_reason_lost_example :
    (u : World Bool (ℤ × ℕ)) × (close platform 5 0 false "bye" tree ≡ returns u)
    × (reason_at u 0 ≡ some "bye")
    × (reason_at u 1 ≡ some "bye")
    × (reason_at u 2 ≡ some "")
close_reason_lost_example =
    close_reason_lost platform tree_owner 5 0 1 2 [] (signal none (1 ∷ 2 ∷ []) (0 ∷ [])) false "bye"
      tree tree-Inv (omega arith) refl refl refl (omega arith) (omega arith) refl refl
      (λ b. not-Below b refl)

-- A signal whose timeout of 50 runs out at 80.
abbrev timed : Node (ℤ × ℕ)
timed = record (signal none [] []) { timeout = pos 50; timer = some (pos 80, 1) }

stop_resume_example :
    let r = resume_self platform (pos 100) (stop_self platform (pos 30) timed true) (λ c. false) in
    (t : ℤ × ℕ) × (r.returned ≡ true)
    × (r.node.timer ≡ some t)
    × (t.0 ≡ pos 100 +ℤ (pos 80 -ℤ pos 30))
    × (t.1 ≡ 1)
    × (r.node.timeout ≡ pos 80 -ℤ pos 30)
    × (r.node.stop ≡ false)
    × (r.node.stop_timeout ≡ pos 0)
    × (r.node.timeout_reason ≡ "")
stop_resume_example =
    stop_resume platform (pos 30) (pos 100) timed (pos 80, 1) (λ c. false) refl refl refl refl refl
