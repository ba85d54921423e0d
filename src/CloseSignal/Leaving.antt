-- ===== src/CloseSignal/Leaving.antt =====
-- src/async.cpp: `remove_me`, by which a signal that is closed leaves its parent.
use conference_go_client.Common.{
  ℕ, ◌≡◌, ◌==◌, ◌≢◌, ◌∙◌, sym, subst, ap, refl, true, false, false≢true, not, inl, inr, Option,
  none, some, arith, get_elem?, get_elem?-set, count-set, has-keep_other, has-keep_sub, keep, has,
  Bool-cases, Option-cases, if◌then◌else◌, ==_iff,
}
use conference_go_client.CloseSignal.Node.{Node, Platform}
use conference_go_client.CloseSignal.Tree.{World, open_at, put, remove_me, leave_parent}
use conference_go_client.CloseSignal.Effect.{
  children_of, children_at, reason_at, pending_at, opens, NodeOk, Inv,
}

module _ {Ch Tm : Type 0} (env : Platform Ch Tm) where
  -- What leaving the parent does: the child is out of the parent's list, and nothing else changes.
  pub record Left (owner : ℕ → ℕ) (w u : World Ch Tm) (child : ℕ) : Type 0 where
    pub same_open : (j : ℕ) → open_at u j ≡ open_at w j
    pub same_opens : opens u ≡ opens w
    pub same_pending : (j : ℕ) → pending_at u j ≡ pending_at w j
    pub other_children :
        (j c : ℕ) → child ≢ c → has c (children_at w j) ≡ true → has c (children_at u j) ≡ true
    pub children_sub : (j c : ℕ) → has c (children_at u j) ≡ true → has c (children_at w j) ≡ true
    pub same_reason : (j : ℕ) → reason_at u j ≡ reason_at w j
    pub same_chans : u.chans ≡ w.chans
    pub inv : Inv env.channels owner u

  Left-refl :
      (owner : ℕ → ℕ) (w : World Ch Tm) (child : ℕ)
      → Inv env.channels owner w
      → Left owner w w child
  Left-refl owner w child v = record {
    same_open = λ j. refl;
    same_opens = refl;
    same_pending = λ j. refl;
    other_children = λ j c n h. h;
    children_sub = λ j c h. h;
    same_reason = λ j. refl;
    same_chans = refl;
    inv = v;
  }

  abbrev without : ℕ → Node Tm → Node Tm
  without child n = record n { children = keep (λ c. not (c == child)) n.children }

  pub NodeOk-put :
      (owner : ℕ → ℕ) (w : World Ch Tm) (i j : ℕ) (m n : Node Tm)
      → NodeOk env.channels owner w j n
      → NodeOk env.channels owner (put w i m) j n
  NodeOk-put owner w i j m n k = record {
    waits = k.waits;
    stop_waits = k.stop_waits;
    owned = k.owned;
    stop_owned = k.stop_owned;
    issued = k.issued;
    no_waiters = k.no_waiters;
    no_stop_waiters = k.no_stop_waiters;
    no_children = k.no_children;
  }

  module _ (owner : ℕ → ℕ) (w : World Ch Tm) (p child : ℕ) (n : Node Tm)
      (found : get_elem? w.nodes p ≡ some n) (o : n.closed ≡ false) where
    removed_get :
        (j : ℕ)
        → get_elem? (put w p (without child n)).nodes j
          ≡ (if p == j then some (without child n) else get_elem? w.nodes j)
    removed_get j = get_elem?-set w.nodes p j (without child n) n found

    removed_found : (j : ℕ) → (p == j) ≡ true → get_elem? w.nodes j ≡ some n
    removed_found j h = subst (λ k. get_elem? w.nodes k ≡ some n) ((==_iff p j).0 h) found

    removed-NodeOk :
        (j : ℕ)
        → NodeOk env.channels owner w j n
        → NodeOk env.channels owner (put w p (without child n)) j (without child n)
    removed-NodeOk j k = record {
      waits = k.waits;
      stop_waits = k.stop_waits;
      owned = k.owned;
      stop_owned = k.stop_owned;
      issued = k.issued;
      no_waiters = k.no_waiters;
      no_stop_waiters = k.no_stop_waiters;
      no_children = λ h. absurd (false≢true (sym o ∙ h));
    }

    removed-Left : Inv env.channels owner w → Left owner w (put w p (without child n)) child
    removed-Left v = record {
      same_open = λ j. rw (removed_get j) (ground (arith, removed_found j));
      same_opens =
          ground (arith, count-set (λ m. not m.closed) w.nodes p (without child n) n found);
      same_pending = λ j. rw (removed_get j) (ground (arith, removed_found j));
      other_children = λ j c d h. rw (removed_get j) (elim (Bool-cases (p == j)) [
        | inl q ↦ rw q (
            has-keep_other child c n.children d
              (subst (λ x. has c (children_of x) ≡ true) (removed_found j q) h))
        | inr q ↦ rw q h
      ]);
      children_sub = λ j c h. elim (Bool-cases (p == j)) [
        | inl q ↦
            subst (λ x. has c (children_of x) ≡ true) (sym (removed_found j q))
              (has-keep_sub (λ d. not (d == child)) c n.children (rw (removed_get j, q) at h))
        | inr q ↦ rw (removed_get j, q) at h
      ];
      same_reason = λ j. rw (removed_get j) (ground (arith, removed_found j));
      same_chans = refl;
      inv = λ j m e. elim (Bool-cases (p == j)) [
        | inl q ↦
            subst (λ x. NodeOk env.channels owner (put w p (without child n)) j x)
              (let f = sym (removed_get j) ∙ e in ground arith)
              (removed-NodeOk j (v j n (removed_found j q)))
        | inr q ↦
            NodeOk-put owner w p j _ m (v j m (let f = sym (removed_get j) ∙ e in ground arith))
      ];
    }

  remove_me_open :
      (w : World Ch Tm) (p child : ℕ) (n : Node Tm)
      → get_elem? w.nodes p ≡ some n
      → n.closed ≡ false
      → remove_me p child w ≡ put w p (without child n)
  unfolding remove_me
  remove_me_open w p child n e o =
      rw (e, remove_me) (ap (λ b. if b then w else put w p (without child n)) o)

  remove_me-Left :
      (owner : ℕ → ℕ) (w : World Ch Tm) (p child : ℕ)
      → Inv env.channels owner w
      → Left owner w (remove_me p child w) child
  unfolding remove_me
  remove_me-Left owner w p child v = elim (Option-cases (get_elem? w.nodes p)) [
    | inl e ↦ rw (e, remove_me) (Left-refl owner w child v)
    | inr (n, e) ↦ elim (Bool-cases n.closed) [
      | inl c ↦ rw (e, remove_me, c) (Left-refl owner w child v)
      | inr o ↦
          subst (λ u. Left owner w u child) (sym (remove_me_open w p child n e o))
            (removed-Left owner w p child n e o v)
    ]
  ]

  pub leave_parent-Left :
      (owner : ℕ → ℕ) (w : World Ch Tm) (p : Option ℕ) (child : ℕ)
      → Inv env.channels owner w
      → Left owner w (leave_parent p child w) child
  unfolding leave_parent
  leave_parent-Left owner w none child v = Left-refl owner w child v
  leave_parent-Left owner w (some p) child v = remove_me-Left owner w p child v
