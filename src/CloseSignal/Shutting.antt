-- ===== src/CloseSignal/Shutting.antt =====
-- src/async.cpp: closing one object of a tree, `_close_self`, before the children are closed.
use Prim.Native.String.{String}
use conference_go_client.Common.{
  ℕ, suc, ◌+◌, ◌≡◌, ◌==◌, ◌≢◌, ◌⊎◌, ◌∙◌, sym, subst, refl, Bool, true, false, not, inl, inr, Option,
  none, some, [], ◌++◌, arith, get_elem?, get_elem?-set, count-set, has-append, has, All-has,
  Bool-cases, if◌then◌else◌, ==_iff,
}
use conference_go_client.CloseSignal.Node.{Node, Platform, Touched, drain, close_self}
use conference_go_client.CloseSignal.Tree.{World, open_at, put, leave_parent}
use conference_go_client.CloseSignal.Waking.{Waits, Waits-frame, drain-Drained}
use conference_go_client.CloseSignal.Effect.{children_at, reason_at, pending_at, opens, NodeOk, Inv}
use conference_go_client.CloseSignal.Leaving.{leave_parent-Left}

module _ {Ch Tm : Type 0} (env : Platform Ch Tm) where
  -- What `_close_self` does to an open object.
  pub record SelfClosed (n : Node Tm) (f : ℕ → Ch) (reason : String) (r : Touched Ch Tm)
      : Type 0 where
    pub returned : r.returned ≡ true
    pub closed : r.node.closed ≡ true
    pub reason_kept : r.node.close_reason ≡ reason
    pub none_waits : r.node.waiters ≡ []
    pub none_stopped : r.node.stop_waiters ≡ []
    pub others : (c : ℕ) → has c (n.waiters ++ n.stop_waiters) ≡ false → r.chans c ≡ f c
    pub woken :
        (c : ℕ) → has c (n.waiters ++ n.stop_waiters) ≡ true → env.channels.full (r.chans c) ≡ true
    pub stay_full : (c : ℕ) → env.channels.full (f c) ≡ true → env.channels.full (r.chans c) ≡ true

  pub close_self-SelfClosed :
      (n : Node Tm) (f : ℕ → Ch) (t : Bool) (reason : String)
      → n.closed ≡ false
      → Waits env.channels f n.waiters
      → Waits env.channels f n.stop_waiters
      → ((c : ℕ) → has c n.stop_waiters ≡ true → has c n.waiters ≡ false)
      → SelfClosed n f reason (close_self env n f t reason)
  unfolding close_self
  close_self-SelfClosed n f t reason o w s apart =
      let d = drain-Drained env.channels f n.waiters w in
      let g = (drain env.channels f n.waiters).0 in
      let d' =
        drain-Drained env.channels g n.stop_waiters
          (Waits-frame env.channels f g n.stop_waiters (λ c h. d.others c (apart c h)) s) in
      rw (o, d.none_left, d'.none_left)
        (record {
          returned = refl;
          closed = refl;
          reason_kept = refl;
          none_waits = refl;
          none_stopped = refl;
          others =
              λ c h. ground (arith, has-append c n.waiters n.stop_waiters, d.others c, d'.others c);
          woken = λ c h.
              ground (
                arith,
                has-append c n.waiters n.stop_waiters,
                d.woken c,
                d'.woken c,
                d'.stay_full c,
              );
          stay_full = λ c h. ground (arith, d.stay_full c, d'.stay_full c);
        })

  -- What closing the object `i` does to the world before its children are closed.
  pub record Shut (owner : ℕ → ℕ) (w u : World Ch Tm) (i : ℕ) (n : Node Tm) (reason : String)
      : Type 0 where
    pub opened : (j : ℕ) → open_at u j ≡ (if i == j then false else open_at w j)
    pub fewer : suc (opens u) ≡ opens w
    pub pending : (j : ℕ) → (i == j) ≡ false → pending_at u j ≡ pending_at w j
    pub children :
        (j c : ℕ)
        → (i == j) ≡ false
        → i ≢ c
        → has c (children_at w j) ≡ true
        → has c (children_at u j) ≡ true
    pub children_sub : (j c : ℕ) → has c (children_at u j) ≡ true → has c (children_at w j) ≡ true
    pub other_reason : (j : ℕ) → (i == j) ≡ false → reason_at u j ≡ reason_at w j
    pub own_reason : reason_at u i ≡ some reason
    pub woken :
        (c : ℕ) → has c (n.waiters ++ n.stop_waiters) ≡ true → env.channels.full (u.chans c) ≡ true
    pub stay_full :
        (c : ℕ) → env.channels.full (w.chans c) ≡ true → env.channels.full (u.chans c) ≡ true
    pub inv : Inv env.channels owner u

  abbrev pub bare : Node Tm → Node Tm
  bare m = record m { parent = none; children = [] }

  module _ (owner : ℕ → ℕ) (w : World Ch Tm) (i : ℕ) (n : Node Tm)
      (found : get_elem? w.nodes i ≡ some n) (o : n.closed ≡ false)
      (v : Inv env.channels owner w) where
    apart : (c : ℕ) → has c n.stop_waiters ≡ true → has c n.waiters ≡ false
    apart c h = elim (Bool-cases (has c n.waiters)) [
      | inl k ↦ absurd (
          omega (
            arith,
            All-has (λ c. owner c ≡ i + i) n.waiters c (v i n found).owned k,
            All-has (λ c. owner c ≡ suc (i + i)) n.stop_waiters c (v i n found).stop_owned h,
          ))
      | inr k ↦ k
    ]

    -- Another object's waiters are not among this one's.
    foreign :
        (j c : ℕ)
        → (i == j) ≡ false
        → (owner c ≡ j + j) ⊎ (owner c ≡ suc (j + j))
        → has c (n.waiters ++ n.stop_waiters) ≡ false
    foreign j c d own = elim (Bool-cases (has c (n.waiters ++ n.stop_waiters))) [
      | inr k ↦ k
      | inl k ↦ elim (Bool-cases (has c n.waiters)) [
        | inl h ↦
            absurd
              (ground (arith, All-has (λ c. owner c ≡ i + i) n.waiters c (v i n found).owned h))
        | inr h ↦ absurd (
            ground (
              arith,
              has-append c n.waiters n.stop_waiters,
              All-has (λ c. owner c ≡ suc (i + i)) n.stop_waiters c (v i n found).stop_owned,
            ))
      ]
    ]

    module _ (r : Touched Ch Tm) (reason : String) (sc : SelfClosed n w.chans reason r) where
      abbrev shut_world : World Ch Tm
      shut_world = put (record w { chans = r.chans }) i (bare r.node)

      shut_get :
          (j : ℕ)
          → get_elem? shut_world.nodes j
            ≡ (if i == j then some (bare r.node) else get_elem? w.nodes j)
      shut_get j = get_elem?-set w.nodes i j (bare r.node) n found

      shut_self : NodeOk env.channels owner shut_world i (bare r.node)
      shut_self = record {
        waits = rw sc.none_waits tt;
        stop_waits = rw sc.none_stopped tt;
        owned = rw sc.none_waits tt;
        stop_owned = rw sc.none_stopped tt;
        issued = rw (sc.none_waits, sc.none_stopped) tt;
        no_waiters = λ h. sc.none_waits;
        no_stop_waiters = λ h. sc.none_stopped;
        no_children = λ h. refl;
      }

      shut_other :
          (j : ℕ) (m : Node Tm)
          → (i == j) ≡ false
          → NodeOk env.channels owner w j m
          → NodeOk env.channels owner shut_world j m
      shut_other j m d k = record {
        waits =
            Waits-frame env.channels w.chans r.chans m.waiters
              (λ c h.
                sc.others c
                  (foreign j c d (inl (All-has (λ c. owner c ≡ j + j) m.waiters c k.owned h))))
              k.waits;
        stop_waits =
            Waits-frame env.channels w.chans r.chans m.stop_waiters
              (λ c h. sc.others c (
                foreign j c d
                  (inr (All-has (λ c. owner c ≡ suc (j + j)) m.stop_waiters c k.stop_owned h))))
              k.stop_waits;
        owned = k.owned;
        stop_owned = k.stop_owned;
        issued = k.issued;
        no_waiters = k.no_waiters;
        no_stop_waiters = k.no_stop_waiters;
        no_children = k.no_children;
      }

      shut-Inv : Inv env.channels owner shut_world
      shut-Inv j m e = elim (Bool-cases (i == j)) [
        | inl q ↦
            subst (λ x. NodeOk env.channels owner shut_world j x)
              (let f = sym (shut_get j) ∙ e in ground arith)
              (subst (λ x. NodeOk env.channels owner shut_world x (bare r.node)) ((==_iff i j).0 q)
                shut_self)
        | inr q ↦ shut_other j m q (v j m (let f = sym (shut_get j) ∙ e in ground arith))
      ]

      shut_children :
          (j c : ℕ) → has c (children_at shut_world j) ≡ true → has c (children_at w j) ≡ true
      shut_children j c h = elim (Bool-cases (i == j)) [
        | inl q ↦ let f = rw (shut_get j, q) at h in cc
        | inr q ↦ rw (shut_get j, q) at h
      ]

      Shut-Shut : (p : Option ℕ) → Shut owner w (leave_parent p i shut_world) i n reason
      Shut-Shut p =
          let l = leave_parent-Left env owner shut_world p i shut-Inv in
          record {
            opened = λ j. l.same_open j ∙ rw (shut_get j) (ground (arith, sc.closed));
            fewer = ground (
              arith,
              l.same_opens,
              sc.closed,
              count-set (λ m. not m.closed) w.nodes i (bare r.node) n found,
            );
            pending = λ j d. l.same_pending j ∙ rw (shut_get j, d) refl;
            children = λ j c d e h. l.other_children j c e (rw (shut_get j, d) h);
            children_sub = λ j c h. shut_children j c (l.children_sub j c h);
            other_reason = λ j d. l.same_reason j ∙ rw (shut_get j, d) refl;
            own_reason = l.same_reason i ∙ rw (shut_get i) (ground (arith, sc.reason_kept));
            woken = λ c h. rw l.same_chans (sc.woken c h);
            stay_full = λ c h. rw l.same_chans (sc.stay_full c h);
            inv = l.inv;
          }

    pub self_closed :
        (t : Bool) (reason : String)
        → SelfClosed n w.chans reason (close_self env n w.chans t reason)
    self_closed t reason =
        close_self-SelfClosed n w.chans t reason o (v i n found).waits (v i n found).stop_waits
          apart

    pub self-Shut :
        (t : Bool) (reason : String) (p : Option ℕ)
        → let r = close_self env n w.chans t reason in
          Shut owner w
            (leave_parent p i (put (record w { chans = r.chans }) i (bare r.node)))
            i
            n
            reason
    self-Shut t reason p =
        Shut-Shut (close_self env n w.chans t reason) reason (self_closed t reason) p
