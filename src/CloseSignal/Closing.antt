-- ===== src/CloseSignal/Closing.antt =====
-- src/async.cpp: `close` on a tree of close signals. With more fuel than there are open signals it
-- returns, throws nowhere, and reaches every signal below the one that is closed.
use Prim.Native.String.{String}
use conference_go_client.Common.{
  ℕ, zero, suc, ◌≡◌, ◌==◌, ◌<◌, ◌≤◌, ◌∙◌, sym, subst, ap, refl, Bool, true, false, false≢true, not,
  inl, inr, some, List, [], ◌∷◌, arith, get_elem?, has, Bool-cases, Option-cases, if◌then◌else◌,
  ==_iff,
}
use conference_go_client.CloseSignal.Node.{Node, Platform, close_self}
use conference_go_client.CloseSignal.Tree.{
  World, Run, returns, open_at, close_children, close_open, close,
}
use conference_go_client.CloseSignal.Effect.{
  children_at, reason_at, pending_at, opens, Effect, Effect-refl, Effect-trans, open_before, Inv,
}
use conference_go_client.CloseSignal.Shutting.{Shut, self_closed, self-Shut}

module _ {Ch Tm : Type 0} where
  -- The signals at or below `i`.
  pub data Below (w : World Ch Tm) (i : ℕ) : ℕ → Type 0 where
    itself : Below w i i
    child : {j : ℕ} (c : ℕ) → Below w i j → has c (children_at w j) ≡ true → Below w i c

  Below-trans : {w : World Ch Tm} {i j d : ℕ} → Below w i j → Below w j d → Below w i d
  Below-trans b itself = b
  Below-trans b (child c r m) = child c (Below-trans b r) m

  pub Below-mono :
      (w u : World Ch Tm) (i : ℕ)
      → ((j c : ℕ) → has c (children_at u j) ≡ true → has c (children_at w j) ≡ true)
      → {d : ℕ} → Below u i d
      → Below w i d
  Below-mono w u i sub itself = itself
  Below-mono w u i sub (child {j} c b m) = child c (Below-mono w u i sub b) (sub j c m)

module _ {Ch Tm : Type 0} (env : Platform Ch Tm) where
  module _ (owner : ℕ → ℕ) (w u v : World Ch Tm) (i : ℕ) (n : Node Tm) (reason : String)
      (found : get_elem? w.nodes i ≡ some n) (o : n.closed ≡ false)
      (s : Shut env owner w u i n reason) (e : Effect env.channels u v)
      (below : (c : ℕ) → has c n.children ≡ true → open_at v c ≡ false) where
    shut_closed : open_at u i ≡ false
    shut_closed = ground (arith, s.opened i)

    still_open : (j : ℕ) → open_at u j ≡ true → (i == j) ≡ false
    still_open j h = ground (arith, s.opened j)

    not_self : (j : ℕ) → open_at w j ≡ false → (i == j) ≡ false
    not_self j h = elim (Bool-cases (i == j)) [
      | inr q ↦ q
      | inl q ↦
          let f : open_at w i ≡ false =
            subst (λ k. open_at w k ≡ false) (sym ((==_iff i j).0 q)) h in
          let g = rw found at f in ground arith
    ]

    close_Effect : Effect env.channels w v
    close_Effect = record {
      stays = λ j h. e.stays j (ground (arith, s.opened j));
      keeps_pending =
          λ j h. e.keeps_pending j h ∙ s.pending j (still_open j (open_before env.channels j e h));
      keeps_children = λ j c h g m. e.keeps_children j c h g (
          s.children j c (still_open j (open_before env.channels j e h))
            (ground (arith, still_open c (open_before env.channels c e g))) m);
      children_sub = λ j c m. s.children_sub j c (e.children_sub j c m);
      reasons = λ j h. e.reasons j (ground (arith, s.opened j)) ∙ s.other_reason j (not_self j h);
      closes_children = λ j c h g m. elim (Bool-cases (i == j)) [
        | inl q ↦ below c (
            let f = subst (λ k. has c (children_at w k) ≡ true) (sym ((==_iff i j).0 q)) m in
            rw found at f)
        | inr q ↦ elim (Bool-cases (i == c)) [
          | inl k ↦ subst (λ x. open_at v x ≡ false) ((==_iff i c).0 k) (e.stays i shut_closed)
          | inr k ↦
              e.closes_children j c (ground (arith, s.opened j)) g
                (s.children j c q (ground arith) m)
        ]
      ];
      wakes = λ j c h g m. elim (Bool-cases (i == j)) [
        | inl q ↦ e.stay_full c (
            s.woken c (
              let f = subst (λ k. has c (pending_at w k) ≡ true) (sym ((==_iff i j).0 q)) m in
              rw found at f))
        | inr q ↦ e.wakes j c (ground (arith, s.opened j)) g (rw (s.pending j q) m)
      ];
      stay_full = λ c h. e.stay_full c (s.stay_full c h);
    }

  -- A call that returns, having closed `i` for the given reason, and nothing but what is below `i`.
  pub record Closed (owner : ℕ → ℕ) (w : World Ch Tm) (i : ℕ) (reason : String) (u : World Ch Tm)
      : Type 0 where
    pub inv : Inv env.channels owner u
    pub fewer : opens u ≤ opens w
    pub effect : Effect env.channels w u
    pub not_open : open_at u i ≡ false
    pub reason_set : open_at w i ≡ true → reason_at u i ≡ some reason
    pub only : (d : ℕ) → open_at w d ≡ true → open_at u d ≡ false → Below w i d

  abbrev pub Closes : (ℕ → ℕ) → World Ch Tm → ℕ → String → Run (World Ch Tm) → Type 0
  Closes owner w i reason r = (u : World Ch Tm) × (r ≡ returns u) × Closed owner w i reason u

  pub record AllClosed (owner : ℕ → ℕ) (w : World Ch Tm) (cs : List ℕ) (u : World Ch Tm)
      : Type 0 where
    pub inv : Inv env.channels owner u
    pub fewer : opens u ≤ opens w
    pub effect : Effect env.channels w u
    pub not_open : (c : ℕ) → has c cs ≡ true → open_at u c ≡ false
    pub only :
        (d : ℕ)
        → open_at w d ≡ true
        → open_at u d ≡ false
        → (c : ℕ) × (has c cs ≡ true) × Below w c d

  abbrev pub CloseCall : (ℕ → ℕ) → ℕ → (ℕ → String → World Ch Tm → Run (World Ch Tm)) → Type 0
  CloseCall owner fuel call =
      (c : ℕ) (reason : String) (w : World Ch Tm)
      → Inv env.channels owner w
      → opens w < fuel
      → Closes owner w c reason (call c reason w)

  pub close_children-AllClosed :
      (owner : ℕ → ℕ) (fuel : ℕ) (call : ℕ → String → World Ch Tm → Run (World Ch Tm))
      → CloseCall owner fuel call
      → (cs : List ℕ) (reason : String) (w : World Ch Tm) → Inv env.channels owner w
      → opens w < fuel
      → (u : World Ch Tm) × (close_children env call cs reason w ≡ returns u)
        × AllClosed owner w cs u
  unfolding close_children
  close_children-AllClosed owner fuel call ok [] reason w v h = (
    w,
    refl,
    record {
      inv = v;
      fewer = omega arith;
      effect = Effect-refl env.channels w;
      not_open = λ c m. cc;
      only = λ d p q. cc;
    },
  )
  close_children-AllClosed owner fuel call ok (c ∷ cs) reason w v h =
      let (u, e, k) = ok c reason w v h in
      let reason' = if open_at w c then env.moved reason else reason in
      let (x, ex, kx) =
        close_children-AllClosed owner fuel call ok cs reason' u k.inv (omega (arith, k.fewer)) in
      (
        x,
        rw e ex,
        record {
          inv = kx.inv;
          fewer = omega (arith, k.fewer, kx.fewer);
          effect = Effect-trans env.channels k.effect kx.effect;
          not_open = λ d m. elim (Bool-cases (c == d)) [
            | inl q ↦
                subst (λ k. open_at x k ≡ false) ((==_iff c d).0 q) (kx.effect.stays c k.not_open)
            | inr q ↦ kx.not_open d (ground arith)
          ];
          only = λ d p q. elim (Bool-cases (open_at u d)) [
            | inl y ↦
                let (c', m, b) = kx.only d y q in
                (c', ground arith, Below-mono w u c' k.effect.children_sub b)
            | inr y ↦ (c, ground arith, k.only d p y)
          ];
        },
      )

  close_open-Closes :
      (owner : ℕ → ℕ) (fuel : ℕ) (call : ℕ → String → World Ch Tm → Run (World Ch Tm))
      → CloseCall owner fuel call
      → (i : ℕ) (n : Node Tm) (t : Bool) (reason : String) (w : World Ch Tm)
      → get_elem? w.nodes i ≡ some n
      → n.closed ≡ false
      → Inv env.channels owner w
      → opens w < suc fuel
      → Closes owner w i reason (close_open env call i n t reason w)
  unfolding close_open
  close_open-Closes owner fuel call ok i n t reason w found o v h =
      let r = close_self env n w.chans t reason in
      let s = self-Shut env owner w i n found o v t reason n.parent in
      let (u, e, k) =
        close_children-AllClosed owner fuel call ok n.children r.node.close_reason _ s.inv
          (omega (arith, s.fewer)) in
      let shut = shut_closed owner w _ u i n reason found o s k.effect k.not_open in
      (
        u,
        rw ((self_closed env owner w i n found o v t reason).returned) e,
        record {
          inv = k.inv;
          fewer = omega (arith, s.fewer, k.fewer);
          effect = close_Effect owner w _ u i n reason found o s k.effect k.not_open;
          not_open = k.effect.stays i shut;
          reason_set = λ _. k.effect.reasons i shut ∙ s.own_reason;
          only = λ d p q. elim (Bool-cases (i == d)) [
            | inl y ↦ subst (λ x. Below w i x) ((==_iff i d).0 y) itself
            | inr y ↦
                let (c, m, b) = k.only d (ground (arith, s.opened d)) q in
                Below-trans (child c itself (rw found m)) (Below-mono w _ c s.children_sub b)
          ];
        },
      )

  abbrev pub go_on : ℕ → ℕ → Node Tm → Bool → String → World Ch Tm → Run (World Ch Tm)
  go_on fuel i n t reason w = close_open env (λ c. close env fuel c t) i n t reason w

  pub close_unfold :
      (fuel i : ℕ) (n : Node Tm) (t : Bool) (reason : String) (w : World Ch Tm) (b : Bool)
      → get_elem? w.nodes i ≡ some n
      → n.closed ≡ b
      → close env (suc fuel) i t reason w ≡ (if b then returns w else go_on fuel i n t reason w)
  unfolding close
  close_unfold fuel i n t reason w b e c =
      rw (e, close) (ap (λ x. if x then returns w else go_on fuel i n t reason w) c)

  already :
      (owner : ℕ → ℕ) (i : ℕ) (reason : String) (w : World Ch Tm)
      → Inv env.channels owner w
      → open_at w i ≡ false
      → Closed owner w i reason w
  already owner i reason w v h = record {
    inv = v;
    fewer = omega arith;
    effect = Effect-refl env.channels w;
    not_open = h;
    reason_set = λ p. absurd (false≢true (sym h ∙ p));
    only = λ d p q. absurd (false≢true (sym q ∙ p));
  }

  -- Between an invariant-keeping call and its result: it returns, it closes the signal, it leaves the
  -- invariant, and what it changes is an `Effect`.
  pub close-Closes :
      (owner : ℕ → ℕ) (fuel i : ℕ) (t : Bool) (reason : String) (w : World Ch Tm)
      → Inv env.channels owner w
      → opens w < fuel
      → Closes owner w i reason (close env fuel i t reason w)
  unfolding close
  close-Closes owner zero i t reason w v h = elim h [ ]
  close-Closes owner (suc fuel) i t reason w v h = elim (Option-cases (get_elem? w.nodes i)) [
    | inl e ↦ rw (e, close) (w, refl, already owner i reason w v (rw e refl))
    | inr (n, e) ↦ elim (Bool-cases n.closed) [
      | inl c ↦ (
        w,
        close_unfold fuel i n t reason w true e c,
        already owner i reason w v (rw e (ap not c)),
      )
      | inr o ↦
          let (u, q, k) =
            close_open-Closes owner fuel (λ c. close env fuel c t)
              (λ c reason x. close-Closes owner fuel c t reason x) i n t reason w e o v h in
          (u, close_unfold fuel i n t reason w false e o ∙ q, k)
    ]
  ]
