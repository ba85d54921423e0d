-- ===== src/CloseSignal/Reasons.antt =====
-- src/async.cpp: which reason each signal of a closed tree reports.
use Prim.Native.String.{String}
use conference_go_client.Common.{
  ℕ, zero, suc, ◌≡◌, ◌≢◌, ◌<◌, ◌∙◌, sym, subst, Bool, true, false, inl, inr, some, List, ◌∷◌, arith,
  get_elem?, Bool-cases,
}
use conference_go_client.CloseSignal.Node.{Node, Platform, close_self}
use conference_go_client.CloseSignal.Tree.{
  World, returns, open_at, put, leave_parent, close_children, close_open, close,
}
use conference_go_client.CloseSignal.Effect.{reason_at, opens, Inv}
use conference_go_client.CloseSignal.Shutting.{bare, self_closed, self-Shut}
use conference_go_client.CloseSignal.Closing.{
  Below, Below-mono, close_children-AllClosed, close_unfold, close-Closes,
}

module _ {Ch Tm : Type 0} (env : Platform Ch Tm) where
  -- The loop over the children gives its reason to the first one that is open.
  close_children_reasons :
      (owner : ℕ → ℕ) (fuel a b : ℕ) (cs : List ℕ) (t : Bool) (reason : String) (w : World Ch Tm)
      → Inv env.channels owner w
      → opens w < fuel
      → open_at w a ≡ true
      → open_at w b ≡ true
      → ¬ Below w a b
      → (u : World Ch Tm) × (close_children env (λ c. close env fuel c t) (a ∷ b ∷ cs) reason w
          ≡ returns u)
        × ((j : ℕ) → open_at w j ≡ false → reason_at u j ≡ reason_at w j)
        × (reason_at u a ≡ some reason)
        × (reason_at u b ≡ some (env.moved reason))
  unfolding close_children
  close_children_reasons owner fuel a b cs t reason w v h pa pb nb =
      let (x, ex, kx) = close-Closes env owner fuel a t reason w v h in
      let xb : open_at x b ≡ true = elim (Bool-cases (open_at x b)) [
        | inl p ↦ p
        | inr p ↦ absurd (nb (kx.only b pb p))
      ] in
      let (y, ey, ky) =
        close-Closes env owner fuel b t (env.moved reason) x kx.inv (omega (arith, kx.fewer)) in
      let (z, ez, kz) =
        close_children-AllClosed env owner fuel (λ c. close env fuel c t)
          (λ c ρ w. close-Closes env owner fuel c t ρ w) cs (env.moved (env.moved reason)) y ky.inv
          (omega (arith, kx.fewer, ky.fewer)) in
      let xa = kx.effect.stays in
      (
        z,
        rw (pa, ex, xb, ey) ez,
        λ j p.
            kz.effect.reasons j (ky.effect.stays j (kx.effect.stays j p))
            ∙ ky.effect.reasons j (kx.effect.stays j p)
            ∙ kx.effect.reasons j p,
        kz.effect.reasons a (ky.effect.stays a kx.not_open)
            ∙ ky.effect.reasons a kx.not_open
            ∙ kx.reason_set pa,
        kz.effect.reasons b ky.not_open ∙ ky.reason_set xb,
      )

  -- Where `close` meets an open signal with at least two open children, the second not below the
  -- first: the signal and its first child report the reason that was given, and the second child
  -- reports what a string holds after it was moved from.
  pub close_reason_lost :
      (owner : ℕ → ℕ) (fuel i a b : ℕ) (cs : List ℕ) (n : Node Tm) (t : Bool) (reason : String)
      (w : World Ch Tm)
      → Inv env.channels owner w
      → opens w < fuel
      → get_elem? w.nodes i ≡ some n
      → n.closed ≡ false
      → n.children ≡ a ∷ b ∷ cs
      → i ≢ a
      → i ≢ b
      → open_at w a ≡ true
      → open_at w b ≡ true
      → ¬ Below w a b
      → (u : World Ch Tm) × (close env fuel i t reason w ≡ returns u)
        × (reason_at u i ≡ some reason)
        × (reason_at u a ≡ some reason)
        × (reason_at u b ≡ some (env.moved reason))
  unfolding close_open
  close_reason_lost owner zero i a b cs n t reason w v h found o kids ia ib pa pb nb = elim h [ ]
  close_reason_lost owner (suc fuel) i a b cs n t reason w v h found o kids ia ib pa pb nb =
      let sc = self_closed env owner w i n found o v t reason in
      let s = self-Shut env owner w i n found o v t reason n.parent in
      let r = close_self env n w.chans t reason in
      let x = leave_parent n.parent i (put (record w { chans = r.chans }) i (bare env r.node)) in
      let call = λ (c : ℕ). close env fuel c t in
      let (u, e, same, first, second) =
        close_children_reasons owner fuel a b cs t reason x s.inv (omega (arith, s.fewer))
          (ground (arith, s.opened a)) (ground (arith, s.opened b))
          (λ q. nb (Below-mono w x a s.children_sub q)) in
      let f =
        subst (λ ρ. close_children env call (a ∷ b ∷ cs) ρ x ≡ returns u) (sym sc.reason_kept) e in
      let g =
        subst (λ ks. close_children env call ks r.node.close_reason x ≡ returns u) (sym kids) f in
      (
        u,
        close_unfold env fuel i n t reason w false found o ∙ rw sc.returned g,
        same i (ground (arith, s.opened i)) ∙ s.own_reason,
        first,
        second,
      )
