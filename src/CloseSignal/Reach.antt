-- ===== src/CloseSignal/Reach.antt =====
-- src/async.cpp: what `close` does to the signals at or below the one that is closed, and to the rest.
use Prim.Native.String.{String}
use conference_go_client.Common.{
  ℕ, ◌≡◌, ◌<◌, Bool, true, false, inl, inr, arith, get_elem?, has, has-All, All, Bool-cases,
  Option-cases,
}
use conference_go_client.CloseSignal.Node.{Platform}
use conference_go_client.CloseSignal.Tree.{World, returns, open_at, close}
use conference_go_client.CloseSignal.Effect.{children_at, pending_at, opens, Effect, Inv}
use conference_go_client.CloseSignal.Closing.{Below, itself, child, close-Closes}

module _ {Ch Tm : Type 0} (env : Platform Ch Tm) where
  no_children_left :
      (owner : ℕ → ℕ) (w : World Ch Tm) (j c : ℕ)
      → Inv env.channels owner w
      → open_at w j ≡ false
      → has c (children_at w j) ≡ true
      → ⊥
  no_children_left owner w j c v p m = elim (Option-cases (get_elem? w.nodes j)) [
    | inl e ↦ let f = rw e at m in cc
    | inr (n, e) ↦
        let f = (v j n e).no_children (let g = rw e at p in ground arith) in
        let k = rw e at m in ground arith
  ]

  none_pending_left :
      (owner : ℕ → ℕ) (w : World Ch Tm) (j c : ℕ)
      → Inv env.channels owner w
      → open_at w j ≡ false
      → has c (pending_at w j) ≡ true
      → ⊥
  none_pending_left owner w j c v p m = elim (Option-cases (get_elem? w.nodes j)) [
    | inl e ↦ let f = rw e at m in cc
    | inr (n, e) ↦
        let closed : n.closed ≡ true = let g = rw e at p in ground arith in
        let f = (v j n e).no_waiters closed in
        let f' = (v j n e).no_stop_waiters closed in let k = rw e at m in ground arith
  ]

  Below-closed :
      (owner : ℕ → ℕ) (w u : World Ch Tm) (i : ℕ)
      → Inv env.channels owner w
      → Effect env.channels w u
      → open_at u i ≡ false
      → {d : ℕ} → Below w i d
      → open_at u d ≡ false
  Below-closed owner w u i v e h itself = h
  Below-closed owner w u i v e h (child {j} c b m) = elim (Bool-cases (open_at w j)) [
    | inl p ↦ e.closes_children j c p (Below-closed owner w u i v e h b) m
    | inr p ↦ absurd (no_children_left owner w j c v p m)
  ]

  Below-woken :
      (owner : ℕ → ℕ) (w u : World Ch Tm) (d : ℕ)
      → Inv env.channels owner w
      → Effect env.channels w u
      → open_at u d ≡ false
      → All (λ c. env.channels.full (u.chans c) ≡ true) (pending_at w d)
  Below-woken owner w u d v e h = has-All _ (pending_at w d) λ c m.
      elim (Bool-cases (open_at w d)) [
        | inl p ↦ e.wakes d c p h m
        | inr p ↦ absurd (none_pending_left owner w d c v p m)
      ]

  -- In a world that satisfies the invariant, `close` with more fuel than there are open signals
  -- returns and throws nothing; afterwards no signal at or below `i` is open, everybody who waited
  -- for one of them, to be closed or resumed, has an item in its channel, and the invariant holds.
  pub close_reaches :
      (owner : ℕ → ℕ) (fuel i d : ℕ) (t : Bool) (reason : String) (w : World Ch Tm)
      → Inv env.channels owner w
      → opens w < fuel
      → Below w i d
      → (u : World Ch Tm) × (close env fuel i t reason w ≡ returns u)
        × (open_at u d ≡ false)
        × All (λ c. env.channels.full (u.chans c) ≡ true) (pending_at w d)
        × Inv env.channels owner u
  close_reaches owner fuel i d t reason w v h b =
      let (u, q, k) = close-Closes env owner fuel i t reason w v h in
      let c = Below-closed owner w u i v k.effect k.not_open b in
      (u, q, c, Below-woken owner w u d v k.effect c, k.inv)

  -- In a world that satisfies the invariant, `close` with more fuel than there are open signals
  -- returns, and a signal that is open and not at or below `i` stays open and keeps its waiters.
  pub close_spares :
      (owner : ℕ → ℕ) (fuel i d : ℕ) (t : Bool) (reason : String) (w : World Ch Tm)
      → Inv env.channels owner w
      → opens w < fuel
      → open_at w d ≡ true
      → ¬ Below w i d
      → (u : World Ch Tm) × (close env fuel i t reason w ≡ returns u)
        × (open_at u d ≡ true)
        × (pending_at u d ≡ pending_at w d)
  close_spares owner fuel i d t reason w v h p b =
      let (u, q, k) = close-Closes env owner fuel i t reason w v h in
      let s : open_at u d ≡ true = elim (Bool-cases (open_at u d)) [
        | inl y ↦ y
        | inr y ↦ absurd (b (k.only d p y))
      ] in
      (u, q, s, k.effect.keeps_pending d s)
