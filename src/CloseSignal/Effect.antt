-- ===== src/CloseSignal/Effect.antt =====
-- src/async.cpp: what a call of `close` may change in a tree of close signals, as a relation between
-- the worlds before and after, and the invariant of a world.
use Prim.Native.String.{String}
use conference_go_client.Common.{
  ℕ, suc, ◌+◌, ◌≡◌, ◌<◌, ◌∙◌, sym, subst, refl, true, false, not, inl, inr, Option, none, some,
  List, [], ◌++◌, get_elem?, count, has, All, Bool-cases,
}
use conference_go_client.Channel.{Channels}
use conference_go_client.CloseSignal.Node.{Node}
use conference_go_client.CloseSignal.Tree.{World, open_at}
use conference_go_client.CloseSignal.Waking.{Waits}

module _ {Tm : Type 0} where
  abbrev pub children_of : Option (Node Tm) → List ℕ
  children_of none = []
  children_of (some n) = n.children

  -- Everybody who waits for a signal, to be closed or to be resumed.
  abbrev pub pending_of : Option (Node Tm) → List ℕ
  pending_of none = []
  pending_of (some n) = n.waiters ++ n.stop_waiters

  abbrev pub reason_of : Option (Node Tm) → Option String
  reason_of none = none
  reason_of (some n) = some n.close_reason

module _ {Ch Tm : Type 0} where
  abbrev pub reason_at : World Ch Tm → ℕ → Option String
  reason_at w i = reason_of (get_elem? w.nodes i)

  abbrev pub children_at : World Ch Tm → ℕ → List ℕ
  children_at w i = children_of (get_elem? w.nodes i)

  abbrev pub pending_at : World Ch Tm → ℕ → List ℕ
  pending_at w i = pending_of (get_elem? w.nodes i)

  -- The number of open signals.
  abbrev pub opens : World Ch Tm → ℕ
  opens w = count (λ n. not n.closed) w.nodes

module _ {Ch Tm : Type 0} (channels : Channels Ch) where
  pub record Effect (w u : World Ch Tm) : Type 0 where
    pub stays : (i : ℕ) → open_at w i ≡ false → open_at u i ≡ false
    pub keeps_pending : (i : ℕ) → open_at u i ≡ true → pending_at u i ≡ pending_at w i
    pub keeps_children :
        (i c : ℕ)
        → open_at u i ≡ true
        → open_at u c ≡ true
        → has c (children_at w i) ≡ true
        → has c (children_at u i) ≡ true
    pub children_sub : (i c : ℕ) → has c (children_at u i) ≡ true → has c (children_at w i) ≡ true
    pub reasons : (i : ℕ) → open_at w i ≡ false → reason_at u i ≡ reason_at w i
    pub closes_children :
        (i c : ℕ)
        → open_at w i ≡ true
        → open_at u i ≡ false
        → has c (children_at w i) ≡ true
        → open_at u c ≡ false
    pub wakes :
        (i c : ℕ)
        → open_at w i ≡ true
        → open_at u i ≡ false
        → has c (pending_at w i) ≡ true
        → channels.full (u.chans c) ≡ true
    pub stay_full : (c : ℕ) → channels.full (w.chans c) ≡ true → channels.full (u.chans c) ≡ true

  pub Effect-refl : (w : World Ch Tm) → Effect w w
  Effect-refl w = record {
    stays = λ i h. h;
    keeps_pending = λ i h. refl;
    keeps_children = λ i c h g m. m;
    children_sub = λ i c m. m;
    reasons = λ i h. refl;
    closes_children = λ i c h g m. cc;
    wakes = λ i c h g m. cc;
    stay_full = λ c h. h;
  }

  -- What is open after both was open in between.
  pub open_before :
      {w u : World Ch Tm} (i : ℕ) → Effect w u → open_at u i ≡ true → open_at w i ≡ true
  open_before {w} i e h = elim (Bool-cases (open_at w i)) [
    | inl p ↦ p
    | inr q ↦ let r = e.stays i q in cc
  ]

  pub Effect-trans : {w u v : World Ch Tm} → Effect w u → Effect u v → Effect w v
  Effect-trans {w} {u} {v} e f = record {
    stays = λ i h. f.stays i (e.stays i h);
    keeps_pending = λ i h. f.keeps_pending i h ∙ e.keeps_pending i (open_before i f h);
    keeps_children = λ i c h g m.
        f.keeps_children i c h g (e.keeps_children i c (open_before i f h) (open_before c f g) m);
    children_sub = λ i c m. e.children_sub i c (f.children_sub i c m);
    reasons = λ i h. f.reasons i (e.stays i h) ∙ e.reasons i h;
    closes_children = λ i c h g m. elim (Bool-cases (open_at u i)) [
      | inl p ↦ elim (Bool-cases (open_at u c)) [
        | inl q ↦ f.closes_children i c p g (e.keeps_children i c p q m)
        | inr q ↦ f.stays c q
      ]
      | inr p ↦ f.stays c (e.closes_children i c h p m)
    ];
    wakes = λ i c h g m. elim (Bool-cases (open_at u i)) [
      | inl p ↦ f.wakes i c p g (subst (λ l. has c l ≡ true) (sym (e.keeps_pending i p)) m)
      | inr p ↦ f.stay_full c (e.wakes i c h p m)
    ];
    stay_full = λ c h. f.stay_full c (e.stay_full c h);
  }

  -- A state object `i` in the store: its waiters are empty channels that nobody else waits on (the
  -- ghost `owner` tells whose they are), and once it is closed it has neither waiters nor children.
  pub record NodeOk (owner : ℕ → ℕ) (w : World Ch Tm) (i : ℕ) (n : Node Tm) : Type 0 where
    pub waits : Waits channels w.chans n.waiters
    pub stop_waits : Waits channels w.chans n.stop_waiters
    pub owned : All (λ c. owner c ≡ i + i) n.waiters
    pub stop_owned : All (λ c. owner c ≡ suc (i + i)) n.stop_waiters
    pub issued : All (λ c. c < w.next_chan) (n.waiters ++ n.stop_waiters)
    pub no_waiters : n.closed ≡ true → n.waiters ≡ []
    pub no_stop_waiters : n.closed ≡ true → n.stop_waiters ≡ []
    pub no_children : n.closed ≡ true → n.children ≡ []

  abbrev pub Inv : (ℕ → ℕ) → World Ch Tm → Type 0
  Inv owner w = (i : ℕ) (n : Node Tm) → get_elem? w.nodes i ≡ some n → NodeOk owner w i n
