-- ===== src/CloseSignal/Waking.antt =====
-- src/async.cpp: the loops that wake the waiters of a close signal write to every waiter, fail on
-- none, and touch no other channel.
use conference_go_client.Common.{ℕ, ◌≡◌, refl, true, false, List, [], ◌∷◌, arith, has}
use conference_go_client.Channel.{Channels}
use conference_go_client.CloseSignal.Node.{update, drain}

-- The channels of a list of waiters: all empty, each one listed once.
abbrev pub Waits : {Ch : Type 0} → Channels Ch → (ℕ → Ch) → List ℕ → Type 0
Waits channels chans [] = Unit {0}
Waits channels chans (c ∷ cs) =
    (channels.full (chans c) ≡ false) × (has c cs ≡ false) × Waits channels chans cs

module _ {Ch : Type 0} (channels : Channels Ch) where
  pub Waits-frame :
      (f g : ℕ → Ch) (cs : List ℕ)
      → ((c : ℕ) → has c cs ≡ true → g c ≡ f c)
      → Waits channels f cs
      → Waits channels g cs
  Waits-frame f g [] same w = tt
  Waits-frame f g (c ∷ cs) same w =
      (ground (arith, same c), w.1, Waits-frame f g cs (λ d h. same d (ground arith)) w.2)

  pub record Drained (f : ℕ → Ch) (cs : List ℕ) (r : (ℕ → Ch) × List ℕ) : Type 0 where
    pub none_left : r.1 ≡ []
    pub others : (c : ℕ) → has c cs ≡ false → r.0 c ≡ f c
    pub woken : (c : ℕ) → has c cs ≡ true → channels.full (r.0 c) ≡ true
    pub stay_full : (c : ℕ) → channels.full (f c) ≡ true → channels.full (r.0 c) ≡ true

  pub drain-Drained :
      (f : ℕ → Ch) (cs : List ℕ) → Waits channels f cs → Drained f cs (drain channels f cs)
  unfolding drain
  drain-Drained f [] w = record {
    none_left = refl;
    others = λ c h. refl;
    woken = λ c h. cc;
    stay_full = λ c h. h;
  }
  drain-Drained f (c ∷ cs) w =
      let g = update f c (channels.try_write (f c)).0 in
      let ok : (channels.try_write (f c)).1 ≡ true = rw (channels.write_accepts (f c), w.0) in
      let ih : Drained g cs (drain channels g cs) =
        drain-Drained g cs (Waits-frame f g cs (λ d h. ground arith) w.2) in
      rw ok (record {
        none_left = ih.none_left;
        others = λ d h. ground (arith, ih.others d);
        woken = λ d h. ground (arith, ih.woken d, ih.others d, channels.write_fills (f c));
        stay_full = λ d h. ground (arith, ih.stay_full d, channels.write_fills (f c));
      })
