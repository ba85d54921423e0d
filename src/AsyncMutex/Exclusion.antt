-- ===== src/AsyncMutex/Exclusion.antt =====
-- src/async.cpp, `AsyncMutex`: at most one call holds it, and no call waits for nothing.
use conference_go_client.Common.{
  if_lem, suc, ==_iff, ℕ, ◌==◌, ◌≡◌, ◌≤◌, ◌≢◌, refl, sym, subst, ap, ◌∙◌, Bool, true, false,
  false≢true, not, ◌||◌, List, [], ◌∷◌, ◌++◌, length, has, has-append, has-keep_other, has-keep_sub,
  if◌then◌else◌, arith, Bool-cases, inl, inr,
}
use conference_go_client.AsyncMutex.{
  AsyncMutex, World, Step, enters, wakes, cancels, releases, Reach, start, next, attempt, release,
  take_one, read_chan, without, settle,
}

pub record Inv (w : World) : Type 0 where
  pub held : length w.holders ≡ (if w.mutex.busy then 1 else 0)
  pub registered : (ch : ℕ) → has ch w.waiting ≡ true → has ch w.mutex.busy_chans ≡ true
  pub notified :
      w.mutex.busy ≡ false → (ch : ℕ) → has ch w.waiting ≡ true → has ch w.mutex.writes ≡ true

attempt-free :
    (ch : ℕ) (added : Bool) (m : AsyncMutex)
    → m.busy ≡ false
    → attempt ch added m ≡ (
      record m {
        busy = true;
        busy_chans = if added then without ch m.busy_chans else m.busy_chans;
      },
      true,
    )
unfolding attempt
attempt-free ch added m e = cc e

attempt-busy :
    (ch : ℕ) (added : Bool) (m : AsyncMutex)
    → m.busy ≡ true
    → attempt ch added m
      ≡ (record m { busy_chans = if added then m.busy_chans else m.busy_chans ++ ch ∷ [] }, false)
unfolding attempt
attempt-busy ch added m e = cc e

has-without : (ch c : ℕ) (cs : List ℕ) → has c (without ch cs) ≡ true → c ≢ ch
has-without ch c (x ∷ cs) e eq = ground (arith, e, eq, has-without ch c cs)
has-without ch c [] e eq = false≢true e

-- A channel of the list, or the new one at its end.
listed :
    (ch c : ℕ) (added : Bool) (cs ws : List ℕ)
    → (has ch cs || not added) ≡ true
    → (has c ws ≡ true → has c cs ≡ true)
    → has c (ch ∷ without ch ws) ≡ true
    → has c (if added then cs else cs ++ ch ∷ []) ≡ true
listed ch c added cs ws known old h = elim (Bool-cases (ch == c)) [
  | inl e ↦
      subst (λ d. has d (if added then cs else cs ++ ch ∷ []) ≡ true) ((==_iff ch c).0 e)
        (own added known)
  | inr e ↦
      let kept : has c (without ch ws) ≡ true = ground (arith, e, h) in
      let before = old (has-keep_sub (λ x. not (x == ch)) c ws kept) in
      if_lem (λ xs. has c xs ≡ true) added cs (cs ++ ch ∷ []) (λ _. before)
        (λ _. ground (arith, before, has-append c cs (ch ∷ [])))
]
  where
    own : (b : Bool) → (has ch cs || not b) ≡ true → has ch (if b then cs else cs ++ ch ∷ []) ≡ true
    own true k = ground (arith, k)
    own false k = ground (arith, has-append ch cs (ch ∷ []))

-- A round of the loop, whatever reads of channels came before it.
settle-Inv :
    (ch : ℕ) (added : Bool) (ws : List ℕ) (w : World)
    → (has ch w.mutex.busy_chans || not added) ≡ true
    → Inv w
    → Inv (settle ch w (attempt ch added (record (w.mutex) { writes = ws })))
settle-Inv ch added ws w known i =
    let m : AsyncMutex = record (w.mutex) { writes = ws } in
    let cs = w.mutex.busy_chans in
    elim (Bool-cases w.mutex.busy) [
      | inl e ↦
          subst (λ r. Inv (settle ch w r)) (sym (attempt-busy ch added m e))
            (record {
              held = i.held;
              registered = λ c h. listed ch c added cs w.waiting known (i.registered c) h;
              notified = λ f. absurd (false≢true (sym f ∙ e));
            })
      | inr e ↦
          subst (λ r. Inv (settle ch w r)) (sym (attempt-free ch added m e))
            (record {
              held = ap suc (i.held ∙ ap (λ (b : Bool). if b then 1 else 0) e);
              registered = λ c h.
                  let old = i.registered c (has-keep_sub (λ x. not (x == ch)) c w.waiting h) in
                  if_lem (λ xs. has c xs ≡ true) added (without ch cs) cs
                    (λ _. has-keep_other ch c cs (λ q. has-without ch c w.waiting h (sym q)) old)
                    (λ _. old);
              notified = λ f. absurd (false≢true (sym f));
            })
    ]

release-Inv :
    (ch : ℕ) (hs : List ℕ) (w : World)
    → w.holders ≡ ch ∷ hs
    → Inv w
    → Inv (record w { mutex = release w.mutex; holders = hs })
unfolding release
release-Inv ch hs w e i = record {
  held = omega (
    arith,
    ap length e,
    i.held,
    if_lem (λ n. n ≤ 1) w.mutex.busy 1 0 (λ _. omega arith) (λ _. omega arith),
  );
  registered = i.registered;
  notified =
      λ _ c h. ground (arith, i.registered c h, has-append c w.mutex.writes w.mutex.busy_chans);
}

cancel-Inv : (ch : ℕ) (w : World) → Inv w → Inv (record w { waiting = without ch w.waiting })
cancel-Inv ch w i =
    let old : (c : ℕ) → has c (without ch w.waiting) ≡ true → has c w.waiting ≡ true =
      λ c h. has-keep_sub (λ x. not (x == ch)) c w.waiting h in
    record {
      held = i.held;
      registered = λ c h. i.registered c (old c h);
      notified = λ f c h. i.notified f c (old c h);
    }

step-Inv : (v w : World) → Step v w → Inv v → Inv w
step-Inv _ _ (enters ch v new) i = settle-Inv ch false v.mutex.writes v (ground arith) i
step-Inv _ _ (wakes ch v waits written) i =
    settle-Inv ch true (take_one ch v.mutex.writes) v (ground (arith, i.registered ch waits)) i
step-Inv _ _ (cancels ch v waits) i = cancel-Inv ch v i
step-Inv _ _ (releases ch hs v e) i = release-Inv ch hs v e i

Reach-Inv : (w : World) → Reach w → Inv w
Reach-Inv _ start = record { held = refl; registered = λ c h. h; notified = λ _ c h. h }
Reach-Inv _ (next v w r s) = step-Inv v w s (Reach-Inv v r)

-- In every reachable state the mutex is held by one call if it is busy, and by none if it is not, where
-- only a holder releases it.
pub holders-length : (w : World) → Reach w → length w.holders ≡ (if w.mutex.busy then 1 else 0)
holders-length w r = (Reach-Inv w r).held

-- In a reachable state where the mutex is free, every call that waits has a write to its channel to
-- read, and takes the mutex if it is the next to go on.
pub waiting-writes :
    (w : World) (ch : ℕ)
    → Reach w
    → w.mutex.busy ≡ false
    → has ch w.waiting ≡ true
    → (has ch w.mutex.writes ≡ true)
      × ((settle ch w (attempt ch true (read_chan ch w.mutex))).holders ≡ ch ∷ w.holders)
waiting-writes w ch r free waits = (
  (Reach-Inv w r).notified free ch waits,
  ap (λ a. (settle ch w a).holders) (attempt-free ch true (read_chan ch w.mutex) free),
)

-- A call that is cancelled while it waits leaves its channel in the list of the mutex: from then on a
-- release writes to the channel, which nobody reads.
canceled-busy_chans :
    (w : World) (ch : ℕ)
    → Reach w
    → has ch w.waiting ≡ true
    → (let v = record w { waiting = without ch w.waiting } in
        (has ch v.waiting ≡ false)
        × (has ch (release v.mutex).busy_chans ≡ true)
        × (has ch (release v.mutex).writes ≡ true))
unfolding release
canceled-busy_chans w ch r waits =
    let listed = (Reach-Inv w r).registered ch waits in
    (
      elim (Bool-cases (has ch (without ch w.waiting))) [
        | inl e ↦ absurd (has-without ch ch w.waiting e refl)
        | inr e ↦ e
      ],
      listed,
      ground (arith, listed, has-append ch w.mutex.writes w.mutex.busy_chans),
    )
