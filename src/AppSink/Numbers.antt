-- ===== src/AppSink/Numbers.antt =====
-- src/gst/appsink.cpp: the numbers that `on_new_sample` gives.
use conference_go_client.Common.{
  if_lem, u64, u32, sub32, ℕ, suc, ◌+◌, ◌-◌, ◌^◌, ◌≤◌, ◌<◌, ◌==◌, ◌≡◌, refl, sym, subst, ap, ◌∙◌,
  Option, none, some, List, [], ◌∷◌, ◌++◌, map, length, length-append, arith, if◌then◌else◌, ==_iff,
}
use conference_go_client.Channel.{Channels}
use conference_go_client.Buffer.{Buffers, head-some, front, full, head, tail}
use conference_go_client.AppSink.{
  AppSink, Statistics, Callback, makesure_min_seq, renumber, account, callbacks, store,
  on_new_sample,
}

sub32-plus : (d k : ℕ) → d + k < 2 ^ 32 → sub32 (d + k) d ≡ k
sub32-plus d k lt = ground (arith, lt)

module _ {S : Type 0} where
  -- Entries with the numbers from the first one on, without a gap.
  abbrev pub Numbered : ℕ → List (ℕ × S) → Type 0
  Numbered first [] = Unit
  Numbered first (e ∷ es) = (e.0 ≡ first) × Numbered (suc first) es

  -- They end right below the next number.
  abbrev pub EndsAt : ℕ → List (ℕ × S) → Type 0
  EndsAt next es = (first : ℕ) × (first + length es ≡ next) × Numbered first es

  length-tail : (es : List (ℕ × S)) → length (tail es) ≡ length es - 1
  length-tail [] = refl
  length-tail (e ∷ es) = omega arith

  Numbered-snoc :
      (first : ℕ) (es : List (ℕ × S)) (s : S)
      → Numbered first es
      → Numbered first (es ++ (first + length es, s) ∷ [])
  Numbered-snoc first [] s h = (omega arith, tt)
  Numbered-snoc first (e ∷ es) s h = (
    h.0,
    subst (λ n. Numbered (suc first) (es ++ (n, s) ∷ [])) (omega arith)
        (Numbered-snoc (suc first) es s h.1),
  )

  EndsAt-snoc :
      (next : ℕ) (es : List (ℕ × S)) (s : S)
      → EndsAt next es
      → EndsAt (suc next) (es ++ (next, s) ∷ [])
  EndsAt-snoc next es s (first, total, h) = (
    first,
    omega (arith, total, length-append es ((next, s) ∷ [])),
    subst (λ n. Numbered first (es ++ (n, s) ∷ [])) total (Numbered-snoc first es s h),
  )

  pub EndsAt-tail : (next : ℕ) (es : List (ℕ × S)) → EndsAt next es → EndsAt next (tail es)
  EndsAt-tail next [] h = h
  EndsAt-tail next (e ∷ es) (first, total, h) = (suc first, omega (arith, total), h.1)

  abbrev pub lower : ℕ → ℕ × S → ℕ × S
  lower offset v = (sub32 v.0 offset, v.1)

  length-map : (d : ℕ) (es : List (ℕ × S)) → length (map (lower d) es) ≡ length es
  length-map d [] = refl
  length-map d (e ∷ es) = ap suc (length-map d es)

  Numbered-lower :
      (d k : ℕ) (es : List (ℕ × S))
      → d + k + length es < 2 ^ 32
      → Numbered (d + k) es
      → Numbered k (map (lower d) es)
  Numbered-lower d k [] lt h = tt
  Numbered-lower d k (e ∷ es) lt h = (
    ap (λ n. sub32 n d) h.0 ∙ sub32-plus d k (omega (arith, lt)),
    Numbered-lower d (suc k) es (omega (arith, lt)) (subst (λ n. Numbered n es) (omega arith) h.1),
  )

  abbrev offset_of : Option (ℕ × S) → ℕ
  offset_of o = elim o [ none ↦ 2 ^ 32 - 1 | some v ↦ v.0 ]

  lowered :
      (es : List (ℕ × S))
      → EndsAt (2 ^ 32 - 1) es
      → (sub32 (2 ^ 32 - 1) (offset_of (head es)) ≡ length es)
        × EndsAt (length es) (map (lower (offset_of (head es))) es)
  lowered [] h = (refl, (0, refl, tt))
  lowered (e ∷ es) (first, total, h) = (
    ap (λ n. sub32 n e.0) (omega (arith, total, h.0))
        ∙ sub32-plus e.0 (suc (length es)) (omega (arith, total, h.0)),
    (
      0,
      omega (arith, length-map e.0 (e ∷ es)),
      Numbered-lower e.0 0 (e ∷ es) (omega (arith, total, h.0))
          (subst (λ n. Numbered n (e ∷ es)) (omega (arith, h.0)) h),
    ),
  )

module _ {B Ch S : Type 0} (channels : Channels Ch) (buffers : Buffers B (ℕ × S)) where
  pub record Inv (a : AppSink B Ch) : Type 0 where
    pub numbered : EndsAt a.seq (buffers.contents a.cache)
    pub within : length (buffers.contents a.cache) ≤ buffers.capacity a.cache
    pub room : 0 < buffers.capacity a.cache
    pub small : buffers.capacity a.cache < 2 ^ 32 - 1
    pub fits : a.seq < 2 ^ 32

  renumbered-Inv :
      (a : AppSink B Ch)
      → Inv a
      → a.seq ≡ 2 ^ 32 - 1
      → (let offset = makesure_min_seq channels buffers a in
          let b = record a {
            cache = buffers.for_each (lower offset) a.cache;
            seq = sub32 a.seq offset;
          } in
          Inv b × (b.seq < 2 ^ 32 - 1))
  renumbered-Inv a i e =
      let es = buffers.contents a.cache in
      let offset = makesure_min_seq channels buffers a in
      let cache = buffers.for_each (lower offset) a.cache in
      let l = lowered es (subst (λ n. EndsAt n es) e i.numbered) in
      let each : buffers.contents cache ≡ map (lower offset) es =
        buffers.each_contents (lower offset) a.cache in
      let same : buffers.capacity cache ≡ buffers.capacity a.cache =
        buffers.each_capacity (lower offset) a.cache in
      let size : length (buffers.contents cache) ≡ length es =
        ap length each ∙ length-map offset es in
      let next : sub32 a.seq offset ≡ length es = ap (λ n. sub32 n offset) e ∙ l.0 in
      (
        record {
          numbered =
              subst (λ n. EndsAt n (buffers.contents cache)) (sym next)
                (subst (EndsAt (length es)) (sym each) l.1);
          within = omega (arith, size, same, i.within);
          room = omega (arith, same, i.room);
          small = omega (arith, same, i.small);
          fits = omega (arith, next, i.within, i.small);
        },
        omega (arith, next, i.within, i.small),
      )

  pub renumber-Inv :
      (a : AppSink B Ch)
      → Inv a
      → Inv (renumber channels buffers a) × ((renumber channels buffers a).seq < 2 ^ 32 - 1)
  unfolding renumber
  renumber-Inv a i =
      let offset = makesure_min_seq channels buffers a in
      let b = record a {
        cache = buffers.for_each (lower offset) a.cache;
        seq = sub32 a.seq offset;
      } in
      if_lem (λ b. Inv b × (b.seq < 2 ^ 32 - 1)) (a.seq == 2 ^ 32 - 1) b a
        (λ e. renumbered-Inv a i ((==_iff a.seq (2 ^ 32 - 1)).0 e))
        (λ e. (i, ground (arith, e, i.fits)))

  -- What a full cache keeps when a sample comes.
  abbrev pub kept : B → List (ℕ × S)
  kept b = if full buffers b then tail (buffers.contents b) else buffers.contents b

  kept-EndsAt : (next : ℕ) (b : B) → EndsAt next (buffers.contents b) → EndsAt next (kept b)
  kept-EndsAt next b h =
      let es = buffers.contents b in
      if_lem (EndsAt next) (full buffers b) (tail es) es (λ _. EndsAt-tail next es h) (λ _. h)

  kept_fits :
      (b : B)
      → 0 < buffers.capacity b
      → length (buffers.contents b) ≤ buffers.capacity b
      → length (kept b) < buffers.capacity b
  kept_fits b room within =
      let es = buffers.contents b in
      if_lem (λ xs. length xs < buffers.capacity b) (full buffers b) (tail es) es
        (λ e. omega (arith, length-tail es, room, within)) (λ e. ground (arith, e, within))

  pub store-Inv :
      (s : S) (st : Statistics) (a : AppSink B Ch)
      → Inv a
      → a.seq < 2 ^ 32 - 1
      → Inv (store channels buffers s st a)
  store-Inv s st a i lt =
      let b = a.cache in
      let cache = buffers.push_back (a.seq, s) b in
      let push : buffers.contents cache ≡ kept b ++ (a.seq, s) ∷ [] =
        buffers.push_contents (a.seq, s) b i.room in
      let same : buffers.capacity cache ≡ buffers.capacity b = buffers.push_capacity (a.seq, s) b in
      let next : u32 (a.seq + 1) ≡ suc a.seq = ground (arith, lt) in
      let size : length (buffers.contents cache) ≡ suc (length (kept b)) =
        ap length push ∙ omega (arith, length-append (kept b) ((a.seq, s) ∷ [])) in
      record {
        numbered =
            subst (λ n. EndsAt n (buffers.contents cache)) (sym next)
              (subst (EndsAt (suc a.seq)) (sym push)
                (EndsAt-snoc a.seq (kept b) s (kept-EndsAt a.seq b i.numbered)));
        within = omega (arith, size, same, kept_fits b i.room i.within);
        room = omega (arith, same, i.room);
        small = omega (arith, same, i.small);
        fits = omega (arith, next, lt);
      }

  pub account_returns :
      (size : S → ℕ) (s : S) (b : B) (st : Statistics)
      → 0 < buffers.capacity b
      → (st' : Statistics) × (account channels buffers size s b st ≡ some st')
  unfolding account
  account_returns size s b st room =
      let received = record st {
        received_bytes = u64 (st.received_bytes + size s);
        received_samples = u32 (st.received_samples + 1);
      } in
      let with_drop : ℕ × S → Statistics = λ v. record received {
        droped_bytes = u64 (st.droped_bytes + size v.1);
        droped_samples = u32 (st.droped_samples + 1);
      } in
      let dropped : Option (ℕ × S) → Option Statistics =
        λ o. elim o [ none ↦ none | some v ↦ some (with_drop v) ] in
      let Returns : Option Statistics → Type 0 = λ o. (st' : Statistics) × (o ≡ some st') in
      if_lem Returns (full buffers b) (dropped (front buffers b)) (some received)
        (λ e.
          let f = head-some (buffers.contents b) (
            omega (arith, (==_iff (length (buffers.contents b)) (buffers.capacity b)).0 e, room)) in
          subst (λ o. Returns (dropped o)) (sym f.1) (with_drop f.0, refl))
        (λ _. (received, refl))

  pub on_new_sample-some :
      (size : S → ℕ) (s : S) (st : Statistics) (a : AppSink B Ch)
      → (let t = renumber channels buffers a in
          account channels buffers size s t.cache t.stat ≡ some st
          → on_new_sample channels buffers size (some s) a
            ≡ some (store channels buffers s st t, callbacks channels buffers t s st))
  unfolding on_new_sample
  on_new_sample-some size s st a e = cc e

  -- A cache with room for at least one sample and fewer than 2 ^ 32 - 1, which holds the samples with
  -- the numbers up to the next one, without a gap: `on_new_sample` never takes the front of an empty
  -- cache, and leaves such a cache.
  on_new_sample-Inv :
      (size : S → ℕ) (o : Option S) (a : AppSink B Ch)
      → Inv a
      → (r : AppSink B Ch × List (Callback S)) × (on_new_sample channels buffers size o a ≡ some r)
        × Inv r.0
  unfolding on_new_sample
  on_new_sample-Inv size none a i = ((renumber channels buffers a, []), refl, (renumber-Inv a i).0)
  on_new_sample-Inv size (some s) a i =
      let t = renumber channels buffers a in
      let j = renumber-Inv a i in
      let d = account_returns size s t.cache t.stat j.0.room in
      (
        (store channels buffers s d.0 t, callbacks channels buffers t s d.0),
        on_new_sample-some size s d.0 a d.1,
        store-Inv s d.0 t j.0 j.1,
      )
