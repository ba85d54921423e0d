-- ===== src/Manager/Choice.antt =====
-- src/async_locker.cpp, `lock`: which blockers are asked to block, and which of those that did are let
-- go again because they exceed the batch.
use Prim.Native.Nat.{max, min}
use conference_go_client.Common.{
  eqb_ℤ, ◌&&◌, ℕ, suc, ◌+◌, ◌-◌, ◌==◌, ◌≤◌, ◌≡◌, ltb, ltb_ℤ, Bool, true, List, [], ◌∷◌, arith,
  length, map, count, if◌then◌else◌, All, refl, ◌∙◌,
}
use conference_go_client.Channel.{Channels}
use conference_go_client.Blocker.{request_unblock}
use conference_go_client.Manager.{Info, id_of}

module _ {Ch : Type 0} where
  -- The order of `std::sort`: older epochs first, then higher priorities, then lower ids.
  unfoldable pub precedes : Info Ch → Info Ch → Bool
  precedes a b =
      if a.epoch == b.epoch
      then if eqb_ℤ a.priority b.priority
        then ltb (id_of a) (id_of b)
        else ltb_ℤ b.priority a.priority
      else ltb a.epoch b.epoch

  insert_info : Info Ch → List (Info Ch) → List (Info Ch)
  insert_info a [] = a ∷ []
  insert_info a (b ∷ bs) =
      let later = b ∷ insert_info a bs in if precedes a b then a ∷ b ∷ bs else later

  -- `std::sort`
  unfoldable pub sort : List (Info Ch) → List (Info Ch)
  unfolding insert_info
  sort [] = []
  sort (a ∷ bs) = insert_info a (sort bs)

  -- `std::max_element`, of the epochs.
  unfoldable pub max_epoch : List (Info Ch) → ℕ
  max_epoch [] = 0
  max_epoch (a ∷ bs) = max a.epoch (max_epoch bs)

  -- The loop that gives a task to every blocker up to the batch.
  unfoldable pub choose : ℕ → ℕ → ℕ → List (Info Ch) → List (Info Ch)
  choose batch newest n [] = []
  choose batch newest n (a ∷ bs) =
      let k = if a.epoch == newest then suc n else n in
      let chosen = a ∷ choose batch newest k bs in if ltb batch k then [] else chosen

  unfoldable pub select : ℕ → List (Info Ch) → List (Info Ch)
  select batch infos = choose batch (max_epoch infos) 0 (sort infos)

  count-insert_info :
      (p : Info Ch → Bool) (a : Info Ch) (bs : List (Info Ch))
      → count p (insert_info a bs) ≡ count p (a ∷ bs)
  unfolding insert_info
  count-insert_info p a [] = refl
  count-insert_info p a (b ∷ bs) = ground (arith, count-insert_info p a bs)

  count-sort : (p : Info Ch → Bool) (bs : List (Info Ch)) → count p (sort bs) ≡ count p bs
  unfolding sort
  count-sort p [] = refl
  count-sort p (a ∷ bs) = count-insert_info p a (sort bs) ∙ ground (arith, count-sort p bs)

  abbrev ByEpoch : List (Info Ch) → Type 0
  ByEpoch [] = Unit {0}
  ByEpoch (a ∷ bs) = All (λ b. a.epoch ≤ b.epoch) bs × ByEpoch bs

  All-insert_info :
      (n : ℕ) (a : Info Ch) (bs : List (Info Ch))
      → n ≤ a.epoch
      → All (λ b. n ≤ b.epoch) bs
      → All (λ b. n ≤ b.epoch) (insert_info a bs)
  unfolding insert_info
  All-insert_info n a [] h k = (h, tt)
  All-insert_info n a (b ∷ bs) h k = ground (arith, All-insert_info n a bs h k.1)

  All-mono :
      (m n : ℕ) (bs : List (Info Ch))
      → m ≤ n
      → All (λ b. n ≤ b.epoch) bs
      → All (λ b. m ≤ b.epoch) bs
  All-mono m n [] h k = tt
  All-mono m n (b ∷ bs) h k = (omega arith, All-mono m n bs h k.1)

  insert_info-ByEpoch :
      (a : Info Ch) (bs : List (Info Ch)) → ByEpoch bs → ByEpoch (insert_info a bs)
  unfolding insert_info precedes
  insert_info-ByEpoch a [] s = (tt, tt)
  insert_info-ByEpoch a (b ∷ bs) s = ground (
    arith,
    All-mono a.epoch b.epoch bs,
    All-insert_info b.epoch a bs,
    insert_info-ByEpoch a bs s.1,
  )

  sort-ByEpoch : (bs : List (Info Ch)) → ByEpoch (sort bs)
  unfolding sort
  sort-ByEpoch [] = tt
  sort-ByEpoch (a ∷ bs) = insert_info-ByEpoch a (sort bs) (sort-ByEpoch bs)

  choose_enough :
      (batch newest n : ℕ) (bs : List (Info Ch))
      → n ≤ batch
      → min (batch - n) (length bs) ≤ length (choose batch newest n bs)
  unfolding choose
  choose_enough batch newest n [] h = omega arith
  choose_enough batch newest n (a ∷ bs) h =
      ground (arith, choose_enough batch newest n bs, choose_enough batch newest (suc n) bs)

  choose_newest :
      (batch newest n : ℕ) (bs : List (Info Ch))
      → n ≤ batch
      → n + count (λ b. b.epoch == newest) (choose batch newest n bs) ≤ batch
  unfolding choose
  choose_newest batch newest n [] h = omega arith
  choose_newest batch newest n (a ∷ bs) h =
      ground (arith, choose_newest batch newest n bs, choose_newest batch newest (suc n) bs)

  none_older :
      (newest : ℕ) (bs : List (Info Ch))
      → All (λ b. newest ≤ b.epoch) bs
      → count (λ b. ltb b.epoch newest) bs ≡ 0
  none_older newest [] k = refl
  none_older newest (b ∷ bs) k = ground (arith, none_older newest bs k.1)

  choose_older :
      (batch newest n : ℕ) (bs : List (Info Ch))
      → n ≤ batch
      → ByEpoch bs
      → count (λ b. ltb b.epoch newest) (choose batch newest n bs)
        ≡ count (λ b. ltb b.epoch newest) bs
  unfolding choose
  choose_older batch newest n [] h s = refl
  choose_older batch newest n (a ∷ bs) h s = ground (
    arith,
    choose_older batch newest n bs h s.1,
    choose_older batch newest (suc n) bs,
    All-mono newest a.epoch bs,
    none_older newest bs,
  )

  choose-sub :
      (p : Info Ch → Bool) (batch newest n : ℕ) (bs : List (Info Ch))
      → count p (choose batch newest n bs) ≤ count p bs
  unfolding choose
  choose-sub p batch newest n [] = omega arith
  choose-sub p batch newest n (a ∷ bs) =
      ground (arith, choose-sub p batch newest n bs, choose-sub p batch newest (suc n) bs)

  length-insert_info :
      (a : Info Ch) (bs : List (Info Ch)) → length (insert_info a bs) ≡ suc (length bs)
  unfolding insert_info
  length-insert_info a [] = refl
  length-insert_info a (b ∷ bs) = ground (arith, length-insert_info a bs)

  length-sort : (bs : List (Info Ch)) → length (sort bs) ≡ length bs
  unfolding sort
  length-sort [] = refl
  length-sort (a ∷ bs) = ground (arith, length-insert_info a (sort bs), length-sort bs)

  -- The blockers that `lock` asks to block, for every batch and every list of blockers: none is made
  -- up or taken twice, whatever is counted; there are at least as many as the batch, or all; every
  -- blocker of an epoch before the newest is among them, and of the newest at most the batch.
  pub select_fair :
      (p : Info Ch → Bool) (batch : ℕ) (infos : List (Info Ch))
      → (count p (select batch infos) ≤ count p infos)
        × (min batch (length infos) ≤ length (select batch infos))
        × (count (λ b. ltb b.epoch (max_epoch infos)) (select batch infos)
            ≡ count (λ b. ltb b.epoch (max_epoch infos)) infos)
        × (count (λ b. b.epoch == max_epoch infos) (select batch infos) ≤ batch)
  unfolding select
  select_fair p batch infos =
      let newest = max_epoch infos in
      let sorted = sort infos in
      (
        omega (arith, choose-sub p batch newest 0 sorted, count-sort p infos),
        omega (arith, choose_enough batch newest 0 sorted (omega arith), length-sort infos),
        choose_older batch newest 0 sorted (omega arith) (sort-ByEpoch infos)
            ∙ count-sort (λ b. ltb b.epoch newest) infos,
        omega (arith, choose_newest batch newest 0 sorted (omega arith)),
      )

-- The loop that unblocks what exceeds the batch: of the blockers that are blocked, in order, those
-- past the batch are asked to go on.
unfoldable pub let_go : {Ch : Type 0} → Channels Ch → ℕ → ℕ → List (Info Ch) → List (Info Ch)
unfolding request_unblock
let_go channels batch n [] = []
let_go channels batch n (a ∷ bs) =
    let k = if a.blocker.blocked then suc n else n in
    let freed = record a { blocker = (request_unblock channels a.blocker).0 } in
    (if a.blocker.blocked && ltb batch k then freed else a) ∷ let_go channels batch k bs

module _ {Ch : Type 0} (channels : Channels Ch) where
  let_go-held :
      (batch n : ℕ) (infos : List (Info Ch))
      → All (λ a. a.blocker.blocked ≡ true → a.blocker.block ≡ true) infos
      → count (λ a. a.blocker.blocked && a.blocker.block) (let_go channels batch n infos)
        ≡ min (batch - n) (count (λ a. a.blocker.blocked) infos)
  unfolding let_go
  let_go-held batch n [] h = omega arith
  let_go-held batch n (a ∷ bs) h =
      ground (arith, h.0, let_go-held batch n bs h.1, let_go-held batch (suc n) bs h.1)

  let_go-flags :
      (batch n : ℕ) (infos : List (Info Ch))
      → map (λ a. a.blocker.blocked) (let_go channels batch n infos)
        ≡ map (λ a. a.blocker.blocked) infos
  unfolding let_go
  let_go-flags batch n [] = refl
  let_go-flags batch n (a ∷ bs) =
      ground (arith, let_go-flags batch n bs, let_go-flags batch (suc n) bs)

  -- Where every worker that is blocked was asked to be: after the loop as many of the blocked workers
  -- are still held as the batch allows, or all where they are fewer, and the loop itself changes
  -- nobody's blocked flag.
  let_go_exact :
      (batch : ℕ) (infos : List (Info Ch))
      → All (λ a. a.blocker.blocked ≡ true → a.blocker.block ≡ true) infos
      → (count (λ a. a.blocker.blocked && a.blocker.block) (let_go channels batch 0 infos)
          ≡ min batch (count (λ a. a.blocker.blocked) infos))
        × (map (λ a. a.blocker.blocked) (let_go channels batch 0 infos)
            ≡ map (λ a. a.blocker.blocked) infos)
  let_go_exact batch infos h =
      (omega (arith, let_go-held batch 0 infos h), let_go-flags batch 0 infos)
