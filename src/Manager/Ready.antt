-- ===== src/Manager/Ready.antt =====
-- src/async_locker.cpp: how `add_blocker` announces through `m_ready_ch` that there are enough
-- blockers for a batch.
use conference_go_client.Common.{
  ℕ, suc, ◌≡◌, ◌==◌, ◌∙◌, sym, ap, refl, ℤ, pos, true, false, not, List, [], ◌∷◌, ◌++◌, arith,
  length, keep, length-append,
}
use conference_go_client.Channel.{Channels}
use conference_go_client.Manager.{
  Info, Manager, threw, id_of, calc_batch, new_info, add_blocker, remove_blocker,
}
use conference_go_client.Manager.Registry.{uses, Inv}
use conference_go_client.Blocker.{new_blocker}

module _ {Ch : Type 0} (channels : Channels Ch) where
  module _ (m : Manager Ch) (free : m.locked ≡ false) (fixed : m.conf.target_batch ≡ pos 0)
      (short : suc (length m.blockers) ≡ m.conf.min_batch) where
    abbrev added : ℤ → Manager Ch
    added p = (add_blocker channels p m).0

    added_full : (p : ℤ) → channels.full (added p).ready_ch ≡ true
    unfolding add_blocker calc_batch
    added_full p = ground (
      arith,
      channels.write_accepts m.ready_ch,
      channels.write_fills m.ready_ch,
      length-append m.blockers (new_info channels m.next_id m.next_epoch p ∷ []),
    )

    added_same :
        (p : ℤ)
        → ((added p).blockers ≡ m.blockers ++ new_info channels m.next_id m.next_epoch p ∷ [])
          × ((added p).locked ≡ false)
          × ((added p).conf ≡ m.conf)
    unfolding add_blocker
    added_same p = (ground arith, ground arith, ground arith)

  length-keep_last :
      (id : ℕ) (is : List (Info Ch)) (j : Info Ch)
      → uses id is ≡ 0
      → id_of j ≡ id
      → length (keep (λ i. not (id_of i == id)) (is ++ j ∷ [])) ≡ length is
  length-keep_last id [] j h e = ground arith
  length-keep_last id (i ∷ is) j h e = ground (arith, length-keep_last id is j)

  add_full_throws :
      (q : ℤ) (n : Manager Ch)
      → n.locked ≡ false
      → n.conf.target_batch ≡ pos 0
      → suc (length n.blockers) ≡ n.conf.min_batch
      → channels.full n.ready_ch ≡ true
      → ((add_blocker channels q n).1 ≡ threw)
        × (length (add_blocker channels q n).0.blockers ≡ suc (length n.blockers))
  unfolding add_blocker calc_batch
  add_full_throws q n l t s f =
      let e = length-append n.blockers (new_info channels n.next_id n.next_epoch q ∷ []) in
      (ground (arith, channels.write_accepts n.ready_ch, e), ground (arith, e))

  -- An unlocked manager with the fixed batch `min_batch` and one blocker less than that: one is
  -- added, so that the batch is reached, and removed before anybody locks; then the next
  -- `add_blocker` throws, since the announcement of the first still fills `m_ready_ch`. Its blocker is
  -- in the list all the same.
  pub add_remove_add_throws :
      (p q : ℤ) (m : Manager Ch)
      → m.locked ≡ false
      → m.conf.target_batch ≡ pos 0
      → suc (length m.blockers) ≡ m.conf.min_batch
      → Inv channels m
      → let n = remove_blocker m.next_id (add_blocker channels p m).0 in
        ((add_blocker channels q n).1 ≡ threw)
        × (length (add_blocker channels q n).0.blockers ≡ suc (length m.blockers))
  unfolding remove_blocker
  add_remove_add_throws p q m l t s v =
      let n = remove_blocker m.next_id (add_blocker channels p m).0 in
      let (b, free, conf) = added_same m l t s p in
      let unused : uses m.next_id m.blockers ≡ 0 = omega (arith, v.below m.next_id (omega arith)) in
      let size : length n.blockers ≡ length m.blockers =
        rw (free, b)
          (length-keep_last m.next_id m.blockers (new_info channels m.next_id m.next_epoch p) unused
            (unfold new_blocker in refl)) in
      let (e, k) =
        add_full_throws q n free (ap (λ c. c.target_batch) conf ∙ t)
          (ap suc size ∙ s ∙ sym (ap (λ c. c.min_batch) conf)) (added_full m l t s p) in
      (e, k ∙ ap suc size)
