-- ===== src/Client/Callbacks.antt =====
-- src/impl/client.cpp: the callbacks for every event of the socket, in the `std::map` of their ids. A
-- callback reads the event, may change the state of the program, and answers whether it stays.
pub mod Ids
pub mod Survivors
use conference_go_client.Common.{
  ℕ, ◌+◌, ◌==◌, ltb, u32, Bool, true, false, not, List, [], ◌∷◌, ◌++◌, keep, if◌then◌else◌,
}

module _ (Event S : Type 0) where
  pub record Entry : Type 0 where
    pub id : ℕ
    pub cb : Event → S → Bool × S

  pub record Callbacks : Type 0 where
    pub next_id : ℕ
    pub cbs : List Entry

  -- `insert` of a `std::map`, which leaves an entry with the same key as it is.
  abbrev pub insert_cb : Entry → List Entry → List Entry
  insert_cb e [] = e ∷ []
  insert_cb e (x ∷ xs) =
      let rest = insert_cb e xs in
      if e.id == x.id then x ∷ xs else if ltb e.id x.id then e ∷ (x ∷ xs) else x ∷ rest

  -- `erase`
  abbrev pub erase_cb : ℕ → List Entry → List Entry
  erase_cb id cbs = keep (λ (e : Entry). not (e.id == id)) cbs

  -- The id, and the callbacks with the new one.
  unfoldable pub add_msg_cb : (Event → S → Bool × S) → Callbacks → ℕ × Callbacks
  add_msg_cb cb c = (
    c.next_id,
    record {
      next_id = u32 (c.next_id + 1);
      cbs = insert_cb (record { id = c.next_id; cb = cb }) c.cbs;
    },
  )

  unfoldable pub remove_msg_cb : ℕ → Callbacks → Callbacks
  remove_msg_cb cb_id c = record c { cbs = erase_cb cb_id c.cbs }

  -- The first loop: every callback runs, and the ids of those that do not stay are collected.
  abbrev pub call_all : Event → List Entry → S → List ℕ → List ℕ × S
  call_all event [] s to_removes = (to_removes, s)
  call_all event (e ∷ es) s to_removes =
      let answer = e.cb event s in
      call_all event es answer.1 (if answer.0 then to_removes else to_removes ++ (e.id ∷ []))

  -- The second loop.
  abbrev pub erase_all : List ℕ → List Entry → List Entry
  erase_all [] cbs = cbs
  erase_all (id ∷ ids) cbs = erase_all ids (erase_cb id cbs)

  unfoldable pub process_msg_cbs : Event → Callbacks → S → Callbacks × S
  process_msg_cbs event c s =
      let called = call_all event c.cbs s [] in
      (record c { cbs = erase_all called.0 c.cbs }, called.1)
