-- ===== src/Client/Requests/Sending.antt =====
-- From the sending of a message to its acknowledgement.
use conference_go_client.Common.{
  ℕ, ◌+◌, ◌<◌, ◌^◌, ◌==◌, List, [], ◌∷◌, ◌++◌, keep-append, ◌≡◌, refl, ap, ◌∙◌, Bytes, arith,
}
use conference_go_client.Client.Reading.{Getters}
use conference_go_client.Client.Callbacks.{Entry, add_msg_cb}
use conference_go_client.Client.Callbacks.Ids.{Inv, insert_cb-append, add_msg_cb-Inv}
use conference_go_client.Client.Requests.{Event, Sender, ack_cb, send, receive}
use conference_go_client.Client.Requests.Confirming.{
  Waiting, ack_event, msg_ids, those_of, entries, receive-ack,
}

module _ (sio : Getters) where
  -- What the callback of the next message waits for.
  abbrev pub next_waiting : Sender sio → Waiting
  next_waiting s = record { id = s.callbacks.next_id; msg_id = s.custom_msg_next_id }

  entries-append :
      (xs ys : List Waiting) → entries sio xs ++ entries sio ys ≡ entries sio (xs ++ ys)
  entries-append [] ys = refl
  entries-append (x ∷ xs) ys =
      ap (λ (l : List (Entry Event (List ℕ))). record { id = x.id; cb = ack_cb sio x.msg_id } ∷ l)
        (entries-append xs ys)

  msg_ids-append : (xs ys : List Waiting) → msg_ids (xs ++ ys) ≡ msg_ids xs ++ msg_ids ys
  msg_ids-append [] ys = refl
  msg_ids-append (x ∷ xs) ys = ap (λ (l : List ℕ). x.msg_id ∷ l) (msg_ids-append xs ys)

  send-entries :
      (s : Sender sio) (xs : List Waiting)
      → s.callbacks.cbs ≡ entries sio xs
      → Inv s.callbacks
      → (send sio s).1.callbacks.cbs ≡ entries sio (xs ++ (next_waiting s ∷ []))
  unfolding send add_msg_cb
  send-entries s xs e h =
      let entry : Entry Event (List ℕ) = record {
        id = s.callbacks.next_id;
        cb = ack_cb sio s.custom_msg_next_id;
      } in
      insert_cb-append entry s.callbacks.cbs h.1
      ∙ ap (λ (l : List (Entry Event (List ℕ))). l ++ (entry ∷ [])) e
      ∙ entries-append xs (next_waiting s ∷ [])

  those_of_next :
      (s : Sender sio) → those_of s.custom_msg_next_id (next_waiting s ∷ []) ≡ next_waiting s ∷ []
  those_of_next s = ground arith

  -- A message that waits for its acknowledgement gets it: whatever waits for acknowledgements there
  -- are already, as long as the ids of the callbacks rise and do not wrap, the acknowledgement of
  -- the id that the message was sent with, as any receiver makes it, writes the channel of the
  -- message, after those of the waits for the same id.
  pub receive-send :
      (s : Sender sio) (xs : List Waiting) (to : Bytes)
      → s.callbacks.cbs ≡ entries sio xs
      → Inv s.callbacks
      → s.callbacks.next_id + 1 < 2 ^ 32
      → let sent = send sio s in
        (receive sio (ack_event sent.0 to) sent.1).written
        ≡ s.written ++ (msg_ids (those_of sent.0 xs) ++ (sent.0 ∷ []))
  unfolding send
  receive-send s xs to e h bound =
      let n = s.custom_msg_next_id in
      let all = xs ++ (next_waiting s ∷ []) in
      let rising = (add_msg_cb-Inv s.callbacks (ack_cb sio n) h bound).0 in
      let r = receive-ack sio n to all (send sio s).1 (send-entries s xs e h) rising in
      let split = keep-append (λ (x : Waiting). n == x.msg_id) xs (next_waiting s ∷ []) in
      let ours : those_of n all ≡ those_of n xs ++ (next_waiting s ∷ []) =
        split ∙ ap (λ (l : List Waiting). those_of n xs ++ l) (those_of_next s) in
      r.1
      ∙ ap (λ (l : List Waiting). s.written ++ msg_ids l) ours
      ∙ ap (λ (l : List ℕ). s.written ++ l) (msg_ids-append (those_of n xs) (next_waiting s ∷ []))
