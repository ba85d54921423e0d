-- ===== src/Client/Requests/Confirming.antt =====
-- What the requests report, and which messages an acknowledgement settles.
use conference_go_client.Common.{
  ℕ, ◌==◌, Bool, Bool-cases, true, false, not, Option, none, some, List, [], ◌∷◌, ◌++◌, keep, ◌≡◌,
  refl, inl, inr, subst, sym, ap, ◌∙◌, Bytes, codes, if◌then◌else◌, arith,
}
use mathlib.Core.List.{append_assoc, append-nil}
use conference_go_client.Sio.{Msg}
use conference_go_client.Client.Messages.{create_user_ack_message, create_unsubscribe_message}
use conference_go_client.Client.Scope.{emits, releases}
use conference_go_client.Client.Reading.{Getters, get_string_field}
use conference_go_client.Client.RoundTrip.{acks-create}
use conference_go_client.Client.Callbacks.{Entry}
use conference_go_client.Client.Callbacks.Survivors.{Rising, staying, process_msg_cbs-staying}
use conference_go_client.Client.Subscribe.{is_text}
use conference_go_client.Client.Requests.{
  Event, replies, emit_with_ack, ack_message, ack_cb, Sender, receive, unsubscribe, on_answer,
}

-- Whether the server has confirmed the end of the subscription.
abbrev pub confirmed : Getters → Option (List Msg) → Bytes → Bool
confirmed sio none sub_id = false
confirmed sio (some ms) sub_id = is_text sub_id (get_string_field sio (ack_message ms) (codes "id"))

-- `unsubscribe` of an initialised client that got the mutex, whose signal closes if there is no
-- answer, reports the opposite of what happened: its result is a cancelled one exactly if the server
-- confirmed the id, and it is a success when the signal closed with no answer, or when the answer is
-- of another id. In every case the request was sent and then the mutex released.
unsubscribe-inverted :
    (sio : Getters) (ms : Option (List Msg)) (sub_id : Bytes)
    → unsubscribe sio true (some true) (emit_with_ack true ms) sub_id ≡ (
      replies (confirmed sio ms sub_id),
      emits (codes "subscribe") (create_unsubscribe_message sub_id) ∷ (releases ∷ []),
    )
unfolding unsubscribe emit_with_ack on_answer
unsubscribe-inverted sio none sub_id = refl
unsubscribe-inverted sio (some ms) sub_id = refl

-- A callback that waits: its own id, and that of its message.
pub record Waiting : Type 0 where
  pub id : ℕ
  pub msg_id : ℕ

-- The acknowledgement of message `j`, sent to `to`.
abbrev pub ack_event : ℕ → Bytes → Event
ack_event j to = record { name = codes "custom-ack"; message = create_user_ack_message j to }

abbrev pub msg_ids : List Waiting → List ℕ
msg_ids [] = []
msg_ids (x ∷ xs) = x.msg_id ∷ msg_ids xs

abbrev pub those_of : ℕ → List Waiting → List Waiting
those_of j xs = keep (λ (x : Waiting). j == x.msg_id) xs

abbrev pub others_than : ℕ → List Waiting → List Waiting
others_than j xs = keep (λ (x : Waiting). not (j == x.msg_id)) xs

module _ (sio : Getters) where
  abbrev pub entries : List Waiting → List (Entry Event (List ℕ))
  entries [] = []
  entries (x ∷ xs) = record { id = x.id; cb = ack_cb sio x.msg_id } ∷ entries xs

  ack_cb-ack :
      (i j : ℕ) (to : Bytes) (written : List ℕ)
      → ack_cb sio i (ack_event j to) written
        ≡ (if j == i then (false, written ++ (i ∷ [])) else (true, written))
  unfolding ack_cb
  ack_cb-ack i j to written = cc (acks-create sio i j to)

  -- One step of the pass, by what the callback answers.
  staying_step :
      (evt : Event) (x : Waiting) (xs : List Waiting) (written : List ℕ) (b : Bool) (after : List ℕ)
      → ack_cb sio x.msg_id evt written ≡ (b, after)
      → staying evt (entries (x ∷ xs)) written ≡ (
        if b
            then entries (x ∷ []) ++ (staying evt (entries xs) after).0
            else (staying evt (entries xs) after).0,
        (staying evt (entries xs) after).1,
      )
  unfolding staying
  staying_step evt x xs written true after h = cc h
  staying_step evt x xs written false after h = cc h

  staying-ack :
      (j : ℕ) (to : Bytes) (xs : List Waiting) (written : List ℕ)
      → staying (ack_event j to) (entries xs) written
        ≡ (entries (others_than j xs), written ++ msg_ids (those_of j xs))
  unfolding staying
  staying-ack j to [] written = ap (λ (l : List ℕ). (entries [], l)) (sym (append-nil written))
  staying-ack j to (x ∷ xs) written = elim (Bool-cases (j == x.msg_id)) [
    | inl e ↦
        let a : ack_cb sio x.msg_id (ack_event j to) written ≡ (false, written ++ (x.msg_id ∷ [])) =
          cc (e, ack_cb-ack x.msg_id j to written) in
        let ih = staying-ack j to xs (written ++ (x.msg_id ∷ [])) in
        let assoc = append_assoc written (x.msg_id ∷ []) (msg_ids (those_of j xs)) in
        let first =
          staying_step (ack_event j to) x xs written false (written ++ (x.msg_id ∷ [])) a in
        let o : others_than j xs ≡ others_than j (x ∷ xs) = ground arith in
        let t : x ∷ those_of j xs ≡ those_of j (x ∷ xs) = ground arith in
        let w = assoc ∙ ap (λ (l : List Waiting). written ++ msg_ids l) t in
        first ∙ ih ∙ (λ i. (entries (o i), w i))
    | inr e ↦
        let a : ack_cb sio x.msg_id (ack_event j to) written ≡ (true, written) =
          cc (e, ack_cb-ack x.msg_id j to written) in
        let ih = staying-ack j to xs written in
        let first = staying_step (ack_event j to) x xs written true written a in
        let o : x ∷ others_than j xs ≡ others_than j (x ∷ xs) = ground arith in
        let t : those_of j xs ≡ those_of j (x ∷ xs) = ground arith in
        first
        ∙ (λ i. (entries (x ∷ []) ++ (ih i).0, (ih i).1))
        ∙ (λ i. (entries (o i), written ++ msg_ids (t i)))
  ]

  -- Where all callbacks are waits for acknowledgements and their ids rise, an acknowledgement of
  -- message `j` ends exactly the waits for that message: their callbacks are gone and their channels
  -- are written, in order, and the other callbacks wait on.
  pub receive-ack :
      (j : ℕ) (to : Bytes) (xs : List Waiting) (s : Sender sio)
      → s.callbacks.cbs ≡ entries xs
      → Rising s.callbacks.cbs
      → ((receive sio (ack_event j to) s).callbacks.cbs ≡ entries (others_than j xs))
        × ((receive sio (ack_event j to) s).written ≡ s.written ++ msg_ids (those_of j xs))
  unfolding receive
  receive-ack j to xs s e r =
      let p = process_msg_cbs-staying (ack_event j to) s.callbacks s.written r in
      let q =
        subst
          (λ (es : List (Entry Event (List ℕ))).
            staying (ack_event j to) es s.written
            ≡ (entries (others_than j xs), s.written ++ msg_ids (those_of j xs)))
          (sym e) (staying-ack j to xs s.written) in
      (cc (p, q), cc (p, q))
