-- ===== src/Client/Requests.antt =====
-- src/impl/client.cpp: the requests that wait for an acknowledgement, `unsubscribe` and
-- `send_custom_message_with_ack`, and the sending of a message without one.
pub mod Confirming
pub mod Sending
use conference_go_client.Common.{
  ℕ, ◌+◌, u32, Bool, true, false, not, ◌&&◌, Option, none, some, List, [], ◌∷◌, ◌++◌, Bytes, codes,
  eqb_bytes, if◌then◌else◌,
}
use conference_go_client.Sio.{Msg, absent}
use conference_go_client.Client.Messages.{create_unsubscribe_message, create_user_message}
use conference_go_client.Client.Reading.{Getters, get_string_field, acks}
use conference_go_client.Client.Callbacks.{Callbacks, add_msg_cb, process_msg_cbs}
use conference_go_client.Client.Scope.{
  Action, emits, releases, connects, socket_close, Scope, empty_scope, act, defer, listen, runs,
  leave,
}
use conference_go_client.Client.Subscribe.{Read, pending, canceled, got, is_text}

-- An event of the socket.
pub record Event : Type 0 where
  pub name : Bytes
  pub message : Msg

-- A `cancelable<void>`, which holds whether it is cancelled, an exception, or no result yet.
pub data Reply : Type 0 where
  no_reply throws : Reply
  replies : Bool → Reply

-- The conversion of a `cancelable<msg_ptr>` to the `bool` from which a `cancelable<void>` is made.
abbrev pub to_bool : Read Msg → Bool
to_bool pending = false
to_bool canceled = false
to_bool (got m) = true

-- What the callback of `emit_with_ack` writes: the first message of the acknowledgement, or null.
abbrev pub ack_message : List Msg → Msg
ack_message [] = absent
ack_message (m ∷ ms) = m

-- `emit_with_ack`: none while there is no acknowledgement, and then the signal may close.
unfoldable pub emit_with_ack : Bool → Option (List Msg) → Read Msg
emit_with_ack closed (some ms) = got (ack_message ms)
emit_with_ack true none = canceled
emit_with_ack false none = pending

-- The scope of `unsubscribe`, and that of a message that waits, each up to the wait.
abbrev pub asked : Bytes → Scope
asked sub_id =
    act (emits (codes "subscribe") (create_unsubscribe_message sub_id))
      (defer (runs releases) empty_scope)

abbrev pub sent : Msg → Scope
sent msg =
    act (emits (codes "custom") msg)
      (act connects (listen socket_close (defer (runs releases) empty_scope)))

module _ (sio : Getters) where
  -- From the wait for the acknowledgement on. A cancelled wait is returned as it is, and else the test
  -- of the id, as the `bool` of a `cancelable<void>`.
  unfoldable pub on_answer : Read Msg → Bytes → Reply × List Action
  on_answer pending sub_id = (no_reply, (asked sub_id).done)
  on_answer canceled sub_id = (replies (to_bool canceled), leave (asked sub_id))
  on_answer (got m) sub_id =
      (replies (is_text sub_id (get_string_field sio m (codes "id"))), leave (asked sub_id))

  -- `unsubscribe`, by whether the client is initialised, what the mutex gave and what the wait gave.
  unfoldable pub unsubscribe : Bool → Option Bool → Read Msg → Bytes → Reply × List Action
  unsubscribe false acquired answer sub_id = (throws, [])
  unsubscribe true none answer sub_id = (no_reply, [])
  unsubscribe true (some false) answer sub_id = (replies true, [])
  unsubscribe true (some true) answer sub_id = on_answer answer sub_id

  -- The callback that `send_custom_message_with_ack` adds; the state is the list of the messages whose
  -- channel was written.
  unfoldable pub ack_cb : ℕ → Event → List ℕ → Bool × List ℕ
  ack_cb msg_id evt written =
      if eqb_bytes evt.name (codes "custom-ack") && acks sio msg_id evt.message
      then (false, written ++ (msg_id ∷ []))
      else (true, written)

  -- `m_custom_msg_next_id`, the callbacks, and the channels that were written.
  pub record Sender : Type 0 where
    pub custom_msg_next_id : ℕ
    pub callbacks : Callbacks Event (List ℕ)
    pub written : List ℕ

  -- The id of a message, and the sender after its callback is added.
  unfoldable pub send : Sender → ℕ × Sender
  send s =
      let added = add_msg_cb Event (List ℕ) (ack_cb s.custom_msg_next_id) s.callbacks in
      (
        s.custom_msg_next_id,
        record s { custom_msg_next_id = u32 (s.custom_msg_next_id + 1); callbacks = added.1 },
      )

  -- `process_msg_cbs` for an event that arrives.
  unfoldable pub receive : Event → Sender → Sender
  receive evt s =
      let processed = process_msg_cbs Event (List ℕ) evt s.callbacks s.written in
      record s { callbacks = processed.0; written = processed.1 }

  -- From the wait for the channel on; the callback stays however it ends.
  unfoldable pub on_written : Read Unit → Msg → Reply × List Action
  on_written pending msg = (no_reply, (sent msg).done)
  on_written canceled msg = (replies true, leave (sent msg))
  on_written (got u) msg = (replies false, leave (sent msg))

  unfoldable pub send_custom_message_with_ack :
      Bool → Option Bool → Read Unit → Bytes → Bytes → Sender → (Reply × List Action) × Sender
  send_custom_message_with_ack false acquired read content to s = ((throws, []), s)
  send_custom_message_with_ack true none read content to s = ((no_reply, []), s)
  send_custom_message_with_ack true (some false) read content to s = ((replies true, []), s)
  send_custom_message_with_ack true (some true) read content to s =
      (on_written read (create_user_message content to (send s).0 true), (send s).1)

  -- The actions of a message without acknowledgement; none is for the exception.
  unfoldable pub send_custom_message_no_ack :
      Bool → Bytes → Bytes → Sender → Option (List Action) × Sender
  send_custom_message_no_ack false content to s = (none, s)
  send_custom_message_no_ack true content to s = (
    some (
        connects
        ∷ (emits (codes "custom") (create_user_message content to s.custom_msg_next_id false)
            ∷ [])),
    record s { custom_msg_next_id = u32 (s.custom_msg_next_id + 1) },
  )
