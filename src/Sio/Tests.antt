-- ===== src/Sio/Tests.antt =====
-- Texts of small messages, and the theorem on texts at one of them.
use conference_go_client.Common.{ℕ, pos, true, false, [], ◌≡◌, refl, Bytes, codes, to_string}
use conference_go_client.Sio.{
  Msg, string, integer, object, array, end, field, nil, cons, sio_msg_to_str, s_ident,
}
use conference_go_client.Sio.Strip.{strip}
use conference_go_client.Sio.Compact.{compact, sio_msg_to_str-compact}

abbrev no_double : ℕ → Bytes
no_double x = []

abbrev request : Msg
request = object (
    field (codes "id") (integer (pos 42))
      (field (codes "to") (array (cons (string (codes "a")) nil)) end))

request_words : sio_msg_to_str no_double false (pos 0) request ≡ codes "{ id: 42, to: [ \"a\" ] }"
unfolding sio_msg_to_str to_string s_ident
request_words = refl

sio_msg_to_str-compact_example :
    strip (sio_msg_to_str no_double true (pos 4) request) ≡ compact no_double request
sio_msg_to_str-compact_example = sio_msg_to_str-compact no_double true (pos 4) request
