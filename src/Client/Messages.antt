-- ===== src/Client/Messages.antt =====
-- src/impl/client.cpp and src/public/cfgo/pattern.hpp: the messages that the client sends. A message is
-- filled through its `std::map` field by field, as the source does it.
use conference_go_client.Common.{
  ℕ, ℤ, pos, Bool, List, [], ◌∷◌, Bytes, codes, eqb_bytes, ltb_bytes, if◌then◌else◌,
}
use conference_go_client.Sio.{
  Msg, string, boolean, integer, object, array, Fields, end, field, Items, nil, cons,
}

-- `map[key] = value` of a `std::map`, which is in the order of the keys.
abbrev pub put : Bytes → Msg → Fields → Fields
put key value end = field key value end
put key value (field k v fs) =
    let rest = put key value fs in
    if eqb_bytes key k
    then field key value fs
    else if ltb_bytes key k
    then field key value (field k v fs)
    else field k v rest

-- `get_vector().push_back(value)`
abbrev pub push_back : Msg → Items → Items
push_back value nil = cons value nil
push_back value (cons v vs) = cons v (push_back value vs)

-- What the source reads of an `rtc::Candidate` and of an `rtc::Description`.
pub record Candidate : Type 0 where
  pub candidate : Bytes
  pub mid : Bytes

pub record Description : Type 0 where
  pub sdp : Bytes
  pub type_string : Bytes

-- `Pattern`; an operator is its number in `Pattern::Op`.
mutual
  pub data Pattern : Type 0 where
    pattern_of : ℕ → List Bytes → Patterns → Pattern

  pub data Patterns : Type 0 where
    no_more : Patterns
    child : Pattern → Patterns → Patterns

-- The loop that pushes strings into an array.
abbrev pub push_strings : List Bytes → Items → Items
push_strings [] out = out
push_strings (s ∷ ss) out = push_strings ss (push_back (string s) out)

abbrev pub strings_message : List Bytes → Msg
strings_message ss = array (push_strings ss nil)

unfoldable mutual
  pub create_message : Pattern → Msg
  create_message (pattern_of op args children) =
      let with_op = put (codes "op") (integer (pos op)) end in
      let with_args = put (codes "args") (strings_message args) with_op in
      object (put (codes "children") (array (push_children children nil)) with_args)

  pub push_children : Patterns → Items → Items
  push_children no_more out = out
  push_children (child p ps) out = push_children ps (push_back (create_message p) out)

unfoldable pub create_auth_message : Bytes → Bytes → Msg
create_auth_message token id =
    let with_token = put (codes "token") (string token) end in
    object (put (codes "id") (string id) with_token)

unfoldable pub create_add_cand_message : Candidate → Msg
create_add_cand_message cand =
    let with_op = put (codes "op") (string (codes "add")) end in
    let with_cand = put (codes "candidate") (string cand.candidate) end in
    let cand_msg = object (put (codes "sdpMid") (string cand.mid) with_cand) in
    object (put (codes "candidate") cand_msg with_op)

unfoldable pub create_subscribe_message : Pattern → List Bytes → Msg
create_subscribe_message pattern req_types =
    let with_op = put (codes "op") (integer (pos 0)) end in
    let with_types = put (codes "reqTypes") (strings_message req_types) with_op in
    object (put (codes "pattern") (create_message pattern) with_types)

unfoldable pub create_unsubscribe_message : Bytes → Msg
create_unsubscribe_message sub_id =
    let with_op = put (codes "op") (integer (pos 2)) end in
    object (put (codes "id") (string sub_id) with_op)

unfoldable pub create_sdp_message : ℤ → Description → Msg
create_sdp_message sdp_id desc =
    let with_type = put (codes "type") (string desc.type_string) end in
    let with_sdp = put (codes "sdp") (string desc.sdp) with_type in
    object (put (codes "mid") (integer sdp_id) with_sdp)

-- The field "router", which is there when there is somebody to send to.
abbrev pub router_fields : Bytes → Fields
router_fields [] = end
router_fields (c ∷ cs) =
    put (codes "router") (object (put (codes "userTo") (string (c ∷ cs)) end)) end

unfoldable pub create_user_message : Bytes → Bytes → ℕ → Bool → Msg
create_user_message content to msg_id ack =
    let with_content = put (codes "content") (string content) (router_fields to) in
    let with_id = put (codes "msgId") (integer (pos msg_id)) with_content in
    object (put (codes "ack") (boolean ack) with_id)

unfoldable pub create_user_ack_message : ℕ → Bytes → Msg
create_user_ack_message msg_id to =
    object (put (codes "msgId") (integer (pos msg_id)) (router_fields to))
