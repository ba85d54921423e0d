-- ===== src/Client/Reading.antt =====
-- src/impl/client.cpp: how the client reads the messages that it gets. What the getters of
-- `sio::message` answer is documented for a message of their own kind only.
use conference_go_client.Common.{
  ℕ, ◌-◌, ◌^◌, ℤ, pos, negsuc, u32, eqb_ℤ, Bool, false, Option, none, some, List, [], ◌∷◌, ◌≡◌,
  Bytes, codes, eqb_bytes, if◌then◌else◌,
}
use conference_go_client.Sio.{
  Msg, absent, string, integer, object, array, Fields, end, field, Items, nil, cons,
}
use conference_go_client.Client.Messages.{Candidate, Description, create_user_ack_message}

-- `get_string`, `get_int`, `get_map` and `get_vector`
pub record Getters : Type 0 where
  pub get_string : Msg → Bytes
  pub get_int : Msg → ℤ
  pub get_map : Msg → Fields
  pub get_vector : Msg → Items
  pub get-string : (s : Bytes) → get_string (string s) ≡ s
  pub get-integer : (n : ℤ) → get_int (integer n) ≡ n
  pub get-object : (fs : Fields) → get_map (object fs) ≡ fs
  pub get-array : (vs : Items) → get_vector (array vs) ≡ vs

-- `find` of a `std::map`
abbrev pub find : Bytes → Fields → Option Msg
find key end = none
find key (field k v fs) = let rest = find key fs in if eqb_bytes key k then some v else rest

-- A field that is there and not null.
abbrev pub not_null : Option Msg → Option Msg
not_null none = none
not_null (some absent) = none
not_null (some m) = some m

-- `uint32_t msg_id = opt_msg_id.value()`
abbrev pub u32_of_ℤ : ℤ → ℕ
u32_of_ℤ (pos n) = u32 n
u32_of_ℤ (negsuc n) = 2 ^ 32 - 1 - u32 n

-- What `add_candidate` does: it throws, does nothing, or hands a candidate to the peer.
pub data Added : Type 0 where
  threw ignored : Added
  handed : Candidate → Added

-- What the callback of `on_custom_message` is called with, the acknowledgement that it may send left
-- as its two arguments.
pub record Custom : Type 0 where
  pub content : Bytes
  pub from : Bytes
  pub to : Bytes
  pub msg_id : ℕ

abbrev pub value_or : Option Bytes → Bytes
value_or none = []
value_or (some s) = s

abbrev pub null_or : Option Msg → Msg
null_or none = absent
null_or (some m) = m

abbrev pub map_some : {A : Type 0} → (Msg → A) → Option Msg → Option A
map_some f none = none
map_some f (some m) = some (f m)

-- `!sdp || !type` is the first test of `to_description`.
abbrev pub both_texts : Option Bytes → Option Bytes → Option Description
both_texts none type = none
both_texts (some sdp) none = none
both_texts (some sdp) (some type) = some (record { sdp = sdp; type_string = type })

abbrev pub items_list : Items → List Msg
items_list nil = []
items_list (cons v vs) = v ∷ items_list vs

module _ (sio : Getters) where
  abbrev pub get_msg_object_field : Msg → Bytes → Option Msg
  get_msg_object_field absent key = none
  get_msg_object_field m key = not_null (find key (sio.get_map m))

  -- `get_msg_base_field<std::string>` and `get_msg_base_field<std::int64_t>`
  abbrev pub get_string_field : Msg → Bytes → Option Bytes
  get_string_field m key = map_some sio.get_string (get_msg_object_field m key)

  abbrev pub get_int_field : Msg → Bytes → Option ℤ
  get_int_field m key = map_some sio.get_int (get_msg_object_field m key)

  -- The messages that tracks are made of; a null one makes a null track.
  abbrev pub get_msg_object_array_field : Msg → Bytes → List Msg
  get_msg_object_array_field m key = elim (get_msg_object_field m key) [
    | none ↦ []
    | some v ↦ items_list (sio.get_vector v)
  ]

  unfoldable pub to_description : Msg → Option Description
  to_description m =
      both_texts (get_string_field m (codes "sdp")) (get_string_field m (codes "type"))

  abbrev pub candidate_of : Msg → Candidate
  candidate_of m = record {
    candidate = value_or (get_string_field m (codes "candidate"));
    mid = value_or (get_string_field m (codes "sdpMid"));
  }

  -- `accepts`: the constructor of `rtc::Candidate` and `addRemoteCandidate` end without an exception.
  abbrev pub hand_over : (Candidate → Bool) → Candidate → Added
  hand_over accepts c = if accepts c then handed c else threw

  unfoldable pub add_candidate : (Candidate → Bool) → Msg → Added
  add_candidate accepts m = elim (get_string_field m (codes "op")) [
    | none ↦ threw
    | some op ↦
        if eqb_bytes op (codes "add")
        then hand_over accepts (candidate_of (null_or (get_msg_object_field m (codes "candidate"))))
        else ignored
  ]

  -- `userFrom` and `userTo`, both empty where there is no router.
  abbrev pub router_text : Msg → Bytes → Bytes
  router_text m key =
      value_or (get_string_field (null_or (get_msg_object_field m (codes "router"))) key)

  abbrev pub custom_of : Msg → ℤ → Custom
  custom_of m id = record {
    content = value_or (get_string_field m (codes "content"));
    from = router_text m (codes "userFrom");
    to = router_text m (codes "userTo");
    msg_id = u32_of_ℤ id;
  }

  -- The message of a "custom" event: what the callback is called with, if it is called. The field
  -- "content" is read for the id of the message too.
  unfoldable pub read_custom : Msg → Option Custom
  read_custom m = elim (get_int_field m (codes "content")) [
    | none ↦ none
    | some id ↦ some (custom_of m id)
  ]

  -- The test that `send_custom_message_with_ack` makes of a "custom-ack" event.
  unfoldable pub acks : ℕ → Msg → Bool
  acks msg_id m = elim (get_int_field m (codes "msgId")) [
    | none ↦ false
    | some id ↦ eqb_ℤ id (pos msg_id)
  ]

-- The message that the callback's own callback emits.
unfoldable pub ack_of : Custom → Msg
ack_of c = create_user_ack_message c.msg_id c.from
