-- ===== src/Client/RoundTrip.antt =====
-- What the client writes into a message, read back.
use conference_go_client.Common.{
  Bool, true, ℕ, ◌==◌, ℤ, pos, pos_part, some, List, [], ◌∷◌, ◌++◌, ◌≡◌, refl, sym, ap, ◌∙◌, Bytes,
  codes, arith,
}
use mathlib.Core.List.{append_assoc, append-nil}
use conference_go_client.Sio.{
  Msg, absent, null, string, binary, boolean, double, integer, object, array, field, Items, nil,
  cons,
}
use conference_go_client.Client.Messages.{
  push_back, Candidate, Description, Pattern, pattern_of, Patterns, no_more, child, push_strings,
  create_message, push_children, create_add_cand_message, create_subscribe_message,
  create_sdp_message, create_user_ack_message,
}
use conference_go_client.Client.Reading.{
  Getters, handed, null_or, get_msg_object_field, get_string_field, candidate_of, get_int_field,
  to_description, add_candidate, acks,
}

module _ (sio : Getters) where
  -- The text of a description, its type and the number of the exchange are read from the message "sdp"
  -- as they were written.
  to_description-create :
      (sdp_id : ℤ) (desc : Description)
      → (to_description sio (create_sdp_message sdp_id desc) ≡ some desc)
        × (get_int_field sio (create_sdp_message sdp_id desc) (codes "mid") ≡ some sdp_id)
  unfolding to_description create_sdp_message
  to_description-create sdp_id desc =
      (simp (sio.get-object, sio.get-string) refl, simp (sio.get-object, sio.get-integer) refl)

  -- A candidate that the client sends is one that a client which gets the message hands to its peer,
  -- when the peer accepts it.
  add_candidate-create :
      (accepts : Candidate → Bool) (cand : Candidate)
      → accepts cand ≡ true
      → add_candidate sio accepts (create_add_cand_message cand) ≡ handed cand
  unfolding add_candidate create_add_cand_message
  add_candidate-create accepts cand h =
      let m : Msg = create_add_cand_message cand in
      let op : get_string_field sio m (codes "op") ≡ some (codes "add") =
        simp (sio.get-object, sio.get-string) refl in
      let read : candidate_of sio (null_or (get_msg_object_field sio m (codes "candidate")))
          ≡ cand =
        simp (sio.get-object, sio.get-string) refl in
      cc (op, read, h)

  msg_id_field :
      (j : ℕ) (to : Bytes)
      → get_int_field sio (create_user_ack_message j to) (codes "msgId") ≡ some (pos j)
  unfolding create_user_ack_message
  msg_id_field j [] = simp (sio.get-object, sio.get-integer) refl
  msg_id_field j (c ∷ to) = simp (sio.get-object, sio.get-integer) refl

  -- The callback of a message that waits for an acknowledgement takes the one of its own id only,
  -- whoever the acknowledgement is sent to.
  pub acks-create : (i j : ℕ) (to : Bytes) → acks sio i (create_user_ack_message j to) ≡ (j == i)
  unfolding acks
  acks-create i j to = ground (arith, msg_id_field j to)

-- The pattern and the types of a request, taken from a message by the places of its fields.
abbrev texts : Items → List Bytes
texts nil = []
texts (cons (string s) vs) = s ∷ texts vs
texts (cons v vs) = [] ∷ texts vs

abbrev texts_of : Msg → List Bytes
texts_of (array vs) = texts vs
texts_of m = []

unfoldable mutual
  decode : Msg → Pattern
  decode (object (field k args (field l (array children) (field m (integer op) fs)))) =
      pattern_of (pos_part op) (texts_of args) (decode_items children)
  decode m = pattern_of 0 [] no_more

  decode_items : Items → Patterns
  decode_items nil = no_more
  decode_items (cons v vs) = child (decode v) (decode_items vs)

abbrev append_patterns : Patterns → Patterns → Patterns
append_patterns no_more qs = qs
append_patterns (child p ps) qs = child p (append_patterns ps qs)

append_patterns_nil : (ps : Patterns) → append_patterns ps no_more ≡ ps
append_patterns_nil no_more = refl
append_patterns_nil (child p ps) = ap (child p) (append_patterns_nil ps)

append_patterns_assoc :
    (ps qs rs : Patterns)
    → append_patterns (append_patterns ps qs) rs ≡ append_patterns ps (append_patterns qs rs)
append_patterns_assoc no_more qs rs = refl
append_patterns_assoc (child p ps) qs rs = ap (child p) (append_patterns_assoc ps qs rs)

texts-push_back : (s : Bytes) (vs : Items) → texts (push_back (string s) vs) ≡ texts vs ++ (s ∷ [])
texts-push_back s nil = refl
texts-push_back s (cons (string t) vs) = ap (λ (l : List Bytes). t ∷ l) (texts-push_back s vs)
texts-push_back s (cons absent vs) = ap (λ (l : List Bytes). [] ∷ l) (texts-push_back s vs)
texts-push_back s (cons null vs) = ap (λ (l : List Bytes). [] ∷ l) (texts-push_back s vs)
texts-push_back s (cons (binary b) vs) = ap (λ (l : List Bytes). [] ∷ l) (texts-push_back s vs)
texts-push_back s (cons (boolean b) vs) = ap (λ (l : List Bytes). [] ∷ l) (texts-push_back s vs)
texts-push_back s (cons (double b) vs) = ap (λ (l : List Bytes). [] ∷ l) (texts-push_back s vs)
texts-push_back s (cons (integer b) vs) = ap (λ (l : List Bytes). [] ∷ l) (texts-push_back s vs)
texts-push_back s (cons (object b) vs) = ap (λ (l : List Bytes). [] ∷ l) (texts-push_back s vs)
texts-push_back s (cons (array b) vs) = ap (λ (l : List Bytes). [] ∷ l) (texts-push_back s vs)

texts-push_strings : (ss : List Bytes) (out : Items) → texts (push_strings ss out) ≡ texts out ++ ss
texts-push_strings [] out = sym (append-nil (texts out))
texts-push_strings (s ∷ ss) out =
    texts-push_strings ss (push_back (string s) out)
    ∙ simp (texts-push_back s out, append_assoc) refl

decode_items-push_back :
    (m : Msg) (vs : Items)
    → decode_items (push_back m vs) ≡ append_patterns (decode_items vs) (child (decode m) no_more)
unfolding decode
decode_items-push_back m nil = refl
decode_items-push_back m (cons v vs) = ap (child (decode v)) (decode_items-push_back m vs)

mutual
  unfolding create_message decode

  decode-create : (p : Pattern) → decode (create_message p) ≡ p
  decode-create (pattern_of op args children) =
      simp (texts-push_strings args nil, decode_items-push children nil) refl

  decode_items-push :
      (ps : Patterns) (out : Items)
      → decode_items (push_children ps out) ≡ append_patterns (decode_items out) ps
  decode_items-push no_more out = sym (append_patterns_nil (decode_items out))
  decode_items-push (child p ps) out =
      decode_items-push ps (push_back (create_message p) out)
      ∙ simp (decode_items-push_back (create_message p) out, decode-create p, append_patterns_assoc)
          refl

abbrev pattern_field : Msg → Msg
pattern_field (object (field k op (field l pattern fs))) = pattern
pattern_field m = m

abbrev types_field : Msg → Msg
types_field (object (field k op (field l pattern (field m types fs)))) = types
types_field m = m

-- Two requests to subscribe are the same message only if they are for the same pattern, with its
-- arguments and its children in their order at any depth, and for the same types in the same order.
pub create_subscribe_message-Injective :
    (p q : Pattern) (rs ss : List Bytes)
    → create_subscribe_message p rs ≡ create_subscribe_message q ss
    → (p ≡ q) × (rs ≡ ss)
unfolding create_subscribe_message
create_subscribe_message-Injective p q rs ss e = (
  sym (decode-create p) ∙ ap (λ (m : Msg). decode (pattern_field m)) e ∙ decode-create q,
  sym (texts-push_strings rs nil)
      ∙ ap (λ (m : Msg). texts_of (types_field m)) e
      ∙ texts-push_strings ss nil,
)
