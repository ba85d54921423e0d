-- ===== src/Client/Tests.antt =====
-- Concrete answers of the libraries, and the theorems at concrete messages.
use conference_go_client.Common.{
  ℕ, ◌+◌, ◌==◌, ℤ, pos, Bool, true, some, List, [], ◌∷◌, is_some, get_elem?, ◌≡◌, refl, Bytes,
  codes, arith,
}
use conference_go_client.Sio.{Msg, string, integer, object, array, Fields, end, field, Items, nil}
use conference_go_client.Client.Messages.{
  Candidate, Description, Pattern, pattern_of, no_more, create_add_cand_message,
  create_user_message,
}
use conference_go_client.Client.Reading.{Getters, Custom, add_candidate, read_custom, acks, ack_of}
use conference_go_client.Client.RoundTrip.{create_subscribe_message-Injective}
use conference_go_client.Client.Acks.{ack_of-mismatch}
use conference_go_client.Client.Candidates.{candidates, until_throw}
use conference_go_client.Client.Callbacks.{Callbacks, process_msg_cbs}
use conference_go_client.Client.Callbacks.Survivors.{staying, process_msg_cbs-staying}
use conference_go_client.Client.Callbacks.Ids.{Inv}

abbrev string_or_empty : Msg → Bytes
string_or_empty (string s) = s
string_or_empty m = []

abbrev int_or_zero : Msg → ℤ
int_or_zero (integer n) = n
int_or_zero m = pos 0

abbrev fields_or_none : Msg → Fields
fields_or_none (object fs) = fs
fields_or_none m = end

abbrev items_or_none : Msg → Items
items_or_none (array vs) = vs
items_or_none m = nil

-- What socket.io answers without assertions.
abbrev pub plain : Getters
plain = record {
  get_string = string_or_empty;
  get_int = int_or_zero;
  get_map = fields_or_none;
  get_vector = items_or_none;
  get-string = λ s. refl;
  get-integer = λ n. refl;
  get-object = λ fs. refl;
  get-array = λ vs. refl;
}

abbrev offer : Description
offer = record { sdp = codes "v=0"; type_string = codes "offer" }

abbrev host : Candidate
host = record { candidate = codes "a=host"; mid = codes "0" }

abbrev everything : Pattern
everything = pattern_of 0 (codes "a" ∷ []) no_more

create_subscribe_message-Injective_example :
    (everything ≡ everything) × ((codes "video" ∷ []) ≡ (codes "video" ∷ []))
create_subscribe_message-Injective_example =
    create_subscribe_message-Injective everything everything (codes "video" ∷ [])
      (codes "video" ∷ []) refl

abbrev hello : ℕ → Msg
hello i = create_user_message (codes "hi") (codes "bob") i true

abbrev heard : Custom
heard = record { content = codes "hi"; from = []; to = codes "bob"; msg_id = 0 }

hello-heard : (i : ℕ) → read_custom plain (hello i) ≡ some heard
unfolding read_custom create_user_message
hello-heard i = refl

ack_of-mismatch_example :
    ¬ ((acks plain 1 (ack_of heard) ≡ true) × (acks plain 2 (ack_of heard) ≡ true))
ack_of-mismatch_example =
    ack_of-mismatch plain (codes "hi") (codes "bob") 1 2 true true heard heard (omega arith)
      (hello-heard 1) (hello-heard 2)

abbrev other_op : Msg
other_op = object (field (codes "op") (string (codes "end")) end)

abbrev bad_mid : Candidate
bad_mid = record host { mid = [] }

abbrev has_mid : Candidate → Bool
has_mid c = is_some (get_elem? c.mid 0)

-- The second cached candidate is refused, so that the third is not handed over.
abbrev early : List Msg
early =
    create_add_cand_message host
    ∷ (create_add_cand_message bad_mid ∷ (create_add_cand_message host ∷ []))

refused : candidates plain has_mid (until_throw plain has_mid early) ≡ host ∷ []
unfolding add_candidate create_add_cand_message
refused = refl

-- A callback that stays for the event 0 only, and counts its calls.
abbrev counting : ℕ → ℕ → Bool × ℕ
counting event s = (event == 0, s + 1)

abbrev two_callbacks : Callbacks ℕ ℕ
two_callbacks = record {
  next_id = 2;
  cbs = record { id = 0; cb = counting } ∷ (record { id = 1; cb = counting } ∷ []);
}

two_callbacks-Inv : Inv two_callbacks
two_callbacks-Inv = (((omega arith, tt), (tt, tt)), (omega arith, (omega arith, tt)))

process_msg_cbs-staying_example : process_msg_cbs ℕ ℕ 1 two_callbacks 0 ≡ (
  record two_callbacks { cbs = (staying 1 two_callbacks.cbs 0).0 },
  (staying 1 two_callbacks.cbs 0).1,
)
process_msg_cbs-staying_example = process_msg_cbs-staying 1 two_callbacks 0 two_callbacks-Inv.0
