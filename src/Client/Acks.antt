-- ===== src/Client/Acks.antt =====
-- src/impl/client.cpp: the ids in the acknowledgements of custom messages.
use conference_go_client.Common.{
  ℕ, ==_iff, ℤ, Bool, true, some, [], ◌∷◌, ◌≡◌, ◌≢◌, refl, sym, ap, ◌∙◌, Bytes, codes,
}
use conference_go_client.Sio.{string}
use conference_go_client.Client.Messages.{create_user_message}
use conference_go_client.Client.Reading.{
  Getters, get_int_field, Custom, custom_of, read_custom, acks, ack_of,
}
use conference_go_client.Client.RoundTrip.{acks-create}

module _ (sio : Getters) (content : Bytes) where
  content_as_int :
      (to : Bytes) (i : ℕ) (a : Bool)
      → get_int_field sio (create_user_message content to i a) (codes "content")
        ≡ some (sio.get_int (string content))
  unfolding create_user_message
  content_as_int [] i a = simp sio.get-object refl
  content_as_int (c ∷ cs) i a = simp sio.get-object refl

  custom_of-create :
      (to : Bytes) (i j : ℕ) (a b : Bool) (n : ℤ)
      → custom_of sio (create_user_message content to i a) n
        ≡ custom_of sio (create_user_message content to j b) n
  unfolding create_user_message
  custom_of-create [] i j a b n = simp sio.get-object refl
  custom_of-create (c ∷ cs) i j a b n = simp sio.get-object refl

  read_custom-create :
      (to : Bytes) (i j : ℕ) (a b : Bool)
      → read_custom sio (create_user_message content to i a)
        ≡ read_custom sio (create_user_message content to j b)
  unfolding read_custom
  read_custom-create to i j a b = cc (
    content_as_int to i a,
    content_as_int to j b,
    custom_of-create to i j a b (sio.get_int (string content)),
  )

  -- Of two messages with the same content and the same receiver but with other ids, both of which a
  -- receiver can read, the acknowledgements that it sends are not both taken by the senders'
  -- callbacks.
  pub ack_of-mismatch :
      (to : Bytes) (i j : ℕ) (a b : Bool) (c d : Custom)
      → i ≢ j
      → read_custom sio (create_user_message content to i a) ≡ some c
      → read_custom sio (create_user_message content to j b) ≡ some d
      → ¬ ((acks sio i (ack_of c) ≡ true) × (acks sio j (ack_of d) ≡ true))
  unfolding ack_of
  ack_of-mismatch to i j a b c d ne rc rd h =
      let same : c ≡ d = cc (rc, rd, read_custom-create to i j a b) in
      let ci : c.msg_id ≡ i =
        (==_iff c.msg_id i).0 (sym (acks-create sio i c.msg_id c.from) ∙ h.0) in
      let dj : d.msg_id ≡ j =
        (==_iff d.msg_id j).0 (sym (acks-create sio j d.msg_id d.from) ∙ h.1) in
      ne (sym ci ∙ ap (λ (x : Custom). x.msg_id) same ∙ dj)
