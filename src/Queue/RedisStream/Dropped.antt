-- ===== src/Queue/RedisStream/Dropped.antt =====
-- About `_to_deliveries` of infrastructure/queue/redis_stream.py.
use task_platform.Common.{ℕ, ◌≡◌, refl, ap, false, List, [], ◌∷◌, ◌++◌, Text}
use task_platform.Domain.Effects.{Result, ok, err}
use task_platform.Queue.Message.{TaskMessage, Delivery}
use task_platform.Queue.Codec.{JsonCodec}
use task_platform.Queue.RedisStream.{
  StreamEntry, Client, payload_of, ack, read_payload, deliver, to_deliveries,
}

module _ {S : Type 0} (codec : JsonCodec) (client : Client S) where
  abbrev pub message_of_entry : StreamEntry → Result TaskMessage
  message_of_entry e = read_payload codec client (payload_of e.1)

  -- The deliveries of the entries that hold a message, and the ids of the others.
  abbrev pub delivery_of : Text → ℕ → Result TaskMessage → List Delivery
  delivery_of consumer id (ok m) =
      record { message_id = id; message = m; consumer = consumer; delivery_count = 1 } ∷ []
  delivery_of consumer id (err e) = []

  abbrev pub invalid_of : ℕ → Result TaskMessage → List ℕ
  invalid_of id (ok m) = []
  invalid_of id (err e) = id ∷ []

  abbrev pub valid_deliveries : Text → List StreamEntry → List Delivery
  valid_deliveries consumer [] = []
  valid_deliveries consumer (e ∷ entries) =
      delivery_of consumer e.0 (message_of_entry e) ++ valid_deliveries consumer entries

  abbrev pub invalid_ids : List StreamEntry → List ℕ
  invalid_ids [] = []
  invalid_ids (e ∷ entries) = invalid_of e.0 (message_of_entry e) ++ invalid_ids entries

  abbrev pub ack_all : List ℕ → S → S
  ack_all [] s = s
  ack_all (id ∷ ids) s = ack_all ids (ack codec client id s).1

  -- Of the entries that were read for the first time, those that hold a message are delivered, in their
  -- order, with the count 1, and the others, and no more, are acknowledged and so dropped, in their order.
  pub to_deliveries-new :
      (entries : List StreamEntry) (consumer : Text) (s : S)
      → to_deliveries codec client entries consumer false s
        ≡ (valid_deliveries consumer entries, ack_all (invalid_ids entries) s)
  unfolding to_deliveries
  to_deliveries-new [] consumer s = refl
  to_deliveries-new (e ∷ entries) consumer s =
      go (message_of_entry e) (to_deliveries-new entries consumer)
    where
      go :
          (r : Result TaskMessage)
          → ((t : S)
              → to_deliveries codec client entries consumer false t
                ≡ (valid_deliveries consumer entries, ack_all (invalid_ids entries) t))
          → let (first, after) = deliver codec client e.0 consumer false r s in
            let (rest, final) = to_deliveries codec client entries consumer false after in
            ◌≡◌ {A = List Delivery × S}
              (first ++ rest, final)
              (
                delivery_of consumer e.0 r ++ valid_deliveries consumer entries,
                ack_all (invalid_of e.0 r ++ invalid_ids entries) s,
              )
      go (ok m) later =
          ap (λ (p : List Delivery × S). (delivery_of consumer e.0 (ok m) ++ p.0, p.1)) (later s)
      go (err x) later = later (ack codec client e.0 s).1
