-- ===== src/Tests/Records.antt =====
-- The theorems on records, at concrete bytes, with a JSON library that knows one message.
use uniondesk.Common.{ℕ, ◌≡◌, inr, refl, Option, none, some, [], ◌∷◌, ◌++◌}
use uniondesk.Protocol.{Message}
use uniondesk.Protocol.Chunk.{to_le_bytes, from_le_bytes}
use uniondesk.Codec.{
  Bytes, Json, outgoing_message, encode_inner, decode_inner, write_record, read_record,
}
use uniondesk.Codec.Tags.{arrives, decode_inner-encode_inner}
use uniondesk.Codec.Framing.{found_record, read_record-write_record}

abbrev framed : Bytes
framed = 2 ∷ 0 ∷ 0 ∷ 0 ∷ 7 ∷ 8 ∷ []

frames : write_record (7 ∷ 8 ∷ []) ≡ inr framed
unfolding write_record to_le_bytes
frames = refl

read_record-write_record_example :
    read_record (framed ++ (5 ∷ [])) ≡ found_record (7 ∷ 8 ∷ []) (5 ∷ [])
read_record-write_record_example = read_record-write_record (7 ∷ 8 ∷ []) (5 ∷ []) framed frames

reads : read_record framed ≡ found_record (7 ∷ 8 ∷ []) []
unfolding read_record from_le_bytes
reads = refl

abbrev two_bytes : Bytes
two_bytes = 7 ∷ 8 ∷ []

-- It knows the pongs, each by its nonce alone.
abbrev pub write_pong : Message → Option Bytes
write_pong (Message.pong nonce) = some (nonce ∷ [])
write_pong _ = none

abbrev pub read_pong : Bytes → Option Message
read_pong [] = none
read_pong (nonce ∷ bytes) = some (Message.pong nonce)

abbrev pub tiny : Json
tiny = record { to_vec = write_pong; from_slice = read_pong }

one_byte :
    (nonce : ℕ) (json : Bytes)
    → some (nonce ∷ []) ≡ some json
    → read_pong json ≡ some (Message.pong nonce)
one_byte nonce [] e = absurd cc
one_byte nonce (b ∷ json) e = cc

pub tiny_back : (m : Message) (json : Bytes) → write_pong m ≡ some json → read_pong json ≡ some m
tiny_back (Message.hello v i) json e = absurd cc
tiny_back (Message.hello_ack v i) json e = absurd cc
tiny_back (Message.ping nonce) json e = absurd cc
tiny_back (Message.pong nonce) json e = one_byte nonce json e
tiny_back (Message.displays ds) json e = absurd cc
tiny_back (Message.pair_required hint) json e = absurd cc
tiny_back (Message.pair_response code i) json e = absurd cc
tiny_back (Message.pair_result accepted reason) json e = absurd cc
tiny_back (Message.input event) json e = absurd cc
tiny_back (Message.control c) json e = absurd cc
tiny_back (Message.clipboard payload) json e = absurd cc
tiny_back (Message.file_offer offer) json e = absurd cc
tiny_back (Message.file_accept f) json e = absurd cc
tiny_back (Message.file_progress r) json e = absurd cc
tiny_back (Message.file_finished f) json e = absurd cc
tiny_back (Message.file_cancel t reason) json e = absurd cc
tiny_back (Message.bye reason) json e = absurd cc
tiny_back (Message.error text) json e = absurd cc

encodes_pong : encode_inner tiny (outgoing_message (Message.pong 112)) ≡ inr (0 ∷ 112 ∷ [])
unfolding encode_inner
encodes_pong = refl

decode_inner-encode_inner_example :
    decode_inner tiny (0 ∷ 112 ∷ []) ≡ arrives (outgoing_message (Message.pong 112))
decode_inner-encode_inner_example =
    decode_inner-encode_inner tiny (outgoing_message (Message.pong 112)) (0 ∷ 112 ∷ []) tiny_back tt
      encodes_pong
