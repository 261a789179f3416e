-- ===== src/Codec/Tags.antt =====
-- The tag tells messages and chunks apart (crates/ud-net/src/codec.rs).
use uniondesk.Common.{
  ◌+◌, ◌^◌, ◌<◌, ◌≡◌, refl, sym, Option, none, some, ◌∷◌, ◌⊎◌, inl, inr, ltb, length, Bool-cases,
}
use uniondesk.Protocol.{Message}
use uniondesk.Protocol.Chunk.{encode, decode-encode}
use uniondesk.Engine.Dispatch.{Incoming}
use uniondesk.Codec.{
  Bytes, Outgoing, outgoing_message, outgoing_chunk, CodecError, Json, encode_json, encode_inner,
  decode_inner, max_record, inner_message,
}

-- What the other side should get.
abbrev pub arrives : Outgoing → CodecError ⊎ Incoming
arrives (outgoing_message m) = inr (Incoming.message m)
arrives (outgoing_chunk c) = inr (Incoming.chunk c)

-- The numbers of a chunk fit in the fields of its frame.
abbrev pub FitsFrame : Outgoing → Type 0
FitsFrame (outgoing_message m) = Unit
FitsFrame (outgoing_chunk c) =
    (c.transfer < 2 ^ 64) × (c.index < 2 ^ 32) × (c.offset < 2 ^ 64) × (length c.content < 2 ^ 32)

abbrev encodes : Bytes → CodecError ⊎ Bytes
encodes bytes = inr bytes

bytes_eq : (a b : Bytes) → encodes a ≡ encodes b → a ≡ b
bytes_eq a b h = cc

json_arrives :
    (serde : Json) (m : Message) (o : Option Bytes) (bytes : Bytes)
    → serde.to_vec m ≡ o
    → ((json : Bytes) → serde.to_vec m ≡ some json → serde.from_slice json ≡ some m)
    → encode_json o ≡ encodes bytes
    → decode_inner serde bytes ≡ inr (Incoming.message m)
unfolding decode_inner
json_arrives serde m none bytes e back h = absurd cc
json_arrives serde m (some json) bytes e back h =
    elim (Bool-cases (ltb max_record (length json + 1))) [
      | inl large ↦ let bad = rw large at h in absurd cc
      | inr small ↦
          let same = rw small at h in
          rw (sym (bytes_eq (inner_message ∷ json) bytes same), back json e) refl
    ]

-- What is encoded without an error decodes to the same message or chunk, if the JSON library reads
-- back the messages that it writes and the numbers of a chunk fit in its frame.
pub decode_inner-encode_inner :
    (serde : Json) (item : Outgoing) (bytes : Bytes)
    → ((m : Message) (json : Bytes) → serde.to_vec m ≡ some json → serde.from_slice json ≡ some m)
    → FitsFrame item
    → encode_inner serde item ≡ encodes bytes
    → decode_inner serde bytes ≡ arrives item
unfolding encode_inner decode_inner
decode_inner-encode_inner serde (outgoing_message m) bytes back fits h =
    json_arrives serde m (serde.to_vec m) bytes refl (back m) h
decode_inner-encode_inner serde (outgoing_chunk c) bytes back (t, i, o, l) h =
    rw (sym (bytes_eq (1 ∷ encode c) bytes h), decode-encode c t i o l) refl
