-- ===== src/Codec.antt =====
-- crates/ud-net/src/codec.rs: the tag in front of a message or a chunk, and the record around it. How
-- a message becomes JSON is serde's, and a parameter.
pub mod Framing
pub mod Tags
use uniondesk.Common.{
  ℕ, ◌+◌, ◌%◌, ◌^◌, Bool, true, false, Option, none, some, List, [], ◌∷◌, ◌++◌, ◌⊎◌, inl, inr, ltb,
  ◌==◌, if◌then◌else◌, length, take, drop,
}
use uniondesk.Protocol.{Message}
use uniondesk.Protocol.Chunk.{FileChunk, Decoded, to_le_bytes, from_le_bytes, encode, decode}
use uniondesk.Engine.Dispatch.{Incoming}

-- `MAX_RECORD`, `INNER_MESSAGE` and `INNER_CHUNK`
abbrev pub max_record : ℕ
max_record = 65535

abbrev pub inner_message : ℕ
inner_message = 0

abbrev pub inner_chunk : ℕ
inner_chunk = 1

abbrev pub Bytes : Type 0
Bytes = List ℕ

pub data Outgoing : Type 0 where
  outgoing_message : Message → Outgoing
  outgoing_chunk : FileChunk → Outgoing

pub data CodecError : Type 0 where
  range_error protocol_error json_error unexpected_end : CodecError

-- `serde_json::to_vec` and `from_slice`, of messages.
pub record Json : Type 0 where
  pub to_vec : Message → Option Bytes
  pub from_slice : Bytes → Option Message

abbrev pub encode_json : Option Bytes → CodecError ⊎ Bytes
encode_json none = inl CodecError.json_error
encode_json (some json) =
    if ltb max_record (length json + 1)
    then inl CodecError.range_error
    else inr (inner_message ∷ json)

unfoldable pub encode_inner : Json → Outgoing → CodecError ⊎ Bytes
unfolding encode
encode_inner serde (outgoing_message m) = encode_json (serde.to_vec m)
encode_inner serde (outgoing_chunk c) = inr (inner_chunk ∷ encode c)

abbrev pub decode_json : Option Message → CodecError ⊎ Incoming
decode_json none = inl CodecError.json_error
decode_json (some m) = inr (Incoming.message m)

abbrev pub decode_chunk : Decoded → CodecError ⊎ Incoming
decode_chunk (Decoded.chunk c) = inr (Incoming.chunk c)
decode_chunk (Decoded.refused err) = inl CodecError.protocol_error

unfoldable pub decode_inner : Json → Bytes → CodecError ⊎ Incoming
unfolding decode
decode_inner serde [] = inl CodecError.protocol_error
decode_inner serde (tag ∷ body) =
    if tag == inner_message
    then decode_json (serde.from_slice body)
    else if tag == inner_chunk
    then decode_chunk (decode body)
    else inl CodecError.protocol_error

-- `write_record`: what is appended to the stream.
unfoldable pub write_record : Bytes → CodecError ⊎ Bytes
unfolding to_le_bytes
write_record body =
    if ltb max_record (length body)
    then inl CodecError.range_error
    else inr (to_le_bytes 4 (length body % 2 ^ 32) ++ body)

-- `read_record`: the body, and what the stream holds behind it.
unfoldable pub read_record : Bytes → CodecError ⊎ (Bytes × Bytes)
unfolding from_le_bytes
read_record stream =
    let len = from_le_bytes (take 4 stream) in
    if ltb (length stream) 4
    then inl CodecError.unexpected_end
    else if ltb max_record len
    then inl CodecError.range_error
    else if ltb (length (drop 4 stream)) len
    then inl CodecError.unexpected_end
    else inr (take len (drop 4 stream), drop len (drop 4 stream))
