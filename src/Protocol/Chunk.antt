-- ===== src/Protocol/Chunk.antt =====
-- The binary frame of a piece of a file, `FileChunk` of crates/ud-core/src/protocol.rs.
use uniondesk.Common.{
  ℕ, zero, suc, ◌+◌, ◌-◌, ◌*◌, ◌/◌, ◌%◌, ◌^◌, List, [], ◌∷◌, ◌++◌, ltb, if◌then◌else◌, length, take,
  drop, ◌≡◌, sym, refl, ap, arith, ◌<◌,
}

pub record FileChunk : Type 0 where
  pub transfer : ℕ
  pub index : ℕ
  pub offset : ℕ
  pub content : List ℕ

-- `to_le_bytes`, the lowest byte first.
unfoldable pub to_le_bytes : ℕ → ℕ → List ℕ
to_le_bytes zero n = []
to_le_bytes (suc width) n = (n % 256) ∷ to_le_bytes width (n / 256)

-- `from_le_bytes`
unfoldable pub from_le_bytes : List ℕ → ℕ
from_le_bytes [] = 0
from_le_bytes (b ∷ bytes) = b + 256 * from_le_bytes bytes

-- `HEADER_LEN`
abbrev pub header_len : ℕ
header_len = 24

pub data ChunkError : Type 0 where
  truncated_header truncated_payload : ChunkError

pub data Decoded : Type 0 where
  chunk : FileChunk → Decoded
  refused : ChunkError → Decoded

-- `FileChunk::encode`; the length is cast to 32 bits.
unfoldable pub encode : FileChunk → List ℕ
unfolding to_le_bytes
encode c =
    to_le_bytes 8 c.transfer
    ++ (to_le_bytes 4 c.index
        ++ (to_le_bytes 8 c.offset ++ (to_le_bytes 4 (length c.content % 2 ^ 32) ++ c.content)))

-- `&bytes[from..to]`
abbrev pub slice : ℕ → ℕ → List ℕ → List ℕ
slice from to bytes = take (to - from) (drop from bytes)

-- `FileChunk::decode`
unfoldable pub decode : List ℕ → Decoded
unfolding from_le_bytes
decode bytes =
    let len = from_le_bytes (slice 20 24 bytes) in
    if ltb (length bytes) header_len
    then refused truncated_header
    else if ltb (length bytes) (header_len + len)
    then refused truncated_payload
    else chunk (record {
      transfer = from_le_bytes (slice 0 8 bytes);
      index = from_le_bytes (slice 8 12 bytes);
      offset = from_le_bytes (slice 12 20 bytes);
      content = slice header_len (header_len + len) bytes;
    })

-- A number fits in so many bytes.
abbrev pub Fits : ℕ → ℕ → Type 0
Fits zero n = n ≡ 0
Fits (suc width) n = Fits width (n / 256)

pub from_le_bytes-to_le_bytes : (w n : ℕ) → Fits w n → from_le_bytes (to_le_bytes w n) ≡ n
unfolding from_le_bytes to_le_bytes
from_le_bytes-to_le_bytes zero n h = sym h
from_le_bytes-to_le_bytes (suc w) n h = omega (arith, from_le_bytes-to_le_bytes w (n / 256) h)

pub Fits-4 : (n : ℕ) → n < 2 ^ 32 → Fits 4 n
Fits-4 n h = omega arith

Fits-8 : (n : ℕ) → n < 2 ^ 64 → Fits 8 n
Fits-8 n h = omega arith

length-encode : (c : FileChunk) → length (encode c) ≡ 24 + length c.content
unfolding encode
length-encode c = omega arith

take_all : (xs : List ℕ) → take (length xs) xs ≡ xs
take_all [] = refl
take_all (x ∷ xs) = ap (λ r. x ∷ r) (take_all xs)

pub length_field : (n : ℕ) → n < 2 ^ 32 → from_le_bytes (to_le_bytes 4 (n % 2 ^ 32)) ≡ n
length_field n h =
    let small : n % 2 ^ 32 ≡ n = omega arith in
    rw small (from_le_bytes-to_le_bytes 4 n (Fits-4 n h))

-- The last steps of `decode`, once the fields are known.
frame_end :
    (t i o n : ℕ) (bytes xs : List ℕ)
    → n ≡ length xs
    → length bytes ≡ 24 + length xs
    → drop 24 bytes ≡ xs
    → (if ltb (length bytes) header_len
        then refused truncated_header
        else if ltb (length bytes) (header_len + n)
        then refused truncated_payload
        else chunk (record {
          transfer = t;
          index = i;
          offset = o;
          content = slice header_len (header_len + n) bytes;
        }))
      ≡ chunk (record { transfer = t; index = i; offset = o; content = xs })
frame_end t i o n bytes xs e len d =
    let cut : 24 + n - 24 ≡ length xs = omega arith in
    let whole : take (24 + n - 24) (drop 24 bytes) ≡ xs = rw (cut, d) (take_all xs) in ground arith

-- A chunk whose numbers fit in the fields of the frame, and whose content is shorter than 4 GiB,
-- comes out of its encoding unchanged.
pub decode-encode :
    (c : FileChunk)
    → c.transfer < 2 ^ 64
    → c.index < 2 ^ 32
    → c.offset < 2 ^ 64
    → length c.content < 2 ^ 32
    → decode (encode c) ≡ chunk c
unfolding decode encode
decode-encode c ht hi ho hl =
    let et = from_le_bytes-to_le_bytes 8 c.transfer (Fits-8 c.transfer ht) in
    let ei = from_le_bytes-to_le_bytes 4 c.index (Fits-4 c.index hi) in
    let eo = from_le_bytes-to_le_bytes 8 c.offset (Fits-8 c.offset ho) in
    rw (et, ei, eo)
      (frame_end c.transfer c.index c.offset _ (encode c) c.content
        (length_field (length c.content) hl) (length-encode c) refl)
