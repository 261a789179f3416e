-- ===== src/Codec/Framing.antt =====
-- Records in a stream (crates/ud-net/src/codec.rs).
use uniondesk.Common.{
  ℕ, zero, suc, ◌+◌, ◌%◌, ◌^◌, ◌≤◌, ◌<◌, false, ◌≡◌, refl, sym, [], ◌∷◌, ◌++◌, ◌⊎◌, inl, inr, arith,
  ltb, if◌then◌else◌, length, take, drop, length-append, take-append, drop-append, Bool-cases,
}
use uniondesk.Protocol.Chunk.{to_le_bytes, from_le_bytes, length_field}
use uniondesk.Codec.{Bytes, CodecError, max_record, write_record, read_record}

-- The last steps of `read_record`, once the length is known.
abbrev rest_of : ℕ → Bytes → CodecError ⊎ (Bytes × Bytes)
rest_of len tail =
    if ltb max_record len
    then inl CodecError.range_error
    else if ltb (length tail) len
    then inl CodecError.unexpected_end
    else inr (take len tail, drop len tail)

abbrev pub found_record : Bytes → Bytes → CodecError ⊎ (Bytes × Bytes)
found_record body rest = inr (body, rest)

rest_of-append :
    (body rest : Bytes)
    → ltb max_record (length body) ≡ false
    → rest_of (length body) (body ++ rest) ≡ found_record body rest
rest_of-append body rest small =
    let long : ltb (length (body ++ rest)) (length body) ≡ false =
      ground (arith, length-append body rest) in
    rw (small, long, take-append body rest, drop-append body rest) refl

record_end :
    (n : ℕ) (stream body rest : Bytes)
    → n ≡ length body
    → length stream ≡ 4 + length (body ++ rest)
    → drop 4 stream ≡ body ++ rest
    → ltb max_record (length body) ≡ false
    → (if ltb (length stream) 4 then inl CodecError.unexpected_end else rest_of n (drop 4 stream))
      ≡ found_record body rest
record_end n stream body rest e long d small =
    let ok : ltb (length stream) 4 ≡ false = ground arith in
    rw (ok, d, e) (rest_of-append body rest small)

after_header :
    (body rest : Bytes)
    → ltb max_record (length body) ≡ false
    → read_record (to_le_bytes 4 (length body % 2 ^ 32) ++ (body ++ rest)) ≡ found_record body rest
unfolding read_record to_le_bytes
after_header body rest small =
    let fits : length body < 2 ^ 32 = ground arith in
    record_end _ (to_le_bytes 4 (length body % 2 ^ 32) ++ (body ++ rest)) body rest
      (length_field (length body) fits) (omega arith) refl small

abbrev wrote : Bytes → CodecError ⊎ Bytes
wrote bytes = inr bytes

wrote_eq : (a b : Bytes) → wrote a ≡ wrote b → a ≡ b
wrote_eq a b h = cc

-- A record that is written can be read back from the front of any stream that goes on behind it, and
-- what is left is exactly that rest.
pub read_record-write_record :
    (body rest bytes : Bytes)
    → write_record body ≡ inr bytes
    → read_record (bytes ++ rest) ≡ found_record body rest
unfolding write_record to_le_bytes
read_record-write_record body rest bytes e = elim (Bool-cases (ltb max_record (length body))) [
  | inl large ↦ let bad = rw (large, write_record) at e in absurd cc
  | inr small ↦
      let g = rw (small, write_record) at e in
      rw (sym (wrote_eq (to_le_bytes 4 (length body % 2 ^ 32) ++ body) bytes g))
        (after_header body rest small)
]

length-take-le : (n : ℕ) (xs : Bytes) → length (take n xs) ≤ n
length-take-le zero xs = omega arith
length-take-le (suc n) [] = omega arith
length-take-le (suc n) (x ∷ xs) = omega (arith, length-take-le n xs)

body_eq : (a b c d : Bytes) → found_record a b ≡ found_record c d → a ≡ c
body_eq a b c d h = cc

rest_of-le :
    (len : ℕ) (tail body rest : Bytes)
    → rest_of len tail ≡ found_record body rest
    → length body ≤ max_record
rest_of-le len tail body rest e = elim (Bool-cases (ltb max_record len)) [
  | inl large ↦ let bad = rw large at e in absurd cc
  | inr small ↦
      let g = rw small at e in
      elim (Bool-cases (ltb (length tail) len)) [
        | inl short ↦ let bad = rw short at g in absurd cc
        | inr enough ↦
            let g' = rw enough at g in
            let bound : len ≤ max_record = ground arith in
            rw (sym (body_eq (take len tail) (drop len tail) body rest g'))
              (omega (arith, length-take-le len tail))
      ]
]

-- No record that is read is longer than the limit.
pub read_record-le :
    (stream body rest : Bytes)
    → read_record stream ≡ found_record body rest
    → length body ≤ max_record
unfolding read_record
read_record-le stream body rest e = elim (Bool-cases (ltb (length stream) 4)) [
  | inl short ↦ let bad = rw (short, read_record) at e in absurd cc
  | inr enough ↦
      let g = rw (enough, read_record) at e in
      rest_of-le (from_le_bytes (take 4 stream)) (drop 4 stream) body rest g
]
