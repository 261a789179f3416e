-- ===== src/Engine/Sender/Streaming.antt =====
-- What the pieces of a file add up to on the disk of the receiver. The disk is given as an interface: what
-- writing at an offset within a file, or at its end, is documented to do.
use uniondesk.Common.{
  ℕ, ◌+◌, ◌%◌, ◌^◌, ◌<◌, true, false, none, List, [], ◌∷◌, ◌++◌, length, drop, map, ◌≡◌, refl, sym,
  ap, ◌∙◌, arith,
}
use uniondesk.Protocol.{TransferId, FileChunk}
use uniondesk.Engine.Sender.{
  World, Read, got, read_failed, Stream, stream, send_chunk, nothing_sent,
}

-- Seeking to an offset and writing all bytes there, on the contents of a file.
pub record Storage : Type 0 where
  pub write_at : ℕ → List ℕ → List ℕ → List ℕ
  pub write_at-within :
      (front bytes back : List ℕ)
      → write_at (length front) bytes (front ++ back) ≡ front ++ (bytes ++ drop (length bytes) back)

-- The chunks written one after the other.
abbrev pub write_all : Storage → List FileChunk → List ℕ → List ℕ
write_all disk [] file = file
write_all disk (c ∷ chunks) file = write_all disk chunks (disk.write_at c.offset c.content file)

-- The bytes up to the end of the file.
abbrev pub content_of : List Read → List ℕ
content_of [] = []
content_of (read_failed message ∷ reads) = []
content_of (got [] ∷ reads) = []
content_of (got (b ∷ bytes) ∷ reads) = (b ∷ bytes) ++ content_of reads

-- No read fails before the end of the file.
abbrev pub ReadsWell : List Read → Type 0
ReadsWell [] = Unit
ReadsWell (read_failed message ∷ reads) = false ≡ true
ReadsWell (got [] ∷ reads) = Unit
ReadsWell (got (b ∷ bytes) ∷ reads) = ReadsWell reads

-- The pieces that a file is cut into, on their own.
abbrev pub pieces : TransferId → ℕ → List Read → ℕ → List FileChunk
pieces id index [] offset = []
pieces id index (read_failed message ∷ reads) offset = []
pieces id index (got [] ∷ reads) offset = []
pieces id index (got (b ∷ bytes) ∷ reads) offset =
    record { transfer = id; index = index; offset = offset; content = b ∷ bytes }
    ∷ pieces id index reads (offset + length (b ∷ bytes))

length-append : (xs ys : List ℕ) → length (xs ++ ys) ≡ length xs + length ys
length-append [] ys = omega arith
length-append (x ∷ xs) ys = omega (arith, length-append xs ys)

append_assoc : {A : Type 0} (xs ys zs : List A) → (xs ++ ys) ++ zs ≡ xs ++ (ys ++ zs)
append_assoc [] ys zs = refl
append_assoc (x ∷ xs) ys zs = ap (λ r. x ∷ r) (append_assoc xs ys zs)

append_nil : {A : Type 0} (xs : List A) → xs ++ [] ≡ xs
append_nil [] = refl
append_nil (x ∷ xs) = ap (λ r. x ∷ r) (append_nil xs)

drop_nil : (ys : List ℕ) → drop {A = ℕ} (length ys) [] ≡ []
drop_nil [] = refl
drop_nil (y ∷ ys) = refl

drop-append_both :
    (xs ys back : List ℕ) → drop (length ys) (drop (length xs) back) ≡ drop (length (xs ++ ys)) back
drop-append_both [] ys back = refl
drop-append_both (x ∷ xs) ys [] = drop_nil ys
drop-append_both (x ∷ xs) ys (b ∷ back) = drop-append_both xs ys back

-- The stream after some more pieces have gone out.
abbrev with_pieces : List FileChunk → Stream → Stream
with_pieces cs s = record s {
  sent = s.sent ++ cs;
  progress = s.progress ++ map (λ c. length c.content) cs;
}

with_pieces_nil : (s : Stream) → s ≡ with_pieces [] s
with_pieces_nil s = let a = append_nil s.sent in let b = append_nil s.progress in rw (a, b) refl

with_pieces_cons :
    (c : FileChunk) (cs : List FileChunk) (s : Stream)
    → with_pieces cs (send_chunk c s) ≡ with_pieces (c ∷ cs) s
with_pieces_cons c cs s =
    let a = append_assoc s.sent (c ∷ []) cs in
    let b = append_assoc s.progress (length c.content ∷ []) (map (λ c. length c.content) cs) in
    rw (a, b) refl

-- A stream that is let through sends exactly the pieces, in order.
pub stream-pieces :
    (w : World) (id : TransferId) (index : ℕ) (reads : List Read) (offset : ℕ) (s : Stream)
    → ((n : ℕ) → w.chunk_ok n ≡ true)
    → ReadsWell reads
    → offset + length (content_of reads) < 2 ^ 64
    → stream w id index reads offset s ≡ with_pieces (pieces id index reads offset) s
unfolding stream
stream-pieces w id index [] offset s ok well small = with_pieces_nil s
stream-pieces w id index (read_failed message ∷ reads) offset s ok well small = absurd cc
stream-pieces w id index (got [] ∷ reads) offset s ok well small = with_pieces_nil s
stream-pieces w id index (got (b ∷ bytes) ∷ reads) offset s ok well small =
    let len = length-append (b ∷ bytes) (content_of reads) in
    let next : (offset + length (b ∷ bytes)) % 2 ^ 64 ≡ offset + length (b ∷ bytes) =
      omega (arith, len) in
    let chunk : FileChunk = record {
      transfer = id;
      index = index;
      offset = offset;
      content = b ∷ bytes;
    } in
    let later : (offset + length (b ∷ bytes)) + length (content_of reads) < 2 ^ 64 =
      omega (arith, len) in
    let rest =
      stream-pieces w id index reads (offset + length (b ∷ bytes)) (send_chunk chunk s) ok well
        later in
    rw (ok (length s.sent), next)
      (rest ∙ with_pieces_cons chunk (pieces id index reads (offset + length (b ∷ bytes))) s)

-- The pieces of a file, written at their offsets over a file that was there before, give its bytes,
-- followed by what the old file had beyond them.
write_all-pieces :
    (disk : Storage) (id : TransferId) (index : ℕ) (reads : List Read) (front back : List ℕ)
    → ReadsWell reads
    → write_all disk (pieces id index reads (length front)) (front ++ back)
      ≡ front ++ (content_of reads ++ drop (length (content_of reads)) back)
write_all-pieces disk id index [] front back well = refl
write_all-pieces disk id index (read_failed message ∷ reads) front back well = absurd cc
write_all-pieces disk id index (got [] ∷ reads) front back well = refl
write_all-pieces disk id index (got (b ∷ bytes) ∷ reads) front back well =
    let piece = b ∷ bytes in
    let rest = content_of reads in
    let later = drop (length piece) back in
    let here = disk.write_at-within front piece back ∙ sym (append_assoc front piece later) in
    let ih = write_all-pieces disk id index reads (front ++ piece) later well in
    let tail = drop-append_both piece rest back in
    ap (write_all disk (pieces id index reads (length front + length piece))) here
    ∙ (ap (λ n. write_all disk (pieces id index reads n) ((front ++ piece) ++ later))
          (sym (length-append front piece))
        ∙ (ih
            ∙ (append_assoc front piece _
                ∙ ap (λ r. front ++ r)
                    (ap (λ t. piece ++ (rest ++ t)) tail ∙ sym (append_assoc piece rest _)))))

-- The file that is on the disk when the whole stream of one file has been written over an old one.
pub write_all-stream :
    (disk : Storage) (w : World) (id : TransferId) (index : ℕ) (reads : List Read) (old : List ℕ)
    → ((n : ℕ) → w.chunk_ok n ≡ true)
    → ReadsWell reads
    → length (content_of reads) < 2 ^ 64
    → (write_all disk (stream w id index reads 0 nothing_sent).sent old
        ≡ content_of reads ++ drop (length (content_of reads)) old)
      × ((stream w id index reads 0 nothing_sent).failure ≡ none)
write_all-stream disk w id index reads old ok well small =
    let all : 0 + length (content_of reads) < 2 ^ 64 = omega arith in
    let e = stream-pieces w id index reads 0 nothing_sent ok well all in
    (
      ap (λ s. write_all disk s.sent old) e ∙ write_all-pieces disk id index reads [] old well,
      ap (λ s. s.failure) e,
    )
