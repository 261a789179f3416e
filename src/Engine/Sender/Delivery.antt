-- ===== src/Engine/Sender/Delivery.antt =====
-- What the receiver makes of a file that is sent: every piece is written through one handle.
use uniondesk.Common.{
  ℕ, zero, suc, ◌+◌, arith, ◌^◌, ◌<◌, Bool, true, false, String, Option, none, some, List, [], ◌∷◌,
  ◌++◌, length, map, drop, get_elem?, set, if◌then◌else◌, ◌≡◌, refl, sym, ap, ◌∙◌,
}
use uniondesk.Common.Dict.{Dict, lookup, insert, lookup-insert_self}
use uniondesk.Config.{FilePath}
use uniondesk.Protocol.{FileEntry, FileChunk}
use uniondesk.Transfer.Fresh.{parent}
use uniondesk.Engine.State.{
  Env, Tracked, incoming, active, IncomingTransfer, Effect, write_file, create_dir,
}
use uniondesk.Engine.Transfers.{position_of, path_at, written_at, saturating_add}
use uniondesk.Engine.Chunks.{
  take_chunk, target_of, chosen, write_to, with_handle, write_chunk, chunk_at, chunk_for,
  resolve_at,
}
use uniondesk.Engine.Sender.{World, Read, got, read_failed, stream, nothing_sent}
use uniondesk.Engine.Sender.Streaming.{
  Storage, write_all, content_of, ReadsWell, pieces, write_all-stream, stream-pieces,
}

-- The chunks taken one after the other, and all that is done to the disk.
abbrev pub receive_all : Env → Bool → List FileChunk → Tracked → Tracked × List Effect
receive_all env overwrite [] tracked = (tracked, [])
receive_all env overwrite (c ∷ chunks) tracked =
    let (after, effects) = take_chunk env overwrite c tracked in
    let (last, more) = receive_all env overwrite chunks after in (last, effects ++ more)

abbrev pub write_of : FilePath → FileChunk → Effect
write_of path c = write_file path c.offset c.content

-- The file that an index stands for in a transfer: an entry that is no directory.
pub record Names (t : IncomingTransfer) (index i : ℕ) (e : FileEntry) : Type 0 where
  pub position : position_of t index ≡ some i
  pub entry : get_elem? t.entries i ≡ some e
  pub is_file : e.is_dir ≡ false

-- The counts after a chunk.
abbrev count : ℕ → FileChunk → IncomingTransfer → IncomingTransfer
count i c t = record t {
  written = set t.written i (saturating_add (written_at t.written i) (length c.content));
  done_bytes = saturating_add t.done_bytes (length c.content);
}

-- The chunk of a file gets to `write_to`.
take_file :
    (env : Env) (overwrite : Bool) (c : FileChunk) (t : IncomingTransfer) (handles : Dict FilePath)
    (err : Option String) (i : ℕ) (e : FileEntry)
    → Names t c.index i e
    → take_chunk env overwrite c (incoming t handles active err)
      ≡ write_to env c i (target_of env overwrite t.root e (path_at t.resolved i)) t handles err
unfolding take_chunk
take_file env overwrite c t handles err i e n =
    ap (λ o. chunk_at env overwrite c o t handles err) n.position
    ∙ (ap (λ o. chunk_for env overwrite c i o t handles err) n.entry
        ∙ ap
            (λ b.
              if b
              then (incoming t handles active err, [])
              else write_to env c i (target_of env overwrite t.root e (path_at t.resolved i)) t
                  handles err)
            n.is_file)

take_known :
    (env : Env) (overwrite : Bool) (c : FileChunk) (t : IncomingTransfer) (handles : Dict FilePath)
    (err : Option String) (i : ℕ) (e : FileEntry) (path : FilePath)
    → Names t c.index i e
    → path_at t.resolved i ≡ some path
    → lookup c.index handles ≡ some path
    → env.write_error path c.offset ≡ none
    → take_chunk env overwrite c (incoming t handles active err)
      ≡ (incoming (count i c t) (insert c.index path handles) active err, write_of path c ∷ [])
unfolding target_of
take_known env overwrite c t handles err i e path n there handle fine =
    take_file env overwrite c t handles err i e n
    ∙ (ap (λ p. write_to env c i (target_of env overwrite t.root e p) t handles err) there
        ∙ (ap (λ h. with_handle env c i path h t handles err []) handle
            ∙ rw (write_chunk, fine) refl))

take_chosen :
    (env : Env) (overwrite : Bool) (c : FileChunk) (t : IncomingTransfer) (handles : Dict FilePath)
    (err : Option String) (i : ℕ) (e : FileEntry) (path : FilePath)
    → Names t c.index i e
    → get_elem? t.resolved i ≡ some none
    → target_of env overwrite t.root e none ≡ chosen path
    → lookup c.index handles ≡ none
    → env.open_error path ≡ none
    → env.write_error path c.offset ≡ none
    → take_chunk env overwrite c (incoming t handles active err) ≡ (
      incoming (count i c (resolve_at i path t)) (insert c.index path handles) active err,
      create_dir (parent path) ∷ write_of path c ∷ [],
    )
take_chosen env overwrite c t handles err i e path n unresolved choice handle opens fine =
    let made = create_dir (parent path) ∷ [] in
    take_file env overwrite c t handles err i e n
    ∙ (ap (λ p. write_to env c i (target_of env overwrite t.root e p) t handles err)
          (rw (path_at, unresolved) refl)
        ∙ (ap (λ g. write_to env c i g t handles err) choice
            ∙ (ap (λ h. with_handle env c i path h (resolve_at i path t) handles err made) handle
                ∙ rw (with_handle, opens, write_chunk, fine) refl)))

get_elem?-set_self :
    {A : Type 0} (xs : List A) (i : ℕ) (x y : A)
    → get_elem? xs i ≡ some x
    → get_elem? (set xs i y) i ≡ some y
get_elem?-set_self [] i x y h = absurd cc
get_elem?-set_self (z ∷ xs) zero x y h = refl
get_elem?-set_self (z ∷ xs) (suc i) x y h = get_elem?-set_self xs i x y h

-- Writing never fails on this machine.
abbrev pub Writable : Env → FilePath → Type 0
Writable env path = (offset : ℕ) → env.write_error path offset ≡ none

receive_known :
    (env : Env) (overwrite : Bool) (id index : ℕ) (reads : List Read) (offset : ℕ)
    (t : IncomingTransfer) (handles : Dict FilePath) (err : Option String) (i : ℕ) (e : FileEntry)
    (path : FilePath)
    → Names t index i e
    → path_at t.resolved i ≡ some path
    → lookup index handles ≡ some path
    → Writable env path
    → (receive_all env overwrite (pieces id index reads offset) (incoming t handles active err)).1
      ≡ map (write_of path) (pieces id index reads offset)
unfolding position_of
receive_known env overwrite id index [] offset t handles err i e path n there handle fine = refl
receive_known env overwrite id index (read_failed m ∷ reads) offset t handles err i e path n there
      handle fine =
    refl
receive_known env overwrite id index (got [] ∷ reads) offset t handles err i e path n there handle
      fine =
    refl
receive_known env overwrite id index (got (b ∷ bytes) ∷ reads) offset t handles err i e path n there
      handle fine =
    let c : FileChunk = record {
      transfer = id;
      index = index;
      offset = offset;
      content = b ∷ bytes;
    } in
    let step = take_known env overwrite c t handles err i e path n there handle (fine offset) in
    let ih =
      receive_known env overwrite id index reads (offset + length (b ∷ bytes)) (count i c t)
        (insert index path handles) err i e path
        (record { position = n.position; entry = n.entry; is_file = n.is_file }) there
        (lookup-insert_self index path handles) fine in
    rw step (ap (λ r. write_of path c ∷ r) ih)

-- What a file leaves behind: the folder is made before the first write, and an empty file leaves nothing.
abbrev pub effects_of : FilePath → List FileChunk → List Effect
effects_of path [] = []
effects_of path (c ∷ chunks) =
    create_dir (parent path) ∷ write_of path c ∷ map (write_of path) chunks

receive_new :
    (env : Env) (overwrite : Bool) (id index : ℕ) (reads : List Read) (t : IncomingTransfer)
    (handles : Dict FilePath) (err : Option String) (i : ℕ) (e : FileEntry) (path : FilePath)
    → Names t index i e
    → get_elem? t.resolved i ≡ some none
    → target_of env overwrite t.root e none ≡ chosen path
    → lookup index handles ≡ none
    → env.open_error path ≡ none
    → Writable env path
    → (receive_all env overwrite (pieces id index reads 0) (incoming t handles active err)).1
      ≡ effects_of path (pieces id index reads 0)
unfolding position_of
receive_new env overwrite id index [] t handles err i e path n unresolved choice handle opens fine =
    refl
receive_new env overwrite id index (read_failed m ∷ reads) t handles err i e path n unresolved
      choice handle opens fine =
    refl
receive_new env overwrite id index (got [] ∷ reads) t handles err i e path n unresolved choice
      handle opens fine =
    refl
receive_new env overwrite id index (got (b ∷ bytes) ∷ reads) t handles err i e path n unresolved
      choice handle opens fine =
    let c : FileChunk = record { transfer = id; index = index; offset = 0; content = b ∷ bytes } in
    let step =
      take_chosen env overwrite c t handles err i e path n unresolved choice handle opens
        (fine 0) in
    let found = get_elem?-set_self t.resolved i none (some path) unresolved in
    let resolved : path_at (set t.resolved i (some path)) i ≡ some path =
      rw (path_at, found) refl in
    let ih =
      receive_known env overwrite id index reads (0 + length (b ∷ bytes))
        (count i c (resolve_at i path t)) (insert index path handles) err i e path
        (record { position = n.position; entry = n.entry; is_file = n.is_file }) resolved
        (lookup-insert_self index path handles) fine in
    rw step (ap (λ r. create_dir (parent path) ∷ write_of path c ∷ r) ih)

-- A file that the sender can read, shorter than 2^64 bytes and sent over a connection that takes every
-- piece, is taken by an active transfer of the receiver that has not started on it, where its path is
-- free to choose, and opening and writing succeed. If the file is not empty, the receiver makes the
-- folder, writes the pieces to that path and does nothing else to the disk; for an empty file, of which
-- there is no piece, it does nothing at all, and no file is made. The writes leave at the path the bytes
-- of the file, followed by what an older file there had beyond them. The sender then reports no error.
pub receive_all-stream :
    (disk : Storage) (w : World) (env : Env) (overwrite : Bool) (id index : ℕ) (reads : List Read)
    (old : List ℕ) (t : IncomingTransfer) (handles : Dict FilePath) (err : Option String) (i : ℕ)
    (e : FileEntry) (path : FilePath)
    → ((n : ℕ) → w.chunk_ok n ≡ true)
    → ReadsWell reads
    → length (content_of reads) < 2 ^ 64
    → Names t index i e
    → get_elem? t.resolved i ≡ some none
    → target_of env overwrite t.root e none ≡ chosen path
    → lookup index handles ≡ none
    → env.open_error path ≡ none
    → Writable env path
    → ((receive_all env overwrite
          (stream w id index reads 0 nothing_sent).sent
          (incoming t handles active err)).1
        ≡ effects_of path (stream w id index reads 0 nothing_sent).sent)
      × (write_all disk (stream w id index reads 0 nothing_sent).sent old
          ≡ content_of reads ++ drop (length (content_of reads)) old)
      × ((stream w id index reads 0 nothing_sent).failure ≡ none)
receive_all-stream disk w env overwrite id index reads old t handles err i e path ok well small n
      unresolved choice handle opens fine =
    let sends = stream-pieces w id index reads 0 nothing_sent ok well (omega (arith, small)) in
    let (adds_up, calm) = write_all-stream disk w id index reads old ok well small in
    let received =
      receive_new env overwrite id index reads t handles err i e path n unresolved choice handle
        opens fine in
    (
      ap (λ s. (receive_all env overwrite s.sent (incoming t handles active err)).1) sends
          ∙ (received ∙ sym (ap (λ s. effects_of path s.sent) sends)),
      adds_up,
      calm,
    )
