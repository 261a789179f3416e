-- ===== src/Engine/Sender.antt =====
-- `spawn_sender` of crates/ud-engine/src/engine.rs: the task that reads the accepted files and sends them
-- piece by piece. What a file gives when it is opened and read, and whether a piece is sent, is the
-- record `World`; a file that has no read left is at its end.
pub mod Streaming
pub mod Delivery
use uniondesk.Common.{
  ℕ, ◌+◌, ◌%◌, ◌^◌, Bool, true, false, String, Option, none, some, List, [], ◌∷◌, ◌++◌, length, map,
  if◌then◌else◌,
}
use uniondesk.Config.{FilePath}
use uniondesk.Protocol.{TransferId, FileChunk}
use uniondesk.Engine.State.{OutgoingFile}

-- The result of one read: bytes, at the end none, or an error.
pub data Read : Type 0 where
  got : List ℕ → Read
  read_failed : String → Read

pub data Opened : Type 0 where
  open_failed : String → Opened
  opened : List Read → Opened

pub record World : Type 0 where
  pub opens : FilePath → Opened
  pub chunk_ok : ℕ → Bool

-- What the task has done: the pieces sent, the bytes reported for each, and why it stopped.
pub record Stream : Type 0 where
  pub sent : List FileChunk
  pub progress : List ℕ
  pub failure : Option String

abbrev pub nothing_sent : Stream
nothing_sent = record { sent = []; progress = []; failure = none }

abbrev pub fail : String → Stream → Stream
fail message s = record s { failure = some message }

abbrev pub send_chunk : FileChunk → Stream → Stream
send_chunk c s = record s {
  sent = s.sent ++ c ∷ [];
  progress = s.progress ++ length c.content ∷ [];
}

-- The inner loop, over one file from an offset.
unfoldable pub stream : World → TransferId → ℕ → List Read → ℕ → Stream → Stream
stream w id index [] offset s = s
stream w id index (read_failed message ∷ reads) offset s = fail message s
stream w id index (got [] ∷ reads) offset s = s
stream w id index (got (b ∷ bytes) ∷ reads) offset s =
    let chunk : FileChunk = record {
      transfer = id;
      index = index;
      offset = offset;
      content = b ∷ bytes;
    } in
    let next = (offset + length (b ∷ bytes)) % 2 ^ 64 in
    let rest = stream w id index reads next (send_chunk chunk s) in
    if w.chunk_ok (length s.sent) then rest else fail "connection is gone" s

abbrev pub stream_opened : World → TransferId → ℕ → Opened → Stream → Stream
stream_opened w id index (open_failed message) s = fail message s
stream_opened w id index (opened reads) s = stream w id index reads 0 s

abbrev pub stream_file : World → TransferId → ℕ → Option FilePath → Stream → Stream
stream_file w id index none s = s
stream_file w id index (some path) s = stream_opened w id index (w.opens path) s

abbrev pub goes_on : Stream → Stream → Option String → Stream
goes_on s rest none = rest
goes_on s rest (some message) = s

-- The outer loop, which ends at the first failure.
unfoldable pub stream_all : World → TransferId → List OutgoingFile → Stream → Stream
unfolding stream
stream_all w id [] s = s
stream_all w id (q ∷ files) s =
    let after = stream_file w id q.entry.index q.source s in
    let rest = stream_all w id files after in goes_on after rest after.failure

-- The whole task: what it streamed, whether it then sends FileFinished, and the error of the event
-- TransferDone.
pub record Sending : Type 0 where
  pub streamed : Stream
  pub finishes : Bool
  pub error : Option String

abbrev is_none : Option String → Bool
is_none none = true
is_none (some message) = false

unfoldable pub spawn_sender : World → TransferId → List OutgoingFile → Sending
unfolding stream_all
spawn_sender w id files =
    let s = stream_all w id files nothing_sent in
    record { streamed = s; finishes = is_none s.failure; error = s.failure }
