-- ===== src/Engine/Chunks.antt =====
-- The section "file transfer" of crates/ud-engine/src/engine.rs, continued: what arrives for an
-- incoming transfer.
pub mod Writes
use uniondesk.Common.{
  ℕ, ◌+◌, ◌-◌, ◌%◌, ◌^◌, Bool, String, Option, none, some, List, [], ◌∷◌, ◌++◌, if◌then◌else◌,
  length, get_elem?, set,
}
use uniondesk.Common.Dict.{Dict, lookup, insert, modify}
use uniondesk.Config.{FilePath}
use uniondesk.Protocol.{TransferId, FileEntry, FileProgressReport, FileFinished, FileChunk}
use uniondesk.Transfer.{sanitize_relative}
use uniondesk.Transfer.Fresh.{unique_path, parent}
use uniondesk.Engine.State.{
  Env, Engine, TransferState, active, completed, cancelled, Tracked, outgoing, incoming,
  IncomingTransfer, Notice, Effect, notify, publish, create_dir, write_file, say,
}
use uniondesk.Engine.Transfers.{
  saturating_add, position_of, path_at, written_at, set_state, done_or_total,
}

-- The path of a chunk, found or chosen anew, or the error that refuses it.
pub data Target : Type 0 where
  known : FilePath → Target
  chosen : FilePath → Target
  refused : String → Target

abbrev pub fresh_target : Env → Bool → Option FilePath → Target
fresh_target env overwrite none = refused "path is not safe to write"
fresh_target env overwrite (some path) =
    let target = if overwrite then path else unique_path env.path_exists path in
    elim (env.create_dir_error (parent target)) [
      | some message ↦ refused message
      | none ↦ chosen target
    ]

unfoldable pub target_of : Env → Bool → FilePath → FileEntry → Option FilePath → Target
target_of env overwrite root e (some path) = known path
target_of env overwrite root e none =
    fresh_target env overwrite (sanitize_relative e.relative_path root)

-- What one chunk leaves behind: the tracked transfer, and what was done to the disk.
abbrev pub Written : Type 0
Written = Tracked × List Effect

abbrev pub fail_chunk : IncomingTransfer → Dict FilePath → String → List Effect → Written
fail_chunk t handles message effects =
    (incoming t handles TransferState.failed (some message), effects)

-- The write through a handle that is open, at the offset of the chunk.
abbrev pub write_chunk :
    Env
    → FileChunk
    → ℕ
    → FilePath
    → IncomingTransfer
    → Dict FilePath
    → Option String
    → List Effect
    → Written
write_chunk env c i path t handles err effects = elim (env.write_error path c.offset) [
  | some message ↦ fail_chunk t (insert c.index path handles) message effects
  | none ↦ (
    incoming
        (record t {
          written = set t.written i (saturating_add (written_at t.written i) (length c.content));
          done_bytes = saturating_add t.done_bytes (length c.content);
        })
        (insert c.index path handles) active err,
    effects ++ write_file path c.offset c.content ∷ [],
  )
]

-- The handle of a file that has been opened before keeps its path.
abbrev pub with_handle :
    Env
    → FileChunk
    → ℕ
    → FilePath
    → Option FilePath
    → IncomingTransfer
    → Dict FilePath
    → Option String
    → List Effect
    → Written
with_handle env c i path (some opened) t handles err effects =
    write_chunk env c i opened t handles err effects
with_handle env c i path none t handles err effects = elim (env.open_error path) [
  | some message ↦ fail_chunk t handles message effects
  | none ↦ write_chunk env c i path t handles err effects
]

abbrev pub resolve_at : ℕ → FilePath → IncomingTransfer → IncomingTransfer
resolve_at i path t = record t { resolved = set t.resolved i (some path) }

abbrev pub write_to :
    Env → FileChunk → ℕ → Target → IncomingTransfer → Dict FilePath → Option String → Written
write_to env c i (refused message) t handles err = fail_chunk t handles message []
write_to env c i (known path) t handles err =
    with_handle env c i path (lookup c.index handles) t handles err []
write_to env c i (chosen path) t handles err =
    with_handle env c i path (lookup c.index handles) (resolve_at i path t) handles err
      (create_dir (parent path) ∷ [])

abbrev pub chunk_for :
    Env
    → Bool
    → FileChunk
    → ℕ
    → Option FileEntry
    → IncomingTransfer
    → Dict FilePath
    → Option String
    → Written
chunk_for env overwrite c i none t handles err = (incoming t handles active err, [])
chunk_for env overwrite c i (some e) t handles err =
    if e.is_dir
    then (incoming t handles active err, [])
    else write_to env c i (target_of env overwrite t.root e (path_at t.resolved i)) t handles err

abbrev pub chunk_at :
    Env → Bool → FileChunk → Option ℕ → IncomingTransfer → Dict FilePath → Option String → Written
chunk_at env overwrite c none t handles err = (incoming t handles active err, [])
chunk_at env overwrite c (some i) t handles err =
    chunk_for env overwrite c i (get_elem? t.entries i) t handles err

-- A chunk is taken by an incoming transfer that is active, and by no other.
unfoldable pub take_chunk : Env → Bool → FileChunk → Tracked → Written
unfolding position_of target_of
take_chunk env overwrite c (incoming t handles active err) =
    chunk_at env overwrite c (position_of t c.index) t handles err
take_chunk env overwrite c (incoming t handles TransferState.pending err) =
    (incoming t handles TransferState.pending err, [])
take_chunk env overwrite c (incoming t handles completed err) =
    (incoming t handles completed err, [])
take_chunk env overwrite c (incoming t handles TransferState.failed err) =
    (incoming t handles TransferState.failed err, [])
take_chunk env overwrite c (incoming t handles cancelled err) =
    (incoming t handles cancelled err, [])
take_chunk env overwrite c (outgoing t st) = (outgoing t st, [])

abbrev pub store_chunk : TransferId → Written → Engine → Engine
store_chunk id (tracked, effects) s = record s {
  transfers = insert id tracked s.transfers;
  log = s.log ++ effects;
}

-- `on_chunk`; it is not told which peer the chunk came from.
unfoldable pub on_chunk : Env → FileChunk → Engine → Engine
unfolding take_chunk
on_chunk env c s = elim (lookup c.transfer s.transfers) [
  | none ↦ s
  | some tracked ↦
      store_chunk c.transfer (take_chunk env s.settings.transfer.overwrite_existing c tracked) s
]

abbrev pub first_failure : List (ℕ × String) → Option String
first_failure [] = none
first_failure ((i, message) ∷ rest) = some message

abbrev pub settle_incoming : IncomingTransfer → Option String → Option String → Tracked
settle_incoming t err none = incoming t [] completed err
settle_incoming t err (some message) = incoming t [] TransferState.failed (some message)

abbrev pub finish_incoming : FileFinished → Option Tracked → Engine → Engine
finish_incoming f none s = s
finish_incoming f (some (outgoing t st)) s = s
finish_incoming f (some (incoming t handles st err)) s = record s {
  transfers =
      insert f.transfer
        (settle_incoming (record t { done_bytes = done_or_total t.done_bytes t.total_bytes }) err
          (first_failure f.failed))
        s.transfers;
  log = s.log ++ notify (Notice.files_saved_notice t.peer_name) ∷ [];
}

-- `on_file_finished`
unfoldable pub on_file_finished : FileFinished → Engine → Engine
on_file_finished f s = say (publish ∷ []) (finish_incoming f (lookup f.transfer s.transfers) s)

-- `on_file_cancelled`
unfoldable pub on_file_cancelled : TransferId → String → Engine → Engine
on_file_cancelled id reason s = record s {
  transfers = modify id (set_state cancelled) s.transfers;
  log = s.log ++ (notify (Notice.transfer_cancelled_notice reason) ∷ publish ∷ []);
}

abbrev pub progress_at : FileProgressReport → Option ℕ → IncomingTransfer → IncomingTransfer
progress_at r none t = t
progress_at r (some i) t = record t {
  written = set t.written i r.bytes_done;
  done_bytes = (t.done_bytes - written_at t.written i + r.bytes_done) % 2 ^ 64;
}

abbrev pub report_progress : FileProgressReport → Tracked → Tracked
report_progress r (outgoing t st) = outgoing t st
report_progress r (incoming t handles st err) =
    incoming (progress_at r (position_of t r.index) t) handles st err

-- `Message::FileProgress`
unfoldable pub on_file_progress : FileProgressReport → Engine → Engine
unfolding position_of
on_file_progress r s = record s { transfers = modify r.transfer (report_progress r) s.transfers }
