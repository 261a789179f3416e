-- ===== src/Tests/Files.antt =====
-- The theorems on received names, free paths and frames, at concrete files.
use uniondesk.Common.{
  ◌^◌, ◌<◌, ◌≤◌, Bool, false, ◌≡◌, inl, refl, none, some, List, [], ◌∷◌, ◌++◌, map, All, is_empty,
  arith,
}
use uniondesk.Config.{FilePath, root_dir, normal}
use uniondesk.Protocol.{Text}
use uniondesk.Protocol.Chunk.{FileChunk, chunk, encode, decode, decode-encode}
use uniondesk.Transfer.{
  sanitize_relative, sanitize_component, push_all, push, split_slashes, starts_with, trim_start,
  trim_end, is_whitespace, is_reserved, reserved, stem, to_upper, ends_with_dot, is_relative_dir,
}
use uniondesk.Transfer.Paths.{IsSafe, sanitize_relative-below}
use uniondesk.Transfer.Fresh.{unique_path, unique_path-free}
use uniondesk.Engine.State.{
  IncomingTransfer, Tracked, incoming, TransferState, create_dir, write_file,
}
use uniondesk.Engine.Transfers.{position_of}
use uniondesk.Engine.Chunks.{take_chunk, target_of}
use uniondesk.Engine.Chunks.Writes.{IsConfined, Confined, take_chunk-Confined}
use uniondesk.Tests.{quiet}

abbrev pub downloads : FilePath
downloads = root_dir ∷ normal (100 ∷ []) ∷ []

-- "a/b"
abbrev pub nested : Text
nested = 97 ∷ 47 ∷ 98 ∷ []

abbrev pub landed : FilePath
landed = root_dir ∷ normal (100 ∷ []) ∷ normal (97 ∷ []) ∷ normal (98 ∷ []) ∷ []

lands : sanitize_relative nested downloads ≡ some landed
unfolding sanitize_relative sanitize_component push_all push split_slashes starts_with trim_start
    trim_end is_whitespace is_reserved reserved stem to_upper ends_with_dot is_relative_dir
lands = refl

-- "../b" is refused.
climbs : sanitize_relative (46 ∷ 46 ∷ 47 ∷ 98 ∷ []) downloads ≡ none
unfolding sanitize_relative sanitize_component push_all push split_slashes starts_with trim_start
    trim_end is_whitespace is_reserved reserved stem to_upper ends_with_dot is_relative_dir
climbs = refl

sanitize_relative-below_example :
    (names : List Text) × (is_empty names ≡ false)
    × All IsSafe names
    × (landed ≡ downloads ++ map normal names)
sanitize_relative-below_example = sanitize_relative-below nested downloads landed lands

abbrev piece : FileChunk
piece = record { transfer = 5; index = 1; offset = 70000; content = 1 ∷ 2 ∷ 3 ∷ [] }

small_64 : 5 < 2 ^ 64
small_64 = omega arith

small_index : 1 < 2 ^ 32
small_index = omega arith

small_offset : 70000 < 2 ^ 64
small_offset = omega arith

small_length : 3 < 2 ^ 32
small_length = omega arith

decode-encode_example : decode (encode piece) ≡ chunk piece
decode-encode_example = decode-encode piece small_64 small_index small_offset small_length

low : 2 ≤ 3
low = omega arith

below_limit : 3 < 10000
below_limit = omega arith

abbrev nothing_taken : FilePath → Bool
nothing_taken p = false

unique_path-free_example : nothing_taken (unique_path nothing_taken landed) ≡ false
unique_path-free_example = unique_path-free nothing_taken landed 3 low below_limit (inl refl)

abbrev pub arriving : IncomingTransfer
arriving = record {
  id = 5;
  peer = 2;
  peer_name = "machine";
  entries =
      record { index = 1; name = nested; relative_path = nested; size = 3; is_dir = false } ∷ [];
  total_bytes = 3;
  done_bytes = 0;
  started_at = 50;
  root = downloads;
  resolved = none ∷ [];
  written = 0 ∷ [];
}

abbrev tracked : Tracked
tracked = incoming arriving [] TransferState.active none

tracked-IsConfined : IsConfined downloads tracked
tracked-IsConfined = (refl, (tt, tt), tt)

take_chunk-Confined_example : Confined downloads (take_chunk quiet false piece tracked)
take_chunk-Confined_example =
    take_chunk-Confined downloads quiet false piece tracked tracked-IsConfined

-- The chunk is written to a new file in a new folder.
writes :
    (take_chunk quiet false piece tracked).1
    ≡ create_dir (root_dir ∷ normal (100 ∷ []) ∷ normal (97 ∷ []) ∷ [])
      ∷ write_file landed 70000 (1 ∷ 2 ∷ 3 ∷ [])
      ∷ []
unfolding take_chunk target_of position_of sanitize_relative sanitize_component push_all push
    split_slashes starts_with trim_start trim_end is_whitespace is_reserved reserved stem to_upper
    ends_with_dot is_relative_dir unique_path
writes = refl
