-- ===== src/Tests/Sending.antt =====
-- The theorems on sending files, at one file of five bytes.
use uniondesk.Common.{
  ℕ, zero, suc, ◌^◌, ◌<◌, true, false, none, some, List, [], ◌∷◌, ◌++◌, map, length, drop, ◌≡◌,
  refl, ap, All, arith,
}
use uniondesk.Config.{normal}
use uniondesk.Protocol.{Text, FileEntry}
use uniondesk.Transfer.{
  sanitize_relative, sanitize_component, push_all, push, split_slashes, starts_with, trim_start,
  trim_end, is_whitespace, is_reserved, reserved, stem, to_upper, ends_with_dot, is_relative_dir,
}
use uniondesk.Transfer.Paths.{IsSafe}
use uniondesk.Engine.State.{incoming, active, OutgoingFile}
use uniondesk.Engine.Transfers.{position_of}
use uniondesk.Engine.Chunks.{target_of, chosen}
use uniondesk.Engine.Collect.{Node, Nodes, nil, cons, file, collect_entries, walk_all, walk}
use uniondesk.Engine.Collect.Accepted.{collect_entries-accepted}
use uniondesk.Engine.Sender.{World, Opened, Read, got, stream, nothing_sent}
use uniondesk.Engine.Sender.Streaming.{Storage, write_all, content_of}
use uniondesk.Engine.Sender.Delivery.{receive_all, effects_of, Names, receive_all-stream}
use uniondesk.Tests.{quiet}
use uniondesk.Tests.Files.{arriving, downloads, landed, nested}

-- Writing past the end fills with zeros.
abbrev overwrite_at : ℕ → List ℕ → List ℕ → List ℕ
overwrite_at zero bytes old = bytes ++ drop (length bytes) old
overwrite_at (suc n) bytes [] = 0 ∷ overwrite_at n bytes []
overwrite_at (suc n) bytes (b ∷ old) = b ∷ overwrite_at n bytes old

overwrite_at-within :
    (front bytes back : List ℕ)
    → overwrite_at (length front) bytes (front ++ back)
      ≡ front ++ (bytes ++ drop (length bytes) back)
overwrite_at-within [] bytes back = refl
overwrite_at-within (b ∷ front) bytes back = ap (λ r. b ∷ r) (overwrite_at-within front bytes back)

abbrev disk : Storage
disk = record { write_at = overwrite_at; write_at-within = overwrite_at-within }

abbrev reads : List Read
reads = got (1 ∷ 2 ∷ 3 ∷ []) ∷ got (4 ∷ 5 ∷ []) ∷ got [] ∷ []

abbrev open_world : World
open_world = record { opens = λ p. Opened.opened reads; chunk_ok = λ n. true }

abbrev entry : FileEntry
entry = record { index = 1; name = nested; relative_path = nested; size = 3; is_dir = false }

arriving-Names : Names arriving 1 0 entry
unfolding position_of
arriving-Names = record { position = refl; entry = refl; is_file = refl }

chooses : target_of quiet true downloads entry none ≡ chosen landed
unfolding target_of sanitize_relative sanitize_component push_all push split_slashes starts_with
    trim_start trim_end is_whitespace is_reserved reserved stem to_upper ends_with_dot
    is_relative_dir
chooses = refl

short : length (content_of reads) < 2 ^ 64
short = omega arith

receive_all-stream_example :
    ((receive_all quiet true
        (stream open_world 5 1 reads 0 nothing_sent).sent
        (incoming arriving [] active none)).1
      ≡ effects_of landed (stream open_world 5 1 reads 0 nothing_sent).sent)
    × (write_all disk (stream open_world 5 1 reads 0 nothing_sent).sent (9 ∷ 9 ∷ 9 ∷ 9 ∷ 9 ∷ 9 ∷ [])
        ≡ 1 ∷ 2 ∷ 3 ∷ 4 ∷ 5 ∷ 9 ∷ [])
    × ((stream open_world 5 1 reads 0 nothing_sent).failure ≡ none)
receive_all-stream_example =
    receive_all-stream disk open_world quiet true 5 1 reads (9 ∷ 9 ∷ 9 ∷ 9 ∷ 9 ∷ 9 ∷ []) arriving []
      none 0 entry landed (λ n. refl) tt short arriving-Names refl chooses refl refl
      (λ offset. refl)

-- A folder "d" with a file "a" in it.
abbrev tree : Nodes
tree = cons (Node.dir (100 ∷ []) (cons (file (97 ∷ []) landed 5) nil)) nil

abbrev folder : OutgoingFile
folder = record {
  entry = record { index = 0; name = 100 ∷ []; relative_path = 100 ∷ []; size = 0; is_dir = true };
  source = none;
}

abbrev inner : OutgoingFile
inner = record {
  entry = record {
    index = 1;
    name = 97 ∷ [];
    relative_path = 100 ∷ 47 ∷ 97 ∷ [];
    size = 5;
    is_dir = false;
  };
  source = some landed;
}

collects : collect_entries tree ≡ some (folder ∷ inner ∷ [])
unfolding collect_entries walk_all walk sanitize_component trim_start trim_end is_whitespace
    is_reserved reserved stem to_upper ends_with_dot is_relative_dir
collects = refl

collect_entries-accepted_example :
    (names : List Text) × All IsSafe names
    × (sanitize_relative (100 ∷ 47 ∷ 97 ∷ []) downloads ≡ some (downloads ++ map normal names))
collect_entries-accepted_example =
    collect_entries-accepted tree (folder ∷ inner ∷ []) 1 inner downloads collects refl refl refl
