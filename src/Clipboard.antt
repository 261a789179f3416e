-- ===== src/Clipboard.antt =====
-- The worker of crates/ud-clipboard/src/lib.rs: what it makes of the clipboard, and what it reports. The system
-- clipboard, the hash and the PNG library are parameters, as is the UTF-8 form of a text.
pub mod Echo
use uniondesk.Common.{
  ℕ, ◌+◌, ◌%◌, ◌^◌, Bool, true, false, not, ◌||◌, Option, none, some, List, [], ◌∷◌, ◌++◌, ltb,
  length, take, is_empty, if◌then◌else◌,
}
use uniondesk.Protocol.{Text, ClipboardPayload, clip_text, clip_image, clip_files, clip_clear}
use uniondesk.Protocol.Chunk.{to_le_bytes}
use uniondesk.Transfer.{text_eq}
use uniondesk.Engine.State.{Limits}
use uniondesk.Engine.Dispatch.{ClipboardEvent, changed, clipboard_error}

-- `arboard::ImageData`
pub record Picture : Type 0 where
  pub width : ℕ
  pub height : ℕ
  pub rgba : List ℕ

-- What the worker uses of the libraries, over the contents of a system clipboard.
pub record System (Board : Type 0) : Type 0 where
  pub get_text : Board → Option Text
  pub get_image : Board → Option Picture
  pub set_text : Text → Board → Option Board
  pub set_image : Picture → Board → Option Board
  pub clear : Board → Option Board
  pub utf8 : Text → List ℕ
  pub sha256 : List ℕ → List ℕ
  pub encode_png : Picture → Option (List ℕ)
  pub decode_png : List ℕ → Option Picture

-- `Command`
pub data Command : Type 0 where
  apply_payload : ClipboardPayload → Command
  limit : Limits → Command
  shutdown : Command

-- What the worker keeps, with the clipboard it watches and what it has reported.
pub record Worker (Board : Type 0) : Type 0 where
  pub board : Board
  pub limits : Limits
  pub last : Option (List ℕ)
  pub events : List ClipboardEvent
  pub is_running : Bool

-- Two digests, or their absence, are the same.
abbrev pub same_digest : Option (List ℕ) → Option (List ℕ) → Bool
same_digest none none = true
same_digest (some a) (some b) = text_eq a b
same_digest _ _ = false

abbrev pub either_payload :
    Option ClipboardPayload → Option ClipboardPayload → Option ClipboardPayload
either_payload (some p) other = some p
either_payload none other = other

module _ {Board : Type 0} (sys : System Board) where
  abbrev pub with_zeros : List Text → List ℕ
  with_zeros [] = []
  with_zeros (p ∷ paths) = sys.utf8 p ++ 0 ∷ with_zeros paths

  -- What is hashed of a payload.
  abbrev pub hashed : ClipboardPayload → List ℕ
  hashed (clip_text t) = 0 ∷ sys.utf8 t
  hashed (clip_image w h png) = 1 ∷ (to_le_bytes 4 w ++ (to_le_bytes 4 h ++ png))
  hashed (clip_files paths) = 2 ∷ with_zeros paths
  hashed clip_clear = 3 ∷ []

  -- `digest_of_snapshot`; the hash is cut to 16 bytes.
  unfoldable pub digest_of_snapshot : Option ClipboardPayload → Option (List ℕ)
  unfolding to_le_bytes
  digest_of_snapshot none = none
  digest_of_snapshot (some p) = some (take 16 (sys.sha256 (hashed p)))

  abbrev pub text_payload : Limits → Option Text → Option ClipboardPayload
  text_payload limits none = none
  text_payload limits (some t) =
      if is_empty t || ltb limits.max_bytes (length (sys.utf8 t)) then none else some (clip_text t)

  abbrev pub png_payload : Limits → Picture → Option (List ℕ) → Option ClipboardPayload
  png_payload limits p none = none
  png_payload limits p (some png) =
      if ltb limits.max_bytes (length png)
      then none
      else some (clip_image (p.width % 2 ^ 32) (p.height % 2 ^ 32) png)

  abbrev pub image_payload : Limits → Option Picture → Option ClipboardPayload
  image_payload limits none = none
  image_payload limits (some p) = png_payload limits p (sys.encode_png p)

  -- `snapshot`: text before an image.
  unfoldable pub snapshot : Limits → Board → Option ClipboardPayload
  snapshot limits board =
      either_payload (if limits.text then text_payload limits (sys.get_text board) else none)
        (if limits.images then image_payload limits (sys.get_image board) else none)

  abbrev pub write_picture : Board → Option Picture → Option Board
  write_picture board none = none
  write_picture board (some p) = sys.set_image p board

  -- `write`; `none` is an error.
  unfoldable pub write : ClipboardPayload → Board → Option Board
  write (clip_text t) board = sys.set_text t board
  write (clip_image w h png) board = write_picture board (sys.decode_png png)
  write (clip_files paths) board = some board
  write clip_clear board = sys.clear board

  abbrev pub written : ClipboardPayload → Option Board → Worker Board → Worker Board
  written p none s = record s {
    events = s.events ++ clipboard_error "the clipboard is unavailable" ∷ [];
  }
  written p (some b) s = record s { board = b; last = digest_of_snapshot (some p) }

  -- `Command::Apply`
  unfoldable pub apply : ClipboardPayload → Worker Board → Worker Board
  unfolding write digest_of_snapshot
  apply p s = written p (write p s.board) s

  -- `Command::SetLimits`
  unfoldable pub set_limits : Limits → Worker Board → Worker Board
  unfolding digest_of_snapshot snapshot
  set_limits limits s = record s {
    limits = limits;
    last = digest_of_snapshot (snapshot limits s.board);
  }

  abbrev pub tell : Option ClipboardPayload → Worker Board → Worker Board
  tell none s = s
  tell (some p) s = record s { events = s.events ++ changed p ∷ [] }

  -- The poll at the end of a round, when it is due.
  unfoldable pub poll : Worker Board → Worker Board
  unfolding digest_of_snapshot snapshot
  poll s =
      let current = snapshot s.limits s.board in
      let digest = digest_of_snapshot current in
      if same_digest digest s.last then s else tell current (record s { last = digest })

  -- The worker as it starts, once the clipboard is open.
  unfoldable pub start : Limits → Board → Worker Board
  unfolding digest_of_snapshot snapshot
  start limits board = record {
    board = board;
    limits = limits;
    last = digest_of_snapshot (snapshot limits board);
    events = [];
    is_running = true;
  }

  -- One round of the loop: the command that came in time, if one did, and whether a poll is due.
  unfoldable pub round : Option Command → Bool → Worker Board → Worker Board
  unfolding apply set_limits poll
  round none due s = if due then poll s else s
  round (some (apply_payload p)) due s = let after = apply p s in if due then poll after else after
  round (some (limit l)) due s = let after = set_limits l s in if due then poll after else after
  round (some shutdown) due s = record s { is_running = false }
