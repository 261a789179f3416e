-- ===== src/Protocol.antt =====
-- crates/ud-core/src/protocol.rs: what two machines say to each other. A text is a native string
-- where the program only stores and compares it, and a list of code points where it walks it.
pub mod Chunk
pub use Chunk.{FileChunk}
use uniondesk.Common.{ℕ, ◌+◌, Bool, true, false, String, Option, List, [], ◌∷◌, length}
use uniondesk.Float.{Float}
use uniondesk.Geom.{Side, DisplayInfo}
use uniondesk.Input.{InputEvent}
use uniondesk.Config.{DeviceId, OsKind}

-- The characters of a text that the program walks.
abbrev pub Text : Type 0
Text = List ℕ

pub record DeviceInfo : Type 0 where
  pub device_id : DeviceId
  pub name : String
  pub os : OsKind
  pub version : String
  pub fingerprint : String
  pub displays : List DisplayInfo

abbrev pub TransferId : Type 0
TransferId = ℕ

pub record FileEntry : Type 0 where
  pub index : ℕ
  pub name : Text
  pub relative_path : Text
  pub size : ℕ
  pub is_dir : Bool

pub record FileOffer : Type 0 where
  pub transfer : TransferId
  pub sender_name : String
  pub total_bytes : ℕ
  pub files : List FileEntry

pub record FileAccept : Type 0 where
  pub transfer : TransferId
  pub rejected : List ℕ

pub record FileProgressReport : Type 0 where
  pub transfer : TransferId
  pub index : ℕ
  pub bytes_done : ℕ

pub record FileFinished : Type 0 where
  pub transfer : TransferId
  pub failed : List (ℕ × String)

pub data ClipboardPayload : Type 0 where
  clip_text : Text → ClipboardPayload
  clip_image : ℕ → ℕ → List ℕ → ClipboardPayload
  clip_files : List Text → ClipboardPayload
  clip_clear : ClipboardPayload

pub data ClipboardKind : Type 0 where
  text_kind image_kind files_kind clear_kind : ClipboardKind

-- `ClipboardPayload::kind`
unfoldable pub clipboard_kind : ClipboardPayload → ClipboardKind
clipboard_kind (clip_text t) = text_kind
clipboard_kind (clip_image w h png) = image_kind
clipboard_kind (clip_files paths) = files_kind
clipboard_kind clip_clear = clear_kind

unfoldable pub total_length : List Text → ℕ
total_length [] = 0
total_length (p ∷ ps) = length p + total_length ps

-- `approx_bytes`, of texts given by their bytes.
unfoldable pub approx_bytes : ClipboardPayload → ℕ
unfolding total_length
approx_bytes (clip_text t) = length t
approx_bytes (clip_image w h png) = length png
approx_bytes (clip_files paths) = total_length paths
approx_bytes clip_clear = 0

pub data InputControl : Type 0 where
  enter : Float → Float → Side → Bool → InputControl
  release : Float → Float → InputControl
  return_home : Float → Float → InputControl
  reset_keys : InputControl

pub data Message : Type 0 where
  hello : ℕ → DeviceInfo → Message
  hello_ack : ℕ → DeviceInfo → Message
  pair_required : Text → Message
  pair_response : Text → DeviceInfo → Message
  pair_result : Bool → Option String → Message
  ping : ℕ → Message
  pong : ℕ → Message
  displays : List DisplayInfo → Message
  input : InputEvent → Message
  control : InputControl → Message
  clipboard : ClipboardPayload → Message
  file_offer : FileOffer → Message
  file_accept : FileAccept → Message
  file_progress : FileProgressReport → Message
  file_finished : FileFinished → Message
  file_cancel : TransferId → String → Message
  bye : String → Message
  error : String → Message

-- `Message::is_urgent`
unfoldable pub is_urgent : Message → Bool
is_urgent (hello n d) = false
is_urgent (input e) = true
is_urgent (control c) = true
is_urgent _ = false
