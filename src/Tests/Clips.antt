-- ===== src/Tests/Clips.antt =====
-- The theorems on the clipboard, with a clipboard that holds a text or nothing.
use uniondesk.Common.{Option, true, false, none, some, [], ◌∷◌, ◌++◌, ◌≡◌, refl}
use uniondesk.Protocol.{Text, clip_text, clip_files}
use uniondesk.Engine.Dispatch.{changed}
use uniondesk.Engine.State.{Limits}
use uniondesk.Clipboard.{System, Worker, same_digest, digest_of_snapshot, snapshot, apply, poll}
use uniondesk.Clipboard.Echo.{poll-apply_text, poll-apply_files, poll-poll}

abbrev simple : System (Option Text)
simple = record {
  get_text = λ b. b;
  get_image = λ b. none;
  set_text = λ t b. some (some t);
  set_image = λ p b. none;
  clear = λ b. some none;
  utf8 = λ t. t;
  sha256 = λ bytes. bytes;
  encode_png = λ p. none;
  decode_png = λ png. none;
}

abbrev limits : Limits
limits = record { text = true; images = true; max_bytes = 100 }

-- It shows "a".
abbrev worker : Worker (Option Text)
worker = record {
  board = some (97 ∷ []);
  limits = limits;
  last = some (0 ∷ 97 ∷ []);
  events = [];
  is_running = true;
}

poll-apply_text_example :
    ((apply simple (clip_text (98 ∷ [])) worker).board ≡ some (98 ∷ []))
    × (poll simple (apply simple (clip_text (98 ∷ [])) worker)
        ≡ apply simple (clip_text (98 ∷ [])) worker)
poll-apply_text_example =
    poll-apply_text simple (98 ∷ []) (some (98 ∷ [])) worker refl refl refl refl

shows_a : snapshot simple limits (some (97 ∷ [])) ≡ some (clip_text (97 ∷ []))
unfolding snapshot
shows_a = refl

differs :
    same_digest
      (digest_of_snapshot simple (some (clip_text (97 ∷ []))))
      (digest_of_snapshot simple (some (clip_files [])))
    ≡ false
unfolding digest_of_snapshot
differs = refl

poll-apply_files_example :
    ((poll simple (apply simple (clip_files []) worker)).board ≡ some (97 ∷ []))
    × ((poll simple (apply simple (clip_files []) worker)).events
        ≡ [] ++ changed (clip_text (97 ∷ [])) ∷ [])
poll-apply_files_example = poll-apply_files simple [] (clip_text (97 ∷ [])) worker shows_a differs

poll-poll_example : poll simple (poll simple worker) ≡ poll simple worker
poll-poll_example = poll-poll simple worker
