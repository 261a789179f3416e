-- ===== src/Clipboard/Echo.antt =====
-- What is applied from a peer is not reported back.
use uniondesk.Common.{
  ℕ, true, false, ◌||◌, Option, none, some, List, [], ◌∷◌, ◌++◌, ltb, length, is_empty,
  if◌then◌else◌, ◌≡◌, refl, sym, ◌∙◌, ap, ==_refl, Bool-cases, inl, inr,
}
use uniondesk.Protocol.{Text, ClipboardPayload, clip_text, clip_files}
use uniondesk.Transfer.{text_eq}
use uniondesk.Engine.Dispatch.{changed}
use uniondesk.Clipboard.{
  System, Worker, same_digest, digest_of_snapshot, snapshot, write, apply, poll, tell, written,
}

text_eq_refl : (t : Text) → text_eq t t ≡ true
text_eq_refl [] = refl
text_eq_refl (c ∷ cs) = rw (==_refl c, text_eq_refl cs) refl

same_digest_refl : (d : Option (List ℕ)) → same_digest d d ≡ true
same_digest_refl none = refl
same_digest_refl (some a) = text_eq_refl a

poll_same :
    {Board : Type 0} (sys : System Board) (s : Worker Board)
    → same_digest (digest_of_snapshot sys (snapshot sys s.limits s.board)) s.last ≡ true
    → poll sys s ≡ s
unfolding poll
poll_same sys s h =
    ap
      (λ b.
        if b
        then s
        else tell sys (snapshot sys s.limits s.board)
            (record s { last = digest_of_snapshot sys (snapshot sys s.limits s.board) }))
      h

poll_new :
    {Board : Type 0} (sys : System Board) (s : Worker Board)
    → same_digest (digest_of_snapshot sys (snapshot sys s.limits s.board)) s.last ≡ false
    → poll sys s
      ≡ tell sys
          (snapshot sys s.limits s.board)
          (record s { last = digest_of_snapshot sys (snapshot sys s.limits s.board) })
unfolding poll
poll_new sys s h =
    ap
      (λ b.
        if b
        then s
        else tell sys (snapshot sys s.limits s.board)
            (record s { last = digest_of_snapshot sys (snapshot sys s.limits s.board) }))
      h

-- A payload that is applied, and that the clipboard then shows as it was given, is not reported back: the
-- next poll finds nothing new and changes nothing.
pub poll-apply :
    {Board : Type 0} (sys : System Board) (p : ClipboardPayload) (b : Board) (s : Worker Board)
    → write sys p s.board ≡ some b
    → snapshot sys s.limits b ≡ some p
    → poll sys (apply sys p s) ≡ apply sys p s
unfolding apply
poll-apply sys p b s h shown =
    let path = ap (λ o. written sys p o s) h in
    let after = record s { board = b; last = digest_of_snapshot sys (some p) } in
    let same =
      ap (λ q. same_digest (digest_of_snapshot sys q) (digest_of_snapshot sys (some p))) shown in
    ap (poll sys) path
    ∙ (poll_same sys after (same ∙ same_digest_refl (digest_of_snapshot sys (some p))) ∙ sym path)

-- A text that a peer sends, not empty and within the limit, on a system whose clipboard gives back a text
-- that has been set, is put on the clipboard while texts are shared and is not reported back.
pub poll-apply_text :
    {Board : Type 0} (sys : System Board) (t : Text) (b : Board) (s : Worker Board)
    → sys.set_text t s.board ≡ some b
    → sys.get_text b ≡ some t
    → s.limits.text ≡ true
    → (is_empty t || ltb s.limits.max_bytes (length (sys.utf8 t))) ≡ false
    → ((apply sys (clip_text t) s).board ≡ b)
      × (poll sys (apply sys (clip_text t) s) ≡ apply sys (clip_text t) s)
unfolding apply write snapshot
poll-apply_text sys t b s h back on fits =
    let shown : snapshot sys s.limits b ≡ some (clip_text t) = rw (on, back, fits) refl in
    (ap (λ o. (written sys (clip_text t) o s).board) h, poll-apply sys (clip_text t) b s h shown)

poll_told :
    {Board : Type 0} (sys : System Board) (o : Option ClipboardPayload) (w : Worker Board)
    → same_digest (digest_of_snapshot sys (snapshot sys w.limits w.board)) w.last ≡ true
    → poll sys (tell sys o w) ≡ tell sys o w
poll_told sys none w h = poll_same sys w h
poll_told sys (some p) w h = poll_same sys (tell sys (some p) w) h

-- A change is reported once: a second poll on the same clipboard adds nothing.
pub poll-poll :
    {Board : Type 0} (sys : System Board) (s : Worker Board) → poll sys (poll sys s) ≡ poll sys s
poll-poll sys s =
    let current = snapshot sys s.limits s.board in
    let now = record s { last = digest_of_snapshot sys current } in
    elim (Bool-cases (same_digest (digest_of_snapshot sys current) s.last)) [
      | inl e ↦ ap (poll sys) (poll_same sys s e)
      | inr e ↦
          let path = poll_new sys s e in
          ap (poll sys) path
          ∙ (poll_told sys current now (same_digest_refl (digest_of_snapshot sys current))
              ∙ sym path)
    ]

-- A list of files from a peer is not put on the clipboard, yet it counts as what was seen last: the next
-- poll reports what this machine's own clipboard has had all along, unless the hash of that is the hash
-- of the list.
pub poll-apply_files :
    {Board : Type 0} (sys : System Board) (paths : List Text) (p : ClipboardPayload)
    (s : Worker Board)
    → snapshot sys s.limits s.board ≡ some p
    → same_digest
        (digest_of_snapshot sys (some p))
        (digest_of_snapshot sys (some (clip_files paths)))
      ≡ false
    → ((poll sys (apply sys (clip_files paths) s)).board ≡ s.board)
      × ((poll sys (apply sys (clip_files paths) s)).events ≡ s.events ++ changed p ∷ [])
unfolding apply write
poll-apply_files sys paths p s shown differs =
    let after = record s { last = digest_of_snapshot sys (some (clip_files paths)) } in
    let new =
      ap
        (λ q.
          same_digest (digest_of_snapshot sys q) (digest_of_snapshot sys (some (clip_files paths))))
        shown
      ∙ differs in
    let path =
      poll_new sys after new
      ∙ ap (λ q. tell sys q (record after { last = digest_of_snapshot sys q })) shown in
    (ap (λ w. w.board) path, ap (λ w. w.events) path)
