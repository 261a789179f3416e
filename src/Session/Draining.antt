-- ===== src/Session/Draining.antt =====
-- The queues become empty, and an item that cannot be encoded ends the connection.
use uniondesk.Common.{
  ℕ, zero, suc, ◌+◌, ◌%◌, ◌^◌, true, false, not, some, List, [], ◌∷◌, ◌++◌, inr, length, All,
  if◌then◌else◌, ◌≡◌, refl, sym, ◌∙◌, ap, subst,
}
use uniondesk.Codec.{Bytes, Outgoing, Json, encode_inner, write_record}
use uniondesk.Session.{Cipher, Writer, stop, write_item, encrypt, seal, put, next_item, write_turn}

-- So many rounds of the writer, on a socket that takes all bytes.
abbrev pub write_turns : Json → Cipher → ℕ → Writer → Writer
write_turns serde cipher zero s = s
write_turns serde cipher (suc n) s = write_turns serde cipher n (write_turn serde cipher true s)

-- Every item of a list can be encoded, and what it becomes can be encrypted into one record.
pub record CanSend (serde : Json) (cipher : Cipher) (x : Outgoing) : Type 0 where
  pub plain : Bytes
  pub encodes : encode_inner serde x ≡ inr plain
  pub seals :
      (n : ℕ)
      → (sealed : Bytes) × (bytes : Bytes) × (cipher.write_message n plain ≡ some sealed)
        × (write_record sealed ≡ inr bytes)

-- What one written item leaves alone, and what it adds.
record Wrote (x : Outgoing) (s t : Writer) : Type 0 where
  sends : t.sent ≡ s.sent ++ x ∷ []
  keeps_urgent : t.urgent ≡ s.urgent
  keeps_normal : t.normal ≡ s.normal
  keeps_running : t.is_running ≡ s.is_running
  keeps_cancelled : t.is_cancelled ≡ s.is_cancelled

write_item-Wrote :
    (serde : Json) (cipher : Cipher) (x : Outgoing) (s : Writer)
    → CanSend serde cipher x
    → Wrote x s (write_item serde cipher true x s)
unfolding write_item
write_item-Wrote serde cipher x s c =
    let (sealed, bytes, e, w) = c.seals s.nonce in
    let next : Writer = record s { nonce = (s.nonce + 1) % 2 ^ 64 } in
    let path : write_item serde cipher true x s ≡ put true x (inr bytes) next =
      ap (λ o. encrypt cipher true x o s) c.encodes
      ∙ (ap (λ o. seal true x o s) e ∙ ap (λ o. put true x o next) w) in
    subst (Wrote x s) (sym path) (record {
      sends = refl;
      keeps_urgent = refl;
      keeps_normal = refl;
      keeps_running = refl;
      keeps_cancelled = refl;
    })

-- A running writer with these queues.
record IsAt (sent urgent normal : List Outgoing) (s : Writer) : Type 0 where
  at_sent : s.sent ≡ sent
  at_urgent : s.urgent ≡ urgent
  at_normal : s.normal ≡ normal
  runs : s.is_running ≡ true
  lives : s.is_cancelled ≡ false

turn_at :
    (serde : Json) (cipher : Cipher) (sent urgent normal : List Outgoing) (s : Writer)
    → IsAt sent urgent normal s
    → write_turn serde cipher true s ≡ next_item serde cipher true urgent normal s
unfolding write_turn
turn_at serde cipher sent urgent normal s a =
    let e = a.runs in
    let f = a.lives in
    ap
      (λ b.
        if not b
        then s
        else if s.is_cancelled
        then stop s
        else next_item serde cipher true s.urgent s.normal s)
      e
    ∙ (ap (λ b. if b then stop s else next_item serde cipher true s.urgent s.normal s) f
        ∙ (ap (λ u. next_item serde cipher true u s.normal s) a.at_urgent
            ∙ ap (λ n. next_item serde cipher true urgent n s) a.at_normal))

append_assoc : {A : Type 0} (xs ys zs : List A) → (xs ++ ys) ++ zs ≡ xs ++ (ys ++ zs)
append_assoc [] ys zs = refl
append_assoc (x ∷ xs) ys zs = ap (λ r. x ∷ r) (append_assoc xs ys zs)

append_nil : {A : Type 0} (xs : List A) → xs ++ [] ≡ xs
append_nil [] = refl
append_nil (x ∷ xs) = ap (λ r. x ∷ r) (append_nil xs)

drains_normal :
    (serde : Json) (cipher : Cipher) (normal sent : List Outgoing) (s : Writer)
    → All (CanSend serde cipher) normal
    → IsAt sent [] normal s
    → IsAt (sent ++ normal) [] [] (write_turns serde cipher (length normal) s)
drains_normal serde cipher [] sent s all a = subst (λ l. IsAt l [] [] s) (sym (append_nil sent)) a
drains_normal serde cipher (x ∷ normal) sent s (c, all) a =
    let w = write_item-Wrote serde cipher x (record s { normal = normal }) c in
    let next = write_turn serde cipher true s in
    let step = turn_at serde cipher sent [] (x ∷ normal) s a in
    let at_next : IsAt (sent ++ x ∷ []) [] normal next =
      subst (IsAt (sent ++ x ∷ []) [] normal) (sym step) (record {
        at_sent = w.sends ∙ ap (λ l. l ++ x ∷ []) a.at_sent;
        at_urgent = w.keeps_urgent ∙ a.at_urgent;
        at_normal = w.keeps_normal;
        runs = w.keeps_running ∙ a.runs;
        lives = w.keeps_cancelled ∙ a.lives;
      }) in
    subst (λ l. IsAt l [] [] (write_turns serde cipher (length normal) next))
      (append_assoc sent (x ∷ []) normal)
      (drains_normal serde cipher normal (sent ++ x ∷ []) next all at_next)

drains :
    (serde : Json) (cipher : Cipher) (urgent normal sent : List Outgoing) (s : Writer)
    → All (CanSend serde cipher) urgent
    → All (CanSend serde cipher) normal
    → IsAt sent urgent normal s
    → IsAt
        (sent ++ (urgent ++ normal))
        []
        []
        (write_turns serde cipher (length (urgent ++ normal)) s)
drains serde cipher [] normal sent s us ns a = drains_normal serde cipher normal sent s ns a
drains serde cipher (x ∷ urgent) normal sent s (c, us) ns a =
    let w = write_item-Wrote serde cipher x (record s { urgent = urgent }) c in
    let next = write_turn serde cipher true s in
    let step = turn_at serde cipher sent (x ∷ urgent) normal s a in
    let at_next : IsAt (sent ++ x ∷ []) urgent normal next =
      subst (IsAt (sent ++ x ∷ []) urgent normal) (sym step) (record {
        at_sent = w.sends ∙ ap (λ l. l ++ x ∷ []) a.at_sent;
        at_urgent = w.keeps_urgent;
        at_normal = w.keeps_normal ∙ a.at_normal;
        runs = w.keeps_running ∙ a.runs;
        lives = w.keeps_cancelled ∙ a.lives;
      }) in
    subst (λ l. IsAt l [] [] (write_turns serde cipher (length (urgent ++ normal)) next))
      (append_assoc sent (x ∷ []) (urgent ++ normal))
      (drains serde cipher urgent normal (sent ++ x ∷ []) next us ns at_next)

-- A connection that runs and is not cancelled gets rid of everything that is queued: after as many rounds
-- of its writer as there are items, on a socket that takes them, both queues are empty, the loop still
-- runs, and what went out is what had gone out before, then the urgent items and then the others, each
-- queue in its order. Every queued item is taken to be one that can be encoded and encrypted.
pub write_turns-drains :
    (serde : Json) (cipher : Cipher) (s : Writer)
    → All (CanSend serde cipher) s.urgent
    → All (CanSend serde cipher) s.normal
    → s.is_running ≡ true
    → s.is_cancelled ≡ false
    → (let t = write_turns serde cipher (length (s.urgent ++ s.normal)) s in
        (t.sent ≡ s.sent ++ (s.urgent ++ s.normal))
        × (t.urgent ≡ [])
        × (t.normal ≡ [])
        × (t.is_running ≡ true))
write_turns-drains serde cipher s us ns on live =
    let a =
      drains serde cipher s.urgent s.normal s.sent s us ns
        (record { at_sent = refl; at_urgent = refl; at_normal = refl; runs = on; lives = live }) in
    (a.at_sent, a.at_urgent, a.at_normal, a.runs)
