-- ===== src/Session/Endings.antt =====
-- A connection that has ended stays ended, and an item that cannot be encoded ends it.
use uniondesk.Common.{
  Bool, true, false, not, List, [], ◌∷◌, ◌++◌, inl, ltb, length, if◌then◌else◌, ◌≡◌, refl, sym, ◌∙◌,
  ap, subst,
}
use uniondesk.Codec.{Bytes, Outgoing, CodecError, Json, encode_inner}
use uniondesk.Session.{
  Cipher, Writer, stop, write_item, encrypt, next_item, write_turn, Turn, urgent_message, submit,
  write, cancel, turn, run, try_send_urgent, send, after_submit, normal_queue, closed, queued,
  waits,
}

-- The connection is over, and this is what it sent.
pub record IsOver (sent : List Outgoing) (wire : Bytes) (t : Writer) : Type 0 where
  pub same_sent : t.sent ≡ sent
  pub same_wire : t.wire ≡ wire
  pub is_stopped : t.is_running ≡ false
  pub is_gone : t.is_cancelled ≡ true

stays :
    (sent : List Outgoing) (wire : Bytes) (s t : Writer)
    → t ≡ s
    → IsOver sent wire s
    → IsOver sent wire t
stays sent wire s t e o = subst (IsOver sent wire) (sym e) o

refuses : (b : Bool) (x y : Bool × Writer) → b ≡ false → (if not b then x else y).1 ≡ x.1
refuses true x y h = absurd cc
refuses false x y h = refl

turn-IsOver :
    (serde : Json) (cipher : Cipher) (t : Turn) (sent : List Outgoing) (wire : Bytes) (s : Writer)
    → IsOver sent wire s
    → IsOver sent wire (turn serde cipher t s)
unfolding turn try_send_urgent send write_turn
turn-IsOver serde cipher (urgent_message m) sent wire s o =
    stays sent wire s _ (refuses s.is_running (false, s) _ o.is_stopped) o
turn-IsOver serde cipher (submit item) sent wire s o =
    stays sent wire s _
      (ap
        (λ b.
          after_submit
            (if not b
              then closed
              else if ltb (length s.normal) normal_queue
              then queued (record s { normal = s.normal ++ item ∷ [] })
              else waits)
            s)
        o.is_stopped)
      o
turn-IsOver serde cipher (write is_taken) sent wire s o =
    stays sent wire s _
      (ap
        (λ b.
          if not b
          then s
          else if s.is_cancelled
          then stop s
          else next_item serde cipher is_taken s.urgent s.normal s)
        o.is_stopped)
      o
turn-IsOver serde cipher cancel sent wire s o = record {
  same_sent = o.same_sent;
  same_wire = o.same_wire;
  is_stopped = o.is_stopped;
  is_gone = refl;
}

run-IsOver :
    (serde : Json) (cipher : Cipher) (turns : List Turn) (sent : List Outgoing) (wire : Bytes)
    (s : Writer)
    → IsOver sent wire s
    → IsOver sent wire (run serde cipher turns s)
unfolding run
run-IsOver serde cipher [] sent wire s o = o
run-IsOver serde cipher (t ∷ turns) sent wire s o =
    run-IsOver serde cipher turns sent wire (turn serde cipher t s)
      (turn-IsOver serde cipher t sent wire s o)

-- When the next item of the normal queue cannot be encoded, as a message whose JSON is longer than a record,
-- the round that takes it ends the whole connection: whatever happens afterwards, nothing more goes out,
-- neither that item nor what is queued behind it, and the connection is cancelled.
pub write_turn-unencodable :
    (serde : Json) (cipher : Cipher) (is_taken : Bool) (turns : List Turn) (s : Writer)
    (item : Outgoing) (behind : List Outgoing) (err : CodecError)
    → s.is_running ≡ true
    → s.is_cancelled ≡ false
    → s.urgent ≡ []
    → s.normal ≡ item ∷ behind
    → encode_inner serde item ≡ inl err
    → IsOver s.sent s.wire (run serde cipher turns (write_turn serde cipher is_taken s))
unfolding write_turn write_item
write_turn-unencodable serde cipher is_taken turns s item behind err on live none_urgent next e =
    let over : Writer = record s { normal = behind; is_cancelled = true; is_running = false } in
    let path : write_turn serde cipher is_taken s ≡ over =
      ap
        (λ b.
          if not b
          then s
          else if s.is_cancelled
          then stop s
          else next_item serde cipher is_taken s.urgent s.normal s)
        on
      ∙ (ap (λ b. if b then stop s else next_item serde cipher is_taken s.urgent s.normal s) live
          ∙ (ap (λ u. next_item serde cipher is_taken u s.normal s) none_urgent
              ∙ (ap (λ n. next_item serde cipher is_taken [] n s) next
                  ∙ ap (λ o. encrypt cipher is_taken item o (record s { normal = behind })) e))) in
    run-IsOver serde cipher turns s.sent s.wire (write_turn serde cipher is_taken s) (
      subst (IsOver s.sent s.wire) (sym path)
        (record { same_sent = refl; same_wire = refl; is_stopped = refl; is_gone = refl }))
