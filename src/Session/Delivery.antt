-- ===== src/Session/Delivery.antt =====
-- However the tasks take turns, the other side gets what went out.
use uniondesk.Common.{
  ◌+◌, ◌%◌, ◌^◌, Bool, true, false, not, Option, none, some, List, [], ◌∷◌, ◌++◌, ◌⊎◌, inl, inr,
  ltb, length, map, if◌then◌else◌, ◌≡◌, refl, sym, ap, All, Bool-cases, subst,
}
use uniondesk.Codec.{Bytes, Outgoing, CodecError, Json, encode_inner, write_record}
use uniondesk.Codec.Tags.{FitsFrame}
use uniondesk.Session.{
  Cipher, Writer, new_writer, stop, put, seal, encrypt, write_item, next_item, write_turn, Turn,
  urgent_message, submit, write, cancel, turn, run, new_reader, read_turns, try_send_urgent, send,
  after_submit, queued, waits, closed,
}
use uniondesk.Session.{urgent_queue, normal_queue}
use uniondesk.Session.Wire.{
  IsFaithful, incoming_of, Follows, start-Follows, stopped, written-Follows,
}

put-Follows :
    (serde : Json) (cipher : Cipher) (is_taken : Bool) (s : Writer) (x : Outgoing)
    (plain sealed : Bytes) (o : CodecError ⊎ Bytes)
    → write_record sealed ≡ o
    → IsFaithful serde cipher
    → Follows serde cipher s
    → s.is_running ≡ true
    → encode_inner serde x ≡ inr plain
    → cipher.write_message s.nonce plain ≡ some sealed
    → Follows serde cipher (put is_taken x o (record s { nonce = (s.nonce + 1) % 2 ^ 64 }))
put-Follows serde cipher is_taken s x plain sealed (inl err) w faith f on e c =
    stopped serde cipher s.nonce _ s.wire s.sent s.is_running f
put-Follows serde cipher false s x plain sealed (inr bytes) w faith f on e c =
    stopped serde cipher s.nonce _ s.wire s.sent s.is_running f
put-Follows serde cipher true s x plain sealed (inr bytes) w faith f on e c =
    let now = written-Follows serde cipher s x plain sealed bytes faith f on e c w in
    record { heard = now.heard; follow = λ rest fits yes. now.follow rest fits refl }

seal-Follows :
    (serde : Json) (cipher : Cipher) (is_taken : Bool) (s : Writer) (x : Outgoing) (plain : Bytes)
    (o : Option Bytes)
    → cipher.write_message s.nonce plain ≡ o
    → IsFaithful serde cipher
    → Follows serde cipher s
    → s.is_running ≡ true
    → encode_inner serde x ≡ inr plain
    → Follows serde cipher (seal is_taken x o s)
unfolding write_record
seal-Follows serde cipher is_taken s x plain none c faith f on e =
    stopped serde cipher s.nonce _ s.wire s.sent s.is_running f
seal-Follows serde cipher is_taken s x plain (some sealed) c faith f on e =
    put-Follows serde cipher is_taken s x plain sealed (write_record sealed) refl faith f on e c

encrypt-Follows :
    (serde : Json) (cipher : Cipher) (is_taken : Bool) (s : Writer) (x : Outgoing)
    (o : CodecError ⊎ Bytes)
    → encode_inner serde x ≡ o
    → IsFaithful serde cipher
    → Follows serde cipher s
    → s.is_running ≡ true
    → Follows serde cipher (encrypt cipher is_taken x o s)
encrypt-Follows serde cipher is_taken s x (inl err) e faith f on =
    stopped serde cipher s.nonce _ s.wire s.sent s.is_running f
encrypt-Follows serde cipher is_taken s x (inr plain) e faith f on =
    seal-Follows serde cipher is_taken s x plain (cipher.write_message s.nonce plain) refl faith f
      on e

next_item-Follows :
    (serde : Json) (cipher : Cipher) (is_taken : Bool) (urgent normal : List Outgoing) (s : Writer)
    → IsFaithful serde cipher
    → Follows serde cipher s
    → s.is_running ≡ true
    → Follows serde cipher (next_item serde cipher is_taken urgent normal s)
unfolding write_item
next_item-Follows serde cipher is_taken (x ∷ urgent) normal s faith f on =
    encrypt-Follows serde cipher is_taken (record s { urgent = urgent }) x (encode_inner serde x)
      refl faith f on
next_item-Follows serde cipher is_taken [] (x ∷ normal) s faith f on =
    encrypt-Follows serde cipher is_taken (record s { normal = normal }) x (encode_inner serde x)
      refl faith f on
next_item-Follows serde cipher is_taken [] [] s faith f on = f

either-Follows :
    (serde : Json) (cipher : Cipher) (b : Bool) (x y : Writer)
    → Follows serde cipher x
    → Follows serde cipher y
    → Follows serde cipher (if b then x else y)
either-Follows serde cipher true x y p q = p
either-Follows serde cipher false x y p q = q

write_turn-Follows :
    (serde : Json) (cipher : Cipher) (is_taken : Bool) (s : Writer)
    → IsFaithful serde cipher
    → Follows serde cipher s
    → Follows serde cipher (write_turn serde cipher is_taken s)
unfolding write_turn
write_turn-Follows serde cipher is_taken s faith f = elim (Bool-cases s.is_running) [
  | inr off ↦ subst (Follows serde cipher) (sym (ap (λ b. if not b then s else live) off)) f
  | inl on ↦ subst (Follows serde cipher) (sym (ap (λ b. if not b then s else live) on)) (alive on)
]
  where
    live : Writer
    live = if s.is_cancelled then stop s else next_item serde cipher is_taken s.urgent s.normal s

    alive : s.is_running ≡ true → Follows serde cipher live
    alive on =
        either-Follows serde cipher s.is_cancelled (stop s)
          (next_item serde cipher is_taken s.urgent s.normal s)
          (stopped serde cipher s.nonce s.nonce s.wire s.sent s.is_running f)
          (next_item-Follows serde cipher is_taken s.urgent s.normal s faith f on)

pair_Follows :
    (serde : Json) (cipher : Cipher) (b : Bool) (x y : Bool × Writer)
    → Follows serde cipher x.1
    → Follows serde cipher y.1
    → Follows serde cipher (if b then x else y).1
pair_Follows serde cipher true x y p q = p
pair_Follows serde cipher false x y p q = q

submitted_Follows :
    (serde : Json) (cipher : Cipher) (b c : Bool) (s t : Writer)
    → Follows serde cipher s
    → Follows serde cipher t
    → Follows serde cipher (after_submit (if b then closed else if c then queued t else waits) s)
submitted_Follows serde cipher true c s t p q = p
submitted_Follows serde cipher false true s t p q = q
submitted_Follows serde cipher false false s t p q = p

turn-Follows :
    (serde : Json) (cipher : Cipher) (t : Turn) (s : Writer)
    → IsFaithful serde cipher
    → Follows serde cipher s
    → Follows serde cipher (turn serde cipher t s)
unfolding turn try_send_urgent send
turn-Follows serde cipher (urgent_message m) s faith f =
    pair_Follows serde cipher (not s.is_running) _ _ f
      (pair_Follows serde cipher (ltb (length s.urgent) urgent_queue) _ _ f f)
turn-Follows serde cipher (submit item) s faith f =
    submitted_Follows serde cipher (not s.is_running) (ltb (length s.normal) normal_queue) s _ f f
turn-Follows serde cipher (write is_taken) s faith f =
    write_turn-Follows serde cipher is_taken s faith f
turn-Follows serde cipher cancel s faith f = f

run-Follows :
    (serde : Json) (cipher : Cipher) (turns : List Turn) (s : Writer)
    → IsFaithful serde cipher
    → Follows serde cipher s
    → Follows serde cipher (run serde cipher turns s)
unfolding run
run-Follows serde cipher [] s faith f = f
run-Follows serde cipher (t ∷ turns) s faith f =
    run-Follows serde cipher turns (turn serde cipher t s) faith
      (turn-Follows serde cipher t s faith f)

-- A connection is a queue: whatever is put into its two queues and however its tasks take turns, also when
-- writing fails or the connection is cancelled in between, the reader of the other side, given the bytes
-- on the wire and anything behind them, forwards after so many records exactly the items that went out,
-- in the order in which they went out. The cipher and the JSON library are taken to read back what
-- they wrote, and the numbers of the chunks to fit in their frames.
pub read_turns-run :
    (serde : Json) (cipher : Cipher) (turns : List Turn) (rest : Bytes)
    → IsFaithful serde cipher
    → All FitsFrame (run serde cipher turns new_writer).sent
    → (read_turns serde cipher
        (length (run serde cipher turns new_writer).sent)
        (new_reader ((run serde cipher turns new_writer).wire ++ rest))).forwarded
      ≡ map incoming_of (run serde cipher turns new_writer).sent
read_turns-run serde cipher turns rest faith fits =
    (run-Follows serde cipher turns new_writer faith (start-Follows serde cipher)).heard rest fits
