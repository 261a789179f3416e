-- ===== src/Tests/Connections.antt =====
-- The theorems on connections, with a cipher that leaves everything readable.
use uniondesk.Common.{ℕ, true, some, List, [], ◌∷◌, ◌++◌, map, length, ◌≡◌, refl, inl, All}
use uniondesk.Protocol.{Message}
use uniondesk.Protocol.Chunk.{to_le_bytes}
use uniondesk.Codec.{Outgoing, outgoing_message, encode_inner, write_record, CodecError}
use uniondesk.Codec.Tags.{FitsFrame}
use uniondesk.Session.{
  Cipher, Writer, new_writer, Turn, urgent_message, submit, write, run, turn, try_send_urgent, send,
  write_turn, write_item, read_turns, new_reader,
}
use uniondesk.Session.Wire.{IsFaithful, incoming_of}
use uniondesk.Session.Delivery.{read_turns-run}
use uniondesk.Session.Draining.{CanSend, write_turns, write_turns-drains}
use uniondesk.Session.Endings.{IsOver, write_turn-unencodable}
use uniondesk.Tests.Records.{tiny, tiny_back}

abbrev plain_cipher : Cipher
plain_cipher = record {
  write_message = λ n plain. some plain;
  read_message = λ n sealed. some sealed;
}

plain_cipher-IsFaithful : IsFaithful tiny plain_cipher
plain_cipher-IsFaithful = record { reads_back = λ n plain sealed h. cc; parses_back = tiny_back }

abbrev pong : ℕ → Outgoing
pong n = outgoing_message (Message.pong n)

-- A normal item, an urgent one that overtakes it, and two rounds of the writer.
abbrev busy : List Turn
busy = submit (pong 5) ∷ urgent_message (Message.pong 6) ∷ write true ∷ write true ∷ []

busy_sends : (run tiny plain_cipher busy new_writer).sent ≡ pong 6 ∷ pong 5 ∷ []
unfolding run turn try_send_urgent send write_turn write_item encode_inner write_record to_le_bytes
busy_sends = refl

busy_fits : All FitsFrame (run tiny plain_cipher busy new_writer).sent
unfolding run turn try_send_urgent send write_turn write_item encode_inner write_record to_le_bytes
busy_fits = (tt, (tt, tt))

read_turns-run_example :
    (read_turns tiny plain_cipher
      (length (run tiny plain_cipher busy new_writer).sent)
      (new_reader ((run tiny plain_cipher busy new_writer).wire ++ 9 ∷ []))).forwarded
    ≡ map incoming_of (run tiny plain_cipher busy new_writer).sent
read_turns-run_example =
    read_turns-run tiny plain_cipher busy (9 ∷ []) plain_cipher-IsFaithful busy_fits

abbrev full : Writer
full = record new_writer { urgent = pong 6 ∷ []; normal = pong 5 ∷ [] }

sends_pong : (n : ℕ) → CanSend tiny plain_cipher (pong n)
unfolding encode_inner write_record to_le_bytes
sends_pong n = record {
  plain = 0 ∷ n ∷ [];
  encodes = refl;
  seals = λ k. (0 ∷ n ∷ [], _, refl, refl);
}

write_turns-drains_example :
    let t = write_turns tiny plain_cipher 2 full in
    (t.sent ≡ pong 6 ∷ pong 5 ∷ []) × (t.urgent ≡ []) × (t.normal ≡ []) × (t.is_running ≡ true)
write_turns-drains_example =
    write_turns-drains tiny plain_cipher full (sends_pong 6, tt) (sends_pong 5, tt) refl refl

-- This library cannot write a ping.
abbrev stuck : Writer
stuck = record new_writer { normal = outgoing_message (Message.ping 1) ∷ pong 5 ∷ [] }

no_ping : encode_inner tiny (outgoing_message (Message.ping 1)) ≡ inl CodecError.json_error
unfolding encode_inner
no_ping = refl

write_turn-unencodable_example :
    IsOver [] [] (run tiny plain_cipher busy (write_turn tiny plain_cipher true stuck))
write_turn-unencodable_example =
    write_turn-unencodable tiny plain_cipher true busy stuck (outgoing_message (Message.ping 1))
      (pong 5 ∷ []) CodecError.json_error refl refl refl refl no_ping
